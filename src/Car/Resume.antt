-- ===== src/Car/Resume.antt =====
-- A CAR file from any offset is the rest of the whole file, whatever earlier writes cached.
use boost.Common.{
  ℕ, ◌+◌, ◌-◌, ◌<◌, ◌≡◌, refl, Bool-cases, Option-cases, true, false, inl, inr, List, ◌++◌, some,
  ltb, leb, ◌==◌, if◌then◌else◌, u64, u64_mod, length, drop, drop_all, append_nil, lookup, insert,
  lookup-insert, ok, arith, sym, ap, ◌∙◌,
}
use boost.Car.Writer.{BlockInfo, BlockInfoCache, Stream, Source, fetch_block, next_cid}
use boost.Car.Layout.{Relies, info_at, rest_of, send_block_lem}

module _ (src : Source) (r : Relies src) (w : ℕ) where
  rest_of-drop :
      (off : ℕ) (bytes : List ℕ)
      → off + length bytes < u64_mod
      → rest_of src r w off bytes ≡ drop (w - off) bytes
  rest_of-drop off bytes small =
      let same : u64 (off + length bytes) ≡ off + length bytes = omega arith in
      elim (Bool-cases (ltb w (off + length bytes))) [
        | inl h ↦
            rw (same, h)
              (ap (λ k. drop k bytes)
                (let skip : (if leb off w then w - off else 0) ≡ w - off = ground arith in skip))
        | inr h ↦ rw (same, h) (sym (drop_all (w - off) bytes (ground (arith, h))))
      ]

  -- What the call for a block does, where the cache has nothing false on the block.
  pub record Sends (c : ℕ) (nd : List ℕ × List ℕ) (s : Stream) : Type 0 where
    pub infos : BlockInfoCache
    pub runs : next_cid src w c s ≡ (
      ok nd.0,
      record {
        out = s.out ++ drop (w - s.offset) (src.ld_write c nd.1);
        offset = s.offset + length (src.ld_write c nd.1);
        block_infos = infos;
      },
    )
    pub known : lookup c infos ≡ some (info_at src s.offset (c, nd))
    pub others : (d : ℕ) → (c == d) ≡ false → lookup d infos ≡ lookup d s.block_infos

  fetched :
      (c : ℕ) (nd : List ℕ × List ℕ) (s : Stream)
      → src.get_block c ≡ some nd
      → s.offset + length (src.ld_write c nd.1) < u64_mod
      → fetch_block src w c s ≡ (
        ok nd.0,
        record {
          out = s.out ++ drop (w - s.offset) (src.ld_write c nd.1);
          offset = s.offset + length (src.ld_write c nd.1);
          block_infos = insert c (info_at src s.offset (c, nd)) s.block_infos;
        },
      )
  unfolding fetch_block
  fetched c nd s stored small =
      let same : u64 (s.offset + length (src.ld_write c nd.1))
          ≡ s.offset + length (src.ld_write c nd.1) =
        omega arith in
      let rest = rest_of-drop s.offset (src.ld_write c nd.1) small in
      rw (stored, fetch_block) (rw (send_block_lem src r w c nd s, rest, same) refl)

  skipped :
      (c : ℕ) (nd : List ℕ × List ℕ) (s : Stream)
      → s.offset + length (src.ld_write c nd.1) < u64_mod
      → lookup c s.block_infos ≡ some (info_at src s.offset (c, nd))
      → leb (u64 (s.offset + length (src.ld_write c nd.1))) w ≡ true
      → next_cid src w c s ≡ (
        ok nd.0,
        record {
          out = s.out ++ drop (w - s.offset) (src.ld_write c nd.1);
          offset = s.offset + length (src.ld_write c nd.1);
          block_infos = s.block_infos;
        },
      )
  unfolding next_cid
  skipped c nd s small here past =
      let bytes = src.ld_write c nd.1 in
      let same : u64 (s.offset + length bytes) ≡ s.offset + length bytes = omega arith in
      let none_left : s.out ++ drop (w - s.offset) bytes ≡ s.out =
        ap (λ x. s.out ++ x) (drop_all (w - s.offset) bytes (ground (arith, past, same)))
        ∙ append_nil s.out in
      ground (arith, here, past, same, none_left)

  pub next_cid_lem :
      (c : ℕ) (nd : List ℕ × List ℕ) (s : Stream)
      → src.get_block c ≡ some nd
      → s.offset + length (src.ld_write c nd.1) < u64_mod
      → ((bi : BlockInfo) → lookup c s.block_infos ≡ some bi → bi ≡ info_at src s.offset (c, nd))
      → Sends c nd s
  unfolding next_cid
  next_cid_lem c nd s stored small true_of =
      let fresh = fetched c nd s stored small in
      let sent : next_cid src w c s ≡ fetch_block src w c s → Sends c nd s = λ e. record {
        infos = insert c (info_at src s.offset (c, nd)) s.block_infos;
        runs = e ∙ fresh;
        known = ground (arith, lookup-insert c c (info_at src s.offset (c, nd)) s.block_infos);
        others = λ d n. rw (lookup-insert c d (info_at src s.offset (c, nd)) s.block_infos, n) refl;
      } in
      elim (Option-cases (lookup c s.block_infos)) [
        | inl e ↦ sent (ground (arith, e))
        | inr (bi, e) ↦
            let is : bi ≡ info_at src s.offset (c, nd) = true_of bi e in
            let here : lookup c s.block_infos ≡ some (info_at src s.offset (c, nd)) =
              e ∙ ap some is in
            elim (Bool-cases (leb (u64 (s.offset + length (src.ld_write c nd.1))) w)) [
              | inl past ↦ record {
                infos = s.block_infos;
                runs = skipped c nd s small here past;
                known = here;
                others = λ d _. refl;
              }
              | inr n ↦ sent (ground (arith, here, n))
            ]
      ]
