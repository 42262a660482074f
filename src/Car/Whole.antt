-- ===== src/Car/Whole.antt =====
-- A whole write: the header, and the walk over the DAG.
use boost.Common.{
  >>-after, ℕ, ◌+◌, ◌-◌, ◌<◌, ◌≡◌, refl, Bool-cases, false, inl, inr, List, [], ◌∷◌, ◌++◌, some,
  leb, u64_mod, length, drop, drop_all, drop_nil, drop-append_both, contains-apart, append_nil,
  lookup, ok, arith, contains, sym, ap, ◌∙◌, length-append, subst, some_inj, Result,
}
use mathlib.Core.List.{append_assoc}
use boost.Car.Writer.{
  BlockInfoCache, WriteError, header_error, Stream, Writing, Source, next_cid, write_header,
  write_blocks, write,
}
use boost.Car.Layout.{Block, cids, Distinct, Relies, body, Stored, Fits, Fits-frame, skip_write_lem}
use boost.Car.Resume.{Sends, next_cid_lem}
use boost.Car.Walk.{each, Gives, Walks, Linked, next_cid-Gives}

module _ (src : Source) (r : Relies src) (links : ℕ → List ℕ)
    (node_links : (c : ℕ) (nd : List ℕ × List ℕ) → src.get_block c ≡ some nd → nd.0 ≡ links c)
    (w : ℕ) where
  joined :
      (s : Stream) (bytes rest : List ℕ) (m : BlockInfoCache)
      → ◌≡◌ {A = Result WriteError (Unit {0}) × Stream}
          (
            ok tt,
            record {
              out =
                  (s.out ++ drop (w - s.offset) bytes) ++ drop (w - (s.offset + length bytes)) rest;
              offset = s.offset + length bytes + length rest;
              block_infos = m;
            },
          )
          (
            ok tt,
            record {
              out = s.out ++ drop (w - s.offset) (bytes ++ rest);
              offset = s.offset + length (bytes ++ rest);
              block_infos = m;
            },
          )
  joined s bytes rest m =
      let left : w - (s.offset + length bytes) ≡ w - s.offset - length bytes = omega arith in
      let size : s.offset + length bytes + length rest ≡ s.offset + length (bytes ++ rest) =
        omega (arith, length-append bytes rest) in
      rw (drop-append_both (w - s.offset) bytes rest, left, size) (rw append_assoc refl)

  -- The blocks from an offset, one after the other.
  each_lem :
      (bs : List Block) (s : Stream)
      → Distinct bs
      → Stored src bs
      → Fits src s.offset bs s.block_infos
      → Linked links s.block_infos
      → s.offset + length (body src bs) < u64_mod
      → (m : BlockInfoCache) × Linked links m
        × (each (next_cid src w) (cids bs) s ≡ (
          ok tt,
          record {
            out = s.out ++ drop (w - s.offset) (body src bs);
            offset = s.offset + length (body src bs);
            block_infos = m;
          },
        ))
        × Fits src s.offset bs m
        × ((d : ℕ) → contains d (cids bs) ≡ false → lookup d m ≡ lookup d s.block_infos)
  unfolding each
  each_lem [] s _ _ _ linked _ =
      let kept : s.out ++ drop (w - s.offset) [] ≡ s.out =
        ap (λ x. s.out ++ x) (drop_nil {A = ℕ} (w - s.offset)) ∙ append_nil s.out in
      (s.block_infos, linked, ground (arith, kept), tt, λ d _. refl)
  each_lem ((c, nd) ∷ bs) s (new, distinct) (here, stored) (true_of, fits) linked small =
      let bytes = src.ld_write c nd.1 in
      let sizes = length-append bytes (body src bs) in
      let sends : Sends src r w c nd s =
        next_cid_lem src r w c nd s here (omega (arith, sizes)) true_of in
      let s1 : Stream = record {
        out = s.out ++ drop (w - s.offset) bytes;
        offset = s.offset + length bytes;
        block_infos = sends.infos;
      } in
      let (_, linked1) =
        subst (Gives (λ t. Linked links t.block_infos) (links c)) sends.runs
          (next_cid-Gives src r links node_links w c s linked) in
      let (m, linked2, run, fit, frame) =
        each_lem bs s1 distinct stored
          (Fits-frame src (s.offset + length bytes) bs s.block_infos sends.infos
            (λ d e. sends.others d (contains-apart c d (cids bs) new e)) fits)
          linked1 (omega (arith, sizes)) in
      (
        m,
        linked2,
        >>-after (next_cid src w c) (each (next_cid src w) (cids bs)) s s1 sends.runs
            ∙ run
            ∙ joined s bytes (body src bs) m,
        (λ bi e. some_inj (sym e ∙ frame c new ∙ sends.known), fit),
        λ d e. frame d (ground (arith, e)) ∙ sends.others d (ground (arith, e)),
      )

  write_header_lem :
      (s : Stream)
      → write_header src w s
        ≡ (ok (length src.header), record s { out = s.out ++ drop w src.header })
  unfolding write_header
  write_header_lem s = elim (Bool-cases (leb (length src.header) w)) [
    | inl past ↦
        let kept : s.out ++ drop w src.header ≡ s.out =
          ap (λ x. s.out ++ x) (drop_all w src.header (ground (arith, past))) ∙ append_nil s.out in
        rw (r.header_sized) (rw (past, kept) refl)
    | inr n ↦ ground (arith, r.header_sized, n, skip_write_lem src r header_error w src.header s)
  ]

  -- What a cache may hold of a DAG whose walk gives these blocks.
  pub record Consistent (bs : List Block) (m : BlockInfoCache) : Type 0 where
    pub fits : Fits src (length src.header) bs m
    pub linked : Linked links m

  module _ (walk : (ℕ → Writing (List ℕ)) → ℕ → Writing (Unit {0})) where
    started :
        (root : ℕ) (s : Stream)
        → write src walk root w s
          ≡ walk
              (next_cid src w)
              root
              (record s { out = s.out ++ drop w src.header; offset = length src.header })
    unfolding write write_blocks
    started root s = ground (arith, write_header_lem s)

    whole :
        (s : Stream) (rest : List ℕ) (m : BlockInfoCache)
        → ◌≡◌ {A = Result WriteError (Unit {0}) × Stream}
            (
              ok tt,
              record {
                out = (s.out ++ drop w src.header) ++ drop (w - length src.header) rest;
                offset = length src.header + length rest;
                block_infos = m;
              },
            )
            (
              ok tt,
              record {
                out = s.out ++ drop w (src.header ++ rest);
                offset = length (src.header ++ rest);
                block_infos = m;
              },
            )
    whole s rest m =
        rw (drop-append_both w src.header rest, length-append {0} src.header rest)
          (rw append_assoc refl)

    -- Where the blocks are in the store, in the order of the walk, and the writer takes everything,
    -- a write from any offset gives exactly the bytes of the whole CAR file from there on, whatever
    -- earlier writes left in the cache, and leaves a cache that a later write may use.
    pub write-resumes :
        (root : ℕ) (bs : List Block) (s : Stream)
        → Walks walk links root (cids bs)
        → Distinct bs
        → Stored src bs
        → Consistent bs s.block_infos
        → length src.header + length (body src bs) < u64_mod
        → (m : BlockInfoCache) × Consistent bs m
          × (write src walk root w s ≡ (
            ok tt,
            record {
              out = s.out ++ drop w (src.header ++ body src bs);
              offset = length (src.header ++ body src bs);
              block_infos = m;
            },
          ))
    write-resumes root bs s walks distinct stored consistent small =
        let h = src.header in
        let s1 : Stream = record s { out = s.out ++ drop w h; offset = length h } in
        let (m, linked, run, fit, _) =
          each_lem bs s1 distinct stored consistent.fits consistent.linked small in
        let walked : walk (next_cid src w) root s1 ≡ each (next_cid src w) (cids bs) s1 =
          walks.visits (next_cid src w) (λ t. Linked links t.block_infos)
            (next_cid-Gives src r links node_links w) s1 consistent.linked in
        (
          m,
          record { fits = fit; linked = linked },
          started root s ∙ walked ∙ run ∙ whole s (body src bs) m,
        )
