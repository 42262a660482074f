-- ===== src/Car/Layout.antt =====
-- Where the blocks of a CAR file lie, and what a cache of their places may hold.
use boost.Common.{
  ℕ, zero, suc, ◌+◌, ◌-◌, ◌≡◌, refl, Bool-cases, true, false, inl, inr, List, [], ◌∷◌, ◌++◌, some,
  ltb, leb, if◌then◌else◌, u64, length, drop, drop_all, append_nil, lookup, insert, ok, arith, All,
  contains, sym, ap, ◌∙◌,
}
use boost.Car.Writer.{
  BlockInfo, BlockInfoCache, WriteError, write_error, Stream, Source, write_bytes, skip_write,
  send_block,
}

-- A block: its cid, and its links and data.
abbrev pub Block : Type 0
Block = ℕ × (List ℕ × List ℕ)

abbrev pub cids : List Block → List ℕ
cids [] = []
cids ((c, nd) ∷ bs) = c ∷ cids bs

abbrev pub Distinct : List Block → Type 0
Distinct [] = Unit
Distinct ((c, nd) ∷ bs) = (contains c (cids bs) ≡ false) × Distinct bs

module _ (src : Source) where
  -- The writer takes what it is given, and sizes are the numbers of bytes.
  pub record Relies : Type 0 where
    pub accepts : (out bytes : List ℕ) → src.accept out bytes ≡ (out ++ bytes, true)
    pub sized : (c : ℕ) (byts : List ℕ) → src.ld_size c byts ≡ length (src.ld_write c byts)
    pub header_sized : src.header_size ≡ some (length src.header)

  -- The CAR file after its header.
  abbrev pub body : List Block → List ℕ
  body [] = []
  body ((c, nd) ∷ bs) = src.ld_write c nd.1 ++ body bs

  abbrev pub info_at : ℕ → Block → BlockInfo
  info_at off (c, nd) = record { offset = off; size = length (src.ld_write c nd.1); links = nd.0 }

  -- Blocks that are in the store.
  abbrev pub Stored : List Block → Type 0
  Stored bs = All (λ b. src.get_block b.0 ≡ some b.1) bs

  -- What the cache holds of blocks that lie one after the other from an offset is true.
  abbrev pub Fits : ℕ → List Block → BlockInfoCache → Type 0
  Fits off [] m = Unit
  Fits off ((c, nd) ∷ bs) m =
      ((bi : BlockInfo) → lookup c m ≡ some bi → bi ≡ info_at off (c, nd))
      × Fits (off + length (src.ld_write c nd.1)) bs m

  pub Fits-frame :
      (off : ℕ) (bs : List Block) (m m' : BlockInfoCache)
      → ((d : ℕ) → contains d (cids bs) ≡ true → lookup d m' ≡ lookup d m)
      → Fits off bs m
      → Fits off bs m'
  Fits-frame off [] m m' same h = tt
  Fits-frame off ((c, nd) ∷ bs) m m' same h = (
    λ bi e. h.0 bi (sym (same c (ground arith)) ∙ e),
    Fits-frame (off + length (src.ld_write c nd.1)) bs m m' (λ d e. same d (ground (arith, e))) h.1,
  )

  pub Fits-empty : (off : ℕ) (bs : List Block) → Fits off bs []
  Fits-empty off [] = tt
  Fits-empty off ((c, nd) ∷ bs) =
      (λ bi e. absurd (ground (arith, e)), Fits-empty (off + length (src.ld_write c nd.1)) bs)

  module _ (r : Relies) where
    write_bytes_lem :
        (e : WriteError) (bytes : List ℕ) (s : Stream)
        → write_bytes src e bytes s ≡ (ok tt, record s { out = s.out ++ bytes })
    unfolding write_bytes
    write_bytes_lem e bytes s = ground (arith, r.accepts s.out bytes)

    short_skip :
        (skip : ℕ) (bytes : List ℕ) (s : Stream)
        → leb (length bytes) skip ≡ true
        → record s { out = s.out ++ drop skip bytes } ≡ s
    short_skip skip bytes s h =
        ap (λ o. record s { out = o })
          (ap (λ x. s.out ++ x) (drop_all skip bytes (ground (arith, h))) ∙ append_nil s.out)

    pub skip_write_lem :
        (e : WriteError) (skip : ℕ) (bytes : List ℕ) (s : Stream)
        → skip_write src e skip bytes s ≡ (ok tt, record s { out = s.out ++ drop skip bytes })
    unfolding skip_write
    skip_write_lem e zero bytes s = write_bytes_lem e bytes s
    skip_write_lem e (suc k) bytes s = elim (Bool-cases (leb (length bytes) (suc k))) [
      | inl z ↦ ground (arith, z, short_skip (suc k) bytes s z)
      | inr z ↦ ground (arith, z, write_bytes_lem e (drop (suc k) bytes) s)
    ]

    -- What is written of a block that starts at an offset.
    abbrev pub rest_of : ℕ → ℕ → List ℕ → List ℕ
    rest_of write_offset off bytes =
        if ltb write_offset (u64 (off + length bytes))
        then drop (if leb off write_offset then write_offset - off else 0) bytes
        else []

    pub send_block_lem :
        (w c : ℕ) (nd : List ℕ × List ℕ) (s : Stream)
        → send_block src w c nd s ≡ (
          ok nd.0,
          record {
            out = s.out ++ rest_of w s.offset (src.ld_write c nd.1);
            offset = u64 (s.offset + length (src.ld_write c nd.1));
            block_infos = insert c (info_at s.offset (c, nd)) s.block_infos;
          },
        )
    unfolding send_block
    send_block_lem w c (links, byts) s =
        rw (r.sized c byts)
          (elim (Bool-cases (ltb w (u64 (s.offset + length (src.ld_write c byts))))) [
            | inl z ↦ rw z (
                ground (
                  arith,
                  skip_write_lem write_error (if leb s.offset w then w - s.offset else 0)
                      (src.ld_write c byts) s,
                ))
            | inr z ↦ rw (z, append_nil s.out) refl
          ])
