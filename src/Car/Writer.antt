-- ===== src/Car/Writer.antt =====
-- car/car_offset_writer.go over the cache of car/block_info_cache.go: a DAG of blocks as the bytes of
-- a CAR file, from an offset. A map of blocks is an association list by cid.
use boost.Common.{
  ℕ, ◌+◌, ◌-◌, Bool, List, Option, none, some, ltb, leb, ◌==◌, if◌then◌else◌, u64, length, drop,
  lookup, insert, ok, err, Action, pure, raise, modify, ◌>>=◌, ◌>>◌,
}

-- What is kept of a block: where it starts in the CAR file, its size there, and its links.
pub record BlockInfo : Type 0 where
  pub offset : ℕ
  pub size : ℕ
  pub links : List ℕ

abbrev pub BlockInfoCache : Type 0
BlockInfoCache = List (ℕ × BlockInfo)

pub data WriteError : Type 0 where
  size_error header_error block_error write_error : WriteError

-- `out` is what the writer has been given, `offset` the offset of the next block.
pub record Stream : Type 0 where
  pub out : List ℕ
  pub offset : ℕ
  pub block_infos : BlockInfoCache

abbrev pub Writing : Type 0 → Type 0
Writing A = Action Stream WriteError A

-- The store and the packages that encode: `header_size` and `header` of go-car for the root, the
-- links and the data of a block, `ld_size` and `ld_write` of go-car, which give the size and the
-- bytes of a block in a CAR file, and the writer: what it has after a call, and whether the call
-- succeeded.
pub record Source : Type 0 where
  pub header_size : Option ℕ
  pub header : List ℕ
  pub get_block : ℕ → Option (List ℕ × List ℕ)
  pub ld_size : ℕ → List ℕ → ℕ
  pub ld_write : ℕ → List ℕ → List ℕ
  pub accept : List ℕ → List ℕ → List ℕ × Bool

module _ (src : Source) where
  unfoldable pub write_bytes : WriteError → List ℕ → Writing (Unit {0})
  write_bytes e bytes s =
      let (out, done) = src.accept s.out bytes in
      let s' : Stream = record s { out = out } in if done then (ok tt, s') else (err e, s')

  -- What is encoded into the buffer of `skipWrite` is `bytes`.
  unfoldable pub skip_write : WriteError → ℕ → List ℕ → Writing (Unit {0})
  skip_write e skip bytes =
      if skip == 0
      then write_bytes e bytes
      else if leb (length bytes) skip
      then pure tt
      else write_bytes e (drop skip bytes)

  unfoldable pub write_header : ℕ → Writing ℕ
  write_header write_offset = elim src.header_size [
    | none ↦ raise size_error
    | some header_size ↦
        if leb header_size write_offset
        then pure header_size
        else (do skip_write header_error write_offset src.header; pure header_size)
  ]

  -- The block is not skipped by the cache.
  unfoldable pub send_block : ℕ → ℕ → List ℕ × List ℕ → Writing (List ℕ)
  send_block write_offset c (links, byts) s =
      let ldsize = src.ld_size c byts in
      let next_block_offset = u64 (s.offset + ldsize) in
      let sent : Writing (Unit {0}) =
        if ltb write_offset next_block_offset
        then skip_write write_error
            (if leb s.offset write_offset then write_offset - s.offset else 0) (src.ld_write c byts)
        else pure tt in
      (do
        sent
        modify (λ t. record t {
          block_infos =
              insert c (record { offset = s.offset; size = ldsize; links = links }) t.block_infos;
          offset = next_block_offset;
        })
        pure links)
        s

  unfoldable pub fetch_block : ℕ → ℕ → Writing (List ℕ)
  fetch_block write_offset c = elim (src.get_block c) [
    | none ↦ raise block_error
    | some nd ↦ send_block write_offset c nd
  ]

  unfoldable pub next_cid : ℕ → ℕ → Writing (List ℕ)
  next_cid write_offset c s = elim (lookup c s.block_infos) [
    | none ↦ fetch_block write_offset c s
    | some cached ↦
        let next_block_offset = u64 (cached.offset + cached.size) in
        if leb next_block_offset write_offset
        then (ok cached.links, record s { offset = next_block_offset })
        else fetch_block write_offset c s
  ]

  -- `walk` is `merkledag.Walk`: it calls its argument for a cid, and for those that it links to.
  module _ (walk : (ℕ → Writing (List ℕ)) → ℕ → Writing (Unit {0})) where
    unfoldable pub write_blocks : ℕ → ℕ → ℕ → Writing (Unit {0})
    write_blocks payload_cid header_size write_offset = do
      modify (λ s. record s { offset = header_size })
      walk (next_cid write_offset) payload_cid

    unfoldable pub write : ℕ → ℕ → Writing (Unit {0})
    write payload_cid write_offset = do
      header_size ← write_header write_offset
      write_blocks payload_cid header_size write_offset
