-- ===== src/Car/Parts.antt =====
-- car/multi_reader_at.go: several readers as one, for offsets that are not negative.
use boost.Common.{
  ℕ, zero, suc, ◌+◌, ◌-◌, Bool, false, List, [], ◌∷◌, ◌++◌, Option, none, some, ltb, ◌==◌,
  if◌then◌else◌, length, drop,
}

-- A reader that is not part of the model: what it gives for a number of bytes and an offset, and
-- the error, if there was one.
pub record ReaderAtSize : Type 0 where
  pub size : ℕ
  pub read : ℕ → ℕ → List ℕ × Option ℕ

pub record ReaderAtOffset : Type 0 where
  pub off : ℕ
  pub reader : ReaderAtSize

pub data ReadError : Type 0 where
  unexpected_eof : ReadError
  part_error : ℕ → ReadError

-- The loop of `NewMultiReaderAt`, from an offset.
unfoldable pub place : ℕ → List ReaderAtSize → List ReaderAtOffset
place off [] = []
place off (p ∷ ps) = record { off = off; reader = p } ∷ place (off + p.size) ps

unfoldable pub new_multi_reader_at : List ReaderAtSize → List ReaderAtOffset
unfolding place
new_multi_reader_at parts = place 0 parts

-- `parts[i]` will contribute bytes.
unfoldable pub contributes : ℕ → List ReaderAtOffset → ℕ → Bool
contributes off [] i = false
contributes off (p ∷ ps) zero = ltb off (p.off + p.reader.size)
contributes off (p ∷ ps) (suc i) = contributes off ps i

-- The loop of `ReadAt`: `k` bytes are wanted still. It ends with what was read; `none` is more
-- rounds than the fuel allows.
unfoldable pub read_parts :
    ℕ → List ReaderAtOffset → ℕ → ℕ → List ℕ → Option (List ℕ × Option ReadError)
read_parts zero parts k need_skip got = none
read_parts (suc fuel) [] k need_skip got = some (got, none)
read_parts (suc fuel) (p ∷ ps) zero need_skip got = some (got, none)
read_parts (suc fuel) (p ∷ ps) (suc k) need_skip got =
    let left = p.reader.size - need_skip in
    let (bytes, failed) = p.reader.read (if ltb left (suc k) then left else suc k) need_skip in
    let next =
      read_parts fuel (if length bytes + need_skip == p.reader.size then ps else p ∷ ps)
        (suc k - length bytes) 0 (got ++ bytes) in
    elim failed [ none ↦ next | some e ↦ some (got, some (part_error e)) ]

unfoldable pub need_skip_of : ℕ → List ReaderAtOffset → ℕ
need_skip_of off [] = off
need_skip_of off (p ∷ ps) = off - p.off

unfoldable pub at_end : ℕ → List ℕ × Option ReadError → List ℕ × Option ReadError
at_end want (got, some e) = (got, some e)
at_end want (got, none) = (got, (if length got == want then none else some unexpected_eof))

abbrev pub finish : ℕ → Option (List ℕ × Option ReadError) → Option (List ℕ × Option ReadError)
finish want none = none
finish want (some r) = some (at_end want r)

-- `search` is `sort.Search`. One round more than there are parts.
module _ (search : ℕ → (ℕ → Bool) → ℕ) where
  unfoldable pub read_at : List ReaderAtOffset → ℕ → ℕ → Option (List ℕ × Option ReadError)
  read_at all want off =
      let parts = drop (search (length all) (contributes off all)) all in
      finish want (read_parts (suc (length parts)) parts want (need_skip_of off parts) [])
