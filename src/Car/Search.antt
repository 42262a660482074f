-- ===== src/Car/Search.antt =====
-- The first part of a read, which a binary search finds, and a whole read.
use boost.Common.{
  ℕ, zero, suc, ◌+◌, ◌-◌, ◌≤◌, ◌<◌, ◌≡◌, refl, Bool, Bool-cases, true, false, inl, inr, List, [],
  ◌∷◌, ◌++◌, none, some, ◌==◌, if◌then◌else◌, length, drop, take, drop-append_both, drop_all,
  drop_nil, arith, ap, sym, ◌∙◌, leb,
}
use boost.Car.Parts.{
  ReaderAtSize, unexpected_eof, place, new_multi_reader_at, contributes, read_parts, need_skip_of,
  at_end, finish, read_at,
}
use boost.Car.Reads.{AllHold, joined, read_parts_lem, read_no_parts, take_all, length-take}

abbrev pub Rising : ℕ → (ℕ → Bool) → Type 0
Rising n f = (i : ℕ) → suc i < n → f i ≡ true → f (suc i) ≡ true

-- What `sort.Search` documents: of a test that stays true once it is true, the first index at which
-- it is true, or the length.
pub record Searches (search : ℕ → (ℕ → Bool) → ℕ) : Type 0 where
  pub at_most : (n : ℕ) (f : ℕ → Bool) → search n f ≤ n
  pub below : (n : ℕ) (f : ℕ → Bool) → Rising n f → (i : ℕ) → i < search n f → f i ≡ false
  pub found : (n : ℕ) (f : ℕ → Bool) → Rising n f → search n f < n → f (search n f) ≡ true

length-place : (base : ℕ) (ps : List ReaderAtSize) → length (place base ps) ≡ length ps
unfolding place
length-place base [] = refl
length-place base (p ∷ ps) = omega (arith, length-place (base + p.size) ps)

contributes-Rising :
    (off base : ℕ) (ps : List ReaderAtSize) (i : ℕ)
    → suc i < length ps
    → contributes off (place base ps) i ≡ true
    → contributes off (place base ps) (suc i) ≡ true
unfolding contributes place
contributes-Rising off base [] i h e = absurd (omega arith)
contributes-Rising off base (p ∷ []) i h e = absurd (omega arith)
contributes-Rising off base (p ∷ q ∷ ps) zero h e = ground arith
contributes-Rising off base (p ∷ q ∷ ps) (suc i) h e =
    contributes-Rising off (base + p.size) (q ∷ ps) i (omega arith) e

-- The loop from the part that the search found.
from_part :
    (off want base s : ℕ) (ps : List ReaderAtSize) (cs : List (List ℕ))
    → AllHold ps cs
    → base ≤ off
    → s ≤ length ps
    → ((i : ℕ) → i < s → contributes off (place base ps) i ≡ false)
    → (s < length ps → contributes off (place base ps) s ≡ true)
    → let parts = drop s (place base ps) in
      read_parts (suc (length parts)) parts want (need_skip_of off parts) []
      ≡ some (take want (drop (off - base) (joined cs)), none)
unfolding place contributes need_skip_of
from_part off want base zero [] [] hs b n low high =
    read_no_parts 0 want off []
    ∙ ap (λ b. some (b, none))
        (sym (ap (take want) (drop_nil {A = ℕ} (off - base)) ∙ take_all want [] (omega arith)))
from_part off want base zero [] (c ∷ cs) hs b n low high = absurd hs
from_part off want base zero (p ∷ ps) [] hs b n low high = absurd hs
from_part off want base zero (p ∷ ps) (c ∷ cs) (h, hs) b n low high =
    read_parts_lem (suc (length (place base (p ∷ ps)))) base (p ∷ ps) (c ∷ cs) want (off - base) []
      (omega (arith, length-place base (p ∷ ps))) (h, hs)
      (let hit = high (omega arith) in ground (arith, hit, h.sized))
from_part off want base (suc s) [] cs hs b n low high = absurd (omega arith)
from_part off want base (suc s) (p ∷ ps) [] hs b n low high = absurd hs
from_part off want base (suc s) (p ∷ ps) (c ∷ cs) (h, hs) b n low high =
    let past : base + p.size ≤ off = (let miss = low 0 (omega arith) in ground (arith, miss)) in
    let left : off - base - length c ≡ off - (base + p.size) = omega (arith, h.sized) in
    from_part off want (base + p.size) s ps cs hs past (omega arith)
      (λ i l. low (suc i) (omega arith)) (λ l. high (omega arith))
    ∙ ap (λ b. some (take want b, none))
        (sym (
          drop-append_both (off - base) c (joined cs)
          ∙ ap (λ x. x ++ drop (off - base - length c) (joined cs))
              (drop_all (off - base) c (omega (arith, h.sized)))
          ∙ ap (λ k. drop k (joined cs)) left))

enough :
    (want : ℕ) (rest : List ℕ)
    → (if length (take want rest) == want then none else some unexpected_eof)
      ≡ (if leb want (length rest) then none else some unexpected_eof)
enough want rest = elim (Bool-cases (leb want (length rest))) [
  | inl e ↦ ground (arith, e, length-take want rest)
  | inr e ↦ ground (arith, e, ap {A = List ℕ} length (take_all want rest (ground (arith, e))))
]

-- Where each part gives the bytes that are asked for within it without an error, also at its end
-- (a reader may report the end of its input together with its last bytes; this one does not): a read
-- of a number of bytes from an offset ends, and gives the bytes of the parts put together from that
-- offset on, as many as there are of those that are wanted, and the error that says so exactly where
-- there are fewer.
pub read_at_lem :
    (search : ℕ → (ℕ → Bool) → ℕ) (ps : List ReaderAtSize) (cs : List (List ℕ)) (want off : ℕ)
    → Searches search
    → AllHold ps cs
    → let rest = drop off (joined cs) in
      read_at search (new_multi_reader_at ps) want off
      ≡ some (take want rest, (if leb want (length rest) then none else some unexpected_eof))
unfolding read_at new_multi_reader_at at_end
read_at_lem search ps cs want off by hs =
    let all = place 0 ps in
    let test = contributes off all in
    let rising : Rising (length all) test =
      λ i l e. contributes-Rising off 0 ps i (omega (arith, length-place 0 ps)) e in
    let size = length-place 0 ps in
    let looped =
      from_part off want 0 (search (length all) test) ps cs hs (omega arith)
        (omega (arith, by.at_most (length all) test)) (by.below (length all) test rising)
        (λ l. by.found (length all) test rising (omega arith)) in
    let off_same : off - 0 ≡ off = omega arith in
    ap (finish want) (looped ∙ ap (λ k. some (take want (drop k (joined cs)), none)) off_same)
    ∙ ap (λ e. some (take want (drop off (joined cs)), e)) (enough want (drop off (joined cs)))
