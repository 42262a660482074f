-- ===== src/Car/Reads.antt =====
-- A read over several parts is a read of the parts put together.
use boost.Common.{
  ℕ, zero, suc, ◌+◌, ◌-◌, ◌≤◌, ◌<◌, ◌≡◌, refl, Bool-cases, true, inl, inr, List, [], ◌∷◌, ◌++◌,
  none, some, ltb, ◌==◌, if◌then◌else◌, length, length-drop, drop, take, drop-append, ==_iff,
  drop_nil, ltb→lt, append_nil, arith, ap, sym, ◌∙◌,
}
use mathlib.Core.List.{append_assoc}
use boost.Car.Parts.{ReaderAtSize, ReaderAtOffset, place, read_parts}

-- A reader of some bytes: within them it gives what is asked for, without an error.
pub record Holds (p : ReaderAtSize) (content : List ℕ) : Type 0 where
  pub sized : p.size ≡ length content
  pub reads :
      (n off : ℕ) → off + n ≤ length content → p.read n off ≡ (take n (drop off content), none)

abbrev pub AllHold : List ReaderAtSize → List (List ℕ) → Type 0
AllHold [] [] = Unit
AllHold [] (c ∷ cs) = ⊥
AllHold (p ∷ ps) [] = ⊥
AllHold (p ∷ ps) (c ∷ cs) = Holds p c × AllHold ps cs

abbrev pub joined : List (List ℕ) → List ℕ
joined [] = []
joined (c ∷ cs) = c ++ joined cs

take-append : (n : ℕ) (xs ys : List ℕ) → take n (xs ++ ys) ≡ take n xs ++ take (n - length xs) ys
take-append zero xs ys =
    let none_left : 0 - length xs ≡ 0 = omega arith in ap (λ k. take k ys) (sym none_left)
take-append (suc n) [] ys =
    let all_left : suc n - 0 ≡ suc n = omega arith in ap (λ k. take k ys) (sym all_left)
take-append (suc n) (x ∷ xs) ys = ground (arith, take-append n xs ys)

pub length-take : (n : ℕ) (xs : List ℕ) → n ≤ length xs → length (take n xs) ≡ n
length-take zero xs h = refl
length-take (suc n) [] h = absurd (omega arith)
length-take (suc n) (x ∷ xs) h = omega (arith, length-take n xs)

pub take_all : (n : ℕ) (xs : List ℕ) → length xs ≤ n → take n xs ≡ xs
take_all zero [] h = refl
take_all zero (x ∷ xs) h = absurd (omega arith)
take_all (suc n) [] h = refl
take_all (suc n) (x ∷ xs) h = ap (λ t. x ∷ t) (take_all n xs (omega arith))

abbrev pub first_length : List (List ℕ) → ℕ
first_length [] = 0
first_length (c ∷ cs) = length c

read_nothing :
    (fuel : ℕ) (parts : List ReaderAtOffset) (skip : ℕ) (got : List ℕ)
    → 0 < fuel
    → read_parts fuel parts 0 skip got ≡ some (got, none)
unfolding read_parts
read_nothing zero parts skip got h = absurd (omega arith)
read_nothing (suc fuel) [] skip got h = refl
read_nothing (suc fuel) (p ∷ ps) skip got h = refl

pub read_no_parts :
    (fuel k skip : ℕ) (got : List ℕ) → read_parts (suc fuel) [] k skip got ≡ some (got, none)
unfolding read_parts
read_no_parts fuel k skip got = refl

taken_short :
    (got xs ys : List ℕ) (n : ℕ)
    → length xs ≤ n
    → got ++ take n (xs ++ ys) ≡ (got ++ xs) ++ take (n - length xs) ys
taken_short got xs ys n h =
    rw (take-append n xs ys, take_all n xs h) (sym (append_assoc got xs (take (n - length xs) ys)))

taken_whole : (xs ys : List ℕ) (n : ℕ) → n ≤ length xs → take n (xs ++ ys) ≡ take n xs
taken_whole xs ys n h =
    let none_left : n - length xs ≡ 0 = omega arith in
    take-append n xs ys ∙ ap (λ j. take n xs ++ take j ys) none_left ∙ append_nil (take n xs)

-- One round: what the part gives, and the loop after it.
round :
    (fuel : ℕ) (q : ReaderAtOffset) (ps : List ReaderAtOffset) (k skip n : ℕ) (bytes got : List ℕ)
    → (if ltb (q.reader.size - skip) (suc k) then q.reader.size - skip else suc k) ≡ n
    → q.reader.read n skip ≡ (bytes, none)
    → read_parts (suc fuel) (q ∷ ps) (suc k) skip got
      ≡ read_parts fuel
          (if length bytes + skip == q.reader.size then ps else q ∷ ps)
          (suc k - length bytes)
          0
          (got ++ bytes)
unfolding read_parts
round fuel q ps k skip n bytes got e r =
    let asked : q.reader.read
          (if ltb (q.reader.size - skip) (suc k) then q.reader.size - skip else suc k) skip
        ≡ (bytes, none) =
      ap (λ j. q.reader.read j skip) e ∙ r in
    ground (arith, asked)

-- One round for each part, and one to see the end.
pub read_parts_lem :
    (fuel base : ℕ) (ps : List ReaderAtSize) (cs : List (List ℕ)) (k skip : ℕ) (got : List ℕ)
    → length ps < fuel
    → AllHold ps cs
    → skip ≤ first_length cs
    → read_parts fuel (place base ps) k skip got
      ≡ some (got ++ take k (drop skip (joined cs)), none)
unfolding place
read_parts_lem zero base ps cs k skip got f hs s = absurd (omega arith)
read_parts_lem (suc fuel) base ps cs zero skip got f hs s =
    read_nothing (suc fuel) (place base ps) skip got (omega arith)
    ∙ ap (λ o. some (o, none)) (sym (append_nil got))
read_parts_lem (suc fuel) base [] [] (suc k) skip got f hs s =
    read_no_parts fuel (suc k) skip got
    ∙ ap (λ o. some (o, none))
        (sym (ap (λ b. got ++ take (suc k) b) (drop_nil {A = ℕ} skip) ∙ append_nil got))
read_parts_lem (suc fuel) base [] (c ∷ cs) (suc k) skip got f hs s = absurd hs
read_parts_lem (suc fuel) base (p ∷ ps) [] (suc k) skip got f hs s = absurd hs
read_parts_lem (suc fuel) base (p ∷ ps) (c ∷ cs) (suc k) skip got f (h, hs) s =
    let q : ReaderAtOffset = record { off = base; reader = p } in
    let tail = place (base + p.size) ps in
    let rest = drop skip c in
    let len : length rest ≡ p.size - skip = omega (arith, length-drop skip c, h.sized) in
    let cut : drop skip (c ++ joined cs) ≡ rest ++ joined cs = drop-append skip c (joined cs) s in
    elim (Bool-cases (ltb (p.size - skip) (suc k))) [
      | inl short ↦
          let given : p.read (p.size - skip) skip ≡ (rest, none) =
            h.reads (p.size - skip) skip (omega (arith, h.sized))
            ∙ ap (λ b. (b, none)) (take_all (p.size - skip) rest (omega (arith, len))) in
          let ends : (length rest + skip == p.size) ≡ true =
            (==_iff _ _).1 (omega (arith, len, h.sized)) in
          round fuel q tail k skip (p.size - skip) rest got (rw short refl) given
          ∙ ap
              (λ b.
                read_parts fuel (if b then tail else q ∷ tail) (suc k - length rest) 0
                  (got ++ rest))
              ends
          ∙ read_parts_lem fuel (base + p.size) ps cs (suc k - length rest) 0 (got ++ rest)
              (omega arith) hs (omega arith)
          ∙ ap (λ o. some (o, none))
              (sym (taken_short got rest (joined cs) (suc k) (omega (arith, len, ltb→lt _ _ short)))
                ∙ ap (λ b. got ++ take (suc k) b) (sym cut))
      | inr enough ↦
          let bytes = take (suc k) rest in
          let given : p.read (suc k) skip ≡ (bytes, none) =
            h.reads (suc k) skip (ground (arith, enough, h.sized)) in
          let all_read : suc k - length bytes ≡ 0 =
            omega (arith, length-take (suc k) rest (ground (arith, enough, len))) in
          round fuel q tail k skip (suc k) bytes got (rw enough refl) given
          ∙ ap
              (λ j.
                read_parts fuel (if length bytes + skip == p.size then tail else q ∷ tail) j 0
                  (got ++ bytes))
              all_read
          ∙ read_nothing fuel (if length bytes + skip == p.size then tail else q ∷ tail) 0
              (got ++ bytes) (omega arith)
          ∙ ap (λ o. some (got ++ o, none))
              (sym (taken_whole rest (joined cs) (suc k) (ground (arith, enough, len)))
                ∙ ap (take (suc k)) (sym cut))
    ]
