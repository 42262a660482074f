-- ===== src/Common/Lists.antt =====
-- Lists measured by native numbers, sets of identifiers as lists, and maps as association lists.
use Prim.Native.Nat.{ℕ, zero, suc, ◌+◌, ◌-◌, ◌≤◌}
use mathlib.Core.Path.{◌≡◌, refl, sym, ap, subst, ◌∙◌}
use mathlib.Core.Bool.{Bool, true, false, ◌||◌}
use mathlib.Core.List.{List, [], ◌∷◌, ◌++◌}
use mathlib.Core.Option.{Option, none, some}
use native.Mathlib.Omega.{arith}
use mathlib.Core.Logic.{inl, inr}
use boost.Common.Tests.{Bool-cases, ◌==◌, if◌then◌else◌}

module _ {ℓ} {A : Type ℓ} where
  abbrev pub length : List A → ℕ
  length [] = 0
  length (x ∷ xs) = suc (length xs)

  pub length-append : (xs ys : List A) → length (xs ++ ys) ≡ length xs + length ys
  length-append [] ys = omega arith
  length-append (x ∷ xs) ys = omega (arith, length-append xs ys)

  -- The elements that pass a Boolean test, in order.
  abbrev pub select : (A → Bool) → List A → List A
  select p [] = []
  select p (x ∷ xs) = let rest = select p xs in if p x then x ∷ rest else rest

  -- How many elements pass a Boolean test.
  abbrev pub count_if : (A → Bool) → List A → ℕ
  count_if p [] = 0
  count_if p (x ∷ xs) = let rest = count_if p xs in if p x then suc rest else rest

  -- The first element that passes a Boolean test.
  abbrev pub find_if : (A → Bool) → List A → Option A
  find_if p [] = none
  find_if p (x ∷ xs) = let rest = find_if p xs in if p x then some x else rest

  -- A property of every element.
  abbrev pub All {κ} : (A → Type κ) → List A → Type κ
  All P [] = Unit
  All P (x ∷ xs) = P x × All P xs

  pub count_if-le : (p : A → Bool) (xs : List A) → count_if p xs ≤ length xs
  count_if-le p [] = omega arith
  count_if-le p (x ∷ xs) = ground (arith, count_if-le p xs)

pub some_inj {ℓ} : {A : Type ℓ} {a b : A} → some a ≡ some b → a ≡ b
some_inj h = cc

module _ {ℓ} {A : Type ℓ} (q : A → Bool) where
  pub find_if-All {κ} :
      (P : A → Type κ) (xs : List A) (t : A) → All P xs → find_if q xs ≡ some t → P t
  find_if-All P [] t h e = absurd (ground arith)
  find_if-All P (x ∷ xs) t h e = elim (Bool-cases (q x)) [
    | inl hit ↦ subst P (some_inj (rw hit at e)) h.0
    | inr miss ↦ find_if-All P xs t h.1 (rw miss at e)
  ]

  pub find_if-true : (xs : List A) (t : A) → find_if q xs ≡ some t → q t ≡ true
  find_if-true [] t e = ground arith
  find_if-true (x ∷ xs) t e = elim (Bool-cases (q x)) [
    | inl hit ↦ subst (λ y. q y ≡ true) (some_inj (rw hit at e)) hit
    | inr miss ↦ find_if-true xs t (rw miss at e)
  ]

  -- Nothing is found where every element fails the test.
  pub find_if-none : (xs : List A) → find_if q xs ≡ none → All (λ x. q x ≡ false) xs
  find_if-none [] e = tt
  find_if-none (x ∷ xs) e = elim (Bool-cases (q x)) [
    | inl hit ↦ absurd (ground (arith, hit, e))
    | inr miss ↦ (miss, find_if-none xs (rw miss at e))
  ]

module _ {ℓ} {A : Type ℓ} where
  -- `xs[n:]`, and `xs[:n]`.
  abbrev pub drop : ℕ → List A → List A
  drop zero xs = xs
  drop (suc n) [] = []
  drop (suc n) (x ∷ xs) = drop n xs

  abbrev pub take : ℕ → List A → List A
  take zero xs = []
  take (suc n) [] = []
  take (suc n) (x ∷ xs) = x ∷ take n xs

module _ {ℓ} {A : Type ℓ} where
  pub length-drop : (n : ℕ) (xs : List A) → length (drop n xs) ≡ length xs - n
  length-drop zero xs = omega arith
  length-drop (suc n) [] = omega arith
  length-drop (suc n) (x ∷ xs) = omega (arith, length-drop n xs)

  pub drop-append : (n : ℕ) (xs ys : List A) → n ≤ length xs → drop n (xs ++ ys) ≡ drop n xs ++ ys
  drop-append zero xs ys h = refl
  drop-append (suc n) [] ys h = absurd (omega arith)
  drop-append (suc n) (x ∷ xs) ys h = drop-append n xs ys (omega arith)

  pub drop_nil : (n : ℕ) → drop {A = A} n [] ≡ []
  drop_nil zero = refl
  drop_nil (suc n) = refl

  pub drop-drop : (m n k : ℕ) (xs : List A) → k ≡ n + m → drop m (drop n xs) ≡ drop k xs
  drop-drop m zero k xs h = ap (λ j. drop j xs) (omega arith)
  drop-drop m (suc n) k [] h = drop_nil m ∙ sym (drop_nil k)
  drop-drop m (suc n) zero (x ∷ xs) h = absurd (omega arith)
  drop-drop m (suc n) (suc k) (x ∷ xs) h = drop-drop m n k xs (omega arith)

  pub drop-append_both :
      (n : ℕ) (xs ys : List A) → drop n (xs ++ ys) ≡ drop n xs ++ drop (n - length xs) ys
  drop-append_both zero xs ys =
      let none_left : 0 - length xs ≡ 0 = omega arith in ap (λ k. xs ++ drop k ys) (sym none_left)
  drop-append_both (suc n) [] ys =
      let all_left : suc n - 0 ≡ suc n = omega arith in ap (λ k. drop k ys) (sym all_left)
  drop-append_both (suc n) (x ∷ xs) ys = ground (arith, drop-append_both n xs ys)

  pub drop_all : (n : ℕ) (xs : List A) → length xs ≤ n → drop n xs ≡ []
  drop_all zero [] h = refl
  drop_all zero (x ∷ xs) h = absurd (omega arith)
  drop_all (suc n) [] h = refl
  drop_all (suc n) (x ∷ xs) h = drop_all n xs (omega arith)

  pub append_nil : (xs : List A) → xs ++ [] ≡ xs
  append_nil [] = refl
  append_nil (x ∷ xs) = ap (λ zs. x ∷ zs) (append_nil xs)

-- A set of identifiers.
abbrev pub contains : ℕ → List ℕ → Bool
contains a [] = false
contains a (x ∷ xs) = x == a || contains a xs

module _ {ℓ} {V : Type ℓ} where
  abbrev pub lookup : ℕ → List (ℕ × V) → Option V
  lookup k [] = none
  lookup k ((j, v) ∷ m) = let rest = lookup k m in if j == k then some v else rest

  abbrev pub insert : ℕ → V → List (ℕ × V) → List (ℕ × V)
  insert k v [] = (k, v) ∷ []
  insert k v ((j, w) ∷ m) = let rest = insert k v m in if j == k then (k, v) ∷ m else (j, w) ∷ rest

  abbrev pub erase : ℕ → List (ℕ × V) → List (ℕ × V)
  erase k [] = []
  erase k ((j, v) ∷ m) = let rest = erase k m in if j == k then rest else (j, v) ∷ rest

  pub lookup-insert :
      (k j : ℕ) (v : V) (m : List (ℕ × V))
      → lookup j (insert k v m) ≡ (if k == j then some v else lookup j m)
  lookup-insert k j v [] = refl
  lookup-insert k j v ((i, w) ∷ m) = ground (arith, lookup-insert k j v m)

  pub lookup-erase :
      (k j : ℕ) (m : List (ℕ × V)) → lookup j (erase k m) ≡ (if k == j then none else lookup j m)
  lookup-erase k j [] = ground arith
  lookup-erase k j ((i, w) ∷ m) = ground (arith, lookup-erase k j m)

pub contains-apart :
    (c d : ℕ) (xs : List ℕ) → contains c xs ≡ false → contains d xs ≡ true → (c == d) ≡ false
contains-apart c d xs out in_it = elim (Bool-cases (c == d)) [
  | inl same ↦
      let e : c ≡ d = ground (arith, same) in
      absurd (ground (arith, subst (λ k. contains k xs ≡ false) e out, in_it))
  | inr other ↦ other
]
