-- ===== src/Limiter/Order.antt =====
-- The queue is sorted by age, so that the first transfer with a property is the oldest with it.
use mathlib.Core.List.{Perm}
use mathlib.Core.List.Perm
use boost.Common.{
  ℕ, ◌≤◌, ◌≡◌, inl, inr, Bool, true, ltb, List, [], ◌∷◌, some, arith, find_if, some_inj, All,
  Bool-cases,
}
use mathlib.Core.Path.{subst}
use boost.Limiter.Queue.{QueuedTransfer}
use boost.Limiter.Check.{age, insert_by_age, sort_by_age}

-- No transfer of the list is older than this time.
abbrev pub NotOlder : ℕ → List QueuedTransfer → Type 0
NotOlder a = All (λ x. a ≤ age x)

abbrev pub SortedByAge : List QueuedTransfer → Type 0
SortedByAge [] = Unit
SortedByAge (x ∷ xs) = NotOlder (age x) xs × SortedByAge xs

NotOlder-mono : (a b : ℕ) (xs : List QueuedTransfer) → a ≤ b → NotOlder b xs → NotOlder a xs
NotOlder-mono a b [] h n = tt
NotOlder-mono a b (x ∷ xs) h n = (omega arith, NotOlder-mono a b xs h n.1)

insert-NotOlder :
    (a : ℕ) (x : QueuedTransfer) (xs : List QueuedTransfer)
    → a ≤ age x
    → NotOlder a xs
    → NotOlder a (insert_by_age x xs)
unfolding insert_by_age
insert-NotOlder a x [] h n = (h, tt)
insert-NotOlder a x (y ∷ ys) h n = ground (arith, insert-NotOlder a x ys h n.1)

insert-SortedByAge :
    (x : QueuedTransfer) (xs : List QueuedTransfer)
    → SortedByAge xs
    → SortedByAge (insert_by_age x xs)
unfolding insert_by_age
insert-SortedByAge x [] s = (tt, tt)
insert-SortedByAge x (y ∷ ys) s = ground (
  arith,
  insert-SortedByAge x ys s.1,
  insert-NotOlder (age y) x ys,
  NotOlder-mono (age x) (age y) ys,
)

pub sort-SortedByAge : (xs : List QueuedTransfer) → SortedByAge (sort_by_age xs)
unfolding sort_by_age
sort-SortedByAge [] = tt
sort-SortedByAge (x ∷ xs) = insert-SortedByAge x (sort_by_age xs) (sort-SortedByAge xs)

insert_by_age-perm :
    (x : QueuedTransfer) (xs : List QueuedTransfer) → Perm (insert_by_age x xs) (x ∷ xs)
unfolding insert_by_age
insert_by_age-perm x [] = Perm.refl (x ∷ [])
insert_by_age-perm x (y ∷ ys) = elim (Bool-cases (ltb (age y) (age x))) [
  | inl older ↦ rw older (Perm.trans (Perm.cons y (insert_by_age-perm x ys)) (Perm.swap x y ys))
  | inr not_older ↦ rw not_older (Perm.refl (x ∷ y ∷ ys))
]

-- The queue holds the same transfers as the list that was sorted, as often.
pub sort_by_age-perm : (xs : List QueuedTransfer) → Perm (sort_by_age xs) xs
unfolding sort_by_age
sort_by_age-perm [] = Perm.refl []
sort_by_age-perm (x ∷ xs) =
    Perm.trans (insert_by_age-perm x (sort_by_age xs)) (Perm.cons x (sort_by_age-perm xs))

-- A property of all goes through the sort, in both directions.
module _ (P : QueuedTransfer → Type 0) where
  All-insert :
      (x : QueuedTransfer) (xs : List QueuedTransfer) → P x → All P xs → All P (insert_by_age x xs)
  unfolding insert_by_age
  All-insert x [] p h = (p, tt)
  All-insert x (y ∷ ys) p h = elim (Bool-cases (ltb (age y) (age x))) [
    | inl older ↦ rw older (h.0, All-insert x ys p h.1)
    | inr not_older ↦ rw not_older (p, h)
  ]

  insert-All :
      (x : QueuedTransfer) (xs : List QueuedTransfer) → All P (insert_by_age x xs) → P x × All P xs
  unfolding insert_by_age
  insert-All x [] h = h
  insert-All x (y ∷ ys) h = elim (Bool-cases (ltb (age y) (age x))) [
    | inl older ↦
        let (py, rest) = rw older at h in let (px, all) = insert-All x ys rest in (px, (py, all))
    | inr not_older ↦ rw not_older at h
  ]

  pub All-sort : (xs : List QueuedTransfer) → All P xs → All P (sort_by_age xs)
  unfolding sort_by_age
  All-sort [] h = tt
  All-sort (x ∷ xs) h = All-insert x (sort_by_age xs) h.0 (All-sort xs h.1)

  pub sort-All : (xs : List QueuedTransfer) → All P (sort_by_age xs) → All P xs
  unfolding sort_by_age
  sort-All [] h = tt
  sort-All (x ∷ xs) h = let (px, all) = insert-All x (sort_by_age xs) h in (px, sort-All xs all)

-- In a sorted list the first element that passes a test is the oldest that does.
pub find_if-oldest :
    (q : QueuedTransfer → Bool) (xs : List QueuedTransfer) (t : QueuedTransfer)
    → SortedByAge xs
    → find_if q xs ≡ some t
    → All (λ x. q x ≡ true → age t ≤ age x) xs
find_if-oldest q [] t s e = tt
find_if-oldest q (x ∷ xs) t s e = elim (Bool-cases (q x)) [
  | inl hit ↦
      let same : x ≡ t = some_inj (rw hit at e) in
      subst (λ (y : QueuedTransfer). All (λ z. q z ≡ true → age y ≤ age z) (x ∷ xs)) same
        (λ _. omega arith, weaken xs s.0)
  | inr miss ↦ (λ hit. cc, find_if-oldest q xs t s.1 (rw miss at e))
]
  where
    weaken :
        (ys : List QueuedTransfer) → NotOlder (age x) ys → All (λ z. q z ≡ true → age x ≤ age z) ys
    weaken [] n = tt
    weaken (y ∷ ys) n = (λ _. n.0, weaken ys n.1)
