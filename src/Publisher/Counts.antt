-- ===== src/Publisher/Counts.antt =====
-- How many deals of the queue pass a test, and how the operations of the queue change that number.
use boost.Common.{
  ℕ, ◌+◌, ◌≤◌, ◌≡◌, refl, Bool, true, List, [], ◌∷◌, some, arith, if◌then◌else◌, length, count_if,
  select, lookup, insert, erase, Bool-cases, ◌==◌, inl, inr, Option-cases,
}
use boost.Publisher.Queue.{PendingDeal, deals_of, take_queued}

abbrev pub one_if : Bool → ℕ
one_if b = if b then 1 else 0

pub length-deals_of : (m : List (ℕ × PendingDeal)) → length m ≡ count_if (λ _. true) (deals_of m)
length-deals_of [] = refl
length-deals_of ((c, pd) ∷ m) = omega (arith, length-deals_of m)

pub count_if-length : (ds : List PendingDeal) → count_if (λ _. true) ds ≡ length ds
count_if-length [] = refl
count_if-length (pd ∷ ds) = omega (arith, count_if-length ds)

module _ (q : PendingDeal → Bool) where
  abbrev pub tally : List (ℕ × PendingDeal) → ℕ
  tally m = count_if q (deals_of m)

  pub tally-select :
      (keep : ℕ × PendingDeal → Bool) (m : List (ℕ × PendingDeal)) → tally (select keep m) ≤ tally m
  tally-select keep [] = omega arith
  tally-select keep ((c, pd) ∷ m) = ground (arith, tally-select keep m)

  pub tally-insert :
      (c : ℕ) (pd : PendingDeal) (m : List (ℕ × PendingDeal))
      → tally (insert c pd m) ≤ tally m + one_if (q pd)
  tally-insert c pd [] = ground arith
  tally-insert c pd ((d, x) ∷ m) = ground (arith, tally-insert c pd m)

  tally-erase : (c : ℕ) (m : List (ℕ × PendingDeal)) → tally (erase c m) ≤ tally m
  tally-erase c [] = omega arith
  tally-erase c ((d, x) ∷ m) = ground (arith, tally-erase c m)

  tally-lookup :
      (c : ℕ) (pd : PendingDeal) (m : List (ℕ × PendingDeal))
      → lookup c m ≡ some pd
      → tally (erase c m) + one_if (q pd) ≤ tally m
  tally-lookup c pd [] h = absurd (ground arith)
  tally-lookup c pd ((d, x) ∷ m) h = elim (Bool-cases (d == c)) [
    | inl e ↦ ground (arith, e, h, tally-erase c m)
    | inr e ↦ ground (arith, e, h, tally-lookup c pd m)
  ]

  -- What is taken from the queue is no longer in it.
  pub tally-take_queued :
      (cs : List ℕ) (m : List (ℕ × PendingDeal))
      → let (ret, ready, rest) = take_queued cs m in count_if q ready + tally rest ≤ tally m
  unfolding take_queued
  tally-take_queued [] m = omega arith
  tally-take_queued (c ∷ cs) m = elim (Option-cases (lookup c m)) [
    | inl e ↦ ground (arith, e, tally-take_queued cs m)
    | inr (pd, e) ↦ ground (arith, e, tally-lookup c pd m e, tally-take_queued cs (erase c m))
  ]
