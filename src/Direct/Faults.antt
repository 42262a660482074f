-- ===== src/Direct/Faults.antt =====
-- Imports side by side, and of an allocation that is not there.
use boost.Common.{
  ℕ, ℤ, ◌+ℤ◌, ltb_ℤ, ◌⊎◌, ◌≡◌, inl, inr, refl, Bool-cases, true, ◌∷◌, none, some, ok, err, arith,
  ap, ◌∙◌,
}
use boost.Direct.Import.{
  DirectDeal, DirectApi, start_passed, no_allocation, nil_allocation, DirectDeals, is_active,
  accept, import_with, import,
}
use boost.Direct.Claims.{active_claims, not_in_process, accept_free, import_with-Kept}

module _ (api : DirectApi) where
  added :
      (entry : DirectDeal) (s : DirectDeals)
      → (import_with api entry none s).0 ≡ ok none
      → (maddr : ℕ) × ((import_with api entry none s).1.deals
          ≡ record entry { provider = maddr } ∷ s.deals)
  added entry s r = elim (import_with-Kept api entry none s) [
    | inl (same, refuses) ↦ absurd (refuses refl r)
    | inr (maddr, _, more) ↦ (maddr, more)
  ]

  -- Two imports of one client for one allocation that are both accepted before either has written
  -- its deal, and that then succeed, leave two active deals for the allocation.
  pub imports_side_by_side :
      (one two : DirectDeal) (s : DirectDeals)
      → two.client ≡ one.client
      → two.allocation_id ≡ one.allocation_id
      → is_active one ≡ true
      → is_active two ≡ true
      → (accept api one s).0 ≡ ok none
      → (accept api two s).0 ≡ ok none
      → (import_with api one none s).0 ≡ ok none
      → (import_with api two none (import_with api one none s).1).0 ≡ ok none
      → active_claims one.client one.allocation_id
          (import_with api two none (import_with api one none s).1).1.deals
        ≡ 2
  imports_side_by_side one two s c a act1 act2 in1 in2 r1 r2 =
      let (m1, e1) = added one s r1 in
      let (m2, e2) = added two (import_with api one none s).1 r2 in
      let both = e2 ∙ ap (λ ds. record two { provider = m2 } ∷ ds) e1 in
      let none_before = not_in_process one s.deals (accept_free api one s in1) in
      ap (active_claims one.client one.allocation_id) both
      ∙ ground (arith, none_before, c, a, act1, act2)

  -- Where the node finds no allocation for a proposal, the import does not end with the rejection
  -- that `Accept` has for this case, nor with any other answer, but reads a nil pointer.
  pub import_reads_nil :
      (entry : DirectDeal) (s : DirectDeals) (height : ℤ)
      → api.chain_head ≡ some height
      → ((k : ℕ) → api.get_allocation k entry.client entry.allocation_id ≡ some none)
      → (((accept api entry s).0 ≡ ok (some start_passed))
          ⊎ ((accept api entry s).0 ≡ ok (some no_allocation)))
        × (import api entry s ≡ (err nil_allocation, s))
  unfolding import accept import_with
  import_reads_nil entry s height h missing =
      let first = missing 0 in
      let second = missing 1 in
      elim (Bool-cases (ltb_ℤ entry.start_epoch (height +ℤ api.start_epoch_sealing_buffer))) [
        | inl e ↦ (inl (ground (arith, h, e)), ground (arith, h, e, second))
        | inr e ↦ (inr (ground (arith, h, e, first)), ground (arith, h, e, first, second))
      ]
