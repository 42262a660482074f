-- ===== src/Direct/Claims.antt =====
-- One active deal for each allocation, and an allocation that is missing.
use boost.Common.{
  ℕ, ◌≤◌, ◌≡◌, ◌⊎◌, inl, inr, refl, Bool-cases, false, ◌&&◌, List, [], ◌∷◌, Option, none, some,
  Option-cases, count_if, Result, Result-cases, ok, arith, ap, ap₂, sym, ◌≢◌, ◌∙◌, subst,
}
use boost.Direct.Import.{
  DirectDeal, Allocation, DirectApi, Rejection, DirectError, DirectDeals, is_active, claims,
  is_in_process, accept_allocation, accept, start_deal_thread, insert_deal, import_with, import,
}

-- The active deals of a client for an allocation.
abbrev pub active_claims : ℕ → ℕ → List DirectDeal → ℕ
active_claims client allocation deals =
    count_if (λ d. is_active d && claims client allocation d) deals

abbrev pub AtMostOne : List DirectDeal → Type 0
AtMostOne deals = (client allocation : ℕ) → active_claims client allocation deals ≤ 1

pub not_in_process :
    (entry : DirectDeal) (deals : List DirectDeal)
    → is_in_process entry deals ≡ false
    → active_claims entry.client entry.allocation_id deals ≡ 0
unfolding is_in_process
not_in_process entry [] h = refl
not_in_process entry (d ∷ deals) h = ground (arith, not_in_process entry deals, h)

module _ (api : DirectApi) where
  allocation_same :
      (entry : DirectDeal) (a : Allocation) (s : DirectDeals)
      → (accept_allocation api entry a s).1 ≡ s
  unfolding accept_allocation
  allocation_same entry a s = ground arith

  allocation_free :
      (entry : DirectDeal) (a : Allocation) (s : DirectDeals)
      → (accept_allocation api entry a s).0 ≡ ok none
      → is_in_process entry s.deals ≡ false
  unfolding accept_allocation
  allocation_free entry a s h = ground (arith, h)

  accept_same : (entry : DirectDeal) (s : DirectDeals) → (accept api entry s).1 ≡ s
  unfolding accept
  accept_same entry s =
      elim (Option-cases (api.get_allocation 0 entry.client entry.allocation_id)) [
        | inl e ↦ ground (arith, e)
        | inr (none, e) ↦ ground (arith, e)
        | inr (some a, e) ↦ ground (arith, e, allocation_same entry a s)
      ]

  pub accept_free :
      (entry : DirectDeal) (s : DirectDeals)
      → (accept api entry s).0 ≡ ok none
      → is_in_process entry s.deals ≡ false
  unfolding accept
  accept_free entry s h =
      elim (Option-cases (api.get_allocation 0 entry.client entry.allocation_id)) [
        | inl e ↦ absurd (ground (arith, e, h))
        | inr (none, e) ↦ absurd (ground (arith, e, h))
        | inr (some a, e) ↦ ground (arith, e, h, allocation_free entry a s)
      ]

  -- What `Import` does to the table after an answer of `Accept`: nothing, and then it does not say
  -- that the deal is in, or an entry that was accepted is added.
  abbrev pub Kept :
      DirectDeal
      → Option Rejection
      → DirectDeals
      → Result DirectError (Option Rejection) × DirectDeals
      → Type 0
  Kept entry res s (r, s') =
      ((s'.deals ≡ s.deals) × (res ≡ none → r ≢ ok none))
      ⊎ ((maddr : ℕ) × (res ≡ none) × (s'.deals ≡ record entry { provider = maddr } ∷ s.deals))

  known :
      (entry : DirectDeal) (res : Option Rejection) (s : DirectDeals) (a : Allocation)
      (idaddr maddr : ℕ)
      → api.get_allocation 1 entry.client entry.allocation_id ≡ some (some a)
      → api.id_address a.provider ≡ some idaddr
      → api.lookup_id idaddr ≡ some maddr
      → Kept entry res s (import_with api entry res s)
  unfolding import_with insert_deal start_deal_thread
  known entry (some r) s a idaddr maddr e f g =
      inl (ground (arith, e, f, g), λ n. absurd (ground (arith, n)))
  known entry none s a idaddr maddr e f g = elim (Bool-cases api.insert_fails) [
    | inl t ↦ inl (ground (arith, e, f, g, t), λ _ h. ground (arith, e, f, g, t, h))
    | inr t ↦ inr (maddr, refl, ground (arith, e, f, g, t))
  ]

  pub import_with-Kept :
      (entry : DirectDeal) (res : Option Rejection) (s : DirectDeals)
      → Kept entry res s (import_with api entry res s)
  unfolding import_with
  import_with-Kept entry res s =
      elim (Option-cases (api.get_allocation 1 entry.client entry.allocation_id)) [
        | inl e ↦ inl (ground (arith, e), λ _ h. ground (arith, e, h))
        | inr (none, e) ↦ inl (ground (arith, e), λ _ h. ground (arith, e, h))
        | inr (some a, e) ↦ elim (Option-cases (api.id_address a.provider)) [
          | inl f ↦ inl (ground (arith, e, f), λ _ h. ground (arith, e, f, h))
          | inr (idaddr, f) ↦ elim (Option-cases (api.lookup_id idaddr)) [
            | inl g ↦ inl (ground (arith, e, f, g), λ _ h. ground (arith, e, f, g, h))
            | inr (maddr, g) ↦ known entry res s a idaddr maddr e f g
          ]
        ]
      ]

  one_more :
      (client allocation maddr : ℕ) (entry : DirectDeal) (deals : List DirectDeal)
      → is_in_process entry deals ≡ false
      → active_claims client allocation deals ≤ 1
      → active_claims client allocation (record entry { provider = maddr } ∷ deals) ≤ 1
  one_more client allocation maddr entry deals free h =
      elim (Bool-cases (claims client allocation entry)) [
        | inl e ↦
            let c : entry.client ≡ client = ground (arith, e) in
            let a : entry.allocation_id ≡ allocation = ground (arith, e) in
            let zero_before : active_claims client allocation deals ≡ 0 =
              ap₂ (λ x y. active_claims x y deals) (sym c) (sym a)
              ∙ not_in_process entry deals free in
            ground (arith, zero_before)
        | inr e ↦ ground (arith, e, h)
      ]

  import-AtMostOne :
      (entry : DirectDeal) (s : DirectDeals)
      → AtMostOne s.deals
      → AtMostOne (import api entry s).1.deals
  unfolding import
  import-AtMostOne entry s h client allocation =
      let same = accept_same entry s in
      elim (Result-cases (accept api entry s).0) [
        | inr (x, e) ↦ ground (arith, e, same, h client allocation)
        | inl (res, e) ↦
            let run : import api entry s ≡ import_with api entry res s = ground (arith, e, same) in
            elim (import_with-Kept entry res s) [
              | inl (kept, _) ↦
                  subst (λ (ds : List DirectDeal). active_claims client allocation ds ≤ 1)
                    (sym (
                      ap (λ (r : Result DirectError (Option Rejection) × DirectDeals). r.1.deals)
                        run
                      ∙ kept))
                    (h client allocation)
              | inr (maddr, is_none, added) ↦
                  subst (λ (ds : List DirectDeal). active_claims client allocation ds ≤ 1)
                    (sym (
                      ap (λ (r : Result DirectError (Option Rejection) × DirectDeals). r.1.deals)
                        run
                      ∙ added))
                    (one_more client allocation maddr entry s.deals
                      (accept_free entry s (e ∙ ap ok is_none)) (h client allocation))
            ]
      ]

-- Imports one after the other, each with what the node and the statements answer then.
unfoldable pub imports : List (DirectApi × DirectDeal) → DirectDeals → DirectDeals
imports [] s = s
imports ((api, entry) ∷ rest) s = imports rest (import api entry s).1

-- Imports that are handled one after the other never bring in a second active deal of a client
-- for an allocation, whatever the node answers and whichever statements fail in each of them.
pub imports-AtMostOne :
    (entries : List (DirectApi × DirectDeal)) (s : DirectDeals)
    → AtMostOne s.deals
    → AtMostOne (imports entries s).deals
unfolding imports
imports-AtMostOne [] s h = h
imports-AtMostOne ((api, entry) ∷ rest) s h =
    imports-AtMostOne rest (import api entry s).1 (import-AtMostOne api entry s h)
