-- ===== src/Provider/Reserve.antt =====
-- Funds and space of a deal are both tagged, or none is.
use boost.Common.{ℕ, ◌≡◌, inl, inr, refl, sym, ◌∙◌, ap, Result, ok, err, subst, arith}
use boost.Deal.{ProviderDealState}
use boost.Funds.{FundsError, TagFundsResp, tag_funds}
use boost.Funds.Sums as FundsRows
use boost.Funds.Undo.{tag_funds-Grows, untag_funds-others}
use boost.Storage.{StorageError, tag}
use boost.Storage.Rows as StorageRows
use boost.Storage.Release.{tag-Adds, untag-others}
use boost.Storage.Decision.{reliable}
use boost.Provider.World.{World, Env, AcceptError, Stop, refused, on_funds, on_storage}
use boost.Provider.Propose.{
  funds_refusal, storage_refusal, cleanup, clean_and_refuse, funds_tagged, reserve_funds,
  space_tagged, reserve_space,
}
use boost.Provider.Trace.{Own, Own-trans, Own-Clean, Clean, Ends, Ends-bind}
use boost.Provider.Checks.{steady}

module _ (c c' : ℕ → ℕ) (env : Env) where
  pub cleanup-Clean :
      (deal : ProviderDealState) (w : World)
      → Clean deal.deal_uuid w (cleanup (steady c c' env) deal w).1
  unfolding cleanup
  cleanup-Clean deal w = ground (
    arith,
    untag_funds-others c env.node env.funds_config deal.deal_uuid w.funds,
    untag-others c' env.storage_config deal.deal_uuid w.storage,
  )

  pub cleaned_lem :
      {A : Type 0} (deal : ProviderDealState) (e : AcceptError) (w : World)
      → clean_and_refuse (steady c c' env) {A = A} deal e w
        ≡ (err (refused e), (cleanup (steady c c' env) deal w).1)
  unfolding clean_and_refuse cleanup
  cleaned_lem deal e w = ground arith

  pub clean_and_refuse-Ends :
      {A : Type 0} (P : A → World → World → Type 0) (deal : ProviderDealState) (e : AcceptError)
      (u w : World)
      → Own deal.deal_uuid u w
      → let (r, w') = clean_and_refuse (steady c c' env) {A = A} deal e w in
        Ends deal.deal_uuid P r u w'
  unfolding Ends
  clean_and_refuse-Ends {A} P deal e u w own =
      subst (λ (out : Result Stop A × World). Ends deal.deal_uuid P out.0 u out.1)
        (sym (cleaned_lem deal e w))
        (Own-Clean deal.deal_uuid u w (cleanup (steady c c' env) deal w).1 own
          (cleanup-Clean deal w))

  Ends-funds_tagged :
      (deal : ProviderDealState) (r : Result FundsError TagFundsResp) (w : World)
      → let (x, w') = funds_tagged (steady c c' env) deal r w in
        Ends deal.deal_uuid (λ (_ : Unit {0}). Own deal.deal_uuid) x w w'
  unfolding funds_tagged Ends
  Ends-funds_tagged deal (ok resp) w = (refl, refl, refl)
  Ends-funds_tagged deal (err e) w =
      clean_and_refuse-Ends (λ (_ : Unit {0}). Own deal.deal_uuid) deal (funds_refusal e) w w
        (refl, refl, refl)

  pub Own-tag_funds :
      (deal : ProviderDealState) (w : World)
      → Own deal.deal_uuid w
          (on_funds
            (tag_funds (reliable c) env.node env.funds_config deal.deal_uuid deal.proposal)
            w).1
  Own-tag_funds deal w =
      elim (tag_funds-Grows (reliable c) env.node env.funds_config deal.deal_uuid deal.proposal
        w.funds) [
          | inl e ↦ (ap (FundsRows.others deal.deal_uuid) e, refl, refl)
          | inr (row, own, e) ↦ (
            ap (FundsRows.others deal.deal_uuid) e
                ∙ FundsRows.others-append deal.deal_uuid w.funds.tagged row own,
            refl,
            refl,
          )
        ]

  pub Ends-reserve_funds :
      (deal : ProviderDealState) (w : World)
      → let (x, w') = reserve_funds (steady c c' env) deal w in
        Ends deal.deal_uuid (λ (_ : Unit {0}). Own deal.deal_uuid) x w w'
  unfolding reserve_funds Ends
  Ends-reserve_funds deal w =
      Ends-bind deal.deal_uuid (λ (_ : Unit {0}). Own deal.deal_uuid)
        (on_funds (tag_funds (reliable c) env.node env.funds_config deal.deal_uuid deal.proposal))
        (funds_tagged (steady c c' env) deal) w (λ _ v v' a b. Own-trans deal.deal_uuid w v v' a b)
        (Own-tag_funds deal w) (λ r v own. Ends-funds_tagged deal r v)

  Ends-space_tagged :
      (deal : ProviderDealState) (r : Result StorageError (Unit {0})) (w : World)
      → let (x, w') = space_tagged (steady c c' env) deal r w in
        Ends deal.deal_uuid (λ (_ : Unit {0}). Own deal.deal_uuid) x w w'
  unfolding space_tagged Ends
  Ends-space_tagged deal (ok _) w = (refl, refl, refl)
  Ends-space_tagged deal (err e) w =
      clean_and_refuse-Ends (λ (_ : Unit {0}). Own deal.deal_uuid) deal (storage_refusal e) w w
        (refl, refl, refl)

  Own-tag :
      (deal : ProviderDealState) (host : ℕ) (w : World)
      → Own deal.deal_uuid w
          (on_storage
            (tag (reliable c') env.storage_config deal.deal_uuid deal.transfer.size host)
            w).1
  Own-tag deal host w =
      elim (tag-Adds (reliable c') env.storage_config deal.deal_uuid deal.transfer.size host
        w.storage) [
          | inl e ↦ (refl, ap (StorageRows.others deal.deal_uuid) e, refl)
          | inr e ↦ (
            refl,
            ap (StorageRows.others deal.deal_uuid) e
                ∙ StorageRows.others-append deal.deal_uuid w.storage.tagged _ refl,
            refl,
          )
        ]

  pub Ends-reserve_space :
      (deal : ProviderDealState) (host : ℕ) (w : World)
      → let (x, w') = reserve_space (steady c c' env) deal host w in
        Ends deal.deal_uuid (λ (_ : Unit {0}). Own deal.deal_uuid) x w w'
  unfolding reserve_space Ends
  Ends-reserve_space deal host w =
      Ends-bind deal.deal_uuid (λ (_ : Unit {0}). Own deal.deal_uuid)
        (on_storage (tag (reliable c') env.storage_config deal.deal_uuid deal.transfer.size host))
        (space_tagged (steady c c' env) deal) w (λ _ v v' a b. Own-trans deal.deal_uuid w v v' a b)
        (Own-tag deal host w) (λ r v own. Ends-space_tagged deal r v)
