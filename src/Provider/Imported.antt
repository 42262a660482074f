-- ===== src/Provider/Imported.antt =====
-- The import of an offline deal's data, and its cancellation before that.
use boost.Common.{ℕ, ◌≡◌, ◌⊎◌, inl, inr, refl, Result, ok, err, ◌∙◌, ap}
use boost.Deal.{ProviderDealState}
use boost.Funds.{FundsError, TagFundsResp, tag_funds}
use boost.Funds.Sums as FundsRows
use boost.Funds.Undo.{untag_funds-others}
use boost.Funds.Refusal.{reliable}
use boost.Provider.World.{World, Env, AcceptError, Stop, refused, on_funds}
use boost.Provider.Propose.{funds_refusal, import_tagged, process_import_offline_deal_data}
use boost.Provider.Checks.{steady}
use boost.Provider.Reserve.{Own-tag_funds}

module _ (c c' : ℕ → ℕ) (env : Env) where
  -- The deal's funds are tagged, or all funds of the deal are released.
  abbrev ImportOutcome : ℕ → World → Result Stop (Unit {0}) × World → Type 0
  ImportOutcome uuid w (r, w') =
      (w'.storage.tagged ≡ w.storage.tagged)
      × (w'.deals ≡ w.deals)
      × (((r ≡ ok tt)
            × (FundsRows.others uuid w'.funds.tagged ≡ FundsRows.others uuid w.funds.tagged))
          ⊎ ((e : AcceptError) × (r ≡ err (refused e))
              × (w'.funds.tagged ≡ FundsRows.others uuid w.funds.tagged)))

  import_tagged_lem :
      (deal : ProviderDealState) (r : Result FundsError TagFundsResp) (w v : World)
      → (v.storage ≡ w.storage)
      → (v.deals ≡ w.deals)
      → FundsRows.others deal.deal_uuid v.funds.tagged
        ≡ FundsRows.others deal.deal_uuid w.funds.tagged
      → ImportOutcome deal.deal_uuid w (import_tagged (steady c c' env) deal r v)
  unfolding import_tagged
  import_tagged_lem deal (ok resp) w v s d f = (ap (λ x. x.tagged) s, d, inl (refl, f))
  import_tagged_lem deal (err e) w v s d f = (
    ap (λ x. x.tagged) s,
    d,
    inr (
      funds_refusal e,
      refl,
      untag_funds-others c env.node env.funds_config deal.deal_uuid v.funds ∙ f,
    ),
  )

  -- The import of an offline deal's data, on a fund manager whose statements do not fail: it tags
  -- no storage and changes no deal and no funds of another deal. Where it is refused, no row of
  -- tagged funds is left for the deal, also none that an earlier import of it had made and that
  -- the deal may still need.
  pub process_import_lem :
      (deal : ProviderDealState) (w : World)
      → let (r, w') = process_import_offline_deal_data (steady c c' env) deal w in
        (w'.storage.tagged ≡ w.storage.tagged)
        × (w'.deals ≡ w.deals)
        × (((r ≡ ok tt)
              × (FundsRows.others deal.deal_uuid w'.funds.tagged
                  ≡ FundsRows.others deal.deal_uuid w.funds.tagged))
            ⊎ ((e : AcceptError) × (r ≡ err (refused e))
                × (w'.funds.tagged ≡ FundsRows.others deal.deal_uuid w.funds.tagged)))
  unfolding process_import_offline_deal_data
  process_import_lem deal w =
      let tagging =
        on_funds (tag_funds (reliable c) env.node env.funds_config deal.deal_uuid deal.proposal) in
      let v = (tagging w).1 in
      let (f, s, d) = Own-tag_funds c c' env deal w in
      import_tagged_lem deal
        (tag_funds (reliable c) env.node env.funds_config deal.deal_uuid deal.proposal w.funds).0 w
        v refl refl f
