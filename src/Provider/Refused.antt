-- ===== src/Provider/Refused.antt =====
-- A refused online proposal leaves the databases as they were, and an accepted one is saved once.
use boost.Common.{ℕ, ◌≡◌, ◌⊎◌, refl, sym, Option, none, some, ok, err, ◌>>=◌}
use boost.Deal.{ProviderDealState}
use boost.Funds.Sums as FundsRows
use boost.Storage.Rows as StorageRows
use boost.Provider.World.{World, Env, Provider, AcceptError, refused}
use boost.Provider.Propose.{
  check_proposal, reserve_funds, reserve_space, save_deal, stage_deal, reserve_and_save,
  propose_from, process_online_deal_proposal,
}
use boost.Provider.Trace.{Ends, Ends-bind}
use boost.Provider.Checks.{steady, Fresh, Ends-check_proposal}
use boost.Provider.Reserve.{Ends-reserve_funds, Ends-reserve_space}
use boost.Provider.Save.{Saved, Own-Saved, told, Ends-staging}

module _ (c c' : ℕ → ℕ) (env : Env) where
  pub Ends-reserve_and_save :
      (deal : ProviderDealState) (host : ℕ) (w : World)
      → let (r, w') = reserve_and_save (steady c c' env) deal host w in
        Ends deal.deal_uuid (Saved deal) r w w'
  unfolding reserve_and_save
  Ends-reserve_and_save deal host w =
      Ends-bind deal.deal_uuid (Saved deal) (reserve_funds e deal)
        (λ _. reserve_space e deal host >>= λ _. staging) w
        (λ b v v' own saved. Own-Saved deal b w v v' own saved) (Ends-reserve_funds c c' env deal w)
        (λ _ v own.
          Ends-bind deal.deal_uuid (Saved deal) (reserve_space e deal host) (λ _. staging) v
            (λ b u u' own saved. Own-Saved deal b v u u' own saved)
            (Ends-reserve_space c c' env deal host v) (λ _ u own. Ends-staging c c' env deal u))
    where
      e : Env
      e = steady c c' env

      staging : Provider ProviderDealState
      staging = stage_deal e deal >>= save_deal e

  Ends-propose_from :
      (deal : ProviderDealState) (host : Option ℕ) (w : World)
      → Fresh deal.deal_uuid w
      → let (r, w') = propose_from (steady c c' env) deal host w in
        Ends deal.deal_uuid (Saved deal) r w w'
  unfolding propose_from Ends
  Ends-propose_from deal none w (f, s) = (
    sym (FundsRows.others_self deal.deal_uuid w.funds.tagged f),
    sym (StorageRows.others_self deal.deal_uuid w.storage.tagged s),
    refl,
  )
  Ends-propose_from deal (some host) w fresh =
      Ends-bind deal.deal_uuid (Saved deal) (check_proposal (steady c c' env) deal)
        (λ _. reserve_and_save (steady c c' env) deal host) w
        (λ b v v' own saved. Own-Saved deal b w v v' own saved)
        (Ends-check_proposal (steady c c' env) deal w fresh)
        (λ _ v own. Ends-reserve_and_save deal host v)

  -- An online proposal for a deal with nothing tagged, on databases of the two managers whose
  -- statements do not fail, whatever else fails: either it is refused by an error, never by a
  -- panic, and the tagged funds, the tagged space and the deals table are as they were before; or
  -- it gives the deal at Accepted, saved once under a uuid that was not in the table, and no row
  -- of another deal was tagged or untagged.
  pub process_online_all_or_nothing :
      (deal : ProviderDealState) (w : World)
      → Fresh deal.deal_uuid w
      → let (r, w') = process_online_deal_proposal (steady c c' env) deal w in
        ((e : AcceptError) × (r ≡ err (refused e))
          × (w'.funds.tagged ≡ w.funds.tagged)
          × (w'.storage.tagged ≡ w.storage.tagged)
          × (w'.deals ≡ w.deals))
        ⊎ ((row : ProviderDealState) × (r ≡ ok row) × Saved deal row w w')
  unfolding process_online_deal_proposal
  process_online_all_or_nothing deal w fresh =
      told deal (propose_from (steady c c' env) deal (env.transfer_host deal.transfer) w).0 w
        (propose_from (steady c c' env) deal (env.transfer_host deal.transfer) w).1 fresh
        (Ends-propose_from deal (env.transfer_host deal.transfer) w fresh)
