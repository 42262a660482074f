-- ===== src/Provider/Propose.antt =====
-- storagemarket/provider_loop.go: what is done with a proposal before the loop answers it.
use boost.Common.{
  ℕ, ◌==◌, Bool, true, false, not, [], ◌∷◌, ◌++◌, Option, none, some, if◌then◌else◌, Result, ok,
  err, pure, gets, modify, raise, ◌>>=◌, ◌>>◌, find_if,
}
use boost.Deal.{ProviderDealState, accepted}
use boost.Funds.{FundsError, insufficient_funds, tag_funds, untag_funds, TagFundsResp}
use boost.Storage.{StorageError, no_space_left, tag, untag}
use boost.Provider.World.{
  Env, Provider, AcceptError, panic, proposal_cid_error, proposal_lookup_error, uuid_lookup_error,
  filter_params_error, filter_error, tag_funds_error, tag_storage_error, staging_file_error,
  insert_error, host_error, proposal_not_unique, uuid_not_unique, filter_rejected,
  insufficient_provider_funds, no_space_for_deal, call, refuse, refuse_if, on_funds, on_storage,
  when, by_id, mk_and_insert_deal_handler,
}

unfoldable pub funds_refusal : FundsError → AcceptError
funds_refusal insufficient_funds = insufficient_provider_funds
funds_refusal _ = tag_funds_error

unfoldable pub storage_refusal : StorageError → AcceptError
storage_refusal no_space_left = no_space_for_deal
storage_refusal _ = tag_storage_error

-- Whether the row has this signed proposal cid.
abbrev pub same_cid : Option ℕ → ℕ → Bool
same_cid none cid = false
same_cid (some c) cid = c == cid

module _ (env : Env) where
  -- By the cid of the signed proposal, if it can be computed.
  unfoldable pub lookup_proposal : Option ℕ → Provider (Unit {0})
  lookup_proposal none = refuse proposal_cid_error
  lookup_proposal (some cid) = do
    deals ← gets (λ w. w.deals)
    failed ← call env.deals_fault
    refuse_if failed proposal_lookup_error
    elim (find_if (λ d. same_cid (env.signed_proposal_cid d.proposal) cid) deals) [
      | none ↦ pure tt
      | some d ↦ refuse proposal_not_unique
    ]

  unfoldable pub check_deal_prop_unique : ProviderDealState → Provider (Unit {0})
  check_deal_prop_unique deal = lookup_proposal (env.signed_proposal_cid deal.proposal)

  unfoldable pub check_deal_uuid_unique : ProviderDealState → Provider (Unit {0})
  unfolding by_id
  check_deal_uuid_unique deal = do
    deals ← gets (λ w. w.deals)
    failed ← call env.deals_fault
    refuse_if failed uuid_lookup_error
    elim (by_id deal.deal_uuid deals) [ none ↦ pure tt | some d ↦ refuse uuid_not_unique ]

  -- By what the filter says.
  unfoldable pub filter_answer : Option Bool → Provider (Unit {0})
  filter_answer none = refuse filter_error
  filter_answer (some accept) = refuse_if (not accept) filter_rejected

  unfoldable pub run_deal_filters : ProviderDealState → Provider (Unit {0})
  run_deal_filters deal = do
    no_params ← call env.deal_filter_params
    refuse_if no_params filter_params_error
    accept ← call (λ n. env.deal_filter n deal)
    filter_answer accept

  -- The three checks that come before anything is reserved.
  unfoldable pub check_proposal : ProviderDealState → Provider (Unit {0})
  check_proposal deal = do
    check_deal_prop_unique deal
    check_deal_uuid_unique deal
    run_deal_filters deal

  -- The closure `cleanup`, which logs the errors of what it calls.
  unfoldable pub cleanup : ProviderDealState → Provider (Unit {0})
  cleanup deal = do
    on_funds (untag_funds env.funds_driver env.node env.funds_config deal.deal_uuid)
    on_storage (untag env.storage_driver env.storage_config deal.deal_uuid)
    when (not (deal.inbound_file_path == 0))
        (modify (λ w. record w { removed_files = deal.inbound_file_path ∷ w.removed_files }))

  unfoldable pub clean_and_refuse : {A : Type 0} → ProviderDealState → AcceptError → Provider A
  clean_and_refuse deal e = do cleanup deal; refuse e

  unfoldable pub funds_tagged :
      ProviderDealState → Result FundsError TagFundsResp → Provider (Unit {0})
  funds_tagged deal (ok resp) = pure tt
  funds_tagged deal (err e) = clean_and_refuse deal (funds_refusal e)

  unfoldable pub reserve_funds : ProviderDealState → Provider (Unit {0})
  reserve_funds deal = do
    r ← on_funds (tag_funds env.funds_driver env.node env.funds_config deal.deal_uuid deal.proposal)
    funds_tagged deal r

  unfoldable pub space_tagged :
      ProviderDealState → Result StorageError (Unit {0}) → Provider (Unit {0})
  space_tagged deal (ok _) = pure tt
  space_tagged deal (err e) = clean_and_refuse deal (storage_refusal e)

  unfoldable pub reserve_space : ProviderDealState → ℕ → Provider (Unit {0})
  reserve_space deal host = do
    r ←
        on_storage
          (tag env.storage_driver env.storage_config deal.deal_uuid deal.transfer.size host)
    space_tagged deal r

  -- Gives the deal with its file, or ends.
  unfoldable pub staged : ProviderDealState → Option ℕ → Provider ProviderDealState
  staged deal none = clean_and_refuse deal staging_file_error
  staged deal (some path) = pure (record deal { inbound_file_path = path })

  -- The deal as it is written to the table.
  unfoldable pub stamped : ProviderDealState → Provider ProviderDealState
  stamped deal = do
    created ← call env.clock
    now ← call env.clock
    pure (record deal { created_at = created; checkpoint = accepted; checkpoint_at = now })

  -- `Insert`, which fails for a uuid that is in the table: whether it failed.
  unfoldable pub insert_deal : ProviderDealState → Provider Bool
  insert_deal deal = do
    failed ← call env.deals_fault
    deals ← gets (λ w. w.deals)
    elim (by_id deal.deal_uuid deals) [
      | some d ↦ pure true
      | none ↦
          if failed
          then pure true
          else (do modify (λ w. record w { deals = w.deals ++ deal ∷ [] }); pure false)
    ]

  unfoldable pub inserted : ProviderDealState → Bool → Provider ProviderDealState
  inserted deal true = clean_and_refuse deal insert_error
  inserted deal false = pure deal

  unfoldable pub save_deal : ProviderDealState → Provider ProviderDealState
  save_deal deal = do row ← stamped deal; failed ← insert_deal row; inserted row failed

  unfoldable pub stage_deal : ProviderDealState → Provider ProviderDealState
  stage_deal deal = do path ← call (λ n. env.staging_file n deal.deal_uuid); staged deal path

  -- From the first tag to the row in the table.
  unfoldable pub reserve_and_save : ProviderDealState → ℕ → Provider ProviderDealState
  reserve_and_save deal host = do
    reserve_funds deal
    reserve_space deal host
    with_file ← stage_deal deal
    save_deal with_file

  -- By the host of the transfer, if its parameters give one.
  unfoldable pub propose_from : ProviderDealState → Option ℕ → Provider ProviderDealState
  propose_from deal none = refuse host_error
  propose_from deal (some host) = do check_proposal deal; reserve_and_save deal host

  unfoldable pub process_online_deal_proposal : ProviderDealState → Provider ProviderDealState
  process_online_deal_proposal deal = propose_from deal (env.transfer_host deal.transfer)

  unfoldable pub offline_inserted : ProviderDealState → Bool → Provider ProviderDealState
  offline_inserted deal true = refuse insert_error
  offline_inserted deal false = pure deal

  unfoldable pub process_offline_deal_proposal : ProviderDealState → Provider ProviderDealState
  process_offline_deal_proposal deal = do
    check_proposal deal
    row ← stamped deal
    failed ← insert_deal row
    offline_inserted row failed

  -- `err.error = herr` writes through a nil pointer where the handler cannot be made.
  unfoldable pub process_deal : ProviderDealState → Provider ProviderDealState
  process_deal deal = if not deal.is_offline then process_online_deal_proposal deal else (do
    handler ← mk_and_insert_deal_handler env deal.deal_uuid
    elim handler [ none ↦ raise panic | some dh ↦ process_offline_deal_proposal deal ])

  unfoldable pub import_tagged :
      ProviderDealState → Result FundsError TagFundsResp → Provider (Unit {0})
  import_tagged deal (ok resp) = pure tt
  import_tagged deal (err e) = do
    on_funds (untag_funds env.funds_driver env.node env.funds_config deal.deal_uuid)
    refuse (funds_refusal e)

  unfoldable pub process_import_offline_deal_data : ProviderDealState → Provider (Unit {0})
  process_import_offline_deal_data deal = do
    r ← on_funds (tag_funds env.funds_driver env.node env.funds_config deal.deal_uuid deal.proposal)
    import_tagged deal r
