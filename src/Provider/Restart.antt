-- ===== src/Provider/Restart.antt =====
-- `Start` of storagemarket/provider.go, up to the start of the run loop.
use boost.Common.{
  ℕ, zero, suc, ◌==◌, Bool, true, false, not, List, [], ◌∷◌, Option, none, some, if◌then◌else◌,
  ◌&&◌, ◌||◌, pure, gets, modify, ◌>>=◌, ◌>>◌, select, leb, ltb_ℤ,
}
use boost.Deal.{
  ProviderDealState, retry_fatal, failure_text, is_auto, before, up_to, added_piece,
  indexed_and_announced, complete,
}
use boost.Handler.{DealHandler}
use boost.Funds.{untag_funds}
use boost.Storage.{untag}
use boost.Exec.World.{SectorState}
use boost.Exec.Seal.{is_final_sealing_state}
use boost.Provider.World.{
  World, Env, Provider, call, update_row, on_funds, on_storage, when, refuse_if, setup_error,
  mk_and_insert_deal_handler,
}
use boost.Provider.Loop.{start_deal_thread}

abbrev pub is_complete : ProviderDealState → Bool
is_complete deal = up_to complete deal.checkpoint

-- The deal has been indexed and announced, so that its sector may be in a final state.
abbrev pub is_indexed : ProviderDealState → Bool
is_indexed deal = up_to indexed_and_announced deal.checkpoint

-- An offline deal whose data was not imported yet.
abbrev pub awaits_import : ProviderDealState → Bool
awaits_import deal = deal.is_offline && (deal.inbound_file_path == 0)

-- By what `SectorsStatus` answers; `none` is an error.
unfoldable pub is_done : Option SectorState → Bool
is_done none = true
is_done (some state) = is_final_sealing_state state

-- `ORDER BY CreatedAt DESC`; rows of one time stay in the order of the table.
unfoldable pub place : ProviderDealState → List ProviderDealState → List ProviderDealState
place deal [] = deal ∷ []
place deal (d ∷ deals) =
    let rest = place deal deals in
    if leb d.created_at deal.created_at then deal ∷ d ∷ deals else d ∷ rest

unfoldable pub newest_first : List ProviderDealState → List ProviderDealState
newest_first [] = []
newest_first (deal ∷ deals) = place deal (newest_first deals)

-- The i-th of a list, and the others.
unfoldable pub take_at :
    ℕ → List ProviderDealState → Option (ProviderDealState × List ProviderDealState)
take_at i [] = none
take_at zero (d ∷ ds) = some (d, ds)
take_at (suc i) (d ∷ ds) = elim (take_at i ds) [ none ↦ none | some (x, rest) ↦ some (x, d ∷ rest) ]

module _ (env : Env) where
  -- `ListCompleted` and `ListActive`; an error of theirs is returned.
  unfoldable pub list_completed : Provider (List ProviderDealState)
  list_completed = do
    failed ← call env.deals_fault
    refuse_if failed setup_error
    gets (λ w. newest_first (select is_complete w.deals))

  unfoldable pub list_active : Provider (List ProviderDealState)
  list_active = do
    failed ← call env.deals_fault
    refuse_if failed setup_error
    gets (λ w. newest_first (select (λ d. not (is_complete d)) w.deals))

  unfoldable pub cleanup_deal_on_restart : ProviderDealState → Provider (Unit {0})
  cleanup_deal_on_restart deal = do
    when (not deal.is_offline)
        (modify (λ w. record w { removed_files = deal.inbound_file_path ∷ w.removed_files }))
    on_storage (untag env.storage_driver env.storage_config deal.deal_uuid)
    on_funds (untag_funds env.funds_driver env.node env.funds_config deal.deal_uuid)
    pure tt

  unfoldable pub cleanup_all : List ProviderDealState → Provider (Unit {0})
  cleanup_all [] = pure tt
  cleanup_all (deal ∷ deals) = do cleanup_deal_on_restart deal; cleanup_all deals

  -- `checkDealProposalStartEpoch`: whether it gives an error.
  unfoldable pub start_epoch_elapsed : ProviderDealState → Provider Bool
  start_epoch_elapsed deal = do
    head ← call env.chain_head
    elim head [ none ↦ pure false | some height ↦ pure (ltb_ℤ deal.proposal.start_epoch height) ]

  -- Whether the deal is left alone because its sector is in a final state or has no answer.
  unfoldable pub already_proving : ProviderDealState → Provider Bool
  already_proving deal =
      if is_indexed deal
      then (do status ← call (λ n. env.sectors_status n deal.sector_id); pure (is_done status))
      else pure false

  unfoldable pub elapsed_before_sector : ProviderDealState → Provider Bool
  elapsed_before_sector deal =
      if before deal.checkpoint added_piece then start_epoch_elapsed deal else pure false

  -- With the deal's handler.
  unfoldable pub resume : ProviderDealState → DealHandler → Provider (Unit {0})
  resume deal dh = do
    elapsed ← elapsed_before_sector deal
    if elapsed
        then modify (λ w. record w { failing = deal ∷ w.failing })
        else if awaits_import deal || not (is_auto deal.retry)
        then pure tt
        else (do start_deal_thread env deal.deal_uuid dh; pure tt)

  unfoldable pub restart_with : ProviderDealState → Option DealHandler → Provider (Unit {0})
  restart_with deal none = pure tt
  restart_with deal (some dh) = resume deal dh

  unfoldable pub restart_deal : ProviderDealState → Provider (Unit {0})
  restart_deal deal = do
    proving ← already_proving deal
    if proving
        then pure tt
        else (do dh ← mk_and_insert_deal_handler env deal.deal_uuid; restart_with deal dh)

  unfoldable pub restart_all : List ProviderDealState → Provider (Unit {0})
  restart_all [] = pure tt
  restart_all (deal ∷ deals) = do restart_deal deal; restart_all deals

  -- The databases are set up; then finished deals are cleaned up, and active deals restarted.
  unfoldable pub start : Provider (Unit {0})
  start = do
    failed ← call env.setup_fault
    refuse_if failed setup_error
    finished ← list_completed
    cleanup_all finished
    active ← list_active
    cleanup_all (select is_indexed active)
    restart_all active

  -- What `failDeal` makes of a deal whose start epoch has passed.
  abbrev pub elapsed_deal : ProviderDealState → ProviderDealState
  elapsed_deal deal = record deal {
    checkpoint = complete;
    retry = retry_fatal;
    deal_err = some (failure_text (env.start_epoch_error deal));
  }

  -- The thread `failDeal(pub, deal, serr, false)`: the row is saved, an error of which is logged, and
  -- the deal is cleaned up.
  unfoldable pub fail_deal_thread : ProviderDealState → Provider (Unit {0})
  fail_deal_thread deal = do
    failed ← call env.deals_fault
    modify (λ w. record w {
      deals = if failed then w.deals else update_row (elapsed_deal deal) w.deals;
      cleanups = elapsed_deal deal ∷ w.cleanups;
    })

  unfoldable pub run_taken : Option (ProviderDealState × List ProviderDealState) → World → World
  run_taken none w = w
  run_taken (some (deal, rest)) w = (fail_deal_thread deal (record w { failing = rest })).1

  -- Threads of those that wait run, each named by its place among them; a place that is not there is
  -- no thread.
  unfoldable pub run_failing : List ℕ → World → World
  run_failing [] w = w
  run_failing (i ∷ is) w = run_failing is (run_taken (take_at i w.failing) w)
