-- ===== src/Provider/Loop.antt =====
-- storagemarket/provider_loop.go: what the run loop does with each request that it receives.
use boost.Common.{
  ℕ, Bool, true, false, List, [], ◌∷◌, ◌++◌, Option, none, some, if◌then◌else◌, Result, ok, err,
  pure, gets, modify, ◌>>=◌, ◌>>◌,
}
use boost.Deal.{ProviderDealState, complete, retry_fatal, terminated_text, up_to}
use boost.Handler.{DealHandler, close, set_running}
use boost.Funds.{FundsError, not_found, untag_funds}
use boost.Storage.{untag}
use boost.Provider.World.{
  Env, Provider, AcceptError, refused, panic, handler_error, call, on_funds, on_storage, by_id,
  update_row, mk_and_insert_deal_handler, set_handler, del_deal_handler,
}
use boost.Provider.Propose.{process_import_offline_deal_data, process_deal}

-- What is sent to the client.
pub data Response : Type 0 where
  accepts : Response
  rejects : AcceptError → Response

-- What is sent to a user who retries or terminates a deal; `retried` and `terminated` are nil.
pub data RetryAnswer : Type 0 where
  retried terminated no_deal already_complete handler_failed deal_running : RetryAnswer

-- What a method ended with: an answer, or an error. A panic goes on.
abbrev pub attempt : {A : Type 0} → Provider A → Provider (Result AcceptError A)
attempt m w =
    let (r, w') = m w in
    elim r [
      | ok a ↦ (ok (ok a), w')
      | err (refused e) ↦ (ok (err e), w')
      | err panic ↦ (err panic, w')
    ]

-- The error of an untagging that is sent back.
unfoldable pub published_answer : {A : Type 0} → Result FundsError A → Option FundsError
published_answer (ok a) = none
published_answer (err not_found) = none
published_answer (err e) = some e

-- The row of a deal that the user fails.
unfoldable pub terminate : ProviderDealState → ProviderDealState
terminate deal = record deal {
  checkpoint = complete;
  retry = retry_fatal;
  deal_err = some terminated_text;
}

module _ (env : Env) where
  -- Whether a thread was started: a deal that runs is not started again.
  unfoldable pub start_deal_thread : ℕ → DealHandler → Provider Bool
  unfolding set_running
  start_deal_thread uuid dh = do
    let (changed, running) = set_running true dh
    if changed
        then (do
          set_handler env uuid running
          modify (λ w. record w { started = uuid ∷ w.started })
          pure true)
        else pure false

  unfoldable pub start_with : ℕ → Option DealHandler → Provider (List Response)
  start_with uuid none = pure (rejects handler_error ∷ [])
  start_with uuid (some dh) = do start_deal_thread uuid dh; pure []

  unfoldable pub setup_handler_and_start_deal : ℕ → Provider (List Response)
  setup_handler_and_start_deal uuid = do
    dh ← mk_and_insert_deal_handler env uuid
    start_with uuid dh

  -- Responses of the start, and the accept response after it.
  unfoldable pub start_and_accept : ℕ → Provider (List Response)
  start_and_accept uuid = do sent ← setup_handler_and_start_deal uuid; pure (sent ++ accepts ∷ [])

  unfoldable pub imported : ℕ → Result AcceptError (Unit {0}) → Provider (List Response)
  imported uuid (err e) = pure (rejects e ∷ [])
  imported uuid (ok _) = start_and_accept uuid

  -- `acceptDealChan`, for the import of an offline deal's data.
  unfoldable pub handle_import : ProviderDealState → Provider (List Response)
  handle_import deal = do
    r ← attempt (process_import_offline_deal_data env deal)
    imported deal.deal_uuid r

  -- `storageSpaceChan`.
  unfoldable pub handle_storage_space : ℕ → Provider (Unit {0})
  handle_storage_space uuid = do
    on_storage (untag env.storage_driver env.storage_config uuid)
    pure tt

  -- `publishedDealChan`; gives the error that is sent back, if one is.
  unfoldable pub handle_published : ℕ → Provider (Option FundsError)
  handle_published uuid = do
    r ← on_funds (untag_funds env.funds_driver env.node env.funds_config uuid)
    pure (published_answer r)

  -- `finishedDealChan`.
  unfoldable pub handle_finished : ℕ → Provider (Unit {0})
  handle_finished uuid = do
    on_funds (untag_funds env.funds_driver env.node env.funds_config uuid)
    on_storage (untag env.storage_driver env.storage_config uuid)
    pure tt

  unfoldable pub fail_paused_deal : DealHandler → ProviderDealState → Provider RetryAnswer
  fail_paused_deal dh deal = if dh.running then pure deal_running else (do
    failed ← call env.deals_fault
    modify (λ w. record w {
      deals = if failed then w.deals else update_row (terminate deal) w.deals;
      cleanups = terminate deal ∷ w.cleanups;
    })
    pure terminated)

  unfoldable pub retry_with : Bool → ProviderDealState → Option DealHandler → Provider RetryAnswer
  retry_with retry deal none = pure handler_failed
  retry_with retry deal (some dh) =
      if retry
      then (do start_deal_thread deal.deal_uuid dh; pure retried)
      else fail_paused_deal dh deal

  unfoldable pub retry_deal : Bool → Option ProviderDealState → Provider RetryAnswer
  retry_deal retry none = pure no_deal
  retry_deal retry (some deal) =
      if up_to complete deal.checkpoint
      then pure already_complete
      else (do dh ← mk_and_insert_deal_handler env deal.deal_uuid; retry_with retry deal dh)

  -- `updateRetryStateChan`.
  unfoldable pub handle_retry : ℕ → Bool → Provider RetryAnswer
  handle_retry uuid retry = do
    failed ← call env.deals_fault
    deals ← gets (λ w. w.deals)
    retry_deal retry (if failed then none else by_id uuid deals)

  unfoldable pub reject_offline : ℕ → AcceptError → Option DealHandler → Provider (List Response)
  reject_offline uuid e none = pure (rejects handler_error ∷ [])
  reject_offline uuid e (some dh) = do
    set_handler env uuid (close dh)
    del_deal_handler env uuid
    pure (rejects e ∷ [])

  -- `processedDealChan`, with what `processDeal` ended with.
  unfoldable pub handle_processed :
      ProviderDealState → Result AcceptError ProviderDealState → Provider (List Response)
  handle_processed deal (err e) =
      if deal.is_offline
      then (do
        dh ← mk_and_insert_deal_handler env deal.deal_uuid
        reject_offline deal.deal_uuid e dh)
      else pure (rejects e ∷ [])
  handle_processed deal (ok row) =
      if deal.is_offline then pure (accepts ∷ []) else start_and_accept deal.deal_uuid

  -- A proposal from its arrival to its responses, with nothing in between.
  unfoldable pub handle_proposal : ProviderDealState → Provider (List Response)
  handle_proposal deal = do r ← attempt (process_deal env deal); handle_processed deal r
