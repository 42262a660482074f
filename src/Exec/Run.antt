-- ===== src/Exec/Run.antt =====
-- storagemarket/deal_execution.go: `runDeal`, `execDeal` and the stages they go through.
use boost.Common.{
  to_int64, not, Bool, true, false, Option, none, some, ok, err, if◌then◌else◌, pure, gets, modify,
  ◌>>=◌, ◌>>◌, ◌||◌,
}
use boost.Deal.{
  Retry, retry_auto, retry_manual, retry_fatal, is_auto, transferred, published, added_piece,
  indexed_and_announced, complete, before, up_to, cancelled_text, failure_text, ErrorText,
}
use boost.Handler.{
  no_error, transfer_complete, cleaned_up, DealHandler, set_cancel_transfer_response, close,
}
use boost.Exec.World.{
  World, DealError, deal_error, panic, caught_panic, Env, Exec, deal_new, deal_update,
  inbound_removed, untag_funds_request, untag_storage_request, finished_request, call, emit,
  get_deal, set_deal, when, result_or_fail, save_deal_to_db, update_checkpoint,
  check_deal_proposal_start_epoch,
}
use boost.Exec.Transfer.{verify_comm_p, transfer_and_verify}
use boost.Exec.Publish.{publish_deal}
use boost.Exec.Seal.{add_piece, index_and_announce, fire_sealing_update_events}

abbrev pub set_handler : (DealHandler → DealHandler) → Exec (Unit {0})
set_handler f = modify (λ w. record w { handler = f w.handler })

-- `if err := m(); err != nil { d(); return err }`: d runs where m ends by an error.
abbrev pub on_error : {A : Type 0} → Exec A → Exec (Unit {0}) → Exec A
on_error m d w =
    let (r, w') = m w in
    elim r [
      | ok a ↦ (ok a, w')
      | err (deal_error e) ↦ (err (deal_error e), (d w').1)
      | err panic ↦ (err panic, w')
    ]

-- `deal.Err != ""`.
abbrev pub has_error : Option ErrorText → Bool
has_error none = false
has_error (some e) = true

-- A request to the provider's event loop, which is not made where the context is done.
abbrev pub request : {A : Type 0} → Exec (Option A) → Exec (Unit {0}) → Exec (Unit {0})
request ctx m = do done ← ctx; elim done [ none ↦ m | some e ↦ pure tt ]

module _ (env : Env) where
  unfoldable pub online_transfer : Exec (Unit {0})
  online_transfer = do
    deal ← get_deal
    when (before deal.checkpoint transferred) (do
      check_deal_proposal_start_epoch env
      on_error (transfer_and_verify env) (set_handler (set_cancel_transfer_response no_error)))
    set_handler (set_cancel_transfer_response transfer_complete)

  unfoldable pub offline_import : Exec (Unit {0})
  offline_import = do
    deal ← get_deal
    when (before deal.checkpoint transferred)
        (do verify_comm_p env; update_checkpoint env transferred)

  unfoldable pub exec_transfer : Exec (Unit {0})
  exec_transfer = do deal ← get_deal; if deal.is_offline then offline_import else online_transfer

  unfoldable pub exec_publish : Exec (Unit {0})
  exec_publish = do
    deal ← get_deal
    when (up_to deal.checkpoint published) (publish_deal env)
    request (call env.context_error) (emit untag_funds_request)

  unfoldable pub exec_add_piece : Exec (Unit {0})
  exec_add_piece = do
    deal ← get_deal
    when (before deal.checkpoint added_piece) (add_piece env)
    when deal.cleanup_data (emit inbound_removed)
    request (call env.context_error) (emit untag_storage_request)

  unfoldable pub exec_index : Exec (Unit {0})
  exec_index = do
    deal ← get_deal
    when (before deal.checkpoint indexed_and_announced) (index_and_announce env)

  unfoldable pub exec_deal_upto_add_piece : Exec (Unit {0})
  exec_deal_upto_add_piece = do
    emit deal_new
    emit deal_update
    exec_transfer
    exec_publish
    exec_add_piece
    exec_index

  unfoldable pub cleanup_deal_handler : Exec (Unit {0})
  cleanup_deal_handler = do
    registered ← gets (λ w. w.registered)
    when registered (do
      set_handler (set_cancel_transfer_response cleaned_up)
      set_handler close
      modify (λ w. record w { registered = false }))

  unfoldable pub cleanup_deal : Exec (Unit {0})
  cleanup_deal = do
    deal ← get_deal
    when (not deal.is_offline) (emit inbound_removed)
    when (up_to complete deal.checkpoint) cleanup_deal_handler
    request (call env.context_error) (emit finished_request)

  -- How many bytes came in.
  unfoldable pub count_received : Exec (Unit {0})
  count_received = do
    deal ← get_deal
    if before deal.checkpoint added_piece
        then (do
          st ← call (λ n. env.stat_file n deal.inbound_file_path)
          size ← result_or_fail st retry_fatal
          set_deal (λ d. record d { n_bytes_received = size }))
        else when (not deal.is_offline)
            (set_deal (λ d. record d { n_bytes_received = to_int64 d.transfer.size }))

  -- What follows the hand-off: cleanup, and the watch of the sector.
  unfoldable pub finish_deal : Exec (Unit {0})
  finish_deal = do
    cleanup_deal
    deal ← get_deal
    fire_sealing_update_events env deal.sector_id
    cleanup_deal_handler

  unfoldable pub exec_body : Exec (Unit {0})
  exec_body = do count_received; exec_deal_upto_add_piece; finish_deal

  -- `execDeal`: a panic becomes an error that is retried manually.
  unfoldable pub exec_deal : World → Option DealError × World
  exec_deal w =
      let (r, w') = exec_body w in
      elim r [
        | ok _ ↦ (none, w')
        | err (deal_error e) ↦ (some e, w')
        | err panic ↦ (some (record { cause = caught_panic; retry = retry_manual }), w')
      ]

  unfoldable pub mark_failed : DealError → Bool → Exec (Unit {0})
  mark_failed e cancelled = set_deal (λ d. record d {
    checkpoint = complete;
    retry = retry_fatal;
    deal_err = some (if cancelled then cancelled_text else failure_text (env.error_text e));
  })

  unfoldable pub fail_deal : DealError → Bool → Exec (Unit {0})
  fail_deal e cancelled = do mark_failed e cancelled; save_deal_to_db env; cleanup_deal

  -- The deal stays at its checkpoint and waits to be executed again.
  unfoldable pub pause_deal : DealError → Exec (Unit {0})
  pause_deal e = do
    set_deal (λ d. record d { retry = e.retry; deal_err = some (failure_text (env.error_text e)) })
    save_deal_to_db env

  unfoldable pub clear_error : Exec (Unit {0})
  clear_error = do
    deal ← get_deal
    when (has_error deal.deal_err || is_auto deal.retry)
        (do set_deal (λ d. record d { deal_err = none; retry = retry_auto }); save_deal_to_db env)

  unfoldable pub settle_error : Retry → DealError → Exec (Unit {0})
  settle_error retry_auto e = pause_deal e
  settle_error retry_manual e = pause_deal e
  settle_error retry_fatal e = do cancelled ← call env.cancelled_by_user; fail_deal e cancelled

  -- What `runDeal` does once `execDeal` has returned.
  unfoldable pub settle : Option DealError → Exec (Unit {0})
  settle none = pure tt
  settle (some e) = settle_error e.retry e

  unfoldable pub run_deal : World → World
  run_deal w = let (failure, w') = exec_deal (clear_error w).1 in (settle failure w').1
