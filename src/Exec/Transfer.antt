-- ===== src/Exec/Transfer.antt =====
-- storagemarket/deal_execution.go: `transferAndVerify`, `waitForTransferFinish`; and `verifyCommP`.
use boost.Common.{◌==◌, ◌&&◌, Option, none, some, if◌then◌else◌, ok, err, pure, raise, ◌>>=◌, ◌>>◌}
use boost.Deal.{retry_auto, retry_manual, retry_fatal, transferred}
use boost.Exec.World.{
  CallError, wrapped, commp_mismatch, deal_error, Env, Exec, TransferRun, progress, transfer_error,
  context_done, channel_closed, transfer_bytes, deal_update, transfer_complete_call, call, emit,
  fail, get_deal, set_deal, result_or_fail, update_checkpoint,
}

-- `defer d()` in front of m.
abbrev pub deferring : {A : Type 0} → Exec (Unit {0}) → Exec A → Exec A
deferring d m w = let (r, w') = m w in (r, (d w').1)

module _ (env : Env) where
  unfoldable pub verify_comm_p : Exec (Unit {0})
  verify_comm_p = do
    deal ← get_deal
    commitment ←
        call (λ n. env.generate_piece_commitment n deal.inbound_file_path deal.proposal.piece_size)
    elim commitment [
      | err e ↦ raise (deal_error e)
      | ok piece_cid ↦
          if piece_cid == deal.proposal.piece_cid
          then pure tt
          else fail commp_mismatch (if deal.is_offline then retry_manual else retry_fatal)
    ]

  -- The loop on the transfer's events; gives the error that ends it, if one does.
  unfoldable pub wait_for_transfer_finish : TransferRun → Exec (Option CallError)
  wait_for_transfer_finish channel_closed = pure none
  wait_for_transfer_finish (transfer_error e) = pure (some e)
  wait_for_transfer_finish (context_done e) = pure (some e)
  wait_for_transfer_finish (progress bytes rest) = do
    set_deal (λ d. record d { n_bytes_received = bytes })
    emit (transfer_bytes bytes)
    emit deal_update
    wait_for_transfer_finish rest

  unfoldable pub queue_error : CallError → Exec (Unit {0})
  queue_error e = do
    by_user ← call env.cancelled_by_user
    fail (wrapped e)
        (if by_user then retry_fatal else if e.cancelled then retry_auto else retry_fatal)

  unfoldable pub interrupted : CallError → Exec (Unit {0})
  interrupted e = do
    by_user ← call env.cancelled_by_user
    within ← call env.within_max_duration
    fail (wrapped e)
        (if by_user then retry_fatal else if e.cancelled && within then retry_auto else retry_fatal)

  unfoldable pub after_transfer : Exec (Unit {0})
  after_transfer = do emit transfer_complete_call; verify_comm_p; update_checkpoint env transferred

  -- By the error that ended the transfer, if one did.
  unfoldable pub finish_transfer : Option CallError → Exec (Unit {0})
  finish_transfer none = after_transfer
  finish_transfer (some e) = interrupted e

  unfoldable pub transfer_data : Exec (Unit {0})
  transfer_data = do
    answer ← call env.transport_execute
    events ← result_or_fail answer retry_fatal
    failure ← wait_for_transfer_finish events
    finish_transfer failure

  -- By the error with which the wait for a spot in the queue ended, if it did.
  unfoldable pub leave_queue : Option CallError → Exec (Unit {0})
  leave_queue none = deferring (emit transfer_complete_call) transfer_data
  leave_queue (some e) = queue_error e

  unfoldable pub transfer_and_verify : Exec (Unit {0})
  transfer_and_verify = do refused ← call env.wait_in_queue; leave_queue refused
