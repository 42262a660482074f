-- ===== src/Exec/Steps/Transfer.antt =====
-- The transfer of an execution is a `Step`.
use boost.Common.{ℤ, ◌∷◌, ◌≤◌, Option, none, some, arith, ◌>>=◌, ◌>>◌}
use boost.Deal.{rank, retry_fatal, transferred}
use boost.Exec.World.{
  World, CallError, Env, Exec, TransferRun, progress, transfer_error, context_done, channel_closed,
  result_or_fail, deal_update, transfer_bytes, emit, call, update_checkpoint,
  transfer_complete_call,
}
use boost.Exec.Transfer.{
  verify_comm_p, wait_for_transfer_finish, queue_error, interrupted, after_transfer,
  finish_transfer, leave_queue, transfer_data, transfer_and_verify,
}
use boost.Exec.Steps.{
  Step, Quiet, Kept, Quiet-refl, Quiet-trans, Quiet-Step, Step-trans, Quiet-then, Quiet-call,
  Quiet-result_or_fail, Step-update_checkpoint,
}

-- After one event of progress.
abbrev started : ℤ → World → World
started bytes w = record w {
  deal = record w.deal { n_bytes_received = bytes };
  effects = deal_update ∷ transfer_bytes bytes ∷ w.effects;
}

Quiet-started : (bytes : ℤ) (w : World) → Quiet w (started bytes w)
unfolding Quiet Kept
Quiet-started bytes w = ground arith

Quiet-emit_complete : (w : World) → Quiet w (emit transfer_complete_call w).1
unfolding Quiet Kept
Quiet-emit_complete w = ground arith

module _ (env : Env) where
  pub Quiet-verify_comm_p : (w : World) → Quiet w (verify_comm_p env w).1
  unfolding verify_comm_p Quiet Kept
  Quiet-verify_comm_p w = ground arith

  Quiet-wait_for_transfer_finish :
      (run : TransferRun) (w : World) → Quiet w (wait_for_transfer_finish env run w).1
  unfolding wait_for_transfer_finish
  Quiet-wait_for_transfer_finish channel_closed w = Quiet-refl w
  Quiet-wait_for_transfer_finish (transfer_error e) w = Quiet-refl w
  Quiet-wait_for_transfer_finish (context_done e) w = Quiet-refl w
  Quiet-wait_for_transfer_finish (progress bytes rest) w =
      Quiet-trans w (started bytes w) (wait_for_transfer_finish env rest (started bytes w)).1
        (Quiet-started bytes w) (Quiet-wait_for_transfer_finish rest (started bytes w))

  Quiet-queue_error : (e : CallError) (w : World) → Quiet w (queue_error env e w).1
  unfolding queue_error Quiet Kept
  Quiet-queue_error e w = ground arith

  Quiet-interrupted : (e : CallError) (w : World) → Quiet w (interrupted env e w).1
  unfolding interrupted Quiet Kept
  Quiet-interrupted e w = ground arith

  Step-after_transfer : (w : World) → rank w.deal.checkpoint ≤ 1 → Step w (after_transfer env w).1
  unfolding after_transfer
  Step-after_transfer w low =
      Quiet-then (emit transfer_complete_call)
        (λ _. verify_comm_p env >> update_checkpoint env transferred) w 1 low
        (Quiet-emit_complete w)
        (λ _ w' low'.
          Quiet-then (verify_comm_p env) (λ _. update_checkpoint env transferred) w' 1 low'
            (Quiet-verify_comm_p w')
            (λ _ w'' low''. Step-update_checkpoint env transferred w'' low''))

  Step-finish_transfer :
      (failure : Option CallError) (w : World)
      → rank w.deal.checkpoint ≤ 1
      → Step w (finish_transfer env failure w).1
  unfolding finish_transfer
  Step-finish_transfer none w low = Step-after_transfer w low
  Step-finish_transfer (some e) w low = Quiet-Step w (interrupted env e w).1 (Quiet-interrupted e w)

  Step-transfer_data : (w : World) → rank w.deal.checkpoint ≤ 1 → Step w (transfer_data env w).1
  unfolding transfer_data
  Step-transfer_data w low =
      Quiet-then (call env.transport_execute)
        (λ answer. result_or_fail answer retry_fatal >>= received) w 1 low
        (Quiet-call env.transport_execute w)
        (λ answer w1 low1.
          Quiet-then (result_or_fail answer retry_fatal) received w1 1 low1
            (Quiet-result_or_fail answer retry_fatal w1)
            (λ events w2 low2.
              Quiet-then (wait_for_transfer_finish env events) (finish_transfer env) w2 1 low2
                (Quiet-wait_for_transfer_finish events w2) Step-finish_transfer))
    where
      received : TransferRun → Exec (Unit {0})
      received events = wait_for_transfer_finish env events >>= finish_transfer env

  Step-leave_queue :
      (refused : Option CallError) (w : World)
      → rank w.deal.checkpoint ≤ 1
      → Step w (leave_queue env refused w).1
  unfolding leave_queue
  Step-leave_queue none w low =
      Step-trans w (transfer_data env w).1 (emit transfer_complete_call (transfer_data env w).1).1
        (Step-transfer_data w low)
        (Quiet-Step (transfer_data env w).1 (emit transfer_complete_call (transfer_data env w).1).1
          (Quiet-emit_complete (transfer_data env w).1))
  Step-leave_queue (some e) w low = Quiet-Step w (queue_error env e w).1 (Quiet-queue_error e w)

  pub Step-transfer_and_verify :
      (w : World) → rank w.deal.checkpoint ≤ 1 → Step w (transfer_and_verify env w).1
  unfolding transfer_and_verify
  Step-transfer_and_verify w low =
      Quiet-then (call env.wait_in_queue) (leave_queue env) w 1 low (Quiet-call env.wait_in_queue w)
        Step-leave_queue
