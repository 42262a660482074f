-- ===== src/Exec/Steps/Stages.antt =====
-- Each stage of a run is a `Step`.
use boost.Common.{ℕ, ◌≡◌, refl, Bool-cases, inl, inr, false, Option, arith, Result-cases, ◌>>=◌}
use boost.Deal.{transferred, published, added_piece, indexed_and_announced, before, up_to}
use boost.Handler.{DealHandler, Response, no_error, transfer_complete, set_cancel_transfer_response}
use boost.Exec.World.{
  World, Exec, deal_error, panic, CallError, Effect, Env, call, when, emit, update_checkpoint,
  check_deal_proposal_start_epoch, deal_new, deal_update, untag_funds_request,
  untag_storage_request, inbound_removed,
}
use boost.Exec.Transfer.{verify_comm_p, transfer_and_verify}
use boost.Exec.Publish.{publish_deal}
use boost.Exec.Seal.{add_piece, index_and_announce}
use boost.Exec.Run.{
  set_handler, on_error, request, online_transfer, offline_import, exec_transfer, exec_publish,
  exec_add_piece, exec_index, exec_deal_upto_add_piece, cleanup_deal_handler, cleanup_deal,
  count_received,
}
use boost.Exec.Steps.{
  Step, Quiet, is_published_msg, is_piece_handed, is_update_failed, Kept, Quiet-Step, Step-trans,
  Step-bind, Quiet-then, Step-when, Quiet-check_deal_proposal_start_epoch, Step-update_checkpoint,
}
use boost.Exec.Steps.Transfer.{Quiet-verify_comm_p, Step-transfer_and_verify}
use boost.Exec.Steps.Publish.{Step-publish_deal}
use boost.Exec.Steps.Seal.{Step-add_piece, Step-index_and_announce}

Step-on_error :
    (m : Exec (Unit {0})) (r : Response) (w : World)
    → Step w (m w).1
    → Step w (on_error m (set_handler (set_cancel_transfer_response r)) w).1
unfolding Step Kept
Step-on_error m r w h = elim (Result-cases (m w).0) [
  | inl (a, e) ↦ ground (arith, e, h)
  | inr (deal_error x, e) ↦ ground (arith, e, h)
  | inr (panic, e) ↦ ground (arith, e, h)
]

Quiet-set_handler : (f : DealHandler → DealHandler) (w : World) → Quiet w (set_handler f w).1
unfolding Quiet Kept
Quiet-set_handler f w = (refl, refl, refl, refl, refl, omega arith, ground arith)

Quiet-emit :
    (e : Effect)
    → is_published_msg e ≡ false
    → is_piece_handed e ≡ false
    → is_update_failed e ≡ false
    → (w : World) → Quiet w (emit e w).1
unfolding Quiet Kept
Quiet-emit e p h l w = ground (arith, p, h, l)

Quiet-request :
    (ctx : ℕ → Option CallError) (e : Effect)
    → is_published_msg e ≡ false
    → is_piece_handed e ≡ false
    → is_update_failed e ≡ false
    → (w : World) → Quiet w (request (call ctx) (emit e) w).1
unfolding Quiet Kept
Quiet-request ctx e p h l w = ground (arith, p, h, l)

-- The two events at the start.
abbrev told : Exec (Unit {0})
told = emit deal_new >>= λ _. emit deal_update

Quiet-told : (w : World) → Quiet w (told w).1
unfolding Quiet Kept
Quiet-told w = ground arith

module _ (env : Env) where
  Step-online_transfer : (w : World) → Step w (online_transfer env w).1
  unfolding online_transfer
  Step-online_transfer w =
      Step-bind (when (before w.deal.checkpoint transferred) transferring)
        (λ _. set_handler (set_cancel_transfer_response transfer_complete)) w
        (Step-when (before w.deal.checkpoint transferred) transferring w (λ early.
          Quiet-then (check_deal_proposal_start_epoch env) (λ _. guarded) w 0
            (ground (arith, early)) (Quiet-check_deal_proposal_start_epoch env w)
            (λ _ v low.
              Step-on_error (transfer_and_verify env) no_error v
                (Step-transfer_and_verify env v (omega arith)))))
        (λ _ v.
          Quiet-Step v _ (Quiet-set_handler (set_cancel_transfer_response transfer_complete) v))
    where
      guarded : Exec (Unit {0})
      guarded =
          on_error (transfer_and_verify env) (set_handler (set_cancel_transfer_response no_error))

      transferring : Exec (Unit {0})
      transferring = check_deal_proposal_start_epoch env >>= λ _. guarded

  Step-offline_import : (w : World) → Step w (offline_import env w).1
  unfolding offline_import
  Step-offline_import w = Step-when (before w.deal.checkpoint transferred) importing w (λ early.
      Quiet-then (verify_comm_p env) (λ _. update_checkpoint env transferred) w 0
        (ground (arith, early)) (Quiet-verify_comm_p env w)
        (λ _ v low. Step-update_checkpoint env transferred v (omega arith)))
    where
      importing : Exec (Unit {0})
      importing = verify_comm_p env >>= λ _. update_checkpoint env transferred

  Step-exec_transfer : (w : World) → Step w (exec_transfer env w).1
  unfolding exec_transfer
  Step-exec_transfer w = elim (Bool-cases w.deal.is_offline) [
    | inl e ↦ ground (arith, e, Step-offline_import w)
    | inr e ↦ ground (arith, e, Step-online_transfer w)
  ]

  pub Quiet-count_received : (w : World) → Quiet w (count_received env w).1
  unfolding count_received Quiet Kept
  Quiet-count_received w = ground arith

  pub Quiet-cleanup_deal_handler : (w : World) → Quiet w (cleanup_deal_handler env w).1
  unfolding cleanup_deal_handler Quiet Kept
  Quiet-cleanup_deal_handler w = ground arith

  pub Quiet-cleanup_deal : (w : World) → Quiet w (cleanup_deal env w).1
  unfolding cleanup_deal cleanup_deal_handler Quiet Kept
  Quiet-cleanup_deal w = ground arith

  Step-exec_index : (w : World) → Step w (exec_index env w).1
  unfolding exec_index
  Step-exec_index w =
      Step-when (before w.deal.checkpoint indexed_and_announced) (index_and_announce env) w
        (λ early. Step-index_and_announce env w (ground (arith, early)))

  Step-exec_publish : (w : World) → Step w (exec_publish env w).1
  unfolding exec_publish
  Step-exec_publish w =
      Step-bind (when (up_to w.deal.checkpoint published) (publish_deal env)) (λ _. untagging) w
        (Step-when (up_to w.deal.checkpoint published) (publish_deal env) w
          (λ early. Step-publish_deal env w (ground (arith, early))))
        (λ _ v.
          Quiet-Step v (untagging v).1
            (Quiet-request (env.context_error) untag_funds_request refl refl refl v))
    where
      untagging : Exec (Unit {0})
      untagging = request (call env.context_error) (emit untag_funds_request)

  Step-exec_add_piece : (w : World) → Step w (exec_add_piece env w).1
  unfolding exec_add_piece
  Step-exec_add_piece w =
      Step-bind (when (before w.deal.checkpoint added_piece) (add_piece env)) (λ _. removing) w
        (Step-when (before w.deal.checkpoint added_piece) (add_piece env) w
          (λ early. Step-add_piece env w (ground (arith, early))))
        (λ _ v.
          Step-bind (when w.deal.cleanup_data (emit inbound_removed)) (λ _. untagging) v
            (Step-when w.deal.cleanup_data (emit inbound_removed) v (λ _.
              Quiet-Step v (emit inbound_removed v).1
                (Quiet-emit inbound_removed refl refl refl v)))
            (λ _ u.
              Quiet-Step u (untagging u).1
                (Quiet-request (env.context_error) untag_storage_request refl refl refl u)))
    where
      untagging : Exec (Unit {0})
      untagging = request (call env.context_error) (emit untag_storage_request)

      removing : Exec (Unit {0})
      removing = when w.deal.cleanup_data (emit inbound_removed) >>= λ _. untagging

  pub Step-exec_deal_upto_add_piece : (w : World) → Step w (exec_deal_upto_add_piece env w).1
  unfolding exec_deal_upto_add_piece
  Step-exec_deal_upto_add_piece w =
      Step-trans w (told w).1 _ (Quiet-Step w (told w).1 (Quiet-told w)) (
        Step-bind (exec_transfer env) (λ _. after_transfer) (told w).1
          (Step-exec_transfer (told w).1)
          (λ _ v.
            Step-bind (exec_publish env) (λ _. after_publish) v (Step-exec_publish v)
              (λ _ u.
                Step-bind (exec_add_piece env) (λ _. exec_index env) u (Step-exec_add_piece u)
                  (λ _ x. Step-exec_index x))))
    where
      after_publish : Exec (Unit {0})
      after_publish = exec_add_piece env >>= λ _. exec_index env

      after_transfer : Exec (Unit {0})
      after_transfer = exec_publish env >>= λ _. after_publish
