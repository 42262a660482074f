-- ===== src/Exec/Steps/Run.antt =====
-- A whole run is a `Step`, so that runs one after the other are.
use boost.Common.{
  ℕ, ◌+◌, ◌-◌, ◌≤◌, ◌≡◌, refl, ◌==◌, ==_iff, Bool, Bool-cases, true, sym, subst, ◌∙◌, inl, inr,
  List, [], ◌∷◌, Option, none, some, arith, Result-cases, ◌>>=◌, ltb, if◌then◌else◌,
}
use boost.Deal.{rank, Retry, retry_auto, retry_manual, retry_fatal}
use boost.Handler.{new_deal_handler}
use boost.Exec.World.{
  World, Exec, DealError, deal_error, panic, Env, call, deals_update, save_deal_to_db,
}
use boost.Exec.Seal.{fire_sealing_update_events}
use boost.Exec.Run.{
  exec_deal_upto_add_piece, cleanup_deal_handler, cleanup_deal, mark_failed, settle_error,
  count_received, exec_body, finish_deal, exec_deal, fail_deal, pause_deal, clear_error, settle,
  run_deal,
}
use boost.Exec.Steps.{
  Step, Quiet, Kept, publishes, hand_offs, lost_updates, Quiet-refl, Quiet-Step, Step-trans,
  Step-bind, Quiet-bind, Quiet-call,
}
use boost.Exec.Steps.Seal.{Quiet-fire_sealing_update_events}
use boost.Exec.Steps.Stages.{
  Quiet-count_received, Quiet-cleanup_deal_handler, Quiet-cleanup_deal,
  Step-exec_deal_upto_add_piece,
}

module _ (env : Env) where
  -- What `execDeal` does after its cleanup.
  abbrev pub watching : Exec (Unit {0})
  watching x = (fire_sealing_update_events env x.deal.sector_id >>= λ _. cleanup_deal_handler env) x

  pub Quiet-watching : (w : World) → Quiet w (watching w).1
  Quiet-watching w =
      Quiet-bind (fire_sealing_update_events env w.deal.sector_id) (λ _. cleanup_deal_handler env) w
        (Quiet-fire_sealing_update_events env w.deal.sector_id w)
        (λ _ u. Quiet-cleanup_deal_handler env u)

  pub Quiet-finish_deal : (w : World) → Quiet w (finish_deal env w).1
  unfolding finish_deal
  Quiet-finish_deal w =
      Quiet-bind (cleanup_deal env) (λ _. watching) w (Quiet-cleanup_deal env w)
        (λ _ v. Quiet-watching v)

  Step-exec_body : (w : World) → Step w (exec_body env w).1
  unfolding exec_body
  Step-exec_body w =
      Step-bind (count_received env) (λ _. executing) w
        (Quiet-Step w (count_received env w).1 (Quiet-count_received env w))
        (λ _ v.
          Step-bind (exec_deal_upto_add_piece env) (λ _. finish_deal env) v
            (Step-exec_deal_upto_add_piece env v)
            (λ _ u. Quiet-Step u (finish_deal env u).1 (Quiet-finish_deal u)))
    where
      executing : Exec (Unit {0})
      executing = exec_deal_upto_add_piece env >>= λ _. finish_deal env

  pub Step-exec_deal : (w : World) → Step w (exec_deal env w).1
  unfolding exec_deal
  Step-exec_deal w = elim (Result-cases (exec_body env w).0) [
    | inl (a, e) ↦ ground (arith, e, Step-exec_body w)
    | inr (deal_error x, e) ↦ ground (arith, e, Step-exec_body w)
    | inr (panic, e) ↦ ground (arith, e, Step-exec_body w)
  ]

  Quiet-pause_deal : (e : DealError) (w : World) → Quiet w (pause_deal env e w).1
  unfolding pause_deal save_deal_to_db deals_update Quiet Kept
  Quiet-pause_deal e w = ground arith

  pub Quiet-clear_error : (w : World) → Quiet w (clear_error env w).1
  unfolding clear_error save_deal_to_db deals_update Quiet Kept
  Quiet-clear_error w = ground arith

  -- The row follows where the deal is marked as failed.
  Step-mark_saved :
      (e : DealError) (cancelled : Bool) (w : World)
      → Step w (save_deal_to_db env (mark_failed env e cancelled w).1).1
  unfolding mark_failed save_deal_to_db deals_update Step Kept
  Step-mark_saved e cancelled w = ground arith

  pub fail_deal_lem :
      (e : DealError) (cancelled : Bool) (w : World)
      → (fail_deal env e cancelled w).1
        ≡ (cleanup_deal env (save_deal_to_db env (mark_failed env e cancelled w).1).1).1
  unfolding fail_deal mark_failed save_deal_to_db deals_update
  fail_deal_lem e cancelled w = ground arith

  Step-fail_deal :
      (e : DealError) (cancelled : Bool) (w : World) → Step w (fail_deal env e cancelled w).1
  Step-fail_deal e cancelled w =
      let saved = (save_deal_to_db env (mark_failed env e cancelled w).1).1 in
      let cleaned = (cleanup_deal env saved).1 in
      subst (Step w) (sym (fail_deal_lem e cancelled w)) (
        Step-trans w saved cleaned (Step-mark_saved e cancelled w)
          (Quiet-Step saved cleaned (Quiet-cleanup_deal env saved)))

  Step-settle_error : (r : Retry) (e : DealError) (w : World) → Step w (settle_error env r e w).1
  unfolding settle_error
  Step-settle_error retry_auto e w = Quiet-Step w (pause_deal env e w).1 (Quiet-pause_deal e w)
  Step-settle_error retry_manual e w = Quiet-Step w (pause_deal env e w).1 (Quiet-pause_deal e w)
  Step-settle_error retry_fatal e w =
      Step-bind (call env.cancelled_by_user) (fail_deal env e) w
        (Quiet-Step w (call env.cancelled_by_user w).1 (Quiet-call env.cancelled_by_user w))
        (λ cancelled v. Step-fail_deal e cancelled v)

  pub Step-settle : (failure : Option DealError) (w : World) → Step w (settle env failure w).1
  unfolding settle
  Step-settle none w = Quiet-Step w w (Quiet-refl w)
  Step-settle (some e) w = Step-settle_error e.retry e w

  pub Step-run_deal : (w : World) → Step w (run_deal env w)
  unfolding run_deal
  Step-run_deal w =
      let cleared = (clear_error env w).1 in
      let executed = (exec_deal env cleared).1 in
      Step-trans w cleared (run_deal env w) (Quiet-Step w cleared (Quiet-clear_error w)) (
        Step-trans cleared executed (run_deal env w) (Step-exec_deal cleared)
          (Step-settle (exec_deal env cleared).0 executed))

-- The next run of a deal reads its row: a retry by its uuid, a restart from the list of deals. The
-- deal has its handler still, or is given a new one.
unfoldable pub reload : World → World
reload w = record w {
  deal = w.stored;
  handler = if w.registered then w.handler else new_deal_handler;
  registered = true;
}

-- Runs of the deal, each in its own environment and from the row that the one before left. The code
-- runs no deal again whose row is complete; here it may be.
unfoldable pub runs : List Env → World → World
runs [] w = w
runs (env ∷ envs) w = runs envs (run_deal env (reload w))

-- 1 where the row is before the checkpoint of this rank.
abbrev pub row_room : ℕ → World → ℕ
row_room n w = if ltb (rank w.stored.checkpoint) n then 1 else 0

-- From one row to a later one: it does not go back; a success costs the room of the row, or an
-- update that failed.
unfoldable RowStep : World → World → Type 0
RowStep w w' =
    (rank w.stored.checkpoint ≤ rank w'.stored.checkpoint)
    × (lost_updates w ≤ lost_updates w')
    × (publishes w' + row_room 2 w' + lost_updates w ≤ publishes w + row_room 2 w + lost_updates w')
    × (hand_offs w' + row_room 4 w' + lost_updates w ≤ hand_offs w + row_room 4 w + lost_updates w')
    × (w'.stored.proposal ≡ w.stored.proposal)
    × (w'.stored.deal_uuid ≡ w.stored.deal_uuid)

run-RowStep : (env : Env) (w : World) → RowStep w (run_deal env (reload w))
unfolding RowStep reload Step Kept
run-RowStep env w =
    let v = run_deal env (reload w) in
    let (r, p, h, q, u, (lost, behind, on, up)) = Step-run_deal env (reload w) in
    let (b, q', u') = behind (omega arith, refl, refl) in
    (
      on (omega arith, refl, refl),
      lost,
      elim (Bool-cases (lost_updates v == lost_updates w)) [
        | inl same ↦ ground (arith, p, up ((==_iff _ _).0 same) refl)
        | inr more ↦ ground (arith, p, more, r, lost)
      ],
      elim (Bool-cases (lost_updates v == lost_updates w)) [
        | inl same ↦ ground (arith, h, up ((==_iff _ _).0 same) refl)
        | inr more ↦ ground (arith, h, more, r, lost)
      ],
      q' ∙ q,
      u' ∙ u,
    )

runs-RowStep : (envs : List Env) (w : World) → RowStep w (runs envs w)
unfolding runs RowStep
runs-RowStep [] w = (omega arith, omega arith, omega arith, omega arith, refl, refl)
runs-RowStep (env ∷ envs) w =
    let next = run_deal env (reload w) in
    let (r, l, p, h, q, u) = run-RowStep env w in
    let (r', l', p', h', q', u') = runs-RowStep envs next in
    (omega arith, omega arith, omega arith, omega arith, q' ∙ q, u' ∙ u)

-- However often a deal is run, each time from its row in the table, and whatever the calls answer:
-- the row never goes back to an earlier checkpoint; the publish message is sent with success at
-- most once more where the row was before Published, and no more otherwise, and at most once more
-- besides for each update of the row that failed; the same holds of the hand-off of the piece to
-- the sealer, for AddedPiece; and the row stays that of the same deal with the same proposal.
pub runs_once :
    (envs : List Env) (w : World)
    → let w' = runs envs w in
      let lost = lost_updates w' - lost_updates w in
      (rank w.stored.checkpoint ≤ rank w'.stored.checkpoint)
      × (publishes w' ≤ publishes w + (if ltb (rank w.stored.checkpoint) 2 then 1 else 0) + lost)
      × (hand_offs w' ≤ hand_offs w + (if ltb (rank w.stored.checkpoint) 4 then 1 else 0) + lost)
      × (w'.stored.proposal ≡ w.stored.proposal)
      × (w'.stored.deal_uuid ≡ w.stored.deal_uuid)
unfolding RowStep
runs_once envs w =
    let (r, l, p, h, q, u) = runs-RowStep envs w in (r, omega arith, omega arith, q, u)
