-- ===== src/Exec/Steps/Seal.antt =====
-- The hand-off to the sealer uses up the room before AddedPiece; watching the sector is quiet.
use boost.Common.{
  ℕ, zero, suc, leb, ◌==◌, ◌≤◌, ◌≡◌, Bool, not, ◌||◌, true, Option, none, some, arith, pure, ◌>>=◌,
  if◌then◌else◌,
}
use boost.Deal.{ProviderDealState, rank, retry_fatal, indexed_and_announced}
use boost.Exec.World.{
  World, Exec, CallError, Env, SectorInfo, sector_sealing_failed, failed_unrecoverable, call, when,
  fail, deals_update, update_checkpoint, check_deal_proposal_start_epoch,
}
use boost.Exec.Seal.{
  Watch, first_watch, no_sector_info, is_final_sealing_state, state_code, open_reader, hand_off,
  add_piece, track_loop, track_curio_sealing, announce, add_to_lid, index_and_announce, note_change,
  note_status, read_status, check_status, on_chain, curio_answer, final_answer, watch_loop,
  force_count, fire_sealing_update_events,
}
use boost.Exec.Steps.{
  Step, Quiet, Kept, Quiet-refl, Quiet-counted, Quiet-then, Quiet-call, Quiet-bind, Quiet-when,
  Quiet-if, Quiet-check_deal_proposal_start_epoch, Step-update_checkpoint,
}

module _ (env : Env) where
  opened_lem :
      (deal : ProviderDealState) (w : World)
      → (open_reader env deal w).1 ≡ record w { calls = (open_reader env deal w).1.calls }
  unfolding open_reader
  opened_lem deal w = ground arith

  Quiet-open_reader : (deal : ProviderDealState) (w : World) → Quiet w (open_reader env deal w).1
  Quiet-open_reader deal w = Quiet-counted w (open_reader env deal w).1 (opened_lem deal w)

  Step-hand_off : (w : World) → rank w.deal.checkpoint ≤ 3 → Step w (hand_off env w).1
  unfolding hand_off update_checkpoint deals_update Step Kept
  Step-hand_off w low = ground (arith, low)

  pub Step-add_piece : (w : World) → rank w.deal.checkpoint ≤ 3 → Step w (add_piece env w).1
  unfolding add_piece
  Step-add_piece w low =
      Quiet-then (check_deal_proposal_start_epoch env)
        (λ _ v. (open_reader env v.deal >>= λ _. hand_off env) v) w 3 low
        (Quiet-check_deal_proposal_start_epoch env w)
        (λ _ v low1.
          Quiet-then (open_reader env v.deal) (λ _. hand_off env) v 3 low1
            (Quiet-open_reader v.deal v) (λ _ u low2. Step-hand_off u low2))

  Quiet-announce : (deal : ProviderDealState) (w : World) → Quiet w (announce env deal w).1
  unfolding announce Quiet Kept
  Quiet-announce deal w = ground arith

  Quiet-add_to_lid : (w : World) → Quiet w (add_to_lid env w).1
  unfolding add_to_lid Quiet Kept
  Quiet-add_to_lid w = ground arith

  Quiet-note_status :
      (x : Watch) (status : Option CallError × SectorInfo) (w : World)
      → Quiet w (note_status env x status w).1
  unfolding note_status note_change Quiet Kept
  Quiet-note_status x (some e, si) w = ground arith
  Quiet-note_status x (none, si) w = ground arith

  Quiet-final_answer :
      (info : SectorInfo) (known : Option ProviderDealState) (w : World)
      → Quiet w (final_answer env info known w).1
  unfolding final_answer curio_answer on_chain Quiet Kept
  Quiet-final_answer info none w = ground arith
  Quiet-final_answer info (some deal) w = ground arith

  Quiet-track_loop : (sector ticks : ℕ) (w : World) → Quiet w (track_loop env sector ticks w).1
  unfolding track_loop
  Quiet-track_loop sector zero w = Quiet-refl w
  Quiet-track_loop sector (suc ticks) w =
      Quiet-bind (call (λ n. env.sectors_status n sector)) next w
        (Quiet-call (λ n. env.sectors_status n sector) w)
        (λ status v.
          Quiet-if (is_final_sealing_state status.1.sector_state) (ended status)
            (track_loop env sector ticks) v
            (Quiet-if (state_code status.1.sector_state == state_code failed_unrecoverable)
              (fail sector_sealing_failed retry_fatal) (pure tt) v (Quiet-refl v) (Quiet-refl v))
            (Quiet-track_loop sector ticks v))
    where
      ended : Option CallError × SectorInfo → Exec (Unit {0})
      ended status =
          if state_code status.1.sector_state == state_code failed_unrecoverable
          then fail sector_sealing_failed retry_fatal
          else pure tt

      next : Option CallError × SectorInfo → Exec (Unit {0})
      next status =
          if is_final_sealing_state status.1.sector_state
          then ended status
          else track_loop env sector ticks

  Quiet-track_curio_sealing :
      (sector : ℕ) (w : World) → Quiet w (track_curio_sealing env sector w).1
  unfolding track_curio_sealing
  Quiet-track_curio_sealing sector w =
      Quiet-bind (call (λ n. env.sectors_status n sector)) next w
        (Quiet-call (λ n. env.sectors_status n sector) w)
        (λ status v.
          Quiet-bind (call env.ticks) (looping status) v (Quiet-call env.ticks v) (λ ticks u.
            Quiet-when (not (is_final_sealing_state status.1.sector_state))
              (track_loop env sector ticks) u (Quiet-track_loop sector ticks u)))
    where
      looping : Option CallError × SectorInfo → ℕ → Exec (Unit {0})
      looping status ticks =
          when (not (is_final_sealing_state status.1.sector_state)) (track_loop env sector ticks)

      next : Option CallError × SectorInfo → Exec (Unit {0})
      next status = call env.ticks >>= looping status

  pub Step-index_and_announce :
      (w : World) → rank w.deal.checkpoint ≤ 4 → Step w (index_and_announce env w).1
  unfolding index_and_announce
  Step-index_and_announce w low =
      Quiet-then (when env.curio (track_curio_sealing env w.deal.sector_id)) (λ _. added) w 4 low
        (Quiet-when env.curio (track_curio_sealing env w.deal.sector_id) w
          (Quiet-track_curio_sealing w.deal.sector_id w))
        (λ _ w1 low1.
          Quiet-then (add_to_lid env) (λ _. told) w1 4 low1 (Quiet-add_to_lid w1)
            (λ _ w2 low2.
              Quiet-then (announce env w.deal) (λ _. update_checkpoint env indexed_and_announced) w2
                4 low2 (Quiet-announce w.deal w2)
                (λ _ w3 low3. Step-update_checkpoint env indexed_and_announced w3 (omega arith))))
    where
      told : Exec (Unit {0})
      told = announce env w.deal >>= λ _. update_checkpoint env indexed_and_announced

      added : Exec (Unit {0})
      added = add_to_lid env >>= λ _. told

  Quiet-read_status : (sector : ℕ) (x : Watch) (w : World) → Quiet w (read_status env sector x w).1
  unfolding read_status
  Quiet-read_status sector x w =
      Quiet-bind (call (λ n. env.sectors_status n sector)) (note_status env x) w
        (Quiet-call (λ n. env.sectors_status n sector) w) (λ status v. Quiet-note_status x status v)

  Quiet-check_status :
      (sector : ℕ) (force : Bool) (x : Watch) (w : World)
      → Quiet w (check_status env sector force x w).1
  unfolding check_status
  Quiet-check_status sector force x w =
      Quiet-bind (call env.has_active_subscribers) reading w
        (Quiet-call env.has_active_subscribers w)
        (λ subscribed v.
          Quiet-if (force || subscribed) (read_status env sector x) (pure (no_sector_info, x)) v
            (Quiet-read_status sector x v) (Quiet-refl v))
    where
      reading : Bool → Exec (SectorInfo × Watch)
      reading subscribed =
          if force || subscribed then read_status env sector x else pure (no_sector_info, x)

  Quiet-watch_loop :
      (sector ticks count : ℕ) (x : Watch) (w : World)
      → Quiet w (watch_loop env sector ticks count x w).1
  unfolding watch_loop
  Quiet-watch_loop sector zero count x w = Quiet-refl w
  Quiet-watch_loop sector (suc ticks) count x w =
      Quiet-bind (check_status env sector force x) next w (Quiet-check_status sector force x w)
        (λ answer v.
          Quiet-if (is_final_sealing_state answer.0.sector_state)
            (final_answer env answer.0 answer.1.known) (waiting answer.1) v
            (Quiet-final_answer answer.0 answer.1.known v)
            (Quiet-watch_loop sector ticks (if force then 0 else suc count) answer.1 v))
    where
      force : Bool
      force = leb force_count (suc count)

      waiting : Watch → Exec (Unit {0})
      waiting x' = watch_loop env sector ticks (if force then 0 else suc count) x'

      next : SectorInfo × Watch → Exec (Unit {0})
      next answer =
          if is_final_sealing_state answer.0.sector_state
          then final_answer env answer.0 answer.1.known
          else waiting answer.1

  pub Quiet-fire_sealing_update_events :
      (sector : ℕ) (w : World) → Quiet w (fire_sealing_update_events env sector w).1
  unfolding fire_sealing_update_events
  Quiet-fire_sealing_update_events sector w =
      Quiet-bind (check_status env sector true first_watch) next w
        (Quiet-check_status sector true first_watch w)
        (λ answer v.
          Quiet-bind (call env.ticks) (decide answer) v (Quiet-call env.ticks v) (λ ticks u.
            Quiet-if (is_final_sealing_state answer.0.sector_state)
              (final_answer env answer.0 answer.1.known) (watch_loop env sector ticks 0 answer.1) u
              (Quiet-final_answer answer.0 answer.1.known u)
              (Quiet-watch_loop sector ticks 0 answer.1 u)))
    where
      decide : SectorInfo × Watch → ℕ → Exec (Unit {0})
      decide answer ticks =
          if is_final_sealing_state answer.0.sector_state
          then final_answer env answer.0 answer.1.known
          else watch_loop env sector ticks 0 answer.1

      next : SectorInfo × Watch → Exec (Unit {0})
      next answer = call env.ticks >>= decide answer
