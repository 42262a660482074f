-- ===== src/Exec/Outcome.antt =====
-- How a run ends: what a success has reached, and what an error leaves behind.
use boost.Common.{
  ℕ, suc, ◌≡◌, ◌≢◌, ◌⊎◌, inl, inr, refl, Bool, true, false, none, some, arith, Result-cases, ok,
  err, ◌>>=◌, ◌∙◌, ap, if◌then◌else◌,
}
use boost.Deal.{
  ProviderDealState, Retry, retry_auto, retry_manual, retry_fatal, complete, cancelled_text,
  failure_text,
}
use boost.Exec.World.{
  World, Exec, Env, DealError, SectorInfo, deal_not_in_sector, deal_error, deals_update,
  save_deal_to_db, call,
}
use boost.Exec.Seal.{
  first_watch, has_deal, is_final_sealing_state, note_change, note_status, read_status,
  check_status, final_answer, fire_sealing_update_events,
}
use boost.Exec.Run.{
  cleanup_deal, cleanup_deal_handler, mark_failed, fail_deal, pause_deal, settle_error,
}

-- A chain of methods that leave the deal alone does.
kept_bind :
    {A B : Type 0} (m : Exec A) (f : A → Exec B) (w : World)
    → (m w).1.deal ≡ w.deal
    → ((a : A) (v : World) → (f a v).1.deal ≡ v.deal)
    → ((m >>= f) w).1.deal ≡ w.deal
kept_bind m f w first then_ = elim (Result-cases (m w).0) [
  | inl (a, e) ↦ ground (arith, e, then_ a (m w).1 ∙ first)
  | inr (x, e) ↦ ground (arith, e, first)
]

-- What an error leaves of a deal, by its retry type.
abbrev pub RetryOutcome : Env → Retry → DealError → World → ProviderDealState → Type 0
RetryOutcome env r e w d =
    ((r ≡ retry_fatal)
      × (d.checkpoint ≡ complete)
      × (d.retry ≡ retry_fatal)
      × (d.deal_err
          ≡ some (
              if env.cancelled_by_user w.calls
              then cancelled_text
              else failure_text (env.error_text e))))
    ⊎ ((r ≢ retry_fatal)
        × (d.checkpoint ≡ w.deal.checkpoint)
        × (d.retry ≡ e.retry)
        × (d.deal_err ≡ some (failure_text (env.error_text e))))

module _ (env : Env) where
  saved_deal : (w : World) → (save_deal_to_db env w).1.deal ≡ w.deal
  unfolding save_deal_to_db deals_update
  saved_deal w = ground arith

  cleaned_deal : (w : World) → (cleanup_deal env w).1.deal ≡ w.deal
  unfolding cleanup_deal cleanup_deal_handler
  cleaned_deal w = ground arith

  failed_lem :
      (e : DealError) (cancelled : Bool) (w : World)
      → let d = (fail_deal env e cancelled w).1.deal in
        (d.checkpoint ≡ complete)
        × (d.retry ≡ retry_fatal)
        × (d.deal_err
            ≡ some (if cancelled then cancelled_text else failure_text (env.error_text e)))
  unfolding fail_deal mark_failed
  failed_lem e cancelled w =
      let marked = (mark_failed env e cancelled w).1 in
      let same : (fail_deal env e cancelled w).1.deal ≡ marked.deal =
        kept_bind (save_deal_to_db env) (λ _. cleanup_deal env) marked (saved_deal marked)
          (λ _ v. cleaned_deal v) in
      ground (arith, same)

  paused_lem :
      (e : DealError) (w : World)
      → let d = (pause_deal env e w).1.deal in
        (d.checkpoint ≡ w.deal.checkpoint)
        × (d.retry ≡ e.retry)
        × (d.deal_err ≡ some (failure_text (env.error_text e)))
  unfolding pause_deal save_deal_to_db deals_update
  paused_lem e w = ground arith

  pub settled_by :
      (r : Retry) (e : DealError) (w : World)
      → RetryOutcome env r e w (settle_error env r e w).1.deal
  unfolding settle_error
  settled_by retry_auto e w =
      let (c, t, x) = paused_lem e w in inr (λ q. ground (arith, q), c, t, x)
  settled_by retry_manual e w =
      let (c, t, x) = paused_lem e w in inr (λ q. ground (arith, q), c, t, x)
  settled_by retry_fatal e w =
      let by_user = env.cancelled_by_user w.calls in
      let (c, t, x) = failed_lem e by_user (call env.cancelled_by_user w).1 in inl (refl, c, t, x)

  noted_lem :
      (si : SectorInfo) (partial : ProviderDealState) (v : World)
      → is_final_sealing_state si.sector_state ≡ true
      → env.deal_by_id_error v.calls ≡ some partial
      → (note_status env first_watch (none, si) v).0
        ≡ ok (si, record { last_state = si.sector_state; known = some partial })
  unfolding note_status note_change is_final_sealing_state
  noted_lem si partial v final missing = ground (arith, final, missing)

  checked_lem :
      (sector : ℕ) (si : SectorInfo) (partial : ProviderDealState) (w : World)
      → env.sectors_status (suc w.calls) sector ≡ (none, si)
      → is_final_sealing_state si.sector_state ≡ true
      → env.deal_by_id_error (suc (suc w.calls)) ≡ some partial
      → (check_status env sector true first_watch w).0
        ≡ ok (si, record { last_state = si.sector_state; known = some partial })
  unfolding check_status read_status
  checked_lem sector si partial w status final missing =
      let v = record w { calls = suc (suc w.calls) } in
      ap (λ s. (note_status env first_watch s v).0) status ∙ noted_lem si partial v final missing

  -- The watch of the sector asks the deals table for the chain's id of the deal. Where that read
  -- fails, the id is whatever the read left (0 as a rule): unless the sector lists that id, a deal
  -- whose sector is in a final state fails for good as not in its sector, whatever its row and
  -- the sector say of it.
  pub unread_deal_fails :
      (sector : ℕ) (si : SectorInfo) (partial : ProviderDealState) (w : World)
      → env.curio ≡ false
      → env.sectors_status (suc w.calls) sector ≡ (none, si)
      → is_final_sealing_state si.sector_state ≡ true
      → env.deal_by_id_error (suc (suc w.calls)) ≡ some partial
      → has_deal si.deals partial.chain_deal_id ≡ false
      → (fire_sealing_update_events env sector w).0
        ≡ err (deal_error (record { cause = deal_not_in_sector; retry = retry_fatal }))
  unfolding fire_sealing_update_events final_answer
  unread_deal_fails sector si partial w curio status final missing absent =
      let checked = checked_lem sector si partial w status final missing in
      ground (arith, checked, curio, final, absent)
