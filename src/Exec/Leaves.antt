-- ===== src/Exec/Leaves.antt =====
-- What a run leaves in the deals table, from which a later run starts.
use boost.Common.{
  ◌≤◌, ◌≡◌, ◌≢◌, ◌⊎◌, inl, inr, refl, Bool, Option, none, some, arith, ap, sym, subst, ◌∙◌,
  if◌then◌else◌,
}
use boost.Deal.{
  ProviderDealState, rank, Retry, retry_auto, retry_manual, retry_fatal, complete,
  indexed_and_announced, cancelled_text, failure_text,
}
use boost.Exec.World.{World, DealError, Env, deals_update, save_deal_to_db, call}
use boost.Exec.Run.{
  cleanup_deal, cleanup_deal_handler, mark_failed, fail_deal, pause_deal, clear_error, settle_error,
  settle, exec_deal, run_deal,
}
use boost.Exec.Steps.{Step, Quiet, Kept, lost_updates}
use boost.Exec.Steps.Run.{
  fail_deal_lem, Quiet-clear_error, Step-exec_deal, Step-settle, Step-run_deal,
}
use boost.Exec.Outcome.{RetryOutcome, settled_by}
use boost.Exec.Success.{exec_deal_succeeds}

module _ (env : Env) where
  -- A save that does not fail makes the row the deal.
  saved_row :
      (w : World)
      → lost_updates (save_deal_to_db env w).1 ≡ lost_updates w
      → (save_deal_to_db env w).1.stored ≡ (save_deal_to_db env w).1.deal
  unfolding save_deal_to_db deals_update
  saved_row w same = ground (arith, same)

  paused_row :
      (e : DealError) (w : World)
      → lost_updates (pause_deal env e w).1 ≡ lost_updates w
      → (pause_deal env e w).1.stored ≡ (pause_deal env e w).1.deal
  unfolding pause_deal save_deal_to_db deals_update
  paused_row e w same = ground (arith, same)

  cleaned_row :
      (w : World)
      → let w' = (cleanup_deal env w).1 in
        (w'.stored ≡ w.stored) × (w'.deal ≡ w.deal) × (lost_updates w' ≡ lost_updates w)
  unfolding cleanup_deal cleanup_deal_handler
  cleaned_row w = ground arith

  failed_row :
      (e : DealError) (cancelled : Bool) (w : World)
      → lost_updates (fail_deal env e cancelled w).1 ≡ lost_updates w
      → (fail_deal env e cancelled w).1.stored ≡ (fail_deal env e cancelled w).1.deal
  unfolding mark_failed
  failed_row e cancelled w same =
      let marked = (mark_failed env e cancelled w).1 in
      let saved = (save_deal_to_db env marked).1 in
      let ended = fail_deal_lem env e cancelled w in
      let (row, deal, lost) = cleaned_row saved in
      let kept = saved_row marked (sym lost ∙ ap lost_updates (sym ended) ∙ same) in
      ap (λ u. u.stored) ended ∙ row ∙ kept ∙ sym deal ∙ ap (λ u. u.deal) (sym ended)

  settled_row :
      (r : Retry) (e : DealError) (w : World)
      → lost_updates (settle_error env r e w).1 ≡ lost_updates w
      → (settle_error env r e w).1.stored ≡ (settle_error env r e w).1.deal
  unfolding settle_error
  settled_row retry_auto e w same = paused_row e w same
  settled_row retry_manual e w same = paused_row e w same
  settled_row retry_fatal e w same =
      failed_row e (env.cancelled_by_user w.calls) (call env.cancelled_by_user w).1 same

  -- The row after a run that ended so, in the world that `execDeal` left.
  abbrev pub Left : Option DealError → World → ProviderDealState → Type 0
  Left failure v row =
      ((failure ≡ none) × (rank indexed_and_announced ≤ rank row.checkpoint))
      ⊎ ((e : DealError) × (failure ≡ some e) × RetryOutcome env e.retry e v row)

  left_lem :
      (w v : World) (failure : Option DealError)
      → (exec_deal env w).0 ≡ failure
      → (exec_deal env w).1 ≡ v
      → lost_updates (settle env failure v).1 ≡ lost_updates v
      → rank (settle env failure v).1.stored.checkpoint
        ≡ rank (settle env failure v).1.deal.checkpoint
      → Left failure v (settle env failure v).1.stored
  unfolding settle
  left_lem w v none e f same even =
      inl
        (refl, ground (arith, even, ap (λ u. rank u.deal.checkpoint) f, exec_deal_succeeds env w e))
  left_lem w v (some x) e f same even = inr (
    x,
    refl,
    subst (RetryOutcome env x.retry x v) (sym (settled_row x.retry x v same))
        (settled_by env x.retry x v),
  )

  lost_settling :
      (w : World)
      → lost_updates (run_deal env w) ≡ lost_updates w
      → let x = exec_deal env (clear_error env w).1 in
        lost_updates (settle env x.0 x.1).1 ≡ lost_updates x.1
  unfolding run_deal Step Quiet Kept
  lost_settling w same =
      let cleared = (clear_error env w).1 in
      let x = exec_deal env cleared in
      let (a, b, c, d, e, f, (l1, _, _, _)) = Quiet-clear_error env w in
      let (a', b', c', d', e', (l2, _, _, _)) = Step-exec_deal env cleared in
      let (a'', b'', c'', d'', e'', (l3, _, _, _)) = Step-settle env x.0 x.1 in
      omega (arith, l1, l2, l3, same)

  -- What a run leaves in the deals table, where the row was at the checkpoint of the deal and no
  -- update of it failed in the run. Where the execution ended without an error, the row is at
  -- IndexedAndAnnounced or later. Where it ended with a fatal error, the row is at Complete and
  -- fatal, with that error's text, or the text for a cancelled deal where the user had cancelled.
  -- Where it ended with any other error, the row is at the checkpoint that the execution had
  -- reached, with the retry type and the text of that error.
  pub run_deal_leaves :
      (w : World)
      → rank w.stored.checkpoint ≡ rank w.deal.checkpoint
      → lost_updates (run_deal env w) ≡ lost_updates w
      → let (failure, v) = exec_deal env (clear_error env w).1 in
        let row = (run_deal env w).stored in
        ((failure ≡ none) × (rank indexed_and_announced ≤ rank row.checkpoint))
        ⊎ ((e : DealError) × (failure ≡ some e)
            × (((e.retry ≡ retry_fatal)
                  × (row.checkpoint ≡ complete)
                  × (row.retry ≡ retry_fatal)
                  × (row.deal_err
                      ≡ some (
                          if env.cancelled_by_user v.calls
                          then cancelled_text
                          else failure_text (env.error_text e))))
                ⊎ ((e.retry ≢ retry_fatal)
                    × (row.checkpoint ≡ v.deal.checkpoint)
                    × (row.retry ≡ e.retry)
                    × (row.deal_err ≡ some (failure_text (env.error_text e))))))
  unfolding run_deal Step Kept
  run_deal_leaves w even same =
      let x = exec_deal env (clear_error env w).1 in
      let (a, b, c, d, e, (l, behind, on, up)) = Step-run_deal env w in
      left_lem (clear_error env w).1 x.1 x.0 refl refl (lost_settling w same) (up same even)
