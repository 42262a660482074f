-- ===== src/Exec/Steps/Publish.antt =====
-- The publication of an execution is a `Step`: it uses up the room before Published.
use boost.Common.{
  ℕ, ◌≤◌, Bool-cases, inl, inr, Option, none, some, arith, Result, ok, err, gets, ◌>>=◌,
}
use boost.Deal.{rank, published, before}
use boost.Exec.World.{
  World, CallError, Env, publish_request, emit, call, when, deals_update, update_checkpoint,
  check_deal_proposal_start_epoch,
}
use boost.Exec.Publish.{
  publish_error, after_publish, send_publish, wait_error, after_wait, wait_for, publishing,
  publish_deal,
}
use boost.Exec.Steps.{
  Step, Quiet, Kept, Quiet-refl, Quiet-Step, Quiet-then, Step-then, still, Quiet-call, Step-when,
  Quiet-check_deal_proposal_start_epoch,
}

module _ (env : Env) where
  Quiet-publish_error : (e : CallError) (w : World) → Quiet w (publish_error env e w).1
  unfolding publish_error check_deal_proposal_start_epoch Quiet Kept
  Quiet-publish_error e w = ground arith

  Step-after_publish :
      (answer : Result CallError ℕ) (w : World)
      → rank w.deal.checkpoint ≤ 1
      → Step w (after_publish env answer w).1
  unfolding after_publish update_checkpoint deals_update Step Kept
  Step-after_publish (err e) w low =
      Quiet-Step w (publish_error env e w).1 (Quiet-publish_error e w)
  Step-after_publish (ok cid) w low = ground (arith, low)

  Step-send_publish : (w : World) → rank w.deal.checkpoint ≤ 1 → Step w (send_publish env w).1
  unfolding send_publish Quiet Kept
  Step-send_publish w low =
      Quiet-then (emit publish_request) (λ _. call env.publish >>= after_publish env) w 1 low
        (ground arith)
        (λ _ w1 low1.
          Quiet-then (call env.publish) (after_publish env) w1 1 low1 (Quiet-call env.publish w1)
            Step-after_publish)

  Quiet-wait_error : (e : CallError) (w : World) → Quiet w (wait_error env e w).1
  unfolding wait_error Quiet Kept
  Quiet-wait_error e w = ground arith

  Step-after_wait :
      (answer : Result CallError (ℕ × ℕ)) (w : World)
      → rank w.deal.checkpoint ≤ 3
      → Step w (after_wait env answer w).1
  unfolding after_wait update_checkpoint deals_update Step Kept
  Step-after_wait (err e) w low = Quiet-Step w (wait_error env e w).1 (Quiet-wait_error e w)
  Step-after_wait (ok (cid, id)) w low = ground (arith, low)

  Step-wait_for :
      (cid : Option ℕ) (w : World) → rank w.deal.checkpoint ≤ 3 → Step w (wait_for env cid w).1
  unfolding wait_for
  Step-wait_for none w low = Quiet-Step w w (Quiet-refl w)
  Step-wait_for (some cid) w low =
      Quiet-then (call (λ n. env.wait_for_publish_deals n cid)) (after_wait env) w 3 low
        (Quiet-call (λ n. env.wait_for_publish_deals n cid) w) Step-after_wait

  after_publish_low :
      (answer : Result CallError ℕ) (w : World)
      → rank w.deal.checkpoint ≤ 1
      → rank (after_publish env answer w).1.deal.checkpoint ≤ 2
  unfolding after_publish update_checkpoint deals_update
  after_publish_low (err e) w low =
      still w (publish_error env e w).1 2 (omega arith) (Quiet-publish_error e w)
  after_publish_low (ok cid) w low = ground (arith, low)

  send_publish_low :
      (w : World) → rank w.deal.checkpoint ≤ 1 → rank (send_publish env w).1.deal.checkpoint ≤ 2
  unfolding send_publish
  send_publish_low w low =
      after_publish_low (env.publish w.calls) (call env.publish (emit publish_request w).1).1 low

  Step-publishing : (w : World) → rank w.deal.checkpoint ≤ 2 → Step w (publishing env w).1
  unfolding publishing
  Step-publishing w low =
      Step-then (when (before w.deal.checkpoint published) (send_publish env))
        (λ _. gets (λ v. v.deal.publish_cid) >>= wait_for env) w 3
        (Step-when (before w.deal.checkpoint published) (send_publish env) w
          (λ early. Step-send_publish w (ground (arith, early))))
        (elim (Bool-cases (before w.deal.checkpoint published)) [
          | inl early ↦ ground (arith, early, send_publish_low w (ground (arith, early)))
          | inr late ↦ ground (arith, late, low)
        ])
        (λ _ v lower. Step-wait_for v.deal.publish_cid v lower)

  pub Step-publish_deal : (w : World) → rank w.deal.checkpoint ≤ 2 → Step w (publish_deal env w).1
  unfolding publish_deal
  Step-publish_deal w low =
      Quiet-then (check_deal_proposal_start_epoch env) (λ _. publishing env) w 2 low
        (Quiet-check_deal_proposal_start_epoch env w) (λ _ v lower. Step-publishing v lower)
