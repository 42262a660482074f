-- ===== src/Exec/Publish.antt =====
-- storagemarket/deal_execution.go: `publishDeal`.
use text.Mathlib.Text.{◌==◌ as str_eq}
use boost.Common.{
  ℕ, ◌||◌, Bool, false, Option, none, some, if◌then◌else◌, Result, ok, err, gets, raise, ◌>>=◌,
  ◌>>◌,
}
use boost.Deal.{retry_auto, retry_manual, retry_fatal, published, publish_confirmed, before}
use boost.Exec.World.{
  CallError, wrapped, panic, Env, Exec, publish_request, published_msg, call, emit, fail, get_deal,
  set_deal, when, update_checkpoint, check_deal_proposal_start_epoch,
}

module _ (env : Env) where
  -- The first two characters of the client's address, if it has two.
  unfoldable pub is_contract_client : ℕ → Bool
  is_contract_client client = elim (env.address_head client) [
    | none ↦ false
    | some head ↦ str_eq head "t4" || str_eq head "f4"
  ]

  unfoldable pub publish_error : CallError → Exec (Unit {0})
  publish_error e = do
    check_deal_proposal_start_epoch env
    deal ← get_deal
    fail (wrapped e) (
        if e.cancelled
        then retry_auto
        else if is_contract_client deal.proposal.client
        then retry_fatal
        else retry_manual)

  -- By what the deal publisher answers.
  unfoldable pub after_publish : Result CallError ℕ → Exec (Unit {0})
  after_publish (err e) = publish_error e
  after_publish (ok cid) = do
    emit published_msg
    set_deal (λ d. record d { publish_cid = some cid })
    update_checkpoint env published

  unfoldable pub send_publish : Exec (Unit {0})
  send_publish = do emit publish_request; answer ← call env.publish; after_publish answer

  -- By whether the context is done: its error, or that of the call.
  unfoldable pub wait_error : CallError → Exec (Unit {0})
  wait_error e = do
    ctx ← call env.context_error
    fail (wrapped (elim ctx [ some c ↦ c | none ↦ e ])) retry_auto

  -- By what `WaitForPublishDeals` answers.
  unfoldable pub after_wait : Result CallError (ℕ × ℕ) → Exec (Unit {0})
  after_wait (err e) = wait_error e
  after_wait (ok (final_cid, deal_id)) = do
    set_deal (λ d. record d { publish_cid = some final_cid; chain_deal_id = deal_id })
    update_checkpoint env publish_confirmed

  -- By `deal.PublishCID`: `*deal.PublishCID` panics where it is nil.
  unfoldable pub wait_for : Option ℕ → Exec (Unit {0})
  wait_for none = raise panic
  wait_for (some cid) = do answer ← call (λ n. env.wait_for_publish_deals n cid); after_wait answer

  -- Sending the message, unless it was sent, and waiting for it.
  unfoldable pub publishing : Exec (Unit {0})
  publishing = do
    deal ← get_deal
    when (before deal.checkpoint published) send_publish
    cid ← gets (λ w. w.deal.publish_cid)
    wait_for cid

  unfoldable pub publish_deal : Exec (Unit {0})
  publish_deal = do check_deal_proposal_start_epoch env; publishing
