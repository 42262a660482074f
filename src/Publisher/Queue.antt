-- ===== src/Publisher/Queue.antt =====
-- markets/storageadapter/dealpublisher.go: the queue of deals that wait for a publish message.
use boost.Common.{
  ℕ, suc, Bool, true, false, not, ◌||◌, List, [], ◌∷◌, Option, none, some, leb, ◌==◌, if◌then◌else◌,
  length, select, contains, lookup, insert, erase, map,
}
use boost.Deal.{DealProposal}

-- `ctx` names the context of the caller of `Publish`; `submission` tells one call from another.
pub record PendingDeal : Type 0 where
  pub submission : ℕ
  pub ctx : ℕ
  pub deal : DealProposal

-- The timer that `waitForMoreDeals` starts has a goroutine that waits for it (`waiting`), until it
-- is cancelled, or fires and waits for the lock (`fired`). `handed` is what was given to
-- `publishReady`, the latest first.
pub record DealPublisher : Type 0 where
  pub manual_psd : Bool
  pub max_deals_per_publish_msg : ℕ
  pub publish_period : ℕ
  pub pending : List (ℕ × PendingDeal)
  pub cancel_wait_for_more_deals : Option ℕ
  pub publish_period_start : Option ℕ
  pub waiting : List ℕ
  pub fired : List ℕ
  pub created : ℕ
  pub handed : List (List PendingDeal)
  pub done : List ℕ
  pub stopped : Bool

unfoldable pub new_deal_publisher : Bool → ℕ → ℕ → DealPublisher
new_deal_publisher manual max period = record {
  manual_psd = manual;
  max_deals_per_publish_msg = max;
  publish_period = period;
  pending = [];
  cancel_wait_for_more_deals = none;
  publish_period_start = none;
  waiting = [];
  fired = [];
  created = 0;
  handed = [];
  done = [];
  stopped = false;
}

-- `ctx.Err() != nil`.
abbrev pub is_done : List ℕ → PendingDeal → Bool
is_done done pd = contains pd.ctx done

abbrev pub deals_of : List (ℕ × PendingDeal) → List PendingDeal
deals_of [] = []
deals_of ((c, pd) ∷ m) = pd ∷ deals_of m

abbrev pub is_live : List ℕ → ℕ × PendingDeal → Bool
is_live done (c, pd) = not (is_done done pd)

unfoldable pub filter_cancelled_deals : DealPublisher → DealPublisher
filter_cancelled_deals p = record p { pending = select (is_live p.done) p.pending }

-- The deals of `PendingDeals`, which keeps the queue as it is.
unfoldable pub pending_deals : DealPublisher → List DealProposal
pending_deals p =
    map (λ (pd : PendingDeal). pd.deal)
      (select (λ pd. not (is_done p.done pd)) (deals_of p.pending))

-- The call of the cancel function of timer `t`: a goroutine that still waits ends.
abbrev pub cancelled : Option ℕ → List ℕ → List ℕ
cancelled none ts = ts
cancelled (some t) ts = select (λ u. not (u == t)) ts

-- `publishAllDeals`: `if p.cancelWaitForMoreDeals != nil`.
unfoldable pub end_period : DealPublisher → DealPublisher
end_period p = elim p.cancel_wait_for_more_deals [
  | none ↦ p
  | some t ↦ record p {
    waiting = cancelled (some t) p.waiting;
    cancel_wait_for_more_deals = none;
    publish_period_start = none;
  }
]

unfoldable pub publish_all_deals : DealPublisher → DealPublisher
unfolding end_period filter_cancelled_deals
publish_all_deals p =
    let q = filter_cancelled_deals (end_period p) in
    record q { pending = []; handed = deals_of q.pending ∷ q.handed }

abbrev pub force_publish_pending_deals : DealPublisher → DealPublisher
force_publish_pending_deals p = publish_all_deals p

-- The goroutine of a context that is done already ends at once.
unfoldable pub wait_for_more_deals : ℕ → DealPublisher → DealPublisher
wait_for_more_deals now p = elim p.publish_period_start [
  | some start ↦ p
  | none ↦ record p {
    publish_period_start = some now;
    cancel_wait_for_more_deals = some p.created;
    waiting = (if p.stopped then p.waiting else p.created ∷ p.waiting);
    created = suc p.created;
  }
]

-- `processNewDeal`: if all deals have been cancelled, the timer is cleared.
unfoldable pub clear_timer : DealPublisher → DealPublisher
clear_timer p =
    if length p.pending == 0
    then record p {
      waiting = cancelled p.cancel_wait_for_more_deals p.waiting;
      cancel_wait_for_more_deals = none;
    }
    else p

-- After the deal was added to the queue.
unfoldable pub dispatch : ℕ → DealPublisher → DealPublisher
dispatch now p =
    if p.manual_psd
    then p
    else if leb p.max_deals_per_publish_msg (length p.pending) || p.publish_period == 0
    then publish_all_deals p
    else wait_for_more_deals now p

unfoldable pub process_new_deal : ℕ → ℕ → PendingDeal → DealPublisher → DealPublisher
unfolding clear_timer dispatch filter_cancelled_deals
process_new_deal now pcid pdeal p =
    let q = clear_timer (filter_cancelled_deals p) in
    if is_done p.done pdeal
    then q
    else dispatch now (record q { pending = insert pcid pdeal q.pending })

-- The goroutine of a timer that fired has the lock.
unfoldable pub timer_expired : ℕ → DealPublisher → DealPublisher
unfolding publish_all_deals
timer_expired t p =
    if contains t p.fired
    then publish_all_deals (record p { fired = select (λ u. not (u == t)) p.fired })
    else p

-- The loop of `PublishQueuedDeals`: what is taken from the queue, and the queue after it.
unfoldable pub take_queued :
    List ℕ → List (ℕ × PendingDeal) → List ℕ × List PendingDeal × List (ℕ × PendingDeal)
take_queued [] m = ([], [], m)
take_queued (c ∷ cs) m = elim (lookup c m) [
  | none ↦ take_queued cs m
  | some pd ↦ let (ret, ready, rest) = take_queued cs (erase c m) in (c ∷ ret, pd ∷ ready, rest)
]

unfoldable pub publish_queued_deals : List ℕ → DealPublisher → List ℕ × DealPublisher
unfolding filter_cancelled_deals take_queued
publish_queued_deals cs p =
    let q = filter_cancelled_deals p in
    let (ret, ready, rest) = take_queued cs q.pending in
    (ret, record q { pending = rest; handed = ready ∷ q.handed })

-- What happens to a publisher. A timer fires only while its goroutine waits.
pub data Event : Type 0 where
  submit : ℕ → ℕ → PendingDeal → Event
  context_done : ℕ → Event
  timer_fires : ℕ → Event
  timer_runs : ℕ → Event
  force : Event
  publish_queued : List ℕ → Event
  shutdown : Event

unfoldable pub fires : ℕ → DealPublisher → DealPublisher
fires t p =
    if contains t p.waiting
    then record p { waiting = select (λ u. not (u == t)) p.waiting; fired = t ∷ p.fired }
    else p

unfoldable pub step : Event → DealPublisher → DealPublisher
step (submit now c pd) p = process_new_deal now c pd p
step (context_done c) p = record p { done = c ∷ p.done }
step (timer_fires t) p = fires t p
step (timer_runs t) p = timer_expired t p
step force p = force_publish_pending_deals p
step (publish_queued cs) p = (publish_queued_deals cs p).1
step shutdown p = record p { stopped = true; waiting = [] }

unfoldable pub run : List Event → DealPublisher → DealPublisher
run [] p = p
run (e ∷ es) p = run es (step e p)
