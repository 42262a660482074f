-- ===== src/Publisher/Stalled.antt =====
-- A publisher that believes that its timer runs.
use boost.Common.{
  ℕ, ◌≡◌, ◌≢◌, refl, false, List, [], ◌∷◌, none, some, arith, select, leb, insert, ◌==◌,
}
use boost.Publisher.Queue.{
  PendingDeal, DealPublisher, Event, submit, context_done, timer_fires, timer_runs, force,
  publish_queued, shutdown, step, run, is_live, is_done, filter_cancelled_deals, publish_all_deals,
  wait_for_more_deals, clear_timer, dispatch, process_new_deal, timer_expired, publish_queued_deals,
  fires, end_period,
}

-- A period has a start, and no timer for its end.
pub record Stalled (p : DealPublisher) : Type 0 where
  pub started : p.publish_period_start ≢ none
  pub no_cancel : p.cancel_wait_for_more_deals ≡ none
  pub no_timer : p.waiting ≡ []
  pub none_fired : p.fired ≡ []

publish_all_deals-Stalled : (p : DealPublisher) → Stalled p → Stalled (publish_all_deals p)
unfolding publish_all_deals end_period filter_cancelled_deals
publish_all_deals-Stalled p s = ground arith

dispatch-Stalled : (now : ℕ) (p : DealPublisher) → Stalled p → Stalled (dispatch now p)
unfolding dispatch wait_for_more_deals
dispatch-Stalled now p s = ground (arith, publish_all_deals-Stalled p s)

process_new_deal-Stalled :
    (now c : ℕ) (pd : PendingDeal) (p : DealPublisher)
    → Stalled p
    → Stalled (process_new_deal now c pd p)
unfolding process_new_deal clear_timer filter_cancelled_deals
process_new_deal-Stalled now c pd p s =
    let r = clear_timer (filter_cancelled_deals p) in
    ground (arith, dispatch-Stalled now (record r { pending = insert c pd r.pending }))

step-Stalled : (e : Event) (p : DealPublisher) → Stalled p → Stalled (step e p)
unfolding step publish_queued_deals filter_cancelled_deals timer_expired fires
step-Stalled (submit now c pd) p s = process_new_deal-Stalled now c pd p s
step-Stalled (context_done c) p s = ground arith
step-Stalled (timer_fires t) p s = ground arith
step-Stalled (timer_runs t) p s = ground arith
step-Stalled force p s = ground (arith, publish_all_deals-Stalled p)
step-Stalled (publish_queued cs) p s = ground arith
step-Stalled shutdown p s = ground arith

run-Stalled : (es : List Event) (p : DealPublisher) → Stalled p → Stalled (run es p)
unfolding run
run-Stalled [] p s = s
run-Stalled (e ∷ es) p s = run-Stalled es (step e p) (step-Stalled e p s)

-- A period whose timer `t` waits for its end, all deals of which were cancelled.
pub record AllCancelled (t : ℕ) (p : DealPublisher) : Type 0 where
  pub period : p.publish_period_start ≢ none
  pub timer : p.cancel_wait_for_more_deals ≡ some t
  pub alone : p.waiting ≡ t ∷ []
  pub in_time : p.fired ≡ []
  pub gone : select (is_live p.done) p.pending ≡ []

-- A deal that is neither cancelled nor published at once.
pub record Waits (pd : PendingDeal) (p : DealPublisher) : Type 0 where
  pub live : is_done p.done pd ≡ false
  pub automatic : p.manual_psd ≡ false
  pub more : leb p.max_deals_per_publish_msg 1 ≡ false
  pub batched : (p.publish_period == 0) ≡ false

abbrev stalled_by : ℕ → PendingDeal → DealPublisher → DealPublisher
stalled_by c pd p = record p {
  pending = (c, pd) ∷ [];
  waiting = [];
  cancel_wait_for_more_deals = none;
}

cleared :
    (t : ℕ) (p : DealPublisher)
    → AllCancelled t p
    → clear_timer (filter_cancelled_deals p)
      ≡ record p { pending = []; waiting = []; cancel_wait_for_more_deals = none }
unfolding clear_timer filter_cancelled_deals
cleared t p a = ground (arith, a.gone, a.timer, a.alone)

not-moved :
    (now : ℕ) (c : ℕ) (pd : PendingDeal) (p : DealPublisher)
    → p.publish_period_start ≢ none
    → Waits pd p
    → dispatch now (stalled_by c pd p) ≡ stalled_by c pd p
unfolding dispatch wait_for_more_deals
not-moved now c pd p started w = ground (arith, w.automatic, w.more, w.batched)

submit-stalled_by :
    (now c t : ℕ) (pd : PendingDeal) (p : DealPublisher)
    → AllCancelled t p
    → Waits pd p
    → process_new_deal now c pd p ≡ stalled_by c pd p
unfolding process_new_deal
submit-stalled_by now c t pd p a w = rw (cleared t p a, w.live) (not-moved now c pd p a.period w)

-- Where every deal of a period was cancelled before its timer fired, a new deal that is not
-- published at once waits alone with no timer, and whatever happens to the publisher from then on,
-- it never has a timer again.
pub submit-stalls_forever :
    (now c t : ℕ) (pd : PendingDeal) (p : DealPublisher) (es : List Event)
    → AllCancelled t p
    → Waits pd p
    → let q = process_new_deal now c pd p in
      (q.pending ≡ (c, pd) ∷ [])
      × (q.handed ≡ p.handed)
      × ((run es q).waiting ≡ [])
      × ((run es q).fired ≡ [])
submit-stalls_forever now c t pd p es a w =
    let s : Stalled (run es (stalled_by c pd p)) =
      run-Stalled es (stalled_by c pd p) (record {
        started = a.period;
        no_cancel = refl;
        no_timer = refl;
        none_fired = a.in_time;
      }) in
    rw (submit-stalled_by now c t pd p a w) (refl, refl, s.no_timer, s.none_fired)
