-- ===== src/Publisher/Once.antt =====
-- A deal is handed to `publishReady` at most once for each time that it is submitted.
use boost.Common.{ℕ, ◌+◌, ◌≤◌, Bool, List, [], ◌∷◌, arith, count_if, insert, select, not, ◌==◌}
use boost.Publisher.Queue.{
  PendingDeal, DealPublisher, Event, submit, context_done, timer_fires, timer_runs, force,
  publish_queued, shutdown, step, run, is_live, deals_of, filter_cancelled_deals, publish_all_deals,
  wait_for_more_deals, clear_timer, dispatch, process_new_deal, timer_expired, publish_queued_deals,
  fires, end_period, new_deal_publisher,
}
use boost.Publisher.Counts.{one_if, tally, tally-select, tally-insert, tally-take_queued}

module _ (q : PendingDeal → Bool) where
  -- The deals of all batches that pass the test.
  abbrev pub handed_count : List (List PendingDeal) → ℕ
  handed_count [] = 0
  handed_count (b ∷ bs) = count_if q b + handed_count bs

  abbrev pub total : DealPublisher → ℕ
  total p = tally q p.pending + handed_count p.handed

  -- The submissions of deals that pass the test.
  abbrev pub submitted : Event → ℕ
  submitted (submit now c pd) = one_if (q pd)
  submitted _ = 0

  abbrev pub submissions : List Event → ℕ
  submissions [] = 0
  submissions (e ∷ es) = submitted e + submissions es

  pub publish_all_deals-total : (p : DealPublisher) → total (publish_all_deals p) ≤ total p
  unfolding publish_all_deals end_period filter_cancelled_deals
  publish_all_deals-total p = ground (arith, tally-select q (is_live p.done) p.pending)

  dispatch-total : (now : ℕ) (p : DealPublisher) → total (dispatch now p) ≤ total p
  unfolding dispatch wait_for_more_deals
  dispatch-total now p = ground (arith, publish_all_deals-total p)

  process_new_deal-total :
      (now c : ℕ) (pd : PendingDeal) (p : DealPublisher)
      → total (process_new_deal now c pd p) ≤ total p + one_if (q pd)
  unfolding process_new_deal clear_timer filter_cancelled_deals
  process_new_deal-total now c pd p =
      let r = clear_timer (filter_cancelled_deals p) in
      ground (
        arith,
        tally-select q (is_live p.done) p.pending,
        tally-insert q c pd r.pending,
        dispatch-total now (record r { pending = insert c pd r.pending }),
      )

  step-total : (e : Event) (p : DealPublisher) → total (step e p) ≤ total p + submitted e
  unfolding step publish_queued_deals filter_cancelled_deals timer_expired fires
  step-total (submit now c pd) p = ground (arith, process_new_deal-total now c pd p)
  step-total (context_done c) p = ground arith
  step-total (timer_fires t) p = ground arith
  step-total (timer_runs t) p =
      ground
        (arith, publish_all_deals-total (record p { fired = select (λ u. not (u == t)) p.fired }))
  step-total force p = ground (arith, publish_all_deals-total p)
  step-total (publish_queued cs) p = ground (
    arith,
    tally-select q (is_live p.done) p.pending,
    tally-take_queued q cs (select (is_live p.done) p.pending),
  )
  step-total shutdown p = ground arith

  run-total : (es : List Event) (p : DealPublisher) → total (run es p) ≤ total p + submissions es
  unfolding run
  run-total [] p = omega arith
  run-total (e ∷ es) p = omega (arith, run-total es (step e p), step-total e p)

  -- Whatever happens to a new publisher, among the batches that it hands on to be published and
  -- its queue no more deals pass a test, such as being one submission or being a proposal for one
  -- piece, than were submitted: no submission is handed on twice, and none that was handed on is
  -- still in the queue.
  pub run-handed_once :
      (manual : Bool) (max period : ℕ) (es : List Event)
      → let p = run es (new_deal_publisher manual max period) in
        count_if q (deals_of p.pending) + handed_count p.handed ≤ submissions es
  unfolding new_deal_publisher
  run-handed_once manual max period es =
      omega (arith, run-total es (new_deal_publisher manual max period))
