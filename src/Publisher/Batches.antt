-- ===== src/Publisher/Batches.antt =====
-- How many deals one publish message may carry.
use boost.Common.{
  ℕ, ◌≤◌, ◌<◌, ◌≡◌, Bool, true, false, List, [], ◌∷◌, arith, length, All, insert, select, count_if,
  if◌then◌else◌, not, ◌==◌,
}
use boost.Publisher.Queue.{
  PendingDeal, DealPublisher, Event, submit, context_done, timer_fires, timer_runs, force,
  publish_queued, shutdown, step, run, is_live, filter_cancelled_deals, publish_all_deals,
  wait_for_more_deals, clear_timer, dispatch, process_new_deal, timer_expired, publish_queued_deals,
  fires, end_period, new_deal_publisher,
}
use boost.Publisher.Counts.{
  tally, tally-select, tally-insert, tally-take_queued, length-deals_of, count_if-length,
}

abbrev any : PendingDeal → Bool
any _ = true

-- A limit of 0 is reached by the first deal.
abbrev pub room : ℕ → ℕ
room max = if max == 0 then 1 else max

module _ (max : ℕ) where
  record Bounded (p : DealPublisher) : Type 0 where
    batching : p.manual_psd ≡ false
    limit : p.max_deals_per_publish_msg ≡ max
    queued : tally any p.pending < room max
    small : All (λ b. count_if any b ≤ room max) p.handed

  publish_all_deals-Bounded :
      (p : DealPublisher)
      → p.manual_psd ≡ false
      → p.max_deals_per_publish_msg ≡ max
      → tally any p.pending ≤ room max
      → All (λ b. count_if any b ≤ room max) p.handed
      → Bounded (publish_all_deals p)
  unfolding publish_all_deals end_period filter_cancelled_deals
  publish_all_deals-Bounded p m l q h = ground (arith, tally-select any (is_live p.done) p.pending)

  dispatch-Bounded :
      (now : ℕ) (p : DealPublisher)
      → p.manual_psd ≡ false
      → p.max_deals_per_publish_msg ≡ max
      → tally any p.pending ≤ room max
      → All (λ b. count_if any b ≤ room max) p.handed
      → Bounded (dispatch now p)
  unfolding dispatch wait_for_more_deals
  dispatch-Bounded now p m l q h =
      ground (arith, publish_all_deals-Bounded p m l q h, length-deals_of p.pending)

  process_new_deal-Bounded :
      (now c : ℕ) (pd : PendingDeal) (p : DealPublisher)
      → Bounded p
      → Bounded (process_new_deal now c pd p)
  unfolding process_new_deal clear_timer filter_cancelled_deals
  process_new_deal-Bounded now c pd p b =
      let r = clear_timer (filter_cancelled_deals p) in
      ground (
        arith,
        tally-select any (is_live p.done) p.pending,
        tally-insert any c pd r.pending,
        dispatch-Bounded now (record r { pending = insert c pd r.pending }),
      )

  step-Bounded : (e : Event) (p : DealPublisher) → Bounded p → Bounded (step e p)
  unfolding step publish_queued_deals filter_cancelled_deals timer_expired fires
  step-Bounded (submit now c pd) p b = process_new_deal-Bounded now c pd p b
  step-Bounded (context_done c) p b = ground arith
  step-Bounded (timer_fires t) p b = ground arith
  step-Bounded (timer_runs t) p b =
      ground
        (arith, publish_all_deals-Bounded (record p { fired = select (λ u. not (u == t)) p.fired }))
  step-Bounded force p b = ground (arith, publish_all_deals-Bounded p)
  step-Bounded (publish_queued cs) p b = ground (
    arith,
    tally-select any (is_live p.done) p.pending,
    tally-take_queued any cs (select (is_live p.done) p.pending),
  )
  step-Bounded shutdown p b = ground arith

  run-Bounded : (es : List Event) (p : DealPublisher) → Bounded p → Bounded (run es p)
  unfolding run
  run-Bounded [] p b = b
  run-Bounded (e ∷ es) p b = run-Bounded es (step e p) (step-Bounded e p b)

  lengths :
      (bs : List (List PendingDeal))
      → All (λ b. count_if any b ≤ room max) bs
      → All (λ b. length b ≤ room max) bs
  lengths [] h = tt
  lengths (b ∷ bs) h = (omega (arith, count_if-length b, h.0), lengths bs h.1)

  -- Where deals are not published by hand, whatever happens to a new publisher, no batch that it
  -- hands on to be published is larger than the limit of deals for one message, or than one deal
  -- where the limit is 0, and its queue always stays below that.
  pub run-batch_size :
      (period : ℕ) (es : List Event)
      → let p = run es (new_deal_publisher false max period) in
        (length p.pending < room max) × All (λ b. length b ≤ room max) p.handed
  unfolding new_deal_publisher
  run-batch_size period es =
      let p = run es (new_deal_publisher false max period) in
      let b : Bounded p = run-Bounded es (new_deal_publisher false max period) (ground arith) in
      (omega (arith, length-deals_of p.pending, b.queued), lengths p.handed b.small)
