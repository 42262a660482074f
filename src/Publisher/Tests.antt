-- ===== src/Publisher/Tests.antt =====
-- Runs and instances: three deals of one provider, batched by two or three.
use boost.Common.{
  ℕ, ◌+◌, ◌≤◌, ◌<◌, ◌≡◌, refl, pos, true, false, List, [], ◌∷◌, some, inl, inr, length, All, ok,
  err, ◌==◌, count_if, ◌+ℤ◌,
}
use boost.Deal.{DealProposal}
use boost.Publisher.Queue.{
  PendingDeal, DealPublisher, Event, submit, context_done, timer_fires, timer_runs, force,
  publish_queued, step, run, new_deal_publisher, process_new_deal, publish_all_deals, deals_of,
  wait_for_more_deals, clear_timer, filter_cancelled_deals, dispatch, fires, timer_expired,
  publish_queued_deals, pending_deals,
}
use boost.Publisher.Once.{handed_count, submissions, run-handed_once}
use boost.Publisher.Batches.{room, run-batch_size}
use boost.Publisher.Stalled.{submit-stalls_forever}
use boost.Publisher.Send.{PublishApi, publish_ready, start_passed}
use boost.Publisher.Answers.{answered, publish_ready-answers}
use boost.Publisher.Message.{Among, Message, publish_ready-Message}

abbrev proposal : ℕ → DealProposal
proposal start = record {
  piece_cid = start;
  piece_size = 128;
  verified_deal = false;
  client = 5;
  provider = 1000;
  label_length = 0;
  start_epoch = pos start;
  end_epoch = pos (start + 600000);
  storage_price_per_epoch = pos 1;
  provider_collateral = pos 0;
  client_collateral = pos 0;
}

-- The context of each submission has its number.
abbrev deal : ℕ → ℕ → PendingDeal
deal n start = record { submission = n; ctx = n; deal = proposal start }

-- Two deals wait, and their period ends.
abbrev one_period : List Event
one_period = submit 10 1 (deal 1 500) ∷ submit 20 2 (deal 2 50) ∷ timer_fires 0 ∷ timer_runs 0 ∷ []

period_hands_on :
    (run one_period (new_deal_publisher false 3 60)).handed ≡ (deal 1 500 ∷ deal 2 50 ∷ []) ∷ []
unfolding run step process_new_deal new_deal_publisher publish_all_deals wait_for_more_deals fires
    timer_expired clear_timer filter_cancelled_deals
period_hands_on = refl

-- A limit of two is reached by the second deal, and its timer is stopped.
full_batch :
    (run one_period (new_deal_publisher false 2 60)).handed ≡ (deal 1 500 ∷ deal 2 50 ∷ []) ∷ []
unfolding run step process_new_deal new_deal_publisher publish_all_deals wait_for_more_deals fires
    timer_expired clear_timer filter_cancelled_deals
full_batch = refl

-- By hand: one deal is chosen, the other waits on.
by_hand :
    pending_deals (
      run
        (submit 10 1 (deal 1 500) ∷ submit 20 2 (deal 2 50) ∷ publish_queued (2 ∷ 7 ∷ []) ∷ [])
        (new_deal_publisher true 2 60))
    ≡ proposal 500 ∷ []
unfolding run step process_new_deal new_deal_publisher publish_queued_deals clear_timer
    filter_cancelled_deals pending_deals dispatch
by_hand = refl

run-handed_once_example :
    let p = run one_period (new_deal_publisher false 3 60) in
    count_if (λ pd. pd.submission == 1) (deals_of p.pending)
      + handed_count (λ pd. pd.submission == 1) p.handed
    ≤ submissions (λ pd. pd.submission == 1) one_period
run-handed_once_example = run-handed_once (λ pd. pd.submission == 1) false 3 60 one_period

run-batch_size_example :
    let p = run one_period (new_deal_publisher false 2 60) in
    (length p.pending < room 2) × All (λ b. length b ≤ room 2) p.handed
run-batch_size_example = run-batch_size 2 60 one_period

-- The only deal of a period is cancelled before the period ends.
abbrev abandoned : DealPublisher
unfolding run step process_new_deal new_deal_publisher publish_all_deals wait_for_more_deals
    clear_timer filter_cancelled_deals dispatch
abandoned = run (submit 10 1 (deal 1 500) ∷ context_done 1 ∷ []) (new_deal_publisher false 3 60)

submit-stalls_forever_example :
    let q = process_new_deal 30 2 (deal 2 500) abandoned in
    (q.pending ≡ (2, deal 2 500) ∷ [])
    × (q.handed ≡ abandoned.handed)
    × ((run (force ∷ submit 40 3 (deal 3 500) ∷ []) q).waiting ≡ [])
    × ((run (force ∷ submit 40 3 (deal 3 500) ∷ []) q).fired ≡ [])
unfolding abandoned run step process_new_deal new_deal_publisher publish_all_deals
    wait_for_more_deals clear_timer filter_cancelled_deals dispatch
submit-stalls_forever_example =
    submit-stalls_forever 30 2 0 (deal 2 500) abandoned (force ∷ submit 40 3 (deal 3 500) ∷ [])
      (record { period = λ e. cc; timer = refl; alone = refl; in_time = refl; gone = refl })
      (record { live = refl; automatic = refl; more = refl; batched = refl })

-- Epoch 100, a buffer of 200 epochs, and messages that succeed.
abbrev node : PublishApi
node = record {
  start_epoch_sealing_buffer = pos 200;
  proposal_cid = λ q. some 1;
  chain_head = λ k. some (pos 100);
  miner_info = λ k p. some p;
  serialize_params = λ ds. some (length ds);
  address_for = λ k mi. some 3;
  state_call = λ k a ps. some true;
  push_message = λ a ps. some 77;
}

-- The deal that starts too early is refused, the other is published alone.
batch_answers :
    publish_ready node (deal 1 500 ∷ deal 2 50 ∷ [])
    ≡ (deal 2 50, err start_passed) ∷ (deal 1 500, ok (some 77)) ∷ []
unfolding publish_ready ◌+ℤ◌
batch_answers = refl

publish_ready-answers_example :
    count_if
      (λ pd. pd.submission == 2)
      (answered (publish_ready node (deal 1 500 ∷ deal 2 50 ∷ [])))
    ≡ count_if (λ pd. pd.submission == 2) (deal 1 500 ∷ deal 2 50 ∷ [])
publish_ready-answers_example =
    publish_ready-answers node (λ pd. pd.submission == 2) (deal 1 500 ∷ deal 2 50 ∷ [])

told : Among (deal 1 500, ok (some 77)) (publish_ready node (deal 1 500 ∷ deal 2 50 ∷ []))
unfolding publish_ready ◌+ℤ◌
told = inr (inl refl)

publish_ready-Message_example :
    (deals : List PendingDeal) × Message node 77 deals × Among (deal 1 500) deals
publish_ready-Message_example =
    publish_ready-Message node (deal 1 500 ∷ deal 2 50 ∷ []) (deal 1 500) 77 told
