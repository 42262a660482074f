-- ===== src/Limiter/Tests.antt =====
-- Runs and instances: two slots; hosts 7 and 8.
use boost.Common.{ℕ, ◌≤◌, ◌<◌, ◌≡◌, ◌⊎◌, refl, true, false, [], ◌∷◌, none, All, pos, find_if, ◌-◌}
use boost.Deal.{ProviderDealState, retry_auto, accepted}
use boost.Limiter.Queue.{
  QueuedTransfer, Limiter, TransferLimiterConfig, new_transfer, is_started, is_fresh, time_sub,
}
use boost.Limiter.Check.{
  Plan, survey, survey_all, survey_one, check, plan_of, next_transfer, scan, started_count,
  sort_by_age, insert_by_age, age, start_loop, start_one, or_else,
}
use boost.Limiter.Choice.{eligible, lone, next_transfer-eq}
use boost.Limiter.Oldest.{next_transfer-oldest}
use boost.Limiter.Starts.{Outcome, check-Starts}

abbrev two_slots : TransferLimiterConfig
two_slots = record { max_concurrent = 2; stall_check_period = pos 1; stall_timeout = pos 60 }

abbrev deal_of : ℕ → ℕ → ProviderDealState
deal_of uuid created_at = record {
  deal_uuid = uuid;
  created_at = created_at;
  proposal = record {
    piece_cid = 1;
    piece_size = 2048;
    verified_deal = false;
    client = 5;
    provider = 1;
    label_length = 0;
    start_epoch = pos 100;
    end_epoch = pos 900;
    storage_price_per_epoch = pos 1;
    provider_collateral = pos 0;
    client_collateral = pos 0;
  };
  is_offline = false;
  cleanup_data = true;
  inbound_file_path = 1;
  transfer = record { transfer_type = 0; client_id = 0; params = 0; size = 100 };
  chain_deal_id = 0;
  publish_cid = none;
  sector_id = 0;
  offset = 0;
  length = 0;
  checkpoint = accepted;
  checkpoint_at = 0;
  deal_err = none;
  retry = retry_auto;
  n_bytes_received = pos 0;
  announce_to_ipni = true;
}

-- Deal 1 is being transferred from host 7; deals 2 (host 7) and 3 (host 8) wait, 2 for longer.
abbrev busy : Limiter
busy = record {
  cfg = two_slots;
  xfers =
      (1, record (new_transfer 7 (deal_of 1 10) 0) { updated_at = 990 })
      ∷ (3, new_transfer 8 (deal_of 3 30) 2)
      ∷ (2, new_transfer 7 (deal_of 2 20) 1)
      ∷ [];
  closed = 0 ∷ [];
  next_channel = 3;
}

-- The newer deal is started: nothing is under way from its host.
check-busy : (check 1000 1001 busy).closed ≡ 2 ∷ 0 ∷ []
unfolding check survey survey_all survey_one is_started is_fresh time_sub start_loop start_one
    next_transfer scan sort_by_age insert_by_age started_count
check-busy = refl

-- One second later it counts as stalled, and the last deal is started as well: three transfers run.
check-busy_again : (check 1001 1002 (check 1000 1001 busy)).closed ≡ 1 ∷ 2 ∷ 0 ∷ []
unfolding check survey survey_all survey_one is_started is_fresh time_sub start_loop start_one
    next_transfer scan sort_by_age insert_by_age started_count
check-busy_again = refl

abbrev busy_plan : Plan
busy_plan = plan_of busy (survey busy 1000)

abbrev third : QueuedTransfer
third = new_transfer 8 (deal_of 3 30) 2

next_transfer-oldest_example :
    let count = started_count busy.closed busy_plan.all_xfers in
    ((lone busy_plan busy.closed (7 ∷ []) count third ≡ true)
      × All
          (λ x. lone busy_plan busy.closed (7 ∷ []) count x ≡ true → age third ≤ age x)
          (survey busy 1000).unstarted)
    ⊎ ((eligible busy_plan busy.closed count third ≡ true)
        × All
            (λ x. lone busy_plan busy.closed (7 ∷ []) count x ≡ false)
            (survey busy 1000).unstarted
        × All
            (λ x. eligible busy_plan busy.closed count x ≡ true → age third ≤ age x)
            (survey busy 1000).unstarted)
unfolding survey survey_all survey_one is_started is_fresh time_sub next_transfer scan sort_by_age
    insert_by_age started_count
next_transfer-oldest_example =
    next_transfer-oldest busy_plan (survey busy 1000).unstarted busy.closed (7 ∷ []) third refl refl

next_transfer-eq_example :
    let count = started_count busy.closed busy_plan.all_xfers in
    next_transfer busy_plan busy.closed (7 ∷ [])
    ≡ or_else
        (find_if (lone busy_plan busy.closed (7 ∷ []) count) busy_plan.queue)
        (find_if (eligible busy_plan busy.closed count) busy_plan.queue)
next_transfer-eq_example = next_transfer-eq busy_plan busy.closed (7 ∷ [])

check-Starts_example :
    let s = survey busy 1000 in
    ((check 1000 1001 busy).xfers ≡ busy.xfers)
    × (s.active_count < 2
        → Outcome busy_plan (2 - s.active_count) busy.closed (check 1000 1001 busy).closed)
    × (2 ≤ s.active_count → check 1000 1001 busy ≡ busy)
check-Starts_example = check-Starts 1000 1001 busy
