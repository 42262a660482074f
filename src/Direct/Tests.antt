-- ===== src/Direct/Tests.antt =====
-- Runs and instances: a provider that has one active deal, and two imports for another allocation.
use boost.Common.{
  ℕ, ◌≡◌, ◌≢◌, ◌⊎◌, refl, pos, true, false, [], ◌∷◌, ◌++◌, none, some, ok, err, arith, ◌+ℤ◌,
  if◌then◌else◌, ◌==◌,
}
use boost.Deal.{accepted, retry_auto}
use boost.Exec.World.{proving, failed_unrecoverable}
use boost.Exec.Seal.{is_final_sealing_state}
use boost.Direct.Import.{
  DirectDeal, DirectApi, DirectDeals, start_passed, no_allocation, in_process, nil_allocation,
  accept, accept_allocation, import_with, import, is_in_process, insert_deal, start_deal_thread,
  fail_paused_deal, deal_by_id, save_deal_to_db, replace_deal,
}
use boost.Direct.Sealing.{
  Look, watch_ticks, watch_sealing_updates, shut_down, look_once, look_again,
  check_sealing_finalized, settle_claim, confirm_claim, track_curio_sealing, track_ticks,
  sealing_failed,
}
use boost.Direct.Claims.{active_claims, AtMostOne, imports, imports-AtMostOne}
use boost.Direct.Faults.{imports_side_by_side, import_reads_nil}
use boost.Direct.Waits.{Claimed, SomeLook, watch_sealing_updates-Claimed, watch_ticks_ends}

abbrev entry : ℕ → ℕ → DirectDeal
entry id allocation = record {
  id = id;
  piece_cid = id;
  client = 5;
  provider = 0;
  allocation_id = allocation;
  start_epoch = pos 900;
  cleanup_data = true;
  inbound_file_path = id;
  checkpoint = accepted;
  retry = retry_auto;
  deal_err = none;
}

abbrev api : DirectApi
api = record {
  start_epoch_sealing_buffer = pos 100;
  max_term = pos 5000;
  chain_head = some (pos 50);
  get_allocation = λ k c a.
      if a == 9 then some none else some (some (record { provider = 1000; term_min = pos 100 }));
  miner_id = some 1000;
  id_address = λ p. some p;
  lookup_id = λ p. some p;
  list_fails = false;
  insert_fails = false;
  by_id_fails = false;
  update_fails = false;
}

abbrev one_deal : DirectDeals
one_deal = record { deals = entry 1 7 ∷ []; running = 1 ∷ []; started = []; files_removed = [] }

-- A second deal for allocation 7 is refused, one for allocation 8 is taken in and started.
refused : (import api (entry 2 7) one_deal).0 ≡ ok (some in_process)
unfolding import accept accept_allocation import_with is_in_process ◌+ℤ◌
refused = refl

taken_in : (import api (entry 2 8) one_deal).1.started ≡ 2 ∷ []
unfolding import accept accept_allocation import_with is_in_process insert_deal start_deal_thread
    ◌+ℤ◌
taken_in = refl

one_deal-AtMostOne : AtMostOne one_deal.deals
one_deal-AtMostOne c a = ground arith

-- The node has no head for the first of the imports.
abbrev no_head : DirectApi
no_head = record api { chain_head = none }

imports-AtMostOne_example :
    AtMostOne
      (imports ((no_head, entry 2 8) ∷ (api, entry 2 8) ∷ (api, entry 3 8) ∷ []) one_deal).deals
imports-AtMostOne_example =
    imports-AtMostOne ((no_head, entry 2 8) ∷ (api, entry 2 8) ∷ (api, entry 3 8) ∷ []) one_deal
      one_deal-AtMostOne

imports_side_by_side_example :
    active_claims 5 8
      (import_with api (entry 3 8) none (import_with api (entry 2 8) none one_deal).1).1.deals
    ≡ 2
unfolding accept accept_allocation import_with is_in_process insert_deal start_deal_thread ◌+ℤ◌
imports_side_by_side_example =
    imports_side_by_side api (entry 2 8) (entry 3 8) one_deal refl refl refl refl refl refl refl
      refl

import_reads_nil_example :
    (((accept api (entry 2 9) one_deal).0 ≡ ok (some start_passed))
      ⊎ ((accept api (entry 2 9) one_deal).0 ≡ ok (some no_allocation)))
    × (import api (entry 2 9) one_deal ≡ (err nil_allocation, one_deal))
import_reads_nil_example = import_reads_nil api (entry 2 9) one_deal (pos 50) refl (λ k. refl)

-- A sector that is not final at first, and then with a claim; or without one for too long.
abbrev sealing : Look
sealing = record { status = none; claim = some none; waited = 10 }

abbrev claimed : Look
claimed = record { status = some proving; claim = some (some 4); waited = 20 }

abbrev unclaimed : Look
unclaimed = record { status = some proving; claim = some none; waited = 610 }

watch_sealing_updates-Claimed_example : SomeLook (Claimed 4) (sealing ∷ claimed ∷ [])
unfolding watch_sealing_updates watch_ticks look_once look_again check_sealing_finalized
    settle_claim confirm_claim is_final_sealing_state
watch_sealing_updates-Claimed_example = watch_sealing_updates-Claimed 4 sealing (claimed ∷ []) refl

watch_ticks_ends_example : watch_ticks 4 ((sealing ∷ []) ++ unclaimed ∷ []) ≢ err shut_down
unfolding check_sealing_finalized is_final_sealing_state
watch_ticks_ends_example = watch_ticks_ends 4 (sealing ∷ []) [] unclaimed refl (omega arith)

-- Under Curio a sector that has failed for good counts as sealed at the first look, and as failed
-- at a later one.
failed_first : track_curio_sealing (some failed_unrecoverable) [] ≡ ok tt
unfolding track_curio_sealing is_final_sealing_state
failed_first = refl

failed_later : track_curio_sealing none (some failed_unrecoverable ∷ []) ≡ err sealing_failed
unfolding track_curio_sealing track_ticks is_final_sealing_state
failed_later = refl

-- The file of a deal that a user fails is removed.
failed_by_hand :
    (fail_paused_deal api 1 (record one_deal { running = [] })).1.files_removed ≡ 1 ∷ []
unfolding fail_paused_deal deal_by_id save_deal_to_db replace_deal
failed_by_hand = refl
