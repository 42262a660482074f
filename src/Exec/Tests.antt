-- ===== src/Exec/Tests.antt =====
-- Runs and instances: an online deal at its first checkpoint, and a node that answers every call.
use boost.Common.{◌+◌, ◌-◌, ◌≤◌, ◌≡◌, ◌≢◌, ◌⊎◌, refl, true, false, pos, [], ◌∷◌, none, some, ok}
use boost.Deal.{ProviderDealState, retry_auto, retry_fatal, accepted, complete, failure_text, rank}
use boost.Handler.{new_deal_handler, set_cancel_transfer_response, close}
use boost.Exec.World.{World, Env, DealError, progress, channel_closed, proving}
use boost.Exec.Run.{
  clear_error, settle, run_deal, exec_deal, exec_body, count_received, exec_deal_upto_add_piece,
  exec_transfer, online_transfer, exec_publish, exec_add_piece, exec_index, finish_deal,
  cleanup_deal, cleanup_deal_handler,
}
use boost.Exec.Transfer.{
  transfer_and_verify, leave_queue, transfer_data, wait_for_transfer_finish, finish_transfer,
  after_transfer, verify_comm_p,
}
use boost.Exec.Publish.{publish_deal, publishing, send_publish, after_publish, wait_for, after_wait}
use boost.Exec.Success.{exec_deal_succeeds}
use boost.Exec.Seal.{
  add_piece, open_reader, hand_off, index_and_announce, add_to_lid, announce, check_status,
  read_status, note_status, note_change, final_answer, has_deal, is_final_sealing_state,
  fire_sealing_update_events,
}
use boost.Exec.Leaves.{run_deal_leaves}
use boost.Exec.Steps.{publishes, hand_offs, lost_updates}
use boost.Exec.Steps.Run.{runs, runs_once}
use boost.Exec.World.{
  check_deal_proposal_start_epoch, update_checkpoint, deals_update, save_deal_to_db,
}

-- Piece 7; the deal is number 42 on the chain and its sector is 3.
abbrev pub answering : Env
answering = record {
  stat_file = λ _ _. ok (pos 100);
  chain_head = λ _. some (pos 10);
  update_error = λ _. none;
  deal_by_id_error = λ _. none;
  clock = λ n. n;
  wait_in_queue = λ _. none;
  cancelled_by_user = λ _. false;
  transport_execute = λ _. ok (progress (pos 50) (progress (pos 100) channel_closed));
  within_max_duration = λ _. true;
  generate_piece_commitment = λ _ _ _. ok 7;
  publish = λ _. ok 9;
  address_head = λ _. some "f1";
  wait_for_publish_deals = λ _ cid. ok (cid, 42);
  context_error = λ _. none;
  open_car = λ _ _. none;
  open_file = λ _ _. none;
  inflate = λ _ _ _. none;
  add_piece_to_sector =
      λ _. ok (record { sector_number = 3; packing_offset = 0; packing_size = 2048 });
  add_deal_for_piece = λ _. none;
  index_provider_enabled = true;
  announce_boost_deal = λ _. none;
  curio = false;
  sectors_status = λ _ _. (none, record { sector_state = proving; deals = 41 ∷ 42 ∷ [] });
  state_market_storage_deal = λ _ _. ok none;
  has_active_subscribers = λ _. true;
  ticks = λ _. 5;
  error_text = λ _. 1;
}

abbrev pub new_deal : ProviderDealState
new_deal = record {
  deal_uuid = 1;
  created_at = 0;
  proposal = record {
    piece_cid = 7;
    piece_size = 2048;
    verified_deal = true;
    client = 5;
    provider = 1;
    label_length = 0;
    start_epoch = pos 100;
    end_epoch = pos 900;
    storage_price_per_epoch = pos 0;
    provider_collateral = pos 5;
    client_collateral = pos 0;
  };
  is_offline = false;
  cleanup_data = true;
  inbound_file_path = 1;
  transfer = record { transfer_type = 0; client_id = 0; params = 0; size = 100 };
  chain_deal_id = 0;
  publish_cid = none;
  sector_id = 0;
  offset = 0;
  length = 0;
  checkpoint = accepted;
  checkpoint_at = 0;
  deal_err = none;
  retry = retry_auto;
  n_bytes_received = pos 0;
  announce_to_ipni = true;
}

abbrev pub start : World
start = record {
  deal = new_deal;
  stored = new_deal;
  handler = new_deal_handler;
  registered = true;
  calls = 0;
  effects = [];
}

-- The run that `runDeal` makes loses no update.
nothing_lost : lost_updates (run_deal answering start) ≡ lost_updates start
unfolding run_deal settle clear_error save_deal_to_db exec_deal exec_body count_received
    exec_deal_upto_add_piece exec_transfer online_transfer exec_publish exec_add_piece exec_index
    finish_deal cleanup_deal cleanup_deal_handler check_deal_proposal_start_epoch update_checkpoint
    deals_update transfer_and_verify leave_queue transfer_data wait_for_transfer_finish
    finish_transfer after_transfer verify_comm_p publish_deal publishing send_publish after_publish
    wait_for after_wait add_piece open_reader hand_off index_and_announce add_to_lid announce
    check_status read_status note_status note_change final_answer set_cancel_transfer_response close
    fire_sealing_update_events is_final_sealing_state has_deal
nothing_lost = refl

-- The same node, where no statement that updates the table succeeds.
abbrev read_only : Env
read_only = record answering { update_error = λ _. some (record { text = 3; cancelled = false }) }

runs_once_example :
    let w' = runs (read_only ∷ answering ∷ answering ∷ []) start in
    let lost = lost_updates w' - 0 in
    (0 ≤ rank w'.stored.checkpoint)
    × (publishes w' ≤ 0 + 1 + lost)
    × (hand_offs w' ≤ 0 + 1 + lost)
    × (w'.stored.proposal ≡ new_deal.proposal)
    × (w'.stored.deal_uuid ≡ 1)
runs_once_example = runs_once (read_only ∷ answering ∷ answering ∷ []) start

-- A first run goes through without an error.
goes_through : (exec_deal answering start).0 ≡ none
unfolding exec_deal exec_body count_received exec_deal_upto_add_piece exec_transfer online_transfer
    exec_publish exec_add_piece exec_index finish_deal cleanup_deal cleanup_deal_handler
    check_deal_proposal_start_epoch update_checkpoint deals_update transfer_and_verify leave_queue
    transfer_data wait_for_transfer_finish finish_transfer after_transfer verify_comm_p publish_deal
    publishing send_publish after_publish wait_for after_wait add_piece open_reader hand_off
    index_and_announce add_to_lid announce check_status read_status note_status note_change
    final_answer set_cancel_transfer_response close fire_sealing_update_events
    is_final_sealing_state has_deal
goes_through = refl

-- The run that `runDeal` makes, which saves the deal first.
pub run_goes_through : (exec_deal answering (clear_error answering start).1).0 ≡ none
unfolding clear_error save_deal_to_db exec_deal exec_body count_received exec_deal_upto_add_piece
    exec_transfer online_transfer exec_publish exec_add_piece exec_index finish_deal cleanup_deal
    cleanup_deal_handler check_deal_proposal_start_epoch update_checkpoint deals_update
    transfer_and_verify leave_queue transfer_data wait_for_transfer_finish finish_transfer
    after_transfer verify_comm_p publish_deal publishing send_publish after_publish wait_for
    after_wait add_piece open_reader hand_off index_and_announce add_to_lid announce check_status
    read_status note_status note_change final_answer set_cancel_transfer_response close
    fire_sealing_update_events is_final_sealing_state has_deal
run_goes_through = refl

exec_deal_succeeds_example : 5 ≤ rank (exec_deal answering start).1.deal.checkpoint
exec_deal_succeeds_example = exec_deal_succeeds answering start goes_through

run_deal_leaves_example :
    let (failure, v) = exec_deal answering (clear_error answering start).1 in
    let row = (run_deal answering start).stored in
    ((failure ≡ none) × (5 ≤ rank row.checkpoint))
    ⊎ ((e : DealError) × (failure ≡ some e)
        × (((e.retry ≡ retry_fatal)
              × (row.checkpoint ≡ complete)
              × (row.retry ≡ retry_fatal)
              × (row.deal_err ≡ some (failure_text 1)))
            ⊎ ((e.retry ≢ retry_fatal)
                × (row.checkpoint ≡ v.deal.checkpoint)
                × (row.retry ≡ e.retry)
                × (row.deal_err ≡ some (failure_text 1)))))
run_deal_leaves_example = run_deal_leaves answering start refl nothing_lost

-- The same node, where the deals table cannot be read.
abbrev unreadable : Env
unreadable = record answering { deal_by_id_error = λ _. some new_deal }

not_listed : has_deal (41 ∷ 42 ∷ []) 0 ≡ false
unfolding has_deal
not_listed = refl

is_proved : is_final_sealing_state proving ≡ true
unfolding is_final_sealing_state
is_proved = refl
