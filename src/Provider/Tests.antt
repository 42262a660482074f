-- ===== src/Provider/Tests.antt =====
-- Runs and instances: one online deal of 100 bytes, and a node that answers every call.
use boost.Common.{
  ℕ, ◌*◌, ◌<◌, ◌≡◌, ◌≢◌, ◌⊎◌, inl, refl, true, false, [], ◌∷◌, none, some, Result, ok, err, arith,
  pos, healthy, lookup, All, ltb, ◌-ℤ◌, if◌then◌else◌,
}
use boost.Deal.{ProviderDealState, accepted}
use boost.Handler.{new_deal_handler}
use boost.Funds.{
  tag_funds, balance_market, balance_publish_msg, to_shared_balance, tag_against, reserve,
  persist_funds, db_funds_tagged, add_rows, add_row, tag_funds_row, insert_funds_logs, funds_query,
}
use boost.Funds.Sums as FundsRows
use boost.Storage.{
  tag, check_limits, check_host, check_total, persist_tagged, sizes_for_host, total_tagged,
  total_tagged_for_host, db_total_tagged, db_tag, insert_logs, storage_query, host_limit,
}
use boost.Exec.World.{proving}
use boost.Exec.Tests.{answering, new_deal, start as fresh_run, run_goes_through}
use boost.Exec.Run.{run_deal}
use boost.Provider.World.{
  World, Env, AcceptError, refused, panic, by_id, mk_and_insert_deal_handler, update_row,
}
use boost.Provider.Propose.{
  process_online_deal_proposal, process_deal, reserve_and_save, propose_from, check_proposal,
  check_deal_prop_unique, lookup_proposal, check_deal_uuid_unique, run_deal_filters, filter_answer,
  reserve_funds, funds_tagged, reserve_space, space_tagged, stage_deal, staged, save_deal, stamped,
  insert_deal, inserted, process_import_offline_deal_data,
}
use boost.Provider.Loop.{rejects, handle_retry, handle_proposal}
use boost.Provider.Checks.{steady}
use boost.Provider.Save.{Saved}
use boost.Provider.Refused.{process_online_all_or_nothing}
use boost.Provider.Words.{words_start_once, after_words}
use boost.Provider.Offline.{process_offline_lem}
use boost.Provider.Duplicate.{duplicate_offline_restarts}
use boost.Provider.Race.{second_proposal_releases}
use boost.Provider.Served.{serve}
use boost.Provider.Finished.{run_deal_releases}
use boost.Provider.Restart.{
  start, list_completed, list_active, cleanup_all, restart_all, restart_deal, already_proving,
  restart_with, resume, elapsed_before_sector, start_epoch_elapsed, run_failing, run_taken, take_at,
  fail_deal_thread, elapsed_deal, newest_first, place,
}
use boost.Provider.Elapsed.{RowOf}
use boost.Provider.Rows.{MayResume, Distinct}
use boost.Provider.Started.{start_resumes}
use boost.Provider.Imported.{process_import_lem}
use boost.Provider.AddPiece.{
  Sealer, AddError, too_many_sectors_sealing, add_piece_with_retry, enough_fuel,
}
use boost.Provider.Handed.{add_piece_with_retry_ends, AllFull, AnswerOf}

abbrev tick : ℕ → ℕ
tick n = n

abbrev calm : Env
calm = record {
  funds_driver = healthy;
  storage_driver = healthy;
  node = record {
    state_market_balance = λ a n. some (record { escrow = pos 1000; market_locked = pos 200 });
    wallet_balance = λ a n. some (pos 90);
    provider_balance_requirement = λ p. p.provider_collateral;
  };
  funds_config = record {
    enabled = true;
    storage_miner = 1;
    collat_wallet = 2;
    pub_msg_wallet = 3;
    pub_msg_bal_min = pos 30;
  };
  storage_config = record {
    max_staging_deals_bytes = 1000;
    max_staging_deals_percent_per_host = 0;
  };
  transfer_host = λ t. some 7;
  signed_proposal_cid = λ p. some p.piece_cid;
  deals_fault = λ n. false;
  deal_filter_params = λ n. false;
  deal_filter = λ n d. some true;
  staging_file = λ n uuid. some 11;
  handler_fault = λ n. false;
  clock = tick;
  setup_fault = λ n. false;
  chain_head = λ n. some (pos 10);
  start_epoch_error = λ d. 2;
  sectors_status = λ n sector. some proving;
}

abbrev empty_world : World
empty_world = record {
  funds = record { tagged = []; logs = []; statements = 0 };
  storage = record { tagged = []; logs = []; statements = 0 };
  deals = [];
  handlers = [];
  started = [];
  removed_files = [];
  cleanups = [];
  failing = [];
  calls = 0;
}

-- The deal is in the table, and has not run yet.
abbrev saved_world : World
saved_world = record empty_world { deals = new_deal ∷ [] }

-- The deal runs.
abbrev running_world : World
running_world = record saved_world {
  handlers = (1, record new_deal_handler { running = true }) ∷ [];
  started = 1 ∷ [];
}

abbrev offline_deal : ProviderDealState
offline_deal = record new_deal { is_offline = true; inbound_file_path = 0 }

process_online_all_or_nothing_example :
    let (r, w') = process_online_deal_proposal (steady tick tick calm) new_deal empty_world in
    ((e : AcceptError) × (r ≡ err (refused e))
      × (w'.funds.tagged ≡ [])
      × (w'.storage.tagged ≡ [])
      × (w'.deals ≡ []))
    ⊎ ((row : ProviderDealState) × (r ≡ ok row) × Saved new_deal row empty_world w')
process_online_all_or_nothing_example =
    process_online_all_or_nothing tick tick calm new_deal empty_world (refl, refl)

words_start_once_example :
    let words = true ∷ false ∷ true ∷ true ∷ [] in
    ((after_words calm 1 words saved_world).started ≡ [])
    ⊎ ((after_words calm 1 words saved_world).started ≡ 1 ∷ [])
words_start_once_example = words_start_once calm 1 (true ∷ false ∷ true ∷ true ∷ []) saved_world

process_offline_lem_example :
    let (r, w') = process_deal calm offline_deal empty_world in
    (w'.funds ≡ empty_world.funds)
    × (w'.storage ≡ empty_world.storage)
    × (w'.started ≡ [])
    × (((r ≡ err panic) × (lookup 1 empty_world.handlers ≡ none) × (false ≡ true) × (w'.deals ≡ []))
        ⊎ (((lookup 1 empty_world.handlers ≢ none) ⊎ (false ≡ false))
            × (((e : AcceptError) × (r ≡ err (refused e)) × (w'.deals ≡ []))
                ⊎ ((row : ProviderDealState) × (r ≡ ok row)
                    × (w'.deals ≡ row ∷ [])
                    × (by_id 1 [] ≡ none)
                    × (row.deal_uuid ≡ 1)
                    × (row.checkpoint ≡ accepted)))))
process_offline_lem_example = process_offline_lem calm offline_deal empty_world refl

found : by_id 1 (new_deal ∷ []) ≡ some new_deal
unfolding by_id
found = refl

-- The deal of `running_world` runs when an offline proposal with its uuid comes in.
duplicate_offline_restarts_example :
    let (r, w') = handle_proposal calm offline_deal running_world in
    ((x : AcceptError) × (r ≡ ok (rejects x ∷ [])))
    × (lookup 1 w'.handlers ≡ none)
    × (w'.deals ≡ new_deal ∷ [])
    × (w'.started ≡ 1 ∷ [])
    × ((handle_retry calm 1 true w').1.started ≡ 1 ∷ 1 ∷ [])
duplicate_offline_restarts_example =
    duplicate_offline_restarts calm offline_deal new_deal running_world (λ n. refl) (λ n. refl) refl
      found refl

-- The row of the first proposal.
abbrev first_row : ProviderDealState
first_row = record new_deal { inbound_file_path = 11; created_at = 5; checkpoint_at = 6 }

accepted_first :
    (process_online_deal_proposal (steady tick tick calm) new_deal empty_world).0 ≡ ok first_row
unfolding process_online_deal_proposal propose_from check_proposal check_deal_prop_unique
    lookup_proposal check_deal_uuid_unique by_id run_deal_filters filter_answer reserve_and_save
    reserve_funds funds_tagged tag_funds balance_market balance_publish_msg to_shared_balance
    tag_against reserve persist_funds db_funds_tagged add_rows add_row tag_funds_row
    insert_funds_logs funds_query reserve_space space_tagged tag check_limits check_host check_total
    persist_tagged sizes_for_host total_tagged total_tagged_for_host db_total_tagged db_tag
    insert_logs storage_query host_limit stage_deal staged save_deal stamped insert_deal inserted
    ◌-ℤ◌
accepted_first = refl

second_proposal_releases_example :
    let w1 = (process_online_deal_proposal (steady tick tick calm) new_deal empty_world).1 in
    let (r, w2) = reserve_and_save (steady tick tick calm) new_deal 7 w1 in
    ((e : AcceptError) × (r ≡ err (refused e)))
    × (w2.funds.tagged ≡ [])
    × (w2.storage.tagged ≡ [])
    × (w2.deals ≡ first_row ∷ [])
second_proposal_releases_example =
    second_proposal_releases tick tick calm new_deal new_deal first_row 7 empty_world refl
      (refl, refl) accepted_first

run_deal_releases_example :
    let w' = serve (steady tick tick calm) 1 (run_deal answering fresh_run).effects running_world in
    (w'.funds.tagged ≡ []) × (w'.storage.tagged ≡ []) × (w'.deals ≡ new_deal ∷ [])
run_deal_releases_example =
    run_deal_releases tick tick calm answering fresh_run running_world (λ n. refl)
      (inl run_goes_through)

-- The node, at a head that is past the start epoch of the deal.
abbrev late : Env
late = record calm { chain_head = λ n. some (pos 500) }

start_resumes_example :
    let w' = (start late saved_world).1 in
    (w'.deals ≡ new_deal ∷ [])
    × All (MayResume (new_deal ∷ [])) w'.started
    × Distinct w'.started
    × All (RowOf late (new_deal ∷ [])) (run_failing late (0 ∷ []) w').deals
start_resumes_example = start_resumes late saved_world (0 ∷ []) refl refl

-- The deal is not started but failed, and its row is complete once the thread has run.
failed_at_start :
    (run_failing late (0 ∷ []) (start late saved_world).1).deals ≡ elapsed_deal late new_deal ∷ []
unfolding start list_completed list_active cleanup_all restart_all restart_deal already_proving
    mk_and_insert_deal_handler restart_with resume elapsed_before_sector start_epoch_elapsed
    run_failing run_taken take_at fail_deal_thread update_row newest_first place
failed_at_start = refl

-- The sealer is full for the first two attempts.
abbrev sealer : Sealer
sealer = record {
  sector_add_piece_to_any = λ k. if ltb k 2 then err too_many_sectors_sealing else ok (3, 0);
  now = λ k. k * 300;
  done = λ k. false;
}

add_piece_with_retry_ends_example :
    (k : ℕ) × (r : Result AddError (ℕ × ℕ)) × (add_piece_with_retry sealer enough_fuel ≡ some r)
    × (k < 73)
    × AllFull sealer k
    × AnswerOf sealer k r
add_piece_with_retry_ends_example = add_piece_with_retry_ends sealer (omega arith, λ k. omega arith)

abbrev waiting_world : World
waiting_world = record empty_world { deals = offline_deal ∷ [] }

process_import_lem_example :
    let (r, w') =
      process_import_offline_deal_data (steady tick tick calm) offline_deal waiting_world in
    (w'.storage.tagged ≡ [])
    × (w'.deals ≡ offline_deal ∷ [])
    × (((r ≡ ok tt) × (FundsRows.others 1 w'.funds.tagged ≡ []))
        ⊎ ((e : AcceptError) × (r ≡ err (refused e)) × (w'.funds.tagged ≡ [])))
process_import_lem_example = process_import_lem tick tick calm offline_deal waiting_world
