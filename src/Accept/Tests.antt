-- ===== src/Accept/Tests.antt =====
-- Runs and instances: a verified deal of 2 KiB at epoch 10, and an expired one.
use boost.Common.{ℕ, ◌≡◌, ◌↔◌, refl, true, false, pos, ◌+ℤ◌, ◌-ℤ◌, ◌*ℤ◌, none, some, ok, err}
use boost.Deal.{ProviderDealState, retry_auto, accepted}
use boost.Accept.Chain.{Chain, ProviderConfig, available_balance}
use boost.Accept.Validate.{
  validate_signature, check_origin, check_form, check_epochs, check_collateral, min_price,
  validate_ask, check_client_funds, check_datacap, check_client, validate_deal_proposal,
  start_elapsed,
}
use boost.Accept.Conditions.{Acceptable, validate_deal_proposal_iff}
use boost.Accept.Refusals.{Answers}

abbrev chain_at : ℕ → Chain
chain_at epoch = record {
  chain_head = some (1, pos epoch);
  cid_defined = λ _. true;
  dump_proposal = λ _. some 0;
  verify_signature = λ _ _ _. some true;
  piece_size_valid = λ _. true;
  has_piece_prefix = λ _. true;
  deal_duration_bounds = λ _. (pos 100, pos 1000);
  max_sector_expiration_extension = pos 5000;
  collateral_bounds_min = λ _ _. some (pos 3);
  tip_set_key_from_bytes = λ k. some k;
  market_balance = λ _ _. some (record { escrow = pos 50; market_locked = pos 10 });
  verified_client_status = λ _ _. some (some (pos 4096));
  duration = λ q. q.end_epoch -ℤ q.start_epoch;
  client_balance_requirement = λ _. pos 30;
}

abbrev provider : ProviderConfig
provider = record {
  address = 1;
  max_deal_collateral_multiplier = 2;
  ask = record {
    price = pos 99;
    verified_price = pos 1;
    min_piece_size = 256;
    max_piece_size = 4096;
  };
}

abbrev deal : ProviderDealState
deal = record {
  deal_uuid = 1;
  created_at = 0;
  proposal = record {
    piece_cid = 1;
    piece_size = 2048;
    verified_deal = true;
    client = 5;
    provider = 1;
    label_length = 0;
    start_epoch = pos 100;
    end_epoch = pos 900;
    storage_price_per_epoch = pos 0;
    provider_collateral = pos 5;
    client_collateral = pos 0;
  };
  is_offline = false;
  cleanup_data = true;
  inbound_file_path = 1;
  transfer = record { transfer_type = 0; client_id = 0; params = 0; size = 100 };
  chain_deal_id = 0;
  publish_cid = none;
  sector_id = 0;
  offset = 0;
  length = 0;
  checkpoint = accepted;
  checkpoint_at = 0;
  deal_err = none;
  retry = retry_auto;
  n_bytes_received = pos 0;
  announce_to_ipni = true;
}

answers : (epoch : ℕ) → Answers (chain_at epoch)
answers epoch = record {
  head = (_, refl);
  dump = λ _. (_, refl);
  verify = λ _ _ _. (_, refl);
  bounds = λ _ _. (_, refl);
  key = λ _. (_, refl);
  balance = λ _ _. (_, refl);
  status = λ _ _. (_, refl);
}

is_accepted : validate_deal_proposal (chain_at 10) provider deal 0 ≡ ok tt
unfolding validate_deal_proposal check_origin validate_signature check_form check_epochs
    check_collateral validate_ask min_price check_client check_client_funds check_datacap
    available_balance ◌+ℤ◌ ◌-ℤ◌ ◌*ℤ◌
is_accepted = refl

is_refused : validate_deal_proposal (chain_at 101) provider deal 0 ≡ err start_elapsed
unfolding validate_deal_proposal check_origin validate_signature check_form check_epochs ◌+ℤ◌ ◌-ℤ◌
is_refused = refl

validate_deal_proposal_iff_example :
    (validate_deal_proposal (chain_at 10) provider deal 0 ≡ ok tt)
    ↔ Acceptable (chain_at 10) provider deal 0
validate_deal_proposal_iff_example = validate_deal_proposal_iff (chain_at 10) provider deal 0
