-- ===== src/Funds/Tests.antt =====
-- Runs and instances: 1000 in escrow, of which 200 is locked, and 90 in the publish wallet.
use boost.Common.{
  ℕ, ◌≡◌, ◌⊎◌, ◌↔◌, refl, true, false, [], ◌∷◌, some, ok, err, Driver, healthy, pos, ◌==◌, ◌≤ℤ◌,
  ◌+ℤ◌, ◌-ℤ◌,
}
use boost.Deal.{DealProposal}
use boost.Funds.Ledger.{FundsDb, insufficient_funds}
use boost.Funds.Manager.{
  FundsConfig, MarketBalance, Node, TagFundsResp, tag_funds, untag_funds, balance_market,
  balance_publish_msg, tag_against, reserve, persist_funds,
}
use boost.Funds.Ledger.{db_funds_tagged, add_rows, add_row}
use boost.Funds.Sums.{collateral_sum, pub_msg_sum}
use boost.Funds.Solvency.{Solvent, tag_funds-Solvent}
use boost.Funds.Refusal.{reliable, tag_funds_refuses_iff}
use boost.Funds.Undo.{untag_funds-tag_funds}

abbrev enabled_config : FundsConfig
enabled_config = record {
  enabled = true;
  storage_miner = 1;
  collat_wallet = 2;
  pub_msg_wallet = 3;
  pub_msg_bal_min = pos 30;
}

abbrev market : MarketBalance
market = record { escrow = pos 1000; market_locked = pos 200 }

abbrev node : Node
node = record {
  state_market_balance = λ a n. some market;
  wallet_balance = λ a n. some (pos 90);
  provider_balance_requirement = λ p. p.provider_collateral;
}

abbrev proposal : ℕ → DealProposal
proposal collateral = record {
  piece_cid = 1;
  piece_size = 2048;
  verified_deal = false;
  client = 5;
  provider = 1;
  label_length = 0;
  start_epoch = pos 100;
  end_epoch = pos 900;
  storage_price_per_epoch = pos 1;
  provider_collateral = pos collateral;
  client_collateral = pos 0;
}

abbrev one_row : FundsDb
one_row = record {
  tagged = record { deal = 1; created_at = 0; collateral = pos 500; pub_msg = pos 30 } ∷ [];
  logs = [];
  statements = 0;
}

abbrev no_log : Driver
no_log = record { fault = λ n. n == 3; clock = λ n. n }

abbrev tagged_resp : TagFundsResp
tagged_resp = record {
  collateral = pos 300;
  publish_message = pos 30;
  total_collateral = pos 800;
  total_publish_message = pos 60;
  available_collateral = pos 0;
  available_publish_message = pos 30;
}

tagged : (tag_funds healthy node enabled_config 2 (proposal 300) one_row).0 ≡ ok tagged_resp
unfolding tag_funds balance_market balance_publish_msg tag_against reserve persist_funds add_rows
    add_row ◌+ℤ◌ ◌-ℤ◌ db_funds_tagged
tagged = refl

tag_funds-Solvent_example :
    Solvent healthy node enabled_config
      (proposal 300)
      market
      (pos 90)
      one_row
      (tag_funds healthy node enabled_config 2 (proposal 300) one_row).1
      tagged_resp
tag_funds-Solvent_example =
    tag_funds-Solvent healthy node enabled_config 2 (proposal 300) market (pos 90) one_row
      tagged_resp refl refl refl tagged

tag_funds_refuses_iff_example :
    ((tag_funds (reliable (λ n. n)) node enabled_config 2 (proposal 301) one_row).0
      ≡ err insufficient_funds)
    ↔ ((¬ (pos 301 ≤ℤ pos 1000 -ℤ pos 200 -ℤ collateral_sum one_row.tagged))
        ⊎ (¬ (pos 30 ≤ℤ pos 90 -ℤ pub_msg_sum one_row.tagged)))
tag_funds_refuses_iff_example =
    tag_funds_refuses_iff (λ n. n) node enabled_config 2 (proposal 301) market (pos 90) one_row refl
      refl refl

untag_funds-tag_funds_example :
    (untag_funds
      (reliable (λ n. n))
      node
      enabled_config
      2
      (tag_funds no_log node enabled_config 2 (proposal 300) one_row).1).1.tagged
    ≡ one_row.tagged
untag_funds-tag_funds_example =
    untag_funds-tag_funds no_log (λ n. n) node enabled_config 2 (proposal 300) one_row refl
