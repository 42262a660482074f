-- ===== src/Funds/Refusal.antt =====
-- When `TagFunds` refuses, what it leaves then, and that `UntagFunds` undoes it.
use boost.Common.{ℕ, ◌≡◌, ◌⊎◌, ◌↔◌, true, false, some, err, arith, Driver, ℤ, ◌+◌, ◌-ℤ◌, ◌≤ℤ◌}
use boost.Deal.{DealProposal}
use boost.Funds.Ledger.{FundsDb, insufficient_funds, db_funds_tagged}
use boost.Funds.Manager.{
  FundsConfig, MarketBalance, Node, persist_funds, reserve, balance_market, balance_publish_msg,
  tag_against, tag_funds,
}
use boost.Funds.Sums.{collateral_sum, pub_msg_sum, add_rows_totals}

abbrev pub reliable : (ℕ → ℕ) → Driver
reliable clock = record { fault = λ n. false; clock = clock }

module _ (clock : ℕ → ℕ) (node : Node) (cfg : FundsConfig) where
  reserve_refuses_iff :
      (deal : ℕ) (p : DealProposal) (a b : ℤ) (db : FundsDb)
      → cfg.enabled ≡ true
      → ((reserve (reliable clock) node cfg deal p a b db).0 ≡ err insufficient_funds)
        ↔ ((¬ (node.provider_balance_requirement p ≤ℤ a)) ⊎ (¬ (cfg.pub_msg_bal_min ≤ℤ b)))
  unfolding reserve persist_funds
  reserve_refuses_iff deal p a b db e = (λ h. ground arith, λ h. ground arith)

  -- On a driver with no failures and with the balances known, `TagFunds` with tagging enabled
  -- answers ErrInsufficientFunds exactly when the deal's collateral is more than the escrow that
  -- is neither locked nor tagged, or the price of a message more than what the publish wallet has
  -- beside the sums tagged.
  pub tag_funds_refuses_iff :
      (deal : ℕ) (p : DealProposal) (bal : MarketBalance) (w : ℤ) (db : FundsDb)
      → cfg.enabled ≡ true
      → node.state_market_balance cfg.storage_miner db.statements ≡ some bal
      → node.wallet_balance cfg.pub_msg_wallet db.statements ≡ some w
      → ((tag_funds (reliable clock) node cfg deal p db).0 ≡ err insufficient_funds) ↔ (
          (¬ (
            node.provider_balance_requirement p
            ≤ℤ bal.escrow -ℤ bal.market_locked -ℤ collateral_sum db.tagged))
          ⊎ (¬ (cfg.pub_msg_bal_min ≤ℤ w -ℤ pub_msg_sum db.tagged)))
  unfolding tag_funds balance_market balance_publish_msg db_funds_tagged tag_against
  tag_funds_refuses_iff deal p bal w db e hb hw =
      let avail = bal.escrow -ℤ bal.market_locked in
      let (there, back) =
        reserve_refuses_iff deal p (avail -ℤ collateral_sum db.tagged) (w -ℤ pub_msg_sum db.tagged)
          (record db { statements = db.statements + 1 }) e in
      (
        λ h. there (ground (arith, add_rows_totals db.tagged)),
        λ h. ground (arith, back h, add_rows_totals db.tagged),
      )
