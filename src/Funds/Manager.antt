-- ===== src/Funds/Manager.antt =====
-- fundmanager/fundmanager.go: `TagFunds`, `UntagFunds` and what they call.
use boost.Common.{
  ℕ, Bool, [], ◌∷◌, Option, none, some, if◌then◌else◌, pure, raise, gets, raise_if, ◌>>=◌, ◌>>◌,
  Driver, ℤ, pos, ◌+ℤ◌, ◌-ℤ◌, ltb_ℤ,
}
use boost.Deal.{DealProposal}
use boost.Funds.Ledger.{
  FundsAction, TotalTagged, insufficient_funds, api_error, tag_funds_row, untag_funds_row,
  insert_funds_logs, db_funds_tagged,
}

pub record FundsConfig : Type 0 where
  pub enabled : Bool
  pub storage_miner : ℕ
  pub collat_wallet : ℕ
  pub pub_msg_wallet : ℕ
  pub pub_msg_bal_min : ℤ

-- `api.MarketBalance` of the full node.
pub record MarketBalance : Type 0 where
  pub escrow : ℤ
  pub market_locked : ℤ

pub record Balance : Type 0 where
  pub locked : ℤ
  pub available : ℤ

-- What the full node and the chain's types answer: the balances (`none` is an error of the call),
-- by address and by the number of statements sent before the call, and the collateral that the
-- provider locks for a proposal.
pub record Node : Type 0 where
  pub state_market_balance : ℕ → ℕ → Option MarketBalance
  pub wallet_balance : ℕ → ℕ → Option ℤ
  pub provider_balance_requirement : DealProposal → ℤ

pub record TagFundsResp : Type 0 where
  pub collateral : ℤ
  pub publish_message : ℤ
  pub total_collateral : ℤ
  pub total_publish_message : ℤ
  pub available_collateral : ℤ
  pub available_publish_message : ℤ

unfoldable pub to_shared_balance : MarketBalance → Balance
to_shared_balance bal = record {
  locked = bal.market_locked;
  available = bal.escrow -ℤ bal.market_locked;
}

abbrev pub or_api_error : {A : Type 0} → Option A → FundsAction A
or_api_error none = raise api_error
or_api_error (some a) = pure a

module _ (driver : Driver) (node : Node) (cfg : FundsConfig) where
  unfoldable pub balance_market : FundsAction Balance
  unfolding to_shared_balance
  balance_market = do
    bal ← or_api_error (← gets (λ db. node.state_market_balance cfg.storage_miner db.statements))
    pure (to_shared_balance bal)

  unfoldable pub balance_publish_msg : FundsAction ℤ
  balance_publish_msg = do
    or_api_error (← gets (λ db. node.wallet_balance cfg.pub_msg_wallet db.statements))

  unfoldable pub persist_funds : ℕ → ℤ → ℤ → FundsAction (Unit {0})
  unfolding tag_funds_row insert_funds_logs
  persist_funds deal deal_collateral pub_msg_bal = do
    tag_funds_row driver deal deal_collateral pub_msg_bal
    insert_funds_logs driver (
        record {
          deal_uuid = deal;
          log_created_at = 0;
          amount = deal_collateral;
          log_text = "Tag funds for collateral";
        }
        ∷ record {
          deal_uuid = deal;
          log_created_at = 0;
          amount = pub_msg_bal;
          log_text = "Tag funds for deal publish message";
        }
        ∷ [])

  -- The block under `if m.cfg.Enabled`: the amounts tagged for collateral and for the message.
  unfoldable pub reserve : ℕ → DealProposal → ℤ → ℤ → FundsAction (ℤ × ℤ)
  reserve deal proposal avail_for_deal_collat avail_for_pub_msg =
      if cfg.enabled
      then (do
        let deal_collateral_tag = node.provider_balance_requirement proposal
        raise_if (ltb_ℤ avail_for_deal_collat deal_collateral_tag) insufficient_funds
        let pub_msg_tag = cfg.pub_msg_bal_min
        raise_if (ltb_ℤ avail_for_pub_msg pub_msg_tag) insufficient_funds
        persist_funds deal deal_collateral_tag pub_msg_tag
        pure (deal_collateral_tag, pub_msg_tag))
      else pure (pos 0, pos 0)

  -- What follows once the balances and the totals are known.
  unfoldable pub tag_against :
      ℕ → DealProposal → Balance → ℤ → TotalTagged → FundsAction TagFundsResp
  tag_against deal proposal market_bal pub_msg_bal tagged = do
    let avail_for_deal_collat = market_bal.available -ℤ tagged.collateral
    let avail_for_pub_msg = pub_msg_bal -ℤ tagged.pub_msg
    tags ← reserve deal proposal avail_for_deal_collat avail_for_pub_msg
    pure (record {
      collateral = tags.0;
      publish_message = tags.1;
      total_collateral = tagged.collateral +ℤ tags.0;
      total_publish_message = tagged.pub_msg +ℤ tags.1;
      available_collateral = avail_for_deal_collat -ℤ tags.0;
      available_publish_message = avail_for_pub_msg -ℤ tags.1;
    })

  unfoldable pub tag_funds : ℕ → DealProposal → FundsAction TagFundsResp
  tag_funds deal proposal = do
    market_bal ← balance_market
    pub_msg_bal ← balance_publish_msg
    tagged ← db_funds_tagged driver
    tag_against deal proposal market_bal pub_msg_bal tagged

  unfoldable pub untag_funds : ℕ → FundsAction (ℤ × ℤ)
  unfolding untag_funds_row insert_funds_logs
  untag_funds deal = do
    untagged ← untag_funds_row driver deal
    insert_funds_logs driver (
        record {
          deal_uuid = deal;
          log_created_at = 0;
          amount = untagged.0 +ℤ untagged.1;
          log_text = "Untag funds for deal";
        }
        ∷ [])
    pure untagged
