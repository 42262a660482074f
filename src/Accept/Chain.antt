-- ===== src/Accept/Chain.antt =====
-- What the validation of a proposal calls, and the ask it reads.
use boost.Common.{ℕ, ◌/◌, ℤ, pos, negsuc, ◌-ℤ◌, Bool, Option}
use boost.Deal.{DealProposal}
use boost.Funds.{MarketBalance}

-- The full node, the signature verifier and the chain's types; `none` is an error of the call.
pub record Chain : Type 0 where
  pub chain_head : Option (ℕ × ℤ)
  pub cid_defined : ℕ → Bool
  pub dump_proposal : DealProposal → Option ℕ
  pub verify_signature : ℕ → ℕ → ℕ → Option Bool
  pub piece_size_valid : ℕ → Bool
  pub has_piece_prefix : ℕ → Bool
  pub deal_duration_bounds : ℕ → ℤ × ℤ
  pub max_sector_expiration_extension : ℤ
  pub collateral_bounds_min : ℕ → Bool → Option ℤ
  pub tip_set_key_from_bytes : ℕ → Option ℕ
  pub market_balance : ℕ → ℕ → Option MarketBalance
  pub verified_client_status : ℕ → ℕ → Option (Option ℤ)
  pub duration : DealProposal → ℤ
  pub client_balance_requirement : DealProposal → ℤ

-- `legacytypes.StorageAsk`.
pub record StorageAsk : Type 0 where
  pub price : ℤ
  pub verified_price : ℤ
  pub min_piece_size : ℕ
  pub max_piece_size : ℕ

-- The fields of `Provider` that the validation reads.
pub record ProviderConfig : Type 0 where
  pub address : ℕ
  pub max_deal_collateral_multiplier : ℕ
  pub ask : StorageAsk

-- `big.Div` by a positive number, which rounds down.
abbrev pub div_ℤ : ℤ → ℕ → ℤ
div_ℤ (pos a) n = pos (a / n)
div_ℤ (negsuc a) n = negsuc (a / n)

-- `utils.ToSharedBalance`, of which the caller takes `Available`.
unfoldable pub available_balance : MarketBalance → ℤ
available_balance bal = bal.escrow -ℤ bal.market_locked
