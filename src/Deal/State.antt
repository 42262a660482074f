-- ===== src/Deal/State.antt =====
-- storagemarket/types/deal_state.go, and the fields of a deal proposal that the provider reads.
-- Addresses, cids, uuids and file paths are numbers that are only compared; file path 0 is "".
use boost.Common.{ℕ, ℤ, Bool, true, false, Option}
use boost.Deal.Checkpoints.{Checkpoint}

pub data Retry : Type 0 where
  retry_auto retry_manual retry_fatal : Retry

-- `deal.Retry == DealRetryAuto`.
abbrev pub is_auto : Retry → Bool
is_auto retry_auto = true
is_auto _ = false

pub record DealProposal : Type 0 where
  pub piece_cid : ℕ
  pub piece_size : ℕ
  pub verified_deal : Bool
  pub client : ℕ
  pub provider : ℕ
  pub label_length : ℕ
  pub start_epoch : ℤ
  pub end_epoch : ℤ
  pub storage_price_per_epoch : ℤ
  pub provider_collateral : ℤ
  pub client_collateral : ℤ

pub record Transfer : Type 0 where
  pub transfer_type : ℕ
  pub client_id : ℕ
  pub params : ℕ
  pub size : ℕ

-- The text of an error: the two that the provider sets itself, or that of a failure.
pub data ErrorText : Type 0 where
  cancelled_text : ErrorText
  terminated_text : ErrorText
  failure_text : ℕ → ErrorText

-- `err` is none where `Err` is the empty string.
pub record ProviderDealState : Type 0 where
  pub deal_uuid : ℕ
  pub created_at : ℕ
  pub proposal : DealProposal
  pub is_offline : Bool
  pub cleanup_data : Bool
  pub inbound_file_path : ℕ
  pub transfer : Transfer
  pub chain_deal_id : ℕ
  pub publish_cid : Option ℕ
  pub sector_id : ℕ
  pub offset : ℕ
  pub length : ℕ
  pub checkpoint : Checkpoint
  pub checkpoint_at : ℕ
  pub deal_err : Option ErrorText
  pub retry : Retry
  pub n_bytes_received : ℤ
  pub announce_to_ipni : Bool
