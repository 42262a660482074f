-- ===== src/Accept/Validate.antt =====
-- storagemarket/deal_acceptance.go: `validateDealProposal`, in the order of its checks.
use Prim.Native.String.{String}
use boost.Common.{
  to_int64, ℕ, ◌^◌, ℤ, pos, ◌+ℤ◌, ◌*ℤ◌, ltb_ℤ, Bool, not, ◌||◌, Option, none, some, ltb, ◌==◌,
  if◌then◌else◌, Result, ok,
}
use boost.Common.Refusal.{◌>>=◌, ◌>>◌, refuse_if, or_refuse}
use boost.Deal.{DealProposal, ProviderDealState}
use boost.Accept.Chain.{Chain, ProviderConfig, div_ℤ, available_balance}

-- One constructor for each `return` of an error.
pub data ValidationError : Type 0 where
  chain_head_error signature_error collateral_bounds_error tip_set_key_error : ValidationError
  market_balance_error datacap_error : ValidationError
  piece_cid_undefined invalid_signature incorrect_provider label_too_long : ValidationError
  piece_size_invalid wrong_cid_prefix end_before_start start_elapsed : ValidationError
  duration_out_of_bounds end_too_far collateral_too_low collateral_too_high : ValidationError
  price_too_low piece_too_small piece_too_large insufficient_client_funds : ValidationError
  not_a_verified_client datacap_too_small : ValidationError

abbrev pub Check : Type 0 → Type 0
Check A = Result ValidationError A

-- `reason`, which is sent to the client; where it is empty the client gets the error's own text.
unfoldable pub reason : ValidationError → String
reason chain_head_error = "server error: getting chain head"
reason signature_error = "server error: validating signature"
reason invalid_signature = "invalid signature"
reason collateral_bounds_error = "server error: getting collateral bounds"
reason tip_set_key_error = "server error: tip set key from bytes"
reason market_balance_error = "server error: getting market balance"
reason datacap_error = "server error: getting verified datacap"
reason not_a_verified_client = "client is not a verified client"
reason _ = ""

abbrev pub deal_max_label_size : ℕ
deal_max_label_size = 256

module _ (chain : Chain) (p : ProviderConfig) where
  unfoldable pub validate_signature : ProviderDealState → ℕ → Option Bool
  validate_signature deal signature = elim (chain.dump_proposal deal.proposal) [
    | none ↦ none
    | some b ↦ chain.verify_signature signature deal.proposal.client b
  ]

  -- From the chain head to the signature; gives the current epoch and the key of the head.
  unfoldable pub check_origin : ProviderDealState → ℕ → Check (ℕ × ℤ)
  check_origin deal signature = do
    head ← or_refuse chain.chain_head chain_head_error
    refuse_if (not (chain.cid_defined deal.proposal.piece_cid)) piece_cid_undefined
    verified ← or_refuse (validate_signature deal signature) signature_error
    refuse_if (not verified) invalid_signature
    ok head

  -- The fields of the proposal that are checked by themselves.
  unfoldable pub check_form : DealProposal → Check (Unit {0})
  check_form q = do
    refuse_if (not (q.provider == p.address)) incorrect_provider
    refuse_if (ltb deal_max_label_size q.label_length) label_too_long
    refuse_if (not (chain.piece_size_valid q.piece_size)) piece_size_invalid
    refuse_if (not (chain.has_piece_prefix q.piece_cid)) wrong_cid_prefix

  unfoldable pub check_epochs : DealProposal → ℤ → Check (Unit {0})
  check_epochs q cur_epoch = do
    refuse_if (not (ltb_ℤ q.start_epoch q.end_epoch)) end_before_start
    refuse_if (ltb_ℤ q.start_epoch cur_epoch) start_elapsed
    let (min_duration, max_duration) = chain.deal_duration_bounds q.piece_size
    refuse_if (ltb_ℤ (chain.duration q) min_duration || ltb_ℤ max_duration (chain.duration q))
        duration_out_of_bounds
    refuse_if (ltb_ℤ (cur_epoch +ℤ chain.max_sector_expiration_extension) q.end_epoch) end_too_far

  unfoldable pub check_collateral : DealProposal → Check (Unit {0})
  check_collateral q = do
    min ←
        or_refuse (chain.collateral_bounds_min q.piece_size q.verified_deal) collateral_bounds_error
    let max = min *ℤ pos p.max_deal_collateral_multiplier
    refuse_if (ltb_ℤ q.provider_collateral min) collateral_too_low
    refuse_if (ltb_ℤ max q.provider_collateral) collateral_too_high

  -- The price of the whole piece for an epoch, by the ask's price for a GiB.
  unfoldable pub min_price : DealProposal → ℤ
  min_price q =
      let ask_price = if q.verified_deal then p.ask.verified_price else p.ask.price in
      div_ℤ (ask_price *ℤ to_int64 q.piece_size) (2 ^ 30)

  unfoldable pub validate_ask : DealProposal → Check (Unit {0})
  validate_ask q = do
    refuse_if (ltb_ℤ q.storage_price_per_epoch (min_price q)) price_too_low
    refuse_if (ltb q.piece_size p.ask.min_piece_size) piece_too_small
    refuse_if (ltb p.ask.max_piece_size q.piece_size) piece_too_large

  unfoldable pub check_client_funds : DealProposal → ℕ → Check (Unit {0})
  check_client_funds q tsk = do
    bal ← or_refuse (chain.market_balance q.client tsk) market_balance_error
    refuse_if (ltb_ℤ (available_balance bal) (chain.client_balance_requirement q))
        insufficient_client_funds

  unfoldable pub check_datacap : DealProposal → ℕ → Check (Unit {0})
  check_datacap q tsk =
      if q.verified_deal
      then (do
        status ← or_refuse (chain.verified_client_status q.client tsk) datacap_error
        data_cap ← or_refuse status not_a_verified_client
        refuse_if (ltb_ℤ data_cap (pos q.piece_size)) datacap_too_small)
      else ok tt

  -- The checks that read the chain at the head's key.
  unfoldable pub check_client : DealProposal → ℕ → Check (Unit {0})
  check_client q tok = do
    tsk ← or_refuse (chain.tip_set_key_from_bytes tok) tip_set_key_error
    check_client_funds q tsk
    check_datacap q tsk

  unfoldable pub validate_deal_proposal : ProviderDealState → ℕ → Check (Unit {0})
  validate_deal_proposal deal signature = do
    (tok, cur_epoch) ← check_origin deal signature
    check_form deal.proposal
    check_epochs deal.proposal cur_epoch
    check_collateral deal.proposal
    validate_ask deal.proposal
    check_client deal.proposal tok
