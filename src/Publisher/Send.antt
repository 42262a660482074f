-- ===== src/Publisher/Send.antt =====
-- markets/storageadapter/dealpublisher.go: from a batch of deals to the message and the answers.
use boost.Common.{
  ℕ, suc, ℤ, ◌+ℤ◌, ltb_ℤ, Bool, true, not, ◌&&◌, List, [], ◌∷◌, ◌++◌, Option, none, some, ◌==◌,
  length, map, Result, ok, err,
}
use boost.Common.Refusal.{◌>>=◌, ◌>>◌, refuse_if, or_refuse}
use boost.Deal.{DealProposal}
use boost.Publisher.Queue.{PendingDeal}

-- One constructor for each `return` of an error.
pub data PublishError : Type 0 where
  cid_error head_error start_passed miner_error params_error address_error : PublishError
  simulation_error nonzero_exit provider_mismatch push_error : PublishError

-- The full node, the address selector and the serialiser, which are asked anew for each deal that
-- is validated, and for the message; the first number counts these. `none` is an error.
pub record PublishApi : Type 0 where
  pub start_epoch_sealing_buffer : ℤ
  pub proposal_cid : DealProposal → Option ℕ
  pub chain_head : ℕ → Option ℤ
  pub miner_info : ℕ → ℕ → Option ℕ
  pub serialize_params : List DealProposal → Option ℕ
  pub address_for : ℕ → ℕ → Option ℕ
  pub state_call : ℕ → ℕ → ℕ → Option Bool
  pub push_message : ℕ → ℕ → Option ℕ

-- `publishResult`: the cid of the message, none for `cid.Undef`.
abbrev pub Published : Type 0
Published = Result PublishError (Option ℕ)

module _ (api : PublishApi) where
  unfoldable pub validate_deal : ℕ → DealProposal → Result PublishError (Unit {0})
  validate_deal k deal = do
    or_refuse (api.proposal_cid deal) cid_error
    height ← or_refuse (api.chain_head k) head_error
    refuse_if (ltb_ℤ deal.start_epoch (height +ℤ api.start_epoch_sealing_buffer)) start_passed
    mi ← or_refuse (api.miner_info k deal.provider) miner_error
    params ← or_refuse (api.serialize_params (deal ∷ [])) params_error
    addr ← or_refuse (api.address_for k mi) address_error
    succeeded ← or_refuse (api.state_call k addr params) simulation_error
    refuse_if (not succeeded) nonzero_exit

  -- `dl.Proposal.Provider != provider` for no deal.
  unfoldable pub same_provider : ℕ → List DealProposal → Bool
  same_provider provider [] = true
  same_provider provider (dl ∷ deals) = dl.provider == provider && same_provider provider deals

  unfoldable pub publish_deal_proposals : ℕ → List DealProposal → Published
  unfolding same_provider
  publish_deal_proposals k [] = ok none
  publish_deal_proposals k (first ∷ deals) = do
    refuse_if (not (same_provider first.provider (first ∷ deals))) provider_mismatch
    mi ← or_refuse (api.miner_info k first.provider) miner_error
    params ← or_refuse (api.serialize_params (first ∷ deals)) params_error
    addr ← or_refuse (api.address_for k mi) address_error
    c ← or_refuse (api.push_message addr params) push_error
    ok (some c)

  -- The deals that can be published, and the answers to the others.
  unfoldable pub validate_ready :
      ℕ → List PendingDeal → List PendingDeal × List (PendingDeal × Published)
  unfolding validate_deal
  validate_ready k [] = ([], [])
  validate_ready k (pd ∷ ready) =
      let (validated, failed) = validate_ready (suc k) ready in
      elim (validate_deal k pd.deal) [
        | ok _ ↦ (pd ∷ validated, failed)
        | err e ↦ (validated, (pd, err e) ∷ failed)
      ]

  unfoldable pub complete_all : Published → List PendingDeal → List (PendingDeal × Published)
  complete_all res [] = []
  complete_all res (pd ∷ validated) = (pd, res) ∷ complete_all res validated

  -- Every answer that `onComplete` is called with.
  unfoldable pub publish_ready : List PendingDeal → List (PendingDeal × Published)
  unfolding validate_ready publish_deal_proposals complete_all
  publish_ready ready =
      let (validated, failed) = validate_ready 0 ready in
      failed
      ++ complete_all
          (publish_deal_proposals (length ready) (map (λ (pd : PendingDeal). pd.deal) validated))
          validated
