-- ===== src/Publisher/Answers.antt =====
-- What the callers of `Publish` are told.
use boost.Common.{
  ℕ, suc, ◌+◌, ℤ, ◌+ℤ◌, ◌≤ℤ◌, ◌≡◌, refl, Bool, true, List, [], ◌∷◌, ◌++◌, some, length, map, ok,
  arith, count_if, Result-cases, inl, inr, ltb_ℤ, ◌∙◌, ap,
}
use boost.Common.Refusal.{or_refuse-ok, refuse_if-ok}
use boost.Deal.{DealProposal}
use boost.Publisher.Queue.{PendingDeal}
use boost.Publisher.Send.{
  cid_error, head_error, start_passed, miner_error, params_error, address_error, simulation_error,
  PublishApi, Published, validate_deal, publish_deal_proposals, validate_ready, complete_all,
  publish_ready,
}

abbrev pub answered : List (PendingDeal × Published) → List PendingDeal
answered [] = []
answered ((pd, r) ∷ l) = pd ∷ answered l

module _ (api : PublishApi) where
  -- What `validateDeal` finds of a deal at the k-th validation.
  pub record Publishable (k : ℕ) (deal : DealProposal) : Type 0 where
    pub height : ℤ
    pub head : api.chain_head k ≡ some height
    pub in_time : (height +ℤ api.start_epoch_sealing_buffer) ≤ℤ deal.start_epoch
    pub mi : ℕ
    pub info : api.miner_info k deal.provider ≡ some mi
    pub params : ℕ
    pub serialized : api.serialize_params (deal ∷ []) ≡ some params
    pub addr : ℕ
    pub from : api.address_for k mi ≡ some addr
    pub simulated : api.state_call k addr params ≡ some true

  pub validate_deal-Publishable :
      (k : ℕ) (deal : DealProposal) → validate_deal api k deal ≡ ok tt → Publishable k deal
  unfolding validate_deal
  validate_deal-Publishable k deal h =
      let (c, _, h1) = or_refuse-ok (api.proposal_cid deal) cid_error _ h in
      let (height, head, h2) = or_refuse-ok (api.chain_head k) head_error _ h1 in
      let (early, h3) =
        refuse_if-ok (ltb_ℤ deal.start_epoch (height +ℤ api.start_epoch_sealing_buffer))
          start_passed _ h2 in
      let (mi, info, h4) = or_refuse-ok (api.miner_info k deal.provider) miner_error _ h3 in
      let (params, serialized, h5) =
        or_refuse-ok (api.serialize_params (deal ∷ [])) params_error _ h4 in
      let (addr, from, h6) = or_refuse-ok (api.address_for k mi) address_error _ h5 in
      let (succeeded, simulated, h7) =
        or_refuse-ok (api.state_call k addr params) simulation_error _ h6 in
      let exit : succeeded ≡ true = ground (arith, h7) in
      record {
        height = height;
        head = head;
        in_time = ground (arith, early);
        mi = mi;
        info = info;
        params = params;
        serialized = serialized;
        addr = addr;
        from = from;
        simulated = simulated ∙ ap some exit;
      }

  module _ (q : PendingDeal → Bool) where
    answered_append :
        (xs ys : List (PendingDeal × Published))
        → count_if q (answered (xs ++ ys)) ≡ count_if q (answered xs) + count_if q (answered ys)
    answered_append [] ys = omega arith
    answered_append ((pd, r) ∷ xs) ys = ground (arith, answered_append xs ys)

    answered_all :
        (r : Published) (ds : List PendingDeal)
        → count_if q (answered (complete_all api r ds)) ≡ count_if q ds
    unfolding complete_all
    answered_all r [] = refl
    answered_all r (pd ∷ ds) = ground (arith, answered_all r ds)

    split :
        (k : ℕ) (ready : List PendingDeal)
        → let (validated, failed) = validate_ready api k ready in
          count_if q (answered failed) + count_if q validated ≡ count_if q ready
    unfolding validate_ready
    split k [] = refl
    split k (pd ∷ ready) = elim (Result-cases (validate_deal api k pd.deal)) [
      | inl (a, e) ↦ ground (arith, e, split (suc k) ready)
      | inr (x, e) ↦ ground (arith, e, split (suc k) ready)
    ]

    -- Each deal of a batch gets one answer and no other deal gets one: of the deals that are
    -- answered as many pass any test as of the batch.
    pub publish_ready-answers :
        (ready : List PendingDeal)
        → count_if q (answered (publish_ready api ready)) ≡ count_if q ready
    unfolding publish_ready
    publish_ready-answers ready =
        let (validated, failed) = validate_ready api 0 ready in
        let r : Published =
          publish_deal_proposals api (length ready)
            (map (λ (pd : PendingDeal). pd.deal) validated) in
        omega (
          arith,
          answered_append failed (complete_all api r validated),
          answered_all r validated,
          split 0 ready,
        )
