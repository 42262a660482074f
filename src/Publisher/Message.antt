-- ===== src/Publisher/Message.antt =====
-- What was published when a caller of `Publish` is told the cid of a message.
use boost.Common.{
  ℕ, suc, ◌≡◌, ◌⊎◌, inl, inr, Bool-cases, false, not, List, [], ◌∷◌, ◌++◌, some, ◌==◌, ==_iff,
  length, map, ok, arith, All, Result-cases, ap, sym, ◌∙◌,
}
use boost.Common.Refusal.{or_refuse-ok, refuse_if-ok}
use boost.Deal.{DealProposal}
use boost.Publisher.Queue.{PendingDeal}
use boost.Publisher.Send.{
  miner_error, params_error, address_error, push_error, provider_mismatch, PublishApi, Published,
  validate_deal, same_provider, publish_deal_proposals, validate_ready, complete_all, publish_ready,
}
use boost.Publisher.Answers.{Publishable, validate_deal-Publishable}

abbrev pub Among : {A : Type 0} → A → List A → Type 0
Among a [] = ⊥
Among a (x ∷ xs) = (a ≡ x) ⊎ Among a xs

Among-append : {A : Type 0} (a : A) (xs ys : List A) → Among a (xs ++ ys) → Among a xs ⊎ Among a ys
Among-append a [] ys m = inr m
Among-append a (x ∷ xs) ys (inl e) = inl (inl e)
Among-append a (x ∷ xs) ys (inr m) = elim (Among-append a xs ys m) [
  | inl l ↦ inl (inr l)
  | inr r ↦ inr r
]

abbrev pub proposals : List PendingDeal → List DealProposal
proposals ds = map (λ (pd : PendingDeal). pd.deal) ds

module _ (api : PublishApi) where
  -- A message with the cid `c` that was pushed with these deals.
  pub record Message (c : ℕ) (deals : List PendingDeal) : Type 0 where
    pub provider : ℕ
    pub one_provider : All (λ pd. pd.deal.provider ≡ provider) deals
    pub valid : All (λ pd. (k : ℕ) × Publishable api k pd.deal) deals
    pub params : ℕ
    pub serialized : api.serialize_params (proposals deals) ≡ some params
    pub addr : ℕ
    pub pushed : api.push_message addr params ≡ some c

  all_same :
      (provider : ℕ) (ds : List PendingDeal)
      → not (same_provider api provider (proposals ds)) ≡ false
      → All (λ pd. pd.deal.provider ≡ provider) ds
  unfolding same_provider
  all_same provider [] h = tt
  all_same provider (pd ∷ ds) h = elim (Bool-cases (pd.deal.provider == provider)) [
    | inl e ↦ ((==_iff _ provider).0 e, all_same provider ds (ground (arith, h, e)))
    | inr e ↦ absurd (ground (arith, h, e))
  ]

  publish_deal_proposals-Message :
      (k c : ℕ) (ds : List PendingDeal)
      → All (λ pd. (j : ℕ) × Publishable api j pd.deal) ds
      → publish_deal_proposals api k (proposals ds) ≡ ok (some c)
      → Message c ds
  unfolding publish_deal_proposals
  publish_deal_proposals-Message k c [] v h = absurd (ground (arith, h))
  publish_deal_proposals-Message k c (pd ∷ ds) v h =
      let first : DealProposal = pd.deal in
      let (same, h1) =
        refuse_if-ok (not (same_provider api first.provider (first ∷ proposals ds)))
          provider_mismatch _ h in
      let (mi, info, h2) = or_refuse-ok (api.miner_info k first.provider) miner_error _ h1 in
      let (params, serialized, h3) =
        or_refuse-ok (api.serialize_params (first ∷ proposals ds)) params_error _ h2 in
      let (addr, from, h4) = or_refuse-ok (api.address_for k mi) address_error _ h3 in
      let (d, pushed, h5) = or_refuse-ok (api.push_message addr params) push_error _ h4 in
      let named : d ≡ c = ground (arith, h5) in
      record {
        provider = first.provider;
        one_provider = all_same first.provider (pd ∷ ds) same;
        valid = v;
        params = params;
        serialized = serialized;
        addr = addr;
        pushed = pushed ∙ ap some named;
      }

  -- What `validateDeal` lets pass is publishable, and the others are told an error.
  validated-Publishable :
      (k : ℕ) (ready : List PendingDeal)
      → All (λ pd. (j : ℕ) × Publishable api j pd.deal) (validate_ready api k ready).0
  unfolding validate_ready
  validated-Publishable k [] = tt
  validated-Publishable k (pd ∷ ready) = elim (Result-cases (validate_deal api k pd.deal)) [
    | inl (tt, e) ↦
        rw (e, validate_ready)
          ((k, validate_deal-Publishable api k pd.deal e), validated-Publishable (suc k) ready)
    | inr (x, e) ↦ rw (e, validate_ready) (validated-Publishable (suc k) ready)
  ]

  failed-err :
      (k c : ℕ) (pd : PendingDeal) (ready : List PendingDeal)
      → ¬ Among (pd, ok (some c)) (validate_ready api k ready).1
  unfolding validate_ready
  failed-err k c pd [] m = m
  failed-err k c pd (x ∷ ready) m = elim (Result-cases (validate_deal api k x.deal)) [
    | inl (a, e) ↦ ground (arith, e, m, failed-err (suc k) c pd ready)
    | inr (y, e) ↦ ground (arith, e, m, failed-err (suc k) c pd ready)
  ]

  among_completed :
      (pd : PendingDeal) (r res : Published) (ds : List PendingDeal)
      → Among (pd, r) (complete_all api res ds)
      → (r ≡ res) × Among pd ds
  unfolding complete_all
  among_completed pd r res [] m = absurd m
  among_completed pd r res (x ∷ ds) (inl e) = (ap (λ a. a.1) e, inl (ap (λ a. a.0) e))
  among_completed pd r res (x ∷ ds) (inr m) =
      let (e, a) = among_completed pd r res ds m in (e, inr a)

  -- A caller who is told the cid of a message has its deal among the deals of one message that was
  -- pushed under that cid: all deals of that message have one provider, and each was found, at a
  -- head that leaves the sealing buffer before its start epoch, to be published without error when
  -- simulated.
  pub publish_ready-Message :
      (ready : List PendingDeal) (pd : PendingDeal) (c : ℕ)
      → Among (pd, ok (some c)) (publish_ready api ready)
      → (deals : List PendingDeal) × Message c deals × Among pd deals
  unfolding publish_ready
  publish_ready-Message ready pd c m =
      let (validated, failed) = validate_ready api 0 ready in
      let res : Published = publish_deal_proposals api (length ready) (proposals validated) in
      elim (Among-append (pd, ok (some c)) failed (complete_all api res validated) m) [
        | inl l ↦ absurd (failed-err 0 c pd ready l)
        | inr r ↦
            let (e, a) = among_completed pd (ok (some c)) res validated r in
            (
              validated,
              publish_deal_proposals-Message (length ready) c validated
                  (validated-Publishable 0 ready) (sym e),
              a,
            )
      ]
