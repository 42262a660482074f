-- ===== src/Accept/Refusals.antt =====
-- What a refusal tells, and what the price check secures.
use boost.Common.{
  ℕ, suc, ◌*◌, ◌/◌, ◌^◌, ◌≤◌, ◌<◌, ◌≡◌, inl, inr, ℤ, pos, ◌*ℤ◌, Bool, true, false, Option, some,
  arith, Option-cases, Result-cases, ok, err, if◌then◌else◌,
}
use boost.Deal.{DealProposal, ProviderDealState}
use boost.Funds.{MarketBalance}
use boost.Accept.Chain.{Chain, ProviderConfig}
use boost.Accept.Validate.{
  ValidationError, chain_head_error, signature_error, collateral_bounds_error, tip_set_key_error,
  market_balance_error, datacap_error, validate_signature, check_origin, check_form, check_epochs,
  check_collateral, min_price, validate_ask, check_client_funds, check_datacap, check_client,
  validate_deal_proposal,
}
use boost.Accept.Conditions.{Acceptable, MeetsAsk, validate_deal_proposal_iff}

abbrev pub is_server_error : ValidationError → Bool
is_server_error chain_head_error = true
is_server_error signature_error = true
is_server_error collateral_bounds_error = true
is_server_error tip_set_key_error = true
is_server_error market_balance_error = true
is_server_error datacap_error = true
is_server_error _ = false

-- No call of the chain fails.
pub record Answers (chain : Chain) : Type 0 where
  pub head : (h : ℕ × ℤ) × (chain.chain_head ≡ some h)
  pub dump : (q : DealProposal) → (b : ℕ) × (chain.dump_proposal q ≡ some b)
  pub verify : (s c b : ℕ) → (v : Bool) × (chain.verify_signature s c b ≡ some v)
  pub bounds : (n : ℕ) (v : Bool) → (m : ℤ) × (chain.collateral_bounds_min n v ≡ some m)
  pub key : (tok : ℕ) → (k : ℕ) × (chain.tip_set_key_from_bytes tok ≡ some k)
  pub balance : (a k : ℕ) → (b : MarketBalance) × (chain.market_balance a k ≡ some b)
  pub status : (a k : ℕ) → (s : Option ℤ) × (chain.verified_client_status a k ≡ some s)

module _ (chain : Chain) (p : ProviderConfig) where
  origin_merit :
      (deal : ProviderDealState) (signature : ℕ) (e : ValidationError)
      → Answers chain
      → check_origin chain p deal signature ≡ err e
      → is_server_error e ≡ false
  unfolding check_origin validate_signature
  origin_merit deal signature e ans h =
      let (head, a) = ans.head in
      let (b, dumped) = ans.dump deal.proposal in
      let (v, verified) = ans.verify signature deal.proposal.client b in
      ground (arith, a, dumped, verified, h)

  form_merit :
      (q : DealProposal) (e : ValidationError)
      → check_form chain p q ≡ err e
      → is_server_error e ≡ false
  unfolding check_form
  form_merit q e h = ground (arith, h)

  epochs_merit :
      (q : DealProposal) (epoch : ℤ) (e : ValidationError)
      → check_epochs chain p q epoch ≡ err e
      → is_server_error e ≡ false
  unfolding check_epochs
  epochs_merit q epoch e h = ground (arith, h)

  collateral_merit :
      (q : DealProposal) (e : ValidationError)
      → Answers chain
      → check_collateral chain p q ≡ err e
      → is_server_error e ≡ false
  unfolding check_collateral
  collateral_merit q e ans h =
      let (m, b) = ans.bounds q.piece_size q.verified_deal in ground (arith, b, h)

  ask_merit :
      (q : DealProposal) (e : ValidationError)
      → validate_ask chain p q ≡ err e
      → is_server_error e ≡ false
  unfolding validate_ask
  ask_merit q e h = ground (arith, h)

  client_merit :
      (q : DealProposal) (tok : ℕ) (e : ValidationError)
      → Answers chain
      → check_client chain p q tok ≡ err e
      → is_server_error e ≡ false
  unfolding check_client check_client_funds check_datacap
  client_merit q tok e ans h =
      let (k, key) = ans.key tok in
      let (b, balance) = ans.balance q.client k in
      let (s, status) = ans.status q.client k in
      elim (Option-cases s) [
        | inl none_ ↦ ground (arith, key, balance, status, none_, h)
        | inr (c, some_) ↦ ground (arith, key, balance, status, some_, h)
      ]

  rounded_down : (n s : ℕ) → n / 2 ^ 30 ≤ s → n < suc s * 2 ^ 30
  rounded_down n s h = omega arith

  -- Where the ask's price for a GiB is a and the proposal's price for an epoch is s, an accepted
  -- piece of fewer than 2 ^ 63 bytes pays at least a for each GiB, up to the rounding of the
  -- price down to a whole number: a * size < (s + 1) * 2 ^ 30. The ask's price is the one
  -- for verified deals where the deal is one.
  pub accepted_price :
      (deal : ProviderDealState) (signature a s : ℕ)
      → (if deal.proposal.verified_deal then p.ask.verified_price else p.ask.price) ≡ pos a
      → deal.proposal.storage_price_per_epoch ≡ pos s
      → deal.proposal.piece_size < 2 ^ 63
      → validate_deal_proposal chain p deal signature ≡ ok tt
      → a * deal.proposal.piece_size < suc s * 2 ^ 30
  unfolding Acceptable MeetsAsk min_price ◌*ℤ◌
  accepted_price deal signature a s ask price small h =
      let (tok, epoch, tsk, o, f, w, c, (m, low, high), key, funds, cap) =
        (validate_deal_proposal_iff chain p deal signature).0 h in
      rounded_down (a * deal.proposal.piece_size) s (ground (arith, m, ask, price, small))

  -- Where every call of the node and of the signature verifier answers, a refusal is never a
  -- server error: it is about the proposal, the client or the ask.
  pub refusal_is_on_merit :
      (deal : ProviderDealState) (signature : ℕ) (e : ValidationError)
      → Answers chain
      → validate_deal_proposal chain p deal signature ≡ err e
      → is_server_error e ≡ false
  unfolding validate_deal_proposal
  refusal_is_on_merit deal signature e ans h =
      let q = deal.proposal in
      elim (Result-cases (check_origin chain p deal signature)) [
        | inr (x, o) ↦ origin_merit deal signature e ans (ground (arith, o, h))
        | inl ((tok, epoch), o) ↦ elim (Result-cases (check_form chain p q)) [
          | inr (x, f) ↦ form_merit q e (ground (arith, o, f, h))
          | inl (_, f) ↦ elim (Result-cases (check_epochs chain p q epoch)) [
            | inr (x, w) ↦ epochs_merit q epoch e (ground (arith, o, f, w, h))
            | inl (_, w) ↦ elim (Result-cases (check_collateral chain p q)) [
              | inr (x, c) ↦ collateral_merit q e ans (ground (arith, o, f, w, c, h))
              | inl (_, c) ↦ elim (Result-cases (validate_ask chain p q)) [
                | inr (x, a) ↦ ask_merit q e (ground (arith, o, f, w, c, a, h))
                | inl (_, a) ↦ client_merit q tok e ans (ground (arith, o, f, w, c, a, h))
              ]
            ]
          ]
        ]
      ]
