-- ===== src/Accept/Conditions.antt =====
-- What a proposal has to be: the conditions on the fields, and what the chain must answer.
use boost.Common.{
  ℕ, ◌+◌, ◌≤◌, ◌<◌, ◌≡◌, ◌↔◌, ◌⊎◌, inl, inr, ℤ, pos, pos_part, neg_part, ◌+ℤ◌, ◌*ℤ◌, ◌≤ℤ◌, true,
  false, some, arith, Option-cases, Bool-cases, Result-cases, ok,
}
use boost.Deal.{DealProposal, ProviderDealState}
use boost.Accept.Chain.{Chain, ProviderConfig, available_balance}
use boost.Accept.Validate.{
  validate_signature, check_origin, check_form, check_epochs, check_collateral, min_price,
  validate_ask, check_client_funds, check_datacap, check_client, validate_deal_proposal,
}

infix 50 ◌<ℤ◌
abbrev pub ◌<ℤ◌ : ℤ → ℤ → Type 0
a <ℤ b = pos_part a + neg_part b < pos_part b + neg_part a

module _ (chain : Chain) (p : ProviderConfig) where
  pub Origin : ProviderDealState → ℕ → ℕ → ℤ → Type 0
  Origin deal signature tok epoch =
      (chain.chain_head ≡ some (tok, epoch))
      × (chain.cid_defined deal.proposal.piece_cid ≡ true)
      × (validate_signature chain p deal signature ≡ some true)

  pub Form : DealProposal → Type 0
  Form q =
      (q.provider ≡ p.address)
      × (q.label_length ≤ 256)
      × (chain.piece_size_valid q.piece_size ≡ true)
      × (chain.has_piece_prefix q.piece_cid ≡ true)

  pub Epochs : DealProposal → ℤ → Type 0
  Epochs q epoch =
      (q.start_epoch <ℤ q.end_epoch)
      × (epoch ≤ℤ q.start_epoch)
      × ((chain.deal_duration_bounds q.piece_size).0 ≤ℤ chain.duration q)
      × (chain.duration q ≤ℤ (chain.deal_duration_bounds q.piece_size).1)
      × (q.end_epoch ≤ℤ epoch +ℤ chain.max_sector_expiration_extension)

  pub Collateral : DealProposal → Type 0
  Collateral q =
      (min : ℤ) × (chain.collateral_bounds_min q.piece_size q.verified_deal ≡ some min)
      × (min ≤ℤ q.provider_collateral)
      × (q.provider_collateral ≤ℤ min *ℤ pos p.max_deal_collateral_multiplier)

  unfoldable pub MeetsAsk : DealProposal → Type 0
  MeetsAsk q =
      (min_price chain p q ≤ℤ q.storage_price_per_epoch)
      × (p.ask.min_piece_size ≤ q.piece_size)
      × (q.piece_size ≤ p.ask.max_piece_size)

  pub ClientFunds : DealProposal → ℕ → Type 0
  ClientFunds q tsk =
      (escrow : ℤ) × (locked : ℤ) × (chain.market_balance q.client tsk
        ≡ some (record { escrow = escrow; market_locked = locked }))
      × (chain.client_balance_requirement q
          ≤ℤ available_balance (record { escrow = escrow; market_locked = locked }))

  pub Datacap : DealProposal → ℕ → Type 0
  Datacap q tsk =
      (q.verified_deal ≡ false)
      ⊎ ((cap : ℤ) × (chain.verified_client_status q.client tsk ≡ some (some cap))
          × (pos q.piece_size ≤ℤ cap))

  Form-iff : (q : DealProposal) → (check_form chain p q ≡ ok tt) ↔ Form q
  unfolding check_form Form
  Form-iff q = (λ h. ground (arith, h), λ c. ground (arith, c))

  Epochs-iff :
      (q : DealProposal) (epoch : ℤ) → (check_epochs chain p q epoch ≡ ok tt) ↔ Epochs q epoch
  unfolding check_epochs Epochs
  Epochs-iff q epoch = (λ h. ground (arith, h), λ c. ground (arith, c))

  ask_iff : (q : DealProposal) → (validate_ask chain p q ≡ ok tt) ↔ MeetsAsk q
  unfolding validate_ask MeetsAsk
  ask_iff q = (λ h. ground (arith, h), λ c. ground (arith, c))

  unfoldable pub Acceptable : ProviderDealState → ℕ → Type 0
  Acceptable deal signature =
      (tok : ℕ) × (epoch : ℤ) × (tsk : ℕ) × Origin deal signature tok epoch
      × Form deal.proposal
      × Epochs deal.proposal epoch
      × Collateral deal.proposal
      × MeetsAsk deal.proposal
      × (chain.tip_set_key_from_bytes tok ≡ some tsk)
      × ClientFunds deal.proposal tsk
      × Datacap deal.proposal tsk

  Origin-iff :
      (deal : ProviderDealState) (signature tok : ℕ) (epoch : ℤ)
      → (check_origin chain p deal signature ≡ ok (tok, epoch)) ↔ Origin deal signature tok epoch
  unfolding check_origin Origin
  Origin-iff deal signature tok epoch = (λ h. ground (arith, h), λ c. ground (arith, c))

  Collateral-iff : (q : DealProposal) → (check_collateral chain p q ≡ ok tt) ↔ Collateral q
  unfolding check_collateral Collateral
  Collateral-iff q = (
    λ h. elim (Option-cases (chain.collateral_bounds_min q.piece_size q.verified_deal)) [
      | inl e ↦ absurd (ground (arith, e, h))
      | inr (min, e) ↦ (min, e, ground (arith, e, h), ground (arith, e, h))
    ],
    λ (min, e, low, high). ground (arith, e, low, high),
  )

  funds_iff :
      (q : DealProposal) (tsk : ℕ) → (check_client_funds chain p q tsk ≡ ok tt) ↔ ClientFunds q tsk
  unfolding check_client_funds ClientFunds
  funds_iff q tsk = (
    λ h. elim (Option-cases (chain.market_balance q.client tsk)) [
      | inl e ↦ absurd (ground (arith, e, h))
      | inr (bal, e) ↦ (bal.escrow, bal.market_locked, e, ground (arith, e, h))
    ],
    λ (escrow, locked, e, c). ground (arith, e, c),
  )

  Datacap-iff : (q : DealProposal) (tsk : ℕ) → (check_datacap chain p q tsk ≡ ok tt) ↔ Datacap q tsk
  unfolding check_datacap Datacap
  Datacap-iff q tsk = (
    λ h. elim (Bool-cases q.verified_deal) [ inr v ↦ inl v | inl v ↦ inr (needed v h) ],
    λ c. elim c [ inl v ↦ ground (arith, v) | inr (cap, e, low) ↦ ground (arith, e, low) ],
  )
    where
      needed :
          q.verified_deal ≡ true
          → check_datacap chain p q tsk ≡ ok tt
          → (cap : ℤ) × (chain.verified_client_status q.client tsk ≡ some (some cap))
            × (pos q.piece_size ≤ℤ cap)
      needed v h = elim (Option-cases (chain.verified_client_status q.client tsk)) [
        | inl e ↦ absurd (ground (arith, e, h, v))
        | inr (status, e) ↦ elim (Option-cases status) [
          | inl e' ↦ absurd (ground (arith, e, e', h, v))
          | inr (cap, e') ↦ (cap, ground (arith, e, e'), ground (arith, e, e', h, v))
        ]
      ]

  client_iff :
      (q : DealProposal) (tok : ℕ)
      → (check_client chain p q tok ≡ ok tt) ↔ (
          (tsk : ℕ) × (chain.tip_set_key_from_bytes tok ≡ some tsk)
          × ClientFunds q tsk
          × Datacap q tsk)
  unfolding check_client
  client_iff q tok = (
    λ h. elim (Option-cases (chain.tip_set_key_from_bytes tok)) [
      | inl e ↦ absurd (ground (arith, e, h))
      | inr (tsk, e) ↦
          let funds : check_client_funds chain p q tsk ≡ ok tt = ground (arith, e, h) in
          let cap : check_datacap chain p q tsk ≡ ok tt = ground (arith, e, funds, h) in
          (tsk, e, (funds_iff q tsk).0 funds, (Datacap-iff q tsk).0 cap)
    ],
    λ (tsk, e, funds, cap). ground (arith, e, (funds_iff q tsk).1 funds, (Datacap-iff q tsk).1 cap),
  )

  -- A proposal is accepted exactly when: the node gives a head; the piece cid is defined and the
  -- client's signature verifies; provider, label, piece size and cid prefix are as they must be;
  -- the deal starts before it ends, not before the current epoch, with a duration in the bounds
  -- and an end that is not too far; the collateral lies between the node's minimum and the
  -- configured multiple of it; price and size meet the ask; and, at the head's key, the client's
  -- available balance covers its requirement and, for a verified deal, its datacap the piece.
  pub validate_deal_proposal_iff :
      (deal : ProviderDealState) (signature : ℕ)
      → (validate_deal_proposal chain p deal signature ≡ ok tt) ↔ Acceptable deal signature
  unfolding validate_deal_proposal Acceptable
  validate_deal_proposal_iff deal signature = (accepted, acceptable)
    where
      q : DealProposal
      q = deal.proposal

      accepted : validate_deal_proposal chain p deal signature ≡ ok tt → Acceptable deal signature
      accepted h = elim (Result-cases (check_origin chain p deal signature)) [
        | inr (e, o) ↦ absurd (ground (arith, o, h))
        | inl ((tok, epoch), o) ↦
            let f : check_form chain p q ≡ ok tt = ground (arith, o, h) in
            let w : check_epochs chain p q epoch ≡ ok tt = ground (arith, o, f, h) in
            let c : check_collateral chain p q ≡ ok tt = ground (arith, o, f, w, h) in
            let a : validate_ask chain p q ≡ ok tt = ground (arith, o, f, w, c, h) in
            let r : check_client chain p q tok ≡ ok tt = ground (arith, o, f, w, c, a, h) in
            let (tsk, key, funds, cap) = (client_iff q tok).0 r in
            (
              tok,
              epoch,
              tsk,
              (Origin-iff deal signature tok epoch).0 o,
              (Form-iff q).0 f,
              (Epochs-iff q epoch).0 w,
              (Collateral-iff q).0 c,
              (ask_iff q).0 a,
              key,
              funds,
              cap,
            )
      ]

      acceptable : Acceptable deal signature → validate_deal_proposal chain p deal signature ≡ ok tt
      acceptable (tok, epoch, tsk, o, f, w, c, a, key, funds, cap) = ground (
        arith,
        (Origin-iff deal signature tok epoch).1 o,
        (Form-iff q).1 f,
        (Epochs-iff q epoch).1 w,
        (Collateral-iff q).1 c,
        (ask_iff q).1 a,
        (client_iff q tok).1 (tsk, key, funds, cap),
      )
