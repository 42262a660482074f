-- ===== src/Funds/Solvency.antt =====
-- `TagFunds` never reserves more than the provider has.
use boost.Common.{
  ℕ, ◌≡◌, ◌⊎◌, inl, inr, true, [], ◌∷◌, ◌++◌, List, some, ok, arith, Driver, Result-cases, >>=-ok,
  ap, ap₂, sym, ◌∙◌, ◌>>=◌, ℤ, ◌+ℤ◌, ◌-ℤ◌, ◌≤ℤ◌, int_laws,
}
use boost.Deal.{DealProposal}
use boost.Funds.Ledger.{TaggedFunds, FundsAction, FundsDb, TotalTagged, db_funds_tagged}
use boost.Funds.Manager.{
  FundsConfig, MarketBalance, Balance, Node, TagFundsResp, to_shared_balance, balance_market,
  balance_publish_msg, persist_funds, reserve, tag_against, tag_funds,
}
use boost.Funds.Sums.{
  collateral_sum, pub_msg_sum, add_rows_totals, collateral_sum-append, pub_msg_sum-append,
}

-- The row that a call of `TagFunds` adds.
abbrev pub new_funds : Driver → ℕ → ℕ → ℤ → ℤ → TaggedFunds
new_funds d n deal collateral pub_msg = record {
  deal = deal;
  created_at = d.clock n;
  collateral = collateral;
  pub_msg = pub_msg;
}

abbrev pub Adds : List TaggedFunds → TaggedFunds → List TaggedFunds → Type 0
Adds rows row rows' = (rows' ≡ rows) ⊎ (rows' ≡ rows ++ row ∷ [])

covered : (avail c tag c' : ℤ) → tag ≤ℤ avail -ℤ c → c' ≡ c +ℤ tag → c' ≤ℤ avail
covered avail c tag c' h e = rw e (omega int_laws)

remains : (avail c tag : ℤ) → avail -ℤ c -ℤ tag ≡ avail -ℤ (c +ℤ tag)
remains avail c tag = omega int_laws

module _ (d : Driver) (node : Node) (cfg : FundsConfig) where
  pub persist_funds-Adds :
      (deal : ℕ) (a b : ℤ) (db : FundsDb)
      → Adds db.tagged
          (new_funds d db.statements deal a b)
          (persist_funds d node cfg deal a b db).1.tagged
  unfolding persist_funds
  persist_funds-Adds deal a b db = ground arith

  persist_funds-ok :
      (deal : ℕ) (a b : ℤ) (db : FundsDb)
      → (persist_funds d node cfg deal a b db).0 ≡ ok tt
      → (persist_funds d node cfg deal a b db).1.tagged
        ≡ db.tagged ++ new_funds d db.statements deal a b ∷ []
  unfolding persist_funds
  persist_funds-ok deal a b db h = ground arith

  reserve-ok :
      (deal : ℕ) (p : DealProposal) (a b : ℤ) (db : FundsDb) (tags : ℤ × ℤ)
      → cfg.enabled ≡ true
      → (reserve d node cfg deal p a b db).0 ≡ ok tags
      → (tags.0 ≡ node.provider_balance_requirement p)
        × (tags.1 ≡ cfg.pub_msg_bal_min)
        × (tags.0 ≤ℤ a)
        × (tags.1 ≤ℤ b)
        × ((reserve d node cfg deal p a b db).1.tagged
            ≡ db.tagged ++ new_funds d db.statements deal tags.0 tags.1 ∷ [])
  unfolding reserve
  reserve-ok deal p a b db tags e h =
      ground
        (arith, persist_funds-ok deal (node.provider_balance_requirement p) cfg.pub_msg_bal_min db)

  pub db_funds_tagged-tagged : (db : FundsDb) → (db_funds_tagged d db).1.tagged ≡ db.tagged
  unfolding db_funds_tagged
  db_funds_tagged-tagged db = ground arith

  db_funds_tagged-ok :
      (db : FundsDb) (t : TotalTagged)
      → (db_funds_tagged d db).0 ≡ ok t
      → (t.collateral ≡ collateral_sum db.tagged) × (t.pub_msg ≡ pub_msg_sum db.tagged)
  unfolding db_funds_tagged
  db_funds_tagged-ok db t h = ground (arith, add_rows_totals db.tagged)

  balance_market-ok :
      (db : FundsDb) (bal : MarketBalance)
      → node.state_market_balance cfg.storage_miner db.statements ≡ some bal
      → balance_market d node cfg db ≡ (ok (to_shared_balance bal), db)
  unfolding balance_market
  balance_market-ok db bal h = rw h

  balance_publish_msg-ok :
      (db : FundsDb) (w : ℤ)
      → node.wallet_balance cfg.pub_msg_wallet db.statements ≡ some w
      → balance_publish_msg d node cfg db ≡ (ok w, db)
  unfolding balance_publish_msg
  balance_publish_msg-ok db w h = rw h

  -- What a call that tags funds leaves, with `bal` in escrow and `w` in the publish wallet.
  pub record Solvent (p : DealProposal) (bal : MarketBalance) (w : ℤ) (db db' : FundsDb)
      (resp : TagFundsResp) : Type 0 where
    pub collateral_tagged :
        collateral_sum db'.tagged ≡ collateral_sum db.tagged +ℤ node.provider_balance_requirement p
    pub pub_msg_tagged : pub_msg_sum db'.tagged ≡ pub_msg_sum db.tagged +ℤ cfg.pub_msg_bal_min
    pub collateral_covered : collateral_sum db'.tagged ≤ℤ bal.escrow -ℤ bal.market_locked
    pub pub_msg_covered : pub_msg_sum db'.tagged ≤ℤ w
    pub totals :
        (resp.total_collateral ≡ collateral_sum db'.tagged)
        × (resp.total_publish_message ≡ pub_msg_sum db'.tagged)
    pub availables :
        (resp.available_collateral ≡ bal.escrow -ℤ bal.market_locked -ℤ collateral_sum db'.tagged)
        × (resp.available_publish_message ≡ w -ℤ pub_msg_sum db'.tagged)

  -- The part of `TagFunds` after the balances are known.
  totals_then : ℕ → DealProposal → Balance → ℤ → FundsAction TagFundsResp
  totals_then deal p bal w = do t ← db_funds_tagged d; tag_against d node cfg deal p bal w t

  tag_funds-balances :
      (deal : ℕ) (p : DealProposal) (bal : MarketBalance) (w : ℤ) (db : FundsDb)
      → node.state_market_balance cfg.storage_miner db.statements ≡ some bal
      → node.wallet_balance cfg.pub_msg_wallet db.statements ≡ some w
      → tag_funds d node cfg deal p db ≡ totals_then deal p (to_shared_balance bal) w db
  unfolding tag_funds totals_then
  tag_funds-balances deal p bal w db hb hw =
      ground (arith, balance_market-ok db bal hb, balance_publish_msg-ok db w hw)

  tag_against-ok :
      (deal : ℕ) (p : DealProposal) (bal : Balance) (w : ℤ) (t : TotalTagged) (db : FundsDb)
      (resp : TagFundsResp)
      → (tag_against d node cfg deal p bal w t db).0 ≡ ok resp
      → (tags : ℤ × ℤ) × ((reserve d node cfg deal p
            (bal.available -ℤ t.collateral)
            (w -ℤ t.pub_msg)
            db).0
          ≡ ok tags)
        × ((tag_against d node cfg deal p bal w t db).1
            ≡ (reserve d node cfg deal p (bal.available -ℤ t.collateral) (w -ℤ t.pub_msg) db).1)
        × (resp.total_collateral ≡ t.collateral +ℤ tags.0)
        × (resp.total_publish_message ≡ t.pub_msg +ℤ tags.1)
        × (resp.available_collateral ≡ bal.available -ℤ t.collateral -ℤ tags.0)
        × (resp.available_publish_message ≡ w -ℤ t.pub_msg -ℤ tags.1)
  unfolding tag_against
  tag_against-ok deal p bal w t db resp h =
      elim (Result-cases
        (reserve d node cfg deal p (bal.available -ℤ t.collateral) (w -ℤ t.pub_msg) db).0) [
          | inl (tags, q) ↦ (
            tags,
            q,
            ground (arith, q, h),
            ground (arith, q, h),
            ground (arith, q, h),
            ground (arith, q, h),
            ground (arith, q, h),
          )
          | inr (x, q) ↦ absurd (ground (arith, q, h))
        ]

  tag_against-Solvent :
      (deal : ℕ) (p : DealProposal) (bal : MarketBalance) (w : ℤ) (t : TotalTagged)
      (db db0 : FundsDb) (resp : TagFundsResp)
      → cfg.enabled ≡ true
      → db.tagged ≡ db0.tagged
      → t.collateral ≡ collateral_sum db0.tagged
      → t.pub_msg ≡ pub_msg_sum db0.tagged
      → (tag_against d node cfg deal p (to_shared_balance bal) w t db).0 ≡ ok resp
      → Solvent p bal w db0 (tag_against d node cfg deal p (to_shared_balance bal) w t db).1 resp
  unfolding to_shared_balance
  tag_against-Solvent deal p bal w t db db0 resp e rows tc tp h =
      let avail = bal.escrow -ℤ bal.market_locked in
      let (tags, r, same, totc, totp, avc, avp) =
        tag_against-ok deal p (to_shared_balance bal) w t db resp h in
      let (need, least, fits, fits', rows') =
        reserve-ok deal p (avail -ℤ t.collateral) (w -ℤ t.pub_msg) db tags e r in
      let new = new_funds d db.statements deal tags.0 tags.1 in
      let c' : collateral_sum
            (tag_against d node cfg deal p (to_shared_balance bal) w t db).1.tagged
          ≡ t.collateral +ℤ tags.0 =
        ap (λ (s : FundsDb). collateral_sum s.tagged) same
        ∙ ap collateral_sum rows'
        ∙ collateral_sum-append db.tagged new
        ∙ ap (λ z. z +ℤ tags.0) (ap collateral_sum rows ∙ sym tc) in
      let p' : pub_msg_sum (tag_against d node cfg deal p (to_shared_balance bal) w t db).1.tagged
          ≡ t.pub_msg +ℤ tags.1 =
        ap (λ (s : FundsDb). pub_msg_sum s.tagged) same
        ∙ ap pub_msg_sum rows'
        ∙ pub_msg_sum-append db.tagged new
        ∙ ap (λ z. z +ℤ tags.1) (ap pub_msg_sum rows ∙ sym tp) in
      record {
        collateral_tagged = c' ∙ ap₂ ◌+ℤ◌ tc need;
        pub_msg_tagged = p' ∙ ap₂ ◌+ℤ◌ tp least;
        collateral_covered = covered avail t.collateral tags.0 _ fits c';
        pub_msg_covered = covered w t.pub_msg tags.1 _ fits' p';
        totals = (totc ∙ sym c', totp ∙ sym p');
        availables = (
          avc ∙ remains avail t.collateral tags.0 ∙ ap (λ z. avail -ℤ z) (sym c'),
          avp ∙ remains w t.pub_msg tags.1 ∙ ap (λ z. w -ℤ z) (sym p'),
        );
      }

  -- With fund tagging enabled, a call of `TagFunds` that succeeds has added exactly the deal's
  -- collateral and the price of one publish message to the sums tagged; both sums are covered, by
  -- the escrow that is not locked and by the publish wallet; and the response reports the new sums
  -- and what is left beside them.
  pub tag_funds-Solvent :
      (deal : ℕ) (p : DealProposal) (bal : MarketBalance) (w : ℤ) (db : FundsDb)
      (resp : TagFundsResp)
      → cfg.enabled ≡ true
      → node.state_market_balance cfg.storage_miner db.statements ≡ some bal
      → node.wallet_balance cfg.pub_msg_wallet db.statements ≡ some w
      → (tag_funds d node cfg deal p db).0 ≡ ok resp
      → Solvent p bal w db (tag_funds d node cfg deal p db).1 resp
  unfolding totals_then
  tag_funds-Solvent deal p bal w db resp e hb hw h =
      let start = tag_funds-balances deal p bal w db hb hw in
      let (t, et, q, ht) =
        >>=-ok (db_funds_tagged d) (tag_against d node cfg deal p (to_shared_balance bal) w) db resp
          (sym (ap (λ r. r.0) start) ∙ h) in
      let (tc, tp) = db_funds_tagged-ok db t et in
      rw (start ∙ q) (
        tag_against-Solvent deal p bal w t (db_funds_tagged d db).1 db resp e
          (db_funds_tagged-tagged db) tc tp ht)
