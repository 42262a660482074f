-- ===== src/Funds/Undo.antt =====
-- `UntagFunds`, and that it undoes `TagFunds`, also one that failed half way.
use boost.Common.{
  ℕ, ◌≡◌, ◌⊎◌, inl, inr, refl, [], ◌∷◌, ◌++◌, ok, err, arith, Driver, ℤ, ◌-ℤ◌, some, find_if, List,
  Option-cases, Result-cases, ◌>>=◌,
}
use boost.Deal.{DealProposal}
use boost.Funds.Ledger.{TaggedFunds, FundsDb, FundsAction, TotalTagged, not_found, db_funds_tagged}
use boost.Funds.Manager.{
  FundsConfig, Node, Balance, TagFundsResp, persist_funds, reserve, balance_market,
  balance_publish_msg, tag_against, to_shared_balance, tag_funds, untag_funds,
}
use boost.Funds.Sums.{of_deal, rows_of, others, others_self, others-append, find_some, find_none}
use boost.Funds.Solvency.{new_funds, persist_funds-Adds, db_funds_tagged-tagged}
use boost.Funds.Refusal.{reliable}

module _ (d : Driver) (node : Node) (cfg : FundsConfig) where
  -- The rows are as they were, or have one row of the deal more.
  abbrev Grows : ℕ → List TaggedFunds → List TaggedFunds → Type 0
  Grows deal rows rows' =
      (rows' ≡ rows) ⊎ ((row : TaggedFunds) × (row.deal ≡ deal) × (rows' ≡ rows ++ row ∷ []))

  persist_funds-Grows :
      (deal : ℕ) (a b : ℤ) (db : FundsDb)
      → Grows deal db.tagged (persist_funds d node cfg deal a b db).1.tagged
  persist_funds-Grows deal a b db = elim (persist_funds-Adds d node cfg deal a b db) [
    | inl e ↦ inl e
    | inr e ↦ inr (new_funds d db.statements deal a b, refl, e)
  ]

  reserve-Grows :
      (deal : ℕ) (p : DealProposal) (a b : ℤ) (db : FundsDb)
      → Grows deal db.tagged (reserve d node cfg deal p a b db).1.tagged
  unfolding reserve
  reserve-Grows deal p a b db =
      ground (
        arith,
        persist_funds-Grows deal (node.provider_balance_requirement p) cfg.pub_msg_bal_min db,
      )

  tag_against-Grows :
      (deal : ℕ) (p : DealProposal) (bal : Balance) (w : ℤ) (t : TotalTagged) (db : FundsDb)
      → Grows deal db.tagged (tag_against d node cfg deal p bal w t db).1.tagged
  unfolding tag_against
  tag_against-Grows deal p bal w t db =
      ground (arith, reserve-Grows deal p (bal.available -ℤ t.collateral) (w -ℤ t.pub_msg) db)

  totals_then : ℕ → DealProposal → Balance → ℤ → FundsAction TagFundsResp
  totals_then deal p bal w = do t ← db_funds_tagged d; tag_against d node cfg deal p bal w t

  totals_then-Grows :
      (deal : ℕ) (p : DealProposal) (bal : Balance) (w : ℤ) (db : FundsDb)
      → Grows deal db.tagged (totals_then deal p bal w db).1.tagged
  unfolding totals_then
  totals_then-Grows deal p bal w db = elim (Result-cases (db_funds_tagged d db).0) [
    | inl (t, e) ↦ ground (
      arith,
      e,
      db_funds_tagged-tagged d node cfg db,
      tag_against-Grows deal p bal w t (db_funds_tagged d db).1,
    )
    | inr (x, e) ↦ ground (arith, e, db_funds_tagged-tagged d node cfg db)
  ]

  pub tag_funds-Grows :
      (deal : ℕ) (p : DealProposal) (db : FundsDb)
      → Grows deal db.tagged (tag_funds d node cfg deal p db).1.tagged
  unfolding tag_funds balance_market balance_publish_msg totals_then
  tag_funds-Grows deal p db =
      elim (Option-cases (node.state_market_balance cfg.storage_miner db.statements)) [
        | inl e ↦ ground (arith, e)
        | inr (bal, e) ↦
            elim (Option-cases (node.wallet_balance cfg.pub_msg_wallet db.statements)) [
              | inl f ↦ ground (arith, e, f)
              | inr (w, f) ↦
                  ground (arith, e, f, totals_then-Grows deal p (to_shared_balance bal) w db)
            ]
      ]

pub untag_funds-others :
    (clock : ℕ → ℕ) (node : Node) (cfg : FundsConfig) (deal : ℕ) (db : FundsDb)
    → (untag_funds (reliable clock) node cfg deal db).1.tagged ≡ others deal db.tagged
unfolding untag_funds
untag_funds-others clock node cfg deal db =
    ground (arith, find_some deal db.tagged, others_self deal db.tagged)

-- Whatever a call of `TagFunds` for a deal with no row so far did, and whichever of its statements
-- or calls of the node failed, `UntagFunds` of the deal on a driver with no failures leaves the
-- rows as they were before.
pub untag_funds-tag_funds :
    (d : Driver) (clock : ℕ → ℕ) (node : Node) (cfg : FundsConfig) (deal : ℕ) (p : DealProposal)
    (db : FundsDb)
    → rows_of deal db.tagged ≡ []
    → (untag_funds (reliable clock) node cfg deal (tag_funds d node cfg deal p db).1).1.tagged
      ≡ db.tagged
untag_funds-tag_funds d clock node cfg deal p db new =
    let undone = untag_funds-others clock node cfg deal (tag_funds d node cfg deal p db).1 in
    elim (tag_funds-Grows d node cfg deal p db) [
      | inl e ↦ ground (arith, undone, e, others_self deal db.tagged new)
      | inr (row, own, e) ↦
          ground
            (arith, undone, e, others_self deal db.tagged new, others-append deal db.tagged row own)
    ]

-- `UntagFunds` on a driver with no failures, of a deal whose first row holds two amounts, returns
-- these and deletes every row of the deal and no other; of a deal with no row it answers
-- ErrNotFound and changes no row.
pub untag_funds_lem :
    (clock : ℕ → ℕ) (node : Node) (cfg : FundsConfig) (deal : ℕ) (db : FundsDb)
    → let (r, db') = untag_funds (reliable clock) node cfg deal db in
      ((row : TaggedFunds)
        → find_if (of_deal deal) db.tagged ≡ some row
        → (r ≡ ok (row.collateral, row.pub_msg)) × (db'.tagged ≡ others deal db.tagged))
      × (rows_of deal db.tagged ≡ [] → (r ≡ err not_found) × (db'.tagged ≡ db.tagged))
unfolding untag_funds
untag_funds_lem clock node cfg deal db =
    (λ row h. ground (arith, h), λ h. ground (arith, find_none deal db.tagged h))
