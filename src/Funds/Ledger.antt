-- ===== src/Funds/Ledger.antt =====
-- db/funds.go. `FundsTagged` has no key: a deal may have several rows, oldest first. Amounts are
-- `big.Int`; their texts in the table read back as they were written.
use Prim.Native.String.{String}
use boost.Common.{
  ℕ, ◌+◌, ◌==◌, ltb, not, List, [], ◌∷◌, ◌++◌, Option, none, some, if◌then◌else◌, select, find_if,
  Action, pure, raise, gets, modify, ◌>>=◌, ◌>>◌, Driver, answer, ℤ, pos, ◌+ℤ◌, contains, map,
}

pub record TaggedFunds : Type 0 where
  pub deal : ℕ
  pub created_at : ℕ
  pub collateral : ℤ
  pub pub_msg : ℤ

pub record FundsLog : Type 0 where
  pub deal_uuid : ℕ
  pub log_created_at : ℕ
  pub amount : ℤ
  pub log_text : String

-- `statements` counts what has been sent to the driver.
pub record FundsDb : Type 0 where
  pub tagged : List TaggedFunds
  pub logs : List FundsLog
  pub statements : ℕ

pub data FundsError : Type 0 where
  db_error not_found insufficient_funds api_error : FundsError

abbrev pub FundsAction : Type 0 → Type 0
FundsAction A = Action FundsDb FundsError A

pub record TotalTagged : Type 0 where
  pub collateral : ℤ
  pub pub_msg : ℤ

abbrev pub set_funds : List TaggedFunds → FundsAction (Unit {0})
set_funds rows = modify (λ db. record db { tagged = rows })

abbrev pub amounts_or_not_found : Option TaggedFunds → FundsAction (ℤ × ℤ)
amounts_or_not_found none = raise not_found
amounts_or_not_found (some row) = pure (row.collateral, row.pub_msg)

-- `tt.Collateral = big.Add(tt.Collateral, …)` and the same for `tt.PubMsg`.
unfoldable pub add_row : TotalTagged → TaggedFunds → TotalTagged
add_row acc row = record {
  collateral = acc.collateral +ℤ row.collateral;
  pub_msg = acc.pub_msg +ℤ row.pub_msg;
}

-- The loop over the rows.
unfoldable pub add_rows : TotalTagged → List TaggedFunds → TotalTagged
add_rows acc [] = acc
add_rows acc (row ∷ rows) = add_rows (add_row acc row) rows

module _ (driver : Driver) where
  unfoldable pub funds_query : FundsAction (Unit {0})
  funds_query db =
      (answer driver db.statements db_error, record db { statements = db.statements + 1 })

  unfoldable pub tag_funds_row : ℕ → ℤ → ℤ → FundsAction (Unit {0})
  unfolding funds_query
  tag_funds_row deal collateral pub_msg = do
    now ← gets (λ db. driver.clock db.statements)
    funds_query
    rows ← gets (λ db. db.tagged)
    set_funds (
        rows
        ++ record { deal = deal; created_at = now; collateral = collateral; pub_msg = pub_msg }
          ∷ [])

  -- The first row's amounts are returned, and every row of the deal is deleted.
  unfoldable pub untag_funds_row : ℕ → FundsAction (ℤ × ℤ)
  unfolding funds_query
  untag_funds_row deal = do
    funds_query
    amounts ← amounts_or_not_found (← gets (λ db. find_if (λ row. row.deal == deal) db.tagged))
    funds_query
    rows ← gets (λ db. db.tagged)
    set_funds (select (λ row. not (row.deal == deal)) rows)
    pure amounts

  -- A log with no time gets the time of the call.
  abbrev stamp : ℕ → FundsLog → FundsLog
  stamp now l = record l {
    log_created_at = if l.log_created_at == 0 then now else l.log_created_at;
  }

  insert_each_log : ℕ → List FundsLog → FundsAction (Unit {0})
  unfolding funds_query
  insert_each_log now [] = pure tt
  insert_each_log now (l ∷ ls) = do
    funds_query
    modify (λ db. record db { logs = db.logs ++ stamp now l ∷ [] })
    insert_each_log now ls

  unfoldable pub insert_funds_logs : List FundsLog → FundsAction (Unit {0})
  unfolding insert_each_log
  insert_funds_logs ls = do now ← gets (λ db. driver.clock db.statements); insert_each_log now ls

  unfoldable pub db_funds_tagged : FundsAction TotalTagged
  unfolding funds_query
  db_funds_tagged = do
    funds_query
    gets (λ db. add_rows (record { collateral = pos 0; pub_msg = pos 0 }) db.tagged)

  -- Every log of a deal is deleted that has one log older than `cutoff`, which is the time of the
  -- call less the days to keep.
  unfoldable pub cleanup_logs : ℕ → FundsAction (Unit {0})
  unfolding funds_query
  cleanup_logs cutoff = do
    funds_query
    logs ← gets (λ db. db.logs)
    let old = map (λ l. l.deal_uuid) (select (λ l. ltb l.log_created_at cutoff) logs)
    modify (λ db. record db { logs = select (λ l. not (contains l.deal_uuid old)) logs })
