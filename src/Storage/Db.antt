-- ===== src/Storage/Db.antt =====
-- db/storage.go. `StorageTagged` has no key: a deal may have several rows, oldest first.
-- Identifiers of deals and hosts are numbers that are only compared; host 0 is the empty string.
use Prim.Native.String.{String}
use boost.Common.{
  ℕ, ◌+◌, ◌==◌, not, List, [], ◌∷◌, ◌++◌, Option, none, some, if◌then◌else◌, u64, select, find_if,
  Action, pure, raise, gets, modify, ◌>>=◌, ◌>>◌, Driver, answer,
}

pub record TaggedRow : Type 0 where
  pub deal : ℕ
  pub created_at : ℕ
  pub size : ℕ
  pub host : ℕ

pub record StorageLog : Type 0 where
  pub deal_uuid : ℕ
  pub log_created_at : ℕ
  pub transfer_size : ℕ
  pub log_text : String

-- `statements` counts what has been sent to the driver.
pub record StorageDb : Type 0 where
  pub tagged : List TaggedRow
  pub logs : List StorageLog
  pub statements : ℕ

pub data StorageError : Type 0 where
  db_error not_found no_space_left : StorageError

abbrev pub StorageAction : Type 0 → Type 0
StorageAction A = Action StorageDb StorageError A

abbrev pub set_tagged : List TaggedRow → StorageAction (Unit {0})
set_tagged rows = modify (λ db. record db { tagged = rows })

-- What a query over no row, or over a row, gives.
abbrev pub or_not_found : Option TaggedRow → StorageAction ℕ
or_not_found none = raise not_found
or_not_found (some row) = pure (u64 row.size)

-- `total += size` over the rows of a host, or over all where the host is empty.
unfoldable pub sizes_for_host : ℕ → List TaggedRow → ℕ
sizes_for_host host [] = 0
sizes_for_host host (row ∷ rows) =
    let rest = sizes_for_host host rows in
    if host == 0 then row.size + rest else if row.host == host then row.size + rest else rest

module _ (driver : Driver) where
  unfoldable pub storage_query : StorageAction (Unit {0})
  storage_query db =
      (answer driver db.statements db_error, record db { statements = db.statements + 1 })

  unfoldable pub db_tag : ℕ → ℕ → ℕ → StorageAction (Unit {0})
  unfolding storage_query
  db_tag deal size host = do
    now ← gets (λ db. driver.clock db.statements)
    storage_query
    rows ← gets (λ db. db.tagged)
    set_tagged (rows ++ record { deal = deal; created_at = now; size = size; host = host } ∷ [])

  -- The first row's size is returned, and every row of the deal is deleted.
  unfoldable pub db_untag : ℕ → StorageAction ℕ
  unfolding storage_query
  db_untag deal = do
    storage_query
    size ← or_not_found (← gets (λ db. find_if (λ row. row.deal == deal) db.tagged))
    storage_query
    rows ← gets (λ db. db.tagged)
    set_tagged (select (λ row. not (row.deal == deal)) rows)
    pure size

  -- A log with no time gets the time of the call.
  abbrev stamp : ℕ → StorageLog → StorageLog
  stamp now l = record l {
    log_created_at = if l.log_created_at == 0 then now else l.log_created_at;
  }

  insert_each : ℕ → List StorageLog → StorageAction (Unit {0})
  unfolding storage_query
  insert_each now [] = pure tt
  insert_each now (l ∷ ls) = do
    storage_query
    modify (λ db. record db { logs = db.logs ++ stamp now l ∷ [] })
    insert_each now ls

  unfoldable pub insert_logs : List StorageLog → StorageAction (Unit {0})
  unfolding insert_each
  insert_logs ls = do now ← gets (λ db. driver.clock db.statements); insert_each now ls

  unfoldable pub db_total_tagged : ℕ → StorageAction ℕ
  unfolding storage_query
  db_total_tagged host = do storage_query; gets (λ db. u64 (sizes_for_host host db.tagged))
