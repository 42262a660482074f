-- ===== src/Storage/Release.antt =====
-- What `Untag` gives back, and that it undoes `Tag`, also one that failed half way.
use boost.Common.{ℕ, ◌≡◌, ◌≢◌, refl, List, [], ◌∷◌, ok, err, arith, Driver, find_if, none}
use boost.Storage.Db.{TaggedRow, StorageDb, not_found}
use boost.Storage.Manager.{StorageConfig, tag, untag, check_limits}
use boost.Storage.Rows.{of_deal, others, rows_of, others_self, others-append, find_none}
use boost.Storage.Quota.{new_row, Adds, check_limits-tagged, persist_tagged-Adds}
use boost.Storage.Decision.{reliable}

find_some :
    (deal : ℕ) (rows : List TaggedRow) → rows_of deal rows ≢ [] → find_if (of_deal deal) rows ≢ none
find_some deal [] h = λ e. h refl
find_some deal (r ∷ rows) h = ground (arith, find_some deal rows)

-- On a driver with no failures `Untag` of a deal that has rows succeeds and leaves exactly the rows
-- of the other deals; of a deal that has none it answers ErrNotFound and leaves the rows alone.
pub untag_lem :
    (clock : ℕ → ℕ) (cfg : StorageConfig) (deal : ℕ) (db : StorageDb)
    → let (r, db') = untag (reliable clock) cfg deal db in
      (rows_of deal db.tagged ≢ [] → (r ≡ ok tt) × (db'.tagged ≡ others deal db.tagged))
      × (rows_of deal db.tagged ≡ [] → (r ≡ err not_found) × (db'.tagged ≡ db.tagged))
unfolding untag
untag_lem clock cfg deal db = (
  λ h. ground (arith, find_some deal db.tagged h),
  λ h. ground (arith, find_none deal db.tagged h),
)

pub tag-Adds :
    (d : Driver) (cfg : StorageConfig) (deal size host : ℕ) (db : StorageDb)
    → let n = (check_limits d cfg size host db).1.statements in
      Adds db.tagged (new_row d n deal size host) (tag d cfg deal size host db).1.tagged
unfolding tag
tag-Adds d cfg deal size host db = ground (
  arith,
  check_limits-tagged d cfg size host db,
  persist_tagged-Adds d cfg deal size host (check_limits d cfg size host db).1,
)

pub untag-others :
    (clock : ℕ → ℕ) (cfg : StorageConfig) (deal : ℕ) (db : StorageDb)
    → (untag (reliable clock) cfg deal db).1.tagged ≡ others deal db.tagged
unfolding untag
untag-others clock cfg deal db =
    ground (arith, find_some deal db.tagged, others_self deal db.tagged)

-- Whatever a call of `Tag` for a deal with no row so far did, and whichever of its statements
-- failed, `Untag` of the deal on a driver with no failures leaves the rows as they were before.
pub untag-tag :
    (d : Driver) (clock : ℕ → ℕ) (cfg : StorageConfig) (deal size host : ℕ) (db : StorageDb)
    → rows_of deal db.tagged ≡ []
    → (untag (reliable clock) cfg deal (tag d cfg deal size host db).1).1.tagged ≡ db.tagged
untag-tag d clock cfg deal size host db new = ground (
  arith,
  untag-others clock cfg deal (tag d cfg deal size host db).1,
  tag-Adds d cfg deal size host db,
  others_self deal db.tagged new,
  others-append deal db.tagged
      (new_row d (check_limits d cfg size host db).1.statements deal size host) refl,
)
