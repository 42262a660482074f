-- ===== src/Storage/Race.antt =====
-- `processDeal` runs in a goroutine for each deal (storagemarket/provider_loop.go), so the tests of
-- one `Tag` and the insertion of another may come between each other.
use boost.Common.{ℕ, ◌+◌, ◌≤◌, ◌<◌, ◌≡◌, ok, arith, u64, u64_mod, ◌>>◌}
use boost.Storage.Db.{StorageDb, StorageAction, sizes_for_host}
use boost.Storage.Manager.{StorageConfig, check_host, check_total, check_limits, persist_tagged}
use boost.Storage.Quota.{new_row, check_limits-tagged}
use boost.Storage.Decision.{reliable, persist_tagged-ok}
use boost.Storage.Rows.{sizes-append}

-- Two calls of `Tag`, of which both make their tests before either inserts its row.
unfoldable pub overlapping_tags :
    (ℕ → ℕ) → StorageConfig → ℕ → ℕ → ℕ → ℕ → ℕ → StorageAction (Unit {0})
overlapping_tags clock cfg deal other size size' host = do
  check_limits (reliable clock) cfg size host
  check_limits (reliable clock) cfg size' host
  persist_tagged (reliable clock) cfg deal size host
  persist_tagged (reliable clock) cfg other size' host

check_limits-ok :
    (clock : ℕ → ℕ) (cfg : StorageConfig) (size host : ℕ) (db : StorageDb)
    → cfg.max_staging_deals_percent_per_host ≡ 0
    → u64 (u64 (sizes_for_host 0 db.tagged) + size) < cfg.max_staging_deals_bytes
    → (check_limits (reliable clock) cfg size host db).0 ≡ ok tt
unfolding check_limits check_host check_total
check_limits-ok clock cfg size host db p h = ground arith

persist_tagged-succeeds :
    (clock : ℕ → ℕ) (cfg : StorageConfig) (deal size host : ℕ) (db : StorageDb)
    → (persist_tagged (reliable clock) cfg deal size host db).0 ≡ ok tt
unfolding persist_tagged
persist_tagged-succeeds clock cfg deal size host db = ground arith

persist_tagged-sum :
    (clock : ℕ → ℕ) (cfg : StorageConfig) (deal size host : ℕ) (db : StorageDb)
    → sizes_for_host 0 (persist_tagged (reliable clock) cfg deal size host db).1.tagged
      ≡ sizes_for_host 0 db.tagged + size
persist_tagged-sum clock cfg deal size host db = ground (
  arith,
  persist_tagged-ok (reliable clock) cfg deal size host db
      (persist_tagged-succeeds clock cfg deal size host db),
  sizes-append 0 db.tagged (new_row (reliable clock) db.statements deal size host),
)

-- Two deals that fit one by one but not together are both accepted when their calls of `Tag`
-- overlap so, and the bytes tagged then reach the area's size (no share per host, no failures).
pub overlapping_tags_overcommit :
    (clock : ℕ → ℕ) (cfg : StorageConfig) (deal other size size' host : ℕ) (db : StorageDb)
    → cfg.max_staging_deals_percent_per_host ≡ 0
    → cfg.max_staging_deals_bytes < u64_mod
    → sizes_for_host 0 db.tagged + size < cfg.max_staging_deals_bytes
    → sizes_for_host 0 db.tagged + size' < cfg.max_staging_deals_bytes
    → cfg.max_staging_deals_bytes ≤ sizes_for_host 0 db.tagged + size + size'
    → let (r, db') = overlapping_tags clock cfg deal other size size' host db in
      (r ≡ ok tt) × (cfg.max_staging_deals_bytes ≤ sizes_for_host 0 db'.tagged)
unfolding overlapping_tags
overlapping_tags_overcommit clock cfg deal other size size' host db p m a b over =
    let db1 = (check_limits (reliable clock) cfg size host db).1 in
    let db2 = (check_limits (reliable clock) cfg size' host db1).1 in
    let db3 = (persist_tagged (reliable clock) cfg deal size host db2).1 in
    ground (
      arith,
      check_limits-ok clock cfg size host db p,
      check_limits-ok clock cfg size' host db1 p,
      check_limits-tagged (reliable clock) cfg size host db,
      check_limits-tagged (reliable clock) cfg size' host db1,
      persist_tagged-succeeds clock cfg deal size host db2,
      persist_tagged-sum clock cfg deal size host db2,
      persist_tagged-succeeds clock cfg other size' host db3,
      persist_tagged-sum clock cfg other size' host db3,
    )
