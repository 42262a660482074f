-- ===== src/Storage/Decision.antt =====
-- Which calls of `Tag` are refused on a driver with no failures, and what the wrap of the sum does.
use boost.Common.{
  ℕ, ◌+◌, ◌-◌, ◌≤◌, ◌<◌, ◌≡◌, ◌≢◌, ◌⊎◌, ◌↔◌, false, ok, err, arith, u64, u64_mod, Driver, [], ◌∷◌,
  ◌++◌,
}
use boost.Storage.Db.{StorageDb, no_space_left, sizes_for_host}
use boost.Storage.Manager.{
  StorageConfig, host_limit, check_host, check_total, persist_tagged, check_limits, tag, free,
}
use boost.Storage.Rows.{sizes-append}
use boost.Storage.Quota.{new_row, check_limits-tagged}

abbrev pub reliable : (ℕ → ℕ) → Driver
reliable clock = record { fault = λ n. false; clock = clock }

-- When the tests of `Tag` refuse.
abbrev pub Exceeds : StorageConfig → ℕ → ℕ → StorageDb → Type 0
Exceeds cfg size host db =
    (cfg.max_staging_deals_bytes ≢ 0)
    × (((cfg.max_staging_deals_percent_per_host ≢ 0)
          × (host_limit cfg ≤ u64 (u64 (sizes_for_host host db.tagged) + size)))
        ⊎ (cfg.max_staging_deals_bytes ≤ u64 (u64 (sizes_for_host 0 db.tagged) + size)))

-- On a driver with no failures `Tag` answers ErrNoSpaceLeft exactly when the area has a size and
-- the uint64 sum with the new size reaches the host's share, where one is set, or the whole area.
pub tag_refuses_iff :
    (clock : ℕ → ℕ) (cfg : StorageConfig) (deal size host : ℕ) (db : StorageDb)
    → ((tag (reliable clock) cfg deal size host db).0 ≡ err no_space_left)
      ↔ Exceeds cfg size host db
unfolding tag check_limits check_host check_total persist_tagged
tag_refuses_iff clock cfg deal size host db = (λ h. ground arith, λ h. ground arith)

free_value :
    (clock : ℕ → ℕ) (cfg : StorageConfig) (db : StorageDb)
    → sizes_for_host 0 db.tagged < u64_mod
    → (free (reliable clock) cfg db).0
      ≡ ok (cfg.max_staging_deals_bytes - sizes_for_host 0 db.tagged)
unfolding free
free_value clock cfg db w = ground arith

pub persist_tagged-ok :
    (d : Driver) (cfg : StorageConfig) (deal size host : ℕ) (db : StorageDb)
    → (persist_tagged d cfg deal size host db).0 ≡ ok tt
    → (persist_tagged d cfg deal size host db).1.tagged
      ≡ db.tagged ++ new_row d db.statements deal size host ∷ []
unfolding persist_tagged
persist_tagged-ok d cfg deal size host db h = ground arith

-- A call of `Tag` that succeeds has added its size to the sum.
pub tag_sum :
    (d : Driver) (cfg : StorageConfig) (deal size host : ℕ) (db : StorageDb)
    → (tag d cfg deal size host db).0 ≡ ok tt
    → sizes_for_host 0 (tag d cfg deal size host db).1.tagged ≡ sizes_for_host 0 db.tagged + size
unfolding tag
tag_sum d cfg deal size host db h =
    let db' = (check_limits d cfg size host db).1 in
    ground (
      arith,
      check_limits-tagged d cfg size host db,
      persist_tagged-ok d cfg deal size host db',
      sizes-append 0 db.tagged (new_row d db'.statements deal size host),
    )

tag_within :
    (clock : ℕ → ℕ) (cfg : StorageConfig) (deal size host : ℕ) (db : StorageDb)
    → cfg.max_staging_deals_bytes ≢ 0
    → (tag (reliable clock) cfg deal size host db).0 ≡ ok tt
    → u64 (u64 (sizes_for_host 0 db.tagged) + size) < cfg.max_staging_deals_bytes
unfolding tag check_limits check_host check_total persist_tagged
tag_within clock cfg deal size host db m h = ground arith

-- On a driver with no failures, where no uint64 sum wraps and the area has a size, a call of `Tag`
-- that succeeds was for less than `Free` reported before it, and lowers what `Free` reports by
-- exactly the size that was asked for.
pub free-tag :
    (clock : ℕ → ℕ) (cfg : StorageConfig) (deal size host : ℕ) (db : StorageDb)
    → sizes_for_host 0 db.tagged + size < u64_mod
    → cfg.max_staging_deals_bytes ≢ 0
    → (tag (reliable clock) cfg deal size host db).0 ≡ ok tt
    → let space = cfg.max_staging_deals_bytes - sizes_for_host 0 db.tagged in
      ((free (reliable clock) cfg db).0 ≡ ok space)
      × (size < space)
      × ((free (reliable clock) cfg (tag (reliable clock) cfg deal size host db).1).0
          ≡ ok (space - size))
free-tag clock cfg deal size host db w m h = ground (
  arith,
  tag_sum (reliable clock) cfg deal size host db h,
  tag_within clock cfg deal size host db m h,
  free_value clock cfg db,
  free_value clock cfg (tag (reliable clock) cfg deal size host db).1,
)

tag_accepts :
    (clock : ℕ → ℕ) (cfg : StorageConfig) (deal size host : ℕ) (db : StorageDb)
    → cfg.max_staging_deals_percent_per_host ≡ 0
    → u64 (u64 (sizes_for_host 0 db.tagged) + size) < cfg.max_staging_deals_bytes
    → (tag (reliable clock) cfg deal size host db).0 ≡ ok tt
unfolding tag check_limits check_host check_total persist_tagged
tag_accepts clock cfg deal size host db p h = ground arith

-- The sum of `Tag` is a uint64: where the bytes tagged and a size asked for pass 2^64 together, and
-- what is left after the wrap is below the area's size, a manager with no share per host accepts
-- the deal, and more bytes are tagged than the area holds.
pub tag_wraps :
    (clock : ℕ → ℕ) (cfg : StorageConfig) (deal size host : ℕ) (db : StorageDb)
    → sizes_for_host 0 db.tagged < u64_mod
    → cfg.max_staging_deals_bytes < u64_mod
    → cfg.max_staging_deals_percent_per_host ≡ 0
    → u64_mod ≤ sizes_for_host 0 db.tagged + size
    → sizes_for_host 0 db.tagged + size < u64_mod + cfg.max_staging_deals_bytes
    → ((tag (reliable clock) cfg deal size host db).0 ≡ ok tt)
      × (cfg.max_staging_deals_bytes
          < sizes_for_host 0 (tag (reliable clock) cfg deal size host db).1.tagged)
tag_wraps clock cfg deal size host db t m p big left =
    let accepted = tag_accepts clock cfg deal size host db p (omega arith) in
    (accepted, omega (arith, tag_sum (reliable clock) cfg deal size host db accepted))
