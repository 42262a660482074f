-- ===== src/Storage/Quota.antt =====
-- What `Tag` admits: the limits on the whole staging area and on one host.
use boost.Common.{
  ℕ, ◌+◌, ◌≤◌, ◌<◌, ◌≡◌, ◌≢◌, ◌⊎◌, List, [], ◌∷◌, ◌++◌, ok, arith, u64, u64_mod, Driver,
}
use boost.Storage.Db.{TaggedRow, StorageDb, sizes_for_host}
use boost.Storage.Manager.{
  StorageConfig, host_limit, check_host, check_total, persist_tagged, check_limits, tag, untag,
  free,
}
use boost.Storage.Rows.{sizes-append, sizes-split, others}

-- A check changes no row.
check_host-tagged :
    (d : Driver) (cfg : StorageConfig) (size host : ℕ) (db : StorageDb)
    → (check_host d cfg size host db).1.tagged ≡ db.tagged
unfolding check_host
check_host-tagged d cfg size host db = ground arith

check_total-tagged :
    (d : Driver) (cfg : StorageConfig) (size : ℕ) (db : StorageDb)
    → (check_total d cfg size db).1.tagged ≡ db.tagged
unfolding check_total
check_total-tagged d cfg size db = ground arith

-- A check that passes has compared the sum of the rows with the limit.
check_host-passed :
    (d : Driver) (cfg : StorageConfig) (size host : ℕ) (db : StorageDb)
    → (check_host d cfg size host db).0 ≡ ok tt
    → cfg.max_staging_deals_percent_per_host ≢ 0
    → u64 (u64 (sizes_for_host host db.tagged) + size) < host_limit cfg
unfolding check_host
check_host-passed d cfg size host db h p = ground arith

check_total-passed :
    (d : Driver) (cfg : StorageConfig) (size : ℕ) (db : StorageDb)
    → (check_total d cfg size db).0 ≡ ok tt
    → u64 (u64 (sizes_for_host 0 db.tagged) + size) < cfg.max_staging_deals_bytes
unfolding check_total
check_total-passed d cfg size db h = ground arith

abbrev Passed : StorageConfig → ℕ → ℕ → StorageDb → Type 0
Passed cfg size host db =
    (u64 (u64 (sizes_for_host 0 db.tagged) + size) < cfg.max_staging_deals_bytes)
    × (cfg.max_staging_deals_percent_per_host ≢ 0
        → u64 (u64 (sizes_for_host host db.tagged) + size) < host_limit cfg)

pub check_limits-tagged :
    (d : Driver) (cfg : StorageConfig) (size host : ℕ) (db : StorageDb)
    → (check_limits d cfg size host db).1.tagged ≡ db.tagged
unfolding check_limits
check_limits-tagged d cfg size host db = ground (
  arith,
  check_host-tagged d cfg size host db,
  check_total-tagged d cfg size (check_host d cfg size host db).1,
)

check_limits-Passed :
    (d : Driver) (cfg : StorageConfig) (size host : ℕ) (db : StorageDb)
    → cfg.max_staging_deals_bytes ≢ 0
    → (check_limits d cfg size host db).0 ≡ ok tt
    → Passed cfg size host db
unfolding check_limits
check_limits-Passed d cfg size host db m h = ground (
  arith,
  check_host-tagged d cfg size host db,
  check_host-passed d cfg size host db,
  check_total-passed d cfg size (check_host d cfg size host db).1,
)

-- The row that a call of `Tag` adds.
abbrev pub new_row : Driver → ℕ → ℕ → ℕ → ℕ → TaggedRow
new_row d n deal size host = record {
  deal = deal;
  created_at = d.clock n;
  size = size;
  host = host;
}

-- The rows after a call that may have added one.
abbrev pub Adds : List TaggedRow → TaggedRow → List TaggedRow → Type 0
Adds rows row rows' = (rows' ≡ rows) ⊎ (rows' ≡ rows ++ row ∷ [])

pub persist_tagged-Adds :
    (d : Driver) (cfg : StorageConfig) (deal size host : ℕ) (db : StorageDb)
    → Adds db.tagged
        (new_row d db.statements deal size host)
        (persist_tagged d cfg deal size host db).1.tagged
unfolding persist_tagged
persist_tagged-Adds d cfg deal size host db = ground arith

-- What `Tag` leaves: the rows as they were, or one more that was within every limit in force.
abbrev pub Admits : StorageConfig → ℕ → ℕ → StorageDb → StorageDb → Type 0
Admits cfg size host db db' =
    (db'.tagged ≡ db.tagged)
    ⊎ ((sizes_for_host 0 db'.tagged ≡ sizes_for_host 0 db.tagged + size)
        × (u64 (u64 (sizes_for_host 0 db.tagged) + size) < cfg.max_staging_deals_bytes)
        × (cfg.max_staging_deals_percent_per_host ≢ 0
            → u64 (u64 (sizes_for_host host db.tagged) + size) < host_limit cfg))

tag-Admits :
    (d : Driver) (cfg : StorageConfig) (deal size host : ℕ) (db : StorageDb)
    → cfg.max_staging_deals_bytes ≢ 0
    → Admits cfg size host db (tag d cfg deal size host db).1
unfolding tag
tag-Admits d cfg deal size host db m =
    let db' = (check_limits d cfg size host db).1 in
    ground (
      arith,
      check_limits-tagged d cfg size host db,
      check_limits-Passed d cfg size host db m,
      persist_tagged-Adds d cfg deal size host db',
      sizes-append 0 db.tagged (new_row d db'.statements deal size host),
    )

-- `Untag` leaves the rows alone or deletes exactly those of the deal, whatever the driver answers.
untag-tagged :
    (d : Driver) (cfg : StorageConfig) (deal : ℕ) (db : StorageDb)
    → ((untag d cfg deal db).1.tagged ≡ db.tagged)
      ⊎ ((untag d cfg deal db).1.tagged ≡ others deal db.tagged)
unfolding untag
untag-tagged d cfg deal db = ground arith

free-tagged :
    (d : Driver) (cfg : StorageConfig) (db : StorageDb) → (free d cfg db).1.tagged ≡ db.tagged
unfolding free
free-tagged d cfg db = ground arith

-- The calls that the provider makes of the storage manager. It has no lock; here the calls do not
-- overlap.
pub data StorageOp : Type 0 where
  tags : ℕ → ℕ → ℕ → StorageOp
  untags : ℕ → StorageOp
  frees : StorageOp

unfoldable pub after_op : Driver → StorageConfig → StorageOp → StorageDb → StorageDb
after_op d cfg (tags deal size host) db = (tag d cfg deal size host db).1
after_op d cfg (untags deal) db = (untag d cfg deal db).1
after_op d cfg frees db = (free d cfg db).1

unfoldable pub after_ops : Driver → StorageConfig → List StorageOp → StorageDb → StorageDb
after_ops d cfg [] db = db
after_ops d cfg (op ∷ ops) db = after_ops d cfg ops (after_op d cfg op db)

-- The sizes asked for do not make a uint64 sum with the staging area wrap round.
abbrev pub Modest : StorageConfig → List StorageOp → Type 0
Modest cfg [] = Unit
Modest cfg (tags deal size host ∷ ops) =
    (size + cfg.max_staging_deals_bytes ≤ u64_mod) × Modest cfg ops
Modest cfg (untags deal ∷ ops) = Modest cfg ops
Modest cfg (frees ∷ ops) = Modest cfg ops

tag-quota :
    (d : Driver) (cfg : StorageConfig) (deal size host : ℕ) (db : StorageDb)
    → size + cfg.max_staging_deals_bytes ≤ u64_mod
    → sizes_for_host 0 db.tagged < cfg.max_staging_deals_bytes
    → sizes_for_host 0 (tag d cfg deal size host db).1.tagged < cfg.max_staging_deals_bytes
tag-quota d cfg deal size host db b q =
    grind (arith, tag-Admits d cfg deal size host db (omega arith))

untag-quota :
    (d : Driver) (cfg : StorageConfig) (deal : ℕ) (db : StorageDb)
    → sizes_for_host 0 (untag d cfg deal db).1.tagged ≤ sizes_for_host 0 db.tagged
untag-quota d cfg deal db = grind (arith, untag-tagged d cfg deal db, sizes-split 0 deal db.tagged)

-- Once fewer bytes are tagged than the staging area holds, this stays so after any calls of `Tag`,
-- `Untag` and `Free` that come one after the other, each beginning when the one before has ended,
-- whichever statements fail, provided that no size asked for is so large that its uint64 sum with
-- the staging area's size wraps round.
pub after_ops-quota :
    (d : Driver) (cfg : StorageConfig) (ops : List StorageOp) (db : StorageDb)
    → Modest cfg ops
    → sizes_for_host 0 db.tagged < cfg.max_staging_deals_bytes
    → sizes_for_host 0 (after_ops d cfg ops db).tagged < cfg.max_staging_deals_bytes
unfolding after_ops after_op
after_ops-quota d cfg [] db m q = q
after_ops-quota d cfg (tags deal size host ∷ ops) db m q =
    after_ops-quota d cfg ops _ m.1 (tag-quota d cfg deal size host db m.0 q)
after_ops-quota d cfg (untags deal ∷ ops) db m q =
    after_ops-quota d cfg ops _ m (omega (arith, untag-quota d cfg deal db))
after_ops-quota d cfg (frees ∷ ops) db m q =
    after_ops-quota d cfg ops _ m (grind (arith, free-tagged d cfg db))
