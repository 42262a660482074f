-- ===== src/Storage/Tests.antt =====
-- Runs and instances: a staging area of 1000 bytes, of which a host may have a half.
use boost.Common.{ℕ, ◌<◌, ◌≤◌, ◌≡◌, refl, [], ◌∷◌, ok, err, arith, healthy, Driver, ◌==◌, List}
use boost.Storage.Db.{TaggedRow, StorageDb, no_space_left, db_error, sizes_for_host}
use boost.Storage.Manager.{
  StorageConfig, tag, check_limits, check_host, check_total, persist_tagged,
}
use boost.Storage.Race.{overlapping_tags, overlapping_tags_overcommit}
use boost.Storage.Quota.{StorageOp, tags, untags, frees, after_ops, after_ops-quota}

abbrev halves : StorageConfig
halves = record { max_staging_deals_bytes = 1000; max_staging_deals_percent_per_host = 50 }

abbrev whole : StorageConfig
whole = record { max_staging_deals_bytes = 1000; max_staging_deals_percent_per_host = 0 }

abbrev row : ℕ → ℕ → ℕ → TaggedRow
row deal size host = record { deal = deal; created_at = 0; size = size; host = host }

abbrev two_rows : StorageDb
two_rows = record { tagged = row 1 300 7 ∷ row 2 200 8 ∷ []; logs = []; statements = 0 }

abbrev tick : ℕ → ℕ
tick n = n

-- The third statement, the insertion of the row's log, fails.
abbrev no_log : Driver
no_log = record { fault = λ n. n == 3; clock = tick }

tag_refused : (tag healthy halves 3 200 7 two_rows).0 ≡ err no_space_left
unfolding tag check_limits check_host check_total persist_tagged sizes_for_host
tag_refused = refl

-- The error of the log leaves the row behind.
tag_without_log :
    ((tag no_log halves 3 100 7 two_rows).0 ≡ err db_error)
    × (sizes_for_host 0 (tag no_log halves 3 100 7 two_rows).1.tagged ≡ 600)
unfolding tag check_limits check_host check_total persist_tagged sizes_for_host
tag_without_log = (refl, refl)

abbrev calls : List StorageOp
calls = tags 3 100 7 ∷ untags 1 ∷ frees ∷ tags 4 500 8 ∷ []

after_ops-quota_example : sizes_for_host 0 (after_ops no_log halves calls two_rows).tagged < 1000
unfolding sizes_for_host
after_ops-quota_example =
    after_ops-quota no_log halves calls two_rows (omega arith, (omega arith, tt)) (omega arith)

overlapping_tags_overcommit_example :
    let (r, db') = overlapping_tags tick whole 3 4 300 400 7 two_rows in
    (r ≡ ok tt) × (1000 ≤ sizes_for_host 0 db'.tagged)
unfolding sizes_for_host
overlapping_tags_overcommit_example =
    overlapping_tags_overcommit tick whole 3 4 300 400 7 two_rows refl (omega arith) (omega arith)
      (omega arith) (omega arith)
