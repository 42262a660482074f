-- ===== src/Car/Refs.antt =====
-- car/block_info_cache.go: which caches are kept, and for whom.
use boost.Common.{
  ℕ, suc, ◌+◌, ◌-◌, Bool, List, [], none, some, ◌==◌, if◌then◌else◌, lookup, insert, erase,
}

-- `cache` names the cache that it points to.
pub record CacheRefs : Type 0 where
  pub refs : ℕ
  pub cache : ℕ

-- A `RefCountBICM`, by payload cid, with the timers of a `DelayedUnrefBICM` over it, each with the
-- payload cid that it is for. The counters name caches and timers.
pub record Caches : Type 0 where
  pub cache : List (ℕ × CacheRefs)
  pub new_caches : ℕ
  pub timers : List (ℕ × ℕ)
  pub new_timers : ℕ

unfoldable pub new_ref_count_bicm : Caches
new_ref_count_bicm = record { cache = []; new_caches = 0; timers = []; new_timers = 0 }

-- The cache that is given, and the manager after it.
unfoldable pub get : ℕ → Caches → ℕ × Caches
get payload_cid bm = elim (lookup payload_cid bm.cache) [
  | some bic ↦ (
    bic.cache,
    record bm { cache = insert payload_cid (record bic { refs = bic.refs + 1 }) bm.cache },
  )
  | none ↦ (
    bm.new_caches,
    record bm {
      cache = insert payload_cid (record { refs = 1; cache = bm.new_caches }) bm.cache;
      new_caches = suc bm.new_caches;
    },
  )
]

-- An entry has at least one reference.
unfoldable pub unref : ℕ → Caches → Caches
unref payload_cid bm = elim (lookup payload_cid bm.cache) [
  | none ↦ bm
  | some bic ↦ record bm {
    cache =
        (if bic.refs - 1 == 0
          then erase payload_cid bm.cache
          else insert payload_cid (record bic { refs = bic.refs - 1 }) bm.cache);
  }
]

-- `DelayedUnrefBICM.Unref`, by whether the transfer failed.
unfoldable pub delayed_unref : ℕ → Bool → Caches → Caches
delayed_unref payload_cid failed d =
    let d1 = if failed then d else unref payload_cid d in
    record d1 {
      timers = insert d1.new_timers payload_cid d1.timers;
      new_timers = suc d1.new_timers;
    }

unfoldable pub timer_expires : ℕ → Caches → Caches
timer_expires timer d = elim (lookup timer d.timers) [
  | none ↦ d
  | some payload_cid ↦ unref payload_cid (record d { timers = erase timer d.timers })
]

-- The timers of a closed manager do not expire.
unfoldable pub close_caches : Caches → Caches
close_caches d = record d { timers = [] }
