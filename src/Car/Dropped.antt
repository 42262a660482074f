-- ===== src/Car/Dropped.antt =====
-- The references that a request gives back.
use boost.Common.{
  ℕ, suc, ◌-◌, ◌≡◌, Bool-cases, true, false, inl, inr, Option, none, some, ◌==◌, leb, if◌then◌else◌,
  lookup, insert, erase, lookup-insert, lookup-erase, arith, ◌∙◌, ap,
}
use boost.Car.Refs.{CacheRefs, Caches, get, unref, delayed_unref, timer_expires}

-- One reference less, and no entry where that was the last.
abbrev pub fewer : CacheRefs → Option CacheRefs
fewer r = if r.refs - 1 == 0 then none else some (record r { refs = r.refs - 1 })

unref-lookup :
    (c : ℕ) (r : CacheRefs) (m : Caches)
    → lookup c m.cache ≡ some r
    → lookup c (unref c m).cache ≡ fewer r
unfolding unref
unref-lookup c r m e = elim (Bool-cases (r.refs - 1 == 0)) [
  | inl z ↦ ground (arith, e, z, lookup-erase c c m.cache)
  | inr z ↦ ground (arith, e, z, lookup-insert c c (record r { refs = r.refs - 1 }) m.cache)
]

unref_absent : (c : ℕ) (m : Caches) → lookup c m.cache ≡ none → lookup c (unref c m).cache ≡ none
unfolding unref
unref_absent c m e = ground (arith, e)

unref-timers : (c : ℕ) (m : Caches) → (unref c m).timers ≡ m.timers
unfolding unref
unref-timers c m = ground arith

get_new : (c : ℕ) (m : Caches) → lookup c m.cache ≡ none → (get c m).0 ≡ m.new_caches
unfolding get
get_new c m e = ground (arith, e)

-- The caches once the request ended and the timer that it started has expired.
abbrev pub ended : ℕ → Caches → Caches
ended c m = timer_expires (unref c m).new_timers (delayed_unref c false m)

abbrev ended_caches : ℕ → Caches → Caches
ended_caches c m =
    let m1 = unref c m in
    let started = insert m1.new_timers c m1.timers in
    record m1 { timers = erase m1.new_timers started; new_timers = suc m1.new_timers }

ended_lem : (c : ℕ) (m : Caches) → ended c m ≡ unref c (ended_caches c m)
unfolding timer_expires delayed_unref
ended_lem c m =
    ground (arith, lookup-insert (unref c m).new_timers (unref c m).new_timers c (unref c m).timers)

-- A request that ends without an error gives back two references of its cache, one at once and one
-- when the timer expires that is started all the same: with two requests on a cache, or one, no
-- entry is left, and the next request gets a cache of its own.
pub delayed_unref-drops_two :
    (c : ℕ) (r : CacheRefs) (m : Caches)
    → lookup c m.cache ≡ some r
    → let m' = ended c m in
      (lookup c m'.cache ≡ (if leb r.refs 2 then none else some (record r { refs = r.refs - 2 })))
      × (leb r.refs 2 ≡ true → (get c m').0 ≡ m'.new_caches)
delayed_unref-drops_two c r m e =
    let m2 = ended_caches c m in
    let left : lookup c (ended c m).cache
        ≡ (if leb r.refs 2 then none else some (record r { refs = r.refs - 2 })) =
      ap (λ x. lookup c x.cache) (ended_lem c m) ∙ elim (Bool-cases (r.refs - 1 == 0)) [
        | inl z ↦ unref_absent c m2 (unref-lookup c r m e ∙ ground (arith, z)) ∙ ground (arith, z)
        | inr z ↦
            unref-lookup c (record r { refs = r.refs - 1 }) m2
              (unref-lookup c r m e ∙ ground (arith, z))
            ∙ ground (arith, z)
      ] in
    (left, λ few. get_new c (ended c m) (left ∙ ground (arith, few)))
