-- ===== src/Limiter/Counting.antt =====
-- What the first loop of `check` counts, and that a transfer it has started stays uncounted.
use mathlib.Core.List.{append-nil, append_assoc}
use boost.Common.{
  ℕ, ◌+◌, ◌≡◌, inl, inr, refl, Bool, true, false, not, ◌&&◌, ◌||◌, leb, List, [], ◌∷◌, ◌++◌, arith,
  ◌==◌, All, contains, select, count_if, Bool-cases, ◌≤ℤ◌, sym,
}
use boost.Limiter.Queue.{QueuedTransfer, Limiter, is_started, is_fresh, time_sub}
use boost.Limiter.Check.{Survey, Plan, survey, survey_all, survey_one, copies, check}
use boost.Limiter.Starts.{Starts, nothing, start, check-Starts}

-- Started, and heard of within the stall timeout.
abbrev pub is_active : Limiter → ℕ → QueuedTransfer → Bool
is_active tl now x = is_started tl.closed x && is_fresh tl.cfg now x

-- Started, and not heard of.
abbrev pub is_stuck : Limiter → ℕ → QueuedTransfer → Bool
is_stuck tl now x = is_started tl.closed x && not (is_fresh tl.cfg now x)

abbrev pub any_from : ℕ → (QueuedTransfer → Bool) → List QueuedTransfer → Bool
any_from host q [] = false
any_from host q (x ∷ xs) = q x && x.host == host || any_from host q xs

survey_all-unstarted :
    (tl : Limiter) (now : ℕ) (s : Survey) (xs : List QueuedTransfer)
    → (survey_all tl now s xs).unstarted
      ≡ s.unstarted ++ select (λ x. not (is_started tl.closed x)) xs
unfolding survey_all survey_one
survey_all-unstarted tl now s [] = sym (append-nil s.unstarted)
survey_all-unstarted tl now s (x ∷ xs) = ground (
  arith,
  survey_all-unstarted tl now (survey_one tl now s x) xs,
  append_assoc s.unstarted (x ∷ []) (select (λ y. not (is_started tl.closed y)) xs),
)

survey_all-active_count :
    (tl : Limiter) (now : ℕ) (s : Survey) (xs : List QueuedTransfer)
    → (survey_all tl now s xs).active_count ≡ s.active_count + count_if (is_active tl now) xs
unfolding survey_all survey_one
survey_all-active_count tl now s [] = omega arith
survey_all-active_count tl now s (x ∷ xs) =
    ground (arith, survey_all-active_count tl now (survey_one tl now s x) xs)

survey_all-hosts :
    (tl : Limiter) (now host : ℕ) (s : Survey) (xs : List QueuedTransfer)
    → let s' = survey_all tl now s xs in
      (contains host s'.transferring
        ≡ (any_from host (is_started tl.closed) xs || contains host s.transferring))
      × (contains host s'.stalled ≡ (any_from host (is_stuck tl now) xs || contains host s.stalled))
unfolding survey_all survey_one
survey_all-hosts tl now host s [] = (refl, refl)
survey_all-hosts tl now host s (x ∷ xs) =
    ground (arith, survey_all-hosts tl now host (survey_one tl now s x) xs)

-- The first loop of `check` counts as active the transfers that are started and were heard of
-- within the stall timeout; lists those that are not started, in the map's order; and knows as
-- transferring, and as stalled, exactly the hosts of a started transfer and of one not heard of.
pub survey_lem :
    (tl : Limiter) (now host : ℕ)
    → let s = survey tl now in
      (s.active_count ≡ count_if (is_active tl now) (copies tl))
      × (s.unstarted ≡ select (λ x. not (is_started tl.closed x)) (copies tl))
      × (contains host s.transferring ≡ any_from host (is_started tl.closed) (copies tl))
      × (contains host s.stalled ≡ any_from host (is_stuck tl now) (copies tl))
unfolding survey
survey_lem tl now host =
    let none_yet : Survey = record {
      active_count = 0;
      transferring = [];
      stalled = [];
      unstarted = [];
    } in
    let (transferring, stalled) = survey_all-hosts tl now host none_yet (copies tl) in
    (
      omega (arith, survey_all-active_count tl now none_yet (copies tl)),
      survey_all-unstarted tl now none_yet (copies tl),
      ground (arith, transferring),
      ground (arith, stalled),
    )

-- What is started stays started.
Starts-mono :
    {p : Plan} {closed closed' : List ℕ} {n : ℕ} (x : QueuedTransfer)
    → Starts p closed closed' n
    → is_started closed x ≡ true
    → is_started closed' x ≡ true
unfolding is_started
Starts-mono x nothing h = h
Starts-mono x (start y m f e s) h = Starts-mono x s (ground (arith, h))

check_mono :
    (now clock : ℕ) (tl : Limiter) (x : QueuedTransfer)
    → is_started tl.closed x ≡ true
    → is_started (check now clock tl).closed x ≡ true
check_mono now clock tl x h =
    let (same, room, full) = check-Starts now clock tl in
    elim (Bool-cases (leb tl.cfg.max_concurrent (survey tl now).active_count)) [
      | inl e ↦ rw (full (ground (arith, e))) h
      | inr e ↦ Starts-mono x (room (ground (arith, e))).1 h
    ]

-- A transfer that waits has not been heard of: its time is the zero time.
abbrev pub Unheard : Limiter → Type 0
Unheard tl = All (λ x. is_started tl.closed x ≡ false → x.updated_at ≡ 0) (copies tl)

pub count_same :
    (now clock later : ℕ) (tl : Limiter) (xs : List QueuedTransfer)
    → tl.cfg.stall_timeout ≤ℤ time_sub later 0
    → All (λ x. is_started tl.closed x ≡ false → x.updated_at ≡ 0) xs
    → count_if (λ x. is_started (check now clock tl).closed x && is_fresh tl.cfg later x) xs
      ≡ count_if (is_active tl later) xs
unfolding is_fresh
count_same now clock later tl [] h u = refl
count_same now clock later tl (x ∷ xs) h u =
    ground (arith, count_same now clock later tl xs h u.1, check_mono now clock tl x, u.0)
