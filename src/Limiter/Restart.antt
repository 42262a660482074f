-- ===== src/Limiter/Restart.antt =====
-- The time that `check` sets goes to a copy: a transfer that it has started counts as stalled until
-- its first byte arrives.
use boost.Common.{ℕ, ◌≡◌, true, some, arith, lookup, ◌≤ℤ◌, ◌∙◌, sym}
use boost.Limiter.Queue.{QueuedTransfer, Limiter, is_started, is_fresh, is_stalled, time_sub}
use boost.Limiter.Check.{survey, copies, check}
use boost.Limiter.Starts.{check-Starts}
use boost.Limiter.Counting.{survey_lem, Unheard, count_same}

check-cfg : (now clock : ℕ) (tl : Limiter) → (check now clock tl).cfg ≡ tl.cfg
unfolding check
check-cfg now clock tl = ground arith

-- Where no waiting transfer has been heard of, and the stall timeout is at most the time since the
-- zero time, a `check` leaves the number of active transfers that a later `check` counts, before
-- any byte arrives, as it was: those that it started are not among them, so that the later `check`
-- has all the slots again.
pub check-active_count :
    (now clock later : ℕ) (tl : Limiter)
    → Unheard tl
    → tl.cfg.stall_timeout ≤ℤ time_sub later 0
    → (survey (check now clock tl) later).active_count ≡ (survey tl later).active_count
check-active_count now clock later tl u t =
    (survey_lem (check now clock tl) later 0).0
    ∙ rw (check-cfg now clock tl, (check-Starts now clock tl).0)
        (count_same now clock later tl (copies tl) t u)
    ∙ sym (survey_lem tl later 0).0

-- Such a transfer is reported as stalled as soon as it is started, whatever `check` started it.
pub is_stalled-check :
    (now clock later uuid : ℕ) (tl : Limiter) (x : QueuedTransfer)
    → lookup uuid tl.xfers ≡ some x
    → x.updated_at ≡ 0
    → is_started (check now clock tl).closed x ≡ true
    → tl.cfg.stall_timeout ≤ℤ time_sub later 0
    → is_stalled (check now clock tl) later uuid ≡ true
unfolding is_stalled is_fresh
is_stalled-check now clock later uuid tl x here zero on t =
    ground (arith, here, zero, on, check-cfg now clock tl, (check-Starts now clock tl).0)
