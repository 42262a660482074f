-- ===== src/Limiter/Oldest.antt =====
-- `nextTransfer` on the queue that `check` builds: the oldest transfer goes first, but one from a
-- host with nothing under way goes before any other.
use mathlib.Core.Path.{sym}
use boost.Common.{
  ℕ, ◌≤◌, ◌≡◌, ◌⊎◌, ◌∙◌, inl, inr, Bool, false, true, List, some, arith, find_if, find_if-true,
  find_if-none, Option-cases, All,
}
use boost.Limiter.Queue.{QueuedTransfer}
use boost.Limiter.Check.{Plan, or_else, next_transfer, started_count, age, sort_by_age}
use boost.Limiter.Choice.{eligible, lone, next_transfer-eq}
use boost.Limiter.Order.{SortedByAge, sort-SortedByAge, find_if-oldest, sort-All}

-- Where the queue is the transfers `waiting` sorted by age, the transfer that `nextTransfer` gives
-- may be started; if nothing is under way from its host it is the oldest such transfer; otherwise
-- no transfer that may be started has such a host, and it is the oldest that may be started.
pub next_transfer-oldest :
    (p : Plan) (waiting : List QueuedTransfer) (closed transferring : List ℕ) (t : QueuedTransfer)
    → p.queue ≡ sort_by_age waiting
    → next_transfer p closed transferring ≡ some t
    → let count = started_count closed p.all_xfers in
      ((lone p closed transferring count t ≡ true)
        × All (λ x. lone p closed transferring count x ≡ true → age t ≤ age x) waiting)
      ⊎ ((eligible p closed count t ≡ true)
          × All (λ x. lone p closed transferring count x ≡ false) waiting
          × All (λ x. eligible p closed count x ≡ true → age t ≤ age x) waiting)
next_transfer-oldest p waiting closed transferring t q h =
    elim (Option-cases (find_if first p.queue)) [
      | inl e ↦
          let found : find_if second p.queue ≡ some t = ground (arith, chosen, e) in
          inr (
            find_if-true second p.queue t found,
            sort-All (λ x. first x ≡ false) waiting (rw q at (find_if-none first p.queue e)),
            sort-All (λ x. second x ≡ true → age t ≤ age x) waiting
                (rw q at (find_if-oldest second p.queue t sorted found)),
          )
      | inr (u, e) ↦
          let found : find_if first p.queue ≡ some t = ground (arith, chosen, e) in
          inl (
            find_if-true first p.queue t found,
            sort-All (λ x. first x ≡ true → age t ≤ age x) waiting
                (rw q at (find_if-oldest first p.queue t sorted found)),
          )
    ]
  where
    first : QueuedTransfer → Bool
    first = lone p closed transferring (started_count closed p.all_xfers)

    second : QueuedTransfer → Bool
    second = eligible p closed (started_count closed p.all_xfers)

    sorted : SortedByAge p.queue
    sorted = rw q (sort-SortedByAge waiting)

    chosen : or_else (find_if first p.queue) (find_if second p.queue) ≡ some t
    chosen = sym (next_transfer-eq p closed transferring) ∙ h
