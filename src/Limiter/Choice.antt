-- ===== src/Limiter/Choice.antt =====
-- Which transfer `nextTransfer` chooses.
use boost.Common.{
  ℕ, ◌≡◌, refl, Bool, not, ◌&&◌, leb, List, [], ◌∷◌, Option, none, some, arith, contains, find_if,
}
use boost.Limiter.Queue.{QueuedTransfer, is_started}
use boost.Limiter.Check.{Plan, or_else, scan, next_transfer, started_count}

-- May be started: it is not started, and its host has no stalled transfer or the soft limit is not
-- reached.
abbrev pub eligible : Plan → List ℕ → ℕ → QueuedTransfer → Bool
eligible p closed count x =
    not (is_started closed x) && not (contains x.host p.stalled_peers && leb p.max_concurrent count)

-- Besides, nothing is being transferred from its host.
abbrev pub lone : Plan → List ℕ → List ℕ → ℕ → QueuedTransfer → Bool
lone p closed transferring count x = eligible p closed count x && not (contains x.host transferring)

scan_lem :
    (p : Plan) (closed transferring : List ℕ) (count : ℕ) (next : Option QueuedTransfer)
    (xs : List QueuedTransfer)
    → scan p closed transferring count next xs
      ≡ or_else
          (find_if (lone p closed transferring count) xs)
          (or_else next (find_if (eligible p closed count) xs))
unfolding scan
scan_lem p closed transferring count none [] = refl
scan_lem p closed transferring count (some n) [] = refl
scan_lem p closed transferring count next (x ∷ xs) = ground (
  arith,
  scan_lem p closed transferring count next xs,
  scan_lem p closed transferring count (or_else next (some x)) xs,
)

-- `nextTransfer` gives the first transfer of the queue that may be started and from whose host
-- nothing is being transferred, or else the first that may be started, or else nothing.
pub next_transfer-eq :
    (p : Plan) (closed transferring : List ℕ)
    → let count = started_count closed p.all_xfers in
      next_transfer p closed transferring
      ≡ or_else
          (find_if (lone p closed transferring count) p.queue)
          (find_if (eligible p closed count) p.queue)
unfolding next_transfer
next_transfer-eq p closed transferring =
    scan_lem p closed transferring (started_count closed p.all_xfers) none p.queue
