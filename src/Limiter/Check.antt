-- ===== src/Limiter/Check.antt =====
-- `check`: which transfers a tick of the limiter starts.
use boost.Common.{
  ℕ, zero, suc, ◌+◌, ◌-◌, ltb, leb, not, ◌&&◌, List, [], ◌∷◌, ◌++◌, map, Option, none, some,
  if◌then◌else◌, contains, count_if,
}
use boost.Limiter.Queue.{QueuedTransfer, Limiter, is_started, is_fresh}

-- What the first loop of `check` gathers. Sets of hosts are lists.
pub record Survey : Type 0 where
  pub active_count : ℕ
  pub transferring : List ℕ
  pub stalled : List ℕ
  pub unstarted : List QueuedTransfer

unfoldable pub survey_one : Limiter → ℕ → Survey → QueuedTransfer → Survey
survey_one tl now s x =
    if not (is_started tl.closed x)
    then record s { unstarted = s.unstarted ++ x ∷ [] }
    else if is_fresh tl.cfg now x
    then record s { transferring = x.host ∷ s.transferring; active_count = s.active_count + 1 }
    else record s { transferring = x.host ∷ s.transferring; stalled = x.host ∷ s.stalled }

unfoldable pub survey_all : Limiter → ℕ → Survey → List QueuedTransfer → Survey
survey_all tl now s [] = s
survey_all tl now s (x ∷ xs) = survey_all tl now (survey_one tl now s x) xs

-- The copies of the map's transfers.
abbrev pub copies : Limiter → List QueuedTransfer
copies tl = map (λ entry. entry.1) tl.xfers

unfoldable pub survey : Limiter → ℕ → Survey
survey tl now =
    survey_all tl now (record { active_count = 0; transferring = []; stalled = []; unstarted = [] })
      (copies tl)

-- `sort.Slice` by `CreatedAt`, oldest first.
abbrev pub age : QueuedTransfer → ℕ
age x = x.deal.created_at

unfoldable pub insert_by_age : QueuedTransfer → List QueuedTransfer → List QueuedTransfer
insert_by_age x [] = x ∷ []
insert_by_age x (y ∷ ys) =
    let rest = insert_by_age x ys in if ltb (age y) (age x) then y ∷ rest else x ∷ y ∷ ys

unfoldable pub sort_by_age : List QueuedTransfer → List QueuedTransfer
sort_by_age [] = []
sort_by_age (x ∷ xs) = insert_by_age x (sort_by_age xs)

unfoldable pub started_count : List ℕ → List QueuedTransfer → ℕ
started_count closed = count_if (is_started closed)

abbrev pub or_else {ℓ} : {A : Type ℓ} → Option A → Option A → Option A
or_else none b = b
or_else (some a) b = some a

-- What `nextTransfer` reads that does not change from call to call.
pub record Plan : Type 0 where
  pub max_concurrent : ℕ
  pub all_xfers : List QueuedTransfer
  pub stalled_peers : List ℕ
  pub queue : List QueuedTransfer

-- The loop of `nextTransfer`, on the variable `next`.
unfoldable pub scan :
    Plan → List ℕ → List ℕ → ℕ → Option QueuedTransfer → List QueuedTransfer → Option QueuedTransfer
scan p closed transferring count next [] = next
scan p closed transferring count next (x ∷ xs) =
    let skip = scan p closed transferring count next xs in
    let keep = scan p closed transferring count (or_else next (some x)) xs in
    if is_started closed x
    then skip
    else if contains x.host p.stalled_peers && leb p.max_concurrent count
    then skip
    else if contains x.host transferring
    then keep
    else some x

unfoldable pub next_transfer : Plan → List ℕ → List ℕ → Option QueuedTransfer
next_transfer p closed transferring =
    scan p closed transferring (started_count closed p.all_xfers) none p.queue

-- The variables of the last loop. `written` are the copies as the loop leaves them: the new
-- `updatedAt` goes to the copy, which no later code reads, and not to the map's transfer.
pub record Round : Type 0 where
  pub closed : List ℕ
  pub transferring : List ℕ
  pub written : List QueuedTransfer

unfoldable pub start_one : ℕ → Round → QueuedTransfer → Round
start_one clock r next = record {
  closed = next.started ∷ r.closed;
  transferring = next.host ∷ r.transferring;
  written = record next { updated_at = clock } ∷ r.written;
}

-- `for i := activeCount; i < MaxConcurrent; i++`, on the number of rounds left.
unfoldable pub start_loop : Plan → ℕ → ℕ → Round → Round
start_loop p clock zero r = r
start_loop p clock (suc rounds) r = elim (next_transfer p r.closed r.transferring) [
  | none ↦ r
  | some next ↦ start_loop p clock rounds (start_one clock r next)
]

abbrev pub plan_of : Limiter → Survey → Plan
plan_of tl s = record {
  max_concurrent = tl.cfg.max_concurrent;
  all_xfers = copies tl;
  stalled_peers = s.stalled;
  queue = sort_by_age s.unstarted;
}

abbrev pub start_of : Limiter → Survey → Round
start_of tl s = record { closed = tl.closed; transferring = s.transferring; written = [] }

-- `check(now)`; `clock` is what `time.Now()` gives in it.
unfoldable pub check : ℕ → ℕ → Limiter → Limiter
check now clock tl =
    let s = survey tl now in
    if leb tl.cfg.max_concurrent s.active_count then tl else record tl {
      closed =
          (start_loop (plan_of tl s) clock (tl.cfg.max_concurrent - s.active_count)
            (start_of tl s)).closed;
    }
