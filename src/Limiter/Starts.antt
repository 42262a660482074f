-- ===== src/Limiter/Starts.antt =====
-- What one `check` starts: no more than the slots, only transfers that may be started, and none is
-- left that may be while a slot is.
use mathlib.Core.List.{Memᴰ}
use boost.Common.{
  ℕ, zero, suc, ◌-◌, ◌≤◌, ◌<◌, ◌≡◌, ◌⊎◌, inl, inr, refl, Bool, true, false, List, [], ◌∷◌, Option,
  none, some, arith, find_if, find_if-true, find_if-none, find_if-All, Option-cases, All, sym, ◌∙◌,
  ap,
}
use boost.Limiter.Queue.{QueuedTransfer, Limiter, is_started}
use boost.Limiter.Check.{
  Plan, Round, Survey, or_else, next_transfer, started_count, start_one, start_loop, check, survey,
  plan_of, start_of,
}
use boost.Limiter.Choice.{eligible, lone, next_transfer-eq}

-- From one set of closed channels to another by starting `n` transfers of the queue, of which each
-- was not started and might be.
pub data Starts (p : Plan) : List ℕ → List ℕ → ℕ → Type 0 where
  nothing : {closed : List ℕ} → Starts p closed closed 0
  start :
      {closed closed' : List ℕ} {n : ℕ} (x : QueuedTransfer)
      → Memᴰ x p.queue
      → is_started closed x ≡ false
      → eligible p closed (started_count closed p.all_xfers) x ≡ true
      → Starts p (x.started ∷ closed) closed' n
      → Starts p closed closed' (suc n)

-- No transfer of the queue may be started any more.
abbrev pub Exhausted : Plan → List ℕ → Type 0
Exhausted p closed =
    All (λ x. eligible p closed (started_count closed p.all_xfers) x ≡ false) p.queue

All-members : (xs : List QueuedTransfer) → All (λ x. Memᴰ x xs) xs
All-members xs = grow xs (λ x m. m)
  where
    grow :
        (ys : List QueuedTransfer)
        → ((x : QueuedTransfer) → Memᴰ x ys → Memᴰ x xs)
        → All (λ x. Memᴰ x xs) ys
    grow [] into = tt
    grow (y ∷ ys) into = (into y (Memᴰ.head refl), grow ys (λ x m. into x (Memᴰ.tail m)))

chosen_eligible :
    (p : Plan) (closed transferring : List ℕ) (t : QueuedTransfer)
    → next_transfer p closed transferring ≡ some t
    → Memᴰ t p.queue × (eligible p closed (started_count closed p.all_xfers) t ≡ true)
chosen_eligible p closed transferring t h = elim (Option-cases (find_if first p.queue)) [
  | inl e ↦
      let found : find_if second p.queue ≡ some t = ground (arith, chosen, e) in
      (
        find_if-All second (λ x. Memᴰ x p.queue) p.queue t (All-members p.queue) found,
        find_if-true second p.queue t found,
      )
  | inr (u, e) ↦
      let found : find_if first p.queue ≡ some t = ground (arith, chosen, e) in
      (
        find_if-All first (λ x. Memᴰ x p.queue) p.queue t (All-members p.queue) found,
        ground (arith, find_if-true first p.queue t found),
      )
]
  where
    first : QueuedTransfer → Bool
    first = lone p closed transferring (started_count closed p.all_xfers)

    second : QueuedTransfer → Bool
    second = eligible p closed (started_count closed p.all_xfers)

    chosen : or_else (find_if first p.queue) (find_if second p.queue) ≡ some t
    chosen = sym (next_transfer-eq p closed transferring) ∙ h

none_eligible :
    (p : Plan) (closed transferring : List ℕ)
    → next_transfer p closed transferring ≡ none
    → Exhausted p closed
none_eligible p closed transferring h =
    find_if-none (eligible p closed (started_count closed p.all_xfers)) p.queue
      (second_none _ _ (sym (next_transfer-eq p closed transferring) ∙ h))
  where
    second_none : (a b : Option QueuedTransfer) → or_else a b ≡ none → b ≡ none
    second_none none b e = e
    second_none (some a) b e = absurd (ground arith)

pub start_loop-none :
    (p : Plan) (clock rounds : ℕ) (r : Round)
    → next_transfer p r.closed r.transferring ≡ none
    → start_loop p clock (suc rounds) r ≡ r
unfolding start_loop
start_loop-none p clock rounds r e = rw (e, start_loop)

pub start_loop-some :
    (p : Plan) (clock rounds : ℕ) (r : Round) (t : QueuedTransfer)
    → next_transfer p r.closed r.transferring ≡ some t
    → start_loop p clock (suc rounds) r ≡ start_loop p clock rounds (start_one clock r t)
unfolding start_loop
start_loop-some p clock rounds r t e = rw (e, start_loop)

-- The closed channels after some rounds, and how the loop ended.
abbrev pub Outcome : Plan → ℕ → List ℕ → List ℕ → Type 0
Outcome p rounds closed closed' =
    (n : ℕ) × Starts p closed closed' n × (n ≤ rounds) × ((n ≡ rounds) ⊎ Exhausted p closed')

start_loop-Outcome :
    (p : Plan) (clock rounds : ℕ) (r : Round)
    → Outcome p rounds r.closed (start_loop p clock rounds r).closed
unfolding start_one
start_loop-Outcome p clock zero r = unfold start_loop in (0, nothing, omega arith, inl refl)
start_loop-Outcome p clock (suc rounds) r =
    elim (Option-cases (next_transfer p r.closed r.transferring)) [
      | inl e ↦
          rw (start_loop-none p clock rounds r e)
            (0, nothing, omega arith, inr (none_eligible p r.closed r.transferring e))
      | inr (t, e) ↦
          let (n, s, le, end) = start_loop-Outcome p clock rounds (start_one clock r t) in
          let (m, ok) = chosen_eligible p r.closed r.transferring t e in
          rw (start_loop-some p clock rounds r t e)
            (suc n, start t m (ground (arith, ok)) ok s, omega arith, later n rounds end)
    ]
  where
    later : {A : Type 0} (n k : ℕ) → (n ≡ k) ⊎ A → (suc n ≡ suc k) ⊎ A
    later n k (inl q) = inl (ap suc q)
    later n k (inr a) = inr a

pub check-closed :
    (now clock : ℕ) (tl : Limiter)
    → let s = survey tl now in
      s.active_count < tl.cfg.max_concurrent
      → (check now clock tl).closed
        ≡ (start_loop
            (plan_of tl s)
            clock
            (tl.cfg.max_concurrent - s.active_count)
            (start_of tl s)).closed
unfolding check
check-closed now clock tl h = ground arith

-- What one `check` does. With fewer active transfers than the limit it starts some number of
-- transfers that is at most the number of free slots, each of which was waiting, in the queue of
-- that check, and allowed by the soft limit at that moment; and either every slot is used or no
-- transfer of the queue may be started any more. Otherwise it changes nothing. The map of
-- transfers stays as it was.
pub check-Starts :
    (now clock : ℕ) (tl : Limiter)
    → let s = survey tl now in
      let p = plan_of tl s in
      let tl' = check now clock tl in
      (tl'.xfers ≡ tl.xfers)
      × (s.active_count < tl.cfg.max_concurrent
          → Outcome p (tl.cfg.max_concurrent - s.active_count) tl.closed tl'.closed)
      × (tl.cfg.max_concurrent ≤ s.active_count → tl' ≡ tl)
unfolding check
check-Starts now clock tl = (
  ground arith,
  λ h.
      rw (check-closed now clock tl h)
        (start_loop-Outcome (plan_of tl s) clock slots (start_of tl s)),
  λ h. ground arith,
)
  where
    s : Survey
    s = survey tl now

    slots : ℕ
    slots = tl.cfg.max_concurrent - s.active_count
