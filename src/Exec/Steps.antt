-- ===== src/Exec/Steps.antt =====
-- From one state of an execution to a later one: what never goes back, and what is done once.
pub mod Transfer
pub mod Publish
pub mod Seal
pub mod Stages
pub mod Run
use boost.Common.{
  ℕ, ◌+◌, ◌≤◌, ◌<◌, ◌≡◌, refl, Bool, true, false, List, Option, none, some, if◌then◌else◌, ltb,
  arith, count_if, ok, err, Result, Result-cases, inl, inr, ◌>>=◌, Bool-cases, sym, subst, ◌∙◌,
}
use boost.Deal.{Checkpoint, rank, Retry}
use boost.Exec.World.{
  World, CallError, call, result_or_fail, or_fail, Stop, deal_error, panic, Env, Exec, Effect,
  published_msg, piece_handed, finished_request, update_failed, when, deals_update,
  update_checkpoint, check_deal_proposal_start_epoch, save_deal_to_db,
}

abbrev pub is_published_msg : Effect → Bool
is_published_msg published_msg = true
is_published_msg _ = false

abbrev pub is_piece_handed : Effect → Bool
is_piece_handed piece_handed = true
is_piece_handed _ = false

-- How often the deal was published, and handed to the sealer.
abbrev pub publishes : World → ℕ
publishes w = count_if is_published_msg w.effects

abbrev pub hand_offs : World → ℕ
hand_offs w = count_if is_piece_handed w.effects

abbrev pub is_finished_request : Effect → Bool
is_finished_request finished_request = true
is_finished_request _ = false

-- How often the event loop was told that the deal is finished.
abbrev pub finishes : World → ℕ
finishes w = count_if is_finished_request w.effects

-- 1 where the deal is before the checkpoint of this rank.
abbrev pub room : ℕ → World → ℕ
room n w = if ltb (rank w.deal.checkpoint) n then 1 else 0

abbrev pub is_update_failed : Effect → Bool
is_update_failed update_failed = true
is_update_failed _ = false

-- How many updates of the deal's row failed.
abbrev pub lost_updates : World → ℕ
lost_updates w = count_if is_update_failed w.effects

-- The row is of the deal in memory, and not ahead of it.
abbrev pub Behind : World → Type 0
Behind w =
    (rank w.stored.checkpoint ≤ rank w.deal.checkpoint)
    × (w.stored.proposal ≡ w.deal.proposal)
    × (w.stored.deal_uuid ≡ w.deal.deal_uuid)

-- The row keeps up: it does not go back, and a row that was at the checkpoint of the deal in memory
-- still is unless an update failed.
unfoldable pub Kept : World → World → Type 0
Kept w w' =
    (lost_updates w ≤ lost_updates w')
    × (Behind w → Behind w')
    × (Behind w → rank w.stored.checkpoint ≤ rank w'.stored.checkpoint)
    × (lost_updates w' ≡ lost_updates w
        → rank w.stored.checkpoint ≡ rank w.deal.checkpoint
        → rank w'.stored.checkpoint ≡ rank w'.deal.checkpoint)

-- The checkpoint does not go back; a publication uses up the room before Published, a hand-off
-- the room before AddedPiece; the deal stays the same deal.
unfoldable pub Step : World → World → Type 0
Step w w' =
    (rank w.deal.checkpoint ≤ rank w'.deal.checkpoint)
    × (publishes w' + room 2 w' ≤ publishes w + room 2 w)
    × (hand_offs w' + room 4 w' ≤ hand_offs w + room 4 w)
    × (w'.deal.proposal ≡ w.deal.proposal)
    × (w'.deal.deal_uuid ≡ w.deal.deal_uuid)
    × Kept w w'

-- None of that changes, and no request that the deal is finished is lost.
unfoldable pub Quiet : World → World → Type 0
Quiet w w' =
    (rank w'.deal.checkpoint ≡ rank w.deal.checkpoint)
    × (publishes w' ≡ publishes w)
    × (hand_offs w' ≡ hand_offs w)
    × (w'.deal.proposal ≡ w.deal.proposal)
    × (w'.deal.deal_uuid ≡ w.deal.deal_uuid)
    × (finishes w ≤ finishes w')
    × Kept w w'

Kept-refl : (w : World) → Kept w w
unfolding Kept
Kept-refl w = (omega arith, λ b. b, λ b. omega arith, λ l s. s)

Kept-trans : (a b c : World) → Kept a b → Kept b c → Kept a c
unfolding Kept
Kept-trans a b c (m, k, r, s) (m', k', r', s') = (
  omega arith,
  λ h. k' (k h),
  λ h. omega (arith, r h, r' (k h)),
  λ l e. s' (omega arith) (s (omega arith) e),
)

pub Quiet-refl : (w : World) → Quiet w w
unfolding Quiet Kept
Quiet-refl w = (refl, refl, refl, refl, refl, omega arith, Kept-refl w)

pub Quiet-trans : (a b c : World) → Quiet a b → Quiet b c → Quiet a c
unfolding Quiet
Quiet-trans a b c (r, p, h, q, u, n, k) (r', p', h', q', u', n', k') =
    (r' ∙ r, p' ∙ p, h' ∙ h, q' ∙ q, u' ∙ u, omega arith, Kept-trans a b c k k')

pub Quiet-Step : (w w' : World) → Quiet w w' → Step w w'
unfolding Quiet Step Kept
Quiet-Step w w' (r, p, h, q, u, n, k) =
    (omega arith, ground (arith, r, p), ground (arith, r, h), q, u, k)

pub Step-trans : (a b c : World) → Step a b → Step b c → Step a c
unfolding Step
Step-trans a b c (r, p, h, q, u, k) (r', p', h', q', u', k') =
    (omega arith, omega arith, omega arith, q' ∙ q, u' ∙ u, Kept-trans a b c k k')

-- A method is a chain of methods: a property of each goes over to the chain.
pub Quiet-bind :
    {A B : Type 0} (m : Exec A) (f : A → Exec B) (w : World)
    → Quiet w (m w).1
    → ((a : A) (w' : World) → Quiet w' (f a w').1)
    → Quiet w ((m >>= f) w).1
Quiet-bind m f w first then_ = elim (Result-cases (m w).0) [
  | inl (a, e) ↦ ground (arith, e, Quiet-trans w (m w).1 (f a (m w).1).1 first (then_ a (m w).1))
  | inr (x, e) ↦ ground (arith, e, first)
]

pub Step-bind :
    {A B : Type 0} (m : Exec A) (f : A → Exec B) (w : World)
    → Step w (m w).1
    → ((a : A) (w' : World) → Step w' (f a w').1)
    → Step w ((m >>= f) w).1
Step-bind m f w first then_ = elim (Result-cases (m w).0) [
  | inl (a, e) ↦ ground (arith, e, Step-trans w (m w).1 (f a (m w).1).1 first (then_ a (m w).1))
  | inr (x, e) ↦ ground (arith, e, first)
]

pub still :
    (w w' : World) (n : ℕ) → rank w.deal.checkpoint ≤ n → Quiet w w' → rank w'.deal.checkpoint ≤ n
unfolding Quiet
still w w' n low (r, p, h, q, u, m, k) = omega arith

-- A part after which the checkpoint is at most the n-th, and one that may assume it.
pub Step-then :
    {A B : Type 0} (m : Exec A) (f : A → Exec B) (w : World) (n : ℕ)
    → Step w (m w).1
    → rank (m w).1.deal.checkpoint ≤ n
    → ((a : A) (w' : World) → rank w'.deal.checkpoint ≤ n → Step w' (f a w').1)
    → Step w ((m >>= f) w).1
Step-then m f w n first low then_ = elim (Result-cases (m w).0) [
  | inl (a, e) ↦ ground (arith, e, Step-trans w (m w).1 (f a (m w).1).1 first (then_ a (m w).1 low))
  | inr (x, e) ↦ ground (arith, e, first)
]

pub Quiet-then :
    {A B : Type 0} (m : Exec A) (f : A → Exec B) (w : World) (n : ℕ)
    → rank w.deal.checkpoint ≤ n
    → Quiet w (m w).1
    → ((a : A) (w' : World) → rank w'.deal.checkpoint ≤ n → Step w' (f a w').1)
    → Step w ((m >>= f) w).1
Quiet-then m f w n low q then_ =
    Step-then m f w n (Quiet-Step w (m w).1 q) (still w (m w).1 n low q) then_

pub Quiet-call : {A : Type 0} (f : ℕ → A) (w : World) → Quiet w (call f w).1
unfolding Quiet Kept
Quiet-call f w = (refl, refl, refl, refl, refl, omega arith, ground arith)

-- Calls alone are quiet.
pub Quiet-counted : (w w' : World) → w' ≡ record w { calls = w'.calls } → Quiet w w'
unfolding Quiet Kept
Quiet-counted w w' same = subst (Quiet w) (sym same) (ground arith)

pub Quiet-result_or_fail :
    {A : Type 0} (r : Result CallError A) (retry : Retry) (w : World)
    → Quiet w (result_or_fail r retry w).1
Quiet-result_or_fail (ok a) retry w = Quiet-refl w
Quiet-result_or_fail (err e) retry w = Quiet-refl w

pub Quiet-or_fail :
    (r : Option CallError) (retry : Retry) (w : World) → Quiet w (or_fail r retry w).1
Quiet-or_fail none retry w = Quiet-refl w
Quiet-or_fail (some e) retry w = Quiet-refl w

-- `if c { m() }`.
pub Quiet-when :
    (b : Bool) (m : Exec (Unit {0})) (w : World) → Quiet w (m w).1 → Quiet w (when b m w).1
Quiet-when true m w h = h
Quiet-when false m w h = Quiet-refl w

pub Step-when :
    (b : Bool) (m : Exec (Unit {0})) (w : World)
    → (b ≡ true → Step w (m w).1)
    → Step w (when b m w).1
Step-when true m w h = h refl
Step-when false m w h = Quiet-Step w w (Quiet-refl w)

-- `if c { m() } else { k() }`.
pub Quiet-if :
    {A : Type 0} (b : Bool) (m k : Exec A) (w : World)
    → Quiet w (m w).1
    → Quiet w (k w).1
    → Quiet w ((if b then m else k) w).1
Quiet-if true m k w h g = h
Quiet-if false m k w h g = g

module _ (env : Env) where
  pub Quiet-deals_update : (w : World) → Quiet w (deals_update env w).1
  unfolding deals_update Quiet Kept
  Quiet-deals_update w = ground arith

  pub Quiet-save_deal_to_db : (w : World) → Quiet w (save_deal_to_db env w).1
  unfolding save_deal_to_db deals_update Quiet Kept
  Quiet-save_deal_to_db w = ground arith

  pub Quiet-check_deal_proposal_start_epoch :
      (w : World) → Quiet w (check_deal_proposal_start_epoch env w).1
  unfolding check_deal_proposal_start_epoch Quiet Kept
  Quiet-check_deal_proposal_start_epoch w = ground arith

  pub Step-update_checkpoint :
      (c : Checkpoint) (w : World)
      → rank w.deal.checkpoint ≤ rank c
      → Step w (update_checkpoint env c w).1
  unfolding update_checkpoint deals_update Step Kept
  Step-update_checkpoint c w h = ground (arith, h)
