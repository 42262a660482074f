-- ===== src/Direct/Sealing.antt =====
-- storagemarket/direct_deals_provider.go: the waits for a sector and for the claim of a deal.
use boost.Common.{
  ℕ, ltb, Bool, true, false, List, [], ◌∷◌, Option, none, some, ◌==◌, if◌then◌else◌, Result, ok,
  err,
}
use boost.Exec.World.{SectorState, failed_unrecoverable, no_state}
use boost.Exec.Seal.{is_final_sealing_state}

pub data SealingError : Type 0 where
  claim_error claim_mismatch no_claim_found shut_down sealing_failed : SealingError

-- What the node and the sealer answer when they are asked: the sector's state, none for an error;
-- the claim, by the sector that it names, `some none` for no claim and none for an error; and the
-- seconds since the wait began.
pub record Look : Type 0 where
  pub status : Option SectorState
  pub claim : Option (Option ℕ)
  pub waited : ℕ

abbrev pub Wait : Type 0
Wait = Result SealingError (Unit {0})

-- Whether the claim is of the sector, and whether there is one.
unfoldable pub confirm_claim : ℕ → Look → Result SealingError (Bool × Bool)
confirm_claim sector l = elim l.claim [
  | none ↦ err claim_error
  | some none ↦ ok (false, false)
  | some (some s) ↦ ok (s == sector, true)
]

unfoldable pub check_sealing_finalized : Look → Bool
check_sealing_finalized l = elim l.status [ none ↦ false | some s ↦ is_final_sealing_state s ]

-- What a look at a sector that is final comes to; none is to look again.
unfoldable pub settle_claim : ℕ → Look → Option Wait
settle_claim sector l = elim (confirm_claim sector l) [
  | err e ↦ some (err e)
  | ok (claimed, found) ↦
      if found then (if claimed then some (ok tt) else some (err claim_mismatch)) else none
]

unfoldable pub look_once : ℕ → Look → Option Wait
look_once sector l = if check_sealing_finalized l then settle_claim sector l else none

-- The wait of ten minutes ends only a look at a sector that is final.
unfoldable pub look_again : ℕ → Look → Option Wait
look_again sector l = elim (look_once sector l) [
  | some r ↦ some r
  | none ↦
      if check_sealing_finalized l
      then (if ltb 600 l.waited then some (err no_claim_found) else none)
      else none
]

-- The ticks that come before the provider is shut down.
unfoldable pub watch_ticks : ℕ → List Look → Wait
watch_ticks sector [] = err shut_down
watch_ticks sector (l ∷ ls) = elim (look_again sector l) [
  | some r ↦ r
  | none ↦ watch_ticks sector ls
]

unfoldable pub watch_sealing_updates : ℕ → Look → List Look → Wait
watch_sealing_updates sector first ticks = elim (look_once sector first) [
  | some r ↦ r
  | none ↦ watch_ticks sector ticks
]

-- A failing call gives no state.
abbrev pub state_of : Option SectorState → SectorState
state_of none = no_state
state_of (some s) = s

abbrev pub is_failed : SectorState → Bool
is_failed failed_unrecoverable = true
is_failed _ = false

unfoldable pub track_ticks : List (Option SectorState) → Wait
track_ticks [] = ok tt
track_ticks (s ∷ ss) =
    let rest = track_ticks ss in
    if is_final_sealing_state (state_of s)
    then (if is_failed (state_of s) then err sealing_failed else ok tt)
    else rest

unfoldable pub track_curio_sealing : Option SectorState → List (Option SectorState) → Wait
track_curio_sealing first ticks =
    if is_final_sealing_state (state_of first) then ok tt else track_ticks ticks
