-- ===== src/Transfers/Sample.antt =====
-- storagemarket/transfers.go: `dealTransfers`. The locks make each method a step; a map is an
-- association list, gone through in the order of its keys' insertion.
use boost.Common.{
  ℕ, suc, ◌-◌, ◌==◌, ltb, List, [], ◌∷◌, ◌++◌, Option, none, some, length, if◌then◌else◌, lookup,
  insert, erase, drop,
}

pub record TransferPoint : Type 0 where
  pub at : ℕ
  pub bytes : ℕ

abbrev pub max_samples : ℕ
max_samples = 20

pub record DealTransfers : Type 0 where
  pub samples : List (ℕ × List TransferPoint)
  pub active : List (ℕ × ℕ)

unfoldable pub new_deal_transfers : DealTransfers
new_deal_transfers = record { samples = []; active = [] }

abbrev pub points_of : Option (List TransferPoint) → List TransferPoint
points_of none = []
points_of (some points) = points

-- A point is appended, and the earliest ones are sliced off.
unfoldable pub add_point : TransferPoint → List TransferPoint → List TransferPoint
add_point point points =
    let all = points ++ point ∷ [] in
    if ltb max_samples (length all) then drop (length all - max_samples) all else all

-- The first loop of `sample`.
unfoldable pub sample_active :
    ℕ → List (ℕ × ℕ) → List (ℕ × List TransferPoint) → List (ℕ × List TransferPoint)
sample_active now [] samples = samples
sample_active now ((deal, b) ∷ active) samples =
    let points = points_of (lookup deal samples) in
    sample_active now active
      (insert deal (add_point (record { at = now; bytes = b }) points) samples)

unfoldable pub last_bytes : TransferPoint → List TransferPoint → ℕ
last_bytes p [] = p.bytes
last_bytes p (q ∷ points) = last_bytes q points

-- What becomes of the points of a deal that is not active.
pub data Idle : Type 0 where
  index_panic deleted : Idle
  kept : List TransferPoint → Idle

unfoldable pub add_idle : ℕ → List TransferPoint → Idle
add_idle now [] = index_panic
add_idle now (p ∷ points) =
    let b = last_bytes p points in
    let rest = points ++ record { at = now; bytes = b } ∷ [] in
    if ltb max_samples (suc (length rest))
    then if p.bytes == b then deleted else kept rest
    else kept (p ∷ rest)

-- With the entry of one deal, in front of the others; `none` is a panic.
unfoldable pub keep_idle :
    ℕ → Idle → Option (List (ℕ × List TransferPoint)) → Option (List (ℕ × List TransferPoint))
keep_idle deal index_panic rest = none
keep_idle deal deleted rest = rest
keep_idle deal (kept points) none = none
keep_idle deal (kept points) (some rest) = some ((deal, points) ∷ rest)

-- An active deal's entry stays.
abbrev pub idle_entry : Option ℕ → ℕ → List TransferPoint → Idle
idle_entry (some b) now points = kept points
idle_entry none now points = add_idle now points

-- The second loop of `sample`.
unfoldable pub sample_idle :
    ℕ → List (ℕ × ℕ) → List (ℕ × List TransferPoint) → Option (List (ℕ × List TransferPoint))
sample_idle now active [] = some []
sample_idle now active ((deal, points) ∷ samples) =
    let rest = sample_idle now active samples in
    keep_idle deal (idle_entry (lookup deal active) now points) rest

unfoldable pub sample : ℕ → DealTransfers → Option DealTransfers
sample now dt = elim (sample_idle now dt.active (sample_active now dt.active dt.samples)) [
  | none ↦ none
  | some samples ↦ some (record dt { samples = samples })
]

-- `transfer`; a deal with no samples has none.
unfoldable pub transfer : ℕ → DealTransfers → List TransferPoint
transfer deal dt = points_of (lookup deal dt.samples)

unfoldable pub set_bytes : ℕ → ℕ → DealTransfers → DealTransfers
set_bytes deal b dt = record dt { active = insert deal b dt.active }

unfoldable pub get_bytes : ℕ → DealTransfers → ℕ
get_bytes deal dt = elim (lookup deal dt.active) [ none ↦ 0 | some b ↦ b ]

unfoldable pub complete : ℕ → DealTransfers → DealTransfers
complete deal dt = record dt { active = erase deal dt.active }
