-- ===== src/Transfers/Tests.antt =====
-- Runs and instances: one transfer that is over and one that runs.
use boost.Common.{ℕ, suc, ◌≡◌, refl, List, [], ◌∷◌, some, arith}
use boost.Transfers.Sample.{TransferPoint, DealTransfers, transfer}
use boost.Transfers.Window.{latest}
use boost.Transfers.Refines.{IsValid}
use boost.Transfers.History.{reports, history, transfer-history}

abbrev point : ℕ → ℕ → TransferPoint
point t b = record { at = t; bytes = b }

-- Deal 1 is over, deal 2 runs and has no samples so far.
abbrev two_deals : DealTransfers
two_deals = record { samples = (1, point 0 10 ∷ point 1 30 ∷ []) ∷ []; active = (2, 500) ∷ [] }

abbrev valid : IsValid two_deals
valid = ((refl, tt), (refl, tt), ((omega arith, omega arith), tt))

-- The times from n - 1 down to 0.
abbrev times : ℕ → List ℕ
times Prim.Native.Nat.zero = []
times (suc n) = n ∷ times n

transfer-history_example :
    (dt' : DealTransfers) × (reports 2 ((2, 600) ∷ (3, 700) ∷ []) two_deals ≡ some dt')
    × (transfer 2 dt' ≡ latest 20 (history ((2, 600) ∷ (3, 700) ∷ [])))
transfer-history_example = transfer-history 2 ((2, 600) ∷ (3, 700) ∷ []) two_deals valid refl
