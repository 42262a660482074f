-- ===== src/Provider/AddPiece.antt =====
-- The hand-off of a piece to the sealer: `AddPieceToSector` and `addPieceWithRetry` of
-- storagemarket/provider.go, with times in seconds.
use boost.Common.{
  ℕ, zero, suc, ◌-◌, ◌*◌, Bool, true, false, Option, none, some, if◌then◌else◌, ltb, Result, ok,
  err,
}
use boost.Deal.{ProviderDealState}
use boost.Exec.World.{Packing}

-- What the hand-off ends with. `shut_down` is the end of the context while it waits.
pub data AddError : Type 0 where
  too_many_sectors_sealing shut_down no_publish_cid : AddError
  other_error : ℕ → AddError

abbrev pub is_too_many : AddError → Bool
is_too_many too_many_sectors_sealing = true
is_too_many _ = false

-- The sealer's answers to the attempts, the clock at each reading of it, and whether the context
-- ends in each wait.
pub record Sealer : Type 0 where
  pub sector_add_piece_to_any : ℕ → Result AddError (ℕ × ℕ)
  pub now : ℕ → ℕ
  pub done : ℕ → Bool

abbrev pub add_piece_retry_wait : ℕ
add_piece_retry_wait = 5 * 60

abbrev pub add_piece_retry_timeout : ℕ
add_piece_retry_timeout = 6 * 60 * 60

-- The first attempt, and one after each of the 72 waits that the timeout has room for.
abbrev pub enough_fuel : ℕ
enough_fuel = 73

-- `Unpadded` and `Padded` of the piece size, in the package of the addresses, cancel out.
unfoldable pub packed : ProviderDealState → Result AddError (ℕ × ℕ) → Result AddError Packing
packed deal (err e) = err e
packed deal (ok (sector, offset)) = ok (record {
  sector_number = sector;
  packing_offset = offset;
  packing_size = deal.proposal.piece_size;
})

module _ (s : Sealer) where
  -- The loop, after attempt k has answered; `none` is that it has not ended on this fuel.
  unfoldable pub retry_loop : ℕ → ℕ → Result AddError (ℕ × ℕ) → Option (Result AddError (ℕ × ℕ))
  retry_loop zero k answer = none
  retry_loop (suc fuel) k (ok info) = some (ok info)
  retry_loop (suc fuel) k (err e) =
      let again = retry_loop fuel (suc k) (s.sector_add_piece_to_any (suc k)) in
      if ltb (s.now (suc k) - s.now 0) add_piece_retry_timeout
      then if is_too_many e then if s.done k then some (err shut_down) else again else some (err e)
      else some (err e)

  unfoldable pub add_piece_with_retry : ℕ → Option (Result AddError (ℕ × ℕ))
  add_piece_with_retry fuel = retry_loop fuel 0 (s.sector_add_piece_to_any 0)

  unfoldable pub add_piece_to_sector : ProviderDealState → Option (Result AddError Packing)
  add_piece_to_sector deal = elim deal.publish_cid [
    | none ↦ some (err no_publish_cid)
    | some cid ↦ elim (add_piece_with_retry enough_fuel) [
      | none ↦ none
      | some r ↦ some (packed deal r)
    ]
  ]
