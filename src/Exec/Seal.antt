-- ===== src/Exec/Seal.antt =====
-- storagemarket/deal_execution.go: `addPiece`, `indexAndAnnounce` and the watch of the sector.
use boost.Common.{
  ℕ, ℤ, zero, suc, ◌+◌, ◌==◌, leb, pos, ltb_ℤ, not, Bool, true, false, ◌&&◌, ◌||◌, List, [], ◌∷◌,
  Option, none, some, if◌then◌else◌, pure, raise, gets, ◌>>=◌, ◌>>◌,
}
use boost.Deal.{ProviderDealState, retry_auto, retry_fatal, added_piece, indexed_and_announced}
use boost.Exec.World.{
  CallError, deal_not_in_sector, sector_sealing_failed, panic, Env, Exec, SectorInfo, SectorState,
  proving, available, update_activating, release_sector_key, removed, removing, terminating,
  terminate_wait, terminate_finality, terminate_failed, failed_unrecoverable, no_state, other_state,
  piece_handed, lid_added, announced, deal_update, call, emit, fail, get_deal, set_deal, when,
  or_fail, result_or_fail, update_checkpoint, check_deal_proposal_start_epoch,
}

unfoldable pub is_final_sealing_state : SectorState → Bool
is_final_sealing_state no_state = false
is_final_sealing_state (other_state n) = false
is_final_sealing_state _ = true

unfoldable pub has_deal : List ℕ → ℕ → Bool
has_deal [] deal_id = false
has_deal (d ∷ ds) deal_id = let rest = has_deal ds deal_id in if d == deal_id then true else rest

-- `==` on the states.
abbrev pub state_code : SectorState → ℕ
state_code proving = 0
state_code available = 1
state_code update_activating = 2
state_code release_sector_key = 3
state_code removed = 4
state_code removing = 5
state_code terminating = 6
state_code terminate_wait = 7
state_code terminate_finality = 8
state_code terminate_failed = 9
state_code failed_unrecoverable = 10
state_code no_state = 11
state_code (other_state n) = 12 + n

-- The variables `lastSealingState` and `deal` (nil at first).
pub record Watch : Type 0 where
  pub last_state : SectorState
  pub known : Option ProviderDealState

abbrev pub first_watch : Watch
first_watch = record { last_state = no_state; known = none }

abbrev pub no_sector_info : SectorInfo
no_sector_info = record { sector_state = no_state; deals = [] }

-- `forceCount`: every so many ticks the status is read without subscribers too.
abbrev pub force_count : ℕ
force_count = 12

module _ (env : Env) where
  unfoldable pub open_reader : ProviderDealState → Exec (Unit {0})
  open_reader deal = do
    st ← call (λ n. env.stat_file n deal.inbound_file_path)
    size ← result_or_fail st retry_fatal
    or_fail (← call (λ n. env.open_car n deal.inbound_file_path)) retry_fatal
    or_fail (← call (λ n. env.open_file n deal.inbound_file_path)) retry_fatal
    or_fail (← call (λ n. env.inflate n size deal.proposal.piece_size)) retry_fatal

  unfoldable pub hand_off : Exec (Unit {0})
  hand_off = do
    answer ← call env.add_piece_to_sector
    packing ← result_or_fail answer retry_auto
    emit piece_handed
    set_deal (λ d. record d {
      sector_id = packing.sector_number;
      offset = packing.packing_offset;
      length = packing.packing_size;
    })
    update_checkpoint env added_piece

  unfoldable pub add_piece : Exec (Unit {0})
  add_piece = do check_deal_proposal_start_epoch env; deal ← get_deal; open_reader deal; hand_off

  -- The loop of `trackCurioSealing`, on the ticks until the context is done.
  unfoldable pub track_loop : ℕ → ℕ → Exec (Unit {0})
  track_loop sector zero = pure tt
  track_loop sector (suc ticks) = do
    status ← call (λ n. env.sectors_status n sector)
    let waiting = track_loop sector ticks
    let failed = state_code status.1.sector_state == state_code failed_unrecoverable
    if is_final_sealing_state status.1.sector_state
        then (if failed then fail sector_sealing_failed retry_fatal else pure tt)
        else waiting

  unfoldable pub track_curio_sealing : ℕ → Exec (Unit {0})
  track_curio_sealing sector = do
    status ← call (λ n. env.sectors_status n sector)
    ticks ← call env.ticks
    when (not (is_final_sealing_state status.1.sector_state)) (track_loop sector ticks)

  unfoldable pub announce : ProviderDealState → Exec (Unit {0})
  announce deal = do
    when (env.index_provider_enabled && deal.announce_to_ipni)
        (do or_fail (← call env.announce_boost_deal) retry_auto; emit announced)

  unfoldable pub add_to_lid : Exec (Unit {0})
  add_to_lid = do or_fail (← call env.add_deal_for_piece) retry_auto; emit lid_added

  unfoldable pub index_and_announce : Exec (Unit {0})
  index_and_announce = do
    deal ← get_deal
    when env.curio (track_curio_sealing deal.sector_id)
    add_to_lid
    announce deal
    update_checkpoint env indexed_and_announced

  -- The status has changed: by what reading the deal again leaves where it fails.
  unfoldable pub note_change : SectorInfo → Option ProviderDealState → Exec (SectorInfo × Watch)
  note_change si (some partial) =
      pure (si, record { last_state = si.sector_state; known = some partial })
  note_change si none = do
    row ← gets (λ world. world.stored)
    emit deal_update
    pure (si, record { last_state = si.sector_state; known = some row })

  -- By what `SectorsStatus` answers.
  unfoldable pub note_status : Watch → Option CallError × SectorInfo → Exec (SectorInfo × Watch)
  note_status w (some e, si) = pure (si, w)
  note_status w (none, si) = do
    missing ← call env.deal_by_id_error
    if state_code si.sector_state == state_code w.last_state
        then pure (si, w)
        else note_change si missing

  unfoldable pub read_status : ℕ → Watch → Exec (SectorInfo × Watch)
  read_status sector w = do status ← call (λ n. env.sectors_status n sector); note_status w status

  unfoldable pub check_status : ℕ → Bool → Watch → Exec (SectorInfo × Watch)
  check_status sector force w = do
    subscribed ← call env.has_active_subscribers
    if force || subscribed then read_status sector w else pure (no_sector_info, w)

  -- By the start epoch in the deal's state on the chain, if it is there.
  unfoldable pub on_chain : Option ℤ → Exec (Unit {0})
  on_chain none = fail deal_not_in_sector retry_fatal
  on_chain (some epoch) =
      if ltb_ℤ (pos 0) epoch then pure tt else fail deal_not_in_sector retry_fatal

  unfoldable pub curio_answer : ProviderDealState → Exec (Unit {0})
  curio_answer deal = do
    answer ← call (λ n. env.state_market_storage_deal n deal.chain_deal_id)
    md ← result_or_fail answer retry_auto
    on_chain md

  -- The sector is in a final state. `deal.ChainDealID` panics where `deal` is nil.
  unfoldable pub final_answer : SectorInfo → Option ProviderDealState → Exec (Unit {0})
  final_answer info none = raise panic
  final_answer info (some deal) =
      let found = has_deal info.deals deal.chain_deal_id in
      if env.curio
      then curio_answer deal
      else if found
      then pure tt
      else fail deal_not_in_sector retry_fatal

  unfoldable pub watch_loop : ℕ → ℕ → ℕ → Watch → Exec (Unit {0})
  watch_loop sector zero count w = pure tt
  watch_loop sector (suc ticks) count w = do
    let force = leb force_count (suc count)
    (info, w') ← check_status sector force w
    let waiting = watch_loop sector ticks (if force then 0 else suc count) w'
    if is_final_sealing_state info.sector_state then final_answer info w'.known else waiting

  unfoldable pub fire_sealing_update_events : ℕ → Exec (Unit {0})
  fire_sealing_update_events sector = do
    (info, w) ← check_status sector true first_watch
    ticks ← call env.ticks
    if is_final_sealing_state info.sector_state
        then final_answer info w.known
        else watch_loop sector ticks 0 w
