-- ===== src/Exec/World.antt =====
-- The state in which a deal is executed, what the code calls, and the steps that all parts of
-- storagemarket/deal_execution.go share.
use Prim.Native.String.{String}
use boost.Common.{
  ℕ, suc, ℤ, ltb_ℤ, Bool, true, false, List, ◌∷◌, Option, none, some, if◌then◌else◌, Result, ok,
  err, Action, pure, raise, gets, modify, ◌>>=◌, ◌>>◌,
}
use boost.Deal.{ProviderDealState, Checkpoint, Retry, retry_fatal}
use boost.Handler.{DealHandler}

-- An error of a call: its text, and whether `errors.Is(err, context.Canceled)`.
pub record CallError : Type 0 where
  pub text : ℕ
  pub cancelled : Bool

-- What a deal-making error wraps.
pub data Cause : Type 0 where
  wrapped : CallError → Cause
  commp_mismatch start_epoch_elapsed deal_not_in_sector sector_sealing_failed : Cause
  caught_panic : Cause

pub record DealError : Type 0 where
  pub cause : Cause
  pub retry : Retry

-- A method ends early by a deal-making error, or by a panic that unwinds it.
pub data Stop : Type 0 where
  deal_error : DealError → Stop
  panic : Stop

-- What the execution does that others see, and the updates of the deals table that failed, which
-- are logged or become an error.
pub data Effect : Type 0 where
  deal_new deal_update publish_request published_msg piece_handed : Effect
  inbound_removed untag_funds_request untag_storage_request finished_request : Effect
  transfer_complete_call lid_added announced : Effect
  update_failed : Effect
  transfer_bytes : ℤ → Effect

-- `deal` is the object in memory, `stored` its row in the deals table, `calls` the number of
-- calls made so far, `registered` whether the handler is in the provider's map.
pub record World : Type 0 where
  pub deal : ProviderDealState
  pub stored : ProviderDealState
  pub handler : DealHandler
  pub registered : Bool
  pub calls : ℕ
  pub effects : List Effect

abbrev pub Exec : Type 0 → Type 0
Exec A = Action World Stop A

-- `lapi.SectorState`: the states that the code names, "", and any other.
pub data SectorState : Type 0 where
  proving available update_activating release_sector_key removed removing : SectorState
  terminating terminate_wait terminate_finality terminate_failed : SectorState
  failed_unrecoverable no_state : SectorState
  other_state : ℕ → SectorState

pub record SectorInfo : Type 0 where
  pub sector_state : SectorState
  pub deals : List ℕ

pub record Packing : Type 0 where
  pub sector_number : ℕ
  pub packing_offset : ℕ
  pub packing_size : ℕ

-- What comes from a running transfer, in order: progress, and how it ends.
pub data TransferRun : Type 0 where
  progress : ℤ → TransferRun → TransferRun
  transfer_error : CallError → TransferRun
  context_done : CallError → TransferRun
  channel_closed : TransferRun

-- The calls of other components and of packages, each a function of the number of calls before.
-- A reading that the code can skip (a flag, the clock) may count as a call too.
-- `scanRow` gives a deal with an error too: `deal_by_id_error` is what a failed read leaves in it.
pub record Env : Type 0 where
  pub stat_file : ℕ → ℕ → Result CallError ℤ
  pub chain_head : ℕ → Option ℤ
  pub update_error : ℕ → Option CallError
  pub deal_by_id_error : ℕ → Option ProviderDealState
  pub clock : ℕ → ℕ
  pub wait_in_queue : ℕ → Option CallError
  pub cancelled_by_user : ℕ → Bool
  pub transport_execute : ℕ → Result CallError TransferRun
  pub within_max_duration : ℕ → Bool
  pub generate_piece_commitment : ℕ → ℕ → ℕ → Result DealError ℕ
  pub publish : ℕ → Result CallError ℕ
  pub address_head : ℕ → Option String
  pub wait_for_publish_deals : ℕ → ℕ → Result CallError (ℕ × ℕ)
  pub context_error : ℕ → Option CallError
  pub open_car : ℕ → ℕ → Option CallError
  pub open_file : ℕ → ℕ → Option CallError
  pub inflate : ℕ → ℤ → ℕ → Option CallError
  pub add_piece_to_sector : ℕ → Result CallError Packing
  pub add_deal_for_piece : ℕ → Option CallError
  pub index_provider_enabled : Bool
  pub announce_boost_deal : ℕ → Option CallError
  pub curio : Bool
  pub sectors_status : ℕ → ℕ → Option CallError × SectorInfo
  pub state_market_storage_deal : ℕ → ℕ → Result CallError (Option ℤ)
  pub has_active_subscribers : ℕ → Bool
  pub ticks : ℕ → ℕ
  pub error_text : DealError → ℕ

abbrev pub get_deal : Exec ProviderDealState
get_deal = gets (λ w. w.deal)

abbrev pub set_deal : (ProviderDealState → ProviderDealState) → Exec (Unit {0})
set_deal f = modify (λ w. record w { deal = f w.deal })

abbrev pub emit : Effect → Exec (Unit {0})
emit e = modify (λ w. record w { effects = e ∷ w.effects })

-- A call: its answer, by the number of calls before it.
abbrev pub call : {A : Type 0} → (ℕ → A) → Exec A
call f w = (ok (f w.calls), record w { calls = suc w.calls })

abbrev pub fail : {A : Type 0} → Cause → Retry → Exec A
fail cause retry = raise (deal_error (record { cause = cause; retry = retry }))

-- `if err != nil { return ... }`, with the retry type of the error that is returned.
abbrev pub or_fail : Option CallError → Retry → Exec (Unit {0})
or_fail none retry = pure tt
or_fail (some e) retry = fail (wrapped e) retry

abbrev pub result_or_fail : {A : Type 0} → Result CallError A → Retry → Exec A
result_or_fail (ok a) retry = pure a
result_or_fail (err e) retry = fail (wrapped e) retry

abbrev pub when : Bool → Exec (Unit {0}) → Exec (Unit {0})
when true m = m
when false m = pure tt

module _ (env : Env) where
  -- `dealsDB.Update` of the deal in memory: the row changes unless the statement fails.
  unfoldable pub deals_update : Exec (Option CallError)
  deals_update = do
    answer ← call env.update_error
    elim answer [
      | none ↦ (do modify (λ w. record w { stored = w.deal }); pure none)
      | some e ↦ (do emit update_failed; pure (some e))
    ]

  unfoldable pub save_deal_to_db : Exec (Unit {0})
  save_deal_to_db = do deals_update; emit deal_update

  unfoldable pub update_checkpoint : Checkpoint → Exec (Unit {0})
  update_checkpoint ckpt = do
    now ← call env.clock
    set_deal (λ d. record d { checkpoint = ckpt; checkpoint_at = now })
    or_fail (← deals_update) retry_fatal
    emit deal_update

  unfoldable pub check_deal_proposal_start_epoch : Exec (Unit {0})
  check_deal_proposal_start_epoch = do
    head ← call env.chain_head
    deal ← get_deal
    elim head [
      | none ↦ pure tt
      | some height ↦
          if ltb_ℤ deal.proposal.start_epoch height
          then fail start_epoch_elapsed retry_fatal
          else pure tt
    ]
