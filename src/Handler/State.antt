-- ===== src/Handler/State.antt =====
-- storagemarket/deal_handler.go: `dealHandler`, without its event bus and subscriptions. The
-- mutexes make each method a step.
use boost.Common.{Bool, true, false, Option, none, some, if◌then◌else◌}

-- The errors that end as the answer of `cancelTransfer`; `no_error` is nil.
pub data Response : Type 0 where
  no_error transfer_complete cleaned_up handler_closed : Response

-- `transfer_done` is what stands in the channel of one place: `sent` is the state of `tdOnce`,
-- after which the channel is closed, so that a receive from the emptied channel gives nil.
pub record DealHandler : Type 0 where
  pub transfer_ctx_cancelled : Bool
  pub sent : Bool
  pub transfer_done : Option Response
  pub cancelled_by_user : Bool
  pub transfer_finished : Bool
  pub transfer_err : Response
  pub running : Bool

unfoldable pub new_deal_handler : DealHandler
new_deal_handler = record {
  transfer_ctx_cancelled = false;
  sent = false;
  transfer_done = none;
  cancelled_by_user = false;
  transfer_finished = false;
  transfer_err = no_error;
  running = false;
}

unfoldable pub set_cancel_transfer_response : Response → DealHandler → DealHandler
set_cancel_transfer_response r dh =
    if dh.sent then dh else record dh { sent = true; transfer_done = some r }

unfoldable pub close : DealHandler → DealHandler
unfolding set_cancel_transfer_response
close dh = set_cancel_transfer_response handler_closed (record dh { transfer_ctx_cancelled = true })

-- What a call gives at this moment: an answer, or that it still waits in the `select`.
pub data Answer : Type 0 where
  answered : Response → Answer
  waiting : Answer

-- A receive from `transferDone`.
abbrev pub receive : DealHandler → Answer × DealHandler
receive dh = elim dh.transfer_done [
  | some r ↦
      (answered r, record dh { transfer_done = none; transfer_finished = true; transfer_err = r })
  | none ↦
      if dh.sent
      then (answered no_error, record dh { transfer_finished = true; transfer_err = no_error })
      else (waiting, dh)
]

-- `shut_down`: the `select` takes the provider context's branch.
unfoldable pub cancel_transfer : Bool → DealHandler → Answer × DealHandler
cancel_transfer shut_down dh =
    let flagged = record dh { cancelled_by_user = true } in
    let cancelled = record flagged { transfer_ctx_cancelled = true } in
    if dh.transfer_finished
    then (answered dh.transfer_err, flagged)
    else if shut_down
    then (answered no_error, cancelled)
    else receive cancelled

-- Whether the flag changed, and the handler.
unfoldable pub set_running : Bool → DealHandler → Bool × DealHandler
set_running running dh =
    if dh.running
    then (if running then (false, dh) else (true, record dh { running = running }))
    else if running
    then (true, record dh { running = running })
    else (false, dh)
