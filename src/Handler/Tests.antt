-- ===== src/Handler/Tests.antt =====
-- An instance: the transfer completes, a user cancels, the handler is closed.
use boost.Common.{◌≡◌, refl, true, false, [], ◌∷◌}
use boost.Handler.State.{
  transfer_complete, answered, new_deal_handler, set_cancel_transfer_response, cancel_transfer,
}
use boost.Handler.Cancel.{Unanswered, after, cancel, shut, first_response_wins}

fresh : Unanswered new_deal_handler
unfolding Unanswered new_deal_handler
fresh = (refl, refl, refl)

first_response_wins_example :
    let later =
      after
        (cancel false ∷ shut ∷ [])
        (set_cancel_transfer_response transfer_complete new_deal_handler) in
    ((cancel_transfer false later).0 ≡ answered transfer_complete)
    × ((cancel_transfer false later).1.cancelled_by_user ≡ true)
first_response_wins_example =
    first_response_wins transfer_complete (cancel false ∷ shut ∷ []) new_deal_handler fresh
