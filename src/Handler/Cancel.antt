-- ===== src/Handler/Cancel.antt =====
-- What a user who cancels a transfer is told.
use boost.Common.{◌≡◌, ◌⊎◌, inl, inr, Bool, true, false, none, some, List, [], ◌∷◌, arith}
use boost.Handler.State.{
  Response, DealHandler, answered, set_cancel_transfer_response, close, cancel_transfer,
  set_running,
}

-- The calls of the methods, in any order.
pub data Call : Type 0 where
  respond : Response → Call
  shut : Call
  cancel : Bool → Call
  run : Bool → Call

pub after_one : Call → DealHandler → DealHandler
after_one (respond r) dh = set_cancel_transfer_response r dh
after_one shut dh = close dh
after_one (cancel shut_down) dh = (cancel_transfer shut_down dh).1
after_one (run running) dh = (set_running running dh).1

pub after : List Call → DealHandler → DealHandler
after [] dh = dh
after (c ∷ cs) dh = after cs (after_one c dh)

-- The first response is fixed: it is in the channel, or it is what `cancelTransfer` was told.
pub Fixed : Response → DealHandler → Type 0
Fixed r dh =
    (dh.sent ≡ true)
    × (((dh.transfer_finished ≡ false) × (dh.transfer_done ≡ some r))
        ⊎ ((dh.transfer_finished ≡ true) × (dh.transfer_err ≡ r)))

Fixed-after_one :
    (r : Response) (c : Call) (dh : DealHandler) → Fixed r dh → Fixed r (after_one c dh)
unfolding Fixed after_one set_cancel_transfer_response close cancel_transfer set_running
Fixed-after_one r (respond x) dh h = ground (arith, h)
Fixed-after_one r shut dh h = ground (arith, h)
Fixed-after_one r (cancel true) dh h = ground (arith, h)
Fixed-after_one r (cancel false) dh (s, inl (f, d)) = ground (arith, s, f, d)
Fixed-after_one r (cancel false) dh (s, inr (f, d)) = ground (arith, s, f, d)
Fixed-after_one r (run x) dh h = ground (arith, h)

Fixed-after :
    (r : Response) (cs : List Call) (dh : DealHandler) → Fixed r dh → Fixed r (after cs dh)
unfolding after
Fixed-after r [] dh h = h
Fixed-after r (c ∷ cs) dh h = Fixed-after r cs (after_one c dh) (Fixed-after_one r c dh h)

-- Nothing was sent yet, so no cancel has been told anything.
unfoldable pub Unanswered : DealHandler → Type 0
Unanswered dh = (dh.sent ≡ false) × (dh.transfer_finished ≡ false) × (dh.transfer_done ≡ none)

told :
    (r : Response) (dh : DealHandler)
    → Fixed r dh
    → ((cancel_transfer false dh).0 ≡ answered r)
      × ((cancel_transfer false dh).1.cancelled_by_user ≡ true)
unfolding Fixed cancel_transfer
told r dh (s, inl (f, d)) = ground (arith, s, f, d)
told r dh (s, inr (f, d)) = ground (arith, s, f, d)

-- The first response wins: where none was set before, whatever calls follow the one that sets r
-- (other responses, closing, cancels, starts and stops), a cancel that is not ended by the
-- provider's shutdown is told r, and it has the flag of a cancel by the user set.
pub first_response_wins :
    (r : Response) (cs : List Call) (dh : DealHandler)
    → Unanswered dh
    → let later = after cs (set_cancel_transfer_response r dh) in
      ((cancel_transfer false later).0 ≡ answered r)
      × ((cancel_transfer false later).1.cancelled_by_user ≡ true)
unfolding Unanswered Fixed set_cancel_transfer_response
first_response_wins r cs dh (s, f, d) =
    told r (after cs (set_cancel_transfer_response r dh))
      (Fixed-after r cs (set_cancel_transfer_response r dh) (ground (arith, s, f, d)))
