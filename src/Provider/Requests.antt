-- ===== src/Provider/Requests.antt =====
-- The requests of users in storagemarket/provider.go: import of an offline deal's data, and the
-- cancellation of an offline deal and of a transfer. The loop's answers are awaited.
use boost.Common.{
  ℕ, ◌==◌, Bool, false, not, List, [], ◌∷◌, Option, none, some, if◌then◌else◌, pure, gets, ◌>>=◌,
  ◌>>◌, lookup,
}
use boost.Deal.{ProviderDealState, accepted, before}
use boost.Handler.{DealHandler, Answer, cancel_transfer}
use boost.Provider.World.{Env, Provider, call, by_id, set_handler}
use boost.Provider.Loop.{Response, RetryAnswer, handle_import, handle_retry}

-- What `ImportOfflineDealData` gives back. `no_response` does not occur: the loop always answers.
pub data ImportAnswer : Type 0 where
  unknown_deal not_offline already_imported no_response : ImportAnswer
  responded : Response → ImportAnswer

pub data CancelAnswer : Type 0 where
  cancel_unknown_deal wrong_kind import_started no_handler still_running : CancelAnswer
  told_loop : RetryAnswer → CancelAnswer
  told_handler : Answer → CancelAnswer

-- `checkForDealAcceptance` takes the first of the responses.
abbrev pub first_response : List Response → ImportAnswer
first_response [] = no_response
first_response (r ∷ rs) = responded r

module _ (env : Env) where
  -- `dealsDB.ByID`; an error of the read counts as a deal that is not there.
  unfoldable pub find_deal : ℕ → Provider (Option ProviderDealState)
  find_deal uuid = do
    failed ← call env.deals_fault
    deals ← gets (λ w. w.deals)
    pure (if failed then none else by_id uuid deals)

  unfoldable pub import_into : ℕ → Bool → Option ProviderDealState → Provider ImportAnswer
  import_into path delete none = pure unknown_deal
  import_into path delete (some ds) =
      if not ds.is_offline
      then pure not_offline
      else if before accepted ds.checkpoint
      then pure already_imported
      else (do
        sent ← handle_import env (record ds { inbound_file_path = path; cleanup_data = delete })
        pure (first_response sent))

  unfoldable pub import_offline_deal_data : ℕ → ℕ → Bool → Provider ImportAnswer
  import_offline_deal_data uuid path delete = do ds ← find_deal uuid; import_into path delete ds

  unfoldable pub cancel_idle : ℕ → Option DealHandler → Provider CancelAnswer
  cancel_idle uuid none = pure no_handler
  cancel_idle uuid (some dh) =
      if not dh.running
      then (do answer ← handle_retry env uuid false; pure (told_loop answer))
      else pure still_running

  unfoldable pub cancel_row : ℕ → Option ProviderDealState → Provider CancelAnswer
  cancel_row uuid none = pure cancel_unknown_deal
  cancel_row uuid (some pds) =
      if not pds.is_offline
      then pure wrong_kind
      else if not (pds.inbound_file_path == 0)
      then pure import_started
      else (do handlers ← gets (λ w. w.handlers); cancel_idle uuid (lookup uuid handlers))

  unfoldable pub cancel_offline_deal_awaiting_import : ℕ → Provider CancelAnswer
  cancel_offline_deal_awaiting_import uuid = do pds ← find_deal uuid; cancel_row uuid pds

  -- `shut_down`: the provider's context ends while the handler waits.
  unfoldable pub cancel_with : ℕ → Bool → Option DealHandler → Provider CancelAnswer
  cancel_with uuid shut_down none = pure no_handler
  cancel_with uuid shut_down (some dh) = do
    let (answer, cancelled) = cancel_transfer shut_down dh
    set_handler env uuid cancelled
    pure (told_handler answer)

  unfoldable pub cancel_row_transfer : ℕ → Bool → Option ProviderDealState → Provider CancelAnswer
  cancel_row_transfer uuid shut_down none = pure cancel_unknown_deal
  cancel_row_transfer uuid shut_down (some pds) =
      if pds.is_offline
      then pure wrong_kind
      else (do handlers ← gets (λ w. w.handlers); cancel_with uuid shut_down (lookup uuid handlers))

  unfoldable pub cancel_deal_data_transfer : ℕ → Bool → Provider CancelAnswer
  cancel_deal_data_transfer uuid shut_down = do
    pds ← find_deal uuid
    cancel_row_transfer uuid shut_down pds
