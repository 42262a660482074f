-- ===== src/Provider/World.antt =====
-- What the provider's loop keeps and calls (storagemarket/provider_loop.go): the tagged funds and
-- space, the deals table, the handlers of the deals, and the threads that it starts.
use boost.Common.{
  ℕ, suc, ◌==◌, Bool, true, false, List, Option, none, some, if◌then◌else◌, Result, ok, Action,
  pure, raise, gets, modify, ◌>>=◌, ◌>>◌, Driver, find_if, insert, lookup, erase, map, ℤ,
}
use boost.Deal.{ProviderDealState, DealProposal, Transfer}
use boost.Handler.{DealHandler, new_deal_handler}
use boost.Funds.{FundsDb, FundsError, FundsAction, FundsConfig, Node}
use boost.Exec.World.{SectorState}
use boost.Storage.{StorageDb, StorageError, StorageAction, StorageConfig}

-- The returns of an error by the loop's methods. The first line are answers of calls that fail.
pub data AcceptError : Type 0 where
  proposal_cid_error proposal_lookup_error uuid_lookup_error filter_params_error : AcceptError
  filter_error tag_funds_error tag_storage_error staging_file_error : AcceptError
  insert_error handler_error setup_error : AcceptError
  host_error proposal_not_unique uuid_not_unique filter_rejected : AcceptError
  insufficient_provider_funds no_space_for_deal : AcceptError

-- `isSevereError`.
unfoldable pub is_severe : AcceptError → Bool
is_severe host_error = false
is_severe proposal_not_unique = false
is_severe uuid_not_unique = false
is_severe filter_rejected = false
is_severe insufficient_provider_funds = false
is_severe no_space_for_deal = false
is_severe _ = true

-- `handlers` is the map `dhs`; `started` are the deals whose threads were started, newest first;
-- `removed_files` the paths that were removed; `calls` counts the calls made;
-- `cleanups` are the deals whose cleanup was started in a thread of its own, newest first;
-- `failing` are those for which `failDeal` was, and whose threads have not run yet.
pub record World : Type 0 where
  pub funds : FundsDb
  pub storage : StorageDb
  pub deals : List ProviderDealState
  pub handlers : List (ℕ × DealHandler)
  pub started : List ℕ
  pub removed_files : List ℕ
  pub cleanups : List ProviderDealState
  pub failing : List ProviderDealState
  pub calls : ℕ

-- A method ends by an error, or by a panic that nothing recovers.
pub data Stop : Type 0 where
  refused : AcceptError → Stop
  panic : Stop

abbrev pub Provider : Type 0 → Type 0
Provider A = Action World Stop A

-- What the loop calls. `deals_fault` is whether a statement on the deals table fails, and
-- `deal_filter` whether the filter accepts; `none` is an error of a call. `start_epoch_error` is the
-- text of the error that the start epoch of a deal has passed.
pub record Env : Type 0 where
  pub funds_driver : Driver
  pub storage_driver : Driver
  pub node : Node
  pub funds_config : FundsConfig
  pub storage_config : StorageConfig
  pub transfer_host : Transfer → Option ℕ
  pub signed_proposal_cid : DealProposal → Option ℕ
  pub deals_fault : ℕ → Bool
  pub deal_filter_params : ℕ → Bool
  pub deal_filter : ℕ → ProviderDealState → Option Bool
  pub staging_file : ℕ → ℕ → Option ℕ
  pub handler_fault : ℕ → Bool
  pub clock : ℕ → ℕ
  pub setup_fault : ℕ → Bool
  pub chain_head : ℕ → Option ℤ
  pub start_epoch_error : ProviderDealState → ℕ
  pub sectors_status : ℕ → ℕ → Option SectorState

-- A call: its answer, by the number of calls before it.
abbrev pub call : {A : Type 0} → (ℕ → A) → Provider A
call f w = (ok (f w.calls), record w { calls = suc w.calls })

abbrev pub refuse : {A : Type 0} → AcceptError → Provider A
refuse e = raise (refused e)

abbrev pub refuse_if : Bool → AcceptError → Provider (Unit {0})
refuse_if true e = refuse e
refuse_if false e = pure tt

-- A method of the fund manager or of the storage manager, whose error is looked at.
abbrev pub on_funds : {A : Type 0} → FundsAction A → Provider (Result FundsError A)
on_funds m w = let (r, db) = m w.funds in (ok r, record w { funds = db })

abbrev pub on_storage : {A : Type 0} → StorageAction A → Provider (Result StorageError A)
on_storage m w = let (r, db) = m w.storage in (ok r, record w { storage = db })

abbrev pub when : Bool → Provider (Unit {0}) → Provider (Unit {0})
when true m = m
when false m = pure tt

-- The row with this uuid, which is the key of the table.
unfoldable pub by_id : ℕ → List ProviderDealState → Option ProviderDealState
by_id uuid deals = find_if (λ d. d.deal_uuid == uuid) deals

-- `Update`: the row with the deal's uuid becomes the deal.
unfoldable pub update_row : ProviderDealState → List ProviderDealState → List ProviderDealState
update_row deal deals = map (λ d. if d.deal_uuid == deal.deal_uuid then deal else d) deals

-- `isRunning`, by the uuid of a deal.
unfoldable pub is_running : ℕ → List (ℕ × DealHandler) → Bool
is_running uuid handlers = elim (lookup uuid handlers) [ none ↦ false | some dh ↦ dh.running ]

module _ (env : Env) where
  -- `mkAndInsertDealHandler`.
  unfoldable pub mk_and_insert_deal_handler : ℕ → Provider (Option DealHandler)
  mk_and_insert_deal_handler uuid = do
    handlers ← gets (λ w. w.handlers)
    failed ← call env.handler_fault
    elim (lookup uuid handlers) [
      | some dh ↦ pure (some dh)
      | none ↦ if failed then pure none else (do
        modify (λ w. record w { handlers = insert uuid new_deal_handler w.handlers })
        pure (some new_deal_handler))
    ]

  unfoldable pub set_handler : ℕ → DealHandler → Provider (Unit {0})
  set_handler uuid dh = modify (λ w. record w { handlers = insert uuid dh w.handlers })

  unfoldable pub del_deal_handler : ℕ → Provider (Unit {0})
  del_deal_handler uuid = modify (λ w. record w { handlers = erase uuid w.handlers })
