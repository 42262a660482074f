-- ===== src/Direct/Import.antt =====
-- storagemarket/direct_deals_provider.go: which direct deals are taken in, and the requests of users.
use boost.Common.{
  ℕ, ℤ, ◌+ℤ◌, ltb_ℤ, Bool, true, false, not, ◌&&◌, List, [], ◌∷◌, Option, none, some, ◌==◌,
  if◌then◌else◌, contains, find_if, ok, err, Action, pure, raise, gets, modify, ◌>>=◌, ◌>>◌,
}
use boost.Deal.{Checkpoint, complete, rank, Retry, retry_fatal, ErrorText, terminated_text}

-- The fields these operations read or set; `CreatedAt` is the place in the table, newest first.
pub record DirectDeal : Type 0 where
  pub id : ℕ
  pub piece_cid : ℕ
  pub client : ℕ
  pub provider : ℕ
  pub allocation_id : ℕ
  pub start_epoch : ℤ
  pub cleanup_data : Bool
  pub inbound_file_path : ℕ
  pub checkpoint : Checkpoint
  pub retry : Retry
  pub deal_err : Option ErrorText

pub record Allocation : Type 0 where
  pub provider : ℕ
  pub term_min : ℤ

-- The full node, the limits of the actors, and whether a statement on the table fails. The node is
-- asked for the allocation twice; `some none` is an answer that there is none.
pub record DirectApi : Type 0 where
  pub start_epoch_sealing_buffer : ℤ
  pub max_term : ℤ
  pub chain_head : Option ℤ
  pub get_allocation : ℕ → ℕ → ℕ → Option (Option Allocation)
  pub miner_id : Option ℕ
  pub id_address : ℕ → Option ℕ
  pub lookup_id : ℕ → Option ℕ
  pub list_fails : Bool
  pub insert_fails : Bool
  pub by_id_fails : Bool
  pub update_fails : Bool

-- `reason` of a rejection.
pub data Rejection : Type 0 where
  start_passed no_allocation no_miner_id other_provider term_too_long in_process : Rejection

-- An error that is returned, or a nil pointer that is read.
pub data DirectError : Type 0 where
  head_error allocation_error list_error address_error lookup_error insert_error : DirectError
  not_found already_complete still_running : DirectError
  nil_allocation : DirectError

-- The table, the deals that run, the threads that were started, and the files that were removed.
pub record DirectDeals : Type 0 where
  pub deals : List DirectDeal
  pub running : List ℕ
  pub started : List ℕ
  pub files_removed : List ℕ

abbrev pub Direct : Type 0 → Type 0
Direct A = Action DirectDeals DirectError A

abbrev pub or_error : {A : Type 0} → Option A → DirectError → Direct A
or_error none e = raise e
or_error (some a) e = pure a

-- `Checkpoint != Complete`.
abbrev pub is_active : DirectDeal → Bool
is_active d = not (rank d.checkpoint == rank complete)

abbrev pub claims : ℕ → ℕ → DirectDeal → Bool
claims client allocation d = d.client == client && d.allocation_id == allocation

-- The loop over the active deals.
unfoldable pub is_in_process : DirectDeal → List DirectDeal → Bool
is_in_process entry [] = false
is_in_process entry (d ∷ deals) =
    let rest = is_in_process entry deals in
    if is_active d && claims entry.client entry.allocation_id d then true else rest

module _ (api : DirectApi) where
  -- From the allocation on; none is a deal that is accepted.
  unfoldable pub accept_allocation : DirectDeal → Allocation → Direct (Option Rejection)
  accept_allocation entry allocation = elim api.miner_id [
    | none ↦ pure (some no_miner_id)
    | some mid ↦
        if not (allocation.provider == mid)
        then pure (some other_provider)
        else if ltb_ℤ api.max_term allocation.term_min
        then pure (some term_too_long)
        else if api.list_fails
        then raise list_error
        else gets (λ s. if is_in_process entry s.deals then some in_process else none)
  ]

  unfoldable pub accept : DirectDeal → Direct (Option Rejection)
  accept entry = do
    height ← or_error api.chain_head head_error
    if ltb_ℤ entry.start_epoch (height +ℤ api.start_epoch_sealing_buffer)
        then pure (some start_passed)
        else (do
          allocation ←
              or_error (api.get_allocation 0 entry.client entry.allocation_id) allocation_error
          elim allocation [ none ↦ pure (some no_allocation) | some a ↦ accept_allocation entry a ])

  unfoldable pub start_deal_thread : ℕ → Direct Bool
  start_deal_thread id s =
      if contains id s.running
      then (ok false, s)
      else (ok true, record s { running = id ∷ s.running; started = id ∷ s.started })

  unfoldable pub insert_deal : DirectDeal → Direct (Unit {0})
  insert_deal entry =
      if api.insert_fails
      then raise insert_error
      else modify (λ s. record s { deals = entry ∷ s.deals })

  -- What `Import` does with an entry after `Accept` answered.
  unfoldable pub import_with : DirectDeal → Option Rejection → Direct (Option Rejection)
  import_with entry res = do
    allocation ← or_error (api.get_allocation 1 entry.client entry.allocation_id) allocation_error
    a ← or_error allocation nil_allocation
    idaddr ← or_error (api.id_address a.provider) address_error
    maddr ← or_error (api.lookup_id idaddr) lookup_error
    elim res [
      | some r ↦ pure (some r)
      | none ↦ (do
        insert_deal (record entry { provider = maddr })
        start_deal_thread entry.id
        pure none)
    ]

  unfoldable pub import : DirectDeal → Direct (Option Rejection)
  import entry = do res ← accept entry; import_with entry res

  unfoldable pub deal_by_id : ℕ → Direct DirectDeal
  deal_by_id id s =
      if api.by_id_fails
      then (err not_found, s)
      else or_error (find_if (λ d. d.id == id) s.deals) not_found s

  unfoldable pub replace_deal : DirectDeal → List DirectDeal → List DirectDeal
  replace_deal deal [] = []
  replace_deal deal (d ∷ deals) =
      let rest = replace_deal deal deals in if d.id == deal.id then deal ∷ rest else d ∷ rest

  -- An error of the statement is logged.
  unfoldable pub save_deal_to_db : DirectDeal → Direct (Unit {0})
  save_deal_to_db deal =
      modify (λ s. if api.update_fails then s else record s { deals = replace_deal deal s.deals })

  unfoldable pub retry_paused_deal : ℕ → Direct (Unit {0})
  retry_paused_deal id = do
    deal ← deal_by_id id
    if not (is_active deal) then raise already_complete else (do start_deal_thread id; pure tt)

  unfoldable pub fail_paused_deal : ℕ → Direct (Unit {0})
  fail_paused_deal id = do
    deal ← deal_by_id id
    running ← gets (λ s. contains id s.running)
    if not (is_active deal)
        then raise already_complete
        else if running
        then raise still_running
        else (do
          save_deal_to_db (record deal {
            checkpoint = complete;
            retry = retry_fatal;
            deal_err = some terminated_text;
          })
          if deal.cleanup_data
              then modify
                  (λ s. record s { files_removed = deal.inbound_file_path ∷ s.files_removed })
              else pure tt)
