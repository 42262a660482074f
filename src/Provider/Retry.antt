-- ===== src/Provider/Retry.antt =====
-- A deal is started or terminated on a user's word only if it is not running and not complete.
use boost.Common.{
  ℕ, suc, ◌==◌, ◌≡◌, ◌⊎◌, inl, inr, Bool, Bool-cases, true, false, not, List, ◌∷◌, ◌&&◌, Option,
  none, some, if◌then◌else◌, ok, arith, find_if-true, Option-cases, lookup, lookup-insert,
}
use boost.Deal.{ProviderDealState, complete, up_to}
use boost.Handler.{DealHandler, new_deal_handler, set_running}
use boost.Provider.World.{
  World, Env, by_id, update_row, mk_and_insert_deal_handler, set_handler, is_running,
}
use boost.Provider.Loop.{
  start_deal_thread, terminate, fail_paused_deal, retry_with, retry_deal, handle_retry,
}

pub by_id-uuid :
    (uuid : ℕ) (deals : List ProviderDealState) (d : ProviderDealState)
    → by_id uuid deals ≡ some d
    → d.deal_uuid ≡ uuid
unfolding by_id
by_id-uuid uuid deals d h =
    ground (arith, find_if-true (λ (x : ProviderDealState). x.deal_uuid == uuid) deals d h)

module _ (env : Env) where
  -- The handler that the deal has, or a new one if one can be made.
  abbrev pub handler_for : ℕ → World → Option DealHandler
  handler_for uuid w = elim (lookup uuid w.handlers) [
    | some dh ↦ some dh
    | none ↦ if env.handler_fault w.calls then none else some new_deal_handler
  ]

  pub made_lem :
      (uuid : ℕ) (w : World)
      → let (r, w') = mk_and_insert_deal_handler env uuid w in
        (r ≡ ok (handler_for uuid w))
        × (w'.started ≡ w.started)
        × (w'.deals ≡ w.deals)
        × (w'.cleanups ≡ w.cleanups)
        × (is_running uuid w'.handlers ≡ is_running uuid w.handlers)
        × (w'.calls ≡ suc w.calls)
        × ((dh : DealHandler)
            → handler_for uuid w ≡ some dh
            → dh.running ≡ is_running uuid w.handlers)
  unfolding mk_and_insert_deal_handler is_running new_deal_handler
  made_lem uuid w = elim (Option-cases (lookup uuid w.handlers)) [
    | inr (dh, e) ↦ ground (arith, e)
    | inl e ↦ elim (Bool-cases (env.handler_fault w.calls)) [
      | inl f ↦ ground (arith, e, f)
      | inr f ↦ ground (arith, e, f, lookup-insert uuid uuid new_deal_handler w.handlers)
    ]
  ]

  pub started_lem :
      (uuid : ℕ) (dh : DealHandler) (w : World)
      → let w' = (start_deal_thread env uuid dh w).1 in
        (w'.started ≡ (if dh.running then w.started else uuid ∷ w.started))
        × (w'.deals ≡ w.deals)
        × (w'.cleanups ≡ w.cleanups)
        × (is_running uuid w'.handlers ≡ (if dh.running then is_running uuid w.handlers else true))
  unfolding start_deal_thread set_handler is_running set_running
  started_lem uuid dh w = elim (Bool-cases dh.running) [
    | inl e ↦ ground (arith, e)
    | inr e ↦ ground (arith, e, lookup-insert uuid uuid (record dh { running = true }) w.handlers)
  ]

  -- The row that the loop reads, if it reads one.
  abbrev row_read : ℕ → World → Option ProviderDealState
  row_read uuid w = if env.deals_fault w.calls then none else by_id uuid w.deals

  -- Whether there is a handler for the deal, which is not running.
  abbrev idle : ℕ → World → Bool
  idle uuid w = elim (handler_for uuid w) [
    | none ↦ false
    | some dh ↦ not (is_running uuid w.handlers)
  ]

  -- Whether the loop acts on the deal: its row is read and is not complete, and there is a
  -- handler for it, which is not running.
  abbrev pub acts_on : ℕ → World → Bool
  acts_on uuid w = elim (row_read uuid w) [
    | none ↦ false
    | some d ↦ not (up_to complete d.checkpoint) && idle uuid (record w { calls = suc w.calls })
  ]

  -- What acting on a row gives.
  retry_row_lem :
      (uuid : ℕ) (d : ProviderDealState) (w : World)
      → d.deal_uuid ≡ uuid
      → up_to complete d.checkpoint ≡ false
      → let w' = (retry_deal env true (some d) w).1 in
        (w'.started ≡ (if idle uuid w then uuid ∷ w.started else w.started))
        × (w'.deals ≡ w.deals)
        × (w'.cleanups ≡ w.cleanups)
        × (is_running uuid w'.handlers ≡ (if idle uuid w then true else is_running uuid w.handlers))
  unfolding retry_deal retry_with
  retry_row_lem uuid d w same active =
      let made = (mk_and_insert_deal_handler env uuid w).1 in
      let (m, s, ds, c, run, n, h) = made_lem uuid w in
      elim (Option-cases (handler_for uuid w)) [
        | inl e ↦ ground (arith, e, m, s, ds, c, run, active, same)
        | inr (dh, e) ↦
            ground (arith, e, m, s, ds, c, run, active, same, h dh e, started_lem uuid dh made)
      ]

  -- What terminating a row gives.
  terminate_row_lem :
      (uuid : ℕ) (d : ProviderDealState) (w : World)
      → d.deal_uuid ≡ uuid
      → up_to complete d.checkpoint ≡ false
      → let w' = (retry_deal env false (some d) w).1 in
        (w'.started ≡ w.started)
        × (w'.deals ≡ (
            if idle uuid w && not (env.deals_fault (suc w.calls))
            then update_row (terminate d) w.deals
            else w.deals))
        × (w'.cleanups ≡ (if idle uuid w then terminate d ∷ w.cleanups else w.cleanups))
        × (is_running uuid w'.handlers ≡ is_running uuid w.handlers)
  unfolding retry_deal retry_with fail_paused_deal
  terminate_row_lem uuid d w same active =
      let (m, s, ds, c, run, n, h) = made_lem uuid w in
      elim (Option-cases (handler_for uuid w)) [
        | inl e ↦ ground (arith, e, m, s, ds, c, run, active, same)
        | inr (dh, e) ↦ elim (Bool-cases (is_running uuid w.handlers)) [
          | inl g ↦ ground (arith, e, m, s, ds, c, run, n, active, same, h dh e, g)
          | inr g ↦ ground (arith, e, m, s, ds, c, run, n, active, same, h dh e, g)
        ]
      ]

  row_read-uuid :
      (uuid : ℕ) (w : World) (d : ProviderDealState) → row_read uuid w ≡ some d → d.deal_uuid ≡ uuid
  row_read-uuid uuid w d h = elim (Bool-cases (env.deals_fault w.calls)) [
    | inl f ↦ absurd (ground (arith, f, h))
    | inr f ↦ by_id-uuid uuid w.deals d (rw f at h)
  ]

  row_read-by_id :
      (uuid : ℕ) (w : World) (d : ProviderDealState)
      → row_read uuid w ≡ some d
      → by_id uuid w.deals ≡ some d
  row_read-by_id uuid w d h = ground (arith, h)

  abbrev pub after_retry : ℕ → Bool → World → World
  after_retry uuid retry w = (handle_retry env uuid retry w).1

  -- A retry starts a thread for the deal, which then runs, if the loop acts on the deal, and
  -- starts nothing otherwise; it changes no row and starts no cleanup.
  pub handle_retry_lem :
      (uuid : ℕ) (w : World)
      → let w' = after_retry uuid true w in
        (w'.started ≡ (if acts_on uuid w then uuid ∷ w.started else w.started))
        × (is_running uuid w'.handlers
            ≡ (if acts_on uuid w then true else is_running uuid w.handlers))
        × (w'.deals ≡ w.deals)
        × (w'.cleanups ≡ w.cleanups)
  unfolding handle_retry retry_deal
  handle_retry_lem uuid w = elim (Option-cases (row_read uuid w)) [
    | inl e ↦ ground (arith, e)
    | inr (d, e) ↦ elim (Bool-cases (up_to complete d.checkpoint)) [
      | inl c ↦ ground (arith, e, c)
      | inr c ↦ ground (
        arith,
        e,
        c,
        retry_row_lem uuid d (record w { calls = suc w.calls }) (row_read-uuid uuid w d e) c,
      )
    ]
  ]

  -- The user's word that a deal is to fail completes its row with that text, unless the write
  -- fails, and starts its cleanup, if the loop acts on the deal; it does neither otherwise, and
  -- starts no thread.
  pub handle_terminate_lem :
      (uuid : ℕ) (w : World)
      → let w' = after_retry uuid false w in
        (w'.started ≡ w.started)
        × (is_running uuid w'.handlers ≡ is_running uuid w.handlers)
        × ((acts_on uuid w ≡ false) × (w'.deals ≡ w.deals) × (w'.cleanups ≡ w.cleanups)
            ⊎ (d : ProviderDealState) × (by_id uuid w.deals ≡ some d)
              × (acts_on uuid w ≡ true)
              × (w'.cleanups ≡ terminate d ∷ w.cleanups)
              × (w'.deals ≡ (
                  if env.deals_fault (suc (suc w.calls))
                  then w.deals
                  else update_row (terminate d) w.deals)))
  unfolding handle_retry retry_deal
  handle_terminate_lem uuid w = elim (Option-cases (row_read uuid w)) [
    | inl e ↦ ground (arith, e)
    | inr (d, e) ↦ elim (Bool-cases (up_to complete d.checkpoint)) [
      | inl c ↦ ground (arith, e, c)
      | inr c ↦ elim (Bool-cases (idle uuid called)) [
        | inl i ↦
            let (s, ds, cs, r) = terminate_row_lem uuid d called (row_read-uuid uuid w d e) c in
            (
              ground (arith, e, s),
              ground (arith, e, r),
              inr (
                d,
                row_read-by_id uuid w d e,
                ground (arith, e, c, i),
                ground (arith, e, cs, i),
                ground (arith, e, ds, i),
              ),
            )
        | inr i ↦
            ground (arith, e, c, i, terminate_row_lem uuid d called (row_read-uuid uuid w d e) c)
      ]
    ]
  ]
    where
      called : World
      called = record w { calls = suc w.calls }
