-- ===== src/Provider/Finished.antt =====
-- The end of a deal's execution reaches the run loop: storagemarket/deal_execution.go with
-- storagemarket/provider_loop.go.
use boost.Common.{
  ℕ, ◌≤◌, ◌≡◌, ◌⊎◌, inl, inr, Bool, Option, none, some, Result-cases, ok, arith, ◌>>=◌, ap, >>=-ok,
}
use boost.Deal.{retry_fatal, Retry}
use boost.Funds.Sums as FundsRows
use boost.Storage.Rows as StorageRows
use boost.Exec.World.{
  World as ExecWorld, Env as ExecEnv, DealError, deal_error, panic, save_deal_to_db, deals_update,
  call,
}
use boost.Exec.Run.{
  run_deal, exec_deal, exec_body, clear_error, settle, settle_error, fail_deal, mark_failed,
  cleanup_deal, finish_deal, exec_deal_upto_add_piece, count_received, cleanup_deal_handler,
}
use boost.Exec.Steps.{finishes, Quiet}
use boost.Exec.Steps.Run.{watching, Quiet-watching}
use boost.Exec.Success.{ends_bind}
use boost.Provider.World.{World, Env}
use boost.Provider.Checks.{steady}
use boost.Provider.Served.{serve, serve_lem}

-- A run ends for good: with no error, or with a fatal one.
abbrev pub EndsForGood : Option DealError → Type 0
EndsForGood failure =
    (failure ≡ none) ⊎ ((e : DealError) × (failure ≡ some e) × (e.retry ≡ retry_fatal))

module _ (x : ExecEnv) where
  -- The loop was told that the deal is finished.
  abbrev Told : ExecWorld → Type 0
  Told w = 1 ≤ finishes w

  cleanup-Told : (w : ExecWorld) → ((n : ℕ) → x.context_error n ≡ none) → Told (cleanup_deal x w).1
  unfolding cleanup_deal cleanup_deal_handler
  cleanup-Told w up = ground (arith, up w.calls)

  saved_lem : (w : ExecWorld) → (save_deal_to_db x w).0 ≡ ok tt
  unfolding save_deal_to_db deals_update
  saved_lem w = ground arith

  failed-Told :
      (e : DealError) (cancelled : Bool) (w : ExecWorld)
      → ((n : ℕ) → x.context_error n ≡ none)
      → Told (fail_deal x e cancelled w).1
  unfolding fail_deal mark_failed
  failed-Told e cancelled w up =
      let marked = (mark_failed x e cancelled w).1 in
      ground (arith, saved_lem marked, cleanup-Told (save_deal_to_db x marked).1 up)

  settled-Told :
      (r : Retry) (e : DealError) (w : ExecWorld)
      → ((n : ℕ) → x.context_error n ≡ none)
      → r ≡ retry_fatal
      → Told (settle_error x r e w).1
  unfolding settle_error
  settled-Told r e w up fatal =
      ground (
        arith,
        fatal,
        failed-Told e (x.cancelled_by_user w.calls) (call x.cancelled_by_user w).1 up,
      )

  finish-Told :
      (w : ExecWorld)
      → ((n : ℕ) → x.context_error n ≡ none)
      → (finish_deal x w).0 ≡ ok tt
      → Told (finish_deal x w).1
  unfolding finish_deal Quiet
  finish-Told w up h =
      let (a, ea, same, done) = >>=-ok (cleanup_deal x) (λ _. watching x) w tt h in
      let (r, p, q, s, u, more, k) = Quiet-watching x (cleanup_deal x w).1 in
      ground (arith, ap (λ v. v.1) same, more, cleanup-Told w up)

  body-Told :
      (w : ExecWorld)
      → ((n : ℕ) → x.context_error n ≡ none)
      → (exec_body x w).0 ≡ ok tt
      → Told (exec_body x w).1
  unfolding exec_body
  body-Told w up =
      ends_bind Told (count_received x) (λ _. exec_deal_upto_add_piece x >>= λ _. finish_deal x) w
        tt
        (λ _ v.
          ends_bind Told (exec_deal_upto_add_piece x) (λ _. finish_deal x) v tt
            (λ _ u. finish-Told u up))

  succeeded-Told :
      (w : ExecWorld)
      → ((n : ℕ) → x.context_error n ≡ none)
      → (exec_deal x w).0 ≡ none
      → Told (exec_deal x w).1
  unfolding exec_deal
  succeeded-Told w up h = elim (Result-cases (exec_body x w).0) [
    | inl (a, e) ↦ ground (arith, e, body-Told w up e)
    | inr (deal_error d, e) ↦ absurd (ground (arith, e, h))
    | inr (panic, e) ↦ absurd (ground (arith, e, h))
  ]

  run-Told :
      (w : ExecWorld)
      → ((n : ℕ) → x.context_error n ≡ none)
      → EndsForGood (exec_deal x (clear_error x w).1).0
      → Told (run_deal x w)
  unfolding run_deal settle
  run-Told w up (inl h) = ground (arith, h, succeeded-Told (clear_error x w).1 up h)
  run-Told w up (inr (e, h, fatal)) =
      ground (arith, h, settled-Told e.retry e (exec_deal x (clear_error x w).1).1 up fatal)

-- A run of a deal that ends for good, without an error or with a fatal one, while the provider is
-- not shut down, makes requests of the run loop that, served in their order on databases of the
-- two managers whose statements do not fail, leave no row of the deal tagged in either table; the
-- rows of the other deals and the deals table stay as they were.
pub run_deal_releases :
    (c c' : ℕ → ℕ) (env : Env) (x : ExecEnv) (run : ExecWorld) (w : World)
    → ((n : ℕ) → x.context_error n ≡ none)
    → EndsForGood (exec_deal x (clear_error x run).1).0
    → let w' = serve (steady c c' env) run.deal.deal_uuid (run_deal x run).effects w in
      (w'.funds.tagged ≡ FundsRows.others run.deal.deal_uuid w.funds.tagged)
      × (w'.storage.tagged ≡ StorageRows.others run.deal.deal_uuid w.storage.tagged)
      × (w'.deals ≡ w.deals)
run_deal_releases c c' env x run w up ends =
    let (r, clean) = serve_lem c c' env run.deal.deal_uuid (run_deal x run).effects w in
    clean (run-Told x run up ends)
