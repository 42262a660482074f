-- ===== src/Provider/Started.antt =====
-- Which deals `Start` starts and fails: no deal twice, and none that waits for the user.
use boost.Common.{
  ℕ, suc, ◌≡◌, inl, inr, refl, Bool, Bool-cases, true, false, not, List, [], ◌∷◌, arith, ok, ◌>>=◌,
  ◌>>◌, ◌∙◌, ap, sym, select, All, subst,
}
use boost.Deal.{ProviderDealState}
use boost.Provider.World.{World, Env, Provider, is_running, refuse_if, setup_error}
use boost.Provider.Restart.{
  is_complete, is_indexed, newest_first, list_completed, list_active, cleanup_deal_on_restart,
  cleanup_all, restart_deal, restart_all, start, run_failing,
}
use boost.Provider.Elapsed.{MayFail, RowOf, restart-Failures, run_failing-Failing}
use boost.Provider.Resumed.{restart_lem}
use boost.Provider.Rows.{
  All-map, Member, members, All-select, All-newest_first, Distinct, MayResume, Running,
}
use boost.Provider.Threads.{Sound, Sound-bind, Sound-step}

module _ (env : Env) where
  -- A row that is active.
  abbrev Active : List ProviderDealState → ProviderDealState → Type 0
  Active rows d = Member rows d × (not (is_complete d) ≡ true)

  Sound-restart_all :
      (rows ds : List ProviderDealState) (w : World)
      → All (Active rows) ds
      → Sound env rows w
      → Sound env rows (restart_all env ds w).1
  unfolding restart_all
  Sound-restart_all rows [] w h sound = sound
  Sound-restart_all rows (d ∷ ds) w ((member, active), h) sound =
      Sound-bind env rows (restart_deal env d) (λ _. restart_all env ds) w
        (Sound-step env rows d w (restart_deal env d w).1 member (ground (arith, active))
          (restart_lem env d w) (restart-Failures env d w) sound)
        (λ _ _ now. Sound-restart_all rows ds (restart_deal env d w).1 h now)

  -- What `Sound` reads stays.
  Sound-still :
      (rows : List ProviderDealState) (w v : World)
      → (v.deals ≡ w.deals)
        × (v.started ≡ w.started)
        × (v.handlers ≡ w.handlers)
        × (v.failing ≡ w.failing)
      → Sound env rows w
      → Sound env rows v
  Sound-still rows w v (d, s, h, f) (fail, e, may, run, distinct) = (
    subst (All (MayFail env rows)) (sym f) fail,
    d ∙ e,
    subst (All (MayResume rows)) (sym s) may,
    subst (All (Running v)) (sym s) (All-map w.started (λ u r. ap (is_running u) h ∙ r) run),
    subst Distinct (sym s) distinct,
  )

  cleanup_lem :
      (d : ProviderDealState) (w : World)
      → let v = (cleanup_deal_on_restart env d w).1 in
        (v.deals ≡ w.deals)
        × (v.started ≡ w.started)
        × (v.handlers ≡ w.handlers)
        × (v.failing ≡ w.failing)
  unfolding cleanup_deal_on_restart
  cleanup_lem d w = ground arith

  Sound-cleanup_all :
      (rows ds : List ProviderDealState) (w : World)
      → Sound env rows w
      → Sound env rows (cleanup_all env ds w).1
  unfolding cleanup_all
  Sound-cleanup_all rows [] w sound = sound
  Sound-cleanup_all rows (d ∷ ds) w sound =
      Sound-bind env rows (cleanup_deal_on_restart env d) (λ _. cleanup_all env ds) w
        (Sound-still rows w (cleanup_deal_on_restart env d w).1 (cleanup_lem d w) sound)
        (λ _ _ now. Sound-cleanup_all rows ds (cleanup_deal_on_restart env d w).1 now)

  listed_lem :
      (w : World)
      → let (r, v) = list_active env w in
        ((v.deals ≡ w.deals)
          × (v.started ≡ w.started)
          × (v.handlers ≡ w.handlers)
          × (v.failing ≡ w.failing))
        × ((a : List ProviderDealState)
            → r ≡ ok a
            → a ≡ newest_first (select (λ d. not (is_complete d)) w.deals))
  unfolding list_active
  listed_lem w = elim (Bool-cases (env.deals_fault w.calls)) [
    | inl f ↦ (ground (arith, f), λ a h. absurd (ground (arith, f, h)))
    | inr f ↦ (ground (arith, f), λ a h. ground (arith, f, h))
  ]

  listed_completed_lem :
      (w : World)
      → let v = (list_completed env w).1 in
        (v.deals ≡ w.deals)
        × (v.started ≡ w.started)
        × (v.handlers ≡ w.handlers)
        × (v.failing ≡ w.failing)
  unfolding list_completed
  listed_completed_lem w = ground arith

  active_lem :
      (rows a : List ProviderDealState)
      → a ≡ newest_first (select (λ d. not (is_complete d)) rows)
      → All (Active rows) a
  active_lem rows a same = subst (All (Active rows)) (sym same) (
      All-newest_first (Active rows) (select (λ d. not (is_complete d)) rows)
        (All-select (Member rows) (λ d. not (is_complete d)) rows (members rows)))

  restart_active : List ProviderDealState → Provider (Unit {0})
  restart_active active = do cleanup_all env (select is_indexed active); restart_all env active

  restart_active-Sound :
      (rows active : List ProviderDealState) (w : World)
      → All (Active rows) active
      → Sound env rows w
      → Sound env rows (restart_active active w).1
  unfolding restart_active
  restart_active-Sound rows active w h sound =
      Sound-bind env rows (cleanup_all env (select is_indexed active)) (λ _. restart_all env active)
        w (Sound-cleanup_all rows (select is_indexed active) w sound)
        (λ _ _ now.
          Sound-restart_all rows active (cleanup_all env (select is_indexed active) w).1 h now)

  restart_listed : Provider (Unit {0})
  restart_listed = list_active env >>= restart_active

  Sound-listed :
      (rows : List ProviderDealState) (w : World)
      → Sound env rows w
      → Sound env rows (restart_listed w).1
  unfolding restart_listed
  Sound-listed rows w sound =
      let (still, answer) = listed_lem w in
      Sound-bind env rows (list_active env) restart_active w
        (Sound-still rows w (list_active env w).1 still sound)
        (λ active e now.
          restart_active-Sound rows active (list_active env w).1
            (active_lem rows active (
              answer active e
              ∙ ap (λ ds. newest_first (select (λ d. not (is_complete d)) ds)) sound.1))
            now)

  cleanup_listed : Provider (Unit {0})
  cleanup_listed = do finished ← list_completed env; cleanup_all env finished; restart_listed

  Sound-cleanup_listed :
      (rows : List ProviderDealState) (w : World)
      → Sound env rows w
      → Sound env rows (cleanup_listed w).1
  unfolding cleanup_listed
  Sound-cleanup_listed rows w sound =
      Sound-bind env rows (list_completed env)
        (λ finished. cleanup_all env finished >>= λ _. restart_listed) w
        (Sound-still rows w v (listed_completed_lem w) sound)
        (λ finished _ now.
          Sound-bind env rows (cleanup_all env finished) (λ _. restart_listed) v
            (Sound-cleanup_all rows finished v now)
            (λ _ _ then_. Sound-listed rows (cleanup_all env finished v).1 then_))
    where
      v : World
      v = (list_completed env w).1

  Sound-set_up :
      (rows : List ProviderDealState) (failed : Bool) (w : World)
      → Sound env rows w
      → Sound env rows ((refuse_if failed setup_error >>= λ _. cleanup_listed) w).1
  Sound-set_up rows true w sound = sound
  Sound-set_up rows false w sound = Sound-cleanup_listed rows w sound

  -- When the provider starts, with no thread before, and whichever calls fail on the way. Every
  -- thread that is started to run a deal is that of a deal which is in the table, not complete,
  -- retried automatically and not waiting for its data to be imported; and no deal is started
  -- twice. `Start` itself changes no row; and once any of the threads that it has started to fail
  -- deals have run, in any order, each row of the table is as it was, or was that of an active deal
  -- not yet in a sector, at a head of the chain past its start epoch, and is now complete and fatal
  -- with the error that says so, the rest of it as it was.
  pub start_resumes :
      (w : World) (is : List ℕ)
      → w.started ≡ []
      → w.failing ≡ []
      → let w' = (start env w).1 in
        (w'.deals ≡ w.deals)
        × All (MayResume w.deals) w'.started
        × Distinct w'.started
        × All (RowOf env w.deals) (run_failing env is w').deals
  unfolding start cleanup_listed restart_listed restart_active
  start_resumes w is none_started none_failing =
      let v = record w { calls = suc w.calls } in
      let (fail, same, may, run, distinct) = Sound-set_up w.deals (env.setup_fault w.calls) v (
        subst (All (MayFail env w.deals)) (sym none_failing) tt,
        refl,
        subst (All (MayResume w.deals)) (sym none_started) tt,
        subst (All (Running v)) (sym none_started) tt,
        subst Distinct (sym none_started) tt,
      ) in
      let kept : All (RowOf env w.deals) w.deals =
        All-map w.deals (λ x m. inl m) (members w.deals) in
      let (_, rows) =
        run_failing-Failing env w.deals is (start env w).1
          (fail, subst (All (RowOf env w.deals)) (sym same) kept) in
      (same, may, distinct, rows)
