-- ===== src/Provider/Elapsed.antt =====
-- Deals that `Start` has failed because their start epoch has passed.
use boost.Common.{
  ℕ, zero, suc, ℤ, ltb_ℤ, ◌==◌, ◌≡◌, ◌⊎◌, inl, inr, refl, Bool, Bool-cases, true, false, List, [],
  ◌∷◌, Option, Option-cases, none, some, some_inj, if◌then◌else◌, pure, arith, Result, ok, err,
  raise, ◌>>=◌, ◌∙◌, ap, subst, All,
}
use boost.Deal.{ProviderDealState, before, added_piece, complete, retry_fatal, failure_text}
use boost.Handler.{DealHandler, set_running}
use boost.Provider.World.{
  World, Env, Provider, Stop, set_handler, mk_and_insert_deal_handler, update_row,
}
use boost.Provider.Loop.{start_deal_thread}
use boost.Provider.Restart.{
  is_complete, start_epoch_elapsed, elapsed_before_sector, already_proving, resume, restart_with,
  restart_deal, take_at, elapsed_deal, fail_deal_thread, run_taken, run_failing,
}
use boost.Provider.Rows.{Member}

-- Not yet in a sector, at a head of the chain that is past its start epoch.
abbrev pub Elapsed : Env → ProviderDealState → Type 0
Elapsed env d =
    (before d.checkpoint added_piece ≡ true)
    × ((n : ℕ) × (height : ℤ) × (env.chain_head n ≡ some height)
        × (ltb_ℤ d.proposal.start_epoch height ≡ true))

-- A row that is failed at the start.
abbrev pub MayFail : Env → List ProviderDealState → ProviderDealState → Type 0
MayFail env rows d = Member rows d × (is_complete d ≡ false) × Elapsed env d

-- A row that was there, or such a row after it was failed: complete, for good, with the error.
abbrev pub RowOf : Env → List ProviderDealState → ProviderDealState → Type 0
RowOf env rows x =
    Member rows x
    ⊎ ((d : ProviderDealState) × MayFail env rows d
        × (x ≡ record d {
          checkpoint = complete;
          retry = retry_fatal;
          deal_err = some (failure_text (env.start_epoch_error d));
        }))

-- The thread that fails the deal was started, or none was.
abbrev pub Failures : Env → ProviderDealState → World → World → Type 0
Failures env d w w' = (w'.failing ≡ w.failing) ⊎ ((w'.failing ≡ d ∷ w.failing) × Elapsed env d)

All-update :
    (P : ProviderDealState → Type 0) (d : ProviderDealState) (rows : List ProviderDealState)
    → P d
    → All P rows
    → All P (update_row d rows)
unfolding update_row
All-update P d [] p h = tt
All-update P d (x ∷ xs) p (a, h) = elim (Bool-cases (x.deal_uuid == d.deal_uuid)) [
  | inl e ↦ rw e (p, All-update P d xs p h)
  | inr e ↦ rw e (a, All-update P d xs p h)
]

All-take_at :
    (P : ProviderDealState → Type 0) (i : ℕ) (ds : List ProviderDealState) (d : ProviderDealState)
    (rest : List ProviderDealState)
    → All P ds
    → take_at i ds ≡ some (d, rest)
    → P d × All P rest
unfolding take_at
All-take_at P i [] d rest h e = absurd (ground (arith, e))
All-take_at P zero (x ∷ xs) d rest (a, h) e =
    subst (λ (r : ProviderDealState × List ProviderDealState). P r.0 × All P r.1) (some_inj e)
      (a, h)
All-take_at P (suc i) (x ∷ xs) d rest (a, h) e = elim (Option-cases (take_at i xs)) [
  | inl f ↦ absurd (ground (arith, e, f))
  | inr ((y, ys), f) ↦
      let (p, all) = All-take_at P i xs y ys h f in
      let same : (y, x ∷ ys) ≡ (d, rest) = some_inj (ground (arith, e, f)) in
      subst (λ (r : ProviderDealState × List ProviderDealState). P r.0 × All P r.1) same
        (p, (a, all))
]

module _ (env : Env) where
  Failures-shift :
      (d : ProviderDealState) (w v u : World)
      → v.failing ≡ w.failing
      → Failures env d v u
      → Failures env d w u
  Failures-shift d w v u same (inl e) = inl (e ∙ same)
  Failures-shift d w v u same (inr (e, x)) = inr (e ∙ ap (λ ds. d ∷ ds) same, x)

  Failures-then :
      {A B : Type 0} (d : ProviderDealState) (f : A → Provider B) (w v : World)
      → v.failing ≡ w.failing
      → ((a : A) → Failures env d v (f a v).1)
      → (r : Result Stop A)
      → let out : Result Stop B × World = elim r [ ok a ↦ f a v | err e ↦ raise e v ] in
        Failures env d w out.1
  Failures-then d f w v same then_ (ok a) = Failures-shift d w v (f a v).1 same (then_ a)
  Failures-then d f w v same then_ (err e) = inl same

  resume-Failures :
      (d : ProviderDealState) (dh : DealHandler) (w : World)
      → Failures env d w (resume env d dh w).1
  unfolding resume elapsed_before_sector start_epoch_elapsed start_deal_thread set_handler
      set_running
  resume-Failures d dh w = elim (Bool-cases (before d.checkpoint added_piece)) [
    | inr e ↦ inl (ground (arith, e))
    | inl e ↦ elim (Option-cases (env.chain_head w.calls)) [
      | inl f ↦ inl (ground (arith, e, f))
      | inr (height, f) ↦ elim (Bool-cases (ltb_ℤ d.proposal.start_epoch height)) [
        | inl g ↦ inr (ground (arith, e, f, g), (e, (w.calls, height, f, g)))
        | inr g ↦ inl (ground (arith, e, f, g))
      ]
    ]
  ]

  restart_with-Failures :
      (d : ProviderDealState) (found : Option DealHandler) (w : World)
      → Failures env d w (restart_with env d found w).1
  unfolding restart_with
  restart_with-Failures d none w = inl refl
  restart_with-Failures d (some dh) w = resume-Failures d dh w

  made_failing :
      (uuid : ℕ) (w : World) → (mk_and_insert_deal_handler env uuid w).1.failing ≡ w.failing
  unfolding mk_and_insert_deal_handler
  made_failing uuid w = ground arith

  unless_proving : ProviderDealState → Bool → Provider (Unit {0})
  unless_proving d proving =
      if proving then pure tt else mk_and_insert_deal_handler env d.deal_uuid >>= restart_with env d

  unless_proving-Failures :
      (d : ProviderDealState) (proving : Bool) (w : World)
      → Failures env d w (unless_proving d proving w).1
  unfolding unless_proving
  unless_proving-Failures d true w = inl refl
  unless_proving-Failures d false w =
      let v = (mk_and_insert_deal_handler env d.deal_uuid w).1 in
      Failures-then d (restart_with env d) w v (made_failing d.deal_uuid w)
        (λ found. restart_with-Failures d found v) (mk_and_insert_deal_handler env d.deal_uuid w).0

  proving_failing :
      (d : ProviderDealState) (w : World) → (already_proving env d w).1.failing ≡ w.failing
  unfolding already_proving
  proving_failing d w = ground arith

  pub restart-Failures :
      (d : ProviderDealState) (w : World) → Failures env d w (restart_deal env d w).1
  unfolding restart_deal unless_proving
  restart-Failures d w =
      let v = (already_proving env d w).1 in
      Failures-then d (unless_proving d) w v (proving_failing d w)
        (λ proving. unless_proving-Failures d proving v) (already_proving env d w).0

  -- The threads that wait to fail deals, and the rows.
  abbrev pub Failing : List ProviderDealState → World → Type 0
  Failing rows w = All (MayFail env rows) w.failing × All (RowOf env rows) w.deals

  taken-Failing :
      (rows rest : List ProviderDealState) (d : ProviderDealState) (w : World)
      → MayFail env rows d
      → All (MayFail env rows) rest
      → All (RowOf env rows) w.deals
      → Failing rows (fail_deal_thread env d (record w { failing = rest })).1
  unfolding fail_deal_thread
  taken-Failing rows rest d w may left h = elim (Bool-cases (env.deals_fault w.calls)) [
    | inl e ↦ rw e (left, h)
    | inr e ↦
        rw e (left, All-update (RowOf env rows) (elapsed_deal env d) w.deals (inr (d, may, refl)) h)
  ]

  taken_from :
      (rows : List ProviderDealState) (i : ℕ) (w : World)
      (taken : Option (ProviderDealState × List ProviderDealState))
      → take_at i w.failing ≡ taken
      → Failing rows w
      → Failing rows (run_taken env taken w)
  unfolding run_taken
  taken_from rows i w none e h = h
  taken_from rows i w (some (d, rest)) e (may, h) =
      let (p, left) = All-take_at (MayFail env rows) i w.failing d rest may e in
      taken-Failing rows rest d w p left h

  pub run_failing-Failing :
      (rows : List ProviderDealState) (is : List ℕ) (w : World)
      → Failing rows w
      → Failing rows (run_failing env is w)
  unfolding run_failing
  run_failing-Failing rows [] w h = h
  run_failing-Failing rows (i ∷ is) w h =
      run_failing-Failing rows is (run_taken env (take_at i w.failing) w)
        (taken_from rows i w (take_at i w.failing) refl h)
