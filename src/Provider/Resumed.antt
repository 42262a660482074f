-- ===== src/Provider/Resumed.antt =====
-- Which deals `Start` starts.
use boost.Common.{
  ℕ, ◌==◌, ◌≡◌, ◌⊎◌, inl, inr, refl, Bool, Bool-cases, true, false, not, ◌∷◌, if◌then◌else◌, ◌&&◌,
  ◌||◌, arith, Option-cases, Result, ok, err, ◌>>=◌, ◌∙◌, ap, sym, lookup, lookup-insert, pure,
  raise, subst, modify, ◌>>◌,
}
use boost.Deal.{ProviderDealState, is_auto}
use boost.Handler.{DealHandler, new_deal_handler, set_running}
use boost.Provider.World.{
  World, Env, Provider, Stop, mk_and_insert_deal_handler, set_handler, is_running,
}
use boost.Provider.Loop.{start_deal_thread}
use boost.Provider.Retry.{made_lem, handler_for}
use boost.Provider.Restart.{
  is_complete, awaits_import, start_epoch_elapsed, already_proving, elapsed_before_sector, resume,
  restart_with, restart_deal,
}

-- The deals that may be started with no word of the user.
abbrev pub resumable : ProviderDealState → Bool
resumable deal = not (is_complete deal) && (not (awaits_import deal) && is_auto deal.retry)

-- The deal was started, where it was not running; or no thread was.
abbrev pub Resumption : ProviderDealState → World → World → Type 0
Resumption deal w w' =
    (w'.deals ≡ w.deals)
    × (((w'.started ≡ w.started) × ((u : ℕ) → is_running u w'.handlers ≡ is_running u w.handlers))
        ⊎ ((w'.started ≡ deal.deal_uuid ∷ w.started)
            × (is_running deal.deal_uuid w.handlers ≡ false)
            × (awaits_import deal ≡ false)
            × (is_auto deal.retry ≡ true)
            × ((u : ℕ)
                → is_running u w'.handlers
                  ≡ (if deal.deal_uuid == u then true else is_running u w.handlers))))

Resumption-self : (deal : ProviderDealState) (w : World) → Resumption deal w w
Resumption-self deal w = (refl, inl (refl, λ u. refl))

Resumption-at :
    (deal : ProviderDealState) (w v v' : World)
    → v' ≡ v
    → Resumption deal w v
    → Resumption deal w v'
Resumption-at deal w v v' same h = subst (Resumption deal w) (sym same) h

-- No thread was started.
abbrev Idle : World → World → Type 0
Idle w v =
    (v.deals ≡ w.deals)
    × (v.started ≡ w.started)
    × ((u : ℕ) → is_running u v.handlers ≡ is_running u w.handlers)

counted-Idle : (w v : World) → v ≡ record w { calls = v.calls } → Idle w v
counted-Idle w v same = (
  ap (λ u. u.deals) same,
  ap (λ u. u.started) same,
  λ u. ap (λ (x : World). is_running u x.handlers) same,
)

Resumption-shift :
    (deal : ProviderDealState) (w v w' : World)
    → Idle w v
    → Resumption deal v w'
    → Resumption deal w w'
Resumption-shift deal w v w' (d, s, r) (d', inl (s', r')) = (d' ∙ d, inl (s' ∙ s, λ u. r' u ∙ r u))
Resumption-shift deal w v w' (d, s, r) (d', inr (s', idle, awaits, auto, r')) = (
  d' ∙ d,
  inr (
    s' ∙ ap (λ us. deal.deal_uuid ∷ us) s,
    sym (r deal.deal_uuid) ∙ idle,
    awaits,
    auto,
    λ u. r' u ∙ ap (λ b. if deal.deal_uuid == u then true else b) (r u),
  ),
)

Resumption-then :
    {A B : Type 0} (deal : ProviderDealState) (f : A → Provider B) (w v : World)
    → Idle w v
    → ((a : A) → Resumption deal v (f a v).1)
    → (r : Result Stop A)
    → let out : Result Stop B × World = elim r [ ok a ↦ f a v | err e ↦ raise e v ] in
      Resumption deal w out.1
Resumption-then deal f w v same then_ (ok a) = Resumption-shift deal w v (f a v).1 same (then_ a)
Resumption-then deal f w v same then_ (err e) =
    Resumption-shift deal w v v same (Resumption-self deal v)

module _ (env : Env) where
  thread_lem :
      (deal : ProviderDealState) (dh : DealHandler) (w : World)
      → dh.running ≡ is_running deal.deal_uuid w.handlers
      → awaits_import deal ≡ false
      → is_auto deal.retry ≡ true
      → Resumption deal w (start_deal_thread env deal.deal_uuid dh w).1
  unfolding start_deal_thread set_handler set_running is_running
  thread_lem deal dh w same awaits auto = elim (Bool-cases dh.running) [
    | inl e ↦ (ground (arith, e), inl (ground (arith, e), λ u. ground (arith, e)))
    | inr e ↦ (
      ground (arith, e),
      inr (
        ground (arith, e),
        sym same ∙ e,
        awaits,
        auto,
        λ u.
            ground
              (arith, e, lookup-insert deal.deal_uuid u (record dh { running = true }) w.handlers),
      ),
    )
  ]

  elapsed_lem :
      (deal : ProviderDealState) (w : World)
      → (elapsed_before_sector env deal w).1
        ≡ record w { calls = (elapsed_before_sector env deal w).1.calls }
  unfolding elapsed_before_sector start_epoch_elapsed
  elapsed_lem deal w = ground arith

  proving_lem :
      (deal : ProviderDealState) (w : World)
      → (already_proving env deal w).1 ≡ record w { calls = (already_proving env deal w).1.calls }
  unfolding already_proving
  proving_lem deal w = ground arith

  resumed_if : ProviderDealState → DealHandler → Bool → Provider (Unit {0})
  resumed_if deal dh elapsed =
      if elapsed
      then modify (λ w. record w { failing = deal ∷ w.failing })
      else if awaits_import deal || not (is_auto deal.retry)
      then pure tt
      else (do start_deal_thread env deal.deal_uuid dh; pure tt)

  thread_answers :
      (uuid : ℕ) (dh : DealHandler) (w : World)
      → ((start_deal_thread env uuid dh w).0 ≡ ok true)
        ⊎ ((start_deal_thread env uuid dh w).0 ≡ ok false)
  unfolding start_deal_thread set_handler set_running
  thread_answers uuid dh w = ground arith

  resumed_if_lem :
      (deal : ProviderDealState) (dh : DealHandler) (elapsed : Bool) (w : World)
      → dh.running ≡ is_running deal.deal_uuid w.handlers
      → Resumption deal w (resumed_if deal dh elapsed w).1
  unfolding resumed_if
  resumed_if_lem deal dh true w same = (refl, inl (refl, λ u. refl))
  resumed_if_lem deal dh false w same =
      elim (Bool-cases (awaits_import deal || not (is_auto deal.retry))) [
        | inl e ↦
            Resumption-at deal w w (resumed_if deal dh false w).1 (ground (arith, e))
              (Resumption-self deal w)
        | inr e ↦
            Resumption-at deal w (start_deal_thread env deal.deal_uuid dh w).1
              (resumed_if deal dh false w).1 (ground (arith, e, thread_answers deal.deal_uuid dh w))
              (thread_lem deal dh w same (ground (arith, e)) (ground (arith, e)))
      ]

  -- The last of the steps of `Start` for a deal that has a handler.
  resume_lem :
      (deal : ProviderDealState) (dh : DealHandler) (w : World)
      → dh.running ≡ is_running deal.deal_uuid w.handlers
      → Resumption deal w (resume env deal dh w).1
  unfolding resume resumed_if
  resume_lem deal dh w same =
      let v = (elapsed_before_sector env deal w).1 in
      let counted = elapsed_lem deal w in
      Resumption-then deal (resumed_if deal dh) w v (counted-Idle w v counted)
        (λ elapsed.
          resumed_if_lem deal dh elapsed v
            (same ∙ ap (λ (u : World). is_running deal.deal_uuid u.handlers) (sym counted)))
        (elapsed_before_sector env deal w).0

  made-Idle : (uuid : ℕ) (w : World) → Idle w (mk_and_insert_deal_handler env uuid w).1
  unfolding mk_and_insert_deal_handler is_running new_deal_handler
  made-Idle uuid w = elim (Option-cases (lookup uuid w.handlers)) [
    | inr (dh, e) ↦ (ground (arith, e), ground (arith, e), λ u. ground (arith, e))
    | inl e ↦ elim (Bool-cases (env.handler_fault w.calls)) [
      | inl f ↦ (ground (arith, e, f), ground (arith, e, f), λ u. ground (arith, e, f))
      | inr f ↦ (
        ground (arith, e, f),
        ground (arith, e, f),
        λ u. ground (arith, e, f, lookup-insert uuid u new_deal_handler w.handlers),
      )
    ]
  ]

  with_handler_lem :
      (deal : ProviderDealState) (w : World)
      → Resumption deal w
          ((mk_and_insert_deal_handler env deal.deal_uuid >>= restart_with env deal) w).1
  unfolding restart_with
  with_handler_lem deal w =
      let v = (mk_and_insert_deal_handler env deal.deal_uuid w).1 in
      let (m, s, ds, c, run, n, h) = made_lem env deal.deal_uuid w in
      elim (Option-cases (handler_for env deal.deal_uuid w)) [
        | inl e ↦
            Resumption-at deal w v (then_resume w).1 (ground (arith, e, m))
              (Resumption-shift deal w v v (made-Idle deal.deal_uuid w) (Resumption-self deal v))
        | inr (dh, e) ↦
            Resumption-at deal w (resume env deal dh v).1 (then_resume w).1 (ground (arith, e, m)) (
              Resumption-shift deal w v (resume env deal dh v).1 (made-Idle deal.deal_uuid w)
                (resume_lem deal dh v (h dh e ∙ sym run)))
      ]
    where
      then_resume : Provider (Unit {0})
      then_resume = mk_and_insert_deal_handler env deal.deal_uuid >>= restart_with env deal

  unless_proving : ProviderDealState → Bool → Provider (Unit {0})
  unless_proving deal proving =
      if proving
      then pure tt
      else mk_and_insert_deal_handler env deal.deal_uuid >>= restart_with env deal

  unless_proving_lem :
      (deal : ProviderDealState) (proving : Bool) (w : World)
      → Resumption deal w (unless_proving deal proving w).1
  unfolding unless_proving
  unless_proving_lem deal true w = Resumption-self deal w
  unless_proving_lem deal false w = with_handler_lem deal w

  pub restart_lem :
      (deal : ProviderDealState) (w : World) → Resumption deal w (restart_deal env deal w).1
  unfolding restart_deal unless_proving
  restart_lem deal w =
      let v = (already_proving env deal w).1 in
      Resumption-then deal (unless_proving deal) w v (counted-Idle w v (proving_lem deal w))
        (λ proving. unless_proving_lem deal proving v) (already_proving env deal w).0
