-- ===== src/Provider/Offline.antt =====
-- Offline proposals: nothing is reserved for them, and what a refusal does to the deal's handler.
use boost.Common.{
  suc, ◌≡◌, ◌≢◌, ◌⊎◌, inl, inr, refl, Bool-cases, true, false, [], ◌∷◌, ◌++◌, none, raise, Result,
  ok, err, arith, Option-cases, ◌>>=◌, ◌∙◌, ap, sym, subst, lookup, insert,
}
use boost.Deal.{ProviderDealState, accepted}
use boost.Handler.{new_deal_handler}
use boost.Provider.World.{
  World, Env, Provider, AcceptError, Stop, refused, panic, by_id, mk_and_insert_deal_handler,
  insert_error,
}
use boost.Provider.Propose.{
  check_proposal, stamped, insert_deal, offline_inserted, process_offline_deal_proposal,
  process_deal,
}
use boost.Provider.Checks.{Plain-check_proposal}
use boost.Provider.Save.{insert_lem}

-- Nothing but the deals table changed: the deal is refused, or its row is there.
abbrev pub OfflineOutcome :
    ProviderDealState → Result Stop ProviderDealState → World → World → Type 0
OfflineOutcome deal r w w' =
    (w'.funds ≡ w.funds)
    × (w'.storage ≡ w.storage)
    × (w'.handlers ≡ w.handlers)
    × (w'.started ≡ w.started)
    × (((e : AcceptError) × (r ≡ err (refused e)) × (w'.deals ≡ w.deals))
        ⊎ ((row : ProviderDealState) × (r ≡ ok row)
            × (w'.deals ≡ w.deals ++ row ∷ [])
            × (by_id deal.deal_uuid w.deals ≡ none)
            × (row.deal_uuid ≡ deal.deal_uuid)
            × (row.checkpoint ≡ accepted)))

module _ (env : Env) where
  save_offline : ProviderDealState → Provider ProviderDealState
  save_offline deal = do
    row ← stamped env deal
    failed ← insert_deal env row
    offline_inserted env row failed

  saved_offline_lem :
      (deal : ProviderDealState) (w : World)
      → OfflineOutcome deal (save_offline deal w).0 w (save_offline deal w).1
  unfolding save_offline stamped offline_inserted
  saved_offline_lem deal w =
      let v = record w { calls = suc (suc w.calls) } in
      let row = record deal {
        created_at = env.clock w.calls;
        checkpoint = accepted;
        checkpoint_at = env.clock (suc w.calls);
      } in
      let (f, s, h, t, cases) = insert_lem env row v in
      elim cases [
        | inl (e, d) ↦ (
          ground (arith, e, f),
          ground (arith, e, s),
          ground (arith, e, h),
          ground (arith, e, t),
          inl (insert_error, ground (arith, e), ground (arith, e, d)),
        )
        | inr (e, d, new) ↦ (
          ground (arith, e, f),
          ground (arith, e, s),
          ground (arith, e, h),
          ground (arith, e, t),
          inr (row, ground (arith, e), ground (arith, e, d), new, refl, refl),
        )
      ]

  offline_then :
      (deal : ProviderDealState) (w v : World) (r : Result Stop (Unit {0}))
      → v ≡ record w { calls = v.calls }
      → r ≢ err panic
      → let out : Result Stop ProviderDealState × World = elim r [
        | ok a ↦ save_offline deal v
        | err e ↦ raise e v
      ] in
        OfflineOutcome deal out.0 w out.1
  offline_then deal w v (ok a) same p =
      let (f, s, h, t, cases) = saved_offline_lem deal v in
      (
        f ∙ ap (λ u. u.funds) same,
        s ∙ ap (λ u. u.storage) same,
        h ∙ ap (λ u. u.handlers) same,
        t ∙ ap (λ u. u.started) same,
        elim cases [
          | inl (e, r, d) ↦ inl (e, r, d ∙ ap (λ u. u.deals) same)
          | inr (row, r, d, new, u, k) ↦ inr (
            row,
            r,
            d ∙ ap (λ u. u.deals ++ row ∷ []) same,
            rw (← ap (λ (u : World). u.deals) same) new,
            u,
            k,
          )
        ],
      )
  offline_then deal w v (err (refused e)) same p = (
    ap (λ u. u.funds) same,
    ap (λ u. u.storage) same,
    ap (λ u. u.handlers) same,
    ap (λ u. u.started) same,
    inl (e, refl, ap (λ u. u.deals) same),
  )
  offline_then deal w v (err panic) same p = absurd (p refl)

  offline_lem :
      (deal : ProviderDealState) (w : World)
      → let (r, w') = process_offline_deal_proposal env deal w in OfflineOutcome deal r w w'
  unfolding process_offline_deal_proposal save_offline
  offline_lem deal w =
      let (same, p) = Plain-check_proposal env deal w in
      offline_then deal w (check_proposal env deal w).1 (check_proposal env deal w).0 same p

  -- The deal has a handler, or one can be made.
  abbrev pub CanHandle : ProviderDealState → World → Type 0
  CanHandle deal w = (lookup deal.deal_uuid w.handlers ≢ none) ⊎ (env.handler_fault w.calls ≡ false)

  -- What is done with an offline proposal.
  abbrev ProposalOutcome :
      ProviderDealState → World → Result Stop ProviderDealState × World → Type 0
  ProposalOutcome deal w (r, w') =
      (w'.funds ≡ w.funds)
      × (w'.storage ≡ w.storage)
      × (w'.started ≡ w.started)
      × (((r ≡ err panic)
            × (lookup deal.deal_uuid w.handlers ≡ none)
            × (env.handler_fault w.calls ≡ true)
            × (w'.deals ≡ w.deals))
          ⊎ (CanHandle deal w
              × (((e : AcceptError) × (r ≡ err (refused e)) × (w'.deals ≡ w.deals))
                  ⊎ ((row : ProviderDealState) × (r ≡ ok row)
                      × (w'.deals ≡ w.deals ++ row ∷ [])
                      × (by_id deal.deal_uuid w.deals ≡ none)
                      × (row.deal_uuid ≡ deal.deal_uuid)
                      × (row.checkpoint ≡ accepted)))))

  with_handler :
      (deal : ProviderDealState) (w v : World)
      → (v.funds ≡ w.funds)
        × (v.storage ≡ w.storage)
        × (v.started ≡ w.started)
        × (v.deals ≡ w.deals)
      → CanHandle deal w
      → process_deal env deal w ≡ process_offline_deal_proposal env deal v
      → ProposalOutcome deal w (process_deal env deal w)
  with_handler deal w v (vf, vs, vt, vd) can same =
      let (f, s, h, t, cases) = offline_lem deal v in
      subst (ProposalOutcome deal w) (sym same) (
        f ∙ vf,
        s ∙ vs,
        t ∙ vt,
        elim cases [
          | inl (e, r, d) ↦ inr (can, inl (e, r, d ∙ vd))
          | inr (row, r, d, new, u, k) ↦
              inr (can, inr (row, r, d ∙ ap (λ ds. ds ++ row ∷ []) vd, rw (← vd) new, u, k))
        ],
      )

  -- An offline proposal, whatever fails: no fund and no space is tagged and no thread started.
  -- Where the deal has no handler and none can be made, it panics with the deals table as it was.
  -- Where the deal has a handler or one can be made, it does not panic: it is refused with the
  -- deals table as it was, or its row is appended to the table, at Accepted and under a uuid that
  -- was not there.
  pub process_offline_lem :
      (deal : ProviderDealState) (w : World)
      → deal.is_offline ≡ true
      → let (r, w') = process_deal env deal w in
        (w'.funds ≡ w.funds)
        × (w'.storage ≡ w.storage)
        × (w'.started ≡ w.started)
        × (((r ≡ err panic)
              × (lookup deal.deal_uuid w.handlers ≡ none)
              × (env.handler_fault w.calls ≡ true)
              × (w'.deals ≡ w.deals))
            ⊎ (((lookup deal.deal_uuid w.handlers ≢ none) ⊎ (env.handler_fault w.calls ≡ false))
                × (((e : AcceptError) × (r ≡ err (refused e)) × (w'.deals ≡ w.deals))
                    ⊎ ((row : ProviderDealState) × (r ≡ ok row)
                        × (w'.deals ≡ w.deals ++ row ∷ [])
                        × (by_id deal.deal_uuid w.deals ≡ none)
                        × (row.deal_uuid ≡ deal.deal_uuid)
                        × (row.checkpoint ≡ accepted)))))
  unfolding process_deal mk_and_insert_deal_handler
  process_offline_lem deal w offline = elim (Option-cases (lookup deal.deal_uuid w.handlers)) [
    | inr (dh, e) ↦
        with_handler deal w (record w { calls = suc w.calls }) (refl, refl, refl, refl)
          (inl (λ n. ground (arith, e, n))) (ground (arith, e, offline))
    | inl e ↦ elim (Bool-cases (env.handler_fault w.calls)) [
      | inl f ↦ (
        ground (arith, e, f, offline),
        ground (arith, e, f, offline),
        ground (arith, e, f, offline),
        inl (ground (arith, e, f, offline)),
      )
      | inr f ↦
          with_handler deal w
            (record w {
              calls = suc w.calls;
              handlers = insert deal.deal_uuid new_deal_handler w.handlers;
            })
            (refl, refl, refl, refl) (inr f) (ground (arith, e, f, offline))
    ]
  ]
