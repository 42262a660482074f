-- ===== src/Provider/Duplicate.antt =====
-- What a proposal does that repeats the uuid of a deal in the table.
use boost.Common.{
  ℕ, suc, ◌≡◌, inl, inr, refl, Bool-cases, true, false, List, [], ◌∷◌, none, some, Result, ok, err,
  arith, Option-cases, ◌∙◌, ap, sym, subst, lookup, insert, lookup-erase,
}
use boost.Deal.{ProviderDealState, complete, up_to}
use boost.Handler.{new_deal_handler, close}
use boost.Provider.World.{
  World, Env, AcceptError, Stop, refused, by_id, mk_and_insert_deal_handler, set_handler,
  is_running, handler_error, del_deal_handler,
}
use boost.Provider.Propose.{process_deal}
use boost.Provider.Loop.{
  Response, rejects, handle_processed, handle_proposal, handle_retry, reject_offline,
}
use boost.Provider.Offline.{process_offline_lem}
use boost.Provider.Retry.{acts_on, handle_retry_lem}

module _ (env : Env) where
  refused_offline_lem :
      (deal : ProviderDealState) (e : AcceptError) (w : World)
      → deal.is_offline ≡ true
      → let (r, w') = handle_processed env deal (err e) w in
        (lookup deal.deal_uuid w'.handlers ≡ none)
        × (w'.deals ≡ w.deals)
        × (w'.started ≡ w.started)
        × ((x : AcceptError) × (r ≡ ok (rejects x ∷ [])))
  unfolding handle_processed mk_and_insert_deal_handler reject_offline set_handler del_deal_handler
  refused_offline_lem deal e w offline = elim (Option-cases (lookup deal.deal_uuid w.handlers)) [
    | inr (dh, h) ↦
        let gone =
          lookup-erase deal.deal_uuid deal.deal_uuid
            (insert deal.deal_uuid (close dh) w.handlers) in
        (
          ground (arith, h, offline, gone),
          ground (arith, h, offline),
          ground (arith, h, offline),
          (e, ground (arith, h, offline)),
        )
    | inl h ↦ elim (Bool-cases (env.handler_fault w.calls)) [
      | inl f ↦ (
        ground (arith, h, f, offline),
        ground (arith, h, f, offline),
        ground (arith, h, f, offline),
        (handler_error, ground (arith, h, f, offline)),
      )
      | inr f ↦
          let gone = lookup-erase deal.deal_uuid deal.deal_uuid (
            insert deal.deal_uuid (close new_deal_handler)
              (insert deal.deal_uuid new_deal_handler w.handlers)) in
          (
            ground (arith, h, f, offline, gone),
            ground (arith, h, f, offline),
            ground (arith, h, f, offline),
            (e, ground (arith, h, f, offline)),
          )
    ]
  ]

  -- The responses to an offline proposal that `processDeal` refuses.
  refused_proposal_lem :
      (deal : ProviderDealState) (e : AcceptError) (w : World)
      → (process_deal env deal w).0 ≡ err (refused e)
      → handle_proposal env deal w ≡ handle_processed env deal (err e) (process_deal env deal w).1
  unfolding handle_proposal
  refused_proposal_lem deal e w h = ground (arith, h)

  restart_lem :
      (uuid : ℕ) (d : ProviderDealState) (w : World)
      → ((n : ℕ) → env.deals_fault n ≡ false)
      → ((n : ℕ) → env.handler_fault n ≡ false)
      → by_id uuid w.deals ≡ some d
      → up_to complete d.checkpoint ≡ false
      → lookup uuid w.handlers ≡ none
      → (handle_retry env uuid true w).1.started ≡ uuid ∷ w.started
  unfolding is_running
  restart_lem uuid d w table maker there active gone =
      let (s, r, ds, c) = handle_retry_lem env uuid w in
      let acts : acts_on env uuid w ≡ true =
        ground (arith, table w.calls, maker (suc w.calls), there, active, gone) in
      s ∙ rw acts refl

  abbrev Restarts : ProviderDealState → World → Result Stop (List Response) × World → Type 0
  Restarts deal w (r, w') =
      ((x : AcceptError) × (r ≡ ok (rejects x ∷ [])))
      × (lookup deal.deal_uuid w'.handlers ≡ none)
      × (w'.deals ≡ w.deals)
      × (w'.started ≡ w.started)
      × ((handle_retry env deal.deal_uuid true w').1.started ≡ deal.deal_uuid ∷ w.started)

  -- A refusal of an offline proposal takes the deal's handler away, also where the proposal was
  -- refused because it repeats the uuid of a deal that runs: the deal in the table is unchanged,
  -- and a retry of it, on a deals table and a map of handlers that do not fail, then starts it a
  -- second time while the first thread may still run.
  pub duplicate_offline_restarts :
      (deal d : ProviderDealState) (w : World)
      → ((n : ℕ) → env.deals_fault n ≡ false)
      → ((n : ℕ) → env.handler_fault n ≡ false)
      → deal.is_offline ≡ true
      → by_id deal.deal_uuid w.deals ≡ some d
      → up_to complete d.checkpoint ≡ false
      → let (r, w') = handle_proposal env deal w in
        ((x : AcceptError) × (r ≡ ok (rejects x ∷ [])))
        × (lookup deal.deal_uuid w'.handlers ≡ none)
        × (w'.deals ≡ w.deals)
        × (w'.started ≡ w.started)
        × ((handle_retry env deal.deal_uuid true w').1.started ≡ deal.deal_uuid ∷ w.started)
  duplicate_offline_restarts deal d w table maker offline there active =
      let (f, s, t, cases) = process_offline_lem env deal w offline in
      elim cases [
        | inl (r, none_there, fault, ds) ↦ absurd (ground (arith, fault, maker w.calls))
        | inr (_, inl (e, r, ds)) ↦
            let w1 = (process_deal env deal w).1 in
            let w2 = (handle_processed env deal (err e) w1).1 in
            let (gone, ds', s', answered) = refused_offline_lem deal e w1 offline in
            let there' : by_id deal.deal_uuid w2.deals ≡ some d =
              ap (by_id deal.deal_uuid) (ds' ∙ ds) ∙ there in
            subst (Restarts deal w) (sym (refused_proposal_lem deal e w r)) (
              answered,
              gone,
              ds' ∙ ds,
              s' ∙ t,
              restart_lem deal.deal_uuid d w2 table maker there' active gone
                  ∙ ap (λ st. deal.deal_uuid ∷ st) (s' ∙ t),
            )
        | inr (_, inr (row, r, ds, new, u, k)) ↦ absurd (ground (arith, new, there))
      ]
