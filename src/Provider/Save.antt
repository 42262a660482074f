-- ===== src/Provider/Save.antt =====
-- A deal is written to its table once, or it is refused and what it reserved is released.
use boost.Common.{
  ℕ, suc, ◌≡◌, ◌⊎◌, inl, inr, refl, sym, ◌∙◌, ap, Bool-cases, true, false, [], ◌∷◌, ◌++◌, Option,
  none, some, Result, ok, err, raise, subst, arith, ◌>>=◌, Option-cases,
}
use boost.Deal.{ProviderDealState, accepted}
use boost.Funds.Sums as FundsRows
use boost.Storage.Rows as StorageRows
use boost.Provider.World.{
  World, Env, Provider, AcceptError, Stop, refused, panic, by_id, staging_file_error, insert_error,
}
use boost.Provider.Propose.{
  cleanup, clean_and_refuse, staged, stamped, insert_deal, inserted, save_deal, stage_deal,
}
use boost.Provider.Trace.{Own, Clean, Ends, Ends-shift}
use boost.Provider.Checks.{steady, Fresh}
use boost.Provider.Reserve.{cleanup-Clean, cleaned_lem, clean_and_refuse-Ends}

-- The deal was saved once, as accepted, under a uuid that was not in the table.
abbrev pub Saved : ProviderDealState → ProviderDealState → World → World → Type 0
Saved deal row w w' =
    (FundsRows.others deal.deal_uuid w'.funds.tagged
      ≡ FundsRows.others deal.deal_uuid w.funds.tagged)
    × (StorageRows.others deal.deal_uuid w'.storage.tagged
        ≡ StorageRows.others deal.deal_uuid w.storage.tagged)
    × (w'.deals ≡ w.deals ++ row ∷ [])
    × (by_id deal.deal_uuid w.deals ≡ none)
    × (row.deal_uuid ≡ deal.deal_uuid)
    × (row.proposal ≡ deal.proposal)
    × (row.checkpoint ≡ accepted)

pub Own-Saved :
    (deal row : ProviderDealState) (w v v' : World)
    → Own deal.deal_uuid w v
    → Saved deal row v v'
    → Saved deal row w v'
Own-Saved deal row w v v' (f, s, d) (f', s', d', new, u, p, k) =
    (f' ∙ f, s' ∙ s, d' ∙ ap (λ ds. ds ++ row ∷ []) d, rw (← d) new, u, p, k)

pub told :
    (deal : ProviderDealState) (r : Result Stop ProviderDealState) (w w' : World)
    → Fresh deal.deal_uuid w
    → Ends deal.deal_uuid (Saved deal) r w w'
    → ((e : AcceptError) × (r ≡ err (refused e))
        × (w'.funds.tagged ≡ w.funds.tagged)
        × (w'.storage.tagged ≡ w.storage.tagged)
        × (w'.deals ≡ w.deals))
      ⊎ ((row : ProviderDealState) × (r ≡ ok row) × Saved deal row w w')
unfolding Ends
told deal (ok row) w w' fresh saved = inr (row, refl, saved)
told deal (err (refused e)) w w' (a, b) (f, s, d) = inl (
  e,
  refl,
  f ∙ FundsRows.others_self deal.deal_uuid w.funds.tagged a,
  s ∙ StorageRows.others_self deal.deal_uuid w.storage.tagged b,
  d,
)
told deal (err panic) w w' fresh h = absurd h

-- A chain whose first part is known to answer.
Ends-known :
    {A B : Type 0} (uuid : ℕ) (P : B → World → World → Type 0) (f : A → Provider B) (w v : World)
    (a : A) (r : Result Stop A)
    → r ≡ ok a
    → Ends uuid P (f a v).0 w (f a v).1
    → let out : Result Stop B × World = elim r [ ok x ↦ f x v | err e ↦ raise e v ] in
      Ends uuid P out.0 w out.1
Ends-known {A} {B} uuid P f w v a r e h =
    subst
      (λ (x : Result Stop A).
        let out : Result Stop B × World = elim x [ ok y ↦ f y v | err y ↦ raise y v ] in
        Ends uuid P out.0 w out.1)
      (sym e) h

-- A chain whose first part is known to be refused.
Ends-stop :
    {A B : Type 0} (uuid : ℕ) (P : B → World → World → Type 0) (f : A → Provider B) (w : World)
    (first : Result Stop A × World) (e : AcceptError) (v : World)
    → first ≡ (err (refused e), v)
    → Clean uuid w v
    → let out : Result Stop B × World = elim first.0 [
      | ok x ↦ f x first.1
      | err y ↦ raise y first.1
    ] in
      Ends uuid P out.0 w out.1
unfolding Ends
Ends-stop {A} {B} uuid P f w first e v same clean =
    subst
      (λ (x : Result Stop A × World).
        let out : Result Stop B × World = elim x.0 [ ok y ↦ f y x.1 | err y ↦ raise y x.1 ] in
        Ends uuid P out.0 w out.1)
      (sym same) clean

module _ (env : Env) where
  pub insert_lem :
      (row : ProviderDealState) (w : World)
      → let (r, w') = insert_deal env row w in
        (w'.funds ≡ w.funds)
        × (w'.storage ≡ w.storage)
        × (w'.handlers ≡ w.handlers)
        × (w'.started ≡ w.started)
        × (((r ≡ ok true) × (w'.deals ≡ w.deals))
            ⊎ ((r ≡ ok false)
                × (w'.deals ≡ w.deals ++ row ∷ [])
                × (by_id row.deal_uuid w.deals ≡ none)))
  unfolding insert_deal
  insert_lem row w = elim (Option-cases (by_id row.deal_uuid w.deals)) [
    | inr (d, e) ↦ ground (arith, e)
    | inl e ↦ elim (Bool-cases (env.deals_fault w.calls)) [
      | inl f ↦ ground (arith, e, f)
      | inr f ↦ ground (arith, e, f)
    ]
  ]

module _ (c c' : ℕ → ℕ) (env : Env) where
  Ends-save_deal :
      (deal : ProviderDealState) (w : World)
      → let (r, w') = save_deal (steady c c' env) deal w in Ends deal.deal_uuid (Saved deal) r w w'
  unfolding save_deal stamped inserted Ends
  Ends-save_deal deal w =
      let (f, s, h, t, cases) = insert_lem (steady c c' env) row v in
      elim cases [
        | inl (e, d) ↦
            Ends-known deal.deal_uuid (Saved deal) (inserted (steady c c' env) row) w v' true
              (insert_deal (steady c c' env) row v).0 e
              (clean_and_refuse-Ends c c' env (Saved deal) row insert_error w v' (
                ap (λ x. FundsRows.others deal.deal_uuid x.tagged) f,
                ap (λ x. StorageRows.others deal.deal_uuid x.tagged) s,
                d,
              ))
        | inr (e, d, new) ↦
            Ends-known deal.deal_uuid (Saved deal) (inserted (steady c c' env) row) w v' false
              (insert_deal (steady c c' env) row v).0 e
              (
                ap (λ x. FundsRows.others deal.deal_uuid x.tagged) f,
                ap (λ x. StorageRows.others deal.deal_uuid x.tagged) s,
                d,
                new,
                refl,
                refl,
                refl,
              )
      ]
    where
      row : ProviderDealState
      row = record deal {
        created_at = env.clock w.calls;
        checkpoint = accepted;
        checkpoint_at = env.clock (suc w.calls);
      }

      v : World
      v = record w { calls = suc (suc w.calls) }

      v' : World
      v' = (insert_deal (steady c c' env) row v).1

  Ends-staged :
      (deal : ProviderDealState) (path : Option ℕ) (w : World)
      → let (r, w') = (staged (steady c c' env) deal path >>= save_deal (steady c c' env)) w in
        Ends deal.deal_uuid (Saved deal) r w w'
  unfolding staged
  Ends-staged deal none w =
      Ends-stop deal.deal_uuid (Saved deal) (save_deal (steady c c' env)) w
        (clean_and_refuse (steady c c' env) {A = ProviderDealState} deal staging_file_error w)
        staging_file_error (cleanup (steady c c' env) deal w).1
        (cleaned_lem c c' env deal staging_file_error w) (cleanup-Clean c c' env deal w)
  Ends-staged deal (some path) w = Ends-save_deal (record deal { inbound_file_path = path }) w

  pub Ends-staging :
      (deal : ProviderDealState) (w : World)
      → let (r, w') = (stage_deal (steady c c' env) deal >>= save_deal (steady c c' env)) w in
        Ends deal.deal_uuid (Saved deal) r w w'
  unfolding stage_deal
  Ends-staging deal w =
      let called = record w { calls = suc w.calls } in
      let path = env.staging_file w.calls deal.deal_uuid in
      let out = (staged (steady c c' env) deal path >>= save_deal (steady c c' env)) called in
      Ends-shift deal.deal_uuid (Saved deal) w called (λ b v' saved. saved) (refl, refl, refl) out.0
        out.1 (Ends-staged deal path called)
