-- ===== src/Provider/Served.antt =====
-- The requests that the execution of a deal makes of the run loop, and what they release: the
-- methods of storagemarket/deal_execution.go that write to the loop's channels, with the loop.
use boost.Common.{
  ℕ, ◌≤◌, ◌≡◌, ◌⊎◌, inl, inr, refl, Bool, false, List, [], ◌∷◌, arith, ◌∙◌, count_if, select, not,
}
use boost.Funds.Sums as FundsRows
use boost.Funds.Undo.{untag_funds-others}
use boost.Storage.Rows as StorageRows
use boost.Storage.Release.{untag-others}
use boost.Exec.World.{
  Effect, finished_request, untag_funds_request, deal_new, deal_update, publish_request,
  published_msg, piece_handed, inbound_removed, transfer_complete_call, lid_added, update_failed,
  announced, transfer_bytes, untag_storage_request,
}
use boost.Exec.Steps.{is_finished_request}
use boost.Provider.World.{World, Env}
use boost.Provider.Loop.{handle_storage_space, handle_published, handle_finished}
use boost.Provider.Checks.{steady}
use boost.Provider.Trace.{Clean}

-- What the run loop does for one effect of the execution of a deal.
unfoldable pub serve_one : Env → ℕ → Effect → World → World
serve_one env uuid untag_funds_request w = (handle_published env uuid w).1
serve_one env uuid untag_storage_request w = (handle_storage_space env uuid w).1
serve_one env uuid finished_request w = (handle_finished env uuid w).1
serve_one env uuid _ w = w

-- The effects of an execution stand newest first.
unfoldable pub serve : Env → ℕ → List Effect → World → World
serve env uuid [] w = w
serve env uuid (e ∷ older) w = serve_one env uuid e (serve env uuid older w)

select_twice : {A : Type 0} (p : A → Bool) (xs : List A) → select p (select p xs) ≡ select p xs
select_twice p [] = refl
select_twice p (x ∷ xs) = ground (arith, select_twice p xs)

-- What serving some effects of a deal did to the rows of the two managers.
abbrev pub Released : ℕ → World → World → Type 0
Released uuid w w' =
    ((w'.funds.tagged ≡ w.funds.tagged) ⊎ (w'.funds.tagged ≡ FundsRows.others uuid w.funds.tagged))
    × ((w'.storage.tagged ≡ w.storage.tagged)
        ⊎ (w'.storage.tagged ≡ StorageRows.others uuid w.storage.tagged))
    × (w'.deals ≡ w.deals)

Released-trans :
    (uuid : ℕ) (a b c : World) → Released uuid a b → Released uuid b c → Released uuid a c
Released-trans uuid a b c (f, s, d) (f', s', d') = (
  ground (arith, f, f', select_twice (λ row. not (FundsRows.of_deal uuid row)) a.funds.tagged),
  ground (arith, s, s', select_twice (λ row. not (StorageRows.of_deal uuid row)) a.storage.tagged),
  d' ∙ d,
)

Clean-Released : (uuid : ℕ) (a b c : World) → Released uuid a b → Clean uuid b c → Clean uuid a c
Clean-Released uuid a b c (f, s, d) (f', s', d') = (
  ground (arith, f, f', select_twice (λ row. not (FundsRows.of_deal uuid row)) a.funds.tagged),
  ground (arith, s, s', select_twice (λ row. not (StorageRows.of_deal uuid row)) a.storage.tagged),
  d' ∙ d,
)

Released-Clean : (uuid : ℕ) (a b c : World) → Clean uuid a b → Released uuid b c → Clean uuid a c
Released-Clean uuid a b c (f, s, d) (f', s', d') = (
  ground (arith, f, f', select_twice (λ row. not (FundsRows.of_deal uuid row)) a.funds.tagged),
  ground (arith, s, s', select_twice (λ row. not (StorageRows.of_deal uuid row)) a.storage.tagged),
  d' ∙ d,
)

module _ (c c' : ℕ → ℕ) (env : Env) where
  published_lem :
      (uuid : ℕ) (w : World) → Released uuid w (handle_published (steady c c' env) uuid w).1
  unfolding handle_published
  published_lem uuid w = ground (arith, untag_funds-others c env.node env.funds_config uuid w.funds)

  space_lem :
      (uuid : ℕ) (w : World) → Released uuid w (handle_storage_space (steady c c' env) uuid w).1
  unfolding handle_storage_space
  space_lem uuid w = ground (arith, untag-others c' env.storage_config uuid w.storage)

  finished_lem : (uuid : ℕ) (w : World) → Clean uuid w (handle_finished (steady c c' env) uuid w).1
  unfolding handle_finished
  finished_lem uuid w = ground (
    arith,
    untag_funds-others c env.node env.funds_config uuid w.funds,
    untag-others c' env.storage_config uuid w.storage,
  )

  -- Once one effect says that the deal is finished, its rows are gone, and stay away.
  abbrev pub Served : ℕ → List Effect → World → World → Type 0
  Served uuid effects w w' =
      Released uuid w w' × (1 ≤ count_if is_finished_request effects → Clean uuid w w')

  Served-other :
      (uuid : ℕ) (e : Effect) (effects : List Effect) (w v v' : World)
      → is_finished_request e ≡ false
      → Served uuid effects w v
      → Released uuid v v'
      → Served uuid (e ∷ effects) w v'
  Served-other uuid e effects w v v' other (r, clean) r' = (
    Released-trans uuid w v v' r r',
    λ n. Released-Clean uuid w v v' (clean (ground (arith, n, other))) r',
  )

  Released-self : (uuid : ℕ) (w : World) → Released uuid w w
  Released-self uuid w = (inl refl, inl refl, refl)

  unserved :
      (uuid : ℕ) (e : Effect) (effects : List Effect) (w v : World)
      → is_finished_request e ≡ false
      → Served uuid effects w v
      → Served uuid (e ∷ effects) w v
  unserved uuid e effects w v other h =
      Served-other uuid e effects w v v other h (Released-self uuid v)

  serve_one_lem :
      (uuid : ℕ) (e : Effect) (effects : List Effect) (w v : World)
      → Served uuid effects w v
      → Served uuid (e ∷ effects) w (serve_one (steady c c' env) uuid e v)
  unfolding serve_one
  serve_one_lem uuid untag_funds_request es w v h =
      Served-other uuid untag_funds_request es w v (handle_published (steady c c' env) uuid v).1
        refl h (published_lem uuid v)
  serve_one_lem uuid untag_storage_request es w v h =
      Served-other uuid untag_storage_request es w v
        (handle_storage_space (steady c c' env) uuid v).1 refl h (space_lem uuid v)
  serve_one_lem uuid finished_request es w v (r, clean) =
      let now =
        Clean-Released uuid w v (handle_finished (steady c c' env) uuid v).1 r
          (finished_lem uuid v) in
      (let (f, s, d) = now in (inr f, inr s, d), λ n. now)
  serve_one_lem uuid deal_new es w v h = unserved uuid deal_new es w v refl h
  serve_one_lem uuid deal_update es w v h = unserved uuid deal_update es w v refl h
  serve_one_lem uuid publish_request es w v h = unserved uuid publish_request es w v refl h
  serve_one_lem uuid published_msg es w v h = unserved uuid published_msg es w v refl h
  serve_one_lem uuid piece_handed es w v h = unserved uuid piece_handed es w v refl h
  serve_one_lem uuid inbound_removed es w v h = unserved uuid inbound_removed es w v refl h
  serve_one_lem uuid transfer_complete_call es w v h =
      unserved uuid transfer_complete_call es w v refl h
  serve_one_lem uuid update_failed es w v h = unserved uuid update_failed es w v refl h
  serve_one_lem uuid lid_added es w v h = unserved uuid lid_added es w v refl h
  serve_one_lem uuid announced es w v h = unserved uuid announced es w v refl h
  serve_one_lem uuid (transfer_bytes n) es w v h = unserved uuid (transfer_bytes n) es w v refl h

  pub serve_lem :
      (uuid : ℕ) (effects : List Effect) (w : World)
      → Served uuid effects w (serve (steady c c' env) uuid effects w)
  unfolding serve
  serve_lem uuid [] w = (Released-self uuid w, λ n. absurd (ground (arith, n)))
  serve_lem uuid (e ∷ older) w =
      serve_one_lem uuid e older w (serve (steady c c' env) uuid older w) (serve_lem uuid older w)
