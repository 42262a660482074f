-- ===== src/Provider/Checks.antt =====
-- The checks that come before anything is reserved change nothing.
use boost.Common.{ℕ, ◌≡◌, ◌≢◌, refl, sym, ◌∙◌, ap, [], Result, ok, err, raise, arith, ◌>>=◌}
use boost.Deal.{ProviderDealState}
use boost.Funds.Sums as FundsRows
use boost.Storage.Rows as StorageRows
use boost.Storage.Decision.{reliable}
use boost.Provider.World.{World, Env, Provider, Stop, refused, panic}
use boost.Provider.Propose.{
  lookup_proposal, check_deal_prop_unique, check_deal_uuid_unique, filter_answer, run_deal_filters,
  check_proposal,
}
use boost.Provider.Trace.{Own, Ends}

-- No row of this deal is tagged.
abbrev pub Fresh : ℕ → World → Type 0
Fresh uuid w =
    (FundsRows.rows_of uuid w.funds.tagged ≡ []) × (StorageRows.rows_of uuid w.storage.tagged ≡ [])

-- Only calls were made, and nothing panicked.
abbrev pub Plain : {A : Type 0} → Result Stop A → World → World → Type 0
Plain r w w' = (w' ≡ record w { calls = w'.calls }) × (r ≢ err panic)

Plain-Ends :
    {A : Type 0} (uuid : ℕ) (r : Result Stop A) (w w' : World)
    → Fresh uuid w
    → Plain r w w'
    → Ends uuid (λ (_ : A). Own uuid) r w w'
unfolding Ends
Plain-Ends uuid (ok a) w w' fresh (same, p) = (rw same refl, rw same refl, rw same refl)
Plain-Ends uuid (err (refused e)) w w' (a, b) (same, p) = (
  ap (λ u. u.funds.tagged) same ∙ sym (FundsRows.others_self uuid w.funds.tagged a),
  ap (λ u. u.storage.tagged) same ∙ sym (StorageRows.others_self uuid w.storage.tagged b),
  ap (λ u. u.deals) same,
)
Plain-Ends uuid (err panic) w w' fresh (same, p) = absurd (p refl)

Plain-then :
    {A B : Type 0} (f : A → Provider B) (w v : World)
    → ((a : A) → Plain (f a v).0 v (f a v).1)
    → (r : Result Stop A) → Plain r w v
    → let out : Result Stop B × World = elim r [ ok a ↦ f a v | err e ↦ raise e v ] in
      Plain out.0 w out.1
Plain-then f w v then_ (ok a) (x, p) =
    let (x', p') = then_ a in (x' ∙ ap (λ (u : World). record u { calls = (f a v).1.calls }) x, p')
Plain-then f w v then_ (err e) (x, p) = (x, λ q. p (ground (arith, q)))

Plain-bind :
    {A B : Type 0} (m : Provider A) (f : A → Provider B) (w : World)
    → Plain (m w).0 w (m w).1
    → ((a : A) (v : World) → Plain (f a v).0 v (f a v).1)
    → Plain ((m >>= f) w).0 w ((m >>= f) w).1
Plain-bind m f w first then_ = Plain-then f w (m w).1 (λ a. then_ a (m w).1) (m w).0 first

-- The environment with databases on which no statement of the two managers fails.
abbrev pub steady : (ℕ → ℕ) → (ℕ → ℕ) → Env → Env
steady c c' env = record env { funds_driver = reliable c; storage_driver = reliable c' }

module _ (env : Env) where
  Plain-prop_unique :
      (deal : ProviderDealState) (w : World)
      → let (r, w') = check_deal_prop_unique env deal w in Plain r w w'
  unfolding check_deal_prop_unique lookup_proposal
  Plain-prop_unique deal w = ground arith

  Plain-uuid_unique :
      (deal : ProviderDealState) (w : World)
      → let (r, w') = check_deal_uuid_unique env deal w in Plain r w w'
  unfolding check_deal_uuid_unique
  Plain-uuid_unique deal w = ground arith

  Plain-filters :
      (deal : ProviderDealState) (w : World)
      → let (r, w') = run_deal_filters env deal w in Plain r w w'
  unfolding run_deal_filters filter_answer
  Plain-filters deal w = ground arith

  pub Plain-check_proposal :
      (deal : ProviderDealState) (w : World)
      → let (r, w') = check_proposal env deal w in Plain r w w'
  unfolding check_proposal
  Plain-check_proposal deal w =
      Plain-bind (check_deal_prop_unique env deal)
        (λ _. check_deal_uuid_unique env deal >>= λ _. run_deal_filters env deal) w
        (Plain-prop_unique deal w)
        (λ _ v.
          Plain-bind (check_deal_uuid_unique env deal) (λ _. run_deal_filters env deal) v
            (Plain-uuid_unique deal v) (λ _ u. Plain-filters deal u))

  pub Ends-check_proposal :
      (deal : ProviderDealState) (w : World)
      → Fresh deal.deal_uuid w
      → let (r, w') = check_proposal env deal w in
        Ends deal.deal_uuid (λ (_ : Unit {0}). Own deal.deal_uuid) r w w'
  Ends-check_proposal deal w fresh =
      Plain-Ends deal.deal_uuid (check_proposal env deal w).0 w (check_proposal env deal w).1 fresh
        (Plain-check_proposal deal w)
