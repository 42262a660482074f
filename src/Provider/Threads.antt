-- ===== src/Provider/Threads.antt =====
-- The threads that `Start` starts: what holds of them at each of its steps.
use boost.Common.{
  ◌==◌, ◌≡◌, inl, inr, refl, false, List, ◌&&◌, arith, Result, ok, err, ◌>>=◌, ◌∙◌, sym, All, raise,
  subst,
}
use boost.Deal.{ProviderDealState}
use boost.Provider.World.{World, Env, Provider, Stop}
use boost.Provider.Restart.{is_complete}
use boost.Provider.Elapsed.{MayFail, Failures}
use boost.Provider.Resumed.{resumable, Resumption}
use boost.Provider.Rows.{All-map, Member, Distinct, MayResume, Running, new_lem}

-- The threads that `Start` has started so far.
abbrev pub Sound : Env → List ProviderDealState → World → Type 0
Sound env rows w =
    All (MayFail env rows) w.failing
    × (w.deals ≡ rows)
    × All (MayResume rows) w.started
    × All (Running w) w.started
    × Distinct w.started

Sound-then :
    {A B : Type 0} (env : Env) (rows : List ProviderDealState) (f : A → Provider B) (v : World)
    → Sound env rows v
    → (r : Result Stop A) → ((a : A) → r ≡ ok a → Sound env rows v → Sound env rows (f a v).1)
    → let out : Result Stop B × World = elim r [ ok a ↦ f a v | err e ↦ raise e v ] in
      Sound env rows out.1
Sound-then env rows f v first (ok a) then_ = then_ a refl first
Sound-then env rows f v first (err e) then_ = first

module _ (env : Env) where
  pub Sound-bind :
      {A B : Type 0} (rows : List ProviderDealState) (m : Provider A) (f : A → Provider B)
      (w : World)
      → Sound env rows (m w).1
      → ((a : A) → (m w).0 ≡ ok a → Sound env rows (m w).1 → Sound env rows (f a (m w).1).1)
      → Sound env rows ((m >>= f) w).1
  Sound-bind rows m f w first then_ = Sound-then env rows f (m w).1 first (m w).0 then_

  failing_lem :
      (rows : List ProviderDealState) (d : ProviderDealState) (w w' : World)
      → Member rows d
      → is_complete d ≡ false
      → Failures env d w w'
      → All (MayFail env rows) w.failing
      → All (MayFail env rows) w'.failing
  failing_lem rows d w w' member active (inl same) h = subst (All (MayFail env rows)) (sym same) h
  failing_lem rows d w w' member active (inr (more, elapsed)) h =
      subst (All (MayFail env rows)) (sym more) ((member, active, elapsed), h)

  pub Sound-step :
      (rows : List ProviderDealState) (d : ProviderDealState) (w w' : World)
      → Member rows d
      → is_complete d ≡ false
      → Resumption d w w'
      → Failures env d w w'
      → Sound env rows w
      → Sound env rows w'
  Sound-step rows d w w' member active (ds, inl (s, r)) failed (fail, e, may, run, distinct) = (
    failing_lem rows d w w' member active failed fail,
    ds ∙ e,
    subst (All (MayResume rows)) (sym s) may,
    subst (All (Running w')) (sym s) (All-map w.started (λ u h. r u ∙ h) run),
    subst Distinct (sym s) distinct,
  )
  Sound-step rows d w w' member active (ds, inr (s, idle, awaits, auto, r)) failed
        (fail, e, may, run, distinct) =
      (
        failing_lem rows d w w' member active failed fail,
        ds ∙ e,
        subst (All (MayResume rows)) (sym s) (
          member (λ x. (x.deal_uuid == d.deal_uuid) && resumable x)
              (ground (arith, active, awaits, auto)),
          may,
        ),
        subst (All (Running w')) (sym s)
            (ground (arith, r d.deal_uuid), All-map w.started (λ u h. ground (arith, r u, h)) run),
        subst Distinct (sym s) (new_lem d.deal_uuid w.started w idle run, distinct),
      )
