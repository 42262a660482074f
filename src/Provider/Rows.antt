-- ===== src/Provider/Rows.antt =====
-- The lists that `Start` goes through, and the deals that may be resumed.
use boost.Common.{
  ℕ, ◌==◌, ◌≡◌, ◌≢◌, inl, inr, refl, Bool, Bool-cases, true, false, List, [], ◌∷◌, none, ◌&&◌,
  arith, find_if, select, All, contains, leb,
}
use boost.Deal.{ProviderDealState}
use boost.Provider.World.{World, is_running}
use boost.Provider.Restart.{place, newest_first}
use boost.Provider.Resumed.{resumable}

pub All-map :
    {A : Type 0} {P Q : A → Type 0} (xs : List A) → ((x : A) → P x → Q x) → All P xs → All Q xs
All-map [] f h = tt
All-map (x ∷ xs) f (p, h) = (f x p, All-map xs f h)

-- A row is one of these, as every test sees.
abbrev pub Member : List ProviderDealState → ProviderDealState → Type 0
Member rows d = (q : ProviderDealState → Bool) → q d ≡ true → find_if q rows ≢ none

pub members : (rows : List ProviderDealState) → All (Member rows) rows
members [] = tt
members (r ∷ rows) =
    (λ q h e. ground (arith, h, e), All-map rows (λ x m q h. later q x (m q h)) (members rows))
  where
    later :
        (q : ProviderDealState → Bool) (x : ProviderDealState)
        → find_if q rows ≢ none
        → find_if q (r ∷ rows) ≢ none
    later q x m = ground (arith, m)

pub All-select :
    {A : Type 0} (P : A → Type 0) (p : A → Bool) (xs : List A)
    → All P xs
    → All (λ x. P x × (p x ≡ true)) (select p xs)
All-select P p [] h = tt
All-select P p (x ∷ xs) (a, h) = elim (Bool-cases (p x)) [
  | inl e ↦ rw e ((a, e), All-select P p xs h)
  | inr e ↦ rw e (All-select P p xs h)
]

All-place :
    (P : ProviderDealState → Type 0) (d : ProviderDealState) (ds : List ProviderDealState)
    → P d
    → All P ds
    → All P (place d ds)
unfolding place
All-place P d [] p h = (p, tt)
All-place P d (x ∷ xs) p (a, h) = elim (Bool-cases (leb x.created_at d.created_at)) [
  | inl e ↦ rw e (p, (a, h))
  | inr e ↦ rw e (a, All-place P d xs p h)
]

pub All-newest_first :
    (P : ProviderDealState → Type 0) (ds : List ProviderDealState)
    → All P ds
    → All P (newest_first ds)
unfolding newest_first
All-newest_first P [] h = tt
All-newest_first P (d ∷ ds) (a, h) = All-place P d (newest_first ds) a (All-newest_first P ds h)

-- No number stands twice.
abbrev pub Distinct : List ℕ → Type 0
Distinct [] = Unit
Distinct (x ∷ xs) = (contains x xs ≡ false) × Distinct xs

-- One of the rows with this uuid may be started with no word of the user.
abbrev pub MayResume : List ProviderDealState → ℕ → Type 0
MayResume rows uuid = find_if (λ d. (d.deal_uuid == uuid) && resumable d) rows ≢ none

abbrev pub Running : World → ℕ → Type 0
Running w u = is_running u w.handlers ≡ true

pub new_lem :
    (k : ℕ) (us : List ℕ) (w : World)
    → is_running k w.handlers ≡ false
    → All (Running w) us
    → contains k us ≡ false
new_lem k [] w idle h = refl
new_lem k (u ∷ us) w idle (r, h) = ground (arith, new_lem k us w idle h, r, idle)
