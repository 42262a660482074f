-- ===== src/Common/Monad.antt =====
-- State and errors together: what a method did before it failed stays done.
use mathlib.Core.Bool.{Bool, true, false}
use mathlib.Core.Path.{◌≡◌, refl}
use mathlib.Core.Logic.{◌⊎◌, inl, inr}
use native.Mathlib.Omega.{arith}

pub data Result {ℓ} (E : Type 0) (A : Type ℓ) : Type ℓ where
  ok : A → Result E A
  err : E → Result E A

abbrev pub Action : Type 0 → Type 0 → Type 0 → Type 0
Action S E A = S → Result E A × S

module _ {S E A : Type 0} where
  abbrev pub pure : A → Action S E A
  pure a s = (ok a, s)

  abbrev pub raise : E → Action S E A
  raise e s = (err e, s)

  abbrev pub gets : (S → A) → Action S E A
  gets f s = (ok (f s), s)

infixl 5 ◌>>=◌ ◌>>◌
abbrev pub ◌>>=◌ : {S E A B : Type 0} → Action S E A → (A → Action S E B) → Action S E B
◌>>=◌ m f s = let (r, s') = m s in elim r [ ok a ↦ f a s' | err e ↦ raise e s' ]

abbrev pub ◌>>◌ : {S E A B : Type 0} → Action S E A → Action S E B → Action S E B
m >> k = m >>= λ _. k

abbrev pub modify : {S E : Type 0} → (S → S) → Action S E (Unit {0})
modify f s = (ok tt, f s)

-- `if c { return e }`.
abbrev pub raise_if : {S E : Type 0} → Bool → E → Action S E (Unit {0})
raise_if true e = raise e
raise_if false e = pure tt

pub Result-cases {ℓ} :
    {E : Type 0} {A : Type ℓ} (r : Result E A) → ((a : A) × (r ≡ ok a)) ⊎ ((e : E) × (r ≡ err e))
Result-cases (ok a) = inl (a, refl)
Result-cases (err e) = inr (e, refl)

-- A block that succeeds is a first part that succeeded, and the rest after it.
pub >>=-ok :
    {S E A B : Type 0} (m : Action S E A) (f : A → Action S E B) (s : S) (b : B)
    → ((m >>= f) s).0 ≡ ok b
    → (a : A) × ((m s).0 ≡ ok a) × ((m >>= f) s ≡ f a (m s).1) × ((f a (m s).1).0 ≡ ok b)
>>=-ok m f s b h = elim (Result-cases (m s).0) [
  | inl (a, e) ↦ (a, e, ground (arith, e), ground (arith, e, h))
  | inr (x, e) ↦ absurd (ground (arith, e, h))
]

-- A block whose first part is known.
pub >>-after :
    {S E A B : Type 0} (m : Action S E A) (k : Action S E B) (s t : S) {a : A}
    → m s ≡ (ok a, t)
    → (m >> k) s ≡ k t
>>-after m k s t e = ground (arith, e)

pub >>-raised :
    {S E A B : Type 0} (m : Action S E A) (k : Action S E B) (s t : S) {x : E}
    → m s ≡ (err x, t)
    → (m >> k) s ≡ (err x, t)
>>-raised m k s t e = ground (arith, e)
