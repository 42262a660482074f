-- ===== src/Common/Maps.antt =====
-- Maps as association lists with one entry for each key.
use Prim.Native.Nat.{ℕ}
use mathlib.Core.Path.{◌≡◌, refl}
use mathlib.Core.Logic.{inl, inr}
use mathlib.Core.Bool.{false, ◌||◌}
use mathlib.Core.List.{List, [], ◌∷◌}
use mathlib.Core.Option.{none}
use native.Mathlib.Omega.{arith}
use boost.Common.Tests.{◌==◌, Bool-cases}
use boost.Common.Lists.{lookup, insert, erase, contains}

abbrev pub keys : {V : Type 0} → List (ℕ × V) → List ℕ
keys [] = []
keys ((k, v) ∷ m) = k ∷ keys m

abbrev pub Distinct : List ℕ → Type 0
Distinct [] = Unit
Distinct (x ∷ xs) = (contains x xs ≡ false) × Distinct xs

pub lookup-absent :
    {V : Type 0} (k : ℕ) (m : List (ℕ × V)) → contains k (keys m) ≡ false → lookup k m ≡ none
lookup-absent k [] h = refl
lookup-absent k ((j, v) ∷ m) h = ground (arith, lookup-absent k m, h)

contains-insert :
    {V : Type 0} (k u : ℕ) (v : V) (m : List (ℕ × V))
    → contains u (keys (insert k v m)) ≡ (k == u) || contains u (keys m)
contains-insert k u v [] = refl
contains-insert k u v ((j, w) ∷ m) = ground (arith, contains-insert k u v m)

pub Distinct-insert :
    {V : Type 0} (k : ℕ) (v : V) (m : List (ℕ × V))
    → Distinct (keys m)
    → Distinct (keys (insert k v m))
Distinct-insert k v [] h = (refl, tt)
Distinct-insert k v ((j, w) ∷ m) (a, h) = elim (Bool-cases (j == k)) [
  | inl e ↦ rw e (ground (arith, e, a), h)
  | inr e ↦ rw e (ground (arith, e, a, contains-insert k j v m), Distinct-insert k v m h)
]

contains-erase :
    {V : Type 0} (k u : ℕ) (m : List (ℕ × V))
    → contains u (keys m) ≡ false
    → contains u (keys (erase k m)) ≡ false
contains-erase k u [] h = refl
contains-erase k u ((j, v) ∷ m) h = ground (arith, contains-erase k u m, h)

pub Distinct-erase :
    {V : Type 0} (k : ℕ) (m : List (ℕ × V)) → Distinct (keys m) → Distinct (keys (erase k m))
Distinct-erase k [] h = tt
Distinct-erase k ((j, v) ∷ m) (a, h) = elim (Bool-cases (j == k)) [
  | inl e ↦ rw e (Distinct-erase k m h)
  | inr e ↦ rw e (contains-erase k j m a, Distinct-erase k m h)
]
