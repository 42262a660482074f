-- ===== src/Common/Refusal.antt =====
-- A function that returns on the first error and keeps no state.
use boost.Common.Monad.{Result, ok, err}
use mathlib.Core.Bool.{Bool, true, false}
use mathlib.Core.Option.{Option, none, some}
use mathlib.Core.Path.{◌≡◌, refl}

infixl 5 ◌>>=◌ ◌>>◌
abbrev pub ◌>>=◌ : {E A B : Type 0} → Result E A → (A → Result E B) → Result E B
◌>>=◌ (ok a) f = f a
◌>>=◌ (err e) f = err e

abbrev pub ◌>>◌ : {E A B : Type 0} → Result E A → Result E B → Result E B
m >> k = m >>= λ _. k

-- `if c { return e }`.
abbrev pub refuse_if : {E : Type 0} → Bool → E → Result E (Unit {0})
refuse_if true e = err e
refuse_if false e = ok tt

-- A call that may fail, and the error that is returned then.
abbrev pub or_refuse : {E A : Type 0} → Option A → E → Result E A
or_refuse none e = err e
or_refuse (some a) e = ok a

-- Inversion of a block that succeeded: the call at its head gave a value, or its test failed.
pub or_refuse-ok :
    {E A B : Type 0} (o : Option A) (e : E) (f : A → Result E B) {b : B}
    → (or_refuse o e >>= f) ≡ ok b
    → (a : A) × (o ≡ some a) × (f a ≡ ok b)
or_refuse-ok none e f h = cc
or_refuse-ok (some a) e f h = (a, refl, h)

pub refuse_if-ok :
    {E B : Type 0} (c : Bool) (e : E) (m : Result E B) {b : B}
    → (refuse_if c e >> m) ≡ ok b
    → (c ≡ false) × (m ≡ ok b)
refuse_if-ok true e m h = cc
refuse_if-ok false e m h = (refl, h)
