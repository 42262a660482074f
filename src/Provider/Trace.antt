-- ===== src/Provider/Trace.antt =====
-- A proposal that is refused leaves nothing behind.
use boost.Common.{ℕ, ◌≡◌, ◌∙◌, Result, ok, err, raise, ◌>>=◌}
use boost.Funds.Sums as FundsRows
use boost.Storage.Rows as StorageRows
use boost.Provider.World.{World, Provider, Stop, refused, panic}

-- Only rows of this deal were tagged or untagged, and no deal was saved.
abbrev pub Own : ℕ → World → World → Type 0
Own uuid w w' =
    (FundsRows.others uuid w'.funds.tagged ≡ FundsRows.others uuid w.funds.tagged)
    × (StorageRows.others uuid w'.storage.tagged ≡ StorageRows.others uuid w.storage.tagged)
    × (w'.deals ≡ w.deals)

-- The rows of this deal are gone, and nothing else.
abbrev pub Clean : ℕ → World → World → Type 0
Clean uuid w w' =
    (w'.funds.tagged ≡ FundsRows.others uuid w.funds.tagged)
    × (w'.storage.tagged ≡ StorageRows.others uuid w.storage.tagged)
    × (w'.deals ≡ w.deals)

-- How a method may end: with an answer of which P holds, or refused and clean.
unfoldable pub Ends :
    {A : Type 0} → ℕ → (A → World → World → Type 0) → Result Stop A → World → World → Type 0
Ends uuid P (ok a) w w' = P a w w'
Ends uuid P (err (refused e)) w w' = Clean uuid w w'
Ends uuid P (err panic) w w' = ⊥

pub Own-trans : (uuid : ℕ) (a b c : World) → Own uuid a b → Own uuid b c → Own uuid a c
Own-trans uuid a b c (f, s, d) (f', s', d') = (f' ∙ f, s' ∙ s, d' ∙ d)

pub Own-Clean : (uuid : ℕ) (a b c : World) → Own uuid a b → Clean uuid b c → Clean uuid a c
Own-Clean uuid a b c (f, s, d) (f', s', d') = (f' ∙ f, s' ∙ s, d' ∙ d)

pub Ends-shift :
    {B : Type 0} (uuid : ℕ) (P : B → World → World → Type 0) (w v : World)
    → ((b : B) (v' : World) → P b v v' → P b w v')
    → Own uuid w v
    → (r : Result Stop B) (v' : World) → Ends uuid P r v v'
    → Ends uuid P r w v'
unfolding Ends
Ends-shift uuid P w v shift own (ok b) v' h = shift b v' h
Ends-shift uuid P w v shift own (err (refused e)) v' h = Own-Clean uuid w v v' own h
Ends-shift uuid P w v shift own (err panic) v' h = h

Ends-then :
    {A B : Type 0} (uuid : ℕ) (P : B → World → World → Type 0) (f : A → Provider B) (w v : World)
    → ((b : B) (v' : World) → Own uuid w v → P b v v' → P b w v')
    → ((a : A) → Own uuid w v → Ends uuid P (f a v).0 v (f a v).1)
    → (r : Result Stop A) → Ends uuid (λ (_ : A). Own uuid) r w v
    → let out : Result Stop B × World = elim r [ ok a ↦ f a v | err e ↦ raise e v ] in
      Ends uuid P out.0 w out.1
unfolding Ends
Ends-then uuid P f w v shift then_ (ok a) own =
    Ends-shift uuid P w v (λ b v'. shift b v' own) own (f a v).0 (f a v).1 (then_ a own)
Ends-then uuid P f w v shift then_ (err (refused e)) clean = clean
Ends-then uuid P f w v shift then_ (err panic) h = h

-- A chain ends well if its parts do.
pub Ends-bind :
    {A B : Type 0} (uuid : ℕ) (P : B → World → World → Type 0) (m : Provider A) (f : A → Provider B)
    (w : World)
    → ((b : B) (v v' : World) → Own uuid w v → P b v v' → P b w v')
    → Ends uuid (λ (_ : A). Own uuid) (m w).0 w (m w).1
    → ((a : A) (v : World) → Own uuid w v → Ends uuid P (f a v).0 v (f a v).1)
    → Ends uuid P ((m >>= f) w).0 w ((m >>= f) w).1
Ends-bind uuid P m f w shift first then_ =
    Ends-then uuid P f w (m w).1 (λ b v'. shift b (m w).1 v') (λ a. then_ a (m w).1) (m w).0 first
