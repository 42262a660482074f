-- ===== src/Direct/Waits.antt =====
-- How the waits end.
use boost.Common.{
  ℕ, ◌<◌, ◌≡◌, ◌≢◌, ◌⊎◌, inl, inr, Bool-cases, true, List, [], ◌∷◌, ◌++◌, Option-cases, none, some,
  ◌==◌, ==_iff, ok, err, arith, ap, ◌∙◌,
}
use boost.Direct.Sealing.{
  shut_down, Look, confirm_claim, check_sealing_finalized, settle_claim, look_once, look_again,
  watch_ticks, watch_sealing_updates,
}

-- A look at a sector that is final, with a claim that names the sector.
abbrev pub Claimed : ℕ → Look → Type 0
Claimed sector l = (check_sealing_finalized l ≡ true) × (l.claim ≡ some (some sector))

abbrev pub SomeLook : (Look → Type 0) → List Look → Type 0
SomeLook P [] = ⊥
SomeLook P (l ∷ ls) = P l ⊎ SomeLook P ls

settle_claim-ok :
    (sector : ℕ) (l : Look) → settle_claim sector l ≡ some (ok tt) → l.claim ≡ some (some sector)
unfolding settle_claim confirm_claim
settle_claim-ok sector l h = elim (Option-cases l.claim) [
  | inl e ↦ absurd (ground (arith, e, h))
  | inr (none, e) ↦ absurd (ground (arith, e, h))
  | inr (some s, e) ↦ elim (Bool-cases (s == sector)) [
    | inl same ↦ e ∙ ap (λ k. some (some k)) ((==_iff s sector).0 same)
    | inr other ↦ absurd (ground (arith, e, h, other))
  ]
]

look_once-Claimed : (sector : ℕ) (l : Look) → look_once sector l ≡ some (ok tt) → Claimed sector l
unfolding look_once
look_once-Claimed sector l h = elim (Bool-cases (check_sealing_finalized l)) [
  | inl f ↦ (f, settle_claim-ok sector l (ground (arith, f, h)))
  | inr f ↦ absurd (ground (arith, f, h))
]

look_again-Claimed : (sector : ℕ) (l : Look) → look_again sector l ≡ some (ok tt) → Claimed sector l
unfolding look_again
look_again-Claimed sector l h = elim (Option-cases (look_once sector l)) [
  | inl e ↦ absurd (ground (arith, e, h))
  | inr (r, e) ↦ look_once-Claimed sector l (e ∙ ground (arith, e, h))
]

ticks-Claimed :
    (sector : ℕ) (ls : List Look) → watch_ticks sector ls ≡ ok tt → SomeLook (Claimed sector) ls
unfolding watch_ticks
ticks-Claimed sector [] h = ground (arith, h)
ticks-Claimed sector (l ∷ ls) h = elim (Option-cases (look_again sector l)) [
  | inl e ↦ inr (ticks-Claimed sector ls (ground (arith, e, h)))
  | inr (r, e) ↦ inl (look_again-Claimed sector l (e ∙ ap some (ground (arith, e, h))))
]

-- The wait for a deal to be sealed ends well only at a look at which the sector was final and the
-- chain had a claim for the allocation that names this very sector.
pub watch_sealing_updates-Claimed :
    (sector : ℕ) (first : Look) (ticks : List Look)
    → watch_sealing_updates sector first ticks ≡ ok tt
    → SomeLook (Claimed sector) (first ∷ ticks)
unfolding watch_sealing_updates
watch_sealing_updates-Claimed sector first ticks h = elim (Option-cases (look_once sector first)) [
  | inl e ↦ inr (ticks-Claimed sector ticks (ground (arith, e, h)))
  | inr (r, e) ↦ inl (look_once-Claimed sector first (e ∙ ap some (ground (arith, e, h))))
]

settle_claim_own : (sector : ℕ) (l : Look) → settle_claim sector l ≢ some (err shut_down)
unfolding settle_claim confirm_claim
settle_claim_own sector l h = elim (Option-cases l.claim) [
  | inl e ↦ ground (arith, e, h)
  | inr (none, e) ↦ ground (arith, e, h)
  | inr (some s, e) ↦ ground (arith, e, h)
]

look_again_own : (sector : ℕ) (l : Look) → look_again sector l ≢ some (err shut_down)
unfolding look_again look_once
look_again_own sector l h = ground (arith, h, settle_claim_own sector l)

look_again_late :
    (sector : ℕ) (l : Look)
    → check_sealing_finalized l ≡ true
    → 600 < l.waited
    → look_again sector l ≢ none
unfolding look_again
look_again_late sector l f w h = ground (arith, f, w, h)

-- The wait for a deal to be sealed is not left to the end of the provider where it looks once at a
-- sector that is final after more than ten minutes: whatever it saw before, it ends by itself, with
-- the claim or with an error.
pub watch_ticks_ends :
    (sector : ℕ) (ls ms : List Look) (l : Look)
    → check_sealing_finalized l ≡ true
    → 600 < l.waited
    → watch_ticks sector (ls ++ l ∷ ms) ≢ err shut_down
unfolding watch_ticks
watch_ticks_ends sector [] ms l f w h = elim (Option-cases (look_again sector l)) [
  | inl e ↦ look_again_late sector l f w e
  | inr (r, e) ↦ look_again_own sector l (e ∙ ap some (ground (arith, e, h)))
]
watch_ticks_ends sector (k ∷ ls) ms l f w h = elim (Option-cases (look_again sector k)) [
  | inl e ↦ watch_ticks_ends sector ls ms l f w (ground (arith, e, h))
  | inr (r, e) ↦ look_again_own sector k (e ∙ ap some (ground (arith, e, h)))
]
