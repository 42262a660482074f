-- ===== src/Provider/Words.antt =====
-- The user's words on a deal, one after the other.
use boost.Common.{
  ℕ, ◌≡◌, ◌⊎◌, inl, inr, refl, Bool, Bool-cases, true, false, List, [], ◌∷◌, arith, ◌∙◌,
}
use boost.Provider.World.{World, Env, is_running}
use boost.Provider.Retry.{acts_on, after_retry, handle_retry_lem, handle_terminate_lem}

module _ (env : Env) where
  -- The user's words on one deal, in their order: true to retry it, false to fail it.
  unfoldable pub after_words : ℕ → List Bool → World → World
  after_words uuid [] w = w
  after_words uuid (retry ∷ words) w = after_words uuid words (after_retry env uuid retry w)

  running_words :
      (uuid : ℕ) (words : List Bool) (w : World)
      → is_running uuid w.handlers ≡ true
      → (after_words uuid words w).started ≡ w.started
  unfolding after_words
  running_words uuid [] w h = refl
  running_words uuid (true ∷ words) w h =
      let (s, r, d, c) = handle_retry_lem env uuid w in
      ground (arith, running_words uuid words (after_retry env uuid true w), s, r, h)
  running_words uuid (false ∷ words) w h =
      let (s, r, c) = handle_terminate_lem env uuid w in
      ground (arith, running_words uuid words (after_retry env uuid false w), s, r, h)

  -- Whatever the user asks of a deal and however often, with no event of the deal in between, and
  -- whichever of the loop's calls fail, at most one thread is started, and it is the deal's.
  pub words_start_once :
      (uuid : ℕ) (words : List Bool) (w : World)
      → ((after_words uuid words w).started ≡ w.started)
        ⊎ ((after_words uuid words w).started ≡ uuid ∷ w.started)
  unfolding after_words
  words_start_once uuid [] w = inl refl
  words_start_once uuid (true ∷ words) w =
      let (s, r, d, c) = handle_retry_lem env uuid w in
      let next = after_retry env uuid true w in
      elim (Bool-cases (acts_on env uuid w)) [
        | inl a ↦ inr (running_words uuid words next (rw (r, a) refl) ∙ rw (s, a) refl)
        | inr a ↦ ground (arith, words_start_once uuid words next, s, a)
      ]
  words_start_once uuid (false ∷ words) w =
      let (s, r, c) = handle_terminate_lem env uuid w in
      ground (arith, words_start_once uuid words (after_retry env uuid false w), s)
