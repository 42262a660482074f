-- ===== src/Transfers/Window.antt =====
-- The samples of one deal: a window on all samples that were taken of it.
use boost.Common.{
  ℕ, ◌+◌, ◌-◌, ◌≡◌, inl, inr, refl, Bool-cases, ltb, List, [], ◌∷◌, ◌++◌, length, length-append,
  arith, sym, ap, ◌∙◌, drop, length-drop, drop-append, drop-drop,
}
use boost.Transfers.Sample.{TransferPoint, add_point}

-- The last n elements.
abbrev pub latest {ℓ} : {A : Type ℓ} → ℕ → List A → List A
latest n xs = drop (length xs - n) xs

module _ {ℓ} {A : Type ℓ} where
  -- A window on a window and one more is a window on all.
  pub latest-append :
      (n : ℕ) (xs : List A) (x : A) → latest n (latest n xs ++ x ∷ []) ≡ latest n (xs ++ x ∷ [])
  latest-append n xs x =
      let k = length xs - n in
      let joined : drop k xs ++ x ∷ [] ≡ drop k (xs ++ x ∷ []) =
        sym (drop-append k xs (x ∷ []) (omega arith)) in
      let size : length (drop k xs ++ x ∷ []) ≡ length xs - k + 1 =
        length-append (drop k xs) (x ∷ []) ∙ omega (arith, length-drop k xs) in
      ap (λ j. drop j (latest n xs ++ x ∷ [])) (ap (λ j. j - n) size)
      ∙ ap (drop (length xs - k + 1 - n)) joined
      ∙ drop-drop (length xs - k + 1 - n) k (length (xs ++ x ∷ []) - n) (xs ++ x ∷ [])
          (omega (arith, length-append xs (x ∷ [])))

-- What the code appends is the window on all points.
pub add_point_lem :
    (point : TransferPoint) (points : List TransferPoint)
    → add_point point points ≡ latest 20 (points ++ point ∷ [])
unfolding add_point
add_point_lem point points = elim (Bool-cases (ltb 20 (length (points ++ point ∷ [])))) [
  | inl e ↦ rw e refl
  | inr e ↦
      let none_over : 0 ≡ length (points ++ point ∷ []) - 20 = ground (arith, e) in
      rw e (ap (λ k. drop k (points ++ point ∷ [])) none_over)
]

pub add_point-latest :
    (point : TransferPoint) (history : List TransferPoint)
    → add_point point (latest 20 history) ≡ latest 20 (history ++ point ∷ [])
add_point-latest point history =
    add_point_lem point (latest 20 history) ∙ latest-append 20 history point
