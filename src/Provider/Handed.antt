-- ===== src/Provider/Handed.antt =====
-- The hand-off of a piece ends, and what its answer says.
use boost.Common.{
  ℕ, zero, suc, ◌+◌, ◌-◌, ◌*◌, ◌≤◌, ◌<◌, ◌≡◌, ◌⊎◌, inl, inr, refl, Bool-cases, true, Option, some,
  ltb, Result, ok, err, arith, ◌==◌, sym, ap, ◌∙◌,
}
use boost.Provider.AddPiece.{
  AddError, too_many_sectors_sealing, shut_down, is_too_many, Sealer, add_piece_retry_wait,
  add_piece_retry_timeout, retry_loop, add_piece_with_retry, enough_fuel,
}

-- The clock does not go back between the first two readings, and `After` takes its time between
-- any later two.
abbrev pub WaitsAdvance : Sealer → Type 0
WaitsAdvance s =
    (s.now 0 ≤ s.now 1) × ((k : ℕ) → s.now (suc k) + add_piece_retry_wait ≤ s.now (suc (suc k)))

-- The attempts before this one were all answered by too many sectors sealing.
abbrev pub AllFull : Sealer → ℕ → Type 0
AllFull s n = (j : ℕ) → j < n → s.sector_add_piece_to_any j ≡ err too_many_sectors_sealing

-- The answer is that of attempt k, or the end of the context in the wait after it.
abbrev pub AnswerOf : Sealer → ℕ → Result AddError (ℕ × ℕ) → Type 0
AnswerOf s k r =
    (r ≡ s.sector_add_piece_to_any k)
    ⊎ ((r ≡ err shut_down)
        × (s.done k ≡ true)
        × (s.sector_add_piece_to_any k ≡ err too_many_sectors_sealing))

module _ (s : Sealer) (advance : WaitsAdvance s) where
  elapsed_lem : (k : ℕ) → k * 300 + s.now 0 ≤ s.now (suc k)
  elapsed_lem zero = omega (arith, advance.0)
  elapsed_lem (suc k) = omega (arith, elapsed_lem k, advance.1 k)

  too_many_lem : (e : AddError) → is_too_many e ≡ true → e ≡ too_many_sectors_sealing
  too_many_lem e h = ground (arith, h)

  full_suc :
      (k : ℕ)
      → AllFull s k
      → s.sector_add_piece_to_any k ≡ err too_many_sectors_sealing
      → AllFull s (suc k)
  full_suc k full now_full j lt = elim (Bool-cases (j == k)) [
    | inl e ↦ ground (arith, e, now_full)
    | inr e ↦ full j (ground (arith, e, lt))
  ]

  abbrev Outcome : Option (Result AddError (ℕ × ℕ)) → Type 0
  Outcome o =
      (k : ℕ) × (r : Result AddError (ℕ × ℕ)) × (o ≡ some r)
      × (k < enough_fuel)
      × AllFull s k
      × AnswerOf s k r

  loop_lem :
      (fuel k : ℕ) (answer : Result AddError (ℕ × ℕ))
      → answer ≡ s.sector_add_piece_to_any k
      → k ≤ 72
      → 73 ≤ fuel + k
      → AllFull s k
      → Outcome (retry_loop s fuel k answer)
  unfolding retry_loop
  loop_lem zero k answer same low room full = absurd (omega arith)
  loop_lem (suc fuel) k (ok info) same low room full =
      (k, ok info, refl, omega arith, full, inl same)
  loop_lem (suc fuel) k (err e) same low room full =
      elim (Bool-cases (ltb (s.now (suc k) - s.now 0) add_piece_retry_timeout)) [
        | inr late ↦ (k, err e, ground (arith, late), omega arith, full, inl same)
        | inl soon ↦ elim (Bool-cases (is_too_many e)) [
          | inr other ↦ (k, err e, ground (arith, soon, other), omega arith, full, inl same)
          | inl many ↦ elim (Bool-cases (s.done k)) [
            | inl done ↦ (
              k,
              err shut_down,
              ground (arith, soon, many, done),
              omega arith,
              full,
              inr (refl, done, sym same ∙ ap err (too_many_lem e many)),
            )
            | inr waits ↦
                let (k', r, ends, lt, fulls, of_k) =
                  loop_lem fuel (suc k) (s.sector_add_piece_to_any (suc k)) refl
                    (ground (arith, soon, elapsed_lem k)) (omega arith)
                    (full_suc k full (sym same ∙ ap err (too_many_lem e many))) in
                (k', r, ground (arith, soon, many, waits, ends), lt, fulls, of_k)
          ]
        ]
      ]

-- The retry of a hand-off ends, on a clock that waits advance by their time: it is answered within
-- 73 attempts. Before the attempt whose answer it gives, every attempt was refused for too many
-- sectors sealing; what it gives is that answer, or the error of a shut-down in the wait after it.
pub add_piece_with_retry_ends :
    (s : Sealer)
    → WaitsAdvance s
    → (k : ℕ) × (r : Result AddError (ℕ × ℕ)) × (add_piece_with_retry s enough_fuel ≡ some r)
      × (k < enough_fuel)
      × AllFull s k
      × AnswerOf s k r
unfolding add_piece_with_retry
add_piece_with_retry_ends s advance =
    loop_lem s advance enough_fuel 0 (s.sector_add_piece_to_any 0) refl (omega arith) (omega arith)
      (λ j lt. absurd (omega arith))
