-- ===== src/Transfers/History.antt =====
-- The samples of a running transfer are a window on its whole history.
use boost.Common.{
  ℕ, ◌≡◌, refl, List, [], ◌∷◌, ◌++◌, Option, none, some, ap, ◌∙◌, sym, lookup, insert,
  lookup-insert, arith, append_nil,
}
use boost.Transfers.Sample.{TransferPoint, DealTransfers, points_of, set_bytes, sample, transfer}
use boost.Transfers.Window.{latest, latest-append}
use boost.Common.Maps.{Distinct-insert}
use boost.Transfers.Refines.{IsValid, sampled, sample_lem}

-- A deal's transfer reports bytes, and a sample is taken; `none` is a panic.
unfoldable pub report_and_sample : ℕ → ℕ × ℕ → DealTransfers → Option DealTransfers
report_and_sample deal (now, b) dt = sample now (set_bytes deal b dt)

unfoldable pub reports : ℕ → List (ℕ × ℕ) → DealTransfers → Option DealTransfers
reports deal [] dt = some dt
reports deal (r ∷ rs) dt = elim (report_and_sample deal r dt) [
  | none ↦ none
  | some dt' ↦ reports deal rs dt'
]

-- The specification keeps every point.
abbrev pub history : List (ℕ × ℕ) → List TransferPoint
history [] = []
history ((now, b) ∷ rs) = record { at = now; bytes = b } ∷ history rs

append_one : {A : Type 0} (xs : List A) (y : A) (ys : List A) → (xs ++ y ∷ []) ++ ys ≡ xs ++ y ∷ ys
append_one [] y ys = refl
append_one (x ∷ xs) y ys = ap (λ zs. x ∷ zs) (append_one xs y ys)

-- What the model holds of a deal whose history is this.
abbrev Shows : ℕ → List TransferPoint → DealTransfers → Type 0
Shows deal past dt = IsValid dt × (points_of (lookup deal dt.samples) ≡ latest 20 past)

report_lem :
    (deal now b : ℕ) (past : List TransferPoint) (dt : DealTransfers)
    → Shows deal past dt
    → (dt' : DealTransfers) × (report_and_sample deal (now, b) dt ≡ some dt')
      × Shows deal (past ++ record { at = now; bytes = b } ∷ []) dt'
unfolding report_and_sample set_bytes
report_lem deal now b past dt ((ds, da, sized), shown) =
    let point : TransferPoint = record { at = now; bytes = b } in
    let (dt', e, valid, same, looks) =
      sample_lem now (record dt { active = insert deal b dt.active })
        (ds, Distinct-insert deal b dt.active da, sized) in
    let active_now : lookup deal (insert deal b dt.active) ≡ some b =
      ground (arith, lookup-insert deal deal b dt.active) in
    (
      dt',
      e,
      (
        valid,
        ap points_of (looks deal)
            ∙ ap (λ o. points_of (sampled now o (lookup deal dt.samples))) active_now
            ∙ ap (λ ps. latest 20 (ps ++ point ∷ [])) shown
            ∙ latest-append 20 past point,
      ),
    )

reports_lem :
    (deal : ℕ) (rs : List (ℕ × ℕ)) (past : List TransferPoint) (dt : DealTransfers)
    → Shows deal past dt
    → (dt' : DealTransfers) × (reports deal rs dt ≡ some dt') × Shows deal (past ++ history rs) dt'
unfolding reports
reports_lem deal [] past dt (valid, shown) =
    (dt, refl, (valid, shown ∙ ap (latest 20) (sym (append_nil past))))
reports_lem deal ((now, b) ∷ rs) past dt shows =
    let (dt1, e, shows1) = report_lem deal now b past dt shows in
    let (dt', e', (valid, shown)) =
      reports_lem deal rs (past ++ record { at = now; bytes = b } ∷ []) dt1 shows1 in
    (
      dt',
      ground (arith, e, e'),
      (
        valid,
        shown ∙ ap (latest 20) (append_one past (record { at = now; bytes = b }) (history rs)),
      ),
    )

-- Of a deal without samples whose transfer then reports bytes before every sample, the samples
-- that are shown are the latest twenty of its whole history, however long that is, and taking
-- them never runs into an index panic.
pub transfer-history :
    (deal : ℕ) (rs : List (ℕ × ℕ)) (dt : DealTransfers)
    → IsValid dt
    → lookup deal dt.samples ≡ none
    → (dt' : DealTransfers) × (reports deal rs dt ≡ some dt')
      × (transfer deal dt' ≡ latest 20 (history rs))
unfolding transfer
transfer-history deal rs dt valid new =
    let (dt', e, (valid', shown)) = reports_lem deal rs [] dt (valid, ap points_of new) in
    (dt', e, shown)
