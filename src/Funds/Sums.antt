-- ===== src/Funds/Sums.antt =====
-- The sums over the rows of `FundsTagged`, and the rows of one deal.
use boost.Common.{
  ℕ, ◌==◌, ◌≡◌, ◌≢◌, refl, Bool, not, List, [], ◌∷◌, ◌++◌, none, arith, select, find_if, ℤ, pos,
  ◌+ℤ◌, int_laws, ◌∙◌,
}
use boost.Funds.Ledger.{TaggedFunds, TotalTagged, add_row, add_rows}

pub collateral_sum : List TaggedFunds → ℤ
collateral_sum [] = pos 0
collateral_sum (row ∷ rows) = row.collateral +ℤ collateral_sum rows

pub pub_msg_sum : List TaggedFunds → ℤ
pub_msg_sum [] = pos 0
pub_msg_sum (row ∷ rows) = row.pub_msg +ℤ pub_msg_sum rows

pub add_rows-collateral :
    (acc : TotalTagged) (rows : List TaggedFunds)
    → (add_rows acc rows).collateral ≡ acc.collateral +ℤ collateral_sum rows
unfolding add_rows add_row collateral_sum
add_rows-collateral acc [] = omega int_laws
add_rows-collateral acc (row ∷ rows) = add_rows-collateral (add_row acc row) rows ∙ omega int_laws

pub add_rows-pub_msg :
    (acc : TotalTagged) (rows : List TaggedFunds)
    → (add_rows acc rows).pub_msg ≡ acc.pub_msg +ℤ pub_msg_sum rows
unfolding add_rows add_row pub_msg_sum
add_rows-pub_msg acc [] = omega int_laws
add_rows-pub_msg acc (row ∷ rows) = add_rows-pub_msg (add_row acc row) rows ∙ omega int_laws

-- The totals that the loop gives, from nothing.
pub add_rows_totals :
    (rows : List TaggedFunds)
    → let t = add_rows (record { collateral = pos 0; pub_msg = pos 0 }) rows in
      (t.collateral ≡ collateral_sum rows) × (t.pub_msg ≡ pub_msg_sum rows)
add_rows_totals rows =
    (add_rows-collateral _ rows ∙ omega int_laws, add_rows-pub_msg _ rows ∙ omega int_laws)

pub collateral_sum-append :
    (rows : List TaggedFunds) (row : TaggedFunds)
    → collateral_sum (rows ++ row ∷ []) ≡ collateral_sum rows +ℤ row.collateral
unfolding collateral_sum
collateral_sum-append [] row = omega int_laws
collateral_sum-append (r ∷ rows) row = rw (collateral_sum-append rows row) (omega int_laws)

pub pub_msg_sum-append :
    (rows : List TaggedFunds) (row : TaggedFunds)
    → pub_msg_sum (rows ++ row ∷ []) ≡ pub_msg_sum rows +ℤ row.pub_msg
unfolding pub_msg_sum
pub_msg_sum-append [] row = omega int_laws
pub_msg_sum-append (r ∷ rows) row = rw (pub_msg_sum-append rows row) (omega int_laws)

abbrev pub of_deal : ℕ → TaggedFunds → Bool
of_deal deal row = row.deal == deal

abbrev pub rows_of : ℕ → List TaggedFunds → List TaggedFunds
rows_of deal = select (of_deal deal)

abbrev pub others : ℕ → List TaggedFunds → List TaggedFunds
others deal = select (λ row. not (of_deal deal row))

pub others_self :
    (deal : ℕ) (rows : List TaggedFunds) → rows_of deal rows ≡ [] → others deal rows ≡ rows
others_self deal [] h = refl
others_self deal (r ∷ rows) h = ground (arith, others_self deal rows)

pub others-append :
    (deal : ℕ) (rows : List TaggedFunds) (row : TaggedFunds)
    → row.deal ≡ deal
    → others deal (rows ++ row ∷ []) ≡ others deal rows
others-append deal [] row e = ground arith
others-append deal (r ∷ rows) row e = ground (arith, others-append deal rows row)

pub find_some :
    (deal : ℕ) (rows : List TaggedFunds)
    → rows_of deal rows ≢ []
    → find_if (of_deal deal) rows ≢ none
find_some deal [] h = λ e. h refl
find_some deal (r ∷ rows) h = ground (arith, find_some deal rows)

pub find_none :
    (deal : ℕ) (rows : List TaggedFunds)
    → rows_of deal rows ≡ []
    → find_if (of_deal deal) rows ≡ none
find_none deal [] h = refl
find_none deal (r ∷ rows) h = ground (arith, find_none deal rows)
