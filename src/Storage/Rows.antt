-- ===== src/Storage/Rows.antt =====
-- Sums over the rows of `StorageTagged` under insertion and deletion.
use boost.Common.{
  ℕ, ◌+◌, ◌==◌, ◌≡◌, refl, Bool, List, [], ◌∷◌, ◌++◌, not, if◌then◌else◌, arith, select, find_if,
  none,
}
use boost.Storage.Db.{TaggedRow, sizes_for_host}

-- What a row adds to the sum of a host.
abbrev pub share : ℕ → TaggedRow → ℕ
share host row = if host == 0 then row.size else if row.host == host then row.size else 0

pub sizes-append :
    (host : ℕ) (rows : List TaggedRow) (row : TaggedRow)
    → sizes_for_host host (rows ++ row ∷ []) ≡ sizes_for_host host rows + share host row
unfolding sizes_for_host
sizes-append host [] row = ground arith
sizes-append host (r ∷ rows) row = ground (arith, sizes-append host rows row)

-- The rows of one deal, and all others.
abbrev pub of_deal : ℕ → TaggedRow → Bool
of_deal deal row = row.deal == deal

abbrev pub others : ℕ → List TaggedRow → List TaggedRow
others deal = select (λ row. not (of_deal deal row))

abbrev pub rows_of : ℕ → List TaggedRow → List TaggedRow
rows_of deal = select (of_deal deal)

pub sizes-split :
    (host deal : ℕ) (rows : List TaggedRow)
    → sizes_for_host host rows
      ≡ sizes_for_host host (others deal rows) + sizes_for_host host (rows_of deal rows)
unfolding sizes_for_host
sizes-split host deal [] = omega arith
sizes-split host deal (r ∷ rows) = ground (arith, sizes-split host deal rows)

pub others_self :
    (deal : ℕ) (rows : List TaggedRow) → rows_of deal rows ≡ [] → others deal rows ≡ rows
others_self deal [] h = refl
others_self deal (r ∷ rows) h = ground (arith, others_self deal rows)

pub others-append :
    (deal : ℕ) (rows : List TaggedRow) (row : TaggedRow)
    → row.deal ≡ deal
    → others deal (rows ++ row ∷ []) ≡ others deal rows
others-append deal [] row e = ground arith
others-append deal (r ∷ rows) row e = ground (arith, others-append deal rows row)

pub rows_of-others : (deal : ℕ) (rows : List TaggedRow) → rows_of deal (others deal rows) ≡ []
rows_of-others deal [] = refl
rows_of-others deal (r ∷ rows) = ground (arith, rows_of-others deal rows)

pub find-append :
    (deal : ℕ) (rows : List TaggedRow) (row : TaggedRow)
    → rows_of deal rows ≡ []
    → row.deal ≡ deal
    → find_if (of_deal deal) (rows ++ row ∷ []) ≡ find_if (of_deal deal) (row ∷ [])
find-append deal [] row h e = refl
find-append deal (r ∷ rows) row h e = ground (arith, find-append deal rows row)

pub find_none :
    (deal : ℕ) (rows : List TaggedRow) → rows_of deal rows ≡ [] → find_if (of_deal deal) rows ≡ none
find_none deal [] h = refl
find_none deal (r ∷ rows) h = ground (arith, find_none deal rows)
