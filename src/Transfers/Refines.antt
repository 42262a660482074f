-- ===== src/Transfers/Refines.antt =====
-- What one sampling does to the samples of each deal, whatever order the maps are gone through in.
use boost.Common.{
  ℕ, suc, ◌-◌, ◌≤◌, ◌==◌, ◌≡◌, refl, Bool-cases, ltb, false, List, [], ◌∷◌, ◌++◌, Option, none,
  some, length, length-append, arith, All, sym, ap, ◌∙◌, subst, lookup, insert, lookup-insert,
  contains, inl, inr, ◌⊎◌, length-drop,
}
use boost.Transfers.Sample.{
  TransferPoint, max_samples, DealTransfers, points_of, add_point, sample_active, Idle, index_panic,
  deleted, kept, add_idle, last_bytes, keep_idle, idle_entry, sample_idle, sample,
}
use boost.Common.Maps.{keys, Distinct, lookup-absent, Distinct-insert}
use boost.Transfers.Window.{latest, add_point_lem}

-- One to twenty points.
abbrev pub Sized : ℕ × List TransferPoint → Type 0
Sized (deal, points) = (1 ≤ length points) × (length points ≤ 20)

-- No deal has two entries in a map, and every entry has one to twenty points.
abbrev pub IsValid : DealTransfers → Type 0
IsValid dt = Distinct (keys dt.samples) × Distinct (keys dt.active) × All Sized dt.samples

abbrev pub survivor : Idle → Option (List TransferPoint)
survivor index_panic = none
survivor deleted = none
survivor (kept points) = some points

-- The specification, for one deal: by the bytes of its transfer, if it is active, and its points.
abbrev pub sampled : ℕ → Option ℕ → Option (List TransferPoint) → Option (List TransferPoint)
sampled now (some b) points =
    some (latest 20 (points_of points ++ record { at = now; bytes = b } ∷ []))
sampled now none none = none
sampled now none (some points) = survivor (add_idle now points)

Sized-insert :
    (k : ℕ) (v : List TransferPoint) (m : List (ℕ × List TransferPoint))
    → Sized (k, v)
    → All Sized m
    → All Sized (insert k v m)
Sized-insert k v [] s h = (s, tt)
Sized-insert k v ((j, w) ∷ m) s (a, h) = elim (Bool-cases (j == k)) [
  | inl e ↦ rw e (s, h)
  | inr e ↦ rw e (a, Sized-insert k v m s h)
]

Sized-add_point :
    (deal : ℕ) (point : TransferPoint) (points : List TransferPoint)
    → Sized (deal, add_point point points)
Sized-add_point deal point points =
    let all = points ++ point ∷ [] in
    let size = length-drop (length all - 20) all in
    let longer = length-append points (point ∷ []) in
    subst (λ ps. Sized (deal, ps)) (sym (add_point_lem point points))
      (omega (arith, size, longer), omega (arith, size, longer))

abbrev added : ℕ → Option ℕ → Option (List TransferPoint) → Option (List TransferPoint)
added now (some b) points = some (add_point (record { at = now; bytes = b }) (points_of points))
added now none points = points

-- The first loop.
active_lem :
    (now u : ℕ) (active : List (ℕ × ℕ)) (samples : List (ℕ × List TransferPoint))
    → Distinct (keys active)
    → lookup u (sample_active now active samples) ≡ added now (lookup u active) (lookup u samples)
unfolding sample_active
active_lem now u [] samples h = refl
active_lem now u ((d, b) ∷ active) samples (new, h) =
    let next = add_point (record { at = now; bytes = b }) (points_of (lookup d samples)) in
    let rest = active_lem now u active (insert d next samples) h in
    elim (Bool-cases (d == u)) [
      | inl e ↦
          let same : d ≡ u = ground (arith, e) in
          let gone : lookup u active ≡ none =
            subst (λ k. lookup k active ≡ none) same (lookup-absent d active new) in
          let before : next
              ≡ add_point (record { at = now; bytes = b }) (points_of (lookup u samples)) =
            ap (λ k. add_point (record { at = now; bytes = b }) (points_of (lookup k samples)))
              same in
          rest
          ∙ ap (λ o. added now o (lookup u (insert d next samples))) gone
          ∙ lookup-insert d u next samples
          ∙ rw e (ap some before)
      | inr e ↦
          let kept_u : lookup u (insert d next samples) ≡ lookup u samples =
            ground (arith, e, lookup-insert d u next samples) in
          rest ∙ ap (added now (lookup u active)) kept_u ∙ rw e refl
    ]

active-IsValid :
    (now : ℕ) (active : List (ℕ × ℕ)) (samples : List (ℕ × List TransferPoint))
    → Distinct (keys samples)
    → All Sized samples
    → Distinct (keys (sample_active now active samples))
      × All Sized (sample_active now active samples)
unfolding sample_active
active-IsValid now [] samples d h = (d, h)
active-IsValid now ((deal, b) ∷ active) samples d h =
    let point : TransferPoint = record { at = now; bytes = b } in
    let points = points_of (lookup deal samples) in
    let next = add_point point points in
    active-IsValid now active (insert deal next samples) (Distinct-insert deal next samples d)
      (Sized-insert deal next samples (Sized-add_point deal point points) h)

-- An entry goes or stays, with one to twenty points.
entry_lem :
    (now deal : ℕ) (o : Option ℕ) (points : List TransferPoint)
    → Sized (deal, points)
    → (idle_entry o now points ≡ deleted)
      ⊎ ((ps : List TransferPoint) × (idle_entry o now points ≡ kept ps) × Sized (deal, ps))
unfolding add_idle
entry_lem now deal (some b) points sized = inr (points, refl, sized)
entry_lem now deal none [] sized = absurd (omega (arith, sized.0))
entry_lem now deal none (p ∷ points) (low, high) =
    let q : TransferPoint = record { at = now; bytes = last_bytes p points } in
    let longer = length-append points (q ∷ []) in
    elim (Bool-cases (ltb max_samples (suc (length (points ++ q ∷ []))))) [
      | inl full ↦ elim (Bool-cases (p.bytes == last_bytes p points)) [
        | inl e ↦ inl (ground (arith, full, e))
        | inr e ↦ inr (
          points ++ q ∷ [],
          ground (arith, full, e),
          (omega (arith, longer), omega (arith, longer, high)),
        )
      ]
      | inr fits ↦
          let small : suc (length (points ++ q ∷ [])) ≤ 20 = ground (arith, fits) in
          inr (p ∷ points ++ q ∷ [], ground (arith, fits), (omega arith, small))
    ]

abbrev IdleOutcome :
    ℕ → List (ℕ × ℕ) → List (ℕ × List TransferPoint) → List (ℕ × List TransferPoint) → Type 0
IdleOutcome now active samples out =
    ((u : ℕ)
      → lookup u out ≡ (elim (lookup u samples) as (λ o. Option (List TransferPoint)) [
        | none ↦ none
        | some points ↦ survivor (idle_entry (lookup u active) now points)
      ]))
    × Distinct (keys out)
    × All Sized out
    × ((u : ℕ) → contains u (keys samples) ≡ false → contains u (keys out) ≡ false)

-- The second loop.
idle_lem :
    (now : ℕ) (active : List (ℕ × ℕ)) (samples : List (ℕ × List TransferPoint))
    → Distinct (keys samples)
    → All Sized samples
    → (out : List (ℕ × List TransferPoint)) × (sample_idle now active samples ≡ some out)
      × IdleOutcome now active samples out
unfolding sample_idle keep_idle
idle_lem now active [] d h = ([], refl, (λ u. refl, tt, tt, λ u a. refl))
idle_lem now active ((deal, points) ∷ samples) (new, d) (sized, h) =
    let (out, e, (looks, distinct, all, absent)) = idle_lem now active samples d h in
    elim (entry_lem now deal (lookup deal active) points sized) [
      | inl gone ↦ (
        out,
        ground (arith, gone, e),
        (
          λ u. elim (Bool-cases (deal == u)) [
            | inl k ↦ rw k (
                subst (λ x. lookup x out ≡ survivor (idle_entry (lookup x active) now points))
                  (ground (arith, k))
                  (lookup-absent deal out (absent deal new) ∙ sym (ap survivor gone)))
            | inr k ↦ rw k (looks u)
          ],
          distinct,
          all,
          λ u a. absent u (ground (arith, a)),
        ),
      )
      | inr (ps, stays, s) ↦ (
        (deal, ps) ∷ out,
        ground (arith, stays, e),
        (
          λ u. elim (Bool-cases (deal == u)) [
            | inl k ↦ rw k (
                subst (λ x. some ps ≡ survivor (idle_entry (lookup x active) now points))
                  (ground (arith, k)) (sym (ap survivor stays)))
            | inr k ↦ rw k (looks u)
          ],
          (absent deal new, distinct),
          (s, all),
          λ u a. ground (arith, a, absent u (ground (arith, a))),
        ),
      )
    ]

-- Both loops for one deal are the specification.
both_loops :
    (now : ℕ) (o : Option ℕ) (points : Option (List TransferPoint))
    → (elim (added now o points) as (λ v. Option (List TransferPoint)) [
      | none ↦ none
      | some ps ↦ survivor (idle_entry o now ps)
    ])
      ≡ sampled now o points
both_loops now (some b) points =
    ap some (add_point_lem (record { at = now; bytes = b }) (points_of points))
both_loops now none none = refl
both_loops now none (some points) = refl

-- One sampling of valid maps never runs into an index panic and leaves valid maps. For each deal,
-- whatever the order in which the maps are gone through: an active deal has, of all its points
-- and a new one with the bytes of its transfer, the latest twenty; a deal that is not active has
-- the points that its own sampling leaves, if any; a deal with neither has none.
pub sample_lem :
    (now : ℕ) (dt : DealTransfers)
    → IsValid dt
    → (dt' : DealTransfers) × (sample now dt ≡ some dt')
      × IsValid dt'
      × (dt'.active ≡ dt.active)
      × ((deal : ℕ)
          → lookup deal dt'.samples ≡ sampled now (lookup deal dt.active) (lookup deal dt.samples))
unfolding sample
sample_lem now dt (ds, da, sized) =
    let mid = sample_active now dt.active dt.samples in
    let (dm, sm) = active-IsValid now dt.active dt.samples ds sized in
    let (out, e, (looks, distinct, all, absent)) = idle_lem now dt.active mid dm sm in
    (
      record dt { samples = out },
      ground (arith, e),
      (distinct, da, all),
      refl,
      λ deal.
          looks deal
          ∙ ap
              (λ v. elim v as (λ o. Option (List TransferPoint)) [
                | none ↦ none
                | some ps ↦ survivor (idle_entry (lookup deal dt.active) now ps)
              ])
              (active_lem now deal dt.active dt.samples da)
          ∙ both_loops now (lookup deal dt.active) (lookup deal dt.samples),
    )
