-- ===== src/Sectors/Updates.antt =====
-- Which sectors change, against what was known of them.
use boost.Common.{
  ℕ, ◌≡◌, refl, Bool-cases, inl, inr, not, ◌&&◌, ◌||◌, List, [], ◌∷◌, Option, none, some,
  if◌then◌else◌, ◌==◌, lookup, insert, lookup-insert, lookup-erase, arith, ◌∙◌, ap, ap₂, sym,
  Option-cases,
}
use boost.Common.Maps.{keys, Distinct, Distinct-insert, Distinct-erase, lookup-absent}
use boost.Sectors.State.{
  SealState, sealed, unsealed, removed, cached, same_state, is_unsealed, States, Decl, set_explicit,
  mark_cached, add_decl, add_location, add_locations, compare_one, compare_all, add_new,
  sector_updates,
}
use boost.Sectors.Reported.{reported, listed, add_locations-lookup}

-- The specification: the update of a sector with its state before, as far as it was known, and the
-- state that is reported now.
abbrev pub wanted : Option SealState → Option SealState → Option SealState
wanted none now = now
wanted (some before) none = some removed
wanted (some before) (some s) = if same_state before s || same_state s cached then none else some s

abbrev pub instead : Option SealState → Option SealState → Option SealState
instead old none = old
instead old (some s) = some s

-- What one row, or none, makes of an update and of a state.
abbrev update_by : Option SealState → Option SealState → Option SealState → Option SealState
update_by none old now = old
update_by (some p) old now = instead old (wanted (some p) now)

abbrev left_by : Option SealState → Option SealState → Option SealState
left_by none now = now
left_by (some p) now = none

compare_one-lookup :
    (x sector : ℕ) (p : SealState) (u m : States)
    → let (u', m') = compare_one (sector, p) (u, m) in
      let row : Option SealState = if sector == x then some p else none in
      (lookup x u' ≡ update_by row (lookup x u) (lookup x m))
      × (lookup x m' ≡ left_by row (lookup x m))
unfolding compare_one
compare_one-lookup x sector p u m =
    let erased = lookup-erase sector x m in
    let gone = lookup-insert sector x removed u in
    elim (Option-cases (lookup sector m)) [
      | inl none_now ↦ elim (Bool-cases (sector == x)) [
        | inl e ↦
            let is : sector ≡ x = ground (arith, e) in
            ground (arith, e, none_now, gone, ap (λ k. lookup k m) is)
        | inr e ↦ ground (arith, e, none_now, gone)
      ]
      | inr (s, now) ↦
          let set = lookup-insert sector x s u in
          elim (Bool-cases (sector == x)) [
            | inl e ↦
                let is : sector ≡ x = ground (arith, e) in
                ground (arith, e, now, erased, set, ap (λ k. lookup k m) is)
            | inr e ↦ ground (arith, e, now, erased, set)
          ]
    ]

compare_all-lookup :
    (x : ℕ) (rows u m : States)
    → Distinct (keys rows)
    → let (u', m') = compare_all rows (u, m) in
      (lookup x u' ≡ update_by (lookup x rows) (lookup x u) (lookup x m))
      × (lookup x m' ≡ left_by (lookup x rows) (lookup x m))
unfolding compare_all
compare_all-lookup x [] u m d = (refl, refl)
compare_all-lookup x ((sector, p) ∷ rows) u m (new, d) =
    let (u1, m1) = compare_one (sector, p) (u, m) in
    let (eu, em) = compare_all-lookup x rows u1 m1 d in
    let (eu1, em1) = compare_one-lookup x sector p u m in
    elim (Bool-cases (sector == x)) [
      | inl e ↦
          let is : sector ≡ x = ground (arith, e) in
          let absent : lookup x rows ≡ none = lookup-absent x rows (rw (← is) new) in
          (
            eu
                ∙ ap (λ o. update_by o (lookup x u1) (lookup x m1)) absent
                ∙ eu1
                ∙ ap (λ b. update_by (if b then some p else none) (lookup x u) (lookup x m)) e
                ∙ ap
                    (λ b. update_by (if b then some p else lookup x rows) (lookup x u) (lookup x m))
                    (sym e),
            em
                ∙ ap (λ o. left_by o (lookup x m1)) absent
                ∙ em1
                ∙ ap (λ b. left_by (if b then some p else none) (lookup x m)) e
                ∙ ap (λ b. left_by (if b then some p else lookup x rows) (lookup x m)) (sym e),
          )
      | inr e ↦
          let same_u : lookup x u1 ≡ lookup x u =
            eu1 ∙ ap (λ b. update_by (if b then some p else none) (lookup x u) (lookup x m)) e in
          let same_m : lookup x m1 ≡ lookup x m =
            em1 ∙ ap (λ b. left_by (if b then some p else none) (lookup x m)) e in
          (
            eu
                ∙ ap₂ (update_by (lookup x rows)) same_u same_m
                ∙ ap
                    (λ b. update_by (if b then some p else lookup x rows) (lookup x u) (lookup x m))
                    (sym e),
            em
                ∙ ap (left_by (lookup x rows)) same_m
                ∙ ap (λ b. left_by (if b then some p else lookup x rows) (lookup x m)) (sym e),
          )
    ]

compare_one-Distinct :
    (sector : ℕ) (p : SealState) (u m : States)
    → Distinct (keys m)
    → Distinct (keys (compare_one (sector, p) (u, m)).1)
unfolding compare_one
compare_one-Distinct sector p u m d = elim (Option-cases (lookup sector m)) [
  | inl e ↦ rw (e, compare_one) d
  | inr (s, e) ↦ rw (e, compare_one) (Distinct-erase sector m d)
]

compare_all-Distinct :
    (rows u m : States) → Distinct (keys m) → Distinct (keys (compare_all rows (u, m)).1)
unfolding compare_all
compare_all-Distinct [] u m d = d
compare_all-Distinct ((sector, p) ∷ rows) u m d =
    let (u1, m1) = compare_one (sector, p) (u, m) in
    compare_all-Distinct rows u1 m1 (compare_one-Distinct sector p u m d)

pub add_new-lookup :
    (x : ℕ) (left u : States)
    → Distinct (keys left)
    → lookup x (add_new left u) ≡ instead (lookup x u) (lookup x left)
unfolding add_new
add_new-lookup x [] u d = refl
add_new-lookup x ((sector, s) ∷ left) u (new, d) =
    let ih = add_new-lookup x left (insert sector s u) d in
    let set = lookup-insert sector x s u in
    elim (Bool-cases (sector == x)) [
      | inl e ↦
          let is : sector ≡ x = ground (arith, e) in
          let absent : lookup x left ≡ none = lookup-absent x left (rw (← is) new) in
          ground (arith, e, absent, ih, set)
      | inr e ↦ ground (arith, e, ih, set)
    ]

mark_cached-Distinct :
    (sector : ℕ) (m : States) → Distinct (keys m) → Distinct (keys (mark_cached sector m))
unfolding mark_cached
mark_cached-Distinct sector m h = elim (Option-cases (lookup sector m)) [
  | inl e ↦ rw (e, mark_cached) (Distinct-insert sector cached m h)
  | inr (s, e) ↦ rw (e, mark_cached) h
]

set_explicit-Distinct :
    (d : Decl) (m : States) → Distinct (keys m) → Distinct (keys (set_explicit d m))
unfolding set_explicit
set_explicit-Distinct d m h = elim (Bool-cases d.has_unsealed) [
  | inl e ↦ rw e (Distinct-insert d.sector_id unsealed m h)
  | inr e ↦ elim (Bool-cases (d.has_sealed && not (is_unsealed (lookup d.sector_id m)))) [
    | inl e' ↦ rw (e, e') (Distinct-insert d.sector_id sealed m h)
    | inr e' ↦ rw (e, e') h
  ]
]

add_decl-Distinct : (d : Decl) (m : States) → Distinct (keys m) → Distinct (keys (add_decl d m))
unfolding add_decl
add_decl-Distinct d m h =
    mark_cached-Distinct d.sector_id (set_explicit d m) (set_explicit-Distinct d m h)

add_location-Distinct :
    (ds : List Decl) (m : States) → Distinct (keys m) → Distinct (keys (add_location ds m))
unfolding add_location
add_location-Distinct [] m h = h
add_location-Distinct (d ∷ ds) m h =
    add_location-Distinct ds (add_decl d m) (add_decl-Distinct d m h)

pub add_locations-Distinct :
    (locs : List (List Decl)) (m : States)
    → Distinct (keys m)
    → Distinct (keys (add_locations locs m))
unfolding add_locations
add_locations-Distinct [] m h = h
add_locations-Distinct (loc ∷ locs) m h =
    add_locations-Distinct locs (add_location loc m) (add_location-Distinct loc m h)

combined :
    (before now : Option SealState)
    → instead (update_by before none now) (left_by before now) ≡ wanted before now
combined none none = refl
combined none (some s) = refl
combined (some p) none = refl
combined (some p) (some s) = ground arith

-- Against the rows of the table, one for each sector, the update of a sector is the one that is
-- wanted for its row and for what the locations report of it together: a sector that was not known
-- gets what is reported, one that is no longer reported is removed, and one with another state than
-- before gets that state, except the cache.
pub sector_updates-lookup :
    (x : ℕ) (rows : States) (locs : List (List Decl))
    → Distinct (keys rows)
    → lookup x (sector_updates rows (add_locations locs []))
      ≡ wanted (lookup x rows) (reported x (listed locs))
unfolding sector_updates
sector_updates-lookup x rows locs d =
    let m = add_locations locs [] in
    let (u', left) = compare_all rows ([], m) in
    let (eu, em) = compare_all-lookup x rows [] m d in
    add_new-lookup x left u' (compare_all-Distinct rows [] m (add_locations-Distinct locs [] tt))
    ∙ ap₂ instead eu em
    ∙ combined (lookup x rows) (lookup x m)
    ∙ ap (wanted (lookup x rows)) (add_locations-lookup x locs)
