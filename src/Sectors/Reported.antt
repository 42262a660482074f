-- ===== src/Sectors/Reported.antt =====
-- What the storage locations report of a sector, in whatever order they are gone through.
use boost.Common.{
  ℕ, ◌≡◌, refl, Bool, Bool-cases, true, false, inl, inr, not, ◌&&◌, ◌||◌, List, [], ◌∷◌, ◌++◌,
  Option, none, some, if◌then◌else◌, ◌==◌, lookup, lookup-insert, arith, ◌∙◌, ap,
}
use boost.Sectors.State.{
  SealState, sealed, unsealed, removed, cached, States, Decl, is_unsealed, set_explicit,
  mark_cached, add_decl, add_location, add_locations,
}

abbrev pub any_of : (Decl → Bool) → List Decl → Bool
any_of p [] = false
any_of p (d ∷ ds) = p d || any_of p ds

abbrev state_of : Bool → Bool → Bool → Option SealState
state_of in_unsealed in_sealed in_list =
    if in_unsealed
    then some unsealed
    else if in_sealed
    then some sealed
    else if in_list
    then some cached
    else none

-- The specification: unsealed if some location has it so, else sealed, else in the cache.
abbrev pub reported : ℕ → List Decl → Option SealState
reported x ds =
    state_of (any_of (λ d. d.sector_id == x && d.has_unsealed) ds)
      (any_of (λ d. d.sector_id == x && d.has_sealed) ds) (any_of (λ d. d.sector_id == x) ds)

abbrev is_sealed : Option SealState → Bool
is_sealed (some sealed) = true
is_sealed _ = false

abbrev or_else : Option SealState → Option SealState → Option SealState
or_else none o = o
or_else (some s) o = some s

abbrev merge : Option SealState → Option SealState → Option SealState
merge a b =
    if is_unsealed a || is_unsealed b
    then some unsealed
    else if is_sealed a || is_sealed b
    then some sealed
    else or_else a b

abbrev pub listed : List (List Decl) → List Decl
listed [] = []
listed (loc ∷ locs) = loc ++ listed locs

mark_cached-lookup :
    (x sector : ℕ) (m : States)
    → lookup x (mark_cached sector m)
      ≡ (if sector == x then or_else (lookup x m) (some cached) else lookup x m)
unfolding mark_cached
mark_cached-lookup x sector m = elim (Bool-cases (sector == x)) [
  | inl e ↦
      let is : sector ≡ x = ground (arith, e) in
      ground (arith, e, ap (λ k. lookup k m) is, lookup-insert sector x cached m)
  | inr e ↦ ground (arith, e, lookup-insert sector x cached m)
]

set_explicit-lookup :
    (x : ℕ) (d : Decl) (m : States)
    → lookup x (set_explicit d m) ≡ (
        if d.sector_id == x
        then (if d.has_unsealed
            then some unsealed
            else if d.has_sealed && not (is_unsealed (lookup x m))
            then some sealed
            else lookup x m)
        else lookup x m)
unfolding set_explicit
set_explicit-lookup x d m =
    let inserted = λ (s : SealState). lookup-insert d.sector_id x s m in
    elim (Bool-cases (d.sector_id == x)) [
      | inl e ↦
          let is : d.sector_id ≡ x = ground (arith, e) in
          ground (arith, e, ap (λ k. lookup k m) is, inserted unsealed, inserted sealed)
      | inr e ↦ ground (arith, e, inserted unsealed, inserted sealed)
    ]

add_decl-lookup :
    (x : ℕ) (d : Decl) (m : States)
    → lookup x (add_decl d m) ≡ merge (lookup x m) (reported x (d ∷ []))
unfolding add_decl
add_decl-lookup x d m =
    ground (arith, mark_cached-lookup x d.sector_id (set_explicit d m), set_explicit-lookup x d m)

merge_assoc :
    (o : Option SealState) (x : ℕ) (d : Decl) (ds : List Decl)
    → merge (merge o (reported x (d ∷ []))) (reported x ds) ≡ merge o (reported x (d ∷ ds))
merge_assoc none x d ds = ground arith
merge_assoc (some sealed) x d ds = ground arith
merge_assoc (some unsealed) x d ds = ground arith
merge_assoc (some removed) x d ds = ground arith
merge_assoc (some cached) x d ds = ground arith

add_location-lookup :
    (x : ℕ) (ds : List Decl) (m : States)
    → lookup x (add_location ds m) ≡ merge (lookup x m) (reported x ds)
unfolding add_location
add_location-lookup x [] m = ground arith
add_location-lookup x (d ∷ ds) m =
    add_location-lookup x ds (add_decl d m)
    ∙ ap (λ o. merge o (reported x ds)) (add_decl-lookup x d m)
    ∙ merge_assoc (lookup x m) x d ds

any_of-append :
    (p : Decl → Bool) (ds es : List Decl) → any_of p (ds ++ es) ≡ (any_of p ds || any_of p es)
any_of-append p [] es = refl
any_of-append p (d ∷ ds) es = ground (arith, any_of-append p ds es)

merge-state_of :
    (o : Option SealState) (u s a u' s' a' : Bool)
    → merge (merge o (state_of u s a)) (state_of u' s' a')
      ≡ merge o (state_of (u || u') (s || s') (a || a'))
merge-state_of none u s a u' s' a' = ground arith
merge-state_of (some sealed) u s a u' s' a' = ground arith
merge-state_of (some unsealed) u s a u' s' a' = ground arith
merge-state_of (some removed) u s a u' s' a' = ground arith
merge-state_of (some cached) u s a u' s' a' = ground arith

merge-append :
    (o : Option SealState) (x : ℕ) (ds es : List Decl)
    → merge (merge o (reported x ds)) (reported x es) ≡ merge o (reported x (ds ++ es))
merge-append o x ds es =
    rw
      (
        any_of-append (λ d. d.sector_id == x && d.has_unsealed) ds es,
        any_of-append (λ d. d.sector_id == x && d.has_sealed) ds es,
        any_of-append (λ d. d.sector_id == x) ds es,
      )
      (merge-state_of o (any_of (λ d. d.sector_id == x && d.has_unsealed) ds)
        (any_of (λ d. d.sector_id == x && d.has_sealed) ds) (any_of (λ d. d.sector_id == x) ds)
        (any_of (λ d. d.sector_id == x && d.has_unsealed) es)
        (any_of (λ d. d.sector_id == x && d.has_sealed) es) (any_of (λ d. d.sector_id == x) es))

add_locations-merge :
    (x : ℕ) (locs : List (List Decl)) (m : States)
    → lookup x (add_locations locs m) ≡ merge (lookup x m) (reported x (listed locs))
unfolding add_locations
add_locations-merge x [] m = ground arith
add_locations-merge x (loc ∷ locs) m =
    add_locations-merge x locs (add_location loc m)
    ∙ ap (λ o. merge o (reported x (listed locs))) (add_location-lookup x loc m)
    ∙ merge-append (lookup x m) x loc (listed locs)

-- The state that is found for a sector is the one that its locations report together: it does not
-- depend on the order of the locations, nor on that of the sectors at a location.
pub add_locations-lookup :
    (x : ℕ) (locs : List (List Decl)) → lookup x (add_locations locs []) ≡ reported x (listed locs)
add_locations-lookup x locs = add_locations-merge x locs [] ∙ ground arith
