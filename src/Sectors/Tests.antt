-- ===== src/Sectors/Tests.antt =====
-- A run and instances: one sector that is unsealed elsewhere, one that went away, one that is new.
use boost.Common.{ℕ, ◌≡◌, ◌⊎◌, refl, pos, Bool, true, false, List, [], ◌∷◌, none, some, ok, lookup}
use boost.Sectors.State.{
  sealed, unsealed, removed, cached, Decl, add_locations, SectorApi, Sectors, SectorStateUpdates,
  update_error, head_error, check_for_updates, refresh_state, update_all, db_update, db_list,
  statement, add_location, add_decl, mark_cached, set_explicit, sector_updates, compare_all,
  compare_one, add_new,
}
use boost.Sectors.Reported.{reported, listed, add_locations-lookup}
use boost.Sectors.Updates.{wanted, instead}
use boost.Sectors.Check.{Answers, check_for_updates_lem, check_for_updates-fails}

abbrev decl : ℕ → Bool → Bool → Decl
decl n u s = record { sector_id = n; has_unsealed = u; has_sealed = s }

-- Sector 1 has its unsealed file at the first location and its sealed file at the second; sector 3
-- is in a cache only.
abbrev locations : List (List Decl)
locations = (decl 1 true false ∷ decl 3 false false ∷ []) ∷ (decl 1 false true ∷ []) ∷ []

abbrev lotus : SectorApi
lotus = record {
  storage_list = some locations;
  chain_head = some 50;
  active_set = λ h. some (1 ∷ []);
  all_set = λ h. some ((1, pos 4) ∷ (3, pos 0) ∷ []);
  miner_id = some 1000;
  sector = λ m n. n;
  fault = λ n. false;
}

-- Sector 1 was sealed, sector 2 is no longer listed.
abbrev table : Sectors
table = record { rows = (1, sealed) ∷ (2, sealed) ∷ []; statements = 0; published = [] }

checked : (check_for_updates lotus table).1.rows ≡ (1, unsealed) ∷ (2, removed) ∷ (3, cached) ∷ []
unfolding check_for_updates refresh_state update_all db_update db_list statement add_locations
    add_location add_decl mark_cached set_explicit sector_updates compare_all compare_one add_new
checked = refl

add_locations-lookup_example : lookup 1 (add_locations locations []) ≡ reported 1 (listed locations)
add_locations-lookup_example = add_locations-lookup 1 locations

healthy : (n : ℕ) → lotus.fault n ≡ false
healthy n = refl

abbrev answers : Answers lotus healthy locations
answers = record {
  listed_by_lotus = refl;
  head = 50;
  at_head = refl;
  active = 1 ∷ [];
  are_active = refl;
  all = (1, pos 4) ∷ (3, pos 0) ∷ [];
  are_all = refl;
  mid = 1000;
  miner = refl;
}

check_for_updates_lem_example :
    let (r, s') = check_for_updates lotus table in
    (r ≡ ok tt)
    × ((x : ℕ)
        → lookup x s'.rows
          ≡ instead
              (lookup x table.rows)
              (wanted (lookup x table.rows) (reported x (listed locations))))
    × ((ssu : SectorStateUpdates) × (s'.published ≡ ssu ∷ table.published)
        × ((x : ℕ)
            → lookup x ssu.updates ≡ wanted (lookup x table.rows) (reported x (listed locations))))
check_for_updates_lem_example =
    check_for_updates_lem lotus healthy locations table answers (refl, (refl, tt))

-- A node that does not answer.
abbrev no_head : SectorApi
no_head = record lotus { chain_head = none }

check_for_updates-fails_example :
    ((check_for_updates no_head table).1.published ≡ [])
    × ((head_error ≡ update_error) ⊎ ((check_for_updates no_head table).1.rows ≡ table.rows))
unfolding check_for_updates refresh_state db_list statement
check_for_updates-fails_example = check_for_updates-fails no_head table head_error refl
