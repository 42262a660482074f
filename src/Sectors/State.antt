-- ===== src/Sectors/State.antt =====
-- sectorstatemgr/sectorstatemgr.go and db/sectors.go: the seal states of sectors. A sector id, a miner
-- with a number, is a number; a map of sectors is an association list.
use boost.Common.{
  ℕ, suc, ℤ, pos, ltb_ℤ, Bool, true, false, not, ◌&&◌, List, [], ◌∷◌, Option, none, some,
  if◌then◌else◌, lookup, insert, erase, ok, err, Action, pure, raise, modify, ◌>>=◌, ◌>>◌, map,
}

pub data SealState : Type 0 where
  sealed unsealed removed cached : SealState

abbrev pub same_state : SealState → SealState → Bool
same_state sealed sealed = true
same_state unsealed unsealed = true
same_state removed removed = true
same_state cached cached = true
same_state _ _ = false

abbrev pub States : Type 0
States = List (ℕ × SealState)

-- A sector at a storage location, and whether its file type has the sealed or the unsealed file.
pub record Decl : Type 0 where
  pub sector_id : ℕ
  pub has_unsealed : Bool
  pub has_sealed : Bool

abbrev pub is_unsealed : Option SealState → Bool
is_unsealed (some unsealed) = true
is_unsealed _ = false

-- The `switch`: the unsealed state stays, and a sector that is neither has its state unchanged.
unfoldable pub set_explicit : Decl → States → States
set_explicit d m =
    if d.has_unsealed
    then insert d.sector_id unsealed m
    else if d.has_sealed && not (is_unsealed (lookup d.sector_id m))
    then insert d.sector_id sealed m
    else m

unfoldable pub mark_cached : ℕ → States → States
mark_cached sector m = elim (lookup sector m) [ none ↦ insert sector cached m | some s ↦ m ]

unfoldable pub add_decl : Decl → States → States
add_decl d m = mark_cached d.sector_id (set_explicit d m)

unfoldable pub add_location : List Decl → States → States
add_location [] m = m
add_location (d ∷ ds) m = add_location ds (add_decl d m)

unfoldable pub add_locations : List (List Decl) → States → States
add_locations [] m = m
add_locations (loc ∷ locs) m = add_locations locs (add_location loc m)

-- One sector of the database: the updates and the states that are left.
unfoldable pub compare_one : ℕ × SealState → States × States → States × States
compare_one (sector, previous) (updates, states) = elim (lookup sector states) [
  | some s ↦ (
    (if not (same_state previous s) && not (same_state s cached)
        then insert sector s updates
        else updates),
    erase sector states,
  )
  | none ↦ (insert sector removed updates, states)
]

unfoldable pub compare_all : States → States × States → States × States
compare_all [] acc = acc
compare_all (row ∷ rows) acc = compare_all rows (compare_one row acc)

-- The sectors that are left are new.
unfoldable pub add_new : States → States → States
add_new [] updates = updates
add_new ((sector, s) ∷ left) updates = add_new left (insert sector s updates)

-- `rows` is what the database had, `states` what Lotus lists.
unfoldable pub sector_updates : States → States → States
sector_updates rows states =
    let (updates, left) = compare_all rows ([], states) in add_new left updates

pub record SectorStateUpdates : Type 0 where
  pub updates : States
  pub active_sectors : List ℕ
  pub sector_with_deals : List ℕ
  pub sector_states : States

-- One constructor for each call that may fail.
pub data RefreshError : Type 0 where
  storage_list_error list_error head_error active_error sectors_error address_error : RefreshError
  update_error : RefreshError

-- What Lotus and the full node answer, `none` being an error; the sectors with their deal weights;
-- and the statements on the table that fail, by their number.
pub record SectorApi : Type 0 where
  pub storage_list : Option (List (List Decl))
  pub chain_head : Option ℕ
  pub active_set : ℕ → Option (List ℕ)
  pub all_set : ℕ → Option (List (ℕ × ℤ))
  pub miner_id : Option ℕ
  pub sector : ℕ → ℕ → ℕ
  pub fault : ℕ → Bool

-- The table, the statements sent so far, and what was published, the latest first.
pub record Sectors : Type 0 where
  pub rows : States
  pub statements : ℕ
  pub published : List SectorStateUpdates

abbrev pub Refresh : Type 0 → Type 0
Refresh A = Action Sectors RefreshError A

abbrev pub answer_of : {A : Type 0} → Option A → RefreshError → Refresh A
answer_of none e = raise e
answer_of (some a) e = pure a

unfoldable pub with_deals : SectorApi → ℕ → List (ℕ × ℤ) → List ℕ
with_deals api mid [] = []
with_deals api mid ((number, weight) ∷ infos) =
    let rest = with_deals api mid infos in
    if ltb_ℤ (pos 0) weight then api.sector mid number ∷ rest else rest

module _ (api : SectorApi) where
  -- A statement on the table, which does what it does unless it fails.
  unfoldable pub statement : {A : Type 0} → RefreshError → (Sectors → A × Sectors) → Refresh A
  statement e does s =
      let counted : Sectors = record s { statements = suc s.statements } in
      let (a, s') = does counted in if api.fault s.statements then (err e, counted) else (ok a, s')

  unfoldable pub db_list : Refresh States
  db_list = statement list_error (λ s. (s.rows, s))

  unfoldable pub db_update : ℕ → SealState → Refresh (Unit {0})
  db_update sector state =
      statement update_error (λ s. (tt, record s { rows = insert sector state s.rows }))

  unfoldable pub refresh_state : Refresh SectorStateUpdates
  refresh_state = do
    storage_list ← answer_of api.storage_list storage_list_error
    let states = add_locations storage_list []
    rows ← db_list
    head ← answer_of api.chain_head head_error
    active_set ← answer_of (api.active_set head) active_error
    all_set ← answer_of (api.all_set head) sectors_error
    mid ← answer_of api.miner_id address_error
    pure (record {
      updates = sector_updates rows states;
      active_sectors = map (api.sector mid) active_set;
      sector_with_deals = with_deals api mid all_set;
      sector_states = states;
    })

  unfoldable pub update_all : States → Refresh (Unit {0})
  update_all [] = pure tt
  update_all ((sector, state) ∷ updates) = do db_update sector state; update_all updates

  unfoldable pub check_for_updates : Refresh (Unit {0})
  check_for_updates = do
    ssu ← refresh_state
    update_all ssu.updates
    modify (λ s. record s { published = ssu ∷ s.published })
