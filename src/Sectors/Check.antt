-- ===== src/Sectors/Check.antt =====
-- A whole check: what it writes to the table, what it publishes, and what it leaves when it fails.
use boost.Common.{
  ◌⊎◌, >>-after, >>-raised, not, ◌&&◌, ℕ, suc, ◌+◌, ℤ, ◌≡◌, refl, Bool-cases, true, false, inl, inr,
  List, [], ◌∷◌, some, lookup, insert, arith, ◌∙◌, ap, Option-cases, length, map, Result,
  Result-cases, ok, err,
}
use boost.Common.Maps.{keys, Distinct, Distinct-insert}
use boost.Sectors.State.{
  SealState, removed, cached, same_state, States, Decl, add_locations, compare_one, compare_all,
  add_new, sector_updates, SectorStateUpdates, RefreshError, update_error, SectorApi, Sectors,
  statement, db_list, db_update, refresh_state, update_all, check_for_updates, with_deals,
}
use boost.Sectors.Reported.{reported, listed}
use boost.Sectors.Updates.{wanted, instead, add_new-lookup, sector_updates-lookup}

add_new-Distinct : (left u : States) → Distinct (keys u) → Distinct (keys (add_new left u))
unfolding add_new
add_new-Distinct [] u d = d
add_new-Distinct ((sector, s) ∷ left) u d =
    add_new-Distinct left (insert sector s u) (Distinct-insert sector s u d)

compare_one-updates :
    (sector : ℕ) (p : SealState) (u m : States)
    → Distinct (keys u)
    → Distinct (keys (compare_one (sector, p) (u, m)).0)
unfolding compare_one
compare_one-updates sector p u m d = elim (Option-cases (lookup sector m)) [
  | inl e ↦ rw (e, compare_one) (Distinct-insert sector removed u d)
  | inr (s, e) ↦ elim (Bool-cases (not (same_state p s) && not (same_state s cached))) [
    | inl t ↦ rw (e, compare_one) (rw t (Distinct-insert sector s u d))
    | inr t ↦ rw (e, compare_one) (rw t d)
  ]
]

compare_all-updates :
    (rows u m : States) → Distinct (keys u) → Distinct (keys (compare_all rows (u, m)).0)
unfolding compare_all
compare_all-updates [] u m d = d
compare_all-updates ((sector, p) ∷ rows) u m d =
    let (u1, m1) = compare_one (sector, p) (u, m) in
    compare_all-updates rows u1 m1 (compare_one-updates sector p u m d)

sector_updates-Distinct : (rows m : States) → Distinct (keys (sector_updates rows m))
unfolding sector_updates
sector_updates-Distinct rows m =
    let (u', left) = compare_all rows ([], m) in
    add_new-Distinct left u' (compare_all-updates rows [] m tt)

module _ (api : SectorApi) where
  refresh_state-keeps :
      (s : Sectors)
      → ((refresh_state api s).1.rows ≡ s.rows) × ((refresh_state api s).1.published ≡ s.published)
  unfolding refresh_state db_list statement
  refresh_state-keeps s = ground arith

  abbrev written : ℕ → SealState → Sectors → Sectors
  written sector st s = record s { rows = insert sector st s.rows; statements = suc s.statements }

  db_update_lem :
      (sector : ℕ) (st : SealState) (s : Sectors)
      → api.fault s.statements ≡ false
      → db_update api sector st s ≡ (ok tt, written sector st s)
  unfolding db_update statement
  db_update_lem sector st s e = rw e refl

  db_update_failed :
      (sector : ℕ) (st : SealState) (s : Sectors)
      → api.fault s.statements ≡ true
      → db_update api sector st s ≡ (err update_error, record s { statements = suc s.statements })
  unfolding db_update statement
  db_update_failed sector st s e = rw e refl

  update_all-published :
      (us : States) (s : Sectors) → (update_all api us s).1.published ≡ s.published
  unfolding update_all
  update_all-published [] s = refl
  update_all-published ((sector, st) ∷ us) s = elim (Bool-cases (api.fault s.statements)) [
    | inl e ↦
        ap (λ (r : Result RefreshError (Unit {0}) × Sectors). r.1.published)
          (>>-raised (db_update api sector st) (update_all api us) s
            (record s { statements = suc s.statements }) (db_update_failed sector st s e))
    | inr e ↦
        ap (λ (r : Result RefreshError (Unit {0}) × Sectors). r.1.published)
          (>>-after (db_update api sector st) (update_all api us) s (written sector st s)
            (db_update_lem sector st s e))
        ∙ update_all-published us (written sector st s)
  ]

  update_all-err :
      (us : States) (s : Sectors) (e : RefreshError)
      → (update_all api us s).0 ≡ err e
      → e ≡ update_error
  unfolding update_all
  update_all-err [] s e h = absurd (ground (arith, h))
  update_all-err ((sector, st) ∷ us) s e h = elim (Bool-cases (api.fault s.statements)) [
    | inl f ↦
        let ran =
          >>-raised (db_update api sector st) (update_all api us) s
            (record s { statements = suc s.statements }) (db_update_failed sector st s f) in
        ground (arith, ran, h)
    | inr f ↦
        let ran =
          >>-after (db_update api sector st) (update_all api us) s (written sector st s)
            (db_update_lem sector st s f) in
        update_all-err us (written sector st s) e (ground (arith, ran, h))
  ]

  -- A check that fails publishes nothing, and unless it was a write to the table that failed, the
  -- table is as it was.
  pub check_for_updates-fails :
      (s : Sectors) (e : RefreshError)
      → (check_for_updates api s).0 ≡ err e
      → ((check_for_updates api s).1.published ≡ s.published)
        × ((e ≡ update_error) ⊎ ((check_for_updates api s).1.rows ≡ s.rows))
  unfolding check_for_updates
  check_for_updates-fails s e h =
      let (kept, quiet) = refresh_state-keeps s in
      elim (Result-cases (refresh_state api s).0) [
        | inl (ssu, got) ↦
            let s1 = (refresh_state api s).1 in
            (
              ground (arith, got, h, quiet, update_all-published ssu.updates s1),
              inl (update_all-err ssu.updates s1 e (ground (arith, got, h))),
            )
        | inr (x, got) ↦ (ground (arith, got, quiet), inr (ground (arith, got, kept)))
      ]

  module _ (healthy : (n : ℕ) → api.fault n ≡ false) where
    update_all_lem :
        (us : States) (s : Sectors)
        → update_all api us s
          ≡ (ok tt, record s { rows = add_new us s.rows; statements = s.statements + length us })
    unfolding update_all add_new
    update_all_lem [] s = ground arith
    update_all_lem ((sector, st) ∷ us) s =
        let one_more : suc s.statements + length us ≡ s.statements + suc (length us) =
          omega arith in
        >>-after (db_update api sector st) (update_all api us) s (written sector st s)
          (db_update_lem sector st s (healthy s.statements))
        ∙ update_all_lem us (written sector st s)
        ∙ ap
            (λ n. (ok tt, record s { rows = add_new us (insert sector st s.rows); statements = n }))
            one_more

    -- What Lotus and the node answer to a check that succeeds.
    pub record Answers (locs : List (List Decl)) : Type 0 where
      pub listed_by_lotus : api.storage_list ≡ some locs
      pub head : ℕ
      pub at_head : api.chain_head ≡ some head
      pub active : List ℕ
      pub are_active : api.active_set head ≡ some active
      pub all : List (ℕ × ℤ)
      pub are_all : api.all_set head ≡ some all
      pub mid : ℕ
      pub miner : api.miner_id ≡ some mid

    abbrev pub found : {locs : List (List Decl)} → Answers locs → States → SectorStateUpdates
    found {locs} a rows = record {
      updates = sector_updates rows (add_locations locs []);
      active_sectors = map (api.sector a.mid) a.active;
      sector_with_deals = with_deals api a.mid a.all;
      sector_states = add_locations locs [];
    }

    refresh_state_lem :
        (locs : List (List Decl)) (a : Answers locs) (s : Sectors)
        → refresh_state api s ≡ (ok (found a s.rows), record s { statements = suc s.statements })
    unfolding refresh_state db_list statement
    refresh_state_lem locs a s = ground (
      arith,
      a.listed_by_lotus,
      a.at_head,
      a.are_active,
      a.are_all,
      a.miner,
      healthy s.statements,
    )

    -- A check of a table with one row for each sector, in which no call fails, succeeds, leaves each
    -- sector with the update that is wanted for its row and the report of all locations, or as it
    -- was where none is wanted, and publishes once, with exactly these updates.
    pub check_for_updates_lem :
        (locs : List (List Decl)) (s : Sectors)
        → Answers locs
        → Distinct (keys s.rows)
        → let (r, s') = check_for_updates api s in
          (r ≡ ok tt)
          × ((x : ℕ)
              → lookup x s'.rows
                ≡ instead (lookup x s.rows) (wanted (lookup x s.rows) (reported x (listed locs))))
          × ((ssu : SectorStateUpdates) × (s'.published ≡ ssu ∷ s.published)
              × ((x : ℕ)
                  → lookup x ssu.updates ≡ wanted (lookup x s.rows) (reported x (listed locs))))
    unfolding check_for_updates
    check_for_updates_lem locs s a d =
        let us = sector_updates s.rows (add_locations locs []) in
        let s1 : Sectors = record s { statements = suc s.statements } in
        let ran = refresh_state_lem locs a s in
        let wrote = update_all_lem us s1 in
        (
          ground (arith, ran, wrote),
          λ x.
              ap (λ t. lookup x t)
                (let same : (check_for_updates api s).1.rows ≡ add_new us s.rows =
                    ground (arith, ran, wrote) in
                  same)
              ∙ add_new-lookup x us s.rows (sector_updates-Distinct s.rows (add_locations locs []))
              ∙ ap (instead (lookup x s.rows)) (sector_updates-lookup x s.rows locs d),
          (found a s.rows, ground (arith, ran, wrote), λ x. sector_updates-lookup x s.rows locs d),
        )
