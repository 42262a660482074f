-- ===== src/Exec/Success.antt =====
-- What a deal has reached when its execution ends without an error.
use boost.Common.{
  ◌≤◌, ◌≡◌, Bool-cases, inl, inr, none, arith, Result-cases, ok, >>=-ok, ◌>>=◌, ap, subst, sym,
}
use boost.Deal.{rank, indexed_and_announced, before}
use boost.Exec.World.{World, Exec, Env, deal_error, panic, when, deals_update, update_checkpoint}
use boost.Exec.Seal.{track_curio_sealing, add_to_lid, announce, index_and_announce}
use boost.Exec.Run.{
  exec_transfer, exec_publish, exec_add_piece, exec_index, exec_deal_upto_add_piece, finish_deal,
  count_received, exec_body, exec_deal,
}
use boost.Exec.Steps.{Quiet}
use boost.Exec.Steps.Run.{Quiet-finish_deal}

-- The checkpoint is IndexedAndAnnounced or later.
abbrev Indexed : World → Type 0
Indexed w = 5 ≤ rank w.deal.checkpoint

-- What holds at the end of every successful last part holds at the end of the whole.
pub ends_bind :
    (P : World → Type 0) {A B : Type 0} (m : Exec A) (f : A → Exec B) (w : World) (b : B)
    → ((a : A) (v : World) → (f a v).0 ≡ ok b → P (f a v).1)
    → ((m >>= f) w).0 ≡ ok b
    → P ((m >>= f) w).1
ends_bind P m f w b last h =
    let (a, ea, same, done) = >>=-ok m f w b h in
    subst P (sym (ap (λ r. r.1) same)) (last a (m w).1 done)

module _ (env : Env) where
  updated_lem :
      (w : World)
      → (update_checkpoint env indexed_and_announced w).0 ≡ ok tt
      → Indexed (update_checkpoint env indexed_and_announced w).1
  unfolding update_checkpoint deals_update
  updated_lem w h = ground (arith, h)

  indexed_lem :
      (w : World) → (index_and_announce env w).0 ≡ ok tt → Indexed (index_and_announce env w).1
  unfolding index_and_announce
  indexed_lem w =
      ends_bind Indexed (when env.curio (track_curio_sealing env w.deal.sector_id)) (λ _. added) w
        tt
        (λ _ v.
          ends_bind Indexed (add_to_lid env) (λ _. told) v tt
            (λ _ u.
              ends_bind Indexed (announce env w.deal)
                (λ _. update_checkpoint env indexed_and_announced) u tt (λ _ x. updated_lem x)))
    where
      told : Exec (Unit {0})
      told = announce env w.deal >>= λ _. update_checkpoint env indexed_and_announced

      added : Exec (Unit {0})
      added = add_to_lid env >>= λ _. told

  exec_index_lem : (w : World) → (exec_index env w).0 ≡ ok tt → Indexed (exec_index env w).1
  unfolding exec_index
  exec_index_lem w h = elim (Bool-cases (before w.deal.checkpoint indexed_and_announced)) [
    | inl early ↦ ground (arith, early, indexed_lem w (ground (arith, early, h)))
    | inr late ↦ ground (arith, late)
  ]

  upto_lem :
      (w : World)
      → (exec_deal_upto_add_piece env w).0 ≡ ok tt
      → Indexed (exec_deal_upto_add_piece env w).1
  unfolding exec_deal_upto_add_piece
  upto_lem w =
      ends_bind Indexed (exec_transfer env) (λ _. after_transfer) _ tt
        (λ _ v.
          ends_bind Indexed (exec_publish env) (λ _. after_publish) v tt
            (λ _ u.
              ends_bind Indexed (exec_add_piece env) (λ _. exec_index env) u tt
                (λ _ x. exec_index_lem x)))
    where
      after_publish : Exec (Unit {0})
      after_publish = exec_add_piece env >>= λ _. exec_index env

      after_transfer : Exec (Unit {0})
      after_transfer = exec_publish env >>= λ _. after_publish

  finished_lem :
      (w : World)
      → ((exec_deal_upto_add_piece env >>= λ _. finish_deal env) w).0 ≡ ok tt
      → Indexed ((exec_deal_upto_add_piece env >>= λ _. finish_deal env) w).1
  unfolding Quiet
  finished_lem w h =
      let (a, ea, same, done) =
        >>=-ok (exec_deal_upto_add_piece env) (λ _. finish_deal env) w tt h in
      let u = (exec_deal_upto_add_piece env w).1 in
      let (r, p, x, q, y, n, k) = Quiet-finish_deal env u in
      let reached : Indexed u = upto_lem w ea in ground (arith, ap (λ v. v.1) same, r, reached)

  -- An execution that ends without an error, also one in which some stages were done in earlier
  -- runs, leaves the deal at IndexedAndAnnounced or later.
  pub exec_deal_succeeds :
      (w : World)
      → (exec_deal env w).0 ≡ none
      → rank indexed_and_announced ≤ rank (exec_deal env w).1.deal.checkpoint
  unfolding exec_deal exec_body
  exec_deal_succeeds w h = elim (Result-cases (exec_body env w).0) [
    | inl (a, e) ↦
        let reached : Indexed (exec_body env w).1 =
          ends_bind Indexed (count_received env)
            (λ _. exec_deal_upto_add_piece env >>= λ _. finish_deal env) w tt
            (λ _ v. finished_lem v) e in
        ground (arith, e, reached)
    | inr (deal_error x, e) ↦ absurd (ground (arith, e, h))
    | inr (panic, e) ↦ absurd (ground (arith, e, h))
  ]
