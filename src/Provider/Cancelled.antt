-- ===== src/Provider/Cancelled.antt =====
-- What the cancellation of an offline deal that waits for its data may touch.
use boost.Common.{
  ℕ, suc, ◌==◌, ◌≡◌, ◌⊎◌, inl, inr, refl, Bool-cases, true, false, ◌∷◌, some, Result-cases, arith,
  Option-cases, ◌>>=◌, ◌∙◌, ap, sym, lookup, subst, pure,
}
use boost.Deal.{ProviderDealState}
use boost.Provider.World.{World, Env, Provider, by_id, is_running, update_row}
use boost.Provider.Loop.{terminate, handle_retry}
use boost.Provider.Requests.{
  told_loop, find_deal, cancel_idle, cancel_row, cancel_offline_deal_awaiting_import,
}
use boost.Provider.Retry.{handle_terminate_lem}

answer-world :
    {A B : Type 0} (m : Provider A) (f : A → B) (w : World)
    → ((m >>= λ a. pure (f a)) w).1 ≡ (m w).1
answer-world m f w = elim (Result-cases (m w).0) [
  | inl (a, e) ↦ ground (arith, e)
  | inr (x, e) ↦ ground (arith, e)
]

-- Nothing is touched, or the row of an offline deal with no data and no thread is failed.
abbrev CancelOutcome : ℕ → World → World → Type 0
CancelOutcome uuid w w' =
    (w'.started ≡ w.started)
    × (((w'.deals ≡ w.deals) × (w'.cleanups ≡ w.cleanups))
        ⊎ ((d : ProviderDealState) × (by_id uuid w.deals ≡ some d)
            × (d.is_offline ≡ true)
            × (d.inbound_file_path ≡ 0)
            × (is_running uuid w.handlers ≡ false)
            × (w'.cleanups ≡ terminate d ∷ w.cleanups)
            × ((w'.deals ≡ w.deals) ⊎ (w'.deals ≡ update_row (terminate d) w.deals))))

module _ (env : Env) where
  idle_lem :
      (uuid : ℕ) (d : ProviderDealState) (w : World)
      → by_id uuid w.deals ≡ some d
      → d.is_offline ≡ true
      → d.inbound_file_path ≡ 0
      → is_running uuid w.handlers ≡ false
      → CancelOutcome uuid w (handle_retry env uuid false w).1
  idle_lem uuid d w there offline no_data idle =
      let (s, r, cases) = handle_terminate_lem env uuid w in
      (
        s,
        elim cases [
          | inl (a, ds, cs) ↦ inl (ds, cs)
          | inr (d', there', a, cs, ds) ↦
              let same : d' ≡ d = ground (arith, there, there') in
              inr (
                d,
                there,
                offline,
                no_data,
                idle,
                cs ∙ ap (λ x. terminate x ∷ w.cleanups) same,
                elim (Bool-cases (env.deals_fault (suc (suc w.calls)))) [
                  | inl f ↦ inl (ds ∙ rw f refl)
                  | inr f ↦ inr (ds ∙ rw (f, same) refl)
                ],
              )
        ],
      )

  -- The cancellation of an offline deal, whatever fails, starts no thread and changes the deals
  -- table and starts a cleanup only for a deal that is offline, waits for its data and does not
  -- run: that deal, failed by the user's word, is cleaned up.
  pub cancel_offline_lem :
      (uuid : ℕ) (w : World)
      → CancelOutcome uuid w (cancel_offline_deal_awaiting_import env uuid w).1
  unfolding cancel_offline_deal_awaiting_import find_deal cancel_row cancel_idle is_running
  cancel_offline_lem uuid w = elim (Bool-cases (env.deals_fault w.calls)) [
    | inl f ↦ ground (arith, f)
    | inr f ↦ elim (Option-cases (by_id uuid w.deals)) [
      | inl e ↦ ground (arith, e, f)
      | inr (d, e) ↦ elim (Bool-cases d.is_offline) [
        | inr g ↦ ground (arith, e, f, g)
        | inl g ↦ elim (Bool-cases (d.inbound_file_path == 0)) [
          | inr h ↦ ground (arith, e, f, g, h)
          | inl h ↦ elim (Option-cases (lookup uuid w.handlers)) [
            | inl l ↦ ground (arith, e, f, g, h, l)
            | inr (dh, l) ↦ elim (Bool-cases dh.running) [
              | inl r ↦ ground (arith, e, f, g, h, l, r)
              | inr r ↦
                  let v = record w { calls = suc w.calls } in
                  let same : (cancel_offline_deal_awaiting_import env uuid w).1
                      ≡ (handle_retry env uuid false v).1 =
                    ground (
                      arith,
                      e,
                      f,
                      g,
                      h,
                      l,
                      r,
                      answer-world (handle_retry env uuid false) told_loop v,
                    ) in
                  subst (CancelOutcome uuid w) (sym same)
                    (idle_lem uuid d v e g (ground (arith, h)) (ground (arith, l, r)))
            ]
          ]
        ]
      ]
    ]
  ]
