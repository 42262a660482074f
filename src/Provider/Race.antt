-- ===== src/Provider/Race.antt =====
-- Two online proposals with one uuid, both past the checks before either is saved: `processDeal`
-- runs in a thread of its own for each.
use boost.Common.{
  ℕ, ◌==◌, ◌≡◌, inl, inr, refl, List, [], ◌∷◌, ◌++◌, none, some, Result, ok, err, arith, ◌∙◌, ap,
  sym, subst, find_if,
}
use boost.Deal.{ProviderDealState}
use boost.Funds.Sums as FundsRows
use boost.Storage.Rows as StorageRows
use boost.Provider.World.{World, Env, AcceptError, Stop, refused, panic, by_id}
use boost.Provider.Propose.{process_online_deal_proposal, reserve_and_save}
use boost.Provider.Checks.{steady, Fresh}
use boost.Provider.Trace.{Ends, Clean}
use boost.Provider.Save.{Saved}
use boost.Provider.Refused.{Ends-reserve_and_save, process_online_all_or_nothing}

appended :
    (row : ProviderDealState) (uuid : ℕ) (deals : List ProviderDealState)
    → row.deal_uuid ≡ uuid
    → find_if (λ (d : ProviderDealState). d.deal_uuid == uuid) deals ≡ none
    → find_if (λ (d : ProviderDealState). d.deal_uuid == uuid) (deals ++ row ∷ []) ≡ some row
appended row uuid [] u h = ground (arith, u)
appended row uuid (d ∷ deals) u h = ground (arith, u, h, appended row uuid deals u)

answer_or : ProviderDealState → Result Stop ProviderDealState → ProviderDealState
answer_or d (ok a) = a
answer_or d (err e) = d

ok_inj : (a b : ProviderDealState) (r : Result Stop ProviderDealState) → r ≡ ok a → r ≡ ok b → a ≡ b
unfolding answer_or
ok_inj a b r h k = ap (answer_or a) (sym h ∙ k)

saved_by_id :
    (deal row : ProviderDealState) (w w' : World)
    → Saved deal row w w'
    → by_id deal.deal_uuid w'.deals ≡ some row
unfolding by_id
saved_by_id deal row w w' (f, s, d, new, u, p, k) =
    ap (by_id deal.deal_uuid) d ∙ appended row deal.deal_uuid w.deals u new

refused_twice :
    (deal d : ProviderDealState) (r : Result Stop ProviderDealState) (w w' : World)
    → by_id deal.deal_uuid w.deals ≡ some d
    → Ends deal.deal_uuid (Saved deal) r w w'
    → ((e : AcceptError) × (r ≡ err (refused e))) × Clean deal.deal_uuid w w'
unfolding Ends
refused_twice deal d (ok row) w w' there (f, s, ds, new, u, p, k) =
    absurd (ground (arith, there, new))
refused_twice deal d (err (refused e)) w w' there clean = ((e, refl), clean)
refused_twice deal d (err panic) w w' there h = absurd h

module _ (c c' : ℕ → ℕ) (env : Env) where
  -- Of two online proposals with one uuid, where nothing of the deal is tagged so far and no
  -- statement of the two managers fails: the first is accepted and saved; the second, which had
  -- passed the checks before, is then refused, and its cleanup releases the funds and the space
  -- that stand under the uuid, which are those of the deal that was accepted and stays saved.
  pub second_proposal_releases :
      (first second row : ProviderDealState) (host : ℕ) (w : World)
      → second.deal_uuid ≡ first.deal_uuid
      → Fresh first.deal_uuid w
      → (process_online_deal_proposal (steady c c' env) first w).0 ≡ ok row
      → let w1 = (process_online_deal_proposal (steady c c' env) first w).1 in
        let (r, w2) = reserve_and_save (steady c c' env) second host w1 in
        ((e : AcceptError) × (r ≡ err (refused e)))
        × (w2.funds.tagged ≡ w.funds.tagged)
        × (w2.storage.tagged ≡ w.storage.tagged)
        × (w2.deals ≡ w.deals ++ row ∷ [])
  second_proposal_releases first second row host w same (f, s) accepted_first =
      elim (process_online_all_or_nothing c c' env first w (f, s)) [
        | inl (e, r, tagged, space, ds) ↦ absurd (ground (arith, r, accepted_first))
        | inr (row', r, saved) ↦
            let saved_row : Saved first row w w1 =
              subst (λ x. Saved first x w w1)
                (ok_inj row' row (process_online_deal_proposal (steady c c' env) first w).0 r
                  accepted_first)
                saved in
            let there = ap (λ u. by_id u w1.deals) same ∙ saved_by_id first row w w1 saved_row in
            let (e, (fs, ss, ds)) =
              refused_twice second row (reserve_and_save (steady c c' env) second host w1).0 w1
                (reserve_and_save (steady c c' env) second host w1).1 there
                (Ends-reserve_and_save c c' env second host w1) in
            let (sf, s_s, sd, new, u, p, k) = saved_row in
            (
              e,
              fs
                  ∙ ap (λ u. FundsRows.others u w1.funds.tagged) same
                  ∙ sf
                  ∙ FundsRows.others_self first.deal_uuid w.funds.tagged f,
              ss
                  ∙ ap (λ u. StorageRows.others u w1.storage.tagged) same
                  ∙ s_s
                  ∙ StorageRows.others_self first.deal_uuid w.storage.tagged s,
              ds ∙ sd,
            )
      ]
    where
      w1 : World
      w1 = (process_online_deal_proposal (steady c c' env) first w).1
