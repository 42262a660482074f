-- ===== src/Car/Walk.antt =====
-- The walk over the DAG: what is relied on of it, and what its calls give.
use boost.Common.{
  ℕ, ◌+◌, ◌≡◌, Bool-cases, Option-cases, inl, inr, List, [], ◌∷◌, some, leb, ◌==◌, u64, lookup,
  insert, lookup-insert, ok, err, pure, arith, sym, ap, ◌∙◌, subst, ◌>>◌, some_inj, Result,
}
use boost.Car.Writer.{
  BlockInfo, BlockInfoCache, WriteError, block_error, Stream, Writing, Source, send_block,
  fetch_block, next_cid,
}
use boost.Car.Layout.{Relies, info_at, send_block_lem}

-- The calls for some cids, one after the other, until one fails.
unfoldable pub each : (ℕ → Writing (List ℕ)) → List ℕ → Writing (Unit {0})
each g [] = pure tt
each g (c ∷ cs) = g c >> each g cs

-- What a call gave: a failure, or the links of the cid, and a state where P holds.
abbrev pub Gives : (Stream → Type 0) → List ℕ → Result WriteError (List ℕ) × Stream → Type 0
Gives P links (ok ls, s) = (ls ≡ links) × P s
Gives P links (err e, s) = Unit

-- What is relied on of `merkledag.Walk` with a set of visited cids: where the calls give the links
-- of the DAG, it makes them in an order that depends on the links alone, once for each cid, and
-- ends with the first that fails.
pub record Walks (walk : (ℕ → Writing (List ℕ)) → ℕ → Writing (Unit {0})) (links : ℕ → List ℕ)
    (root : ℕ) (order : List ℕ) : Type 1 where
  pub visits :
      (g : ℕ → Writing (List ℕ)) (P : Stream → Type 0)
      → ((c : ℕ) (s : Stream) → P s → Gives P (links c) (g c s))
      → (s : Stream) → P s
      → walk g root s ≡ each g order s

-- Every entry of the cache has the links of its cid.
abbrev pub Linked : (ℕ → List ℕ) → BlockInfoCache → Type 0
Linked links m = (c : ℕ) (bi : BlockInfo) → lookup c m ≡ some bi → bi.links ≡ links c

module _ (src : Source) (r : Relies src) (links : ℕ → List ℕ)
    (node_links : (c : ℕ) (nd : List ℕ × List ℕ) → src.get_block c ≡ some nd → nd.0 ≡ links c)
    (w : ℕ) where
  Linked-insert :
      (c : ℕ) (bi : BlockInfo) (m : BlockInfoCache)
      → bi.links ≡ links c
      → Linked links m
      → Linked links (insert c bi m)
  Linked-insert c bi m right h d di e = elim (Bool-cases (c == d)) [
    | inl same ↦
        let is : bi ≡ di = some_inj (ground (arith, e, lookup-insert c d bi m, same)) in
        let cd : c ≡ d = ground (arith, same) in
        sym (ap (λ (b : BlockInfo). b.links) is) ∙ right ∙ ap links cd
    | inr other ↦ h d di (ground (arith, e, lookup-insert c d bi m, other))
  ]

  fetch_block-Gives :
      (c : ℕ) (s : Stream)
      → Linked links s.block_infos
      → Gives (λ t. Linked links t.block_infos) (links c) (fetch_block src w c s)
  unfolding fetch_block
  fetch_block-Gives c s h = elim (Option-cases (src.get_block c)) [
    | inl e ↦
        let failed : (err block_error, s) ≡ fetch_block src w c s = ground (arith, e) in
        subst (Gives (λ t. Linked links t.block_infos) (links c)) failed tt
    | inr (nd, e) ↦
        let right : nd.0 ≡ links c = node_links c nd e in
        let sent : send_block src w c nd s ≡ fetch_block src w c s = ground (arith, e) in
        subst (Gives (λ t. Linked links t.block_infos) (links c))
          (sym (send_block_lem src r w c nd s) ∙ sent)
          (right, Linked-insert c (info_at src s.offset (c, nd)) s.block_infos right h)
  ]

  pub next_cid-Gives :
      (c : ℕ) (s : Stream)
      → Linked links s.block_infos
      → Gives (λ t. Linked links t.block_infos) (links c) (next_cid src w c s)
  unfolding next_cid
  next_cid-Gives c s h = elim (Option-cases (lookup c s.block_infos)) [
    | inl e ↦
        let fetched : fetch_block src w c s ≡ next_cid src w c s = ground (arith, e) in
        subst (Gives (λ t. Linked links t.block_infos) (links c)) fetched (fetch_block-Gives c s h)
    | inr (bi, e) ↦ elim (Bool-cases (leb (u64 (bi.offset + bi.size)) w)) [
      | inl past ↦
          subst (Gives (λ t. Linked links t.block_infos) (links c))
            (let skipped : (ok bi.links, record s { offset = u64 (bi.offset + bi.size) })
                  ≡ next_cid src w c s =
                ground (arith, e, past) in
              skipped)
            (h c bi e, h)
      | inr n ↦
          let fetched : fetch_block src w c s ≡ next_cid src w c s = ground (arith, e, n) in
          subst (Gives (λ t. Linked links t.block_infos) (links c)) fetched
            (fetch_block-Gives c s h)
    ]
  ]
