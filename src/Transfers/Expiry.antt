-- ===== src/Transfers/Expiry.antt =====
-- The samples of a transfer that is over go away: storagemarket/transfers.go.
use boost.Common.{
  ℕ, zero, suc, ◌+◌, ◌-◌, ◌≤◌, ◌<◌, ◌==◌, ◌≡◌, inl, inr, refl, Bool-cases, ltb, false, List, [],
  ◌∷◌, ◌++◌, length, length-append, arith, All, subst, drop,
}
use boost.Transfers.Sample.{TransferPoint, last_bytes, Idle, index_panic, deleted, kept, add_idle}

-- The samples of a deal that is not active, at these times.
unfoldable pub idle_after : List ℕ → List TransferPoint → Idle
idle_after [] points = kept points
idle_after (now ∷ nows) points = elim (add_idle now points) [
  | index_panic ↦ index_panic
  | deleted ↦ deleted
  | kept points' ↦ idle_after nows points'
]

abbrev Same : ℕ → TransferPoint → Type 0
Same b p = p.bytes ≡ b

last_bytes_lem :
    (b j : ℕ) (p : TransferPoint) (points : List TransferPoint)
    → All (Same b) (drop j (p ∷ points))
    → j ≤ length points
    → last_bytes p points ≡ b
unfolding last_bytes
last_bytes_lem b Prim.Native.Nat.zero p [] (h, t) low = h
last_bytes_lem b (suc j) p [] h low = absurd (omega arith)
last_bytes_lem b Prim.Native.Nat.zero p (q ∷ points) (h, t) low =
    last_bytes_lem b 0 q points t (omega arith)
last_bytes_lem b (suc j) p (q ∷ points) h low = last_bytes_lem b j q points h (omega arith)

trail_lem :
    (p : TransferPoint) (points : List TransferPoint)
    → All (Same (last_bytes p points)) (drop (length points) (p ∷ points))
unfolding last_bytes
trail_lem p [] = (refl, tt)
trail_lem p (q ∷ points) = trail_lem q points

trail-append :
    (b j : ℕ) (points : List TransferPoint) (q : TransferPoint)
    → All (Same b) (drop j points)
    → j ≤ length points
    → q.bytes ≡ b
    → All (Same b) (drop j (points ++ q ∷ []))
trail-append b Prim.Native.Nat.zero [] q h low e = (e, tt)
trail-append b Prim.Native.Nat.zero (p ∷ points) q (a, h) low e =
    (a, trail-append b 0 points q h (omega arith) e)
trail-append b (suc j) [] q h low e = absurd (omega arith)
trail-append b (suc j) (p ∷ points) q h low e = trail-append b j points q h (omega arith) e

-- A first point with other bytes than the last comes before those that have the same.
leads :
    (b j : ℕ) (p : TransferPoint) (points : List TransferPoint)
    → last_bytes p points ≡ b
    → (p.bytes == last_bytes p points) ≡ false
    → All (Same b) (drop j (p ∷ points))
    → (i : ℕ) × (j ≡ suc i)
leads b Prim.Native.Nat.zero p points same other (h, t) = absurd (ground (arith, same, other, h))
leads b (suc j) p points same other h = (j, refl)

-- From the j-th on, the points have the same bytes.
expires :
    (nows : List ℕ) (b j : ℕ) (points : List TransferPoint)
    → All (Same b) (drop j points)
    → j < length points
    → length points ≤ 20
    → j + (20 - length points) < length nows
    → idle_after nows points ≡ deleted
unfolding idle_after add_idle
expires [] b j points h low room soon = absurd (omega arith)
expires (now ∷ nows) b j [] h low room soon = absurd (omega arith)
expires (now ∷ nows) b j (p ∷ points) h low room soon =
    let l = last_bytes p points in
    let q : TransferPoint = record { at = now; bytes = l } in
    let same = last_bytes_lem b j p points h (omega arith) in
    let longer = length-append points (q ∷ []) in
    let trail = trail-append b j (p ∷ points) q h (omega arith) same in
    elim (Bool-cases (ltb 20 (suc (length (points ++ q ∷ []))))) [
      | inl full ↦ elim (Bool-cases (p.bytes == l)) [
        | inl e ↦ ground (arith, full, e)
        | inr e ↦
            let (i, at_i) = leads b j p points same e h in
            let shorter : All (Same b) (drop i (points ++ q ∷ [])) =
              subst (λ k. All (Same b) (drop k (p ∷ points ++ q ∷ []))) at_i trail in
            ground (
              arith,
              full,
              e,
              expires nows b i (points ++ q ∷ []) shorter (omega (arith, longer, at_i))
                  (omega (arith, longer)) (omega (arith, longer, at_i)),
            )
      ]
      | inr fits ↦
          let small : suc (length (points ++ q ∷ [])) ≤ 20 = ground (arith, fits) in
          ground (
            arith,
            fits,
            expires nows b j (p ∷ points ++ q ∷ []) trail (omega (arith, longer)) small
                (omega (arith, longer, small)),
          )
    ]

-- A deal that is no longer active, with one to twenty samples, has no samples left after twenty
-- further ones, whatever was sampled before; adding these never runs into an index panic.
pub idle_after-deleted :
    (nows : List ℕ) (p : TransferPoint) (points : List TransferPoint)
    → length (p ∷ points) ≤ 20
    → 20 ≤ length nows
    → idle_after nows (p ∷ points) ≡ deleted
idle_after-deleted nows p points room enough =
    expires nows (last_bytes p points) (length points) (p ∷ points) (trail_lem p points)
      (omega arith) room (omega arith)
