-- ===== src/Commp/Outcome.antt =====
-- What the computation of a piece commitment ends with.
use boost.Common.{
  ℕ, suc, ◌≡◌, ◌⊎◌, inl, inr, refl, Bool, Bool-cases, ltb, true, false, Option, Option-cases, none,
  some, if◌then◌else◌, Result, ok, err, arith, ◌==◌, raise, modify, ◌>>=◌, ◌∙◌,
}
use boost.Deal.{Retry, retry_auto, retry_manual, retry_fatal}
use boost.Commp.Generate.{
  CommpError, CommpCause, cancelled, shutdown, remote_failed, PieceInfo, Env, fail, deferred,
  reserve, release, computed, remote_comm_p, generate_commp_locally, pad, generate_locally,
  generate_piece_commitment,
}

-- The retry of an error, by its cause: the deal is retried by itself where the provider shut
-- down, and by the user where the sealing service failed; any other error is fatal.
abbrev pub retry_of : CommpCause → Retry
retry_of cancelled = retry_auto
retry_of shutdown = retry_auto
retry_of remote_failed = retry_manual
retry_of _ = retry_fatal

-- The commitment before it is padded.
abbrev remote_raw : Env → Option PieceInfo
remote_raw env = elim env.stat [
  | none ↦ none
  | some size ↦ env.compute_data_cid (env.padded_size size)
]

abbrev pub raw_info : Env → Option PieceInfo
raw_info env = if env.remote_commp then remote_raw env else env.sum

-- An answer is of the raw commitment, padded where that is smaller than the piece.
abbrev pub PaddedFrom : Env → ℕ → PieceInfo → PieceInfo → Type 0
PaddedFrom env piece_size raw pi =
    (pi.piece_size ≡ raw.piece_size)
    × ((if ltb raw.piece_size piece_size
          then env.pad_comm_p raw.piece_cid raw.piece_size piece_size
          else some raw.piece_cid)
        ≡ some pi.piece_cid)

-- What a part of the computation may end with.
abbrev Ends : {A : Type 0} → (A → Type 0) → Result CommpError A → Type 0
Ends P (ok a) = P a
Ends P (err e) = e.retry ≡ retry_of e.cause

Ends-map :
    {A : Type 0} {P Q : A → Type 0} (r : Result CommpError A)
    → ((a : A) → P a → Q a)
    → Ends P r
    → Ends Q r
Ends-map (ok a) f h = f a h
Ends-map (err e) f h = h

module _ (env : Env) where
  remote_lem :
      (n : ℕ)
      → ((remote_comm_p env n).1 ≡ n)
        × Ends (λ pi. remote_raw env ≡ some pi) (remote_comm_p env n).0
  unfolding remote_comm_p computed
  remote_lem n = elim (Bool-cases env.open_fails) [
    | inl a ↦ rw a (refl, refl)
    | inr a ↦ elim (Bool-cases env.read_version_fails) [
      | inl b ↦ rw (a, b) (refl, refl)
      | inr b ↦ elim (Option-cases env.stat) [
        | inl c ↦ rw (a, b, c) (refl, refl)
        | inr (size, c) ↦ elim (Bool-cases (size == 0)) [
          | inl d ↦ rw (a, b, c, d) (refl, refl)
          | inr d ↦ elim (Option-cases (env.compute_data_cid (env.padded_size size))) [
            | inr (pi, f) ↦ rw (a, b, c, d, f) (refl, refl)
            | inl f ↦ elim (Bool-cases env.context_done) [
              | inl g ↦ rw (a, b, c, d, f, g) (refl, refl)
              | inr g ↦ rw (a, b, c, d, f, g) (refl, refl)
            ]
          ]
        ]
      ]
    ]
  ]

  local_lem :
      (n : ℕ)
      → ((generate_commp_locally env n).1 ≡ n)
        × Ends (λ pi. env.sum ≡ some pi) (generate_commp_locally env n).0
  unfolding generate_commp_locally
  local_lem n = elim (Bool-cases env.open_fails) [
    | inl a ↦ rw a (refl, refl)
    | inr a ↦ elim (Bool-cases env.read_version_fails) [
      | inl b ↦ rw (a, b) (refl, refl)
      | inr b ↦ elim (Option-cases env.copied) [
        | inl c ↦ rw (a, b, c) (refl, refl)
        | inr (written, c) ↦ elim (Option-cases env.stat) [
          | inl d ↦ rw (a, b, c, d) (refl, refl)
          | inr (size, d) ↦ elim (Bool-cases (written == size)) [
            | inr f ↦ rw (a, b, c, d, f) (refl, refl)
            | inl f ↦ elim (Bool-cases (size == 0)) [
              | inl g ↦ rw (a, b, c, d, f, g) (refl, refl)
              | inr g ↦ elim (Option-cases env.sum) [
                | inl h ↦ rw (a, b, c, d, f, g, h) (refl, refl)
                | inr (pi, h) ↦ rw (a, b, c, d, f, g, h) (refl, refl)
              ]
            ]
          ]
        ]
      ]
    ]
  ]

  pad_lem :
      (piece_size : ℕ) (raw : PieceInfo) (n : ℕ)
      → ((pad env piece_size raw n).1 ≡ n)
        × Ends (PaddedFrom env piece_size raw) (pad env piece_size raw n).0
  unfolding pad
  pad_lem piece_size raw n = elim (Bool-cases (ltb raw.piece_size piece_size)) [
    | inr a ↦ rw a (refl, (refl, rw a refl))
    | inl a ↦ elim (Option-cases (env.pad_comm_p raw.piece_cid raw.piece_size piece_size)) [
      | inl b ↦ rw (a, b) (refl, refl)
      | inr (cid, b) ↦ rw (a, b) (refl, (refl, rw (a, b) refl))
    ]
  ]

  -- A computation and the padding after it.
  padded_lem :
      (piece_size : ℕ) (o : Option PieceInfo) (r : Result CommpError PieceInfo) (n v : ℕ)
      → v ≡ n
      → Ends (λ pi. o ≡ some pi) r
      → let out : Result CommpError PieceInfo × ℕ = elim r [
        | ok pi ↦ pad env piece_size pi v
        | err e ↦ raise e v
      ] in
        (out.1 ≡ n)
        × Ends (λ pi. (raw : PieceInfo) × (o ≡ some raw) × PaddedFrom env piece_size raw pi) out.0
  padded_lem piece_size o (err e) n v same h = (same, h)
  padded_lem piece_size o (ok raw) n v same h =
      let (kept_n, ends) = pad_lem piece_size raw v in
      (kept_n ∙ same, Ends-map (pad env piece_size raw v).0 (λ pi p. (raw, h, p)) ends)

  told :
      (P : PieceInfo → Type 0) (r : Result CommpError PieceInfo)
      → Ends P r
      → ((e : CommpError) × (r ≡ err e) × (e.retry ≡ retry_of e.cause))
        ⊎ ((pi : PieceInfo) × (r ≡ ok pi) × P pi)
  told P (ok pi) h = inr (pi, refl, h)
  told P (err e) h = inl (e, refl, h)

  -- Where a slot is taken, it is given back.
  locally_at :
      (stopped : Bool) (piece_size n : ℕ)
      → let (r, n') =
          ((if stopped then fail cancelled retry_auto else modify (λ k. suc k)) >>= λ _.
          deferred (generate_commp_locally env >>= pad env piece_size) (release env))
            n in
        (n' ≡ n)
        × Ends (λ pi. (raw : PieceInfo) × (env.sum ≡ some raw) × PaddedFrom env piece_size raw pi) r
  unfolding release
  locally_at true piece_size n = (refl, refl)
  locally_at false piece_size n =
      let (same, ends) = local_lem (suc n) in
      let (kept_n, padded) =
        padded_lem piece_size env.sum (generate_commp_locally env (suc n)).0 (suc n)
          (generate_commp_locally env (suc n)).1 same ends in
      (omega (arith, kept_n), padded)

  locally_lem :
      (piece_size n : ℕ)
      → let (r, n') = generate_locally env piece_size n in
        (n' ≡ n)
        × Ends (λ pi. (raw : PieceInfo) × (env.sum ≡ some raw) × PaddedFrom env piece_size raw pi) r
  unfolding generate_locally reserve
  locally_lem piece_size n = locally_at env.reserve_cancelled piece_size n

  commitment_at :
      (remote : Bool) (piece_size n : ℕ)
      → let (r, n') =
          (if remote
              then remote_comm_p env >>= pad env piece_size
              else generate_locally env piece_size)
            n in
        let o = if remote then remote_raw env else env.sum in
        (n' ≡ n)
        × Ends (λ pi. (raw : PieceInfo) × (o ≡ some raw) × PaddedFrom env piece_size raw pi) r
  commitment_at true piece_size n =
      let (same, ends) = remote_lem n in
      padded_lem piece_size (remote_raw env) (remote_comm_p env n).0 n (remote_comm_p env n).1 same
        ends
  commitment_at false piece_size n = locally_lem piece_size n

  -- The computation of a piece commitment leaves as many slots of the throttle taken as before,
  -- on every branch. It ends with an error whose retry is that of its cause, automatic for a shut
  -- down, manual for the sealing service, else fatal; or it gives the commitment of the file,
  -- padded to the size of the piece where it is smaller, with the size that it had before.
  pub generate_piece_commitment_lem :
      (piece_size n : ℕ)
      → let (r, n') = generate_piece_commitment env piece_size n in
        (n' ≡ n)
        × (((e : CommpError) × (r ≡ err e) × (e.retry ≡ retry_of e.cause))
            ⊎ ((pi : PieceInfo) × (r ≡ ok pi)
                × ((raw : PieceInfo) × (raw_info env ≡ some raw)
                    × PaddedFrom env piece_size raw pi)))
  unfolding generate_piece_commitment
  generate_piece_commitment_lem piece_size n =
      let (same, ends) = commitment_at env.remote_commp piece_size n in
      (
        same,
        told
            (λ pi. (raw : PieceInfo) × (raw_info env ≡ some raw) × PaddedFrom env piece_size raw pi)
            (generate_piece_commitment env piece_size n).0 ends,
      )
