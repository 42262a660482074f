-- ===== src/Commp/Generate.antt =====
-- storagemarket/deal_commp.go: `generatePieceCommitment`, locally under a throttle or remotely.
use boost.Common.{
  ℕ, suc, ◌-◌, ◌==◌, ltb, Bool, true, false, not, Option, none, some, if◌then◌else◌, Action, pure,
  raise, modify, ◌>>=◌, ◌>>◌,
}
use boost.Deal.{Retry, retry_auto, retry_manual, retry_fatal}

-- What the error of a deal-making error is about.
pub data CommpCause : Type 0 where
  cancelled open_failed not_a_car stat_failed empty_file remote_failed shutdown copy_failed :
      CommpCause
  short_copy sum_failed pad_failed : CommpCause

pub record CommpError : Type 0 where
  pub cause : CommpCause
  pub retry : Retry

pub record PieceInfo : Type 0 where
  pub piece_cid : ℕ
  pub piece_size : ℕ

-- What the code calls, for one file: the file system, the packages that read a car header, pad a
-- reader and compute and pad a commitment, and the sealing service. `none` is an error.
-- `reserve_cancelled` is whether the context ends before there is room in the throttle.
pub record Env : Type 0 where
  pub remote_commp : Bool
  pub reserve_cancelled : Bool
  pub open_fails : Bool
  pub read_version_fails : Bool
  pub stat : Option ℕ
  pub padded_size : ℕ → ℕ
  pub compute_data_cid : ℕ → Option PieceInfo
  pub context_done : Bool
  pub copied : Option ℕ
  pub sum : Option PieceInfo
  pub pad_comm_p : ℕ → ℕ → ℕ → Option ℕ

-- The state is the number of slots of the throttle that are taken.
abbrev pub Commp : Type 0 → Type 0
Commp A = Action ℕ CommpError A

abbrev pub fail : {A : Type 0} → CommpCause → Retry → Commp A
fail cause retry = raise (record { cause = cause; retry = retry })

abbrev pub fail_if : Bool → CommpCause → Commp (Unit {0})
fail_if true cause = fail cause retry_fatal
fail_if false cause = pure tt

abbrev pub or_fatal : {A : Type 0} → Option A → CommpCause → Commp A
or_fatal (some a) cause = pure a
or_fatal none cause = fail cause retry_fatal

-- `defer`: the second runs when the first has returned, whatever it returns.
abbrev pub deferred : {A : Type 0} → Commp A → (ℕ → ℕ) → Commp A
deferred m after n = let (r, n') = m n in (r, after n')

module _ (env : Env) where
  unfoldable pub reserve : Commp (Unit {0})
  reserve = if env.reserve_cancelled then fail cancelled retry_auto else modify (λ n. suc n)

  unfoldable pub release : ℕ → ℕ
  release n = n - 1

  unfoldable pub computed : Option PieceInfo → Commp PieceInfo
  computed (some pi) = pure pi
  computed none =
      if env.context_done then fail shutdown retry_auto else fail remote_failed retry_manual

  unfoldable pub remote_comm_p : Commp PieceInfo
  remote_comm_p = do
    fail_if env.open_fails open_failed
    fail_if env.read_version_fails not_a_car
    size ← or_fatal env.stat stat_failed
    fail_if (size == 0) empty_file
    computed (env.compute_data_cid (env.padded_size size))

  -- The errors of this function are wrapped as fatal by its caller.
  unfoldable pub generate_commp_locally : Commp PieceInfo
  generate_commp_locally = do
    fail_if env.open_fails open_failed
    fail_if env.read_version_fails not_a_car
    written ← or_fatal env.copied copy_failed
    size ← or_fatal env.stat stat_failed
    fail_if (not (written == size)) short_copy
    fail_if (size == 0) empty_file
    or_fatal env.sum sum_failed

  unfoldable pub pad : ℕ → PieceInfo → Commp PieceInfo
  pad piece_size pi =
      if ltb pi.piece_size piece_size
      then (do
        cid ← or_fatal (env.pad_comm_p pi.piece_cid pi.piece_size piece_size) pad_failed
        pure (record pi { piece_cid = cid }))
      else pure pi

  unfoldable pub generate_locally : ℕ → Commp PieceInfo
  generate_locally piece_size = do
    reserve
    deferred (do pi ← generate_commp_locally; pad piece_size pi) release

  unfoldable pub generate_piece_commitment : ℕ → Commp PieceInfo
  generate_piece_commitment piece_size =
      if env.remote_commp
      then (do pi ← remote_comm_p; pad piece_size pi)
      else generate_locally piece_size
