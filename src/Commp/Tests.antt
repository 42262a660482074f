-- ===== src/Commp/Tests.antt =====
-- Instances: a file of 100 bytes, computed locally for a piece of 2048 bytes.
use boost.Common.{◌≡◌, ◌⊎◌, none, some, ok, err, false, ◌+◌}
use boost.Commp.Generate.{CommpError, PieceInfo, Env, generate_piece_commitment}
use boost.Commp.Outcome.{retry_of, PaddedFrom, generate_piece_commitment_lem}

abbrev local_env : Env
local_env = record {
  remote_commp = false;
  reserve_cancelled = false;
  open_fails = false;
  read_version_fails = false;
  stat = some 100;
  padded_size = λ n. n + 27;
  compute_data_cid = λ n. none;
  context_done = false;
  copied = some 100;
  sum = some (record { piece_cid = 7; piece_size = 128 });
  pad_comm_p = λ cid from to. some (cid + to);
}

generate_piece_commitment_lem_example :
    let (r, n') = generate_piece_commitment local_env 2048 3 in
    (n' ≡ 3)
    × (((e : CommpError) × (r ≡ err e) × (e.retry ≡ retry_of e.cause))
        ⊎ ((pi : PieceInfo) × (r ≡ ok pi)
            × ((raw : PieceInfo) × (some (record { piece_cid = 7; piece_size = 128 }) ≡ some raw)
                × PaddedFrom local_env 2048 raw pi)))
generate_piece_commitment_lem_example = generate_piece_commitment_lem local_env 2048 3
