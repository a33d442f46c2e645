-- ===== src/Upload/Tests.antt =====
-- Uploads of src/audit/uploader.ts with given answers of the service.
use coreax.Prelude.{
  ℕ, true, false, some, List, [], ◌∷◌, ◌++◌, num_eq, ◌≡◌, refl, arith, if◌then◌else◌,
}
use coreax.Upload.Retryable.{is_retryable_upload_error}
use coreax.Upload.{
  compute_delta, UploaderConfig, Store, Attempt, taken, errored, ok, raised, left_behind, accepted,
  paused, failed, upload_attempts, upload_file, upload_delta,
}
use coreax.Upload.Synced.{IsSynced}
use coreax.Upload.Growing.{Write, written, grow, grow-IsSynced}

uploads_compute : Unit {0}
unfolding upload_delta upload_file upload_attempts failed paused left_behind accepted compute_delta
    is_retryable_upload_error
uploads_compute = tt

abbrev twice : UploaderConfig
twice = record { max_upload_attempts = 2; retry_base_delay_ms = 750 }

abbrev bytes : List ℕ
bytes = 4 ∷ 5 ∷ 6 ∷ []

abbrev begun : Store ℕ
begun = record {
  file = some bytes;
  offset = 1;
  acknowledged = 4 ∷ [];
  unacknowledged = [];
  sleeps = [];
}

abbrev late : ℕ → Attempt
late attempt = if num_eq attempt 1 then errored true "Gateway TimeOut" else taken

abbrev refused : ℕ → Attempt
refused attempt = errored false "status 403"

uploads :
    ((upload_delta twice late begun).0 ≡ ok)
    × ((upload_delta twice late begun).1.acknowledged ≡ bytes)
    × ((upload_delta twice late begun).1.unacknowledged ≡ (1, 5 ∷ 6 ∷ []) ∷ [])
    × ((upload_delta twice late begun).1.sleeps ≡ 750 ∷ [])
    × ((upload_delta twice refused begun).0 ≡ raised "status 403")
    × (compute_delta 3 9 ≡ some (record { start = 0; delta_bytes = 3 }))
unfolding uploads_compute
uploads = (refl, refl, refl, refl, refl, refl)

begun-IsSynced : IsSynced begun bytes
begun-IsSynced = record { on_disk = refl; within = omega arith; sent = refl; pieces = tt }

abbrev writes : List (Write ℕ)
writes = (7 ∷ [], refused) ∷ (8 ∷ [], late) ∷ []

grow-IsSynced_example : IsSynced (grow twice writes bytes begun) (bytes ++ written twice writes)
grow-IsSynced_example = grow-IsSynced twice writes bytes begun (omega arith) begun-IsSynced
