-- ===== src/Idempotency/Tests.antt =====
-- A creation, its replay and a conflict, and the theorems at concrete inputs.
use tjc_be_rag_core_api.Base.{ℕ, ◌+◌, String, true, some, [], ◌∷◌, ◌≡◌, refl, if◌then◌else◌, str_eq}
use tjc_be_rag_core_api.Errors.{answer, throws, conflict, idempotency_conflict}
use tjc_be_rag_core_api.Idempotency.{
  experiment_create, Reservation, Database, created, Call, validate_key, find_reservation,
  resolve_existing, run_once_per_key,
}
use tjc_be_rag_core_api.Idempotency.Replays.{run_once_per_key-replays}

-- The world counts the experiments.
abbrev post : Call ℕ String
post = record {
  scope = experiment_create;
  header = some "k1";
  fingerprint = "f1";
  is_uuid = λ k. true;
  prepare = answer tt;
  create = λ n. created (n + 1) "e1" "202 e1";
  rebuild_response = λ id. answer id;
  before = λ db. db;
  during = λ db. db;
}

abbrev other_post : Call ℕ String
other_post = record post { fingerprint = "f2" }

abbrev empty : Database ℕ
empty = record { reservations = []; world = 0 }

abbrev reserved : Reservation
reserved = record { scope = experiment_create; key = "k1"; fingerprint = "f1"; operation_id = "e1" }

abbrev after_post : Database ℕ
after_post = record { reservations = reserved ∷ []; world = 1 }

-- A repetition answers from the reservation; another request under the key is a conflict.
replay_tests :
    (run_once_per_key post empty ≡ (after_post, answer "202 e1"))
    × (run_once_per_key post after_post ≡ (after_post, answer "e1"))
    × (run_once_per_key other_post after_post
        ≡ (after_post, throws (conflict idempotency_conflict)))
unfolding run_once_per_key validate_key find_reservation resolve_existing
replay_tests = (refl, refl, refl)

run_once_per_key-replays_example :
    (r : Reservation) × (find_reservation experiment_create "k1" after_post ≡ some r)
    × (r.fingerprint ≡ "f1")
    × (run_once_per_key other_post after_post ≡ (
      after_post,
      if str_eq "f1" "f2" then answer r.operation_id else throws (conflict idempotency_conflict),
    ))
unfolding run_once_per_key validate_key find_reservation
run_once_per_key-replays_example =
    run_once_per_key-replays post other_post "k1" empty after_post "202 e1" refl refl refl refl
