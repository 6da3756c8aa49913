-- ===== src/Idempotency/Unique.antt =====
-- The unique index of `idempotency_records` under `run` of
-- app/src/common/idempotency/idempotency.service.ts.
use tjc_be_rag_core_api.Base.{ℕ, zero, suc, ◌≤◌, String, tally}
use tjc_be_rag_core_api.Idempotency.{
  Scope, test_run_create, experiment_create, target_retry, retrieval_comparison_create, Reservation,
  Database, is_reserved_by, Call,
}

abbrev of_number : ℕ → Scope
of_number zero = test_run_create
of_number (suc zero) = experiment_create
of_number (suc (suc zero)) = target_retry
of_number _ = retrieval_comparison_create

-- Each scope and key has at most one reservation.
pub record IsUnique {W : Type 0} (db : Database W) : Type 0 where
  pub once : (scope : Scope) (key : String) → tally (is_reserved_by scope key) db.reservations ≤ 1

module _ {W T : Type 0} (c : Call W T) (key : String) where
  abbrev new_row : String → Reservation
  new_row operation_id = record {
    scope = c.scope;
    key = key;
    fingerprint = c.fingerprint;
    operation_id = operation_id;
  }
