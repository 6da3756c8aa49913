-- ===== src/Idempotency.antt =====
-- app/src/common/idempotency/idempotency.service.ts: one creation for each scope and key.
pub mod Replays
pub mod Unique
mod Tests
use tjc_be_rag_core_api.Base.{
  String, Bool, true, false, ◌&&◌, Option, none, some, List, [], ◌∷◌, if◌then◌else◌, str_eq, any,
  find, ◌==◌, ℕ,
}
use tjc_be_rag_core_api.Errors.{
  AppException, Response, answer, throws, idempotency_key_required, invalid_idempotency_key,
  idempotency_conflict, internal_error, bad_request, conflict, internal,
}

-- `IdempotencyScope`
pub data Scope : Type 0 where
  test_run_create experiment_create target_retry retrieval_comparison_create : Scope

abbrev pub scope_number : Scope → ℕ
scope_number test_run_create = 0
scope_number experiment_create = 1
scope_number target_retry = 2
scope_number retrieval_comparison_create = 3

-- A row of `idempotency_records`; the pair of scope and key is unique.
pub record Reservation : Type 0 where
  pub scope : Scope
  pub key : String
  pub fingerprint : String
  pub operation_id : String

abbrev pub is_reserved_by : Scope → String → Reservation → Bool
is_reserved_by scope key r = scope_number r.scope == scope_number scope && str_eq r.key key

-- The database: the reservations, and `W` for every other table.
pub record Database (W : Type 0) : Type 0 where
  pub reservations : List Reservation
  pub world : W

-- How a creation ends in its transaction: with the resource, with a violation of a unique index of
-- some other table, or with an exception.
pub data Creation (W T : Type 0) : Type 0 where
  created : W → String → T → Creation W T
  violates : Creation W T
  fails : AppException → Creation W T

-- `IdempotencyRunParams`. `fingerprint` is the hash of scope and input; `is_uuid` is the check of the
-- validator; `before` and `during` are what others commit until the transaction begins and until it
-- writes its reservation.
pub record Call (W T : Type 0) : Type 0 where
  pub scope : Scope
  pub header : Option String
  pub fingerprint : String
  pub is_uuid : String → Bool
  pub prepare : Response Unit
  pub create : W → Creation W T
  pub rebuild_response : String → Response T
  pub before : Database W → Database W
  pub during : Database W → Database W

-- `validateKey`
unfoldable pub validate_key : (String → Bool) → Option String → Response String
validate_key is_uuid none = throws (bad_request idempotency_key_required)
validate_key is_uuid (some key) =
    if str_eq key ""
    then throws (bad_request idempotency_key_required)
    else if is_uuid key
    then answer key
    else throws (bad_request invalid_idempotency_key)

unfoldable pub find_reservation : {W : Type 0} → Scope → String → Database W → Option Reservation
find_reservation scope key db = find (is_reserved_by scope key) db.reservations

module _ {W T : Type 0} where
  -- `resolveExisting`
  unfoldable pub resolve_existing : Call W T → Reservation → Response T
  resolve_existing c r =
      if str_eq r.fingerprint c.fingerprint
      then c.rebuild_response r.operation_id
      else throws (conflict idempotency_conflict)

  -- What a unique violation ends in: the winner's response, or the error itself.
  abbrev pub winner : Call W T → Option Reservation → Response T → Response T
  winner c none error = error
  winner c (some r) error = resolve_existing c r

  abbrev pub reserve : Call W T → String → String → W → List Reservation → Database W
  reserve c key operation_id w reservations = record {
    reservations =
        record {
          scope = c.scope;
          key = key;
          fingerprint = c.fingerprint;
          operation_id = operation_id;
        }
        ∷ reservations;
    world = w;
  }

  -- The write of the reservation, which violates its index if another call has written one.
  abbrev pub commit :
      Call W T → String → W → String → T → Option Reservation → Database W → Database W × Response T
  commit c key w operation_id response none db =
      (reserve c key operation_id w db.reservations, answer response)
  commit c key w operation_id response (some r) db = (db, resolve_existing c r)

  abbrev pub create_new : Call W T → String → Creation W T → Database W → Database W × Response T
  create_new c key (created w operation_id response) db =
      commit c key w operation_id response (find_reservation c.scope key db) db
  create_new c key violates db =
      (db, winner c (find_reservation c.scope key db) (throws (internal internal_error)))
  create_new c key (fails e) db = (db, throws e)

  -- The transaction.
  abbrev pub recheck : Call W T → String → Option Reservation → Database W → Database W × Response T
  recheck c key (some r) db = (db, resolve_existing c r)
  recheck c key none db = create_new c key (c.create (c.during db).world) (c.during db)

  abbrev pub prepared : Call W T → String → Response Unit → Database W → Database W × Response T
  prepared c key (throws e) db = (db, throws e)
  prepared c key (answer done) db = recheck c key (find_reservation c.scope key db) db

  abbrev pub look_up : Call W T → String → Option Reservation → Database W → Database W × Response T
  look_up c key (some r) db = (db, resolve_existing c r)
  look_up c key none db = prepared c key c.prepare (c.before db)

  abbrev pub with_key : Call W T → Response String → Database W → Database W × Response T
  with_key c (throws e) db = (db, throws e)
  with_key c (answer key) db = look_up c key (find_reservation c.scope key db) db

  -- `run`
  unfoldable pub run_once_per_key : Call W T → Database W → Database W × Response T
  run_once_per_key c db = with_key c (validate_key c.is_uuid c.header) db
