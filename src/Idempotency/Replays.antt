-- ===== src/Idempotency/Replays.antt =====
-- `run` of app/src/common/idempotency/idempotency.service.ts: one reservation for each scope and key,
-- and what a call finds once another has been answered.
use tjc_be_rag_core_api.Base.{
  String, true, Option, none, some, List, arith, ◌≡◌, refl, subst, inl, inr, Bool-cases,
  if◌then◌else◌, str_eq, str_eq_refl, eq_iff, sym, ap,
}
use tjc_be_rag_core_api.Errors.{
  Response, answer, throws, conflict, internal, internal_error, idempotency_conflict,
}
use tjc_be_rag_core_api.Idempotency.{
  Scope, Reservation, Database, Creation, created, violates, fails, Call, validate_key,
  find_reservation, resolve_existing, winner, reserve, commit, create_new, recheck, prepared,
  look_up, run_once_per_key,
}

-- The reservation of a key in a database, made under this fingerprint.
pub record Reserved {W : Type 0} (scope : Scope) (key fingerprint : String) (db : Database W)
    : Type 0 where
  pub row : Reservation
  pub found : find_reservation scope key db ≡ some row
  pub same : str_eq row.fingerprint fingerprint ≡ true

module _ {W T : Type 0} (c : Call W T) (key : String) where
  existing-Reserved :
      (db db' : Database W) (r : Reservation) (t : T)
      → find_reservation c.scope key db ≡ some r
      → ◌≡◌ {A = Database W × Response T} (db, resolve_existing c r) (db', answer t)
      → Reserved c.scope key c.fingerprint db'
  unfolding resolve_existing
  existing-Reserved db db' r t found e = elim (Bool-cases (str_eq r.fingerprint c.fingerprint)) [
    | inr other ↦ absurd (ground (arith, other))
    | inl same ↦
        let left : db ≡ db' = cc in
        subst (Reserved c.scope key c.fingerprint) left
          (record { row = r; found = found; same = same })
  ]

  reserve-Reserved :
      (w : W) (operation_id : String) (rs : List Reservation)
      → Reserved c.scope key c.fingerprint (reserve c key operation_id w rs)
  unfolding find_reservation
  reserve-Reserved w operation_id rs = record {
    row = record {
      scope = c.scope;
      key = key;
      fingerprint = c.fingerprint;
      operation_id = operation_id;
    };
    found = ground (arith, str_eq_refl key);
    same = str_eq_refl c.fingerprint;
  }

  create_new-Reserved :
      (k : Creation W T) (db db' : Database W) (t : T)
      → create_new c key k db ≡ (db', answer t)
      → Reserved c.scope key c.fingerprint db'
  create_new-Reserved (fails x) db db' t e = absurd (ground arith)
  create_new-Reserved violates db db' t e = go (find_reservation c.scope key db) refl e
    where
      go :
          (o : Option Reservation)
          → find_reservation c.scope key db ≡ o
          → ◌≡◌ {A = Database W × Response T}
              (db, winner c o (throws (internal internal_error)))
              (db', answer t)
          → Reserved c.scope key c.fingerprint db'
      go none found v = absurd (ground arith)
      go (some r) found v = existing-Reserved db db' r t found v
  create_new-Reserved (created w operation_id response) db db' t e =
      go (find_reservation c.scope key db) refl e
    where
      go :
          (o : Option Reservation)
          → find_reservation c.scope key db ≡ o
          → commit c key w operation_id response o db ≡ (db', answer t)
          → Reserved c.scope key c.fingerprint db'
      go none found v =
          let left : reserve c key operation_id w db.reservations ≡ db' = cc in
          subst (Reserved c.scope key c.fingerprint) left
            (reserve-Reserved w operation_id db.reservations)
      go (some r) found v = existing-Reserved db db' r t found v

  recheck-Reserved :
      (db db' : Database W) (t : T) (o : Option Reservation)
      → find_reservation c.scope key db ≡ o
      → recheck c key o db ≡ (db', answer t)
      → Reserved c.scope key c.fingerprint db'
  recheck-Reserved db db' t none found v =
      create_new-Reserved (c.create (c.during db).world) (c.during db) db' t v
  recheck-Reserved db db' t (some r) found v = existing-Reserved db db' r t found v

  look_up-Reserved :
      (db db' : Database W) (t : T) (o : Option Reservation)
      → find_reservation c.scope key db ≡ o
      → look_up c key o db ≡ (db', answer t)
      → Reserved c.scope key c.fingerprint db'
  look_up-Reserved db db' t (some r) found v = existing-Reserved db db' r t found v
  look_up-Reserved db db' t none found v = go c.prepare v
    where
      go :
          (p : Response Unit)
          → prepared c key p (c.before db) ≡ (db', answer t)
          → Reserved c.scope key c.fingerprint db'
      go (throws x) u = absurd (ground arith)
      go (answer done) u =
          recheck-Reserved (c.before db) db' t (find_reservation c.scope key (c.before db)) refl u

module _ {W T : Type 0} (c : Call W T) where
  run-Reserved :
      (key : String) (db db' : Database W) (t : T)
      → validate_key c.is_uuid c.header ≡ answer key
      → run_once_per_key c db ≡ (db', answer t)
      → Reserved c.scope key c.fingerprint db'
  unfolding run_once_per_key
  run-Reserved key db db' t valid e =
      look_up-Reserved c key db db' t (find_reservation c.scope key db) refl (ground (arith, valid))

  -- Once a call was answered, a later call with its key creates nothing, whatever it would create:
  -- it leaves the database as it is, and answers with what is rebuilt from the operation that was
  -- reserved, or with a conflict if its fingerprint differs.
  pub run_once_per_key-replays :
      (c' : Call W T) (key : String) (db db' : Database W) (t : T)
      → validate_key c.is_uuid c.header ≡ answer key
      → validate_key c'.is_uuid c'.header ≡ answer key
      → c'.scope ≡ c.scope
      → run_once_per_key c db ≡ (db', answer t)
      → (r : Reservation) × (find_reservation c.scope key db' ≡ some r)
        × (r.fingerprint ≡ c.fingerprint)
        × (run_once_per_key c' db' ≡ (
          db',
          if str_eq c.fingerprint c'.fingerprint
              then c'.rebuild_response r.operation_id
              else throws (conflict idempotency_conflict),
        ))
  unfolding run_once_per_key resolve_existing
  run_once_per_key-replays c' key db db' t valid valid' scope e =
      let v = run-Reserved key db db' t valid e in
      let print : v.row.fingerprint ≡ c.fingerprint =
        (eq_iff v.row.fingerprint c.fingerprint).0 v.same in
      let again : find_reservation c'.scope key db' ≡ some v.row =
        subst (λ x. find_reservation x key db' ≡ some v.row) (sym scope) v.found in
      let compared : str_eq v.row.fingerprint c'.fingerprint ≡ str_eq c.fingerprint c'.fingerprint =
        ap (λ x. str_eq x c'.fingerprint) print in
      (v.row, v.found, print, ground (arith, valid', again, compared))
