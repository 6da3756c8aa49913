-- ===== src/Access/Records.antt =====
-- The table `project_access` under `upsertRecord` and `deleteRecord` of
-- app/src/project-access/project-access.repository.ts.
use tjc_be_rag_core_api.Base.{
  ℕ, String, true, false, not, none, some, List, [], ◌∷◌, arith, ◌≡◌, refl, find, keep, eq_iff,
  Bool-cases, inl, inr, str_eq_refl,
}
use tjc_be_rag_core_api.Access.{
  ProjectRole, AccessRecord, Store, is_record_of, find_record, delete_record, upsert, upsert_record,
}

-- A read finds a row of this role, verified at this time.
pub record Finds (project_id user_id : String) (role : ProjectRole) (now : ℕ)
    (records : List AccessRecord) : Type 0 where
  pub row : AccessRecord
  pub found : find (is_record_of project_id user_id) records ≡ some row
  pub of_role : row.role ≡ role
  pub of_time : row.verified_at ≡ now

module _ (project_id user_id : String) where
  abbrev new_row : ProjectRole → ℕ → AccessRecord
  new_row role now = record {
    project_id = project_id;
    user_id = user_id;
    role = role;
    verified_at = now;
  }

  upsert-Finds :
      (role : ProjectRole) (now : ℕ) (records : List AccessRecord)
      → Finds project_id user_id role now (upsert (new_row role now) records)
  unfolding upsert
  upsert-Finds role now [] = record {
    row = new_row role now;
    found = ground (arith, str_eq_refl project_id, str_eq_refl user_id);
    of_role = refl;
    of_time = refl;
  }
  upsert-Finds role now (r ∷ records) = elim (Bool-cases (is_record_of project_id user_id r)) [
    | inl mine ↦ record {
      row = record r { role = role; verified_at = now };
      found = ground (arith, mine);
      of_role = refl;
      of_time = refl;
    }
    | inr other ↦
        let v = upsert-Finds role now records in
        record {
          row = v.row;
          found = ground (arith, other, v.found);
          of_role = v.of_role;
          of_time = v.of_time;
        }
  ]

  delete-none :
      (records : List AccessRecord)
      → find
          (is_record_of project_id user_id)
          (keep (λ r. not (is_record_of project_id user_id r)) records)
        ≡ none
  delete-none [] = refl
  delete-none (r ∷ records) = elim (Bool-cases (is_record_of project_id user_id r)) [
    | inl mine ↦ ground (arith, mine, delete-none records)
    | inr other ↦ ground (arith, other, delete-none records)
  ]

  pub find_record-upsert_record :
      (role : ProjectRole) (now : ℕ) (s : Store)
      → Finds project_id user_id role now (upsert_record project_id user_id role now s).records
  unfolding upsert_record
  find_record-upsert_record role now s = upsert-Finds role now s.records

  pub find_record-delete_record :
      (s : Store) → find_record project_id user_id (delete_record project_id user_id s) ≡ none
  unfolding find_record delete_record
  find_record-delete_record s = delete-none s.records

module _ (project_id user_id p u : String)
    (other : (is_record_of project_id user_id (new_row p u ProjectRole.reader 0)) ≡ false) where
  -- Rows of one pair are not rows of the other.
  apart : (r : AccessRecord) → is_record_of p u r ≡ true → is_record_of project_id user_id r ≡ false
  apart r e =
      let a = (eq_iff r.project_id p).0 (ground arith) in
      let b = (eq_iff r.user_id u).0 (ground arith) in rw a (rw b other)

  delete-other :
      (records : List AccessRecord)
      → find (is_record_of p u) (keep (λ r. not (is_record_of project_id user_id r)) records)
        ≡ find (is_record_of p u) records
  delete-other [] = refl
  delete-other (r ∷ records) = elim (Bool-cases (is_record_of p u r)) [
    | inl theirs ↦ ground (arith, theirs, apart r theirs)
    | inr not_theirs ↦ elim (Bool-cases (is_record_of project_id user_id r)) [
      | inl mine ↦ ground (arith, not_theirs, mine, delete-other records)
      | inr neither ↦ ground (arith, not_theirs, neither, delete-other records)
    ]
  ]

  upsert-other :
      (role : ProjectRole) (now : ℕ) (records : List AccessRecord)
      → find (is_record_of p u) (upsert (new_row project_id user_id role now) records)
        ≡ find (is_record_of p u) records
  unfolding upsert
  upsert-other role now [] =
      elim (Bool-cases (is_record_of p u (new_row project_id user_id role now))) [
        | inl theirs ↦
            let gone = apart (new_row project_id user_id role now) theirs in
            absurd (ground (arith, gone, str_eq_refl project_id, str_eq_refl user_id))
        | inr not_theirs ↦ ground (arith, not_theirs)
      ]
  upsert-other role now (r ∷ records) = elim (Bool-cases (is_record_of project_id user_id r)) [
    | inl mine ↦ elim (Bool-cases (is_record_of p u r)) [
      | inl theirs ↦ absurd (ground (arith, mine, apart r theirs))
      | inr not_theirs ↦ ground (arith, mine, not_theirs)
    ]
    | inr neither ↦ elim (Bool-cases (is_record_of p u r)) [
      | inl theirs ↦ ground (arith, neither, theirs)
      | inr not_theirs ↦ ground (arith, neither, not_theirs, upsert-other role now records)
    ]
  ]
