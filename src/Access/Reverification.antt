-- ===== src/Access/Reverification.antt =====
-- `reverify` of app/src/project-access/project-access.service.ts: what each of its outcomes means,
-- and that no write of a pair touches the record of another.
use tjc_be_rag_core_api.Base.{
  String, Bool, true, false, Option, none, some, ◌≡◌, refl, ◌⊎◌, inl, inr, Bool-cases,
  if◌then◌else◌,
}
use tjc_be_rag_core_api.Access.{
  ProjectRole, Project, AccessRecord, Store, is_admin, same_role, find_record, find_live,
  lock_binding_status, upsert_record,
}
use tjc_be_rag_core_api.Access.Grants.{
  AccessVerdict, granted, denied, unverified, ReverifyOutcome, unchanged, updated, revoked_record,
  kept_unverified, no_record, Transaction, allows, derive_role, confirm_reverify, reverify,
  reverify_organization, reverify_project, reverify_record,
}
use tjc_be_rag_core_api.Access.Records.{find_record-delete_record}
use tjc_be_rag_core_api.Access.Entries.{Enrolled, written-Enrolled}

module _ (t : Transaction) (project_id user_id github_user_id : String) where
  -- Why a record goes: its project is gone or personal, GitHub denies the user, or the role that
  -- GitHub gives is below Admin and the binding is gone by the time of the write.
  pub data Reason (s : Store) : Type 0 where
    project_gone : find_live project_id s ≡ none → Reason s
    is_personal :
        (p : Project) → find_live project_id s ≡ some p → p.github_org_id ≡ none → Reason s
    is_denied :
        (p : Project) (org : String)
        → find_live project_id s ≡ some p
        → p.github_org_id ≡ some org
        → derive_role t.github p org github_user_id ≡ denied
        → Reason s
    is_unbacked :
        (p : Project) (org : String) (role : ProjectRole)
        → find_live project_id s ≡ some p
        → p.github_org_id ≡ some org
        → derive_role t.github p org github_user_id ≡ granted role
        → is_admin role ≡ false
        → allows (lock_binding_status project_id (t.meanwhile s)) ≡ false
        → Reason s

  -- What an outcome says of the store before and after.
  pub data Reverified (s s' : Store) : ReverifyOutcome → Type 0 where
    was_absent : find_record project_id user_id s ≡ none → s' ≡ s → Reverified s s' no_record
    was_kept : s' ≡ t.meanwhile s → Reverified s s' kept_unverified
    was_revoked :
        Reason s → find_record project_id user_id s' ≡ none → Reverified s s' revoked_record
    was_confirmed :
        (p : Project) (org : String) (old : AccessRecord) (role : ProjectRole)
        → find_live project_id s ≡ some p
        → p.github_org_id ≡ some org
        → find_record project_id user_id s ≡ some old
        → derive_role t.github p org github_user_id ≡ granted role
        → Enrolled project_id user_id role s'
        → Reverified s s' (if same_role old.role role then unchanged else updated)

  confirm-Reverified :
      (s : Store) (p : Project) (org : String) (old : AccessRecord)
      → find_live project_id s ≡ some p
      → p.github_org_id ≡ some org
      → find_record project_id user_id s ≡ some old
      → (v : AccessVerdict) → derive_role t.github p org github_user_id ≡ v
      → Reverified s
          ((confirm_reverify t project_id user_id github_user_id old.role v (t.meanwhile s)).0)
          ((confirm_reverify t project_id user_id github_user_id old.role v (t.meanwhile s)).1)
  unfolding confirm_reverify
  confirm-Reverified s p org old live owned found unverified e = Reverified.was_kept refl
  confirm-Reverified s p org old live owned found denied e =
      Reverified.was_revoked (Reason.is_denied p org live owned e)
        (find_record-delete_record project_id user_id (t.meanwhile s))
  confirm-Reverified s p org old live owned found (granted role) e =
      elim (Bool-cases (is_admin role)) [
        | inl top ↦ rw top (write (inl top))
        | inr low ↦ elim (Bool-cases (allows (lock_binding_status project_id (t.meanwhile s)))) [
          | inl backed ↦ rw low (rw backed (write (inr backed)))
          | inr gone ↦ rw low (
              rw gone (
                Reverified.was_revoked (Reason.is_unbacked p org role live owned e low gone)
                  (find_record-delete_record project_id user_id (t.meanwhile s))))
        ]
      ]
    where
      write :
          (is_admin role ≡ true) ⊎ (allows (lock_binding_status project_id (t.meanwhile s)) ≡ true)
          → Reverified s
              (upsert_record project_id user_id role t.now (t.meanwhile s))
              (if same_role old.role role then unchanged else updated)
      write backing =
          Reverified.was_confirmed p org old role live owned found e
            (written-Enrolled t project_id user_id github_user_id role (t.meanwhile s) backing)

  -- A reverification never creates a record, and revokes one only if GitHub denies the user, the
  -- project is gone or personal, or the binding is gone at the time of the write; where it answers
  -- that it could not verify, it has written nothing; a confirmed record has the derived role, backed
  -- at the time of the write, and the outcome says if the role changed.
  pub reverify-Reverified :
      (s : Store)
      → Reverified s
          (reverify t project_id user_id github_user_id s).0
          (reverify t project_id user_id github_user_id s).1
  unfolding reverify
  reverify-Reverified s = of_time t.timed_out
    where
      of_organization :
          (p : Project) (old : AccessRecord) (o : Option String)
          → find_live project_id s ≡ some p
          → p.github_org_id ≡ o
          → find_record project_id user_id s ≡ some old
          → Reverified s
              (reverify_organization t project_id user_id github_user_id old.role p o s).0
              (reverify_organization t project_id user_id github_user_id old.role p o s).1
      of_organization p old none live owned found =
          Reverified.was_revoked (Reason.is_personal p live owned)
            (find_record-delete_record project_id user_id s)
      of_organization p old (some org) live owned found =
          confirm-Reverified s p org old live owned found
            (derive_role t.github p org github_user_id) refl

      of_project :
          (old : AccessRecord) (o : Option Project)
          → find_live project_id s ≡ o
          → find_record project_id user_id s ≡ some old
          → Reverified s
              (reverify_project t project_id user_id github_user_id old.role o s).0
              (reverify_project t project_id user_id github_user_id old.role o s).1
      of_project old none live found =
          Reverified.was_revoked (Reason.project_gone live)
            (find_record-delete_record project_id user_id s)
      of_project old (some p) live found = of_organization p old p.github_org_id live refl found

      of_record :
          (o : Option AccessRecord)
          → find_record project_id user_id s ≡ o
          → Reverified s
              (reverify_record t project_id user_id github_user_id o s).0
              (reverify_record t project_id user_id github_user_id o s).1
      of_record none found = Reverified.was_absent found refl
      of_record (some old) found = of_project old (find_live project_id s) refl found

      of_time :
          (late : Bool)
          → (let after =
                if late
                then (t.meanwhile s, kept_unverified)
                else reverify_record t project_id user_id github_user_id
                    (find_record project_id user_id s)
                    s in
              Reverified s after.0 after.1)
      of_time true = Reverified.was_kept refl
      of_time false = of_record (find_record project_id user_id s) refl
