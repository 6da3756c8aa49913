-- ===== src/Access/Entries.antt =====
-- `grantOnEntry` and `reverify` of app/src/project-access/project-access.service.ts: what they
-- leave in the table, whatever other transactions commit between their reads and their write.
use tjc_be_rag_core_api.Base.{
  String, true, ◌||◌, Option, none, some, arith, ◌≡◌, refl, subst, ◌⊎◌, inl, inr, Bool-cases,
}
use tjc_be_rag_core_api.Access.{
  ProjectRole, Project, AccessRecord, Store, is_admin, is_bound, find_record, find_live,
  lock_binding_status, upsert_record,
}
use tjc_be_rag_core_api.Access.Grants.{
  AccessVerdict, granted, denied, unverified, Transaction, allows, derive_role, confirm_grant,
  grant_on_entry, grant_new, grant_organization, grant_project, reusable,
}
use tjc_be_rag_core_api.Access.Records.{find_record-upsert_record}

-- What lets a record of this role count: it is Admin, or the binding that the project has in the
-- store is not revoked, as the write reads it or as the lookup of a live project does.
pub data Backed (project_id : String) (role : ProjectRole) (s : Store) : Type 0 where
  as_admin : is_admin role ≡ true → Backed project_id role s
  at_write : allows (lock_binding_status project_id s) ≡ true → Backed project_id role s
  at_entry :
      (p : Project)
      → find_live project_id s ≡ some p
      → is_bound p.binding ≡ true
      → Backed project_id role s

-- The user's record, of the role that was granted, and what backs it.
pub record Enrolled (project_id user_id : String) (role : ProjectRole) (s : Store) : Type 0 where
  pub row : AccessRecord
  pub found : find_record project_id user_id s ≡ some row
  pub of_role : row.role ≡ role
  pub backed : Backed project_id role s

module _ (t : Transaction) (project_id user_id github_user_id : String) where
  -- The upsert changes no project.
  status-upsert :
      (role : ProjectRole) (s : Store)
      → lock_binding_status project_id (upsert_record project_id user_id role t.now s)
        ≡ lock_binding_status project_id s
  unfolding lock_binding_status upsert_record
  status-upsert role s = refl

  pub written-Enrolled :
      (role : ProjectRole) (s : Store)
      → (is_admin role ≡ true) ⊎ (allows (lock_binding_status project_id s) ≡ true)
      → Enrolled project_id user_id role (upsert_record project_id user_id role t.now s)
  unfolding find_record
  written-Enrolled role s backing =
      let v = find_record-upsert_record project_id user_id role t.now s in
      record {
        row = v.row;
        found = v.found;
        of_role = v.of_role;
        backed = elim backing [
          | inl top ↦ Backed.as_admin top
          | inr live ↦ Backed.at_write (ground (arith, status-upsert role s, live))
        ];
      }

  same_answer :
      (r role : ProjectRole) (a s' : Store)
      → Enrolled project_id user_id r a
      → ◌≡◌ {A = Store × AccessVerdict} (a, granted r) (s', granted role)
      → Enrolled project_id user_id role s'
  same_answer r role a s' v e =
      let stores : a ≡ s' = cc in
      let roles : r ≡ role = cc in
      subst (λ x. Enrolled project_id user_id x s') roles
        (subst (Enrolled project_id user_id r) stores v)

  confirm_grant-Enrolled :
      (verdict : AccessVerdict) (s s' : Store) (role : ProjectRole)
      → confirm_grant t project_id user_id github_user_id verdict s ≡ (s', granted role)
      → Enrolled project_id user_id role s'
  unfolding confirm_grant
  confirm_grant-Enrolled denied s s' role e = absurd (ground arith)
  confirm_grant-Enrolled unverified s s' role e = absurd (ground arith)
  confirm_grant-Enrolled (granted r) s s' role e =
      elim (Bool-cases (is_admin r || allows (lock_binding_status project_id s))) [
        | inr neither ↦ absurd (ground (arith, neither))
        | inl backing ↦
            same_answer r role (upsert_record project_id user_id r t.now s) s'
              (written-Enrolled r s (either backing)) (ground (arith, backing))
      ]
    where
      either :
          (is_admin r || allows (lock_binding_status project_id s)) ≡ true
          → (is_admin r ≡ true) ⊎ (allows (lock_binding_status project_id s) ≡ true)
      either backing = elim (Bool-cases (is_admin r)) [
        | inl top ↦ inl top
        | inr other ↦ inr (ground (arith, other, backing))
      ]

  grant_new-Enrolled :
      (p : Project) (org : String) (o : Option AccessRecord) (s s' : Store) (role : ProjectRole)
      → find_live project_id s ≡ some p
      → find_record project_id user_id s ≡ o
      → grant_new t project_id user_id github_user_id
          (reusable t project_id user_id github_user_id o p.binding)
          p
          org
          s
        ≡ (s', granted role)
      → Enrolled project_id user_id role s'
  grant_new-Enrolled p org none s s' role live found e =
      confirm_grant-Enrolled (derive_role t.github p org github_user_id) (t.meanwhile s) s' role e
  grant_new-Enrolled p org (some r) s s' role live found e =
      elim (Bool-cases (is_admin r.role || is_bound p.binding)) [
        | inr neither ↦
            confirm_grant-Enrolled (derive_role t.github p org github_user_id) (t.meanwhile s) s'
              role (ground (arith, neither))
        | inl backing ↦
            same_answer r.role role s s'
              (record {
                row = r;
                found = found;
                of_role = refl;
                backed = elim (Bool-cases (is_admin r.role)) [
                  | inl top ↦ Backed.as_admin top
                  | inr other ↦ Backed.at_entry p live (ground (arith, other, backing))
                ];
              })
              (ground (arith, backing))
      ]

  -- An entry that is granted a role leaves the user's record of that role in the table, and the role
  -- is Admin or backed by a binding that is not revoked in that table, whatever others commit
  -- between the reads and the write.
  pub grant_on_entry-Enrolled :
      (s s' : Store) (role : ProjectRole)
      → grant_on_entry t project_id user_id github_user_id s ≡ (s', granted role)
      → Enrolled project_id user_id role s'
  unfolding grant_on_entry
  grant_on_entry-Enrolled s s' role e = elim (Bool-cases t.timed_out) [
    | inl late ↦ absurd (ground (arith, late))
    | inr early ↦ of_project (find_live project_id s) refl (ground (arith, early))
  ]
    where
      of_organization :
          (p : Project) (o : Option String)
          → find_live project_id s ≡ some p
          → grant_organization t project_id user_id github_user_id p o s ≡ (s', granted role)
          → Enrolled project_id user_id role s'
      of_organization p none live v = absurd (ground arith)
      of_organization p (some org) live v =
          grant_new-Enrolled p org (find_record project_id user_id s) s s' role live refl v

      of_project :
          (o : Option Project)
          → find_live project_id s ≡ o
          → grant_project t project_id user_id github_user_id o s ≡ (s', granted role)
          → Enrolled project_id user_id role s'
      of_project none live v = absurd (ground arith)
      of_project (some p) live v = of_organization p p.github_org_id live v
