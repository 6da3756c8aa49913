-- ===== src/Access/Requests.antt =====
-- `require`, `requireForResource` and `canActivate` of app/src/project-access: what an answer
-- promises, and what an error gives away.
use tjc_be_rag_core_api.Base.{
  String, true, false, not, ◌&&◌, Option, none, some, arith, ◌≡◌, refl, subst, inl, inr, Bool-cases,
  str_eq, find-passes, eq_iff,
}
use tjc_be_rag_core_api.Errors.{Response, answer, throws}
use tjc_be_rag_core_api.Access.{
  ProjectRole, reader, Project, Store, is_role_at_least, is_personal, find_visible, find_live,
  accessible_project,
}
use tjc_be_rag_core_api.Access.Grants.{AccessVerdict, granted, denied, unverified}
use tjc_be_rag_core_api.Access.Require.{
  AccessGrant, Entry, authorize, visible_role, judge, enter, require_live, require_seen, require,
}

-- A grant of at least the role asked for, on the project asked for, which is not deleted.
pub record IsGranted (project_id : String) (min_role : ProjectRole) (g : AccessGrant) : Type 0 where
  pub asked : g.project.id ≡ project_id
  pub live : g.project.deleted ≡ false
  pub enough : is_role_at_least g.role min_role ≡ true

module _ (entry : Entry) (user_id : String) where
  authorize-IsGranted :
      (p : Project) (role min_role : ProjectRole) (g : AccessGrant)
      → p.deleted ≡ false
      → authorize p role min_role ≡ answer g
      → IsGranted p.id min_role g
  unfolding authorize
  authorize-IsGranted p role min_role g live e =
      elim (Bool-cases (is_role_at_least role min_role)) [
        | inr low ↦ absurd (ground (arith, low))
        | inl high ↦
            let made : AccessGrant = record { project = p; role = role } in
            let same : made ≡ g = ground (arith, high) in
            subst (IsGranted p.id min_role) same
              (record { asked = refl; live = live; enough = high })
      ]

  judge-IsGranted :
      (p : Project) (min_role : ProjectRole) (v : AccessVerdict) (g : AccessGrant)
      → p.deleted ≡ false
      → judge entry user_id min_role p v ≡ answer g
      → IsGranted p.id min_role g
  judge-IsGranted p min_role (granted role) g live e = authorize-IsGranted p role min_role g live e
  judge-IsGranted p min_role denied g live e = cc
  judge-IsGranted p min_role unverified g live e = cc

  live-IsGranted :
      (p : Project) (min_role : ProjectRole) (i : Response String) (s : Store) (g : AccessGrant)
      → p.deleted ≡ false
      → (enter entry user_id min_role p i s).1 ≡ answer g
      → IsGranted p.id min_role g
  live-IsGranted p min_role (throws x) s g live e = cc
  live-IsGranted p min_role (answer github_user_id) s g live e =
      judge-IsGranted p min_role _ g live e

  -- Whatever `require` answers is a grant on the project asked for, which is not deleted, in a role
  -- that is at least the one asked for.
  pub require-IsGranted :
      (project_id : String) (min_role : ProjectRole) (s : Store) (g : AccessGrant)
      → (require entry user_id project_id min_role s).1 ≡ answer g
      → IsGranted project_id min_role g
  unfolding require find_visible find_live accessible_project
  require-IsGranted project_id min_role s g e = seen (find_visible project_id user_id s) refl e
    where
      rename :
          (p : Project)
          → str_eq p.id project_id ≡ true
          → IsGranted p.id min_role g
          → IsGranted project_id min_role g
      rename p same = subst (λ x. IsGranted x min_role g) ((eq_iff p.id project_id).0 same)

      alive :
          (o : Option Project)
          → find_live project_id s ≡ o
          → (require_live entry user_id min_role o s).1 ≡ answer g
          → IsGranted project_id min_role g
      alive none live v = cc
      alive (some p) live v =
          let passed =
            find-passes (λ x. str_eq x.id project_id && not x.deleted) s.projects p live in
          elim (Bool-cases (is_personal p)) [
            | inl own ↦ absurd (ground (arith, own))
            | inr shared ↦ rename p (ground (arith, passed)) (
                live-IsGranted p min_role entry.identity s g (ground (arith, passed))
                  (ground (arith, shared)))
          ]

      seen :
          (o : Option Project)
          → find_visible project_id user_id s ≡ o
          → (require_seen entry user_id min_role project_id o s).1 ≡ answer g
          → IsGranted project_id min_role g
      seen none found v = alive (find_live project_id s) refl v
      seen (some p) found v =
          let passed =
            find-passes
              (λ x. str_eq x.id project_id && accessible_project user_id reader s.records x)
              s.projects p found in
          rename p (ground (arith, passed)) (
            authorize-IsGranted p (visible_role entry user_id p s) min_role g
              (ground (arith, passed)) v)
