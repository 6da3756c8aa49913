-- ===== src/Access/Grants.antt =====
-- app/src/project-access/project-access.service.ts: the role that GitHub gives, and the writes of an
-- access record under the advisory lock of its project and user.
use tjc_be_rag_core_api.Base.{
  ℕ, String, Bool, false, not, ◌&&◌, ◌||◌, Option, none, some, if◌then◌else◌,
}
use tjc_be_rag_core_api.Access.{
  ProjectRole, reader, writer, maintainer, Binding, BindingStatus, Project, AccessRecord, Store,
  is_admin, is_revoked, is_bound, same_role, find_record, find_live, lock_binding_status,
  delete_record, upsert_record,
}
use tjc_be_rag_core_api.Access.Organization.{
  Lookup, ok, unverifiable, PermissionLevel, maintain, write, GithubAccess, OrganizationContext,
  org_admin, org_member, OrganizationRole, OrganizationResolution, resolved, unresolved, resolve,
}

-- `AccessVerdict`
pub data AccessVerdict : Type 0 where
  granted : ProjectRole → AccessVerdict
  denied : AccessVerdict
  unverified : AccessVerdict

pub data ReverifyOutcome : Type 0 where
  unchanged updated revoked_record kept_unverified no_record : ReverifyOutcome

-- `roleForPermission`
unfoldable pub role_for_permission : PermissionLevel → ProjectRole
role_for_permission PermissionLevel.admin = maintainer
role_for_permission maintain = maintainer
role_for_permission write = writer
role_for_permission _ = reader

abbrev pub from_permission : Lookup PermissionLevel → AccessVerdict
from_permission (ok level) = granted (role_for_permission level)
from_permission unverifiable = unverified
from_permission _ = denied

module _ (github : GithubAccess) where
  abbrev pub by_binding : OrganizationContext → Option Binding → String → AccessVerdict
  by_binding c none user = denied
  by_binding c (some b) user =
      if is_revoked b.status
      then denied
      else from_permission (github.permission c.installation_id b.repository_name user)

  abbrev pub by_role :
      OrganizationRole → OrganizationContext → Option Binding → String → AccessVerdict
  by_role org_admin c binding user = granted ProjectRole.admin
  by_role org_member c binding user = by_binding c binding user

  abbrev pub by_organization : OrganizationResolution → Option Binding → String → AccessVerdict
  by_organization (resolved c) binding user = by_role c.role c binding user
  by_organization unresolved binding user = unverified
  by_organization _ binding user = denied

  -- `deriveRole`, of a project of the organization `org`.
  unfoldable pub derive_role : Project → String → String → AccessVerdict
  derive_role p org user = by_organization (resolve github org user) p.binding user

-- What a transaction meets: the port, the clock, whether it exceeds its time (then it writes
-- nothing), and what other transactions commit between its live reads and its own write.
pub record Transaction : Type 0 where
  pub github : GithubAccess
  pub now : ℕ
  pub timed_out : Bool
  pub meanwhile : Store → Store

-- The status that `FOR SHARE` reads allows a record below Admin.
abbrev pub allows : Option BindingStatus → Bool
allows none = false
allows (some s) = not (is_revoked s)

-- `revoke`
unfoldable pub revoke : String → String → Store → Store
revoke project_id user_id s = delete_record project_id user_id s

module _ (t : Transaction) (project_id user_id github_user_id : String) where
  -- The end of the alta: the verdict is confirmed against the store at the time of the write.
  unfoldable pub confirm_grant : AccessVerdict → Store → Store × AccessVerdict
  confirm_grant (granted role) s =
      if not (is_admin role) && not (allows (lock_binding_status project_id s))
      then (s, denied)
      else (upsert_record project_id user_id role t.now s, granted role)
  confirm_grant verdict s = (s, verdict)

  abbrev pub reusable : Option AccessRecord → Option Binding → Option ProjectRole
  reusable none binding = none
  reusable (some r) binding = if is_admin r.role || is_bound binding then some r.role else none

  abbrev pub grant_new : Option ProjectRole → Project → String → Store → Store × AccessVerdict
  grant_new (some role) p org s = (s, granted role)
  grant_new none p org s = confirm_grant (derive_role t.github p org github_user_id) (t.meanwhile s)

  abbrev pub grant_organization : Project → Option String → Store → Store × AccessVerdict
  grant_organization p none s = (s, denied)
  grant_organization p (some org) s =
      grant_new (reusable (find_record project_id user_id s) p.binding) p org s

  abbrev pub grant_project : Option Project → Store → Store × AccessVerdict
  grant_project none s = (s, denied)
  grant_project (some p) s = grant_organization p p.github_org_id s

  -- `grantOnEntry`
  unfoldable pub grant_on_entry : Store → Store × AccessVerdict
  grant_on_entry s =
      if t.timed_out then (t.meanwhile s, unverified) else grant_project (find_live project_id s) s

  unfoldable pub confirm_reverify : ProjectRole → AccessVerdict → Store → Store × ReverifyOutcome
  confirm_reverify old unverified s = (s, kept_unverified)
  confirm_reverify old denied s = (delete_record project_id user_id s, revoked_record)
  confirm_reverify old (granted role) s =
      if not (is_admin role) && not (allows (lock_binding_status project_id s))
      then (delete_record project_id user_id s, revoked_record)
      else (
        upsert_record project_id user_id role t.now s,
        if same_role old role then unchanged else updated,
      )

  abbrev pub reverify_organization :
      ProjectRole → Project → Option String → Store → Store × ReverifyOutcome
  reverify_organization old p none s = (delete_record project_id user_id s, revoked_record)
  reverify_organization old p (some org) s =
      confirm_reverify old (derive_role t.github p org github_user_id) (t.meanwhile s)

  abbrev pub reverify_project : ProjectRole → Option Project → Store → Store × ReverifyOutcome
  reverify_project old none s = (delete_record project_id user_id s, revoked_record)
  reverify_project old (some p) s = reverify_organization old p p.github_org_id s

  abbrev pub reverify_record : Option AccessRecord → Store → Store × ReverifyOutcome
  reverify_record none s = (s, no_record)
  reverify_record (some r) s = reverify_project r.role (find_live project_id s) s

  -- `reverify`
  unfoldable pub reverify : Store → Store × ReverifyOutcome
  reverify s =
      if t.timed_out
      then (t.meanwhile s, kept_unverified)
      else reverify_record (find_record project_id user_id s) s
