-- ===== src/Access/Organization.antt =====
-- app/src/github-app/github-access.port.ts and
-- app/src/project-access/organization-access.resolver.ts: what GitHub says of a user.
use tjc_be_rag_core_api.Base.{
  ℕ, String, Bool, false, not, ◌&&◌, Option, none, some, List, [], ◌∷◌, leb, if◌then◌else◌, str_eq,
  all, find, codes,
}

-- `GithubLookup`
pub data Lookup (A : Type 0) : Type 0 where
  ok : A → Lookup A
  not_found : Lookup A
  not_installed : Lookup A
  unverifiable : Lookup A

pub data MembershipRole : Type 0 where
  owner member : MembershipRole

pub data PermissionLevel : Type 0 where
  admin maintain write triage read : PermissionLevel

-- GitHub's membership role `admin` is the owner of the organization; `active` is the state.
pub record Membership : Type 0 where
  pub role : MembershipRole
  pub active : Bool

pub record Installation : Type 0 where
  pub installation_id : String
  pub organization_id : String
  pub organization_login : String
  pub suspended : Bool

-- `GithubAccessPort`: the reads of a request. The list of installations is read once per request
-- (`VerificationContext`), so it is one value.
pub record GithubAccess : Type 0 where
  pub installations : Lookup (List Installation)
  pub membership : Installation → String → Lookup Membership
  pub permission : String → String → String → Lookup PermissionLevel

pub data OrganizationRole : Type 0 where
  org_admin org_member : OrganizationRole

-- `OrganizationContext`, less the avatar.
pub record OrganizationContext : Type 0 where
  pub organization_id : String
  pub login : String
  pub installation_id : String
  pub role : OrganizationRole

pub data OrganizationResolution : Type 0 where
  resolved : OrganizationContext → OrganizationResolution
  not_member : OrganizationResolution
  app_not_installed : OrganizationResolution
  unresolved : OrganizationResolution

pub data WorkspaceResolution : Type 0 where
  personal : WorkspaceResolution
  organization : OrganizationContext → WorkspaceResolution
  no_workspace : WorkspaceResolution
  unknown_workspace : WorkspaceResolution

abbrev role_of : MembershipRole → OrganizationRole
role_of owner = org_admin
role_of member = org_member

abbrev pub context_of : Installation → Membership → OrganizationContext
context_of i m = record {
  organization_id = i.organization_id;
  login = i.organization_login;
  installation_id = i.installation_id;
  role = role_of m.role;
}

abbrev pub from_membership : Installation → Lookup Membership → OrganizationResolution
from_membership i not_found = not_member
from_membership i not_installed = app_not_installed
from_membership i unverifiable = unresolved
from_membership i (ok m) = if m.active then resolved (context_of i m) else not_member

-- `/^[1-9][0-9]*$/`
abbrev is_digit : ℕ → Bool
is_digit c = leb b'0' c && leb c b'9'

abbrev pub is_github_id : List ℕ → Bool
is_github_id [] = false
is_github_id (c ∷ cs) = leb b'1' c && leb c b'9' && all is_digit cs

module _ (github : GithubAccess) where
  unfoldable pub resolve_from_installation : Installation → String → OrganizationResolution
  resolve_from_installation i user = from_membership i (github.membership i user)

  abbrev pub resolve_installation : Option Installation → String → OrganizationResolution
  resolve_installation none user = app_not_installed
  resolve_installation (some i) user =
      if i.suspended then unresolved else resolve_from_installation i user

  abbrev pub resolve_among : Lookup (List Installation) → String → String → OrganizationResolution
  resolve_among (ok all') organization_id user =
      resolve_installation (find (λ i. str_eq i.organization_id organization_id) all') user
  resolve_among _ organization_id user = unresolved

  -- `resolve`
  unfoldable pub resolve : String → String → OrganizationResolution
  resolve organization_id user = resolve_among github.installations organization_id user

  abbrev workspace_of : OrganizationResolution → WorkspaceResolution
  workspace_of (resolved c) = organization c
  workspace_of unresolved = unknown_workspace
  workspace_of _ = no_workspace

  -- `resolveWorkspace`; `none` is an omitted workspace id.
  unfoldable resolve_workspace : Option String → String → WorkspaceResolution
  resolve_workspace none user = personal
  resolve_workspace (some workspace_id) user =
      if str_eq workspace_id user
      then personal
      else if not (is_github_id (codes workspace_id))
      then no_workspace
      else workspace_of (resolve workspace_id user)
