-- ===== src/Events.antt =====
-- app/src/github-webhooks: access-events.service.ts, repository-events.service.ts, and the events of
-- installations in github-webhooks.service.ts. What an event of GitHub does of records and bindings.
pub mod Bindings
pub mod Accesses
pub mod Effects
pub mod Invariants
pub mod Records
pub mod Revoked
pub mod Scopes
mod Tests
use tjc_be_rag_core_api.Base.{
  ℕ, String, Bool, true, false, not, ◌&&◌, ◌||◌, Option, none, some, List, [], ◌∷◌, map,
  if◌then◌else◌, str_eq, is_text, ◌==◌, any, keep, find, codes,
}
use tjc_be_rag_core_api.Errors.{Response, answer, throws}
use tjc_be_rag_core_api.Access.{BindingStatus, Binding, Project, Store, is_personal}
use tjc_be_rag_core_api.Access.Organization.{is_github_id}
use tjc_be_rag_core_api.Identity.{Link}
use tjc_be_rag_core_api.Lifecycle.{World, Faults, revoke_binding, expected_owner_id}
use tjc_be_rag_core_api.Organizations.{
  live_projects_of, ProjectFaults, hide, on_binding, suspend_by_installation,
  unsuspend_by_installation,
}
use tjc_be_rag_core_api.Reverify.{
  ReverifyScope, user_repository, user_organization, user_organization_repositories, of_repository,
  organization_repositories,
}

-- `AccessEventName`
pub data AccessEventName : Type 0 where
  member membership organization team : AccessEventName

-- What the handlers read of the payload of an access event.
pub record AccessPayload : Type 0 where
  pub action : String
  pub member_id : Option String
  pub repository_id : Option String
  pub organization_id : Option String
  pub organization_login : Option String
  pub membership_user_id : Option String

-- The database and the sockets, the scopes that were enqueued, and the logins that were stored.
pub record Desk : Type 0 where
  pub world : World
  pub scopes : List ReverifyScope
  pub logins : List (String × String)

-- `toGithubId`, of a text that may be missing.
unfoldable pub github_id_of : Option String → Option String
github_id_of none = none
github_id_of (some s) = if is_github_id (codes s) then some s else none

abbrev pub among : List String → String → Bool
among names action = any (str_eq action) names

abbrev pub is_binding_of : String → Option Binding → Bool
is_binding_of repository_id none = false
is_binding_of repository_id (some b) = str_eq b.repository_id repository_id

-- `hasLiveOrganizationProjectForRepository`
unfoldable pub has_live_organization_project : String → Store → Bool
has_live_organization_project repository_id s =
    any (λ p. not p.deleted && not (is_personal p) && is_binding_of repository_id p.binding)
      s.projects

abbrev pub is_nonempty : {A : Type 0} → List A → Bool
is_nonempty [] = false
is_nonempty (x ∷ xs) = true

-- `AccessReverifyService.enqueue`; the jobs are deduplicated by their key.
abbrev pub enqueue : ReverifyScope → Desk → Desk
enqueue scope d = record d { scopes = scope ∷ d.scopes }

-- `enqueueForRepository`
unfoldable pub enqueue_for_repository : ReverifyScope → String → Desk → Desk
unfolding has_live_organization_project
enqueue_for_repository scope repository_id d =
    if has_live_organization_project repository_id d.world.store then enqueue scope d else d

-- `enqueueForOrganization`
unfoldable pub enqueue_for_organization : ReverifyScope → String → Desk → Desk
unfolding live_projects_of
enqueue_for_organization scope organization_id d =
    if is_nonempty (live_projects_of organization_id d.world.store) then enqueue scope d else d

unfoldable pub enqueue_member : Option String → Option String → Desk → Desk
unfolding enqueue_for_repository
enqueue_member (some u) (some r) d =
    enqueue_for_repository (user_repository (codes u) (codes r)) r d
enqueue_member _ _ d = d

-- `handleMember`
unfoldable pub handle_member : AccessPayload → Desk → Desk
unfolding enqueue_member github_id_of
handle_member p d =
    if among ("added" ∷ "edited" ∷ "removed" ∷ []) p.action
    then enqueue_member (github_id_of p.member_id) (github_id_of p.repository_id) d
    else d

unfoldable pub enqueue_membership : Option String → Option String → Desk → Desk
unfolding enqueue_for_organization
enqueue_membership (some u) (some o) d =
    enqueue_for_organization (user_organization_repositories (codes u) (codes o)) o d
enqueue_membership _ _ d = d

-- `handleMembership`
unfoldable pub handle_membership : AccessPayload → Desk → Desk
unfolding enqueue_membership github_id_of
handle_membership p d =
    if among ("added" ∷ "removed" ∷ []) p.action
    then enqueue_membership (github_id_of p.member_id) (github_id_of p.organization_id) d
    else d

unfoldable pub enqueue_removed : Option String → Option String → Desk → Desk
unfolding enqueue_for_organization
enqueue_removed (some u) (some o) d =
    enqueue_for_organization (user_organization (codes u) (codes o)) o d
enqueue_removed _ _ d = d

abbrev pub is_blank : String → Bool
is_blank String.[] = true
is_blank (String.◌∷◌ c s) = false

abbrev pub store_login : Option String → Option String → Desk → Desk
store_login (some o) (some login) d =
    if is_blank login then d else record d { logins = (o, login) ∷ d.logins }
store_login _ _ d = d

abbrev pub in_world : Desk → World × Response Unit → Desk × Response Unit
in_world d (w, r) = (record d { world = w }, r)

unfoldable pub hide_organization : ProjectFaults → Option String → Desk → Desk × Response Unit
unfolding hide
hide_organization faults none d = (d, answer tt)
hide_organization faults (some o) d = in_world d (hide faults o d.world)

-- `handleOrganization`
unfoldable pub handle_organization : ProjectFaults → AccessPayload → Desk → Desk × Response Unit
unfolding enqueue_removed github_id_of hide_organization
handle_organization faults p d =
    if str_eq p.action "member_removed"
    then (
      enqueue_removed (github_id_of p.membership_user_id) (github_id_of p.organization_id) d,
      answer tt,
    )
    else if str_eq p.action "renamed"
    then (store_login (github_id_of p.organization_id) p.organization_login d, answer tt)
    else if str_eq p.action "deleted"
    then hide_organization faults (github_id_of p.organization_id) d
    else (d, answer tt)

unfoldable pub enqueue_team : Option String → Option String → Desk → Desk
unfolding enqueue_for_repository enqueue_for_organization
enqueue_team (some r) o d = enqueue_for_repository (of_repository (codes r)) r d
enqueue_team none (some o) d = enqueue_for_organization (organization_repositories (codes o)) o d
enqueue_team none none d = d

-- `handleTeam`
unfoldable pub handle_team : AccessPayload → Desk → Desk
unfolding enqueue_team github_id_of
handle_team p d =
    if among ("added_to_repository" ∷ "removed_from_repository" ∷ "edited" ∷ "deleted" ∷ [])
      p.action
    then enqueue_team (github_id_of p.repository_id) (github_id_of p.organization_id) d
    else d

-- `AccessEventsService.handle`
unfoldable pub handle_access :
    ProjectFaults → AccessEventName → AccessPayload → Desk → Desk × Response Unit
unfolding handle_member handle_membership handle_organization handle_team
handle_access faults member p d = (handle_member p d, answer tt)
handle_access faults membership p d = (handle_membership p d, answer tt)
handle_access faults organization p d = handle_organization faults p d
handle_access faults team p d = (handle_team p d, answer tt)
