-- ===== src/Events/Bindings.antt =====
-- app/src/github-webhooks/repository-events.service.ts, and the events of installations in
-- app/src/github-webhooks/github-webhooks.service.ts: what they do of bindings.
use tjc_be_rag_core_api.Base.{
  ℕ, String, Bool, false, not, ◌&&◌, ◌||◌, Option, none, some, List, [], ◌∷◌, map, if◌then◌else◌,
  str_eq, is_text, ◌==◌, any, find, codes,
}
use tjc_be_rag_core_api.Errors.{Response, answer}
use tjc_be_rag_core_api.Access.{Binding, Project, Store, is_personal}
use tjc_be_rag_core_api.Identity.{Link}
use tjc_be_rag_core_api.Lifecycle.{revoke_binding, expected_owner_id}
use tjc_be_rag_core_api.Organizations.{
  ProjectFaults, suspend_by_installation, unsuspend_by_installation,
}
use tjc_be_rag_core_api.Reverify.{of_repository}
use tjc_be_rag_core_api.Events.{
  Desk, github_id_of, among, is_binding_of, enqueue, in_world, hide_organization,
}

-- What the handler reads of the payload of a `repository` event.
pub record RepositoryPayload : Type 0 where
  pub action : String
  pub repository_id : Option String
  pub full_name : String
  pub owner_id : Option String

-- A live project with its binding.
pub record BoundProject : Type 0 where
  pub project : Project
  pub binding : Binding

abbrev pub as_bound_of : Project → Option Binding → Option BoundProject
as_bound_of p none = none
as_bound_of p (some b) = some (record { project = p; binding = b })

abbrev pub as_bound : Option Project → Option BoundProject
as_bound none = none
as_bound (some p) = as_bound_of p p.binding

-- `findByRepositoryIdWithWorkspace`
unfoldable pub find_bound : String → Store → Option BoundProject
find_bound repository_id s =
    as_bound (find (λ p. not p.deleted && is_binding_of repository_id p.binding) s.projects)

abbrev pub slash : ℕ
slash = b'/'

abbrev pub rename_repository : String → String → Project → Project
rename_repository project_id name p =
    if str_eq p.id project_id
    then record p {
      binding = elim p.binding [
        | none ↦ none
        | some b ↦ some (record b { repository_name = name })
      ];
    }
    else p

-- `updateRepositoryName`
unfoldable pub update_repository_name : String → String → Store → Store
update_repository_name project_id name s = record s {
  projects = map (rename_repository project_id name) s.projects;
}

-- `applyName`
unfoldable pub apply_name : BoundProject → RepositoryPayload → Desk → Desk
unfolding update_repository_name
apply_name b p d =
    if not (any (λ c. c == slash) (codes p.full_name))
      || str_eq p.full_name b.binding.repository_name
    then d
    else record d {
      world = record d.world {
        store = update_repository_name b.project.id p.full_name d.world.store;
      };
    }

-- `revokeBinding`, of the binding as it was read.
unfoldable pub revoke_bound : ProjectFaults → BoundProject → Desk → Desk × Response Unit
unfolding revoke_binding
revoke_bound faults b d =
    in_world d (revoke_binding (faults b.project.id) b.project.id b.binding.status d.world)

-- Where no owner is expected, no transfer is inferred.
abbrev pub is_foreign : String → Option String → Bool
is_foreign owner none = false
is_foreign owner (some expected) = not (str_eq owner expected)

module _ (faults : ProjectFaults) (links : List Link) where
  -- `handleTransfer`
  unfoldable pub transfer_to :
      Option String → BoundProject → RepositoryPayload → Desk → Desk × Response Unit
  unfolding expected_owner_id revoke_bound apply_name
  transfer_to none b p d = (d, answer tt)
  transfer_to (some owner) b p d =
      if is_foreign owner (expected_owner_id b.project links)
      then revoke_bound faults b d
      else (apply_name b p d, answer tt)

  unfoldable pub handle_bound :
      Option BoundProject → RepositoryPayload → Desk → Desk × Response Unit
  unfolding transfer_to revoke_bound apply_name github_id_of
  handle_bound none p d = (d, answer tt)
  handle_bound (some b) p d =
      if str_eq p.action "renamed"
      then (apply_name b p d, answer tt)
      else if str_eq p.action "deleted"
      then revoke_bound faults b d
      else if str_eq p.action "transferred"
      then transfer_to (github_id_of p.owner_id) b p d
      else if is_personal b.project
      then (d, answer tt)
      else (enqueue (of_repository (codes b.binding.repository_id)) d, answer tt)

  unfoldable pub handle_known : Option String → RepositoryPayload → Desk → Desk × Response Unit
  unfolding handle_bound find_bound
  handle_known none p d = (d, answer tt)
  handle_known (some id) p d = handle_bound (find_bound id d.world.store) p d

  -- `RepositoryEventsService.handle`
  unfoldable pub handle_repository : RepositoryPayload → Desk → Desk × Response Unit
  unfolding handle_known github_id_of
  handle_repository p d =
      if among ("renamed" ∷ "transferred" ∷ "deleted" ∷ "privatized" ∷ []) p.action
      then handle_known (github_id_of p.repository_id) p d
      else (d, answer tt)

-- What the handler reads of the payload of an `installation` event.
pub record InstallationPayload : Type 0 where
  pub action : String
  pub installation_id : String
  pub account_id : Option String
  pub account_type : Option String

abbrev pub with_bound : String → Project → Option Binding → List BoundProject → List BoundProject
with_bound installation_id p none bs = bs
with_bound installation_id p (some b) bs =
    if str_eq b.installation_id installation_id
    then record { project = p; binding = b } ∷ bs
    else bs

-- `findByInstallation`
unfoldable pub find_by_installation : String → List Project → List BoundProject
find_by_installation installation_id [] = []
find_by_installation installation_id (p ∷ ps) =
    with_bound installation_id p p.binding (find_by_installation installation_id ps)

-- `revokeIsolated`: a failure does not stop the others.
unfoldable pub revoke_isolated : ProjectFaults → List BoundProject → Desk → Desk
unfolding revoke_bound
revoke_isolated faults [] d = d
revoke_isolated faults (b ∷ bs) d = revoke_isolated faults bs (revoke_bound faults b d).0

-- `handleInstallationEvent`
unfoldable pub handle_installation : ProjectFaults → InstallationPayload → Desk → Desk
unfolding revoke_isolated find_by_installation hide_organization github_id_of
    suspend_by_installation unsuspend_by_installation
handle_installation faults p d =
    if str_eq p.action "deleted"
    then (hide_organization faults
        (if is_text p.account_type "Organization" then github_id_of p.account_id else none)
        (revoke_isolated faults (find_by_installation p.installation_id d.world.store.projects)
          d)).0
    else if str_eq p.action "suspend"
    then record d {
      world = record d.world { store = suspend_by_installation p.installation_id d.world.store };
    }
    else if str_eq p.action "unsuspend"
    then record d {
      world = record d.world { store = unsuspend_by_installation p.installation_id d.world.store };
    }
    else d

unfoldable pub revoke_if_of : ProjectFaults → String → Option BoundProject → Desk → Desk
unfolding revoke_bound
revoke_if_of faults installation_id none d = d
revoke_if_of faults installation_id (some b) d =
    if str_eq b.binding.installation_id installation_id then (revoke_bound faults b d).0 else d

-- `handleInstallationRepositoriesEvent`, of the repositories that were removed.
unfoldable pub remove_repositories : ProjectFaults → String → List String → Desk → Desk
unfolding find_bound revoke_if_of
remove_repositories faults installation_id [] d = d
remove_repositories faults installation_id (id ∷ ids) d =
    remove_repositories faults installation_id ids
      (revoke_if_of faults installation_id (find_bound id d.world.store) d)

unfoldable pub handle_installation_repositories :
    ProjectFaults → String → String → List String → Desk → Desk
unfolding remove_repositories
handle_installation_repositories faults action installation_id removed d =
    if str_eq action "removed" then remove_repositories faults installation_id removed d else d
