-- ===== src/Organizations.antt =====
-- app/src/access-sync/organization-lifecycle.service.ts, and the bindings of an installation in
-- app/src/repository-bindings/repository-bindings.repository.ts.
pub mod Hiding
pub mod Pauses
mod Tests
use tjc_be_rag_core_api.Base.{
  ℕ, String, Bool, true, false, not, ◌&&◌, ◌||◌, Option, none, some, List, [], ◌∷◌, map,
  if◌then◌else◌, str_eq, is_text, same_text, keep, find,
}
use tjc_be_rag_core_api.Errors.{Response, answer, throws, internal_error, internal}
use tjc_be_rag_core_api.Access.{
  BindingStatus, enabled, disabled, DisabledReason, installation_suspended, Binding, Project, Store,
}
use tjc_be_rag_core_api.Access.Organization.{
  Lookup, ok, not_found, not_installed, unverifiable, Installation,
}
use tjc_be_rag_core_api.Lifecycle.{World, Faults, hide_project}

-- `findLiveProjectIdsOfOrganization`
abbrev is_live_of : String → Project → Bool
is_live_of organization_id p = not p.deleted && is_text p.github_org_id organization_id

unfoldable pub live_projects_of : String → Store → List String
live_projects_of organization_id s = map (λ p. p.id) (keep (is_live_of organization_id) s.projects)

abbrev pub failed : {A : Type 0} → Response A → Bool
failed (throws e) = true
failed (answer a) = false

-- What the database refuses of each project.
abbrev pub ProjectFaults : Type 0
ProjectFaults = String → Faults

-- The projects are hidden at most five at a time; the flag says that one failed.
unfoldable pub hide_each : ProjectFaults → List String → World → World × Bool
unfolding hide_project
hide_each faults [] w = (w, false)
hide_each faults (id ∷ ids) w =
    let hidden = hide_project (faults id) id w in
    let rest = hide_each faults ids hidden.0 in (rest.0, failed hidden.1 || rest.1)

abbrev pub hidden_all : World × Bool → World × Response Unit
hidden_all (w, true) = (w, throws (internal internal_error))
hidden_all (w, false) = (w, answer tt)

-- `hide`
unfoldable pub hide : ProjectFaults → String → World → World × Response Unit
unfolding live_projects_of hide_each
hide faults organization_id w =
    hidden_all (hide_each faults (live_projects_of organization_id w.store) w)

-- `OrganizationReconciliation`
pub data Reconciliation : Type 0 where
  in_order renamed hidden unverified reconciliation_failed : Reconciliation

-- What `reconcile` leaves: the world, the login that was stored, and the result.
pub record Reconciled : Type 0 where
  pub world : World
  pub new_login : Option String
  pub result : Reconciliation

abbrev pub unchanged : World → Reconciliation → Reconciled
unchanged w result = record { world = w; new_login = none; result = result }

abbrev hidden_by : World × Response Unit → Reconciled
hidden_by (w, answer done) = record { world = w; new_login = none; result = hidden }
hidden_by (w, throws e) = record { world = w; new_login = none; result = reconciliation_failed }

abbrev pub check_login : Option String → Installation → World → Reconciled
check_login login i w =
    if is_text login i.organization_login
    then unchanged w in_order
    else record { world = w; new_login = some i.organization_login; result = renamed }

abbrev pub no_owner : List String → Bool
no_owner [] = true
no_owner (o ∷ os) = false

module _ (faults : ProjectFaults) (organization_id : String) (login : Option String) where
  unfoldable pub by_owners : Installation → Lookup (List String) → World → Reconciled
  unfolding hide
  by_owners i unverifiable w = unchanged w unverified
  by_owners i not_found w = hidden_by (hide faults organization_id w)
  by_owners i not_installed w = hidden_by (hide faults organization_id w)
  by_owners i (ok owners) w =
      if no_owner owners then unchanged w unverified else check_login login i w

  unfoldable pub by_installation :
      Option Installation → (Installation → Lookup (List String)) → World → Reconciled
  unfolding hide by_owners
  by_installation none owners w = hidden_by (hide faults organization_id w)
  by_installation (some i) owners w =
      if i.suspended then unchanged w unverified else by_owners i (owners i) w

  -- `reconcile`; `listOrganizationOwners` is an argument.
  unfoldable pub reconcile :
      (Installation → Lookup (List String)) → List Installation → World → Reconciled
  unfolding by_installation
  reconcile owners installations w =
      by_installation (find (λ i. str_eq i.organization_id organization_id) installations) owners w

abbrev pub is_enabled : BindingStatus → Bool
is_enabled enabled = true
is_enabled _ = false

abbrev pub is_disabled : BindingStatus → Bool
is_disabled disabled = true
is_disabled _ = false

abbrev pub is_suspension : Option DisabledReason → Bool
is_suspension (some installation_suspended) = true
is_suspension _ = false

abbrev pub suspend_binding : String → Binding → Binding
suspend_binding installation_id b =
    if str_eq b.installation_id installation_id && is_enabled b.status
    then record b { status = disabled; disabled_reason = some installation_suspended }
    else b

abbrev pub resume_binding : String → Binding → Binding
resume_binding installation_id b =
    if str_eq b.installation_id installation_id
      && (is_disabled b.status && is_suspension b.disabled_reason)
    then record b { status = enabled; disabled_reason = none }
    else b

abbrev pub on_binding : (Binding → Binding) → Project → Project
on_binding f p = record p { binding = elim p.binding [ none ↦ none | some b ↦ some (f b) ] }

-- `suspendByInstallation`
unfoldable pub suspend_by_installation : String → Store → Store
suspend_by_installation installation_id s = record s {
  projects = map (on_binding (suspend_binding installation_id)) s.projects;
}

-- `unsuspendByInstallation`
unfoldable pub unsuspend_by_installation : String → Store → Store
unsuspend_by_installation installation_id s = record s {
  projects = map (on_binding (resume_binding installation_id)) s.projects;
}
