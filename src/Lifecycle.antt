-- ===== src/Lifecycle.antt =====
-- app/src/access-sync/binding-lifecycle.service.ts: what goes when a binding is revoked or a project
-- is hidden.
pub mod Drops
pub mod Kept
pub mod Bindings
mod Tests
use tjc_be_rag_core_api.Base.{
  ℕ, ◌+◌, String, Bool, true, false, not, ◌&&◌, ◌||◌, Option, none, some, List, [], ◌∷◌, map,
  if◌then◌else◌, str_eq, keep, find,
}
use tjc_be_rag_core_api.Errors.{Response, answer, throws, internal_error, internal}
use tjc_be_rag_core_api.Access.{
  BindingStatus, revoked, Binding, Project, AccessRecord, Store, is_admin, is_revoked,
  lock_binding_status,
}
use tjc_be_rag_core_api.Access.Grants.{revoke}
use tjc_be_rag_core_api.Subscriptions.{Registry, revalidate_project}
use tjc_be_rag_core_api.Identity.{Link, find_by_user_id}

-- The database of projects and records, and the sockets of this process.
pub record World : Type 0 where
  pub store : Store
  pub registry : Registry

-- Which deletions the database refuses, and whether it refuses the revalidation of the sockets.
pub record Faults : Type 0 where
  pub refuses_user : String → Bool
  pub refuses_sockets : Bool

abbrev pub with_status : BindingStatus → Option Binding → Option Binding
with_status status none = none
with_status status (some b) = some (record b { status = status; disabled_reason = none })

abbrev pub update_project : String → BindingStatus → Project → Project
update_project project_id status p =
    if str_eq p.id project_id then record p { binding = with_status status p.binding } else p

-- `updateStatus`, of the binding of a project, to a status that is not DISABLED.
unfoldable pub update_status : String → BindingStatus → Store → Store
update_status project_id status s = record s {
  projects = map (update_project project_id status) s.projects;
}

-- `findNonAdminUserIds` and `findAllUserIds`
abbrev pub is_dropped : Bool → String → AccessRecord → Bool
is_dropped include_admin project_id r =
    str_eq r.project_id project_id && (include_admin || not (is_admin r.role))

unfoldable pub user_ids : Bool → String → Store → List String
user_ids include_admin project_id s =
    map (λ r. r.user_id) (keep (is_dropped include_admin project_id) s.records)

module _ (faults : Faults) (project_id : String) where
  -- The deletions run at most five at a time; each takes its own lock.
  abbrev pub drop_users : List String → Store × Bool → Store × Bool
  drop_users [] done = done
  drop_users (user ∷ users) done =
      drop_users users (
        if faults.refuses_user user
        then (done.0, true)
        else (revoke project_id user done.0, done.1))

  -- What follows the deletions; the flag says that one failed.
  abbrev pub expel : Store × Bool → Registry → World × Response Unit
  expel dropped registry =
      let failed = dropped.1 || faults.refuses_sockets in
      let registry' =
        if faults.refuses_sockets
        then registry
        else (revalidate_project dropped.0 project_id registry).0 in
      (
        record { store = dropped.0; registry = registry' },
        if failed then throws (internal internal_error) else answer tt,
      )

  -- `dropAccess`
  unfoldable pub drop_access : Bool → World → World × Response Unit
  unfolding user_ids
  drop_access include_admin w =
      expel (drop_users (user_ids include_admin project_id w.store) (w.store, false)) w.registry

  -- `revokeBinding`, of a binding that was read with this status.
  unfoldable pub revoke_binding : BindingStatus → World → World × Response Unit
  revoke_binding status w = drop_access false (
      if is_revoked status
      then w
      else record w { store = update_status project_id revoked w.store })

  -- `hideProject`
  abbrev pub hide_with : Option BindingStatus → World → World × Response Unit
  hide_with none w = drop_access true w
  hide_with (some status) w = drop_access true (
      if is_revoked status
      then w
      else record w { store = update_status project_id revoked w.store })

  unfoldable pub hide_project : World → World × Response Unit
  hide_project w = hide_with (lock_binding_status project_id w.store) w

-- `expectedOwnerId`
unfoldable pub expected_owner_id : Project → List Link → Option String
expected_owner_id p links = elim p.github_org_id [
  | some org ↦ some org
  | none ↦ elim p.owner_user_id [
    | none ↦ none
    | some user ↦ elim (find_by_user_id user links) [ none ↦ none | some l ↦ some l.github_user_id ]
  ]
]
