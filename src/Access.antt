-- ===== src/Access.antt =====
-- app/src/common/persistence/accessible-project.filter.ts and the reads and writes of
-- app/src/project-access/project-access.repository.ts: projects, access records, visibility.
pub mod Organization
pub mod Grants
pub mod Require
pub mod Guard
pub mod Candidates
mod Visibility
mod Derivation
mod Records
mod Entries
mod Reverification
mod Requests
mod Secrecy
mod Budgets
mod Tests
use tjc_be_rag_core_api.Base.{
  ℕ, String, Bool, true, false, not, ◌&&◌, ◌||◌, Option, none, some, List, [], ◌∷◌, leb, ◌==◌,
  if◌then◌else◌, is_text, str_eq, any, keep, find,
}

pub data ProjectRole : Type 0 where
  reader writer maintainer admin : ProjectRole

-- ROLE_RANK
abbrev pub rank : ProjectRole → ℕ
rank reader = 1
rank writer = 2
rank maintainer = 3
rank admin = 4

-- The keys of ROLE_RANK stand in ascending order, so the source's sort moves nothing.
unfoldable pub roles_at_least : ProjectRole → List ProjectRole
roles_at_least min_role =
    keep (λ r. leb (rank min_role) (rank r)) (reader ∷ writer ∷ maintainer ∷ admin ∷ [])

unfoldable pub is_role_at_least : ProjectRole → ProjectRole → Bool
is_role_at_least role min_role = leb (rank min_role) (rank role)

abbrev pub same_role : ProjectRole → ProjectRole → Bool
same_role r s = rank r == rank s

abbrev pub is_admin : ProjectRole → Bool
is_admin admin = true
is_admin _ = false

pub data BindingStatus : Type 0 where
  enabled disabled revoked : BindingStatus

abbrev pub is_revoked : BindingStatus → Bool
is_revoked revoked = true
is_revoked _ = false

pub data DisabledReason : Type 0 where
  by_user installation_suspended : DisabledReason

-- A row of `repository_bindings`, less its project, its branch and its times.
pub record Binding : Type 0 where
  pub status : BindingStatus
  pub repository_name : String
  pub repository_id : String
  pub installation_id : String
  pub disabled_reason : Option DisabledReason

-- A row of `projects` with its binding; `deleted` says that `deletedAt` is not null.
pub record Project : Type 0 where
  pub id : String
  pub deleted : Bool
  pub github_org_id : Option String
  pub owner_user_id : Option String
  pub binding : Option Binding

-- A row of `project_access`, whose key is the pair of ids.
pub record AccessRecord : Type 0 where
  pub project_id : String
  pub user_id : String
  pub role : ProjectRole
  pub verified_at : ℕ

pub record Store : Type 0 where
  pub projects : List Project
  pub records : List AccessRecord

abbrev pub is_record_of : String → String → AccessRecord → Bool
is_record_of project_id user_id r = str_eq r.project_id project_id && str_eq r.user_id user_id

-- A binding that exists and is not REVOKED.
abbrev pub is_bound : Option Binding → Bool
is_bound none = false
is_bound (some b) = not (is_revoked b.status)

abbrev pub is_personal : Project → Bool
is_personal p = elim p.github_org_id [ none ↦ true | some _ ↦ false ]

-- `accessibleProject(userId, minRole)`: the three branches of the predicate.
unfoldable pub accessible_project : String → ProjectRole → List AccessRecord → Project → Bool
unfolding roles_at_least
accessible_project user_id min_role records p =
    let mine = is_record_of p.id user_id in
    not p.deleted
    && ((is_personal p && is_text p.owner_user_id user_id)
        || (not (is_personal p) && any (λ r. mine r && is_admin r.role) records)
        || (not (is_personal p)
            && any (λ r. mine r && any (same_role r.role) (roles_at_least min_role)) records
            && is_bound p.binding))

-- `findRecord` of the lock scope, and the access row that `findVisible` includes.
unfoldable pub find_record : String → String → Store → Option AccessRecord
find_record project_id user_id s = find (is_record_of project_id user_id) s.records

-- `findVisible`
unfoldable pub find_visible : String → String → Store → Option Project
find_visible project_id user_id s =
    find (λ p. str_eq p.id project_id && accessible_project user_id reader s.records p) s.projects

-- `findLive`, and `findProject` of the lock scope.
unfoldable pub find_live : String → Store → Option Project
find_live project_id s = find (λ p. str_eq p.id project_id && not p.deleted) s.projects

-- `lockBindingStatus`: whatever the project's state is.
unfoldable pub lock_binding_status : String → Store → Option BindingStatus
lock_binding_status project_id s = elim (find (λ p. str_eq p.id project_id) s.projects) [
  | none ↦ none
  | some p ↦ elim p.binding [ none ↦ none | some b ↦ some b.status ]
]

-- `deleteRecord`
unfoldable pub delete_record : String → String → Store → Store
delete_record project_id user_id s = record s {
  records = keep (λ r. not (is_record_of project_id user_id r)) s.records;
}

unfoldable pub upsert : AccessRecord → List AccessRecord → List AccessRecord
upsert new [] = new ∷ []
upsert new (r ∷ records) =
    if is_record_of new.project_id new.user_id r
    then record r { role = new.role; verified_at = new.verified_at } ∷ records
    else r ∷ upsert new records

-- `upsertRecord`
unfoldable pub upsert_record : String → String → ProjectRole → ℕ → Store → Store
unfolding upsert
upsert_record project_id user_id role now s = record s {
  records =
      upsert (record { project_id = project_id; user_id = user_id; role = role; verified_at = now })
        s.records;
}
