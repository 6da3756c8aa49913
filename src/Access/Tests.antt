-- ===== src/Access/Tests.antt =====
-- Entries, reverifications and requests on a small store, and the theorems at concrete inputs.
use tjc_be_rag_core_api.Base.{
  String, true, false, none, some, Option, [], ◌∷◌, ◌≡◌, ◌↔◌, refl, str_eq, if◌then◌else◌,
}
use tjc_be_rag_core_api.Errors.{answer}
use tjc_be_rag_core_api.Access.{
  ProjectRole, reader, writer, maintainer, roles_at_least, is_role_at_least, enabled, revoked,
  Binding, Project, AccessRecord, Store, accessible_project, find_visible, find_live, find_record,
  lock_binding_status, upsert_record, upsert, delete_record,
}
use tjc_be_rag_core_api.Access.Organization.{
  ok, unverifiable, GithubAccess, Installation, Membership, member, write, resolve,
  resolve_from_installation,
}
use tjc_be_rag_core_api.Access.Grants.{
  granted, updated, kept_unverified, revoked_record, Transaction, derive_role, role_for_permission,
  grant_on_entry, reverify, confirm_grant, confirm_reverify,
}
use tjc_be_rag_core_api.Access.Require.{
  ResourceKind, AccessGrant, Entry, authorize, require, require_for_resource,
}
use tjc_be_rag_core_api.Access.Guard.{param, at, needs_role, Route, Request, can_activate}
use tjc_be_rag_core_api.Access.Visibility.{CanSee, accessible_project-CanSee}
use tjc_be_rag_core_api.Access.Derivation.{Entitled, derive_role-Entitled}
use tjc_be_rag_core_api.Access.Entries.{Enrolled, grant_on_entry-Enrolled}
use tjc_be_rag_core_api.Access.Reverification.{Reverified, reverify-Reverified}
use tjc_be_rag_core_api.Access.Requests.{IsGranted, require-IsGranted}
use tjc_be_rag_core_api.Access.Secrecy.{Passes, can_activate-Passes}

abbrev bound : Binding
bound = record {
  status = enabled;
  repository_name = "acme/shop";
  repository_id = "77";
  installation_id = "900";
  disabled_reason = none;
}

abbrev shop : Project
shop = record {
  id = "p1";
  deleted = false;
  github_org_id = some "77";
  owner_user_id = none;
  binding = some bound;
}

abbrev diary : Project
diary = record {
  id = "p2";
  deleted = false;
  github_org_id = none;
  owner_user_id = some "u2";
  binding = none;
}

abbrev empty_store : Store
empty_store = record { projects = shop ∷ diary ∷ []; records = [] }

abbrev row : ProjectRole → AccessRecord
row role = record { project_id = "p1"; user_id = "u1"; role = role; verified_at = 5 }

abbrev with_row : ProjectRole → Store
with_row role = record empty_store { records = row role ∷ [] }

abbrev installed : Installation
installed = record {
  installation_id = "i1";
  organization_id = "77";
  organization_login = "acme";
  suspended = false;
}

abbrev member_of_acme : Membership
member_of_acme = record { role = member; active = true }

abbrev github : GithubAccess
github = record {
  installations = ok (installed ∷ []);
  membership = λ i user. ok member_of_acme;
  permission = λ i name user. ok write;
}

abbrev quiet : Transaction
quiet = record { github = github; now = 9; timed_out = false; meanwhile = λ s. s }

-- Another transaction revokes the binding between the reads and the write.
abbrev raced : Transaction
raced = record quiet {
  meanwhile = λ s. record s {
    projects = record shop { binding = some (record bound { status = revoked }) } ∷ [];
  };
}

abbrev down : Transaction
down = record quiet { github = record github { installations = unverifiable } }

abbrev entry : Entry
entry = record { identity = answer "g1"; waiting = λ s. s; transaction = quiet }

abbrev owner_of : ResourceKind → String → Option String
owner_of kind id = if str_eq id "r1" then some "p2" else if str_eq id "r2" then some "p1" else none

-- An entry writes the derived role; a binding that is revoked meanwhile stops it, and makes a
-- reverification delete the record; GitHub's silence keeps it.
entry_tests :
    ((grant_on_entry quiet "p1" "u1" "g1" empty_store).1 ≡ granted writer)
    × ((grant_on_entry raced "p1" "u1" "g1" empty_store).0.records ≡ [])
    × ((reverify quiet "p1" "u1" "g1" (with_row maintainer)).1 ≡ updated)
    × ((reverify raced "p1" "u1" "g1" (with_row maintainer)).1 ≡ revoked_record)
    × ((reverify down "p1" "u1" "g1" (with_row maintainer)).1 ≡ kept_unverified)
unfolding grant_on_entry reverify derive_role resolve resolve_from_installation confirm_grant
    confirm_reverify find_live find_record lock_binding_status upsert_record upsert delete_record
    role_for_permission
entry_tests = (refl, refl, refl, refl, refl)

accessible_project-CanSee_example :
    (accessible_project "u1" reader (row writer ∷ []) shop ≡ true)
    ↔ ((shop.deleted ≡ false) × CanSee "u1" reader (row writer ∷ []) shop)
accessible_project-CanSee_example = accessible_project-CanSee "u1" reader (row writer ∷ []) shop

derive_role-Entitled_example :
    (derive_role github shop "77" "g1" ≡ granted writer) ↔ Entitled github shop "77" "g1" writer
derive_role-Entitled_example = derive_role-Entitled github shop "77" "g1" writer

abbrev written : Store
written = record empty_store {
  records = record { project_id = "p1"; user_id = "u1"; role = writer; verified_at = 9 } ∷ [];
}

grant_on_entry-Enrolled_example : Enrolled "p1" "u1" writer written
unfolding grant_on_entry derive_role resolve resolve_from_installation confirm_grant find_live
    find_record lock_binding_status upsert_record upsert role_for_permission
grant_on_entry-Enrolled_example =
    grant_on_entry-Enrolled quiet "p1" "u1" "g1" empty_store written writer refl

reverify-Reverified_example :
    Reverified quiet "p1" "u1" "g1"
      (with_row maintainer)
      (reverify quiet "p1" "u1" "g1" (with_row maintainer)).0
      (reverify quiet "p1" "u1" "g1" (with_row maintainer)).1
reverify-Reverified_example = reverify-Reverified quiet "p1" "u1" "g1" (with_row maintainer)

abbrev writer_grant : AccessGrant
writer_grant = record { project = shop; role = writer }

require-IsGranted_example : IsGranted "p1" reader writer_grant
unfolding require authorize is_role_at_least find_visible accessible_project roles_at_least
    grant_on_entry derive_role resolve resolve_from_installation confirm_grant find_live find_record
    lock_binding_status upsert_record role_for_permission
require-IsGranted_example = require-IsGranted entry "u1" "p1" reader empty_store writer_grant refl

abbrev route : Route
route = record {
  is_public = false;
  is_ws = false;
  policy = some (needs_role reader (at param "id" ResourceKind.experiment));
}

abbrev get_r2 : Request
get_r2 = record { user_id = some "u1"; field = λ place name. some "r2" }

can_activate-Passes_example : Passes owner_of entry get_r2 route empty_store
unfolding can_activate require_for_resource require authorize is_role_at_least find_visible
    accessible_project roles_at_least grant_on_entry derive_role resolve resolve_from_installation
    confirm_grant find_live find_record lock_binding_status upsert_record role_for_permission
can_activate-Passes_example = can_activate-Passes owner_of entry get_r2 route empty_store refl
