-- ===== src/Events/Tests.antt =====
-- Events on a small world, and the theorems at concrete inputs.
use tjc_be_rag_core_api.Base.{
  String, true, false, none, some, [], ◌∷◌, ◌≡◌, refl, All, ◌<◌, arith, codes,
}
use tjc_be_rag_core_api.Access.{
  writer, admin, enabled, Project, AccessRecord, Binding, is_bound, lock_binding_status,
  delete_record,
}
use tjc_be_rag_core_api.Access.Grants.{revoke}
use tjc_be_rag_core_api.Lifecycle.{
  World, Faults, revoke_binding, hide_project, update_status, drop_access, user_ids,
}
use tjc_be_rag_core_api.Organizations.{hide, hide_each, live_projects_of}
use tjc_be_rag_core_api.Reverify.{user_repository, parse_reverify_payload, write_payload}
use tjc_be_rag_core_api.Events.{member, AccessPayload, Desk, handle_access}
use tjc_be_rag_core_api.Events.Bindings.{InstallationPayload, handle_installation, revoke_bound}
use tjc_be_rag_core_api.Events.Effects.{of_access, of_installation, handle_event}
use tjc_be_rag_core_api.Events.Records.{handle_event-All}
use tjc_be_rag_core_api.Events.Scopes.{handle_event-All_readable}
use tjc_be_rag_core_api.Events.Revoked.{is_of_installation, handle_installation-All_revoked}

abbrev bound : Binding
bound = record {
  status = enabled;
  repository_name = "acme/shop";
  repository_id = "77";
  installation_id = "900";
  disabled_reason = none;
}

abbrev shop : Project
shop = record {
  id = "p1";
  deleted = false;
  github_org_id = some "55";
  owner_user_id = none;
  binding = some bound;
}

abbrev boss : AccessRecord
boss = record { project_id = "p1"; user_id = "u1"; role = admin; verified_at = 5 }

abbrev author : AccessRecord
author = record { project_id = "p1"; user_id = "u2"; role = writer; verified_at = 5 }

abbrev world : World
world = record {
  store = record { projects = shop ∷ []; records = boss ∷ author ∷ [] };
  registry = record { sockets = []; left = [] };
}

abbrev calm : String → Faults
calm id = record { refuses_user = λ u. false; refuses_sockets = false }

abbrev desk : Desk
desk = record { world = world; scopes = []; logins = [] }

abbrev joins : AccessPayload
joins = record {
  action = "added";
  member_id = some "12";
  repository_id = some "77";
  organization_id = none;
  organization_login = none;
  membership_user_id = none;
}

abbrev uninstalls : InstallationPayload
uninstalls = record {
  action = "deleted";
  installation_id = "900";
  account_id = some "55";
  account_type = some "Organization";
}

-- A member who joins is verified again, and not let in; a payload without an id is ignored.
member_tests :
    ((handle_access calm member joins desk).0.scopes
      ≡ user_repository (codes "12") (codes "77") ∷ [])
    × ((handle_access calm member (record joins { member_id = some "0x" }) desk).0 ≡ desk)
unfolding handle_access
member_tests = (refl, refl)

-- An App that is uninstalled leaves no record of the organization.
uninstall_tests : (handle_installation calm uninstalls desk).world.store.records ≡ []
unfolding handle_installation revoke_bound revoke_binding hide hide_each hide_project
    live_projects_of update_status drop_access user_ids lock_binding_status revoke delete_record
uninstall_tests = refl

handle_event-All_example :
    All
      (λ r. 4 < r.verified_at)
      (handle_event calm [] (of_installation uninstalls) desk).world.store.records
handle_event-All_example =
    handle_event-All (λ r. 4 < r.verified_at) calm [] (of_installation uninstalls) desk
      (omega arith, (omega arith, tt))

handle_event-All_readable_example :
    All
      (λ s. parse_reverify_payload (write_payload s 0) ≡ some (record { scope = s; deferrals = 0 }))
      (handle_event calm [] (of_access member joins) desk).scopes
handle_event-All_readable_example =
    handle_event-All_readable calm [] (of_access member joins) desk tt

handle_installation-All_revoked_example :
    All
      (λ q. is_of_installation "900" q.binding ≡ true → is_bound q.binding ≡ false)
      (handle_installation calm uninstalls desk).world.store.projects
handle_installation-All_revoked_example = handle_installation-All_revoked calm uninstalls desk refl
