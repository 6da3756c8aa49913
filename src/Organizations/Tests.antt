-- ===== src/Organizations/Tests.antt =====
-- An organization that goes and one that is paused, and the theorems at concrete inputs.
use tjc_be_rag_core_api.Base.{
  String, false, none, some, [], ◌∷◌, ◌≡◌, refl, any, str_eq, All, true, subst,
}
use tjc_be_rag_core_api.Errors.{answer}
use tjc_be_rag_core_api.Access.Grants.{revoke}
use tjc_be_rag_core_api.Access.{
  lock_binding_status, delete_record, writer, admin, enabled, disabled, installation_suspended,
  Project, AccessRecord, Binding,
}
use tjc_be_rag_core_api.Access.Organization.{ok, Installation}
use tjc_be_rag_core_api.Lifecycle.{
  World, Faults, hide_project, update_status, drop_access, user_ids,
}
use tjc_be_rag_core_api.Organizations.{
  live_projects_of, hide_each, hide, reconcile, by_installation, by_owners, hidden, unverified,
  suspend_by_installation, unsuspend_by_installation,
}
use tjc_be_rag_core_api.Organizations.Hiding.{hide-gone}
use tjc_be_rag_core_api.Organizations.Pauses.{
  IsClear, unsuspend_by_installation-suspend_by_installation,
}

abbrev bound : Binding
bound = record {
  status = enabled;
  repository_name = "acme/shop";
  repository_id = "77";
  installation_id = "900";
  disabled_reason = none;
}

abbrev shop : Project
shop = record {
  id = "p1";
  deleted = false;
  github_org_id = some "55";
  owner_user_id = none;
  binding = some bound;
}

abbrev boss : AccessRecord
boss = record { project_id = "p1"; user_id = "u1"; role = admin; verified_at = 5 }

abbrev author : AccessRecord
author = record { project_id = "p1"; user_id = "u2"; role = writer; verified_at = 5 }

abbrev world : World
world = record {
  store = record { projects = shop ∷ []; records = boss ∷ author ∷ [] };
  registry = record { sockets = []; left = [] };
}

abbrev calm : String → Faults
calm id = record { refuses_user = λ u. false; refuses_sockets = false }

abbrev acme : Installation
acme = record {
  installation_id = "900";
  organization_id = "55";
  organization_login = "acme";
  suspended = false;
}

-- A hiding leaves no record of the organization; without an installation it is hidden, and an empty
-- list of owners is no confirmation.
hide_tests :
    ((hide calm "55" world).0.store.records ≡ [])
    × ((reconcile calm "55" none (λ i. ok []) [] world).result ≡ hidden)
    × ((reconcile calm "55" none (λ i. ok []) (acme ∷ []) world).result ≡ unverified)
unfolding hide live_projects_of hide_each hide_project update_status drop_access user_ids reconcile
    by_installation by_owners lock_binding_status revoke delete_record
hide_tests = (refl, refl, refl)

hide-gone_example :
    (let after = hide calm "55" world in
      (after.1 ≡ answer tt
        → All
            (λ r. any (str_eq r.project_id) (live_projects_of "55" world.store) ≡ false)
            (after.0).store.records)
      × ((P : AccessRecord → Type 0) → All P world.store.records → All P (after.0).store.records))
hide-gone_example = hide-gone calm "55" world

suspended_tests :
    (suspend_by_installation "900" world.store).projects
    ≡ record shop {
      binding =
          some (record bound { status = disabled; disabled_reason = some installation_suspended });
    }
      ∷ []
unfolding suspend_by_installation
suspended_tests = refl

clear : (b : Binding) → shop.binding ≡ some b → str_eq b.installation_id "900" ≡ true → IsClear b
clear b e mine = let same : bound ≡ b = cc in subst IsClear same (λ x. refl, refl)

unsuspend_by_installation-suspend_by_installation_example :
    unsuspend_by_installation "900" (suspend_by_installation "900" world.store) ≡ world.store
unsuspend_by_installation-suspend_by_installation_example =
    unsuspend_by_installation-suspend_by_installation "900" world.store (clear, tt)
