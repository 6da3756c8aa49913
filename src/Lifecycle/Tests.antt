-- ===== src/Lifecycle/Tests.antt =====
-- A revocation and a hiding on a small world, and the theorems at concrete inputs.
use tjc_be_rag_core_api.Base.{true, false, none, some, [], ◌∷◌, ◌≡◌, refl, All}
use tjc_be_rag_core_api.Access.{
  writer, admin, enabled, Project, AccessRecord, delete_record, lock_binding_status,
}
use tjc_be_rag_core_api.Access.Grants.{revoke}
use tjc_be_rag_core_api.Subscriptions.{follows, is_seen}
use tjc_be_rag_core_api.Subscriptions.Keys.{is_keyed}
use tjc_be_rag_core_api.Lifecycle.{
  World, Faults, is_dropped, user_ids, update_status, drop_access, revoke_binding, hide_project,
}
use tjc_be_rag_core_api.Lifecycle.Drops.{drop_access-All_kept}

abbrev shop : Project
shop = record {
  id = "p1";
  deleted = false;
  github_org_id = some "77";
  owner_user_id = none;
  binding = some (record {
    status = enabled;
    repository_name = "acme/shop";
    repository_id = "77";
    installation_id = "900";
    disabled_reason = none;
  });
}

abbrev boss : AccessRecord
boss = record { project_id = "p1"; user_id = "u1"; role = admin; verified_at = 5 }

abbrev author : AccessRecord
author = record { project_id = "p1"; user_id = "u2"; role = writer; verified_at = 5 }

abbrev world : World
world = record {
  store = record { projects = shop ∷ []; records = boss ∷ author ∷ [] };
  registry = record { sockets = []; left = [] };
}

abbrev calm : Faults
calm = record { refuses_user = λ u. false; refuses_sockets = false }

-- A revocation keeps the Admin record; a hiding keeps none.
drop_tests :
    ((revoke_binding calm "p1" enabled world).0.store.records ≡ boss ∷ [])
    × ((hide_project calm "p1" world).0.store.records ≡ [])
unfolding revoke_binding hide_project drop_access user_ids update_status revoke delete_record
    lock_binding_status
drop_tests = (refl, refl)

drop_access-All_kept_example :
    All (λ r. is_dropped true "p1" r ≡ false) ((drop_access calm "p1" true world).0).store.records
    × All
        (λ e.
          follows "p1" e ≡ true
          → is_seen ((drop_access calm "p1" true world).0).store "p1" e.user_id ≡ true)
        ((drop_access calm "p1" true world).0).registry.sockets
unfolding is_keyed drop_access user_ids revoke delete_record
drop_access-All_kept_example = drop_access-All_kept calm "p1" true world refl refl
