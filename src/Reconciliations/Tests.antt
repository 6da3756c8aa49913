-- ===== src/Reconciliations/Tests.antt =====
-- Three bindings, one of which GitHub no longer finds, and the theorems at concrete inputs.
use tjc_be_rag_core_api.Base.{
  ℕ, String, false, none, some, List, [], ◌∷◌, ◌≡◌, refl, str_eq, if◌then◌else◌, Option, arith,
}
use tjc_be_rag_core_api.Errors.{Response, answer}
use tjc_be_rag_core_api.Access.{Project, enabled}
use tjc_be_rag_core_api.Access.Organization.{Lookup, ok, not_found}
use tjc_be_rag_core_api.Lifecycle.{World, drop_access, update_status, expected_owner_id}
use tjc_be_rag_core_api.Events.Bindings.{BoundProject}
use tjc_be_rag_core_api.Reconciliations.{
  BindingPlace, GithubRepository, Surroundings, Pass, Summary, reconcile_binding,
  reconcile_bindings,
}
use tjc_be_rag_core_api.Reconciliations.Worlds.{IsUntouched, reconcile_binding-IsConfirmed}
use tjc_be_rag_core_api.Reconciliations.Passes.{Reaches, reconcile_bindings-Reaches}

abbrev project : String → String → Project
project id repository = record {
  id = id;
  deleted = false;
  github_org_id = some "7";
  owner_user_id = none;
  binding = some (record {
    status = enabled;
    repository_name = "acme/shop";
    repository_id = repository;
    installation_id = "i";
    disabled_reason = none;
  });
}

abbrev world : World
world = record {
  store = record {
    projects = project "a" "1" ∷ project "b" "2" ∷ project "c" "3" ∷ [];
    records = [];
  };
  registry = record { sockets = []; left = [] };
}

abbrev places : List BindingPlace
places =
    record { place = 10; project_id = "c" }
    ∷ record { place = 20; project_id = "a" }
    ∷ record { place = 30; project_id = "b" }
    ∷ []

-- The first is in order, the second is gone, the third has another name.
abbrev lookup : String → Lookup GithubRepository
lookup id =
    if str_eq id "2"
    then not_found
    else ok (record {
      repository_id = id;
      owner_id = "7";
      repository_name = if str_eq id "3" then "acme/new" else "acme/shop";
    })

abbrev around : Surroundings
around = record {
  faults = λ _. record { refuses_user = λ _. false; refuses_sockets = false };
  refuses_name = λ _. false;
  links = [];
  get_repository_by_id = λ _ id. answer (lookup id);
}

-- Two of the three fit into the budget, and the next pass starts after the second.
abbrev read_and_left : Option (Pass × Response Summary) → List ℕ × Option ℕ
read_and_left (some (p, answer s)) = (p.reads, s.cursor)
read_and_left _ = ([], none)

pass_tests :
    (read_and_left (reconcile_bindings around places 2 none world) ≡ (20 ∷ 10 ∷ [], some 20))
    × (read_and_left (reconcile_bindings around places 2 (some 20) world) ≡ (30 ∷ [], none))
unfolding reconcile_bindings drop_access update_status
pass_tests = (refl, refl)

reconcile_bindings-Reaches_example :
    Reaches places none 2 (reconcile_bindings around places 2 none world)
reconcile_bindings-Reaches_example =
    reconcile_bindings-Reaches around places (refl, (refl, (refl, tt))) none 2 world (omega arith)

abbrev bound : BoundProject
bound = record {
  project = project "c" "3";
  binding = record {
    status = enabled;
    repository_name = "acme/shop";
    repository_id = "3";
    installation_id = "i";
    disabled_reason = none;
  };
}

reconcile_binding-IsConfirmed_example : IsUntouched world (reconcile_binding around bound world)
unfolding expected_owner_id
reconcile_binding-IsConfirmed_example = reconcile_binding-IsConfirmed around bound world refl
