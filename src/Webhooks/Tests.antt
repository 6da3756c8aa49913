-- ===== src/Webhooks/Tests.antt =====
-- Events of one pull request, and the theorems at concrete inputs.
use tjc_be_rag_core_api.Base.{
  List, String, true, false, none, some, [], ◌∷◌, ◌≡◌, refl, ◌≤◌, ◌<◌, ◌+◌, tally,
}
use tjc_be_rag_core_api.Errors.{answer}
use tjc_be_rag_core_api.Access.{enabled}
use tjc_be_rag_core_api.Runs.{merged, obsolete, transition_to, transition_current, transitions}
use tjc_be_rag_core_api.Webhooks.{
  PullRequestEvent, BoundRepository, Chance, Intake, Accepted, analyses_snapshot, is_closed, opened,
  run_of, synchronize, handle, recovers_metadata,
}
use tjc_be_rag_core_api.Webhooks.Redelivery.{again, handle-again}
use tjc_be_rag_core_api.Webhooks.Starts.{is_analysis, IsActionable, handle-IsActionable}
use tjc_be_rag_core_api.Webhooks.Steps.{IsRefined, handle_all, handle_all-IsRefined}

abbrev opening : PullRequestEvent
opening = record {
  delivery_id = "d1";
  action = opened;
  repository_id = "77";
  installation_id = some "900";
  number = 5;
  draft = false;
  merged = false;
  created_at = some 500;
  base_ref = "main";
  head_sha = "aaa";
}

abbrev pushing : PullRequestEvent
pushing = record opening { delivery_id = "d2"; action = synchronize; head_sha = "bbb" }

abbrev merging : PullRequestEvent
merging = record pushing { delivery_id = "d3"; action = is_closed; merged = true }

abbrev bound : BoundRepository
bound = record {
  project_id = "p1";
  repository_id = "77";
  installation_id = "900";
  integration_branch = "main";
  status = enabled;
  created_at = 400;
}

abbrev fresh : Intake
fresh = record {
  runs = record { runs = []; questions = [] };
  deliveries = [];
  bindings = bound ∷ [];
  job_calls = [];
}

abbrev chance : String → Chance
chance id = record { new_id = id; is_queued = false }

-- A pull request is opened, pushed to and merged: the first run is obsolete by the second, and the
-- second by the merge; two analyses were asked for.
life_tests :
    let w =
      handle_all
        ((chance "r1", opening) ∷ (chance "r2", pushing) ∷ (chance "r3", merging) ∷ [])
        fresh in
    (w.runs.runs
      ≡ record (run_of "r2" pushing bound) { status = obsolete; current = false; pr_state = merged }
        ∷ record (run_of "r1" opening bound) { status = obsolete; current = false }
        ∷ [])
    × (w.job_calls ≡ analyses_snapshot "r1" ∷ analyses_snapshot "r2" ∷ [])
unfolding handle_all transition_to transitions transition_current
life_tests = (refl, refl)

-- An older pull request, and one of a branch, start nothing; an unknown date is looked up.
start_tests :
    ((handle (chance "r1") (record opening { created_at = some 300 }) fresh).0.job_calls ≡ [])
    × ((handle (chance "r1") (record opening { base_ref = "dev" }) fresh).0.job_calls ≡ [])
    × ((handle (chance "r1") (record opening { created_at = none }) fresh).0.job_calls
        ≡ recovers_metadata (record opening { created_at = none }) ∷ [])
unfolding handle
start_tests = (refl, refl, refl)

abbrev first_answer : Accepted
first_answer = record { delivery_id = "d1"; duplicate = false; analysis_run_id = some "r1" }

first_handled :
    handle (chance "r1") opening fresh
    ≡ ((handle (chance "r1") opening fresh).0, answer first_answer)
unfolding handle
first_handled = refl

-- By then the binding is gone, the runs are others, and another delivery was recorded.
abbrev later : Intake
later =
    let w = (handle (chance "r1") opening fresh).0 in
    record w {
      bindings = [];
      runs = record { runs = []; questions = [] };
      deliveries = record { delivery_id = "d7"; analysis_run_id = none } ∷ w.deliveries;
    }

handle-again_example : handle (chance "r9") opening later ≡ (later, answer (again first_answer))
unfolding handle
handle-again_example =
    handle-again (chance "r9") opening (chance "r1") fresh (handle (chance "r1") opening fresh).0
      later first_answer first_handled refl

handle-IsActionable_example :
    let before = tally is_analysis fresh.job_calls in
    let after = tally is_analysis ((handle (chance "r1") opening fresh).0).job_calls in
    (after ≤ before + 1) × (before < after → IsActionable opening fresh.bindings)
handle-IsActionable_example = handle-IsActionable (chance "r1") opening fresh

abbrev two_events : List (Chance × PullRequestEvent)
two_events = (chance "r1", opening) ∷ (chance "r2", pushing) ∷ []

handle_all-IsRefined_example : IsRefined two_events fresh (handle_all two_events fresh)
handle_all-IsRefined_example = handle_all-IsRefined two_events fresh
