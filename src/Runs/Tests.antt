-- ===== src/Runs/Tests.antt =====
-- Runs of a pull request with two heads, and the theorems at concrete inputs.
use tjc_be_rag_core_api.Base.{true, false, some, [], ◌∷◌, ◌≡◌, refl, arith}
use tjc_be_rag_core_api.Errors.{answer, throws, conflict, analysis_run_invalid_transition}
use tjc_be_rag_core_api.Runs.{
  Run, RunTables, queued, obsolete, open_pr, pending, outdated, transitions, start_run,
  transition_to, transition_current, find_current, start_processing,
}
use tjc_be_rag_core_api.Runs.Legality.{AreLegal}
use tjc_be_rag_core_api.Runs.Calls.{starts_processing, call_run, call_run-AreLegal}
use tjc_be_rag_core_api.Runs.Currency.{
  starts, calls, run_steps, IsUnambiguous, run_steps-IsUnambiguous,
}

abbrev first : Run
first = record {
  id = "r1";
  project_id = "p1";
  repository_id = "77";
  pr_number = 5;
  head_sha = "aaa";
  pr_state = open_pr;
  status = queued;
  current = true;
  attempt_count = 0;
  action_required_count = 0;
  pull_request_created_at = some 100;
  repository_binding_eligible = some true;
}

abbrev second : Run
second = record first { id = "r2"; head_sha = "bbb" }

abbrev tables : RunTables
tables = record { runs = first ∷ []; questions = record { run_id = "r1"; status = pending } ∷ [] }

-- A new head makes the old run obsolete, with its question; the old head starts nothing; and a run
-- that was read before cannot go on.
start_tests :
    ((start_run second tables).0.runs
      ≡ second ∷ record first { status = obsolete; current = false } ∷ [])
    × ((start_run second tables).0.questions ≡ record { run_id = "r1"; status = outdated } ∷ [])
    × (start_run first tables ≡ (tables, answer false))
    × ((start_processing first (start_run second tables).0).1
        ≡ throws (conflict analysis_run_invalid_transition))
unfolding start_run find_current transition_to transition_current transitions start_processing
start_tests = (refl, refl, refl, refl)

call_run-AreLegal_example : AreLegal (first ∷ []) (call_run (starts_processing first) tables).runs
call_run-AreLegal_example = call_run-AreLegal (starts_processing first) tables

no_runs-IsUnambiguous : IsUnambiguous []
no_runs-IsUnambiguous = record { once = λ k. omega arith }

run_steps-IsUnambiguous_example :
    IsUnambiguous
      (run_steps
        (starts first ∷ calls (starts_processing first) ∷ starts second ∷ [])
        (record { runs = []; questions = [] })).runs
run_steps-IsUnambiguous_example =
    run_steps-IsUnambiguous (starts first ∷ calls (starts_processing first) ∷ starts second ∷ [])
      (record { runs = []; questions = [] }) no_runs-IsUnambiguous
