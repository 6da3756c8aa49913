-- ===== src/Runs.antt =====
-- app/src/analysis-runs/analysis-runs.service.ts and analysis-runs.repository.ts: the states of an
-- analysis run, and which run of a pull request is current.
pub mod Classification
pub mod Legality
pub mod Calls
pub mod Currency
mod Tests
use tjc_be_rag_core_api.Base.{
  ℕ, ◌+◌, String, Bool, true, false, not, ◌&&◌, ◌||◌, Option, none, some, List, [], ◌∷◌,
  if◌then◌else◌, str_eq, ◌==◌, ltb, any, find, map, tally,
}
use tjc_be_rag_core_api.Errors.{Response, answer, throws, analysis_run_invalid_transition, conflict}

-- `AnalysisRunStatus`
pub data RunStatus : Type 0 where
  queued processing action_required success behavioral_mismatch technical_generation_failure
        infrastructure_failure baseline_failed no_additional_tests_required no_test_relevant_changes
        obsolete :
      RunStatus

abbrev pub status_number : RunStatus → ℕ
status_number queued = 0
status_number processing = 1
status_number action_required = 2
status_number success = 3
status_number behavioral_mismatch = 4
status_number technical_generation_failure = 5
status_number infrastructure_failure = 6
status_number baseline_failed = 7
status_number no_additional_tests_required = 8
status_number no_test_relevant_changes = 9
status_number obsolete = 10

abbrev pub same_status : RunStatus → RunStatus → Bool
same_status a b = status_number a == status_number b

-- `TRANSITIONS`
unfoldable pub transitions : RunStatus → List RunStatus
transitions queued = processing ∷ obsolete ∷ []
transitions processing =
    action_required ∷ success ∷ behavioral_mismatch ∷ technical_generation_failure
    ∷ infrastructure_failure ∷ baseline_failed ∷ no_additional_tests_required
    ∷ no_test_relevant_changes ∷ obsolete ∷ []
transitions action_required = processing ∷ obsolete ∷ []
transitions obsolete = []
transitions _ = obsolete ∷ []

abbrev pub is_allowed : RunStatus → RunStatus → Bool
is_allowed from to = any (same_status to) (transitions from)

abbrev pub is_non_terminal : RunStatus → Bool
is_non_terminal queued = true
is_non_terminal processing = true
is_non_terminal action_required = true
is_non_terminal _ = false

pub data PullRequestState : Type 0 where
  open_pr closed merged : PullRequestState

-- A row of `analysis_runs`, less what the service does not decide by.
pub record Run : Type 0 where
  pub id : String
  pub project_id : String
  pub repository_id : String
  pub pr_number : ℕ
  pub head_sha : String
  pub pr_state : PullRequestState
  pub status : RunStatus
  pub current : Bool
  pub attempt_count : ℕ
  pub action_required_count : ℕ
  pub pull_request_created_at : Option ℕ
  pub repository_binding_eligible : Option Bool

-- The fields that the calls of `transitionTo` and `update` write.
pub record Patch : Type 0 where
  pub closes : Bool
  pub pr_state : Option PullRequestState
  pub attempt_count : Option ℕ
  pub action_required_count : Option ℕ

abbrev pub no_patch : Patch
no_patch = record {
  closes = false;
  pr_state = none;
  attempt_count = none;
  action_required_count = none;
}

abbrev or_old : {A : Type 0} → Option A → A → A
or_old none old = old
or_old (some new) old = new

abbrev pub apply_patch : Patch → Run → Run
apply_patch p r = record r {
  current = if p.closes then false else r.current;
  pr_state = or_old p.pr_state r.pr_state;
  attempt_count = or_old p.attempt_count r.attempt_count;
  action_required_count = or_old p.action_required_count r.action_required_count;
}

pub data QuestionStatus : Type 0 where
  pending answered outdated : QuestionStatus

-- A functional question of a run; `outdated` is `OBSOLETE`.
pub record Question : Type 0 where
  pub run_id : String
  pub status : QuestionStatus

abbrev pub is_pending : QuestionStatus → Bool
is_pending pending = true
is_pending _ = false

pub record RunTables : Type 0 where
  pub runs : List Run
  pub questions : List Question

abbrev pub drop_question : String → Question → Question
drop_question run_id q =
    if str_eq q.run_id run_id && is_pending q.status then record q { status = outdated } else q

abbrev drop_questions : Bool → String → List Question → List Question
drop_questions drops run_id qs = if drops then map (drop_question run_id) qs else qs

-- `update`, with a patch that does not change the status.
unfoldable pub update_run : String → Patch → RunTables → RunTables
update_run id p t = record {
  runs = map (λ r. if str_eq r.id id then apply_patch p r else r) t.runs;
  questions = drop_questions p.closes id t.questions;
}

-- The rows that `transitionCurrent` changes: those of the id in the expected state that are current.
abbrev pub is_expected : String → RunStatus → Run → Bool
is_expected id expected r = str_eq r.id id && (same_status r.status expected && r.current)

abbrev pub move : RunStatus → Patch → Run → Run
move status p r = record (apply_patch p r) { status = status }

abbrev pub changed : String → RunStatus → RunStatus → Patch → RunTables → RunTables
changed id expected status p t = record {
  runs = map (λ r. if is_expected id expected r then move status p r else r) t.runs;
  questions = drop_questions (same_status status obsolete || p.closes) id t.questions;
}

-- `transitionCurrent`; the flag says that a row was changed.
unfoldable pub transition_current :
    String → RunStatus → RunStatus → Patch → RunTables → RunTables × Bool
transition_current id expected status p t =
    if any (is_expected id expected) t.runs
    then (changed id expected status p t, true)
    else (t, false)

abbrev pub moved : RunTables × Bool → RunTables × Response Unit
moved after =
    if after.1
    then (after.0, answer tt)
    else (after.0, throws (conflict analysis_run_invalid_transition))

-- `transitionTo`, of a run as it was read.
unfoldable pub transition_to : Run → RunStatus → Patch → RunTables → RunTables × Response Unit
transition_to run status p t =
    if is_allowed run.status status
    then moved (transition_current run.id run.status status p t)
    else (t, throws (conflict analysis_run_invalid_transition))

abbrev pub closing : Option PullRequestState → Patch
closing pr_state = record no_patch { closes = true; pr_state = pr_state }

-- `closeRun`
unfoldable pub close_run : Run → Option PullRequestState → RunTables → RunTables × Response Unit
close_run run pr_state t =
    if is_non_terminal run.status
    then transition_to run obsolete (closing pr_state) t
    else (update_run run.id (closing pr_state) t, answer tt)

-- `startProcessing`
unfoldable pub start_processing : Run → RunTables → RunTables × Response Unit
start_processing run t = transition_to run processing no_patch t

-- `completeRun`, of the run that was found; its patch writes results only.
unfoldable pub complete_run : Run → RunStatus → RunTables → RunTables × Response Unit
complete_run run status t = transition_to run status no_patch t

-- `completeRunFromSystem`; its patch writes results only.
unfoldable pub complete_run_from_system : Run → RunStatus → RunTables → RunTables × Bool
complete_run_from_system run status t =
    if not run.current || not (is_allowed run.status status)
    then (t, false)
    else transition_current run.id run.status status no_patch t

-- `requestContinuation`, of the run that was found.
unfoldable pub request_continuation : Run → RunTables → RunTables × Response Unit
request_continuation run t =
    if same_status run.status action_required
    then transition_to run processing
        (record no_patch { attempt_count = some (run.attempt_count + 1) }) t
    else (t, throws (conflict analysis_run_invalid_transition))

-- `markActionRequiredFromSystem`
unfoldable pub mark_action_required : Run → RunTables → RunTables × Response Unit
mark_action_required run t =
    transition_to run action_required
      (record no_patch { action_required_count = some (run.action_required_count + 1) }) t

-- `obsoleteRun`, of the run that was found.
unfoldable pub obsolete_run : Run → RunTables → RunTables × Response Unit
obsolete_run run t =
    if same_status run.status obsolete
    then (t, answer tt)
    else transition_to run obsolete (closing none) t

abbrev pub is_current_of : Run → Run → Bool
is_current_of new r =
    r.current
    && (str_eq r.project_id new.project_id
        && (str_eq r.repository_id new.repository_id && r.pr_number == new.pr_number))

-- `findCurrentByPullRequest`
unfoldable pub find_current : Run → RunTables → Option Run
find_current new t = find (is_current_of new) t.runs

abbrev pub add_run : Run → RunTables × Response Unit → RunTables × Response Bool
add_run new (t, throws e) = (t, throws e)
add_run new (t, answer done) = (record t { runs = new ∷ t.runs }, answer true)

abbrev pub start_after : Run → Option Run → RunTables → RunTables × Response Bool
start_after new none t = add_run new (t, answer tt)
start_after new (some r) t =
    if str_eq r.head_sha new.head_sha
    then (t, answer false)
    else add_run new (transition_to r obsolete (closing none) t)

-- `startRunInternal`; `new` is the row that `create` would write, and the answer is `isNew`.
unfoldable pub start_run : Run → RunTables → RunTables × Response Bool
start_run new t = start_after new (find_current new t) t
