-- ===== src/Runs/Calls.antt =====
-- The calls of app/src/analysis-runs/analysis-runs.service.ts on runs that exist.
use tjc_be_rag_core_api.Base.{
  ◌+◌, Bool, true, false, not, ◌||◌, Option, none, some, ◌≡◌, refl, if◌then◌else◌, str_eq,
}
use tjc_be_rag_core_api.Errors.{Response, answer, throws, conflict, analysis_run_invalid_transition}
use tjc_be_rag_core_api.Runs.{
  RunStatus, processing, action_required, obsolete, same_status, is_allowed, is_non_terminal,
  PullRequestState, Run, no_patch, apply_patch, RunTables, update_run, transition_current,
  transition_to, closing, close_run, start_processing, complete_run, complete_run_from_system,
  request_continuation, mark_action_required, obsolete_run,
}
use tjc_be_rag_core_api.Runs.Legality.{
  IsLegal, AreLegal, IsLegal-refl, AreLegal-refl, patch-IsLegal, map-AreLegal,
  transition_current-AreLegal, transition_to-AreLegal,
}

-- The calls on runs that exist, each with the run as its caller read it.
pub data RunCall : Type 0 where
  closes_run : Run → Option PullRequestState → RunCall
  starts_processing : Run → RunCall
  completes_found : Run → RunStatus → RunCall
  completes : Run → RunStatus → RunCall
  continues : Run → RunCall
  marks_action_required : Run → RunCall
  obsoletes : Run → RunCall

unfoldable pub call_run : RunCall → RunTables → RunTables
call_run (closes_run run state) t = (close_run run state t).0
call_run (starts_processing run) t = (start_processing run t).0
call_run (completes_found run status) t = (complete_run run status t).0
call_run (completes run status) t = (complete_run_from_system run status t).0
call_run (continues run) t = (request_continuation run t).0
call_run (marks_action_required run) t = (mark_action_required run t).0
call_run (obsoletes run) t = (obsolete_run run t).0

-- Every call, with a run that was read at any time, changes the status of each row only along the
-- transitions, leaves the status of a run that is not current as it is, and makes no run current.
pub call_run-AreLegal : (c : RunCall) (t : RunTables) → AreLegal t.runs (call_run c t).runs
unfolding call_run close_run update_run start_processing complete_run complete_run_from_system
    request_continuation mark_action_required obsolete_run
call_run-AreLegal (closes_run run state) t = go (is_non_terminal run.status)
  where
    row : (r : Run) (b : Bool) → IsLegal r (if b then apply_patch (closing state) r else r)
    row r true = patch-IsLegal (closing state) r
    row r false = IsLegal-refl r

    go :
        (b : Bool)
        → (let after : RunTables × Response Unit =
              if b
              then transition_to run obsolete (closing state) t
              else (update_run run.id (closing state) t, answer tt) in
            AreLegal t.runs (after.0).runs)
    go true = transition_to-AreLegal run obsolete (closing state) t
    go false =
        map-AreLegal (λ r. if str_eq r.id run.id then apply_patch (closing state) r else r)
          (λ r. row r (str_eq r.id run.id)) t.runs
call_run-AreLegal (starts_processing run) t = transition_to-AreLegal run processing no_patch t
call_run-AreLegal (completes_found run status) t = transition_to-AreLegal run status no_patch t
call_run-AreLegal (completes run status) t =
    go (not run.current) (is_allowed run.status status) refl
  where
    go :
        (b a : Bool)
        → is_allowed run.status status ≡ a
        → (let after : RunTables × Bool =
              if b || not a
              then (t, false)
              else transition_current run.id run.status status no_patch t in
            AreLegal t.runs (after.0).runs)
    go true a e = AreLegal-refl t.runs
    go false false e = AreLegal-refl t.runs
    go false true e = transition_current-AreLegal run.id run.status status no_patch t e
call_run-AreLegal (continues run) t = go (same_status run.status action_required)
  where
    go :
        (b : Bool)
        → (let after : RunTables × Response Unit =
              if b
              then transition_to run processing
                  (record no_patch { attempt_count = some (run.attempt_count + 1) })
                  t
              else (t, throws (conflict analysis_run_invalid_transition)) in
            AreLegal t.runs (after.0).runs)
    go true =
        transition_to-AreLegal run processing
          (record no_patch { attempt_count = some (run.attempt_count + 1) }) t
    go false = AreLegal-refl t.runs
call_run-AreLegal (marks_action_required run) t =
    transition_to-AreLegal run action_required
      (record no_patch { action_required_count = some (run.action_required_count + 1) }) t
call_run-AreLegal (obsoletes run) t = go (same_status run.status obsolete)
  where
    go :
        (b : Bool)
        → (let after : RunTables × Response Unit =
              if b then (t, answer tt) else transition_to run obsolete (closing none) t in
            AreLegal t.runs (after.0).runs)
    go true = AreLegal-refl t.runs
    go false = transition_to-AreLegal run obsolete (closing none) t
