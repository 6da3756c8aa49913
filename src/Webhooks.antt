-- ===== src/Webhooks.antt =====
-- app/src/github-webhooks/github-webhooks.service.ts: the events of pull requests.
pub mod Allowed
pub mod Redelivery
pub mod Starts
pub mod Steps
mod Tests
use tjc_be_rag_core_api.Base.{
  ℕ, ◌<◌, String, Bool, true, false, not, ◌&&◌, ◌||◌, Option, none, some, List, [], ◌∷◌, ◌++◌,
  if◌then◌else◌, str_eq, ltb, find,
}
use tjc_be_rag_core_api.Errors.{Response, answer, throws}
use tjc_be_rag_core_api.Access.{BindingStatus, enabled, disabled, revoked}
use tjc_be_rag_core_api.Runs.{
  PullRequestState, closed, merged, open_pr, queued, Run, RunTables, find_current, close_run,
  start_run,
}
use tjc_be_rag_core_api.Runs.Classification.{classify_pull_request}

-- The actions of a `pull_request` event that the handler tells apart.
pub data PullRequestAction : Type 0 where
  is_closed converted_to_draft synchronize edited opened reopened ready_for_review other_action :
      PullRequestAction

-- `GithubPullRequestWebhookPayload` with its delivery, less titles, users and what is only stored. A
-- time of creation that is null or no date is `none`.
pub record PullRequestEvent : Type 0 where
  pub delivery_id : String
  pub action : PullRequestAction
  pub repository_id : String
  pub installation_id : Option String
  pub number : ℕ
  pub draft : Bool
  pub merged : Bool
  pub created_at : Option ℕ
  pub base_ref : String
  pub head_sha : String

-- A row of `repository_bindings` whose project is not deleted, as `findByRepositoryId` reads it.
pub record BoundRepository : Type 0 where
  pub project_id : String
  pub repository_id : String
  pub installation_id : String
  pub integration_branch : String
  pub status : BindingStatus
  pub created_at : ℕ

-- The calls of the service of jobs.
pub data JobCall : Type 0 where
  analyses_snapshot : String → JobCall
  recovers_metadata : PullRequestEvent → JobCall
  updates_pending : PullRequestEvent → JobCall
  expedites : PullRequestEvent → JobCall

-- A row of `webhook_deliveries`, by its key and the run that it answered.
pub record Delivery : Type 0 where
  pub delivery_id : String
  pub analysis_run_id : Option String

pub record Intake : Type 0 where
  pub runs : RunTables
  pub deliveries : List Delivery
  pub bindings : List BoundRepository
  pub job_calls : List JobCall

-- `GitHubWebhookAcceptedResponse`
pub record Accepted : Type 0 where
  pub delivery_id : String
  pub duplicate : Bool
  pub analysis_run_id : Option String

-- What the event reads besides the tables: the id that a new row gets, and whether the recovery of
-- this pull request is queued already.
pub record Chance : Type 0 where
  pub new_id : String
  pub is_queued : Bool

abbrev pub on_integration_branch : PullRequestEvent → BoundRepository → Bool
on_integration_branch e b = str_eq e.base_ref b.integration_branch

-- `CreateAnalysisRunInput`, as the row that it becomes.
abbrev pub run_of : String → PullRequestEvent → BoundRepository → Run
run_of id e b = record {
  id = id;
  project_id = b.project_id;
  repository_id = b.repository_id;
  pr_number = e.number;
  head_sha = e.head_sha;
  pr_state = open_pr;
  status = queued;
  current = true;
  attempt_count = 0;
  action_required_count = 0;
  pull_request_created_at = e.created_at;
  repository_binding_eligible = some true;
}

abbrev pub with_id :
    {A : Type 0} → Option String → RunTables × Response A → RunTables × Response (Option String)
with_id id (t, throws e) = (t, throws e)
with_id id (t, answer done) = (t, answer id)

-- `closeCurrentIfAny`
abbrev pub close_found :
    Option PullRequestState → Option Run → RunTables → RunTables × Response (Option String)
close_found pr_state none t = (t, answer none)
close_found pr_state (some r) t = with_id (some r.id) (close_run r pr_state t)

unfoldable pub close_current_if_any :
    PullRequestEvent
    → BoundRepository
    → Option PullRequestState
    → RunTables
    → RunTables × Response (Option String)
unfolding find_current close_run
close_current_if_any e b pr_state t = close_found pr_state (find_current (run_of "" e b) t) t

-- What the handler did of one event: runs, calls of jobs, and the id that it answers.
pub record Handled : Type 0 where
  pub runs : RunTables
  pub calls : List JobCall
  pub response : Response (Option String)

abbrev pub current_id : Option Run → Option String
current_id none = none
current_id (some r) = some r.id

-- The end of `startRun`, by what `startRunFromWebhook` answers.
abbrev pub started : String → Option Run → RunTables × Response Bool → Handled
started new_id before (t, throws e) = record { runs = t; calls = []; response = throws e }
started new_id before (t, answer true) = record {
  runs = t;
  calls = analyses_snapshot new_id ∷ [];
  response = answer (some new_id);
}
started new_id before (t, answer false) = record {
  runs = t;
  calls = [];
  response = answer (current_id before);
}

-- `startRun`
unfoldable pub start_from_event : String → PullRequestEvent → BoundRepository → RunTables → Handled
unfolding start_run find_current
start_from_event new_id e b t =
    started new_id (find_current (run_of new_id e b) t) (start_run (run_of new_id e b) t)

abbrev pub quiet : RunTables → Option String → Handled
quiet t id = record { runs = t; calls = []; response = answer id }

abbrev pub closing_only : RunTables × Response (Option String) → Handled
closing_only (t, r) = record { runs = t; calls = []; response = r }

-- The actions that close the current run: none, or the close with the state of the pull request.
unfoldable pub lifecycle_close :
    PullRequestEvent → BoundRepository → Option (Option PullRequestState)
lifecycle_close e b = elim e.action [
  | is_closed ↦ some (some (if e.merged then PullRequestState.merged else closed))
  | converted_to_draft ↦ some none
  | synchronize ↦ if on_integration_branch e b then none else some none
  | edited ↦ if on_integration_branch e b then none else some none
  | _ ↦ none
]

-- The `switch` on the action.
unfoldable pub start_unless :
    Bool → String → PullRequestEvent → BoundRepository → RunTables → Handled
unfolding start_from_event
start_unless skips new_id e b t = if skips then quiet t none else start_from_event new_id e b t

unfoldable pub act_by :
    PullRequestAction → Bool → String → PullRequestEvent → BoundRepository → RunTables → Handled
unfolding close_current_if_any start_from_event start_unless
act_by opened off new_id e b t = start_unless (off || e.draft) new_id e b t
act_by reopened off new_id e b t = start_unless (off || e.draft) new_id e b t
act_by ready_for_review off new_id e b t = start_unless (off || e.draft) new_id e b t
act_by synchronize off new_id e b t =
    if off
    then closing_only (close_current_if_any e b none t)
    else start_unless e.draft new_id e b t
act_by edited off new_id e b t =
    if off
    then closing_only (close_current_if_any e b none t)
    else start_unless e.draft new_id e b t
act_by _ off new_id e b t = quiet t none

unfoldable pub act : String → PullRequestEvent → BoundRepository → RunTables → Handled
unfolding close_current_if_any start_from_event act_by start_unless
act new_id e b t = act_by e.action (not (on_integration_branch e b)) new_id e b t

-- `enqueuePullRequestMetadataRecovery`
abbrev pub recovery : Bool → PullRequestEvent → List JobCall
recovery is_queued e =
    recovers_metadata e
    ∷ (if is_queued then updates_pending e ∷ expedites e ∷ recovers_metadata e ∷ [] else [])

abbrev pub is_some : {A : Type 0} → Option A → Bool
is_some none = false
is_some (some a) = true

-- What follows the actions of the lifecycle.
unfoldable pub classified_with :
    Option ℕ → Chance → PullRequestEvent → BoundRepository → Option String → RunTables → Handled
unfolding classify_pull_request lifecycle_close act
classified_with none c e b lifecycle_run_id t = record {
  runs = t;
  calls = recovery c.is_queued e;
  response = answer lifecycle_run_id;
}
classified_with (some at) c e b lifecycle_run_id t =
    let t' = (classify_pull_request e.repository_id e.number (some at) b.created_at t).0 in
    if ltb at b.created_at
    then quiet t' none
    else if is_some (lifecycle_close e b)
    then quiet t' lifecycle_run_id
    else act c.new_id e b t'

unfoldable pub after_lifecycle :
    Chance → PullRequestEvent → BoundRepository → Option String → RunTables → Handled
unfolding classify_pull_request lifecycle_close act classified_with act_by
after_lifecycle c e b lifecycle_run_id t = classified_with e.created_at c e b lifecycle_run_id t

unfoldable pub continued :
    Chance → PullRequestEvent → BoundRepository → RunTables × Response (Option String) → Handled
unfolding after_lifecycle classified_with
continued c e b (t, throws err) = record { runs = t; calls = []; response = throws err }
continued c e b (t, answer id) = after_lifecycle c e b id t

unfoldable pub lifecycle :
    PullRequestEvent
    → BoundRepository
    → Option (Option PullRequestState)
    → RunTables
    → RunTables × Response (Option String)
unfolding close_current_if_any
lifecycle e b none t = (t, answer none)
lifecycle e b (some pr_state) t = close_current_if_any e b pr_state t

-- `handlePullRequestEvent`
unfoldable pub handle_pull_request_event :
    Chance → PullRequestEvent → BoundRepository → RunTables → Handled
unfolding after_lifecycle lifecycle_close close_current_if_any continued lifecycle
handle_pull_request_event c e b t = continued c e b (lifecycle e b (lifecycle_close e b) t)

abbrev pub is_enabled : BindingStatus → Bool
is_enabled enabled = true
is_enabled _ = false

abbrev pub is_installation : Option String → BoundRepository → Bool
is_installation none b = true
is_installation (some id) b = str_eq id b.installation_id

-- `actionable`
abbrev pub if_actionable : PullRequestEvent → Option BoundRepository → Option BoundRepository
if_actionable e none = none
if_actionable e (some b) =
    if is_enabled b.status && is_installation e.installation_id b then some b else none

unfoldable pub actionable_binding : PullRequestEvent → List BoundRepository → Option BoundRepository
actionable_binding e bs = if_actionable e (find (λ b. str_eq b.repository_id e.repository_id) bs)

unfoldable pub handle_with :
    Chance → PullRequestEvent → Option BoundRepository → RunTables → Handled
unfolding handle_pull_request_event
handle_with c e none t = quiet t none
handle_with c e (some b) t = handle_pull_request_event c e b t

abbrev pub written : Intake → Handled → Intake
written w h = record w { runs = h.runs; job_calls = w.job_calls ++ h.calls }

abbrev pub add_delivery : String → Option String → Intake → Intake
add_delivery delivery_id id w = record w {
  deliveries = record { delivery_id = delivery_id; analysis_run_id = id } ∷ w.deliveries;
}

abbrev pub recorded :
    PullRequestEvent → Intake → Response (Option String) → Intake × Response Accepted
recorded e w (throws err) = (w, throws err)
recorded e w (answer id) = (
  add_delivery e.delivery_id id w,
  answer (record { delivery_id = e.delivery_id; duplicate = false; analysis_run_id = id }),
)

abbrev pub find_delivery : String → List Delivery → Option Delivery
find_delivery delivery_id ds = find (λ d. str_eq d.delivery_id delivery_id) ds

unfoldable pub handle_new : Chance → PullRequestEvent → Intake → Intake × Response Accepted
unfolding handle_pull_request_event actionable_binding handle_with
handle_new c e w =
    let h = handle_with c e (actionable_binding e w.bindings) w.runs in
    recorded e (written w h) h.response

-- `handle`, of an event of a pull request, by the delivery that was recorded before.
unfoldable pub deliver :
    Option Delivery → Chance → PullRequestEvent → Intake → Intake × Response Accepted
unfolding handle_new
deliver none c e w = handle_new c e w
deliver (some d) c e w = (
  w,
  answer (record {
    delivery_id = e.delivery_id;
    duplicate = true;
    analysis_run_id = d.analysis_run_id;
  }),
)

unfoldable pub handle : Chance → PullRequestEvent → Intake → Intake × Response Accepted
unfolding handle_pull_request_event actionable_binding handle_new handle_with deliver
handle c e w = deliver (find_delivery e.delivery_id w.deliveries) c e w
