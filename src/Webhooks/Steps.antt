-- ===== src/Webhooks/Steps.antt =====
-- The events of pull requests, in app/src/github-webhooks/github-webhooks.service.ts, against the calls
-- of app/src/analysis-runs: what they do of the runs.
use tjc_be_rag_core_api.Base.{
  inl, inr, arith, String, Bool, true, false, Option, none, some, List, [], ◌∷◌, ◌≡◌, refl, sym, ap,
  ◌∙◌, subst, if◌then◌else◌, ltb,
}
use tjc_be_rag_core_api.Errors.{Response, answer, throws}
use tjc_be_rag_core_api.Runs.{PullRequestState, Run, RunTables, find_current, close_run, start_run}
use tjc_be_rag_core_api.Runs.Calls.{closes_run, call_run}
use tjc_be_rag_core_api.Runs.Classification.{classify_pull_request}
use tjc_be_rag_core_api.Runs.Currency.{starts, calls, classifies, run_steps}
use tjc_be_rag_core_api.Webhooks.{
  PullRequestEvent, is_closed, converted_to_draft, synchronize, edited, opened, reopened,
  ready_for_review, other_action, BoundRepository, Chance, Intake, Handled, run_of, with_id,
  close_current_if_any, started, start_from_event, quiet, lifecycle_close, start_unless, act,
  after_lifecycle, continued, lifecycle, is_some, handle_pull_request_event, actionable_binding,
  handle_with, written, recorded, handle_new, deliver, find_delivery, handle, act_by,
  classified_with, PullRequestAction,
}
use tjc_be_rag_core_api.Webhooks.Starts.{IsStartable, is_starting}
use tjc_be_rag_core_api.Webhooks.Allowed.{
  IsBound, Closes, by_merge, by_close, by_draft, by_branch, Follows, stays, after-Follows,
  handle-Follows,
}

-- What a delivery that is new must do under its binding: an event that closes closes the run that was
-- current before anything else, and an event that may start a run starts it once its pull request is
-- classified.
pub record IsDone (c : Chance) (e : PullRequestEvent) (w : Intake) (u : RunTables) : Type 0 where
  pub closes_first :
      (b : BoundRepository) (r : Run) (state : Option PullRequestState)
      → IsBound e w.bindings b
      → Closes e b state
      → find_current (run_of c.new_id e b) w.runs ≡ some r
      → Follows c.new_id e w.bindings (run_steps (calls (closes_run r state) ∷ []) w.runs) u
  pub starts_classified :
      (b : BoundRepository)
      → IsBound e w.bindings b
      → (k : IsStartable e b)
      → u
        ≡ run_steps
            (classifies e.repository_id e.number (some k.at) b.created_at
              ∷ starts (run_of c.new_id e b)
              ∷ [])
            w.runs

-- One event after another, each by its steps, and each that is new with what it must do.
pub data IsRefined : List (Chance × PullRequestEvent) → Intake → Intake → Type 0 where
  no_events : (w : Intake) → IsRefined [] w w
  after_event :
      (c : Chance) (e : PullRequestEvent) (events : List (Chance × PullRequestEvent))
      (w v x : Intake)
      → Follows c.new_id e w.bindings w.runs v.runs
      → (find_delivery e.delivery_id w.deliveries ≡ none → IsDone c e w v.runs)
      → IsRefined events v x
      → IsRefined ((c, e) ∷ events) w x

Closes-lifecycle_close :
    (e : PullRequestEvent) (b : BoundRepository) (state : Option PullRequestState)
    → Closes e b state
    → lifecycle_close e b ≡ some state
unfolding lifecycle_close
Closes-lifecycle_close e b _ (by_merge action m) = rw action (rw m refl)
Closes-lifecycle_close e b _ (by_close action m) = rw action (rw m refl)
Closes-lifecycle_close e b _ (by_draft action) = rw action refl
Closes-lifecycle_close e b _ (by_branch (inl action) off) = rw action (rw off refl)
Closes-lifecycle_close e b _ (by_branch (inr action) off) = rw action (rw off refl)

module _ (c : Chance) (e : PullRequestEvent) (b : BoundRepository) where
  startable-act :
      (k : IsStartable e b) (t : RunTables)
      → (lifecycle_close e b ≡ none)
        × ((act c.new_id e b t).runs ≡ (start_from_event c.new_id e b t).runs)
  unfolding lifecycle_close act act_by start_unless
  startable-act k t = go e.action refl k.by_action
    where
      go :
          (a : PullRequestAction)
          → e.action ≡ a
          → is_starting a ≡ true
          → (lifecycle_close e b ≡ none)
            × ((act c.new_id e b t).runs ≡ (start_from_event c.new_id e b t).runs)
      go opened same s = rw same (rw k.on_branch (rw k.no_draft (refl, refl)))
      go reopened same s = rw same (rw k.on_branch (rw k.no_draft (refl, refl)))
      go ready_for_review same s = rw same (rw k.on_branch (rw k.no_draft (refl, refl)))
      go synchronize same s = rw same (rw k.on_branch (rw k.no_draft (refl, refl)))
      go edited same s = rw same (rw k.on_branch (rw k.no_draft (refl, refl)))
      go is_closed same s = absurd (ground arith)
      go converted_to_draft same s = absurd (ground arith)
      go other_action same s = absurd (ground arith)

  start-runs :
      (t : RunTables)
      → (start_from_event c.new_id e b t).runs ≡ run_steps (starts (run_of c.new_id e b) ∷ []) t
  unfolding start_from_event run_steps
  start-runs t = runs_of (find_current (run_of c.new_id e b) t) (start_run (run_of c.new_id e b) t)
    where
      runs_of : (o : Option Run) (p : RunTables × Response Bool) → (started c.new_id o p).runs ≡ p.0
      runs_of o (t', throws err) = refl
      runs_of o (t', answer true) = refl
      runs_of o (t', answer false) = refl

  event-starts :
      (k : IsStartable e b) (t : RunTables)
      → (handle_pull_request_event c e b t).runs
        ≡ run_steps
            (classifies e.repository_id e.number (some k.at) b.created_at
              ∷ starts (run_of c.new_id e b)
              ∷ [])
            t
  unfolding handle_pull_request_event lifecycle continued after_lifecycle classified_with run_steps
  event-starts k t =
      let t' = (classify_pull_request e.repository_id e.number (some k.at) b.created_at t).0 in
      let (unclosed, acts) = startable-act k t' in
      let young : ltb k.at b.created_at ≡ false = ground (arith, k.no_older) in
      ap (λ l. (continued c e b (lifecycle e b l t)).runs) unclosed
      ∙ ap (λ o. (classified_with o c e b none t).runs) k.of_time
      ∙ ap
          (λ old.
            (if old
              then quiet t' none
              else if is_some (lifecycle_close e b)
              then quiet t' none
              else act c.new_id e b t').runs)
          young
      ∙ ap (λ l. (if is_some l then quiet t' none else act c.new_id e b t').runs) unclosed
      ∙ acts
      ∙ start-runs t'

  module _ (bs : List BoundRepository) (bound : IsBound e bs b) where
    event-closes :
        (r : Run) (state : Option PullRequestState) (t : RunTables)
        → Closes e b state
        → find_current (run_of c.new_id e b) t ≡ some r
        → Follows c.new_id e bs
            (run_steps (calls (closes_run r state) ∷ []) t)
            (handle_pull_request_event c e b t).runs
    unfolding handle_pull_request_event lifecycle continued close_current_if_any run_steps call_run
        find_current
    event-closes r state t closes found =
        rw (Closes-lifecycle_close e b state closes) (rw found (of_lifecycle (close_run r state t)))
      where
        of_lifecycle :
            (p : RunTables × Response Unit)
            → Follows c.new_id e bs p.0 (continued c e b (with_id (some r.id) p)).runs
        of_lifecycle (u, throws err) = stays u
        of_lifecycle (u, answer done) = after-Follows c e bs b bound (some r.id) u

  handle-bound :
      (w : Intake)
      → IsBound e w.bindings b
      → find_delivery e.delivery_id w.deliveries ≡ none
      → ((handle c e w).0).runs ≡ (handle_pull_request_event c e b w.runs).runs
  unfolding handle deliver handle_new handle_with actionable_binding
  handle-bound w bound new = rw new (
      rw bound.found (
        rw bound.enabled_binding (
          rw bound.of_installation (
            of_response (handle_pull_request_event c e b w.runs)
              (handle_pull_request_event c e b w.runs).response))))
    where
      of_response :
          (h : Handled) (r : Response (Option String))
          → ((recorded e (written w h) r).0).runs ≡ h.runs
      of_response h (throws err) = refl
      of_response h (answer id) = refl

handle-IsDone :
    (c : Chance) (e : PullRequestEvent) (w : Intake)
    → find_delivery e.delivery_id w.deliveries ≡ none
    → IsDone c e w ((handle c e w).0).runs
handle-IsDone c e w new = record {
  closes_first = λ b r state bound closes found.
      subst (Follows c.new_id e w.bindings (run_steps (calls (closes_run r state) ∷ []) w.runs))
        (sym (handle-bound c e b w bound new))
        (event-closes c e b w.bindings bound r state w.runs closes found);
  starts_classified = λ b bound k. handle-bound c e b w bound new ∙ event-starts c e b k w.runs;
}

-- The events that arrive, in their order, each with what it reads besides the tables.
unfoldable pub handle_all : List (Chance × PullRequestEvent) → Intake → Intake
unfolding handle
handle_all [] w = w
handle_all ((c, e) ∷ events) w = handle_all events (handle c e w).0

-- Whatever events arrive, each does of the runs only what it may, by the service of runs: it starts the
-- run of its own head, if it may start one under the binding of its repository; it closes the run that is
-- current for its pull request, if it is a close, a conversion to a draft or an update off the
-- integration branch; it classifies its pull request. And a delivery that is new, under its binding, does
-- what it must: it closes that run before anything else, or classifies and starts.
pub handle_all-IsRefined :
    (events : List (Chance × PullRequestEvent)) (w : Intake)
    → IsRefined events w (handle_all events w)
unfolding handle_all
handle_all-IsRefined [] w = no_events w
handle_all-IsRefined ((c, e) ∷ events) w =
    after_event c e events w (handle c e w).0 (handle_all events (handle c e w).0)
      (handle-Follows c e w.bindings w refl) (handle-IsDone c e w)
      (handle_all-IsRefined events (handle c e w).0)
