-- ===== src/Webhooks/Allowed.antt =====
-- What an event of app/src/github-webhooks/github-webhooks.service.ts may do of the runs, by the calls of
-- app/src/analysis-runs.
use tjc_be_rag_core_api.Base.{
  ◌⊎◌, inl, inr, arith, Bool-cases, find, str_eq, String, Bool, true, false, not, ◌&&◌, ◌||◌,
  Option, none, some, List, [], ◌∷◌, ◌≡◌, refl, sym, ap, ◌∙◌, subst, if◌then◌else◌, ltb, ℕ,
}
use tjc_be_rag_core_api.Errors.{Response, answer, throws}
use tjc_be_rag_core_api.Runs.{
  PullRequestState, closed, Run, RunTables, find_current, close_run, start_run,
}
use tjc_be_rag_core_api.Runs.Calls.{closes_run, call_run}
use tjc_be_rag_core_api.Runs.Classification.{classify_pull_request}
use tjc_be_rag_core_api.Runs.Currency.{RunStep, starts, calls, classifies, run_steps}
use tjc_be_rag_core_api.Webhooks.{
  PullRequestEvent, is_closed, converted_to_draft, synchronize, edited, opened, reopened,
  ready_for_review, other_action, BoundRepository, Chance, Intake, Delivery, Handled, run_of,
  with_id, close_found, close_current_if_any, started, start_from_event, quiet, lifecycle_close,
  start_unless, act, after_lifecycle, continued, lifecycle, is_some, handle_pull_request_event,
  actionable_binding, handle_with, written, recorded, handle_new, deliver, find_delivery, handle,
  on_integration_branch, act_by, classified_with, PullRequestAction,
}
use tjc_be_rag_core_api.Webhooks.Starts.{IsStartable, is_starting}
use tjc_be_rag_core_api.Webhooks.{is_enabled, is_installation, if_actionable}

-- The binding that the event is handled under.
pub record IsBound (e : PullRequestEvent) (bs : List BoundRepository) (b : BoundRepository)
    : Type 0 where
  pub found : find (λ x. str_eq x.repository_id e.repository_id) bs ≡ some b
  pub enabled_binding : is_enabled b.status ≡ true
  pub of_installation : is_installation e.installation_id b ≡ true

-- The events that close the current run, each with the state that it gives the pull request.
pub data Closes (e : PullRequestEvent) (b : BoundRepository)
    : Option PullRequestState → Type 0 where
  by_merge : e.action ≡ is_closed → e.merged ≡ true → Closes e b (some PullRequestState.merged)
  by_close : e.action ≡ is_closed → e.merged ≡ false → Closes e b (some closed)
  by_draft : e.action ≡ converted_to_draft → Closes e b none
  by_branch :
      (e.action ≡ synchronize) ⊎ (e.action ≡ edited)
      → on_integration_branch e b ≡ false
      → Closes e b none

-- What one event may do of the runs, in the tables as they are: start the run of its own head, if it may
-- start one; close the current run of its pull request, if it is one that does; classify the runs of its
-- pull request by its time.
pub data IsStepOf (new_id : String) (e : PullRequestEvent) (bs : List BoundRepository)
    (t : RunTables) : RunStep → Type 0 where
  starts_own :
      (b : BoundRepository)
      → IsBound e bs b
      → IsStartable e b
      → IsStepOf new_id e bs t (starts (run_of new_id e b))
  closes_current :
      (b : BoundRepository) (r : Run) (state : Option PullRequestState)
      → IsBound e bs b
      → find_current (run_of new_id e b) t ≡ some r
      → Closes e b state
      → IsStepOf new_id e bs t (calls (closes_run r state))
  classifies_own :
      (b : BoundRepository) (at : ℕ)
      → IsBound e bs b
      → e.created_at ≡ some at
      → IsStepOf new_id e bs t (classifies e.repository_id e.number (some at) b.created_at)

-- The tables follow by steps of an event, each allowed in the tables that it meets.
pub data Follows (new_id : String) (e : PullRequestEvent) (bs : List BoundRepository)
    : RunTables → RunTables → Type 0 where
  stays : (t : RunTables) → Follows new_id e bs t t
  goes :
      (t u : RunTables) (s : RunStep)
      → IsStepOf new_id e bs t s
      → Follows new_id e bs (run_steps (s ∷ []) t) u
      → Follows new_id e bs t u

with_id-runs :
    {A : Type 0} (id : Option String) (p : RunTables × Response A) → (with_id id p).0 ≡ p.0
with_id-runs id (t, throws err) = refl
with_id-runs id (t, answer done) = refl

module _ (c : Chance) (e : PullRequestEvent) (bs : List BoundRepository) where
  Follows-trans :
      (t u v : RunTables)
      → Follows c.new_id e bs t u
      → Follows c.new_id e bs u v
      → Follows c.new_id e bs t v
  Follows-trans _ _ v (stays t) g = g
  Follows-trans _ _ v (goes t u s ok f) g =
      goes t v s ok (Follows-trans (run_steps (s ∷ []) t) u v f g)

  one_step :
      (t u : RunTables) (s : RunStep)
      → IsStepOf c.new_id e bs t s
      → run_steps (s ∷ []) t ≡ u
      → Follows c.new_id e bs t u
  one_step t u s ok same =
      goes t u s ok
        (subst (Follows c.new_id e bs (run_steps (s ∷ []) t)) same (stays (run_steps (s ∷ []) t)))

  module _ (b : BoundRepository) (bound : IsBound e bs b) where
    close-Follows :
        (state : Option PullRequestState) (t : RunTables)
        → Closes e b state
        → Follows c.new_id e bs t (close_current_if_any e b state t).0
    unfolding close_current_if_any run_steps call_run find_current
    close-Follows state t closes = of_found (find_current (run_of c.new_id e b) t) refl
      where
        of_found :
            (o : Option Run)
            → find_current (run_of c.new_id e b) t ≡ o
            → Follows c.new_id e bs t (close_found state o t).0
        of_found none found = stays t
        of_found (some r) found =
            one_step t (with_id (some r.id) (close_run r state t)).0 (calls (closes_run r state))
              (closes_current b r state bound found closes)
              (sym (with_id-runs (some r.id) (close_run r state t)))

    start-Follows :
        (t : RunTables)
        → IsStartable e b
        → Follows c.new_id e bs t (start_from_event c.new_id e b t).runs
    unfolding start_from_event run_steps
    start-Follows t startable =
        one_step t (start_from_event c.new_id e b t).runs (starts (run_of c.new_id e b))
          (starts_own b bound startable)
          (sym (runs_of (find_current (run_of c.new_id e b) t) (start_run (run_of c.new_id e b) t)))
      where
        runs_of :
            (o : Option Run) (p : RunTables × Response Bool) → (started c.new_id o p).runs ≡ p.0
        runs_of o (t', throws err) = refl
        runs_of o (t', answer true) = refl
        runs_of o (t', answer false) = refl

    start_unless-Follows :
        (skips : Bool) (t : RunTables)
        → (skips ≡ false → IsStartable e b)
        → Follows c.new_id e bs t (start_unless skips c.new_id e b t).runs
    unfolding start_unless
    start_unless-Follows true t startable = stays t
    start_unless-Follows false t startable = start-Follows t (startable refl)

    -- The actions that may start a run, of a pull request that is not older than the binding.
    module _ (at : ℕ) (of_time : e.created_at ≡ some at) (young : ltb at b.created_at ≡ false) where
      act-Follows : (t : RunTables) → Follows c.new_id e bs t (act c.new_id e b t).runs
      unfolding act act_by
      act-Follows t = go e.action refl (on_integration_branch e b) refl
        where
          ready :
              (a : PullRequestAction)
              → e.action ≡ a
              → is_starting a ≡ true
              → (x : Bool) → on_integration_branch e b ≡ x
              → (not x || e.draft) ≡ false
              → IsStartable e b
          ready a same starting true on h = record {
            by_action = ap is_starting same ∙ starting;
            on_branch = on;
            no_draft = h;
            at = at;
            of_time = of_time;
            no_older = ground (arith, young);
          }
          ready a same starting false on h = absurd (ground arith)

          go :
              (a : PullRequestAction)
              → e.action ≡ a
              → (x : Bool) → on_integration_branch e b ≡ x
              → Follows c.new_id e bs t (act_by a (not x) c.new_id e b t).runs
          go opened same x on =
              start_unless-Follows (not x || e.draft) t (ready opened same refl x on)
          go reopened same x on =
              start_unless-Follows (not x || e.draft) t (ready reopened same refl x on)
          go ready_for_review same x on =
              start_unless-Follows (not x || e.draft) t (ready ready_for_review same refl x on)
          go synchronize same true on =
              start_unless-Follows e.draft t (ready synchronize same refl true on)
          go synchronize same false on = close-Follows none t (by_branch (inl same) on)
          go edited same true on = start_unless-Follows e.draft t (ready edited same refl true on)
          go edited same false on = close-Follows none t (by_branch (inr same) on)
          go is_closed same x on = stays t
          go converted_to_draft same x on = stays t
          go other_action same x on = stays t

    pub after-Follows :
        (run_id : Option String) (t : RunTables)
        → Follows c.new_id e bs t (after_lifecycle c e b run_id t).runs
    unfolding after_lifecycle classified_with run_steps
    after-Follows run_id t = go e.created_at refl
      where
        classify : ℕ → RunTables
        classify at = (classify_pull_request e.repository_id e.number (some at) b.created_at t).0

        one : (at : ℕ) → e.created_at ≡ some at → Follows c.new_id e bs t (classify at)
        one at of_time =
            one_step t (classify at) (classifies e.repository_id e.number (some at) b.created_at)
              (classifies_own b at bound of_time) refl

        by_age :
            (at : ℕ)
            → e.created_at ≡ some at
            → (old x : Bool) → ltb at b.created_at ≡ old
            → Follows c.new_id e bs t
                (if old
                  then quiet (classify at) none
                  else if x
                  then quiet (classify at) run_id
                  else act c.new_id e b (classify at)).runs
        by_age at of_time true x age = one at of_time
        by_age at of_time false true age = one at of_time
        by_age at of_time false false age =
            Follows-trans t (classify at) (act c.new_id e b (classify at)).runs (one at of_time)
              (act-Follows at of_time age (classify at))

        go :
            (o : Option ℕ)
            → e.created_at ≡ o
            → Follows c.new_id e bs t (classified_with o c e b run_id t).runs
        go none of_time = stays t
        go (some at) of_time =
            by_age at of_time (ltb at b.created_at) (is_some (lifecycle_close e b)) refl

    lifecycle-Follows :
        (t : RunTables) → Follows c.new_id e bs t (lifecycle e b (lifecycle_close e b) t).0
    unfolding lifecycle lifecycle_close
    lifecycle-Follows t = go e.action refl e.merged refl (on_integration_branch e b) refl
      where
        go :
            (a : PullRequestAction)
            → e.action ≡ a
            → (m : Bool) → e.merged ≡ m
            → (x : Bool) → on_integration_branch e b ≡ x
            → Follows c.new_id e bs t
                (lifecycle e b
                  (elim a [
                    | is_closed ↦ some (some (if m then PullRequestState.merged else closed))
                    | converted_to_draft ↦ some none
                    | synchronize ↦ if x then none else some none
                    | edited ↦ if x then none else some none
                    | _ ↦ none
                  ])
                  t).0
        go is_closed same true m x on =
            close-Follows (some PullRequestState.merged) t (by_merge same m)
        go is_closed same false m x on = close-Follows (some closed) t (by_close same m)
        go converted_to_draft same m known x on = close-Follows none t (by_draft same)
        go synchronize same m known true on = stays t
        go synchronize same m known false on = close-Follows none t (by_branch (inl same) on)
        go edited same m known true on = stays t
        go edited same m known false on = close-Follows none t (by_branch (inr same) on)
        go opened same m known x on = stays t
        go reopened same m known x on = stays t
        go ready_for_review same m known x on = stays t
        go other_action same m known x on = stays t

    handle_pull_request_event-Follows :
        (t : RunTables) → Follows c.new_id e bs t (handle_pull_request_event c e b t).runs
    unfolding handle_pull_request_event
    handle_pull_request_event-Follows t =
        of_lifecycle (lifecycle e b (lifecycle_close e b) t) (lifecycle-Follows t)
      where
        of_lifecycle :
            (p : RunTables × Response (Option String))
            → Follows c.new_id e bs t p.0
            → Follows c.new_id e bs t (continued c e b p).runs
        of_lifecycle (u, throws err) h = h
        of_lifecycle (u, answer id) h =
            Follows-trans t u (after_lifecycle c e b id u).runs h (after-Follows id u)

  -- What a delivery leaves of the runs, and of the bindings.
  pub handle-Follows :
      (w : Intake) → w.bindings ≡ bs → Follows c.new_id e bs w.runs ((handle c e w).0).runs
  unfolding handle deliver handle_new handle_with actionable_binding
  handle-Follows w here = of_delivery (find_delivery e.delivery_id w.deliveries)
    where
      bound :
          (o : Option BoundRepository)
          → find (λ x. str_eq x.repository_id e.repository_id) bs ≡ o
          → Follows c.new_id e bs w.runs (handle_with c e (if_actionable e o) w.runs).runs
      bound none found = stays w.runs
      bound (some b) found =
          elim (Bool-cases (is_enabled b.status && is_installation e.installation_id b)) [
            | inl yes' ↦
                let bound : IsBound e bs b = record {
                  found = found;
                  enabled_binding = ground (arith, yes');
                  of_installation = ground (arith, yes');
                } in
                rw yes' (handle_pull_request_event-Follows b bound w.runs)
            | inr no' ↦ rw no' (stays w.runs)
          ]

      of_response :
          (h : Handled) (r : Response (Option String))
          → Follows c.new_id e bs w.runs h.runs
          → Follows c.new_id e bs w.runs ((recorded e (written w h) r).0).runs
      of_response h (throws err) follows = follows
      of_response h (answer id) follows = follows

      of_delivery : (o : Option Delivery) → Follows c.new_id e bs w.runs ((deliver o c e w).0).runs
      of_delivery (some d) = stays w.runs
      of_delivery none =
          let done = handle_with c e (actionable_binding e w.bindings) w.runs in
          of_response done done.response (
            subst
              (λ xs.
                Follows c.new_id e bs w.runs
                  (handle_with c e (actionable_binding e xs) w.runs).runs)
              (sym here) (bound (find (λ x. str_eq x.repository_id e.repository_id) bs) refl))
