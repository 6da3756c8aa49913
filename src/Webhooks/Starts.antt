-- ===== src/Webhooks/Starts.antt =====
-- Which events start an analysis, in app/src/github-webhooks/github-webhooks.service.ts.
use tjc_be_rag_core_api.Base.{
  ℕ, ◌+◌, ◌≤◌, ◌<◌, String, Bool, true, false, not, ◌&&◌, ◌||◌, Option, none, some, List, [], ◌∷◌,
  ◌++◌, ◌≡◌, refl, ap, ◌∙◌, ◌⊎◌, inl, inr, arith, Bool-cases, if◌then◌else◌, ltb, tally, find,
  str_eq,
}
use tjc_be_rag_core_api.Errors.{Response, answer, throws}
use tjc_be_rag_core_api.Runs.{Run, RunTables, find_current, start_run}
use tjc_be_rag_core_api.Runs.Classification.{classify_pull_request}
use tjc_be_rag_core_api.Webhooks.{
  PullRequestAction, PullRequestEvent, is_closed, converted_to_draft, synchronize, edited, opened,
  reopened, ready_for_review, other_action, BoundRepository, JobCall, analyses_snapshot, Chance,
  Intake, Delivery, Handled, run_of, started, start_from_event, quiet, lifecycle_close,
  start_unless, act_by, act, classified_with, after_lifecycle, continued, lifecycle, is_some,
  handle_pull_request_event, is_enabled, is_installation, actionable_binding, if_actionable,
  handle_with, written, recorded, handle_new, deliver, find_delivery, handle, on_integration_branch,
  recovery,
}

abbrev pub is_analysis : JobCall → Bool
is_analysis (analyses_snapshot id) = true
is_analysis _ = false

abbrev pub is_starting : PullRequestAction → Bool
is_starting is_closed = false
is_starting converted_to_draft = false
is_starting other_action = false
is_starting _ = true

-- The event is one that may start an analysis under this binding: its repository is bound, enabled and
-- of its installation, the pull request is no draft, is on the integration branch, and is not older
-- than the binding.
pub record IsStartable (e : PullRequestEvent) (b : BoundRepository) : Type 0 where
  pub by_action : is_starting e.action ≡ true
  pub on_branch : on_integration_branch e b ≡ true
  pub no_draft : e.draft ≡ false
  pub at : ℕ
  pub of_time : e.created_at ≡ some at
  pub no_older : b.created_at ≤ at

pub record IsActionable (e : PullRequestEvent) (bs : List BoundRepository) : Type 0 where
  pub binding : BoundRepository
  pub bound : find (λ b. str_eq b.repository_id e.repository_id) bs ≡ some binding
  pub enabled_binding : is_enabled binding.status ≡ true
  pub of_installation : is_installation e.installation_id binding ≡ true
  pub startable : IsStartable e binding

-- No analysis is asked for, or one, and then the condition holds.
OnlyIf : Handled → Type 0 → Type 0
OnlyIf h P = (tally is_analysis h.calls ≡ 0) ⊎ ((tally is_analysis h.calls ≡ 1) × P)

OnlyIf-imp : (h : Handled) (P Q : Type 0) → (P → Q) → OnlyIf h P → OnlyIf h Q
unfolding OnlyIf
OnlyIf-imp h P Q f (inl asked) = inl asked
OnlyIf-imp h P Q f (inr (asked, x)) = inr (asked, f x)

module _ (c : Chance) (e : PullRequestEvent) (b : BoundRepository) where
  Ready : Type 0
  Ready = (is_starting e.action ≡ true) × (on_integration_branch e b ≡ true) × (e.draft ≡ false)

  start_unless-OnlyIf :
      (skips : Bool) (t : RunTables) (P : Type 0)
      → (skips ≡ false → P)
      → OnlyIf (start_unless skips c.new_id e b t) P
  unfolding OnlyIf start_unless start_from_event
  start_unless-OnlyIf true t P ready = inl refl
  start_unless-OnlyIf false t P ready =
      go (find_current (run_of c.new_id e b) t) (start_run (run_of c.new_id e b) t)
    where
      go : (o : Option Run) (p : RunTables × Response Bool) → OnlyIf (started c.new_id o p) P
      go o (u, throws err) = inl refl
      go o (u, answer true) = inr (refl, ready refl)
      go o (u, answer false) = inl refl

  act-OnlyIf : (t : RunTables) → OnlyIf (act c.new_id e b t) Ready
  unfolding OnlyIf act act_by Ready
  act-OnlyIf t = go e.action refl (on_integration_branch e b) refl
    where
      ready :
          (a : PullRequestAction)
          → e.action ≡ a
          → is_starting a ≡ true
          → (x : Bool) → on_integration_branch e b ≡ x
          → (not x || e.draft) ≡ false
          → Ready
      ready a same starting true on h = (ap is_starting same ∙ starting, on, h)
      ready a same starting false on h = absurd (ground arith)

      go :
          (a : PullRequestAction)
          → e.action ≡ a
          → (x : Bool) → on_integration_branch e b ≡ x
          → OnlyIf (act_by a (not x) c.new_id e b t) Ready
      go opened same x on =
          start_unless-OnlyIf (not x || e.draft) t Ready (ready opened same refl x on)
      go reopened same x on =
          start_unless-OnlyIf (not x || e.draft) t Ready (ready reopened same refl x on)
      go ready_for_review same x on =
          start_unless-OnlyIf (not x || e.draft) t Ready (ready ready_for_review same refl x on)
      go synchronize same true on =
          start_unless-OnlyIf e.draft t Ready (ready synchronize same refl true on)
      go synchronize same false on = inl refl
      go edited same true on = start_unless-OnlyIf e.draft t Ready (ready edited same refl true on)
      go edited same false on = inl refl
      go is_closed same x on = inl refl
      go converted_to_draft same x on = inl refl
      go other_action same x on = inl refl

  after-OnlyIf :
      (id : Option String) (t : RunTables) → OnlyIf (after_lifecycle c e b id t) (IsStartable e b)
  unfolding OnlyIf after_lifecycle classified_with Ready
  after-OnlyIf id t = go e.created_at refl
    where
      classify : ℕ → RunTables
      classify at = (classify_pull_request e.repository_id e.number (some at) b.created_at t).0

      startable :
          (at : ℕ) → e.created_at ≡ some at → ltb at b.created_at ≡ false → Ready → IsStartable e b
      startable at of_time young r = record {
        by_action = r.0;
        on_branch = r.1;
        no_draft = r.2;
        at = at;
        of_time = of_time;
        no_older = ground (arith, young);
      }

      by_close :
          (at : ℕ)
          → e.created_at ≡ some at
          → ltb at b.created_at ≡ false
          → (x : Bool)
          → OnlyIf
              (if x then quiet (classify at) id else act c.new_id e b (classify at))
              (IsStartable e b)
      by_close at of_time young true = inl refl
      by_close at of_time young false =
          OnlyIf-imp (act c.new_id e b (classify at)) Ready (IsStartable e b)
            (startable at of_time young) (act-OnlyIf (classify at))

      by_age :
          (at : ℕ)
          → e.created_at ≡ some at
          → (old : Bool) → ltb at b.created_at ≡ old
          → OnlyIf
              (if old
                then quiet (classify at) none
                else if is_some (lifecycle_close e b)
                then quiet (classify at) id
                else act c.new_id e b (classify at))
              (IsStartable e b)
      by_age at of_time true young = inl refl
      by_age at of_time false young = by_close at of_time young (is_some (lifecycle_close e b))

      recovers : (q : Bool) → tally is_analysis (recovery q e) ≡ 0
      recovers true = refl
      recovers false = refl

      go :
          (o : Option ℕ)
          → e.created_at ≡ o
          → OnlyIf (classified_with o c e b id t) (IsStartable e b)
      go none of_time = inl (recovers c.is_queued)
      go (some at) of_time = by_age at of_time (ltb at b.created_at) refl

  handle_pull_request_event-OnlyIf :
      (t : RunTables) → OnlyIf (handle_pull_request_event c e b t) (IsStartable e b)
  unfolding OnlyIf handle_pull_request_event continued
  handle_pull_request_event-OnlyIf t = go (lifecycle e b (lifecycle_close e b) t)
    where
      go : (p : RunTables × Response (Option String)) → OnlyIf (continued c e b p) (IsStartable e b)
      go (u, throws err) = inl refl
      go (u, answer id) = after-OnlyIf id u

tally-append :
    {A : Type 0} (p : A → Bool) (xs ys : List A) → tally p (xs ++ ys) ≡ tally p xs + tally p ys
tally-append p [] ys = omega arith
tally-append p (x ∷ xs) ys = elim (Bool-cases (p x)) [
  | inl here ↦ ground (arith, here, tally-append p xs ys)
  | inr other ↦ ground (arith, other, tally-append p xs ys)
]

module _ (c : Chance) (e : PullRequestEvent) (w : Intake) where
  bound-OnlyIf :
      OnlyIf (handle_with c e (actionable_binding e w.bindings) w.runs) (IsActionable e w.bindings)
  unfolding OnlyIf handle_with actionable_binding
  bound-OnlyIf = of_found (find (λ b. str_eq b.repository_id e.repository_id) w.bindings) refl
    where
      actionable :
          (b : BoundRepository)
          → find (λ b. str_eq b.repository_id e.repository_id) w.bindings ≡ some b
          → (is_enabled b.status && is_installation e.installation_id b) ≡ true
          → IsStartable e b
          → IsActionable e w.bindings
      actionable b bound good startable = record {
        binding = b;
        bound = bound;
        enabled_binding = ground (arith, good);
        of_installation = ground (arith, good);
        startable = startable;
      }

      of_test :
          (b : BoundRepository)
          → find (λ b. str_eq b.repository_id e.repository_id) w.bindings ≡ some b
          → (x : Bool) → (is_enabled b.status && is_installation e.installation_id b) ≡ x
          → OnlyIf (handle_with c e (if x then some b else none) w.runs) (IsActionable e w.bindings)
      of_test b bound true good =
          OnlyIf-imp (handle_pull_request_event c e b w.runs) (IsStartable e b)
            (IsActionable e w.bindings) (actionable b bound good)
            (handle_pull_request_event-OnlyIf c e b w.runs)
      of_test b bound false good = inl refl

      of_found :
          (o : Option BoundRepository)
          → find (λ b. str_eq b.repository_id e.repository_id) w.bindings ≡ o
          → OnlyIf (handle_with c e (if_actionable e o) w.runs) (IsActionable e w.bindings)
      of_found none bound = inl refl
      of_found (some b) bound =
          of_test b bound (is_enabled b.status && is_installation e.installation_id b) refl

  -- An event makes at most the analysis of one run asked for, and only if it is one that may start it
  -- under the binding of its repository.
  pub handle-IsActionable :
      let before = tally is_analysis w.job_calls in
      let after = tally is_analysis ((handle c e w).0).job_calls in
      (after ≤ before + 1) × (before < after → IsActionable e w.bindings)
  unfolding handle deliver handle_new OnlyIf
  handle-IsActionable = of_delivery (find_delivery e.delivery_id w.deliveries)
    where
      Asks : List JobCall → Type 0
      Asks calls =
          (tally is_analysis calls ≤ tally is_analysis w.job_calls + 1)
          × (tally is_analysis w.job_calls < tally is_analysis calls → IsActionable e w.bindings)

      of_handled :
          (h : Handled) → OnlyIf h (IsActionable e w.bindings) → Asks (w.job_calls ++ h.calls)
      of_handled h (inl asked) =
          let sum = tally-append is_analysis w.job_calls h.calls in
          (omega (arith, sum, asked), λ more. absurd (omega (arith, sum, asked, more)))
      of_handled h (inr (asked, actionable)) =
          let sum = tally-append is_analysis w.job_calls h.calls in
          (omega (arith, sum, asked), λ more. actionable)

      of_response :
          (h : Handled) (r : Response (Option String))
          → Asks (w.job_calls ++ h.calls)
          → Asks ((recorded e (written w h) r).0).job_calls
      of_response h (throws err) asks = asks
      of_response h (answer id) asks = asks

      of_delivery : (o : Option Delivery) → Asks ((deliver o c e w).0).job_calls
      of_delivery (some d) = (omega arith, λ more. absurd (omega (arith, more)))
      of_delivery none =
          let done = handle_with c e (actionable_binding e w.bindings) w.runs in
          of_response done done.response (of_handled done bound-OnlyIf)
