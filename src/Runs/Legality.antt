-- ===== src/Runs/Legality.antt =====
-- The calls of app/src/analysis-runs/analysis-runs.service.ts: how a transition changes each run.
use tjc_be_rag_core_api.Base.{
  ℕ, zero, suc, String, Bool, true, false, List, [], ◌∷◌, arith, ◌≡◌, refl, sym, ap, ◌∙◌, subst,
  ◌⊎◌, inl, inr, if◌then◌else◌, any, map,
}
use tjc_be_rag_core_api.Errors.{Response, throws, conflict, analysis_run_invalid_transition}
use tjc_be_rag_core_api.Runs.{
  RunStatus, queued, processing, action_required, success, behavioral_mismatch,
  technical_generation_failure, infrastructure_failure, baseline_failed,
  no_additional_tests_required, no_test_relevant_changes, obsolete, status_number, same_status,
  is_allowed, Run, Patch, apply_patch, RunTables, is_expected, move, changed, transition_current,
  moved, transition_to, is_current_of,
}

abbrev of_number : ℕ → RunStatus
of_number zero = queued
of_number (suc zero) = processing
of_number (suc (suc zero)) = action_required
of_number (suc (suc (suc zero))) = success
of_number (suc (suc (suc (suc zero)))) = behavioral_mismatch
of_number (suc (suc (suc (suc (suc zero))))) = technical_generation_failure
of_number (suc (suc (suc (suc (suc (suc zero)))))) = infrastructure_failure
of_number (suc (suc (suc (suc (suc (suc (suc zero))))))) = baseline_failed
of_number (suc (suc (suc (suc (suc (suc (suc (suc zero)))))))) = no_additional_tests_required
of_number (suc (suc (suc (suc (suc (suc (suc (suc (suc zero))))))))) = no_test_relevant_changes
of_number _ = obsolete

of_number-status_number : (s : RunStatus) → of_number (status_number s) ≡ s
of_number-status_number queued = refl
of_number-status_number processing = refl
of_number-status_number action_required = refl
of_number-status_number success = refl
of_number-status_number behavioral_mismatch = refl
of_number-status_number technical_generation_failure = refl
of_number-status_number infrastructure_failure = refl
of_number-status_number baseline_failed = refl
of_number-status_number no_additional_tests_required = refl
of_number-status_number no_test_relevant_changes = refl
of_number-status_number obsolete = refl

same_status_eq : (a b : RunStatus) → same_status a b ≡ true → a ≡ b
same_status_eq a b e =
    let numbers : status_number a ≡ status_number b = ground arith in
    sym (of_number-status_number a) ∙ ap of_number numbers ∙ of_number-status_number b

-- How a row may change: its status only along the transitions, and not at all once it is not
-- current; and it does not become the current run of a pull request.
pub record IsLegal (r r' : Run) : Type 0 where
  pub same_id : r'.id ≡ r.id
  pub stepped : (r'.status ≡ r.status) ⊎ (is_allowed r.status r'.status ≡ true)
  pub settled : r.current ≡ false → (r'.status ≡ r.status) × (r'.current ≡ false)
  pub no_gain : (k : Run) → is_current_of k r' ≡ true → is_current_of k r ≡ true

abbrev pub AreLegal : List Run → List Run → Type 0
AreLegal [] [] = Unit
AreLegal (r ∷ rs) (r' ∷ rs') = IsLegal r r' × AreLegal rs rs'
AreLegal _ _ = ⊥

pub IsLegal-refl : (r : Run) → IsLegal r r
IsLegal-refl r = record {
  same_id = refl;
  stepped = inl refl;
  settled = λ gone. (refl, gone);
  no_gain = λ k c. c;
}

pub AreLegal-refl : (rs : List Run) → AreLegal rs rs
AreLegal-refl [] = tt
AreLegal-refl (r ∷ rs) = (IsLegal-refl r, AreLegal-refl rs)

pub patch-IsLegal : (p : Patch) (r : Run) → IsLegal r (apply_patch p r)
patch-IsLegal p r = record {
  same_id = refl;
  stepped = inl refl;
  settled = λ gone. (refl, stays p.closes gone);
  no_gain = λ k. gains p.closes k;
}
  where
    stays : (b : Bool) → r.current ≡ false → (if b then false else r.current) ≡ false
    stays true gone = refl
    stays false gone = gone

    gains :
        (b : Bool) (k : Run)
        → is_current_of k (record r { current = if b then false else r.current }) ≡ true
        → is_current_of k r ≡ true
    gains true k c = absurd (ground arith)
    gains false k c = c

move-IsLegal :
    (id : String) (expected status : RunStatus) (p : Patch) (r : Run)
    → is_allowed expected status ≡ true
    → is_expected id expected r ≡ true
    → IsLegal r (move status p r)
move-IsLegal id expected status p r allowed hit =
    let at : r.status ≡ expected = same_status_eq r.status expected (ground arith) in
    let patched = patch-IsLegal p r in
    record {
      same_id = refl;
      stepped = inr (subst (λ s. is_allowed s status ≡ true) (sym at) allowed);
      settled = λ gone. absurd (ground (arith, hit, gone));
      no_gain = patched.no_gain;
    }

pub map-AreLegal :
    (f : Run → Run) → ((r : Run) → IsLegal r (f r)) → (rs : List Run) → AreLegal rs (map f rs)
map-AreLegal f legal [] = tt
map-AreLegal f legal (r ∷ rs) = (legal r, map-AreLegal f legal rs)

pub transition_current-AreLegal :
    (id : String) (expected status : RunStatus) (p : Patch) (t : RunTables)
    → is_allowed expected status ≡ true
    → AreLegal t.runs ((transition_current id expected status p t).0).runs
unfolding transition_current
transition_current-AreLegal id expected status p t allowed =
    go (any (is_expected id expected) t.runs)
  where
    row :
        (r : Run) (b : Bool)
        → is_expected id expected r ≡ b
        → IsLegal r (if b then move status p r else r)
    row r true hit = move-IsLegal id expected status p r allowed hit
    row r false miss = IsLegal-refl r

    go :
        (b : Bool)
        → (let after : RunTables × Bool =
              if b then (changed id expected status p t, true) else (t, false) in
            AreLegal t.runs (after.0).runs)
    go true =
        map-AreLegal (λ r. if is_expected id expected r then move status p r else r)
          (λ r. row r (is_expected id expected r) refl) t.runs
    go false = AreLegal-refl t.runs

pub transition_to-AreLegal :
    (run : Run) (status : RunStatus) (p : Patch) (t : RunTables)
    → AreLegal t.runs ((transition_to run status p t).0).runs
unfolding transition_to
transition_to-AreLegal run status p t = go (is_allowed run.status status) refl
  where
    of_moved :
        (after : RunTables × Bool)
        → AreLegal t.runs (after.0).runs
        → AreLegal t.runs ((moved after).0).runs
    of_moved (t', true) h = h
    of_moved (t', false) h = h

    go :
        (b : Bool)
        → is_allowed run.status status ≡ b
        → (let after : RunTables × Response Unit =
              if b
              then moved (transition_current run.id run.status status p t)
              else (t, throws (conflict analysis_run_invalid_transition)) in
            AreLegal t.runs (after.0).runs)
    go true allowed =
        of_moved (transition_current run.id run.status status p t)
          (transition_current-AreLegal run.id run.status status p t allowed)
    go false refused = AreLegal-refl t.runs
