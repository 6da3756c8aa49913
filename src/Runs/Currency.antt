-- ===== src/Runs/Currency.antt =====
-- `startRunInternal` of app/src/analysis-runs/analysis-runs.service.ts: which run is current.
use tjc_be_rag_core_api.Base.{
  ◌≤◌, Bool, true, false, Option, none, some, List, [], ◌∷◌, arith, ◌≡◌, refl, sym, ◌∙◌, subst, inl,
  inr, Bool-cases, if◌then◌else◌, str_eq, eq_iff, str_eq_refl, any, find, find-passes, map, tally,
  tally-implied, tally-map, ℕ, String,
}
use tjc_be_rag_core_api.Errors.{Response, answer, throws, conflict, analysis_run_invalid_transition}
use tjc_be_rag_core_api.Runs.{
  obsolete, is_allowed, Run, RunTables, is_expected, move, changed, transition_current, moved,
  transition_to, closing, is_current_of, find_current, add_run, start_after, start_run,
}
use tjc_be_rag_core_api.Runs.Classification.{classify_pull_request, classify_pull_request-tally}
use tjc_be_rag_core_api.Runs.Legality.{AreLegal}
use tjc_be_rag_core_api.Runs.Calls.{RunCall, call_run, call_run-AreLegal}

-- Each pull request of a project has at most one current run.
pub record IsUnambiguous (rs : List Run) : Type 0 where
  pub once : (k : Run) → tally (is_current_of k) rs ≤ 1

legal-tally :
    (k : Run) (rs rs' : List Run)
    → AreLegal rs rs'
    → tally (is_current_of k) rs' ≤ tally (is_current_of k) rs
legal-tally k [] [] h = omega arith
legal-tally k [] (r ∷ rs') h = elim h [ ]
legal-tally k (r ∷ rs) [] h = elim h [ ]
legal-tally k (r ∷ rs) (r' ∷ rs') (h, hs) =
    let rest = legal-tally k rs rs' hs in
    elim (Bool-cases (is_current_of k r')) [
      | inl gained ↦ ground (arith, gained, h.no_gain k gained, rest)
      | inr lost ↦ elim (Bool-cases (is_current_of k r)) [
        | inl had ↦ ground (arith, lost, had, rest)
        | inr never ↦ ground (arith, lost, never, rest)
      ]
    ]

none-tally :
    (k : Run) (rs : List Run) → find (is_current_of k) rs ≡ none → tally (is_current_of k) rs ≡ 0
none-tally k [] e = refl
none-tally k (r ∷ rs) e = elim (Bool-cases (is_current_of k r)) [
  | inl here ↦ absurd (ground (arith, here))
  | inr other ↦ let rest = none-tally k rs (ground (arith, other)) in ground (arith, other, rest)
]

-- Two rows of one pull request have the same rivals.
agree :
    (k new x : Run)
    → is_current_of k new ≡ true
    → is_current_of k x ≡ true
    → is_current_of new x ≡ true
agree k new x e h =
    let a = (eq_iff new.project_id k.project_id).0 (ground arith) in
    let b = (eq_iff new.repository_id k.repository_id).0 (ground arith) in
    let a' = (eq_iff x.project_id k.project_id).0 (ground arith) in
    let b' = (eq_iff x.repository_id k.repository_id).0 (ground arith) in
    let c = (eq_iff x.project_id new.project_id).1 (a' ∙ sym a) in
    let d = (eq_iff x.repository_id new.repository_id).1 (b' ∙ sym b) in ground (arith, c, d)

module _ (new r : Run) (live : r.current ≡ true) where
  abbrev cleared : Run → Run
  cleared x = if is_expected r.id r.status x then move obsolete (closing none) x else x

  cleared-keeps : (x : Run) → is_current_of new (cleared x) ≡ true → is_current_of new x ≡ true
  cleared-keeps x = go (is_expected r.id r.status x)
    where
      go :
          (b : Bool)
          → is_current_of new (if b then move obsolete (closing none) x else x) ≡ true
          → is_current_of new x ≡ true
      go true e = absurd (ground arith)
      go false e = e

  cleared-tally :
      (rs : List Run) → tally (is_current_of new) (map cleared rs) ≤ tally (is_current_of new) rs
  cleared-tally rs = tally-map (is_current_of new) cleared cleared-keeps rs

  cleared_self : is_current_of new (cleared r) ≡ false
  cleared_self =
      let same : is_expected r.id r.status r ≡ true = ground (arith, str_eq_refl r.id) in
      rw same refl

  cleared-none :
      (rs : List Run)
      → tally (is_current_of new) rs ≤ 1
      → find (is_current_of new) rs ≡ some r
      → tally (is_current_of new) (map cleared rs) ≡ 0
  cleared-none [] h e = cc
  cleared-none (x ∷ xs) h e = elim (Bool-cases (is_current_of new x)) [
    | inl here ↦
        let same : x ≡ r = ground (arith, here) in
        let gone = subst (λ y. is_current_of new (cleared y) ≡ false) (sym same) cleared_self in
        let rest = cleared-tally xs in ground (arith, here, gone, rest)
    | inr other ↦
        let rest = cleared-none xs (ground (arith, other)) (ground (arith, other)) in
        elim (Bool-cases (is_current_of new (cleared x))) [
          | inl stays ↦ absurd (ground (arith, other, cleared-keeps x stays))
          | inr goes ↦ ground (arith, goes, rest)
        ]
  ]

added-IsUnambiguous :
    (new : Run) (rs : List Run)
    → tally (is_current_of new) rs ≡ 0
    → IsUnambiguous rs
    → IsUnambiguous (new ∷ rs)
added-IsUnambiguous new rs free h = record { once = once }
  where
    once : (k : Run) → tally (is_current_of k) (new ∷ rs) ≤ 1
    once k = elim (Bool-cases (is_current_of k new)) [
      | inl rival ↦
          let below =
            tally-implied (is_current_of k) (is_current_of new) (λ x. agree k new x rival) rs in
          ground (arith, rival, below, free)
      | inr other ↦ let before = h.once k in ground (arith, other, before)
    ]

start_run-IsUnambiguous :
    (new : Run) (t : RunTables) → IsUnambiguous t.runs → IsUnambiguous ((start_run new t).0).runs
unfolding start_run find_current transition_to transition_current
start_run-IsUnambiguous new t h = of_found (find_current new t) refl
  where
    of_any :
        (r : Run) (b : Bool)
        → find (is_current_of new) t.runs ≡ some r
        → (let after : RunTables × Bool =
              if b then (changed r.id r.status obsolete (closing none) t, true) else (t, false) in
            IsUnambiguous ((add_run new (moved after)).0).runs)
    of_any r true found =
        let passes = find-passes (is_current_of new) t.runs r found in
        let live : r.current ≡ true = ground (arith, passes) in
        let once = h.once new in
        added-IsUnambiguous new (map (cleared new r live) t.runs)
          (cleared-none new r live t.runs once found)
          (record { once = λ k. omega (arith, cleared-tally k r live t.runs, h.once k) })
    of_any r false found = h

    of_allowed :
        (r : Run) (b : Bool)
        → find (is_current_of new) t.runs ≡ some r
        → (let after : RunTables × Response Unit =
              if b
              then moved (transition_current r.id r.status obsolete (closing none) t)
              else (t, throws (conflict analysis_run_invalid_transition)) in
            IsUnambiguous ((add_run new after).0).runs)
    of_allowed r true found = of_any r (any (is_expected r.id r.status) t.runs) found
    of_allowed r false found = h

    of_head :
        (r : Run) (b : Bool)
        → find (is_current_of new) t.runs ≡ some r
        → (let after : RunTables × Response Bool =
              if b
              then (t, answer false)
              else add_run new (transition_to r obsolete (closing none) t) in
            IsUnambiguous (after.0).runs)
    of_head r true found = h
    of_head r false found = of_allowed r (is_allowed r.status obsolete) found

    of_found :
        (o : Option Run)
        → find (is_current_of new) t.runs ≡ o
        → IsUnambiguous ((start_after new o t).0).runs
    of_found none found = added-IsUnambiguous new t.runs (none-tally new t.runs found) h
    of_found (some r) found = of_head r (str_eq r.head_sha new.head_sha) found

-- A start of a run, a call on a run that exists, or a classification of a pull request.
pub data RunStep : Type 0 where
  starts : Run → RunStep
  calls : RunCall → RunStep
  classifies : String → ℕ → Option ℕ → ℕ → RunStep

unfoldable pub run_steps : List RunStep → RunTables → RunTables
run_steps [] t = t
run_steps (starts new ∷ steps) t = run_steps steps (start_run new t).0
run_steps (calls c ∷ steps) t = run_steps steps (call_run c t)
run_steps (classifies repository_id pr_number created_at binding_created_at ∷ steps) t =
    run_steps steps
      (classify_pull_request repository_id pr_number created_at binding_created_at t).0

-- After any sequence of starts, calls and classifications, each in a step of its own and with runs
-- that were read at any time, each pull request of a project has at most one current run, if it had
-- before.
pub run_steps-IsUnambiguous :
    (steps : List RunStep) (t : RunTables)
    → IsUnambiguous t.runs
    → IsUnambiguous (run_steps steps t).runs
unfolding run_steps
run_steps-IsUnambiguous [] t h = h
run_steps-IsUnambiguous (starts new ∷ steps) t h =
    run_steps-IsUnambiguous steps (start_run new t).0 (start_run-IsUnambiguous new t h)
run_steps-IsUnambiguous (calls c ∷ steps) t h =
    run_steps-IsUnambiguous steps (call_run c t) (record {
      once = λ k.
          omega (arith, legal-tally k t.runs (call_run c t).runs (call_run-AreLegal c t), h.once k);
    })
run_steps-IsUnambiguous (classifies repository_id pr_number created_at bound_at ∷ steps) t h =
    run_steps-IsUnambiguous steps
      (classify_pull_request repository_id pr_number created_at bound_at t).0
      (record {
        once = λ k.
            let fewer =
              classify_pull_request-tally k repository_id pr_number created_at bound_at t in
            let before = h.once k in omega (arith, fewer, before);
      })
