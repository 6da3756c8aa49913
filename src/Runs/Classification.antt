-- ===== src/Runs/Classification.antt =====
-- `classifyPullRequest` of app/src/analysis-runs/analysis-runs.repository.ts: which runs of a pull
-- request are older than the binding of its repository.
use tjc_be_rag_core_api.Base.{
  ℕ, ◌≤◌, String, Bool, true, false, ◌&&◌, ◌||◌, Option, none, some, List, if◌then◌else◌, str_eq,
  ◌==◌, leb, any, map, tally, tally-map, arith, ◌≡◌,
}
use tjc_be_rag_core_api.Runs.{
  Run, RunTables, Question, obsolete, outdated, is_pending, is_current_of,
}

-- The rows of a pull request that were never classified.
abbrev is_pull_request : String → ℕ → Run → Bool
is_pull_request repository_id pr_number r =
    str_eq r.repository_id repository_id && r.pr_number == pr_number

abbrev is_missing : {A : Type 0} → Option A → Bool
is_missing none = true
is_missing (some a) = false

abbrev is_unclassified : String → ℕ → Run → Bool
is_unclassified repository_id pr_number r =
    is_pull_request repository_id pr_number r
    && (is_missing r.pull_request_created_at || is_missing r.repository_binding_eligible)

abbrev pub classified : ℕ → Bool → Run → Run
classified created_at eligible r = record r {
  pull_request_created_at = some created_at;
  repository_binding_eligible = some eligible;
  status = if eligible then r.status else obsolete;
  current = if eligible then r.current else false;
}

-- A pending question of a run of the pull request.
abbrev is_question_of : String → ℕ → List Run → Question → Bool
is_question_of repository_id pr_number runs q =
    is_pending q.status
    && any (λ r. str_eq r.id q.run_id && is_pull_request repository_id pr_number r) runs

abbrev drop_of_pull_request : String → ℕ → RunTables → List Question → List Question
drop_of_pull_request repository_id pr_number t qs =
    map
      (λ q.
        if is_question_of repository_id pr_number t.runs q
        then record q { status = outdated }
        else q)
      qs

-- `classifyPullRequest`, its transaction as one step; the count is left out, the flag is `eligible`.
unfoldable pub classify_pull_request : String → ℕ → Option ℕ → ℕ → RunTables → RunTables × Bool
classify_pull_request repository_id pr_number none binding_created_at t = (t, false)
classify_pull_request repository_id pr_number (some created_at) binding_created_at t =
    let eligible = leb binding_created_at created_at in
    (
      record {
        runs =
            map
              (λ r.
                if is_unclassified repository_id pr_number r
                then classified created_at eligible r
                else r)
              t.runs;
        questions =
            if eligible
            then t.questions
            else drop_of_pull_request repository_id pr_number t t.questions;
      },
      eligible,
    )

-- A classification makes no run current.
pub classify_pull_request-tally :
    (k : Run) (repository_id : String) (pr_number : ℕ) (created : Option ℕ) (binding : ℕ)
    (t : RunTables)
    → tally
        (is_current_of k)
        ((classify_pull_request repository_id pr_number created binding t).0).runs
      ≤ tally (is_current_of k) t.runs
unfolding classify_pull_request
classify_pull_request-tally k repository_id pr_number none binding t = omega arith
classify_pull_request-tally k repository_id pr_number (some at) binding t =
    tally-map (is_current_of k)
      (λ r.
        if is_unclassified repository_id pr_number r then classified at (leb binding at) r else r)
      (λ r. keeps (leb binding at) r (is_unclassified repository_id pr_number r)) t.runs
  where
    keeps :
        (eligible : Bool) (r : Run) (b : Bool)
        → is_current_of k (if b then classified at eligible r else r) ≡ true
        → is_current_of k r ≡ true
    keeps true r true e = e
    keeps false r true e = absurd (ground arith)
    keeps eligible r false e = e
