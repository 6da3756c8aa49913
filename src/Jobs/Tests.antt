-- ===== src/Jobs/Tests.antt =====
-- Runs of the queue on small tables, and its theorems at concrete inputs.
use tjc_be_rag_core_api.Base.{
  ◌+◌, ◌≤◌, String, true, false, none, some, List, [], ◌∷◌, arith, ◌≡◌, refl, ◌≢◌, All, any, tally,
  codes,
}
use tjc_be_rag_core_api.Jobs.{
  Job, Table, running, pending, done, discarded, index_ok, claim_next, earliest, lock,
  fenced_update, insert_deduped,
}
use tjc_be_rag_core_api.Jobs.Failure.{
  fail, return_to_pending, retry_row, discard_row, waits_under, release_each,
}
use tjc_be_rag_core_api.Jobs.Index.{IsIndexed}
use tjc_be_rag_core_api.Jobs.Index.Failures.{Ran, Sound, fail-Sound}
use tjc_be_rag_core_api.Jobs.Service.Releases.{release_each-All-IsLost}
use tjc_be_rag_core_api.Jobs.Index.History.{
  Call, inserts, claims, run, execute, run-one_pending, after,
}
use tjc_be_rag_core_api.Jobs.Claim.{IsClaim, claim_next-IsClaim}
use tjc_be_rag_core_api.Jobs.Fencing.{discarded-covered}
use tjc_be_rag_core_api.Jobs.Attempts.{InBudget, fail-InBudget}
use tjc_be_rag_core_api.Jobs.Service.{Handler, Service, threw, settle}
use tjc_be_rag_core_api.Jobs.Service.Locks.{settle-IsLost}
use tjc_be_rag_core_api.Jobs.Fencing.{IsLost}

abbrev reverify : Job String
reverify = record {
  id = "j1";
  type = "access-reverify";
  payload = "{}";
  status = running;
  attempts = 0;
  max_attempts = 3;
  last_error = none;
  available_at = 50;
  locked_at = some 100;
  locked_by = some "w1";
  dedupe_key = some "K";
}

abbrev waiting : Job String
waiting = record reverify { id = "j2"; status = pending; locked_at = none; locked_by = none }

-- A job under a lock, and another that waits under the same key.
abbrev both : Table String
both = reverify ∷ waiting ∷ []

both-IsIndexed : IsIndexed both
unfolding index_ok
both-IsIndexed = refl

-- While the first job's lock is live, the second is not claimed; once it is obsolete, it is.
claim_tests :
    ((claim_next "w2" 600 200 both).1 ≡ none)
    × ((claim_next "w2" 600 900 both).1 ≡ some (lock "w2" 900 waiting))
unfolding claim_next earliest
claim_tests = (refl, refl)

-- A failure of the first job is discarded, since the second covers its key.
discard_test :
    fail reverify (codes "red") false 300 both
    ≡ done (discard_row 1 (codes "red") reverify ∷ waiting ∷ [], discarded)
unfolding fail return_to_pending fenced_update index_ok retry_row discard_row
discard_test = refl

abbrev calls : List (Call String)
calls =
    inserts "j1" 10 "access-reverify" "{}" 3 "K" 0 false 600
    ∷ claims "w1" 600 20
    ∷ inserts "j2" 30 "access-reverify" "{}" 3 "K" 0 false 600
    ∷ inserts "j3" 40 "access-reverify" "{}" 3 "K" 0 false 600
    ∷ []

-- The second insertion waits behind the running job; the third is deduplicated.
calls_test : tally (waits_under "K") (run calls []) ≡ 1
unfolding run execute insert_deduped claim_next earliest
calls_test = refl

run-one_pending_example : tally (waits_under "K") (run calls []) ≤ 1
run-one_pending_example = run-one_pending calls "K"

claim_next-IsClaim_example :
    IsClaim "w2" 600 900 both (reverify ∷ lock "w2" 900 waiting ∷ []) (lock "w2" 900 waiting)
unfolding claim_next earliest
claim_next-IsClaim_example = claim_next-IsClaim "w2" 600 900 both _ _ refl

abbrev stolen : Job String
stolen = record reverify { locked_by = some "w9" }

discarded-covered_example : any (waits_under "K") both ≡ true
discarded-covered_example =
    discarded-covered reverify "K" (codes "red") 300 both _ refl (λ e. refl, (λ e. refl, tt))
      (omega arith) both-IsIndexed discard_test

fail-Sound_example : Ran (Sound both) (fail reverify (codes "red") false 300 both)
fail-Sound_example =
    fail-Sound reverify (codes "red") false 300 both (λ e. refl, (λ e. refl, tt)) both-IsIndexed

release_each-All-IsLost_example :
    let after = release_each (reverify ∷ []) 900 both 0 [] in
    IsIndexed after.0 × (after.1 ≢ none) × All (λ j. IsLost j after.0) (reverify ∷ [])
release_each-All-IsLost_example =
    release_each-All-IsLost (reverify ∷ []) 900 both 0 [] ((λ e. refl, (λ e. refl, tt)), tt)
      both-IsIndexed

fail-InBudget_example : All InBudget (after both (fail reverify (codes "red") false 300 both))
fail-InBudget_example =
    fail-InBudget reverify (codes "red") false 300 both (λ e. refl, (λ e. refl, tt))
      (λ e. omega arith, (λ e. omega arith, tt))

abbrev failing : Handler String
failing = record {
  handle = λ payload id now rows. record {
    result = threw (codes "red");
    table = rows;
    ended_at = now + 5;
  };
  on_exhausted = none;
}

abbrev worker : Service String
worker = record {
  handlers = ("access-reverify", failing) ∷ [];
  worker_id = "w2";
  polling = false;
  last_stale_sweep_at = 0;
  stale_lock_ms = 600000;
  max_attempts = 3;
  violation_message = codes "Unique constraint failed";
}

settle-IsLost_example :
    IsLost reverify
      (settle worker.violation_message failing reverify (threw (codes "red")) 300 both)
settle-IsLost_example =
    settle-IsLost worker.violation_message failing reverify (threw (codes "red")) 300 both
      (λ reason rows gone. gone) (λ e. refl, (λ e. refl, tt)) both-IsIndexed

abbrev idle : Service String
idle = record worker { handlers = [] }
