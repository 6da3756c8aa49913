-- ===== src/Jobs/Index/History.antt =====
-- Histories of the queue: any statements of app/src/jobs/jobs.repository.ts, by any workers, in
-- any order. A statement that the index refuses changes nothing. `releaseStale` is a read followed
-- by a `fail` for each row read, so it is a sequence of calls here.
use tjc_be_rag_core_api.Base.{
  ℕ, ◌+◌, ◌≤◌, String, Bool, true, false, Option, none, some, List, [], ◌∷◌, arith, ◌≡◌, refl,
  eq_iff, tally, take, Option-cases, Bool-cases, inl, inr, subst,
}
use tjc_be_rag_core_api.Jobs.{
  Job, Table, Text, Statement, done, unique_violation, create, insert_deduped, claim_next,
  touch_lock, fenced_update, index_ok, pending_key, has_clash, and_then, FailOutcome, outcome_of,
  retry, terminal, unlock, completed,
}
use tjc_be_rag_core_api.Jobs.Failure.{
  backoff_ms, complete, fail, reschedule, expedite, update_pending_payload, waits_under,
  return_to_pending, or_discard, retry_row, discard_row, fail_row,
}
use tjc_be_rag_core_api.Jobs.Index.{
  IsIndexed, Keeps, create-Keeps, insert_deduped-Keeps, claim_next-Keeps, touch_lock-Keeps,
  expedite-Keeps, update_pending_payload-Keeps,
}

-- A call of the repository with its arguments; `Job P` is the snapshot that a worker holds.
pub data Call (P : Type 0) : Type 0 where
  creates : String → ℕ → String → P → ℕ → Call P
  inserts : String → ℕ → String → P → ℕ → String → ℕ → Bool → ℕ → Call P
  claims : String → ℕ → ℕ → Call P
  touches : String → String → ℕ → Call P
  completes : Job P → Call P
  fails : Job P → Text → Bool → ℕ → Call P
  reschedules : Job P → ℕ → Text → Option P → ℕ → Call P
  expedites : String → ℕ → Call P
  updates : String → P → Call P

module _ {P : Type 0} where
  abbrev pub after : {A : Type 0} → Table P → Statement (Table P × A) → Table P
  after rows (done a) = a.0
  after rows unique_violation = rows

  unfoldable pub execute : Call P → Table P → Table P
  execute (creates id now type payload most) rows = create id now type payload most rows
  execute (inserts id now type payload most key delay skip stale) rows =
      (insert_deduped id now type payload most key delay skip stale rows).0
  execute (claims worker stale now) rows = (claim_next worker stale now rows).0
  execute (touches id worker now) rows = (touch_lock id worker now rows).0
  execute (completes job) rows = after rows (complete job rows)
  execute (fails job message force now) rows = after rows (fail job message force now rows)
  execute (reschedules job delay reason payload now) rows =
      after rows (reschedule job delay reason payload now rows)
  execute (expedites key now) rows = (expedite key now rows).0
  execute (updates key payload) rows = update_pending_payload key payload rows

  unfoldable pub run : List (Call P) → Table P → Table P
  run [] rows = rows
  run (c ∷ cs) rows = run cs (execute c rows)

  -- Whatever a statement leaves, the index admits it.
  abbrev pub Leaves : {A : Type 0} → Table P → Statement (Table P × A) → Type 0
  Leaves rows m = IsIndexed (after rows m)

  pub fenced_update-Leaves :
      (job : Job P) (f : Job P → Job P) (rows : Table P)
      → IsIndexed rows
      → Leaves rows (fenced_update job f rows)
  unfolding fenced_update
  fenced_update-Leaves job f rows h = ground arith

  and_then-Leaves :
      (rows : Table P) (m : Statement (Table P × ℕ)) (o : FailOutcome)
      → Leaves rows m
      → Leaves rows (and_then m (outcome_of o))
  and_then-Leaves rows m o h = ground arith

  or_discard-Leaves :
      (rows : Table P) (m discard : Statement (Table P × ℕ))
      → Leaves rows m
      → Leaves rows discard
      → Leaves rows (or_discard m discard)
  or_discard-Leaves rows m discard h k = ground arith

  pub return_to_pending-Leaves :
      (job : Job P) (attempts available_at : ℕ) (message : Text) (payload : Option P)
      (rows : Table P)
      → IsIndexed rows
      → Leaves rows (return_to_pending job attempts available_at message payload rows)
  unfolding return_to_pending
  return_to_pending-Leaves job attempts available_at message payload rows h =
      let back = retry_row attempts available_at (take 2000 message) payload in
      let dropped : Job P → Job P = discard_row attempts (take 2000 message) in
      ground (
        arith,
        or_discard-Leaves rows (fenced_update job back rows) (fenced_update job dropped rows)
            (fenced_update-Leaves job back rows h) (fenced_update-Leaves job dropped rows h),
        and_then-Leaves rows (fenced_update job back rows) retry
            (fenced_update-Leaves job back rows h),
      )

  pub fail-Leaves :
      (job : Job P) (message : Text) (force : Bool) (now : ℕ) (rows : Table P)
      → IsIndexed rows
      → Leaves rows (fail job message force now rows)
  unfolding fail
  fail-Leaves job message force now rows h = ground (
    arith,
    and_then-Leaves rows (fenced_update job (fail_row (job.attempts + 1) message) rows) terminal
        (fenced_update-Leaves job (fail_row (job.attempts + 1) message) rows h),
    return_to_pending-Leaves job (job.attempts + 1) (now + backoff_ms (job.attempts + 1)) message
        none rows h,
  )

  execute-IsIndexed : (c : Call P) → Keeps (execute c)
  unfolding execute complete reschedule
  execute-IsIndexed (creates id now type payload most) rows h =
      create-Keeps id now type payload most rows h
  execute-IsIndexed (inserts id now type payload most key delay skip stale) rows h =
      insert_deduped-Keeps id now type payload most key delay skip stale rows h
  execute-IsIndexed (claims worker stale now) rows h = claim_next-Keeps worker stale now rows h
  execute-IsIndexed (touches id worker now) rows h = touch_lock-Keeps id worker now rows h
  execute-IsIndexed (completes job) rows h = fenced_update-Leaves job (unlock completed) rows h
  execute-IsIndexed (fails job message force now) rows h = fail-Leaves job message force now rows h
  execute-IsIndexed (reschedules job delay reason payload now) rows h =
      return_to_pending-Leaves job job.attempts (now + delay) reason payload rows h
  execute-IsIndexed (expedites key now) rows h = expedite-Keeps key now rows h
  execute-IsIndexed (updates key payload) rows h = update_pending_payload-Keeps key payload rows h

  run-IsIndexed : (cs : List (Call P)) → Keeps (run cs)
  unfolding run
  run-IsIndexed [] rows h = h
  run-IsIndexed (c ∷ cs) rows h = run-IsIndexed cs (execute c rows) (execute-IsIndexed c rows h)

  no_clash-tally :
      (k : String) (rows : Table P)
      → has_clash (some k) rows ≡ false
      → tally (waits_under k) rows ≡ 0
  no_clash-tally k [] h = refl
  no_clash-tally k (r ∷ rows) h = ground (arith, no_clash-tally k rows)

  pending_key_of_waits : (k : String) (r : Job P) → waits_under k r ≡ true → pending_key r ≡ some k
  pending_key_of_waits k r w = elim (Option-cases r.dedupe_key) [
    | inl e ↦ ground arith
    | inr (j, e) ↦ ground (arith, e, eq_iff j k)
  ]

  alone :
      (k : String) (r : Job P) (rows : Table P)
      → IsIndexed (r ∷ rows)
      → waits_under k r ≡ true
      → has_clash (some k) rows ≡ false
  unfolding index_ok
  alone k r rows h w =
      subst (λ o. has_clash o rows ≡ false) (pending_key_of_waits k r w) (ground arith)

  tally-le-one : (k : String) (rows : Table P) → IsIndexed rows → tally (waits_under k) rows ≤ 1
  unfolding index_ok
  tally-le-one k [] h = omega arith
  tally-le-one k (r ∷ rows) h = elim (Bool-cases (waits_under k r)) [
    | inl w ↦ rw w (omega (arith, no_clash-tally k rows (alone k r rows h w)))
    | inr w ↦ rw w (tally-le-one k rows (ground arith))
  ]

  -- After any calls from the empty table, each key has at most one PENDING row.
  pub run-one_pending : (cs : List (Call P)) (k : String) → tally (waits_under k) (run cs []) ≤ 1
  unfolding index_ok
  run-one_pending cs k = tally-le-one k (run cs []) (run-IsIndexed cs [] refl)
