-- ===== src/Jobs/Failure.antt =====
-- app/src/jobs/jobs.repository.ts: how a claimed job is left: completed, failed, rescheduled, or
-- released because its worker stopped.
use tjc_be_rag_core_api.Base.{
  ℕ, suc, ◌+◌, ◌*◌, ◌^◌, min, String, Bool, false, ◌&&◌, ◌||◌, Option, none, some, List, [], ◌∷◌,
  ◌++◌, ltb, leb, if◌then◌else◌, is_text, codes, take, keep, tally,
}
use tjc_be_rag_core_api.Jobs.{
  Job, Table, Text, Statement, done, unique_violation, and_then, pending, completed, failed,
  FailOutcome, terminal, retry, discarded, lost, is_pending, is_running, is_keyed, is_before, plus,
  is_releasable_unkeyed, stale_lock_reason, update_where, fenced_update, unlock, outcome_of,
}

abbrev pub backoff_ms : ℕ → ℕ
backoff_ms attempts = min (2 ^ attempts * 1000) 60000

abbrev pub counted : FailOutcome → ℕ → ℕ
counted lost n = n
counted _ n = suc n

module _ {P : Type 0} where
  abbrev new_payload : Option P → P → P
  new_payload none old = old
  new_payload (some p) old = p

  -- What a row that returns to PENDING is given.
  unfoldable pub retry_row : ℕ → ℕ → Text → Option P → Job P → Job P
  retry_row attempts available_at last_error payload r = record (unlock pending r) {
    attempts = attempts;
    last_error = some last_error;
    available_at = available_at;
    payload = new_payload payload r.payload;
  }

  unfoldable pub discard_row : ℕ → Text → Job P → Job P
  discard_row attempts last_error r =
      let prefix = codes "Descartado: ya existe un PENDING con la misma dedupeKey (" in
      record (unlock completed r) {
        attempts = attempts;
        last_error = some (take 2000 (prefix ++ last_error ++ codes ")."));
      }

  -- The `catch` of a unique violation; a write that ran is a retry.
  abbrev pub or_discard :
      Statement (Table P × ℕ) → Statement (Table P × ℕ) → Statement (Table P × FailOutcome)
  or_discard (done a) discard = done (outcome_of retry a)
  or_discard unique_violation discard = and_then discard (outcome_of discarded)

  -- `returnToPending`: where the index refuses the row, the job is discarded as COMPLETED.
  unfoldable pub return_to_pending :
      Job P → ℕ → ℕ → Text → Option P → Table P → Statement (Table P × FailOutcome)
  return_to_pending job attempts available_at message payload rows =
      let last_error = take 2000 message in
      let retried = fenced_update job (retry_row attempts available_at last_error payload) rows in
      let discard = fenced_update job (discard_row attempts last_error) rows in
      if is_keyed job.dedupe_key
      then or_discard retried discard
      else and_then retried (outcome_of retry)

  -- `complete`
  unfoldable pub complete : Job P → Table P → Statement (Table P × ℕ)
  complete job rows = fenced_update job (unlock completed) rows

  unfoldable pub fail_row : ℕ → Text → Job P → Job P
  fail_row attempts message r = record (unlock failed r) {
    attempts = attempts;
    last_error = some (take 2000 message);
  }

  -- `fail`: consumes an attempt of the snapshot.
  unfoldable pub fail : Job P → Text → Bool → ℕ → Table P → Statement (Table P × FailOutcome)
  fail job message force_terminal now rows =
      let attempts = job.attempts + 1 in
      if force_terminal || leb job.max_attempts attempts
      then and_then (fenced_update job (fail_row attempts message) rows) (outcome_of terminal)
      else return_to_pending job attempts (now + backoff_ms attempts) message none rows

  -- `reschedule`: the attempts stay.
  unfoldable pub reschedule :
      Job P → ℕ → Text → Option P → ℕ → Table P → Statement (Table P × FailOutcome)
  reschedule job delay reason payload now rows =
      return_to_pending job job.attempts (now + delay) reason payload rows

  -- The rows that `releaseStale` reads: obsolete locks of jobs that may be released.
  abbrev pub is_stale : ℕ → ℕ → Job P → Bool
  is_stale stale now r =
      is_running r.status
      && (is_keyed r.dedupe_key || is_releasable_unkeyed r.type)
      && is_before (plus r.locked_at stale) now

  abbrev lock_time : Job P → ℕ
  lock_time r = elim r.locked_at [ none ↦ 0 | some t ↦ t ]

  insert_by_lock : Job P → Table P → Table P
  insert_by_lock r [] = r ∷ []
  insert_by_lock r (s ∷ rows) =
      if leb (lock_time r) (lock_time s) then r ∷ s ∷ rows else s ∷ insert_by_lock r rows

  -- `ORDER BY "lockedAt"`
  pub sort_by_lock : Table P → Table P
  sort_by_lock [] = []
  sort_by_lock (r ∷ rows) = insert_by_lock r (sort_by_lock rows)

  abbrev pub exhausting : FailOutcome → Job P → List (Job P) → List (Job P)
  exhausting terminal job jobs = jobs ++ job ∷ []
  exhausting _ job jobs = jobs

  -- The loop of `releaseStale`. Each row is a statement of its own: if one throws (`none`), the
  -- earlier ones stay.
  unfoldable pub release_each :
      List (Job P) → ℕ → Table P → ℕ → List (Job P) → Table P × Option (ℕ × List (Job P))
  release_each [] now rows released exhausted = (rows, some (released, exhausted))
  release_each (job ∷ jobs) now rows released exhausted =
      elim (fail job stale_lock_reason false now rows) [
        | unique_violation ↦ (rows, none)
        | done (rows', o) ↦
            release_each jobs now rows' (counted o released) (exhausting o job exhausted)
      ]

  unfoldable pub release_stale : ℕ → ℕ → ℕ → Table P → Table P × Option (ℕ × List (Job P))
  unfolding sort_by_lock insert_by_lock
  release_stale stale limit now rows =
      release_each (take limit (sort_by_lock (keep (is_stale stale now) rows))) now rows 0 []

  abbrev pub is_postponed : String → ℕ → Job P → Bool
  is_postponed key now r = is_pending r.status && is_text r.dedupe_key key && ltb now r.available_at

  -- `expedite`: the number of rows brought forward.
  unfoldable pub expedite : String → ℕ → Table P → Table P × ℕ
  expedite key now rows = (
    update_where (is_postponed key now) (λ r. record r { available_at = now }) rows,
    tally (is_postponed key now) rows,
  )

  abbrev pub waits_under : String → Job P → Bool
  waits_under key r = is_pending r.status && is_text r.dedupe_key key

  abbrev pub give_payload : P → Job P → Job P
  give_payload payload r = record r { payload = payload }

  -- `updatePendingPayload`
  unfoldable pub update_pending_payload : String → P → Table P → Table P
  update_pending_payload key payload rows =
      update_where (waits_under key) (give_payload payload) rows
