-- ===== src/Jobs/Service/Locks.antt =====
-- app/src/jobs/jobs.service.ts: a job that was attended is no longer locked by its worker.
use tjc_be_rag_core_api.Base.{
  ℕ, ◌+◌, Bool, false, Option, none, [], ◌∷◌, arith, ◌≡◌, refl, subst, tally, take, Bool-cases, inl,
  inr,
}
use tjc_be_rag_core_api.Jobs.{
  Job, Table, Text, completed, Statement, done, unique_violation, fenced_update, holds_lock,
  update_where, is_running, FailOutcome, terminal, retry, discarded, lost, unlock, and_then,
  outcome_of,
}
use tjc_be_rag_core_api.Jobs.Failure.{
  complete, fail, reschedule, return_to_pending, retry_row, discard_row, fail_row, backoff_ms,
  or_discard,
}
use tjc_be_rag_core_api.Jobs.Index.{IsIndexed}
use tjc_be_rag_core_api.Jobs.Index.Failures.{
  KeyAgrees, Ran-cases, Sound, fail-Sound, complete-Sound, reschedule-Sound,
}
use tjc_be_rag_core_api.Jobs.Fencing.{IsLost}
use tjc_be_rag_core_api.Jobs.Service.{
  Handler, HandlerResult, returned, asked_reschedule, threw, settle, on_failure, hook, closing,
}

module _ {P : Type 0} where
  update_where-IsLost :
      (p : Job P → Bool) (f : Job P → Job P) (rows : Table P)
      → ((r : Job P) → p (f r) ≡ false)
      → tally p (update_where p f rows) ≡ 0
  update_where-IsLost p f [] c = refl
  update_where-IsLost p f (r ∷ rows) c = ground (arith, c r, update_where-IsLost p f rows c)

  -- If the statement ran, the table that it left has a property.
  abbrev pub After : {A : Type 0} → (Table P → Type 0) → Statement (Table P × A) → Type 0
  After Q (done a) = Q a.0
  After Q unique_violation = Unit

  and_then-After :
      (Q : Table P → Type 0) (m : Statement (Table P × ℕ)) (o : FailOutcome)
      → After Q m
      → After Q (and_then m (outcome_of o))
  and_then-After Q m o h = ground arith

  or_discard-After :
      (Q : Table P → Type 0) (m discard : Statement (Table P × ℕ))
      → After Q m
      → After Q discard
      → After Q (or_discard m discard)
  or_discard-After Q m discard h k = ground arith

  -- What every write of a row that is not running leaves, a failure leaves.
  module _ (Q : Table P → Type 0) (job : Job P) (rows : Table P)
      (each : (f : Job P → Job P)
        → ((r : Job P) → is_running (f r).status ≡ false)
        → After Q (fenced_update job f rows)) where
    return_to_pending-After :
        (attempts available_at : ℕ) (message : Text) (payload : Option P)
        → After Q (return_to_pending job attempts available_at message payload rows)
    unfolding return_to_pending
    return_to_pending-After attempts available_at message payload =
        let back : Job P → Job P = retry_row attempts available_at (take 2000 message) payload in
        let dropped : Job P → Job P = discard_row attempts (take 2000 message) in
        let retried = each back (unfold retry_row in λ r. refl) in
        let discarded' = each dropped (unfold discard_row in λ r. refl) in
        ground (
          arith,
          or_discard-After Q (fenced_update job back rows) (fenced_update job dropped rows) retried
              discarded',
          and_then-After Q (fenced_update job back rows) retry retried,
        )

    fail-After :
        (message : Text) (force : Bool) (now : ℕ) → After Q (fail job message force now rows)
    unfolding fail
    fail-After message force now =
        let last : Job P → Job P = fail_row (job.attempts + 1) message in
        ground (
          arith,
          and_then-After Q (fenced_update job last rows) terminal
              (each last (unfold fail_row in λ r. refl)),
          return_to_pending-After (job.attempts + 1) (now + backoff_ms (job.attempts + 1)) message
              none,
        )

  abbrev Frees : {A : Type 0} → Job P → Statement (Table P × A) → Type 0
  Frees job = After (IsLost job)

  fenced_update-Frees :
      (job : Job P) (f : Job P → Job P) (rows : Table P)
      → ((r : Job P) → is_running (f r).status ≡ false)
      → Frees job (fenced_update job f rows)
  unfolding fenced_update
  fenced_update-Frees job f rows c = ground (
    arith,
    update_where-IsLost (holds_lock job.id job.locked_by) f rows (λ r. ground (arith, c r)),
  )

  return_to_pending-Frees :
      (job : Job P) (attempts available_at : ℕ) (message : Text) (payload : Option P)
      (rows : Table P)
      → Frees job (return_to_pending job attempts available_at message payload rows)
  return_to_pending-Frees job attempts available_at message payload rows =
      return_to_pending-After (IsLost job) job rows (λ f c. fenced_update-Frees job f rows c)
        attempts available_at message payload

  pub fail-Frees :
      (job : Job P) (message : Text) (force : Bool) (now : ℕ) (rows : Table P)
      → Frees job (fail job message force now rows)
  fail-Frees job message force now rows =
      fail-After (IsLost job) job rows (λ f c. fenced_update-Frees job f rows c) message force now

  -- A lock that no row holds is held by none after the failure of another job.
  update_where-IsFree :
      (p q : Job P → Bool) (f : Job P → Job P) (rows : Table P)
      → ((r : Job P) → q (f r) ≡ false)
      → tally q rows ≡ 0
      → tally q (update_where p f rows) ≡ 0
  update_where-IsFree p q f [] c h = refl
  update_where-IsFree p q f (r ∷ rows) c h = elim (Bool-cases (q r)) [
    | inl held ↦ absurd (ground (arith, held, h))
    | inr free ↦
        ground (arith, free, c r, update_where-IsFree p q f rows c (ground (arith, free, h)))
  ]

  fenced_update-Spares :
      (other job : Job P) (rows : Table P)
      → IsLost other rows
      → (f : Job P → Job P) → ((r : Job P) → is_running (f r).status ≡ false)
      → After (IsLost other) (fenced_update job f rows)
  unfolding fenced_update
  fenced_update-Spares other job rows h f c = ground (
    arith,
    update_where-IsFree (holds_lock job.id job.locked_by) (holds_lock other.id other.locked_by) f
        rows (λ r. ground (arith, c r)) h,
  )

  pub fail-Spares :
      (other job : Job P) (message : Text) (force : Bool) (now : ℕ) (rows : Table P)
      → IsLost other rows
      → After (IsLost other) (fail job message force now rows)
  fail-Spares other job message force now rows h =
      fail-After (IsLost other) job rows (fenced_update-Spares other job rows h) message force now

  -- The hook of the handler takes no lock of the job again.
  abbrev HookFrees : Handler P → Job P → Type 0
  HookFrees h job =
      (reason : Text) (rows : Table P)
      → IsLost job rows
      → IsLost job (hook h.on_exhausted job.payload reason rows)

  on_failure-IsLost :
      (h : Handler P) (job : Job P) (message : Text) (now : ℕ) (rows : Table P)
      → HookFrees h job
      → KeyAgrees job rows
      → IsIndexed rows
      → IsLost job (on_failure h job message now rows)
  unfolding on_failure
  on_failure-IsLost h job message now rows frees agrees ok =
      let (a, e, s) =
        Ran-cases (Sound rows) (fail job message false now rows)
          (fail-Sound job message false now rows agrees ok) in
      let gone : IsLost job a.0 = subst (Frees job) e (fail-Frees job message false now rows) in
      rw (e, on_failure) (after_hook a gone)
    where
      after_hook :
          (a : Table P × FailOutcome) → IsLost job a.0 → IsLost job (closing h job message a.0 a.1)
      after_hook (rows', terminal) gone = frees message rows' gone
      after_hook (rows', retry) gone = gone
      after_hook (rows', discarded) gone = gone
      after_hook (rows', lost) gone = gone

  -- However a handler ends, its job is no longer locked by the worker that ran it.
  pub settle-IsLost :
      (violation : Text) (h : Handler P) (job : Job P) (result : HandlerResult P) (now : ℕ)
      (rows : Table P)
      → HookFrees h job
      → KeyAgrees job rows
      → IsIndexed rows
      → IsLost job (settle violation h job result now rows)
  unfolding settle
  settle-IsLost violation h job returned now rows frees agrees ok =
      let (a, e, s) = Ran-cases (Sound rows) (complete job rows) (complete-Sound job rows ok) in
      rw (e, settle)
        (subst (Frees job) e
          (unfold complete in fenced_update-Frees job (unlock completed) rows (λ r. refl)))
  settle-IsLost violation h job (asked_reschedule delay reason payload) now rows frees agrees ok =
      let m = reschedule job delay reason payload now rows in
      let (a, e, s) =
        Ran-cases (Sound rows) m (reschedule-Sound job delay reason payload now rows agrees ok) in
      rw e (
        subst (Frees job) e (
          unfold reschedule in
          return_to_pending-Frees job job.attempts (now + delay) reason payload rows))
  settle-IsLost violation h job (threw message) now rows frees agrees ok =
      on_failure-IsLost h job message now rows frees agrees ok
