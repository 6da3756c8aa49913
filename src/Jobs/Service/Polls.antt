-- ===== src/Jobs/Service/Polls.antt =====
-- app/src/jobs/jobs.service.ts: what a poll keeps, and how often it sweeps.
use tjc_be_rag_core_api.Base.{
  ℕ, ◌+◌, ◌<◌, min, String, Bool, true, false, Option, none, some, List, [], ◌∷◌, arith, ◌≡◌, subst,
  sym, if◌then◌else◌, Bool-cases, Option-cases, inl, inr, All, ltb, take, keep, str_eq, lt→ltb,
}
use tjc_be_rag_core_api.Jobs.{
  Statement-cases, unlock, completed, Job, Table, Text, claim_next, FailOutcome, terminal, retry,
  discarded, lost, stale_lock_reason,
}
use tjc_be_rag_core_api.Jobs.Failure.{
  complete, fail, reschedule, release_stale, is_stale, sort_by_lock, release_each, counted,
  exhausting,
}
use tjc_be_rag_core_api.Jobs.Index.{IsIndexed, Keeps, claim_next-Keeps}
use tjc_be_rag_core_api.Jobs.Index.History.{
  Leaves, fail-Leaves, fenced_update-Leaves, return_to_pending-Leaves,
}
use tjc_be_rag_core_api.Jobs.Service.{
  Handler, HandlerResult, returned, asked_reschedule, threw, Service, handler_for, settle,
  on_failure, hook, closing, attend, notify, notify_each, notify_released, sweep_stale_locks,
  stale_sweep_interval_ms, work, run_once, no_handler_message,
}

module _ {P : Type 0} where
  -- What a handler and its hook write keeps the index, as any statement does.
  pub record HandlerKeeps (h : Handler P) : Type 0 where
    pub runs :
        (payload : P) (id : String) (now : ℕ) → Keeps (λ rows. (h.handle payload id now rows).table)
    pub hooks : (payload : P) (reason : Text) → Keeps (hook h.on_exhausted payload reason)

  abbrev pub AllKeep : List (String × Handler P) → Type 0
  AllKeep hs = All (λ e. HandlerKeeps e.1) hs

  handler_for-HandlerKeeps :
      (t : String) (hs : List (String × Handler P)) (h : Handler P)
      → AllKeep hs
      → handler_for t hs ≡ some h
      → HandlerKeeps h
  unfolding handler_for
  handler_for-HandlerKeeps t [] h k e = cc
  handler_for-HandlerKeeps t ((u, g) ∷ hs) h (k, ks) e = elim (Bool-cases (str_eq u t)) [
    | inl same ↦ let eq : g ≡ h = ground arith in subst HandlerKeeps eq k
    | inr other ↦ handler_for-HandlerKeeps t hs h ks (ground arith)
  ]

  notify-Keeps :
      (hs : List (String × Handler P)) (t : String) (job : Job P) (reason : Text)
      → AllKeep hs
      → Keeps (notify (handler_for t hs) job reason)
  notify-Keeps hs t job reason k rows ok = elim (Option-cases (handler_for t hs)) [
    | inl e ↦ rw e ok
    | inr (h, e) ↦ rw e ((handler_for-HandlerKeeps t hs h k e).hooks job.payload reason rows ok)
  ]

  notify_each-Keeps :
      (hs : List (String × Handler P)) (jobs : List (Job P))
      → AllKeep hs
      → Keeps (notify_each hs jobs)
  unfolding notify_each
  notify_each-Keeps hs [] k rows ok = ok
  notify_each-Keeps hs (job ∷ jobs) k rows ok =
      notify_each-Keeps hs jobs k _ (notify-Keeps hs job.type job stale_lock_reason k rows ok)

  release_each-Keeps :
      (jobs : List (Job P)) (now released : ℕ) (exhausted : List (Job P)) (rows : Table P)
      → IsIndexed rows
      → IsIndexed (release_each jobs now rows released exhausted).0
  unfolding release_each
  release_each-Keeps [] now released exhausted rows ok = ok
  release_each-Keeps (job ∷ jobs) now released exhausted rows ok =
      elim (Statement-cases (fail job stale_lock_reason false now rows)) [
        | inl e ↦ rw (e, release_each) ok
        | inr (a, e) ↦
            rw (e, release_each)
              (release_each-Keeps jobs now (counted a.1 released) (exhausting a.1 job exhausted) a.0
                (subst (Leaves rows) e (fail-Leaves job stale_lock_reason false now rows ok)))
      ]

  notify_released-Keeps :
      (hs : List (String × Handler P)) (r : Table P × Option (ℕ × List (Job P)))
      → AllKeep hs
      → IsIndexed r.0
      → IsIndexed (notify_released hs r)
  notify_released-Keeps hs (rows, none) k ok = ok
  notify_released-Keeps hs (rows, some (released, exhausted)) k ok =
      notify_each-Keeps hs exhausted k rows ok

  sweep-Keeps :
      (s : Service P) (now : ℕ) (rows : Table P)
      → AllKeep s.handlers
      → IsIndexed rows
      → IsIndexed (sweep_stale_locks s now rows).1
  unfolding sweep_stale_locks release_stale
  sweep-Keeps s now rows k ok =
      elim (Bool-cases
        (ltb now (s.last_stale_sweep_at + min s.stale_lock_ms stale_sweep_interval_ms))) [
          | inl early ↦ rw early ok
          | inr due ↦ rw due (
              notify_released-Keeps s.handlers _ k (
                release_each-Keeps
                  (take 50 (sort_by_lock (keep (is_stale s.stale_lock_ms now) rows))) now 0 [] rows
                  ok))
        ]

  on_failure-Keeps :
      (h : Handler P) (job : Job P) (message : Text) (now : ℕ)
      → HandlerKeeps h
      → Keeps (on_failure h job message now)
  unfolding on_failure
  on_failure-Keeps h job message now k rows ok =
      elim (Statement-cases (fail job message false now rows)) [
        | inl e ↦ rw (e, on_failure) ok
        | inr (a, e) ↦
            rw (e, on_failure)
              (after_hook a (subst (Leaves rows) e (fail-Leaves job message false now rows ok)))
      ]
    where
      after_hook :
          (a : Table P × FailOutcome) → IsIndexed a.0 → IsIndexed (closing h job message a.0 a.1)
      after_hook (rows', terminal) ok' = k.hooks job.payload message rows' ok'
      after_hook (rows', retry) ok' = ok'
      after_hook (rows', discarded) ok' = ok'
      after_hook (rows', lost) ok' = ok'

  settle-Keeps :
      (violation : Text) (h : Handler P) (job : Job P) (result : HandlerResult P) (now : ℕ)
      → HandlerKeeps h
      → Keeps (settle violation h job result now)
  unfolding settle
  settle-Keeps violation h job returned now k rows ok = elim (Statement-cases (complete job rows)) [
    | inl e ↦ rw (e, settle) (on_failure-Keeps h job violation now k rows ok)
    | inr (a, e) ↦
        rw (e, settle)
          (subst (Leaves rows) e
            (unfold complete in fenced_update-Leaves job (unlock completed) rows ok))
  ]
  settle-Keeps violation h job (asked_reschedule delay reason payload) now k rows ok =
      unfold reschedule in
      return_to_pending-Leaves job job.attempts (now + delay) reason payload rows ok
  settle-Keeps violation h job (threw message) now k rows ok =
      on_failure-Keeps h job message now k rows ok

  attend-Keeps :
      (s : Service P) (job : Job P) (now : ℕ)
      → AllKeep s.handlers
      → Keeps (attend s job now (handler_for job.type s.handlers))
  unfolding attend
  attend-Keeps s job now k rows ok = elim (Option-cases (handler_for job.type s.handlers)) [
    | inl e ↦ rw (e, attend) (fail-Leaves job (no_handler_message job.type) true now rows ok)
    | inr (h, e) ↦
        let keeps = handler_for-HandlerKeeps job.type s.handlers h k e in
        rw (e, attend)
          (settle-Keeps s.violation_message h job _ _ keeps _
            (keeps.runs job.payload job.id now rows ok))
  ]

  sweep-config :
      (s : Service P) (now : ℕ) (rows : Table P)
      → ((sweep_stale_locks s now rows).0.handlers ≡ s.handlers)
        × ((sweep_stale_locks s now rows).0.stale_lock_ms ≡ s.stale_lock_ms)
  unfolding sweep_stale_locks
  sweep-config s now rows = ground arith

  sweep-early :
      (s : Service P) (now : ℕ) (rows : Table P)
      → now < s.last_stale_sweep_at + min s.stale_lock_ms stale_sweep_interval_ms
      → sweep_stale_locks s now rows ≡ (s, rows)
  unfolding sweep_stale_locks
  sweep-early s now rows h = rw (lt→ltb _ _ h)

  work-Keeps :
      (s : Service P) (now : ℕ) (c : Table P × Option (Job P))
      → AllKeep s.handlers
      → IsIndexed c.0
      → IsIndexed (work s now c)
  work-Keeps s now (rows, none) k ok = ok
  work-Keeps s now (rows, some job) k ok = attend-Keeps s job now k rows ok

  either_way :
      (b : Bool) (x y : Service P × Table P)
      → IsIndexed x.1
      → IsIndexed y.1
      → IsIndexed (if b then x else y).1
  either_way true x y h k = h
  either_way false x y h k = k

  -- A poll keeps the index, whatever its handlers do, if they keep it themselves.
  run_once-IsIndexed :
      (s : Service P) (now : ℕ) (rows : Table P)
      → AllKeep s.handlers
      → IsIndexed rows
      → IsIndexed (run_once s now rows).1
  unfolding run_once
  run_once-IsIndexed s now rows k ok =
      let (s', rows') = sweep_stale_locks s now rows in
      either_way s.polling _ _ ok (
        work-Keeps s' now (claim_next s.worker_id s.stale_lock_ms now rows')
          (subst AllKeep (sym (sweep-config s now rows).0) k)
          (claim_next-Keeps s.worker_id s.stale_lock_ms now rows' (sweep-Keeps s now rows k ok)))

  -- Within the interval of a sweep the next polls do not sweep.
  sweep-once :
      (s : Service P) (now later : ℕ) (rows others : Table P)
      → let s' = (sweep_stale_locks s now rows).0 in
        later < s'.last_stale_sweep_at + min s.stale_lock_ms stale_sweep_interval_ms
        → sweep_stale_locks s' later others ≡ (s', others)
  sweep-once s now later rows others h =
      let s' = (sweep_stale_locks s now rows).0 in
      sweep-early s' later others (
        subst (λ m. later < s'.last_stale_sweep_at + min m stale_sweep_interval_ms)
          (sym (sweep-config s now rows).1) h)
