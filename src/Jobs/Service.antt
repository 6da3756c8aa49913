-- ===== src/Jobs/Service.antt =====
-- app/src/jobs/jobs.service.ts: the worker loop over the table of jobs.
pub mod Locks
pub mod Releases
pub mod Polls
pub mod Unregistered
use tjc_be_rag_core_api.Base.{
  ℕ, ◌+◌, min, String, Bool, true, false, Option, none, some, List, [], ◌∷◌, ◌++◌, ltb,
  if◌then◌else◌, codes, str_eq,
}
use tjc_be_rag_core_api.Jobs.{
  Job, Table, Text, Statement, done, unique_violation, create, insert_deduped, claim_next,
  FailOutcome, terminal, retry, discarded, lost, stale_lock_reason, default_stale_lock_ms,
}
use tjc_be_rag_core_api.Jobs.Failure.{
  complete, fail, reschedule, release_stale, expedite, update_pending_payload,
}

-- How `handle` ended: it returned, threw a `RescheduleJobError`, or threw another error.
pub data HandlerResult (P : Type 0) : Type 0 where
  returned : HandlerResult P
  asked_reschedule : ℕ → Text → Option P → HandlerResult P
  threw : Text → HandlerResult P

-- A run of `handle`: its end, the time at its end, and the table then, with all that the handler,
-- the heartbeat and other workers wrote in between.
pub record HandlerRun (P : Type 0) : Type 0 where
  pub result : HandlerResult P
  pub table : Table P
  pub ended_at : ℕ

-- `JobHandler`. The hook's errors are swallowed by its caller, so it only changes the table.
pub record Handler (P : Type 0) : Type 0 where
  pub handle : P → String → ℕ → Table P → HandlerRun P
  pub on_exhausted : Option (P → Text → Table P → Table P)

pub record Service (P : Type 0) : Type 0 where
  pub handlers : List (String × Handler P)
  pub worker_id : String
  pub polling : Bool
  pub last_stale_sweep_at : ℕ
  pub stale_lock_ms : ℕ
  pub max_attempts : ℕ
  -- the message of the database client's error when the index refuses a statement
  pub violation_message : Text

abbrev pub stale_sweep_interval_ms : ℕ
stale_sweep_interval_ms = 30000

pub no_handler_message : String → Text
no_handler_message t = codes "Sin handler registrado para \"" ++ codes t ++ codes "\"."

module _ {P : Type 0} where
  -- `Map.get` and `Map.set`
  unfoldable pub handler_for : String → List (String × Handler P) → Option (Handler P)
  handler_for t [] = none
  handler_for t ((u, h) ∷ hs) = if str_eq u t then some h else handler_for t hs

  set_handler : String → Handler P → List (String × Handler P) → List (String × Handler P)
  set_handler t h [] = (t, h) ∷ []
  set_handler t h ((u, g) ∷ hs) = if str_eq u t then (u, h) ∷ hs else (u, g) ∷ set_handler t h hs

  unfoldable register_handler : String → Handler P → Service P → Service P
  unfolding set_handler
  register_handler t h s = record s { handlers = set_handler t h s.handlers }

  unfoldable pub enqueue : Service P → String → ℕ → String → P → Table P → Table P × String
  enqueue s id now type payload rows = (create id now type payload s.max_attempts rows, id)

  abbrev created : Table P × Option String → Table P × Bool × Option String
  created (rows, none) = (rows, false, none)
  created (rows, some id) = (rows, true, some id)

  -- `enqueueDeduped`: the table, `created` and `jobId`.
  unfoldable enqueue_deduped :
      Service P
      → String
      → ℕ
      → String
      → P
      → String
      → ℕ
      → Bool
      → Table P
      → Table P × Bool × Option String
  enqueue_deduped s id now type payload key delay skip_if_running rows = created (
      insert_deduped id now type payload s.max_attempts key delay skip_if_running s.stale_lock_ms
        rows)

  abbrev pub hook : Option (P → Text → Table P → Table P) → P → Text → Table P → Table P
  hook none payload reason rows = rows
  hook (some f) payload reason rows = f payload reason rows

  -- `notifyExhausted`
  abbrev pub notify : Option (Handler P) → Job P → Text → Table P → Table P
  notify none job reason rows = rows
  notify (some h) job reason rows = hook h.on_exhausted job.payload reason rows

  unfoldable pub notify_each : List (String × Handler P) → List (Job P) → Table P → Table P
  notify_each hs [] rows = rows
  notify_each hs (job ∷ jobs) rows =
      notify_each hs jobs (notify (handler_for job.type hs) job stale_lock_reason rows)

  abbrev pub notify_released :
      List (String × Handler P) → Table P × Option (ℕ × List (Job P)) → Table P
  notify_released hs (rows, none) = rows
  notify_released hs (rows, some (released, exhausted)) = notify_each hs exhausted rows

  -- `sweepStaleLocks`: at most once per interval.
  unfoldable pub sweep_stale_locks : Service P → ℕ → Table P → Service P × Table P
  sweep_stale_locks s now rows =
      if ltb now (s.last_stale_sweep_at + min s.stale_lock_ms stale_sweep_interval_ms)
      then (s, rows)
      else (
        record s { last_stale_sweep_at = now },
        notify_released s.handlers (release_stale s.stale_lock_ms 50 now rows),
      )

  abbrev pub closing : Handler P → Job P → Text → Table P → FailOutcome → Table P
  closing h job message rows terminal = hook h.on_exhausted job.payload message rows
  closing h job message rows _ = rows

  -- The end of the `catch`: a failure, and the hook if it was the last attempt.
  unfoldable pub on_failure : Handler P → Job P → Text → ℕ → Table P → Table P
  on_failure h job message now rows = elim (fail job message false now rows) [
    | done (rows', o) ↦ closing h job message rows' o
    | unique_violation ↦ rows
  ]

  abbrev pub table_or : {A : Type 0} → Table P → Statement (Table P × A) → Table P
  table_or rows (done a) = a.0
  table_or rows unique_violation = rows

  -- The `try` and `catch` round the handler.
  unfoldable pub settle : Text → Handler P → Job P → HandlerResult P → ℕ → Table P → Table P
  settle violation h job returned now rows = elim (complete job rows) [
    | done a ↦ a.0
    | unique_violation ↦ on_failure h job violation now rows
  ]
  settle violation h job (asked_reschedule delay reason payload) now rows =
      table_or rows (reschedule job delay reason payload now rows)
  settle violation h job (threw message) now rows = on_failure h job message now rows

  -- What `runOnce` does with the job that it claimed.
  unfoldable pub attend : Service P → Job P → ℕ → Option (Handler P) → Table P → Table P
  unfolding no_handler_message
  attend s job now none rows = table_or rows (fail job (no_handler_message job.type) true now rows)
  attend s job now (some h) rows =
      let run = h.handle job.payload job.id now rows in
      settle s.violation_message h job run.result run.ended_at run.table

  abbrev pub work : Service P → ℕ → Table P × Option (Job P) → Table P
  work s now (rows, none) = rows
  work s now (rows, some job) = attend s job now (handler_for job.type s.handlers) rows

  -- `runOnce`: nothing while a poll is running; the flag is down again at the end.
  unfoldable pub run_once : Service P → ℕ → Table P → Service P × Table P
  run_once s now rows =
      if s.polling
      then (s, rows)
      else let (s', rows') = sweep_stale_locks s now rows in
        (
          record s' { polling = false },
          work s' now (claim_next s.worker_id s.stale_lock_ms now rows'),
        )
