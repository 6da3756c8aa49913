-- ===== src/Jobs.antt =====
-- app/src/jobs/jobs.repository.ts: the table of jobs and the statements that the repository runs.
pub mod Failure
pub mod Index
mod Tests
pub mod Service
pub mod Attempts
pub mod Fencing
pub mod Claim
use tjc_be_rag_core_api.Base.{
  ◌≡◌, refl, ◌⊎◌, inl, inr, ℕ, zero, suc, ◌+◌, String, Bool, true, false, not, ◌&&◌, ◌||◌, Option,
  none, some, List, [], ◌∷◌, ◌++◌, map, ltb, leb, if◌then◌else◌, is_text, same_text, codes, str_eq,
  any, tally,
}

pub data JobStatus : Type 0 where
  pending running completed failed : JobStatus

-- A text of which the source takes a slice: its code units.
abbrev pub Text : Type 0
Text = List ℕ

-- A row of `jobs`. `createdAt` and `updatedAt` are never read and are left out. Times are
-- milliseconds in UTC.
pub record Job (P : Type 0) : Type 0 where
  pub id : String
  pub type : String
  pub payload : P
  pub status : JobStatus
  pub attempts : ℕ
  pub max_attempts : ℕ
  pub last_error : Option Text
  pub available_at : ℕ
  pub locked_at : Option ℕ
  pub locked_by : Option String
  pub dedupe_key : Option String

abbrev pub Table : Type 0 → Type 0
Table P = List (Job P)

-- The statement ran, or the partial unique index refused it and nothing was written.
pub data Statement (A : Type 0) : Type 0 where
  done : A → Statement A
  unique_violation : Statement A

-- What `fail` wrote.
pub data FailOutcome : Type 0 where
  terminal retry discarded lost : FailOutcome

abbrev pub and_then : {A B : Type 0} → Statement A → (A → B) → Statement B
and_then (done a) f = done (f a)
and_then unique_violation f = unique_violation

infixl 5 ◌>>=◌
abbrev pub ◌>>=◌ : {A B : Type 0} → Statement A → (A → Statement B) → Statement B
done a >>= f = f a
unique_violation >>= f = unique_violation

pub Statement-cases :
    {A : Type 0} (m : Statement A) → (m ≡ unique_violation) ⊎ ((a : A) × (m ≡ done a))
Statement-cases (done a) = inr (a, refl)
Statement-cases unique_violation = inl refl

abbrev pub default_stale_lock_ms : ℕ
default_stale_lock_ms = 600000

abbrev pub stale_lock_reason : Text
stale_lock_reason = codes "Lock obsoleto: el worker que lo reclamó dejó de responder."

abbrev pub is_pending : JobStatus → Bool
is_pending pending = true
is_pending _ = false

abbrev pub is_running : JobStatus → Bool
is_running running = true
is_running _ = false

-- A comparison with NULL holds of no row.
abbrev pub is_after : Option ℕ → ℕ → Bool
is_after none t = false
is_after (some u) t = ltb t u

abbrev pub is_before : Option ℕ → ℕ → Bool
is_before none t = false
is_before (some u) t = leb u t

abbrev pub plus : Option ℕ → ℕ → Option ℕ
plus none d = none
plus (some t) d = some (t + d)

-- RELEASABLE_UNKEYED_JOB_TYPES
abbrev pub is_releasable_unkeyed : String → Bool
is_releasable_unkeyed t = str_eq t "experiment-run" || str_eq t "retrieval-comparison"

abbrev pub is_keyed : Option String → Bool
is_keyed none = false
is_keyed (some k) = true

-- Two entries of the index collide: NULL collides with nothing.
abbrev pub clash : Option String → Option String → Bool
clash none k = false
clash (some j) k = is_text k j

module _ {P : Type 0} where
  -- The key that a row contributes to the partial unique index (`WHERE "status" = 'PENDING'`).
  abbrev pub pending_key : Job P → Option String
  pending_key r = if is_pending r.status then r.dedupe_key else none

  abbrev pub has_clash : Option String → Table P → Bool
  has_clash k rows = any (λ r. clash k (pending_key r)) rows

  -- The partial unique index `jobs_dedupeKey_pending_key` admits the table.
  unfoldable pub index_ok : Table P → Bool
  index_ok [] = true
  index_ok (r ∷ rows) = not (has_clash (pending_key r) rows) && index_ok rows

  -- `UPDATE "jobs" SET … WHERE …`, and the number of rows that it touches.
  abbrev pub update_where : (Job P → Bool) → (Job P → Job P) → Table P → Table P
  update_where p f rows = map (λ r. if p r then f r else r) rows

  -- A RUNNING row with this key whose lock is not obsolete: `lockedAt > now - stale`.
  abbrev pub is_live : Option String → ℕ → ℕ → Job P → Bool
  is_live key stale now r =
      is_running r.status && clash key r.dedupe_key && is_after (plus r.locked_at stale) now

  abbrev pub new_job : String → String → P → ℕ → ℕ → Option String → Job P
  new_job id type payload max_attempts available_at key = record {
    id = id;
    type = type;
    payload = payload;
    status = pending;
    attempts = 0;
    max_attempts = max_attempts;
    last_error = none;
    available_at = available_at;
    locked_at = none;
    locked_by = none;
    dedupe_key = key;
  }

  -- `create`: a job without a key. The id stands for `uuid()`.
  unfoldable pub create : String → ℕ → String → P → ℕ → Table P → Table P
  create id now type payload max_attempts rows =
      rows ++ new_job id type payload max_attempts now none ∷ []

  -- `insertDeduped`: the id of the new job, or none if it was deduplicated.
  unfoldable pub insert_deduped :
      String → ℕ → String → P → ℕ → String → ℕ → Bool → ℕ → Table P → Table P × Option String
  insert_deduped id now type payload max_attempts key delay skip_if_running stale rows =
      if skip_if_running && any (is_live (some key) stale now) rows
      then (rows, none)
      else if has_clash (some key) rows
      then (rows, none)
      else (rows ++ new_job id type payload max_attempts (now + delay) (some key) ∷ [], some id)

  -- The rows that `claimNext` may take.
  abbrev pub is_claimable : ℕ → ℕ → Table P → Job P → Bool
  is_claimable stale now rows j =
      is_pending j.status
      && leb j.available_at now
      && not (any (is_live j.dedupe_key stale now) rows)

  abbrev pub earlier : Job P → Option (Job P) → Job P
  earlier r none = r
  earlier r (some s) = if leb r.available_at s.available_at then r else s

  -- `ORDER BY "availableAt" LIMIT 1`; of rows that tie, the first.
  unfoldable pub earliest : (Job P → Bool) → Table P → Option (Job P)
  earliest p [] = none
  earliest p (r ∷ rows) = let rest = earliest p rows in if p r then some (earlier r rest) else rest

  abbrev pub lock : String → ℕ → Job P → Job P
  lock worker now r = record r { status = running; locked_at = some now; locked_by = some worker }

  abbrev pub has_id : String → Job P → Bool
  has_id id r = str_eq r.id id

  -- `claimNext`: one statement that chooses a row and locks it; `RETURNING *` gives the new row.
  unfoldable pub claim_next : String → ℕ → ℕ → Table P → Table P × Option (Job P)
  claim_next worker stale now rows = elim (earliest (is_claimable stale now rows) rows) [
    | none ↦ (rows, none)
    | some j ↦ (update_where (has_id j.id) (lock worker now) rows, some (lock worker now j))
  ]

  -- A row that is still RUNNING under the lock of this worker.
  abbrev pub holds_lock : String → Option String → Job P → Bool
  holds_lock id worker r = has_id id r && is_running r.status && same_text r.locked_by worker

  -- `touchLock`: whether a row was renewed.
  unfoldable pub touch_lock : String → String → ℕ → Table P → Table P × Bool
  touch_lock id worker now rows =
      let held = holds_lock id (some worker) in
      (update_where held (λ r. record r { locked_at = some now }) rows, ltb 0 (tally held rows))

  -- `fencedUpdate`: writes only where the lock of the snapshot `job` is still held, and returns the
  -- number of rows written; the index may refuse the rows.
  unfoldable pub fenced_update : Job P → (Job P → Job P) → Table P → Statement (Table P × ℕ)
  fenced_update job change rows =
      let held = holds_lock job.id job.locked_by in
      let rows' = update_where held change rows in
      if index_ok rows' then done (rows', tally held rows) else unique_violation

  abbrev pub unlock : JobStatus → Job P → Job P
  unlock s r = record r { status = s; locked_at = none; locked_by = none }

  abbrev pub outcome_of : FailOutcome → Table P × ℕ → Table P × FailOutcome
  outcome_of o (rows, zero) = (rows, lost)
  outcome_of o (rows, suc n) = (rows, o)
