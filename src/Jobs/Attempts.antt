-- ===== src/Jobs/Attempts.antt =====
-- Attempts and backoff of app/src/jobs/jobs.repository.ts.
use native.Mathlib.Nat.{pow-le-pow_right}
use tjc_be_rag_core_api.Base.{
  ◌⊎◌, ℕ, zero, suc, ◌+◌, ◌*◌, ◌^◌, ◌≤◌, ◌<◌, Bool, true, false, ◌||◌, Option, none, [], ◌∷◌, arith,
  ◌≡◌, refl, Bool-cases, inl, inr, All, leb, take,
}
use tjc_be_rag_core_api.Jobs.{
  Job, Table, Text, JobStatus, pending, running, done, fenced_update, holds_lock, has_id,
  update_where, FailOutcome, retry, discarded, terminal,
}
use tjc_be_rag_core_api.Jobs.Failure.{
  fail, return_to_pending, retry_row, discard_row, fail_row, backoff_ms,
}
use tjc_be_rag_core_api.Jobs.Index.History.{after}

backoff_ms-doubles : (n : ℕ) → n ≤ 5 → backoff_ms n ≡ 2 ^ n * 1000
backoff_ms-doubles zero h = refl
backoff_ms-doubles (suc zero) h = refl
backoff_ms-doubles (suc (suc zero)) h = refl
backoff_ms-doubles (suc (suc (suc zero))) h = refl
backoff_ms-doubles (suc (suc (suc (suc zero)))) h = refl
backoff_ms-doubles (suc (suc (suc (suc (suc zero))))) h = refl
backoff_ms-doubles (suc (suc (suc (suc (suc (suc n)))))) h = omega arith

backoff_ms-capped : (n : ℕ) → 6 ≤ n → backoff_ms n ≡ 60000
backoff_ms-capped n h = omega (arith, pow-le-pow_right {n = 2} (omega arith) h)

-- The backoff is the doubling of the source up to the fifth attempt, and one minute from the sixth.
backoff_ms-bounds :
    (attempts : ℕ)
    → (backoff_ms attempts ≤ 60000)
      × (attempts ≤ 5 → backoff_ms attempts ≡ 2 ^ attempts * 1000)
      × (6 ≤ attempts → backoff_ms attempts ≡ 60000)
backoff_ms-bounds attempts = (omega arith, backoff_ms-doubles attempts, backoff_ms-capped attempts)

-- A job that may still be run.
abbrev pub is_open : JobStatus → Bool
is_open pending = true
is_open running = true
is_open _ = false

module _ {P : Type 0} where
  -- A job that may still run has an attempt left.
  abbrev pub InBudget : Job P → Type 0
  InBudget r = is_open r.status ≡ true → r.attempts < r.max_attempts

  -- The snapshot has its row's limit, and an attempt left.
  abbrev BudgetAgrees : Job P → Table P → Type 0
  BudgetAgrees job rows = All (λ r. has_id job.id r ≡ true → r.max_attempts ≡ job.max_attempts) rows

  update_where-InBudget :
      (p : Job P → Bool) (f : Job P → Job P) (rows : Table P)
      → All (λ r. p r ≡ true → InBudget r → InBudget (f r)) rows
      → All InBudget rows
      → All InBudget (update_where p f rows)
  update_where-InBudget p f [] k h = tt
  update_where-InBudget p f (r ∷ rows) (k, ks) (h, hs) =
      (ground (arith, k, h), update_where-InBudget p f rows ks hs)

  fenced_update-InBudget :
      (job : Job P) (f : Job P → Job P) (rows : Table P)
      → All (λ r. holds_lock job.id job.locked_by r ≡ true → InBudget r → InBudget (f r)) rows
      → All InBudget rows
      → All InBudget (after rows (fenced_update job f rows))
  unfolding fenced_update
  fenced_update-InBudget job f rows k h =
      ground (arith, update_where-InBudget (holds_lock job.id job.locked_by) f rows k h)

  closes-InBudget :
      (job : Job P) (f : Job P → Job P) (rows : Table P)
      → ((r : Job P) → is_open (f r).status ≡ false)
      → All (λ r. holds_lock job.id job.locked_by r ≡ true → InBudget r → InBudget (f r)) rows
  closes-InBudget job f [] c = tt
  closes-InBudget job f (r ∷ rows) c =
      (λ held b open'. ground (arith, c r), closes-InBudget job f rows c)

  retry_row-InBudget :
      (job : Job P) (attempts available_at : ℕ) (last_error : Text) (payload : Option P)
      (rows : Table P)
      → attempts < job.max_attempts
      → BudgetAgrees job rows
      → All
          (λ r.
            holds_lock job.id job.locked_by r ≡ true
            → InBudget r
            → InBudget (retry_row attempts available_at last_error payload r))
          rows
  unfolding retry_row
  retry_row-InBudget job attempts available_at last_error payload [] lt a = tt
  retry_row-InBudget job attempts available_at last_error payload (r ∷ rows) lt (a, as') = (
    λ held b open'. ground (arith, a),
    retry_row-InBudget job attempts available_at last_error payload rows lt as',
  )

  return_to_pending-InBudget :
      (job : Job P) (attempts available_at : ℕ) (message : Text) (payload : Option P)
      (rows : Table P)
      → attempts < job.max_attempts
      → BudgetAgrees job rows
      → All InBudget rows
      → All InBudget (after rows (return_to_pending job attempts available_at message payload rows))
  unfolding return_to_pending discard_row
  return_to_pending-InBudget job attempts available_at message payload rows lt a h = ground (
    arith,
    fenced_update-InBudget job (retry_row attempts available_at (take 2000 message) payload) rows
        (retry_row-InBudget job attempts available_at (take 2000 message) payload rows lt a) h,
    fenced_update-InBudget job (discard_row attempts (take 2000 message)) rows
        (closes-InBudget job (discard_row attempts (take 2000 message)) rows (λ r. refl)) h,
  )

  -- If no job that may still run has used up its attempts, and the snapshot has the limit of its row,
  -- that is so after a failure.
  pub fail-InBudget :
      (job : Job P) (message : Text) (force : Bool) (now : ℕ) (rows : Table P)
      → BudgetAgrees job rows
      → All InBudget rows
      → All InBudget (after rows (fail job message force now rows))
  unfolding fail fail_row
  fail-InBudget job message force now rows a h =
      elim (Bool-cases (force || leb job.max_attempts (job.attempts + 1))) [
        | inl last ↦ rw last (
            ground (
              arith,
              fenced_update-InBudget job (fail_row (job.attempts + 1) message) rows
                  (closes-InBudget job (fail_row (job.attempts + 1) message) rows (λ r. refl)) h,
            ))
        | inr more ↦ rw more (
            return_to_pending-InBudget job (job.attempts + 1) (now + backoff_ms (job.attempts + 1))
              message none rows (ground arith) a h)
      ]

  -- Which attempt a failure consumes, and what its outcome says.
  fail-outcome :
      (job : Job P) (message : Text) (force : Bool) (now : ℕ) (rows rows' : Table P)
      (o : FailOutcome)
      → fail job message force now rows ≡ done (rows', o)
      → (o ≡ terminal → (force ≡ true) ⊎ (job.max_attempts ≤ job.attempts + 1))
        × (o ≡ retry → (force ≡ false) × (job.attempts + 1 < job.max_attempts))
        × (o ≡ discarded → (force ≡ false) × (job.attempts + 1 < job.max_attempts))
  unfolding fail return_to_pending
  fail-outcome job message force now rows rows' o e = ground arith
