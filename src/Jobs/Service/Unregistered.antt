-- ===== src/Jobs/Service/Unregistered.antt =====
-- app/src/jobs/jobs.service.ts: jobs whose type has no handler.
use tjc_be_rag_core_api.Base.{
  ℕ, ◌+◌, String, true, none, some, [], ◌∷◌, arith, ◌≡◌, refl, subst, Bool-cases, inl, inr, All,
  eq_iff,
}
use tjc_be_rag_core_api.Jobs.{
  Job, Table, Text, failed, fenced_update, holds_lock, claim_next, update_where, has_id, lock,
}
use tjc_be_rag_core_api.Jobs.Failure.{fail, fail_row}
use tjc_be_rag_core_api.Jobs.Index.{update_where-Keeps, IsIndexed, claim_next-Keeps}
use tjc_be_rag_core_api.Jobs.Claim.{IsClaim, claim_next-IsClaim}
use tjc_be_rag_core_api.Jobs.Service.{
  Service, handler_for, attend, table_or, work, no_handler_message,
}

module _ {P : Type 0} where
  held_by_lock :
      (worker : String) (now : ℕ) (row : Job P) (rows : Table P)
      → All
          (λ r. has_id row.id r ≡ holds_lock row.id (some worker) r)
          (update_where (has_id row.id) (lock worker now) rows)
  held_by_lock worker now row [] = tt
  held_by_lock worker now row (r ∷ rows) = (
    elim (Bool-cases (has_id row.id r)) [
      | inl same ↦ rw same (ground (arith, same, eq_iff worker worker))
      | inr other ↦ rw other (ground (arith, other))
    ],
    held_by_lock worker now row rows,
  )

  fail-All_held :
      (job : Job P) (f : Job P → Job P) (rows : Table P)
      → ((r : Job P) → ((f r).status ≡ failed) × ((f r).id ≡ r.id))
      → All (λ r. has_id job.id r ≡ holds_lock job.id job.locked_by r) rows
      → All
          (λ r. has_id job.id r ≡ true → r.status ≡ failed)
          (update_where (holds_lock job.id job.locked_by) f rows)
  fail-All_held job f [] c h = tt
  fail-All_held job f (r ∷ rows) c (h, hs) = (
    elim (Bool-cases (holds_lock job.id job.locked_by r)) [
      | inl held ↦ rw held (λ _. (c r).0)
      | inr free ↦ rw free (λ same. ground (arith, free, h))
    ],
    fail-All_held job f rows c hs,
  )

  forced-table :
      (job : Job P) (message : Text) (now : ℕ) (rows : Table P)
      → IsIndexed rows
      → table_or rows (fail job message true now rows)
        ≡ update_where (holds_lock job.id job.locked_by) (fail_row (job.attempts + 1) message) rows
  unfolding fail fenced_update
  forced-table job message now rows ok =
      let last : Job P → Job P = fail_row (job.attempts + 1) message in
      ground (
        arith,
        update_where-Keeps (holds_lock job.id job.locked_by) last (unfold fail_row in λ r. inl refl)
            rows ok,
      )

  unregistered-failed :
      (s : Service P) (now : ℕ) (job : Job P) (rows : Table P)
      → IsIndexed rows
      → handler_for job.type s.handlers ≡ none
      → All (λ r. has_id job.id r ≡ holds_lock job.id job.locked_by r) rows
      → All (λ r. has_id job.id r ≡ true → r.status ≡ failed) (work s now (rows, some job))
  unfolding attend
  unregistered-failed s now job rows ok missing held =
      let message = no_handler_message job.type in
      rw (missing, attend, forced-table job message now rows ok)
        (fail-All_held job (fail_row (job.attempts + 1) message) rows
          (unfold fail_row in λ r. (refl, refl)) held)

  -- A claimed job whose type has no handler is FAILED at once, whatever attempts it has left.
  work-unregistered :
      (s : Service P) (now : ℕ) (rows rows' : Table P) (job : Job P)
      → IsIndexed rows
      → claim_next s.worker_id s.stale_lock_ms now rows ≡ (rows', some job)
      → handler_for job.type s.handlers ≡ none
      → All (λ r. has_id job.id r ≡ true → r.status ≡ failed) (work s now (rows', some job))
  work-unregistered s now rows rows' job ok e missing =
      let c = claim_next-IsClaim s.worker_id s.stale_lock_ms now rows rows' job e in
      unregistered-failed s now job rows'
        (subst (λ p. IsIndexed p.0) e (claim_next-Keeps s.worker_id s.stale_lock_ms now rows ok))
        missing (held_by_claim c)
    where
      held_by_claim :
          IsClaim s.worker_id s.stale_lock_ms now rows rows' job
          → All (λ r. has_id job.id r ≡ holds_lock job.id job.locked_by r) rows'
      held_by_claim c = rw (c.written, c.locked) (held_by_lock s.worker_id now c.row rows)
