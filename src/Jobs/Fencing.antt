-- ===== src/Jobs/Fencing.antt =====
-- The fencing of app/src/jobs/jobs.repository.ts: a worker that lost its lock writes nothing, and a
-- job is discarded only where another PENDING row covers its key.
use tjc_be_rag_core_api.Base.{
  ℕ, ◌+◌, ◌≤◌, String, Bool, true, false, Option, none, some, [], ◌∷◌, arith, ◌≡◌, refl,
  Option-cases, Bool-cases, inl, inr, any, All, tally, eq_iff, take,
}
use tjc_be_rag_core_api.Jobs.{
  Job, Table, Text, done, fenced_update, index_ok, holds_lock, has_id, update_where, lost,
  discarded, completed, unlock, pending_key, has_clash, clash,
}
use tjc_be_rag_core_api.Jobs.Failure.{
  complete, fail, reschedule, return_to_pending, retry_row, fail_row, waits_under, backoff_ms,
}
use tjc_be_rag_core_api.Jobs.Index.{IsIndexed}
use tjc_be_rag_core_api.Jobs.Index.Failures.{KeyAgrees}

module _ {P : Type 0} where
  update_where-none :
      (p : Job P → Bool) (f : Job P → Job P) (rows : Table P)
      → tally p rows ≡ 0
      → update_where p f rows ≡ rows
  update_where-none p f [] h = refl
  update_where-none p f (r ∷ rows) h = ground (arith, update_where-none p f rows)

  -- The snapshot's lock is held by no row any more.
  abbrev pub IsLost : Job P → Table P → Type 0
  IsLost job rows = tally (holds_lock job.id job.locked_by) rows ≡ 0

  module _ (job : Job P) (rows : Table P) (h : IsIndexed rows) (gone : IsLost job rows) where
    fenced_update-lost : (f : Job P → Job P) → fenced_update job f rows ≡ done (rows, 0)
    unfolding fenced_update
    fenced_update-lost f =
        rw (update_where-none (holds_lock job.id job.locked_by) f rows gone, h, gone)

    return_to_pending-lost :
        (attempts available_at : ℕ) (message : Text) (payload : Option P)
        → return_to_pending job attempts available_at message payload rows ≡ done (rows, lost)
    unfolding return_to_pending
    return_to_pending-lost attempts available_at message payload =
        ground
          (arith, fenced_update-lost (retry_row attempts available_at (take 2000 message) payload))

    -- A worker whose lock is gone changes nothing, whichever way its job ends.
    lost-unchanged :
        (message : Text) (force : Bool) (now delay : ℕ) (payload : Option P)
        → (complete job rows ≡ done (rows, 0))
          × (fail job message force now rows ≡ done (rows, lost))
          × (reschedule job delay message payload now rows ≡ done (rows, lost))
    unfolding complete fail reschedule
    lost-unchanged message force now delay payload = (
      fenced_update-lost (unlock completed),
      ground (
        arith,
        fenced_update-lost (fail_row (job.attempts + 1) message),
        return_to_pending-lost (job.attempts + 1) (now + backoff_ms (job.attempts + 1)) message
            none,
      ),
      return_to_pending-lost job.attempts (now + delay) message payload,
    )

  -- Giving a row the key `k` clashes with no row whose key differs from `k`.
  has_clash-held :
      (p : Job P → Bool) (f : Job P → Job P) (k : String) (q : Option String) (rows : Table P)
      → All (λ r. p r ≡ true → pending_key (f r) ≡ some k) rows
      → clash q (some k) ≡ false
      → has_clash q rows ≡ false
      → has_clash q (update_where p f rows) ≡ false
  has_clash-held p f k q [] s c h = refl
  has_clash-held p f k q (r ∷ rows) (s, ss) c h = elim (Bool-cases (p r)) [
    | inl held ↦ rw (held, s held, c) (has_clash-held p f k q rows ss c (ground arith))
    | inr other ↦ rw other (ground (arith, has_clash-held p f k q rows ss c))
  ]

  clash-other :
      (k : String) (r : Job P) → waits_under k r ≡ false → clash (pending_key r) (some k) ≡ false
  clash-other k r w = elim (Option-cases r.dedupe_key) [
    | inl e ↦ ground (arith, e)
    | inr (j, e) ↦ ground (arith, e, eq_iff j k, eq_iff k j)
  ]

  uncovered-has_clash :
      (k : String) (rows : Table P)
      → any (waits_under k) rows ≡ false
      → has_clash (some k) rows ≡ false
  uncovered-has_clash k [] w = refl
  uncovered-has_clash k (r ∷ rows) w = ground (arith, uncovered-has_clash k rows, clash-other k r)

  uncovered-index_ok :
      (p : Job P → Bool) (f : Job P → Job P) (k : String) (rows : Table P)
      → All (λ r. p r ≡ true → pending_key (f r) ≡ some k) rows
      → tally p rows ≤ 1
      → any (waits_under k) rows ≡ false
      → IsIndexed rows
      → IsIndexed (update_where p f rows)
  unfolding index_ok
  uncovered-index_ok p f k [] s one w h = refl
  uncovered-index_ok p f k (r ∷ rows) (s, ss) one w h = elim (Bool-cases (p r)) [
    | inl held ↦
        rw (held, s held, update_where-none p f rows (ground arith))
          (ground (arith, uncovered-has_clash k rows))
    | inr other ↦ rw other (
        ground (
          arith,
          uncovered-index_ok p f k rows ss,
          has_clash-held p f k (pending_key r) rows ss,
          clash-other k r,
        ))
  ]

  held_keys :
      (job : Job P) (k : String) (attempts available_at : ℕ) (last_error : Text)
      (payload : Option P) (rows : Table P)
      → job.dedupe_key ≡ some k
      → KeyAgrees job rows
      → All
          (λ r.
            holds_lock job.id job.locked_by r ≡ true
            → pending_key (retry_row attempts available_at last_error payload r) ≡ some k)
          rows
  unfolding retry_row
  held_keys job k attempts available_at last_error payload [] key a = tt
  held_keys job k attempts available_at last_error payload (r ∷ rows) key (a, as') = (
    λ held. ground (arith, a),
    held_keys job k attempts available_at last_error payload rows key as',
  )

  tally-holds_lock :
      (id : String) (worker : Option String) (rows : Table P)
      → tally (holds_lock id worker) rows ≤ tally (has_id id) rows
  tally-holds_lock id worker [] = omega arith
  tally-holds_lock id worker (r ∷ rows) = ground (arith, tally-holds_lock id worker rows)

  -- A keyed job is discarded only where another PENDING row already covers its key.
  pub discarded-covered :
      (job : Job P) (k : String) (message : Text) (now : ℕ) (rows rows' : Table P)
      → job.dedupe_key ≡ some k
      → KeyAgrees job rows
      → tally (has_id job.id) rows ≤ 1
      → IsIndexed rows
      → fail job message false now rows ≡ done (rows', discarded)
      → any (waits_under k) rows ≡ true
  unfolding fail return_to_pending fenced_update
  discarded-covered job k message now rows rows' key agrees one h e =
      elim (Bool-cases (any (waits_under k) rows)) [
        | inl covered ↦ covered
        | inr bare ↦
            let kept =
              uncovered-index_ok (holds_lock job.id job.locked_by)
                (retry_row (job.attempts + 1) (now + backoff_ms (job.attempts + 1))
                  (take 2000 message) none)
                k rows
                (held_keys job k (job.attempts + 1) (now + backoff_ms (job.attempts + 1))
                  (take 2000 message) none rows key agrees)
                (omega (arith, tally-holds_lock job.id job.locked_by rows)) bare h in
            absurd (ground (arith, kept))
      ]
