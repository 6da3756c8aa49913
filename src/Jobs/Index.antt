-- ===== src/Jobs/Index.antt =====
-- The partial unique index of `jobs` (app/src/jobs/jobs.repository.ts): which statements keep it.
pub mod Failures
pub mod History
use tjc_be_rag_core_api.Base.{
  ℕ, ◌+◌, String, Bool, true, false, not, ◌||◌, ◌&&◌, Option, none, some, List, [], ◌∷◌, ◌++◌, map,
  arith, ◌≡◌, refl, ◌⊎◌, inl, inr, if◌then◌else◌, Option-cases, leb, Bool-cases, zero, suc, take,
  eq_iff, tally, All,
}
use tjc_be_rag_core_api.Jobs.{
  terminal, completed, FailOutcome, retry, discarded, and_then, outcome_of, is_keyed, Job, Table,
  Text, JobStatus, pending, running, Statement, done, unique_violation, pending_key, clash,
  has_clash, index_ok, update_where, create, insert_deduped, claim_next, touch_lock, fenced_update,
  lock, new_job, unlock, earliest, is_claimable, has_id, holds_lock, is_pending,
}
use tjc_be_rag_core_api.Jobs.Failure.{
  fail_row, or_discard, retry_row, discard_row, expedite, update_pending_payload, is_postponed,
  waits_under, give_payload, complete, fail, reschedule, return_to_pending, release_each,
  release_stale,
}

clash-none : (k : Option String) → clash k none ≡ false
clash-none none = refl
clash-none (some j) = refl

clash_comm : (j k : Option String) → clash j k ≡ clash k j
clash_comm none none = refl
clash_comm none (some k) = refl
clash_comm (some j) none = refl
clash_comm (some j) (some k) = ground (arith, eq_iff j k, eq_iff k j)

module _ {P : Type 0} where
  -- A change of a row that gives the index no new entry.
  abbrev pub ShrinksAt : (Job P → Job P) → Job P → Type 0
  ShrinksAt f r = (pending_key (f r) ≡ none) ⊎ (pending_key (f r) ≡ pending_key r)

  abbrev Shrinks : (Job P → Job P) → Type 0
  Shrinks f = (r : Job P) → ShrinksAt f r

  has_clash-map :
      (f : Job P → Job P) (k : Option String) (rows : Table P)
      → All (ShrinksAt f) rows
      → has_clash k rows ≡ false
      → has_clash k (map f rows) ≡ false
  has_clash-map f k [] s h = refl
  has_clash-map f k (r ∷ rows) (inl e, s) h =
      rw (e, clash-none k) (has_clash-map f k rows s (ground arith))
  has_clash-map f k (r ∷ rows) (inr e, s) h = ground (arith, e, has_clash-map f k rows s)

  has_clash-none : (rows : Table P) → has_clash none rows ≡ false
  has_clash-none [] = refl
  has_clash-none (r ∷ rows) = has_clash-none rows

  index_ok-map :
      (f : Job P → Job P) (rows : Table P)
      → All (ShrinksAt f) rows
      → index_ok rows ≡ true
      → index_ok (map f rows) ≡ true
  unfolding index_ok
  index_ok-map f [] s h = refl
  index_ok-map f (r ∷ rows) (inl e, s) h =
      rw (e, has_clash-none (map f rows)) (index_ok-map f rows s (ground arith))
  index_ok-map f (r ∷ rows) (inr e, s) h =
      ground (arith, e, has_clash-map f (pending_key r) rows s, index_ok-map f rows s)

  has_clash-append :
      (k : Option String) (rows : Table P) (j : Job P)
      → has_clash k (rows ++ j ∷ []) ≡ (has_clash k rows || clash k (pending_key j))
  has_clash-append k [] j = ground arith
  has_clash-append k (r ∷ rows) j = ground (arith, has_clash-append k rows j)

  index_ok-append :
      (rows : Table P) (j : Job P)
      → index_ok rows ≡ true
      → has_clash (pending_key j) rows ≡ false
      → index_ok (rows ++ j ∷ []) ≡ true
  unfolding index_ok
  index_ok-append [] j h n = refl
  index_ok-append (r ∷ rows) j h n = ground (
    arith,
    has_clash-append (pending_key r) rows j,
    clash_comm (pending_key r) (pending_key j),
    index_ok-append rows j,
  )

  abbrev pub Keeps : (Table P → Table P) → Type 0
  Keeps f = (rows : Table P) → index_ok rows ≡ true → index_ok (f rows) ≡ true

  pub update_where-Keeps_at :
      (p : Job P → Bool) (f : Job P → Job P) (rows : Table P)
      → All (λ r. p r ≡ true → ShrinksAt f r) rows
      → index_ok rows ≡ true
      → index_ok (update_where p f rows) ≡ true
  update_where-Keeps_at p f rows s h = index_ok-map _ rows (shrink rows s) h
    where
      shrink :
          (xs : Table P)
          → All (λ r. p r ≡ true → ShrinksAt f r) xs
          → All (ShrinksAt (λ r. if p r then f r else r)) xs
      shrink [] t = tt
      shrink (x ∷ xs) (s, t) = (ground (arith, s), shrink xs t)

  pub All-every : (Q : Job P → Type 0) → ((r : Job P) → Q r) → (rows : Table P) → All Q rows
  All-every Q q [] = tt
  All-every Q q (r ∷ rows) = (q r, All-every Q q rows)

  pub update_where-Keeps :
      (p : Job P → Bool) (f : Job P → Job P) → Shrinks f → Keeps (update_where p f)
  update_where-Keeps p f shrinks rows h =
      update_where-Keeps_at p f rows (All-every _ (λ r _. shrinks r) rows) h

  pub create-Keeps :
      (id : String) (now : ℕ) (type : String) (payload : P) (max_attempts : ℕ)
      → Keeps (create id now type payload max_attempts)
  unfolding create
  create-Keeps id now type payload max_attempts rows h =
      index_ok-append rows (new_job id type payload max_attempts now none) h (has_clash-none rows)

  pub insert_deduped-Keeps :
      (id : String) (now : ℕ) (type : String) (payload : P) (max_attempts : ℕ) (key : String)
      (delay : ℕ) (skip_if_running : Bool) (stale : ℕ)
      → Keeps (λ rows.
        (insert_deduped id now type payload max_attempts key delay skip_if_running stale rows).0)
  unfolding insert_deduped
  insert_deduped-Keeps id now type payload max_attempts key delay skip stale rows h = ground (
    arith,
    index_ok-append rows (new_job id type payload max_attempts (now + delay) (some key)) h,
  )

  pub claim_next-Keeps :
      (worker : String) (stale now : ℕ) → Keeps (λ rows. (claim_next worker stale now rows).0)
  unfolding claim_next
  claim_next-Keeps worker stale now rows h =
      elim (Option-cases (earliest (is_claimable stale now rows) rows)) [
        | inl e ↦ rw (e, claim_next) h
        | inr (j, e) ↦
            rw (e, claim_next)
              (update_where-Keeps (has_id j.id) (lock worker now) (λ r. inl refl) rows h)
      ]

  pub touch_lock-Keeps :
      (id worker : String) (now : ℕ) → Keeps (λ rows. (touch_lock id worker now rows).0)
  unfolding touch_lock
  touch_lock-Keeps id worker now =
      update_where-Keeps (holds_lock id (some worker)) _ (λ r. inr refl)

  pub expedite-Keeps : (key : String) (now : ℕ) → Keeps (λ rows. (expedite key now rows).0)
  unfolding expedite
  expedite-Keeps key now = update_where-Keeps (is_postponed key now) _ (λ r. inr refl)

  pub update_pending_payload-Keeps :
      (key : String) (payload : P) → Keeps (update_pending_payload key payload)
  unfolding update_pending_payload
  update_pending_payload-Keeps key payload =
      update_where-Keeps (waits_under key) (give_payload payload) (λ r. inr refl)

  abbrev pub IsIndexed : Table P → Type 0
  IsIndexed rows = index_ok rows ≡ true
