-- ===== src/Jobs/Index/Failures.antt =====
-- app/src/jobs/jobs.repository.ts: a job that fails, is rescheduled or is released never meets the
-- partial unique index, whatever the other rows are.
use tjc_be_rag_core_api.Base.{
  ℕ, ◌+◌, String, Bool, true, ◌||◌, Option, none, some, List, [], ◌∷◌, arith, ◌≡◌, refl, inl, inr,
  if◌then◌else◌, leb, Bool-cases, zero, suc, take, tally, All,
}
use tjc_be_rag_core_api.Jobs.{
  terminal, completed, FailOutcome, retry, discarded, and_then, outcome_of, is_keyed, Job, Table,
  Text, Statement, done, unique_violation, index_ok, update_where, fenced_update, unlock, has_id,
  holds_lock,
}
use tjc_be_rag_core_api.Jobs.Failure.{
  fail_row, or_discard, retry_row, discard_row, complete, fail, reschedule, return_to_pending,
}
use tjc_be_rag_core_api.Jobs.Index.{ShrinksAt, All-every, update_where-Keeps_at, IsIndexed}

-- The statement ran, and its result satisfies the predicate.
abbrev pub Ran : {A : Type 0} → (A → Type 0) → Statement A → Type 0
Ran Q (done a) = Q a
Ran Q unique_violation = ⊥

pub Ran-cases :
    {A : Type 0} (Q : A → Type 0) (m : Statement A) → Ran Q m → (a : A) × (m ≡ done a) × Q a
Ran-cases Q (done a) q = (a, refl, q)
Ran-cases Q unique_violation q = absurd q

module _ {P : Type 0} where
  -- The snapshot carries the key of its row, which no statement changes.
  abbrev pub KeyAgrees : Job P → Table P → Type 0
  KeyAgrees job rows = All (λ r. has_id job.id r ≡ true → r.dedupe_key ≡ job.dedupe_key) rows

  -- A change that leaves the id and the key of a row.
  abbrev KeepsKey : (Job P → Job P) → Type 0
  KeepsKey f = (r : Job P) → ((f r).id ≡ r.id) × ((f r).dedupe_key ≡ r.dedupe_key)

  update_where-KeyAgrees :
      (p : Job P → Bool) (f : Job P → Job P) (rows : Table P) (j : Job P)
      → KeepsKey f
      → KeyAgrees j rows
      → KeyAgrees j (update_where p f rows)
  update_where-KeyAgrees p f [] j k a = tt
  update_where-KeyAgrees p f (r ∷ rows) j k (a, as') =
      (ground (arith, a, k r), update_where-KeyAgrees p f rows j k as')

  -- What a statement of the queue leaves: the index holds, and snapshots agree as before.
  abbrev pub Sound : {A : Type 0} → Table P → Table P × A → Type 0
  Sound rows a = IsIndexed a.0 × ((j : Job P) → KeyAgrees j rows → KeyAgrees j a.0)

  fenced_update-Sound :
      (job : Job P) (f : Job P → Job P) (rows : Table P)
      → KeepsKey f
      → All (λ r. holds_lock job.id job.locked_by r ≡ true → ShrinksAt f r) rows
      → IsIndexed rows
      → Ran (Sound rows) (fenced_update job f rows)
  unfolding fenced_update
  fenced_update-Sound job f rows k s h =
      let e = update_where-Keeps_at (holds_lock job.id job.locked_by) f rows s h in
      rw e (e, λ j. update_where-KeyAgrees (holds_lock job.id job.locked_by) f rows j k)

  and_then-Sound :
      (rows : Table P) (m : Statement (Table P × ℕ)) (o : FailOutcome)
      → Ran (Sound rows) m
      → Ran (Sound rows) (and_then m (outcome_of o))
  and_then-Sound rows (done (rows', zero)) o h = h
  and_then-Sound rows (done (rows', suc n)) o h = h
  and_then-Sound rows unique_violation o h = h

  or_discard-Sound :
      (job : Job P) (f : Job P → Job P) (rows : Table P) (discard : Statement (Table P × ℕ))
      → KeepsKey f
      → Ran (Sound rows) discard
      → Ran (Sound rows) (or_discard (fenced_update job f rows) discard)
  unfolding fenced_update
  or_discard-Sound job f rows discard k h =
      elim (Bool-cases (index_ok (update_where (holds_lock job.id job.locked_by) f rows))) [
        | inl e ↦ rw e (
            and_then-Sound rows
              (done (
                update_where (holds_lock job.id job.locked_by) f rows,
                tally (holds_lock job.id job.locked_by) rows,
              ))
              retry (e, λ j. update_where-KeyAgrees (holds_lock job.id job.locked_by) f rows j k))
        | inr e ↦ rw e (and_then-Sound rows discard discarded h)
      ]

  either_way :
      (rows : Table P) (key : Option String) (m n : Statement (Table P × FailOutcome))
      → Ran (Sound rows) m
      → (key ≡ none → Ran (Sound rows) n)
      → Ran (Sound rows) (if is_keyed key then m else n)
  either_way rows none m n q r = r refl
  either_way rows (some k) m n q r = q

  unkeyed-ShrinksAt :
      (job : Job P) (f : Job P → Job P) (xs : Table P)
      → KeepsKey f
      → job.dedupe_key ≡ none
      → KeyAgrees job xs
      → All (λ r. holds_lock job.id job.locked_by r ≡ true → ShrinksAt f r) xs
  unkeyed-ShrinksAt job f [] k e a = tt
  unkeyed-ShrinksAt job f (x ∷ xs) k e (a, as') =
      (λ held. inl (ground (arith, e, a, k x)), unkeyed-ShrinksAt job f xs k e as')

  -- A job that returns to PENDING never meets the index: it is written, discarded, or lost.
  return_to_pending-Sound :
      (job : Job P) (attempts available_at : ℕ) (message : Text) (payload : Option P)
      (rows : Table P)
      → KeyAgrees job rows
      → IsIndexed rows
      → Ran (Sound rows) (return_to_pending job attempts available_at message payload rows)
  unfolding return_to_pending retry_row discard_row
  return_to_pending-Sound job attempts available_at message payload rows agrees h =
      let back = retry_row attempts available_at (take 2000 message) payload in
      let drop' = discard_row attempts (take 2000 message) in
      let dropped =
        fenced_update-Sound job drop' rows (λ r. (refl, refl)) (All-every _ (λ r _. inl refl) rows)
          h in
      either_way rows job.dedupe_key
        (or_discard (fenced_update job back rows) (fenced_update job drop' rows))
        (and_then (fenced_update job back rows) (outcome_of retry))
        (or_discard-Sound job back rows (fenced_update job drop' rows) (λ r. (refl, refl)) dropped)
        (λ e. and_then-Sound rows (fenced_update job back rows) retry (
          fenced_update-Sound job back rows (λ r. (refl, refl))
            (unkeyed-ShrinksAt job back rows (λ r. (refl, refl)) e agrees) h))

  pub complete-Sound :
      (job : Job P) (rows : Table P) → IsIndexed rows → Ran (Sound rows) (complete job rows)
  unfolding complete
  complete-Sound job rows h =
      fenced_update-Sound job (unlock completed) rows (λ r. (refl, refl))
        (All-every _ (λ r _. inl refl) rows) h

  -- `fail` never throws, on any branch.
  pub fail-Sound :
      (job : Job P) (message : Text) (force : Bool) (now : ℕ) (rows : Table P)
      → KeyAgrees job rows
      → IsIndexed rows
      → Ran (Sound rows) (fail job message force now rows)
  unfolding fail fail_row
  fail-Sound job message force now rows agrees h =
      elim (Bool-cases (force || leb job.max_attempts (job.attempts + 1))) [
        | inl e ↦ rw e (
            and_then-Sound rows _ terminal (
              fenced_update-Sound job (fail_row (job.attempts + 1) message) rows (λ r. (refl, refl))
                (All-every _ (λ r _. inl refl) rows) h))
        | inr e ↦ rw e (return_to_pending-Sound job (job.attempts + 1) _ message none rows agrees h)
      ]

  pub reschedule-Sound :
      (job : Job P) (delay : ℕ) (reason : Text) (payload : Option P) (now : ℕ) (rows : Table P)
      → KeyAgrees job rows
      → IsIndexed rows
      → Ran (Sound rows) (reschedule job delay reason payload now rows)
  unfolding reschedule
  reschedule-Sound job delay reason payload now rows =
      return_to_pending-Sound job job.attempts (now + delay) reason payload rows

  pub All-KeyAgrees :
      (rows rows' : Table P) (jobs : List (Job P))
      → ((j : Job P) → KeyAgrees j rows → KeyAgrees j rows')
      → All (λ j. KeyAgrees j rows) jobs
      → All (λ j. KeyAgrees j rows') jobs
  All-KeyAgrees rows rows' [] f a = tt
  All-KeyAgrees rows rows' (j ∷ jobs) f (a, as') = (f j a, All-KeyAgrees rows rows' jobs f as')
