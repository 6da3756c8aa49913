-- ===== src/Jobs/Service/Releases.antt =====
-- The release of obsolete locks (`releaseStale` of app/src/jobs/jobs.repository.ts): it goes through the
-- whole snapshot.
use tjc_be_rag_core_api.Base.{
  ℕ, Option, none, List, [], ◌∷◌, false, ◌≡◌, ◌≢◌, refl, sym, subst, All,
}
use tjc_be_rag_core_api.Jobs.{Job, Table, stale_lock_reason}
use tjc_be_rag_core_api.Jobs.Failure.{fail, release_each, counted, exhausting}
use tjc_be_rag_core_api.Jobs.Index.{IsIndexed}
use tjc_be_rag_core_api.Jobs.Index.Failures.{KeyAgrees, Ran-cases, Sound, fail-Sound, All-KeyAgrees}
use tjc_be_rag_core_api.Jobs.Fencing.{IsLost}
use tjc_be_rag_core_api.Jobs.Service.Locks.{After, fail-Frees, fail-Spares}

module _ {P : Type 0} where
  -- A lock that no row holds is held by none after the release.
  release_each-Spares :
      (other : Job P) (jobs : List (Job P)) (now : ℕ) (rows : Table P) (released : ℕ)
      (exhausted : List (Job P))
      → All (λ j. KeyAgrees j rows) jobs
      → IsIndexed rows
      → IsLost other rows
      → IsLost other (release_each jobs now rows released exhausted).0
  unfolding release_each
  release_each-Spares other [] now rows released exhausted agrees h free = free
  release_each-Spares other (job ∷ jobs) now rows released exhausted (agree, agrees) h free =
      let (a, e, s) =
        Ran-cases (Sound rows) (fail job stale_lock_reason false now rows)
          (fail-Sound job stale_lock_reason false now rows agree h) in
      let still : IsLost other a.0 =
        subst (After (IsLost other)) e
          (fail-Spares other job stale_lock_reason false now rows free) in
      rw (e, release_each)
        (release_each-Spares other jobs now a.0 (counted a.1 released)
          (exhausting a.1 job exhausted) (All-KeyAgrees rows a.0 jobs s.1 agrees) s.0 still)

  -- On an indexed table whose rows have the keys of the snapshots, the release of obsolete locks does
  -- not throw, keeps the index, and leaves none of the locks that it was to release.
  pub release_each-All-IsLost :
      (jobs : List (Job P)) (now : ℕ) (rows : Table P) (released : ℕ) (exhausted : List (Job P))
      → All (λ j. KeyAgrees j rows) jobs
      → IsIndexed rows
      → let after = release_each jobs now rows released exhausted in
        IsIndexed after.0 × (after.1 ≢ none) × All (λ j. IsLost j after.0) jobs
  unfolding release_each
  release_each-All-IsLost [] now rows released exhausted agrees h = (h, (λ e. cc), tt)
  release_each-All-IsLost (job ∷ jobs) now rows released exhausted (agree, agrees) h =
      let (a, e, s) =
        Ran-cases (Sound rows) (fail job stale_lock_reason false now rows)
          (fail-Sound job stale_lock_reason false now rows agree h) in
      let freed : IsLost job a.0 =
        subst (After (IsLost job)) e (fail-Frees job stale_lock_reason false now rows) in
      let still = All-KeyAgrees rows a.0 jobs s.1 agrees in
      let n = counted a.1 released in
      let more = exhausting a.1 job exhausted in
      let rest = release_each-All-IsLost jobs now a.0 n more still s.0 in
      let step : release_each (job ∷ jobs) now rows released exhausted
          ≡ release_each jobs now a.0 n more =
        rw (e, release_each) refl in
      subst
        (λ (r : Table P × Option (ℕ × List (Job P))).
          IsIndexed r.0 × (r.1 ≢ none) × All (λ j. IsLost j r.0) (job ∷ jobs))
        (sym step)
        (rest.0, rest.1, (release_each-Spares job jobs now a.0 n more still s.0 freed, rest.2))
