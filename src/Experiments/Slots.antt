-- ===== src/Experiments/Slots.antt =====
-- `resolveSlotAction` of app/src/experiments/attempt-recovery.ts: how many attempts a slot can have.
use tjc_be_rag_core_api.Base.{
  ℕ, ◌+◌, ◌-◌, ◌≤◌, suc, true, false, ◌&&◌, Option, none, some, ltb, ◌==◌, arith, ◌≡◌, refl, inl,
  inr, Bool-cases,
}
use tjc_be_rag_core_api.Experiments.{
  Attempt, run, is_running, is_persisted_external_failure, is_heartbeat_expired,
  heartbeat_reference_ms, remaining_until_expiry_ms, resolve_slot_action,
}

-- The life of a slot, with the number of attempts that were started and the latest of them: an
-- attempt starts when the rules say so, at any time and with any threshold, and a row may change in
-- every field but its number.
pub data Life : ℕ → Option Attempt → Type 0 where
  begins : Life 0 none
  starts :
      (n now stale number : ℕ) (latest expired : Option Attempt) (row : Attempt)
      → Life n latest
      → resolve_slot_action latest now stale ≡ run number expired
      → row.attempt ≡ number
      → Life (suc n) (some row)
  changes :
      (n : ℕ) (row row' : Attempt)
      → Life n (some row)
      → row'.attempt ≡ row.attempt
      → Life n (some row')

-- What a slot promises of its latest attempt.
abbrev Counted : ℕ → Option Attempt → Type 0
Counted n none = n ≡ 0
Counted n (some row) = (row.attempt ≡ n) × (n ≤ 2)

run-first :
    (row : Attempt) (now stale number : ℕ) (expired : Option Attempt)
    → resolve_slot_action (some row) now stale ≡ run number expired
    → (row.attempt ≡ 1) × (number ≡ 2)
unfolding resolve_slot_action
run-first row now stale number expired e = elim (Bool-cases (is_running row)) [
  | inl alive ↦ elim (Bool-cases (is_heartbeat_expired row now stale)) [
    | inr fresh ↦ absurd (ground (arith, alive, fresh))
    | inl stopped ↦ elim (Bool-cases (row.attempt == 1)) [
      | inl one ↦ (ground (arith, one), ground (arith, alive, stopped, one))
      | inr two ↦ absurd (ground (arith, alive, stopped, two))
    ]
  ]
  | inr ended ↦ elim (Bool-cases (row.attempt == 1 && is_persisted_external_failure row)) [
    | inl again ↦ (ground (arith, again), ground (arith, ended, again))
    | inr other ↦ absurd (ground (arith, ended, other))
  ]
]

-- However a slot lives, the number of its latest attempt is how many were started, and that is never
-- more than two.
Life-Counted : (n : ℕ) (latest : Option Attempt) → Life n latest → Counted n latest
unfolding resolve_slot_action
Life-Counted n latest Life.begins = refl
Life-Counted n latest (Life.changes _ row row' l same) =
    let h = Life-Counted n (some row) l in (ground arith, h.1)
Life-Counted n latest (Life.starts m now stale number none expired row l e same) =
    let h = Life-Counted m none l in let one : number ≡ 1 = cc in (ground arith, omega arith)
Life-Counted n latest (Life.starts m now stale number (some old) expired row l e same) =
    let h = Life-Counted m (some old) l in
    let f = run-first old now stale number expired e in (ground arith, omega arith)

-- A heartbeat that has not expired expires exactly once more time has passed than what remains, so a
-- job that is put off by that long and a millisecond finds it expired unless it was renewed.
remaining_until_expiry_ms-exact :
    (row : Attempt) (now stale wait : ℕ)
    → is_heartbeat_expired row now stale ≡ false
    → is_heartbeat_expired row (now + wait) stale
      ≡ ltb (remaining_until_expiry_ms row now stale) wait
unfolding is_heartbeat_expired remaining_until_expiry_ms
remaining_until_expiry_ms-exact row now stale wait fresh = go (heartbeat_reference_ms row) fresh
  where
    go :
        (o : Option ℕ)
        → (elim o [ none ↦ true | some t ↦ ltb (t + stale) now ]) ≡ false
        → (elim o [ none ↦ true | some t ↦ ltb (t + stale) (now + wait) ])
          ≡ ltb (elim o [ none ↦ 0 | some t ↦ (t + stale) - now ]) wait
    go none e = absurd (ground arith)
    go (some t) e = ground arith
