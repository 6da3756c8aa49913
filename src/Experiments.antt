-- ===== src/Experiments.antt =====
-- app/src/experiments/attempt-recovery.ts: what to do with a slot of a paired repetition.
pub mod Slots
mod Tests
use tjc_be_rag_core_api.Base.{
  ℕ, ◌+◌, ◌-◌, ◌*◌, Bool, true, false, not, ◌&&◌, Option, none, some, if◌then◌else◌, ltb, ◌==◌, max,
}
use tjc_be_rag_core_api.Sandbox.{FailureType, infrastructure}

pub data RepetitionState : Type 0 where
  running completed failed : RepetitionState

-- `AttemptRecoveryRow`, less its summary. An instant that is not a date is `none`.
pub record Attempt : Type 0 where
  pub state : RepetitionState
  pub attempt : ℕ
  pub failure_type : Option FailureType
  pub sandbox_timed_out : Option Bool
  pub last_heartbeat_at : Option ℕ
  pub created_at : Option ℕ

-- `SlotAction`: `run` has the number of the attempt, and the expired one to close before it.
pub data SlotAction : Type 0 where
  run : ℕ → Option Attempt → SlotAction
  skip : SlotAction
  in_flight : Attempt → SlotAction
  close_expired_second : Attempt → SlotAction

abbrev heartbeat_stale_min_interval_factor : ℕ
heartbeat_stale_min_interval_factor = 3

abbrev pub is_running : Attempt → Bool
is_running row = elim row.state [ running ↦ true | _ ↦ false ]

abbrev pub is_failed : Attempt → Bool
is_failed row = elim row.state [ failed ↦ true | _ ↦ false ]

abbrev is_infrastructure : Option FailureType → Bool
is_infrastructure none = false
is_infrastructure (some t) = elim t [ infrastructure ↦ true | _ ↦ false ]

abbrev is_true : Option Bool → Bool
is_true none = false
is_true (some b) = b

-- `isPersistedExternalFailure`
unfoldable pub is_persisted_external_failure : Attempt → Bool
is_persisted_external_failure row =
    is_failed row && is_infrastructure row.failure_type && not (is_true row.sandbox_timed_out)

-- `heartbeatReferenceMs`
unfoldable pub heartbeat_reference_ms : Attempt → Option ℕ
heartbeat_reference_ms row = elim row.last_heartbeat_at [ none ↦ row.created_at | some t ↦ some t ]

-- `isHeartbeatExpired`: the source subtracts, and its difference may be negative; here the reference
-- and the threshold are added.
unfoldable pub is_heartbeat_expired : Attempt → ℕ → ℕ → Bool
unfolding heartbeat_reference_ms
is_heartbeat_expired row now stale = elim (heartbeat_reference_ms row) [
  | none ↦ true
  | some t ↦ ltb (t + stale) now
]

-- `remainingUntilExpiryMs`, of a row whose heartbeat has not expired.
unfoldable pub remaining_until_expiry_ms : Attempt → ℕ → ℕ → ℕ
unfolding heartbeat_reference_ms
remaining_until_expiry_ms row now stale = elim (heartbeat_reference_ms row) [
  | none ↦ 0
  | some t ↦ (t + stale) - now
]

-- `resolveSlotAction`
unfoldable pub resolve_slot_action : Option Attempt → ℕ → ℕ → SlotAction
unfolding is_heartbeat_expired is_persisted_external_failure
resolve_slot_action none now stale = run 1 none
resolve_slot_action (some row) now stale =
    if is_running row
    then (if not (is_heartbeat_expired row now stale)
        then in_flight row
        else if row.attempt == 1
        then run 2 (some row)
        else close_expired_second row)
    else if row.attempt == 1 && is_persisted_external_failure row
    then run 2 none
    else skip

-- `sandboxHttpBoundMs`
unfoldable sandbox_http_bound_ms : ℕ → ℕ → ℕ
sandbox_http_bound_ms request_timeout_ms max_poll_attempts =
    request_timeout_ms * (max_poll_attempts + 2)

-- `resolveHeartbeatStaleMs`
unfoldable pub resolve_heartbeat_stale_ms : Option ℕ → ℕ → ℕ → ℕ → ℕ
resolve_heartbeat_stale_ms configured interval generation_timeout http_bound =
    max (elim configured [ none ↦ generation_timeout + http_bound | some c ↦ c ])
      (heartbeat_stale_min_interval_factor * interval)
