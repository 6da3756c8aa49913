-- ===== src/Experiments/Tests.antt =====
-- The life of a slot, and the theorems at concrete inputs.
use tjc_be_rag_core_api.Base.{none, some, ◌≡◌, refl}
use tjc_be_rag_core_api.Experiments.{
  Attempt, running, run, close_expired_second, is_heartbeat_expired, heartbeat_reference_ms,
  resolve_slot_action, resolve_heartbeat_stale_ms,
}

abbrev first : Attempt
first = record {
  state = running;
  attempt = 1;
  failure_type = none;
  sandbox_timed_out = none;
  last_heartbeat_at = some 100;
  created_at = some 50;
}

abbrev second : Attempt
second = record first { attempt = 2; last_heartbeat_at = some 900 }

-- An expired first attempt leads to the second, and an expired second one is closed.
action_tests :
    (resolve_slot_action (some first) 500 300 ≡ run 2 (some first))
    × (resolve_slot_action (some second) 2000 300 ≡ close_expired_second second)
    × (resolve_heartbeat_stale_ms (some 10) 5 0 0 ≡ 15)
unfolding resolve_slot_action is_heartbeat_expired heartbeat_reference_ms resolve_heartbeat_stale_ms
action_tests = (refl, refl, refl)
