-- ===== src/Reverify/Tests.antt =====
-- Keys and a deferral, and the theorems at concrete inputs.
use tjc_be_rag_core_api.Base.{some, ◌≡◌, refl, codes}
use tjc_be_rag_core_api.Reverify.{
  ReverifyScope, user_organization, Summary, rescheduled, finished, access_backoff_ms,
  parse_reverify_payload, reverify_dedupe_key, write_payload, handle,
}
use tjc_be_rag_core_api.Reverify.Keys.{reverify_dedupe_key-injective}
use tjc_be_rag_core_api.Reverify.Rescheduling.{IsDeferred, handle-IsDeferred}

abbrev scope : ReverifyScope
scope = user_organization (codes "12") (codes "77")

abbrev silent : ReverifyScope → Summary
silent s = record { failed = 0; unverifiable = 2 }

-- A job that was put off three times waits for eight minutes, then again as a whole; an unknown
-- payload is dropped.
handle_tests :
    (handle silent (write_payload scope 3) ≡ rescheduled 480000 (write_payload scope 4))
    × (handle silent (record (write_payload scope 3) { scope = some "TEAM" }) ≡ finished)
    × (reverify_dedupe_key scope ≡ codes "ACCESS_REVERIFY:USER_ORGANIZATION:12:77")
unfolding handle parse_reverify_payload write_payload access_backoff_ms reverify_dedupe_key
handle_tests = (refl, refl, refl)

reverify_dedupe_key-injective_example : scope ≡ scope
reverify_dedupe_key-injective_example = reverify_dedupe_key-injective scope scope refl refl refl

handle-IsDeferred_example : IsDeferred silent (write_payload scope 3) (write_payload scope 4) 480000
unfolding handle parse_reverify_payload write_payload access_backoff_ms
handle-IsDeferred_example =
    handle-IsDeferred silent (write_payload scope 3) (write_payload scope 4) 480000 refl
