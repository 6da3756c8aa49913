-- ===== src/Evidence/Tests.antt =====
-- Small values through the readers, and the theorems at concrete inputs.
use tjc_be_rag_core_api.Base.{String, true, false, none, some, [], ◌∷◌, ◌≡◌, refl, map, keep}
use tjc_be_rag_core_api.Sanitize.{sanitize_failure_message}
use tjc_be_rag_core_api.Evidence.{
  Json, json_null, boolean, number, natural, finite, not_finite, json_text, array, object,
  no_entries, entry, field, no_fields, get, fields_of, to_count, to_finite_number, to_text,
  to_text_list, one_of,
}
use tjc_be_rag_core_api.Evidence.Facts.{
  compiling, compilation, EvidenceInput, node_typescript, php_laravel_phpunit, RepetitionFailure,
  trim, to_valid_failure_code, to_experiment_repetition_failure, build_sandbox_evidence_facts,
  clean_message, to_evidence_facts,
}
use tjc_be_rag_core_api.Evidence.Candidates.{
  present, to_rag_candidates, rag_candidate_ids_by_decision,
}
use tjc_be_rag_core_api.Evidence.Stored.{stored, shown, to_evidence_facts-stored}
use tjc_be_rag_core_api.Evidence.Selected.{is_flag, rag_candidate_ids_by_decision-to_rag_candidates}

counts :
    (to_count (number (natural 3)) ≡ some 3)
    × (to_count (number (finite "-1")) ≡ none)
    × (to_finite_number (number not_finite) ≡ none)
    × (to_text (json_text "") ≡ none)
unfolding to_count to_finite_number to_text
counts = (refl, refl, refl, refl)

texts :
    to_text_list (array (entry (json_text "a") (entry json_null (entry (json_text "") no_entries))))
    ≡ "a" ∷ []
unfolding to_text_list
texts = refl

trims : trim "  TS2304 " ≡ "TS2304"
trims = refl

abbrev clean : String → String
clean s = s

abbrev sent_failure : Json
sent_failure = object (
    field "stage" (json_text "COMPILING") (
      field "category" (json_text "COMPILATION")
        (field "code" (json_text " TS2304 ") (field "message" (json_text "no name") no_fields))))

abbrev checked : RepetitionFailure
checked = record { stage = compiling; category = compilation; code = "TS2304"; message = "no name" }

checks : to_experiment_repetition_failure clean sent_failure ≡ some checked
unfolding to_experiment_repetition_failure get fields_of one_of to_valid_failure_code
    sanitize_failure_message
checks = refl

abbrev sent : EvidenceInput
sent = record {
  execution_profile = node_typescript;
  status = some "FAILED";
  facts = object (
      field "compiled" (boolean false)
        (field "totalTests" (number (natural 2)) (field "runner" (json_text "JEST") no_fields)));
  failure_type = none;
  failure = some checked;
}

to_evidence_facts-stored_example :
    to_evidence_facts clean
      (some php_laravel_phpunit)
      (stored (build_sandbox_evidence_facts clean sent))
    ≡ record (build_sandbox_evidence_facts clean sent) {
      failure_message =
          clean_message clean
            (shown clean (build_sandbox_evidence_facts clean sent).failure_message);
    }
to_evidence_facts-stored_example =
    to_evidence_facts-stored clean sent (some php_laravel_phpunit) (sent_failure, checks)

abbrev one_candidate : String → String → Json
one_candidate id decision =
    object (field "chunkId" (json_text id) (field "decision" (json_text decision) no_fields))

abbrev detail : Json
detail = object (
    field "candidates"
      (array (
        entry (one_candidate "a" "SELECTED")
          (entry (one_candidate "b" "DISCARDED") (entry (one_candidate "" "SELECTED") no_entries))))
      no_fields)

selected_ids : rag_candidate_ids_by_decision detail true ≡ "a" ∷ []
unfolding rag_candidate_ids_by_decision
selected_ids = refl

rag_candidate_ids_by_decision-to_rag_candidates_example :
    rag_candidate_ids_by_decision detail true
    ≡ present (
        map
          (λ c. c.chunk_id)
          (keep
            (λ c. is_flag true c.selected)
            (to_rag_candidates (get "candidates" (fields_of detail)))))
rag_candidate_ids_by_decision-to_rag_candidates_example =
    rag_candidate_ids_by_decision-to_rag_candidates detail true
