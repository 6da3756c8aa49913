-- ===== src/Sandbox/Tests.antt =====
-- Verdicts of small results, and the theorem at a concrete input.
use tjc_be_rag_core_api.Sanitize.{sanitize_failure_message}
use tjc_be_rag_core_api.Base.{true, false, none, some, List, [], ◌∷◌, ◌≡◌, refl}
use tjc_be_rag_core_api.Sandbox.{
  ExecutionResult, completed, failed, TestCase, case_failed, assertion, error, test_runtime,
  test_assertion, dependency, map_sandbox_result, to_sandbox_failure_type,
}
use tjc_be_rag_core_api.Sandbox.Verdicts.{IsJust, map_sandbox_result-IsJust}

abbrev wrong_value : TestCase
wrong_value = record {
  status = case_failed;
  error_message = some "expected 3";
  failure_kind = some assertion;
}

abbrev no_class : TestCase
no_class = record {
  status = case_failed;
  error_message = some "no class";
  failure_kind = some error;
}

abbrev red : List TestCase → ExecutionResult
red cases = record {
  status = completed;
  facts = some (record { compiled = true; executed = true; passed = false; test_cases = cases });
  failure = none;
}

abbrev refused : ExecutionResult
refused = record {
  status = failed;
  facts = none;
  failure = some (record { category = some "DEPENDENCY"; message = none });
}

-- A technical error of one case wins over the assertion of another, and gives the summary.
error_tests :
    ((map_sandbox_result (λ t. t) (red (wrong_value ∷ no_class ∷ []))).failure_type
      ≡ some test_runtime)
    × ((map_sandbox_result (λ t. t) (red (wrong_value ∷ no_class ∷ []))).error_summary
        ≡ some "no class")
    × ((map_sandbox_result (λ t. t) (red (wrong_value ∷ []))).failure_type ≡ some test_assertion)
    × ((map_sandbox_result (λ t. t) refused).failure_type ≡ some dependency)
unfolding map_sandbox_result to_sandbox_failure_type sanitize_failure_message
error_tests = (refl, refl, refl, refl)

map_sandbox_result-IsJust_example :
    IsJust
      (λ t. t)
      (red (wrong_value ∷ no_class ∷ []))
      (map_sandbox_result (λ t. t) (red (wrong_value ∷ no_class ∷ [])))
map_sandbox_result-IsJust_example =
    map_sandbox_result-IsJust (λ t. t) (red (wrong_value ∷ no_class ∷ []))
