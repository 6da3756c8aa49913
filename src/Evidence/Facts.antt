-- ===== src/Evidence/Facts.antt =====
-- The fourteen facts of an execution: app/src/sandbox/sandbox-evidence-facts.ts builds them,
-- app/src/evidence/evidence-mapping.ts reads them, and
-- app/src/experiments/experiment-failure-fact.ts checks the failure that they hold.
use tjc_be_rag_core_api.Base.{
  ℕ, String, Bool, true, false, not, ◌&&◌, ◌||◌, Option, none, some, List, [], ◌∷◌, if◌then◌else◌,
  str_eq, leb, ◌==◌, is_text, length, codes,
}
use tjc_be_rag_core_api.Evidence.{
  Json, json_null, boolean, json_text, get, fields_of, is_empty, unless_empty, to_text, to_count,
  to_flag, named, one_of,
}
use tjc_be_rag_core_api.Sanitize.{sanitize_failure_message}
use Prim.Native.Char.{Char, code}

-- `ExecutionProfile`
pub data ExecutionProfile : Type 0 where
  node_typescript php_laravel_phpunit : ExecutionProfile

-- `RunnerFacts['runner']`
pub data Runner : Type 0 where
  jest vitest phpunit : Runner

-- `SandboxStage`
pub data Stage : Type 0 where
  preparing installing_dependencies compiling running_tests finalizing : Stage

-- `SandboxFailureCategory`
pub data Category : Type 0 where
  compilation test_assertion test_runtime dependency configuration infrastructure unknown : Category

abbrev pub execution_profiles : List (String × ExecutionProfile)
execution_profiles =
    ("NODE_TYPESCRIPT", node_typescript) ∷ ("PHP_LARAVEL_PHPUNIT", php_laravel_phpunit) ∷ []

abbrev pub runner_hints : List (String × Runner)
runner_hints = ("JEST", jest) ∷ ("VITEST", vitest) ∷ ("PHPUNIT", phpunit) ∷ []

abbrev pub sandbox_stages : List (String × Stage)
sandbox_stages =
    ("PREPARING", preparing)
    ∷ ("INSTALLING_DEPENDENCIES", installing_dependencies)
    ∷ ("COMPILING", compiling)
    ∷ ("RUNNING_TESTS", running_tests)
    ∷ ("FINALIZING", finalizing)
    ∷ []

abbrev pub sandbox_failure_categories : List (String × Category)
sandbox_failure_categories =
    ("COMPILATION", compilation)
    ∷ ("TEST_ASSERTION", test_assertion)
    ∷ ("TEST_RUNTIME", test_runtime)
    ∷ ("DEPENDENCY", dependency)
    ∷ ("CONFIGURATION", configuration)
    ∷ ("INFRASTRUCTURE", infrastructure)
    ∷ ("UNKNOWN", unknown)
    ∷ []

-- White space, as `trim` takes it.
abbrev pub is_space : Char → Bool
is_space c =
    let n = code c in
    (leb 9 n && leb n 13)
    || n == 32
    || n == 160
    || n == 0x1680
    || (leb 0x2000 n && leb n 0x200a)
    || n == 0x2028
    || n == 0x2029
    || n == 0x202f
    || n == 0x205f
    || n == 0x3000
    || n == 0xfeff

abbrev pub trim_start : String → String
trim_start String.[] = String.[]
trim_start (String.◌∷◌ c s) = if is_space c then trim_start s else String.◌∷◌ c s

abbrev pub trim_end : String → String
trim_end String.[] = String.[]
trim_end (String.◌∷◌ c s) =
    let rest = trim_end s in if is_space c && is_empty rest then String.[] else String.◌∷◌ c rest

abbrev pub trim : String → String
trim s = trim_end (trim_start s)

abbrev pub is_code_character : Char → Bool
is_code_character c =
    let n = code c in
    (leb b'A' n && leb n b'Z')
    || (leb b'a' n && leb n b'z')
    || (leb b'0' n && leb n b'9')
    || n == b'_'
    || n == b'.'
    || n == b':'
    || n == b'-'

abbrev pub every_character : (Char → Bool) → String → Bool
every_character p String.[] = true
every_character p (String.◌∷◌ c s) = p c && every_character p s

abbrev experiment_failure_code_max_length : ℕ
experiment_failure_code_max_length = 64

-- `EXPERIMENT_FAILURE_CODE_PATTERN`
abbrev pub is_failure_code : String → Bool
is_failure_code s =
    leb 1 (length (codes s))
    && leb (length (codes s)) experiment_failure_code_max_length
    && every_character is_code_character s

-- `ExperimentRepetitionFailure`
pub record RepetitionFailure : Type 0 where
  pub stage : Stage
  pub category : Category
  pub code : String
  pub message : String

-- `SandboxEvidenceFacts`
pub record EvidenceFacts : Type 0 where
  pub execution_profile : Option ExecutionProfile
  pub runner : Option Runner
  pub compiled : Option Bool
  pub executed : Option Bool
  pub passed : Option Bool
  pub total_tests : Option ℕ
  pub passed_tests : Option ℕ
  pub failed_tests : Option ℕ
  pub skipped_tests : Option ℕ
  pub test_cases_truncated : Option Bool
  pub failure_stage : Option Stage
  pub failure_category : Option Category
  pub failure_code : Option String
  pub failure_message : Option String

-- `SandboxEvidenceInput`. `facts` is a value as the sandbox sent it: the builder reads each field as
-- one of any type. A status or a type of failure is its text.
pub record EvidenceInput : Type 0 where
  pub execution_profile : ExecutionProfile
  pub status : Option String
  pub facts : Json
  pub failure_type : Option String
  pub failure : Option RepetitionFailure

abbrev pub is_false : Json → Bool
is_false (boolean false) = true
is_false _ = false

abbrev is_null : Json → Bool
is_null json_null = true
is_null _ = false

abbrev category_named : Option String → Option Category
category_named none = none
category_named (some s) = named sandbox_failure_categories s

-- `completedFailureCategory`
unfoldable completed_failure_category : EvidenceInput → Option Category
unfolding get fields_of
completed_failure_category i =
    if is_text i.status "COMPLETED"
      && not (is_null i.facts)
      && is_false (get "passed" (fields_of i.facts))
    then category_named i.failure_type
    else none

abbrev pub code_of : Option RepetitionFailure → Option String
code_of none = none
code_of (some f) = some f.code

-- What takes secrets out of a text (`redactSecretsInText`) is an argument.
module _ (redact_secrets : String → String) where
  -- `toValidFailureCode`
  unfoldable pub to_valid_failure_code : Json → Option String
  to_valid_failure_code (json_text s) =
      let trimmed = trim s in
      if is_failure_code trimmed && str_eq (sanitize_failure_message redact_secrets trimmed) trimmed
      then some trimmed
      else none
  to_valid_failure_code _ = none

  abbrev pub failure_with :
      Option Stage → Option Category → Option String → Json → Option RepetitionFailure
  failure_with (some stage) (some category) (some valid_code) (json_text message) = some (record {
    stage = stage;
    category = category;
    code = valid_code;
    message = sanitize_failure_message redact_secrets message;
  })
  failure_with _ _ _ _ = none

  -- `toExperimentRepetitionFailure`, of a failure that is there; its fields are of any type.
  unfoldable pub to_experiment_repetition_failure : Json → Option RepetitionFailure
  unfolding get fields_of one_of to_valid_failure_code
  to_experiment_repetition_failure failure =
      let fs = fields_of failure in
      failure_with (one_of sandbox_stages (get "stage" fs))
        (one_of sandbox_failure_categories (get "category" fs))
        (to_valid_failure_code (get "code" fs)) (get "message" fs)

  abbrev pub message_of : Option RepetitionFailure → Option String
  message_of none = none
  message_of (some f) = some (sanitize_failure_message redact_secrets f.message)

  -- `buildSandboxEvidenceFacts`
  unfoldable pub build_sandbox_evidence_facts : EvidenceInput → EvidenceFacts
  unfolding get fields_of one_of to_flag to_count completed_failure_category
  build_sandbox_evidence_facts i =
      let fs = fields_of i.facts in
      record {
        execution_profile = some i.execution_profile;
        runner = one_of runner_hints (get "runner" fs);
        compiled = to_flag (get "compiled" fs);
        executed = to_flag (get "executed" fs);
        passed = to_flag (get "passed" fs);
        total_tests = to_count (get "totalTests" fs);
        passed_tests = to_count (get "passedTests" fs);
        failed_tests = to_count (get "failedTests" fs);
        skipped_tests = to_count (get "skippedTests" fs);
        test_cases_truncated = to_flag (get "testCasesTruncated" fs);
        failure_stage = elim i.failure [ none ↦ none | some f ↦ some f.stage ];
        failure_category = elim i.failure [
          | none ↦ completed_failure_category i
          | some f ↦ some f.category
        ];
        failure_code = code_of i.failure;
        failure_message = message_of i.failure;
      }

  abbrev pub or_fallback : {A : Type 0} → Option A → Option A → Option A
  or_fallback (some a) fallback = some a
  or_fallback none fallback = fallback

  abbrev pub clean_message : Option String → Option String
  clean_message none = none
  clean_message (some s) = unless_empty (sanitize_failure_message redact_secrets s)

  -- `toEvidenceFacts`
  unfoldable pub to_evidence_facts : Option ExecutionProfile → Json → EvidenceFacts
  unfolding get fields_of one_of to_flag to_count to_text to_valid_failure_code
  to_evidence_facts fallback raw =
      let fs = fields_of raw in
      record {
        execution_profile =
            or_fallback (one_of execution_profiles (get "executionProfile" fs)) fallback;
        runner = one_of runner_hints (get "runner" fs);
        compiled = to_flag (get "compiled" fs);
        executed = to_flag (get "executed" fs);
        passed = to_flag (get "passed" fs);
        total_tests = to_count (get "totalTests" fs);
        passed_tests = to_count (get "passedTests" fs);
        failed_tests = to_count (get "failedTests" fs);
        skipped_tests = to_count (get "skippedTests" fs);
        test_cases_truncated = to_flag (get "testCasesTruncated" fs);
        failure_stage = one_of sandbox_stages (get "failureStage" fs);
        failure_category = one_of sandbox_failure_categories (get "failureCategory" fs);
        failure_code = to_valid_failure_code (get "failureCode" fs);
        failure_message = clean_message (to_text (get "failureMessage" fs));
      }
