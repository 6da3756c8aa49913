-- ===== src/Evidence/Stored.antt =====
-- The facts of an execution, from app/src/sandbox/sandbox-evidence-facts.ts into a JSON column and back
-- by app/src/evidence/evidence-mapping.ts.
use Prim.Native.Char.{Char}
use tjc_be_rag_core_api.Base.{
  ℕ, String, Bool, true, false, ◌&&◌, Option, none, some, str_eq, arith, ◌≡◌, refl, ap, ◌∙◌, inl,
  inr, subst, Bool-cases,
}
use tjc_be_rag_core_api.Sanitize.{sanitize_failure_message}
use tjc_be_rag_core_api.Evidence.{
  Json, undefined, json_null, boolean, number, natural, json_text, object, field, no_fields, get,
  fields_of, unless_empty, to_text, to_count, to_flag, one_of,
}
use tjc_be_rag_core_api.Evidence.Facts.{
  ExecutionProfile, node_typescript, php_laravel_phpunit, Runner, jest, vitest, phpunit, Stage,
  Category, execution_profiles, runner_hints, sandbox_stages, sandbox_failure_categories, is_space,
  trim_start, trim_end, trim, is_code_character, every_character, is_failure_code,
  RepetitionFailure, EvidenceFacts, EvidenceInput, to_valid_failure_code, failure_with, code_of,
  to_experiment_repetition_failure, build_sandbox_evidence_facts, clean_message, to_evidence_facts,
}

-- The names of the closed sets, and a null for what was not observed.
abbrev profile_name : ExecutionProfile → String
profile_name node_typescript = "NODE_TYPESCRIPT"
profile_name php_laravel_phpunit = "PHP_LARAVEL_PHPUNIT"

abbrev runner_name : Runner → String
runner_name jest = "JEST"
runner_name vitest = "VITEST"
runner_name phpunit = "PHPUNIT"

abbrev stage_name : Stage → String
stage_name Stage.preparing = "PREPARING"
stage_name Stage.installing_dependencies = "INSTALLING_DEPENDENCIES"
stage_name Stage.compiling = "COMPILING"
stage_name Stage.running_tests = "RUNNING_TESTS"
stage_name Stage.finalizing = "FINALIZING"

abbrev category_name : Category → String
category_name Category.compilation = "COMPILATION"
category_name Category.test_assertion = "TEST_ASSERTION"
category_name Category.test_runtime = "TEST_RUNTIME"
category_name Category.dependency = "DEPENDENCY"
category_name Category.configuration = "CONFIGURATION"
category_name Category.infrastructure = "INFRASTRUCTURE"
category_name Category.unknown = "UNKNOWN"

abbrev or_null : {A : Type 0} → (A → Json) → Option A → Json
or_null write none = json_null
or_null write (some a) = write a

-- The object that a JSON column keeps of the facts.
unfoldable pub stored : EvidenceFacts → Json
stored f = object (
    field "executionProfile" (or_null (λ p. json_text (profile_name p)) f.execution_profile) (
      field "runner" (or_null (λ r. json_text (runner_name r)) f.runner) (
        field "compiled" (or_null boolean f.compiled) (
          field "executed" (or_null boolean f.executed) (
            field "passed" (or_null boolean f.passed) (
              field "totalTests" (or_null (λ n. number (natural n)) f.total_tests) (
                field "passedTests" (or_null (λ n. number (natural n)) f.passed_tests) (
                  field "failedTests" (or_null (λ n. number (natural n)) f.failed_tests) (
                    field "skippedTests" (or_null (λ n. number (natural n)) f.skipped_tests) (
                      field "testCasesTruncated" (or_null boolean f.test_cases_truncated) (
                        field "failureStage"
                          (or_null (λ s. json_text (stage_name s)) f.failure_stage)
                          (field "failureCategory"
                            (or_null (λ c. json_text (category_name c)) f.failure_category)
                            (field "failureCode" (or_null json_text f.failure_code) (
                              field "failureMessage" (or_null json_text f.failure_message)
                                no_fields))))))))))))))

profile_back :
    (o : Option ExecutionProfile)
    → one_of execution_profiles (or_null (λ p. json_text (profile_name p)) o) ≡ o
unfolding one_of
profile_back none = refl
profile_back (some node_typescript) = refl
profile_back (some php_laravel_phpunit) = refl

runner_back :
    (o : Option Runner) → one_of runner_hints (or_null (λ r. json_text (runner_name r)) o) ≡ o
unfolding one_of
runner_back none = refl
runner_back (some jest) = refl
runner_back (some vitest) = refl
runner_back (some phpunit) = refl

stage_back :
    (o : Option Stage) → one_of sandbox_stages (or_null (λ s. json_text (stage_name s)) o) ≡ o
unfolding one_of
stage_back none = refl
stage_back (some Stage.preparing) = refl
stage_back (some Stage.installing_dependencies) = refl
stage_back (some Stage.compiling) = refl
stage_back (some Stage.running_tests) = refl
stage_back (some Stage.finalizing) = refl

category_back :
    (o : Option Category)
    → one_of sandbox_failure_categories (or_null (λ c. json_text (category_name c)) o) ≡ o
unfolding one_of
category_back none = refl
category_back (some Category.compilation) = refl
category_back (some Category.test_assertion) = refl
category_back (some Category.test_runtime) = refl
category_back (some Category.dependency) = refl
category_back (some Category.configuration) = refl
category_back (some Category.infrastructure) = refl
category_back (some Category.unknown) = refl

flag_back : (o : Option Bool) → to_flag (or_null boolean o) ≡ o
unfolding to_flag
flag_back none = refl
flag_back (some b) = refl

count_back : (o : Option ℕ) → to_count (or_null (λ n. number (natural n)) o) ≡ o
unfolding to_count
count_back none = refl
count_back (some n) = refl

-- Nothing is cut from a text without white space.
not_space : (c : Char) → is_code_character c ≡ true → is_space c ≡ false
not_space c h = ground arith

trim_end_self : (s : String) → every_character is_code_character s ≡ true → trim_end s ≡ s
trim_end_self String.[] h = refl
trim_end_self (String.◌∷◌ c s) h =
    let here = not_space c (ground arith) in
    let rest = trim_end_self s (ground arith) in ground (arith, here, rest)

trim_start_self : (s : String) → every_character is_code_character s ≡ true → trim_start s ≡ s
trim_start_self String.[] h = refl
trim_start_self (String.◌∷◌ c s) h = let here = not_space c (ground arith) in ground (arith, here)

trim_self : (s : String) → is_failure_code s ≡ true → trim s ≡ s
trim_self s h =
    let every : every_character is_code_character s ≡ true = ground arith in
    ap trim_end (trim_start_self s every) ∙ trim_end_self s every

module _ (redact_secrets : String → String) where
  -- A code that was checked is one that the check keeps.
  IsChecked : String → Type 0
  IsChecked c =
      (is_failure_code c ≡ true) × (str_eq (sanitize_failure_message redact_secrets c) c ≡ true)

  to_valid_failure_code-IsChecked :
      (raw : Json) (c : String) → to_valid_failure_code redact_secrets raw ≡ some c → IsChecked c
  unfolding to_valid_failure_code IsChecked
  to_valid_failure_code-IsChecked (json_text s) c e =
      elim (Bool-cases (
        is_failure_code (trim s)
        && str_eq (sanitize_failure_message redact_secrets (trim s)) (trim s))) [
          | inl good ↦
              let same : trim s ≡ c = ground (arith, good) in
              subst IsChecked same (ground (arith, good))
          | inr bad ↦ absurd (ground (arith, bad))
        ]
  to_valid_failure_code-IsChecked undefined c e = absurd (ground arith)
  to_valid_failure_code-IsChecked json_null c e = absurd (ground arith)
  to_valid_failure_code-IsChecked (boolean b) c e = absurd (ground arith)
  to_valid_failure_code-IsChecked (number n) c e = absurd (ground arith)
  to_valid_failure_code-IsChecked (Json.array vs) c e = absurd (ground arith)
  to_valid_failure_code-IsChecked (object fs) c e = absurd (ground arith)

  code_back :
      (c : String) → IsChecked c → to_valid_failure_code redact_secrets (json_text c) ≡ some c
  unfolding to_valid_failure_code IsChecked
  code_back c h = let same = trim_self c h.0 in rw same (ground (arith, h.0, h.1))

  -- What a message is read as: an empty one is not observed.
  abbrev pub shown : Option String → Option String
  shown none = none
  shown (some s) = unless_empty s

  abbrev IsFrom : Option RepetitionFailure → Type 0
  IsFrom none = Unit
  IsFrom (some f) = (raw : Json) × (to_experiment_repetition_failure redact_secrets raw ≡ some f)

  with_code :
      (stage : Option Stage) (category : Option Category) (valid : Option String) (message : Json)
      (f : RepetitionFailure)
      → failure_with redact_secrets stage category valid message ≡ some f
      → valid ≡ some f.code
  with_code (some stage) (some category) (some valid) (json_text message) f e = ground arith
  with_code none category valid message f e = absurd (ground arith)
  with_code (some stage) none valid message f e = absurd (ground arith)
  with_code (some stage) (some category) none message f e = absurd (ground arith)
  with_code (some stage) (some category) (some valid) message f e = absurd (ground arith)

  to_experiment_repetition_failure-IsChecked :
      (raw : Json) (f : RepetitionFailure)
      → to_experiment_repetition_failure redact_secrets raw ≡ some f
      → IsChecked f.code
  unfolding to_experiment_repetition_failure
  to_experiment_repetition_failure-IsChecked raw f e =
      let fs = fields_of raw in
      to_valid_failure_code-IsChecked (get "code" fs) f.code (
        with_code (one_of sandbox_stages (get "stage" fs))
          (one_of sandbox_failure_categories (get "category" fs))
          (to_valid_failure_code redact_secrets (get "code" fs)) (get "message" fs) f e)

  message_back : (o : Option String) → to_text (or_null json_text o) ≡ shown o
  unfolding to_text
  message_back none = refl
  message_back (some s) = refl

  back :
      (v : EvidenceFacts) (p : ExecutionProfile) (fallback : Option ExecutionProfile)
      → v.execution_profile ≡ some p
      → to_valid_failure_code redact_secrets (or_null json_text v.failure_code) ≡ v.failure_code
      → to_evidence_facts redact_secrets fallback (stored v)
        ≡ record v { failure_message = clean_message redact_secrets (shown v.failure_message) }
  unfolding stored to_evidence_facts get fields_of to_text
  back v p fallback profile valid = simp (
    profile_back,
    runner_back,
    stage_back,
    category_back,
    flag_back,
    count_back,
    profile,
    valid,
    message_back v.failure_message,
  )

  -- What is built from a failure that was checked, and stored, is read back as it was built, whatever
  -- the fallback, but for the message: that is cleaned once more, and an empty one is read as none.
  pub to_evidence_facts-stored :
      (i : EvidenceInput) (fallback : Option ExecutionProfile)
      → IsFrom i.failure
      → let built = build_sandbox_evidence_facts redact_secrets i in
        to_evidence_facts redact_secrets fallback (stored built) ≡ record built {
          failure_message = clean_message redact_secrets (shown built.failure_message);
        }
  unfolding build_sandbox_evidence_facts to_valid_failure_code
  to_evidence_facts-stored i fallback from =
      back (build_sandbox_evidence_facts redact_secrets i) i.execution_profile fallback refl
        (code_kept i.failure from)
    where
      code_kept :
          (o : Option RepetitionFailure)
          → IsFrom o
          → to_valid_failure_code redact_secrets (or_null json_text (code_of o)) ≡ code_of o
      code_kept none h = refl
      code_kept (some f) (raw, e) =
          code_back f.code (to_experiment_repetition_failure-IsChecked raw f e)
