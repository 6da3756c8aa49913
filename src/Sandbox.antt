-- ===== src/Sandbox.antt =====
-- app/src/sandbox/map-sandbox-result.ts and sandbox.types.ts: the verdict on a generated test.
pub mod Verdicts
mod Tests
use tjc_be_rag_core_api.Sanitize.{sanitize_failure_message}
use tjc_be_rag_core_api.Base.{
  String, Bool, true, false, not, ◌&&◌, ◌||◌, Option, none, some, List, [], ◌∷◌, if◌then◌else◌,
  str_eq, keep, find,
}

-- `FailureTypeValue`
pub data FailureType : Type 0 where
  no_failure compilation test_assertion test_runtime dependency configuration infrastructure
        unknown :
      FailureType

pub data ExecutionStatus : Type 0 where
  completed failed timed_out : ExecutionStatus

pub data CaseStatus : Type 0 where
  case_passed case_failed case_skipped case_todo : CaseStatus

pub data FailureKind : Type 0 where
  assertion error : FailureKind

-- `TestCaseFact`, less its path, name and duration.
pub record TestCase : Type 0 where
  pub status : CaseStatus
  pub error_message : Option String
  pub failure_kind : Option FailureKind

-- `RunnerFacts`, less its runner and counts.
pub record RunnerFacts : Type 0 where
  pub compiled : Bool
  pub executed : Bool
  pub passed : Bool
  pub test_cases : List TestCase

-- `SandboxFailureFact`; a category or a message that is not a text is `none`.
pub record Failure : Type 0 where
  pub category : Option String
  pub message : Option String

-- `SandboxExecutionResult`, less durations and evidence.
pub record ExecutionResult : Type 0 where
  pub status : ExecutionStatus
  pub facts : Option RunnerFacts
  pub failure : Option Failure

pub data Status : Type 0 where
  valid invalid broken : Status

-- `MappedSandboxOutcome`
pub record Outcome : Type 0 where
  pub status : Status
  pub compiled : Option Bool
  pub executed : Option Bool
  pub passed : Option Bool
  pub is_valid : Option Bool
  pub failure_type : Option FailureType
  pub error_summary : Option String

-- `toSandboxFailureType`, of a text.
abbrev failure_named : String → FailureType
failure_named t =
    if str_eq t "COMPILATION"
    then compilation
    else if str_eq t "TEST_ASSERTION"
    then test_assertion
    else if str_eq t "TEST_RUNTIME"
    then test_runtime
    else if str_eq t "DEPENDENCY"
    then dependency
    else if str_eq t "CONFIGURATION"
    then configuration
    else if str_eq t "INFRASTRUCTURE"
    then infrastructure
    else unknown

-- `toSandboxFailureType`
unfoldable pub to_sandbox_failure_type : Option String → FailureType
to_sandbox_failure_type none = unknown
to_sandbox_failure_type (some t) = failure_named t

abbrev pub is_failed : TestCase → Bool
is_failed t = elim t.status [ case_failed ↦ true | _ ↦ false ]

abbrev pub is_error : TestCase → Bool
is_error t = elim t.failure_kind [
  | none ↦ false
  | some k ↦ elim k [ error ↦ true | assertion ↦ false ]
]

abbrev pub first : List TestCase → Option TestCase
first [] = none
first (t ∷ ts) = some t

abbrev or_else : Option TestCase → Option TestCase → Option TestCase
or_else none o = o
or_else (some t) o = some t

-- What takes secrets out of a text (`redactSecretsInText`) is an argument.
module _ (redact_secrets : String → String) where
  abbrev summary_of : Option String → String → String
  summary_of none default = default
  summary_of (some m) default = sanitize_failure_message redact_secrets m

  abbrev pub message_of : Option TestCase → Option String
  message_of none = none
  message_of (some t) = t.error_message

  abbrev fact : (RunnerFacts → Bool) → Option RunnerFacts → Option Bool
  fact p none = none
  fact p (some f) = some (p f)

  abbrev broken_with : FailureType → String → Option RunnerFacts → Outcome
  broken_with type summary facts = record {
    status = broken;
    compiled = fact (λ f. f.compiled) facts;
    executed = fact (λ f. f.executed) facts;
    passed = fact (λ f. f.passed) facts;
    is_valid = some false;
    failure_type = some type;
    error_summary = some summary;
  }

  abbrev pub category_of : Option Failure → Option String
  category_of none = none
  category_of (some f) = f.category

  abbrev pub failure_message : Option Failure → Option String
  failure_message none = none
  failure_message (some f) = f.message

  abbrev pub not_completed : ExecutionResult → Outcome
  not_completed r =
      broken_with (to_sandbox_failure_type (category_of r.failure))
        (summary_of (failure_message r.failure) "El Sandbox no pudo completar la ejecución.")
        r.facts

  abbrev pub passing : Outcome
  passing = record {
    status = valid;
    compiled = some true;
    executed = some true;
    passed = some true;
    is_valid = some true;
    failure_type = some no_failure;
    error_summary = none;
  }

  -- The failed case of kind ERROR that counts, of a test that compiled and ran.
  abbrev pub error_case : RunnerFacts → Option TestCase
  error_case f =
      if f.compiled && f.executed then find is_error (keep is_failed f.test_cases) else none

  abbrev pub red_type : RunnerFacts → Option TestCase → FailureType
  red_type f e =
      if not f.compiled
      then compilation
      else if not f.executed
      then test_runtime
      else elim e [ none ↦ test_assertion | some t ↦ test_runtime ]

  abbrev pub failing : RunnerFacts → Outcome
  failing f = record {
    status = invalid;
    compiled = some f.compiled;
    executed = some f.executed;
    passed = some f.passed;
    is_valid = some false;
    failure_type = some (red_type f (error_case f));
    error_summary = some (
        summary_of (message_of (or_else (error_case f) (first (keep is_failed f.test_cases))))
          "La prueba generada no pasó en el Sandbox.");
  }

  abbrev pub completed_with : ExecutionResult → Option RunnerFacts → Outcome
  completed_with r none = not_completed r
  completed_with r (some f) = if f.passed then passing else failing f

  abbrev pub map_status : ExecutionStatus → ExecutionResult → Outcome
  map_status timed_out r =
      broken_with infrastructure "La ejecución en el Sandbox agotó el tiempo límite." r.facts
  map_status failed r = not_completed r
  map_status completed r = completed_with r r.facts

  -- `mapSandboxResult`
  unfoldable pub map_sandbox_result : ExecutionResult → Outcome
  unfolding to_sandbox_failure_type
  map_sandbox_result r = map_status r.status r
