-- ===== src/Sandbox/Verdicts.antt =====
-- `mapSandboxResult` of app/src/sandbox/map-sandbox-result.ts, against a description of its verdicts.
use mathlib.Core.List.{Memᴰ}
use tjc_be_rag_core_api.Base.{
  String, Bool, true, false, ◌&&◌, Option, none, some, List, [], ◌∷◌, arith, ◌≡◌, refl, subst, inl,
  inr, Bool-cases, Option-cases, if◌then◌else◌, keep, find, All,
}
use tjc_be_rag_core_api.Sandbox.{
  FailureType, no_failure, compilation, test_assertion, test_runtime, infrastructure,
  ExecutionStatus, completed, failed, timed_out, TestCase, RunnerFacts, ExecutionResult, Status,
  valid, invalid, broken, Outcome, to_sandbox_failure_type, is_failed, is_error, error_case,
  red_type, category_of, completed_with, map_status, map_sandbox_result, passing, failing,
  not_completed,
}

-- The verdicts: a status and a type of failure, and when they are given.
pub data Verdict (redact_secrets : String → String) (r : ExecutionResult)
    : Status → FailureType → Type 0 where
  out_of_time : r.status ≡ timed_out → Verdict redact_secrets r broken infrastructure
  refused :
      r.status ≡ failed
      → Verdict redact_secrets r broken
          (to_sandbox_failure_type (category_of redact_secrets r.failure))
  without_facts :
      r.status ≡ completed
      → r.facts ≡ none
      → Verdict redact_secrets r broken
          (to_sandbox_failure_type (category_of redact_secrets r.failure))
  green :
      (f : RunnerFacts)
      → r.status ≡ completed
      → r.facts ≡ some f
      → f.passed ≡ true
      → Verdict redact_secrets r valid no_failure
  uncompiled :
      (f : RunnerFacts)
      → r.status ≡ completed
      → r.facts ≡ some f
      → f.passed ≡ false
      → f.compiled ≡ false
      → Verdict redact_secrets r invalid compilation
  not_run :
      (f : RunnerFacts)
      → r.status ≡ completed
      → r.facts ≡ some f
      → f.passed ≡ false
      → f.compiled ≡ true
      → f.executed ≡ false
      → Verdict redact_secrets r invalid test_runtime
  with_error :
      (f : RunnerFacts) (t : TestCase)
      → r.status ≡ completed
      → r.facts ≡ some f
      → f.passed ≡ false
      → f.compiled ≡ true
      → f.executed ≡ true
      → Memᴰ t f.test_cases
      → is_failed t ≡ true
      → is_error t ≡ true
      → Verdict redact_secrets r invalid test_runtime
  by_assertions :
      (f : RunnerFacts)
      → r.status ≡ completed
      → r.facts ≡ some f
      → f.passed ≡ false
      → f.compiled ≡ true
      → f.executed ≡ true
      → All (λ t. is_failed t ≡ true → is_error t ≡ false) f.test_cases
      → Verdict redact_secrets r invalid test_assertion

find-found :
    (ts : List TestCase) (t : TestCase)
    → find is_error (keep is_failed ts) ≡ some t
    → Memᴰ t ts × (is_failed t ≡ true) × (is_error t ≡ true)
find-found [] t e = cc
find-found (x ∷ ts) t e = elim (Bool-cases (is_failed x && is_error x)) [
  | inl here ↦
      let same : x ≡ t = ground (arith, here) in
      subst (λ y. Memᴰ y (x ∷ ts) × (is_failed y ≡ true) × (is_error y ≡ true)) same
        (Memᴰ.head refl, ground (arith, here), ground (arith, here))
  | inr other ↦
      let (m, a, b) = find-found ts t (skip (is_failed x) refl other) in (Memᴰ.tail m, a, b)
]
  where
    skip :
        (b : Bool)
        → is_failed x ≡ b
        → (is_failed x && is_error x) ≡ false
        → find is_error (keep is_failed ts) ≡ some t
    skip true v other = ground (arith, v)
    skip false v other = ground (arith, v)

none-All :
    (ts : List TestCase)
    → find is_error (keep is_failed ts) ≡ none
    → All (λ t. is_failed t ≡ true → is_error t ≡ false) ts
none-All [] e = tt
none-All (x ∷ ts) e = elim (Bool-cases (is_failed x)) [
  | inl fails ↦ elim (Bool-cases (is_error x)) [
    | inl err ↦ absurd (ground (arith, fails, err))
    | inr plain ↦ (λ _. plain, none-All ts (ground (arith, fails, plain)))
  ]
  | inr passes ↦ (λ v. absurd (ground (arith, passes, v)), none-All ts (ground (arith, passes)))
]

abbrev is_green : Status → Bool
is_green valid = true
is_green _ = false

abbrev is_silent : Option String → Bool
is_silent none = true
is_silent (some t) = false

-- An outcome whose verdict is given rightly, and whose flag and summary agree with its status.
pub record IsJust (redact_secrets : String → String) (r : ExecutionResult) (o : Outcome)
    : Type 0 where
  pub type : FailureType
  pub named : o.failure_type ≡ some type
  pub verdict : Verdict redact_secrets r o.status type
  pub flagged : o.is_valid ≡ some (is_green o.status)
  pub explained : is_silent o.error_summary ≡ is_green o.status

module _ (redact_secrets : String → String) (r : ExecutionResult) where
  just :
      (o : Outcome) (t : FailureType)
      → o.failure_type ≡ some t
      → o.is_valid ≡ some (is_green o.status)
      → is_silent o.error_summary ≡ is_green o.status
      → Verdict redact_secrets r o.status t
      → IsJust redact_secrets r o
  just o t named flagged explained v = record {
    type = t;
    named = named;
    verdict = v;
    flagged = flagged;
    explained = explained;
  }

  failing-IsJust :
      (f : RunnerFacts)
      → r.status ≡ completed
      → r.facts ≡ some f
      → f.passed ≡ false
      → IsJust redact_secrets r (failing redact_secrets f)
  failing-IsJust f done facts red =
      just (failing redact_secrets f) (red_type redact_secrets f (error_case redact_secrets f)) refl
        refl refl
        (elim (Bool-cases f.compiled) [
          | inr raw ↦
              subst (Verdict redact_secrets r invalid) (ground (arith, raw))
                (Verdict.uncompiled f done facts red raw)
          | inl compiled ↦ elim (Bool-cases f.executed) [
            | inr idle ↦
                subst (Verdict redact_secrets r invalid) (ground (arith, compiled, idle))
                  (Verdict.not_run f done facts red compiled idle)
            | inl ran ↦ elim (Option-cases (find is_error (keep is_failed f.test_cases))) [
              | inl clean ↦
                  subst (Verdict redact_secrets r invalid) (ground (arith, compiled, ran, clean)) (
                    Verdict.by_assertions f done facts red compiled ran
                      (none-All f.test_cases clean))
              | inr (t, found) ↦
                  let (m, a, b) = find-found f.test_cases t found in
                  subst (Verdict redact_secrets r invalid) (ground (arith, compiled, ran, found))
                    (Verdict.with_error f t done facts red compiled ran m a b)
            ]
          ]
        ])

  -- The verdict on a result is the one that its description gives, whatever the facts; it is
  -- flagged valid exactly if its status is VALID, and has a summary of the error exactly if not.
  pub map_sandbox_result-IsJust : IsJust redact_secrets r (map_sandbox_result redact_secrets r)
  unfolding map_sandbox_result
  map_sandbox_result-IsJust = of_status r.status refl
    where
      of_passed :
          (f : RunnerFacts) (b : Bool)
          → r.status ≡ completed
          → r.facts ≡ some f
          → f.passed ≡ b
          → IsJust redact_secrets r (if b then passing redact_secrets else failing redact_secrets f)
      of_passed f true done facts p =
          just (passing redact_secrets) no_failure refl refl refl (Verdict.green f done facts p)
      of_passed f false done facts p = failing-IsJust f done facts p

      of_facts :
          (o : Option RunnerFacts)
          → r.status ≡ completed
          → r.facts ≡ o
          → IsJust redact_secrets r (completed_with redact_secrets r o)
      of_facts none done facts =
          just (not_completed redact_secrets r)
            (to_sandbox_failure_type (category_of redact_secrets r.failure)) refl refl refl
            (Verdict.without_facts done facts)
      of_facts (some f) done facts = of_passed f f.passed done facts refl

      of_status :
          (s : ExecutionStatus)
          → r.status ≡ s
          → IsJust redact_secrets r (map_status redact_secrets s r)
      of_status timed_out e =
          just (map_status redact_secrets timed_out r) infrastructure refl refl refl
            (Verdict.out_of_time e)
      of_status failed e =
          just (not_completed redact_secrets r)
            (to_sandbox_failure_type (category_of redact_secrets r.failure)) refl refl refl
            (Verdict.refused e)
      of_status completed e = of_facts r.facts e refl
