-- ===== src/Errors.antt =====
-- app/src/common/errors: the error codes of the API, and what a request ends in.
use tjc_be_rag_core_api.Base.{ℕ}

pub data ErrorCode : Type 0 where
  invalid_request : ErrorCode
  invalid_zip : ErrorCode
  invalid_generation_target : ErrorCode
  project_not_found : ErrorCode
  project_version_not_found : ErrorCode
  test_run_not_found : ErrorCode
  target_result_not_found : ErrorCode
  target_retry_not_allowed : ErrorCode
  experiment_not_found : ErrorCode
  context_trace_not_found : ErrorCode
  context_trace_not_finished : ErrorCode
  project_not_ready : ErrorCode
  project_indexing_in_progress : ErrorCode
  analysis_not_finished : ErrorCode
  test_run_not_finished : ErrorCode
  experiment_not_finished : ErrorCode
  diff_not_available : ErrorCode
  unsupported_project : ErrorCode
  unresolvable_target : ErrorCode
  indexing_failed : ErrorCode
  internal_error : ErrorCode
  sandbox_unavailable : ErrorCode
  storage_unavailable : ErrorCode
  llm_provider_unavailable : ErrorCode
  reasoning_effort_unsupported : ErrorCode
  idempotency_key_required : ErrorCode
  invalid_idempotency_key : ErrorCode
  idempotency_conflict : ErrorCode
  auth_required : ErrorCode
  invalid_access_token : ErrorCode
  github_identity_required : ErrorCode
  identity_unavailable : ErrorCode
  analysis_run_not_found : ErrorCode
  analysis_run_invalid_transition : ErrorCode
  evidence_not_finished : ErrorCode
  repository_binding_not_found : ErrorCode
  repository_binding_already_exists : ErrorCode
  repository_already_bound : ErrorCode
  github_webhook_unavailable : ErrorCode
  github_integration_unavailable : ErrorCode
  invalid_webhook_signature : ErrorCode
  github_account_required : ErrorCode
  github_user_token_invalid : ErrorCode
  github_app_access_required : ErrorCode
  github_repository_not_found : ErrorCode
  integration_branch_not_found : ErrorCode
  repository_outside_workspace : ErrorCode
  repository_permission_insufficient : ErrorCode
  workspace_not_found : ErrorCode
  workspace_admin_required : ErrorCode
  project_role_insufficient : ErrorCode
  github_verification_unavailable : ErrorCode
  functional_question_not_found : ErrorCode
  functional_knowledge_conflict : ErrorCode
  test_publication_not_found : ErrorCode
  test_publication_invalid_run_status : ErrorCode
  test_publication_proposal_not_available : ErrorCode
  analysis_symbol_not_found : ErrorCode
  unsupported_symbol_kind : ErrorCode
  retrieval_comparison_not_found : ErrorCode
  retrieval_comparison_not_finished : ErrorCode
  retrieval_comparison_failed : ErrorCode

ErrorCode-discrete : Discrete ErrorCode
ErrorCode-discrete = hlevel

-- The code and the HTTP status; the message and the details are texts for people.
pub record AppException : Type 0 where
  pub code : ErrorCode
  pub status : ℕ

pub data Response (A : Type 0) : Type 0 where
  answer : A → Response A
  throws : AppException → Response A

infixl 5 ◌>>=◌
abbrev pub ◌>>=◌ : {A B : Type 0} → Response A → (A → Response B) → Response B
answer a >>= f = f a
throws e >>= f = throws e

abbrev pub bad_request : ErrorCode → AppException
bad_request c = record { code = c; status = 400 }

abbrev pub unauthorized : ErrorCode → AppException
unauthorized c = record { code = c; status = 401 }

abbrev pub forbidden : ErrorCode → AppException
forbidden c = record { code = c; status = 403 }

abbrev pub not_found_error : ErrorCode → AppException
not_found_error c = record { code = c; status = 404 }

abbrev pub conflict : ErrorCode → AppException
conflict c = record { code = c; status = 409 }

abbrev pub unavailable : ErrorCode → AppException
unavailable c = record { code = c; status = 503 }

abbrev pub internal : ErrorCode → AppException
internal c = record { code = c; status = 500 }
