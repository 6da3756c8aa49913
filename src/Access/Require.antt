-- ===== src/Access/Require.antt =====
-- `require` and `requireForResource` of app/src/project-access/project-access.service.ts, with the
-- exceptions of app/src/project-access/project-access.errors.ts.
use tjc_be_rag_core_api.Base.{String, Bool, true, false, Option, none, some, if◌then◌else◌}
use tjc_be_rag_core_api.Errors.{
  ErrorCode, project_not_found, project_version_not_found, experiment_not_found,
  context_trace_not_found, analysis_run_not_found, test_publication_not_found,
  functional_question_not_found, unresolvable_target, retrieval_comparison_not_found,
  project_role_insufficient, github_verification_unavailable, AppException, Response, answer,
  throws, not_found_error, forbidden, unavailable,
}
use tjc_be_rag_core_api.Access.{
  ProjectRole, reader, admin, AccessRecord, Project, Store, is_role_at_least, is_personal,
  find_record, find_visible, find_live,
}
use tjc_be_rag_core_api.Access.Grants.{
  AccessVerdict, granted, denied, unverified, Transaction, grant_on_entry,
}

-- `ProjectResourceKind`
pub data ResourceKind : Type 0 where
  project_kind analysis_run project_version experiment context_trace test_publication
        functional_question test_target retrieval_comparison :
      ResourceKind

-- `resourceNotFound`, by its code.
unfoldable pub missing_code : ResourceKind → ErrorCode
missing_code project_kind = project_not_found
missing_code analysis_run = analysis_run_not_found
missing_code project_version = project_version_not_found
missing_code experiment = experiment_not_found
missing_code context_trace = context_trace_not_found
missing_code test_publication = test_publication_not_found
missing_code functional_question = functional_question_not_found
missing_code test_target = unresolvable_target
missing_code retrieval_comparison = retrieval_comparison_not_found

unfoldable pub resource_not_found : ResourceKind → AppException
resource_not_found kind = not_found_error (missing_code kind)

-- `AccessGrant`
pub record AccessGrant : Type 0 where
  pub project : Project
  pub role : ProjectRole

-- What a request brings: its session's GitHub identity, what others commit while it waits for the
-- lock, and the transaction that it opens.
pub record Entry : Type 0 where
  pub identity : Response String
  pub waiting : Store → Store
  pub transaction : Transaction

-- `authorize`
unfoldable pub authorize : Project → ProjectRole → ProjectRole → Response AccessGrant
authorize p role min_role =
    if is_role_at_least role min_role
    then answer (record { project = p; role = role })
    else throws (forbidden project_role_insufficient)

module _ (entry : Entry) (user_id : String) where
  abbrev role_or_reader : Option AccessRecord → ProjectRole
  role_or_reader none = reader
  role_or_reader (some r) = r.role

  abbrev pub visible_role : Project → Store → ProjectRole
  visible_role p s = if is_personal p then admin else role_or_reader (find_record p.id user_id s)

  abbrev pub judge : ProjectRole → Project → AccessVerdict → Response AccessGrant
  judge min_role p (granted role) = authorize p role min_role
  judge min_role p denied = throws (not_found_error project_not_found)
  judge min_role p unverified = throws (unavailable github_verification_unavailable)

  abbrev pub enter : ProjectRole → Project → Response String → Store → Store × Response AccessGrant
  enter min_role p (throws e) s = (s, throws e)
  enter min_role p (answer github_user_id) s =
      let after = grant_on_entry entry.transaction p.id user_id github_user_id (entry.waiting s) in
      (after.0, judge min_role p after.1)

  abbrev pub require_live : ProjectRole → Option Project → Store → Store × Response AccessGrant
  require_live min_role none s = (s, throws (not_found_error project_not_found))
  require_live min_role (some p) s =
      if is_personal p
      then (s, throws (not_found_error project_not_found))
      else enter min_role p entry.identity s

  abbrev pub require_seen :
      ProjectRole → String → Option Project → Store → Store × Response AccessGrant
  require_seen min_role project_id (some p) s = (s, authorize p (visible_role p s) min_role)
  require_seen min_role project_id none s = require_live min_role (find_live project_id s) s

  -- `require`
  unfoldable pub require : String → ProjectRole → Store → Store × Response AccessGrant
  require project_id min_role s =
      require_seen min_role project_id (find_visible project_id user_id s) s

  abbrev pub hides : ErrorCode → Bool
  hides project_not_found = true
  hides _ = false

  abbrev pub rename_missing : ResourceKind → Response AccessGrant → Response AccessGrant
  rename_missing kind (answer g) = answer g
  rename_missing kind (throws e) =
      if hides e.code then throws (resource_not_found kind) else throws e

  abbrev pub require_owner :
      ResourceKind → ProjectRole → Option String → Store → Store × Response AccessGrant
  require_owner kind min_role none s = (s, throws (resource_not_found kind))
  require_owner kind min_role (some project_id) s =
      let after = require project_id min_role s in (after.0, rename_missing kind after.1)

  -- `requireForResource`; `owner_of` is what `findProjectIdOf` reads from the tables of descendants.
  unfoldable pub require_for_resource :
      (ResourceKind → String → Option String)
      → ResourceKind
      → String
      → ProjectRole
      → Store
      → Store × Response AccessGrant
  require_for_resource owner_of project_kind resource_id min_role s = require resource_id min_role s
  require_for_resource owner_of kind resource_id min_role s =
      require_owner kind min_role (owner_of kind resource_id) s
