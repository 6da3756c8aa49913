-- ===== src/Reverify.antt =====
-- app/src/access-sync: access-reverify.scope.ts, access-backoff.ts and access-reverify.job-handler.ts.
-- The job that verifies again the records that an event of GitHub points at.
pub mod Keys
pub mod Rescheduling
mod Tests
use tjc_be_rag_core_api.Base.{
  ℕ, ◌+◌, ◌*◌, ◌^◌, zero, suc, String, Bool, true, false, Option, none, some, List, [], ◌∷◌, ◌++◌,
  if◌then◌else◌, ltb, min, codes, str_eq,
}
use tjc_be_rag_core_api.Access.Organization.{is_github_id}

-- `AccessReverifyScope`; ids are texts by their code units.
pub data ReverifyScope : Type 0 where
  everything : ReverifyScope
  user_repository : List ℕ → List ℕ → ReverifyScope
  user_organization : List ℕ → List ℕ → ReverifyScope
  user_organization_repositories : List ℕ → List ℕ → ReverifyScope
  of_repository : List ℕ → ReverifyScope
  organization_repositories : List ℕ → ReverifyScope

-- `AccessReverifyPayload`, as `parseReverifyPayload` returns it.
pub record Payload : Type 0 where
  pub scope : ReverifyScope
  pub deferrals : ℕ

-- What the parser reads of a payload that is an object: a field that is not of its type is `none`,
-- and a count that is not positive is 0.
pub record RawPayload : Type 0 where
  pub scope : Option String
  pub github_user_id : Option (List ℕ)
  pub repository_id : Option (List ℕ)
  pub organization_id : Option (List ℕ)
  pub deferrals : ℕ

-- `toGithubId`, of a text.
unfoldable to_github_id : List ℕ → Option (List ℕ)
to_github_id t = if is_github_id t then some t else none

abbrev pub colon : ℕ
colon = b':'

-- `reverifyDedupeKey`, by code units.
unfoldable pub reverify_dedupe_key : ReverifyScope → List ℕ
reverify_dedupe_key everything = codes "ACCESS_REVERIFY:ALL"
reverify_dedupe_key (user_repository u r) =
    codes "ACCESS_REVERIFY:USER_REPOSITORY:" ++ (u ++ (colon ∷ r))
reverify_dedupe_key (user_organization u o) =
    codes "ACCESS_REVERIFY:USER_ORGANIZATION:" ++ (u ++ (colon ∷ o))
reverify_dedupe_key (user_organization_repositories u o) =
    codes "ACCESS_REVERIFY:USER_ORGANIZATION_REPOSITORIES:" ++ (u ++ (colon ∷ o))
reverify_dedupe_key (of_repository r) = codes "ACCESS_REVERIFY:REPOSITORY:" ++ r
reverify_dedupe_key (organization_repositories o) =
    codes "ACCESS_REVERIFY:ORGANIZATION_REPOSITORIES:" ++ o

-- `nonEmptyString`
abbrev pub non_empty : Option (List ℕ) → Option (List ℕ)
non_empty none = none
non_empty (some []) = none
non_empty (some (c ∷ cs)) = some (c ∷ cs)

abbrev pub with_one : (List ℕ → ReverifyScope) → ℕ → Option (List ℕ) → Option Payload
with_one make deferrals none = none
with_one make deferrals (some a) = some (record { scope = make a; deferrals = deferrals })

abbrev pub with_two :
    (List ℕ → List ℕ → ReverifyScope) → ℕ → Option (List ℕ) → Option (List ℕ) → Option Payload
with_two make deferrals none b = none
with_two make deferrals (some a) b = with_one (make a) deferrals b

abbrev pub parse_scope : String → RawPayload → Option Payload
parse_scope scope raw =
    if str_eq scope "ALL"
    then some (record { scope = everything; deferrals = raw.deferrals })
    else if str_eq scope "USER_REPOSITORY"
    then with_two user_repository raw.deferrals (non_empty raw.github_user_id)
        (non_empty raw.repository_id)
    else if str_eq scope "USER_ORGANIZATION"
    then with_two user_organization raw.deferrals (non_empty raw.github_user_id)
        (non_empty raw.organization_id)
    else if str_eq scope "USER_ORGANIZATION_REPOSITORIES"
    then with_two user_organization_repositories raw.deferrals (non_empty raw.github_user_id)
        (non_empty raw.organization_id)
    else if str_eq scope "REPOSITORY"
    then with_one of_repository raw.deferrals (non_empty raw.repository_id)
    else if str_eq scope "ORGANIZATION_REPOSITORIES"
    then with_one organization_repositories raw.deferrals (non_empty raw.organization_id)
    else none

-- `parseReverifyPayload`, of an object.
unfoldable pub parse_reverify_payload : RawPayload → Option Payload
parse_reverify_payload raw = elim raw.scope [ none ↦ none | some s ↦ parse_scope s raw ]

abbrev raw_of : String → Option (List ℕ) → Option (List ℕ) → Option (List ℕ) → ℕ → RawPayload
raw_of scope u r o deferrals = record {
  scope = some scope;
  github_user_id = u;
  repository_id = r;
  organization_id = o;
  deferrals = deferrals;
}

-- The object that a scope and a count are written as.
unfoldable pub write_payload : ReverifyScope → ℕ → RawPayload
write_payload everything n = raw_of "ALL" none none none n
write_payload (user_repository u r) n = raw_of "USER_REPOSITORY" (some u) (some r) none n
write_payload (user_organization u o) n = raw_of "USER_ORGANIZATION" (some u) none (some o) n
write_payload (user_organization_repositories u o) n =
    raw_of "USER_ORGANIZATION_REPOSITORIES" (some u) none (some o) n
write_payload (of_repository r) n = raw_of "REPOSITORY" none (some r) none n
write_payload (organization_repositories o) n =
    raw_of "ORGANIZATION_REPOSITORIES" none none (some o) n

abbrev access_backoff_base_ms : ℕ
access_backoff_base_ms = 60000

abbrev access_backoff_max_ms : ℕ
access_backoff_max_ms = 3600000

-- `accessBackoffMs`
unfoldable pub access_backoff_ms : ℕ → ℕ
access_backoff_ms deferrals =
    min (access_backoff_base_ms * 2 ^ min deferrals 20) access_backoff_max_ms

-- The two counts of `ReverifySummary` that the handler reads.
pub record Summary : Type 0 where
  pub failed : ℕ
  pub unverifiable : ℕ

-- How a run of the handler ends; to throw consumes an attempt of the job.
pub data Ending : Type 0 where
  finished : Ending
  threw : Ending
  rescheduled : ℕ → RawPayload → Ending

-- The end of `handle`, by what the verification of the scope found.
abbrev pub conclude : Payload → Summary → Ending
conclude p s =
    if ltb 0 s.failed
    then threw
    else if ltb 0 s.unverifiable
    then rescheduled (access_backoff_ms p.deferrals) (write_payload p.scope (p.deferrals + 1))
    else finished

-- `handle`; `reverify_scope` is the service's.
unfoldable pub handle : (ReverifyScope → Summary) → RawPayload → Ending
unfolding access_backoff_ms write_payload
handle reverify_scope raw = elim (parse_reverify_payload raw) [
  | none ↦ finished
  | some p ↦ conclude p (reverify_scope p.scope)
]
