-- ===== src/Identity.antt =====
-- app/src/common/auth/github-identity.service.ts and user-github-identities.repository.ts: the link
-- of a user to a GitHub account.
pub mod Links
mod Tests
use tjc_be_rag_core_api.Base.{
  String, Bool, true, false, ◌||◌, Option, none, some, List, [], ◌∷◌, if◌then◌else◌, str_eq, any,
  find,
}
use tjc_be_rag_core_api.Errors.{
  Response, answer, throws, identity_unavailable, github_identity_required, internal_error,
  unauthorized, unavailable, internal,
}

-- A row of `user_github_identities`: `userId` is its key, and `githubUserId` is unique.
pub record Link : Type 0 where
  pub user_id : String
  pub github_user_id : String
  pub github_login : Option String

-- The configuration that the service reads.
pub record Config : Type 0 where
  pub bypass : Bool
  pub production : Bool
  pub bypass_user_id : Option String

-- What the port of the session's provider answers.
pub record GithubAccount : Type 0 where
  pub account_id : String
  pub login : Option String

pub data Account : Type 0 where
  account : GithubAccount → Account
  no_account : Account
  unreachable : Account

-- `findByUserId`
unfoldable pub find_by_user_id : String → List Link → Option Link
find_by_user_id user links = find (λ l. str_eq l.user_id user) links

-- `findByGithubUserId`
unfoldable find_by_github_user_id : String → List Link → Option Link
find_by_github_user_id github_user_id links =
    find (λ l. str_eq l.github_user_id github_user_id) links

-- `create`, unless a unique index forbids it.
abbrev pub is_taken : Link → List Link → Bool
is_taken new links =
    any (λ l. str_eq l.user_id new.user_id || str_eq l.github_user_id new.github_user_id) links

unfoldable pub insert_link : Link → List Link → Option (List Link)
insert_link new links = if is_taken new links then none else some (new ∷ links)

abbrev pub prefer : Option Link → Response String
prefer none = throws (unauthorized github_identity_required)
prefer (some l) = answer l.github_user_id

-- The end of `persist`: the new link, or the one that won the race.
abbrev pub persisted : Link → Option (List Link) → List Link → List Link × Response String
persisted new (some links') links = (links', answer new.github_user_id)
persisted new none links = (links, prefer (find_by_user_id new.user_id links))

-- `persist`
unfoldable pub persist : Link → List Link → List Link × Response String
persist new links = persisted new (insert_link new links) links

-- `syntheticBypassIdentity`
unfoldable pub synthetic_bypass_identity : Config → Response String
synthetic_bypass_identity c =
    if c.production
    then throws (internal internal_error)
    else elim c.bypass_user_id [ none ↦ throws (internal internal_error) | some g ↦ answer g ]

-- `meanwhile` is what other requests commit while the provider is asked.
module _ (c : Config) (provider : String → Account) (meanwhile : List Link → List Link) where
  abbrev pub resolve_account : String → Account → List Link → List Link × Response String
  resolve_account user (account a) links =
      persist (record { user_id = user; github_user_id = a.account_id; github_login = a.login })
        (meanwhile links)
  resolve_account user no_account links =
      (meanwhile links, throws (unauthorized github_identity_required))
  resolve_account user unreachable links =
      (meanwhile links, throws (unavailable identity_unavailable))

  abbrev pub resolve_link : String → Option Link → List Link → List Link × Response String
  resolve_link user (some l) links = (links, answer l.github_user_id)
  resolve_link user none links = resolve_account user (provider user) links

  -- `resolve`
  unfoldable pub resolve_identity : String → List Link → List Link × Response String
  resolve_identity user links =
      if c.bypass
      then (links, synthetic_bypass_identity c)
      else resolve_link user (find_by_user_id user links) links

  -- `findGithubLogin`
  unfoldable find_github_login : String → List Link → Option String
  find_github_login user links =
      if c.bypass
      then none
      else elim (find_by_user_id user links) [ none ↦ none | some l ↦ l.github_login ]
