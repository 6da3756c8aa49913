-- ===== src/Access/Candidates.antt =====
-- `listMemberOrganizations` of app/src/project-access/organization-access.resolver.ts and
-- `syncOrganizationProjects` of app/src/project-access/project-access.service.ts: work on a budget.
use tjc_be_rag_core_api.Base.{
  ℕ, String, Bool, true, false, not, ◌&&◌, ◌||◌, List, [], ◌∷◌, ◌++◌, if◌then◌else◌, str_eq, ltb,
  ◌==◌, codes, take, drop, keep,
}
use tjc_be_rag_core_api.Access.{Store, Project}
use tjc_be_rag_core_api.Access.Organization.{
  Lookup, ok, GithubAccess, Installation, OrganizationContext, OrganizationResolution, resolved,
  unresolved, resolve_from_installation,
}
use tjc_be_rag_core_api.Access.Grants.{Transaction, grant_on_entry}

abbrev verification_budget : ℕ
verification_budget = 50

-- `<` on strings, by code units.
unfoldable text_lt : List ℕ → List ℕ → Bool
text_lt [] [] = false
text_lt [] (c ∷ cs) = true
text_lt (c ∷ cs) [] = false
text_lt (c ∷ cs) (d ∷ ds) = ltb c d || (c == d && text_lt cs ds)

-- A later installation of an organization takes the place of an earlier one, as in a Map.
abbrev put_installation : Installation → List Installation → List Installation
put_installation i [] = i ∷ []
put_installation i (j ∷ js) =
    let rest = put_installation i js in
    if str_eq j.organization_id i.organization_id then i ∷ js else j ∷ rest

abbrev put_all : List Installation → List Installation → List Installation
put_all [] done = done
put_all (i ∷ is) done = put_all is (put_installation i done)

-- `uniqueByOrganization`
unfoldable pub unique_by_organization : List Installation → List Installation
unique_by_organization is = put_all is []

-- `MemberOrganizations`
pub data MemberOrganizations : Type 0 where
  listed : List OrganizationContext → List Installation → MemberOrganizations
  unlisted : MemberOrganizations

module _ (lower : String → String) where
  -- Whether `byLogin` sorts `a` before `b`; `lower` is `toLowerCase`.
  unfoldable pub by_login : Installation → Installation → Bool
  unfolding text_lt
  by_login a b =
      let left = lower a.organization_login in
      let right = lower b.organization_login in
      if str_eq left right
      then text_lt (codes a.organization_id) (codes b.organization_id)
      else text_lt (codes left) (codes right)

  abbrev insert_sorted : Installation → List Installation → List Installation
  insert_sorted i [] = i ∷ []
  insert_sorted i (j ∷ js) =
      let rest = insert_sorted i js in if by_login j i then j ∷ rest else i ∷ j ∷ js

  abbrev pub sort_installations : List Installation → List Installation
  sort_installations [] = []
  sort_installations (i ∷ is) = insert_sorted i (sort_installations is)

module _ (github : GithubAccess) (user : String) where
  abbrev is_unresolved : OrganizationResolution → Bool
  is_unresolved unresolved = true
  is_unresolved _ = false

  abbrev pub member_of : OrganizationResolution → List OrganizationContext
  member_of (resolved c) = c ∷ []
  member_of _ = []

  abbrev pub members : List Installation → List OrganizationContext
  members [] = []
  members (i ∷ is) = member_of (resolve_from_installation github i user) ++ members is

  abbrev list_sorted : List Installation → MemberOrganizations
  list_sorted all' =
      let suspended = keep (λ i. i.suspended) all' in
      let candidates = keep (λ i. not i.suspended) all' in
      let checked = take verification_budget candidates in
      listed (members checked) (
        (suspended ++ drop verification_budget candidates)
        ++ keep (λ i. is_unresolved (resolve_from_installation github i user)) checked)

  abbrev pub list_found : (String → String) → Lookup (List Installation) → MemberOrganizations
  list_found lower (ok is) = list_sorted (sort_installations lower (unique_by_organization is))
  list_found lower _ = unlisted

  -- `listMemberOrganizations`
  unfoldable pub list_member_organizations : (String → String) → MemberOrganizations
  list_member_organizations lower = list_found lower github.installations

-- The verifications run at most five at a time; here one ends before the next begins, and what
-- else they meet is in the transaction of each.
abbrev grant_each : (String → Transaction) → String → String → List Project → Store → Store
grant_each transaction user_id github_user_id [] s = s
grant_each transaction user_id github_user_id (p ∷ ps) s =
    grant_each transaction user_id github_user_id ps
      ((grant_on_entry (transaction p.id) p.id user_id github_user_id s).0)

-- `syncOrganizationProjects`, of the candidates that `findUnseenOrganizationProjects` reads.
unfoldable sync_organization_projects :
    (String → Transaction) → String → String → List Project → Store → Store
sync_organization_projects transaction user_id github_user_id candidates s =
    grant_each transaction user_id github_user_id (take verification_budget candidates) s
