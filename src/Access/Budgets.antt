-- ===== src/Access/Budgets.antt =====
-- `listMemberOrganizations` of app/src/project-access/organization-access.resolver.ts: what it
-- offers.
use tjc_be_rag_core_api.Base.{
  ◌≤◌, String, false, not, List, [], ◌∷◌, ◌++◌, arith, ◌≡◌, refl, subst, take, keep, All,
  All-append, All-take, All-keep, length, length-take, suc,
}
use tjc_be_rag_core_api.Access.Organization.{
  Lookup, ok, not_found, not_installed, unverifiable, GithubAccess, Installation,
  OrganizationContext, OrganizationResolution, resolved, not_member, app_not_installed, unresolved,
  resolve_from_installation,
}
use tjc_be_rag_core_api.Access.Candidates.{
  listed, members, member_of, list_found, list_member_organizations, sort_installations,
  unique_by_organization,
}

-- An organization that is offered is one of an installation that is not suspended and in which the
-- user's active membership was read.
pub record IsVerified (github : GithubAccess) (user : String) (c : OrganizationContext)
    : Type 0 where
  pub installation : Installation
  pub running : installation.suspended ≡ false
  pub confirmed : resolve_from_installation github installation user ≡ resolved c

module _ (github : GithubAccess) (user : String) where
  members-IsVerified :
      (is : List Installation)
      → All (λ i. i.suspended ≡ false) is
      → All (IsVerified github user) (members github user is)
  members-IsVerified [] h = tt
  members-IsVerified (i ∷ is) (h, hs) =
      All-append (IsVerified github user)
        (member_of github user (resolve_from_installation github i user)) (members github user is)
        (one (resolve_from_installation github i user) refl) (members-IsVerified is hs)
    where
      one :
          (r : OrganizationResolution)
          → resolve_from_installation github i user ≡ r
          → All (IsVerified github user) (member_of github user r)
      one (resolved c) e = (record { installation = i; running = h; confirmed = e }, tt)
      one not_member e = tt
      one app_not_installed e = tt
      one unresolved e = tt

  members-length : (is : List Installation) → length (members github user is) ≤ length is
  members-length [] = omega arith
  members-length (i ∷ is) = one (resolve_from_installation github i user) (members-length is)
    where
      one :
          (r : OrganizationResolution)
          → length (members github user is) ≤ length is
          → length (member_of github user r ++ members github user is) ≤ suc (length is)
      one (resolved c) le = omega arith
      one not_member le = omega arith
      one app_not_installed le = omega arith
      one unresolved le = omega arith

  -- Every organization that is offered was verified: its installation is not suspended and the
  -- user's active membership was read; at most fifty are offered.
  list_member_organizations-IsVerified :
      (lower : String → String) (cs : List OrganizationContext) (us : List Installation)
      → list_member_organizations github user lower ≡ listed cs us
      → All (IsVerified github user) cs × (length cs ≤ 50)
  unfolding list_member_organizations
  list_member_organizations-IsVerified lower cs us e = of_lookup github.installations e
    where
      of_lookup :
          (l : Lookup (List Installation))
          → list_found github user lower l ≡ listed cs us
          → All (IsVerified github user) cs × (length cs ≤ 50)
      of_lookup (ok is) v =
          let sorted = sort_installations lower (unique_by_organization is) in
          let candidates = keep (λ i. not i.suspended) sorted in
          let checked = take 50 candidates in
          let live =
            All-keep (λ i. i.suspended ≡ false) (λ i. not i.suspended) (λ i e. ground arith)
              sorted in
          let same : members github user checked ≡ cs = cc in
          subst (λ x. All (IsVerified github user) x × (length x ≤ 50)) same
            (
              members-IsVerified checked (All-take (λ i. i.suspended ≡ false) 50 candidates live),
              omega (arith, members-length checked, length-take 50 candidates),
            )
      of_lookup not_found v = cc
      of_lookup not_installed v = cc
      of_lookup unverifiable v = cc
