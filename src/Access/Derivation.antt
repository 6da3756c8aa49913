-- ===== src/Access/Derivation.antt =====
-- `deriveRole` of app/src/project-access/project-access.service.ts: which role GitHub entitles to.
use tjc_be_rag_core_api.Base.{
  String, true, false, Option, none, some, List, arith, ◌≡◌, refl, ◌↔◌, find, str_eq, subst,
  Bool-cases, inl, inr,
}
use tjc_be_rag_core_api.Access.{ProjectRole, Binding, Project, is_revoked}
use tjc_be_rag_core_api.Access.Organization.{
  Lookup, ok, not_found, not_installed, unverifiable, GithubAccess, Installation, Membership,
  MembershipRole, owner, member, OrganizationContext, PermissionLevel, resolve,
  resolve_from_installation, resolve_among, resolve_installation, from_membership, context_of,
}
use tjc_be_rag_core_api.Access.Grants.{
  granted, derive_role, role_for_permission, by_organization, by_binding, from_permission,
}

-- The user is an active member, in the role `r`, of the organization of the installation `i`.
pub record IsActive (github : GithubAccess) (org user : String) (i : Installation)
    (r : MembershipRole) : Type 0 where
  pub installations : List Installation
  pub membership : Membership
  pub read : github.installations ≡ ok installations
  pub found : find (λ x. str_eq x.organization_id org) installations ≡ some i
  pub running : i.suspended ≡ false
  pub answered : github.membership i user ≡ ok membership
  pub active : membership.active ≡ true
  pub role : membership.role ≡ r

-- What entitles a user to a role: ownership to Admin, or a permission on the repository of a
-- binding that is not revoked.
pub data Entitled (github : GithubAccess) (p : Project) (org user : String)
    : ProjectRole → Type 0 where
  by_ownership :
      (i : Installation)
      → IsActive github org user i owner
      → Entitled github p org user ProjectRole.admin
  by_permission :
      (i : Installation) (b : Binding) (level : PermissionLevel)
      → IsActive github org user i member
      → p.binding ≡ some b
      → is_revoked b.status ≡ false
      → github.permission i.installation_id b.repository_name user ≡ ok level
      → Entitled github p org user (role_for_permission level)

module _ (github : GithubAccess) (p : Project) (org user : String) where
  permitted :
      (i : Installation) (c : OrganizationContext) (role : ProjectRole)
      → c.installation_id ≡ i.installation_id
      → IsActive github org user i member
      → (o : Option Binding) → p.binding ≡ o
      → by_binding github c o user ≡ granted role
      → Entitled github p org user role
  permitted i c role same a none bound e = cc
  permitted i c role same a (some b) bound e = elim (Bool-cases (is_revoked b.status)) [
    | inl gone ↦ absurd (ground (arith, gone))
    | inr live ↦
        go live (github.permission i.installation_id b.repository_name user) refl
          (ground (arith, live))
  ]
    where
      go :
          is_revoked b.status ≡ false
          → (l : Lookup PermissionLevel)
          → github.permission i.installation_id b.repository_name user ≡ l
          → from_permission l ≡ granted role
          → Entitled github p org user role
      go live (ok level) read v =
          let same_role : role_for_permission level ≡ role = cc in
          subst (Entitled github p org user) same_role
            (Entitled.by_permission i b level a bound live read)
      go live not_found read v = cc
      go live not_installed read v = cc
      go live unverifiable read v = cc

  ranked :
      (i : Installation) (m : Membership) (role : ProjectRole) (r : MembershipRole)
      → m.role ≡ r
      → m.active ≡ true
      → IsActive github org user i r
      → by_organization github (from_membership i (ok m)) p.binding user ≡ granted role
      → Entitled github p org user role
  ranked i m role owner e active a v =
      let same : ProjectRole.admin ≡ role = ground (arith, active, e) in
      subst (Entitled github p org user) same (Entitled.by_ownership i a)
  ranked i m role member e active a v =
      permitted i (context_of i m) role refl a p.binding refl (ground (arith, active, e))

  active_member :
      (role : ProjectRole) (is : List Installation) (i : Installation)
      → github.installations ≡ ok is
      → find (λ x. str_eq x.organization_id org) is ≡ some i
      → i.suspended ≡ false
      → (l : Lookup Membership) → github.membership i user ≡ l
      → by_organization github (from_membership i l) p.binding user ≡ granted role
      → Entitled github p org user role
  active_member role is i read found running (ok m) answered v = elim (Bool-cases m.active) [
    | inl active ↦
        ranked i m role m.role refl active
          (record {
            installations = is;
            membership = m;
            read = read;
            found = found;
            running = running;
            answered = answered;
            active = active;
            role = refl;
          })
          v
    | inr other ↦ absurd (ground (arith, other))
  ]
  active_member role is i read found running not_found answered v = cc
  active_member role is i read found running not_installed answered v = cc
  active_member role is i read found running unverifiable answered v = cc

  of_installation :
      (role : ProjectRole) (is : List Installation)
      → github.installations ≡ ok is
      → (o : Option Installation) → find (λ x. str_eq x.organization_id org) is ≡ o
      → by_organization github (resolve_installation github o user) p.binding user ≡ granted role
      → Entitled github p org user role
  unfolding resolve_from_installation
  of_installation role is read none found v = cc
  of_installation role is read (some i) found v = elim (Bool-cases i.suspended) [
    | inl out ↦ absurd (ground (arith, out))
    | inr running ↦
        active_member role is i read found running (github.membership i user) refl
          (ground (arith, running))
  ]

  of_installations :
      (role : ProjectRole) (l : Lookup (List Installation))
      → github.installations ≡ l
      → by_organization github (resolve_among github l org user) p.binding user ≡ granted role
      → Entitled github p org user role
  of_installations role (ok is) read v =
      of_installation role is read (find (λ x. str_eq x.organization_id org) is) refl v
  of_installations role not_found read v = cc
  of_installations role not_installed read v = cc
  of_installations role unverifiable read v = cc

  Entitled-derive_role :
      (role : ProjectRole)
      → Entitled github p org user role
      → derive_role github p org user ≡ granted role
  unfolding derive_role resolve resolve_from_installation
  Entitled-derive_role role (Entitled.by_ownership i a) =
      ground (arith, a.read, a.found, a.running, a.answered, a.active, a.role)
  Entitled-derive_role role (Entitled.by_permission i b level a bound live read) =
      ground (arith, a.read, a.found, a.running, a.answered, a.active, a.role, bound, live, read)

  -- `deriveRole` grants a role exactly to those whom GitHub entitles to it: Admin to an owner of
  -- the organization, and the role of his repository permission to another active member, if the
  -- project has a binding that is not revoked; both only through an installation that is not
  -- suspended.
  pub derive_role-Entitled :
      (role : ProjectRole)
      → (derive_role github p org user ≡ granted role) ↔ Entitled github p org user role
  unfolding derive_role resolve
  derive_role-Entitled role =
      (of_installations role github.installations refl, Entitled-derive_role role)
