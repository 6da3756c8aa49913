-- ===== src/Events/Accesses.antt =====
-- app/src/github-webhooks/access-events.service.ts: a property that each effect keeps, every event of
-- access keeps.
use tjc_be_rag_core_api.Base.{
  refl, String, Option, none, some, [], ◌∷◌, if◌then◌else◌, str_eq, codes,
}
use tjc_be_rag_core_api.Errors.{Response, answer}
use tjc_be_rag_core_api.Organizations.{live_projects_of, ProjectFaults}
use tjc_be_rag_core_api.Reverify.{
  ReverifyScope, of_repository, user_repository, user_organization, user_organization_repositories,
  organization_repositories, parse_reverify_payload, write_payload,
}
use tjc_be_rag_core_api.Events.{
  AccessEventName, member, membership, organization, team, AccessPayload, Desk, github_id_of, among,
  has_live_organization_project, is_nonempty, enqueue, enqueue_for_repository,
  enqueue_for_organization, enqueue_member, handle_member, enqueue_membership, handle_membership,
  enqueue_removed, is_blank, store_login, hide_organization, handle_organization, enqueue_team,
  handle_team, handle_access,
}
use tjc_be_rag_core_api.Events.Effects.{
  IsReadable, IsKept, IsId, github_id_of-IsId, one_id, two_ids, if-Has, either-Has,
}

module _ (H : Desk → Type 0) (faults : ProjectFaults) (k : IsKept faults H) where
  for_repository-Has :
      (scope : ReverifyScope) (r : String) (d : Desk)
      → IsReadable scope
      → H d
      → H (enqueue_for_repository scope r d)
  unfolding enqueue_for_repository
  for_repository-Has scope r d good h =
      if-Has H (has_live_organization_project r d.world.store) (enqueue scope d) d
        (k.enqueued scope d good h) h

  for_organization-Has :
      (scope : ReverifyScope) (o : String) (d : Desk)
      → IsReadable scope
      → H d
      → H (enqueue_for_organization scope o d)
  unfolding enqueue_for_organization
  for_organization-Has scope o d good h =
      if-Has H (is_nonempty (live_projects_of o d.world.store)) (enqueue scope d) d
        (k.enqueued scope d good h) h

  pub hide-Has : (o : Option String) (d : Desk) → H d → H (hide_organization faults o d).0
  unfolding hide_organization
  hide-Has none d h = h
  hide-Has (some o) d h = k.hidden o d h

  member-Has : (u r : Option String) (d : Desk) → IsId u → IsId r → H d → H (enqueue_member u r d)
  unfolding enqueue_member IsId parse_reverify_payload write_payload
  member-Has none r d a b h = h
  member-Has (some u) none d a b h = h
  member-Has (some u) (some r) d a b h =
      for_repository-Has (user_repository (codes u) (codes r)) r d
        (two_ids user_repository (λ c cs x xs. refl) (codes u) (codes r) a b) h

  membership-Has :
      (u o : Option String) (d : Desk) → IsId u → IsId o → H d → H (enqueue_membership u o d)
  unfolding enqueue_membership IsId parse_reverify_payload write_payload
  membership-Has none o d a b h = h
  membership-Has (some u) none d a b h = h
  membership-Has (some u) (some o) d a b h =
      for_organization-Has (user_organization_repositories (codes u) (codes o)) o d
        (two_ids user_organization_repositories (λ c cs x xs. refl) (codes u) (codes o) a b) h

  removed-Has : (u o : Option String) (d : Desk) → IsId u → IsId o → H d → H (enqueue_removed u o d)
  unfolding enqueue_removed IsId parse_reverify_payload write_payload
  removed-Has none o d a b h = h
  removed-Has (some u) none d a b h = h
  removed-Has (some u) (some o) d a b h =
      for_organization-Has (user_organization (codes u) (codes o)) o d
        (two_ids user_organization (λ c cs x xs. refl) (codes u) (codes o) a b) h

  team-Has : (r o : Option String) (d : Desk) → IsId r → IsId o → H d → H (enqueue_team r o d)
  unfolding enqueue_team IsId parse_reverify_payload write_payload
  team-Has (some r) o d a b h =
      for_repository-Has (of_repository (codes r)) r d
        (one_id of_repository (λ c cs. refl) (codes r) a) h
  team-Has none (some o) d a b h =
      for_organization-Has (organization_repositories (codes o)) o d
        (one_id organization_repositories (λ c cs. refl) (codes o) b) h
  team-Has none none d a b h = h

  login-Has : (o login : Option String) (d : Desk) → H d → H (store_login o login d)
  login-Has none login d h = h
  login-Has (some o) none d h = h
  login-Has (some o) (some login) d h =
      if-Has H (is_blank login) d (record d { logins = (o, login) ∷ d.logins }) h
        (k.logged o login d h)

  handle_organization-Has :
      (p : AccessPayload) (d : Desk) → H d → H (handle_organization faults p d).0
  unfolding handle_organization
  handle_organization-Has p d h =
      let user = github_id_of p.membership_user_id in
      let org = github_id_of p.organization_id in
      let gone = hide_organization faults org d in
      let after_deleted : Desk × Response Unit =
        if str_eq p.action "deleted" then gone else (d, answer tt) in
      let after_renamed : Desk × Response Unit =
        if str_eq p.action "renamed"
        then (store_login org p.organization_login d, answer tt)
        else after_deleted in
      either-Has H (str_eq p.action "member_removed") (enqueue_removed user org d, answer tt)
        after_renamed
        (removed-Has user org d (github_id_of-IsId p.membership_user_id)
          (github_id_of-IsId p.organization_id) h)
        (either-Has H (str_eq p.action "renamed")
          (store_login org p.organization_login d, answer tt) after_deleted
          (login-Has org p.organization_login d h)
          (either-Has H (str_eq p.action "deleted") gone (d, answer tt) (hide-Has org d h) h))

  pub handle_access-Has :
      (name : AccessEventName) (p : AccessPayload) (d : Desk)
      → H d
      → H (handle_access faults name p d).0
  unfolding handle_access handle_member handle_membership handle_team
  handle_access-Has member p d h =
      let u = github_id_of p.member_id in
      let r = github_id_of p.repository_id in
      if-Has H (among ("added" ∷ "edited" ∷ "removed" ∷ []) p.action) (enqueue_member u r d) d
        (member-Has u r d (github_id_of-IsId p.member_id) (github_id_of-IsId p.repository_id) h) h
  handle_access-Has membership p d h =
      let u = github_id_of p.member_id in
      let o = github_id_of p.organization_id in
      if-Has H (among ("added" ∷ "removed" ∷ []) p.action) (enqueue_membership u o d) d
        (membership-Has u o d (github_id_of-IsId p.member_id) (github_id_of-IsId p.organization_id)
          h)
        h
  handle_access-Has organization p d h = handle_organization-Has p d h
  handle_access-Has team p d h =
      let r = github_id_of p.repository_id in
      let o = github_id_of p.organization_id in
      if-Has H
        (among ("added_to_repository" ∷ "removed_from_repository" ∷ "edited" ∷ "deleted" ∷ [])
          p.action)
        (enqueue_team r o d) d
        (team-Has r o d (github_id_of-IsId p.repository_id) (github_id_of-IsId p.organization_id) h)
        h
