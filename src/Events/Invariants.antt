-- ===== src/Events/Invariants.antt =====
-- The events of GitHub, in app/src/github-webhooks: a property that each effect keeps, every event
-- keeps.
use tjc_be_rag_core_api.Base.{
  refl, String, not, ◌||◌, Option, none, some, List, [], ◌∷◌, if◌then◌else◌, str_eq, is_text, ◌==◌,
  any, codes,
}
use tjc_be_rag_core_api.Errors.{Response, answer}
use tjc_be_rag_core_api.Access.{is_personal}
use tjc_be_rag_core_api.Identity.{Link}
use tjc_be_rag_core_api.Lifecycle.{expected_owner_id}
use tjc_be_rag_core_api.Organizations.{
  ProjectFaults, suspend_by_installation, unsuspend_by_installation,
}
use tjc_be_rag_core_api.Reverify.{of_repository, parse_reverify_payload, write_payload}
use tjc_be_rag_core_api.Events.{Desk, github_id_of, among, enqueue, hide_organization}
use tjc_be_rag_core_api.Events.Bindings.{
  RepositoryPayload, BoundProject, find_bound, slash, update_repository_name, apply_name,
  revoke_bound, is_foreign, transfer_to, handle_bound, handle_known, handle_repository,
  InstallationPayload, find_by_installation, revoke_isolated, handle_installation, revoke_if_of,
  remove_repositories, handle_installation_repositories,
}
use tjc_be_rag_core_api.Events.Effects.{
  GithubEvent, of_access, of_repository_event, of_installation, of_installation_repositories,
  handle_event, IsKept, IsId, github_id_of-IsId, one_id, IsBoundTo, find_bound-IsBoundTo, if-Has,
  either-Has,
}
use tjc_be_rag_core_api.Events.Accesses.{hide-Has, handle_access-Has}

module _ (H : Desk → Type 0) (faults : ProjectFaults) (links : List Link)
    (k : IsKept faults H) where
  apply_name-Has :
      (b : BoundProject) (p : RepositoryPayload) (d : Desk) → H d → H (apply_name b p d)
  unfolding apply_name
  apply_name-Has b p d h =
      if-Has H
        (not (any (λ c. c == slash) (codes p.full_name))
          || str_eq p.full_name b.binding.repository_name)
        d
        (record d {
          world = record d.world {
            store = update_repository_name b.project.id p.full_name d.world.store;
          };
        })
        h (k.renamed_repository b.project.id p.full_name d h)

  transfer-Has :
      (owner : Option String) (b : BoundProject) (p : RepositoryPayload) (d : Desk)
      → H d
      → H (transfer_to faults links owner b p d).0
  unfolding transfer_to
  transfer-Has none b p d h = h
  transfer-Has (some owner) b p d h =
      either-Has H (is_foreign owner (expected_owner_id b.project links)) (revoke_bound faults b d)
        (apply_name b p d, answer tt) (k.revoked_bound b d h) (apply_name-Has b p d h)

  bound-Has :
      (o : Option BoundProject) (p : RepositoryPayload) (d : Desk)
      → H d
      → IsBoundTo o
      → H (handle_bound faults links o p d).0
  unfolding handle_bound IsBoundTo parse_reverify_payload write_payload
  bound-Has none p d h good = h
  bound-Has (some b) p d h good =
      let queued = enqueue (of_repository (codes b.binding.repository_id)) d in
      let privatized : Desk × Response Unit =
        if is_personal b.project then (d, answer tt) else (queued, answer tt) in
      let transferred : Desk × Response Unit =
        if str_eq p.action "transferred"
        then transfer_to faults links (github_id_of p.owner_id) b p d
        else privatized in
      let deleted : Desk × Response Unit =
        if str_eq p.action "deleted" then revoke_bound faults b d else transferred in
      either-Has H (str_eq p.action "renamed") (apply_name b p d, answer tt) deleted
        (apply_name-Has b p d h)
        (either-Has H (str_eq p.action "deleted") (revoke_bound faults b d) transferred
          (k.revoked_bound b d h)
          (either-Has H (str_eq p.action "transferred")
            (transfer_to faults links (github_id_of p.owner_id) b p d) privatized
            (transfer-Has (github_id_of p.owner_id) b p d h)
            (either-Has H (is_personal b.project) (d, answer tt) (queued, answer tt) h
              (k.enqueued (of_repository (codes b.binding.repository_id)) d
                (one_id of_repository (λ c cs. refl) (codes b.binding.repository_id) good) h))))

  known-Has :
      (o : Option String) (p : RepositoryPayload) (d : Desk)
      → IsId o
      → H d
      → H (handle_known faults links o p d).0
  unfolding handle_known IsId
  known-Has none p d a h = h
  known-Has (some id) p d a h =
      bound-Has (find_bound id d.world.store) p d h (find_bound-IsBoundTo id d.world.store a)

  handle_repository-Has :
      (p : RepositoryPayload) (d : Desk) → H d → H (handle_repository faults links p d).0
  unfolding handle_repository
  handle_repository-Has p d h =
      let id = github_id_of p.repository_id in
      either-Has H (among ("renamed" ∷ "transferred" ∷ "deleted" ∷ "privatized" ∷ []) p.action)
        (handle_known faults links id p d) (d, answer tt)
        (known-Has id p d (github_id_of-IsId p.repository_id) h) h

  revoke_isolated-Has : (bs : List BoundProject) (d : Desk) → H d → H (revoke_isolated faults bs d)
  unfolding revoke_isolated
  revoke_isolated-Has [] d h = h
  revoke_isolated-Has (b ∷ bs) d h =
      revoke_isolated-Has bs (revoke_bound faults b d).0 (k.revoked_bound b d h)

  handle_installation-Has :
      (p : InstallationPayload) (d : Desk) → H d → H (handle_installation faults p d)
  unfolding handle_installation suspend_by_installation unsuspend_by_installation
  handle_installation-Has p d h =
      let account =
        if is_text p.account_type "Organization" then github_id_of p.account_id else none in
      let bs = find_by_installation p.installation_id d.world.store.projects in
      let suspended : Desk = record d {
        world = record d.world { store = suspend_by_installation p.installation_id d.world.store };
      } in
      let resumed : Desk = record d {
        world = record d.world {
          store = unsuspend_by_installation p.installation_id d.world.store;
        };
      } in
      let after_resume : Desk = if str_eq p.action "unsuspend" then resumed else d in
      let after_suspend : Desk = if str_eq p.action "suspend" then suspended else after_resume in
      if-Has H (str_eq p.action "deleted")
        (hide_organization faults account (revoke_isolated faults bs d)).0 after_suspend
        (hide-Has H faults k account (revoke_isolated faults bs d) (revoke_isolated-Has bs d h))
        (if-Has H (str_eq p.action "suspend") suspended after_resume
          (k.suspended p.installation_id d h)
          (if-Has H (str_eq p.action "unsuspend") resumed d (k.resumed p.installation_id d h) h))

  revoke_if-Has :
      (id : String) (o : Option BoundProject) (d : Desk) → H d → H (revoke_if_of faults id o d)
  unfolding revoke_if_of
  revoke_if-Has id none d h = h
  revoke_if-Has id (some b) d h =
      if-Has H (str_eq b.binding.installation_id id) (revoke_bound faults b d).0 d
        (k.revoked_bound b d h) h

  remove_repositories-Has :
      (id : String) (removed : List String) (d : Desk)
      → H d
      → H (remove_repositories faults id removed d)
  unfolding remove_repositories
  remove_repositories-Has id [] d h = h
  remove_repositories-Has id (r ∷ removed) d h =
      let o = find_bound r d.world.store in
      remove_repositories-Has id removed (revoke_if_of faults id o d) (revoke_if-Has id o d h)

  -- What each effect of an event keeps, every event keeps.
  pub handle_event-Has : (e : GithubEvent) (d : Desk) → H d → H (handle_event faults links e d)
  unfolding handle_event handle_installation_repositories
  handle_event-Has (of_access name p) d h = handle_access-Has H faults k name p d h
  handle_event-Has (of_repository_event p) d h = handle_repository-Has p d h
  handle_event-Has (of_installation p) d h = handle_installation-Has p d h
  handle_event-Has (of_installation_repositories action id removed) d h =
      if-Has H (str_eq action "removed") (remove_repositories faults id removed d) d
        (remove_repositories-Has id removed d h) h
