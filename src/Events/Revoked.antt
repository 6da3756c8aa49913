-- ===== src/Events/Revoked.antt =====
-- `installation.deleted` in app/src/github-webhooks/github-webhooks.service.ts: the bindings that it
-- leaves.
use tjc_be_rag_core_api.Base.{
  String, Bool, true, false, not, ◌&&◌, Option, none, some, List, [], ◌∷◌, map, if◌then◌else◌,
  str_eq, is_text, any, All, arith, ◌≡◌, refl, sym, subst, ◌⊎◌, inl, inr, Bool-cases, str_eq_refl,
}
use tjc_be_rag_core_api.Access.{
  BindingStatus, revoked, Binding, Project, is_revoked, is_bound, lock_binding_status,
}
use tjc_be_rag_core_api.Lifecycle.{
  World, Faults, with_status, update_project, update_status, user_ids, drop_access, revoke_binding,
  hide_with, hide_project,
}
use tjc_be_rag_core_api.Lifecycle.Bindings.{drop_users-projects}
use tjc_be_rag_core_api.Organizations.{live_projects_of, ProjectFaults, hide_each, hidden_all, hide}
use tjc_be_rag_core_api.Events.{Desk, github_id_of, in_world, hide_organization}
use tjc_be_rag_core_api.Events.Bindings.{
  BoundProject, revoke_bound, InstallationPayload, with_bound, find_by_installation,
  revoke_isolated, handle_installation,
}

abbrev pub is_of_installation : String → Option Binding → Bool
is_of_installation installation_id none = false
is_of_installation installation_id (some b) = str_eq b.installation_id installation_id

module _ (installation_id : String) where
  -- A binding that is still to be revoked is one of the list.
  abbrev is_due : Project → BoundProject → Bool
  is_due p b = str_eq p.id b.project.id && not (is_revoked b.binding.status)

  IsPending : List BoundProject → Project → Type 0
  IsPending bs p =
      is_of_installation installation_id p.binding ≡ true
      → (is_bound p.binding ≡ false) ⊎ (any (is_due p) bs ≡ true)

  IsPending-more :
      (b : BoundProject) (bs : List BoundProject) (ps : List Project)
      → All (IsPending bs) ps
      → All (IsPending (b ∷ bs)) ps
  unfolding IsPending
  IsPending-more b bs [] h = tt
  IsPending-more b bs (p ∷ ps) (h, hs) = (λ mine. go (h mine), IsPending-more b bs ps hs)
    where
      go :
          (is_bound p.binding ≡ false) ⊎ (any (is_due p) bs ≡ true)
          → (is_bound p.binding ≡ false) ⊎ (any (is_due p) (b ∷ bs) ≡ true)
      go (inl unbound) = inl unbound
      go (inr due) = inr (ground (arith, due))

  head-IsPending :
      (p : Project) (o : Option Binding) (bs : List BoundProject)
      → is_of_installation installation_id o ≡ true
      → (is_bound o ≡ false) ⊎ (any (is_due p) (with_bound installation_id p o bs) ≡ true)
  head-IsPending p none bs mine = inl refl
  head-IsPending p (some b) bs mine = elim (Bool-cases (is_revoked b.status)) [
    | inl gone ↦ inl (ground (arith, gone))
    | inr live ↦ inr (ground (arith, mine, live, str_eq_refl p.id))
  ]

  rest-IsPending :
      (p : Project) (o : Option Binding) (bs : List BoundProject) (ps : List Project)
      → All (IsPending bs) ps
      → All (IsPending (with_bound installation_id p o bs)) ps
  rest-IsPending p none bs ps h = h
  rest-IsPending p (some b) bs ps h = go (str_eq b.installation_id installation_id)
    where
      go :
          (mine : Bool)
          → All (IsPending (if mine then record { project = p; binding = b } ∷ bs else bs)) ps
      go true = IsPending-more (record { project = p; binding = b }) bs ps h
      go false = h

  find_by_installation-IsPending :
      (ps : List Project) → All (IsPending (find_by_installation installation_id ps)) ps
  unfolding find_by_installation IsPending
  find_by_installation-IsPending [] = tt
  find_by_installation-IsPending (p ∷ ps) =
      let bs = find_by_installation installation_id ps in
      (
        head-IsPending p p.binding bs,
        rest-IsPending p p.binding bs ps (find_by_installation-IsPending ps),
      )

  -- A revocation takes its project off the list.
  step-IsPending :
      (b : BoundProject) (bs : List BoundProject) (ps : List Project)
      → is_revoked b.binding.status ≡ false
      → All (IsPending (b ∷ bs)) ps
      → All (IsPending bs) (map (update_project b.project.id revoked) ps)
  unfolding IsPending
  step-IsPending b bs [] live h = tt
  step-IsPending b bs (p ∷ ps) live (h, hs) =
      (go (str_eq p.id b.project.id) refl, step-IsPending b bs ps live hs)
    where
      unbound : (o : Option Binding) → is_bound (with_status revoked o) ≡ false
      unbound none = refl
      unbound (some c) = refl

      left :
          str_eq p.id b.project.id ≡ false
          → (is_bound p.binding ≡ false) ⊎ (any (is_due p) (b ∷ bs) ≡ true)
          → (is_bound p.binding ≡ false) ⊎ (any (is_due p) bs ≡ true)
      left other (inl gone) = inl gone
      left other (inr due) = inr (ground (arith, due, other))

      go :
          (x : Bool)
          → str_eq p.id b.project.id ≡ x
          → (let q : Project =
                if x then record p { binding = with_status revoked p.binding } else p in
              is_of_installation installation_id q.binding ≡ true
              → (is_bound q.binding ≡ false) ⊎ (any (is_due q) bs ≡ true))
      go true e mine = inl (unbound p.binding)
      go false e mine = left e (h mine)

  skip-IsPending :
      (b : BoundProject) (bs : List BoundProject) (ps : List Project)
      → is_revoked b.binding.status ≡ true
      → All (IsPending (b ∷ bs)) ps
      → All (IsPending bs) ps
  unfolding IsPending
  skip-IsPending b bs [] gone h = tt
  skip-IsPending b bs (p ∷ ps) gone (h, hs) = (λ mine. go (h mine), skip-IsPending b bs ps gone hs)
    where
      go :
          (is_bound p.binding ≡ false) ⊎ (any (is_due p) (b ∷ bs) ≡ true)
          → (is_bound p.binding ≡ false) ⊎ (any (is_due p) bs ≡ true)
      go (inl unbound) = inl unbound
      go (inr due) = inr (ground (arith, due, gone))

  drop_access-projects :
      (faults : Faults) (id : String) (include_admin : Bool) (w : World)
      → ((drop_access faults id include_admin w).0).store.projects ≡ w.store.projects
  unfolding drop_access user_ids
  drop_access-projects faults id include_admin w =
      drop_users-projects faults id (user_ids include_admin id w.store) (w.store, false)

  -- A drop after a change of the table leaves the projects of the change.
  dropped-IsPending :
      (faults : Faults) (id : String) (include_admin : Bool) (bs : List BoundProject) (w : World)
      → All (IsPending bs) w.store.projects
      → All (IsPending bs) ((drop_access faults id include_admin w).0).store.projects
  dropped-IsPending faults id include_admin bs w h =
      subst (All (IsPending bs)) (sym (drop_access-projects faults id include_admin w)) h

  revoke_bound-IsPending :
      (faults : ProjectFaults) (b : BoundProject) (bs : List BoundProject) (d : Desk)
      → All (IsPending (b ∷ bs)) d.world.store.projects
      → All (IsPending bs) (revoke_bound faults b d).0.world.store.projects
  unfolding revoke_bound revoke_binding update_status
  revoke_bound-IsPending faults b bs d h = go (is_revoked b.binding.status) refl
    where
      go :
          (x : Bool)
          → is_revoked b.binding.status ≡ x
          → All
              (IsPending bs)
              ((drop_access (faults b.project.id) b.project.id false (
                  if x then d.world else record d.world {
                    store = update_status b.project.id revoked d.world.store;
                  })).0
                ).store.projects
      go true e =
          dropped-IsPending (faults b.project.id) b.project.id false bs d.world
            (skip-IsPending b bs d.world.store.projects e h)
      go false e =
          dropped-IsPending (faults b.project.id) b.project.id false bs
            (record d.world { store = update_status b.project.id revoked d.world.store })
            (step-IsPending b bs d.world.store.projects e h)

  revoke_isolated-IsPending :
      (faults : ProjectFaults) (bs : List BoundProject) (d : Desk)
      → All (IsPending bs) d.world.store.projects
      → All (IsPending []) (revoke_isolated faults bs d).world.store.projects
  unfolding revoke_isolated
  revoke_isolated-IsPending faults [] d h = h
  revoke_isolated-IsPending faults (b ∷ bs) d h =
      revoke_isolated-IsPending faults bs (revoke_bound faults b d).0
        (revoke_bound-IsPending faults b bs d h)

  update-IsPending :
      (id : String) (ps : List Project)
      → All (IsPending []) ps
      → All (IsPending []) (map (update_project id revoked) ps)
  unfolding IsPending
  update-IsPending id [] h = tt
  update-IsPending id (p ∷ ps) (h, hs) = (go (str_eq p.id id), update-IsPending id ps hs)
    where
      unbound : (o : Option Binding) → is_bound (with_status revoked o) ≡ false
      unbound none = refl
      unbound (some c) = refl

      go :
          (x : Bool)
          → (let q : Project =
                if x then record p { binding = with_status revoked p.binding } else p in
              is_of_installation installation_id q.binding ≡ true
              → (is_bound q.binding ≡ false) ⊎ (any (is_due q) [] ≡ true))
      go true mine = inl (unbound p.binding)
      go false mine = h mine

  hide_project-IsPending :
      (faults : Faults) (id : String) (w : World)
      → All (IsPending []) w.store.projects
      → All (IsPending []) ((hide_project faults id w).0).store.projects
  unfolding hide_project update_status
  hide_project-IsPending faults id w h = go (lock_binding_status id w.store)
    where
      of_status :
          (x : Bool)
          → All
              (IsPending [])
              ((drop_access faults id true
                  (if x then w else record w { store = update_status id revoked w.store })).0
                ).store.projects
      of_status true = dropped-IsPending faults id true [] w h
      of_status false =
          dropped-IsPending faults id true []
            (record w { store = update_status id revoked w.store })
            (update-IsPending id w.store.projects h)

      go :
          (o : Option BindingStatus)
          → All (IsPending []) ((hide_with faults id o w).0).store.projects
      go none = dropped-IsPending faults id true [] w h
      go (some status) = of_status (is_revoked status)

  hide_each-IsPending :
      (faults : ProjectFaults) (ids : List String) (w : World)
      → All (IsPending []) w.store.projects
      → All (IsPending []) ((hide_each faults ids w).0).store.projects
  unfolding hide_each
  hide_each-IsPending faults [] w h = h
  hide_each-IsPending faults (id ∷ ids) w h =
      hide_each-IsPending faults ids (hide_project (faults id) id w).0
        (hide_project-IsPending (faults id) id w h)

  hide_organization-IsPending :
      (faults : ProjectFaults) (o : Option String) (d : Desk)
      → All (IsPending []) d.world.store.projects
      → All (IsPending []) (hide_organization faults o d).0.world.store.projects
  unfolding hide_organization hide
  hide_organization-IsPending faults none d h = h
  hide_organization-IsPending faults (some o) d h =
      go (hide_each faults (live_projects_of o d.world.store) d.world)
        (hide_each-IsPending faults (live_projects_of o d.world.store) d.world h)
    where
      go :
          (p : World × Bool)
          → All (IsPending []) (p.0).store.projects
          → All (IsPending []) (in_world d (hidden_all p)).0.world.store.projects
      go (w, true) x = x
      go (w, false) x = x

  settled :
      (ps : List Project)
      → All (IsPending []) ps
      → All
          (λ p. is_of_installation installation_id p.binding ≡ true → is_bound p.binding ≡ false)
          ps
  unfolding IsPending
  settled [] h = tt
  settled (p ∷ ps) (h, hs) = (λ mine. go (h mine), settled ps hs)
    where
      go : (is_bound p.binding ≡ false) ⊎ (false ≡ true) → is_bound p.binding ≡ false
      go (inl unbound) = unbound
      go (inr never) = absurd (ground (arith, never))

-- An installation that is deleted leaves no binding of its own that lets a record below Admin count,
-- whatever deletions the database refuses.
pub handle_installation-All_revoked :
    (faults : ProjectFaults) (p : InstallationPayload) (d : Desk)
    → str_eq p.action "deleted" ≡ true
    → All
        (λ q. is_of_installation p.installation_id q.binding ≡ true → is_bound q.binding ≡ false)
        (handle_installation faults p d).world.store.projects
unfolding handle_installation
handle_installation-All_revoked faults p d deleted =
    let bs = find_by_installation p.installation_id d.world.store.projects in
    let account =
      if is_text p.account_type "Organization" then github_id_of p.account_id else none in
    let after = hide_organization faults account (revoke_isolated faults bs d) in
    let same : after.0 ≡ handle_installation faults p d = rw (deleted, handle_installation) refl in
    subst
      (λ (x : Desk).
        All
          (λ q. is_of_installation p.installation_id q.binding ≡ true → is_bound q.binding ≡ false)
          x.world.store.projects)
      same
      (settled p.installation_id (after.0).world.store.projects (
        hide_organization-IsPending p.installation_id faults account (revoke_isolated faults bs d) (
          revoke_isolated-IsPending p.installation_id faults bs d
            (find_by_installation-IsPending p.installation_id d.world.store.projects))))
