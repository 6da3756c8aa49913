-- ===== src/Organizations/Hiding.antt =====
-- `hide` and `reconcile` of app/src/access-sync/organization-lifecycle.service.ts: what is left of the
-- projects of an organization.
use tjc_be_rag_core_api.Base.{
  String, Bool, true, false, ◌⊎◌, Option, none, some, List, [], ◌∷◌, if◌then◌else◌, str_eq, is_text,
  any, find, arith, ◌≡◌, refl, All, inl, inr,
}
use tjc_be_rag_core_api.Errors.{Response, answer, throws}
use tjc_be_rag_core_api.Access.{
  BindingStatus, revoked, AccessRecord, is_revoked, lock_binding_status,
}
use tjc_be_rag_core_api.Access.Organization.{
  Lookup, ok, not_found, not_installed, unverifiable, Installation,
}
use tjc_be_rag_core_api.Lifecycle.{
  World, Faults, is_dropped, update_status, drop_access, hide_with, hide_project,
}
use tjc_be_rag_core_api.Lifecycle.Kept.{hide_project-All}
use tjc_be_rag_core_api.Lifecycle.Drops.{drop_access-All_undropped}
use tjc_be_rag_core_api.Organizations.{
  unchanged, unverified, renamed, in_order, live_projects_of, failed, ProjectFaults, hide_each,
  hidden_all, hide, no_owner, check_login, by_owners, by_installation, reconcile,
}

module _ (P : AccessRecord → Type 0) where
  hide_each-All :
      (faults : ProjectFaults) (ids : List String) (w : World)
      → All P w.store.records
      → All P ((hide_each faults ids w).0).store.records
  unfolding hide_each
  hide_each-All faults [] w h = h
  hide_each-All faults (id ∷ ids) w h =
      hide_each-All faults ids (hide_project (faults id) id w).0
        (hide_project-All P (faults id) id w h)

abbrev is_of_project : String → AccessRecord → Bool
is_of_project id r = str_eq r.project_id id

undropped :
    (id : String) (rs : List AccessRecord)
    → All (λ r. is_dropped true id r ≡ false) rs
    → All (λ r. is_of_project id r ≡ false) rs
undropped id [] h = tt
undropped id (r ∷ rs) (h, hs) = (ground (arith, h), undropped id rs hs)

hide_project-gone :
    (faults : Faults) (id : String) (w : World)
    → (hide_project faults id w).1 ≡ answer tt
    → All (λ r. is_of_project id r ≡ false) ((hide_project faults id w).0).store.records
unfolding hide_project
hide_project-gone faults id w e = go (lock_binding_status id w.store) e
  where
    of_status :
        (b : Bool)
        → (let w' : World =
              if b then w else record w { store = update_status id revoked w.store } in
            (drop_access faults id true w').1 ≡ answer tt
            → All
                (λ r. is_of_project id r ≡ false)
                ((drop_access faults id true w').0).store.records)
    of_status true e =
        undropped id ((drop_access faults id true w).0).store.records
          (drop_access-All_undropped faults id true w e)
    of_status false e =
        let w' : World = record w { store = update_status id revoked w.store } in
        undropped id ((drop_access faults id true w').0).store.records
          (drop_access-All_undropped faults id true w' e)

    go :
        (o : Option BindingStatus)
        → (hide_with faults id o w).1 ≡ answer tt
        → All (λ r. is_of_project id r ≡ false) ((hide_with faults id o w).0).store.records
    go none e =
        undropped id ((drop_access faults id true w).0).store.records
          (drop_access-All_undropped faults id true w e)
    go (some status) e = of_status (is_revoked status) e

answered : (r : Response Unit) → failed r ≡ false → r ≡ answer tt
answered (throws err) e = absurd (ground arith)
answered (answer tt) e = refl

abbrev is_of_any : List String → AccessRecord → Bool
is_of_any ids r = any (str_eq r.project_id) ids

of_both :
    (id : String) (ids : List String) (rs : List AccessRecord)
    → All (λ r. is_of_project id r ≡ false) rs
    → All (λ r. is_of_any ids r ≡ false) rs
    → All (λ r. is_of_any (id ∷ ids) r ≡ false) rs
of_both id ids [] a b = tt
of_both id ids (r ∷ rs) (a, as') (b, bs) = (ground (arith, a, b), of_both id ids rs as' bs)

of_none : (rs : List AccessRecord) → All (λ r. is_of_any [] r ≡ false) rs
of_none [] = tt
of_none (r ∷ rs) = (refl, of_none rs)

hide_each-gone :
    (faults : ProjectFaults) (ids : List String) (w : World)
    → (hide_each faults ids w).1 ≡ false
    → All (λ r. is_of_any ids r ≡ false) ((hide_each faults ids w).0).store.records
unfolding hide_each
hide_each-gone faults [] w e = of_none w.store.records
hide_each-gone faults (id ∷ ids) w e =
    let hidden = hide_project (faults id) id w in
    let gone = hide_project-gone (faults id) id w (answered hidden.1 (ground (arith, e))) in
    of_both id ids ((hide_each faults ids hidden.0).0).store.records
      (hide_each-All (λ r. is_of_project id r ≡ false) faults ids hidden.0 gone)
      (hide_each-gone faults ids hidden.0 (ground (arith, e)))

-- A hiding that answers leaves no record of a live project of the organization, Admin included; and
-- whether it answers or not, what every record has before, every record has after.
pub hide-gone :
    (faults : ProjectFaults) (organization_id : String) (w : World)
    → (let after = hide faults organization_id w in
        (after.1 ≡ answer tt
          → All
              (λ r. any (str_eq r.project_id) (live_projects_of organization_id w.store) ≡ false)
              (after.0).store.records)
        × ((P : AccessRecord → Type 0) → All P w.store.records → All P (after.0).store.records))
unfolding hide
hide-gone faults organization_id w =
    let ids = live_projects_of organization_id w.store in
    (
      λ e. gone (hide_each faults ids w) (hide_each-gone faults ids w) e,
      λ P h. kept P (hide_each faults ids w) (hide_each-All P faults ids w h),
    )
  where
    gone :
        (p : World × Bool)
        → (p.1 ≡ false
            → All
                (λ r. any (str_eq r.project_id) (live_projects_of organization_id w.store) ≡ false)
                (p.0).store.records)
        → (hidden_all p).1 ≡ answer tt
        → All
            (λ r. any (str_eq r.project_id) (live_projects_of organization_id w.store) ≡ false)
            ((hidden_all p).0).store.records
    gone (v, true) f e = absurd (ground arith)
    gone (v, false) f e = f refl

    kept :
        (P : AccessRecord → Type 0) (p : World × Bool)
        → All P (p.0).store.records
        → All P ((hidden_all p).0).store.records
    kept P (v, true) h = h
    kept P (v, false) h = h

-- GitHub confirms that the organization is gone: it has no installation, or one that is not suspended
-- and whose owners cannot be found.
abbrev IsConfirmed : String → (Installation → Lookup (List String)) → List Installation → Type 0
IsConfirmed organization_id owners installations =
    (find (λ i. str_eq i.organization_id organization_id) installations ≡ none)
    ⊎ ((i : Installation) × (find (λ i. str_eq i.organization_id organization_id) installations
          ≡ some i)
        × (i.suspended ≡ false)
        × ((owners i ≡ not_found) ⊎ (owners i ≡ not_installed)))

-- A reconciliation leaves records, bindings and sockets as they are, unless GitHub confirms that the
-- organization is gone.
reconcile-IsConfirmed :
    (faults : ProjectFaults) (organization_id : String) (login : Option String)
    (owners : Installation → Lookup (List String)) (installations : List Installation) (w : World)
    → ((reconcile faults organization_id login owners installations w).world ≡ w)
      ⊎ IsConfirmed organization_id owners installations
unfolding reconcile by_installation by_owners
reconcile-IsConfirmed faults organization_id login owners installations w =
    of_found (find (λ i. str_eq i.organization_id organization_id) installations) refl
  where
    checks :
        (i : Installation) (b : Bool)
        → (if b then unchanged w in_order else record {
          world = w;
          new_login = some i.organization_login;
          result = renamed;
        }).world
          ≡ w
    checks i true = refl
    checks i false = refl

    has_owner :
        (i : Installation) (b : Bool)
        → (if b then unchanged w unverified else check_login login i w).world ≡ w
    has_owner i true = refl
    has_owner i false = checks i (is_text login i.organization_login)

    of_owners :
        (i : Installation)
        → find (λ i. str_eq i.organization_id organization_id) installations ≡ some i
        → i.suspended ≡ false
        → (l : Lookup (List String)) → owners i ≡ l
        → ((by_owners faults organization_id login i l w).world ≡ w)
          ⊎ IsConfirmed organization_id owners installations
    of_owners i found live unverifiable e = inl refl
    of_owners i found live not_found e = inr (inr (i, found, live, inl e))
    of_owners i found live not_installed e = inr (inr (i, found, live, inr e))
    of_owners i found live (ok names) e = inl (has_owner i (no_owner names))

    of_suspended :
        (i : Installation) (b : Bool)
        → find (λ i. str_eq i.organization_id organization_id) installations ≡ some i
        → i.suspended ≡ b
        → ((if b
              then unchanged w unverified
              else by_owners faults organization_id login i (owners i) w).world
            ≡ w)
          ⊎ IsConfirmed organization_id owners installations
    of_suspended i true found e = inl refl
    of_suspended i false found e = of_owners i found e (owners i) refl

    of_found :
        (o : Option Installation)
        → find (λ i. str_eq i.organization_id organization_id) installations ≡ o
        → ((by_installation faults organization_id login o owners w).world ≡ w)
          ⊎ IsConfirmed organization_id owners installations
    of_found none e = inr (inl e)
    of_found (some i) e = of_suspended i i.suspended e refl
