-- ===== src/Lifecycle/Bindings.antt =====
-- `revokeBinding` of app/src/access-sync/binding-lifecycle.service.ts: the binding that it leaves.
use tjc_be_rag_core_api.Base.{
  String, Bool, true, false, Option, none, some, List, [], ◌∷◌, map, if◌then◌else◌, str_eq, All,
  arith, ◌≡◌, refl, sym, ◌∙◌, subst,
}
use tjc_be_rag_core_api.Access.{
  BindingStatus, revoked, Binding, Project, Store, is_revoked, is_bound, delete_record,
}
use tjc_be_rag_core_api.Access.Grants.{revoke}
use tjc_be_rag_core_api.Lifecycle.{
  World, Faults, with_status, update_project, update_status, user_ids, drop_users, drop_access,
  revoke_binding,
}

module _ (faults : Faults) (project_id : String) where
  pub drop_users-projects :
      (users : List String) (done : Store × Bool)
      → ((drop_users faults project_id users done).0).projects ≡ (done.0).projects
  unfolding revoke delete_record
  drop_users-projects [] done = refl
  drop_users-projects (user ∷ users) done =
      drop_users-projects users (
        if faults.refuses_user user
        then (done.0, true)
        else (revoke project_id user done.0, done.1))
      ∙ go (faults.refuses_user user)
    where
      go :
          (b : Bool)
          → (let next : Store × Bool =
                if b then (done.0, true) else (revoke project_id user done.0, done.1) in
              (next.0).projects ≡ (done.0).projects)
      go true = refl
      go false = refl

  -- The binding of the project is not one that lets a record below Admin count.
  abbrev IsUnbound : List Project → Type 0
  IsUnbound ps = All (λ p. str_eq p.id project_id ≡ true → is_bound p.binding ≡ false) ps

  revoked-IsUnbound : (ps : List Project) → IsUnbound (map (update_project project_id revoked) ps)
  revoked-IsUnbound [] = tt
  revoked-IsUnbound (p ∷ ps) = (go (str_eq p.id project_id) refl, revoked-IsUnbound ps)
    where
      unbound : (o : Option Binding) → is_bound (with_status revoked o) ≡ false
      unbound none = refl
      unbound (some b) = refl

      go :
          (b : Bool)
          → str_eq p.id project_id ≡ b
          → (let q = if b then record p { binding = with_status revoked p.binding } else p in
              str_eq q.id project_id ≡ true → is_bound q.binding ≡ false)
      go true e same = unbound p.binding
      go false e same = absurd (ground (arith, e, same))

  -- Whatever deletion fails, a revocation of a binding that was not revoked leaves none that lets a
  -- record below Admin count.
  revoke_binding-IsUnbound :
      (status : BindingStatus) (w : World)
      → is_revoked status ≡ false
      → IsUnbound ((revoke_binding faults project_id status w).0).store.projects
  unfolding revoke_binding drop_access update_status user_ids
  revoke_binding-IsUnbound status w live =
      subst
        (λ b.
          IsUnbound
            ((drop_access faults project_id false
                (if b then w else record w { store = update_status project_id revoked w.store })).0
              ).store.projects)
        (sym live)
        (subst IsUnbound
          (sym (
            drop_users-projects
              (user_ids false project_id (update_status project_id revoked w.store))
              (update_status project_id revoked w.store, false)))
          (revoked-IsUnbound w.store.projects))
