-- ===== src/Lifecycle/Kept.antt =====
-- app/src/access-sync/binding-lifecycle.service.ts: its operations take records away, and neither add
-- nor change one.
use tjc_be_rag_core_api.Base.{
  String, Bool, true, false, not, Option, none, some, List, [], ◌∷◌, if◌then◌else◌, keep, All,
}
use tjc_be_rag_core_api.Access.{
  BindingStatus, revoked, AccessRecord, Store, is_record_of, is_revoked, delete_record,
  lock_binding_status,
}
use tjc_be_rag_core_api.Access.Grants.{revoke}
use tjc_be_rag_core_api.Lifecycle.{
  World, Faults, update_status, user_ids, drop_users, drop_access, revoke_binding, hide_with,
  hide_project,
}

-- What every record has before, every record has after.
module _ (P : AccessRecord → Type 0) where
  keep-All : (p : AccessRecord → Bool) (rs : List AccessRecord) → All P rs → All P (keep p rs)
  keep-All p [] h = tt
  keep-All p (r ∷ rs) (h, hs) = go (p r) (keep-All p rs hs)
    where
      go : (b : Bool) → All P (keep p rs) → All P (if b then r ∷ keep p rs else keep p rs)
      go true rest = (h, rest)
      go false rest = rest

  drop_users-All :
      (faults : Faults) (id : String) (users : List String) (done : Store × Bool)
      → All P (done.0).records
      → All P ((drop_users faults id users done).0).records
  unfolding revoke delete_record
  drop_users-All faults id [] done h = h
  drop_users-All faults id (user ∷ users) done h =
      drop_users-All faults id users
        (if faults.refuses_user user then (done.0, true) else (revoke id user done.0, done.1))
        (go (faults.refuses_user user))
    where
      go :
          (b : Bool)
          → (let next : Store × Bool =
                if b then (done.0, true) else (revoke id user done.0, done.1) in
              All P (next.0).records)
      go true = h
      go false = keep-All (λ r. not (is_record_of id user r)) (done.0).records h

  drop_access-All :
      (faults : Faults) (id : String) (include_admin : Bool) (w : World)
      → All P w.store.records
      → All P ((drop_access faults id include_admin w).0).store.records
  unfolding drop_access user_ids
  drop_access-All faults id include_admin w h =
      drop_users-All faults id (user_ids include_admin id w.store) (w.store, false) h

  pub hide_project-All :
      (faults : Faults) (id : String) (w : World)
      → All P w.store.records
      → All P ((hide_project faults id w).0).store.records
  unfolding hide_project update_status
  hide_project-All faults id w h = go (lock_binding_status id w.store)
    where
      of_status :
          (status : BindingStatus) (b : Bool)
          → All P
              ((drop_access faults id true
                  (if b then w else record w { store = update_status id revoked w.store })).0
                ).store.records
      of_status status true = drop_access-All faults id true w h
      of_status status false =
          drop_access-All faults id true (record w { store = update_status id revoked w.store }) h

      go : (o : Option BindingStatus) → All P ((hide_with faults id o w).0).store.records
      go none = drop_access-All faults id true w h
      go (some status) = of_status status (is_revoked status)

  pub revoke_binding-All :
      (faults : Faults) (id : String) (status : BindingStatus) (w : World)
      → All P w.store.records
      → All P ((revoke_binding faults id status w).0).store.records
  unfolding revoke_binding update_status
  revoke_binding-All faults id status w h = go (is_revoked status)
    where
      go :
          (b : Bool)
          → All P
              ((drop_access faults id false
                  (if b then w else record w { store = update_status id revoked w.store })).0
                ).store.records
      go true = drop_access-All faults id false w h
      go false =
          drop_access-All faults id false (record w { store = update_status id revoked w.store }) h
