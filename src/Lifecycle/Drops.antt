-- ===== src/Lifecycle/Drops.antt =====
-- `dropAccess` of
-- app/src/access-sync/binding-lifecycle.service.ts: what is left in the table and in the rooms.
use tjc_be_rag_core_api.Base.{
  String, Bool, true, false, not, ◌||◌, List, [], ◌∷◌, map, if◌then◌else◌, str_eq, keep, any, All,
  arith, ◌≡◌, refl, sym, subst, inl, inr, Bool-cases, str_eq_refl,
}
use tjc_be_rag_core_api.Errors.{answer}
use tjc_be_rag_core_api.Access.{AccessRecord, Store, is_record_of, delete_record}
use tjc_be_rag_core_api.Access.Grants.{revoke}
use tjc_be_rag_core_api.Subscriptions.{Registry, revalidate_project, follows, is_seen}
use tjc_be_rag_core_api.Subscriptions.Keys.{is_keyed}
use tjc_be_rag_core_api.Subscriptions.Followers.{revalidate_project-All_seen}
use tjc_be_rag_core_api.Lifecycle.{
  World, Faults, is_dropped, user_ids, drop_users, expel, drop_access,
}

module _ (faults : Faults) (project_id : String) (include_admin : Bool) where
  -- A record that is to be dropped is of a user in the list.
  abbrev is_covered : List String → AccessRecord → Bool
  is_covered users r = not (is_dropped include_admin project_id r) || any (str_eq r.user_id) users

  delete-covered :
      (user : String) (users : List String) (rs : List AccessRecord)
      → All (λ r. is_covered (user ∷ users) r ≡ true) rs
      → All (λ r. is_covered users r ≡ true) (keep (λ r. not (is_record_of project_id user r)) rs)
  delete-covered user users [] h = tt
  delete-covered user users (r ∷ rs) (h, hs) =
      go (is_record_of project_id user r) refl (delete-covered user users rs hs)
    where
      go :
          (b : Bool)
          → is_record_of project_id user r ≡ b
          → All
              (λ x. is_covered users x ≡ true)
              (keep (λ x. not (is_record_of project_id user x)) rs)
          → All
              (λ x. is_covered users x ≡ true)
              (if not b
                then r ∷ keep (λ x. not (is_record_of project_id user x)) rs
                else keep (λ x. not (is_record_of project_id user x)) rs)
      go true e rest = rest
      go false e rest = (ground (arith, e), rest)

  drop_users-covered :
      (users : List String) (done : Store × Bool)
      → (done.1 ≡ false → All (λ r. is_covered users r ≡ true) (done.0).records)
      → (drop_users faults project_id users done).1 ≡ false
      → All (λ r. is_covered [] r ≡ true) ((drop_users faults project_id users done).0).records
  unfolding revoke delete_record
  drop_users-covered [] done h clean = h clean
  drop_users-covered (user ∷ users) done h clean =
      drop_users-covered users
        (if faults.refuses_user user
          then (done.0, true)
          else (revoke project_id user done.0, done.1))
        (go (faults.refuses_user user)) clean
    where
      go :
          (b : Bool)
          → (let next : Store × Bool =
                if b then (done.0, true) else (revoke project_id user done.0, done.1) in
              next.1 ≡ false → All (λ r. is_covered users r ≡ true) (next.0).records)
      go true v = cc
      go false v = delete-covered user users (done.0).records (h v)

  more :
      (user : String) (users : List String) (rs : List AccessRecord)
      → All (λ r. is_covered users r ≡ true) rs
      → All (λ r. is_covered (user ∷ users) r ≡ true) rs
  more user users [] h = tt
  more user users (r ∷ rs) (h, hs) = (ground arith, more user users rs hs)

  user_ids-covered :
      (rs : List AccessRecord)
      → All
          (λ r.
            is_covered (map (λ x. x.user_id) (keep (is_dropped include_admin project_id) rs)) r
            ≡ true)
          rs
  user_ids-covered [] = tt
  user_ids-covered (r ∷ rs) = go (is_dropped include_admin project_id r) refl (user_ids-covered rs)
    where
      go :
          (b : Bool)
          → is_dropped include_admin project_id r ≡ b
          → All
              (λ x.
                is_covered (map (λ y. y.user_id) (keep (is_dropped include_admin project_id) rs)) x
                ≡ true)
              rs
          → All
              (λ x.
                is_covered
                  (map
                    (λ y. y.user_id)
                    (if b
                      then r ∷ keep (is_dropped include_admin project_id) rs
                      else keep (is_dropped include_admin project_id) rs))
                  x
                ≡ true)
              (r ∷ rs)
      go true e rest = (
        ground (arith, str_eq_refl r.user_id),
        more r.user_id (map (λ y. y.user_id) (keep (is_dropped include_admin project_id) rs)) rs
            rest,
      )
      go false e rest = (ground (arith, e), rest)

  uncovered :
      (rs : List AccessRecord)
      → All (λ r. is_covered [] r ≡ true) rs
      → All (λ r. is_dropped include_admin project_id r ≡ false) rs
  uncovered [] h = tt
  uncovered (r ∷ rs) (h, hs) = (ground arith, uncovered rs hs)

  settled : (d s : Bool) → (d || s) ≡ false → s ≡ false
  settled d s fine = ground (arith, fine)

  expel-clean :
      (dropped : Store × Bool) (registry : Registry)
      → (expel faults project_id dropped registry).1 ≡ answer tt
      → dropped.1 ≡ false
  expel-clean dropped registry e = elim (Bool-cases (dropped.1 || faults.refuses_sockets)) [
    | inl bad ↦ absurd (ground (arith, bad))
    | inr fine ↦ ground (arith, fine)
  ]

  expel-All_seen :
      (dropped : Store × Bool) (registry : Registry)
      → is_keyed registry.sockets ≡ true
      → (expel faults project_id dropped registry).1 ≡ answer tt
      → (dropped.1 ≡ false)
        × All
            (λ e. follows project_id e ≡ true → is_seen dropped.0 project_id e.user_id ≡ true)
            ((expel faults project_id dropped registry).0).registry.sockets
  expel-All_seen dropped registry keyed e =
      elim (Bool-cases (dropped.1 || faults.refuses_sockets)) [
        | inl bad ↦ absurd (ground (arith, bad))
        | inr fine ↦ (
          ground (arith, fine),
          subst
              (λ b.
                All
                  (λ e. follows project_id e ≡ true → is_seen dropped.0 project_id e.user_id ≡ true)
                  (if b
                    then registry
                    else (revalidate_project dropped.0 project_id registry).0).sockets)
              (sym (settled dropped.1 faults.refuses_sockets fine))
              (revalidate_project-All_seen dropped.0 project_id registry keyed),
        )
      ]

  -- What a drop that answers leaves in the table.
  pub drop_access-All_undropped :
      (w : World)
      → (drop_access faults project_id include_admin w).1 ≡ answer tt
      → All
          (λ r. is_dropped include_admin project_id r ≡ false)
          ((drop_access faults project_id include_admin w).0).store.records
  unfolding drop_access user_ids
  drop_access-All_undropped w e =
      let users = user_ids include_admin project_id w.store in
      let dropped = drop_users faults project_id users (w.store, false) in
      uncovered dropped.0.records (
        drop_users-covered users (w.store, false) (λ _. user_ids-covered w.store.records)
          (expel-clean dropped w.registry e))

  -- A drop that answers leaves no record that it was to drop, and each socket that still follows the
  -- project is of a user who sees it, if each socket stood once in the map.
  pub drop_access-All_kept :
      (w : World)
      → is_keyed w.registry.sockets ≡ true
      → (drop_access faults project_id include_admin w).1 ≡ answer tt
      → (let after = (drop_access faults project_id include_admin w).0 in
          All (λ r. is_dropped include_admin project_id r ≡ false) after.store.records
          × All
              (λ e. follows project_id e ≡ true → is_seen after.store project_id e.user_id ≡ true)
              after.registry.sockets)
  unfolding drop_access user_ids
  drop_access-All_kept w keyed e =
      let users = user_ids include_admin project_id w.store in
      let dropped = drop_users faults project_id users (w.store, false) in
      let (clean, seen) = expel-All_seen dropped w.registry keyed e in
      (drop_access-All_undropped w e, seen)
