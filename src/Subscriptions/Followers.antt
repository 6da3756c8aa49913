-- ===== src/Subscriptions/Followers.antt =====
-- `revalidateProject` and `evictUser` of app/src/realtime/project-subscriptions.service.ts: who still
-- follows a project afterwards.
use tjc_be_rag_core_api.Base.{
  ℕ, String, Bool, true, false, not, ◌&&◌, ◌||◌, List, [], ◌∷◌, arith, ◌≡◌, refl, inl, inr,
  Bool-cases, if◌then◌else◌, str_eq, eq_iff, subst, All, str_eq_refl,
}
use tjc_be_rag_core_api.Access.{Store}
use tjc_be_rag_core_api.Subscriptions.{
  Subscription, Registry, follows, UserSockets, users_of, evict_each, is_seen, evict_unseeing,
  revalidate_project, sockets_of_user, evict_user,
}
use tjc_be_rag_core_api.Subscriptions.Keys.{is_keyed, evict_each-is_keyed}
use tjc_be_rag_core_api.Subscriptions.Revalidation.{may_follow, evict_each-may_follow}
use tjc_be_rag_core_api.Subscriptions.Groups.{is_listed, users_of-listed}

module _ (store : Store) (project_id : String) where
  -- A subscription that may follow the project: its user sees it, or it is in the groups.
  abbrev may_stay : List UserSockets → String → String → Bool
  may_stay us user socket = is_seen store project_id user || is_listed user socket us

  pass_seen :
      (u : UserSockets) (us : List UserSockets) (es : List Subscription)
      → is_seen store project_id u.user_id ≡ true
      → All (λ e. may_follow project_id (may_stay (u ∷ us)) [] e ≡ true) es
      → All (λ e. may_follow project_id (may_stay us) [] e ≡ true) es
  pass_seen u us [] sees h = tt
  pass_seen u us (e ∷ es) sees (h, hs) = (
    elim (Bool-cases (str_eq u.user_id e.user_id)) [
      | inr other ↦ ground (arith, other)
      | inl same ↦
          let users = (eq_iff u.user_id e.user_id).0 same in
          let theirs = subst (λ x. is_seen store project_id x ≡ true) users sees in
          ground (arith, theirs)
    ],
    pass_seen u us es sees hs,
  )

  to_evict :
      (u : UserSockets) (us : List UserSockets) (es : List Subscription)
      → All (λ e. may_follow project_id (may_stay (u ∷ us)) [] e ≡ true) es
      → All (λ e. may_follow project_id (may_stay us) u.sockets e ≡ true) es
  to_evict u us [] h = tt
  to_evict u us (e ∷ es) (h, hs) = (ground arith, to_evict u us es hs)

  step-may_stay :
      (u : UserSockets) (us : List UserSockets) (done : Registry × ℕ) (b : Bool)
      → is_seen store project_id u.user_id ≡ b
      → is_keyed (done.0).sockets ≡ true
      → All (λ e. may_follow project_id (may_stay (u ∷ us)) [] e ≡ true) (done.0).sockets
      → (is_keyed ((if b then done else evict_each project_id u.sockets done).0).sockets ≡ true)
        × All
            (λ e. may_follow project_id (may_stay us) [] e ≡ true)
            ((if b then done else evict_each project_id u.sockets done).0).sockets
  step-may_stay u us done true sees keyed h = (keyed, pass_seen u us (done.0).sockets sees h)
  step-may_stay u us done false blind keyed h = (
    evict_each-is_keyed project_id u.sockets done keyed,
    evict_each-may_follow project_id (may_stay us) u.sockets done keyed
        (to_evict u us (done.0).sockets h),
  )

  evict_unseeing-may_stay :
      (us : List UserSockets) (done : Registry × ℕ)
      → is_keyed (done.0).sockets ≡ true
      → All (λ e. may_follow project_id (may_stay us) [] e ≡ true) (done.0).sockets
      → All
          (λ e. may_follow project_id (may_stay []) [] e ≡ true)
          ((evict_unseeing store project_id us done).0).sockets
  evict_unseeing-may_stay [] done keyed h = h
  evict_unseeing-may_stay (u ∷ us) done keyed h =
      let (keyed', h') =
        step-may_stay u us done (is_seen store project_id u.user_id) refl keyed h in
      evict_unseeing-may_stay us _ keyed' h'

  starts :
      (us : List UserSockets) (es : List Subscription)
      → All (λ e. (not (follows project_id e) || is_listed e.user_id e.socket_id us) ≡ true) es
      → All (λ e. may_follow project_id (may_stay us) [] e ≡ true) es
  starts us [] h = tt
  starts us (e ∷ es) (h, hs) = (ground arith, starts us es hs)

  ends :
      (es : List Subscription)
      → All (λ e. may_follow project_id (may_stay []) [] e ≡ true) es
      → All (λ e. follows project_id e ≡ true → is_seen store project_id e.user_id ≡ true) es
  ends [] h = tt
  ends (e ∷ es) (h, hs) = (λ f. ground arith, ends es hs)

  -- After a revalidation, every socket that still follows the project is one of a user who sees it,
  -- if each socket stood once in the map.
  pub revalidate_project-All_seen :
      (reg : Registry)
      → is_keyed reg.sockets ≡ true
      → All
          (λ e. follows project_id e ≡ true → is_seen store project_id e.user_id ≡ true)
          ((revalidate_project store project_id reg).0).sockets
  unfolding revalidate_project
  revalidate_project-All_seen reg keyed =
      let us = users_of project_id reg.sockets [] in
      ends ((evict_unseeing store project_id us (reg, 0)).0).sockets (
        evict_unseeing-may_stay us (reg, 0) keyed
          (starts us reg.sockets (users_of-listed project_id reg.sockets [])))

module _ (project_id user : String) where
  -- The user of an entry is another one.
  abbrev is_other : String → String → Bool
  is_other u socket = not (str_eq u user)

  more :
      (socket : String) (ids : List String) (es : List Subscription)
      → All (λ e. may_follow project_id is_other ids e ≡ true) es
      → All (λ e. may_follow project_id is_other (socket ∷ ids) e ≡ true) es
  more socket ids [] h = tt
  more socket ids (e ∷ es) (h, hs) = (ground arith, more socket ids es hs)

  listed-may_follow :
      (es : List Subscription)
      → All (λ e. may_follow project_id is_other (sockets_of_user user project_id es) e ≡ true) es
  listed-may_follow [] = tt
  listed-may_follow (e ∷ es) =
      go (str_eq e.user_id user && follows project_id e) refl (listed-may_follow es)
    where
      go :
          (b : Bool)
          → (str_eq e.user_id user && follows project_id e) ≡ b
          → All
              (λ x. may_follow project_id is_other (sockets_of_user user project_id es) x ≡ true)
              es
          → All
              (λ x.
                may_follow project_id is_other
                  (if b
                    then e.socket_id ∷ sockets_of_user user project_id es
                    else sockets_of_user user project_id es)
                  x
                ≡ true)
              (e ∷ es)
      go true mine h = (
        ground (arith, mine, str_eq_refl e.socket_id),
        more e.socket_id (sockets_of_user user project_id es) es h,
      )
      go false other h = (ground (arith, other), h)

  ends_without :
      (es : List Subscription)
      → All (λ e. may_follow project_id is_other [] e ≡ true) es
      → All (λ e. follows project_id e ≡ true → str_eq e.user_id user ≡ false) es
  ends_without [] h = tt
  ends_without (e ∷ es) (h, hs) = (λ f. ground arith, ends_without es hs)

  -- After a user's eviction from a project, none of his sockets follows it, if each socket stood
  -- once in the map.
  evict_user-All_other :
      (reg : Registry)
      → is_keyed reg.sockets ≡ true
      → All
          (λ e. follows project_id e ≡ true → str_eq e.user_id user ≡ false)
          ((evict_user project_id user reg).0).sockets
  unfolding evict_user
  evict_user-All_other reg keyed =
      let ids = sockets_of_user user project_id reg.sockets in
      ends_without ((evict_each project_id ids (reg, 0)).0).sockets (
        evict_each-may_follow project_id is_other ids (reg, 0) keyed
          (listed-may_follow reg.sockets))
