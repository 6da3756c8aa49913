-- ===== src/Subscriptions/Revalidation.antt =====
-- `evict` of app/src/realtime/project-subscriptions.service.ts, over a list of sockets: which
-- subscriptions may follow the project meanwhile.
use tjc_be_rag_core_api.Base.{
  ℕ, ◌+◌, String, Bool, true, false, not, ◌||◌, List, [], ◌∷◌, arith, ◌≡◌, refl, inl, inr,
  Bool-cases, str_eq, any, keep, eq_iff, subst, All,
}
use tjc_be_rag_core_api.Subscriptions.{
  Following, Subscription, Registry, is_empty, restrict, is_of, follows, evict, evict_each,
}
use tjc_be_rag_core_api.Subscriptions.Keys.{has_socket, is_keyed, evict-is_keyed}

keep-not_of :
    (project_id : String) (fs : List Following)
    → any (is_of project_id) (keep (λ f. not (is_of project_id f)) fs) ≡ false
keep-not_of project_id [] = refl
keep-not_of project_id (f ∷ fs) = elim (Bool-cases (is_of project_id f)) [
  | inl same ↦ ground (arith, same, keep-not_of project_id fs)
  | inr other ↦ ground (arith, other, keep-not_of project_id fs)
]

-- The sockets that a list of evictions has still to reach are those of the list.
module _ (project_id : String) (spared : String → String → Bool) where
  -- A subscription that may follow the project: its user and socket are spared, or its socket is in
  -- the list.
  abbrev pub may_follow : List String → Subscription → Bool
  may_follow ids e =
      not (follows project_id e) || spared e.user_id e.socket_id || any (str_eq e.socket_id) ids

  unlisted :
      (socket : String) (ids : List String) (es : List Subscription)
      → has_socket socket es ≡ false
      → All (λ e. may_follow (socket ∷ ids) e ≡ true) es
      → All (λ e. may_follow ids e ≡ true) es
  unlisted socket ids [] free h = tt
  unlisted socket ids (e ∷ es) free (h, hs) =
      (ground arith, unlisted socket ids es (ground arith) hs)

  restrict-may_follow :
      (socket : String) (ids : List String) (es : List Subscription)
      → is_keyed es ≡ true
      → All (λ e. may_follow (socket ∷ ids) e ≡ true) es
      → All (λ e. may_follow ids e ≡ true) (restrict (λ f. not (is_of project_id f)) socket es)
  unfolding is_keyed
  restrict-may_follow socket ids [] keyed h = tt
  restrict-may_follow socket ids (e ∷ es) keyed (h, hs) =
      elim (Bool-cases (str_eq e.socket_id socket)) [
        | inr other ↦
            let rest = restrict-may_follow socket ids es (ground arith) hs in
            rw other (ground (arith, other), rest)
        | inl here ↦
            let same : e.socket_id ≡ socket = (eq_iff e.socket_id socket).0 here in
            let apart = subst (λ x. has_socket x es ≡ false) same (ground arith) in
            let rest = unlisted socket ids es apart hs in
            elim (Bool-cases (is_empty (keep (λ f. not (is_of project_id f)) e.versions))) [
              | inl gone ↦ rw here (rw gone rest)
              | inr stays ↦
                  rw here (rw stays (ground (arith, keep-not_of project_id e.versions), rest))
            ]
      ]

  pub evict_each-may_follow :
      (ids : List String) (done : Registry × ℕ)
      → is_keyed (done.0).sockets ≡ true
      → All (λ e. may_follow ids e ≡ true) (done.0).sockets
      → All (λ e. may_follow [] e ≡ true) ((evict_each project_id ids done).0).sockets
  unfolding evict
  evict_each-may_follow [] done keyed h = h
  evict_each-may_follow (socket ∷ rest) done keyed h =
      evict_each-may_follow rest (evict socket project_id done.0, done.1 + 1)
        (evict-is_keyed socket project_id done.0 keyed)
        (restrict-may_follow socket rest (done.0).sockets keyed h)
