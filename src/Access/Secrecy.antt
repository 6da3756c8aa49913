-- ===== src/Access/Secrecy.antt =====
-- `requireForResource` and `canActivate` of app/src/project-access: what an error gives away, and
-- what a route lets through.
use tjc_be_rag_core_api.Base.{
  String, true, false, Option, none, some, arith, ◌≡◌, ◌≢◌, refl, subst, inl, inr, Bool-cases,
  str_eq, eq_iff, ap, ◌∙◌, ◌⊎◌,
}
use tjc_be_rag_core_api.Errors.{AppException, Response, answer, throws}
use tjc_be_rag_core_api.Access.{ProjectRole, Store}
use tjc_be_rag_core_api.Access.Require.{
  ResourceKind, project_kind, missing_code, resource_not_found, AccessGrant, Entry, require, hides,
  rename_missing, require_owner, require_for_resource,
}
use tjc_be_rag_core_api.Access.Guard.{
  Place, at, listing, Policy, needs_role, no_role, Route, Request, passed, guard_value, guard_user,
  guard_policy, can_activate,
}

module _ (entry : Entry) (user_id : String) (owner_of : ResourceKind → String → Option String) where
  missing-own :
      (kind : ResourceKind) → kind ≢ project_kind → hides entry user_id (missing_code kind) ≡ false
  unfolding missing_code
  missing-own project_kind other = absurd (other refl)
  missing-own ResourceKind.analysis_run other = refl
  missing-own ResourceKind.project_version other = refl
  missing-own ResourceKind.experiment other = refl
  missing-own ResourceKind.context_trace other = refl
  missing-own ResourceKind.test_publication other = refl
  missing-own ResourceKind.functional_question other = refl
  missing-own ResourceKind.test_target other = refl
  missing-own ResourceKind.retrieval_comparison other = refl

  by_owner :
      (kind : ResourceKind) (resource_id : String) (min_role : ProjectRole) (s : Store)
      → kind ≢ project_kind
      → require_for_resource entry user_id owner_of kind resource_id min_role s
        ≡ require_owner entry user_id kind min_role (owner_of kind resource_id) s
  unfolding require_for_resource
  by_owner project_kind resource_id min_role s other = absurd (other refl)
  by_owner ResourceKind.analysis_run resource_id min_role s other = refl
  by_owner ResourceKind.project_version resource_id min_role s other = refl
  by_owner ResourceKind.experiment resource_id min_role s other = refl
  by_owner ResourceKind.context_trace resource_id min_role s other = refl
  by_owner ResourceKind.test_publication resource_id min_role s other = refl
  by_owner ResourceKind.functional_question resource_id min_role s other = refl
  by_owner ResourceKind.test_target resource_id min_role s other = refl
  by_owner ResourceKind.retrieval_comparison resource_id min_role s other = refl

  -- What `requireForResource` throws for a resource that is not a project never says that a project
  -- does not exist.
  require_for_resource-silent :
      (kind : ResourceKind) (resource_id : String) (min_role : ProjectRole) (s : Store)
      (x : AppException)
      → kind ≢ project_kind
      → (require_for_resource entry user_id owner_of kind resource_id min_role s).1 ≡ throws x
      → hides entry user_id x.code ≡ false
  unfolding resource_not_found
  require_for_resource-silent kind resource_id min_role s x other e =
      of_owner (owner_of kind resource_id)
        (subst (λ r. r.1 ≡ throws x) (by_owner kind resource_id min_role s other) e)
    where
      own :
          ◌≡◌ {A = Response AccessGrant} (throws (resource_not_found kind)) (throws x)
          → hides entry user_id x.code ≡ false
      own v =
          let same : resource_not_found kind ≡ x = cc in
          subst (λ y. hides entry user_id y.code ≡ false) same (missing-own kind other)

      of_response :
          (r : Response AccessGrant)
          → rename_missing entry user_id kind r ≡ throws x
          → hides entry user_id x.code ≡ false
      of_response (answer g) v = cc
      of_response (throws y) v = elim (Bool-cases (hides entry user_id y.code)) [
        | inl hidden ↦ own (ground (arith, hidden))
        | inr shown ↦
            let same : y ≡ x = ground (arith, shown) in
            subst (λ z. hides entry user_id z.code ≡ false) same shown
      ]

      of_owner :
          (o : Option String)
          → (require_owner entry user_id kind min_role o s).1 ≡ throws x
          → hides entry user_id x.code ≡ false
      of_owner none v = own v
      of_owner (some project_id) v = of_response ((require entry user_id project_id min_role s).1) v

-- What lets a request of a route through: the route is public or of a socket, or its policy asks
-- for no role or names no resource; or the request has a session, and its id is empty or absent or
-- the user has the role on the resource.
pub data Passes (owner_of : ResourceKind → String → Option String) (entry : Entry) (q : Request)
    (route : Route) (s : Store) : Type 0 where
  is_open : route.is_public ≡ true → Passes owner_of entry q route s
  by_exception :
      (reason : String) → route.policy ≡ some (no_role reason) → Passes owner_of entry q route s
  by_listing :
      (m : ProjectRole)
      → route.policy ≡ some (needs_role m listing)
      → Passes owner_of entry q route s
  by_socket :
      (policy : Policy)
      → route.policy ≡ some policy
      → route.is_ws ≡ true
      → Passes owner_of entry q route s
  without_id :
      (m : ProjectRole) (place : Place) (name : String) (kind : ResourceKind) (user : String)
      → route.policy ≡ some (needs_role m (at place name kind))
      → q.user_id ≡ some user
      → (q.field place name ≡ none) ⊎ (q.field place name ≡ some "")
      → Passes owner_of entry q route s
  by_role :
      (m : ProjectRole) (place : Place) (name : String) (kind : ResourceKind) (user raw : String)
      (g : AccessGrant)
      → route.policy ≡ some (needs_role m (at place name kind))
      → q.user_id ≡ some user
      → q.field place name ≡ some raw
      → (require_for_resource entry user owner_of kind raw m s).1 ≡ answer g
      → Passes owner_of entry q route s

module _ (owner_of : ResourceKind → String → Option String) (entry : Entry) (q : Request)
    (route : Route) (s : Store) where
  value-Passes :
      (m : ProjectRole) (place : Place) (name : String) (kind : ResourceKind) (user : String)
      → route.policy ≡ some (needs_role m (at place name kind))
      → q.user_id ≡ some user
      → (o : Option String) → q.field place name ≡ o
      → (guard_value owner_of entry q m kind user o s).1 ≡ answer true
      → Passes owner_of entry q route s
  value-Passes m place name kind user declared session none absent e =
      Passes.without_id m place name kind user declared session (inl absent)
  value-Passes m place name kind user declared session (some raw) present e =
      elim (Bool-cases (str_eq raw "")) [
        | inl empty ↦
            let same : raw ≡ "" = (eq_iff raw "").0 empty in
            Passes.without_id m place name kind user declared session (inr (present ∙ ap some same))
        | inr given ↦
            of_response ((require_for_resource entry user owner_of kind raw m s).1) refl
              (ground (arith, given))
      ]
    where
      of_response :
          (r : Response AccessGrant)
          → (require_for_resource entry user owner_of kind raw m s).1 ≡ r
          → passed owner_of entry q r ≡ answer true
          → Passes owner_of entry q route s
      of_response (throws x) found v = cc
      of_response (answer g) found v =
          Passes.by_role m place name kind user raw g declared session present found

  user-Passes :
      (m : ProjectRole) (place : Place) (name : String) (kind : ResourceKind) (o : Option String)
      → route.policy ≡ some (needs_role m (at place name kind))
      → q.user_id ≡ o
      → (guard_user owner_of entry q m place name kind o s).1 ≡ answer true
      → Passes owner_of entry q route s
  user-Passes m place name kind none declared session e = cc
  user-Passes m place name kind (some user) declared session e =
      elim (Bool-cases (str_eq user "")) [
        | inl empty ↦ absurd (ground (arith, empty))
        | inr given ↦
            value-Passes m place name kind user declared session (q.field place name) refl
              (ground (arith, given))
      ]

  policy-Passes :
      (o : Option Policy)
      → route.policy ≡ o
      → (guard_policy owner_of entry q route.is_ws o s).1 ≡ answer true
      → Passes owner_of entry q route s
  policy-Passes none declared e = cc
  policy-Passes (some (no_role reason)) declared e = Passes.by_exception reason declared
  policy-Passes (some (needs_role m listing)) declared e = Passes.by_listing m declared
  policy-Passes (some (needs_role m (at place name kind))) declared e =
      elim (Bool-cases route.is_ws) [
        | inl socket ↦ Passes.by_socket (needs_role m (at place name kind)) declared socket
        | inr http ↦ user-Passes m place name kind q.user_id declared refl (ground (arith, http))
      ]

  -- The guard lets a request through only if the route is public, or declares a policy that the
  -- request meets: a role on a resource that the request names is one that the user has.
  pub can_activate-Passes :
      (can_activate owner_of entry q route s).1 ≡ answer true → Passes owner_of entry q route s
  unfolding can_activate
  can_activate-Passes e = elim (Bool-cases route.is_public) [
    | inl public ↦ Passes.is_open public
    | inr closed ↦ policy-Passes route.policy refl (ground (arith, closed))
  ]
