-- ===== src/Events/Effects.antt =====
-- The events of GitHub, in app/src/github-webhooks, and the effects of which each is made.
use tjc_be_rag_core_api.Base.{
  ℕ, ◌≡◌, refl, find, find-passes, arith, eq_iff, subst, sym, String, Bool, true, false, not, ◌&&◌,
  Option, none, some, List, [], ◌∷◌, if◌then◌else◌, codes,
}
use tjc_be_rag_core_api.Errors.{Response}
use tjc_be_rag_core_api.Access.{Store, Project, Binding}
use tjc_be_rag_core_api.Identity.{Link}
use tjc_be_rag_core_api.Organizations.{
  ProjectFaults, hide, suspend_by_installation, unsuspend_by_installation,
}
use tjc_be_rag_core_api.Reverify.{ReverifyScope, parse_reverify_payload, write_payload}
use tjc_be_rag_core_api.Access.Organization.{is_github_id}
use tjc_be_rag_core_api.Events.{
  AccessEventName, AccessPayload, Desk, is_binding_of, github_id_of, enqueue, in_world,
  handle_access,
}
use tjc_be_rag_core_api.Events.Bindings.{
  RepositoryPayload, BoundProject, find_bound, as_bound, as_bound_of, update_repository_name,
  revoke_bound, handle_repository, InstallationPayload, handle_installation,
  handle_installation_repositories,
}

-- The events that reach records and bindings.
pub data GithubEvent : Type 0 where
  of_access : AccessEventName → AccessPayload → GithubEvent
  of_repository_event : RepositoryPayload → GithubEvent
  of_installation : InstallationPayload → GithubEvent
  of_installation_repositories : String → String → List String → GithubEvent

unfoldable pub handle_event : ProjectFaults → List Link → GithubEvent → Desk → Desk
unfolding handle_access handle_repository handle_installation handle_installation_repositories
handle_event faults links (of_access name p) d = (handle_access faults name p d).0
handle_event faults links (of_repository_event p) d = (handle_repository faults links p d).0
handle_event faults links (of_installation p) d = handle_installation faults p d
handle_event faults links (of_installation_repositories action id removed) d =
    handle_installation_repositories faults action id removed d

-- A scope that the job of the reverification reads back as it was written.
abbrev pub IsReadable : ReverifyScope → Type 0
IsReadable s =
    parse_reverify_payload (write_payload s 0) ≡ some (record { scope = s; deferrals = 0 })

-- A property of the state that each effect of an event keeps.
pub record IsKept (faults : ProjectFaults) (H : Desk → Type 0) : Type 0 where
  pub enqueued : (s : ReverifyScope) (d : Desk) → IsReadable s → H d → H (enqueue s d)
  pub logged : (o login : String) (d : Desk) → H d → H (record d { logins = (o, login) ∷ d.logins })
  pub hidden : (o : String) (d : Desk) → H d → H (in_world d (hide faults o d.world)).0
  pub revoked_bound : (b : BoundProject) (d : Desk) → H d → H (revoke_bound faults b d).0
  pub renamed_repository :
      (id name : String) (d : Desk)
      → H d
      → H (record d {
        world = record d.world { store = update_repository_name id name d.world.store };
      })
  pub suspended :
      (id : String) (d : Desk)
      → H d
      → H (record d { world = record d.world { store = suspend_by_installation id d.world.store } })
  pub resumed :
      (id : String) (d : Desk)
      → H d
      → H (record d {
        world = record d.world { store = unsuspend_by_installation id d.world.store };
      })

-- What is read as an id of GitHub is one.
unfoldable pub IsId : Option String → Type 0
IsId none = Unit
IsId (some s) = is_github_id (codes s) ≡ true

pub github_id_of-IsId : (o : Option String) → IsId (github_id_of o)
unfolding github_id_of IsId
github_id_of-IsId none = tt
github_id_of-IsId (some s) = go (is_github_id (codes s)) refl
  where
    go : (b : Bool) → is_github_id (codes s) ≡ b → IsId (if b then some s else none)
    go true e = e
    go false e = tt

pub one_id :
    (make : List ℕ → ReverifyScope)
    → ((c : ℕ) (cs : List ℕ) → IsReadable (make (c ∷ cs)))
    → (cs : List ℕ) → is_github_id cs ≡ true
    → IsReadable (make cs)
one_id make good [] e = absurd (ground arith)
one_id make good (c ∷ cs) e = good c cs

pub two_ids :
    (make : List ℕ → List ℕ → ReverifyScope)
    → ((c : ℕ) (cs : List ℕ) (x : ℕ) (xs : List ℕ) → IsReadable (make (c ∷ cs) (x ∷ xs)))
    → (cs xs : List ℕ) → is_github_id cs ≡ true
    → is_github_id xs ≡ true
    → IsReadable (make cs xs)
two_ids make good [] xs e f = absurd (ground arith)
two_ids make good (c ∷ cs) xs e f = one_id (make (c ∷ cs)) (good c cs) xs f

-- The repository of a binding that was found is one with an id of GitHub.
unfoldable pub IsBoundTo : Option BoundProject → Type 0
IsBoundTo none = Unit
IsBoundTo (some b) = is_github_id (codes b.binding.repository_id) ≡ true

as_bound-IsBoundTo :
    (id : String) (o : Option Project)
    → is_github_id (codes id) ≡ true
    → ((p : Project) → o ≡ some p → is_binding_of id p.binding ≡ true)
    → IsBoundTo (as_bound o)
unfolding IsBoundTo
as_bound-IsBoundTo id none good found = tt
as_bound-IsBoundTo id (some p) good found = go p.binding (found p refl)
  where
    go : (c : Option Binding) → is_binding_of id c ≡ true → IsBoundTo (as_bound_of p c)
    go none e = tt
    go (some c) e =
        let same : c.repository_id ≡ id = (eq_iff c.repository_id id).0 e in
        subst (λ x. is_github_id (codes x) ≡ true) (sym same) good

pub find_bound-IsBoundTo :
    (id : String) (s : Store) → is_github_id (codes id) ≡ true → IsBoundTo (find_bound id s)
unfolding find_bound
find_bound-IsBoundTo id s good =
    as_bound-IsBoundTo id (find (λ p. not p.deleted && is_binding_of id p.binding) s.projects) good
      (λ p e.
        let passes =
          find-passes (λ q. not q.deleted && is_binding_of id q.binding) s.projects p e in
        ground (arith, passes))

module _ (H : Desk → Type 0) where
  pub if-Has : (b : Bool) (x y : Desk) → H x → H y → H (if b then x else y)
  if-Has true x y hx hy = hx
  if-Has false x y hx hy = hy

  pub either-Has :
      (b : Bool) (x y : Desk × Response Unit) → H x.0 → H y.0 → H (if b then x else y).0
  either-Has true x y hx hy = hx
  either-Has false x y hx hy = hy
