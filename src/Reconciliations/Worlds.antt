-- ===== src/Reconciliations/Worlds.antt =====
-- What the check of one binding leaves of the world (`reconcileBinding` of
-- app/src/access-sync/access-reconciliation.job-handler.ts).
use tjc_be_rag_core_api.Base.{
  String, Bool, true, false, not, ◌&&◌, Option, none, some, List, [], ◌∷◌, arith, ◌≡◌, refl, sym,
  subst, any, map, inl, inr, Bool-cases, if◌then◌else◌, str_eq,
}
use tjc_be_rag_core_api.Errors.{Response, answer, throws}
use tjc_be_rag_core_api.Access.{Store, Project, Binding, BindingStatus, revoked, is_revoked}
use tjc_be_rag_core_api.Access.Organization.{Lookup, ok, not_found, not_installed, unverifiable}
use tjc_be_rag_core_api.Lifecycle.{
  World, update_project, update_status, user_ids, drop_access, revoke_binding, expected_owner_id,
  Faults, with_status,
}
use tjc_be_rag_core_api.Lifecycle.Bindings.{drop_users-projects}
use tjc_be_rag_core_api.Events.Bindings.{BoundProject, rename_repository, update_repository_name}
use tjc_be_rag_core_api.Reconciliations.{
  BindingPlace, is_live_at, GithubRepository, Outcome, Surroundings, revoked_by, is_elsewhere,
  revoke_read, rename_read, compare_repository, by_lookup, reconcile_binding,
}
use tjc_be_rag_core_api.Reconciliations.Batches.{is_live}

-- What is live afterwards was live before.
abbrev pub Dwindles : BindingPlace → World → World → Type 0
Dwindles r w w' = is_live w'.store r ≡ true → is_live w.store r ≡ true

any-map :
    {A : Type 0} (q : A → Bool) (f : A → A)
    → ((a : A) → q (f a) ≡ true → q a ≡ true)
    → (xs : List A) → any q (map f xs) ≡ true
    → any q xs ≡ true
any-map q f keeps [] h = h
any-map q f keeps (x ∷ xs) h = elim (Bool-cases (q (f x))) [
  | inl here ↦ ground (arith, keeps x here)
  | inr there ↦ ground (arith, there, any-map q f keeps xs (ground (arith, there, h)))
]

any-map_same :
    {A : Type 0} (q : A → Bool) (f : A → A)
    → ((a : A) → q (f a) ≡ q a)
    → (xs : List A) → any q (map f xs) ≡ any q xs
any-map_same q f same [] = refl
any-map_same q f same (x ∷ xs) = rw (same x) (rw (any-map_same q f same xs) refl)

-- Whichever way a test goes.
abbrev either :
    (Q : World × Outcome → Type 0) (t : Bool) (x y : World × Outcome)
    → Q x
    → Q y
    → Q (if t then x else y)
either Q true x y a b = a
either Q false x y a b = b

module _ (r : BindingPlace) where
  revoked_live :
      (id : String) (p : Project)
      → is_live_at r (update_project id revoked p) ≡ true
      → is_live_at r p ≡ true
  revoked_live id p h = go (str_eq p.id id) p.binding refl h
    where
      go :
          (b : Bool) (o : Option Binding)
          → p.binding ≡ o
          → is_live_at r (if b then record p { binding = with_status revoked p.binding } else p)
            ≡ true
          → is_live_at r p ≡ true
      go false o e h = h
      go true none e h = ground (arith, e, h)
      go true (some b) e h = ground (arith, e, h)

  renamed_live :
      (id name : String) (p : Project) → is_live_at r (rename_repository id name p) ≡ is_live_at r p
  renamed_live id name p = go (str_eq p.id id) p.binding refl
    where
      go :
          (b : Bool) (o : Option Binding)
          → p.binding ≡ o
          → is_live_at r (
              if b
              then record p {
                binding = elim p.binding [
                  | none ↦ none
                  | some b ↦ some (record b { repository_name = name })
                ];
              }
              else p)
            ≡ is_live_at r p
      go false o e = refl
      go true none e = ground (arith, e)
      go true (some b) e = ground (arith, e)

  update_repository_name-is_live :
      (id name : String) (s : Store) → is_live (update_repository_name id name s) r ≡ is_live s r
  unfolding update_repository_name
  update_repository_name-is_live id name s =
      any-map_same (is_live_at r) (rename_repository id name) (renamed_live id name) s.projects

  revoke_binding-Dwindles :
      (faults : Faults) (id : String) (status : BindingStatus) (w : World)
      → Dwindles r w (revoke_binding faults id status w).0
  unfolding revoke_binding drop_access user_ids update_status
  revoke_binding-Dwindles faults id status w = go (is_revoked status)
    where
      go :
          (b : Bool)
          → Dwindles r w
              (drop_access faults id false
                (if b then w else record w { store = update_status id revoked w.store })).0
      go true h =
          subst (λ ps. any (is_live_at r) ps ≡ true)
            (drop_users-projects faults id (user_ids false id w.store) (w.store, false)) h
      go false h =
          let s = update_status id revoked w.store in
          any-map (is_live_at r) (update_project id revoked) (revoked_live id) w.store.projects (
            subst (λ ps. any (is_live_at r) ps ≡ true)
              (drop_users-projects faults id (user_ids false id s) (s, false)) h)

module _ (around : Surroundings) (r : BindingPlace) where
  revoke_read-Dwindles : (b : BoundProject) (w : World) → Dwindles r w (revoke_read around b w).0
  revoke_read-Dwindles b w =
      go (revoke_binding (around.faults b.project.id) b.project.id b.binding.status w)
        (revoke_binding-Dwindles r (around.faults b.project.id) b.project.id b.binding.status w)
    where
      go : (d : World × Response Unit) → Dwindles r w d.0 → Dwindles r w (revoked_by d).0
      go (w', answer done) h = h
      go (w', throws e) h = h

  rename_read-Dwindles :
      (b : BoundProject) (name : String) (w : World) → Dwindles r w (rename_read around b name w).0
  rename_read-Dwindles b name w =
      either (λ d. Dwindles r w d.0) (around.refuses_name b.project.id) (w, Outcome.failed)
        (record w { store = update_repository_name b.project.id name w.store }, Outcome.renamed)
        (λ h. h)
        (subst (λ t. t ≡ true → is_live w.store r ≡ true)
          (sym (update_repository_name-is_live r b.project.id name w.store)) (λ h. h))

  compare_repository-Dwindles :
      (b : BoundProject) (g : GithubRepository) (w : World)
      → Dwindles r w (compare_repository around b g w).0
  compare_repository-Dwindles b g w =
      let owner = expected_owner_id b.project around.links in
      let moved = revoke_read around b w in
      let named = rename_read around b g.repository_name w in
      let other_name = not (str_eq g.repository_name b.binding.repository_name) in
      let inner : World × Outcome = if other_name then named else (w, Outcome.unchanged) in
      let outer : World × Outcome = if is_elsewhere owner g then moved else inner in
      either (λ d. Dwindles r w d.0) (not (str_eq g.repository_id b.binding.repository_id))
        (w, Outcome.unverified) outer (λ h. h)
        (either (λ d. Dwindles r w d.0) (is_elsewhere owner g) moved inner
          (revoke_read-Dwindles b w)
          (either (λ d. Dwindles r w d.0) other_name named (w, Outcome.unchanged)
            (rename_read-Dwindles b g.repository_name w) (λ h. h)))

  pub reconcile_binding-Dwindles :
      (b : BoundProject) (w : World) → Dwindles r w (reconcile_binding around b w).0
  unfolding reconcile_binding
  reconcile_binding-Dwindles b w =
      go (around.get_repository_by_id b.binding.installation_id b.binding.repository_id)
    where
      go : (l : Response (Lookup GithubRepository)) → Dwindles r w (by_lookup around b l w).0
      go (throws e) h = h
      go (answer unverifiable) h = h
      go (answer not_found) h = revoke_read-Dwindles b w h
      go (answer not_installed) h = revoke_read-Dwindles b w h
      go (answer (ok g)) h = compare_repository-Dwindles b g w h

-- GitHub says that the repository is gone, or belongs to another owner than the project's.
abbrev is_confirmed : Surroundings → BoundProject → Response (Lookup GithubRepository) → Bool
is_confirmed around b (throws e) = false
is_confirmed around b (answer unverifiable) = false
is_confirmed around b (answer not_found) = true
is_confirmed around b (answer not_installed) = true
is_confirmed around b (answer (ok g)) =
    str_eq g.repository_id b.binding.repository_id
    && is_elsewhere (expected_owner_id b.project around.links) g

abbrev pub IsUntouched : World → World × Outcome → Type 0
IsUntouched w d =
    ((d.0).store.records ≡ w.store.records)
    × ((d.0).registry ≡ w.registry)
    × ((r : BindingPlace) → is_live (d.0).store r ≡ is_live w.store r)

-- The check of a binding takes no record away, moves no socket and leaves every binding live that was,
-- unless GitHub confirms that the repository is gone or in other hands.
pub reconcile_binding-IsConfirmed :
    (around : Surroundings) (b : BoundProject) (w : World)
    → is_confirmed around b
        (around.get_repository_by_id b.binding.installation_id b.binding.repository_id)
      ≡ false
    → IsUntouched w (reconcile_binding around b w)
unfolding reconcile_binding update_repository_name
reconcile_binding-IsConfirmed around b w =
    go (around.get_repository_by_id b.binding.installation_id b.binding.repository_id)
  where
    still : (o : Outcome) → IsUntouched w (w, o)
    still o = (refl, refl, (λ r. refl))

    named : (name : String) → IsUntouched w (rename_read around b name w)
    named name =
        either (IsUntouched w) (around.refuses_name b.project.id) (w, Outcome.failed)
          (record w { store = update_repository_name b.project.id name w.store }, Outcome.renamed)
          (still Outcome.failed)
          (refl, refl, (λ r. update_repository_name-is_live r b.project.id name w.store))

    go :
        (l : Response (Lookup GithubRepository))
        → is_confirmed around b l ≡ false
        → IsUntouched w (by_lookup around b l w)
    go (throws e) h = still Outcome.failed
    go (answer unverifiable) h = still Outcome.unverified
    go (answer not_found) h = ground (arith, h)
    go (answer not_installed) h = ground (arith, h)
    go (answer (ok g)) h = elim (Bool-cases (str_eq g.repository_id b.binding.repository_id)) [
      | inr other ↦ rw other (still Outcome.unverified)
      | inl same ↦
          let here : is_elsewhere (expected_owner_id b.project around.links) g ≡ false =
            ground (arith, same, h) in
          rw same (
            rw here (
              either (IsUntouched w) (not (str_eq g.repository_name b.binding.repository_name))
                (rename_read around b g.repository_name w) (w, Outcome.unchanged)
                (named g.repository_name) (still Outcome.unchanged)))
    ]
