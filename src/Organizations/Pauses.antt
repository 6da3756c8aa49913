-- ===== src/Organizations/Pauses.antt =====
-- The pause of an installation, in app/src/repository-bindings/repository-bindings.repository.ts: what
-- `suspend` does is undone by `unsuspend`.
use tjc_be_rag_core_api.Base.{
  String, true, false, ◌&&◌, none, some, List, [], ◌∷◌, map, str_eq, arith, ◌≡◌, refl, ap, All, inl,
  inr, Bool-cases, Option-cases,
}
use tjc_be_rag_core_api.Access.{BindingStatus, enabled, disabled, revoked, Binding, Project, Store}
use tjc_be_rag_core_api.Organizations.{
  is_enabled, is_disabled, is_suspension, suspend_binding, resume_binding, on_binding,
  suspend_by_installation, unsuspend_by_installation,
}

-- A binding that is not suspended, and that has no reason if it is enabled.
abbrev pub IsClear : Binding → Type 0
IsClear b =
    (is_enabled b.status ≡ true → b.disabled_reason ≡ none)
    × ((is_disabled b.status && is_suspension b.disabled_reason) ≡ false)

is_enabled-enabled : (status : BindingStatus) → is_enabled status ≡ true → status ≡ enabled
is_enabled-enabled enabled e = refl
is_enabled-enabled disabled e = absurd (ground arith)
is_enabled-enabled revoked e = absurd (ground arith)

module _ (installation_id : String) where
  resume-suspend :
      (b : Binding)
      → (str_eq b.installation_id installation_id ≡ true → IsClear b)
      → resume_binding installation_id (suspend_binding installation_id b) ≡ b
  resume-suspend b clear = elim (Bool-cases (str_eq b.installation_id installation_id)) [
    | inl mine ↦ elim (Bool-cases (is_enabled b.status)) [
      | inl live ↦ ground (arith, mine, live, (clear mine).0 live, is_enabled-enabled b.status live)
      | inr off ↦ ground (arith, mine, off, (clear mine).1)
    ]
    | inr other ↦ ground (arith, other)
  ]

  on_binding-resume :
      (p : Project)
      → ((b : Binding)
          → p.binding ≡ some b
          → str_eq b.installation_id installation_id ≡ true
          → IsClear b)
      → on_binding (resume_binding installation_id) (on_binding (suspend_binding installation_id) p)
        ≡ p
  on_binding-resume p clear = elim (Option-cases p.binding) [
    | inl unbound ↦ ground (arith, unbound)
    | inr (b, bound) ↦ ground (arith, bound, resume-suspend b (clear b bound))
  ]

  all_back :
      (ps : List Project)
      → All
          (λ p.
            (b : Binding)
            → p.binding ≡ some b
            → str_eq b.installation_id installation_id ≡ true
            → IsClear b)
          ps
      → map
          (on_binding (resume_binding installation_id))
          (map (on_binding (suspend_binding installation_id)) ps)
        ≡ ps
  all_back [] h = refl
  all_back (p ∷ ps) (h, hs) = cc (on_binding-resume p h, all_back ps hs)

  -- A suspension that is lifted leaves every binding as it was, those that a user paused and those
  -- that are revoked included, if none of the installation was suspended before, and none of its own
  -- that is enabled carried a reason.
  pub unsuspend_by_installation-suspend_by_installation :
      (s : Store)
      → All
          (λ p.
            (b : Binding)
            → p.binding ≡ some b
            → str_eq b.installation_id installation_id ≡ true
            → IsClear b)
          s.projects
      → unsuspend_by_installation installation_id (suspend_by_installation installation_id s) ≡ s
  unfolding unsuspend_by_installation suspend_by_installation
  unsuspend_by_installation-suspend_by_installation s clear =
      ap (λ ps. record s { projects = ps }) (all_back s.projects clear)
