-- ===== src/Contexts/Budget.antt =====
-- The budget of tokens in app/src/retrieval/context-builder.service.ts.
use tjc_be_rag_core_api.Base.{
  ℕ, ◌+◌, ◌≤◌, Bool, true, false, List, [], ◌∷◌, arith, ◌≡◌, refl, max, ltb,
}
use tjc_be_rag_core_api.Contexts.{Fitted, taking, leaving, fit, sum}

module _ {A : Type 0} (tokens : A → ℕ) (limit : ℕ) where
  -- The tokens that are used stay below the limit, or are those that were used before.
  pub fit-le : (used : ℕ) (xs : List A) → (fit tokens limit used xs).used ≤ max used limit
  unfolding fit
  fit-le used [] = omega arith
  fit-le used (x ∷ xs) =
      go (ltb limit (used + tokens x)) refl (fit-le used xs) (fit-le (used + tokens x) xs)
    where
      go :
          (b : Bool)
          → ltb limit (used + tokens x) ≡ b
          → (fit tokens limit used xs).used ≤ max used limit
          → (fit tokens limit (used + tokens x) xs).used ≤ max (used + tokens x) limit
          → (elim b as (λ _. Fitted A) [
            | true ↦ leaving x (fit tokens limit used xs)
            | false ↦ taking x (fit tokens limit (used + tokens x) xs)
          ]).used
            ≤ max used limit
      go true e skip more = skip
      go false e skip more =
          let fits : used + tokens x ≤ limit = ground (arith, e) in omega (arith, fits, more)

  pub fit-sum :
      (used : ℕ) (xs : List A)
      → (fit tokens limit used xs).used ≡ used + sum tokens (fit tokens limit used xs).taken
  unfolding fit
  fit-sum used [] = omega arith
  fit-sum used (x ∷ xs) =
      go (ltb limit (used + tokens x)) (fit-sum used xs) (fit-sum (used + tokens x) xs)
    where
      go :
          (b : Bool)
          → (fit tokens limit used xs).used ≡ used + sum tokens (fit tokens limit used xs).taken
          → (fit tokens limit (used + tokens x) xs).used
            ≡ used + tokens x + sum tokens (fit tokens limit (used + tokens x) xs).taken
          → (let f = elim b as (λ _. Fitted A) [
            | true ↦ leaving x (fit tokens limit used xs)
            | false ↦ taking x (fit tokens limit (used + tokens x) xs)
          ] in
              f.used ≡ used + sum tokens f.taken)
      go true skip more = skip
      go false skip more = omega (arith, more)
