-- ===== src/Reverify/Keys.antt =====
-- `reverifyDedupeKey` of app/src/access-sync/access-reverify.scope.ts: one key for each scope.
use tjc_be_rag_core_api.Base.{
  ℕ, Bool, true, false, not, List, [], ◌∷◌, ◌++◌, arith, ◌≡◌, refl, sym, ap, ◌∙◌, if◌then◌else◌,
  ◌==◌, all, drop, inl, inr, Bool-cases,
}
use tjc_be_rag_core_api.Reverify.{
  ReverifyScope, everything, user_repository, user_organization, user_organization_repositories,
  of_repository, organization_repositories, reverify_dedupe_key, colon,
}

-- A text without a colon, as every id of GitHub is.
abbrev is_plain : List ℕ → Bool
is_plain t = all (λ c. not (c == colon)) t

-- The user id of a scope that has one is plain.
abbrev is_separable : ReverifyScope → Bool
is_separable (user_repository u r) = is_plain u
is_separable (user_organization u o) = is_plain u
is_separable (user_organization_repositories u o) = is_plain u
is_separable _ = true

-- A key is read back by the characters in which the kinds differ.
abbrev head_is : ℕ → List ℕ → Bool
head_is c [] = false
head_is c (x ∷ xs) = x == c

abbrev before : List ℕ → List ℕ
before [] = []
before (c ∷ cs) = let rest = before cs in if c == colon then [] else c ∷ rest

abbrev beyond : List ℕ → List ℕ
beyond [] = []
beyond (c ∷ cs) = let rest = beyond cs in if c == colon then cs else rest

abbrev two : (List ℕ → List ℕ → ReverifyScope) → List ℕ → ReverifyScope
two make t = make (before t) (beyond t)

abbrev read_key : List ℕ → ReverifyScope
read_key k =
    if head_is b'A' (drop 16 k)
    then everything
    else if head_is b'R' (drop 16 k)
    then of_repository (drop 27 k)
    else if head_is b'O' (drop 16 k)
    then organization_repositories (drop 42 k)
    else if head_is b'R' (drop 21 k)
    then two user_repository (drop 32 k)
    else if head_is colon (drop 33 k)
    then two user_organization (drop 34 k)
    else two user_organization_repositories (drop 47 k)

before-plain : (u r : List ℕ) → is_plain u ≡ true → before (u ++ (colon ∷ r)) ≡ u
before-plain [] r h = refl
before-plain (c ∷ cs) r h = elim (Bool-cases (c == colon)) [
  | inl bad ↦ absurd (ground (arith, bad))
  | inr good ↦ ground (arith, good, before-plain cs r (ground arith))
]

beyond-plain : (u r : List ℕ) → is_plain u ≡ true → beyond (u ++ (colon ∷ r)) ≡ r
beyond-plain [] r h = refl
beyond-plain (c ∷ cs) r h = elim (Bool-cases (c == colon)) [
  | inl bad ↦ absurd (ground (arith, bad))
  | inr good ↦ ground (arith, good, beyond-plain cs r (ground arith))
]

two_plain :
    (make : List ℕ → List ℕ → ReverifyScope) (u r : List ℕ)
    → is_plain u ≡ true
    → two make (u ++ (colon ∷ r)) ≡ make u r
two_plain make u r h = rw (before-plain u r h) (rw (beyond-plain u r h) refl)

read_key-reverify_dedupe_key :
    (s : ReverifyScope) → is_separable s ≡ true → read_key (reverify_dedupe_key s) ≡ s
unfolding reverify_dedupe_key
read_key-reverify_dedupe_key everything h = refl
read_key-reverify_dedupe_key (user_repository u r) h = two_plain user_repository u r h
read_key-reverify_dedupe_key (user_organization u o) h = two_plain user_organization u o h
read_key-reverify_dedupe_key (user_organization_repositories u o) h =
    two_plain user_organization_repositories u o h
read_key-reverify_dedupe_key (of_repository r) h = refl
read_key-reverify_dedupe_key (organization_repositories o) h = refl

-- Two scopes whose user ids have no colon have the same key only if they are the same scope, so no
-- event is absorbed by a job of another scope.
pub reverify_dedupe_key-injective :
    (s t : ReverifyScope)
    → is_separable s ≡ true
    → is_separable t ≡ true
    → reverify_dedupe_key s ≡ reverify_dedupe_key t
    → s ≡ t
reverify_dedupe_key-injective s t hs ht e =
    sym (read_key-reverify_dedupe_key s hs) ∙ ap read_key e ∙ read_key-reverify_dedupe_key t ht
