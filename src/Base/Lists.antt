-- ===== src/Base/Lists.antt =====
-- Lists: what the source does with arrays, tables and filters, over the native numbers.
use Prim.Native.Nat.{ℕ, zero, suc, ◌≤◌}
use mathlib.Core.Bool.{Bool, true, false, not, ◌&&◌, ◌||◌}
use mathlib.Core.Logic.{inl, inr}
use mathlib.Core.Path.{◌≡◌, refl, subst}
use mathlib.Core.List.{List, [], ◌∷◌, ◌++◌, map}
use mathlib.Core.Option.{Option, none, some}
use native.Mathlib.Omega.{arith}
use tjc_be_rag_core_api.Base.Tests.{if◌then◌else◌, Bool-cases}

module _ {ℓ} {A : Type ℓ} where
  abbrev pub length : List A → ℕ
  length [] = 0
  length (x ∷ xs) = suc (length xs)

  abbrev pub take : ℕ → List A → List A
  take zero xs = []
  take (suc n) [] = []
  take (suc n) (x ∷ xs) = x ∷ take n xs

  abbrev pub drop : ℕ → List A → List A
  drop zero xs = xs
  drop (suc n) [] = []
  drop (suc n) (x ∷ xs) = drop n xs

  -- `some`, `every`, `filter` and `find` of a JavaScript array.
  abbrev pub any : (A → Bool) → List A → Bool
  any p [] = false
  any p (x ∷ xs) = p x || any p xs

  abbrev pub all : (A → Bool) → List A → Bool
  all p [] = true
  all p (x ∷ xs) = p x && all p xs

  abbrev pub keep : (A → Bool) → List A → List A
  keep p [] = []
  keep p (x ∷ xs) = if p x then x ∷ keep p xs else keep p xs

  abbrev pub find : (A → Bool) → List A → Option A
  find p [] = none
  find p (x ∷ xs) = if p x then some x else find p xs

  -- How many elements pass a test.
  abbrev pub tally : (A → Bool) → List A → ℕ
  tally p [] = 0
  tally p (x ∷ xs) = if p x then suc (tally p xs) else tally p xs

  pub length-take : (n : ℕ) (xs : List A) → length (take n xs) ≤ n
  length-take zero xs = omega arith
  length-take (suc n) [] = omega arith
  length-take (suc n) (x ∷ xs) = omega (arith, length-take n xs)

module _ {ℓ} {A : Type ℓ} (p : A → Bool) where
  -- What a search finds passes its test.
  pub find-passes : (xs : List A) (x : A) → find p xs ≡ some x → p x ≡ true
  find-passes [] x e = cc
  find-passes (y ∷ xs) x e = elim (Bool-cases (p y)) [
    | inl here ↦ let same : y ≡ x = ground (arith, here) in subst (λ z. p z ≡ true) same here
    | inr other ↦ find-passes xs x (ground (arith, other))
  ]

  keep-find-none : (xs : List A) → find p (keep (λ x. not (p x)) xs) ≡ none
  keep-find-none [] = refl
  keep-find-none (x ∷ xs) = elim (Bool-cases (p x)) [
    | inl here ↦ ground (arith, here, keep-find-none xs)
    | inr other ↦ ground (arith, other, keep-find-none xs)
  ]

module _ {ℓ} {A : Type ℓ} (p q : A → Bool) where
  -- Where one test implies another, no more elements pass the first.
  pub tally-implied : ((x : A) → p x ≡ true → q x ≡ true) → (xs : List A) → tally p xs ≤ tally q xs
  tally-implied below [] = omega arith
  tally-implied below (x ∷ xs) = elim (Bool-cases (p x)) [
    | inl here ↦ ground (arith, here, below x here, tally-implied below xs)
    | inr other ↦ elim (Bool-cases (q x)) [
      | inl alone ↦ ground (arith, other, alone, tally-implied below xs)
      | inr neither ↦ ground (arith, other, neither, tally-implied below xs)
    ]
  ]

module _ {ℓ} {A : Type ℓ} (p : A → Bool) where
  -- Where a change makes no element pass, no more pass.
  pub tally-map :
      (f : A → A)
      → ((x : A) → p (f x) ≡ true → p x ≡ true)
      → (xs : List A) → tally p (map f xs) ≤ tally p xs
  tally-map f keeps [] = omega arith
  tally-map f keeps (x ∷ xs) = elim (Bool-cases (p (f x))) [
    | inl stays ↦ ground (arith, stays, keeps x stays, tally-map f keeps xs)
    | inr goes ↦ elim (Bool-cases (p x)) [
      | inl had ↦ ground (arith, goes, had, tally-map f keeps xs)
      | inr never ↦ ground (arith, goes, never, tally-map f keeps xs)
    ]
  ]

module _ {ℓ κ} {A : Type ℓ} (P : A → Type κ) where
  abbrev pub All : List A → Type κ
  All [] = Unit
  All (x ∷ xs) = P x × All xs

  pub All-append : (xs ys : List A) → All xs → All ys → All (xs ++ ys)
  All-append [] ys a b = b
  All-append (x ∷ xs) ys (h, hs) b = (h, All-append xs ys hs b)

  pub All-take : (n : ℕ) (xs : List A) → All xs → All (take n xs)
  All-take zero xs h = tt
  All-take (suc n) [] h = tt
  All-take (suc n) (x ∷ xs) (h, hs) = (h, All-take n xs hs)

  -- What a filter keeps has the property that its test decides.
  pub All-keep : (p : A → Bool) → ((x : A) → p x ≡ true → P x) → (xs : List A) → All (keep p xs)
  All-keep p sound [] = tt
  All-keep p sound (x ∷ xs) = go (p x) refl (All-keep p sound xs)
    where
      go : (b : Bool) → p x ≡ b → All (keep p xs) → All (if b then x ∷ keep p xs else keep p xs)
      go true e h = (sound x e, h)
      go false e h = h
