-- ===== src/Reconciliations/Batches.antt =====
-- Batches of the rows after a cursor, in the order of their ids: what a batch leaves out comes after its
-- last row (`findLiveForReconciliation` in
-- app/src/repository-bindings/repository-bindings.repository.ts).
use tjc_be_rag_core_api.Base.{
  ℕ, zero, suc, ◌≤◌, ◌<◌, Bool, true, false, ◌||◌, not, Option, none, some, List, [], ◌∷◌, arith,
  ◌≡◌, refl, ap, subst, ◌==◌, ltb, any, take, length, inl, inr, Bool-cases, All, ltb→lt, lt→ltb,
  find, ◌⊎◌, if◌then◌else◌,
}
use tjc_be_rag_core_api.Access.{Store, Project, Binding}
use tjc_be_rag_core_api.Events.Bindings.{BoundProject, as_bound, as_bound_of}
use tjc_be_rag_core_api.Reconciliations.{
  BindingPlace, ReadBinding, is_after, is_live_at, reading_then, readings, last_place,
  has_live_binding,
}

-- Each row comes after the one before it.
abbrev Ascends : Option ℕ → List ReadBinding → Type 0
Ascends cursor [] = Unit
Ascends cursor (b ∷ bs) = (is_after cursor b.place ≡ true) × Ascends (some b.place) bs

abbrev pub IsInOrder : Option ℕ → List BindingPlace → Type 0
IsInOrder before [] = Unit
IsInOrder before (r ∷ rs) = (is_after before r.place ≡ true) × IsInOrder (some r.place) rs

abbrev pub has_place : ℕ → List ReadBinding → Bool
has_place n bs = any (λ b. b.place == n) bs

after_trans : (c : Option ℕ) (m n : ℕ) → is_after c m ≡ true → ltb m n ≡ true → is_after c n ≡ true
after_trans none m n h k = refl
after_trans (some c) m n h k = lt→ltb c n (omega (arith, ltb→lt c m h, ltb→lt m n k))

has-after :
    (c : Option ℕ) (bs : List ReadBinding) (n : ℕ)
    → Ascends c bs
    → has_place n bs ≡ true
    → is_after c n ≡ true
has-after c [] n a h = ground (arith, h)
has-after c (b ∷ bs) n (a, as') h = elim (Bool-cases (b.place == n)) [
  | inl here ↦
      let same : b.place ≡ n = ground (arith, here) in subst (λ k. is_after c k ≡ true) same a
  | inr there ↦
      after_trans c b.place n a (has-after (some b.place) bs n as' (ground (arith, there, h)))
]

-- What is not taken comes after the last that is.
pub take-later :
    (c : Option ℕ) (m : ℕ) (bs : List ReadBinding) (n : ℕ)
    → Ascends c bs
    → has_place n bs ≡ true
    → (has_place n (take m bs) || is_after (last_place c (take m bs)) n) ≡ true
take-later c zero bs n a h = has-after c bs n a h
take-later c (suc m) [] n a h = ground (arith, h)
take-later c (suc m) (b ∷ bs) n (a, as') h = elim (Bool-cases (b.place == n)) [
  | inl here ↦ ground (arith, here)
  | inr there ↦
      let rest = take-later (some b.place) m bs n as' (ground (arith, there, h)) in
      ground (arith, there, rest)
]

pub take-take : {A : Type 0} (m n : ℕ) (xs : List A) → (k : ℕ) × (take m (take n xs) ≡ take k xs)
take-take zero n xs = (zero, refl)
take-take (suc m) zero xs = (zero, refl)
take-take (suc m) (suc n) [] = (zero, refl)
take-take (suc m) (suc n) (x ∷ xs) =
    let rest = take-take m n xs in (suc rest.0, ap (λ ys. x ∷ ys) rest.1)

pub take-whole : {A : Type 0} (n : ℕ) (xs : List A) → length (take n xs) < n → take n xs ≡ xs
take-whole zero xs h = ground (arith, h)
take-whole (suc n) [] h = refl
take-whole (suc n) (x ∷ xs) h = ap (λ ys. x ∷ ys) (take-whole n xs (omega (arith, h)))

pub take-all : {A : Type 0} (n : ℕ) (xs : List A) → length xs ≤ length (take n xs) → take n xs ≡ xs
take-all zero [] h = refl
take-all zero (x ∷ xs) h = ground (arith, h)
take-all (suc n) [] h = refl
take-all (suc n) (x ∷ xs) h = ap (λ ys. x ∷ ys) (take-all n xs (omega (arith, h)))

module _ (s : Store) where
  weaker :
      (c : Option ℕ) (m : ℕ) (bs : List ReadBinding)
      → is_after c m ≡ true
      → Ascends (some m) bs
      → Ascends c bs
  weaker c m [] h a = tt
  weaker c m (b ∷ bs) h (a, as') = (after_trans c m b.place h a, as')

  -- The rows that are read after a cursor ascend, and are after what came before.
  above :
      (cursor before : Option ℕ) (rs : List BindingPlace)
      → IsInOrder before rs
      → Ascends before (readings cursor s rs)
  above cursor before [] o = tt
  above cursor before (r ∷ rs) (o, os) =
      go (as_bound (find (is_live_at r) s.projects)) (above cursor (some r.place) rs os)
    where
      go :
          (b : Option BoundProject)
          → Ascends (some r.place) (readings cursor s rs)
          → Ascends before (reading_then cursor r.place b (readings cursor s rs))
      go none rest = weaker before r.place (readings cursor s rs) o rest
      go (some b) rest =
          elim (is_after cursor r.place)
            as (λ t. Ascends before (
              if t
              then record { place = r.place; bound = b } ∷ readings cursor s rs
              else readings cursor s rs)) [
                | true ↦ (o, rest)
                | false ↦ weaker before r.place (readings cursor s rs) o rest
              ]

  loosen : (m : ℕ) (rs : List BindingPlace) → IsInOrder (some m) rs → IsInOrder none rs
  loosen m [] o = tt
  loosen m (r ∷ rs) (o, os) = (refl, os)

  pub readings-Ascends :
      (cursor : Option ℕ) (rs : List BindingPlace)
      → IsInOrder none rs
      → Ascends cursor (readings cursor s rs)
  readings-Ascends cursor [] o = tt
  readings-Ascends cursor (r ∷ rs) (o, os) =
      go (as_bound (find (is_live_at r) s.projects)) (above cursor (some r.place) rs os)
        (readings-Ascends cursor rs (loosen r.place rs os))
    where
      go :
          (b : Option BoundProject)
          → Ascends (some r.place) (readings cursor s rs)
          → Ascends cursor (readings cursor s rs)
          → Ascends cursor (reading_then cursor r.place b (readings cursor s rs))
      go none rest skip = skip
      go (some b) rest skip =
          elim (is_after cursor r.place)
              as (λ t.
                (is_after cursor r.place ≡ t)
                → Ascends cursor (
                    if t
                    then record { place = r.place; bound = b } ∷ readings cursor s rs
                    else readings cursor s rs)) [ true ↦ λ e. (e, rest) | false ↦ λ e. skip ]
            refl

-- A row that is live is read.
bound_when_live :
    (r : BindingPlace) (ps : List Project)
    → any (is_live_at r) ps ≡ true
    → (b : BoundProject) × (as_bound (find (is_live_at r) ps) ≡ some b)
bound_when_live r [] h = ground (arith, h)
bound_when_live r (p ∷ ps) h = go (Bool-cases (is_live_at r p)) (bound_when_live r ps)
  where
    bound_of :
        (o : Option Binding)
        → has_live_binding o ≡ true
        → (b : BoundProject) × (as_bound_of p o ≡ some b)
    bound_of none e = ground (arith, e)
    bound_of (some b) e = (record { project = p; binding = b }, refl)

    go :
        (is_live_at r p ≡ true) ⊎ (is_live_at r p ≡ false)
        → (any (is_live_at r) ps ≡ true
            → (b : BoundProject) × (as_bound (find (is_live_at r) ps) ≡ some b))
        → (b : BoundProject) × (as_bound (find (is_live_at r) (p ∷ ps)) ≡ some b)
    go (inl here) rest =
        let lives : has_live_binding p.binding ≡ true = ground (arith, here) in
        let found : find (is_live_at r) (p ∷ ps) ≡ some p = ground (arith, here) in
        rw found (bound_of p.binding lives)
    go (inr there) rest =
        let skipped : find (is_live_at r) (p ∷ ps) ≡ find (is_live_at r) ps =
          ground (arith, there) in
        rw skipped (rest (ground (arith, there, h)))

abbrev pub is_live : Store → BindingPlace → Bool
is_live s r = any (is_live_at r) s.projects

-- The rows that are live and come after the cursor are in the batch, if nothing limits it.
abbrev pub is_in : Option ℕ → Store → List ReadBinding → BindingPlace → Bool
is_in cursor s bs r = not (is_live s r) || not (is_after cursor r.place) || has_place r.place bs

module _ (cursor : Option ℕ) (s : Store) where
  one_more :
      (n : ℕ) (o : Option BoundProject) (bs : List ReadBinding) (rs : List BindingPlace)
      → All (λ r. is_in cursor s bs r ≡ true) rs
      → All (λ r. is_in cursor s (reading_then cursor n o bs) r ≡ true) rs
  one_more n o bs [] h = tt
  one_more n o bs (r ∷ rs) (h, hs) = (go o, one_more n o bs rs hs)
    where
      go : (o : Option BoundProject) → is_in cursor s (reading_then cursor n o bs) r ≡ true
      go none = h
      go (some b) = elim (Bool-cases (is_after cursor n)) [
        | inl late ↦ rw late (ground (arith, h))
        | inr early ↦ rw early h
      ]

  pub readings-All_in :
      (rs : List BindingPlace) → All (λ r. is_in cursor s (readings cursor s rs) r ≡ true) rs
  readings-All_in [] = tt
  readings-All_in (r ∷ rs) = (
    here (Bool-cases (is_live s r)) (Bool-cases (is_after cursor r.place)),
    one_more r.place (as_bound (find (is_live_at r) s.projects)) (readings cursor s rs) rs
        (readings-All_in rs),
  )
    where
      here :
          (is_live s r ≡ true) ⊎ (is_live s r ≡ false)
          → (is_after cursor r.place ≡ true) ⊎ (is_after cursor r.place ≡ false)
          → is_in cursor s (readings cursor s (r ∷ rs)) r ≡ true
      here (inr dead) place = ground (arith, dead)
      here (inl lives) (inr before) = ground (arith, before)
      here (inl lives) (inl after) =
          let found = bound_when_live r s.projects lives in rw found.1 (rw after (ground arith))
