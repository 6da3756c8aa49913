-- ===== src/Reconciliations/Rounds.antt =====
-- The check of the rows of one batch, one after another (`reconcileBindings` of
-- app/src/access-sync/access-reconciliation.job-handler.ts): what it counts and what it leaves.
use tjc_be_rag_core_api.Base.{
  ℕ, zero, suc, ◌+◌, ◌<◌, Bool, true, false, not, ◌||◌, Option, none, some, List, [], ◌∷◌, arith,
  ◌≡◌, refl, ◌∙◌, ltb, ◌==◌, any, take, length, All, inl, inr, Bool-cases,
}
use tjc_be_rag_core_api.Reconciliations.{
  BindingPlace, ReadBinding, is_after, Outcome, Pass, Summary, count, Surroundings,
  reconcile_binding, reconcile_each, last_place, is_empty,
}
use tjc_be_rag_core_api.Reconciliations.Batches.{has_place}
use tjc_be_rag_core_api.Reconciliations.Worlds.{Dwindles, reconcile_binding-Dwindles}

abbrev pub has_read : ℕ → List ℕ → Bool
has_read n reads = any (λ m. m == n) reads

abbrev pub is_later : Option ℕ → ℕ → Bool
is_later none n = false
is_later (some c) n = ltb c n

pub row_told :
    (live live' start read read' cur inside taken rest : Bool)
    → (live' ≡ true → live ≡ true)
    → (not live || not start || read || cur) ≡ true
    → (not live || not cur || inside) ≡ true
    → (inside ≡ true → (taken || rest) ≡ true)
    → read' ≡ (taken || read)
    → (not live' || not start || read' || rest) ≡ true
row_told live false start read read' cur inside taken rest d a b c e = refl
row_told live true start read read' cur inside taken rest d a b c e =
    let was : live ≡ true = d refl in
    elim (Bool-cases inside) [
      | inl here ↦ let t = c here in ground (arith, was, a, b, t, e)
      | inr away ↦ ground (arith, was, a, b, away, e)
    ]

pub All-both :
    {A : Type 0} (P Q S : A → Type 0)
    → ((a : A) → P a → Q a → S a)
    → (xs : List A) → All P xs
    → All Q xs
    → All S xs
All-both P Q S f [] p q = tt
All-both P Q S f (x ∷ xs) (p, ps) (q, qs) = (f x p q, All-both P Q S f xs ps qs)

count-checked : (o : Outcome) (s : Summary) → (count o s).checked ≡ s.checked + 1
count-checked Outcome.unchanged s = refl
count-checked Outcome.renamed s = refl
count-checked Outcome.gone s = refl
count-checked Outcome.unverified s = refl
count-checked Outcome.failed s = refl

count-cursor : (o : Outcome) (s : Summary) → (count o s).cursor ≡ s.cursor
count-cursor Outcome.unchanged s = refl
count-cursor Outcome.renamed s = refl
count-cursor Outcome.gone s = refl
count-cursor Outcome.unverified s = refl
count-cursor Outcome.failed s = refl

module _ (around : Surroundings) where
  pub each-checked :
      (bs : List ReadBinding) (p : Pass) (s : Summary)
      → ((reconcile_each around bs (p, s)).1).checked ≡ s.checked + length bs
  unfolding reconcile_each
  each-checked [] p s = omega arith
  each-checked (b ∷ bs) p s =
      let next = reconcile_binding around b.bound p.world in
      omega (
        arith,
        each-checked bs (record { world = next.0; reads = b.place ∷ p.reads }) (count next.1 s),
        count-checked next.1 s,
      )

  pub each-cursor :
      (bs : List ReadBinding) (p : Pass) (s : Summary)
      → ((reconcile_each around bs (p, s)).1).cursor ≡ s.cursor
  unfolding reconcile_each
  each-cursor [] p s = refl
  each-cursor (b ∷ bs) p s =
      let next = reconcile_binding around b.bound p.world in
      each-cursor bs (record { world = next.0; reads = b.place ∷ p.reads }) (count next.1 s)
      ∙ count-cursor next.1 s

  pub each-length :
      (bs : List ReadBinding) (p : Pass) (s : Summary)
      → length ((reconcile_each around bs (p, s)).0).reads ≡ length p.reads + length bs
  unfolding reconcile_each
  each-length [] p s = omega arith
  each-length (b ∷ bs) p s =
      let next = reconcile_binding around b.bound p.world in
      omega (
        arith,
        each-length bs (record { world = next.0; reads = b.place ∷ p.reads }) (count next.1 s),
      )

  pub each-reads :
      (n : ℕ) (bs : List ReadBinding) (p : Pass) (s : Summary)
      → has_read n ((reconcile_each around bs (p, s)).0).reads
        ≡ (has_place n bs || has_read n p.reads)
  unfolding reconcile_each
  each-reads n [] p s = refl
  each-reads n (b ∷ bs) p s =
      let next = reconcile_binding around b.bound p.world in
      ground (
        arith,
        each-reads n bs (record { world = next.0; reads = b.place ∷ p.reads }) (count next.1 s),
      )

  pub each-Dwindles :
      (r : BindingPlace) (bs : List ReadBinding) (p : Pass) (s : Summary)
      → Dwindles r p.world ((reconcile_each around bs (p, s)).0).world
  unfolding reconcile_each
  each-Dwindles r [] p s h = h
  each-Dwindles r (b ∷ bs) p s h =
      let next = reconcile_binding around b.bound p.world in
      reconcile_binding-Dwindles around r b.bound p.world (
        each-Dwindles r bs (record { world = next.0; reads = b.place ∷ p.reads }) (count next.1 s)
          h)

pub take-not_empty :
    (n : ℕ) (bs : List ReadBinding) → 0 < n → is_empty bs ≡ false → is_empty (take n bs) ≡ false
take-not_empty zero bs h e = ground (arith, h)
take-not_empty (suc n) [] h e = e
take-not_empty (suc n) (b ∷ bs) h e = refl

pub not_empty-length : (bs : List ReadBinding) → is_empty bs ≡ false → 0 < length bs
not_empty-length [] e = ground (arith, e)
not_empty-length (b ∷ bs) e = omega arith

pub empty-length : (bs : List ReadBinding) → is_empty bs ≡ true → length bs ≡ 0
empty-length [] e = refl
empty-length (b ∷ bs) e = ground (arith, e)

-- The last row of a batch that has one.
pub later_than_last :
    (c : Option ℕ) (bs : List ReadBinding) (n : ℕ)
    → is_empty bs ≡ false
    → is_later (last_place c bs) n ≡ is_after (last_place c bs) n
later_than_last c [] n e = ground (arith, e)
later_than_last c (b ∷ []) n e = refl
later_than_last c (b ∷ b' ∷ bs) n e = later_than_last (some b.place) (b' ∷ bs) n refl
