-- ===== src/Contexts/Ranking.antt =====
-- The order of the candidates in app/src/retrieval/context-builder.service.ts: to sort them all and then
-- to filter is to filter and then to sort.
use tjc_be_rag_core_api.Base.{
  ℕ, ◌≤◌, Bool, true, false, List, [], ◌∷◌, arith, ◌≡◌, refl, sym, ap, ◌∙◌, if◌then◌else◌, ltb, leb,
  keep, All, inl, inr, Bool-cases,
}
use tjc_be_rag_core_api.Contexts.{ContextCandidate, insert, sort}

abbrev Below : ContextCandidate → List ContextCandidate → Type 0
Below c ds = All (λ d. d.score ≤ c.score) ds

abbrev IsDescending : List ContextCandidate → Type 0
IsDescending [] = Unit
IsDescending (c ∷ cs) = Below c cs × IsDescending cs

Below-le :
    (c d : ContextCandidate) (ds : List ContextCandidate)
    → d.score ≤ c.score
    → Below d ds
    → Below c ds
Below-le c d [] le h = tt
Below-le c d (x ∷ xs) le (h, hs) = (omega (arith, le, h), Below-le c d xs le hs)

insert-Below :
    (x c : ContextCandidate) (ds : List ContextCandidate)
    → c.score ≤ x.score
    → Below x ds
    → Below x (insert c ds)
insert-Below x c [] le h = (le, tt)
insert-Below x c (d ∷ ds) le (h, hs) = go (ltb c.score d.score) (insert-Below x c ds le hs)
  where
    go : (b : Bool) → Below x (insert c ds) → Below x (if b then d ∷ insert c ds else c ∷ d ∷ ds)
    go true rest = (h, rest)
    go false rest = (le, (h, hs))

insert-IsDescending :
    (c : ContextCandidate) (ds : List ContextCandidate)
    → IsDescending ds
    → IsDescending (insert c ds)
insert-IsDescending c [] h = (tt, tt)
insert-IsDescending c (d ∷ ds) (h, hs) = go (ltb c.score d.score) refl (insert-IsDescending c ds hs)
  where
    go :
        (b : Bool)
        → ltb c.score d.score ≡ b
        → IsDescending (insert c ds)
        → IsDescending (if b then d ∷ insert c ds else c ∷ d ∷ ds)
    go true e rest = (insert-Below d c ds (ground (arith, e)) h, rest)
    go false e rest =
        let le : d.score ≤ c.score = ground (arith, e) in ((le, Below-le c d ds le h), (h, hs))

sort-IsDescending : (cs : List ContextCandidate) → IsDescending (sort cs)
sort-IsDescending [] = tt
sort-IsDescending (c ∷ cs) = insert-IsDescending c (sort cs) (sort-IsDescending cs)

insert_head :
    (c : ContextCandidate) (ds : List ContextCandidate) → Below c ds → insert c ds ≡ c ∷ ds
insert_head c [] h = refl
insert_head c (d ∷ ds) (h, hs) =
    let first : ltb c.score d.score ≡ false = ground (arith, h) in ground (arith, first)

keep-Below :
    (p : ContextCandidate → Bool) (c : ContextCandidate) (ds : List ContextCandidate)
    → Below c ds
    → Below c (keep p ds)
keep-Below p c [] h = tt
keep-Below p c (d ∷ ds) (h, hs) = go (p d) (keep-Below p c ds hs)
  where
    go : (b : Bool) → Below c (keep p ds) → Below c (if b then d ∷ keep p ds else keep p ds)
    go true rest = (h, rest)
    go false rest = rest

module _ (minimum : ℕ) where
  abbrev reaches : ContextCandidate → Bool
  reaches c = leb minimum c.score

  keep-insert_low :
      (c : ContextCandidate) (ds : List ContextCandidate)
      → reaches c ≡ false
      → keep reaches (insert c ds) ≡ keep reaches ds
  keep-insert_low c [] low = ground (arith, low)
  keep-insert_low c (d ∷ ds) low = go (ltb c.score d.score) (keep-insert_low c ds low)
    where
      head :
          (b : Bool)
          → keep reaches (insert c ds) ≡ keep reaches ds
          → (if b then d ∷ keep reaches (insert c ds) else keep reaches (insert c ds))
            ≡ (if b then d ∷ keep reaches ds else keep reaches ds)
      head true rest = ap (λ xs. d ∷ xs) rest
      head false rest = rest

      go :
          (b : Bool)
          → keep reaches (insert c ds) ≡ keep reaches ds
          → keep reaches (if b then d ∷ insert c ds else c ∷ d ∷ ds) ≡ keep reaches (d ∷ ds)
      go true rest = head (reaches d) rest
      go false rest = rw low refl

  keep-insert_high :
      (c : ContextCandidate) (ds : List ContextCandidate)
      → reaches c ≡ true
      → IsDescending ds
      → keep reaches (insert c ds) ≡ insert c (keep reaches ds)
  keep-insert_high c [] high h = rw high refl
  keep-insert_high c (d ∷ ds) high (h, hs) =
      go (ltb c.score d.score) refl (keep-insert_high c ds high hs)
    where
      go :
          (b : Bool)
          → ltb c.score d.score ≡ b
          → keep reaches (insert c ds) ≡ insert c (keep reaches ds)
          → keep reaches (if b then d ∷ insert c ds else c ∷ d ∷ ds)
            ≡ insert c (keep reaches (d ∷ ds))
      go true e rest =
          let higher : reaches d ≡ true = ground (arith, high, e) in
          rw higher (ground (arith, e, rest))
      go false e rest =
          let le : d.score ≤ c.score = ground (arith, e) in
          rw high (
            sym (
              insert_head c (keep reaches (d ∷ ds))
                (keep-Below reaches c (d ∷ ds) (le, Below-le c d ds le h))))

  -- The candidates are in descending order of score, and those that reach the minimum are, in that
  -- order, what sorting them alone gives.
  keep-sort :
      (cs : List ContextCandidate)
      → IsDescending (sort cs) × (keep reaches (sort cs) ≡ sort (keep reaches cs))
  keep-sort cs = (sort-IsDescending cs, filtered cs)
    where
      filtered : (xs : List ContextCandidate) → keep reaches (sort xs) ≡ sort (keep reaches xs)
      filtered [] = refl
      filtered (x ∷ xs) = elim (Bool-cases (reaches x)) [
        | inl high ↦
            let inserted = keep-insert_high x (sort xs) high (sort-IsDescending xs) in
            inserted ∙ ap (insert x) (filtered xs) ∙ rw high refl
        | inr low ↦ keep-insert_low x (sort xs) low ∙ filtered xs ∙ rw low refl
      ]
