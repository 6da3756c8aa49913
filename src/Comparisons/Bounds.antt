-- ===== src/Comparisons/Bounds.antt =====
-- `computeRetrievalMetrics` of app/src/retrieval-comparisons/retrieval-comparison-metrics.ts: its
-- fractions are between 0 and 1.
use tjc_be_rag_core_api.Base.{
  ℕ, ◌-◌, ◌≤◌, ◌<◌, suc, Bool, true, false, Option, none, some, List, [], ◌∷◌, arith, ◌≡◌, refl,
  subst, inl, inr, Bool-cases, if◌then◌else◌, ltb, length, tally, tally-implied, map,
}
use tjc_be_rag_core_api.Comparisons.{
  Mode, Candidate, Ranked, Scored, number_from, symbol_qualified_name_of,
  rank_comparison_candidates, sort_entries, score_entry, pool, TruthItem, key_of, same_key, has_key,
  add_key, truth_keys, match_named, matched, hits_at, Fraction, Metrics, metrics_of,
  compute_retrieval_metrics,
}

same_key_refl : (a : List ℕ) → same_key a a ≡ true
same_key_refl [] = refl
same_key_refl (c ∷ cs) = ground (arith, same_key_refl cs)

same_key_eq : (a b : List ℕ) → same_key a b ≡ true → a ≡ b
same_key_eq [] [] e = refl
same_key_eq [] (d ∷ ds) e = absurd (ground arith)
same_key_eq (c ∷ cs) [] e = absurd (ground arith)
same_key_eq (c ∷ cs) (d ∷ ds) e =
    let head : c ≡ d = ground arith in let rest : cs ≡ ds = same_key_eq cs ds (ground arith) in cc

module _ (p q : List ℕ → Bool) (below : (x : List ℕ) → p x ≡ true → q x ≡ true) where
  -- A member that passes the second test alone makes the counts differ.
  tally_more :
      (k : List ℕ) (xs : List (List ℕ))
      → has_key k xs ≡ true
      → p k ≡ false
      → q k ≡ true
      → tally p xs < tally q xs
  tally_more k [] h np yq = absurd (ground arith)
  tally_more k (x ∷ xs) h np yq = elim (Bool-cases (same_key k x)) [
    | inl same ↦
        let e = same_key_eq k x same in
        let np' = subst (λ y. p y ≡ false) e np in
        let yq' = subst (λ y. q y ≡ true) e yq in
        ground (arith, np', yq', tally-implied p q below xs)
    | inr other ↦
        let rest = tally_more k xs (ground (arith, other)) np yq in
        elim (Bool-cases (p x)) [
          | inl yes1 ↦ ground (arith, yes1, below x yes1, rest)
          | inr no1 ↦ elim (Bool-cases (q x)) [
            | inl yes2 ↦ ground (arith, no1, yes2, rest)
            | inr no2 ↦ ground (arith, no1, no2, rest)
          ]
        ]
  ]

tally-length : (p : List ℕ → Bool) (xs : List (List ℕ)) → tally p xs ≤ length xs
tally-length p [] = omega arith
tally-length p (x ∷ xs) = elim (Bool-cases (p x)) [
  | inl yes1 ↦ ground (arith, yes1, tally-length p xs)
  | inr no1 ↦ ground (arith, no1, tally-length p xs)
]

-- Keys of the ground truth, none twice.
abbrev AreFound : List (List ℕ) → List (List ℕ) → Type 0
AreFound truth [] = Unit
AreFound truth (k ∷ ks) = (has_key k truth ≡ true) × (has_key k ks ≡ false) × AreFound truth ks

found-tally :
    (truth ks : List (List ℕ)) → AreFound truth ks → length ks ≤ tally (λ x. has_key x ks) truth
found-tally truth [] h = omega arith
found-tally truth (k ∷ ks) (inside, new, hs) =
    let rest = found-tally truth ks hs in
    let more =
      tally_more (λ x. has_key x ks) (λ x. has_key x (k ∷ ks)) (λ x e. ground (arith, e)) k truth
        inside new (ground (arith, same_key_refl k)) in
    omega (arith, rest, more)

module _ (truth : List (List ℕ)) (k : ℕ) where
  add_key-AreFound :
      (key : List ℕ) (ks : List (List ℕ))
      → has_key key truth ≡ true
      → AreFound truth ks
      → AreFound truth (add_key key ks)
  add_key-AreFound key ks inside h = go (has_key key ks) refl
    where
      go : (b : Bool) → has_key key ks ≡ b → AreFound truth (if b then ks else key ∷ ks)
      go true e = h
      go false e = (inside, e, h)

  match_named-AreFound :
      (file : List ℕ) (o : Option (List ℕ)) (ks : List (List ℕ))
      → AreFound truth ks
      → AreFound truth (match_named truth file o ks)
  match_named-AreFound file none ks h = h
  match_named-AreFound file (some name) ks h = go (has_key (key_of file name) truth) refl
    where
      go :
          (b : Bool)
          → has_key (key_of file name) truth ≡ b
          → AreFound truth (if b then add_key (key_of file name) ks else ks)
      go true e = add_key-AreFound (key_of file name) ks e h
      go false e = h

  matched-AreFound : (rs : List Ranked) → AreFound truth (matched truth k rs)
  matched-AreFound [] = tt
  matched-AreFound (r ∷ rs) = go (ltb k r.rank) (matched-AreFound rs)
    where
      go :
          (b : Bool)
          → AreFound truth (matched truth k rs)
          → AreFound truth (
              if b
              then matched truth k rs
              else match_named truth r.file_path r.symbol_qualified_name (matched truth k rs))
      go true h = h
      go false h = match_named-AreFound r.file_path r.symbol_qualified_name (matched truth k rs) h

  hits_at-total : (rs : List Ranked) → hits_at truth k rs ≤ length truth
  unfolding hits_at
  hits_at-total rs = omega (
    arith,
    found-tally truth (matched truth k rs) (matched-AreFound rs),
    tally-length (λ x. has_key x (matched truth k rs)) truth,
  )

  match_named-length :
      (file : List ℕ) (o : Option (List ℕ)) (ks : List (List ℕ))
      → length (match_named truth file o ks) ≤ suc (length ks)
  match_named-length file none ks = omega arith
  match_named-length file (some name) ks = elim (Bool-cases (has_key (key_of file name) truth)) [
    | inr out ↦ ground (arith, out)
    | inl inside ↦ elim (Bool-cases (has_key (key_of file name) ks)) [
      | inl old ↦ ground (arith, inside, old)
      | inr new ↦ ground (arith, inside, new)
    ]
  ]

  numbered-length :
      (n : ℕ) (es : List Scored) → length (matched truth k (number_from n es)) ≤ suc k - n
  numbered-length n [] = omega arith
  numbered-length n (e ∷ es) =
      let rest = numbered-length (suc n) es in
      let one =
        match_named-length e.candidate.file_path (symbol_qualified_name_of e.candidate)
          (matched truth k (number_from (suc n) es)) in
      elim (Bool-cases (ltb k n)) [
        | inl out ↦ ground (arith, out, rest)
        | inr inside ↦ ground (arith, inside, rest, one)
      ]

truth_keys-full : (t : TruthItem) (ts : List TruthItem) → 0 < length (truth_keys (t ∷ ts))
unfolding truth_keys
truth_keys-full t ts = go (truth_keys ts)
  where
    go : (ks : List (List ℕ)) → 0 < length (add_key (key_of t.file_path t.symbol_qualified_name) ks)
    go [] = omega arith
    go (k ∷ ks) =
        elim (Bool-cases (has_key (key_of t.file_path t.symbol_qualified_name) (k ∷ ks))) [
          | inl old ↦ ground (arith, old)
          | inr new ↦ ground (arith, new)
        ]

-- A fraction between 0 and 1 with a denominator that is not 0.
pub record IsProper (f : Fraction) : Type 0 where
  pub bounded : f.numerator ≤ f.denominator
  pub defined : 0 < f.denominator

-- Precision and recall at 5 and at 10 of a ranking are between 0 and 1, with denominators that are
-- not 0, whatever the candidates, their scores and the ground truth, duplicates included.
pub compute_retrieval_metrics-IsProper :
    (cs : List Candidate) (mode : Mode) (score_of : Candidate → ℕ) (ts : List TruthItem)
    (m : Metrics)
    → compute_retrieval_metrics (rank_comparison_candidates cs mode score_of) ts ≡ some m
    → IsProper m.precision_at_5
      × IsProper m.recall_at_5
      × IsProper m.precision_at_10
      × IsProper m.recall_at_10
unfolding compute_retrieval_metrics rank_comparison_candidates hits_at
compute_retrieval_metrics-IsProper cs mode score_of [] m e = absurd (ground arith)
compute_retrieval_metrics-IsProper cs mode score_of (t ∷ ts) m e =
    let es = sort_entries (map (score_entry mode score_of) (pool mode cs)) in
    let rs = number_from 1 es in
    let truth = truth_keys (t ∷ ts) in
    let full = truth_keys-full t ts in
    let same : metrics_of truth rs ≡ m = cc in
    subst
      (λ x.
        IsProper x.precision_at_5
        × IsProper x.recall_at_5
        × IsProper x.precision_at_10
        × IsProper x.recall_at_10)
      same
      (
        record { bounded = omega (arith, numbered-length truth 5 1 es); defined = omega arith },
        record { bounded = hits_at-total truth 5 rs; defined = full },
        record { bounded = omega (arith, numbered-length truth 10 1 es); defined = omega arith },
        record { bounded = hits_at-total truth 10 rs; defined = full },
      )
