-- ===== src/Comparisons/Order.antt =====
-- `rankComparisonCandidates` of app/src/retrieval-comparisons/retrieval-comparison-ranking.ts: the
-- ranking is its pool, in order, numbered from 1.
use mathlib.Core.List.{Perm}
use tjc_be_rag_core_api.Base.{
  ap, ◌∙◌, sym, subst, ◌<◌, ◌⊎◌, suc, leb, All, ltb→lt, Option-cases, ℕ, Bool, true, false, Option,
  none, some, List, [], ◌∷◌, arith, ◌≡◌, refl, inl, inr, Bool-cases, if◌then◌else◌, ltb, map,
}
use tjc_be_rag_core_api.Comparisons.{
  Mode, Candidate, Ranked, Scored, text_before, semantic_above, semantic_same, comes_before, insert,
  sort_entries, score_entry, pool, number_from, rank_comparison_candidates, semantic, structural,
  symbol_qualified_name_of, has_score,
}
use tjc_be_rag_core_api.Comparisons.Sorted.{
  IsRanked, candidate_of, sort_entries-IsRanked, sort_entries-Perm,
}

-- Texts in the order of their code units.
abbrev pub IsUpTo : List ℕ → List ℕ → Type 0
IsUpTo [] ds = Unit
IsUpTo (c ∷ cs) [] = ⊥
IsUpTo (c ∷ cs) (d ∷ ds) = (c < d) ⊎ ((c ≡ d) × IsUpTo cs ds)

-- The first of two semantic scores is the better one: none is worse than any.
abbrev pub IsNearer : Option ℕ → Option ℕ → Type 0
IsNearer none v = ⊥
IsNearer (some x) none = Unit
IsNearer (some x) (some y) = y < x

not_before-IsUpTo : (cs ds : List ℕ) → text_before ds cs ≡ false → IsUpTo cs ds
unfolding text_before
not_before-IsUpTo [] ds e = tt
not_before-IsUpTo (c ∷ cs) [] e = absurd (ground (arith, e))
not_before-IsUpTo (c ∷ cs) (d ∷ ds) e = elim (Bool-cases (ltb c d)) [
  | inl less ↦ inl (ltb→lt c d less)
  | inr not_less ↦
      let same : c ≡ d = ground (arith, e, not_less) in
      inr (same, not_before-IsUpTo cs ds (ground (arith, e, same)))
]

not_above-cases :
    (u v : Option ℕ)
    → semantic_above v u ≡ false
    → IsNearer u v ⊎ ((u ≡ v) × (semantic_same v u ≡ true))
not_above-cases none none e = inr (refl, refl)
not_above-cases none (some y) e = absurd (ground (arith, e))
not_above-cases (some x) none e = inl tt
not_above-cases (some x) (some y) e = elim (Bool-cases (ltb y x)) [
  | inl less ↦ inl (ltb→lt y x less)
  | inr not_less ↦
      let same : x ≡ y = ground (arith, e, not_less) in inr (ap some same, ground (arith, same))
]

-- The candidates that a mode ranks: in the mode `SEM`, those that have a semantic score.
abbrev pub eligible : Mode → List Candidate → List Candidate
eligible structural cs = cs
eligible semantic [] = []
eligible semantic (c ∷ cs) = elim c.semantic_score [
  | none ↦ eligible semantic cs
  | some s ↦ c ∷ eligible semantic cs
]

module _ (mode : Mode) (score_of : Candidate → ℕ) where
  -- What a mode orders by, and what it shows as the combined score.
  abbrev pub points : Candidate → Option ℕ
  points c = elim mode [ semantic ↦ c.semantic_score | structural ↦ some (score_of c) ]

  abbrev pub combined : Candidate → Option ℕ
  combined c = elim mode [ semantic ↦ none | structural ↦ some (score_of c) ]

  -- The first stands before the second: it has the higher score, or the better semantic score at the
  -- same, or an id that is not greater at both the same.
  pub data Outranks (c d : Candidate) : Type 0 where
    higher : IsNearer (points c) (points d) → Outranks c d
    nearer : points c ≡ points d → IsNearer c.semantic_score d.semantic_score → Outranks c d
    earlier :
        points c ≡ points d
        → c.semantic_score ≡ d.semantic_score
        → IsUpTo c.chunk_id d.chunk_id
        → Outranks c d

  abbrev pub IsOrdered : List Candidate → Type 0
  IsOrdered [] = Unit
  IsOrdered (c ∷ []) = Unit
  IsOrdered (c ∷ d ∷ cs) = Outranks c d × IsOrdered (d ∷ cs)

  -- The row of a candidate at a rank.
  pub record IsRow (n : ℕ) (c : Candidate) (r : Ranked) : Type 0 where
    pub rank : r.rank ≡ n
    pub chunk : r.chunk_id ≡ c.chunk_id
    pub file : r.file_path ≡ c.file_path
    pub name : r.symbol_qualified_name ≡ symbol_qualified_name_of c
    pub semantic_kept : r.semantic_score ≡ c.semantic_score
    pub combined_shown : r.combined_score ≡ combined c
    pub selected_to_ten : r.selected ≡ leb n 10

  abbrev pub AreRows : ℕ → List Candidate → List Ranked → Type 0
  AreRows n [] [] = Unit
  AreRows n (c ∷ cs) (r ∷ rs) = IsRow n c r × AreRows (suc n) cs rs
  AreRows n [] (r ∷ rs) = ⊥
  AreRows n (c ∷ cs) [] = ⊥

  -- A ranking: the eligible candidates, each once, in order, with their rows numbered from 1.
  pub record IsRanking (candidates : List Candidate) (rs : List Ranked) : Type 0 where
    pub ranked : List Candidate
    pub complete : Perm ranked (eligible mode candidates)
    pub ordered : IsOrdered ranked
    pub rows : AreRows 1 ranked rs

  -- An entry has the scores of its candidate.
  abbrev IsEntry : Scored → Type 0
  IsEntry e = (points e.candidate ≡ some e.order_score) × (e.combined_score ≡ combined e.candidate)

  insert-All :
      (a : Scored) (es : List Scored) → IsEntry a → All IsEntry es → All IsEntry (insert a es)
  insert-All a [] h hs = (h, tt)
  insert-All a (b ∷ es) h (k, ks) = go (comes_before b a) (insert-All a es h ks)
    where
      go :
          (x : Bool)
          → All IsEntry (insert a es)
          → All IsEntry (if x then b ∷ insert a es else a ∷ b ∷ es)
      go true rest = (k, rest)
      go false rest = (h, (k, ks))

  sort_entries-All : (es : List Scored) → All IsEntry es → All IsEntry (sort_entries es)
  sort_entries-All [] h = tt
  sort_entries-All (e ∷ es) (h, hs) = insert-All e (sort_entries es) h (sort_entries-All es hs)

  entries-AreRows :
      (n : ℕ) (es : List Scored)
      → All IsEntry es
      → AreRows n (map candidate_of es) (number_from n es)
  entries-AreRows n [] h = tt
  entries-AreRows n (e ∷ es) (h, hs) = (
    record {
      rank = refl;
      chunk = refl;
      file = refl;
      name = refl;
      semantic_kept = refl;
      combined_shown = h.1;
      selected_to_ten = refl;
    },
    entries-AreRows (suc n) es hs,
  )

  entries-Outrank :
      (a b : Scored)
      → IsEntry a
      → IsEntry b
      → comes_before b a ≡ false
      → Outranks a.candidate b.candidate
  unfolding comes_before
  entries-Outrank a b h k e = elim (Bool-cases (ltb b.order_score a.order_score)) [
    | inl over ↦ higher (
        subst (λ o. IsNearer o (points b.candidate)) (sym h.0)
          (subst (IsNearer (some a.order_score)) (sym k.0)
            (ltb→lt b.order_score a.order_score over)))
    | inr level ↦
        let same_order : a.order_score ≡ b.order_score = ground (arith, level, e) in
        let same : points a.candidate ≡ points b.candidate = h.0 ∙ ap some same_order ∙ sym k.0 in
        let not_above : semantic_above b.candidate.semantic_score a.candidate.semantic_score
            ≡ false =
          ground (arith, e, same_order) in
        elim (not_above-cases a.candidate.semantic_score b.candidate.semantic_score not_above) [
          | inl near ↦ nearer same near
          | inr (alike, alike') ↦ earlier same alike (
              not_before-IsUpTo a.candidate.chunk_id b.candidate.chunk_id
                (ground (arith, e, same_order, alike', not_above)))
        ]
  ]

  entries-IsOrdered :
      (es : List Scored) → All IsEntry es → IsRanked es → IsOrdered (map candidate_of es)
  entries-IsOrdered [] h r = tt
  entries-IsOrdered (e ∷ []) h r = tt
  entries-IsOrdered (a ∷ b ∷ es) (h, (k, ks)) (first, rest) =
      (entries-Outrank a b h k first, entries-IsOrdered (b ∷ es) (k, ks) rest)

kept_scored :
    (c : Candidate) (cs : List Candidate) (s : ℕ)
    → c.semantic_score ≡ some s
    → pool semantic (c ∷ cs) ≡ c ∷ pool semantic cs
kept_scored c cs s scored = let here : has_score c ≡ true = rw scored refl in ground (arith, here)

eligible_scored :
    (c : Candidate) (cs : List Candidate) (s : ℕ)
    → c.semantic_score ≡ some s
    → eligible semantic (c ∷ cs) ≡ c ∷ eligible semantic cs
eligible_scored c cs s scored = simp scored

scored-IsEntry :
    (score_of : Candidate → ℕ) (c : Candidate) (s : ℕ)
    → c.semantic_score ≡ some s
    → IsEntry semantic score_of (score_entry semantic score_of c)
scored-IsEntry score_of c s scored = (scored ∙ simp scored, refl)

entries-All :
    (mode : Mode) (score_of : Candidate → ℕ) (cs : List Candidate)
    → All (IsEntry mode score_of) (map (score_entry mode score_of) (pool mode cs))
entries-All structural score_of [] = tt
entries-All structural score_of (c ∷ cs) = ((refl, refl), entries-All structural score_of cs)
entries-All semantic score_of [] = tt
entries-All semantic score_of (c ∷ cs) = elim (Option-cases c.semantic_score) [
  | inl unscored ↦ rw unscored (entries-All semantic score_of cs)
  | inr (s, scored) ↦
      subst (λ ds. All (IsEntry semantic score_of) (map (score_entry semantic score_of) ds))
        (sym (kept_scored c cs s scored))
        (scored-IsEntry score_of c s scored, entries-All semantic score_of cs)
]

pool-eligible :
    (mode : Mode) (score_of : Candidate → ℕ) (cs : List Candidate)
    → map candidate_of (map (score_entry mode score_of) (pool mode cs)) ≡ eligible mode cs
pool-eligible structural score_of [] = refl
pool-eligible structural score_of (c ∷ cs) =
    ap (λ ds. c ∷ ds) (pool-eligible structural score_of cs)
pool-eligible semantic score_of [] = refl
pool-eligible semantic score_of (c ∷ cs) = elim (Option-cases c.semantic_score) [
  | inl unscored ↦ rw unscored (pool-eligible semantic score_of cs)
  | inr (s, scored) ↦
      ap (λ ds. map candidate_of (map (score_entry semantic score_of) ds))
        (kept_scored c cs s scored)
      ∙ ap (λ ds. c ∷ ds) (pool-eligible semantic score_of cs)
      ∙ sym (eligible_scored c cs s scored)
]

-- The ranking of a mode has the row of each candidate that the mode ranks, once, in descending order of
-- the score of the mode, then of semantic score with none last, then in ascending order of id; the rows
-- are numbered from 1, and the first ten are selected.
pub rank_comparison_candidates-IsRanking :
    (candidates : List Candidate) (mode : Mode) (score_of : Candidate → ℕ)
    → IsRanking mode score_of candidates (rank_comparison_candidates candidates mode score_of)
unfolding rank_comparison_candidates
rank_comparison_candidates-IsRanking candidates mode score_of =
    let scored = map (score_entry mode score_of) (pool mode candidates) in
    let entries = sort_entries-All mode score_of scored (entries-All mode score_of candidates) in
    record {
      ranked = map candidate_of (sort_entries scored);
      complete =
          subst (Perm (map candidate_of (sort_entries scored)))
            (pool-eligible mode score_of candidates) (sort_entries-Perm scored);
      ordered =
          entries-IsOrdered mode score_of (sort_entries scored) entries
            (sort_entries-IsRanked scored);
      rows = entries-AreRows mode score_of 1 (sort_entries scored) entries;
    }
