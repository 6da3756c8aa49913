-- ===== src/Comparisons.antt =====
-- app/src/retrieval-comparisons/retrieval-comparison-ranking.ts and retrieval-comparison-metrics.ts:
-- the ranking of a mode, and its precision and recall against a ground truth.
pub mod Bounds
pub mod Sorted
pub mod Order
mod Tests
use tjc_be_rag_core_api.Base.{
  ℕ, ◌+◌, zero, suc, String, Bool, true, false, not, ◌&&◌, ◌||◌, Option, none, some, List, [], ◌∷◌,
  ◌++◌, map, if◌then◌else◌, str_eq, ltb, leb, ◌==◌, codes, keep, any, length,
}

pub data Mode : Type 0 where
  semantic structural : Mode

-- A candidate, less the text of its chunk. A score is read only to compare it, and stands for its
-- place in the order of scores.
pub record Candidate : Type 0 where
  pub chunk_id : List ℕ
  pub file_path : List ℕ
  pub symbol_name : Option (List ℕ)
  pub parent_symbol_name : Option (List ℕ)
  pub semantic_score : Option ℕ

-- `RankedComparisonCandidate`, less the structural match.
pub record Ranked : Type 0 where
  pub rank : ℕ
  pub chunk_id : List ℕ
  pub file_path : List ℕ
  pub symbol_qualified_name : Option (List ℕ)
  pub semantic_score : Option ℕ
  pub combined_score : Option ℕ
  pub selected : Bool

abbrev pub comparison_final_top_k : ℕ
comparison_final_top_k = 10

-- `symbolQualifiedNameOf`
unfoldable pub symbol_qualified_name_of : Candidate → Option (List ℕ)
symbol_qualified_name_of c = elim c.symbol_name [
  | none ↦ none
  | some name ↦ elim c.parent_symbol_name [
    | none ↦ some name
    | some parent ↦ some (parent ++ (b'.' ∷ name))
  ]
]

-- `<` of texts, by code units.
unfoldable pub text_before : List ℕ → List ℕ → Bool
text_before [] [] = false
text_before [] (c ∷ cs) = true
text_before (c ∷ cs) [] = false
text_before (c ∷ cs) (d ∷ ds) = ltb c d || (c == d && text_before cs ds)

pub record Scored : Type 0 where
  pub candidate : Candidate
  pub combined_score : Option ℕ
  pub order_score : ℕ

-- `a` has a semantic score above that of `b`; none is below any.
abbrev pub semantic_above : Option ℕ → Option ℕ → Bool
semantic_above none b = false
semantic_above (some a) none = true
semantic_above (some a) (some b) = ltb b a

abbrev pub semantic_same : Option ℕ → Option ℕ → Bool
semantic_same none none = true
semantic_same (some a) (some b) = a == b
semantic_same _ _ = false

-- Whether the comparison of `entries.sort` puts `a` before `b`.
unfoldable pub comes_before : Scored → Scored → Bool
unfolding text_before
comes_before a b =
    ltb b.order_score a.order_score
    || (a.order_score == b.order_score
        && (semantic_above a.candidate.semantic_score b.candidate.semantic_score
            || (semantic_same a.candidate.semantic_score b.candidate.semantic_score
                && text_before a.candidate.chunk_id b.candidate.chunk_id)))

-- The sort of the language is stable, and so is an insertion from the right.
abbrev pub insert : Scored → List Scored → List Scored
insert a [] = a ∷ []
insert a (b ∷ bs) = let rest = insert a bs in if comes_before b a then b ∷ rest else a ∷ b ∷ bs

abbrev pub sort_entries : List Scored → List Scored
sort_entries [] = []
sort_entries (e ∷ es) = insert e (sort_entries es)

abbrev has_score : Candidate → Bool
has_score c = elim c.semantic_score [ none ↦ false | some s ↦ true ]

abbrev pub pool : Mode → List Candidate → List Candidate
pool semantic cs = keep has_score cs
pool structural cs = cs

-- In the mode `SEM` every candidate of the pool has a semantic score.
abbrev pub score_entry : Mode → (Candidate → ℕ) → Candidate → Scored
score_entry structural score_of c = record {
  candidate = c;
  combined_score = some (score_of c);
  order_score = score_of c;
}
score_entry semantic score_of c = record {
  candidate = c;
  combined_score = none;
  order_score = elim c.semantic_score [ none ↦ 0 | some s ↦ s ];
}

abbrev pub number_from : ℕ → List Scored → List Ranked
number_from n [] = []
number_from n (e ∷ es) =
    record {
      rank = n;
      chunk_id = e.candidate.chunk_id;
      file_path = e.candidate.file_path;
      symbol_qualified_name = symbol_qualified_name_of e.candidate;
      semantic_score = e.candidate.semantic_score;
      combined_score = e.combined_score;
      selected = leb n comparison_final_top_k;
    }
    ∷ number_from (suc n) es

-- `rankComparisonCandidates`
unfoldable pub rank_comparison_candidates : List Candidate → Mode → (Candidate → ℕ) → List Ranked
unfolding symbol_qualified_name_of comes_before
rank_comparison_candidates candidates mode score_of =
    number_from 1 (sort_entries (map (score_entry mode score_of) (pool mode candidates)))

-- `RetrievalGroundTruthItem`
pub record TruthItem : Type 0 where
  pub file_path : List ℕ
  pub symbol_qualified_name : List ℕ

-- `keyOf`
abbrev pub key_of : List ℕ → List ℕ → List ℕ
key_of file_path name = file_path ++ (0 ∷ name)

abbrev pub same_key : List ℕ → List ℕ → Bool
same_key [] [] = true
same_key (c ∷ cs) (d ∷ ds) = c == d && same_key cs ds
same_key _ _ = false

abbrev pub has_key : List ℕ → List (List ℕ) → Bool
has_key k ks = any (same_key k) ks

-- `Set.add`
abbrev pub add_key : List ℕ → List (List ℕ) → List (List ℕ)
add_key k ks = if has_key k ks then ks else k ∷ ks

unfoldable pub truth_keys : List TruthItem → List (List ℕ)
truth_keys [] = []
truth_keys (t ∷ ts) = add_key (key_of t.file_path t.symbol_qualified_name) (truth_keys ts)

abbrev pub match_named : List (List ℕ) → List ℕ → Option (List ℕ) → List (List ℕ) → List (List ℕ)
match_named truth file none found = found
match_named truth file (some name) found =
    if has_key (key_of file name) truth then add_key (key_of file name) found else found

abbrev pub matched : List (List ℕ) → ℕ → List Ranked → List (List ℕ)
matched truth k [] = []
matched truth k (r ∷ rs) =
    let rest = matched truth k rs in
    if ltb k r.rank then rest else match_named truth r.file_path r.symbol_qualified_name rest

-- `hitsAt`
unfoldable pub hits_at : List (List ℕ) → ℕ → List Ranked → ℕ
hits_at truth k rs = length (matched truth k rs)

-- `RetrievalMetricsValues`, each a fraction.
pub record Fraction : Type 0 where
  pub numerator : ℕ
  pub denominator : ℕ

pub record Metrics : Type 0 where
  pub precision_at_5 : Fraction
  pub recall_at_5 : Fraction
  pub precision_at_10 : Fraction
  pub recall_at_10 : Fraction

abbrev pub metrics_of : List (List ℕ) → List Ranked → Metrics
metrics_of truth rs = record {
  precision_at_5 = record { numerator = hits_at truth 5 rs; denominator = 5 };
  recall_at_5 = record { numerator = hits_at truth 5 rs; denominator = length truth };
  precision_at_10 = record { numerator = hits_at truth 10 rs; denominator = 10 };
  recall_at_10 = record { numerator = hits_at truth 10 rs; denominator = length truth };
}

-- `computeRetrievalMetrics`; a ground truth that is absent or empty gives no metrics.
unfoldable pub compute_retrieval_metrics : List Ranked → List TruthItem → Option Metrics
unfolding truth_keys hits_at
compute_retrieval_metrics rs [] = none
compute_retrieval_metrics rs (t ∷ ts) = some (metrics_of (truth_keys (t ∷ ts)) rs)
