-- ===== src/Comparisons/Tests.antt =====
-- A ranking of three candidates and its metrics, and the theorems at concrete inputs.
use tjc_be_rag_core_api.Base.{ℕ, none, some, List, [], ◌∷◌, ◌≡◌, refl, map, codes}
use tjc_be_rag_core_api.Comparisons.{
  Candidate, Ranked, Metrics, semantic, structural, TruthItem, symbol_qualified_name_of,
  text_before, comes_before, rank_comparison_candidates, truth_keys, hits_at,
  compute_retrieval_metrics,
}
use tjc_be_rag_core_api.Comparisons.Bounds.{IsProper, compute_retrieval_metrics-IsProper}
use tjc_be_rag_core_api.Comparisons.Order.{IsRanking, rank_comparison_candidates-IsRanking}

abbrev pay : Candidate
pay = record {
  chunk_id = codes "c2";
  file_path = codes "pay.ts";
  symbol_name = some (codes "charge");
  parent_symbol_name = some (codes "Pay");
  semantic_score = some 70;
}

abbrev tax : Candidate
tax = record pay { chunk_id = codes "c1"; symbol_name = some (codes "tax") }

abbrev glue : Candidate
glue = record pay { chunk_id = codes "c3"; symbol_name = none; semantic_score = none }

abbrev all_three : List Candidate
all_three = glue ∷ pay ∷ tax ∷ []

abbrev score_of : Candidate → ℕ
score_of c = elim c.semantic_score [ none ↦ 90 | some s ↦ s ]

-- Chunks of one symbol are one item of the ground truth.
abbrev truth : List TruthItem
truth =
    record { file_path = codes "pay.ts"; symbol_qualified_name = codes "Pay.charge" }
    ∷ record { file_path = codes "pay.ts"; symbol_qualified_name = codes "Pay.charge" }
    ∷ []

abbrev ids : List Ranked → List (List ℕ)
ids rs = map (λ r. r.chunk_id) rs

ranking_tests :
    (ids (rank_comparison_candidates all_three structural score_of)
      ≡ codes "c3" ∷ codes "c1" ∷ codes "c2" ∷ [])
    × (ids (rank_comparison_candidates all_three semantic score_of) ≡ codes "c1" ∷ codes "c2" ∷ [])
unfolding rank_comparison_candidates comes_before text_before
ranking_tests = (refl, refl)

abbrev metrics : Metrics
metrics = record {
  precision_at_5 = record { numerator = 1; denominator = 5 };
  recall_at_5 = record { numerator = 1; denominator = 1 };
  precision_at_10 = record { numerator = 1; denominator = 10 };
  recall_at_10 = record { numerator = 1; denominator = 1 };
}

compute_retrieval_metrics-IsProper_example :
    IsProper metrics.precision_at_5
    × IsProper metrics.recall_at_5
    × IsProper metrics.precision_at_10
    × IsProper metrics.recall_at_10
unfolding compute_retrieval_metrics rank_comparison_candidates comes_before text_before
    symbol_qualified_name_of truth_keys hits_at
compute_retrieval_metrics-IsProper_example =
    compute_retrieval_metrics-IsProper all_three structural score_of truth metrics refl

rank_comparison_candidates-IsRanking_example :
    IsRanking structural score_of all_three
      (rank_comparison_candidates all_three structural score_of)
rank_comparison_candidates-IsRanking_example =
    rank_comparison_candidates-IsRanking all_three structural score_of
