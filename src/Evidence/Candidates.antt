-- ===== src/Evidence/Candidates.antt =====
-- Retrieval in the evidence of app/src/evidence/evidence-mapping.ts: configurations, candidates, metrics
-- and the steps of an agent, field by field.
use tjc_be_rag_core_api.Base.{
  ℕ, ◌+◌, String, Bool, true, false, Option, none, some, List, [], ◌∷◌, map, if◌then◌else◌, str_eq,
  any, keep,
}
use Prim.Native.String.{◌++◌ as text_append}
use tjc_be_rag_core_api.Evidence.{
  Json, Number, Fields, json_text, object, get, fields_of, records_of, to_text, to_count,
  to_finite_number, to_flag, one_of,
}

-- `StructuralRelation`
pub data StructuralRelation : Type 0 where
  imports imported_by same_namespace fully_qualified_reference declaring_class : StructuralRelation

abbrev structural_relations : List (String × StructuralRelation)
structural_relations =
    ("IMPORTS", imports)
    ∷ ("IMPORTED_BY", imported_by)
    ∷ ("SAME_NAMESPACE", same_namespace)
    ∷ ("FULLY_QUALIFIED_REFERENCE", fully_qualified_reference)
    ∷ ("DECLARING_CLASS", declaring_class)
    ∷ []

-- `EvidenceRetrievalConfigResponse`
pub record RetrievalConfig : Type 0 where
  pub semantic_top_k : Option ℕ
  pub final_top_k : Option ℕ
  pub semantic_weight : Option Number
  pub structural_weight : Option Number
  pub embedding_model : Option String

-- `EvidenceRetrievalCandidateResponse`
pub record CandidateResponse : Type 0 where
  pub rank : Option ℕ
  pub chunk_id : Option String
  pub file_path : Option String
  pub symbol_qualified_name : Option String
  pub semantic_score : Option Number
  pub structural_relation : Option StructuralRelation
  pub combined_score : Option Number
  pub selected : Option Bool

abbrev pub qualify : Option String → String → String
qualify none name = name
qualify (some parent) name = text_append parent (text_append "." name)

abbrev qualified_with : Option String → Option String → Option String
qualified_with parent none = none
qualified_with parent (some name) = some (qualify parent name)

-- `qualifiedNameOf`
unfoldable qualified_name_of : Json → Json → Option String
unfolding to_text
qualified_name_of parent_symbol_name symbol_name =
    qualified_with (to_text parent_symbol_name) (to_text symbol_name)

-- `toRunRetrievalConfig`
unfoldable to_run_retrieval_config : Json → RetrievalConfig
unfolding get fields_of to_count
to_run_retrieval_config raw = record {
  semantic_top_k = to_count (get "vectorTopK" (fields_of raw));
  final_top_k = none;
  semantic_weight = none;
  structural_weight = none;
  embedding_model = none;
}

-- `toComparisonRetrievalConfig`
unfoldable to_comparison_retrieval_config : Json → RetrievalConfig
unfolding get fields_of to_count to_finite_number to_text
to_comparison_retrieval_config raw =
    let fs = fields_of raw in
    record {
      semantic_top_k = to_count (get "semanticTopK" fs);
      final_top_k = to_count (get "finalTopK" fs);
      semantic_weight = to_finite_number (get "semanticWeight" fs);
      structural_weight = to_finite_number (get "structuralWeight" fs);
      embedding_model = to_text (get "embeddingModel" fs);
    }

-- `toRagRetrievalConfig`
unfoldable to_rag_retrieval_config : Json → RetrievalConfig
unfolding get fields_of to_count to_finite_number
to_rag_retrieval_config raw =
    let fs = fields_of raw in
    record {
      semantic_top_k = none;
      final_top_k = to_count (get "topK" fs);
      semantic_weight = to_finite_number (get "semanticWeight" fs);
      structural_weight = to_finite_number (get "structuralWeight" fs);
      embedding_model = none;
    }

-- `selectedChunkIds.has(chunkId)`, of a context and an id that may be missing.
abbrev selected_among : Option (List String) → Option String → Option Bool
selected_among none chunk_id = none
selected_among (some ids) none = none
selected_among (some ids) (some id) = some (any (str_eq id) ids)

unfoldable run_candidate : Option (List String) → ℕ → Fields → CandidateResponse
unfolding get to_text to_finite_number one_of qualified_name_of
run_candidate selected_chunk_ids rank c = record {
  rank = some rank;
  chunk_id = to_text (get "chunkId" c);
  file_path = to_text (get "filePath" c);
  symbol_qualified_name = qualified_name_of (get "parentSymbolName" c) (get "symbolName" c);
  semantic_score = to_finite_number (get "semanticScore" c);
  structural_relation = one_of structural_relations (get "structuralMatch" c);
  combined_score = none;
  selected = selected_among selected_chunk_ids (to_text (get "chunkId" c));
}

unfoldable run_candidates_from : Option (List String) → ℕ → List Fields → List CandidateResponse
unfolding run_candidate
run_candidates_from ids rank [] = []
run_candidates_from ids rank (c ∷ cs) =
    run_candidate ids rank c ∷ run_candidates_from ids (rank + 1) cs

-- `toRunCandidates`
unfoldable to_run_candidates : Json → Option (List String) → List CandidateResponse
unfolding records_of run_candidates_from
to_run_candidates raw selected_chunk_ids = run_candidates_from selected_chunk_ids 1 (records_of raw)

unfoldable comparison_candidate : Fields → CandidateResponse
unfolding get to_text to_count to_finite_number to_flag one_of
comparison_candidate c = record {
  rank = to_count (get "rank" c);
  chunk_id = to_text (get "chunkId" c);
  file_path = to_text (get "filePath" c);
  symbol_qualified_name = to_text (get "symbolQualifiedName" c);
  semantic_score = to_finite_number (get "semanticScore" c);
  structural_relation = one_of structural_relations (get "structuralRelation" c);
  combined_score = to_finite_number (get "combinedScore" c);
  selected = to_flag (get "selected" c);
}

-- `toComparisonCandidates`
unfoldable to_comparison_candidates : Json → List CandidateResponse
unfolding records_of comparison_candidate
to_comparison_candidates raw = map comparison_candidate (records_of raw)

-- `value === text`
abbrev pub is_exactly : Json → String → Bool
is_exactly (json_text s) t = str_eq s t
is_exactly _ t = false

abbrev pub decided : Json → Option Bool
decided decision =
    if is_exactly decision "SELECTED"
    then some true
    else if is_exactly decision "DISCARDED"
    then some false
    else none

unfoldable pub rag_candidate : Fields → CandidateResponse
unfolding get fields_of to_text to_count to_finite_number one_of qualified_name_of
rag_candidate c =
    let location = fields_of (get "excerpt" c) in
    record {
      rank = to_count (get "rank" c);
      chunk_id = to_text (get "chunkId" c);
      file_path = to_text (get "filePath" location);
      symbol_qualified_name =
          qualified_name_of (get "parentSymbolName" location) (get "symbolName" location);
      semantic_score = to_finite_number (get "semanticScore" c);
      structural_relation = one_of structural_relations (get "structuralMatch" c);
      combined_score = to_finite_number (get "combinedScore" c);
      selected = decided (get "decision" c);
    }

-- `toRagCandidates`
unfoldable pub to_rag_candidates : Json → List CandidateResponse
unfolding records_of rag_candidate
to_rag_candidates raw = map rag_candidate (records_of raw)

abbrev pub present : {A : Type 0} → List (Option A) → List A
present [] = []
present (none ∷ os) = present os
present (some a ∷ os) = a ∷ present os

abbrev pub decision_text : Bool → String
decision_text true = "SELECTED"
decision_text false = "DISCARDED"

-- `ragCandidateIdsByDecision`; the decision is SELECTED or DISCARDED.
unfoldable pub rag_candidate_ids_by_decision : Json → Bool → List String
unfolding get fields_of records_of to_text
rag_candidate_ids_by_decision detail selected = present (
    map (λ c. to_text (get "chunkId" c))
      (keep (λ c. is_exactly (get "decision" c) (decision_text selected))
        (records_of (get "candidates" (fields_of detail)))))

-- `RetrievalMetricsResponse`
pub record RetrievalMetrics : Type 0 where
  pub precision_at_5 : Number
  pub recall_at_5 : Number
  pub precision_at_10 : Number
  pub recall_at_10 : Number

abbrev pub all_metrics :
    Option Number → Option Number → Option Number → Option Number → Option RetrievalMetrics
all_metrics (some p5) (some r5) (some p10) (some r10) =
    some
      (record { precision_at_5 = p5; recall_at_5 = r5; precision_at_10 = p10; recall_at_10 = r10 })
all_metrics _ _ _ _ = none

-- `toRetrievalMetrics`
unfoldable to_retrieval_metrics : Json → Option RetrievalMetrics
unfolding get to_finite_number
to_retrieval_metrics (object fs) =
    all_metrics (to_finite_number (get "precisionAt5" fs)) (to_finite_number (get "recallAt5" fs))
      (to_finite_number (get "precisionAt10" fs)) (to_finite_number (get "recallAt10" fs))
to_retrieval_metrics _ = none

pub record AgentStep : Type 0 where
  pub step : Option ℕ
  pub tool_name : Option String
  pub status : Option String

-- `toAgentSteps`
unfoldable to_agent_steps : Json → List AgentStep
unfolding get records_of to_count to_text
to_agent_steps trajectory =
    map
      (λ s. record {
        step = to_count (get "step" s);
        tool_name = to_text (get "toolName" s);
        status = to_text (get "status" s);
      })
      (records_of trajectory)
