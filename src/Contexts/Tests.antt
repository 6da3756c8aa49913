-- ===== src/Contexts/Tests.antt =====
-- A small context, and the theorems at concrete inputs.
use tjc_be_rag_core_api.Base.{
  ℕ, String, none, some, List, [], ◌∷◌, ◌≡◌, refl, map, keep, ◌+◌, ◌≤◌, max,
}
use tjc_be_rag_core_api.Contexts.{
  ContextCandidate, Rule, ContextConfig, AuditCandidate, discarded, selected, below_minimum_score,
  top_k_limit, token_budget, sum, or_zero, build,
}
use tjc_be_rag_core_api.Contexts.Audit.{is_selected, build-audited}

abbrev candidate : String → ℕ → ℕ → ContextCandidate
candidate id tokens score = record { chunk_id = id; token_count = some tokens; score = score }

abbrev found : List ContextCandidate
found =
    candidate "low" 10 1
    ∷ candidate "big" 90 8
    ∷ candidate "best" 40 9
    ∷ candidate "late" 5 6
    ∷ candidate "last" 30 7
    ∷ []

abbrev config : ContextConfig
config = record { minimum_score = 5; top_k = 3; max_context_tokens = 120 }

abbrev rules : List Rule
rules = record { knowledge_id = "k1"; token_count = 20 } ∷ []

-- The second best does not fit and the third does; the fourth is beyond the first three.
build_tests :
    let g = build config (some 10 ∷ none ∷ []) found rules in
    (g.related_chunks ≡ "best" ∷ "last" ∷ [])
    × (g.context_tokens ≡ 100)
    × (map (λ (a : AuditCandidate). a.decision) g.candidates
        ≡ selected
          ∷ discarded token_budget
          ∷ selected
          ∷ discarded top_k_limit
          ∷ discarded below_minimum_score
          ∷ [])
unfolding build
build_tests = (refl, refl, refl)

build-audited_example :
    let g = build config (some 10 ∷ none ∷ []) found rules in
    let chosen = keep is_selected g.candidates in
    (map (λ (a : AuditCandidate). a.chunk_id) chosen ≡ g.related_chunks)
    × (g.context_tokens
        ≡ sum or_zero (some 10 ∷ none ∷ [])
          + g.functional_rule_tokens
          + sum (λ (a : AuditCandidate). a.token_count) chosen)
    × (g.context_tokens ≤ max (sum or_zero (some 10 ∷ none ∷ [])) config.max_context_tokens)
build-audited_example = build-audited config (some 10 ∷ none ∷ []) found rules
