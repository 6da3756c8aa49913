-- ===== src/Contexts.antt =====
-- app/src/retrieval/context-builder.service.ts: which chunks and rules go into the context of a
-- generation, within a budget of tokens.
pub mod Budget
pub mod Audit
pub mod Ranking
mod Tests
use tjc_be_rag_core_api.Base.{
  ℕ, ◌+◌, String, Bool, true, false, not, ◌&&◌, Option, none, some, List, [], ◌∷◌, map,
  if◌then◌else◌, ltb, leb, ◌==◌, any, keep, take, length,
}

-- A candidate, less the place and the text of its chunk; `score` is its combined score, which is only
-- compared and stands for its place in the order of scores.
pub record ContextCandidate : Type 0 where
  pub chunk_id : String
  pub token_count : Option ℕ
  pub score : ℕ

-- A functional rule, by its id and the tokens of its text.
pub record Rule : Type 0 where
  pub knowledge_id : String
  pub token_count : ℕ

-- `ResolvedConfig`, less the weights; the minimum is a place in the order of scores.
pub record ContextConfig : Type 0 where
  pub minimum_score : ℕ
  pub top_k : ℕ
  pub max_context_tokens : ℕ

-- An entry of `ranked` is an object, and is known by its rank.
pub record RankedEntry : Type 0 where
  pub rank : ℕ
  pub candidate : ContextCandidate

pub data DiscardReason : Type 0 where
  below_minimum_score top_k_limit token_budget : DiscardReason

pub data Decision : Type 0 where
  selected : Decision
  discarded : DiscardReason → Decision

pub record AuditCandidate : Type 0 where
  pub rank : ℕ
  pub chunk_id : String
  pub token_count : ℕ
  pub decision : Decision

-- `GenerationContext`, less texts, metadata and the dependencies that are copied into it.
pub record GenerationContext : Type 0 where
  pub related_chunks : List String
  pub functional_rules : List Rule
  pub omitted_rules : List Rule
  pub retrieved_chunks : ℕ
  pub selected_chunks : ℕ
  pub context_tokens : ℕ
  pub functional_rule_tokens : ℕ
  pub candidates : List AuditCandidate

abbrev pub or_zero : Option ℕ → ℕ
or_zero none = 0
or_zero (some n) = n

-- `sort((a, b) => b.score - a.score)`, which is stable.
abbrev pub insert : ContextCandidate → List ContextCandidate → List ContextCandidate
insert c [] = c ∷ []
insert c (d ∷ ds) = if ltb c.score d.score then d ∷ insert c ds else c ∷ d ∷ ds

abbrev pub sort : List ContextCandidate → List ContextCandidate
sort [] = []
sort (c ∷ cs) = insert c (sort cs)

abbrev pub number_from : ℕ → List ContextCandidate → List RankedEntry
number_from n [] = []
number_from n (c ∷ cs) = record { rank = n; candidate = c } ∷ number_from (n + 1) cs

abbrev pub is_eligible : ContextConfig → RankedEntry → Bool
is_eligible config e = leb config.minimum_score e.candidate.score

abbrev pub has : ℕ → List RankedEntry → Bool
has rank es = any (λ e. e.rank == rank) es

-- `topKEntries`
unfoldable pub top_entries : ContextConfig → List RankedEntry → List RankedEntry
top_entries config ranked = take config.top_k (keep (is_eligible config) ranked)

-- What a pass over rules or chunks takes, what it leaves, and the tokens that are used then.
pub record Fitted (A : Type 0) : Type 0 where
  pub taken : List A
  pub left : List A
  pub used : ℕ

abbrev pub taking : {A : Type 0} → A → Fitted A → Fitted A
taking a f = record f { taken = a ∷ f.taken }

abbrev pub leaving : {A : Type 0} → A → Fitted A → Fitted A
leaving a f = record f { left = a ∷ f.left }

-- The two loops of `build` against the budget, over the rules and over the chunks.
unfoldable pub fit : {A : Type 0} → (A → ℕ) → ℕ → ℕ → List A → Fitted A
fit tokens limit used [] = record { taken = []; left = []; used = used }
fit tokens limit used (a ∷ as') = elim (ltb limit (used + tokens a)) [
  | true ↦ leaving a (fit tokens limit used as')
  | false ↦ taking a (fit tokens limit (used + tokens a) as')
]

abbrev pub entry_tokens : RankedEntry → ℕ
entry_tokens e = or_zero e.candidate.token_count

-- The decision on an entry, after the pass that leaves those that do not fit.
abbrev pub decide : ContextConfig → List RankedEntry → List RankedEntry → RankedEntry → Decision
decide config top left e =
    if ltb e.candidate.score config.minimum_score
    then discarded below_minimum_score
    else if not (has e.rank top)
    then discarded top_k_limit
    else if has e.rank left
    then discarded token_budget
    else selected

abbrev pub audited :
    ContextConfig → List RankedEntry → List RankedEntry → RankedEntry → AuditCandidate
audited config top left e = record {
  rank = e.rank;
  chunk_id = e.candidate.chunk_id;
  token_count = entry_tokens e;
  decision = decide config top left e;
}

abbrev pub sum : {A : Type 0} → (A → ℕ) → List A → ℕ
sum tokens [] = 0
sum tokens (a ∷ as') = tokens a + sum tokens as'

-- `build`; the tokens of the target are the sum over its chunks.
unfoldable pub build :
    ContextConfig → List (Option ℕ) → List ContextCandidate → List Rule → GenerationContext
unfolding top_entries fit
build config target candidates rules =
    let target_tokens = sum or_zero target in
    let ranked = number_from 1 (sort candidates) in
    let top = top_entries config ranked in
    let rules_fitted : Fitted Rule =
      fit (λ (r : Rule). r.token_count) config.max_context_tokens target_tokens rules in
    let chunks_fitted : Fitted RankedEntry =
      fit entry_tokens config.max_context_tokens rules_fitted.used top in
    record {
      related_chunks = map (λ (e : RankedEntry). e.candidate.chunk_id) chunks_fitted.taken;
      functional_rules = rules_fitted.taken;
      omitted_rules = rules_fitted.left;
      retrieved_chunks = length candidates;
      selected_chunks = length chunks_fitted.taken;
      context_tokens = chunks_fitted.used;
      functional_rule_tokens = sum (λ (r : Rule). r.token_count) rules_fitted.taken;
      candidates = map (audited config top chunks_fitted.left) ranked;
    }
