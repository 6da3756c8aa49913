-- ===== src/Evidence/Selected.antt =====
-- Candidates of the evidence: ids by decision against the flags, and ranks against positions.
use tjc_be_rag_core_api.Base.{
  String, Bool, true, false, Option, none, some, List, [], ◌∷◌, map, keep, if◌then◌else◌, str_eq,
  eq_iff, arith, ◌≡◌, refl, sym, ap, subst, inl, inr, Bool-cases,
}
use tjc_be_rag_core_api.Evidence.{Json, Fields, json_text, get, fields_of, records_of, to_text}
use tjc_be_rag_core_api.Evidence.Candidates.{
  is_exactly, decided, decision_text, rag_candidate, to_rag_candidates, present,
  rag_candidate_ids_by_decision,
}

abbrev pub is_flag : Bool → Option Bool → Bool
is_flag b none = false
is_flag true (some flag) = flag
is_flag false (some true) = false
is_flag false (some false) = true

-- A text is not both decisions.
exclusive : (s : String) → str_eq s "SELECTED" ≡ true → str_eq s "DISCARDED" ≡ false
exclusive s h = let same = (eq_iff s "SELECTED").0 h in rw same refl

flag_decided :
    (b : Bool) (decision : Json)
    → is_flag b (decided decision) ≡ is_exactly decision (decision_text b)
flag_decided true (json_text s) = ground arith
flag_decided false (json_text s) = elim (Bool-cases (str_eq s "SELECTED")) [
  | inl yes_selected ↦ ground (arith, yes_selected, exclusive s yes_selected)
  | inr other ↦ ground (arith, other)
]
flag_decided true _ = refl
flag_decided false _ = refl

ids_of :
    (b : Bool) (cs : List Fields)
    → present (
        map
          (λ c. to_text (get "chunkId" c))
          (keep (λ c. is_exactly (get "decision" c) (decision_text b)) cs))
      ≡ present (map (λ c. c.chunk_id) (keep (λ c. is_flag b c.selected) (map rag_candidate cs)))
unfolding rag_candidate
ids_of b [] = refl
ids_of b (c ∷ cs) =
    subst
      (λ taken.
        present (
          map (λ f. to_text (get "chunkId" f))
            (keep (λ f. is_exactly (get "decision" f) (decision_text b)) (c ∷ cs)))
        ≡ present (
            map (λ r. r.chunk_id)
              (if taken
                then rag_candidate c ∷ keep (λ r. is_flag b r.selected) (map rag_candidate cs)
                else keep (λ r. is_flag b r.selected) (map rag_candidate cs))))
      (sym (flag_decided b (get "decision" c)))
      (go (is_exactly (get "decision" c) (decision_text b)) (ids_of b cs))
  where
    also :
        (o : Option String) (xs ys : List (Option String))
        → present xs ≡ present ys
        → present (o ∷ xs) ≡ present (o ∷ ys)
    also none xs ys e = e
    also (some id) xs ys e = ap (λ ids. id ∷ ids) e

    go :
        (taken : Bool)
        → present (
            map
              (λ f. to_text (get "chunkId" f))
              (keep (λ f. is_exactly (get "decision" f) (decision_text b)) cs))
          ≡ present
              (map (λ r. r.chunk_id) (keep (λ r. is_flag b r.selected) (map rag_candidate cs)))
        → present (
            map
              (λ f. to_text (get "chunkId" f))
              (if taken
                then c ∷ keep (λ f. is_exactly (get "decision" f) (decision_text b)) cs
                else keep (λ f. is_exactly (get "decision" f) (decision_text b)) cs))
          ≡ present (
              map
                (λ r. r.chunk_id)
                (if taken
                  then rag_candidate c ∷ keep (λ r. is_flag b r.selected) (map rag_candidate cs)
                  else keep (λ r. is_flag b r.selected) (map rag_candidate cs)))
    go true rest = also (to_text (get "chunkId" c)) _ _ rest
    go false rest = rest

-- The ids by a decision are those of the candidates that are read with the flag of that decision, in
-- their order.
pub rag_candidate_ids_by_decision-to_rag_candidates :
    (detail : Json) (b : Bool)
    → rag_candidate_ids_by_decision detail b
      ≡ present (
          map
            (λ c. c.chunk_id)
            (keep
              (λ c. is_flag b c.selected)
              (to_rag_candidates (get "candidates" (fields_of detail)))))
unfolding rag_candidate_ids_by_decision to_rag_candidates
rag_candidate_ids_by_decision-to_rag_candidates detail b =
    ids_of b (records_of (get "candidates" (fields_of detail)))
