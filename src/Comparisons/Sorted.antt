-- ===== src/Comparisons/Sorted.antt =====
-- The sort of `rankComparisonCandidates` of
-- app/src/retrieval-comparisons/retrieval-comparison-ranking.ts, by the comparison of the code.
use mathlib.Core.List.{Perm}
use mathlib.Core.List.Perm
use tjc_be_rag_core_api.Base.{
  ℕ, Bool, true, false, ◌||◌, Option, none, some, List, [], ◌∷◌, arith, ◌≡◌, refl, inl, inr,
  Bool-cases, if◌then◌else◌, ltb, map,
}
use tjc_be_rag_core_api.Comparisons.{
  Candidate, Scored, text_before, semantic_above, semantic_same, comes_before, insert, sort_entries,
}

text_before_asym : (a b : List ℕ) → text_before a b ≡ true → text_before b a ≡ false
unfolding text_before
text_before_asym [] [] e = refl
text_before_asym [] (d ∷ ds) e = refl
text_before_asym (c ∷ cs) [] e = absurd (ground arith)
text_before_asym (c ∷ cs) (d ∷ ds) e = elim (Bool-cases (text_before cs ds)) [
  | inl later ↦ ground (arith, later, text_before_asym cs ds later)
  | inr not_later ↦ ground (arith, not_later)
]

semantic_asym :
    (a b : Option ℕ) → semantic_above a b ≡ true → (semantic_above b a || semantic_same b a) ≡ false
semantic_asym none b e = absurd (ground arith)
semantic_asym (some a) none e = refl
semantic_asym (some a) (some b) e = ground arith

semantic_same_not : (a b : Option ℕ) → semantic_same a b ≡ true → semantic_above b a ≡ false
semantic_same_not none none e = refl
semantic_same_not none (some b) e = absurd (ground arith)
semantic_same_not (some a) none e = absurd (ground arith)
semantic_same_not (some a) (some b) e = ground arith

comes_before_asym : (a b : Scored) → comes_before a b ≡ true → comes_before b a ≡ false
unfolding comes_before
comes_before_asym a b e =
    let u = a.candidate.semantic_score in
    let v = b.candidate.semantic_score in
    elim (Bool-cases (ltb b.order_score a.order_score)) [
      | inl high ↦ ground (arith, high)
      | inr level ↦ elim (Bool-cases (semantic_above u v)) [
        | inl above ↦ ground (arith, level, above, semantic_asym u v above)
        | inr not_above ↦
            let equal : semantic_same u v ≡ true = ground (arith, level, not_above) in
            let earlier : text_before a.candidate.chunk_id b.candidate.chunk_id ≡ true =
              ground (arith, level, not_above) in
            let later = text_before_asym a.candidate.chunk_id b.candidate.chunk_id earlier in
            ground (arith, level, semantic_same_not u v equal, later)
      ]
    ]

-- No entry comes before the one that it follows.
abbrev pub IsRanked : List Scored → Type 0
IsRanked [] = Unit
IsRanked (a ∷ []) = Unit
IsRanked (a ∷ b ∷ es) = (comes_before b a ≡ false) × IsRanked (b ∷ es)

-- What stands first in a list, if anything, does not come before this entry.
abbrev Precedes : Scored → List Scored → Type 0
Precedes a [] = Unit
Precedes a (b ∷ es) = comes_before b a ≡ false

IsRanked-cons : (a : Scored) (es : List Scored) → Precedes a es → IsRanked es → IsRanked (a ∷ es)
IsRanked-cons a [] f h = tt
IsRanked-cons a (b ∷ es) f h = (f, h)

IsRanked-tail : (a : Scored) (es : List Scored) → IsRanked (a ∷ es) → Precedes a es × IsRanked es
IsRanked-tail a [] h = (tt, tt)
IsRanked-tail a (b ∷ es) (f, h) = (f, h)

abbrev pub candidate_of : Scored → Candidate
candidate_of e = e.candidate

insert-Precedes :
    (a b : Scored) (es : List Scored)
    → comes_before a b ≡ false
    → Precedes b es
    → Precedes b (insert a es)
insert-Precedes a b [] f g = f
insert-Precedes a b (c ∷ es) f g = go (comes_before c a)
  where
    go : (x : Bool) → Precedes b (if x then c ∷ insert a es else a ∷ c ∷ es)
    go true = g
    go false = f

insert-IsRanked : (a : Scored) (es : List Scored) → IsRanked es → IsRanked (insert a es)
insert-IsRanked a [] h = tt
insert-IsRanked a (b ∷ es) h =
    let (f, rest) = IsRanked-tail b es h in go (comes_before b a) refl (insert-IsRanked a es rest) f
  where
    go :
        (x : Bool)
        → comes_before b a ≡ x
        → IsRanked (insert a es)
        → Precedes b es
        → IsRanked (if x then b ∷ insert a es else a ∷ b ∷ es)
    go true e r f =
        IsRanked-cons b (insert a es) (insert-Precedes a b es (comes_before_asym b a e) f) r
    go false e r f = (e, h)

pub sort_entries-IsRanked : (es : List Scored) → IsRanked (sort_entries es)
sort_entries-IsRanked [] = tt
sort_entries-IsRanked (e ∷ es) = insert-IsRanked e (sort_entries es) (sort_entries-IsRanked es)

insert-Perm :
    (a : Scored) (es : List Scored)
    → Perm (map candidate_of (insert a es)) (a.candidate ∷ map candidate_of es)
insert-Perm a [] = Perm.refl (a.candidate ∷ [])
insert-Perm a (b ∷ es) = go (comes_before b a) (insert-Perm a es)
  where
    go :
        (x : Bool)
        → Perm (map candidate_of (insert a es)) (a.candidate ∷ map candidate_of es)
        → Perm
            (map candidate_of (if x then b ∷ insert a es else a ∷ b ∷ es))
            (a.candidate ∷ b.candidate ∷ map candidate_of es)
    go true p =
        Perm.trans (Perm.cons b.candidate p)
          (Perm.swap a.candidate b.candidate (map candidate_of es))
    go false p = Perm.refl (a.candidate ∷ b.candidate ∷ map candidate_of es)

pub sort_entries-Perm :
    (es : List Scored) → Perm (map candidate_of (sort_entries es)) (map candidate_of es)
sort_entries-Perm [] = Perm.refl []
sort_entries-Perm (e ∷ es) =
    Perm.trans (insert-Perm e (sort_entries es)) (Perm.cons e.candidate (sort_entries-Perm es))
