-- ===== src/Contexts/Audit.antt =====
-- The audit of app/src/retrieval/context-builder.service.ts against the context that it explains.
use tjc_be_rag_core_api.Base.{
  ℕ, ◌+◌, ◌≤◌, ◌<◌, zero, suc, Bool, true, false, not, ◌&&◌, List, [], ◌∷◌, map, arith, ◌≡◌, refl,
  ap, ◌∙◌, if◌then◌else◌, ltb, keep, take, max, inl, inr, Bool-cases, Option,
}
use tjc_be_rag_core_api.Contexts.{
  ContextCandidate, Rule, ContextConfig, RankedEntry, discarded, selected, AuditCandidate, sort,
  number_from, is_eligible, has, top_entries, Fitted, taking, leaving, fit, entry_tokens, audited,
  sum, or_zero, build,
}
use tjc_be_rag_core_api.Contexts.Budget.{fit-le, fit-sum}

-- The ranks rise from a number on.
abbrev Rising : ℕ → List RankedEntry → Type 0
Rising n [] = Unit
Rising n (e ∷ es) = (n ≤ e.rank) × Rising (e.rank + 1) es

Rising-le : (m n : ℕ) (es : List RankedEntry) → m ≤ n → Rising n es → Rising m es
Rising-le m n [] le h = tt
Rising-le m n (e ∷ es) le (h, hs) = (omega (arith, le, h), hs)

number_from-Rising : (n : ℕ) (cs : List ContextCandidate) → Rising n (number_from n cs)
number_from-Rising n [] = tt
number_from-Rising n (c ∷ cs) = (omega arith, number_from-Rising (n + 1) cs)

keep-Rising :
    (p : RankedEntry → Bool) (n : ℕ) (es : List RankedEntry) → Rising n es → Rising n (keep p es)
keep-Rising p n [] h = tt
keep-Rising p n (e ∷ es) (h, hs) = go (p e) (keep-Rising p (e.rank + 1) es hs)
  where
    go :
        (b : Bool)
        → Rising (e.rank + 1) (keep p es)
        → Rising n (if b then e ∷ keep p es else keep p es)
    go true rest = (h, rest)
    go false rest = Rising-le n (e.rank + 1) (keep p es) (omega (arith, h)) rest

take-Rising : (k n : ℕ) (es : List RankedEntry) → Rising n es → Rising n (take k es)
take-Rising zero n es h = tt
take-Rising (suc k) n [] h = tt
take-Rising (suc k) n (e ∷ es) (h, hs) = (h, take-Rising k (e.rank + 1) es hs)

-- A rank below a rising list is not one of it.
has-Rising : (rank n : ℕ) (es : List RankedEntry) → rank < n → Rising n es → has rank es ≡ false
has-Rising rank n [] lt h = refl
has-Rising rank n (e ∷ es) lt (h, hs) =
    let rest = has-Rising rank (e.rank + 1) es (omega (arith, lt, h)) hs in
    ground (arith, lt, h, rest)

-- Two tests that agree from a rank on keep the same of a rising list.
keep_same :
    (p q : RankedEntry → Bool) (n : ℕ) (es : List RankedEntry)
    → ((e : RankedEntry) → n ≤ e.rank → p e ≡ q e)
    → Rising n es
    → keep p es ≡ keep q es
keep_same p q n [] same h = refl
keep_same p q n (e ∷ es) same (h, hs) =
    let rest = keep_same p q (e.rank + 1) es (λ x le. same x (omega (arith, le, h))) hs in
    let here = same e h in go (p e) (q e) here rest
  where
    go :
        (a b : Bool)
        → a ≡ b
        → keep p es ≡ keep q es
        → (if a then e ∷ keep p es else keep p es) ≡ (if b then e ∷ keep q es else keep q es)
    go true true same rest = ap (λ xs. e ∷ xs) rest
    go false false same rest = rest
    go true false same rest = absurd (ground (arith, same))
    go false true same rest = absurd (ground (arith, same))

-- What is kept of the first that are eligible, by rank, is those.
keep-has :
    (p : RankedEntry → Bool) (k n : ℕ) (es : List RankedEntry)
    → Rising n es
    → keep (λ e. p e && has e.rank (take k (keep p es))) es ≡ take k (keep p es)
keep-has p zero n [] h = refl
keep-has p (suc k) n [] h = refl
keep-has p k n (e ∷ es) (h, hs) = go (p e) k (λ j. keep-has p j (e.rank + 1) es hs)
  where
    passes : List RankedEntry → RankedEntry → Bool
    passes top x = p x && has x.rank top

    -- The entry at the head is one of the list, and is none of the others.
    also : (top : List RankedEntry) → keep (passes (e ∷ top)) es ≡ keep (passes top) es
    also top =
        keep_same (passes (e ∷ top)) (passes top) (e.rank + 1) es (λ x le. ground (arith, le)) hs

    go :
        (b : Bool) (k : ℕ)
        → ((j : ℕ) → keep (passes (take j (keep p es))) es ≡ take j (keep p es))
        → (let top = take k (if b then e ∷ keep p es else keep p es) in
            (if b && has e.rank top then e ∷ keep (passes top) es else keep (passes top) es) ≡ top)
    go false k rest = rest k
    go true zero rest = rest zero
    go true (suc k) rest =
        let top = take k (keep p es) in
        let here : has e.rank (e ∷ top) ≡ true = ground arith in
        rw here (ap (λ xs. e ∷ xs) (also top ∙ rest k))

module _ (limit : ℕ) where
  abbrev fitted : ℕ → List RankedEntry → Fitted RankedEntry
  fitted used es = fit entry_tokens limit used es

  stays : List RankedEntry → RankedEntry → Bool
  stays left e = not (has e.rank left)

  fit_left-Rising :
      (used n : ℕ) (es : List RankedEntry) → Rising n es → Rising n (fitted used es).left
  unfolding fit
  fit_left-Rising used n [] h = tt
  fit_left-Rising used n (e ∷ es) (h, hs) =
      go (ltb limit (used + entry_tokens e)) (λ u. fit_left-Rising u (e.rank + 1) es hs)
    where
      go :
          (b : Bool)
          → ((u : ℕ) → Rising (e.rank + 1) (fitted u es).left)
          → Rising n
              (elim b as (λ _. Fitted RankedEntry) [
                | true ↦ leaving e (fitted used es)
                | false ↦ taking e (fitted (used + entry_tokens e) es)
              ]).left
      go true rest = (h, rest used)
      go false rest =
          Rising-le n (e.rank + 1) (fitted (used + entry_tokens e) es).left (omega (arith, h))
            (rest (used + entry_tokens e))

  -- What does not stay in the list of those left is what was taken.
  fit-stays :
      (used n : ℕ) (es : List RankedEntry)
      → Rising n es
      → keep (stays (fitted used es).left) es ≡ (fitted used es).taken
  unfolding fit stays
  fit-stays used n [] h = refl
  fit-stays used n (e ∷ es) (h, hs) =
      go (ltb limit (used + entry_tokens e)) (λ u. fit-stays u (e.rank + 1) es hs)
        (λ u. fit_left-Rising u (e.rank + 1) es hs)
    where
      also : (left : List RankedEntry) → keep (stays (e ∷ left)) es ≡ keep (stays left) es
      also left =
          keep_same (stays (e ∷ left)) (stays left) (e.rank + 1) es (λ x le. ground (arith, le)) hs

      go :
          (b : Bool)
          → ((u : ℕ) → keep (stays (fitted u es).left) es ≡ (fitted u es).taken)
          → ((u : ℕ) → Rising (e.rank + 1) (fitted u es).left)
          → (let f = elim b as (λ _. Fitted RankedEntry) [
            | true ↦ leaving e (fitted used es)
            | false ↦ taking e (fitted (used + entry_tokens e) es)
          ] in
              (if stays f.left e then e ∷ keep (stays f.left) es else keep (stays f.left) es)
              ≡ f.taken)
      go true rest rising =
          let left = (fitted used es).left in
          let here : has e.rank (e ∷ left) ≡ true = ground arith in rw here (also left ∙ rest used)
      go false rest rising =
          let u = used + entry_tokens e in
          let here : has e.rank (fitted u es).left ≡ false =
            has-Rising e.rank (e.rank + 1) (fitted u es).left (omega arith) (rising u) in
          rw here (ap (λ xs. e ∷ xs) (rest u))

abbrev pub is_selected : AuditCandidate → Bool
is_selected a = elim a.decision [ selected ↦ true | discarded reason ↦ false ]

keep-keep :
    {A : Type 0} (p q : A → Bool) (xs : List A) → keep (λ x. p x && q x) xs ≡ keep q (keep p xs)
keep-keep p q [] = refl
keep-keep p q (x ∷ xs) = elim (Bool-cases (p x)) [
  | inl yes_p ↦ elim (Bool-cases (q x)) [
    | inl yes_q ↦ ground (arith, yes_p, yes_q, keep-keep p q xs)
    | inr no_q ↦ ground (arith, yes_p, no_q, keep-keep p q xs)
  ]
  | inr no_p ↦ ground (arith, no_p, keep-keep p q xs)
]

module _ (config : ContextConfig) (top left : List RankedEntry) where
  -- The decision on an entry is to select it exactly where the two loops do.
  audited-is_selected :
      (e : RankedEntry)
      → is_selected (audited config top left e)
        ≡ ((is_eligible config e && has e.rank top) && not (has e.rank left))
  audited-is_selected e = elim (Bool-cases (has e.rank top)) [
    | inl in_top ↦ elim (Bool-cases (has e.rank left)) [
      | inl is_left ↦ ground (arith, in_top, is_left)
      | inr fits ↦ ground (arith, in_top, fits)
    ]
    | inr out ↦ ground (arith, out)
  ]

  keep-audited :
      (es : List RankedEntry)
      → keep is_selected (map (audited config top left) es)
        ≡ map
            (audited config top left)
            (keep (λ e. (is_eligible config e && has e.rank top) && not (has e.rank left)) es)
  keep-audited [] = refl
  keep-audited (e ∷ es) =
      go (is_selected (audited config top left e))
        ((is_eligible config e && has e.rank top) && not (has e.rank left)) (audited-is_selected e)
        (keep-audited es)
    where
      chosen : List RankedEntry
      chosen = keep (λ x. (is_eligible config x && has x.rank top) && not (has x.rank left)) es

      go :
          (a b : Bool)
          → a ≡ b
          → keep is_selected (map (audited config top left) es)
            ≡ map (audited config top left) chosen
          → (if a
              then audited config top left e ∷ keep is_selected (map (audited config top left) es)
              else keep is_selected (map (audited config top left) es))
            ≡ map (audited config top left) (if b then e ∷ chosen else chosen)
      go true true same rest = ap (λ xs. audited config top left e ∷ xs) rest
      go false false same rest = rest
      go true false same rest = absurd (ground (arith, same))
      go false true same rest = absurd (ground (arith, same))

  audited-ids :
      (es : List RankedEntry)
      → map (λ (a : AuditCandidate). a.chunk_id) (map (audited config top left) es)
        ≡ map (λ (e : RankedEntry). e.candidate.chunk_id) es
  audited-ids [] = refl
  audited-ids (e ∷ es) = ap (λ ids. e.candidate.chunk_id ∷ ids) (audited-ids es)

  audited-tokens :
      (es : List RankedEntry)
      → sum (λ (a : AuditCandidate). a.token_count) (map (audited config top left) es)
        ≡ sum entry_tokens es
  audited-tokens [] = refl
  audited-tokens (e ∷ es) = ap (λ n. entry_tokens e + n) (audited-tokens es)

-- The candidates that the audit says were selected are those of the context, in their order; the
-- tokens of the context are those of the target, of the rules and of these, and stay within the
-- budget unless the target alone is beyond it.
pub build-audited :
    (config : ContextConfig) (target : List (Option ℕ)) (candidates : List ContextCandidate)
    (rules : List Rule)
    → (let g = build config target candidates rules in
        let chosen = keep is_selected g.candidates in
        (map (λ (a : AuditCandidate). a.chunk_id) chosen ≡ g.related_chunks)
        × (g.context_tokens
            ≡ sum or_zero target
              + g.functional_rule_tokens
              + sum (λ (a : AuditCandidate). a.token_count) chosen)
        × (g.context_tokens ≤ max (sum or_zero target) config.max_context_tokens))
unfolding build top_entries stays
build-audited config target candidates rules =
    let limit = config.max_context_tokens in
    let start = sum or_zero target in
    let rule_tokens : Rule → ℕ = λ r. r.token_count in
    let used = (fit rule_tokens limit start rules).used in
    let ranked = number_from 1 (sort candidates) in
    let top = top_entries config ranked in
    let left = (fit entry_tokens limit used top).left in
    let rising = number_from-Rising 1 (sort candidates) in
    let top_rising =
      take-Rising config.top_k 1 (keep (is_eligible config) ranked)
        (keep-Rising (is_eligible config) 1 ranked rising) in
    let chosen : keep is_selected (map (audited config top left) ranked)
        ≡ map (audited config top left) (fit entry_tokens limit used top).taken =
      keep-audited config top left ranked
      ∙ ap (map (audited config top left)) (
          keep-keep (λ e. is_eligible config e && has e.rank top) (λ e. not (has e.rank left))
            ranked
          ∙ ap (keep (λ e. not (has e.rank left)))
              (keep-has (is_eligible config) config.top_k 1 ranked rising)
          ∙ fit-stays limit used 1 top top_rising) in
    let chosen_tokens =
      ap (sum (λ (a : AuditCandidate). a.token_count)) chosen
      ∙ audited-tokens config top left (fit entry_tokens limit used top).taken in
    let rules_sum = fit-sum rule_tokens limit start rules in
    let chunks_sum = fit-sum entry_tokens limit used top in
    (
      ap (map (λ (a : AuditCandidate). a.chunk_id)) chosen
          ∙ audited-ids config top left (fit entry_tokens limit used top).taken,
      omega (arith, rules_sum, chunks_sum, chosen_tokens),
      omega (arith, fit-le rule_tokens limit start rules, fit-le entry_tokens limit used top),
    )
