-- ===== src/Fingerprints/Changes.antt =====
-- `diffBehaviorConstructs` of
-- app/src/functional-knowledge/behavior-fingerprint/behavior-fingerprint.ts.
use tjc_be_rag_core_api.Base.{
  String, Bool, true, false, ◌||◌, List, [], ◌∷◌, arith, ◌≡◌, refl, str_eq, eq_iff, any, All,
  str_eq_refl, sym,
}
use tjc_be_rag_core_api.Fingerprints.{BehaviorConstruct, seen_or_changed, diff_behavior_constructs}

abbrev pub has_hash : String → List BehaviorConstruct → Bool
has_hash hash cs = any (λ b. str_eq b.form_hash hash) cs

abbrev was_seen : List BehaviorConstruct → List String → BehaviorConstruct → Bool
was_seen base seen c = has_hash c.form_hash base || any (str_eq c.form_hash) seen

-- No hash stands twice.
abbrev pub IsDistinct : List BehaviorConstruct → Type 0
IsDistinct [] = Unit
IsDistinct (c ∷ cs) = (has_hash c.form_hash cs ≡ false) × IsDistinct cs

module _ (base : List BehaviorConstruct) where
  changed_new :
      (seen : List String) (head : List BehaviorConstruct)
      → All (λ c. was_seen base seen c ≡ false) (seen_or_changed base seen head)
  changed_new seen [] = tt
  changed_new seen (c ∷ head) = go (was_seen base seen c) refl (changed_new seen head) (
      weaker (seen_or_changed base (c.form_hash ∷ seen) head)
        (changed_new (c.form_hash ∷ seen) head))
    where
      weaker :
          (cs : List BehaviorConstruct)
          → All (λ x. was_seen base (c.form_hash ∷ seen) x ≡ false) cs
          → All (λ x. was_seen base seen x ≡ false) cs
      weaker [] h = tt
      weaker (x ∷ cs) (h, hs) = (ground (arith, h), weaker cs hs)

      go :
          (b : Bool)
          → was_seen base seen c ≡ b
          → All (λ x. was_seen base seen x ≡ false) (seen_or_changed base seen head)
          → All (λ x. was_seen base seen x ≡ false) (seen_or_changed base (c.form_hash ∷ seen) head)
          → All
              (λ x. was_seen base seen x ≡ false)
              (elim b as (λ _. List BehaviorConstruct) [
                | true ↦ seen_or_changed base seen head
                | false ↦ c ∷ seen_or_changed base (c.form_hash ∷ seen) head
              ])
      go true e skip more = skip
      go false e skip more = (e, more)

  apart :
      (hash : String) (seen : List String) (cs : List BehaviorConstruct)
      → All (λ x. was_seen base (hash ∷ seen) x ≡ false) cs
      → has_hash hash cs ≡ false
  apart hash seen [] h = refl
  apart hash seen (x ∷ cs) (h, hs) = ground (arith, h, apart hash seen cs hs)

  changed-IsDistinct :
      (seen : List String) (head : List BehaviorConstruct)
      → IsDistinct (seen_or_changed base seen head)
  changed-IsDistinct seen [] = tt
  changed-IsDistinct seen (c ∷ head) =
      go (was_seen base seen c) (changed-IsDistinct seen head)
        (changed-IsDistinct (c.form_hash ∷ seen) head)
    where
      go :
          (b : Bool)
          → IsDistinct (seen_or_changed base seen head)
          → IsDistinct (seen_or_changed base (c.form_hash ∷ seen) head)
          → IsDistinct (elim b as (λ _. List BehaviorConstruct) [
            | true ↦ seen_or_changed base seen head
            | false ↦ c ∷ seen_or_changed base (c.form_hash ∷ seen) head
          ])
      go true skip more = skip
      go false skip more = (
        apart c.form_hash seen (seen_or_changed base (c.form_hash ∷ seen) head)
            (changed_new (c.form_hash ∷ seen) head),
        more,
      )

  abbrev is_told : List String → List BehaviorConstruct → BehaviorConstruct → Bool
  is_told seen result c = was_seen base seen c || has_hash c.form_hash result

  -- What is told by the rest of a result is told by all of it.
  told_after :
      (c : BehaviorConstruct) (seen : List String) (result xs : List BehaviorConstruct)
      → All (λ x. is_told (c.form_hash ∷ seen) result x ≡ true) xs
      → All (λ x. is_told seen (c ∷ result) x ≡ true) xs
  told_after c seen result [] h = tt
  told_after c seen result (x ∷ xs) (h, hs) =
      (go (str_eq x.form_hash c.form_hash) refl, told_after c seen result xs hs)
    where
      go : (b : Bool) → str_eq x.form_hash c.form_hash ≡ b → is_told seen (c ∷ result) x ≡ true
      go true e =
          let turned =
            (eq_iff c.form_hash x.form_hash).1 (sym ((eq_iff x.form_hash c.form_hash).0 e)) in
          ground (arith, turned)
      go false e = ground (arith, e, h)

  changed_complete :
      (seen : List String) (head : List BehaviorConstruct)
      → All (λ c. is_told seen (seen_or_changed base seen head) c ≡ true) head
  changed_complete seen [] = tt
  changed_complete seen (c ∷ head) = go (was_seen base seen c) refl (changed_complete seen head) (
      told_after c seen (seen_or_changed base (c.form_hash ∷ seen) head) head
        (changed_complete (c.form_hash ∷ seen) head))
    where
      result : Bool → List BehaviorConstruct
      result b = elim b as (λ _. List BehaviorConstruct) [
        | true ↦ seen_or_changed base seen head
        | false ↦ c ∷ seen_or_changed base (c.form_hash ∷ seen) head
      ]

      go :
          (b : Bool)
          → was_seen base seen c ≡ b
          → All (λ x. is_told seen (seen_or_changed base seen head) x ≡ true) head
          → All
              (λ x. is_told seen (c ∷ seen_or_changed base (c.form_hash ∷ seen) head) x ≡ true)
              head
          → All (λ x. is_told seen (result b) x ≡ true) (c ∷ head)
      go true e skip more = (ground (arith, e), skip)
      go false e skip more = (ground (arith, str_eq_refl c.form_hash), more)

-- The constructs that a change adds have hashes that the base has none of, and that differ; and each
-- construct of the head has its hash in the base or among them.
pub diff_behavior_constructs-IsDistinct :
    (base head : List BehaviorConstruct)
    → let changed = diff_behavior_constructs base head in
      All (λ c. has_hash c.form_hash base ≡ false) changed
      × IsDistinct changed
      × All (λ c. has_hash c.form_hash base || has_hash c.form_hash changed ≡ true) head
unfolding diff_behavior_constructs
diff_behavior_constructs-IsDistinct base head = (
  unseen (seen_or_changed base [] head) (changed_new base [] head),
  changed-IsDistinct base [] head,
  told (seen_or_changed base [] head) head (changed_complete base [] head),
)
  where
    unseen :
        (cs : List BehaviorConstruct)
        → All (λ c. was_seen base [] c ≡ false) cs
        → All (λ c. has_hash c.form_hash base ≡ false) cs
    unseen [] h = tt
    unseen (c ∷ cs) (h, hs) = (ground (arith, h), unseen cs hs)

    told :
        (changed cs : List BehaviorConstruct)
        → All (λ c. is_told base [] changed c ≡ true) cs
        → All (λ c. has_hash c.form_hash base || has_hash c.form_hash changed ≡ true) cs
    told changed [] h = tt
    told changed (c ∷ cs) (h, hs) = (ground (arith, h), told changed cs hs)
