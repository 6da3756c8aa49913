-- ===== src/Fingerprints/Renaming.antt =====
-- The form of a construct and the names of its locals (`serializeNode` of
-- app/src/functional-knowledge/behavior-fingerprint/behavior-fingerprint.ts).
use tjc_be_rag_core_api.Base.{
  ℕ, ◌+◌, String, Bool, true, false, not, ◌&&◌, Option, none, some, suc, List, [], ◌∷◌, ◌++◌, arith,
  ◌≡◌, refl, str_eq, eq_iff, length, map, Bool-cases, inl, inr, ap, if◌then◌else◌,
}
use tjc_be_rag_core_api.Fingerprints.{
  Node, Nodes, parenthesized, identifier, text_literal, numeric_literal, other_node, no_nodes,
  node_then, place_of, is_local, Printing, Form, placeholder_at, leaf_form, serialize_node,
  serialize_nodes, form_of,
}

module _ (rho : String → String) (locals : List String) where
  abbrev pub renamed : Bool → String → String
  renamed is_member name = if not is_member && is_local name locals then rho name else name

  unfoldable mutual
    pub rename : Node → Node
    rename (parenthesized n) = parenthesized (rename n)
    rename (identifier is_member name) = identifier is_member (renamed is_member name)
    rename (text_literal s) = text_literal s
    rename (numeric_literal s) = numeric_literal s
    rename (other_node kind own ns) = other_node kind own (rename_each ns)

    rename_each : Nodes → Nodes
    rename_each no_nodes = no_nodes
    rename_each (node_then n ns) = node_then (rename n) (rename_each ns)

  -- No name that is kept is a new name of a local.
  unfoldable mutual
    pub IsFresh : Node → Type 0
    IsFresh (parenthesized n) = IsFresh n
    IsFresh (identifier is_member name) =
        (not is_member && not (is_local name locals) ≡ true)
        → is_local name (map rho locals) ≡ false
    IsFresh (text_literal s) = Unit
    IsFresh (numeric_literal s) = Unit
    IsFresh (other_node kind own ns) = AreFresh ns

    AreFresh : Nodes → Type 0
    AreFresh no_nodes = Unit
    AreFresh (node_then n ns) = IsFresh n × AreFresh ns

-- A renaming of names keeps their order of appearance when it is injective.
module _ (rho : String → String) (inj : (a b : String) → rho a ≡ rho b → a ≡ b) where
  str_eq-rho : (a b : String) → str_eq (rho a) (rho b) ≡ str_eq a b
  str_eq-rho a b = go (str_eq a b) refl
    where
      go : (t : Bool) → str_eq a b ≡ t → str_eq (rho a) (rho b) ≡ t
      go true e = (eq_iff (rho a) (rho b)).1 (ap rho ((eq_iff a b).0 e))
      go false e = elim (Bool-cases (str_eq (rho a) (rho b))) [
        | inl t ↦ ground (arith, e, (eq_iff a b).1 (inj a b ((eq_iff (rho a) (rho b)).0 t)))
        | inr f ↦ f
      ]

  is_local-map :
      (name : String) (locals : List String)
      → is_local (rho name) (map rho locals) ≡ is_local name locals
  is_local-map name [] = refl
  is_local-map name (x ∷ xs) = rw (str_eq-rho name x) (rw (is_local-map name xs) refl)

  place_of-map :
      (n : ℕ) (name : String) (xs : List String)
      → place_of n (rho name) (map rho xs) ≡ place_of n name xs
  place_of-map n name [] = refl
  place_of-map n name (x ∷ xs) = rw (str_eq-rho name x) (rw (place_of-map (n + 1) name xs) refl)

  length-rho : (xs : List String) → length (map rho xs) ≡ length xs
  length-rho [] = refl
  length-rho (x ∷ xs) = ap suc (length-rho xs)

  append-rho : (xs ys : List String) → map rho (xs ++ ys) ≡ map rho xs ++ map rho ys
  append-rho [] ys = refl
  append-rho (x ∷ xs) ys = ap (λ zs. rho x ∷ zs) (append-rho xs ys)

  abbrev renamed_form : Form → Form
  renamed_form f = record { text = f.text; placeholders = map rho f.placeholders }

  module _ (locals : List String) (print : Printing) where
    placeholder_at-rho :
        (name : String) (held : List String) (at : Option ℕ)
        → placeholder_at print (map rho locals) (rho name) (map rho held) at
          ≡ renamed_form (placeholder_at print locals name held at)
    placeholder_at-rho name held (some n) = refl
    placeholder_at-rho name held none = rw (length-rho held) (rw (append-rho held (name ∷ [])) refl)

    identifier-rename :
        (is_member : Bool) (name : String) (held : List String)
        → IsFresh rho locals (identifier is_member name)
        → serialize_node print
            (map rho locals)
            (rename rho locals (identifier is_member name))
            (map rho held)
          ≡ renamed_form (serialize_node print locals (identifier is_member name) held)
    unfolding serialize_node rename IsFresh
    identifier-rename true name held fresh = refl
    identifier-rename false name held fresh = elim (Bool-cases (is_local name locals)) [
      | inl here ↦ rw here (
          rw (is_local-map name locals) (
            rw here (
              rw (place_of-map 0 name held) (placeholder_at-rho name held (place_of 0 name held)))))
      | inr away ↦ rw away (rw (fresh (rw away refl)) refl)
    ]

    leaf_form-rho :
        (kind : String) (own : Option String) (held : List String)
        → leaf_form print (map rho locals) kind own (map rho held)
          ≡ renamed_form (leaf_form print locals kind own held)
    leaf_form-rho kind none held = refl
    leaf_form-rho kind (some own) held = refl

    -- A node and its children are serialized as they were, and the placeholders are those of the new
    -- names.
    mutual
      unfolding serialize_node rename IsFresh

      serialize_node-rename :
          (n : Node) (held : List String)
          → IsFresh rho locals n
          → serialize_node print (map rho locals) (rename rho locals n) (map rho held)
            ≡ renamed_form (serialize_node print locals n held)
      serialize_node-rename (parenthesized n) held fresh = serialize_node-rename n held fresh
      serialize_node-rename (identifier is_member name) held fresh =
          identifier-rename is_member name held fresh
      serialize_node-rename (text_literal s) held fresh = refl
      serialize_node-rename (numeric_literal s) held fresh = refl
      serialize_node-rename (other_node kind own no_nodes) held fresh = leaf_form-rho kind own held
      serialize_node-rename (other_node kind own (node_then n ns)) held (fresh, rest) =
          rw (serialize_node-rename n held fresh)
            (rw (serialize_nodes-rename ns (serialize_node print locals n held) rest) refl)

      serialize_nodes-rename :
          (ns : Nodes) (first : Form)
          → AreFresh rho locals ns
          → serialize_nodes print (map rho locals) (renamed_form first) (rename_each rho locals ns)
            ≡ renamed_form (serialize_nodes print locals first ns)
      serialize_nodes-rename no_nodes first fresh = refl
      serialize_nodes-rename (node_then n ns) first (fresh, rest) =
          rw (serialize_node-rename n first.placeholders fresh) (
            rw (serialize_nodes-rename ns (serialize_node print locals n first.placeholders) rest)
              refl)

-- When the locals of a construct get other names, each its own, and no name that stays is one of the
-- new ones, the form of the construct is the same.
pub form_of-rename :
    (rho : String → String) (inj : (a b : String) → rho a ≡ rho b → a ≡ b) (locals : List String)
    (print : Printing) (n : Node)
    → IsFresh rho locals n
    → form_of print (map rho locals) (rename rho locals n) ≡ form_of print locals n
unfolding form_of
form_of-rename rho inj locals print n fresh =
    ap (λ (f : Form). f.text) (serialize_node-rename rho inj locals print n [] fresh)
