-- ===== src/Fingerprints.antt =====
-- app/src/functional-knowledge/behavior-fingerprint/behavior-fingerprint.ts: the canonical form of a
-- construct, and the constructs that a change adds. The tree of the parser is a parameter: a node is
-- what the serializer tells apart.
pub mod Renaming
pub mod Changes
mod Tests
use Prim.Native.String.{◌++◌ as text_append}
use tjc_be_rag_core_api.Base.{
  ℕ, ◌+◌, String, Bool, true, false, not, ◌&&◌, ◌||◌, Option, none, some, List, [], ◌∷◌, ◌++◌,
  if◌then◌else◌, str_eq, any, length,
}

-- A node. Of an identifier it is known whether it stands where a member is named
-- (`isMemberNamePosition`); of any other, its kind, the text that it carries itself if it does, and its
-- children that are no documentation.
mutual
  pub data Node : Type 0 where
    parenthesized : Node → Node
    identifier : Bool → String → Node
    text_literal : String → Node
    numeric_literal : String → Node
    other_node : String → Option String → Nodes → Node

  pub data Nodes : Type 0 where
    no_nodes : Nodes
    node_then : Node → Nodes → Nodes

-- The place of a name in the order of first appearance.
abbrev pub place_of : ℕ → String → List String → Option ℕ
place_of n name [] = none
place_of n name (x ∷ xs) = if str_eq name x then some n else place_of (n + 1) name xs

abbrev pub is_local : String → List String → Bool
is_local name locals = any (str_eq name) locals

-- The functions of the language: decimals, `JSON.stringify` of a text, and `Number` of a literal.
pub record Printing : Type 0 where
  pub decimal : ℕ → String
  pub quoted : String → String
  pub number_text : String → String

-- A form, with the names that have placeholders after it.
pub record Form : Type 0 where
  pub text : String
  pub placeholders : List String

module _ (print : Printing) (locals : List String) where
  abbrev pub placeholder_at : String → List String → Option ℕ → Form
  placeholder_at name held (some n) = record {
    text = text_append "$" (print.decimal n);
    placeholders = held;
  }
  placeholder_at name held none = record {
    text = text_append "$" (print.decimal (length held));
    placeholders = held ++ (name ∷ []);
  }

  abbrev pub leaf_form : String → Option String → List String → Form
  leaf_form kind none held = record { text = kind; placeholders = held }
  leaf_form kind (some own) held = record {
    text = text_append kind (text_append ":" own);
    placeholders = held;
  }

  -- `children.join(',')`, after the first.
  abbrev joined : Form → Form → Form
  joined first rest = record {
    text = text_append first.text (text_append "," rest.text);
    placeholders = rest.placeholders;
  }

  abbrev enclosed : String → Form → Form
  enclosed kind f = record f { text = text_append kind (text_append "(" (text_append f.text ")")) }

  -- `serializeNode`
  unfoldable mutual
    pub serialize_node : Node → List String → Form
    serialize_node (parenthesized n) held = serialize_node n held
    serialize_node (identifier is_member name) held =
        if not is_member && is_local name locals
        then placeholder_at name held (place_of 0 name held)
        else record { text = text_append "Id:" name; placeholders = held }
    serialize_node (text_literal s) held = record {
      text = text_append "Str:" (print.quoted s);
      placeholders = held;
    }
    serialize_node (numeric_literal s) held = record {
      text = text_append "Num:" (print.number_text s);
      placeholders = held;
    }
    serialize_node (other_node kind own no_nodes) held = leaf_form kind own held
    serialize_node (other_node kind own (node_then n ns)) held =
        enclosed kind (serialize_nodes (serialize_node n held) ns)

    -- The children after one whose form is given.
    pub serialize_nodes : Form → Nodes → Form
    serialize_nodes first no_nodes = first
    serialize_nodes first (node_then n ns) =
        joined first (serialize_nodes (serialize_node n first.placeholders) ns)

-- The form of a construct starts with no placeholder.
unfoldable pub form_of : Printing → List String → Node → String
unfolding serialize_node
form_of print locals n = (serialize_node print locals n []).text

-- `BehaviorConstruct`, by the hash of its form and its order.
pub record BehaviorConstruct : Type 0 where
  pub form_hash : String
  pub order : ℕ

abbrev pub seen_or_changed :
    List BehaviorConstruct → List String → List BehaviorConstruct → List BehaviorConstruct
seen_or_changed base seen [] = []
seen_or_changed base seen (c ∷ head) =
    elim (any (λ b. str_eq b.form_hash c.form_hash) base || any (str_eq c.form_hash) seen) [
      | true ↦ seen_or_changed base seen head
      | false ↦ c ∷ seen_or_changed base (c.form_hash ∷ seen) head
    ]

-- `diffBehaviorConstructs`
unfoldable pub diff_behavior_constructs :
    List BehaviorConstruct → List BehaviorConstruct → List BehaviorConstruct
diff_behavior_constructs base head = seen_or_changed base [] head
