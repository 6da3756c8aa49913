-- ===== src/Fingerprints/Tests.antt =====
-- A condition on two locals, its renaming, and the theorems at concrete inputs.
use text.Mathlib.TextLemmas.{append_cancel_left}
use Prim.Native.String.{◌++◌ as text_append}
use tjc_be_rag_core_api.Base.{
  ℕ, String, true, false, none, List, [], ◌∷◌, ◌≡◌, refl, map, All, ◌||◌, zero, suc,
}
use tjc_be_rag_core_api.Fingerprints.{
  Node, Printing, BehaviorConstruct, parenthesized, identifier, numeric_literal, other_node,
  no_nodes, node_then, form_of, diff_behavior_constructs,
}
use tjc_be_rag_core_api.Fingerprints.Changes.{
  IsDistinct, has_hash, diff_behavior_constructs-IsDistinct,
}
use tjc_be_rag_core_api.Fingerprints.Renaming.{rename, IsFresh, form_of-rename}

abbrev digit : ℕ → String
digit zero = "0"
digit (suc zero) = "1"
digit (suc (suc n)) = "2"

abbrev print : Printing
print = record { decimal = digit; quoted = λ s. s; number_text = λ s. s }

abbrev locals : List String
locals = "total" ∷ "limit" ∷ []

-- `(total) > limit && config.total > total`, as a list of what it is made of.
abbrev condition : Node
condition = other_node "BinaryExpression" none (
    node_then (parenthesized (identifier false "total")) (
      node_then (other_node "GreaterThanToken" none no_nodes) (
        node_then (identifier false "limit") (
          node_then (identifier false "config") (
            node_then (identifier true "total")
              (node_then (identifier false "total") (node_then (numeric_literal "7") no_nodes)))))))

form_of_tests :
    form_of print locals condition
    ≡ "BinaryExpression($0,GreaterThanToken,$1,Id:config,Id:total,$0,Num:7)"
unfolding form_of
form_of_tests = refl

abbrev new_name : String → String
new_name = text_append "new_"

condition-IsFresh : IsFresh new_name locals condition
unfolding IsFresh
condition-IsFresh = (λ _. refl, (tt, (λ _. refl, (λ _. refl, (λ _. refl, (λ _. refl, (tt, tt)))))))

form_of-rename_example :
    form_of print (map new_name locals) (rename new_name locals condition)
    ≡ form_of print locals condition
form_of-rename_example =
    form_of-rename new_name (append_cancel_left "new_") locals print condition condition-IsFresh

abbrev construct : String → ℕ → BehaviorConstruct
construct hash order = record { form_hash = hash; order = order }

abbrev base : List BehaviorConstruct
base = construct "a" 0 ∷ construct "b" 1 ∷ []

abbrev head : List BehaviorConstruct
head = construct "c" 0 ∷ construct "a" 1 ∷ construct "c" 2 ∷ construct "d" 3 ∷ []

diff_tests : diff_behavior_constructs base head ≡ construct "c" 0 ∷ construct "d" 3 ∷ []
unfolding diff_behavior_constructs
diff_tests = refl

diff_behavior_constructs-IsDistinct_example :
    let changed = diff_behavior_constructs base head in
    All (λ c. has_hash c.form_hash base ≡ false) changed
    × IsDistinct changed
    × All (λ c. has_hash c.form_hash base || has_hash c.form_hash changed ≡ true) head
diff_behavior_constructs-IsDistinct_example = diff_behavior_constructs-IsDistinct base head
