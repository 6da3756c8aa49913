-- ===== src/Evidence.antt =====
-- app/src/evidence/evidence-mapping.ts: the readers of persisted values. Every reader takes a value of
-- any type and answers null for what is not of its own.
pub mod Facts
pub mod Candidates
mod Stored
mod Selected
mod Tests
use tjc_be_rag_core_api.Base.{
  ℕ, String, Bool, true, false, not, ◌&&◌, ◌||◌, Option, none, some, List, [], ◌∷◌, map,
  if◌then◌else◌, str_eq, leb, ltb, ◌==◌, length, all, codes,
}

-- A number by what the readers ask of it: an integer from 0 on, another finite number by its text, or
-- one that is not finite.
pub data Number : Type 0 where
  natural : ℕ → Number
  finite : String → Number
  not_finite : Number

-- `unknown`: a value as it comes out of a JSON column, or a field that is missing.
mutual
  pub data Json : Type 0 where
    undefined : Json
    json_null : Json
    boolean : Bool → Json
    number : Number → Json
    json_text : String → Json
    array : Entries → Json
    object : Fields → Json

  pub data Entries : Type 0 where
    no_entries : Entries
    entry : Json → Entries → Entries

  pub data Fields : Type 0 where
    no_fields : Fields
    field : String → Json → Fields → Fields

unfoldable pub get : String → Fields → Json
get key no_fields = undefined
get key (field k v fs) = if str_eq k key then v else get key fs

-- `isRecord(value) ? value : {}`
unfoldable pub fields_of : Json → Fields
fields_of (object fs) = fs
fields_of _ = no_fields

abbrev pub records_in : Entries → List Fields
unfolding fields_of
records_in no_entries = []
records_in (entry v vs) = fields_of v ∷ records_in vs

-- `recordsOf`
unfoldable pub records_of : Json → List Fields
records_of (array vs) = records_in vs
records_of _ = []

abbrev pub is_empty : String → Bool
is_empty String.[] = true
is_empty (String.◌∷◌ c s) = false

abbrev pub unless_empty : String → Option String
unless_empty s = if is_empty s then none else some s

-- `toText`
unfoldable pub to_text : Json → Option String
to_text (json_text s) = unless_empty s
to_text _ = none

-- `toCount`
unfoldable pub to_count : Json → Option ℕ
to_count (number (natural n)) = some n
to_count _ = none

-- `toFiniteNumber`
unfoldable pub to_finite_number : Json → Option Number
to_finite_number (number not_finite) = none
to_finite_number (number n) = some n
to_finite_number _ = none

-- `toFlag`
unfoldable pub to_flag : Json → Option Bool
to_flag (boolean b) = some b
to_flag _ = none

abbrev is_hexadecimal : ℕ → Bool
is_hexadecimal c = (leb b'0' c && leb c b'9') || (leb b'a' c && leb c b'f')

-- `SHA256_PATTERN`
abbrev is_sha256 : String → Bool
is_sha256 s = (length (codes s) == 64) && all is_hexadecimal (codes s)

-- `toSha256`
unfoldable to_sha256 : Json → Option String
to_sha256 (json_text s) = if is_sha256 s then some s else none
to_sha256 _ = none

abbrev texts_in : Entries → List String
texts_in no_entries = []
texts_in (entry (json_text s) vs) = if is_empty s then texts_in vs else s ∷ texts_in vs
texts_in (entry _ vs) = texts_in vs

-- `toTextList`
unfoldable pub to_text_list : Json → List String
to_text_list (array vs) = texts_in vs
to_text_list _ = []

-- The value that a list of names gives to a text.
abbrev pub named : {A : Type 0} → List (String × A) → String → Option A
named [] s = none
named ((name, a) ∷ names) s = if str_eq name s then some a else named names s

-- `typeof value === 'string' && values.includes(value) ? value : null`
unfoldable pub one_of : {A : Type 0} → List (String × A) → Json → Option A
one_of names (json_text s) = named names s
one_of names _ = none

pub data PairPosition : Type 0 where
  first_arm second_arm : PairPosition

-- `toPairPosition`
unfoldable to_pair_position : Json → Option PairPosition
to_pair_position (number (natural n)) =
    if n == 1 then some first_arm else if n == 2 then some second_arm else none
to_pair_position _ = none

-- `artifactHashOf`; the hash of the empty text is an argument.
unfoldable artifact_hash_of : String → Json → Option String
unfolding to_sha256
artifact_hash_of empty_content_sha256 value = elim (to_sha256 value) [
  | none ↦ none
  | some hash ↦ if str_eq hash empty_content_sha256 then none else some hash
]
