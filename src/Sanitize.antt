-- ===== src/Sanitize.antt =====
-- app/src/common/sanitize-failure-message.util.ts: the cleaning of a message of failure. The rules that
-- take secrets out of a text are regular expressions of the language, and are an argument.
use Prim.Native.Char.{Char, code}
use Prim.Native.String.{◌++◌ as text_append}
use tjc_be_rag_core_api.Base.{
  ℕ, zero, suc, String, Bool, true, false, ◌&&◌, ◌||◌, if◌then◌else◌, leb, ltb, ◌==◌,
}

-- `FAILURE_MESSAGE_MAX_LENGTH`
abbrev failure_message_max_length : ℕ
failure_message_max_length = 500

-- `FAILURE_MESSAGE_SCAN_MAX_LENGTH`
abbrev failure_message_scan_max_length : ℕ
failure_message_scan_max_length = 16384

-- `WHITESPACE_CONTROL_CODES`
abbrev is_white_control : Char → Bool
is_white_control c = leb 9 (code c) && leb (code c) 13

abbrev is_control : Char → Bool
is_control c = ltb (code c) 32 || code c == 127

abbrev normalized_character : Char → String → String
normalized_character c rest =
    if is_white_control c
    then text_append " " rest
    else if is_control c
    then rest
    else String.◌∷◌ c rest

-- The characters that are scanned, and whether some are left.
abbrev scanned : ℕ → String → String × Bool
scanned n String.[] = (String.[], false)
scanned zero (String.◌∷◌ c s) = (String.[], true)
scanned (suc n) (String.◌∷◌ c s) = let rest = scanned n s in (normalized_character c rest.0, rest.1)

abbrev has_space : String → Bool
has_space String.[] = false
has_space (String.◌∷◌ c s) = code c == 32 || has_space s

-- What stands before the last space.
abbrev before_last_space : String → String
before_last_space String.[] = String.[]
before_last_space (String.◌∷◌ c s) =
    let rest = before_last_space s in if has_space s then String.◌∷◌ c rest else String.[]

abbrev without_last_token : String × Bool → String
without_last_token (s, truncated) = if truncated && has_space s then before_last_space s else s

-- `normalizeControlCharacters`
unfoldable pub normalize_control_characters : String → String
normalize_control_characters s = without_last_token (scanned failure_message_scan_max_length s)

abbrev take_characters : ℕ → String → String
take_characters zero s = String.[]
take_characters (suc n) String.[] = String.[]
take_characters (suc n) (String.◌∷◌ c s) = String.◌∷◌ c (take_characters n s)

-- `sanitizeFailureMessage`; the argument is `redactSecretsInText`.
unfoldable pub sanitize_failure_message : (String → String) → String → String
unfolding normalize_control_characters
sanitize_failure_message redact_secrets_in_text message =
    take_characters failure_message_max_length
      (redact_secrets_in_text (normalize_control_characters message))
