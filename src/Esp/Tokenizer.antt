-- ===== src/Esp/Tokenizer.antt =====
-- src/esp/source/ESP_StringUtils.cpp: CC_StringTokenizer, and parseParamsString over it.
pub mod Parts
pub mod Params
use fiware_io_tagent_cpluspl.Common.{
  ℕ, zero, suc, ◌+◌, ◌-◌, Bytes, codes, str_eq, bytes_key, Bool, true, false, ◌&&◌, ◌||◌, not,
  Option, none, some, List, [], ◌∷◌, ◌++◌, length, get_elem?, get_or, is_empty, if◌then◌else◌, ltb,
  leb, ◌==◌,
}
use fiware_io_tagent_cpluspl.Common.Map.{Assoc, insert}
use fiware_io_tagent_cpluspl.Esp.StringUtils.{str_to_lower}

pub record StringTokenizer : Type 0 where
  pub elements : List Bytes
  pub index : ℕ
  pub count : ℕ
  pub sep : Bytes

-- maxtokens <= 0 || elements.size() < maxtokens
unfoldable pub has_room : ℕ → List Bytes → Bool
has_room maxtokens elements = maxtokens == 0 || ltb (length elements) maxtokens

-- The loop over the text, and the last token.
unfoldable pub read_tokens : ℕ → ℕ → Bytes → Bytes → List Bytes → List Bytes
read_tokens sep maxtokens [] str1 elements =
    if not (is_empty str1) && has_room maxtokens elements then elements ++ (str1 ∷ []) else elements
read_tokens sep maxtokens (c ∷ str) str1 elements =
    read_tokens sep maxtokens str (if c == sep then [] else str1 ++ (c ∷ []))
      (if c == sep && has_room maxtokens elements then elements ++ (str1 ∷ []) else elements)

-- A separator of another length than 1 gives no token.
unfoldable pub tokens_of : Bytes → Bytes → ℕ → List Bytes
tokens_of str (sep ∷ []) maxtokens = read_tokens sep maxtokens str [] []
tokens_of str _ maxtokens = []

-- CC_StringTokenizer::CC_StringTokenizer
unfoldable pub new_string_tokenizer : Bytes → Bytes → ℕ → StringTokenizer
new_string_tokenizer str sep maxtokens = record {
  elements = tokens_of str sep maxtokens;
  index = 0;
  count = length (tokens_of str sep maxtokens);
  sep = sep;
}

-- CC_StringTokenizer::getNextElement
unfoldable pub get_next_element : StringTokenizer → StringTokenizer × Bytes
get_next_element t =
    if ltb t.index t.count
    then (record t { index = t.index + 1 }, get_or t.elements t.index [])
    else (t, [])

-- CC_StringTokenizer::elementAt, for an index that is not negative
unfoldable pub element_at : StringTokenizer → ℕ → Bytes
element_at t index = if leb t.count index then [] else get_or t.elements index []

-- The loop of getStringBetweenElements over `rounds` elements from `i` on; the last one has no
-- separator behind it. `none` is an access beyond the elements.
unfoldable pub between : StringTokenizer → ℕ → ℕ → Option Bytes
between t zero i = some []
between t (suc rounds) i = elim (get_elem? t.elements i) [
  | none ↦ none
  | some element ↦ elim (between t rounds (i + 1)) [
    | none ↦ none
    | some later ↦ some (element ++ ((if rounds == 0 then [] else t.sep) ++ later))
  ]
]

-- CC_StringTokenizer::getStringBetweenElements
unfoldable pub get_string_between_elements : StringTokenizer → ℕ → ℕ → Option Bytes
get_string_between_elements t initial final = between t (final + 1 - initial) initial

-- Two elements make an entry.
unfoldable pub add_param : Bool → List Bytes → Assoc Bytes Bytes → Assoc Bytes Bytes
add_param value_to_lower (name ∷ value ∷ []) pt =
    insert (str_to_lower name) (if value_to_lower then str_to_lower value else value) pt
add_param value_to_lower _ pt = pt

-- The loop over the elements.
unfoldable pub add_params : Bool → List Bytes → Assoc Bytes Bytes → Assoc Bytes Bytes
add_params value_to_lower [] pt = pt
add_params value_to_lower (element ∷ elements) pt =
    add_params value_to_lower elements
      (add_param value_to_lower (new_string_tokenizer element (codes "=") 0).elements pt)

-- ESP_StringUtils::parseParamsString
unfoldable pub parse_params_string : Bytes → Bool → Assoc Bytes Bytes
parse_params_string str value_to_lower =
    add_params value_to_lower (new_string_tokenizer str (codes ",") 0).elements []
