-- ===== src/Esp/StringUtils.antt =====
-- src/esp/source/ESP_StringUtils.cpp: the functions on texts. A `char` is signed, and a text that is
-- given by a pointer to `char` ends before its first zero byte.
pub mod Affixes
pub mod Replace
pub mod Utf8
use Prim.Native.Nat.{bit_or}
use fiware_io_tagent_cpluspl.Common.Find.{rfind, cut_text}
use fiware_io_tagent_cpluspl.Common.{
  ℕ, zero, suc, ◌+◌, ◌-◌, ◌*◌, ◌/◌, ◌%◌, Bytes, codes, str_eq, Bool, true, false, ◌&&◌, ◌||◌, not,
  Option, none, some, List, [], ◌∷◌, ◌++◌, length, take, drop, any, all, is_empty, if◌then◌else◌,
  ltb, leb, ◌==◌,
}

-- s.erase(0, s.find_first_not_of(t))
unfoldable pub trim_front : Bytes → Bytes → Bytes
trim_front t [] = []
trim_front t (c ∷ s) = if any (◌==◌ c) t then trim_front t s else c ∷ s

-- s.erase(s.find_last_not_of(t) + 1)
unfoldable pub trim_back : Bytes → Bytes → Bytes
trim_back t [] = []
trim_back t (c ∷ s) = if is_empty (trim_back t s) && any (◌==◌ c) t then [] else c ∷ trim_back t s

-- ESP_StringUtils::trim, for a text
unfoldable pub trim : Bytes → Bytes → Bytes
trim s t = trim_back t (trim_front t s)

-- ESP_StringUtils::AddEndingString
unfoldable pub add_ending_string : Bytes → Bytes → Bytes
add_ending_string original ending = elim (rfind ending original) [
  | none ↦ original ++ ending
  | some place ↦
      if ltb (place + length ending) (length original) then original ++ ending else original
]

unfoldable pub str_to_lower : Bytes → Bytes
str_to_lower str = str

unfoldable pub str_to_upper : Bytes → Bytes
str_to_upper str = str

unfoldable pub str_to_first_capital : Bytes → Bytes
str_to_first_capital str = str

-- ESP_StringUtils::applyFormat
unfoldable pub apply_format : Bytes → Bytes → Bytes
apply_format source format =
    let operation = str_to_lower format in
    if str_eq operation (codes "uppercase")
    then str_to_upper source
    else if str_eq operation (codes "lowercase")
    then str_to_lower source
    else if str_eq operation (codes "firstcapital")
    then str_to_first_capital source
    else if str_eq operation (codes "addsemicolon")
    then add_ending_string source (codes ":")
    else source

-- The text that a pointer to `char` gives.
unfoldable pub c_str : Bytes → Bytes
c_str [] = []
c_str (c ∷ text) = if c == 0 then [] else c ∷ c_str text

-- ESP_StringUtils::replaceChar
unfoldable pub replace_char : Bytes → ℕ → ℕ → Bytes
replace_char [] srch repl = []
replace_char (c ∷ dest) srch repl =
    if c == 0 then c ∷ dest else (if c == srch then repl else c) ∷ replace_char dest srch repl

unfoldable pub is_login_char : ℕ → Bool
is_login_char c = (leb 65 c && leb c 90) || (leb 97 c && leb c 122) || (leb 48 c && leb c 57)

-- ESP_StringUtils::isValidLogin
unfoldable pub is_valid_login : Bytes → Bool
is_valid_login str = all is_login_char str

unfoldable pub is_utf8_byte : ℕ → Bool
is_utf8_byte c = not (c == 192 || c == 193 || (leb 245 c && leb c 255))

-- ESP_StringUtils::isValidUtf8
unfoldable pub is_valid_utf8 : Bytes → Bool
is_valid_utf8 text = all is_utf8_byte (c_str text)

-- c >> 6 for a signed `char`, as its lowest byte
unfoldable pub shift_six : ℕ → ℕ
shift_six c = if leb 128 c then c / 64 + 252 else c / 64

-- ESP_StringUtils::AnsiToUtf8
unfoldable pub ansi_to_utf8 : Bytes → Bytes
ansi_to_utf8 [] = []
ansi_to_utf8 (c ∷ text) =
    if leb 128 c
    then bit_or 192 (shift_six c) ∷ bit_or 128 (c % 64) ∷ ansi_to_utf8 text
    else c ∷ ansi_to_utf8 text

-- The `while` loop of replaceString, on fuel: what is left of the text, and what is written.
unfoldable pub replace_loop : ℕ → Bytes → Bytes → Bytes → Bytes → Option Bytes
replace_loop zero old_str new_str rest written = none
replace_loop (suc fuel) old_str new_str rest written = elim (cut_text old_str rest) [
  | none ↦ some (written ++ rest)
  | some (before, after) ↦ replace_loop fuel old_str new_str after (written ++ (before ++ new_str))
]

-- ESP_StringUtils::replaceString; `none` is a loop that has not ended within the fuel.
unfoldable pub replace_string : ℕ → Bytes → Bytes → Bytes → Option Bytes
replace_string fuel origin old_str new_str = replace_loop fuel old_str new_str origin []

-- ESP_StringUtils::startsWith
unfoldable pub starts_with : Bytes → Bytes → Bool
starts_with full starting =
    if leb (length starting) (length full)
    then str_eq (take (length starting) full) starting
    else false

-- ESP_StringUtils::endsWith
unfoldable pub ends_with : Bytes → Bytes → Bool
ends_with full ending =
    if leb (length ending) (length full)
    then str_eq (drop (length full - length ending) full) ending
    else false

-- pos - 1 < n, where `pos - 1` wraps around at 0
unfoldable pub has_path : Option ℕ → ℕ → Bool
has_path none n = false
has_path (some zero) n = false
has_path (some (suc before)) n = ltb before n

-- The place of the separator: the last backslash, or else the last slash.
unfoldable pub path_end : Bytes → Option ℕ
path_end full_path = elim (rfind (92 ∷ []) full_path) [
  | some place ↦ some place
  | none ↦ rfind (47 ∷ []) full_path
]

-- What is returned, and the two texts that are written.
unfoldable pub split_at : Bytes → Option ℕ → Bool × Bytes × Bytes
split_at full_path none = (false, [], full_path)
split_at full_path (some pos) =
    let path = if has_path (some pos) (length full_path) then take pos full_path else [] in
    let named = ltb (pos + 1) (length full_path) in
    (
      has_path (some pos) (length full_path) && named,
      path,
      if named then drop (pos + 1) full_path else [],
    )

-- ESP_StringUtils::splitPathAndFilename
unfoldable pub split_path_and_filename : Bytes → Bool × Bytes × Bytes
split_path_and_filename full_path = split_at full_path (path_end full_path)

-- ESP_StringUtils::convertToPassword
unfoldable pub convert_to_password : Bytes → Bool → Bytes
convert_to_password [] convert = []
convert_to_password (c ∷ str) convert =
    (if convert then 42 else c) ∷ convert_to_password str convert
