-- ===== src/Esp/Tests.antt =====
-- Runs of the texts of the sensor framework, and instances of their theorems.
use fiware_io_tagent_cpluspl.Common.Find.{after_prefix, cut_text, rfind, joined}
use fiware_io_tagent_cpluspl.Common.{
  ℕ, Bytes, Avoids, codes, bytes_key, true, false, none, some, List, [], ◌∷◌, ◌≡◌, ◌≢◌, ◌↔◌, ◌-◌,
  str_eq, str_below, refl, All, if◌then◌else◌, all, ltb, arith,
}
use fiware_io_tagent_cpluspl.Common.Map.{Assoc}
use fiware_io_tagent_cpluspl.Esp.StringUtils.{
  trim, trim_front, trim_back, add_ending_string, ends_with, apply_format, str_to_lower,
  str_to_upper, replace_string, replace_loop, split_path_and_filename, path_end, split_at, has_path,
  is_valid_utf8, ansi_to_utf8, shift_six,
}
use fiware_io_tagent_cpluspl.Esp.StringUtils.Affixes.{add_ending_string_lem}
use fiware_io_tagent_cpluspl.Esp.StringUtils.Replace.{replace_string-IsReplaced}
use fiware_io_tagent_cpluspl.Esp.StringUtils.Replace.{replace_string_terminates_iff}
use fiware_io_tagent_cpluspl.Esp.StringUtils.Utf8.{is_valid_utf8-ansi_to_utf8}
use fiware_io_tagent_cpluspl.Esp.Tokenizer.{
  new_string_tokenizer, get_string_between_elements, parse_params_string, tokens_of, read_tokens,
  has_room,
}
use fiware_io_tagent_cpluspl.Esp.Tokenizer.Parts.{new_string_tokenizer-between}
use fiware_io_tagent_cpluspl.Esp.Tokenizer.Params.{IsParam, parse_params_string-params_text}

trim_test : trim (codes "  a b ") (codes " ") ≡ codes "a b"
unfolding trim trim_front trim_back
trim_test = refl

-- A format in capitals changes nothing: str_to_upper is the identity.
apply_format_test : apply_format (codes "abc") (codes "uppercase") ≡ codes "abc"
unfolding apply_format str_to_lower str_to_upper str_eq
apply_format_test = refl

replace_string_test :
    replace_string 9 (codes "a--b-") (codes "-") (codes "+=") ≡ some (codes "a+=+=b+=")
unfolding replace_string replace_loop cut_text after_prefix
replace_string_test = refl

-- A file in the root directory is refused, and its path is empty.
split_path_and_filename_test : split_path_and_filename (codes "/etc") ≡ (false, [], codes "etc")
unfolding split_path_and_filename split_at path_end rfind after_prefix has_path
split_path_and_filename_test = refl

maxtokens_test :
    (new_string_tokenizer (codes "a,b,c") (codes ",") 2).elements ≡ codes "a" ∷ codes "b" ∷ []
unfolding new_string_tokenizer tokens_of read_tokens has_room
maxtokens_test = refl

add_ending_string_example :
    add_ending_string (codes "a:b") (codes ":")
    ≡ (if ends_with (codes "a:b") (codes ":") then codes "a:b" else codes "a:b:")
add_ending_string_example = add_ending_string_lem (codes "a:b") (codes ":")

replace_string-IsReplaced_example :
    (first : Bytes) × (parts : List Bytes) × (codes "a-b" ≡ joined (codes "-") first parts)
    × All (λ (part : Bytes). cut_text (codes "-") part ≡ none) (first ∷ parts)
    × (replace_string 4 (codes "a-b") (codes "-") (codes "+")
        ≡ some (joined (codes "+") first parts))
replace_string-IsReplaced_example =
    replace_string-IsReplaced 4 45 (codes "a-b") [] (codes "+") (omega arith)

replace_string_terminates_example :
    ((fuel : ℕ) × (result : Bytes) × (replace_string fuel (codes "ab") [] (codes "c")
        ≡ some result))
    ↔ (◌≢◌ {A = Bytes} [] [])
replace_string_terminates_example = replace_string_terminates_iff (codes "ab") [] (codes "c")

-- The first of the two bytes is 255, not 195: the shift keeps the sign.
ansi_to_utf8_test : ansi_to_utf8 (233 ∷ []) ≡ 255 ∷ 169 ∷ []
unfolding ansi_to_utf8 shift_six
ansi_to_utf8_test = refl

is_valid_utf8-ansi_to_utf8_example :
    is_valid_utf8 (ansi_to_utf8 (233 ∷ 97 ∷ [])) ≡ all (λ (c : ℕ). ltb c 128) (233 ∷ 97 ∷ [])
is_valid_utf8-ansi_to_utf8_example =
    is_valid_utf8-ansi_to_utf8 (233 ∷ 97 ∷ [])
      ((omega arith, omega arith), ((omega arith, omega arith), tt))

new_string_tokenizer-between_example :
    All (Avoids 47) (new_string_tokenizer (codes "a//b") (47 ∷ []) 0).elements
    × (get_string_between_elements
          (new_string_tokenizer (codes "a//b") (47 ∷ []) 0)
          0
          ((new_string_tokenizer (codes "a//b") (47 ∷ []) 0).count - 1)
        ≡ some (codes "a//b"))
new_string_tokenizer-between_example =
    new_string_tokenizer-between 47 98 (codes "a//") (omega arith)

abbrev params : Assoc Bytes Bytes
params = (codes "a", codes "1") ∷ (codes "b", codes "2") ∷ []

params-IsParam : All IsParam params
params-IsParam = (
  (omega arith, omega arith, omega arith, omega arith, refl),
  ((omega arith, omega arith, omega arith, omega arith, refl), tt),
)

parse_params_string-params_text_example : parse_params_string (codes "a=1,b=2") true ≡ params
unfolding str_below
parse_params_string-params_text_example =
    parse_params_string-params_text true params params-IsParam ((refl, tt), (tt, tt))
