-- ===== src/FuncUtil/Tests.antt =====
-- Runs of the query parser, the hexadecimal text and the checks of names, and instances of their
-- theorems.
use fiware_io_tagent_cpluspl.Common.{
  ℕ, ◌/◌, ◌%◌, ◌≤◌, Bytes, codes, Bool, true, false, ◌==◌, if◌then◌else◌, [], ◌∷◌, ◌≡◌, ◌↔◌, ◌⊎◌,
  refl, ap, ◌∙◌, All, arith,
}
use fiware_io_tagent_cpluspl.FuncUtil.Query.{
  Kvp, riot_get_query_params, url_decode, parse_loop, parse_char, parse_name, parse_value, finish,
  push_pair, is_control, hex_value, strtol_byte, write_pair, write_pairs, make_query_string,
}
use mathlib.Core.Path.{subst}
use fiware_io_tagent_cpluspl.FuncUtil.Query.Pairs.{
  IsPair, Encodes, ended, kept, escaped, render, riot_get_query_params-render,
  url_decode-of_Encodes,
}
use fiware_io_tagent_cpluspl.FuncUtil.Query.Written.{riot_get_query_params-make_query_string}
use fiware_io_tagent_cpluspl.FuncUtil.Query.Parsed.{riot_get_query_params-IsPair}
use fiware_io_tagent_cpluspl.FuncUtil.Hex.{
  TextLibrary, hex_digit, str_to_hex, hex_str_to_vector, hex_str_to_vector-str_to_hex, hex_bytes,
}
use fiware_io_tagent_cpluspl.FuncUtil.Names.{
  accepted, service_error, service_path_error, check_fiware_service_name,
  check_fiware_service_path_name, ServiceChar, IsServicePath, check_fiware_service_name_iff,
  check_fiware_service_path_name_iff,
}

-- A `&` that a value has in percent encoding separates all the same: decoding comes first.
riot_get_query_params_test :
    riot_get_query_params (codes "k=a%26b") []
    ≡ (true, (codes "k", codes "a") ∷ (codes "b", []) ∷ [])
unfolding riot_get_query_params url_decode parse_loop parse_char parse_name parse_value finish
    push_pair is_control hex_value strtol_byte
riot_get_query_params_test = refl

abbrev pair : Kvp
pair = (codes "i", codes "d 1")

abbrev written : Bytes
written = codes "i=d%201"

written-Encodes : Encodes (render (pair ∷ [])) written
unfolding hex_value
written-Encodes =
    kept 105 refl (kept 61 refl (kept 100 refl (escaped 50 48 2 0 refl refl (kept 49 refl ended))))

pair-IsPair : IsPair pair
unfolding is_control
pair-IsPair = (refl, (refl, tt), omega arith, (refl, (refl, (refl, tt))), omega arith)

url_decode-of_Encodes_example : url_decode written ≡ codes "i=d 1"
url_decode-of_Encodes_example = url_decode-of_Encodes (codes "i=d 1") written written-Encodes

riot_get_query_params-render_example : riot_get_query_params written [] ≡ (true, pair ∷ [])
riot_get_query_params-render_example =
    riot_get_query_params-render pair [] [] written (pair-IsPair, tt) written-Encodes

riot_get_query_params-IsPair_example :
    All IsPair (riot_get_query_params (codes "i=1&&k&=x") (pair ∷ [])).1
riot_get_query_params-IsPair_example =
    riot_get_query_params-IsPair (codes "i=1&&k&=x") (pair ∷ []) (pair-IsPair, tt)

-- An encoder that escapes `%` alone.
escape : Bytes → Bytes
escape [] = []
escape (c ∷ bytes) = if c == 37 then 37 ∷ 50 ∷ 53 ∷ escape bytes else c ∷ escape bytes

escape_char-Encodes :
    (c : ℕ) (is_percent : Bool) (bytes text : Bytes)
    → (c == 37) ≡ is_percent
    → Encodes bytes text
    → Encodes (c ∷ bytes) (if is_percent then 37 ∷ 50 ∷ 53 ∷ text else c ∷ text)
unfolding hex_value
escape_char-Encodes c true bytes text e h =
    let percent : 37 ≡ c = ground (arith, e) in
    subst (λ (k : ℕ). Encodes (k ∷ bytes) (37 ∷ 50 ∷ 53 ∷ text)) percent
      (escaped 50 53 2 5 refl refl h)
escape_char-Encodes c false bytes text e h = kept c e h

escape-Encodes : (bytes : Bytes) → Encodes bytes (escape bytes)
unfolding escape
escape-Encodes [] = ended
escape-Encodes (c ∷ bytes) =
    escape_char-Encodes c (c == 37) bytes (escape bytes) refl (escape-Encodes bytes)

make_query_string_test :
    make_query_string escape (pair ∷ (codes "k", []) ∷ (codes "p", codes "5%") ∷ [])
    ≡ codes "i=d 1&p=5%25"
unfolding make_query_string write_pairs write_pair escape
make_query_string_test = refl

riot_get_query_params-make_query_string_example :
    riot_get_query_params (make_query_string escape (pair ∷ (codes "k", []) ∷ [])) []
    ≡ (true, pair ∷ [])
riot_get_query_params-make_query_string_example =
    riot_get_query_params-make_query_string escape escape-Encodes (pair ∷ (codes "k", []) ∷ []) []
      (pair-IsPair, tt)

-- Calls that do what is said of Boost's.
print_byte : ℕ → Bytes
print_byte b = hex_digit (b / 16) ∷ hex_digit (b % 16) ∷ 32 ∷ []

drop_blanks : Bytes → Bytes
drop_blanks [] = []
drop_blanks (c ∷ s) = if c == 32 then drop_blanks s else (c ∷ drop_blanks s)

-- The blanks at the front.
trim_front : Bytes → Bytes
trim_front [] = []
trim_front (c ∷ s) = if c == 32 then trim_front s else (c ∷ s)

drop_blanks-trim_front : (s : Bytes) → drop_blanks (trim_front s) ≡ drop_blanks s
unfolding drop_blanks trim_front
drop_blanks-trim_front [] = refl
drop_blanks-trim_front (c ∷ s) = ground (arith, drop_blanks-trim_front s)

-- The blanks at the end.
trim_end : Bytes → Bytes
trim_end [] = []
trim_end (c ∷ s) =
    let rest = trim_end s in elim rest [ [] ↦ if c == 32 then [] else (c ∷ []) | d ∷ t ↦ c ∷ d ∷ t ]

drop_blanks-trim_end : (s : Bytes) → drop_blanks (trim_end s) ≡ drop_blanks s
unfolding drop_blanks trim_end
drop_blanks-trim_end [] = refl
drop_blanks-trim_end (c ∷ s) = ground (arith, drop_blanks-trim_end s)

abbrev text : TextLibrary
unfolding print_byte drop_blanks
text = record {
  format_byte = print_byte;
  trim = λ s. trim_end (trim_front s);
  erase_blanks = drop_blanks;
  format_byte_lem = λ b h. refl;
  erase_blanks_nil = refl;
  erase_blanks_blank = λ s. refl;
  erase_blanks_other =
      λ c s e. ap (λ (b : Bool). if b then drop_blanks s else (c ∷ drop_blanks s)) e;
  trim_lem = λ s h. drop_blanks-trim_end (trim_front s) ∙ drop_blanks-trim_front s;
}

hex_str_to_vector-str_to_hex_example :
    hex_str_to_vector text (str_to_hex text (0 ∷ 171 ∷ 255 ∷ [])) ≡ 0 ∷ 171 ∷ 255 ∷ []
hex_str_to_vector-str_to_hex_example =
    hex_str_to_vector-str_to_hex text (0 ∷ 171 ∷ 255 ∷ [])
      (omega arith, (omega arith, (omega arith, tt)))

str_to_hex_test : str_to_hex text (1 ∷ 171 ∷ []) ≡ codes "01 AB"
unfolding str_to_hex text print_byte trim_end trim_front hex_digit hex_bytes
str_to_hex_test = refl

check_fiware_service_name_iff_example :
    ((check_fiware_service_name (codes "house_1") ≡ accepted)
      ↔ ((1 ≤ 7) × (7 ≤ 50) × All ServiceChar (codes "house_1")))
    × ((check_fiware_service_name (codes "house_1") ≡ accepted)
        ⊎ (check_fiware_service_name (codes "house_1") ≡ service_error))
check_fiware_service_name_iff_example = check_fiware_service_name_iff (codes "house_1")

check_fiware_service_path_name_iff_example :
    ((check_fiware_service_path_name (codes "/a/b") ≡ accepted) ↔ IsServicePath (codes "/a/b"))
    × ((check_fiware_service_path_name (codes "/a/b") ≡ accepted)
        ⊎ (check_fiware_service_path_name (codes "/a/b") ≡ service_path_error))
check_fiware_service_path_name_iff_example = check_fiware_service_path_name_iff (codes "/a/b")
