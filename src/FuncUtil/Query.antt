-- ===== src/FuncUtil/Query.antt =====
-- src/util/FuncUtil.cc: `riot_getQueryParams`, the parser of a query string, and
-- `make_query_string`, which writes one.
pub mod Pairs
pub mod Parsed
pub mod Written
use fiware_io_tagent_cpluspl.Common.{
  ℕ, zero, suc, ◌+◌, ◌-◌, ◌*◌, ◌%◌, Bytes, Bool, true, false, ◌&&◌, ◌||◌, not, Option, none, some,
  List, [], ◌∷◌, ◌++◌, length, is_empty, if◌then◌else◌, ltb, leb, ◌==◌,
}

-- The digits that `strtol` reads in base 16.
unfoldable pub hex_value : ℕ → Option ℕ
hex_value c =
    if leb 48 c && leb c 57
    then some (c - 48)
    else if leb 65 c && leb c 70
    then some (c - 55)
    else if leb 97 c && leb c 102
    then some (c - 87)
    else none

-- strtol(decode_buf, 0, 16) as a byte, for the two characters of `decode_buf`: white space or a sign
-- may come first, what is no digit ends the number, and no digit at all is 0.
unfoldable pub strtol_byte : ℕ → ℕ → ℕ
strtol_byte a b =
    let low : ℕ = elim (hex_value b) [ none ↦ 0 | some y ↦ y ] in
    let blank = (a == 32 || (leb 9 a && leb a 13)) || a == 43 in
    elim (hex_value a) [
      | some x ↦ elim (hex_value b) [ none ↦ x | some y ↦ x * 16 + y ]
      | none ↦ if blank then low else if a == 45 then (256 - low) % 256 else 0
    ]

-- iota::url_decode: a `%` that has two characters after it makes a byte with them.
unfoldable pub url_decode : Bytes → Bytes
url_decode [] = []
url_decode (c ∷ []) = c ∷ []
url_decode (c ∷ a ∷ []) = c ∷ url_decode (a ∷ [])
url_decode (c ∷ a ∷ b ∷ str) = elim (c == 37) [
  | true ↦ strtol_byte a b ∷ url_decode str
  | false ↦ c ∷ url_decode (a ∷ b ∷ str)
]

-- iota::isControl
unfoldable pub is_control : ℕ → Bool
is_control c = (leb 0 c && leb c 31) || (c == 127)

pub data QueryParseState : Type 0 where
  query_parse_name : QueryParseState
  query_parse_value : QueryParseState

abbrev pub query_name_max : ℕ
query_name_max = 1024

abbrev pub query_value_max : ℕ
query_value_max = 1024 * 1024

-- iota::KVP
abbrev pub Kvp : Type 0
Kvp = Bytes × Bytes

-- The variables of the loop; `q_param` is the caller's vector.
pub record Parser : Type 0 where
  pub parse_state : QueryParseState
  pub query_name : Bytes
  pub query_value : Bytes
  pub q_param : List Kvp

-- q_param.push_back(KVP(query_name, query_value))
unfoldable pub push_pair : Parser → List Kvp
push_pair p = p.q_param ++ ((p.query_name, p.query_value) ∷ [])

-- One character in the state QUERY_PARSE_NAME; `none` is `return false`.
unfoldable pub parse_name : ℕ → Parser → Option Parser
parse_name c p =
    if c == 61
    then if is_empty p.query_name then none else some (record p { parse_state = query_parse_value })
    else if c == 38
    then if is_empty p.query_name
      then some p
      else some (record p { q_param = push_pair p; query_name = [] })
    else if c == 13 || c == 10
    then some p
    else if is_control c || leb query_name_max (length p.query_name)
    then none
    else some (record p { query_name = p.query_name ++ (c ∷ []) })

-- One character in the state QUERY_PARSE_VALUE.
unfoldable pub parse_value : ℕ → Parser → Option Parser
parse_value c p =
    if c == 38
    then some (record p {
      q_param = push_pair p;
      query_name = [];
      query_value = [];
      parse_state = query_parse_name;
    })
    else if c == 13 || c == 10
    then some p
    else if is_control c || leb query_value_max (length p.query_value)
    then none
    else some (record p { query_value = p.query_value ++ (c ∷ []) })

unfoldable pub parse_char : QueryParseState → ℕ → Parser → Option Parser
parse_char query_parse_name c p = parse_name c p
parse_char query_parse_value c p = parse_value c p

-- The last pair.
unfoldable pub finish : Parser → List Kvp
finish p = if not (is_empty p.query_name) then push_pair p else p.q_param

-- The `while` loop and what follows it: the returned value, and the caller's vector at the return.
unfoldable pub parse_loop : Bytes → Parser → Bool × List Kvp
parse_loop [] p = (true, finish p)
parse_loop (c ∷ query) p = elim (parse_char p.parse_state c p) [
  | none ↦ (false, p.q_param)
  | some q ↦ parse_loop query q
]

unfoldable pub riot_get_query_params : Bytes → List Kvp → Bool × List Kvp
riot_get_query_params q_str q_param =
    if is_empty q_str
    then (false, q_param)
    else parse_loop (url_decode q_str) (record {
      parse_state = query_parse_name;
      query_name = [];
      query_value = [];
      q_param = q_param;
    })

-- One pair in the loop of iota::make_query_string; `i` counts the pairs written before it.
unfoldable pub write_pair : (Bytes → Bytes) → ℕ → Kvp → Bytes → Bytes
write_pair url_encode i (name, value) query_string =
    (if i == 0 then query_string else query_string ++ (38 ∷ []))
    ++ (url_encode name ++ (61 ∷ url_encode value))

-- The `while` loop, over the multimap's pairs in their order: one with an empty value is passed over.
unfoldable pub write_pairs : (Bytes → Bytes) → List Kvp → ℕ → Bytes → Bytes
write_pairs url_encode [] i query_string = query_string
write_pairs url_encode ((name, value) ∷ query_parameters) i query_string = elim (is_empty value) [
  | true ↦ write_pairs url_encode query_parameters i query_string
  | false ↦
      write_pairs url_encode query_parameters (suc i)
        (write_pair url_encode i (name, value) query_string)
]

-- iota::make_query_string; `url_encode` is pion's.
unfoldable pub make_query_string : (Bytes → Bytes) → List Kvp → Bytes
make_query_string url_encode query_parameters = write_pairs url_encode query_parameters 0 []
