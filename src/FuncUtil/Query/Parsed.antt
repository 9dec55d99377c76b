-- ===== src/FuncUtil/Query/Parsed.antt =====
-- src/util/FuncUtil.cc: what every pair is like that the query parser makes.
use fiware_io_tagent_cpluspl.Common.{
  ℕ, ◌*◌, ◌≤◌, ◌<◌, Bytes, true, false, Bool-cases, if-both, ◌||◌, Option, none, some, Option-cases,
  inl, inr, List, [], ◌∷◌, ◌++◌, ◌≡◌, refl, length, length-append, is_empty, leb, ◌==◌, All,
  All-append, arith,
}
use mathlib.Core.Path.{subst}
use fiware_io_tagent_cpluspl.FuncUtil.Query.{
  is_control, QueryParseState, query_parse_name, query_parse_value, query_name_max, query_value_max,
  Kvp, Parser, push_pair, parse_name, parse_value, parse_char, parse_loop, finish,
  riot_get_query_params, url_decode,
}
use fiware_io_tagent_cpluspl.FuncUtil.Query.Pairs.{name_char, value_char, IsPair, parser}

abbrev NameChar : ℕ → Type 0
NameChar c = name_char c ≡ true

abbrev ValueChar : ℕ → Type 0
ValueChar c = value_char c ≡ true

-- The parts that are being read fit, and so do the pairs; a value has a name.
abbrev IsParser : Parser → Type 0
IsParser p =
    (All NameChar p.query_name × (length p.query_name ≤ 1024))
    × (All ValueChar p.query_value × (length p.query_value ≤ 1024 * 1024))
    × (p.parse_state ≡ query_parse_value → is_empty p.query_name ≡ false)
    × All IsPair p.q_param

abbrev Holds : Option Parser → Type 0
Holds none = Unit
Holds (some p) = IsParser p

push_pair-IsPair :
    (p : Parser) → IsParser p → is_empty p.query_name ≡ false → All IsPair (push_pair p)
unfolding push_pair
push_pair-IsPair p h named =
    All-append IsPair p.q_param ((p.query_name, p.query_value) ∷ []) h.3
      ((named, h.0.0, h.0.1, h.1.0, h.1.1), tt)

is_empty-append : (n : Bytes) (c : ℕ) → is_empty (n ++ (c ∷ [])) ≡ false
is_empty-append [] c = refl
is_empty-append (x ∷ n) c = refl

parse_name-Holds :
    (c : ℕ) (p : Parser) → p.parse_state ≡ query_parse_name → IsParser p → Holds (parse_name c p)
unfolding parse_name
parse_name-Holds c p at h =
    if-both Holds (c == 61) _ _
      (λ equals.
        if-both Holds (is_empty p.query_name) _ _ (λ e. tt)
          (λ named. (h.0, h.1, (λ s. named), h.3)))
      (λ equals.
        if-both Holds (c == 38) _ _
          (λ ampersand.
            if-both Holds (is_empty p.query_name) _ _ (λ e. h)
              (λ named. (
                (tt, omega arith),
                h.1,
                (λ s. absurd (ground (arith, at, s))),
                push_pair-IsPair p h named,
              )))
          (λ ampersand.
            if-both Holds (c == 13 || c == 10) _ _ (λ newline. h)
              (λ newline.
                if-both Holds (is_control c || leb query_name_max (length p.query_name)) _ _
                  (λ refused. tt)
                  (λ taken. (
                    (
                      All-append NameChar p.query_name (c ∷ []) h.0.0
                          (fits equals ampersand taken, tt),
                      omega (arith, length-append p.query_name (c ∷ []), room taken),
                    ),
                    h.1,
                    (λ s. is_empty-append p.query_name c),
                    h.3,
                  )))))
  where
    fits :
        (c == 61) ≡ false
        → (c == 38) ≡ false
        → (is_control c || leb query_name_max (length p.query_name)) ≡ false
        → name_char c ≡ true
    fits a b d = ground (arith, a, b, d)

    room :
        (is_control c || leb query_name_max (length p.query_name)) ≡ false
        → length p.query_name < 1024
    room d = ground (arith, d)

parse_value-Holds :
    (c : ℕ) (p : Parser) → p.parse_state ≡ query_parse_value → IsParser p → Holds (parse_value c p)
unfolding parse_value
parse_value-Holds c p at h =
    if-both Holds (c == 38) _ _
      (λ ampersand. (
        (tt, omega arith),
        (tt, omega arith),
        (λ s. absurd (ground (arith, s))),
        push_pair-IsPair p h (h.2 at),
      ))
      (λ ampersand.
        if-both Holds (c == 13 || c == 10) _ _ (λ newline. h)
          (λ newline.
            if-both Holds (is_control c || leb query_value_max (length p.query_value)) _ _
              (λ refused. tt)
              (λ taken. (
                h.0,
                (
                  All-append ValueChar p.query_value (c ∷ []) h.1.0 (fits ampersand taken, tt),
                  omega (arith, length-append p.query_value (c ∷ []), room taken),
                ),
                h.2,
                h.3,
              ))))
  where
    fits :
        (c == 38) ≡ false
        → (is_control c || leb query_value_max (length p.query_value)) ≡ false
        → value_char c ≡ true
    fits b d = ground (arith, b, d)

    room :
        (is_control c || leb query_value_max (length p.query_value)) ≡ false
        → length p.query_value < 1024 * 1024
    room d = ground (arith, d)

parse_char-Holds :
    (s : QueryParseState) (c : ℕ) (p : Parser)
    → p.parse_state ≡ s
    → IsParser p
    → Holds (parse_char s c p)
unfolding parse_char
parse_char-Holds query_parse_name c p at h = parse_name-Holds c p at h
parse_char-Holds query_parse_value c p at h = parse_value-Holds c p at h

parse_loop-IsPair : (query : Bytes) (p : Parser) → IsParser p → All IsPair (parse_loop query p).1
unfolding parse_loop finish
parse_loop-IsPair [] p h = elim (Bool-cases (is_empty p.query_name)) [
  | inl e ↦ rw e h.3
  | inr named ↦ rw named (push_pair-IsPair p h named)
]
parse_loop-IsPair (c ∷ query) p h =
    let next = parse_char-Holds p.parse_state c p refl h in
    elim (Option-cases (parse_char p.parse_state c p)) [
      | inl e ↦ rw (e, parse_loop) h.3
      | inr (q, e) ↦ rw (e, parse_loop) (parse_loop-IsPair query q (subst Holds e next))
    ]

-- Whatever the query, and whether the parser returns true or false: when the pairs that the caller's
-- vector has before the call fit, all that it has afterwards do, that is each name has 1 to 1024
-- characters, each value at most 1024 * 1024, none is a control character or `&`, and none in a name
-- is `=`.
pub riot_get_query_params-IsPair :
    (query : Bytes) (q_param : List Kvp)
    → All IsPair q_param
    → All IsPair (riot_get_query_params query q_param).1
unfolding riot_get_query_params
riot_get_query_params-IsPair query q_param h =
    let start : IsParser (parser query_parse_name [] [] q_param) =
      ((tt, omega arith), (tt, omega arith), (λ s. absurd (ground (arith, s))), h) in
    elim (Bool-cases (is_empty query)) [
      | inl e ↦ rw e h
      | inr e ↦
          rw e (parse_loop-IsPair (url_decode query) (parser query_parse_name [] [] q_param) start)
    ]
