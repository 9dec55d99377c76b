-- ===== src/FuncUtil/Query/Pairs.antt =====
-- src/util/FuncUtil.cc: what the query parser reads back of the pairs that a query was written from.
use fiware_io_tagent_cpluspl.Common.{
  ℕ, ◌+◌, ◌*◌, ◌≤◌, ◌<◌, Bytes, Bool, true, false, ◌&&◌, not, some, List, [], ◌∷◌, ◌++◌, ◌≡◌, refl,
  sym, ap, ◌∙◌, length, length-append, append_nil, append_snoc, is_empty, ◌==◌, All, arith,
}
use fiware_io_tagent_cpluspl.FuncUtil.Query.{
  is_control, QueryParseState, query_parse_name, query_parse_value, Kvp, Parser, push_pair,
  parse_name, parse_value, parse_char, parse_loop, finish, riot_get_query_params, url_decode,
  hex_value, strtol_byte,
}

abbrev pub parser : QueryParseState → Bytes → Bytes → List Kvp → Parser
parser s n v ps = record { parse_state = s; query_name = n; query_value = v; q_param = ps }

-- Characters of a value, and of a name.
abbrev pub value_char : ℕ → Bool
value_char c = not (c == 38) && not (is_control c)

abbrev pub name_char : ℕ → Bool
name_char c = not (c == 61) && value_char c

parse_name_char :
    (c : ℕ) (n v : Bytes) (ps : List Kvp)
    → name_char c ≡ true
    → length n < 1024
    → parse_name c (parser query_parse_name n v ps)
      ≡ some (parser query_parse_name (n ++ (c ∷ [])) v ps)
unfolding parse_name is_control
parse_name_char c n v ps h small = ground (arith, h)

parse_value_char :
    (c : ℕ) (n v : Bytes) (ps : List Kvp)
    → value_char c ≡ true
    → length v < 1024 * 1024
    → parse_value c (parser query_parse_value n v ps)
      ≡ some (parser query_parse_value n (v ++ (c ∷ [])) ps)
unfolding parse_value is_control
parse_value_char c n v ps h small = ground (arith, h)

parse_loop_step :
    (c : ℕ) (query : Bytes) (p q : Parser)
    → parse_char p.parse_state c p ≡ some q
    → parse_loop (c ∷ query) p ≡ parse_loop query q
unfolding parse_loop
parse_loop_step c query p q e = rw (e, parse_loop) refl

name_run :
    (cs rest n : Bytes) (ps : List Kvp)
    → All (λ (c : ℕ). name_char c ≡ true) cs
    → length n + length cs ≤ 1024
    → parse_loop (cs ++ rest) (parser query_parse_name n [] ps)
      ≡ parse_loop rest (parser query_parse_name (n ++ cs) [] ps)
unfolding parse_char
name_run [] rest n ps h fits =
    ap (λ (t : Bytes). parse_loop rest (parser query_parse_name t [] ps)) (sym (append_nil n))
name_run (c ∷ cs) rest n ps h fits =
    parse_loop_step c (cs ++ rest) (parser query_parse_name n [] ps)
      (parser query_parse_name (n ++ (c ∷ [])) [] ps) (parse_name_char c n [] ps h.0 (omega arith))
    ∙ name_run cs rest (n ++ (c ∷ [])) ps h.1 (omega (arith, length-append n (c ∷ [])))
    ∙ ap (λ (t : Bytes). parse_loop rest (parser query_parse_name t [] ps)) (append_snoc n c cs)

value_run :
    (cs rest n v : Bytes) (ps : List Kvp)
    → All (λ (c : ℕ). value_char c ≡ true) cs
    → length v + length cs ≤ 1024 * 1024
    → parse_loop (cs ++ rest) (parser query_parse_value n v ps)
      ≡ parse_loop rest (parser query_parse_value n (v ++ cs) ps)
unfolding parse_char
value_run [] rest n v ps h fits =
    ap (λ (t : Bytes). parse_loop rest (parser query_parse_value n t ps)) (sym (append_nil v))
value_run (c ∷ cs) rest n v ps h fits =
    parse_loop_step c (cs ++ rest) (parser query_parse_value n v ps)
      (parser query_parse_value n (v ++ (c ∷ [])) ps) (parse_value_char c n v ps h.0 (omega arith))
    ∙ value_run cs rest n (v ++ (c ∷ [])) ps h.1 (omega (arith, length-append v (c ∷ [])))
    ∙ ap (λ (t : Bytes). parse_loop rest (parser query_parse_value n t ps)) (append_snoc v c cs)

-- A pair that fits: the name has a character, and neither part has one that separates or controls.
abbrev pub IsPair : Kvp → Type 0
IsPair (n, v) =
    (is_empty n ≡ false)
    × All (λ (c : ℕ). name_char c ≡ true) n
    × (length n ≤ 1024)
    × All (λ (c : ℕ). value_char c ≡ true) v
    × (length v ≤ 1024 * 1024)

-- name=value&name=value
abbrev pub render : List Kvp → Bytes
render [] = []
render ((n, v) ∷ []) = n ++ (61 ∷ v)
render ((n, v) ∷ pair ∷ pairs) = n ++ (61 ∷ (v ++ (38 ∷ render (pair ∷ pairs))))

-- A pair up to the end of its value.
pair_run :
    (n v rest : Bytes) (ps : List Kvp)
    → IsPair (n, v)
    → parse_loop (n ++ (61 ∷ (v ++ rest))) (parser query_parse_name [] [] ps)
      ≡ parse_loop rest (parser query_parse_value n v ps)
unfolding parse_char parse_name
pair_run n v rest ps h =
    name_run n (61 ∷ (v ++ rest)) [] ps h.1 (omega (arith, h.2))
    ∙ parse_loop_step 61 (v ++ rest) (parser query_parse_name n [] ps)
        (parser query_parse_value n [] ps) (ground (arith, h.0))
    ∙ value_run v rest n [] ps h.3 (omega (arith, h.4))

parse_loop-render :
    (pairs ps : List Kvp)
    → All IsPair pairs
    → parse_loop (render pairs) (parser query_parse_name [] [] ps) ≡ (true, ps ++ pairs)
unfolding parse_loop finish push_pair parse_char parse_value
parse_loop-render [] ps h = ap (λ (t : List Kvp). (true, t)) (sym (append_nil ps))
parse_loop-render ((n, v) ∷ []) ps h =
    ap (λ (t : Bytes). parse_loop (n ++ (61 ∷ t)) (parser query_parse_name [] [] ps))
      (sym (append_nil v))
    ∙ pair_run n v [] ps h.0
    ∙ rw h.0.0 refl
parse_loop-render ((n, v) ∷ pair ∷ pairs) ps h =
    pair_run n v (38 ∷ render (pair ∷ pairs)) ps h.0
    ∙ parse_loop-render (pair ∷ pairs) (ps ++ ((n, v) ∷ [])) h.1
    ∙ ap (λ (t : List Kvp). (true, t)) (append_snoc ps (n, v) (pair ∷ pairs))

-- A text in percent encoding: any byte may be escaped, in either case of the digits, and `%` is.
pub data Encodes : Bytes → Bytes → Type 0 where
  ended : Encodes [] []
  kept :
      (c : ℕ) {bytes text : Bytes}
      → (c == 37) ≡ false
      → Encodes bytes text
      → Encodes (c ∷ bytes) (c ∷ text)
  escaped :
      (x y a b : ℕ) {bytes text : Bytes}
      → hex_value x ≡ some a
      → hex_value y ≡ some b
      → Encodes bytes text
      → Encodes ((a * 16 + b) ∷ bytes) (37 ∷ x ∷ y ∷ text)

url_decode_kept :
    (c : ℕ) (text : Bytes) → (c == 37) ≡ false → url_decode (c ∷ text) ≡ c ∷ url_decode text
unfolding url_decode
url_decode_kept c [] e = refl
url_decode_kept c (x ∷ []) e = refl
url_decode_kept c (x ∷ y ∷ text) e = rw (e, url_decode) refl

strtol_byte_digits :
    (x y a b : ℕ) → hex_value x ≡ some a → hex_value y ≡ some b → strtol_byte x y ≡ a * 16 + b
unfolding strtol_byte
strtol_byte_digits x y a b p q = rw (p, q, strtol_byte) refl

-- Whatever bytes a percent encoding escapes, and in whichever case it writes the digits, decoding
-- the text gives the bytes.
pub url_decode-of_Encodes : (bytes text : Bytes) → Encodes bytes text → url_decode text ≡ bytes
unfolding url_decode
url_decode-of_Encodes [] [] ended = refl
url_decode-of_Encodes _ _ (kept c {bytes} {text} e h) =
    url_decode_kept c text e ∙ ap (◌∷◌ c) (url_decode-of_Encodes bytes text h)
url_decode-of_Encodes _ _ (escaped x y a b {bytes} {text} p q h) =
    ap (λ (t : ℕ). t ∷ url_decode text) (strtol_byte_digits x y a b p q)
    ∙ ap (◌∷◌ (a * 16 + b)) (url_decode-of_Encodes bytes text h)

render-is_empty :
    (pair : Kvp) (pairs : List Kvp) → IsPair pair → is_empty (render (pair ∷ pairs)) ≡ false
render-is_empty ([], v) pairs h = absurd (ground (arith, h.0))
render-is_empty (c ∷ n, v) [] h = refl
render-is_empty (c ∷ n, v) (next ∷ pairs) h = refl

-- For a list of at least one pair, each with a name of 1 to 1024 characters and a value of at most
-- 1024 * 1024, none of them a control character or `&`, and none in a name `=`: on every percent
-- encoding of `name=value&...`, the parser returns true and appends the pairs to the caller's vector,
-- in their order.
pub riot_get_query_params-render :
    (pair : Kvp) (pairs q_param : List Kvp) (query : Bytes)
    → All IsPair (pair ∷ pairs)
    → Encodes (render (pair ∷ pairs)) query
    → riot_get_query_params query q_param ≡ (true, q_param ++ (pair ∷ pairs))
unfolding riot_get_query_params url_decode
riot_get_query_params-render pair pairs q_param [] h encoded =
    let empty : [] ≡ render (pair ∷ pairs) =
      url_decode-of_Encodes (render (pair ∷ pairs)) [] encoded in
    absurd (ground (arith, render-is_empty pair pairs h.0, ap (is_empty {A = ℕ}) empty))
riot_get_query_params-render pair pairs q_param (c ∷ query) h encoded =
    ap (λ (t : Bytes). parse_loop t (parser query_parse_name [] [] q_param))
      (url_decode-of_Encodes (render (pair ∷ pairs)) (c ∷ query) encoded)
    ∙ parse_loop-render (pair ∷ pairs) q_param h
