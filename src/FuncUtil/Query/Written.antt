-- ===== src/FuncUtil/Query/Written.antt =====
-- src/util/FuncUtil.cc: what the query parser reads back of a query that `make_query_string` wrote.
use fiware_io_tagent_cpluspl.Common.{
  ℕ, suc, Bytes, false, not, List, [], ◌∷◌, ◌++◌, ◌≡◌, refl, sym, ap, ◌∙◌, append_nil, is_empty,
  ◌==◌, All, arith,
}
use mathlib.Core.Path.{subst}
use mathlib.Core.List.{append_assoc}
use fiware_io_tagent_cpluspl.FuncUtil.Query.{
  Kvp, write_pair, write_pairs, make_query_string, riot_get_query_params,
}
use fiware_io_tagent_cpluspl.FuncUtil.Query.Pairs.{
  IsPair, render, Encodes, ended, kept, escaped, riot_get_query_params-render,
}

-- The pairs with a value.
abbrev pub with_value : List Kvp → List Kvp
with_value [] = []
with_value ((name, []) ∷ pairs) = with_value pairs
with_value ((name, c ∷ value) ∷ pairs) = (name, c ∷ value) ∷ with_value pairs

-- &name=value for each pair
abbrev rendered_after : List Kvp → Bytes
rendered_after [] = []
rendered_after ((n, v) ∷ pairs) = 38 ∷ (n ++ (61 ∷ (v ++ rendered_after pairs)))

render_cons :
    (n v : Bytes) (pairs : List Kvp)
    → render ((n, v) ∷ pairs) ≡ n ++ (61 ∷ (v ++ rendered_after pairs))
render_cons n v [] = ap (λ (t : Bytes). n ++ (61 ∷ t)) (sym (append_nil v))
render_cons n v ((m, w) ∷ pairs) =
    ap (λ (t : Bytes). n ++ (61 ∷ (v ++ (38 ∷ t)))) (render_cons m w pairs)

append-Encodes : {a b s t : Bytes} → Encodes a s → Encodes b t → Encodes (a ++ b) (s ++ t)
append-Encodes ended g = g
append-Encodes (kept c e h) g = kept c e (append-Encodes h g)
append-Encodes (escaped x y a b p q h) g = escaped x y a b p q (append-Encodes h g)

module _ (url_encode : Bytes → Bytes) (encodes : (b : Bytes) → Encodes b (url_encode b)) where
  pair-Encodes : (n v : Bytes) → Encodes (n ++ (61 ∷ v)) (url_encode n ++ (61 ∷ url_encode v))
  pair-Encodes n v = append-Encodes (encodes n) (kept 61 refl (encodes v))

  write_pair-Encodes :
      (i : ℕ) (n v b s : Bytes)
      → Encodes b s
      → Encodes ((b ++ (38 ∷ [])) ++ (n ++ (61 ∷ v))) (write_pair url_encode (suc i) (n, v) s)
  unfolding write_pair
  write_pair-Encodes i n v b s h =
      let later : (suc i == 0) ≡ false = ground arith in
      rw later (append-Encodes (append-Encodes h (kept 38 refl ended)) (pair-Encodes n v))

  regroup :
      (b n v rest : Bytes)
      → ((b ++ (38 ∷ [])) ++ (n ++ (61 ∷ v))) ++ rest ≡ b ++ (38 ∷ (n ++ (61 ∷ (v ++ rest))))
  regroup b n v rest =
      append_assoc (b ++ (38 ∷ [])) (n ++ (61 ∷ v)) rest
      ∙ append_assoc b (38 ∷ []) ((n ++ (61 ∷ v)) ++ rest)
      ∙ ap (λ (t : Bytes). b ++ (38 ∷ t)) (append_assoc n (61 ∷ v) rest)

  write_pairs-Encodes :
      (pairs : List Kvp) (i : ℕ) (b s : Bytes)
      → Encodes b s
      → Encodes (b ++ rendered_after (with_value pairs)) (write_pairs url_encode pairs (suc i) s)
  unfolding write_pairs
  write_pairs-Encodes [] i b s h = subst (λ (t : Bytes). Encodes t s) (sym (append_nil b)) h
  write_pairs-Encodes ((n, []) ∷ pairs) i b s h = write_pairs-Encodes pairs i b s h
  write_pairs-Encodes ((n, c ∷ v) ∷ pairs) i b s h =
      subst (λ (t : Bytes). Encodes t (write_pairs url_encode ((n, c ∷ v) ∷ pairs) (suc i) s))
        (regroup b n (c ∷ v) (rendered_after (with_value pairs)))
        (write_pairs-Encodes pairs (suc i) ((b ++ (38 ∷ [])) ++ (n ++ (61 ∷ (c ∷ v)))) _
          (write_pair-Encodes i n (c ∷ v) b s h))

  make_query_string-Encodes :
      (pairs : List Kvp) → Encodes (render (with_value pairs)) (make_query_string url_encode pairs)
  unfolding make_query_string write_pairs write_pair
  make_query_string-Encodes [] = ended
  make_query_string-Encodes ((n, []) ∷ pairs) = make_query_string-Encodes pairs
  make_query_string-Encodes ((n, c ∷ v) ∷ pairs) =
      subst (λ (t : Bytes). Encodes t (make_query_string url_encode ((n, c ∷ v) ∷ pairs)))
        (append_assoc n (61 ∷ c ∷ v) (rendered_after (with_value pairs))
          ∙ sym (render_cons n (c ∷ v) (with_value pairs)))
        (write_pairs-Encodes pairs 0 (n ++ (61 ∷ c ∷ v)) _ (pair-Encodes n (c ∷ v)))

  riot_get_query_params-Encodes :
      (pairs q_param : List Kvp) (query : Bytes)
      → All IsPair pairs
      → Encodes (render pairs) query
      → riot_get_query_params query q_param ≡ (not (is_empty pairs), q_param ++ pairs)
  unfolding riot_get_query_params
  riot_get_query_params-Encodes [] q_param _ h ended =
      ap (λ (t : List Kvp). (false, t)) (sym (append_nil q_param))
  riot_get_query_params-Encodes (pair ∷ pairs) q_param query h encoded =
      riot_get_query_params-render pair pairs q_param query h encoded

  -- With an encoder whose text is a percent encoding of its argument: when each pair that has a value
  -- has a name of 1 to 1024 characters and a value of at most 1024 * 1024, none of them a control
  -- character or `&`, and none in a name `=`, the parser reads exactly those pairs back from the query
  -- that is written of all of them, in their order, and returns false just when no pair has a value.
  pub riot_get_query_params-make_query_string :
      (pairs q_param : List Kvp)
      → All IsPair (with_value pairs)
      → riot_get_query_params (make_query_string url_encode pairs) q_param
        ≡ (not (is_empty (with_value pairs)), q_param ++ with_value pairs)
  riot_get_query_params-make_query_string pairs q_param h =
      riot_get_query_params-Encodes (with_value pairs) q_param (make_query_string url_encode pairs)
        h (make_query_string-Encodes pairs)
