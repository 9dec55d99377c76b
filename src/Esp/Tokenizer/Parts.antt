-- ===== src/Esp/Tokenizer/Parts.antt =====
-- src/esp/source/ESP_StringUtils.cpp: the tokens of a text, and the text of the tokens.
use fiware_io_tagent_cpluspl.Common.Find.{joined}
use fiware_io_tagent_cpluspl.Common.{
  ℕ, suc, ◌+◌, ◌-◌, Bytes, Avoids, false, some, List, [], ◌∷◌, ◌++◌, ◌≡◌, ◌≢◌, refl, sym, ap, ◌∙◌,
  length, get_elem?, is_empty, append_nil, append_snoc, get_elem?-append_right, length-append,
  if◌then◌else◌, ◌==◌, Bool-cases, inl, inr, All, All-append, arith,
}
use fiware_io_tagent_cpluspl.Esp.Tokenizer.{
  StringTokenizer, has_room, read_tokens, tokens_of, new_string_tokenizer, between,
  get_string_between_elements,
}

-- The tokens of a text, by recursion on it.
abbrev pub split : ℕ → Bytes → Bytes → List Bytes
split sep [] token = if is_empty token then [] else token ∷ []
split sep (c ∷ str) token =
    if c == sep then token ∷ split sep str [] else split sep str (token ++ (c ∷ []))

pub read_tokens-split :
    (sep : ℕ) (str token : Bytes) (elements : List Bytes)
    → read_tokens sep 0 str token elements ≡ elements ++ split sep str token
unfolding read_tokens has_room
read_tokens-split sep [] [] elements = sym (append_nil elements)
read_tokens-split sep [] (c ∷ token) elements = refl
read_tokens-split sep (c ∷ str) token elements = elim (Bool-cases (c == sep)) [
  | inl e ↦ rw e (
      read_tokens-split sep str [] (elements ++ (token ∷ []))
      ∙ append_snoc elements token (split sep str []))
  | inr e ↦ rw e (read_tokens-split sep str (token ++ (c ∷ [])) elements)
]

-- What the tokens are of a text that does not end with the separator.
abbrev pub AreTokens : ℕ → Bytes → List Bytes → Type 0
AreTokens sep str tokens =
    (first : Bytes) × (parts : List Bytes) × (tokens ≡ first ∷ parts)
    × (joined (sep ∷ []) first parts ≡ str)
    × All (Avoids sep) (first ∷ parts)

split-AreTokens :
    (sep d : ℕ) (front token : Bytes)
    → d ≢ sep
    → Avoids sep token
    → AreTokens sep (token ++ (front ++ (d ∷ []))) (split sep (front ++ (d ∷ [])) token)
split-AreTokens sep d [] token differs free = elim (Bool-cases (d == sep)) [
  | inl e ↦ absurd (differs (ground (arith, e)))
  | inr e ↦ rw e (
      whole (token ++ (d ∷ [])) (snoc-nonempty token)
        (All-append (λ (c : ℕ). c ≢ sep) token (d ∷ []) free (differs, tt)))
]
  where
    snoc-nonempty : (xs : Bytes) → is_empty (xs ++ (d ∷ [])) ≡ false
    snoc-nonempty [] = refl
    snoc-nonempty (x ∷ xs) = refl

    whole :
        (xs : Bytes)
        → is_empty xs ≡ false
        → Avoids sep xs
        → AreTokens sep xs (if is_empty xs then [] else xs ∷ [])
    whole xs e h = rw e (xs, [], refl, refl, (h, tt))
split-AreTokens sep d (c ∷ front) token differs free = elim (Bool-cases (c == sep)) [
  | inl e ↦
      let (first, parts, are, text, each) = split-AreTokens sep d front [] differs tt in
      let same : sep ≡ c = ground (arith, e) in
      rw e (
        token,
        first ∷ parts,
        ap (◌∷◌ token) are,
        ap (λ (t : Bytes). token ++ (sep ∷ t)) text
            ∙ ap (λ (k : ℕ). token ++ (k ∷ (front ++ (d ∷ [])))) same,
        (free, each),
      )
  | inr e ↦
      let other : c ≢ sep = λ same. ground (arith, e) in
      let (first, parts, are, text, each) =
        split-AreTokens sep d front (token ++ (c ∷ [])) differs
          (All-append (λ (b : ℕ). b ≢ sep) token (c ∷ []) free (other, tt)) in
      rw e (first, parts, are, text ∙ append_snoc token c (front ++ (d ∷ [])), each)
]

-- The elements from the `i`-th on, up to the last.
between-joined :
    (t : StringTokenizer) (before : List Bytes) (first : Bytes) (parts : List Bytes) (i : ℕ)
    → t.elements ≡ before ++ (first ∷ parts)
    → i ≡ length before
    → between t (suc (length parts)) i ≡ some (joined t.sep first parts)
unfolding between
between-joined t before first [] i e at =
    let found : get_elem? t.elements i ≡ some first =
      ap (λ (xs : List Bytes). get_elem? xs i) e
      ∙ get_elem?-append_right before (first ∷ []) i 0 (omega arith) in
    rw (found, between) (ap some (append_nil first))
between-joined t before first (part ∷ parts) i e at =
    let found : get_elem? t.elements i ≡ some first =
      ap (λ (xs : List Bytes). get_elem? xs i) e
      ∙ get_elem?-append_right before (first ∷ part ∷ parts) i 0 (omega arith) in
    let later : between t (suc (length parts)) (i + 1) ≡ some (joined t.sep part parts) =
      between-joined t (before ++ (first ∷ [])) part parts (i + 1)
        (e ∙ sym (append_snoc before first (part ∷ parts)))
        (omega (arith, length-append before (first ∷ []))) in
    let more : (suc (length parts) == 0) ≡ false = ground arith in
    rw (found, between) (rw later (rw more refl))

between-all :
    (t : StringTokenizer) (first : Bytes) (parts : List Bytes)
    → t.elements ≡ first ∷ parts
    → t.count ≡ length t.elements
    → get_string_between_elements t 0 (t.count - 1) ≡ some (joined t.sep first parts)
unfolding get_string_between_elements
between-all t first parts e size =
    let rounds : t.count - 1 + 1 - 0 ≡ suc (length parts) =
      omega (arith, size, ap (length {A = Bytes}) e) in
    ap (λ (n : ℕ). between t n 0) rounds ∙ between-joined t [] first parts 0 e (omega arith)

-- For a text that does not end with the separator, and is not empty: no token has the separator, and
-- the text of all the elements is the text.
pub new_string_tokenizer-between :
    (sep d : ℕ) (front : Bytes)
    → d ≢ sep
    → All (Avoids sep) (new_string_tokenizer (front ++ (d ∷ [])) (sep ∷ []) 0).elements
      × (get_string_between_elements
            (new_string_tokenizer (front ++ (d ∷ [])) (sep ∷ []) 0)
            0
            ((new_string_tokenizer (front ++ (d ∷ [])) (sep ∷ []) 0).count - 1)
          ≡ some (front ++ (d ∷ [])))
unfolding new_string_tokenizer tokens_of
new_string_tokenizer-between sep d front differs =
    let (first, parts, are, text, each) = split-AreTokens sep d front [] differs tt in
    let elements : read_tokens sep 0 (front ++ (d ∷ [])) [] [] ≡ first ∷ parts =
      read_tokens-split sep (front ++ (d ∷ [])) [] [] ∙ are in
    (
      rw elements each,
      between-all (new_string_tokenizer (front ++ (d ∷ [])) (sep ∷ []) 0) first parts elements refl
          ∙ ap some text,
    )
