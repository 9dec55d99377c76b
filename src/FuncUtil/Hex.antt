-- ===== src/FuncUtil/Hex.antt =====
-- src/util/FuncUtil.cc: `str_to_hex` and `hex_str_to_vector`, and what they make of each other's text.
use fiware_io_tagent_cpluspl.Common.{
  ℕ, ◌+◌, ◌-◌, ◌*◌, ◌/◌, ◌%◌, ◌≤◌, ◌<◌, Bytes, true, false, ◌&&◌, ◌||◌, Option, none, some, List,
  [], ◌∷◌, ◌++◌, ◌≡◌, refl, ap, ◌∙◌, if◌then◌else◌, leb, ltb, ◌==◌, All, arith, all_below,
  all_below-holds,
}
use fiware_io_tagent_cpluspl.FuncUtil.Query.{hex_value}

-- The digit that `%X` prints.
unfoldable pub hex_digit : ℕ → ℕ
hex_digit x = if ltb x 10 then 48 + x else 55 + x

-- The calls of Boost: the format `%02X `, `trim`, and `erase_all` of the blank. Trimming takes away
-- blanks only, of a text that has no other white space.
pub record TextLibrary : Type 0 where
  pub format_byte : ℕ → Bytes
  pub trim : Bytes → Bytes
  pub erase_blanks : Bytes → Bytes
  pub format_byte_lem :
      (b : ℕ) → b < 256 → format_byte b ≡ hex_digit (b / 16) ∷ hex_digit (b % 16) ∷ 32 ∷ []
  pub erase_blanks_nil : erase_blanks [] ≡ []
  pub erase_blanks_blank : (s : Bytes) → erase_blanks (32 ∷ s) ≡ erase_blanks s
  pub erase_blanks_other :
      (c : ℕ) (s : Bytes) → (c == 32) ≡ false → erase_blanks (c ∷ s) ≡ c ∷ erase_blanks s
  pub trim_lem : (s : Bytes) → All (λ (c : ℕ). 32 ≤ c) s → erase_blanks (trim s) ≡ erase_blanks s

-- ss >> std::hex >> x, for the one or two characters of `ss`; `none` is a conversion error. White
-- space or a sign may come first, and `0x` without a digit is an error.
unfoldable pub read_hex : ℕ → Bytes → Option ℕ
read_hex a [] = hex_value a
read_hex a (b ∷ s) = if a == 48 && (b == 120 || b == 88) then none else elim (hex_value a) [
  | some x ↦ elim (hex_value b) [ none ↦ some x | some y ↦ some (x * 16 + y) ]
  | none ↦
      if (leb 9 a && leb a 13) || a == 43
      then hex_value b
      else if a == 45
      then elim (hex_value b) [ none ↦ none | some y ↦ some ((65536 - y) % 65536) ]
      else none
]

-- v.push_back(x), which keeps the low byte, before the rest of the loop.
unfoldable pub push_byte : Option ℕ → Option (List ℕ) → Option (List ℕ)
push_byte none v = none
push_byte (some x) none = none
push_byte (some x) (some v) = some (x % 256 ∷ v)

unfoldable pub read_pairs : Bytes → Option (List ℕ)
read_pairs [] = some []
read_pairs (a ∷ []) = push_byte (read_hex a []) (some [])
read_pairs (a ∷ b ∷ s) = push_byte (read_hex a (b ∷ [])) (read_pairs s)

module _ (text : TextLibrary) where
  -- The loop of iota::str_to_hex over the bytes.
  unfoldable pub hex_bytes : List ℕ → Bytes
  hex_bytes [] = []
  hex_bytes (b ∷ fr) = text.format_byte b ++ hex_bytes fr

  -- iota::str_to_hex
  unfoldable pub str_to_hex : List ℕ → Bytes
  str_to_hex fr = text.trim (hex_bytes fr)

  -- iota::hex_str_to_vector: a conversion error clears the vector.
  unfoldable pub hex_str_to_vector : Bytes → List ℕ
  hex_str_to_vector str = elim (read_pairs (text.erase_blanks str)) [ none ↦ [] | some v ↦ v ]

digits_checked :
    all_below 16 (λ x.
      (elim (hex_value (hex_digit x)) [ none ↦ 16 | some y ↦ y ] == x)
      && (leb 48 (hex_digit x) && ltb (hex_digit x) 71))
    ≡ true
unfolding all_below hex_value hex_digit
digits_checked = refl

hex_digit_lem :
    (x : ℕ) → x < 16 → (hex_value (hex_digit x) ≡ some x) × (48 ≤ hex_digit x) × (hex_digit x < 71)
hex_digit_lem x h = ground (arith, all_below-holds _ x 16 h digits_checked)

digits_of : List ℕ → Bytes
digits_of [] = []
digits_of (b ∷ fr) = hex_digit (b / 16) ∷ hex_digit (b % 16) ∷ digits_of fr

read_hex_digits :
    (b : ℕ) → b < 256 → read_hex (hex_digit (b / 16)) (hex_digit (b % 16) ∷ []) ≡ some b
unfolding read_hex
read_hex_digits b h =
    let high = hex_digit_lem (b / 16) (omega arith) in
    let low = hex_digit_lem (b % 16) (omega arith) in
    let no_prefix : (hex_digit (b / 16) == 48
          && (hex_digit (b % 16) == 120 || hex_digit (b % 16) == 88))
        ≡ false =
      ground arith in
    rw (no_prefix, high.0, low.0) (ap some (omega arith))

read_pairs-digits_of : (fr : List ℕ) → All (λ b. b < 256) fr → read_pairs (digits_of fr) ≡ some fr
unfolding read_pairs digits_of push_byte
read_pairs-digits_of [] h = refl
read_pairs-digits_of (b ∷ fr) h =
    rw (read_hex_digits b h.0, read_pairs-digits_of fr h.1)
      (ap (λ (t : ℕ). some (t ∷ fr)) (omega arith))

module _ (text : TextLibrary) where
  hex_bytes_printed : (fr : List ℕ) → All (λ b. b < 256) fr → All (λ c. 32 ≤ c) (hex_bytes text fr)
  unfolding hex_bytes
  hex_bytes_printed [] h = tt
  hex_bytes_printed (b ∷ fr) h =
      let high = hex_digit_lem (b / 16) (omega arith) in
      let low = hex_digit_lem (b % 16) (omega arith) in
      rw (text.format_byte_lem b h.0)
        (omega arith, (omega arith, (omega arith, hex_bytes_printed fr h.1)))

  erase_blanks-hex_bytes :
      (fr : List ℕ) → All (λ b. b < 256) fr → text.erase_blanks (hex_bytes text fr) ≡ digits_of fr
  unfolding hex_bytes digits_of
  erase_blanks-hex_bytes [] h = text.erase_blanks_nil
  erase_blanks-hex_bytes (b ∷ fr) h =
      let x = hex_digit (b / 16) in
      let y = hex_digit (b % 16) in
      let high = hex_digit_lem (b / 16) (omega arith) in
      let low = hex_digit_lem (b % 16) (omega arith) in
      ap (λ (t : Bytes). text.erase_blanks (t ++ hex_bytes text fr)) (text.format_byte_lem b h.0)
      ∙ text.erase_blanks_other x (y ∷ 32 ∷ hex_bytes text fr) (ground arith)
      ∙ ap (◌∷◌ x) (text.erase_blanks_other y (32 ∷ hex_bytes text fr) (ground arith))
      ∙ ap (λ (t : Bytes). x ∷ y ∷ t) (text.erase_blanks_blank (hex_bytes text fr))
      ∙ ap (λ (t : Bytes). x ∷ y ∷ t) (erase_blanks-hex_bytes fr h.1)

  -- For every vector of bytes, reading the hexadecimal text that is printed of it gives the vector,
  -- given what is said of the calls of Boost.
  pub hex_str_to_vector-str_to_hex :
      (fr : List ℕ) → All (λ b. b < 256) fr → hex_str_to_vector text (str_to_hex text fr) ≡ fr
  unfolding hex_str_to_vector str_to_hex
  hex_str_to_vector-str_to_hex fr h =
      let read : read_pairs (text.erase_blanks (text.trim (hex_bytes text fr))) ≡ some fr =
        ap read_pairs (text.trim_lem (hex_bytes text fr) (hex_bytes_printed fr h))
        ∙ ap read_pairs (erase_blanks-hex_bytes fr h)
        ∙ read_pairs-digits_of fr h in
      ap (λ (o : Option (List ℕ)). elim o [ none ↦ [] | some v ↦ v ]) read
