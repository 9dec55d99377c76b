-- ===== src/Esp/StringUtils/Utf8.antt =====
-- src/esp/source/ESP_StringUtils.cpp: what AnsiToUtf8 gives, by isValidUtf8.
use Prim.Native.Nat.{bit_or}
use fiware_io_tagent_cpluspl.Common.{
  ℕ, ◌%◌, ◌<◌, Bytes, Bool, true, false, ◌&&◌, not, [], ◌∷◌, ◌≡◌, refl, sym, ap, ◌∙◌, all,
  if◌then◌else◌, ltb, leb, ◌==◌, All, Bool-cases, inl, inr, all_below, all_below-holds, arith,
}
use fiware_io_tagent_cpluspl.Esp.StringUtils.{
  c_str, is_utf8_byte, is_valid_utf8, shift_six, ansi_to_utf8,
}

-- The first of the two bytes that a character from 128 on becomes: it is never one of UTF-8.
lead_is_wrong : ℕ → Bool
lead_is_wrong c =
    if leb 128 c
    then (let lead = bit_or 192 (shift_six c) in not (is_utf8_byte lead) && not (lead == 0))
    else is_utf8_byte c

leads_are_wrong : all_below 256 lead_is_wrong ≡ true
unfolding all_below lead_is_wrong shift_six is_utf8_byte
leads_are_wrong = refl

-- The bytes of a character, and a text.
abbrev pub IsChar : ℕ → Type 0
IsChar c = (c < 256) × (0 < c)

is_valid_utf8-cons :
    (c : ℕ) (text : Bytes)
    → (c == 0) ≡ false
    → is_valid_utf8 (c ∷ text) ≡ (is_utf8_byte c && is_valid_utf8 text)
unfolding is_valid_utf8 c_str
is_valid_utf8-cons c text e = rw (e, c_str) refl

is_valid_utf8-high :
    (c : ℕ) (text : Bytes)
    → lead_is_wrong c ≡ true
    → leb 128 c ≡ true
    → is_valid_utf8 (ansi_to_utf8 (c ∷ text)) ≡ false
unfolding ansi_to_utf8 lead_is_wrong
is_valid_utf8-high c text checked high =
    let lead : ℕ = bit_or 192 (shift_six c) in
    let more : Bytes = bit_or 128 (c % 64) ∷ ansi_to_utf8 text in
    let facts : (is_utf8_byte lead ≡ false) × ((lead == 0) ≡ false) =
      (ground (arith, checked, high), ground (arith, checked, high)) in
    rw high
      (is_valid_utf8-cons lead more facts.1 ∙ ap (λ (b : Bool). b && is_valid_utf8 more) facts.0)

is_valid_utf8-low :
    (c : ℕ) (text : Bytes)
    → lead_is_wrong c ≡ true
    → leb 128 c ≡ false
    → 0 < c
    → is_valid_utf8 (ansi_to_utf8 (c ∷ text)) ≡ is_valid_utf8 (ansi_to_utf8 text)
unfolding ansi_to_utf8 lead_is_wrong
is_valid_utf8-low c text checked low positive =
    let good : is_utf8_byte c ≡ true = ground (arith, checked, low) in
    let filled : (c == 0) ≡ false = ground arith in
    rw low (
      is_valid_utf8-cons c (ansi_to_utf8 text) filled
      ∙ ap (λ (b : Bool). b && is_valid_utf8 (ansi_to_utf8 text)) good)

-- Of a text of characters other than zero, the result is valid by the framework's own test exactly
-- when every character of the text is below 128.
pub is_valid_utf8-ansi_to_utf8 :
    (text : Bytes)
    → All IsChar text
    → is_valid_utf8 (ansi_to_utf8 text) ≡ all (λ (c : ℕ). ltb c 128) text
unfolding is_valid_utf8 c_str ansi_to_utf8
is_valid_utf8-ansi_to_utf8 [] h = refl
is_valid_utf8-ansi_to_utf8 (c ∷ text) h =
    let checked : lead_is_wrong c ≡ true =
      all_below-holds lead_is_wrong c 256 h.0.0 leads_are_wrong in
    elim (Bool-cases (leb 128 c)) [
      | inl high ↦
          let big : ltb c 128 ≡ false = ground arith in
          is_valid_utf8-high c text checked high
          ∙ sym (ap (λ (b : Bool). b && all (λ (d : ℕ). ltb d 128) text) big)
      | inr low ↦
          let small : ltb c 128 ≡ true = ground arith in
          is_valid_utf8-low c text checked low h.0.1
          ∙ is_valid_utf8-ansi_to_utf8 text h.1
          ∙ sym (ap (λ (b : Bool). b && all (λ (d : ℕ). ltb d 128) text) small)
    ]
