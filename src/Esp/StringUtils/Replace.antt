-- ===== src/Esp/StringUtils/Replace.antt =====
-- src/esp/source/ESP_StringUtils.cpp: replaceString, by the parts between the occurrences.
use mathlib.Core.List.{append_assoc}
use fiware_io_tagent_cpluspl.Common.Find.{after_prefix, cut_text, joined, cut_text-eq_some}
use fiware_io_tagent_cpluspl.Common.{
  ℕ, zero, suc, ◌+◌, ◌<◌, Bytes, Option, none, some, List, [], ◌∷◌, ◌++◌, ◌≡◌, ◌≢◌, ◌↔◌, inl, inr,
  refl, sym, ap, ◌∙◌, length, length-append, All, Option-cases, arith,
}
use fiware_io_tagent_cpluspl.Esp.StringUtils.{replace_loop, replace_string}

-- What the loop gives from a text on: its parts, none of which has an occurrence.
abbrev IsReplaced : Bytes → Bytes → Bytes → Bytes → Option Bytes → Type 0
IsReplaced old_str new_str rest written result =
    (first : Bytes) × (parts : List Bytes) × (rest ≡ joined old_str first parts)
    × All (λ (part : Bytes). cut_text old_str part ≡ none) (first ∷ parts)
    × (result ≡ some (written ++ joined new_str first parts))

replace_loop-IsReplaced :
    (fuel c : ℕ) (old_str new_str rest written : Bytes)
    → length rest < fuel
    → IsReplaced
        (c ∷ old_str)
        new_str
        rest
        written
        (replace_loop fuel (c ∷ old_str) new_str rest written)
unfolding replace_loop
replace_loop-IsReplaced zero c old_str new_str rest written h = elim h [ ]
replace_loop-IsReplaced (suc fuel) c old_str new_str rest written h =
    elim (Option-cases (cut_text (c ∷ old_str) rest)) [
      | inl nothing ↦ (rest, [], refl, (nothing, tt), rw (nothing, replace_loop) refl)
      | inr ((before, after), found) ↦
          let cut = cut_text-eq_some c old_str rest (before, after) found in
          let sizes : length rest ≡ length before + (suc (length old_str) + length after) =
            ap length cut.0
            ∙ length-append before ((c ∷ old_str) ++ after)
            ∙ ap (◌+◌ (length before)) (length-append (c ∷ old_str) after) in
          let (first, parts, whole, free, result) =
            replace_loop-IsReplaced fuel c old_str new_str after (written ++ (before ++ new_str))
              (omega arith) in
          (
            before,
            first ∷ parts,
            cut.0 ∙ ap (λ (t : Bytes). before ++ ((c ∷ old_str) ++ t)) whole,
            (cut.1, free),
            rw (found, replace_loop)
                (result
                  ∙ ap some (
                      append_assoc written (before ++ new_str) (joined new_str first parts)
                      ∙ ap (◌++◌ written)
                          (append_assoc before new_str (joined new_str first parts)))),
          )
    ]

-- For a text to be replaced that is not empty, and fuel above the size of the origin: the origin is
-- parts in which the text does not occur, joined by it, and the result is the same parts joined by
-- the new one.
pub replace_string-IsReplaced :
    (fuel c : ℕ) (origin old_str new_str : Bytes)
    → length origin < fuel
    → (first : Bytes) × (parts : List Bytes) × (origin ≡ joined (c ∷ old_str) first parts)
      × All (λ (part : Bytes). cut_text (c ∷ old_str) part ≡ none) (first ∷ parts)
      × (replace_string fuel origin (c ∷ old_str) new_str ≡ some (joined new_str first parts))
unfolding replace_string
replace_string-IsReplaced fuel c origin old_str new_str h =
    replace_loop-IsReplaced fuel c old_str new_str origin [] h

replace_loop-of_nil :
    (fuel : ℕ) (new_str rest written : Bytes) → replace_loop fuel [] new_str rest written ≡ none
unfolding replace_loop cut_text after_prefix
replace_loop-of_nil zero new_str rest written = refl
replace_loop-of_nil (suc fuel) new_str [] written =
    replace_loop-of_nil fuel new_str [] (written ++ new_str)
replace_loop-of_nil (suc fuel) new_str (c ∷ rest) written =
    replace_loop-of_nil fuel new_str (c ∷ rest) (written ++ new_str)

-- The loop ends, within some number of rounds, exactly when the text to be replaced is not empty.
pub replace_string_terminates_iff :
    (origin old_str new_str : Bytes)
    → ((fuel : ℕ) × (result : Bytes) × (replace_string fuel origin old_str new_str ≡ some result))
      ↔ (old_str ≢ [])
unfolding replace_string
replace_string_terminates_iff origin [] new_str = (
  λ (fuel, result, e). λ same. none-ne-some (sym (replace_loop-of_nil fuel new_str origin []) ∙ e),
  λ differs. absurd (differs refl),
)
  where
    none-ne-some : {A : Type 0} {a : A} → none ≡ some a → ⊥
    none-ne-some e = cc
replace_string_terminates_iff origin (c ∷ old_str) new_str = (
  λ h e. absurd (cc),
  λ differs.
      let (first, parts, whole, free, result) =
        replace_string-IsReplaced (suc (length origin)) c origin old_str new_str (omega arith) in
      (suc (length origin), joined new_str first parts, result),
)
