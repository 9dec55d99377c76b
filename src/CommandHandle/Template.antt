-- ===== src/CommandHandle/Template.antt =====
-- src/rest/command_handle.cc: the body that transform_command makes of a command's value.
use fiware_io_tagent_cpluspl.Common.{
  ℕ, ◌+◌, ◌≤◌, ◌<◌, Bytes, codes, str_eq, true, false, none, List, [], ◌∷◌, ◌++◌, ◌≡◌, refl, ap,
  ◌∙◌, ◌⊎◌, inl, inr, length, is_empty, if◌then◌else◌, ltb, ◌==◌, All, Bool-cases, Option-cases,
  arith,
}
use fiware_io_tagent_cpluspl.Common.Find.{cut_text, joined, cut_text-eq_some}
use fiware_io_tagent_cpluspl.Common.Outcome.{invalid_parameter, Outcome, returned, iota_exception}
use fiware_io_tagent_cpluspl.CommandHandle.{
  Calls, raw, count, fill, malformed, command_body, transform_command,
}

-- The parts with a parameter between each two.
abbrev pub filled : Bytes → List Bytes → List Bytes → Bytes
filled first [] params = first
filled first (part ∷ parts) [] = first
filled first (part ∷ parts) (param ∷ params) = first ++ (param ++ filled part parts params)

-- The value is parts without `%s` in them, for which there are parameters enough, and the body has
-- the parameters between them.
abbrev pub IsFilled : List Bytes → Bytes → Outcome Bytes → Type 0
IsFilled params value body =
    (first : Bytes) × (parts : List Bytes) × (value ≡ joined (codes "%s") first parts)
    × All (λ (part : Bytes). cut_text (codes "%s") part ≡ none) (first ∷ parts)
    × (length parts ≤ length params)
    × (body ≡ returned (filled first parts params))

count-append : (c : ℕ) (xs ys : Bytes) → count c (xs ++ ys) ≡ count c xs + count c ys
unfolding count
count-append c [] ys = omega arith
count-append c (x ∷ xs) ys = ground (arith, count-append c xs ys)

count_after_cut :
    (value before after : Bytes)
    → value ≡ before ++ (codes "%s" ++ after)
    → count 37 after < count 37 value
unfolding count
count_after_cut value before after e =
    omega (arith, ap (count 37) e, count-append 37 before (codes "%s" ++ after))

fill-IsFilled :
    (params : List Bytes) (value : Bytes)
    → count 37 value ≤ length params
    → IsFilled params value (fill params value)
unfolding fill
fill-IsFilled [] value enough = elim (Option-cases (cut_text (codes "%s") value)) [
  | inl nothing ↦ (value, [], refl, (nothing, tt), omega arith, rw (nothing, fill) refl)
  | inr ((before, after), found) ↦
      let cut = cut_text-eq_some 37 (codes "s") value (before, after) found in
      absurd (omega (arith, count_after_cut value before after cut.0))
]
fill-IsFilled (param ∷ params) value enough = elim (Option-cases (cut_text (codes "%s") value)) [
  | inl nothing ↦ (value, [], refl, (nothing, tt), omega arith, rw (nothing, fill) refl)
  | inr ((before, after), found) ↦
      let cut = cut_text-eq_some 37 (codes "s") value (before, after) found in
      let (first, parts, whole, free, sizes, result) =
        fill-IsFilled params after (omega (arith, count_after_cut value before after cut.0)) in
      (
        before,
        first ∷ parts,
        cut.0 ∙ ap (λ (t : Bytes). before ++ (codes "%s" ++ t)) whole,
        (cut.1, free),
        omega arith,
        rw (found, fill) (rw result refl),
      )
]

-- Without any `%` the value is one part.
command_body-IsFilled :
    (params : List Bytes) (value update : Bytes)
    → is_empty value ≡ false
    → str_eq value raw ≡ false
    → ltb (length params) (count 37 value) ≡ false
    → IsFilled params value (command_body params value update)
unfolding command_body
command_body-IsFilled params value update filled_in not_raw enough =
    elim (Bool-cases (count 37 value == 0)) [
      | inr some_there ↦
          rw (filled_in, not_raw, some_there, enough)
            (fill-IsFilled params value (ground (arith, enough)))
      | inl none_there ↦ elim (Option-cases (cut_text (codes "%s") value)) [
        | inl nothing ↦
            (value, [], refl, (nothing, tt), omega arith, rw (filled_in, not_raw, none_there) refl)
        | inr ((before, after), found) ↦
            let cut = cut_text-eq_some 37 (codes "s") value (before, after) found in
            let few : count 37 value ≡ 0 = ground (arith, none_there) in
            absurd (omega (arith, few, count_after_cut value before after cut.0))
      ]
    ]

pub transform_command-IsFilled :
    (lib : Calls) (value update sequence : Bytes)
    → is_empty value ≡ false
    → str_eq value raw ≡ false
    → ((length (lib.split update) < count 37 value)
        × (transform_command lib value update sequence
            ≡ iota_exception invalid_parameter (malformed value update) 400))
      ⊎ ((first : Bytes) × (parts : List Bytes) × (value ≡ joined (codes "%s") first parts)
          × All (λ (part : Bytes). cut_text (codes "%s") part ≡ none) (first ∷ parts)
          × (length parts ≤ length (lib.split update))
          × (transform_command lib value update sequence
              ≡ returned (
                if is_empty sequence then lib.uuid else sequence,
                filled first parts (lib.split update),
              )))
unfolding transform_command
transform_command-IsFilled lib value update sequence filled_in not_raw =
    elim (Bool-cases (ltb (length (lib.split update)) (count 37 value))) [
      | inl few ↦
          let there : (count 37 value == 0) ≡ false = ground (arith, few) in
          inl (ground (arith, few), rw (refused few there) refl)
      | inr enough ↦
          let (first, parts, whole, free, sizes, result) =
            command_body-IsFilled (lib.split update) value update filled_in not_raw enough in
          inr (first, parts, whole, free, sizes, rw result refl)
    ]
  where
    refused :
        ltb (length (lib.split update)) (count 37 value) ≡ true
        → (count 37 value == 0) ≡ false
        → command_body (lib.split update) value update
          ≡ iota_exception invalid_parameter (malformed value update) 400
    refused few there = unfold command_body in rw (filled_in, not_raw, there, few) refl
