-- ===== src/UltraLight/Content.antt =====
-- src/ultra_light/ULInsertObservation.cc: the content that a measure of the protocol SBC is rewritten to.
use fiware_io_tagent_cpluspl.Common.{
  Avoids, ℕ, ◌<◌, Bytes, false, none, some, List, [], ◌∷◌, ◌++◌, ◌≡◌, refl, is_empty, All, arith,
}
use fiware_io_tagent_cpluspl.UltraLight.{
  Calls, cut_pipe, join_content, content_after, content_of, content_for_sbc_protocol, clean,
}

-- The parts with a separator between them.
abbrev pub join : ℕ → Bytes → List Bytes → Bytes
join c part [] = part
join c part (next ∷ parts) = part ++ (c ∷ join c next parts)

-- Above the blank, and not deleted.
abbrev pub IsGraphic : Bytes → Type 0
IsGraphic text = All (λ (c : ℕ). 32 < c) text

-- What Boost's documentation says of the calls: `trim` takes blanks off the ends, `erase_all` what is
-- equal to its text, and a tokenizer that keeps empty tokens gives the parts between separators.
pub record IsBoost (lib : Calls) : Type 0 where
  pub trim_graphic : (text : Bytes) → IsGraphic text → lib.trim text ≡ text
  pub erase_all_absent : (c : ℕ) (text : Bytes) → Avoids c text → lib.erase_all text (c ∷ []) ≡ text
  pub tokens_of_join :
      (c : ℕ) (part : Bytes) (parts : List Bytes)
      → All (Avoids c) (part ∷ parts)
      → is_empty (join c part parts) ≡ false
      → lib.riot_tokenizer (join c part parts) (c ∷ []) ≡ part ∷ parts

cut_pipe-absent : (text : Bytes) → Avoids 124 text → cut_pipe text ≡ none
unfolding cut_pipe
cut_pipe-absent [] h = refl
cut_pipe-absent (c ∷ text) h = ground (arith, h.0, cut_pipe-absent text h.1)

cut_pipe-first :
    (before after : Bytes)
    → Avoids 124 before
    → cut_pipe (before ++ (124 ∷ after)) ≡ some (before, after)
unfolding cut_pipe
cut_pipe-first [] after h = refl
cut_pipe-first (c ∷ before) after h = ground (arith, h.0, cut_pipe-first before after h.1)

abbrev pub measure_text : Bytes × Bytes → Bytes
measure_text (alias, value) = join 124 alias (value ∷ [])

-- A measure of a name and a value, neither of which has a `|`, is rewritten to the fields of the
-- protocol: none, the name of the device, the sampling time of the request, the name as the observed
-- property, an empty field, and then the measure.
pub content_for_sbc_protocol-of_pair :
    (alias value sampling_time res : Bytes)
    → Avoids 124 alias
    → Avoids 124 value
    → content_for_sbc_protocol (measure_text (alias, value)) sampling_time res
      ≡ join 124 [] (res ∷ sampling_time ∷ alias ∷ [] ∷ alias ∷ value ∷ [])
unfolding content_for_sbc_protocol content_of content_after join_content
content_for_sbc_protocol-of_pair alias value sampling_time res h k =
    rw (cut_pipe-first alias value h, content_of, cut_pipe-absent value k, content_after) refl

-- With a time in front of it, that time takes the place of the one of the request.
pub content_for_sbc_protocol-of_timed :
    (time alias value sampling_time res : Bytes)
    → Avoids 124 time
    → Avoids 124 alias
    → content_for_sbc_protocol (join 124 time (alias ∷ value ∷ [])) sampling_time res
      ≡ join 124 [] (res ∷ time ∷ alias ∷ [] ∷ alias ∷ value ∷ [])
unfolding content_for_sbc_protocol content_of content_after join_content
content_for_sbc_protocol-of_timed time alias value sampling_time res h k =
    rw
      (
        cut_pipe-first time (alias ++ (124 ∷ value)) h,
        content_of,
        cut_pipe-first alias value k,
        content_after,
      )
      refl

IsGraphic-Avoids : (c : ℕ) (text : Bytes) → c < 32 → IsGraphic text → Avoids c text
IsGraphic-Avoids c [] h g = tt
IsGraphic-Avoids c (d ∷ text) h g =
    (λ same. absurd (omega (arith, same, g.0)), IsGraphic-Avoids c text h g.1)

module _ (lib : Calls) (boost : IsBoost lib) where
  pub clean-of_graphic : (text : Bytes) → IsGraphic text → clean lib text ≡ text
  unfolding clean
  clean-of_graphic text g =
      rw
        (
          clean,
          boost.trim_graphic text g,
          boost.erase_all_absent 10 text (IsGraphic-Avoids 10 text (omega arith) g),
          boost.erase_all_absent 13 text (IsGraphic-Avoids 13 text (omega arith) g),
        )
        refl
