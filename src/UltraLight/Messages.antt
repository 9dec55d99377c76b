-- ===== src/UltraLight/Messages.antt =====
-- src/ultra_light/ULInsertObservation.cc: the text of a message of names and values.
use fiware_io_tagent_cpluspl.Common.{
  Avoids, ℕ, suc, ◌<◌, Bytes, false, List, [], ◌∷◌, ◌≡◌, ◌≢◌, refl, ap, map, length, is_empty, All,
  All-append, arith,
}
use fiware_io_tagent_cpluspl.UltraLight.Content.{join, IsGraphic, measure_text}

-- A field of a measure: not empty, graphic, and without separators.
abbrev pub IsField : Bytes → Type 0
IsField text = (is_empty text ≡ false) × All (λ (c : ℕ). (32 < c) × (c ≢ 35) × (c ≢ 124)) text

abbrev pub IsMeasure : Bytes × Bytes → Type 0
IsMeasure (alias, value) = IsField alias × IsField value

pub IsField-Avoids :
    (text : Bytes) → All (λ (c : ℕ). (32 < c) × (c ≢ 35) × (c ≢ 124)) text → Avoids 124 text
IsField-Avoids [] h = tt
IsField-Avoids (c ∷ text) h = (h.0.2, IsField-Avoids text h.1)

IsField-Avoids_hash :
    (text : Bytes) → All (λ (c : ℕ). (32 < c) × (c ≢ 35) × (c ≢ 124)) text → Avoids 35 text
IsField-Avoids_hash [] h = tt
IsField-Avoids_hash (c ∷ text) h = (h.0.1, IsField-Avoids_hash text h.1)

IsField-IsGraphic :
    (text : Bytes) → All (λ (c : ℕ). (32 < c) × (c ≢ 35) × (c ≢ 124)) text → IsGraphic text
IsField-IsGraphic [] h = tt
IsField-IsGraphic (c ∷ text) h = (h.0.0, IsField-IsGraphic text h.1)

-- A message: the measures, each a name, `|` and a value, with `#` between them.
abbrev pub message_text : Bytes × Bytes → List (Bytes × Bytes) → Bytes
message_text m ms = join 35 (measure_text m) (map measure_text ms)

pub length-measure_texts : (ms : List (Bytes × Bytes)) → length (map measure_text ms) ≡ length ms
length-measure_texts [] = refl
length-measure_texts (m ∷ ms) = ap suc (length-measure_texts ms)

module _ {κ} (P : ℕ → Type κ) where
  All-measure_text : (m : Bytes × Bytes) → P 124 → All P m.0 → All P m.1 → All P (measure_text m)
  All-measure_text m pipe h k = All-append P m.0 (124 ∷ m.1) h (pipe, k)

  All-join :
      (part : Bytes) (parts : List Bytes)
      → P 35
      → All (All P) (part ∷ parts)
      → All P (join 35 part parts)
  All-join part [] hash h = h.0
  All-join part (next ∷ parts) hash h =
      All-append P part (35 ∷ join 35 next parts) h.0 (hash, All-join next parts hash h.1)

pub measure_texts-Avoids :
    (ms : List (Bytes × Bytes)) → All IsMeasure ms → All (Avoids 35) (map measure_text ms)
measure_texts-Avoids [] h = tt
measure_texts-Avoids (m ∷ ms) h = (
  All-measure_text (λ (c : ℕ). c ≢ 35) m (λ same. absurd (omega (arith, same)))
      (IsField-Avoids_hash m.0 h.0.0.1) (IsField-Avoids_hash m.1 h.0.1.1),
  measure_texts-Avoids ms h.1,
)

measure_texts-IsGraphic :
    (ms : List (Bytes × Bytes)) → All IsMeasure ms → All IsGraphic (map measure_text ms)
measure_texts-IsGraphic [] h = tt
measure_texts-IsGraphic (m ∷ ms) h = (
  All-measure_text (λ (c : ℕ). 32 < c) m (omega arith) (IsField-IsGraphic m.0 h.0.0.1)
      (IsField-IsGraphic m.1 h.0.1.1),
  measure_texts-IsGraphic ms h.1,
)

pub message_text-IsGraphic :
    (m : Bytes × Bytes) (ms : List (Bytes × Bytes))
    → All IsMeasure (m ∷ ms)
    → IsGraphic (message_text m ms)
message_text-IsGraphic m ms h =
    All-join (λ (c : ℕ). 32 < c) (measure_text m) (map measure_text ms) (omega arith)
      (measure_texts-IsGraphic (m ∷ ms) h)

pub message_text_nonempty :
    (m : Bytes × Bytes) (ms : List (Bytes × Bytes))
    → All IsMeasure (m ∷ ms)
    → is_empty (message_text m ms) ≡ false
message_text_nonempty ([], value) ms h = absurd (ground (arith, h.0.0.0))
message_text_nonempty (c ∷ alias, value) [] h = refl
message_text_nonempty (c ∷ alias, value) (m ∷ ms) h = refl
