-- ===== src/Esp/StringUtils/Affixes.antt =====
-- src/esp/source/ESP_StringUtils.cpp: the beginnings and the ends of texts.
use fiware_io_tagent_cpluspl.Common.Find.{
  after_prefix, rfind, after_prefix-eq_some, after_prefix-append,
}
use fiware_io_tagent_cpluspl.Common.{
  ℕ, zero, suc, ◌+◌, ◌-◌, ◌≤◌, ◌<◌, Bytes, true, none, some, List, [], ◌∷◌, ◌++◌, ◌≡◌, ◌↔◌, inl,
  inr, refl, sym, ap, ◌∙◌, length, take, drop, append_nil, length-append, take-append_left,
  if◌then◌else◌, str_eq_iff, str_eq_self, Bool-cases, Option-cases, arith,
}
use fiware_io_tagent_cpluspl.Esp.StringUtils.{starts_with, ends_with, add_ending_string}

drop-append : {A : Type 0} (xs ys : List A) → drop (length xs) (xs ++ ys) ≡ ys
drop-append [] ys = refl
drop-append (x ∷ xs) ys = drop-append xs ys

take-drop : {A : Type 0} (n : ℕ) (xs : List A) → take n xs ++ drop n xs ≡ xs
take-drop zero xs = refl
take-drop (suc n) [] = refl
take-drop (suc n) (x ∷ xs) = ap (◌∷◌ x) (take-drop n xs)

-- A text starts with another exactly when it is the other with something after it.
pub starts_with_iff :
    (full starting : Bytes)
    → (starts_with full starting ≡ true) ↔ ((rest : Bytes) × (full ≡ starting ++ rest))
unfolding starts_with
starts_with_iff full starting = (onto, back)
  where
    onto : starts_with full starting ≡ true → (rest : Bytes) × (full ≡ starting ++ rest)
    onto h =
        let same : take (length starting) full ≡ starting =
          ground (arith, str_eq_iff (take (length starting) full) starting) in
        (
          drop (length starting) full,
          sym (take-drop (length starting) full)
              ∙ ap (λ (t : Bytes). t ++ drop (length starting) full) same,
        )

    back : ((rest : Bytes) × (full ≡ starting ++ rest)) → starts_with full starting ≡ true
    back (rest, e) =
        let same : take (length starting) (starting ++ rest) ≡ starting =
          take-append_left (length starting) starting rest refl in
        rw e (ground (arith, same, length-append starting rest, str_eq_self starting))

-- A text ends with another exactly when it is the other with something before it.
pub ends_with_iff :
    (full ending : Bytes)
    → (ends_with full ending ≡ true) ↔ ((front : Bytes) × (full ≡ front ++ ending))
unfolding ends_with
ends_with_iff full ending = (onto, back)
  where
    onto : ends_with full ending ≡ true → (front : Bytes) × (full ≡ front ++ ending)
    onto h =
        let n : ℕ = length full - length ending in
        let same : drop n full ≡ ending = ground (arith, str_eq_iff (drop n full) ending) in
        (take n full, sym (take-drop n full) ∙ ap (◌++◌ (take n full)) same)

    back : ((front : Bytes) × (full ≡ front ++ ending)) → ends_with full ending ≡ true
    back (front, e) =
        let shorter : length (front ++ ending) - length ending ≡ length front =
          omega (arith, length-append front ending) in
        let same : drop (length front) (front ++ ending) ≡ ending = drop-append front ending in
        rw e (rw shorter (rw same (ground (arith, length-append front ending, str_eq_self ending))))

-- No pattern is found in a shorter text.
after_prefix-of_shorter :
    (prefix text : Bytes) → length text < length prefix → after_prefix prefix text ≡ none
unfolding after_prefix
after_prefix-of_shorter [] text h = elim h [ ]
after_prefix-of_shorter (c ∷ prefix) [] h = refl
after_prefix-of_shorter (c ∷ prefix) (d ∷ text) h =
    ground (arith, after_prefix-of_shorter prefix text)

rfind-of_shorter : (pattern text : Bytes) → length text < length pattern → rfind pattern text ≡ none
unfolding rfind
rfind-of_shorter pattern [] h = rw (after_prefix-of_shorter pattern [] h, rfind) refl
rfind-of_shorter pattern (c ∷ text) h =
    rw (rfind-of_shorter pattern text (omega arith))
      (rw (after_prefix-of_shorter pattern (c ∷ text) h) refl)

-- What stands at the end is found there.
rfind-append : (front pattern : Bytes) → rfind pattern (front ++ pattern) ≡ some (length front)
unfolding rfind after_prefix
rfind-append [] [] = refl
rfind-append [] (c ∷ pattern) = rw (rfind-of_shorter (c ∷ pattern) pattern (omega arith)) (
    rw
      (ap (after_prefix (c ∷ pattern)) (sym (append_nil (c ∷ pattern)))
        ∙ after_prefix-append (c ∷ pattern) [])
      refl)
rfind-append (c ∷ front) pattern = rw (rfind-append front pattern) refl

-- Where the pattern is found, it stands.
rfind-eq_some :
    (pattern text : Bytes) (place : ℕ)
    → rfind pattern text ≡ some place
    → (front : Bytes) × (rest : Bytes) × (text ≡ front ++ (pattern ++ rest))
      × (length front ≡ place)
unfolding rfind
rfind-eq_some pattern [] place e = elim (Option-cases (after_prefix pattern [])) [
  | inl none_there ↦ absurd (ground (arith, none_there))
  | inr (rest, found) ↦
      ([], rest, after_prefix-eq_some pattern [] rest found, ground (arith, found))
]
rfind-eq_some pattern (c ∷ text) place e = elim (Option-cases (rfind pattern text)) [
  | inr (k, later) ↦
      let (front, rest, whole, size) = rfind-eq_some pattern text k later in
      (c ∷ front, rest, ap (◌∷◌ c) whole, ground (arith, later, size))
  | inl nothing ↦ elim (Option-cases (after_prefix pattern (c ∷ text))) [
    | inl none_there ↦ absurd (ground (arith, nothing, none_there))
    | inr (rest, found) ↦ (
      [],
      rest,
      after_prefix-eq_some pattern (c ∷ text) rest found,
      ground (arith, nothing, found),
    )
  ]
]

ends_with-of_place :
    (original ending : Bytes) (place : ℕ)
    → rfind ending original ≡ some place
    → length original ≤ place + length ending
    → ends_with original ending ≡ true
ends_with-of_place original ending place e h =
    let (front, rest, whole, size) = rfind-eq_some ending original place e in
    let sizes : length original ≡ length front + (length ending + length rest) =
      ap length whole
      ∙ length-append front (ending ++ rest)
      ∙ ap (◌+◌ (length front)) (length-append ending rest) in
    nothing_after front rest whole (omega arith)
  where
    nothing_after :
        (front rest : Bytes)
        → original ≡ front ++ (ending ++ rest)
        → length rest ≡ 0
        → ends_with original ending ≡ true
    nothing_after front [] whole z =
        (ends_with_iff original ending).1 (front, whole ∙ ap (◌++◌ front) (append_nil ending))
    nothing_after front (c ∷ rest) whole z = absurd (omega arith)

-- The ending is added exactly to a text that does not end with it, also when it is found earlier.
pub add_ending_string_lem :
    (original ending : Bytes)
    → add_ending_string original ending
      ≡ (if ends_with original ending then original else original ++ ending)
unfolding add_ending_string
add_ending_string_lem original ending = elim (Bool-cases (ends_with original ending)) [
  | inl ends ↦
      let (front, whole) = (ends_with_iff original ending).0 ends in
      let place : rfind ending original ≡ some (length front) =
        ap (rfind ending) whole ∙ rfind-append front ending in
      let sizes : length original ≡ length front + length ending =
        ap length whole ∙ length-append front ending in
      rw (place, add_ending_string) (ground (arith, sizes, ends))
  | inr not_there ↦ elim (Option-cases (rfind ending original)) [
    | inl nothing ↦ rw (nothing, add_ending_string, not_there) refl
    | inr (place, found) ↦
        rw (found, add_ending_string, not_there)
          (ground (arith, ends_with-of_place original ending place found))
  ]
]
