-- ===== src/IotUrl/Refusal.antt =====
-- src/util/iot_url.cc: the texts that are refused.
use fiware_io_tagent_cpluspl.Common.{
  ℕ, Bytes, codes, false, Option, none, some, Option-cases, inl, inr, [], ◌∷◌, ◌++◌, ◌≡◌, ◌≢◌, ◌⊎◌,
  refl, sym, ap, ◌∙◌, is_empty, arith,
}
use fiware_io_tagent_cpluspl.Common.Int.{ℤ}
use fiware_io_tagent_cpluspl.Common.Outcome.{Outcome, returned, iota_exception}
use fiware_io_tagent_cpluspl.IotUrl.{
  IotUrl, cut, after_delimiter, shift, protocol_cut, cut_delimiter, places, default_path, url_of,
  parse, new_iot_url,
}

-- `://` stands somewhere in the text.
abbrev pub HasDelimiter : Bytes → Type 0
HasDelimiter url = (before : Bytes) × (after : Bytes) × (url ≡ before ++ (codes "://" ++ after))

after_delimiter-some :
    (text rest : Bytes) → after_delimiter text ≡ some rest → text ≡ codes "://" ++ rest
unfolding after_delimiter
after_delimiter-some [] rest h = absurd (ground (arith, h))
after_delimiter-some (a ∷ []) rest h = absurd (ground (arith, h))
after_delimiter-some (a ∷ b ∷ []) rest h = absurd (ground (arith, h))
after_delimiter-some (a ∷ b ∷ c ∷ text) rest h = ground (arith, h)

cut_here :
    (d : ℕ) (text protocol rest : Bytes) (o : Option Bytes) (later : Option (Bytes × Bytes))
    → after_delimiter (d ∷ text) ≡ o
    → ((p : Bytes × Bytes) → later ≡ some p → text ≡ p.0 ++ (codes "://" ++ p.1))
    → protocol_cut o d later ≡ some (protocol, rest)
    → d ∷ text ≡ protocol ++ (codes "://" ++ rest)
unfolding protocol_cut shift
cut_here d text protocol rest (some r) later e ih g =
    let parts : ◌≡◌ {A = Bytes × Bytes} ([], r) (protocol, rest) = ground (arith, g) in
    after_delimiter-some (d ∷ text) r e
    ∙ ap (λ (p : Bytes × Bytes). p.0 ++ (codes "://" ++ p.1)) parts
cut_here d text protocol rest none none e ih g = absurd (ground (arith, g))
cut_here d text protocol rest none (some (before, after)) e ih g =
    let parts : ◌≡◌ {A = Bytes × Bytes} (d ∷ before, after) (protocol, rest) = ground (arith, g) in
    ap (◌∷◌ d) (ih (before, after) refl)
    ∙ ap (λ (p : Bytes × Bytes). p.0 ++ (codes "://" ++ p.1)) parts

cut_delimiter-some :
    (url : Bytes) (p : Bytes × Bytes)
    → cut_delimiter url ≡ some p
    → url ≡ p.0 ++ (codes "://" ++ p.1)
unfolding cut_delimiter
cut_delimiter-some [] p h = absurd (ground (arith, h))
cut_delimiter-some (d ∷ text) p h =
    cut_here d text p.0 p.1 (after_delimiter (d ∷ text)) (cut_delimiter text) refl
      (cut_delimiter-some text) h

protocol_cut-some :
    (o : Option Bytes) (d : ℕ) (p : Bytes × Bytes) → protocol_cut o d (some p) ≢ none
unfolding protocol_cut shift
protocol_cut-some (some rest) d p h = absurd (ground (arith, h))
protocol_cut-some none d p h = absurd (ground (arith, h))

cut_delimiter-of_HasDelimiter :
    (before after : Bytes) → cut_delimiter (before ++ (codes "://" ++ after)) ≢ none
unfolding cut_delimiter after_delimiter protocol_cut
cut_delimiter-of_HasDelimiter [] after = λ h. absurd (ground (arith, h))
cut_delimiter-of_HasDelimiter (d ∷ before) after =
    elim (Option-cases (cut_delimiter (before ++ (codes "://" ++ after)))) [
      | inl e ↦ λ h. cut_delimiter-of_HasDelimiter before after e
      | inr (p, e) ↦
          rw e (protocol_cut-some (after_delimiter (d ∷ (before ++ (codes "://" ++ after)))) d p)
    ]

default_path_nonempty : (path : Bytes) → is_empty (default_path path) ≡ false
unfolding default_path
default_path_nonempty [] = refl
default_path_nonempty (c ∷ path) = refl

-- What a call of the constructor comes to.
abbrev pub IsAnswer : Bytes → Outcome IotUrl → Type 0
IsAnswer url answer =
    (HasDelimiter url × ((u : IotUrl) × (answer ≡ returned u) × (is_empty u.path ≡ false)))
    ⊎ ((¬ HasDelimiter url)
        × ((reason : Bytes) × (details : Bytes) × (answer ≡ iota_exception reason details 400)))

parse-IsAnswer :
    (atoi : Bytes → ℤ) (url : Bytes) (o : Option (Bytes × Bytes))
    → cut_delimiter url ≡ o
    → IsAnswer url (parse atoi url o)
unfolding parse url_of
parse-IsAnswer atoi url none e =
    inr (λ h. cut_delimiter-of_HasDelimiter h.0 h.1 (ap cut_delimiter (sym h.2) ∙ e), (_, _, refl))
parse-IsAnswer atoi url (some (protocol, rest)) e =
    let p = places rest (cut 47 rest) (cut 63 rest) in
    inl (
      (protocol, rest, cut_delimiter-some url (protocol, rest) e),
      (url_of atoi protocol p, refl, default_path_nonempty p.path),
    )

empty-HasDelimiter : (before after : Bytes) → [] ≢ before ++ (codes "://" ++ after)
empty-HasDelimiter [] after h = absurd (ground (arith, h))
empty-HasDelimiter (c ∷ before) after h = absurd (ground (arith, h))

-- The constructor returns when the text has `://` somewhere, and the URL has a path that is not empty; for
-- every other text it throws an exception with the code 400.
pub new_iot_url-IsAnswer : (atoi : Bytes → ℤ) (url : Bytes) → IsAnswer url (new_iot_url atoi url)
unfolding new_iot_url
new_iot_url-IsAnswer atoi [] = inr (λ h. empty-HasDelimiter h.0 h.1 h.2, (_, _, refl))
new_iot_url-IsAnswer atoi (c ∷ url) = parse-IsAnswer atoi (c ∷ url) (cut_delimiter (c ∷ url)) refl
