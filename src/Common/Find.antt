-- ===== src/Common/Find.antt =====
-- `find` and `rfind` of a text in a text, and the parts of a text between the occurrences of another.
use Prim.Native.Nat.{ℕ, suc}
use mathlib.Core.Path.{◌≡◌, refl, ap, ◌∙◌, subst}
use mathlib.Core.Logic.{inl, inr}
use mathlib.Core.List.{List, [], ◌∷◌, ◌++◌, append_assoc}
use mathlib.Core.Option.{Option, none, some}
use native.Mathlib.Omega.{arith}
use fiware_io_tagent_cpluspl.Common.Bools.{if◌then◌else◌, ◌==◌, Option-cases}
use fiware_io_tagent_cpluspl.Common.Strings.{Bytes}

-- The rest of a text after a prefix.
unfoldable pub after_prefix : Bytes → Bytes → Option Bytes
after_prefix [] text = some text
after_prefix (c ∷ prefix) [] = none
after_prefix (c ∷ prefix) (d ∷ text) = if c == d then after_prefix prefix text else none

-- The parts of a text before and after the first occurrence of a pattern, as `find` gives its place.
unfoldable pub cut_text : Bytes → Bytes → Option (Bytes × Bytes)
cut_text pattern [] = elim (after_prefix pattern []) [ none ↦ none | some rest ↦ some ([], rest) ]
cut_text pattern (c ∷ text) = elim (after_prefix pattern (c ∷ text)) [
  | some rest ↦ some ([], rest)
  | none ↦ elim (cut_text pattern text) [
    | none ↦ none
    | some (before, after) ↦ some (c ∷ before, after)
  ]
]

-- The place of the last occurrence, as `rfind` gives it.
unfoldable pub rfind : Bytes → Bytes → Option ℕ
rfind pattern [] = elim (after_prefix pattern []) [ none ↦ none | some rest ↦ some 0 ]
rfind pattern (c ∷ text) = elim (rfind pattern text) [
  | some place ↦ some (suc place)
  | none ↦ elim (after_prefix pattern (c ∷ text)) [ none ↦ none | some rest ↦ some 0 ]
]

pub after_prefix-eq_some :
    (prefix text rest : Bytes) → after_prefix prefix text ≡ some rest → text ≡ prefix ++ rest
unfolding after_prefix
after_prefix-eq_some [] text rest e = cc
after_prefix-eq_some (c ∷ prefix) [] rest e = cc
after_prefix-eq_some (c ∷ prefix) (d ∷ text) rest e =
    ground (arith, after_prefix-eq_some prefix text rest)

pub after_prefix-append : (prefix rest : Bytes) → after_prefix prefix (prefix ++ rest) ≡ some rest
unfolding after_prefix
after_prefix-append [] rest = refl
after_prefix-append (c ∷ prefix) rest = ground (arith, after_prefix-append prefix rest)

-- The parts, with a text between each two.
abbrev pub joined : Bytes → Bytes → List Bytes → Bytes
joined sep first [] = first
joined sep first (part ∷ parts) = first ++ (sep ++ joined sep part parts)

after_prefix_longer :
    (pattern text rest more : Bytes)
    → after_prefix pattern text ≡ some rest
    → after_prefix pattern (text ++ more) ≡ some (rest ++ more)
after_prefix_longer pattern text rest more e =
    ap (λ (t : Bytes). after_prefix pattern (t ++ more)) (after_prefix-eq_some pattern text rest e)
    ∙ ap (after_prefix pattern) (append_assoc pattern rest more)
    ∙ after_prefix-append pattern (rest ++ more)

-- The text is cut at an occurrence, and there is none before it.
abbrev pub IsFirstCut : Bytes → Bytes → Bytes × Bytes → Type 0
IsFirstCut pattern text (before, after) =
    (text ≡ before ++ (pattern ++ after)) × (cut_text pattern before ≡ none)

cut_text_skip :
    (c d : ℕ) (pattern text before after : Bytes)
    → after_prefix (c ∷ pattern) (d ∷ text) ≡ none
    → IsFirstCut (c ∷ pattern) text (before, after)
    → IsFirstCut (c ∷ pattern) (d ∷ text) (d ∷ before, after)
unfolding cut_text
cut_text_skip c d pattern text before after nothing cut = (
  ap (◌∷◌ d) cut.0,
  elim (Option-cases (after_prefix (c ∷ pattern) (d ∷ before))) [
    | inl none_there ↦ rw (none_there, cut_text) (rw cut.1 refl)
    | inr (rest, found) ↦
        let again : after_prefix (c ∷ pattern) (d ∷ text)
            ≡ some (rest ++ ((c ∷ pattern) ++ after)) =
          ap (λ (t : Bytes). after_prefix (c ∷ pattern) (d ∷ t)) cut.0
          ∙ after_prefix_longer (c ∷ pattern) (d ∷ before) rest ((c ∷ pattern) ++ after) found in
        absurd (ground (arith, again, nothing))
  ],
)

pub cut_text-eq_some :
    (c : ℕ) (pattern text : Bytes) (parts : Bytes × Bytes)
    → cut_text (c ∷ pattern) text ≡ some parts
    → IsFirstCut (c ∷ pattern) text parts
unfolding cut_text after_prefix
cut_text-eq_some c pattern [] parts e = cc
cut_text-eq_some c pattern (d ∷ text) parts e =
    elim (Option-cases (after_prefix (c ∷ pattern) (d ∷ text))) [
      | inr (rest, found) ↦
          let same : ([], rest) ≡ parts = ground (arith, found) in
          subst (IsFirstCut (c ∷ pattern) (d ∷ text)) same
            (after_prefix-eq_some (c ∷ pattern) (d ∷ text) rest found, refl)
      | inl nothing ↦ elim (Option-cases (cut_text (c ∷ pattern) text)) [
        | inl no_more ↦ absurd (ground (arith, nothing, no_more))
        | inr ((before, after), more) ↦
            let same : (d ∷ before, after) ≡ parts = ground (arith, nothing, more) in
            subst (IsFirstCut (c ∷ pattern) (d ∷ text)) same (
              cut_text_skip c d pattern text before after nothing
                (cut_text-eq_some c pattern text (before, after) more))
      ]
    ]
