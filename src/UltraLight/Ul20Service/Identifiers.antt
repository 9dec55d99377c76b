-- ===== src/UltraLight/Ul20Service/Identifiers.antt =====
-- src/ultra_light/ul20_service.cc: the identifier that a command and its response share.
use mathlib.Core.Path.{subst}
use mathlib.Core.List.{append_assoc}
use fiware_io_tagent_cpluspl.Common.{
  ℕ, Bytes, Avoids, codes, str_eq, true, false, Option, none, some, [], ◌∷◌, ◌++◌, ◌≡◌, ◌≢◌, ◌↔◌,
  ◌||◌, str_eq_iff, refl, ap, sym, ◌∙◌, inl, inr, any, is_empty, if◌then◌else◌, ◌==◌, All-append,
  append_nil, Bool-cases, Option-cases, arith,
}
use fiware_io_tagent_cpluspl.Common.Outcome.{returned, ◌>>=◌, >>=-eq-returned}
use fiware_io_tagent_cpluspl.CommandHandle.{json_value_to_ul}
use fiware_io_tagent_cpluspl.Device.{Device}
use fiware_io_tagent_cpluspl.IotUrl.{cut}
use fiware_io_tagent_cpluspl.IotUrl.Parts.{cut-absent, cut-first}
use fiware_io_tagent_cpluspl.UltraLight.Ul20Service.{
  UlCalls, before_bar, get_id_command, is_command_resp, after_name, ul_body, checked_command,
  ul_transform_command,
}

-- Up to its first one, a text avoids a character.
cut-Avoids :
    (c : ℕ) (text before after : Bytes) → cut c text ≡ some (before, after) → Avoids c before
unfolding cut
cut-Avoids c [] before after e = cc
cut-Avoids c (d ∷ text) [] after e = tt
cut-Avoids c (d ∷ text) (b ∷ before) after e = elim (Option-cases (cut c text)) [
  | inl nothing ↦ absurd (ground (arith, nothing))
  | inr ((first, rest), found) ↦
      (ground (arith, found), cut-Avoids c text before after (ground (arith, found)))
]

cut-eq_none : (c : ℕ) (text : Bytes) → cut c text ≡ none → Avoids c text
unfolding cut
cut-eq_none c [] e = tt
cut-eq_none c (d ∷ text) e = elim (Option-cases (cut c text)) [
  | inl nothing ↦ (ground (arith, nothing), cut-eq_none c text nothing)
  | inr ((first, rest), found) ↦ absurd (ground (arith, found))
]

before_bar-Avoids : (text : Bytes) → Avoids 124 (before_bar text)
unfolding before_bar
before_bar-Avoids text = elim (Option-cases (cut 124 text)) [
  | inl nothing ↦ rw (nothing, before_bar) (cut-eq_none 124 text nothing)
  | inr ((before, after), found) ↦ rw (found, before_bar) (cut-Avoids 124 text before after found)
]

before_bar-append : (id rest : Bytes) → Avoids 124 id → before_bar (id ++ (124 ∷ rest)) ≡ id
unfolding before_bar
before_bar-append id rest free = rw (cut-first 124 id rest free, before_bar) refl

-- The texts that have an identifier are the ones with an `@` before the first `|`.
is_command_resp-of_at :
    (text : Bytes)
    → any (◌==◌ 64) (before_bar text) ≡ true
    → is_command_resp text ≡ some (text, before_bar text)
unfolding is_command_resp get_id_command
is_command_resp-of_at text at = rw at (filled (before_bar text) at)
  where
    filled :
        (id : Bytes)
        → any (◌==◌ 64) id ≡ true
        → (let o : Option (Bytes × Bytes) = some (text, id) in if is_empty id then none else o)
          ≡ some (text, id)
    filled [] e = cc
    filled (c ∷ id) e = refl

-- What an identifier of a checked command is, and the command that goes to the device.
abbrev pub IsIdentifier : Bytes → Type 0
IsIdentifier id = (any (◌==◌ 64) id ≡ true) × Avoids 124 id

abbrev IsSent : Bytes × Bytes → Type 0
IsSent (id, body) = IsIdentifier id × (is_command_resp body ≡ some (body, id))

checked_command-IsSent :
    (body : Bytes) (line : Bytes × Bytes) → checked_command body ≡ returned line → IsSent line
unfolding checked_command
checked_command-IsSent body line e = elim (Bool-cases (any (◌==◌ 64) (before_bar body))) [
  | inl at ↦
      let resp = is_command_resp-of_at body at in
      let same : (before_bar body, body) ≡ line = ground (arith, resp) in
      subst IsSent same ((at, before_bar-Avoids body), resp)
  | inr missing ↦ absurd (ground (arith, no_response missing))
]
  where
    no_response : any (◌==◌ 64) (before_bar body) ≡ false → is_command_resp body ≡ none
    no_response missing = unfold is_command_resp get_id_command in rw missing refl

response-of_identifier :
    (id result : Bytes)
    → IsIdentifier id
    → is_command_resp (id ++ (124 ∷ result)) ≡ some (id ++ (124 ∷ result), id)
response-of_identifier id result h =
    let same : before_bar (id ++ (124 ∷ result)) ≡ id = before_bar-append id result h.1 in
    is_command_resp-of_at (id ++ (124 ∷ result)) (ap (any (◌==◌ 64)) same ∙ h.0)
    ∙ ap (λ (i : Bytes). some (id ++ (124 ∷ result), i)) same

-- Whenever a command is made, whatever the device, its value for the command and the parameters: its
-- identifier has an `@` and no `|`, the body has that identifier, and so has every response of the
-- device that is the identifier, a `|` and any result.
pub ul_transform_command-IsIdentifier :
    (lib : UlCalls) (name value update sequence : Bytes) (dev : Device) (id body : Bytes)
    → ul_transform_command lib name value update sequence dev ≡ returned (id, body)
    → (any (◌==◌ 64) id ≡ true)
      × Avoids 124 id
      × (is_command_resp body ≡ some (body, id))
      × ((result : Bytes)
          → is_command_resp (id ++ (124 ∷ result)) ≡ some (id ++ (124 ∷ result), id))
unfolding ul_transform_command
ul_transform_command-IsIdentifier lib name value update sequence dev id body e =
    let (u, read, rest) =
      >>=-eq-returned (json_value_to_ul lib.parse (lib.trim update))
        (λ u. ul_body lib name (lib.trim value) u sequence dev >>= checked_command) e in
    let (made, built, last) =
      >>=-eq-returned (ul_body lib name (lib.trim value) u sequence dev) checked_command rest in
    let sent : IsSent (id, body) = checked_command-IsSent made (id, body) last in
    (sent.0.0, sent.0.1, sent.1, λ result. response-of_identifier id result sent.0)

-- The text `a|b` for a command that the device has no value for.
after_name-cases :
    (lib : UlCalls) (name update : Bytes)
    → ((a b : Bytes) → lib.starts_with a b ≡ true → (rest : Bytes) × (a ≡ b ++ rest))
    → IsIdentifier name
    → is_command_resp (name ++ after_name lib update) ≡ some (name ++ after_name lib update, name)
unfolding after_name
after_name-cases lib name [] sound h =
    let same : before_bar (name ++ []) ≡ name = ap before_bar (append_nil name) ∙ alone name h.1 in
    is_command_resp-of_at (name ++ []) (ap (any (◌==◌ 64)) same ∙ h.0)
    ∙ ap (λ (i : Bytes). some (name ++ [], i)) same
  where
    alone : (text : Bytes) → Avoids 124 text → before_bar text ≡ text
    alone text free = unfold before_bar in rw (cut-absent 124 text free, before_bar) refl
after_name-cases lib name (c ∷ update) sound h =
    elim (Bool-cases (lib.starts_with (codes "|") (c ∷ update))) [
      | inr other ↦ rw other (response-of_identifier name (c ∷ update) h)
      | inl bar ↦
          let (rest, e) = sound (codes "|") (c ∷ update) bar in
          let first : 124 ≡ c = ground (arith, e) in
          rw bar (
            subst
              (λ (k : ℕ).
                is_command_resp (name ++ (k ∷ update)) ≡ some (name ++ (k ∷ update), name))
              first (response-of_identifier name update h))
    ]

at-append : (xs ys : Bytes) → any (◌==◌ 64) (xs ++ (64 ∷ ys)) ≡ true
at-append [] ys = refl
at-append (x ∷ xs) ys = ground (arith, at-append xs ys)

unset_body :
    (lib : UlCalls)
    → ((a b : Bytes) → lib.starts_with a b ≡ true → (rest : Bytes) × (a ≡ b ++ rest))
    → (name value update sequence : Bytes) (dev : Device) (u : Bytes) → lib.trim value ≡ []
    → json_value_to_ul lib.parse (lib.trim update) ≡ returned u
    → Avoids 124 dev.name
    → Avoids 124 name
    → ul_transform_command lib name value update sequence dev
      ≡ returned (dev.name ++ (64 ∷ name), dev.name ++ (64 ∷ (name ++ after_name lib u)))
unfolding ul_transform_command ul_body checked_command str_eq
unset_body lib sound name value update sequence dev u blank read free_dev free =
    let id : Bytes = dev.name ++ (64 ∷ name) in
    let is_id : IsIdentifier id = (
      at-append dev.name name,
      All-append (λ (d : ℕ). d ≢ 124) dev.name (64 ∷ name) free_dev (omega arith, free),
    ) in
    let body : id ++ after_name lib u ≡ dev.name ++ (64 ∷ (name ++ after_name lib u)) =
      append_assoc dev.name (64 ∷ name) (after_name lib u) in
    rw (read, blank)
      (rw (← body) (rw (after_name-cases lib id u sound is_id, checked_command) refl))

-- What is put behind the identifier: a bar and the parameters, but nothing for no parameters, and one
-- bar for the parameters that are one bar.
abbrev pub behind_identifier : Bytes → Bytes
behind_identifier update =
    if is_empty update || str_eq update (codes "|") then update else 124 ∷ update

after_name-behind_identifier :
    (lib : UlCalls) (update : Bytes)
    → ((a b : Bytes) → (lib.starts_with a b ≡ true) ↔ ((rest : Bytes) × (a ≡ b ++ rest)))
    → after_name lib update ≡ behind_identifier update
unfolding after_name
after_name-behind_identifier lib [] law = refl
after_name-behind_identifier lib (c ∷ update) law =
    elim (Bool-cases (lib.starts_with (codes "|") (c ∷ update))) [
      | inl bar ↦
          let (rest, e) = (law (codes "|") (c ∷ update)).0 bar in rw (bar, is_bar rest e) refl
      | inr other ↦ rw (other, is_other other) refl
    ]
  where
    alone : (rest : Bytes) → codes "|" ≡ (c ∷ update) ++ rest → (c ∷ update) ≡ codes "|"
    alone rest e = ground (arith, e)

    same_bar : str_eq (c ∷ update) (codes "|") ≡ true → codes "|" ≡ (c ∷ update) ++ []
    same_bar eq = sym ((str_eq_iff (c ∷ update) (codes "|")).0 eq) ∙ sym (append_nil (c ∷ update))

    is_bar :
        (rest : Bytes) → codes "|" ≡ (c ∷ update) ++ rest → str_eq (c ∷ update) (codes "|") ≡ true
    is_bar rest e = (str_eq_iff (c ∷ update) (codes "|")).1 (alone rest e)

    is_other :
        lib.starts_with (codes "|") (c ∷ update) ≡ false → str_eq (c ∷ update) (codes "|") ≡ false
    is_other other = elim (Bool-cases (str_eq (c ∷ update) (codes "|"))) [
      | inr ne ↦ ne
      | inl eq ↦ absurd (ground (arith, (law (codes "|") (c ∷ update)).1 ([], same_bar eq), other))
    ]

-- For a command that the device has no value for, and names without `|`, given what Boost documents
-- of starts_with: the identifier is `device@command`, and the body is that with a `|` and the parameters
-- behind it, also when these begin with a `|`; only when there are none, or they are one `|`, nothing is
-- put before them.
pub ul_transform_command-of_unset :
    (lib : UlCalls)
    → ((a b : Bytes) → (lib.starts_with a b ≡ true) ↔ ((rest : Bytes) × (a ≡ b ++ rest)))
    → (name value update sequence : Bytes) (dev : Device) (u : Bytes) → lib.trim value ≡ []
    → json_value_to_ul lib.parse (lib.trim update) ≡ returned u
    → Avoids 124 dev.name
    → Avoids 124 name
    → ul_transform_command lib name value update sequence dev
      ≡ returned (dev.name ++ (64 ∷ name), dev.name ++ (64 ∷ (name ++ behind_identifier u)))
ul_transform_command-of_unset lib law name value update sequence dev u blank read free_dev free =
    unset_body lib (λ a b e. (law a b).0 e) name value update sequence dev u blank read free_dev
      free
    ∙ ap (λ (t : Bytes). returned (dev.name ++ (64 ∷ name), dev.name ++ (64 ∷ (name ++ t))))
        (after_name-behind_identifier lib u law)
