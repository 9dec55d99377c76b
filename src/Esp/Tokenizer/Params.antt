-- ===== src/Esp/Tokenizer/Params.antt =====
-- src/esp/source/ESP_StringUtils.cpp: the parameters that parseParamsString reads back.
use fiware_io_tagent_cpluspl.Common.Find.{joined}
use fiware_io_tagent_cpluspl.Common.{
  ℕ, Bytes, Avoids, bytes_key, codes, Bool, true, false, List, [], ◌∷◌, ◌++◌, map, ◌≡◌, ◌≢◌, refl,
  sym, ap, ◌∙◌, is_empty, append_nil, append_snoc, if◌then◌else◌, ◌==◌, ==_self, All, All-append,
  arith,
}
use fiware_io_tagent_cpluspl.Common.Map.{Assoc, insert, IsOrdered}
use fiware_io_tagent_cpluspl.Device.{copy_entries}
use fiware_io_tagent_cpluspl.Device.Copy.{copy_entries_lem}
use fiware_io_tagent_cpluspl.Esp.StringUtils.{str_to_lower}
use fiware_io_tagent_cpluspl.Esp.Tokenizer.{
  tokens_of, read_tokens, new_string_tokenizer, add_param, add_params, parse_params_string,
}
use fiware_io_tagent_cpluspl.Esp.Tokenizer.Parts.{split, read_tokens-split}

split-run :
    (sep : ℕ) (cs rest token : Bytes)
    → Avoids sep cs
    → split sep (cs ++ rest) token ≡ split sep rest (token ++ cs)
split-run sep [] rest token free = ap (split sep rest) (sym (append_nil token))
split-run sep (c ∷ cs) rest token free =
    let other : (c == sep) ≡ false = ground (arith, free.0) in
    rw other (
      split-run sep cs rest (token ++ (c ∷ [])) free.1
      ∙ ap (split sep rest) (append_snoc token c cs))

-- The last part has a character.
abbrev pub LastFilled : Bytes → List Bytes → Type 0
LastFilled first [] = is_empty first ≡ false
LastFilled first (part ∷ parts) = LastFilled part parts

split-joined :
    (sep : ℕ) (first : Bytes) (parts : List Bytes)
    → All (Avoids sep) (first ∷ parts)
    → LastFilled first parts
    → split sep (joined (sep ∷ []) first parts) [] ≡ first ∷ parts
split-joined sep first [] free filled =
    ap (λ (t : Bytes). split sep t []) (sym (append_nil first))
    ∙ split-run sep first [] [] free.0
    ∙ rw filled refl
split-joined sep first (part ∷ parts) free filled =
    split-run sep first (sep ∷ joined (sep ∷ []) part parts) [] free.0
    ∙ rw (==_self sep) (ap (◌∷◌ first) (split-joined sep part parts free.1 filled))

-- The tokens of a text of parts are the parts.
pub elements-joined :
    (sep : ℕ) (first : Bytes) (parts : List Bytes)
    → All (Avoids sep) (first ∷ parts)
    → LastFilled first parts
    → (new_string_tokenizer (joined (sep ∷ []) first parts) (sep ∷ []) 0).elements ≡ first ∷ parts
unfolding new_string_tokenizer tokens_of
elements-joined sep first parts free filled =
    read_tokens-split sep (joined (sep ∷ []) first parts) [] []
    ∙ split-joined sep first parts free filled

-- name=value
abbrev pub param_text : Bytes × Bytes → Bytes
param_text (name, value) = name ++ (61 ∷ value)

-- name=value,name=value
abbrev pub params_text : Assoc Bytes Bytes → Bytes
params_text [] = []
params_text (param ∷ params) = joined (44 ∷ []) (param_text param) (map param_text params)

-- Neither part has a separator, and the value has a character.
abbrev pub IsParam : Bytes × Bytes → Type 0
IsParam (name, value) =
    Avoids 44 name × Avoids 61 name × Avoids 44 value × Avoids 61 value × (is_empty value ≡ false)

add_param-param_text :
    (lower : Bool) (name value : Bytes) (pt : Assoc Bytes Bytes)
    → IsParam (name, value)
    → add_param lower (new_string_tokenizer (param_text (name, value)) (codes "=") 0).elements pt
      ≡ insert name value pt
unfolding add_param str_to_lower
add_param-param_text lower name value pt h =
    ap (λ (elements : List Bytes). add_param lower elements pt)
      (elements-joined 61 name (value ∷ []) (h.1, (h.3, tt)) h.4)
    ∙ either_way lower
  where
    either_way :
        (lower : Bool) → insert name (if lower then value else value) pt ≡ insert name value pt
    either_way true = refl
    either_way false = refl

add_params-map :
    (lower : Bool) (params pt : Assoc Bytes Bytes)
    → All IsParam params
    → add_params lower (map param_text params) pt ≡ copy_entries params pt
unfolding add_params copy_entries
add_params-map lower [] pt h = refl
add_params-map lower ((name, value) ∷ params) pt h =
    ap (add_params lower (map param_text params)) (add_param-param_text lower name value pt h.0)
    ∙ add_params-map lower params (insert name value pt) h.1

param_text-Avoids : (param : Bytes × Bytes) → IsParam param → Avoids 44 (param_text param)
param_text-Avoids (name, value) h =
    All-append (λ (c : ℕ). c ≢ 44) name (61 ∷ value) h.0 (omega arith, h.2)

texts-Avoids :
    (params : Assoc Bytes Bytes) → All IsParam params → All (Avoids 44) (map param_text params)
texts-Avoids [] h = tt
texts-Avoids (param ∷ params) h = (param_text-Avoids param h.0, texts-Avoids params h.1)

texts-LastFilled :
    (param : Bytes × Bytes) (params : Assoc Bytes Bytes)
    → LastFilled (param_text param) (map param_text params)
texts-LastFilled ([], value) [] = refl
texts-LastFilled (c ∷ name, value) [] = refl
texts-LastFilled param (next ∷ params) = texts-LastFilled next params

params-of_nil :
    (lower : Bool) → add_params lower (new_string_tokenizer [] (codes ",") 0).elements [] ≡ []
unfolding add_params new_string_tokenizer tokens_of read_tokens
params-of_nil lower = refl

-- A map whose names and values have no `,` and no `=`, and whose values are not empty, is read back
-- from its text. So it is when values are asked for in lower case: against its documentation,
-- strToLower changes no letter.
pub parse_params_string-params_text :
    (lower : Bool) (params : Assoc Bytes Bytes)
    → All IsParam params
    → IsOrdered params
    → parse_params_string (params_text params) lower ≡ params
unfolding parse_params_string
parse_params_string-params_text lower [] h ordered = params-of_nil lower
parse_params_string-params_text lower (param ∷ params) h ordered =
    ap (λ (elements : List Bytes). add_params lower elements [])
      (elements-joined 44 (param_text param) (map param_text params)
        (param_text-Avoids param h.0, texts-Avoids params h.1) (texts-LastFilled param params))
    ∙ add_params-map lower (param ∷ params) [] h
    ∙ copy_entries_lem (param ∷ params) ordered
