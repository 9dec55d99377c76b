-- ===== src/Modbus/Mapped.antt =====
-- Modbus::get_mapped_values of src/modbus/modbus.cc: the registers of a response under the labels of its
-- operation.
use fiware_io_tagent_cpluspl.Common.{
  ℕ, Bytes, bytes_key, str_eq, str_eq_iff, Bool, true, false, not, ◌&&◌, ◌==◌, Option, none, some,
  List, [], ◌∷◌, ◌≡◌, refl, sym, ap, ◌∙◌, length, is_empty, if◌then◌else◌,
}
use fiware_io_tagent_cpluspl.Common.Int.{ℤ}
use fiware_io_tagent_cpluspl.Common.Map.{Assoc, find, insert, find-insert}
use fiware_io_tagent_cpluspl.Modbus.Frame.{Modbus}

pub record FloatPosition (Factor : Type 0) : Type 0 where
  pub name : Bytes
  pub factor : Factor
  pub precision : ℤ

-- Factors are floating-point numbers. `lexical_cast` is the text of a number, and `fixed factor
-- precision value` that of the product, in the fixed notation of a stream.
module _ (Factor : Type 0) (lexical_cast : ℕ → Bytes) (fixed : Factor → ℤ → ℕ → Bytes) where
  -- Without labels: each value under its address.
  unfoldable pub address_values : Assoc ℕ ℕ → Assoc Bytes Bytes → Assoc Bytes Bytes
  address_values [] mapped = mapped
  address_values ((address, value) ∷ values) mapped =
      address_values values (insert (lexical_cast address) (lexical_cast value) mapped)

  -- With labels: each value under the label of its place, when that has a name.
  unfoldable pub label_values :
      List (FloatPosition Factor) → Assoc ℕ ℕ → Assoc Bytes Bytes → Assoc Bytes Bytes
  label_values [] values mapped = mapped
  label_values (field ∷ fields) [] mapped = mapped
  label_values (field ∷ fields) ((address, value) ∷ values) mapped =
      let labelled = insert field.name (fixed field.factor field.precision value) mapped in
      label_values fields values (if not (is_empty field.name) then labelled else mapped)

  -- Modbus::get_mapped_values: the numbers of labels and of values must agree.
  unfoldable pub get_mapped_values : List (FloatPosition Factor) → Modbus → Assoc Bytes Bytes
  get_mapped_values [] m = address_values m.values []
  get_mapped_values (field ∷ fields) m =
      if length (field ∷ fields) == length m.values
      then label_values (field ∷ fields) m.values []
      else []

  -- The text of the first value whose address has the text `name`.
  abbrev pub value_at : Bytes → Assoc ℕ ℕ → Option Bytes
  value_at name [] = none
  value_at name ((address, value) ∷ values) =
      if str_eq name (lexical_cast address) then some (lexical_cast value) else value_at name values

  -- The text of the value at the place of the first label that is `name`.
  abbrev pub value_of_label : Bytes → List (FloatPosition Factor) → Assoc ℕ ℕ → Option Bytes
  value_of_label name [] values = none
  value_of_label name (field ∷ fields) [] = none
  value_of_label name (field ∷ fields) ((address, value) ∷ values) =
      if not (is_empty field.name) && str_eq name field.name
      then some (fixed field.factor field.precision value)
      else value_of_label name fields values

  abbrev pub mapped_value : Bytes → List (FloatPosition Factor) → Assoc ℕ ℕ → Option Bytes
  mapped_value name [] values = value_at name values
  mapped_value name (field ∷ fields) values =
      if length (field ∷ fields) == length values
      then value_of_label name (field ∷ fields) values
      else none

  -- What a map has already stays.
  abbrev or_later : Option Bytes → Option Bytes → Option Bytes
  or_later (some text) later = some text
  or_later none later = later

  first_insertion :
      (same : Bool) (text : Bytes) (found key_found later : Option Bytes)
      → (same ≡ true → found ≡ key_found)
      → or_later
          (elim key_found [ none ↦ if same then some text else found | some w ↦ found ])
          later
        ≡ or_later found (if same then some text else later)
  first_insertion true text found none later h = rw (h refl) refl
  first_insertion true text found (some w) later h = rw (h refl) refl
  first_insertion false text found none later h = refl
  first_insertion false text found (some w) later h = refl

  find-insert_first :
      (name key text : Bytes) (mapped : Assoc Bytes Bytes) (later : Option Bytes)
      → or_later (find name (insert key text mapped)) later
        ≡ or_later (find name mapped) (if str_eq name key then some text else later)
  find-insert_first name key text mapped later =
      ap (λ (o : Option Bytes). or_later o later) (find-insert key name text mapped)
      ∙ first_insertion (str_eq name key) text (find name mapped) (find key mapped) later
          (λ e. ap (λ (k : Bytes). find k mapped) ((str_eq_iff name key).0 e))

  or_later-none : (o : Option Bytes) → or_later o none ≡ o
  or_later-none none = refl
  or_later-none (some text) = refl

  find-address_values :
      (name : Bytes) (values : Assoc ℕ ℕ) (mapped : Assoc Bytes Bytes)
      → find name (address_values values mapped)
        ≡ or_later (find name mapped) (value_at name values)
  unfolding address_values
  find-address_values name [] mapped = sym (or_later-none (find name mapped))
  find-address_values name ((address, value) ∷ values) mapped =
      find-address_values name values (insert (lexical_cast address) (lexical_cast value) mapped)
      ∙ find-insert_first name (lexical_cast address) (lexical_cast value) mapped
          (value_at name values)

  labelled_first :
      (named : Bool) (name key text : Bytes) (mapped : Assoc Bytes Bytes) (later : Option Bytes)
      → or_later (find name (if named then insert key text mapped else mapped)) later
        ≡ or_later (find name mapped) (if named && str_eq name key then some text else later)
  labelled_first true name key text mapped later = find-insert_first name key text mapped later
  labelled_first false name key text mapped later = refl

  find-label_values :
      (name : Bytes) (fields : List (FloatPosition Factor)) (values : Assoc ℕ ℕ)
      (mapped : Assoc Bytes Bytes)
      → find name (label_values fields values mapped)
        ≡ or_later (find name mapped) (value_of_label name fields values)
  unfolding label_values
  find-label_values name [] values mapped = sym (or_later-none (find name mapped))
  find-label_values name (field ∷ fields) [] mapped = sym (or_later-none (find name mapped))
  find-label_values name (field ∷ fields) ((address, value) ∷ values) mapped =
      find-label_values name fields values _
      ∙ labelled_first (not (is_empty field.name)) name field.name
          (fixed field.factor field.precision value) mapped (value_of_label name fields values)

  -- What the map of a response has under a name: without labels, the text of the first value whose
  -- address has that text; with as many labels as values, the scaled value at the place of the
  -- first label that is the name, labels without a name left out; with another number of
  -- labels, nothing.
  pub find-get_mapped_values :
      (name : Bytes) (fields : List (FloatPosition Factor)) (m : Modbus)
      → find name (get_mapped_values fields m) ≡ mapped_value name fields m.values
  unfolding get_mapped_values find
  find-get_mapped_values name [] m = find-address_values name m.values []
  find-get_mapped_values name (field ∷ fields) m =
      if_found (length (field ∷ fields) == length m.values)
    where
      if_found :
          (same : Bool)
          → find name (if same then label_values (field ∷ fields) m.values [] else [])
            ≡ (if same then value_of_label name (field ∷ fields) m.values else none)
      if_found true = find-label_values name (field ∷ fields) m.values []
      if_found false = refl
