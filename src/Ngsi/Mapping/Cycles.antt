-- ===== src/Ngsi/Mapping/Cycles.antt =====
-- src/ngsi/ContextElement.cc: a mapping that leads to the name that it maps.
use fiware_io_tagent_cpluspl.Common.{
  ℕ, zero, suc, Bytes, codes, str_eq, false, [], ◌∷◌, ◌≡◌, refl, sym, ap, ◌∙◌, is_empty, arith,
}
use fiware_io_tagent_cpluspl.Common.Outcome.{returned, out_of_fuel}
use fiware_io_tagent_cpluspl.Ngsi.{Library}
use fiware_io_tagent_cpluspl.Ngsi.Attribute.{
  Attribute, new_attribute, add_metadata, render_identifier,
}
use fiware_io_tagent_cpluspl.Ngsi.ContextElement.{
  ContextElement, has_empty_value, with_type, calls, map_attribute, add_step, add_attribute,
  mapped_attribute, mapped_value, mapped_type, slash_to_comma,
}
use fiware_io_tagent_cpluspl.Ngsi.Mapping.Ending.{IsMapping, mapped_name, mapped_attribute-name}

module _ (lib : Library) where
  -- An attribute that has a text for a value, and a type.
  abbrev pub IsText : Attribute → Type 0
  IsText a =
      (is_empty a.value ≡ false)
      × (is_empty a.type ≡ false)
      × (str_eq a.type (codes "compound") ≡ false)

  with_type-of_type : (a : Attribute) → is_empty a.type ≡ false → with_type lib a ≡ a
  unfolding with_type
  with_type-of_type a h = ground (arith, h)

  pub add_step-maps :
      (a att : Attribute) (c : ContextElement)
      → is_empty a.type ≡ false
      → has_empty_value a ≡ false
      → IsMapping lib c a.name att
      → add_step lib a c ≡ returned (calls (mapped_attribute lib a att))
  unfolding add_step map_attribute
  add_step-maps a att c typed valued (value, mapped, parsed, read) =
      rw (with_type-of_type a typed, valued, mapped, parsed, map_attribute, read) refl

  has_empty_value-IsText : (a : Attribute) → IsText a → has_empty_value a ≡ false
  unfolding has_empty_value
  has_empty_value-IsText a h = ground (arith, h)

  mapped_value-type :
      (type : Bytes) (a mapped : Attribute) → (mapped_value lib type a mapped).type ≡ mapped.type
  unfolding mapped_value add_metadata
  mapped_value-type type a mapped = ground arith

  mapped_type-of_text :
      (a att : Attribute) → IsText a → is_empty att.type ≡ false → mapped_type lib a att ≡ att.type
  unfolding mapped_type
  mapped_type-of_text a att h typed = ground (arith, h, typed)

  pub mapped_attribute-type :
      (a att : Attribute)
      → (mapped_attribute lib a att).type ≡ render_identifier lib (mapped_type lib a att)
  unfolding mapped_attribute new_attribute
  mapped_attribute-type a att = mapped_value-type (mapped_type lib a att) a _

  slash_to_comma_nonempty : (text : Bytes) → is_empty (slash_to_comma text) ≡ is_empty text
  unfolding slash_to_comma
  slash_to_comma_nonempty [] = refl
  slash_to_comma_nonempty (x ∷ text) = refl

  mapped_value_nonempty :
      (type : Bytes) (a mapped : Attribute)
      → str_eq type (codes "compound") ≡ false
      → is_empty (mapped_value lib type a mapped).value ≡ is_empty a.value
  unfolding mapped_value add_metadata
  mapped_value_nonempty type a mapped plain = ground (arith, plain, slash_to_comma_nonempty a.value)

  mapped_attribute_nonempty :
      (a att : Attribute)
      → str_eq (mapped_type lib a att) (codes "compound") ≡ false
      → is_empty (mapped_attribute lib a att).value ≡ is_empty a.value
  unfolding mapped_attribute
  mapped_attribute_nonempty a att plain = mapped_value_nonempty (mapped_type lib a att) a _ plain

  IsText-mapped_attribute :
      (a att : Attribute)
      → IsText a
      → is_empty att.type ≡ false
      → str_eq att.type (codes "compound") ≡ false
      → render_identifier lib att.type ≡ att.type
      → IsText (mapped_attribute lib a att)
  IsText-mapped_attribute a att h typed plain rendered =
      let same = mapped_type-of_text a att h typed in
      let type : (mapped_attribute lib a att).type ≡ att.type =
        mapped_attribute-type a att ∙ ap (render_identifier lib) same ∙ rendered in
      (mapped_attribute_nonempty a att (rw same plain) ∙ h.0, rw type typed, rw type plain)

  -- An addition whose attribute is a text with a type, and whose name has a mapping that leads to the same
  -- name, and gives a type that is rendered and is not `compound`, never ends: no fuel is enough.
  pub add_attribute-loops :
      (c : ContextElement) (att : Attribute)
      → is_empty att.type ≡ false
      → str_eq att.type (codes "compound") ≡ false
      → render_identifier lib att.type ≡ att.type
      → (fuel : ℕ) (a : Attribute) → IsText a
      → IsMapping lib c a.name att
      → mapped_name lib att ≡ a.name
      → add_attribute lib fuel a c ≡ out_of_fuel
  unfolding add_attribute
  add_attribute-loops c att typed plain rendered zero a h mapping same = refl
  add_attribute-loops c att typed plain rendered (suc fuel) a h mapping same =
      let b = mapped_attribute lib a att in
      let name : b.name ≡ a.name = mapped_attribute-name lib a att ∙ same in
      rw (add_step-maps a att c h.1 (has_empty_value-IsText a h) mapping) (
        add_attribute-loops c att typed plain rendered fuel b
          (IsText-mapped_attribute a att h typed plain rendered) (rw name mapping)
          (same ∙ sym name))
