-- ===== src/Ngsi/Mapping/Compound.antt =====
-- src/ngsi/ContextElement.cc: a mapping of a compound attribute.
use fiware_io_tagent_cpluspl.Common.{
  ℕ, suc, codes, str_eq, true, false, ◌≡◌, refl, ap, is_empty, arith,
}
use fiware_io_tagent_cpluspl.Common.Outcome.{returned}
use fiware_io_tagent_cpluspl.Ngsi.{Library}
use fiware_io_tagent_cpluspl.Ngsi.Attribute.{
  Attribute, no_attributes, new_attribute, render_identifier,
}
use fiware_io_tagent_cpluspl.Ngsi.ContextElement.{
  ContextElement, has_empty_value, with_type, ends, add_step, add_attribute, mapped_attribute,
  mapped_value, mapped_type,
}
use fiware_io_tagent_cpluspl.Ngsi.Mapping.Ending.{IsMapping}
use fiware_io_tagent_cpluspl.Ngsi.Mapping.Cycles.{add_step-maps}

module _ (lib : Library) where
  -- An attribute of the type `compound`, with no vector and not marked as an object.
  abbrev IsBlank : Attribute → Type 0
  IsBlank b =
      (b.type ≡ codes "compound")
      × (b.compound_as_object ≡ false)
      × (b.value_compound ≡ no_attributes)

  mapped_type-of_compound :
      (a att : Attribute) → a.type ≡ codes "compound" → mapped_type lib a att ≡ codes "compound"
  unfolding mapped_type str_eq
  mapped_type-of_compound a att typed = rw typed (ground arith)

  mapped_value-of_object :
      (a mapped : Attribute)
      → a.compound_as_object ≡ true
      → mapped_value lib (codes "compound") a mapped ≡ record mapped { value = a.value }
  unfolding mapped_value str_eq
  mapped_value-of_object a mapped object = rw object refl

  IsBlank-mapped_attribute :
      (a att : Attribute)
      → a.type ≡ codes "compound"
      → a.compound_as_object ≡ true
      → render_identifier lib (codes "compound") ≡ codes "compound"
      → IsBlank (mapped_attribute lib a att)
  unfolding mapped_attribute new_attribute
  IsBlank-mapped_attribute a att typed object rendered =
      rw (mapped_type-of_compound a att typed, mapped_value-of_object a _ object)
        (rendered, refl, refl)

  add_step-of_blank :
      (b : Attribute) (c : ContextElement) → IsBlank b → add_step lib b c ≡ returned (ends c)
  unfolding add_step with_type has_empty_value str_eq
  add_step-of_blank b c (typed, object, blank) = rw (typed, object, blank) refl

  has_empty_value-of_object :
      (a : Attribute)
      → a.compound_as_object ≡ true
      → is_empty a.value ≡ false
      → has_empty_value a ≡ false
  unfolding has_empty_value
  has_empty_value-of_object a object valued = ground (arith, object, valued)

  -- A compound attribute whose value is an object is not added when its name has a mapping: the addition
  -- ends with its second call, and leaves the entity as it was. (`compound` is assumed to be
  -- a text that rendering keeps.)
  pub add_attribute-of_compound_object :
      (c : ContextElement) (a att : Attribute) (fuel : ℕ)
      → a.type ≡ codes "compound"
      → a.compound_as_object ≡ true
      → is_empty a.value ≡ false
      → IsMapping lib c a.name att
      → render_identifier lib (codes "compound") ≡ codes "compound"
      → add_attribute lib (suc (suc fuel)) a c ≡ returned c
  unfolding add_attribute
  add_attribute-of_compound_object c a att fuel typed object valued mapping rendered =
      let nonempty : is_empty a.type ≡ false = ap is_empty typed in
      rw
        (
          add_step-maps lib a att c nonempty (has_empty_value-of_object a object valued) mapping,
          add_step-of_blank (mapped_attribute lib a att) c
              (IsBlank-mapped_attribute a att typed object rendered),
        )
        refl
