-- ===== src/Ngsi/Mapping/Ending.antt =====
-- src/ngsi/ContextElement.cc: when the mappings lead an addition to its end.
use fiware_io_tagent_cpluspl.Common.{
  ℕ, zero, suc, ◌<◌, Bytes, Bool, true, false, Option, none, some, [], ◌∷◌, ◌++◌, ◌≡◌, ◌≢◌, refl,
  ap, ◌∙◌, is_empty, if◌then◌else◌, if-both, arith,
}
use fiware_io_tagent_cpluspl.Common.Outcome.{Outcome, returned, out_of_fuel, ◌>>=◌, >>=-eq-returned}
use fiware_io_tagent_cpluspl.Ngsi.{Library, Value}
use fiware_io_tagent_cpluspl.Ngsi.Attribute.{Attribute, read_attribute, new_attribute, add_metadata}
use fiware_io_tagent_cpluspl.Ngsi.ContextElement.{
  ContextElement, attr_mapping, has_empty_value, with_type, Step, ends, calls, map_attribute,
  add_step, add_attribute, mapped_attribute, mapped_value, mapped_type,
}
use fiware_io_tagent_cpluspl.Ngsi.Mapping.Reading.{
  IsFinal, IsFinal-bind, returned-IsFinal, read_attribute-IsFinal,
}

module _ (lib : Library) where
  -- The mapping of `name` reads as an attribute that is published as `mapped`.
  abbrev pub IsMapping : ContextElement → Bytes → Attribute → Type 0
  IsMapping c name att =
      (value : Value) × (is_empty (attr_mapping c name) ≡ false)
      × (lib.parse (attr_mapping c name) ≡ some value)
      × (read_attribute lib value ≡ returned att)

  abbrev pub mapped_name : Attribute → Bytes
  mapped_name att = (new_attribute lib att.name [] []).name

  mapped_value-name :
      (type : Bytes) (a mapped : Attribute) → (mapped_value lib type a mapped).name ≡ mapped.name
  unfolding mapped_value add_metadata
  mapped_value-name type a mapped = ground arith

  pub mapped_attribute-name :
      (a att : Attribute) → (mapped_attribute lib a att).name ≡ mapped_name att
  unfolding mapped_attribute new_attribute
  mapped_attribute-name a att = mapped_value-name (mapped_type lib a att) a _

  -- A call that calls itself does so with what the mapping of the name reads as.
  map_attribute-calls :
      (a b : Attribute) (c : ContextElement) (o : Option Value)
      → lib.parse (attr_mapping c a.name) ≡ o
      → is_empty (attr_mapping c a.name) ≡ false
      → map_attribute lib o a c ≡ returned (calls b)
      → (att : Attribute) × IsMapping c a.name att × (b ≡ mapped_attribute lib a att)
  unfolding map_attribute
  map_attribute-calls a b c none p q h = absurd (ground (arith, h))
  map_attribute-calls a b c (some value) p q h =
      let (att, e, f) = >>=-eq-returned (read_attribute lib value) _ h in
      (att, (value, q, p, e), ground (arith, f))

  branches-calls :
      (a b : Attribute) (c : ContextElement) (empty mapped : Bool)
      → is_empty (attr_mapping c a.name) ≡ mapped
      → (if empty
          then returned (ends c)
          else if mapped
          then returned (ends (record c { attributes = c.attributes ++ (a ∷ []) }))
          else map_attribute lib (lib.parse (attr_mapping c a.name)) a c)
        ≡ returned (calls b)
      → (att : Attribute) × IsMapping c a.name att × (b ≡ mapped_attribute lib a att)
  branches-calls a b c true mapped q h = absurd (ground (arith, h))
  branches-calls a b c false true q h = absurd (ground (arith, h))
  branches-calls a b c false false q h = map_attribute-calls a b c _ refl q h

  add_step-calls :
      (a b : Attribute) (c : ContextElement)
      → add_step lib a c ≡ returned (calls b)
      → (att : Attribute) × IsMapping c (with_type lib a).name att
        × (b ≡ mapped_attribute lib (with_type lib a) att)
  unfolding add_step
  add_step-calls a b c h = branches-calls (with_type lib a) b c _ _ refl h

  with_type-name : (a : Attribute) → (with_type lib a).name ≡ a.name
  unfolding with_type
  with_type-name a = ground arith

  map_attribute-IsFinal :
      (o : Option Value) (a : Attribute) (c : ContextElement) → IsFinal (map_attribute lib o a c)
  unfolding map_attribute
  map_attribute-IsFinal none a c = returned-IsFinal _
  map_attribute-IsFinal (some value) a c =
      IsFinal-bind _ _ (read_attribute-IsFinal lib value) λ att. returned-IsFinal _

  add_step-IsFinal : (a : Attribute) (c : ContextElement) → IsFinal (add_step lib a c)
  unfolding add_step
  add_step-IsFinal a c =
      let typed = with_type lib a in
      let mapping = attr_mapping c typed.name in
      let pushed = record c { attributes = c.attributes ++ (typed ∷ []) } in
      let mapped = map_attribute lib (lib.parse mapping) typed c in
      if-both IsFinal (has_empty_value typed) (returned (ends c))
        (if is_empty mapping then returned (ends pushed) else mapped)
        (λ _. returned-IsFinal (ends c))
        (λ _.
          if-both IsFinal (is_empty mapping) (returned (ends pushed)) mapped
            (λ _. returned-IsFinal (ends pushed))
            (λ _. map_attribute-IsFinal (lib.parse mapping) typed c))

  out_of_fuel_cases :
      (o : Outcome Step) (fuel : ℕ) (c : ContextElement)
      → IsFinal o
      → (o >>= λ step. elim step [
        | ends result ↦ returned result
        | calls mapped ↦ add_attribute lib fuel mapped c
      ])
        ≡ out_of_fuel
      → (b : Attribute) × (o ≡ returned (calls b)) × (add_attribute lib fuel b c ≡ out_of_fuel)
  out_of_fuel_cases (returned (ends result)) fuel c f h = absurd (ground (arith, h))
  out_of_fuel_cases (returned (calls b)) fuel c f h = (b, refl, h)
  out_of_fuel_cases out_of_fuel fuel c f h = absurd (f refl)
  out_of_fuel_cases _ fuel c f h = absurd (ground (arith, h))

  -- When the names have ranks such that every mapping leads to a name of a lower rank, an addition
  -- ends: it makes at most as many calls as the rank of the attribute's name, and one.
  pub add_attribute_terminates :
      (c : ContextElement) (rank : Bytes → ℕ)
      → ((name : Bytes) (att : Attribute)
          → IsMapping c name att
          → rank (mapped_name att) < rank name)
      → (fuel : ℕ) (a : Attribute) → rank a.name < fuel
      → add_attribute lib fuel a c ≢ out_of_fuel
  unfolding add_attribute
  add_attribute_terminates c rank falls zero a h e = absurd (omega arith)
  add_attribute_terminates c rank falls (suc fuel) a h e =
      let (b, called, ran_out) =
        out_of_fuel_cases (add_step lib a c) fuel c (add_step-IsFinal a c) e in
      let (att, mapping, mapped) = add_step-calls a b c called in
      let name =
        ap (λ (d : Attribute). d.name) mapped ∙ mapped_attribute-name (with_type lib a) att in
      let lower : rank b.name < rank a.name =
        rw (name, ← with_type-name a) (falls (with_type lib a).name att mapping) in
      add_attribute_terminates c rank falls fuel b (omega arith) ran_out
