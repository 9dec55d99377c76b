-- ===== src/Ngsi/Mapping.antt =====
-- src/ngsi/ContextElement.cc: what an addition of an attribute does, and when it ends.
pub mod Reading
pub mod Cycles
pub mod Compound
pub mod Ending
use fiware_io_tagent_cpluspl.Common.{
  ℕ, zero, suc, ◌<◌, Bytes, codes, str_eq, Bool, true, false, Bool-cases, Option, none, some,
  Option-cases, List, [], ◌∷◌, ◌++◌, ◌≡◌, ◌≢◌, ◌⊎◌, inl, inr, refl, sym, ap, ◌∙◌, is_empty, All,
  All-append, if◌then◌else◌, if-both, arith,
}
use fiware_io_tagent_cpluspl.Common.Outcome.{
  Outcome, returned, iota_exception, runtime_error, undefined, out_of_fuel, ◌>>=◌, >>=-eq-returned,
}
use fiware_io_tagent_cpluspl.Common.Map.{Assoc}
use fiware_io_tagent_cpluspl.Device.{Device}
use fiware_io_tagent_cpluspl.Ngsi.{Library, Value}
use fiware_io_tagent_cpluspl.Ngsi.Attribute.{Attribute, read_attribute}
use fiware_io_tagent_cpluspl.Ngsi.ContextElement.{
  ContextElement, Entry, Service, attr_mapping, has_empty_value, with_type, Step, ends, calls,
  map_attribute, add_step, add_attribute, add_static, add_device_statics, add_service_static,
  add_service_statics, device_statics, service_statics, set_env_info, format, mapped_attribute,
}

-- What stands in an entity: an attribute that has a value, under a name that nothing maps.
abbrev pub IsPublished : ContextElement → Attribute → Type 0
IsPublished c b = (has_empty_value b ≡ false) × (is_empty (attr_mapping c b.name) ≡ true)

-- Nothing is added, or one attribute is, at the end.
abbrev pub Adds : ContextElement → ContextElement → Type 0
Adds c r =
    (r ≡ c)
    ⊎ ((b : Attribute) × (r ≡ record c { attributes = c.attributes ++ (b ∷ []) }) × IsPublished c b)

module _ (lib : Library) where
  map_attribute-ends :
      (parsed : Option Value) (a : Attribute) (c r : ContextElement)
      → map_attribute lib parsed a c ≡ returned (ends r)
      → r ≡ c
  unfolding map_attribute
  map_attribute-ends none a c r h = ground arith
  map_attribute-ends (some value) a c r h =
      let (att, e, f) = >>=-eq-returned (read_attribute lib value) _ h in absurd (ground (arith, f))

  branches-Adds :
      (a : Attribute) (c r : ContextElement) (empty mapped : Bool)
      → has_empty_value a ≡ empty
      → is_empty (attr_mapping c a.name) ≡ mapped
      → (if empty
          then returned (ends c)
          else if mapped
          then returned (ends (record c { attributes = c.attributes ++ (a ∷ []) }))
          else map_attribute lib (lib.parse (attr_mapping c a.name)) a c)
        ≡ returned (ends r)
      → Adds c r
  branches-Adds a c r true mapped p q h = inl (ground (arith, h))
  branches-Adds a c r false true p q h = inr (a, ground (arith, h), (p, q))
  branches-Adds a c r false false p q h =
      inl (map_attribute-ends (lib.parse (attr_mapping c a.name)) a c r h)

  add_step-Adds :
      (a : Attribute) (c r : ContextElement) → add_step lib a c ≡ returned (ends r) → Adds c r
  unfolding add_step
  add_step-Adds a c r h = branches-Adds (with_type lib a) c r _ _ refl refl h

  -- The first call either ends the addition or hands it on.
  pub step_cases :
      (o : Outcome (Step)) (fuel : ℕ) (c r : ContextElement)
      → (o >>= λ step. elim step [
        | ends result ↦ returned result
        | calls mapped ↦ add_attribute lib fuel mapped c
      ])
        ≡ returned r
      → (o ≡ returned (ends r))
        ⊎ ((b : Attribute) × (o ≡ returned (calls b)) × (add_attribute lib fuel b c ≡ returned r))
  step_cases (returned (ends result)) fuel c r h = inl (ground arith)
  step_cases (returned (calls b)) fuel c r h = inr (b, refl, h)
  step_cases _ fuel c r h = absurd (ground (arith, h))

  -- An addition that returns leaves the entity as it was, or puts exactly one attribute at the end of
  -- its attributes and changes nothing else; that attribute has a value, and no mapping of the
  -- device or of the service is left for its name.
  pub add_attribute-Adds :
      (fuel : ℕ) (a : Attribute) (c r : ContextElement)
      → add_attribute lib fuel a c ≡ returned r
      → Adds c r
  unfolding add_attribute
  add_attribute-Adds zero a c r h = absurd (ground (arith, h))
  add_attribute-Adds (suc fuel) a c r h = elim (step_cases (add_step lib a c) fuel c r h) [
    | inl e ↦ add_step-Adds a c r e
    | inr (b, e, f) ↦ add_attribute-Adds fuel b c r f
  ]

  -- What an addition keeps: everything but the attributes, which stay published.
  abbrev pub Keeps : ContextElement → ContextElement → Type 0
  Keeps c r =
      (r.id ≡ c.id)
      × (r.type ≡ c.type)
      × (r.service_info ≡ c.service_info)
      × (r.device_info ≡ c.device_info)
      × (All (IsPublished c) c.attributes → All (IsPublished r) r.attributes)

  pub Adds-Keeps : (c r : ContextElement) → Adds c r → Keeps c r
  unfolding attr_mapping
  Adds-Keeps c r (inl e) = rw e (refl, refl, refl, refl, λ p. p)
  Adds-Keeps c r (inr (b, e, p)) =
      let added : ContextElement = record c { attributes = c.attributes ++ (b ∷ []) } in
      rw e (
        refl,
        refl,
        refl,
        refl,
        λ q. All-append (IsPublished added) c.attributes (b ∷ []) q (p, tt),
      )

  pub Keeps-trans : (c d r : ContextElement) → Keeps c d → Keeps d r → Keeps c r
  Keeps-trans c d r h k = (k.0 ∙ h.0, k.1 ∙ h.1, k.2 ∙ h.2, k.3 ∙ h.3, λ p. k.4 (h.4 p))

  add_static-Keeps :
      (fuel : ℕ) (timestamp : Bytes) (parsed : Option Value) (c r : ContextElement)
      → add_static lib fuel timestamp parsed c ≡ returned r
      → Keeps c r
  unfolding add_static
  add_static-Keeps fuel timestamp none c r h =
      let e : c ≡ r = ground (arith, h) in rw (← e) (refl, refl, refl, refl, λ p. p)
  add_static-Keeps fuel timestamp (some value) c r h =
      let (att, e, f) = >>=-eq-returned (read_attribute lib value) _ h in
      Adds-Keeps c r (add_attribute-Adds fuel _ c r f)

  add_device_statics-Keeps :
      (fuel : ℕ) (timestamp : Bytes) (statics : Assoc Bytes Bytes) (c r : ContextElement)
      → add_device_statics lib fuel timestamp statics c ≡ returned r
      → Keeps c r
  unfolding add_device_statics
  add_device_statics-Keeps fuel timestamp [] c r h =
      let e : c ≡ r = ground (arith, h) in rw (← e) (refl, refl, refl, refl, λ p. p)
  add_device_statics-Keeps fuel timestamp ((key, text) ∷ statics) c r h =
      let (d, e, f) = >>=-eq-returned (add_static lib fuel timestamp (lib.parse text) c) _ h in
      Keeps-trans c d r (add_static-Keeps fuel timestamp (lib.parse text) c d e)
        (add_device_statics-Keeps fuel timestamp statics d r f)

  add_service_static-Keeps :
      (fuel : ℕ) (timestamp : Bytes) (entry : Entry) (c r : ContextElement)
      → add_service_static lib fuel timestamp entry c ≡ returned r
      → Keeps c r
  unfolding add_service_static add_static
  add_service_static-Keeps fuel timestamp entry c r =
      if-both (λ o. o ≡ returned r → Keeps c r) _ _ _
        (λ _ h. add_static-Keeps fuel timestamp (lib.parse entry.write_json) c r h)
        (λ _ h. add_static-Keeps fuel timestamp none c r h)

  add_service_statics-Keeps :
      (fuel : ℕ) (timestamp : Bytes) (entries : List Entry) (c r : ContextElement)
      → add_service_statics lib fuel timestamp entries c ≡ returned r
      → Keeps c r
  unfolding add_service_statics
  add_service_statics-Keeps fuel timestamp [] c r h =
      let e : c ≡ r = ground (arith, h) in rw (← e) (refl, refl, refl, refl, λ p. p)
  add_service_statics-Keeps fuel timestamp (entry ∷ entries) c r h =
      let (d, e, f) = >>=-eq-returned (add_service_static lib fuel timestamp entry c) _ h in
      Keeps-trans c d r (add_service_static-Keeps fuel timestamp entry c d e)
        (add_service_statics-Keeps fuel timestamp entries d r f)

  -- When an entity without attributes is given its service and its device, and the call returns, it
  -- has the identifier and the type of `format`, and every attribute in it, static ones of the device
  -- and of the service, has a value and a name that no mapping is left for.
  pub set_env_info-IsPublished :
      (fuel : ℕ) (timestamp : Bytes) (service : Service) (device : Option Device)
      (c r : ContextElement)
      → c.attributes ≡ []
      → set_env_info lib fuel timestamp service device c ≡ returned r
      → let formatted = format (record c { service_info = service; device_info = device }) in
        (r.id ≡ formatted.id) × (r.type ≡ formatted.type) × All (IsPublished r) r.attributes
  unfolding set_env_info format
  set_env_info-IsPublished fuel timestamp service device c r empty h =
      let formatted = format (record c { service_info = service; device_info = device }) in
      let (d, e, f) =
        >>=-eq-returned (add_device_statics lib fuel timestamp (device_statics device) formatted) _
          h in
      let kept =
        Keeps-trans formatted d r
          (add_device_statics-Keeps fuel timestamp (device_statics device) formatted d e)
          (add_service_statics-Keeps fuel timestamp (service_statics service) d r f) in
      (kept.0, kept.1, kept.4 (rw empty tt))
