-- ===== src/UltraLight/Measured.antt =====
-- src/ultra_light/ULInsertObservation.cc: what every entity of a translated message is.
use fiware_io_tagent_cpluspl.Common.{
  ℕ, Bytes, codes, false, ◌||◌, ◌==◌, ==_iff, Option, List, [], ◌∷◌, ◌++◌, ◌≡◌, refl, sym, ap, ◌∙◌,
  length, is_empty, All, All-append, if-both, arith,
}
use fiware_io_tagent_cpluspl.Common.Outcome.{
  Outcome, returned, iota_exception, runtime_error, bad_cast, undefined, out_of_fuel, ◌>>=◌,
  >>=-eq-returned,
}
use fiware_io_tagent_cpluspl.Device.{Device}
use fiware_io_tagent_cpluspl.FuncUtil.Query.{Kvp}
use fiware_io_tagent_cpluspl.Ngsi.Attribute.{new_attribute, add_metadata}
use fiware_io_tagent_cpluspl.Ngsi.ContextElement.{
  ContextElement, Service, format, set_env_info, add_attribute, new_context_element,
}
use fiware_io_tagent_cpluspl.Ngsi.Mapping.{
  IsPublished, Adds-Keeps, Keeps-trans, add_attribute-Adds, set_env_info-IsPublished,
}
use fiware_io_tagent_cpluspl.UltraLight.{
  Calls, protocol_error, caught, resource_of, name_of, query_value_of, date_of, make_element,
  add_value, read_values, read_measure, read_measures, clean, checked_size, translate,
}

caught-returned {ℓ} : {A : Type ℓ} (o : Outcome A) (a : A) → caught o ≡ returned a → o ≡ returned a
unfolding caught
caught-returned (returned b) a h = h
caught-returned (iota_exception reason details status) a h = absurd (ground (arith, h))
caught-returned (runtime_error what) a h = absurd (ground (arith, h))
caught-returned bad_cast a h = h
caught-returned undefined a h = h
caught-returned out_of_fuel a h = h

is_empty_of_length :
    (xs : List Bytes) (ys : List ContextElement)
    → length xs ≡ length ys
    → is_empty xs ≡ false
    → is_empty ys ≡ false
is_empty_of_length [] ys h e = absurd (ground (arith, e))
is_empty_of_length (x ∷ xs) [] h e = absurd (omega arith)
is_empty_of_length (x ∷ xs) (y ∷ ys) h e = refl

module _ (lib : Calls) where
  -- The entity that a message is about, before its attributes.
  abbrev pub subject : Bytes → Option Device → Service → ContextElement
  subject device_name dev service =
      format (record (new_context_element lib.json device_name [] (codes "false")) {
        service_info = service;
        device_info = dev;
      })

  -- An entity with the identifier and the type of that one, whose attributes all have a value and a
  -- name that no mapping is left for.
  abbrev pub IsMeasured : Bytes → Option Device → Service → ContextElement → Type 0
  IsMeasured device_name dev service e =
      (e.id ≡ (subject device_name dev service).id)
      × (e.type ≡ (subject device_name dev service).type)
      × All (IsPublished e) e.attributes

  make_element-IsMeasured :
      (fuel : ℕ) (device_name : Bytes) (dev : Option Device) (service : Service)
      (date attr_name value : Bytes) (e : ContextElement)
      → make_element lib fuel device_name dev service date attr_name value ≡ returned e
      → IsMeasured device_name dev service e
  unfolding make_element new_context_element
  make_element-IsMeasured fuel device_name dev service date attr_name value e h =
      let element = new_context_element lib.json device_name [] (codes "false") in
      let (informed, p, q) =
        >>=-eq-returned (set_env_info lib.json fuel lib.now service dev element) _ h in
      let instant = new_attribute lib.json (codes "TimeInstant") (codes "ISO8601") date in
      let att = add_metadata instant (new_attribute lib.json attr_name [] value) in
      let (measured, r, s) = >>=-eq-returned (add_attribute lib.json fuel att informed) _ q in
      let first =
        set_env_info-IsPublished lib.json fuel lib.now service dev element informed refl p in
      let kept =
        Keeps-trans lib.json informed measured e
          (Adds-Keeps lib.json informed measured
            (add_attribute-Adds lib.json fuel att informed measured r))
          (Adds-Keeps lib.json measured e
            (add_attribute-Adds lib.json fuel instant measured e s)) in
      (kept.0 ∙ first.0, kept.1 ∙ first.1, kept.4 first.2)

  module _ {κ} (P : ContextElement → Type κ) where
    add_value-All :
        (make : Bytes → Bytes → Outcome ContextElement)
        → ((attr_name value : Bytes) (e : ContextElement) → make attr_name value ≡ returned e → P e)
        → (attr_name value : Bytes) (elements r : List ContextElement) → All P elements
        → add_value lib make attr_name value elements ≡ returned r
        → All P r
    unfolding add_value
    add_value-All make each attr_name [] elements r all h = absurd (ground (arith, h))
    add_value-All make each attr_name (c ∷ value) elements r all h =
        let (element, p, q) = >>=-eq-returned (make attr_name (c ∷ value)) _ h in
        let same : elements ++ (element ∷ []) ≡ r = ground (arith, q) in
        rw (← same)
          (All-append P elements (element ∷ []) all (each attr_name (c ∷ value) element p, tt))

    read_values-All :
        (make : Bytes → Bytes → Outcome ContextElement)
        → ((attr_name value : Bytes) (e : ContextElement) → make attr_name value ≡ returned e → P e)
        → (tokens : List Bytes) (elements r : List ContextElement) → All P elements
        → read_values lib make tokens elements ≡ returned r
        → All P r
    unfolding read_values
    read_values-All make each [] elements r all h =
        let same : elements ≡ r = ground (arith, h) in rw (← same) all
    read_values-All make each ([] ∷ []) elements r all h = absurd (ground (arith, h))
    read_values-All make each ([] ∷ attr_name ∷ []) elements r all h = absurd (ground (arith, h))
    read_values-All make each ([] ∷ attr_name ∷ value ∷ tokens) elements r all h =
        let (added, p, q) = >>=-eq-returned (add_value lib make attr_name value elements) _ h in
        read_values-All make each tokens added r
          (add_value-All make each attr_name value elements added all p) q
    read_values-All make each ((c ∷ attr_name) ∷ []) elements r all h = absurd (ground (arith, h))
    read_values-All make each ((c ∷ attr_name) ∷ value ∷ tokens) elements r all h =
        let (added, p, q) =
          >>=-eq-returned (add_value lib make (c ∷ attr_name) value elements) _ h in
        read_values-All make each tokens added r
          (add_value-All make each (c ∷ attr_name) value elements added all p) q

  module _ (fuel : ℕ) (device_name : Bytes) (dev : Option Device) (service : Service) where
    abbrev Measured : ContextElement → Type 0
    Measured e = IsMeasured device_name dev service e

    read_measure-IsMeasured :
        (tokens : List Bytes) (elements r : List ContextElement)
        → All Measured elements
        → read_measure lib fuel device_name dev service tokens elements ≡ returned r
        → All Measured r
    unfolding read_measure
    read_measure-IsMeasured (uc ∷ id ∷ time ∷ property ∷ tokens) elements r all =
        if-both (λ o. o ≡ returned r → All Measured r)
          (is_empty (resource_of device_name id) || is_empty property)
          (protocol_error (codes "Protocol error, measurement has not got property or idResource "))
          (caught (
            date_of lib (lib.riot_tokenizer time (codes " ")) >>= λ date.
            read_values lib (make_element lib fuel device_name dev service date) tokens elements))
          (λ _ h. absurd (ground (arith, h)))
          (λ _ h.
            let (date, p, q) =
              >>=-eq-returned (date_of lib (lib.riot_tokenizer time (codes " "))) _
                (caught-returned _ r h) in
            read_values-All Measured (make_element lib fuel device_name dev service date)
              (make_element-IsMeasured fuel device_name dev service date) tokens elements r all q)
    read_measure-IsMeasured _ elements r all = λ h. absurd (ground (arith, h))

    read_measures-IsMeasured :
        (protocol : ℕ) (sampling_time : Bytes) (texts : List Bytes)
        (elements r : List ContextElement)
        → All Measured elements
        → read_measures lib fuel protocol device_name sampling_time dev service texts elements
          ≡ returned r
        → All Measured r
    unfolding read_measures
    read_measures-IsMeasured protocol sampling_time [] elements r all h =
        let same : elements ≡ r = ground (arith, h) in rw (← same) all
    read_measures-IsMeasured protocol sampling_time (text ∷ texts) elements r all h =
        let (added, p, q) =
          >>=-eq-returned (read_measure lib fuel device_name dev service _ elements) _ h in
        read_measures-IsMeasured protocol sampling_time texts added r
          (read_measure-IsMeasured _ elements added all p) q

  checked_size-returned :
      (n : ℕ) (elements r : List ContextElement)
      → checked_size lib n elements ≡ returned r
      → (elements ≡ r) × (n ≡ length r)
  unfolding checked_size
  checked_size-returned n elements r =
      if-both (λ o. o ≡ returned r → (elements ≡ r) × (n ≡ length r)) (n == length elements)
        (returned elements) (protocol_error (codes "Protocol error, "))
        (λ e h.
          let same : elements ≡ r = ground (arith, h) in
          (same, (==_iff n (length elements)).0 e ∙ ap length same))
        (λ _ h. absurd (ground (arith, h)))

  -- When the translation of a message returns, for a vector that was empty, there is one entity for each of
  -- the measures that the message has between its separators, and there is at least one; each entity has
  -- the identifier and the type that the device and the service give, and every attribute in
  -- it has a value and a name that no mapping is left for.
  pub translate-IsMeasured :
      (fuel : ℕ) (str_io : Bytes) (dev : Option Device) (service : Service) (query : List Kvp)
      (protocol : ℕ) (r : List ContextElement)
      → translate lib fuel str_io dev service query [] protocol ≡ returned r
      → (length r ≡ length (lib.riot_tokenizer (clean lib str_io) (codes "#")))
        × (is_empty r ≡ false)
        × All (IsMeasured (name_of dev service query) dev service) r
  unfolding translate
  translate-IsMeasured fuel str_io dev service query protocol r =
      let texts = lib.riot_tokenizer (clean lib str_io) (codes "#") in
      let name = name_of dev service query in
      let sampling_time = query_value_of (codes "t") [] query in
      if-both
        (λ o.
          o ≡ returned r
          → (length r ≡ length texts) × (is_empty r ≡ false) × All (IsMeasured name dev service) r)
        (is_empty texts) (protocol_error (codes "Protocol error, no measurements"))
        (read_measures lib fuel protocol name sampling_time dev service texts [] >>= λ elements.
          checked_size lib (length texts) elements)
        (λ _ h. absurd (ground (arith, h)))
        (λ some_text h.
          let (elements, p, q) =
            >>=-eq-returned
              (read_measures lib fuel protocol name sampling_time dev service texts []) _ h in
          let (same, size) = checked_size-returned (length texts) elements r q in
          (
            sym size,
            is_empty_of_length texts r size some_text,
            rw (← same) (
                read_measures-IsMeasured fuel name dev service protocol sampling_time texts []
                  elements tt p),
          ))
