-- ===== src/Ngsi/ContextElement.antt =====
-- src/ngsi/ContextElement.cc, src/ngsi/ContextElement.h: an entity, its type and identifier, and the
-- attributes that are added to it.
use fiware_io_tagent_cpluspl.Common.{
  ℕ, zero, suc, Bytes, codes, str_eq, bytes_key, Bool, true, false, not, ◌&&◌, ◌||◌, ◌==◌, Option,
  none, some, List, [], ◌∷◌, ◌++◌, map, is_empty, any, if◌then◌else◌,
}
use fiware_io_tagent_cpluspl.Common.Map.{Assoc, find}
use fiware_io_tagent_cpluspl.Common.Outcome.{Outcome, returned, out_of_fuel, ◌>>=◌}
use fiware_io_tagent_cpluspl.Device.{Device}
use fiware_io_tagent_cpluspl.Ngsi.{Library, Value}
use fiware_io_tagent_cpluspl.Ngsi.Attribute.{
  Attribute, no_attributes, more, push_all, add_metadata, render_identifier, new_attribute,
  read_attribute,
}

-- A child of a property tree: its `get<std::string>` with a default, and its text by `write_json`.
pub record Entry : Type 0 where
  pub get : Bytes → Bytes → Bytes
  pub write_json : Bytes

-- What is read of the service's property tree: a child that is none makes `get_child` throw
-- ptree_bad_path.
pub record Service : Type 0 where
  pub get : Bytes → Bytes → Bytes
  pub attributes : Option (List Entry)
  pub static_attributes : Option (List Entry)

abbrev pub no_service : Service
no_service = record { get = λ path other. other; attributes = none; static_attributes = none }

pub record ContextElement : Type 0 where
  pub id : Bytes
  pub type : Bytes
  pub is_pattern : Bytes
  pub attributes : List Attribute
  pub service_info : Service
  pub device_info : Option Device

-- A field of a device that is neither empty nor `default`.
unfoldable pub is_given : Bytes → Bool
is_given text = not (is_empty text) && not (str_eq text (codes "default"))

-- The type when no device gives it.
unfoldable pub own_type : ContextElement → Bytes
own_type c =
    let service_entity_type = c.service_info.get (codes "entity_type") [] in
    if not (is_empty c.type)
    then c.type
    else if not (is_empty service_entity_type)
    then service_entity_type
    else codes "thing"

unfoldable pub format_type : Option Device → ContextElement → Bytes
format_type none c = own_type c
format_type (some d) c = if is_given d.entity_type then d.entity_type else own_type c

unfoldable pub format_id : Option Device → Bytes → ContextElement → Bytes
format_id none entity_type c = if is_empty c.type then entity_type ++ (codes ":" ++ c.id) else c.id
format_id (some d) entity_type c =
    if is_given d.entity_name
    then d.entity_name
    else if is_empty c.type
    then entity_type ++ (codes ":" ++ d.name)
    else c.id

-- ContextElement::format
unfoldable pub format : ContextElement → ContextElement
format c =
    let entity_type = format_type c.device_info c in
    record c { id = format_id c.device_info entity_type c; type = entity_type }

-- The mapping that the device has for a name: `operator[]` gives an empty text for an absent key.
unfoldable pub device_mapping : Option Device → Bytes → Bytes
device_mapping none name = []
device_mapping (some d) name = elim (find name d.attributes) [ none ↦ [] | some text ↦ text ]

-- The loop over the attributes of the service, while the mapping is empty.
unfoldable pub search_entries : List Entry → Bytes → Bytes
search_entries [] name = []
search_entries (entry ∷ entries) name =
    let found = if str_eq (entry.get (codes "object_id") []) name then entry.write_json else [] in
    if is_empty found then search_entries entries name else found

unfoldable pub service_mapping : Option (List Entry) → Bytes → Bytes
service_mapping none name = []
service_mapping (some entries) name = search_entries entries name

unfoldable pub attr_mapping : ContextElement → Bytes → Bytes
attr_mapping c name =
    let found = device_mapping c.device_info name in
    if is_empty found then service_mapping c.service_info.attributes name else found

-- attribute.compound_object() chooses between the text and the vector of a compound.
unfoldable pub has_empty_value : Attribute → Bool
has_empty_value a =
    if str_eq a.type (codes "compound") && not a.compound_as_object
    then (elim a.value_compound [ no_attributes ↦ true | more _ _ _ _ _ _ _ ↦ false ])
    else is_empty a.value

-- std::replace(begin, end, '/', ',')
unfoldable pub slash_to_comma : Bytes → Bytes
slash_to_comma text = map (λ c. if c == 47 then 44 else c) text

-- One call of add_attribute: it ends, or calls itself with a mapped attribute.
pub data Step : Type 0 where
  ends : ContextElement → Step
  calls : Attribute → Step

-- ContextElement::exists
unfoldable pub exists : Bytes → ContextElement → Bool
exists name c = any (λ (a : Attribute). str_eq a.name name) c.attributes

unfoldable pub device_statics : Option Device → Assoc Bytes Bytes
device_statics none = []
device_statics (some d) = d.static_attributes

unfoldable pub service_statics : Service → List Entry
service_statics service = elim service.static_attributes [ none ↦ [] | some entries ↦ entries ]

module _ (lib : Library) where
  -- An attribute without a type is a string.
  unfoldable pub with_type : Attribute → Attribute
  with_type a =
      if is_empty a.type then record a { type = render_identifier lib (codes "string") } else a

  -- The type of a mapped attribute, `att` the mapping.
  unfoldable pub mapped_type : Attribute → Attribute → Bytes
  mapped_type a att =
      let type =
        if is_empty att.type || str_eq a.type (codes "compound") then a.type else att.type in
      if is_empty type then codes "string" else type

  unfoldable pub mapped_value : Bytes → Attribute → Attribute → Attribute
  mapped_value type a mapped =
      if str_eq type (codes "compound")
      then if not a.compound_as_object
        then record mapped { value_compound = push_all mapped.value_compound a.value_compound }
        else record mapped { value = a.value }
      else if str_eq type (codes "coords")
      then add_metadata (new_attribute lib (codes "location") (codes "string") (codes "WGS84"))
          (record mapped { value = slash_to_comma a.value })
      else record mapped { value = a.value }

  -- The attribute that is added in place of `a`.
  unfoldable pub mapped_attribute : Attribute → Attribute → Attribute
  mapped_attribute a att =
      let type = mapped_type a att in
      let mapped = mapped_value type a (new_attribute lib att.name type []) in
      record mapped { metadata = push_all (push_all mapped.metadata a.metadata) att.metadata }

  -- A mapping whose text has a parse error drops the attribute.
  unfoldable pub map_attribute : Option Value → Attribute → ContextElement → Outcome Step
  map_attribute none a c = returned (ends c)
  map_attribute (some value) a c = do
    att ← read_attribute lib value
    returned (calls (mapped_attribute a att))

  unfoldable pub add_step : Attribute → ContextElement → Outcome Step
  add_step given c =
      let a = with_type given in
      let mapping = attr_mapping c a.name in
      if has_empty_value a
      then returned (ends c)
      else if is_empty mapping
      then returned (ends (record c { attributes = c.attributes ++ (a ∷ []) }))
      else map_attribute (lib.parse mapping) a c

  -- ContextElement::add_attribute; the fuel bounds its calls of itself.
  unfoldable pub add_attribute : ℕ → Attribute → ContextElement → Outcome ContextElement
  add_attribute zero a c = out_of_fuel
  add_attribute (suc fuel) a c = do
    step ← add_step a c
    elim step [ ends result ↦ returned result | calls mapped ↦ add_attribute fuel mapped c ]

  -- A static attribute whose text was parsed: the `TimeInstant`, and its addition.
  unfoldable pub add_static : ℕ → Bytes → Option Value → ContextElement → Outcome ContextElement
  add_static fuel timestamp none c = returned c
  add_static fuel timestamp (some value) c = do
    att ← read_attribute lib value
    let instant = new_attribute lib (codes "TimeInstant") (codes "ISO8601") timestamp
    add_attribute fuel (add_metadata instant att) c

  -- The loop over the static attributes of the device.
  unfoldable pub add_device_statics :
      ℕ → Bytes → Assoc Bytes Bytes → ContextElement → Outcome ContextElement
  add_device_statics fuel timestamp [] c = returned c
  add_device_statics fuel timestamp ((key, text) ∷ statics) c = do
    added ← add_static fuel timestamp (lib.parse text) c
    add_device_statics fuel timestamp statics added

  unfoldable pub add_service_static : ℕ → Bytes → Entry → ContextElement → Outcome ContextElement
  add_service_static fuel timestamp entry c =
      let name = entry.get (codes "name") [] in
      if not (is_empty name)
        && (not (exists name c) && not (is_empty (entry.get (codes "value") [])))
      then add_static fuel timestamp (lib.parse entry.write_json) c
      else returned c

  -- The loop over the static attributes of the service.
  unfoldable pub add_service_statics :
      ℕ → Bytes → List Entry → ContextElement → Outcome ContextElement
  add_service_statics fuel timestamp [] c = returned c
  add_service_statics fuel timestamp (entry ∷ entries) c = do
    added ← add_service_static fuel timestamp entry c
    add_service_statics fuel timestamp entries added

  -- ContextElement::set_env_info; `timestamp` is the time of the call.
  unfoldable pub set_env_info :
      ℕ → Bytes → Service → Option Device → ContextElement → Outcome ContextElement
  set_env_info fuel timestamp service device c = do
    let formatted = format (record c { service_info = service; device_info = device })
    added ← add_device_statics fuel timestamp (device_statics device) formatted
    add_service_statics fuel timestamp (service_statics service) added

  -- ContextElement::ContextElement(id, type, is_pattern)
  unfoldable pub new_context_element : Bytes → Bytes → Bytes → ContextElement
  new_context_element id type is_pattern = record {
    id = render_identifier lib id;
    type = render_identifier lib type;
    is_pattern = is_pattern;
    attributes = [];
    service_info = no_service;
    device_info = none;
  }
