-- ===== src/Ngsi/Tests.antt =====
-- Runs of the entities' operations, and instances of their theorems.
use fiware_io_tagent_cpluspl.Common.{
  ℕ, ◌<◌, Bytes, codes, str_eq, true, false, some, [], ◌∷◌, ◌≡◌, ◌≢◌, refl, is_empty, if◌then◌else◌,
  All, arith, str_below, bytes_key, ap, ◌∙◌,
}
use fiware_io_tagent_cpluspl.Common.Map.{find}
use fiware_io_tagent_cpluspl.Common.Outcome.{returned, out_of_fuel}
use fiware_io_tagent_cpluspl.Common.Int.{pos}
use fiware_io_tagent_cpluspl.Device.{Device, get_real_name}
use fiware_io_tagent_cpluspl.Ngsi.{Library, Value, string_value, object_value, no_members, member}
use fiware_io_tagent_cpluspl.Ngsi.Attribute.{
  Attribute, read_attribute, find_member, get_string, get_str_value, or_empty_value,
  render_identifier, read_value, read_type, read_name, read_plain, read_metadatas, new_attribute,
  push_all, add_metadata, no_attributes, attribute,
}
use fiware_io_tagent_cpluspl.Ngsi.ContextElement.{
  no_service, ContextElement, attr_mapping, device_mapping, service_mapping, add_attribute,
  add_step, with_type, has_empty_value, map_attribute, mapped_attribute, mapped_type, mapped_value,
  set_env_info, format, format_id, format_type, own_type, is_given, add_device_statics,
  add_service_statics, device_statics, service_statics, add_static,
}
use fiware_io_tagent_cpluspl.Ngsi.Naming.{format-get_real_name}
use fiware_io_tagent_cpluspl.Ngsi.Mapping.{
  Adds, IsPublished, add_attribute-Adds, set_env_info-IsPublished,
}
use fiware_io_tagent_cpluspl.Ngsi.Mapping.Ending.{IsMapping, mapped_name, add_attribute_terminates}
use fiware_io_tagent_cpluspl.Ngsi.Mapping.Cycles.{add_attribute-loops}
use fiware_io_tagent_cpluspl.Ngsi.Mapping.Compound.{add_attribute-of_compound_object}

-- The JSON value of a mapping to `name`, and calls that read it from every text.
abbrev mapping_to : Bytes → Value
mapping_to name = object_value (
    member (codes "name") (string_value name)
      (member (codes "type") (string_value (codes "float")) no_members))

abbrev reading : Bytes → Library
reading name = record {
  erase_all_regex_copy = λ text. text;
  accept = λ value. codes "{}";
  parse = λ text. some (mapping_to name);
}

abbrev sensor : Device
sensor = record {
  address = 1;
  name = codes "dev1";
  protocol = [];
  service = codes "s";
  service_path = codes "/p";
  entity_type = [];
  entity_name = [];
  timezone = [];
  endpoint = [];
  attributes = (codes "t", codes "m") ∷ [];
  commands = [];
  static_attributes = (codes "x", codes "m") ∷ [];
  lazy = [];
  model = [];
  active = pos 1;
  registration_id = [];
  duration_cb = pos 0;
  timestamp_data = pos 0;
}

abbrev entity : ContextElement
entity = record {
  id = codes "dev1";
  type = [];
  is_pattern = codes "false";
  attributes = [];
  service_info = no_service;
  device_info = some sensor;
}

abbrev plain_attribute : Bytes → Bytes → Bytes → Attribute
plain_attribute name type value = record {
  name = name;
  type = type;
  value = value;
  metadata = no_attributes;
  value_compound = no_attributes;
  compound_as_object = false;
}

abbrev measure : Attribute
measure = plain_attribute (codes "t") (codes "string") (codes "25")

abbrev object_measure : Attribute
object_measure = record (plain_attribute (codes "t") (codes "compound") (codes "{}")) {
  compound_as_object = true;
}

abbrev mapping : Attribute
mapping = plain_attribute (codes "temperature") (codes "float") []

abbrev published : ContextElement
published = record entity {
  attributes = plain_attribute (codes "temperature") (codes "float") (codes "25") ∷ [];
}

mapping-IsMapping : IsMapping (reading (codes "temperature")) entity (codes "t") mapping
unfolding attr_mapping device_mapping find str_eq read_attribute find_member get_string read_name
    read_type read_value read_metadatas render_identifier
mapping-IsMapping = (mapping_to (codes "temperature"), refl, refl, refl)

format-get_real_name_example : (format entity).id ≡ get_real_name (λ path other. other) sensor
format-get_real_name_example = format-get_real_name entity sensor refl refl

-- A mapped measure is published under the name and with the type of its mapping.
add_attribute_test :
    add_attribute (reading (codes "temperature")) 2 measure entity ≡ returned published
unfolding add_attribute add_step with_type has_empty_value attr_mapping device_mapping
    service_mapping find str_eq str_below map_attribute read_attribute find_member get_string
    read_name read_type read_value read_metadatas render_identifier mapped_attribute mapped_type
    mapped_value new_attribute push_all or_empty_value
add_attribute_test = refl

add_attribute-Adds_example : Adds entity published
add_attribute-Adds_example =
    add_attribute-Adds (reading (codes "temperature")) 2 measure entity published add_attribute_test

-- A mapping leads from a name that has one to a name that has none.
abbrev rank : Bytes → ℕ
rank name = if is_empty (attr_mapping entity name) then 0 else 1

rank_falls :
    (name : Bytes) (att : Attribute)
    → IsMapping (reading (codes "temperature")) entity name att
    → rank (mapped_name (reading (codes "temperature")) att) < rank name
unfolding attr_mapping device_mapping service_mapping find str_eq str_below read_attribute
    find_member get_string read_name read_type read_value read_metadatas render_identifier
    new_attribute
rank_falls name att (value, mapped, parsed, read) =
    let same : mapping_to (codes "temperature") ≡ value = ground (arith, parsed) in
    let read_back : returned mapping ≡ returned att =
      ap (read_attribute (reading (codes "temperature"))) same ∙ read in
    let target : mapping ≡ att = ground (arith, read_back) in
    let last : rank (mapped_name (reading (codes "temperature")) mapping) ≡ 0 = refl in
    let first : rank name ≡ 1 = rw mapped refl in rw (← target, last, first) (omega arith)

add_attribute_terminates_example :
    add_attribute (reading (codes "temperature")) 2 measure entity ≢ out_of_fuel
unfolding attr_mapping device_mapping find str_eq
add_attribute_terminates_example =
    add_attribute_terminates (reading (codes "temperature")) entity rank rank_falls 2 measure
      (omega arith)

add_attribute-loops_example : add_attribute (reading (codes "t")) 1000 measure entity ≡ out_of_fuel
unfolding attr_mapping device_mapping find str_eq read_attribute find_member get_string read_name
    read_type read_value read_metadatas render_identifier new_attribute
add_attribute-loops_example =
    add_attribute-loops (reading (codes "t")) entity
      (plain_attribute (codes "t") (codes "float") []) refl refl refl 1000 measure
      (refl, refl, refl) (mapping_to (codes "t"), refl, refl, refl) refl

add_attribute-of_compound_object_example :
    add_attribute (reading (codes "temperature")) 2 object_measure entity ≡ returned entity
unfolding render_identifier
add_attribute-of_compound_object_example =
    add_attribute-of_compound_object (reading (codes "temperature")) entity object_measure mapping 0
      refl refl refl mapping-IsMapping refl

-- Every text is read as an attribute with the value 1.
abbrev reading_valued : Library
reading_valued = record {
  erase_all_regex_copy = λ text. text;
  accept = λ value. codes "{}";
  parse = λ text. some (
      object_value (
        member (codes "name") (string_value (codes "temperature")) (
          member (codes "type") (string_value (codes "float"))
            (member (codes "value") (string_value (codes "1")) no_members))));
}

-- The device's static attribute `x`, with its time.
abbrev static_element : ContextElement
static_element = record entity {
  id = codes "thing:dev1";
  type = codes "thing";
  attributes =
      record (plain_attribute (codes "temperature") (codes "float") (codes "1")) {
        metadata =
            attribute (plain_attribute (codes "TimeInstant") (codes "ISO8601") (codes "now"))
              no_attributes;
      }
      ∷ [];
}

set_env_info-IsPublished_example :
    let formatted = format entity in
    (static_element.id ≡ formatted.id)
    × (static_element.type ≡ formatted.type)
    × All (IsPublished static_element) static_element.attributes
unfolding set_env_info format format_type format_id own_type is_given add_device_statics
    device_statics add_service_statics service_statics add_static add_metadata add_attribute
    add_step with_type has_empty_value attr_mapping device_mapping service_mapping find str_eq
    str_below map_attribute read_attribute find_member get_string read_name read_type read_value
    read_metadatas render_identifier mapped_attribute mapped_type mapped_value new_attribute
    push_all or_empty_value get_str_value read_plain
set_env_info-IsPublished_example =
    set_env_info-IsPublished reading_valued 2 (codes "now") no_service (some sensor) entity
      static_element refl refl
