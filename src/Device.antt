-- ===== src/Device.antt =====
-- src/util/device.h: the `Device` record, its equality, its index keys and its copy constructor.
pub mod Copy
mod Tests
use fiware_io_tagent_cpluspl.Common.{
  ℕ, Bytes, codes, str_eq, bytes_key, Bool, true, false, not, ◌&&◌, List, [], ◌∷◌, ◌++◌, is_empty,
  if◌then◌else◌, ◌==◌,
}
use fiware_io_tagent_cpluspl.Common.Int.{ℤ, pos, negsuc}
use fiware_io_tagent_cpluspl.Common.Map.{Assoc, insert}

-- `address` is the object that a shared pointer to the device points at.
pub record Device : Type 0 where
  pub address : ℕ
  pub name : Bytes
  pub protocol : Bytes
  pub service : Bytes
  pub service_path : Bytes
  pub entity_type : Bytes
  pub entity_name : Bytes
  pub timezone : Bytes
  pub endpoint : Bytes
  pub attributes : Assoc Bytes Bytes
  pub commands : Assoc Bytes Bytes
  pub static_attributes : Assoc Bytes Bytes
  pub lazy : Assoc Bytes Bytes
  pub model : Bytes
  pub active : ℤ
  pub registration_id : Bytes
  pub duration_cb : ℤ
  pub timestamp_data : ℤ

abbrev pub int_min : ℤ
int_min = negsuc 0x7FFFFFFF

abbrev pub long_min : ℤ
long_min = negsuc 0x7FFFFFFFFFFFFFFF

abbrev pub minus_one : ℤ
minus_one = negsuc 0

unfoldable pub int_eq : ℤ → ℤ → Bool
int_eq (pos a) (pos b) = a == b
int_eq (pos a) (negsuc b) = false
int_eq (negsuc a) (pos b) = false
int_eq (negsuc a) (negsuc b) = a == b

-- Device::Device(name, service)
unfoldable pub new_device : ℕ → Bytes → Bytes → Device
new_device address name service = record {
  address = address;
  name = name;
  protocol = [];
  service = service;
  service_path = [];
  entity_type = [];
  entity_name = [];
  timezone = [];
  endpoint = [];
  attributes = [];
  commands = [];
  static_attributes = [];
  lazy = [];
  model = [];
  active = int_min;
  registration_id = [];
  duration_cb = long_min;
  timestamp_data = minus_one;
}

-- Device::Device(entity_name, entity_type, service)
unfoldable pub new_entity : ℕ → Bytes → Bytes → Bytes → Device
new_entity address entity_name entity_type service = record (new_device address [] service) {
  entity_name = entity_name;
  entity_type = entity_type;
}

-- The loops of the copy constructor over the three maps.
unfoldable pub copy_entries : Assoc Bytes Bytes → Assoc Bytes Bytes → Assoc Bytes Bytes
copy_entries [] copied = copied
copy_entries ((key, value) ∷ entries) copied = copy_entries entries (insert key value copied)

-- A field of the copy starts empty, and takes the other's value where that has one.
unfoldable pub copy_text : Bytes → Bytes
copy_text text = if not (is_empty text) then text else []

unfoldable pub copy_int : ℤ → ℤ → ℤ
copy_int unset n = if not (int_eq n unset) then n else unset

-- Device::Device(dev), for the object at `address`
unfoldable pub copy : ℕ → Device → Device
copy address dev = record {
  address = address;
  name = copy_text dev.name;
  protocol = copy_text dev.protocol;
  service = copy_text dev.service;
  service_path = copy_text dev.service_path;
  entity_type = copy_text dev.entity_type;
  entity_name = copy_text dev.entity_name;
  timezone = copy_text dev.timezone;
  endpoint = copy_text dev.endpoint;
  attributes = copy_entries dev.attributes [];
  commands = copy_entries dev.commands [];
  static_attributes = copy_entries dev.static_attributes [];
  lazy = [];
  model = copy_text dev.model;
  active = copy_int int_min dev.active;
  registration_id = copy_text dev.registration_id;
  duration_cb = copy_int long_min dev.duration_cb;
  timestamp_data = copy_int minus_one dev.timestamp_data;
}

-- Device::operator==
unfoldable pub same_device : Device → Device → Bool
same_device d a = str_eq d.name a.name && str_eq d.service a.service

-- Device::unique_entity
unfoldable pub unique_entity : Device → Bytes
unique_entity d =
    d.service
    ++ (codes ":"
        ++ (d.service_path
            ++ (codes ":"
                ++ (d.entity_name ++ (codes ":" ++ (d.entity_type ++ (codes ":" ++ d.protocol)))))))

-- Device::unique_name
unfoldable pub unique_name : Device → Bytes
unique_name d = d.name

-- Device::get_real_name; `get key other` is the read of the service's property tree.
unfoldable pub get_real_name : (Bytes → Bytes → Bytes) → Device → Bytes
get_real_name get d =
    let service_entity_type = get (codes "entity_type") [] in
    let entity_type =
      if not (is_empty d.entity_type) && not (str_eq d.entity_type (codes "default"))
      then d.entity_type
      else if not (is_empty service_entity_type)
      then service_entity_type
      else codes "thing" in
    if not (is_empty d.entity_name) && not (str_eq d.entity_name (codes "default"))
    then d.entity_name
    else (entity_type ++ (codes ":" ++ d.name))
