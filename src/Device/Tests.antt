-- ===== src/Device/Tests.antt =====
-- Runs of the device's constructors, and an instance of its theorem.
use fiware_io_tagent_cpluspl.Common.{str_eq, str_below, Bytes, codes, bytes_key, ◌≡◌, refl, [], ◌∷◌}
use fiware_io_tagent_cpluspl.Common.Int.{pos}
use fiware_io_tagent_cpluspl.Device.{Device, new_device, copy, unique_entity, get_real_name}
use fiware_io_tagent_cpluspl.Device.Copy.{copy-all_but_lazy}

abbrev thermometer : Device
unfolding new_device
thermometer = record (new_device 1 (codes "dev1") (codes "serv")) {
  service_path = codes "/a";
  entity_type = codes "default";
  attributes = (codes "h", codes "humidity") ∷ (codes "t", codes "temperature") ∷ [];
  lazy = (codes "l", codes "light") ∷ [];
  active = pos 1;
}

unique_entity_test : unique_entity thermometer ≡ codes "serv:/a::default:"
unfolding unique_entity thermometer
unique_entity_test = refl

get_real_name_test :
    get_real_name (λ (key other : Bytes). codes "sensor") thermometer ≡ codes "sensor:dev1"
unfolding get_real_name thermometer str_eq
get_real_name_test = refl

copy-all_but_lazy_example : copy 2 thermometer ≡ record thermometer { address = 2; lazy = [] }
unfolding thermometer str_below
copy-all_but_lazy_example = copy-all_but_lazy 2 thermometer ((refl, tt), (tt, tt)) tt tt
