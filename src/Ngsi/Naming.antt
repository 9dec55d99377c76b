-- ===== src/Ngsi/Naming.antt =====
-- src/ngsi/ContextElement.cc: the identifier and the type that an entity takes from its device and
-- its service.
use fiware_io_tagent_cpluspl.Common.{
  Bytes, true, false, Option, none, some, [], ◌≡◌, refl, ap, ◌∙◌, is_empty, arith,
}
use fiware_io_tagent_cpluspl.Device.{Device, get_real_name}
use fiware_io_tagent_cpluspl.Ngsi.ContextElement.{
  ContextElement, is_given, own_type, format_type, format_id, format,
}

own_type_nonempty : (c : ContextElement) → is_empty (own_type c) ≡ false
unfolding own_type
own_type_nonempty c = ground arith

format_type_nonempty :
    (device : Option Device) (c : ContextElement) → is_empty (format_type device c) ≡ false
unfolding format_type is_given
format_type_nonempty none c = own_type_nonempty c
format_type_nonempty (some d) c = ground (arith, own_type_nonempty c)

own_type_of_type : (c : ContextElement) → is_empty c.type ≡ false → own_type c ≡ c.type
unfolding own_type
own_type_of_type c h = ground (arith, h)

format_type_again :
    (device : Option Device) (c d : ContextElement)
    → d.type ≡ format_type device c
    → format_type device d ≡ format_type device c
unfolding format_type
format_type_again none c d e = ground (arith, own_type_of_type d, format_type_nonempty none c)
format_type_again (some device) c d e = ground (arith, own_type_of_type d, own_type_nonempty c)

format_id_again :
    (device : Option Device) (type other : Bytes) (c d : ContextElement)
    → is_empty d.type ≡ false
    → d.id ≡ format_id device type c
    → format_id device other d ≡ format_id device type c
unfolding format_id
format_id_again none type other c d h e = ground (arith, h)
format_id_again (some device) type other c d h e = ground (arith, h)

-- Formatting an entity a second time changes nothing.
pub format_idempotent : (c : ContextElement) → format (format c) ≡ format c
unfolding format
format_idempotent c =
    let type_same = format_type_again c.device_info c (format c) refl in
    let id_same =
      format_id_again c.device_info (format_type c.device_info c)
        (format_type c.device_info (format c)) c (format c) (format_type_nonempty c.device_info c)
        refl in
    λ i. record c { id = id_same i; type = type_same i }

real_name_lem :
    (c : ContextElement) (d : Device)
    → is_empty c.type ≡ true
    → format_id (some d) (format_type (some d) c) c ≡ get_real_name c.service_info.get d
unfolding format_id format_type own_type is_given get_real_name
real_name_lem c d e = ground (arith, e)

-- An entity that was made without a type takes, when its device is set, the identifier that the
-- device's own `get_real_name` gives for the same service, whatever identifier it was made with.
pub format-get_real_name :
    (c : ContextElement) (d : Device)
    → c.type ≡ []
    → c.device_info ≡ some d
    → (format c).id ≡ get_real_name c.service_info.get d
unfolding format
format-get_real_name c d e f =
    ap (λ (o : Option Device). format_id o (format_type o c) c) f
    ∙ real_name_lem c d (ap is_empty e)
