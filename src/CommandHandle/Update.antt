-- ===== src/CommandHandle/Update.antt =====
-- src/rest/command_handle.cc: updateContext, the answer for each entity of a request.
use fiware_io_tagent_cpluspl.Common.{
  ℕ, Bytes, codes, str_eq, Option, none, some, List, [], ◌∷◌, ◌++◌, is_empty, if◌then◌else◌,
}
use fiware_io_tagent_cpluspl.Common.Outcome.{
  Outcome, returned, iota_exception, runtime_error, bad_cast, undefined, out_of_fuel,
}
use fiware_io_tagent_cpluspl.Device.{Device}
use fiware_io_tagent_cpluspl.Ngsi.Attribute.{Attribute}
use fiware_io_tagent_cpluspl.Ngsi.ContextElement.{ContextElement, Service}
use fiware_io_tagent_cpluspl.CommandHandle.{Effect}

pub record ContextResponse : Type 0 where
  pub context_element : ContextElement
  pub code : ℕ
  pub reason : Bytes
  pub details : Bytes

-- The code of the call, the response for the entity at hand, and what was done so far.
pub record Progress : Type 0 where
  pub iresponse : ℕ
  pub res : ContextResponse
  pub effects : List Effect

-- How the loop over the attributes ends: at its end, with an exception that is no IotaException, or
-- with what has no meaning.
pub data Loop : Type 0 where
  finished : Progress → Loop
  thrown : Progress → Bytes → Loop
  lost : Loop

-- An error for the call and for the response.
unfoldable pub fail : ℕ → Bytes → Bytes → Progress → Progress
fail status reason details p = record p {
  iresponse = status;
  res = record {
    context_element = p.res.context_element;
    code = status;
    reason = reason;
    details = details;
  };
}

unfoldable pub with_effects : List Effect → Progress → Progress
with_effects effects p = record p { effects = p.effects ++ effects }

-- The command of one attribute, by what updateCommand ends with.
unfoldable pub note_command : Outcome (Unit {0}) × List Effect → Progress → Loop
note_command (returned done, effects) p = finished (with_effects effects p)
note_command (iota_exception reason details status, effects) p =
    finished (fail status reason details (with_effects effects p))
note_command (runtime_error what, effects) p = thrown (with_effects effects p) what
note_command (bad_cast, effects) p = thrown (with_effects effects p) (codes "std::bad_cast")
note_command (undefined, effects) p = lost
note_command (out_of_fuel, effects) p = lost

-- What updateCommand does for a name, a value, a device and a type of entity.
abbrev pub Handler : Type 0
Handler = Bytes → Bytes → Device → Bytes → Outcome (Unit {0}) × List Effect

unfoldable pub note_attribute : Handler → Device → Bytes → Attribute → Progress → Loop
note_attribute update_command dev entity_type att p =
    if str_eq att.type (codes "command")
    then note_command (update_command att.name att.value dev entity_type) p
    else finished (fail 400 (codes "The attribute must be of type command") att.name p)

unfoldable pub note_attributes : Handler → Device → Bytes → List Attribute → Progress → Loop
note_attributes update_command dev entity_type [] p = finished p
note_attributes update_command dev entity_type (att ∷ atts) p =
    elim (note_attribute update_command dev entity_type att p) [
      | finished q ↦ note_attributes update_command dev entity_type atts q
      | thrown q what ↦ thrown q what
      | lost ↦ lost
    ]

unfoldable pub no_item_dev : Bytes → Bytes → Bytes
no_item_dev id service =
    codes "CommandHandle::updateContext NO exists item_dev "
    ++ (id ++ (codes " of service:" ++ service))

-- The attributes of an entity, by what get_device_by_entity ends with.
unfoldable pub note_entity :
    Handler → Service → ContextElement → Outcome (Option Device) → Progress → Loop
note_entity update_command service entity (returned none) p = finished (
    fail 404 (codes "The given device is not registered in IotAgent")
      (no_item_dev entity.id (service.get (codes "service") [])) p)
note_entity update_command service entity (returned (some dev)) p =
    note_attributes update_command dev
      (if is_empty dev.entity_type then service.get (codes "entity_type") [] else dev.entity_type)
      entity.attributes p
note_entity update_command service entity (iota_exception reason details status) p =
    finished (fail status reason details p)
note_entity update_command service entity (runtime_error what) p = thrown p what
note_entity update_command service entity bad_cast p = thrown p (codes "std::bad_cast")
note_entity update_command service entity undefined p = lost
note_entity update_command service entity out_of_fuel p = lost

-- catch (std::exception& e)
unfoldable pub caught_in_update : Loop → Option Progress
caught_in_update (finished p) = some p
caught_in_update (thrown p what) =
    some (fail 500 (codes "Conctact with your administrator, there was an internal error") what p)
caught_in_update lost = none

unfoldable pub new_response : ContextElement → ContextResponse
new_response entity = record {
  context_element = entity;
  code = 200;
  reason = codes "OK";
  details = [];
}

-- What is returned, the responses in their order, and what was done.
pub record Update : Type 0 where
  pub iresponse : ℕ
  pub context_responses : List ContextResponse
  pub effects : List Effect

unfoldable pub add_response : Update → Option Progress → Option Update
add_response u none = none
add_response u (some p) = some (record {
  iresponse = p.iresponse;
  context_responses = u.context_responses ++ (p.res ∷ []);
  effects = p.effects;
})

-- One entity.
unfoldable pub update_entity :
    Handler
    → (Bytes → Bytes → Outcome (Option Device))
    → Service
    → ContextElement
    → Update
    → Option Update
update_entity update_command get_device_by_entity service entity u = add_response u (
    caught_in_update (
      note_entity update_command service entity (get_device_by_entity entity.id entity.type)
        (record { iresponse = u.iresponse; res = new_response entity; effects = u.effects })))

unfoldable pub update_entities :
    Handler
    → (Bytes → Bytes → Outcome (Option Device))
    → Service
    → List ContextElement
    → Update
    → Option Update
update_entities update_command get_device_by_entity service [] u = some u
update_entities update_command get_device_by_entity service (entity ∷ entities) u =
    elim (update_entity update_command get_device_by_entity service entity u) [
      | none ↦ none
      | some w ↦ update_entities update_command get_device_by_entity service entities w
    ]

-- CommandHandle::updateContext, on responses that are empty; `none` where a command has no meaning.
unfoldable pub update_context :
    Handler
    → (Bytes → Bytes → Outcome (Option Device))
    → Service
    → List ContextElement
    → Option Update
update_context update_command get_device_by_entity service entities =
    update_entities update_command get_device_by_entity service entities
      (record { iresponse = 200; context_responses = []; effects = [] })
