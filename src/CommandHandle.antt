-- ===== src/CommandHandle.antt =====
-- src/rest/command_handle.cc: a command on its way from the context broker to a device and back.
pub mod Template
pub mod Agreement
pub mod Update
pub mod Answers
pub mod Proper
mod Tests
use fiware_io_tagent_cpluspl.Common.{
  ℕ, zero, suc, ◌+◌, ◌-◌, ◌*◌, Bytes, codes, str_eq, bytes_key, Bool, true, false, ◌&&◌, ◌||◌, not,
  Option, none, some, List, [], ◌∷◌, ◌++◌, length, take, is_empty, if◌then◌else◌, ltb, leb, ◌==◌,
}
use fiware_io_tagent_cpluspl.Common.Int.{ℤ, pos, negsuc}
use fiware_io_tagent_cpluspl.Common.Find.{cut_text}
use fiware_io_tagent_cpluspl.Common.Map.{Assoc, find}
use fiware_io_tagent_cpluspl.Common.Outcome.{
  invalid_parameter, Outcome, returned, iota_exception, runtime_error, bad_cast, undefined,
  out_of_fuel, ◌>>=◌,
}
use fiware_io_tagent_cpluspl.Device.{Device, get_real_name}
use fiware_io_tagent_cpluspl.Ngsi.{
  Value, null_value, bool_value, number_value, string_value, array_value, object_value, Members,
  no_members, member,
}
use fiware_io_tagent_cpluspl.Ngsi.Attribute.{Attribute}
use fiware_io_tagent_cpluspl.Ngsi.ContextElement.{ContextElement, Service}

-- types::RESPONSE_MESSAGE_COMMAND_BAD
abbrev pub command_bad : Bytes
command_bad = codes "this is not a valid command"

-- types::RAW
abbrev pub raw : Bytes
raw = codes "@@RAW@@"

-- boost::split by `|`, and the identifier that boost::uuids makes.
pub record Calls : Type 0 where
  pub split : Bytes → List Bytes
  pub uuid : Bytes

-- std::count(text.begin(), text.end(), c)
unfoldable pub count : ℕ → Bytes → ℕ
count c [] = 0
count c (d ∷ text) = if d == c then suc (count c text) else count c text

-- The `while` loop: each `%s` of what is left of the value takes the next parameter. Without one it
-- reads beyond the vector.
unfoldable pub fill : List Bytes → Bytes → Outcome Bytes
fill [] value = elim (cut_text (codes "%s") value) [
  | none ↦ returned value
  | some parts ↦ undefined
]
fill (param ∷ params) value = elim (cut_text (codes "%s") value) [
  | none ↦ returned value
  | some (before, after) ↦ fill params after >>= λ rest. returned (before ++ (param ++ rest))
]

unfoldable pub malformed : Bytes → Bytes → Bytes
malformed command_value update_command_value =
    codes "malformed command "
    ++ (command_value
        ++ (codes " in relation with "
            ++ (update_command_value ++ codes ".%s is replaced with  | value")))

-- What is put as the body of the command.
unfoldable pub command_body : List Bytes → Bytes → Bytes → Outcome Bytes
command_body params command_value update_command_value =
    if is_empty command_value || str_eq command_value raw
    then returned update_command_value
    else if count 37 command_value == 0
    then returned command_value
    else if ltb (length params) (count 37 command_value)
    then iota_exception invalid_parameter (malformed command_value update_command_value) 400
    else fill params command_value

-- CommandHandle::transform_command: the identifier and the body.
unfoldable pub transform_command : Calls → Bytes → Bytes → Bytes → Outcome (Bytes × Bytes)
transform_command lib command_value update_command_value sequence_id =
    command_body (lib.split update_command_value) command_value update_command_value >>= λ body.
    returned (if is_empty sequence_id then lib.uuid else sequence_id, body)

-- The loop over the members of the document.
unfoldable pub members_to_ul : Bytes → Members → Outcome Bytes
members_to_ul json_value no_members = returned []
members_to_ul json_value (member name (string_value text) no_members) =
    returned (name ++ (61 ∷ text))
members_to_ul json_value (member name (string_value text) (member next value others)) =
    members_to_ul json_value (member next value others) >>= λ rest.
    returned (name ++ (61 ∷ (text ++ (124 ∷ rest))))
members_to_ul json_value (member name value others) = iota_exception command_bad json_value 400

-- A document that is no object fails the assertion of MemberBegin.
unfoldable pub document_to_ul : Bytes → Option Value → Outcome Bytes
document_to_ul json_value none = returned json_value
document_to_ul json_value (some (object_value members)) = members_to_ul json_value members
document_to_ul json_value (some value) = undefined

-- CommandHandle::json_value_to_ul; `parse` is rapidjson's.
unfoldable pub json_value_to_ul : (Bytes → Option Value) → Bytes → Outcome Bytes
json_value_to_ul parse json_value =
    if is_empty json_value then returned [] else document_to_ul json_value (parse json_value)

-- What a command does outside the handler, in the order of the calls: it is published with a
-- status, saved, removed, or marked as delivered.
pub data Effect : Type 0 where
  publish : Bytes → Bytes → Option Bytes → Effect
  save : Bytes → Bytes → Bytes → Bytes → Effect
  remove : Bytes → Effect
  mark_delivered : Bytes → Effect

-- CommandData, as far as it differs between the commands of one handler.
pub record CommandData : Type 0 where
  pub command_name : Bytes
  pub command_id : Bytes
  pub command_to_send : Bytes
  pub endpoint : Bytes

abbrev pub pending : Bytes
pending = codes "pending"

abbrev pub delivered : Bytes
delivered = codes "delivered"

abbrev pub executed : Bytes
executed = codes "OK"

abbrev pub error_status : Bytes
error_status = codes "error"

-- CommandHandle::is_push_type_of_command
unfoldable pub is_push_type_of_command : Device → Bool
is_push_type_of_command dev = not (is_empty dev.endpoint)

-- CommandHandle::process_command_response; `updated` is the number of rows that the table of
-- commands counts as updated, 1 without one.
unfoldable pub process_command_response : ℕ → CommandData → ℕ → Bytes → List Effect
process_command_response updated c res_code resp_cmd =
    if res_code == 200
    then remove c.command_id
      ∷ publish c.command_name executed (if is_empty resp_cmd then none else some resp_cmd)
      ∷ []
    else if res_code == 202
    then mark_delivered c.command_id
      ∷ (if ltb 0 updated then publish c.command_name delivered none ∷ [] else [])
    else remove c.command_id ∷ publish c.command_name error_status (some resp_cmd) ∷ []

-- A failed search of getCommandLine.
unfoldable pub no_device : Bytes → Bytes
no_device command_name = codes "no Device for command " ++ command_name

unfoldable pub no_command : Bytes → Bytes → Bytes
no_command name command_name =
    codes "Device " ++ (name ++ (codes " has not a command called " ++ command_name))

-- CommandHandle::getCommandLine, with the virtual transform_command of the service.
unfoldable pub get_command_line :
    (Bytes → Bytes → Bytes → Bytes → Device → Outcome (Bytes × Bytes))
    → Bytes
    → Bytes
    → Bytes
    → Option Device
    → Outcome (Bytes × Bytes)
get_command_line transform command_name update_command_value sequence_id none =
    iota_exception invalid_parameter (no_device command_name) 400
get_command_line transform command_name update_command_value sequence_id (some dev) =
    if is_empty command_name
    then iota_exception invalid_parameter (codes "need specify a command ") 400
    else elim (find command_name dev.commands) [
      | none ↦
          iota_exception (codes "the device does not have implemented this command")
            (no_command dev.name command_name) 404
      | some value ↦ transform command_name value update_command_value sequence_id dev
    ]

-- What execute_command ends with: the code and the response, or an exception. With a callback the
-- response comes later. `interrupted` is a response whose handling a std::runtime_error ended after as
-- many of its calls as the first number.
pub data Execution : Type 0 where
  answered : ℕ → Bytes → Execution
  later : Execution
  failed : Execution
  interrupted : ℕ → ℕ → Bytes → Execution

-- The response of the device; a std::runtime_error is caught, and nothing more is done. Exceptions of
-- other classes, which leave updateCommand, are left out.
unfoldable pub push_effects : ℕ → CommandData → Execution → List Effect
push_effects updated c (answered res_code resp_cmd) =
    process_command_response updated c res_code resp_cmd
push_effects updated c later = []
push_effects updated c failed = []
push_effects updated c (interrupted calls res_code resp_cmd) =
    take calls (process_command_response updated c res_code resp_cmd)

-- save_command: a command without an identifier is refused.
unfoldable pub saved_then : CommandData → Bytes → List Effect → Outcome (Unit {0}) × List Effect
saved_then c name effects =
    if is_empty c.command_id
    then (
      iota_exception invalid_parameter
          (codes "command is is empty " ++ (c.command_name ++ (codes " of device " ++ name))) 400,
      publish c.command_name pending none ∷ [],
    )
    else (
      returned tt,
      publish c.command_name pending none
          ∷ save c.command_id c.command_name c.command_to_send c.endpoint
          ∷ effects,
    )

-- CommandHandle::updateCommand, after the line is there.
unfoldable pub run_command : ℕ → Execution → Device → CommandData → Outcome (Unit {0}) × List Effect
run_command updated execution dev c =
    saved_then c dev.name
      (if is_push_type_of_command dev then push_effects updated c execution else [])

unfoldable pub with_line :
    ℕ → Execution → Bytes → Device → Outcome (Bytes × Bytes) → Outcome (Unit {0}) × List Effect
with_line updated execution command_name dev (returned (command_id, body)) =
    run_command updated execution dev (record {
      command_name = command_name;
      command_id = command_id;
      command_to_send = body;
      endpoint = dev.endpoint;
    })
with_line updated execution command_name dev (iota_exception reason details status) =
    (iota_exception reason details status, [])
with_line updated execution command_name dev (runtime_error what) = (runtime_error what, [])
with_line updated execution command_name dev bad_cast = (bad_cast, [])
with_line updated execution command_name dev undefined = (undefined, [])
with_line updated execution command_name dev out_of_fuel = (out_of_fuel, [])

-- CommandHandle::updateCommand
unfoldable pub update_command :
    (Bytes → Bytes → Bytes → Bytes → Device → Outcome (Bytes × Bytes))
    → ℕ
    → Execution
    → Bytes
    → Bytes
    → Bytes
    → Device
    → Outcome (Unit {0}) × List Effect
update_command transform updated execution command_name parameters sequence dev =
    with_line updated execution command_name dev
      (get_command_line transform command_name parameters sequence (some dev))
