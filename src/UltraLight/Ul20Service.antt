-- ===== src/UltraLight/Ul20Service.antt =====
-- src/ultra_light/ul20_service.cc: commands and their responses, and the requests of devices.
pub mod Identifiers
pub mod Request
pub mod Answer
pub mod Commands
pub mod Performed
pub mod Delivered
pub mod Answered
mod Tests
use fiware_io_tagent_cpluspl.Common.{
  ℕ, Bytes, codes, str_eq, Bool, true, false, ◌&&◌, ◌||◌, not, Option, none, some, List, [], ◌∷◌,
  ◌++◌, any, is_empty, if◌then◌else◌, ◌==◌,
}
use fiware_io_tagent_cpluspl.Common.Outcome.{Outcome, returned, iota_exception, ◌>>=◌}
use fiware_io_tagent_cpluspl.CommandHandle.{
  Calls, raw, command_bad, json_value_to_ul, transform_command,
}
use fiware_io_tagent_cpluspl.Device.{Device}
use fiware_io_tagent_cpluspl.FuncUtil.Query.{url_decode}
use fiware_io_tagent_cpluspl.IotUrl.{cut}
use fiware_io_tagent_cpluspl.Ngsi.{Value}

-- The calls of Boost and of rapidjson.
pub record UlCalls : Type 0 where
  pub commands : Calls
  pub trim : Bytes → Bytes
  pub erase_all : Bytes → Bytes → Bytes
  pub starts_with : Bytes → Bytes → Bool
  pub parse : Bytes → Option Value

-- What stands before the first `|`, or the whole text.
unfoldable pub before_bar : Bytes → Bytes
before_bar text = elim (cut 124 text) [ none ↦ text | some (before, after) ↦ before ]

-- UL20Service::get_id_command
unfoldable pub get_id_command : Bytes → Bytes
get_id_command str_command =
    if any (◌==◌ 64) (before_bar str_command) then before_bar str_command else []

-- UL20Service::isCommandResp: the response and the identifier of a text that is one; `none` is -1.
unfoldable pub is_command_resp : Bytes → Option (Bytes × Bytes)
is_command_resp str_command_resp =
    let id_command = get_id_command str_command_resp in
    if is_empty id_command then none else some (str_command_resp, id_command)

-- The key and the value of a command behind its name.
unfoldable pub after_name : UlCalls → Bytes → Bytes
after_name lib value =
    if is_empty value
    then []
    else if lib.starts_with (codes "|") value
    then value
    else codes "|" ++ value

-- The body, by the value of the command in the device.
unfoldable pub ul_body : UlCalls → Bytes → Bytes → Bytes → Bytes → Device → Outcome Bytes
ul_body lib command_name value update sequence_id dev =
    if str_eq value raw
    then returned update
    else if not (is_empty value)
    then (transform_command lib.commands value update sequence_id >>= λ line. returned line.1)
    else returned (dev.name ++ (codes "@" ++ (command_name ++ after_name lib update)))

unfoldable pub ul_command_error : Bytes → Bytes
ul_command_error body =
    codes "UL20 Command is not correct, it must be  name_device@command_name, but it is " ++ body

unfoldable pub checked_command : Bytes → Outcome (Bytes × Bytes)
checked_command body = elim (is_command_resp body) [
  | none ↦ iota_exception command_bad (ul_command_error body) 400
  | some (response, id) ↦ returned (id, body)
]

-- UL20Service::transform_command: the identifier and the body.
unfoldable pub ul_transform_command :
    UlCalls → Bytes → Bytes → Bytes → Bytes → Device → Outcome (Bytes × Bytes)
ul_transform_command lib command_name command_value update_command_value sequence_id dev =
    json_value_to_ul lib.parse (lib.trim update_command_value) >>= λ update.
    ul_body lib command_name (lib.trim command_value) update sequence_id dev >>= checked_command

-- The text of a device's response, without its blanks and line ends.
unfoldable pub clean_response : UlCalls → Bytes → Bytes
clean_response lib text =
    lib.erase_all (lib.erase_all (lib.trim (url_decode text)) (10 ∷ [])) (13 ∷ [])

-- UL20Service::transform_response: whether the code is 200, and what is written to the response.
unfoldable pub transform_response : UlCalls → Bytes → Bool × Bytes
transform_response lib str_command_resp =
    let response = clean_response lib str_command_resp in
    elim (is_command_resp response) [
      | none ↦ (false, codes "no ul20 response command:" ++ response)
      | some (command_response, id) ↦ (true, command_response)
    ]
