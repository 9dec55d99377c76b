-- ===== src/UltraLight/Ul20Service/Request.antt =====
-- src/ultra_light/ul20_service.cc: service, the handler of a device's request.
use fiware_io_tagent_cpluspl.Common.{
  ℕ, Bytes, codes, str_eq, Bool, true, false, ◌&&◌, ◌||◌, not, Option, none, some, List, [], ◌∷◌,
  ◌++◌, map, is_empty, if◌then◌else◌,
}
use fiware_io_tagent_cpluspl.Common.Outcome.{
  Outcome, returned, iota_exception, runtime_error, bad_cast, undefined, out_of_fuel, ◌>>=◌,
}
use fiware_io_tagent_cpluspl.Common.Int.{ℤ}
use fiware_io_tagent_cpluspl.Device.{Device, new_device}
use fiware_io_tagent_cpluspl.FuncUtil.Names.{check_forbidden_characters}
use fiware_io_tagent_cpluspl.FuncUtil.Query.{Kvp}
use fiware_io_tagent_cpluspl.IotUrl.{IotUrl, new_iot_url}
use fiware_io_tagent_cpluspl.MediaFilter.{iota_forbidden_characters}
use fiware_io_tagent_cpluspl.Ngsi.ContextElement.{ContextElement, Service}
use fiware_io_tagent_cpluspl.UltraLight.Ul20Service.{is_command_resp}

-- The variables that the loop over the query fills.
pub record Query : Type 0 where
  pub query_sbc : List Kvp
  pub device : Bytes
  pub new_endpoint : Bytes
  pub url_update : Bool
  pub apikey : Bytes
  pub content : Bytes
  pub get_cmd : Bool

abbrev pub no_query : Query
no_query = record {
  query_sbc = [];
  device = [];
  new_endpoint = [];
  url_update = false;
  apikey = [];
  content = [];
  get_cmd = false;
}

unfoldable pub add_sbc : Bytes → Bytes → Query → Query
add_sbc key value q = record q { query_sbc = q.query_sbc ++ ((key, value) ∷ []) }

unfoldable pub read_ip : Bytes → Query → Query
read_ip value q =
    if is_empty value
    then record q { new_endpoint = value }
    else add_sbc (codes "URL") value (record q { new_endpoint = value; url_update = true })

unfoldable pub add_content : Bytes → Query → Query
add_content value q = record q {
  content = (if is_empty q.content then [] else q.content ++ codes "#") ++ value;
}

-- One pair of the query; `is_get` is that the method is GET.
unfoldable pub read_pair : Bool → Kvp → Query → Query
read_pair is_get (key, value) q =
    if str_eq key (codes "i")
    then add_sbc (codes "ID") value (record q { device = value })
    else if str_eq key (codes "ip")
    then read_ip value q
    else if str_eq key (codes "k")
    then add_sbc (codes "apikey") value (record q { apikey = q.apikey ++ value })
    else if str_eq key (codes "d") && is_get
    then add_content value q
    else if str_eq key (codes "getCmd")
    then record q { get_cmd = true }
    else add_sbc key value q

unfoldable pub read_pairs : Bool → List Kvp → Query → Query
read_pairs is_get [] q = q
read_pairs is_get (pair ∷ query) q = read_pairs is_get query (read_pair is_get pair q)

-- What a request does outside the handler: a new endpoint is stored; an entity sent; a command that is
-- answered is cancelled, removed, and its response published; a command that is handed out is marked
-- as delivered in the cache and in the table, and published as delivered.
pub data Action : Type 0 where
  update_endpoint : Bytes → Action
  send : ContextElement → Action
  cancel : Bytes → Action
  remove_command : Bytes → Action
  respond : Bytes → Bytes → Action
  deliver : Bytes → Action
  mark_delivered : Bytes → Action
  publish_delivered : Bytes → Action

-- An action that was begun, and how it ended: the next ones follow when it returned.
unfoldable pub begun :
    Action
    → Outcome (Unit {0})
    → List Action × Outcome (Unit {0})
    → List Action × Outcome (Unit {0})
begun a (returned u) (actions, end) = (a ∷ actions, end)
begun a thrown rest = (a ∷ [], thrown)

-- Actions one after the other, by how each of them ends.
unfoldable pub perform_all :
    (Action → Outcome (Unit {0})) → List Action → List Action × Outcome (Unit {0})
perform_all ends [] = ([], returned tt)
perform_all ends (a ∷ actions) = begun a (ends a) (perform_all ends actions)

-- More is done when what was done returned.
unfoldable pub then_do :
    List Action × Outcome (Unit {0})
    → List Action × Outcome (Unit {0})
    → List Action × Outcome (Unit {0})
then_do (actions, returned u) (more, end) = (actions ++ more, end)
then_do (actions, thrown) rest = (actions, thrown)

abbrev pub bad_request {ℓ} : {A : Type ℓ} → Bytes → Outcome A
bad_request details = iota_exception (codes "The request is not well formed") details 400

-- The port of a new endpoint is read by atoi. A device that is not registered is made for the request.
unfoldable pub unknown_device : Query → Service → Device
unknown_device q service = record (new_device 0 q.device (service.get (codes "service") [])) {
  service_path = service.get (codes "service_path") [];
}

-- Only an endpoint that the device has already is replaced; it is stored when there is a database.
unfoldable pub move_endpoint : Bool → Query → Device → Device × List Action
move_endpoint is_mongo q dev =
    if is_empty dev.endpoint || str_eq dev.endpoint q.new_endpoint then (dev, []) else (
      record dev { endpoint = q.new_endpoint },
      if is_mongo then update_endpoint q.new_endpoint ∷ [] else [],
    )

unfoldable pub checked_endpoint : Bool → Query → Device → IotUrl → Outcome (Device × List Action)
checked_endpoint is_mongo q dev url =
    if is_empty url.host || is_empty url.protocol
    then bad_request (codes "Not a valid IP")
    else returned (move_endpoint is_mongo q dev)

unfoldable pub device_for :
    (Bytes → ℤ) → Bool → Query → Service → Option Device → Outcome (Device × List Action)
device_for atoi is_mongo q service none = returned (unknown_device q service, [])
device_for atoi is_mongo q service (some dev) =
    if not q.url_update
    then returned (dev, [])
    else if check_forbidden_characters iota_forbidden_characters q.new_endpoint
    then bad_request (codes "Invalid Characters")
    else new_iot_url atoi q.new_endpoint >>= checked_endpoint is_mongo q dev

-- What the request has: the content of its body, with `is_packed` for an encoding that is gzip or
-- deflate, or none.
pub data Content : Type 0 where
  no_content : Content
  body : Bool → Bytes → Content

-- A packed body is not unpacked: it counts as empty.
unfoldable pub content_of_request : Content → Query → Bytes
content_of_request no_content q = q.content
content_of_request (body is_packed text) q = if is_packed then [] else text

-- The response to a command, when the command is known.
unfoldable pub respond_to : Bytes → Option Bytes → Bytes → List Action
respond_to id none response = []
respond_to id (some command) response =
    cancel id ∷ remove_command id ∷ respond command response ∷ []

-- What is done with a content, or the exception of the translation or the search.
unfoldable pub actions_of :
    (Bytes → Device → List Kvp → Outcome (List ContextElement))
    → (Bytes → Outcome (Option Bytes))
    → Query
    → Device
    → Bytes
    → Outcome (List Action)
actions_of translate get_command q dev content = elim (is_command_resp content) [
  | none ↦ translate content dev q.query_sbc >>= λ elements. returned (map send elements)
  | some (response, id) ↦ get_command id >>= λ command. returned (respond_to id command response)
]

unfoldable pub perform_outcome :
    (Action → Outcome (Unit {0})) → Outcome (List Action) → List Action × Outcome (Unit {0})
perform_outcome ends (returned actions) = perform_all ends actions
perform_outcome ends (iota_exception reason details status) =
    ([], iota_exception reason details status)
perform_outcome ends (runtime_error what) = ([], runtime_error what)
perform_outcome ends bad_cast = ([], bad_cast)
perform_outcome ends undefined = ([], undefined)
perform_outcome ends out_of_fuel = ([], out_of_fuel)

-- `translate` is that of the measures, and `get_command` gives the name of a saved command.
unfoldable pub handle_content :
    (Bytes → Device → List Kvp → Outcome (List ContextElement))
    → (Bytes → Outcome (Option Bytes))
    → (Action → Outcome (Unit {0}))
    → Query
    → Device
    → Bytes
    → List Action × Outcome (Unit {0})
handle_content translate get_command ends q dev content =
    if is_empty content
    then ([], returned tt)
    else perform_outcome ends (actions_of translate get_command q dev content)

-- The end of the handler's `try` block: what was done and how it ended, and the device that commands
-- are asked for.
pub record Handled : Type 0 where
  pub done : List Action × Outcome (Unit {0})
  pub dev : Option Device

unfoldable pub after_device :
    (Device → List Action × Outcome (Unit {0}))
    → (Action → Outcome (Unit {0}))
    → Option Device
    → Outcome (Device × List Action)
    → Handled
after_device handle ends found (returned (dev, moves)) = record {
  done = then_do (perform_all ends moves) (handle dev);
  dev = some dev;
}
after_device handle ends found (iota_exception reason details status) = record {
  done = ([], iota_exception reason details status);
  dev = found;
}
after_device handle ends found (runtime_error what) = record {
  done = ([], runtime_error what);
  dev = found;
}
after_device handle ends found bad_cast = record { done = ([], bad_cast); dev = found }
after_device handle ends found undefined = record { done = ([], undefined); dev = found }
after_device handle ends found out_of_fuel = record { done = ([], out_of_fuel); dev = found }

-- The `try` block behind the search of the service: the device, and the content.
unfoldable pub handle :
    (Bytes → Device → List Kvp → Outcome (List ContextElement))
    → (Bytes → Outcome (Option Bytes))
    → (Action → Outcome (Unit {0}))
    → (Bytes → ℤ)
    → Bool
    → Query
    → Content
    → Service
    → Outcome (Option Device)
    → Handled
handle translate get_command ends atoi is_mongo q request service (returned found) =
    after_device
      (λ dev. handle_content translate get_command ends q dev (content_of_request request q)) ends
      found (device_for atoi is_mongo q service found)
handle translate get_command ends atoi is_mongo q request service (iota_exception r d status) =
    record { done = ([], iota_exception r d status); dev = none }
handle translate get_command ends atoi is_mongo q request service (runtime_error what) = record {
  done = ([], runtime_error what);
  dev = none;
}
handle translate get_command ends atoi is_mongo q request service bad_cast = record {
  done = ([], bad_cast);
  dev = none;
}
handle translate get_command ends atoi is_mongo q request service undefined = record {
  done = ([], undefined);
  dev = none;
}
handle translate get_command ends atoi is_mongo q request service out_of_fuel = record {
  done = ([], out_of_fuel);
  dev = none;
}

-- Every exception of the `try` block is caught: code_resp.
unfoldable pub code_of : Outcome (Unit {0}) → Outcome ℕ
code_of (returned u) = returned 200
code_of undefined = undefined
code_of out_of_fuel = out_of_fuel
code_of thrown = returned 400

-- The bodies of the commands, with a `#` between each two.
unfoldable pub join_commands : List Bytes → Bytes
join_commands [] = []
join_commands (text ∷ []) = text
join_commands (text ∷ next ∷ texts) = text ++ (35 ∷ join_commands (next ∷ texts))
