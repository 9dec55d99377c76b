-- ===== src/UltraLight/Ul20Service/Answer.antt =====
-- src/ultra_light/ul20_service.cc and CommandHandle::get_all_command of src/rest/command_handle.cc: the
-- commands that a request takes with it, and its answer.
use fiware_io_tagent_cpluspl.Common.{
  ℕ, Bytes, Bool, ◌||◌, Option, none, some, List, [], ◌∷◌, ◌++◌, map, if◌then◌else◌,
}
use fiware_io_tagent_cpluspl.Common.Outcome.{Outcome, returned, undefined, out_of_fuel, ◌>>=◌}
use fiware_io_tagent_cpluspl.Common.Int.{ℤ}
use fiware_io_tagent_cpluspl.Device.{Device}
use fiware_io_tagent_cpluspl.FuncUtil.Query.{Kvp}
use fiware_io_tagent_cpluspl.Ngsi.ContextElement.{ContextElement, Service}
use fiware_io_tagent_cpluspl.UltraLight.Ul20Service.Request.{
  Query, no_query, read_pairs, Action, deliver, mark_delivered, publish_delivered, perform_all,
  Content, Handled, handle, code_of, join_commands,
}

-- A command of the cache that is ready for read.
pub record Waiting : Type 0 where
  pub id : Bytes
  pub name : Bytes
  pub body : Bytes

-- The loop over the commands: the table, and the context broker.
unfoldable pub tell_delivered : List Waiting → List Action
tell_delivered [] = []
tell_delivered (w ∷ waiting) =
    mark_delivered w.id ∷ publish_delivered w.name ∷ tell_delivered waiting

-- get_by_entityV marks all the commands that it finds before the loop.
unfoldable pub deliveries : List Waiting → List Action
deliveries waiting = map (λ (w : Waiting). deliver w.id) waiting ++ tell_delivered waiting

unfoldable pub deliver_all :
    (Action → Outcome (Unit {0})) → Outcome (List Waiting) → List Action × Outcome (List Waiting)
deliver_all ends (returned waiting) =
    let told : List Action × Outcome (Unit {0}) = perform_all ends (deliveries waiting) in
    (told.0, told.1 >>= λ u. returned waiting)
deliver_all ends thrown = ([], thrown)

-- CommandHandle::get_all_command; `waiting` searches the cache for the entity of the device.
unfoldable pub get_all_command :
    (Device → Outcome (List Waiting))
    → (Action → Outcome (Unit {0}))
    → Bool
    → Option Device
    → List Action × Outcome (List Waiting)
get_all_command waiting ends is_mongo none = ([], returned [])
get_all_command waiting ends is_mongo (some dev) =
    if is_mongo then deliver_all ends (waiting dev) else ([], returned [])

-- The searches of the handler's base class by the key, and by the name and the service, with what is
-- made of a content, and how each action of the request ends.
pub record Searches : Type 0 where
  pub translate : Bytes → Service → Device → List Kvp → Outcome (List ContextElement)
  pub get_command : Service → Bytes → Outcome (Option Bytes)
  pub get_service : Bytes → Outcome Service
  pub get_device : Bytes → Service → Outcome (Option Device)
  pub waiting : Service → Device → Outcome (List Waiting)
  pub ends : Action → Outcome (Unit {0})
  pub atoi : Bytes → ℤ

-- What the device gets.
pub record Response : Type 0 where
  pub status_code : ℕ
  pub response : Bytes

-- The answer, after the commands that were asked for: their search is outside the `try` block.
unfoldable pub respond_with :
    Handled → List Action × Outcome (List Waiting) → List Action × Outcome Response
respond_with h (told, found) = (
  h.done.0 ++ told,
  code_of h.done.1 >>= λ code. found >>= λ waiting. returned (record {
    status_code = code;
    response = join_commands (map (λ (w : Waiting). w.body) waiting);
  }),
)

-- The commands are asked for with GET or with getCmd.
unfoldable pub asked_commands :
    Searches → Bool → Bool → Service → Option Device → List Action × Outcome (List Waiting)
asked_commands s is_mongo asked found dev =
    if asked then get_all_command (s.waiting found) s.ends is_mongo dev else ([], returned [])

unfoldable pub with_commands :
    Searches → Bool → Bool → Service → Handled → List Action × Outcome Response
with_commands s is_mongo asked found h =
    respond_with h (asked_commands s is_mongo asked found h.dev)

-- The request, once its service is searched. Without a service there is no device, for which nothing is
-- asked.
unfoldable pub with_service :
    Searches → Bool → Bool → Query → Content → Outcome Service → List Action × Outcome Response
with_service s is_mongo asked q request (returned found) = with_commands s is_mongo asked found (
    handle (λ text dev sbc. s.translate text found dev sbc) (s.get_command found) s.ends s.atoi
      is_mongo q request found (s.get_device q.device found))
with_service s is_mongo asked q request undefined = ([], undefined)
with_service s is_mongo asked q request out_of_fuel = ([], out_of_fuel)
with_service s is_mongo asked q request thrown =
    ([], returned (record { status_code = 400; response = [] }))

unfoldable pub with_query :
    Searches → Bool → Bool → Query → Content → List Action × Outcome Response
with_query s is_mongo is_get q request =
    with_service s is_mongo (is_get || q.get_cmd) q request (s.get_service q.apikey)

-- UL20Service::service: what it did, in the order of the calls, and how it ended.
unfoldable pub service :
    Searches → Bool → Bool → List Kvp → Content → List Action × Outcome Response
service s is_mongo is_get query request =
    with_query s is_mongo is_get (read_pairs is_get query no_query) request
