-- ===== src/CommandHandle/Tests.antt =====
-- Runs of the handler of commands, and instances of its theorems.
use fiware_io_tagent_cpluspl.Common.{
  Bytes, codes, str_eq, bytes_key, Bool, true, false, Option, none, some, List, [], ◌∷◌, ◌++◌, map,
  ◌≡◌, ◌↔◌, refl, if◌then◌else◌, ◌==◌, All,
}
use fiware_io_tagent_cpluspl.Common.Outcome.{Outcome, returned}
use fiware_io_tagent_cpluspl.Device.{Device, new_device}
use fiware_io_tagent_cpluspl.Ngsi.Attribute.{no_attributes}
use fiware_io_tagent_cpluspl.Ngsi.ContextElement.{ContextElement, no_service}
use fiware_io_tagent_cpluspl.Ngsi.{string_value, object_value, no_members, member}
use fiware_io_tagent_cpluspl.CommandHandle.{
  Calls, json_value_to_ul, document_to_ul, members_to_ul, answered,
}
use fiware_io_tagent_cpluspl.CommandHandle.Update.{ContextResponse, Update, update_context}
use fiware_io_tagent_cpluspl.CommandHandle.Answers.{update_context-AreAnswers, IsProper}
use fiware_io_tagent_cpluspl.CommandHandle.Proper.{own_handler, own_handler-IsProper}

-- A splitting by `|` that keeps the last part, also when it is empty.
split_bar : Bytes → Bytes → List Bytes
split_bar [] part = part ∷ []
split_bar (c ∷ text) part = elim (c == 124) [
  | true ↦ part ∷ split_bar text []
  | false ↦ split_bar text (part ++ (c ∷ []))
]

abbrev lib : Calls
lib = record { split = λ text. split_bar text []; uuid = codes "u1" }

members_test :
    json_value_to_ul
      (λ text. some (
        object_value (
          member
            (codes "a")
            (string_value (codes "1"))
            (member (codes "b") (string_value (codes "2")) no_members))))
      (codes "{}")
    ≡ returned (codes "a=1|b=2")
unfolding json_value_to_ul document_to_ul members_to_ul
members_test = refl

abbrev dev : Device
dev = record (new_device 1 (codes "d1") (codes "s")) {
  commands = (codes "ping", codes "p%s") ∷ [];
  endpoint = codes "http://h";
}

only_dev : Bytes → Bytes → Outcome (Option Device)
only_dev id type = if str_eq id (codes "e1") then returned (some dev) else returned none

only_dev-IsProper : (id type : Bytes) → IsProper (only_dev id type)
unfolding only_dev
only_dev-IsProper id type = found (str_eq id (codes "e1"))
  where
    found : (known : Bool) → IsProper (if known then returned (some dev) else returned none)
    found true = tt
    found false = tt

abbrev ping : ContextElement
ping = record {
  id = codes "e1";
  type = codes "thing";
  is_pattern = codes "false";
  attributes =
      record {
        name = codes "ping";
        type = codes "command";
        value = codes "1";
        metadata = no_attributes;
        value_compound = no_attributes;
        compound_as_object = false;
      }
      ∷ [];
  service_info = no_service;
  device_info = none;
}

abbrev stranger : ContextElement
stranger = record ping { id = codes "e2" }

update_context-AreAnswers_example :
    (u : Update) × (update_context
        (own_handler lib 1 (answered 200 (codes "done")) (codes "7"))
        only_dev
        no_service
        (ping ∷ stranger ∷ [])
      ≡ some u)
    × (map (λ (r : ContextResponse). r.context_element) u.context_responses ≡ ping ∷ stranger ∷ [])
    × ((u.iresponse ≡ 200) ↔ All (λ (r : ContextResponse). r.code ≡ 200) u.context_responses)
update_context-AreAnswers_example =
    update_context-AreAnswers (own_handler lib 1 (answered 200 (codes "done")) (codes "7"))
      (own_handler-IsProper lib 1 (answered 200 (codes "done")) (codes "7")) only_dev
      only_dev-IsProper no_service (ping ∷ stranger ∷ [])
