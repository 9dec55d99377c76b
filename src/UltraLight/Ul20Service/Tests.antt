-- ===== src/UltraLight/Ul20Service/Tests.antt =====
-- Runs of the handler of devices' requests, and instances of its theorems.
use fiware_io_tagent_cpluspl.Common.{
  Bytes, Avoids, codes, str_eq, Bool, true, false, none, some, [], ◌∷◌, ◌++◌, ◌≡◌, ◌↔◌, refl, any,
  ◌==◌, arith, Option-cases, inl, inr,
}
use fiware_io_tagent_cpluspl.Common.Int.{pos}
use fiware_io_tagent_cpluspl.Common.Outcome.{returned, runtime_error}
use fiware_io_tagent_cpluspl.CommandHandle.{json_value_to_ul, document_to_ul}
use fiware_io_tagent_cpluspl.IotUrl.{cut}
use fiware_io_tagent_cpluspl.Device.{Device, new_device}
use fiware_io_tagent_cpluspl.Ngsi.ContextElement.{no_service}
use fiware_io_tagent_cpluspl.UltraLight.Ul20Service.{
  UlCalls, after_name, get_id_command, before_bar, is_command_resp, ul_transform_command, ul_body,
  checked_command,
}
use fiware_io_tagent_cpluspl.UltraLight.Ul20Service.Identifiers.{
  ul_transform_command-IsIdentifier, ul_transform_command-of_unset,
}
use fiware_io_tagent_cpluspl.UltraLight.Ul20Service.Request.{
  no_query, no_content, body, content_of_request, join_commands, deliver, mark_delivered,
  publish_delivered, read_pairs, read_pair, add_sbc, add_content, perform_all, begun, handle,
  after_device, then_do, handle_content, perform_outcome, actions_of, device_for, code_of,
}
use fiware_io_tagent_cpluspl.UltraLight.Ul20Service.Answer.{
  Searches, service, with_query, with_service, with_commands, respond_with, asked_commands,
  get_all_command, deliver_all, deliveries, tell_delivered,
}
use fiware_io_tagent_cpluspl.UltraLight.Ul20Service.Commands.{service-of_measures}
use fiware_io_tagent_cpluspl.Common.Find.{after_prefix, after_prefix-eq_some, after_prefix-append}

starts_with : Bytes → Bytes → Bool
starts_with a b = elim (after_prefix b a) [ none ↦ false | some rest ↦ true ]

starts_with_iff : (a b : Bytes) → (starts_with a b ≡ true) ↔ ((rest : Bytes) × (a ≡ b ++ rest))
unfolding starts_with
starts_with_iff a b = (
  λ e. elim (Option-cases (after_prefix b a)) [
    | inl missing ↦ absurd (not_without missing e)
    | inr (rest, found) ↦ (rest, after_prefix-eq_some b a rest found)
  ],
  λ (rest, e). rw (e, after_prefix-append b rest, starts_with) refl,
)
  where
    not_without : after_prefix b a ≡ none → starts_with a b ≡ true → ⊥
    not_without missing e = ground (arith, missing, e)

abbrev lib : UlCalls
lib = record {
  commands = record { split = λ text. text ∷ []; uuid = codes "u1" };
  trim = λ text. text;
  erase_all = λ text part. text;
  starts_with = starts_with;
  parse = λ text. none;
}

abbrev dev : Device
dev = new_device 1 (codes "d1") (codes "s")

-- Parameters that begin with a `|` get another one: the arguments of starts_with are exchanged.
after_name_test : after_name lib (codes "|1") ≡ codes "||1"
unfolding after_name starts_with after_prefix
after_name_test = refl

-- A packed body counts as empty.
content_of_request_test : content_of_request (body true (codes "x")) no_query ≡ []
unfolding content_of_request
content_of_request_test = refl

join_commands_test : join_commands (codes "a" ∷ codes "b" ∷ []) ≡ codes "a#b"
unfolding join_commands
join_commands_test = refl

ul_transform_command-of_unset_example :
    ul_transform_command lib (codes "ping") [] (codes "5") [] dev
    ≡ returned (codes "d1@ping", codes "d1@ping|5")
unfolding new_device json_value_to_ul document_to_ul str_eq
ul_transform_command-of_unset_example =
    ul_transform_command-of_unset lib starts_with_iff (codes "ping") [] (codes "5") [] dev
      (codes "5") refl refl (omega arith, (omega arith, tt))
      (omega arith, (omega arith, (omega arith, (omega arith, tt))))

ul_transform_command-IsIdentifier_example :
    (any (◌==◌ 64) (codes "d1@ping") ≡ true)
    × Avoids 124 (codes "d1@ping")
    × (is_command_resp (codes "d1@ping" ++ after_name lib (codes "5"))
        ≡ some (codes "d1@ping" ++ after_name lib (codes "5"), codes "d1@ping"))
    × ((result : Bytes)
        → is_command_resp (codes "d1@ping" ++ (124 ∷ result))
          ≡ some (codes "d1@ping" ++ (124 ∷ result), codes "d1@ping"))
unfolding ul_transform_command ul_body checked_command is_command_resp get_id_command before_bar cut
    json_value_to_ul document_to_ul new_device after_name starts_with after_prefix str_eq
ul_transform_command-IsIdentifier_example =
    ul_transform_command-IsIdentifier lib (codes "ping") [] (codes "5") [] dev (codes "d1@ping")
      (codes "d1@ping" ++ after_name lib (codes "5")) refl

abbrev searches : Searches
searches = record {
  translate = λ text found d sbc. runtime_error text;
  get_command = λ found id. returned none;
  get_service = λ key. returned no_service;
  get_device = λ name found. returned (some dev);
  waiting = λ found d.
      returned
        (record { id = codes "d1@ping"; name = codes "ping"; body = codes "d1@ping|5" } ∷ []);
  ends = λ a. returned tt;
  atoi = λ text. pos 0;
}

-- A refused GET hands out its commands all the same.
service_test :
    service searches true true ((codes "i", codes "d1") ∷ (codes "d", codes "t|1") ∷ []) no_content
    ≡ (
      deliver (codes "d1@ping")
          ∷ mark_delivered (codes "d1@ping")
          ∷ publish_delivered (codes "ping")
          ∷ [],
      returned (record { status_code = 400; response = codes "d1@ping|5" }),
    )
unfolding service with_query with_service with_commands respond_with asked_commands get_all_command
    deliver_all deliveries tell_delivered perform_all begun handle after_device then_do
    handle_content perform_outcome actions_of device_for content_of_request code_of join_commands
    is_command_resp get_id_command before_bar cut read_pairs read_pair add_sbc add_content str_eq
    new_device
service_test = refl

service-of_measures_example :
    service searches true true
      ((codes "i", codes "d1") ∷ (codes "d", codes "t|1") ∷ (codes "d", codes "h|2") ∷ [])
      no_content
    ≡ service searches true false
        ((codes "i", codes "d1") ∷ (codes "getCmd", []) ∷ [])
        (body false (codes "t|1#h|2"))
unfolding str_eq
service-of_measures_example =
    service-of_measures searches true ((codes "i", codes "d1") ∷ []) (codes "t|1")
      (codes "h|2" ∷ []) [] (refl, tt) refl
