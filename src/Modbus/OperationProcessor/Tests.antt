-- ===== src/Modbus/OperationProcessor/Tests.antt =====
-- Runs of the processor over small property trees, and instances of its theorems.
use fiware_io_tagent_cpluspl.Common.{
  ℕ, Bytes, codes, bytes_key, str_eq, str_eq_self, false, Option, none, some, List, [], ◌∷◌, ◌≡◌,
  refl, is_empty, if◌then◌else◌,
}
use fiware_io_tagent_cpluspl.Common.Int.{pos, negsuc}
use fiware_io_tagent_cpluspl.Common.Map.{find, insert}
use fiware_io_tagent_cpluspl.Modbus.OperationProcessor.{
  Ptree, ModbusOperationProcessor, new_processor, get_base_address, read, read_each, read_config,
  read_operation, add_labels, labels_of, at,
}
use fiware_io_tagent_cpluspl.Modbus.OperationProcessor.Commands.{
  add_command_as_operation, read_commands, read_each_command, read_command, add_parameters,
  parameters_of, read_parameters, add_operation, read_operations,
}
use fiware_io_tagent_cpluspl.Modbus.OperationProcessor.Access.{
  get_mapped_parameters, get_protocol_commands, add_protocol_commands, protocol_command,
}
use fiware_io_tagent_cpluspl.Modbus.OperationProcessor.Calls.{
  Call, run, file_read, operation_asked, address_asked,
}
use fiware_io_tagent_cpluspl.Modbus.OperationProcessor.Ordered.{
  IsAscending, first_base, run-IsAscending,
}
use fiware_io_tagent_cpluspl.Modbus.OperationProcessor.Kept.{Describes, run-Describes}
use fiware_io_tagent_cpluspl.Modbus.OperationProcessor.Agreement.{
  IsPutGet, Agrees, add_command_as_operation-Agrees,
}

-- Fields before a value.
data Json : Type 0 where
  leaf : Bytes → Json
  field : Bytes → Json → Json → Json

abbrev child_of : Bytes → Json → Option Json
child_of k (leaf text) = none
child_of k (field j t rest) = if str_eq k j then some t else child_of k rest

abbrev children_of : Json → List Json
children_of (leaf text) = []
children_of (field j t rest) = t ∷ children_of rest

abbrev text_of : Json → Bytes
text_of (leaf text) = text
text_of (field j t rest) = []

abbrev text_at : Bytes → Json → Option Bytes
text_at k t = elim (child_of k t) [ none ↦ none | some u ↦ some (text_of u) ]

abbrev first_code : Option Bytes → Option ℕ
first_code none = none
first_code (some []) = none
first_code (some (c ∷ text)) = some c

abbrev parameter : Bytes → Bytes → Json
parameter address name =
    field (codes "address") (leaf address) (field (codes "name") (leaf name) (leaf []))

abbrev sample : Json
sample =
    field (codes "operations")
      (field []
        (field (codes "operation") (leaf (codes "ask")) (
          field (codes "positions")
            (field []
              (field (codes "name") (leaf (codes "t"))
                (field (codes "factor") (leaf (codes "0.01")) (leaf [])))
              (leaf []))
            (leaf [])))
        (leaf []))
      (field (codes "commands")
        (field []
          (field (codes "name") (leaf (codes "set")) (
            field (codes "parameters")
              (field [] (parameter (codes "9") (codes "b"))
                (field [] (parameter (codes "2") (codes "a")) (leaf [])))
              (leaf [])))
          (leaf []))
        (leaf []))

abbrev json : Ptree Json Bytes
json = record {
  empty = leaf [];
  read_json = λ text. if is_empty text then none else some sample;
  get_child = child_of;
  children = children_of;
  data_of = text_of;
  get = text_at;
  get_float = text_at;
  get_int = λ k t. elim (first_code (text_at k t)) [ none ↦ none | some n ↦ some (pos n) ];
  get_unsigned_short = λ k t. first_code (text_at k t);
  put = λ k v t. field k (leaf v) t;
  int_text = λ n. elim n [ pos a ↦ a ∷ [] | negsuc a ↦ 45 ∷ a ∷ [] ];
  one = codes "1";
}

text_at-put : (k v : Bytes) (t : Json) → text_at k (field k (leaf v) t) ≡ some v
text_at-put k v t = rw (str_eq_self k, text_at) refl

text_at-put_other :
    (k j v : Bytes) (t : Json) → str_eq k j ≡ false → text_at k (field j (leaf v) t) ≡ text_at k t
text_at-put_other k j v t h = rw (h, text_at) refl

json-IsPutGet : IsPutGet json
json-IsPutGet = record {
  get_put = λ k v t plain. text_at-put k v t;
  get_put_other = λ k j v t plain plain_too h. text_at-put_other k j v t h;
}

abbrev calls : List Call
calls =
    operation_asked (codes "set") ∷ file_read (some (codes "{}")) ∷ address_asked (codes "x") ∷ []

abbrev after_reading : ModbusOperationProcessor Json Bytes
after_reading = (read_operations json (some (codes "{}")) (new_processor json)).0

-- The parameters stand in another order in the file.
parameters_of_sample :
    (get_mapped_parameters json (codes "set") after_reading).0
    ≡ record {
      base_address = pos 50;
      num_positions = 1;
      name = codes "a";
      type_name = codes "numeric";
    }
      ∷ record {
        base_address = pos 57;
        num_positions = 1;
        name = codes "b";
        type_name = codes "numeric";
      }
      ∷ []
unfolding read_operations read read_each read_config read_operation add_labels labels_of
    read_commands read_each_command read_command add_parameters parameters_of read_parameters
    add_command_as_operation add_operation get_mapped_parameters get_base_address at find insert
    str_eq
parameters_of_sample = refl

protocol_commands_of_sample :
    get_protocol_commands json after_reading
    ≡ codes "{\"commands\":[{\"name\": \"set\", \"type\": \"command\", \"value\": \"\"}]}"
unfolding read_operations read read_each read_config read_operation add_labels labels_of
    read_commands read_each_command read_command add_parameters parameters_of read_parameters
    add_command_as_operation add_operation get_protocol_commands get_base_address at find insert
    str_eq add_protocol_commands protocol_command
protocol_commands_of_sample = refl

run-IsAscending_example :
    IsAscending json
      (get_mapped_parameters json (codes "set") (run json calls (new_processor json))).0
    × ((get_base_address json (codes "set") (run json calls (new_processor json))).0
        ≡ first_base json
            (get_mapped_parameters json (codes "set") (run json calls (new_processor json))).0)
run-IsAscending_example = run-IsAscending json calls (codes "set")

abbrev two_parameters : ModbusOperationProcessor Json Bytes
two_parameters = record {
  operations = [];
  position_map = [];
  commands = (codes "set", leaf []) ∷ [];
  ordered_parameters_map =
      (
        codes "set",
        (
          pos 2,
          record {
            base_address = pos 2;
            num_positions = 1;
            name = codes "a";
            type_name = codes "numeric";
          },
        )
            ∷ (
              pos 9,
              record {
                base_address = pos 9;
                num_positions = 1;
                name = codes "b";
                type_name = codes "numeric";
              },
            )
            ∷ [],
      )
      ∷ [];
  config = leaf [];
}

add_command_as_operation-Agrees_example :
    Agrees json
      (codes "set")
      (pos 2)
      (find (codes "set") (add_command_as_operation json (codes "set") two_parameters).operations)
      (find (codes "set") (add_command_as_operation json (codes "set") two_parameters).position_map)
unfolding find str_eq
add_command_as_operation-Agrees_example =
    add_command_as_operation-Agrees json json-IsPutGet (codes "set") two_parameters (leaf [])
      (pos 2) _ _ refl refl refl refl

abbrev described : ModbusOperationProcessor Json Bytes
described = record {
  operations = (codes "ask", leaf (codes "kept")) ∷ [];
  position_map = (codes "ask", []) ∷ [];
  commands = (codes "ask", leaf []) ∷ [];
  ordered_parameters_map = [];
  config = leaf [];
}

described-Describes : Describes json (codes "ask") (leaf (codes "kept")) (leaf []) [] described
unfolding find str_eq
described-Describes = (refl, (refl, refl))

run-Describes_example :
    Describes json (codes "ask") (leaf (codes "kept")) (leaf []) [] (run json calls described)
run-Describes_example =
    run-Describes json (codes "ask") (leaf (codes "kept")) (leaf []) [] calls described
      described-Describes
