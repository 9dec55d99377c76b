-- ===== src/Modbus/OperationProcessor/Commands.antt =====
-- ModbusOperationProcessor::read_commands, with the read operations that it makes of commands.
use fiware_io_tagent_cpluspl.Common.{
  ℕ, Bytes, codes, bytes_key, str_eq, Bool, true, false, ◌||◌, Option, none, some, List, [], ◌∷◌,
  map, length, if◌then◌else◌,
}
use fiware_io_tagent_cpluspl.Common.Int.{ℤ, pos, int_key}
use fiware_io_tagent_cpluspl.Common.Map.{Assoc, find, insert}
use fiware_io_tagent_cpluspl.Modbus.Mapped.{FloatPosition}
use fiware_io_tagent_cpluspl.Modbus.OperationProcessor.{
  Ptree, CommandParameter, ParamsMap, ModbusOperationProcessor, or_default, get_base_address, read,
}

module _ {Tree Factor : Type 0} (pt : Ptree Tree Factor) where
  -- The parameters of a command by their addresses: `none` when one has no address or no name.
  unfoldable pub read_parameters : List Tree → ParamsMap → Option ParamsMap
  read_parameters [] m = some m
  read_parameters (v ∷ trees) m = elim (pt.get_int (codes "address") v) [
    | none ↦ none
    | some address ↦ elim (pt.get (codes "name") v) [
      | none ↦ none
      | some name ↦ read_parameters trees (
          insert address
            (record {
              base_address = address;
              num_positions = or_default 1 (pt.get_unsigned_short (codes "positions") v);
              name = name;
              type_name = or_default (codes "numeric") (pt.get (codes "type") v);
            })
            m)
    ]
  ]

  unfoldable pub parameters_of : Tree → Option ParamsMap
  parameters_of v = elim (pt.get_child (codes "parameters") v) [
    | none ↦ none
    | some parameters ↦ read_parameters (pt.children parameters) []
  ]

  unfoldable pub add_parameters :
      Bytes → Option ParamsMap → Assoc Bytes ParamsMap → Assoc Bytes ParamsMap
  add_parameters op none m = m
  add_parameters op (some []) m = m
  add_parameters op (some (param ∷ params)) m = insert op (param ∷ params) m

  -- A parameter of type string or numeric gives the operation its type and number of positions.
  unfoldable pub is_sized : Bytes → Bool
  is_sized type_name = str_eq type_name (codes "string") || str_eq type_name (codes "numeric")

  -- pt_operation, with the fields in the order they are put.
  unfoldable pub operation_of : Bytes → ℤ → CommandParameter → ℕ → Tree
  operation_of command address first registers =
      let named =
        pt.put (codes "modbusOperation") (pt.int_text (pos 3))
          (pt.put (codes "operation") command pt.empty) in
      let placed = pt.put (codes "modbusAddress") (pt.int_text address) named in
      let typed =
        if is_sized first.type_name
        then pt.put (codes "modbusRegisterType") first.type_name placed
        else placed in
      let positions = if is_sized first.type_name then first.num_positions else registers in
      pt.put (codes "modbusNumberOfRegisters") (pt.int_text (pos registers))
        (pt.put (codes "modbusNumberOfPositions") (pt.int_text (pos positions)) typed)

  abbrev pub parameter_label : ℤ × CommandParameter → FloatPosition Factor
  parameter_label (address, param) = record {
    name = param.name;
    factor = pt.one;
    precision = pos 0;
  }

  unfoldable pub add_operation :
      Bytes
      → ParamsMap
      → ℤ × ModbusOperationProcessor Tree Factor
      → ModbusOperationProcessor Tree Factor
  add_operation command [] (base_address, p) = p
  add_operation command ((address, first) ∷ rest) (base_address, p) = record p {
    operations =
        insert command (operation_of command base_address first (length ((address, first) ∷ rest)))
          p.operations;
    position_map = insert command (map parameter_label ((address, first) ∷ rest)) p.position_map;
  }

  unfoldable pub add_command_as_operation :
      Bytes → ModbusOperationProcessor Tree Factor → ModbusOperationProcessor Tree Factor
  add_command_as_operation command p = elim (find command p.commands) [
    | none ↦ p
    | some tree ↦ elim (find command p.ordered_parameters_map) [
      | none ↦ p
      | some params ↦ add_operation command params (get_base_address pt command p)
    ]
  ]

  unfoldable pub read_command :
      Bytes → Tree → ModbusOperationProcessor Tree Factor → ModbusOperationProcessor Tree Factor
  read_command op v p = add_command_as_operation op (record p {
    commands = insert op v p.commands;
    ordered_parameters_map = add_parameters op (parameters_of v) p.ordered_parameters_map;
  })

  unfoldable pub read_each_command :
      List Tree → ModbusOperationProcessor Tree Factor → ModbusOperationProcessor Tree Factor × Bool
  read_each_command [] p = (p, false)
  read_each_command (v ∷ trees) p = elim (pt.get (codes "name") v) [
    | none ↦ (p, true)
    | some op ↦ read_each_command trees (read_command op v p)
  ]

  unfoldable pub read_commands :
      Bytes → ModbusOperationProcessor Tree Factor → ModbusOperationProcessor Tree Factor × Bool
  read_commands json p = elim (pt.read_json json) [
    | none ↦ (p, true)
    | some root ↦ elim (pt.get_child (codes "commands") root) [
      | none ↦ (p, true)
      | some commands ↦ read_each_command (pt.children commands) p
    ]
  ]

  -- The text of the file, or that it cannot be read. The alarms are the two flags.
  unfoldable pub read_operations :
      Option Bytes
      → ModbusOperationProcessor Tree Factor
      → ModbusOperationProcessor Tree Factor × (Bool × Bool)
  read_operations none p = (p, (false, false))
  read_operations (some text) p =
      let first : ModbusOperationProcessor Tree Factor × Bool = read pt text p in
      let second : ModbusOperationProcessor Tree Factor × Bool = read_commands text first.0 in
      (second.0, (first.1, second.1))
