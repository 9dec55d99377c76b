-- ===== src/Modbus/OperationProcessor/Access.antt =====
-- What the client asks of the processor. A question with `[]` on a map puts an empty value where there
-- is none.
use fiware_io_tagent_cpluspl.Common.{
  ℕ, Bytes, codes, bytes_key, List, [], ◌∷◌, ◌++◌, if◌then◌else◌, suc, zero, ltb,
}
use fiware_io_tagent_cpluspl.Common.Int.{int_key}
use fiware_io_tagent_cpluspl.Common.Map.{Assoc}
use fiware_io_tagent_cpluspl.Modbus.Mapped.{FloatPosition}
use fiware_io_tagent_cpluspl.Modbus.OperationProcessor.{
  Ptree, CommandParameter, ParamsMap, ModbusOperationProcessor, at,
}

module _ {Tree Factor : Type 0} (pt : Ptree Tree Factor) where
  unfoldable pub get_operation :
      Bytes → ModbusOperationProcessor Tree Factor → Tree × ModbusOperationProcessor Tree Factor
  get_operation operation p =
      let found : Tree × Assoc Bytes Tree = at pt.empty operation p.operations in
      (found.0, record p { operations = found.1 })

  unfoldable pub get_mapped_labels :
      Bytes
      → ModbusOperationProcessor Tree Factor
      → List (FloatPosition Factor) × ModbusOperationProcessor Tree Factor
  get_mapped_labels operation p =
      let found : List (FloatPosition Factor) × Assoc Bytes (List (FloatPosition Factor)) =
        at [] operation p.position_map in
      (found.0, record p { position_map = found.1 })

  unfoldable pub get_command :
      Bytes → ModbusOperationProcessor Tree Factor → Tree × ModbusOperationProcessor Tree Factor
  get_command command p =
      let found : Tree × Assoc Bytes Tree = at pt.empty command p.commands in
      (found.0, record p { commands = found.1 })

  abbrev pub values_of : ParamsMap → List CommandParameter
  values_of [] = []
  values_of ((address, param) ∷ params) = param ∷ values_of params

  unfoldable pub get_mapped_parameters :
      Bytes
      → ModbusOperationProcessor Tree Factor
      → List CommandParameter × ModbusOperationProcessor Tree Factor
  get_mapped_parameters command p =
      let found : ParamsMap × Assoc Bytes ParamsMap = at [] command p.ordered_parameters_map in
      (values_of found.0, record p { ordered_parameters_map = found.1 })

  unfoldable pub protocol_command : Bytes → Bytes
  protocol_command k =
      codes "{\"name\": \"" ++ (k ++ codes "\", \"type\": \"command\", \"value\": \"\"}")

  -- The loop over the commands, with `i` and `res`.
  unfoldable pub add_protocol_commands : Assoc Bytes Tree → ℕ → Bytes → Bytes × ℕ
  add_protocol_commands [] i res = (res, i)
  add_protocol_commands ((k, tree) ∷ commands) i res =
      add_protocol_commands commands (suc i)
        ((if ltb 0 i then res ++ codes "," else res) ++ protocol_command k)

  abbrev protocol_text : Bytes × ℕ → Bytes
  protocol_text (res, zero) = []
  protocol_text (res, suc i) = res ++ codes "]}"

  unfoldable pub get_protocol_commands : ModbusOperationProcessor Tree Factor → Bytes
  get_protocol_commands p =
      protocol_text (add_protocol_commands p.commands 0 (codes "{\"commands\":["))
