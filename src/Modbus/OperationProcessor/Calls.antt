-- ===== src/Modbus/OperationProcessor/Calls.antt =====
-- The calls of a processor, and what every call keeps when its steps do.
use fiware_io_tagent_cpluspl.Common.{
  Bytes, codes, bytes_key, Bool, true, false, Option, none, some, List, [], ◌∷◌, inl, inr,
  Option-cases,
}
use fiware_io_tagent_cpluspl.Modbus.OperationProcessor.{
  Ptree, ModbusOperationProcessor, read_operation, read_each, read_config, read, get_base_address,
}
use fiware_io_tagent_cpluspl.Modbus.OperationProcessor.Commands.{
  read_command, read_each_command, read_commands, read_operations,
}
use fiware_io_tagent_cpluspl.Modbus.OperationProcessor.Access.{
  get_operation, get_mapped_labels, get_command, get_mapped_parameters,
}

pub data Call : Type 0 where
  file_read : Option Bytes → Call
  operation_asked : Bytes → Call
  labels_asked : Bytes → Call
  command_asked : Bytes → Call
  parameters_asked : Bytes → Call
  address_asked : Bytes → Call

module _ {Tree Factor : Type 0} (pt : Ptree Tree Factor) where
  unfoldable pub perform :
      Call → ModbusOperationProcessor Tree Factor → ModbusOperationProcessor Tree Factor
  perform (file_read text) p = (read_operations pt text p).0
  perform (operation_asked k) p = (get_operation pt k p).1
  perform (labels_asked k) p = (get_mapped_labels pt k p).1
  perform (command_asked k) p = (get_command pt k p).1
  perform (parameters_asked k) p = (get_mapped_parameters pt k p).1
  perform (address_asked k) p = (get_base_address pt k p).1

  unfoldable pub run :
      List Call → ModbusOperationProcessor Tree Factor → ModbusOperationProcessor Tree Factor
  run [] p = p
  run (call ∷ calls) p = run calls (perform call p)

  -- What holds before a step of a call holds after it.
  pub record IsStable (P : ModbusOperationProcessor Tree Factor → Type 0) : Type 0 where
    pub on_operation :
        (op : Bytes) (v : Tree) (p : ModbusOperationProcessor Tree Factor)
        → P p
        → P (read_operation pt op v p)
    pub on_config :
        (config : Tree) (p : ModbusOperationProcessor Tree Factor)
        → P p
        → P (record p { config = config })
    pub on_command :
        (op : Bytes) (v : Tree) (p : ModbusOperationProcessor Tree Factor)
        → P p
        → P (read_command pt op v p)
    pub on_question :
        (k : Bytes) (p : ModbusOperationProcessor Tree Factor)
        → P p
        → P (get_operation pt k p).1
          × (P (get_mapped_labels pt k p).1
              × (P (get_command pt k p).1
                  × (P (get_mapped_parameters pt k p).1 × P (get_base_address pt k p).1)))

module _ {Tree Factor : Type 0} (pt : Ptree Tree Factor)
    (P : ModbusOperationProcessor Tree Factor → Type 0) (stable : IsStable pt P) where
  read_each-stable :
      (trees : List Tree) (p : ModbusOperationProcessor Tree Factor)
      → P p
      → P (read_each pt trees p).0
  unfolding read_each
  read_each-stable [] p h = h
  read_each-stable (v ∷ trees) p h = elim (Option-cases (pt.get (codes "operation") v)) [
    | inl e ↦ rw (e, read_each) h
    | inr (op, e) ↦ rw (e, read_each) (read_each-stable trees _ (stable.on_operation op v p h))
  ]

  read_config-stable :
      (root : Tree) (result : ModbusOperationProcessor Tree Factor × Bool)
      → P result.0
      → P (read_config pt root result).0
  unfolding read_config
  read_config-stable root (p, true) h = h
  read_config-stable root (p, false) h = elim (Option-cases (pt.get_child (codes "config") root)) [
    | inl e ↦ rw (e, read_config) h
    | inr (config, e) ↦ rw (e, read_config) (stable.on_config config p h)
  ]

  read-stable :
      (text : Bytes) (p : ModbusOperationProcessor Tree Factor) → P p → P (read pt text p).0
  unfolding read
  read-stable text p h = elim (Option-cases (pt.read_json text)) [
    | inl e ↦ rw (e, read) h
    | inr (root, e) ↦ elim (Option-cases (pt.get_child (codes "operations") root)) [
      | inl f ↦ rw (e, f, read) h
      | inr (operations, f) ↦
          rw (e, f, read)
            (read_config-stable root _ (read_each-stable (pt.children operations) p h))
    ]
  ]

  read_each_command-stable :
      (trees : List Tree) (p : ModbusOperationProcessor Tree Factor)
      → P p
      → P (read_each_command pt trees p).0
  unfolding read_each_command
  read_each_command-stable [] p h = h
  read_each_command-stable (v ∷ trees) p h = elim (Option-cases (pt.get (codes "name") v)) [
    | inl e ↦ rw (e, read_each_command) h
    | inr (op, e) ↦
        rw (e, read_each_command) (read_each_command-stable trees _ (stable.on_command op v p h))
  ]

  read_commands-stable :
      (text : Bytes) (p : ModbusOperationProcessor Tree Factor)
      → P p
      → P (read_commands pt text p).0
  unfolding read_commands
  read_commands-stable text p h = elim (Option-cases (pt.read_json text)) [
    | inl e ↦ rw (e, read_commands) h
    | inr (root, e) ↦ elim (Option-cases (pt.get_child (codes "commands") root)) [
      | inl f ↦ rw (e, f, read_commands) h
      | inr (commands, f) ↦
          rw (e, f, read_commands) (read_each_command-stable (pt.children commands) p h)
    ]
  ]

  perform-stable :
      (call : Call) (p : ModbusOperationProcessor Tree Factor) → P p → P (perform pt call p)
  unfolding perform read_operations
  perform-stable (file_read none) p h = h
  perform-stable (file_read (some text)) p h = read_commands-stable text _ (read-stable text p h)
  perform-stable (operation_asked k) p h = (stable.on_question k p h).0
  perform-stable (labels_asked k) p h = (stable.on_question k p h).1.0
  perform-stable (command_asked k) p h = (stable.on_question k p h).1.1.0
  perform-stable (parameters_asked k) p h = (stable.on_question k p h).1.1.1.0
  perform-stable (address_asked k) p h = (stable.on_question k p h).1.1.1.1

  pub run-stable :
      (calls : List Call) (p : ModbusOperationProcessor Tree Factor) → P p → P (run pt calls p)
  unfolding run
  run-stable [] p h = h
  run-stable (call ∷ calls) p h = run-stable calls (perform pt call p) (perform-stable call p h)
