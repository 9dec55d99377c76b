-- ===== src/Modbus/OperationProcessor/Kept.antt =====
-- src/modbus/operation_processor.cc: descriptions that were read, and later calls.
use fiware_io_tagent_cpluspl.Common.{
  Bytes, bytes_key, some, List, [], ◌∷◌, ◌≡◌, inl, inr, Option-cases,
}
use fiware_io_tagent_cpluspl.Common.Int.{ℤ}
use fiware_io_tagent_cpluspl.Common.Map.{Assoc, find, find-insert_present}
use fiware_io_tagent_cpluspl.Modbus.Mapped.{FloatPosition}
use fiware_io_tagent_cpluspl.Modbus.OperationProcessor.{
  Ptree, ParamsMap, ModbusOperationProcessor, read_operation, get_base_address, at, add_labels,
  labels_of,
}
use fiware_io_tagent_cpluspl.Modbus.OperationProcessor.Commands.{
  read_command, add_operation, add_command_as_operation,
}
use fiware_io_tagent_cpluspl.Modbus.OperationProcessor.Access.{
  get_operation, get_mapped_labels, get_command, get_mapped_parameters,
}
use fiware_io_tagent_cpluspl.Modbus.OperationProcessor.Calls.{Call, run, IsStable, run-stable}

find-at :
    {V : Type 0} (k j : Bytes) (fallback v : V) (m : Assoc Bytes V)
    → find j m ≡ some v
    → find j (at fallback k m).1 ≡ some v
unfolding at
find-at k j fallback v m h = elim (Option-cases (find k m)) [
  | inl e ↦ rw (e, at) (find-insert_present k j fallback v m h)
  | inr (w, e) ↦ rw (e, at) h
]

module _ {Tree Factor : Type 0} (pt : Ptree Tree Factor) (name : Bytes) (tree command : Tree)
    (labels : List (FloatPosition Factor)) where
  -- An operation, its labels and the command of the same name.
  abbrev pub Describes : ModbusOperationProcessor Tree Factor → Type 0
  Describes p =
      (find name p.operations ≡ some tree)
      × ((find name p.position_map ≡ some labels) × (find name p.commands ≡ some command))

  find-add_labels :
      (op : Bytes) (added : List (FloatPosition Factor))
      (m : Assoc Bytes (List (FloatPosition Factor)))
      → find name m ≡ some labels
      → find name (add_labels pt op added m) ≡ some labels
  unfolding add_labels
  find-add_labels op [] m h = h
  find-add_labels op (label ∷ added) m h = find-insert_present op name _ labels m h

  get_base_address-Describes :
      (k : Bytes) (p : ModbusOperationProcessor Tree Factor)
      → Describes p
      → Describes (get_base_address pt k p).1
  unfolding get_base_address
  get_base_address-Describes k p h = h

  add_operation-Describes :
      (k : Bytes) (params : ParamsMap) (called : ℤ × ModbusOperationProcessor Tree Factor)
      → Describes called.1
      → Describes (add_operation pt k params called)
  unfolding add_operation
  add_operation-Describes k [] (address, p) h = h
  add_operation-Describes k ((a, first) ∷ rest) (address, p) h = (
    find-insert_present k name _ tree p.operations h.0,
    (find-insert_present k name _ labels p.position_map h.1.0, h.1.1),
  )

  add_command-Describes :
      (k : Bytes) (p : ModbusOperationProcessor Tree Factor)
      → Describes p
      → Describes (add_command_as_operation pt k p)
  unfolding add_command_as_operation
  add_command-Describes k p h = elim (Option-cases (find k p.commands)) [
    | inl e ↦ rw (e, add_command_as_operation) h
    | inr (found, e) ↦ elim (Option-cases (find k p.ordered_parameters_map)) [
      | inl f ↦ rw (e, f, add_command_as_operation) h
      | inr (params, f) ↦
          rw (e, f, add_command_as_operation)
            (add_operation-Describes k params _ (get_base_address-Describes k p h))
    ]
  ]

  Describes-IsStable : IsStable pt Describes
  unfolding read_operation read_command get_operation get_mapped_labels get_command
      get_mapped_parameters
  Describes-IsStable = record {
    on_operation = λ op v p h. (
      find-insert_present op name v tree p.operations h.0,
      (find-add_labels op (labels_of pt v) p.position_map h.1.0, h.1.1),
    );
    on_config = λ config p h. h;
    on_command = λ op v p h.
        add_command-Describes op _
          (h.0, (h.1.0, find-insert_present op name v command p.commands h.1.1));
    on_question = λ k p h. (
      (find-at k name pt.empty tree p.operations h.0, h.1),
      (
        (h.0, (find-at k name [] labels p.position_map h.1.0, h.1.1)),
        (
          (h.0, (h.1.0, find-at k name pt.empty command p.commands h.1.1)),
          (h, get_base_address-Describes k p h),
        ),
      ),
    );
  }

  -- An operation, labels and a command that a processor has under a name stay as they are after any
  -- calls: a later description of the name does not replace them.
  pub run-Describes :
      (calls : List Call) (p : ModbusOperationProcessor Tree Factor)
      → Describes p
      → Describes (run pt calls p)
  run-Describes = run-stable pt Describes Describes-IsStable
