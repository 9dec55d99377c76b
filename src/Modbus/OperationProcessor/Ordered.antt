-- ===== src/Modbus/OperationProcessor/Ordered.antt =====
-- src/modbus/operation_processor.cc: the order of the parameters of a command.
use fiware_io_tagent_cpluspl.Common.{
  Bytes, codes, bytes_key, str_eq, str_below, true, Option, none, some, List, [], ◌∷◌,
  if◌then◌else◌, ◌≡◌, refl, sym, ap, ◌∙◌, inl, inr, Option-cases, if-both,
}
use mathlib.Core.Path.{subst}
use fiware_io_tagent_cpluspl.Common.Int.{ℤ, negsuc, int_key, int_same, int_below}
use fiware_io_tagent_cpluspl.Common.Map.{Assoc, find, insert, IsOrdered, Above, insert-IsOrdered}
use fiware_io_tagent_cpluspl.Modbus.OperationProcessor.{
  Ptree, CommandParameter, ParamsMap, ModbusOperationProcessor, read_operation, get_base_address,
  at, new_processor, first_address,
}
use fiware_io_tagent_cpluspl.Modbus.OperationProcessor.Commands.{
  read_command, read_parameters, parameters_of, add_parameters, add_operation,
  add_command_as_operation,
}
use fiware_io_tagent_cpluspl.Modbus.OperationProcessor.Access.{
  get_operation, get_mapped_labels, get_command, get_mapped_parameters, values_of,
}
use fiware_io_tagent_cpluspl.Modbus.OperationProcessor.Calls.{Call, run, IsStable, run-stable}

-- Every parameter is under its own address.
abbrev AreAt : ParamsMap → Type 0
AreAt [] = Unit
AreAt ((address, param) ∷ m) = (param.base_address ≡ address) × AreAt m

abbrev IsParams : ParamsMap → Type 0
IsParams m = IsOrdered m × AreAt m

abbrev AllParams : Assoc Bytes ParamsMap → Type 0
AllParams [] = Unit
AllParams ((k, params) ∷ m) = IsParams params × AllParams m

abbrev OnSome : Option ParamsMap → Type 0
OnSome none = Unit
OnSome (some m) = IsParams m

insert-AreAt :
    (param : CommandParameter) (m : ParamsMap) → AreAt m → AreAt (insert param.base_address param m)
unfolding insert
insert-AreAt param [] h = (refl, tt)
insert-AreAt param ((a, q) ∷ m) h =
    if-both AreAt (int_same param.base_address a) ((a, q) ∷ m)
      (if int_below param.base_address a
        then (param.base_address, param) ∷ (a, q) ∷ m
        else (a, q) ∷ insert param.base_address param m)
      (λ _. h)
      (λ _.
        if-both AreAt (int_below param.base_address a) ((param.base_address, param) ∷ (a, q) ∷ m)
          ((a, q) ∷ insert param.base_address param m) (λ _. (refl, h))
          (λ _. (h.0, insert-AreAt param m h.1)))

insert-AllParams :
    (k : Bytes) (params : ParamsMap) (m : Assoc Bytes ParamsMap)
    → IsParams params
    → AllParams m
    → AllParams (insert k params m)
unfolding insert
insert-AllParams k params [] g h = (g, tt)
insert-AllParams k params ((j, w) ∷ m) g h =
    if-both AllParams (str_eq k j) ((j, w) ∷ m)
      (if str_below k j then (k, params) ∷ (j, w) ∷ m else (j, w) ∷ insert k params m) (λ _. h)
      (λ _.
        if-both AllParams (str_below k j) ((k, params) ∷ (j, w) ∷ m) ((j, w) ∷ insert k params m)
          (λ _. (g, h)) (λ _. (h.0, insert-AllParams k params m g h.1)))

find-OnSome : (k : Bytes) (m : Assoc Bytes ParamsMap) → AllParams m → OnSome (find k m)
unfolding find
find-OnSome k [] h = tt
find-OnSome k ((j, w) ∷ m) h =
    if-both OnSome (str_eq k j) (some w) (if str_below k j then none else find k m) (λ _. h.0)
      (λ _. if-both OnSome (str_below k j) none (find k m) (λ _. tt) (λ _. find-OnSome k m h.1))

at-AllParams :
    (k : Bytes) (m : Assoc Bytes ParamsMap)
    → AllParams m
    → IsParams (at [] k m).0 × AllParams (at [] k m).1
unfolding at
at-AllParams k m h = elim (Option-cases (find k m)) [
  | inl e ↦ rw (e, at) ((tt, tt), insert-AllParams k [] m (tt, tt) h)
  | inr (params, e) ↦ rw (e, at) (subst OnSome e (find-OnSome k m h), h)
]

module _ {Tree Factor : Type 0} (pt : Ptree Tree Factor) where
  read_parameters-OnSome :
      (trees : List Tree) (m : ParamsMap) → IsParams m → OnSome (read_parameters pt trees m)
  unfolding read_parameters
  read_parameters-OnSome [] m h = h
  read_parameters-OnSome (v ∷ trees) m h = elim (Option-cases (pt.get_int (codes "address") v)) [
    | inl e ↦ rw (e, read_parameters) tt
    | inr (address, e) ↦ elim (Option-cases (pt.get (codes "name") v)) [
      | inl f ↦ rw (e, f, read_parameters) tt
      | inr (name, f) ↦
          rw (e, f, read_parameters)
            (read_parameters-OnSome trees _
              (insert-IsOrdered address _ m h.0, insert-AreAt _ m h.1))
    ]
  ]

  parameters_of-OnSome : (v : Tree) → OnSome (parameters_of pt v)
  unfolding parameters_of
  parameters_of-OnSome v = elim (Option-cases (pt.get_child (codes "parameters") v)) [
    | inl e ↦ rw (e, parameters_of) tt
    | inr (found, e) ↦
        rw (e, parameters_of) (read_parameters-OnSome (pt.children found) [] (tt, tt))
  ]

  add_parameters-AllParams :
      (op : Bytes) (found : Option ParamsMap) (m : Assoc Bytes ParamsMap)
      → OnSome found
      → AllParams m
      → AllParams (add_parameters pt op found m)
  unfolding add_parameters
  add_parameters-AllParams op none m g h = h
  add_parameters-AllParams op (some []) m g h = h
  add_parameters-AllParams op (some (param ∷ params)) m g h =
      insert-AllParams op (param ∷ params) m g h

  abbrev HasParams : ModbusOperationProcessor Tree Factor → Type 0
  HasParams p = AllParams p.ordered_parameters_map

  add_operation-HasParams :
      (k : Bytes) (params : ParamsMap) (called : ℤ × ModbusOperationProcessor Tree Factor)
      → HasParams called.1
      → HasParams (add_operation pt k params called)
  unfolding add_operation
  add_operation-HasParams k [] (address, p) h = h
  add_operation-HasParams k ((a, first) ∷ rest) (address, p) h = h

  get_base_address-HasParams :
      (k : Bytes) (p : ModbusOperationProcessor Tree Factor)
      → HasParams p
      → HasParams (get_base_address pt k p).1
  unfolding get_base_address
  get_base_address-HasParams k p h = (at-AllParams k p.ordered_parameters_map h).1

  add_command-HasParams :
      (k : Bytes) (p : ModbusOperationProcessor Tree Factor)
      → HasParams p
      → HasParams (add_command_as_operation pt k p)
  unfolding add_command_as_operation
  add_command-HasParams k p h = elim (Option-cases (find k p.commands)) [
    | inl e ↦ rw (e, add_command_as_operation) h
    | inr (tree, e) ↦ elim (Option-cases (find k p.ordered_parameters_map)) [
      | inl f ↦ rw (e, f, add_command_as_operation) h
      | inr (params, f) ↦
          rw (e, f, add_command_as_operation)
            (add_operation-HasParams k params _ (get_base_address-HasParams k p h))
    ]
  ]

  HasParams-IsStable : IsStable pt HasParams
  unfolding read_operation read_command get_operation get_mapped_labels get_command
      get_mapped_parameters
  HasParams-IsStable = record {
    on_operation = λ op v p h. h;
    on_config = λ config p h. h;
    on_command = λ op v p h.
        add_command-HasParams op _
          (add_parameters-AllParams op _ p.ordered_parameters_map (parameters_of-OnSome v) h);
    on_question = λ k p h. (
      h,
      (h, (h, ((at-AllParams k p.ordered_parameters_map h).1, get_base_address-HasParams k p h))),
    );
  }

  abbrev AllAbove : ℤ → List CommandParameter → Type 0
  AllAbove address [] = Unit
  AllAbove address (param ∷ params) =
      (int_below address param.base_address ≡ true) × AllAbove address params

  -- Each parameter is below all that come after it.
  abbrev pub IsAscending : List CommandParameter → Type 0
  IsAscending [] = Unit
  IsAscending (param ∷ params) = AllAbove param.base_address params × IsAscending params

  abbrev pub first_base : List CommandParameter → ℤ
  first_base [] = negsuc 0
  first_base (param ∷ params) = param.base_address

  values_of-AllAbove :
      (address : ℤ) (m : ParamsMap) → AreAt m → Above address m → AllAbove address (values_of pt m)
  values_of-AllAbove address [] h a = tt
  values_of-AllAbove address ((b, q) ∷ m) h a =
      (ap (int_below address) h.0 ∙ a.0, values_of-AllAbove address m h.1 a.1)

  values_of-IsAscending : (m : ParamsMap) → IsParams m → IsAscending (values_of pt m)
  values_of-IsAscending [] h = tt
  values_of-IsAscending ((b, q) ∷ m) h = (
    values_of-AllAbove q.base_address m h.1.1
        (subst (λ (address : ℤ). Above address m) (sym h.1.0) h.0.0),
    values_of-IsAscending m (h.0.1, h.1.1),
  )

  first_address-values_of :
      (m : ParamsMap) → AreAt m → first_address pt m ≡ first_base (values_of pt m)
  first_address-values_of [] h = refl
  first_address-values_of ((b, q) ∷ m) h = sym h.0

  -- After any calls of a new processor, the parameters of a command come with their addresses
  -- ascending, no two alike, and the base address is that of the first, or -1 without parameters.
  pub run-IsAscending :
      (calls : List Call) (command : Bytes)
      → IsAscending (get_mapped_parameters pt command (run pt calls (new_processor pt))).0
        × ((get_base_address pt command (run pt calls (new_processor pt))).0
            ≡ first_base (get_mapped_parameters pt command (run pt calls (new_processor pt))).0)
  unfolding get_mapped_parameters get_base_address
  run-IsAscending calls command = (values_of-IsAscending _ found, first_address-values_of _ found.1)
    where
      found : IsParams (at [] command (run pt calls (new_processor pt)).ordered_parameters_map).0
      found =
          (at-AllParams command _
            (run-stable pt HasParams HasParams-IsStable calls (new_processor pt) tt)).0
