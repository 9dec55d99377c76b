-- ===== src/Modbus/OperationProcessor/Agreement.antt =====
-- The read operation of a command and the labels of its response.
use fiware_io_tagent_cpluspl.Common.{
  ℕ, suc, Bytes, codes, bytes_key, str_eq, str_eq_self, Bool, true, false, Option, none, some, List,
  [], ◌∷◌, map, length, ◌≡◌, refl, sym, ap, ◌∙◌, if◌then◌else◌, any, ◌==◌,
}
use fiware_io_tagent_cpluspl.Common.Int.{ℤ, pos}
use fiware_io_tagent_cpluspl.Common.Map.{find, find-insert_fresh}
use fiware_io_tagent_cpluspl.Modbus.Mapped.{FloatPosition}
use fiware_io_tagent_cpluspl.Modbus.OperationProcessor.{
  Ptree, CommandParameter, ParamsMap, ModbusOperationProcessor, get_base_address, at,
}
use fiware_io_tagent_cpluspl.Modbus.OperationProcessor.Commands.{
  add_operation, add_command_as_operation, operation_of, parameter_label, is_sized,
}

-- What Boost documents of put and get for paths without a point, which are the keys of one level: a
-- value is read back where it is put, and the values under other keys stay.
pub record IsPutGet {Tree Factor : Type 0} (pt : Ptree Tree Factor) : Type 0 where
  pub get_put :
      (k v : Bytes) (t : Tree) → any (◌==◌ 46) k ≡ false → pt.get k (pt.put k v t) ≡ some v
  pub get_put_other :
      (k j v : Bytes) (t : Tree)
      → any (◌==◌ 46) k ≡ false
      → any (◌==◌ 46) j ≡ false
      → str_eq k j ≡ false
      → pt.get k (pt.put j v t) ≡ pt.get k t

module _ {Tree Factor : Type 0} (pt : Ptree Tree Factor) where
  -- The operation reads as many registers as there are labels, from the given address.
  abbrev pub Agrees : Bytes → ℤ → Option Tree → Option (List (FloatPosition Factor)) → Type 0
  Agrees command address none labels = ⊥
  Agrees command address (some tree) none = ⊥
  Agrees command address (some tree) (some labels) =
      (pt.get (codes "operation") tree ≡ some command)
      × ((pt.get (codes "modbusOperation") tree ≡ some (pt.int_text (pos 3)))
          × ((pt.get (codes "modbusAddress") tree ≡ some (pt.int_text address))
              × (pt.get (codes "modbusNumberOfRegisters") tree
                  ≡ some (pt.int_text (pos (length labels))))))

  length-map : (params : ParamsMap) → length (map (parameter_label pt) params) ≡ length params
  length-map [] = refl
  length-map (param ∷ params) = ap (λ (n : ℕ). suc n) (length-map params)

module _ {Tree Factor : Type 0} (pt : Ptree Tree Factor) (laws : IsPutGet pt) where
  get-typed :
      (k : Bytes) (sized : Bool) (v : Bytes) (t : Tree)
      → any (◌==◌ 46) k ≡ false
      → str_eq k (codes "modbusRegisterType") ≡ false
      → pt.get k (if sized then pt.put (codes "modbusRegisterType") v t else t) ≡ pt.get k t
  get-typed k true v t plain h = laws.get_put_other k (codes "modbusRegisterType") v t plain refl h
  get-typed k false v t plain h = refl

  -- A field that is put before the last three is the one that `get` finds.
  get-operation_of :
      (k command : Bytes) (address : ℤ) (first : CommandParameter) (registers : ℕ)
      → any (◌==◌ 46) k ≡ false
      → str_eq k (codes "modbusNumberOfRegisters") ≡ false
      → str_eq k (codes "modbusNumberOfPositions") ≡ false
      → str_eq k (codes "modbusRegisterType") ≡ false
      → pt.get k (operation_of pt command address first registers)
        ≡ pt.get k (
            pt.put (codes "modbusAddress") (pt.int_text address) (
              pt.put
                (codes "modbusOperation")
                (pt.int_text (pos 3))
                (pt.put (codes "operation") command pt.empty)))
  unfolding operation_of
  get-operation_of k command address first registers plain h i j =
      laws.get_put_other k _ _ _ plain refl h
      ∙ laws.get_put_other k _ _ _ plain refl i
      ∙ get-typed k (is_sized pt first.type_name) first.type_name _ plain j

  get-registers :
      (command : Bytes) (address : ℤ) (first : CommandParameter) (registers : ℕ)
      → pt.get (codes "modbusNumberOfRegisters") (operation_of pt command address first registers)
        ≡ some (pt.int_text (pos registers))
  unfolding operation_of
  get-registers command address first registers = laws.get_put _ _ _ refl

  operation_of-Agrees :
      (command : Bytes) (address : ℤ) (first : CommandParameter) (params : ParamsMap)
      → Agrees pt command address
          (some (operation_of pt command address first (length params)))
          (some (map (parameter_label pt) params))
  unfolding str_eq
  operation_of-Agrees command address first params = (
    get-operation_of _ command address first _ refl refl refl refl
        ∙ laws.get_put_other _ _ _ _ refl refl refl
        ∙ laws.get_put_other _ _ _ _ refl refl refl
        ∙ laws.get_put _ _ _ refl,
    (
      get-operation_of _ command address first _ refl refl refl refl
          ∙ laws.get_put_other _ _ _ _ refl refl refl
          ∙ laws.get_put _ _ _ refl,
      (
        get-operation_of _ command address first _ refl refl refl refl ∙ laws.get_put _ _ _ refl,
        get-registers command address first _
            ∙ ap (λ (n : ℕ). some (pt.int_text (pos n))) (sym (length-map pt params)),
      ),
    ),
  )

  get_base_address-found :
      (command : Bytes) (p : ModbusOperationProcessor Tree Factor) (address : ℤ)
      (first : CommandParameter) (rest : ParamsMap)
      → find command p.ordered_parameters_map ≡ some ((address, first) ∷ rest)
      → get_base_address pt command p ≡ (address, p)
  unfolding get_base_address at
  get_base_address-found command p address first rest e = rw (e, at) refl

  add_operation-Agrees :
      (command : Bytes) (p : ModbusOperationProcessor Tree Factor) (address a : ℤ)
      (first : CommandParameter) (rest : ParamsMap)
      → find command p.operations ≡ none
      → find command p.position_map ≡ none
      → Agrees pt command address
          (find command (add_operation pt command ((a, first) ∷ rest) (address, p)).operations)
          (find command (add_operation pt command ((a, first) ∷ rest) (address, p)).position_map)
  unfolding add_operation
  add_operation-Agrees command p address a first rest e f =
      rw
        (
          find-insert_fresh command command _ p.operations e,
          find-insert_fresh command command _ p.position_map f,
          str_eq_self command,
        )
        (operation_of-Agrees command address first ((a, first) ∷ rest))

  -- For a command with parameters whose name has neither an operation nor labels yet, the processor
  -- makes an operation of that name that reads the holding registers from the first address, as many
  -- as it makes labels, when the fields of a property tree read back what is put in them.
  pub add_command_as_operation-Agrees :
      (command : Bytes) (p : ModbusOperationProcessor Tree Factor) (tree : Tree) (address : ℤ)
      (first : CommandParameter) (rest : ParamsMap)
      → find command p.commands ≡ some tree
      → find command p.ordered_parameters_map ≡ some ((address, first) ∷ rest)
      → find command p.operations ≡ none
      → find command p.position_map ≡ none
      → Agrees pt command address
          (find command (add_command_as_operation pt command p).operations)
          (find command (add_command_as_operation pt command p).position_map)
  unfolding add_command_as_operation
  add_command_as_operation-Agrees command p tree address first rest e f g h =
      rw (e, f, get_base_address-found command p address first rest f, add_command_as_operation)
        (add_operation-Agrees command p address address first rest g h)
