-- ===== src/Modbus/OperationProcessor.antt =====
-- src/modbus/operation_processor.cc: the operations and commands that a configuration describes.
pub mod Commands
pub mod Access
pub mod Calls
pub mod Ordered
pub mod Kept
pub mod Agreement
mod Tests
use fiware_io_tagent_cpluspl.Common.{
  ℕ, Bytes, codes, bytes_key, str_eq, Bool, true, false, ◌||◌, ◌-◌, ◌%◌, ◌^◌, Option, none, some,
  List, [], ◌∷◌, ◌++◌, map, length, ltb, if◌then◌else◌,
}
use fiware_io_tagent_cpluspl.Common.Int.{ℤ, pos, negsuc, int_key}
use fiware_io_tagent_cpluspl.Common.Map.{Assoc, find, insert}
use fiware_io_tagent_cpluspl.Common.Find.{cut_text, joined}
use fiware_io_tagent_cpluspl.Modbus.Mapped.{FloatPosition}

-- What the processor uses of the property trees of Boost and their JSON: `none` is an exception.
pub record Ptree (Tree Factor : Type 0) : Type 0 where
  pub empty : Tree
  pub read_json : Bytes → Option Tree
  pub get_child : Bytes → Tree → Option Tree
  pub children : Tree → List Tree
  pub data_of : Tree → Bytes
  pub get : Bytes → Tree → Option Bytes
  pub get_float : Bytes → Tree → Option Factor
  pub get_int : Bytes → Tree → Option ℤ
  pub get_unsigned_short : Bytes → Tree → Option ℕ
  pub put : Bytes → Bytes → Tree → Tree
  pub int_text : ℤ → Bytes
  pub one : Factor

pub record CommandParameter : Type 0 where
  pub base_address : ℤ
  pub num_positions : ℕ
  pub name : Bytes
  pub type_name : Bytes

abbrev pub ParamsMap : Type 0
ParamsMap = Assoc ℤ CommandParameter

pub record ModbusOperationProcessor (Tree Factor : Type 0) : Type 0 where
  pub operations : Assoc Bytes Tree
  pub position_map : Assoc Bytes (List (FloatPosition Factor))
  pub commands : Assoc Bytes Tree
  pub ordered_parameters_map : Assoc Bytes ParamsMap
  pub config : Tree

-- The rest of the text after its first point is as long as the number of decimals.
unfoldable pub number_of_decimals : Bytes → ℕ
number_of_decimals text = elim (cut_text (codes ".") text) [
  | none ↦ 0
  | some (before, decimals) ↦ length decimals
]

-- (short) n
unfoldable pub to_short : ℕ → ℤ
to_short n =
    if ltb (n % 2 ^ 16) (2 ^ 15) then pos (n % 2 ^ 16) else negsuc (2 ^ 16 - 1 - n % 2 ^ 16)

-- get<T>(path, fallback)
abbrev pub or_default : {A : Type 0} → A → Option A → A
or_default fallback none = fallback
or_default fallback (some a) = a

-- m[k], which puts the default value where there is none.
unfoldable pub at : {V : Type 0} → V → Bytes → Assoc Bytes V → V × Assoc Bytes V
at fallback k m = elim (find k m) [ none ↦ (fallback, insert k fallback m) | some v ↦ (v, m) ]

module _ {Tree Factor : Type 0} (pt : Ptree Tree Factor) where
  abbrev pub new_processor : ModbusOperationProcessor Tree Factor
  new_processor = record {
    operations = [];
    position_map = [];
    commands = [];
    ordered_parameters_map = [];
    config = pt.empty;
  }

  unfoldable pub position_of : Tree → Bytes → FloatPosition Factor
  position_of v [] = record { name = pt.data_of v; factor = pt.one; precision = pos 0 }
  position_of v (c ∷ name) = record {
    name = c ∷ name;
    factor = or_default pt.one (pt.get_float (codes "factor") v);
    precision = to_short (number_of_decimals (or_default (codes "1") (pt.get (codes "factor") v)));
  }

  unfoldable pub label_of : Tree → FloatPosition Factor
  label_of v = position_of v (or_default [] (pt.get (codes "name") v))

  unfoldable pub labels_of : Tree → List (FloatPosition Factor)
  labels_of v = elim (pt.get_child (codes "positions") v) [
    | none ↦ []
    | some positions ↦ map label_of (pt.children positions)
  ]

  -- Labels are kept when there are any.
  unfoldable pub add_labels :
      Bytes
      → List (FloatPosition Factor)
      → Assoc Bytes (List (FloatPosition Factor))
      → Assoc Bytes (List (FloatPosition Factor))
  add_labels op [] m = m
  add_labels op (label ∷ labels) m = insert op (label ∷ labels) m

  unfoldable pub read_operation :
      Bytes → Tree → ModbusOperationProcessor Tree Factor → ModbusOperationProcessor Tree Factor
  read_operation op v p = record p {
    operations = insert op v p.operations;
    position_map = add_labels op (labels_of v) p.position_map;
  }

  -- The loop of `read`, and whether an exception ended it.
  unfoldable pub read_each :
      List Tree → ModbusOperationProcessor Tree Factor → ModbusOperationProcessor Tree Factor × Bool
  read_each [] p = (p, false)
  read_each (v ∷ trees) p = elim (pt.get (codes "operation") v) [
    | none ↦ (p, true)
    | some op ↦ read_each trees (read_operation op v p)
  ]

  unfoldable pub read_config :
      Tree
      → ModbusOperationProcessor Tree Factor × Bool
      → ModbusOperationProcessor Tree Factor × Bool
  read_config root (p, true) = (p, true)
  read_config root (p, false) = (
    elim (pt.get_child (codes "config") root) [
      | none ↦ p
      | some config ↦ record p { config = config }
    ],
    false,
  )

  -- ModbusOperationProcessor::read, and whether it raises the alarm of a bad configuration.
  unfoldable pub read :
      Bytes → ModbusOperationProcessor Tree Factor → ModbusOperationProcessor Tree Factor × Bool
  read json p = elim (pt.read_json json) [
    | none ↦ (p, true)
    | some root ↦ elim (pt.get_child (codes "operations") root) [
      | none ↦ (p, true)
      | some operations ↦ read_config root (read_each (pt.children operations) p)
    ]
  ]

  abbrev pub first_address : ParamsMap → ℤ
  first_address [] = negsuc 0
  first_address ((address, param) ∷ params) = address

  unfoldable pub get_base_address :
      Bytes → ModbusOperationProcessor Tree Factor → ℤ × ModbusOperationProcessor Tree Factor
  get_base_address command p =
      let found : ParamsMap × Assoc Bytes ParamsMap = at [] command p.ordered_parameters_map in
      (first_address found.0, record p { ordered_parameters_map = found.1 })
