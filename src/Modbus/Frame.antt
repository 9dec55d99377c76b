-- ===== src/Modbus/Frame.antt =====
-- The class `Modbus` of src/modbus/modbus.h, and the two constructors that build a request frame.
-- The default constructor leaves every field but the vectors and maps uninitialised: such an object
-- is a record with an empty frame. The logger is left out.
use fiware_io_tagent_cpluspl.Common.{
  ℕ, ◌*◌, ◌/◌, ◌%◌, Bool, true, false, not, List, [], ◌∷◌, ◌++◌, length, Bytes,
}
use fiware_io_tagent_cpluspl.Common.Int.{ℤ, negsuc}
use fiware_io_tagent_cpluspl.Common.Map.{Assoc}
use fiware_io_tagent_cpluspl.Modbus.Crc.{crc}

pub data FunctionCode : Type 0 where
  read_holding_registers preset_single_register preset_multiple_register : FunctionCode

-- The values of the enumeration.
abbrev pub function_byte : FunctionCode → ℕ
function_byte read_holding_registers = 0x03
function_byte preset_single_register = 0x06
function_byte preset_multiple_register = 0x10

pub record Modbus : Type 0 where
  pub app_operation : Bytes
  pub modbus_frame : List ℕ
  pub modbus_frame_response : List ℕ
  pub slave_address : ℕ
  pub function_code : FunctionCode
  pub address_data : ℕ
  pub number_of_or_value : ℕ
  pub values_to_write : List ℕ
  pub values : Assoc ℕ ℕ
  pub finished : Bool
  pub completed : Bool
  pub confirmed : Bool
  pub need_be_confirmed : Bool
  pub time_instant : ℤ

-- `(w >> 8) & 0xFF` and `w & 0xFF`
abbrev pub high_byte : ℕ → ℕ
high_byte w = w / 256 % 256

abbrev pub low_byte : ℕ → ℕ
low_byte w = w % 256

-- The last lines of both constructors.
unfoldable pub append_crc : List ℕ → List ℕ
append_crc body = body ++ high_byte (crc body) ∷ low_byte (crc body) ∷ []

-- The loop that appends the values to write.
unfoldable pub word_bytes : List ℕ → List ℕ
word_bytes [] = []
word_bytes (w ∷ ws) = high_byte w ∷ low_byte w ∷ word_bytes ws

abbrev pub request_body : ℕ → FunctionCode → ℕ → ℕ → List ℕ
request_body slave code address number =
    slave
    ∷ function_byte code
    ∷ high_byte address
    ∷ low_byte address
    ∷ high_byte number
    ∷ low_byte number
    ∷ []

abbrev pub write_body : ℕ → FunctionCode → ℕ → List ℕ → List ℕ
write_body slave code address values =
    slave
    ∷ function_byte code
    ∷ high_byte address
    ∷ low_byte address
    ∷ high_byte (length values)
    ∷ low_byte (length values)
    ∷ low_byte (length values * 2)
    ∷ word_bytes values

unfoldable pub new_request : ℕ → FunctionCode → ℕ → ℕ → Bytes → Modbus
new_request slave code address number operation = record {
  app_operation = operation;
  modbus_frame = append_crc (request_body slave code address number);
  modbus_frame_response = [];
  slave_address = slave;
  function_code = code;
  address_data = address;
  number_of_or_value = number;
  values_to_write = [];
  values = [];
  finished = false;
  completed = false;
  confirmed = true;
  need_be_confirmed = false;
  time_instant = negsuc 0;
}

unfoldable pub new_write : ℕ → FunctionCode → ℕ → List ℕ → Bytes → Bool → Modbus
new_write slave code address values operation confirmed = record {
  app_operation = operation;
  modbus_frame = append_crc (write_body slave code address values);
  modbus_frame_response = [];
  slave_address = slave;
  function_code = code;
  address_data = address;
  number_of_or_value = 0;
  values_to_write = values;
  values = [];
  finished = false;
  completed = false;
  confirmed = not confirmed;
  need_be_confirmed = confirmed;
  time_instant = negsuc 0;
}

-- Modbus::finish
unfoldable pub finish : Modbus → Modbus
finish m = record m { finished = true }

-- Modbus::set_time_instant
unfoldable pub set_time_instant : ℤ → Modbus → Modbus
set_time_instant timestamp m = record m { time_instant = timestamp }
