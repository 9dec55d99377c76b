-- ===== src/Modbus/Receive.antt =====
-- The response side of src/modbus/modbus.cc: `check_crc`, `check_completed` and
-- `receive_modbus_frame`. `none` is the exception of `vector::at`. Logging is left out.
pub mod Checksum
pub mod Echo
pub mod Pieces
pub mod Reading
pub mod Refusal
pub mod Writing
use mathlib.Core.Option
use fiware_io_tagent_cpluspl.Common.{
  ℕ, zero, suc, ◌+◌, ◌-◌, ◌*◌, ◌%◌, Bool, true, false, not, ◌&&◌, ◌||◌, List, [], ◌++◌, Option,
  none, some, ltb, leb, ◌==◌, if◌then◌else◌, length, get_elem?, get_or, take, str_eq, nat_key,
}
use fiware_io_tagent_cpluspl.Common.Map.{Assoc, insert}
use fiware_io_tagent_cpluspl.Modbus.Crc.{crc}
use fiware_io_tagent_cpluspl.Modbus.Frame.{
  FunctionCode, read_holding_registers, preset_single_register, preset_multiple_register,
  function_byte, Modbus,
}

infixl 5 ◌>>=◌
abbrev ◌>>=◌ : {A B : Type 0} → Option A → (A → Option B) → Option B
none >>= f = none
some a >>= f = f a

-- `(frame.at(i) << 8) | frame.at(i + 1)`, of two bytes
unfoldable pub word_at : List ℕ → ℕ → Option ℕ
word_at frame i = do hi ← get_elem? frame i; lo ← get_elem? frame (i + 1); some (hi * 256 + lo)

-- The caller has read two bytes of the frame before it gets here.
unfoldable pub check_crc : List ℕ → Option Bool
check_crc frame = do
  received ← word_at frame (length frame - 2)
  some (received == crc (take (length frame - 2) frame))

-- The tests of `check_completed` on the response gathered so far. The last branch may confirm the
-- echo of the request, and empties the response for the frame that follows.
unfoldable pub completed_by : FunctionCode → Modbus → List ℕ → Modbus × Bool
completed_by read_holding_registers m r =
    (m, leb 3 (length r) && (length r - 2 == get_or r 2 0 + 3))
completed_by preset_single_register m r = (m, length r == length m.modbus_frame)
completed_by preset_multiple_register m r =
    let plain = (not m.need_be_confirmed || m.confirmed) && leb 8 (length r) in
    if m.need_be_confirmed && not m.confirmed
    then (if length r == length m.modbus_frame
        then (if str_eq r m.modbus_frame
            then (record m { confirmed = true; modbus_frame_response = [] }, plain)
            else (m, true))
        else if ltb (length m.modbus_frame) (length r)
        then (m, true)
        else (m, plain))
    else (m, plain)

unfoldable pub check_completed : Modbus → List ℕ → Modbus × Bool
check_completed m msg =
    let gathered = m.modbus_frame_response ++ msg in
    completed_by m.function_code (record m { modbus_frame_response = gathered }) gathered

-- "Bad modbus frame": another slave, another function, or a wrong checksum.
unfoldable pub bad_frame : Modbus → Option Bool
bad_frame m = do
  slave ← get_elem? m.modbus_frame_response 0
  if not (slave == m.slave_address) then some true else do
    code ← get_elem? m.modbus_frame_response 1
    if not (code == function_byte m.function_code)
        then some true
        else Option.map not (check_crc m.modbus_frame_response)

-- The loop that stores the registers; `i` runs from 3 in steps of two up to `limit`, and the
-- flag is `frame_ok`.
unfoldable pub read_registers : ℕ → List ℕ → ℕ → ℕ → ℕ → ℕ → Assoc ℕ ℕ → Assoc ℕ ℕ × Bool
read_registers zero frame limit address i num values = (values, false)
read_registers (suc fuel) frame limit address i num values = elim (ltb i limit) [
  | false ↦ (values, true)
  | true ↦ elim (word_at frame i) [
    | none ↦ (values, false)
    | some value ↦
        read_registers fuel frame limit address (i + 2) (num + 1)
          (insert ((address + (num + 1)) % 65536) value values)
  ]
]

abbrev accept_if : Modbus → Option Bool → Modbus × Bool
accept_if m none = (m, false)
accept_if m (some ok) = (m, ok)

-- A completed response with the right header and checksum, by function.
unfoldable pub decode : FunctionCode → Modbus → Modbus × Bool
decode read_holding_registers m =
    let r = m.modbus_frame_response in
    elim (get_elem? r 2) [
      | none ↦ (m, false)
      | some bytes ↦
          if length r - 2 == bytes + 3
          then (let (values, ok) =
                read_registers (bytes + 1) r (bytes + 3) m.address_data 3 0 m.values in
              (record m { values = values }, ok))
          else (m, false)
    ]
decode preset_single_register m = accept_if m do
  address ← word_at m.modbus_frame_response 2
  value ← word_at m.modbus_frame_response 4
  some ((address == m.address_data) && (value == m.number_of_or_value))
decode preset_multiple_register m =
    if not m.confirmed
    then (m, false)
    else accept_if m do
      address ← word_at m.modbus_frame_response 2
      values ← word_at m.modbus_frame_response 4
      some (
          (address == m.address_data)
          && (values == length m.values_to_write)
          && (length m.modbus_frame_response == 8))

unfoldable pub checked : Modbus → Modbus × Bool
checked m = elim (bad_frame m) [
  | none ↦ (m, false)
  | some true ↦ (m, false)
  | some false ↦ decode m.function_code m
]

-- The body of the `try`.
unfoldable pub received : Modbus → List ℕ → Modbus × Bool
received m msg =
    let (n, done) = check_completed m msg in
    if done
    then checked (record n { completed = true; finished = true })
    else (record n { completed = false }, true)

-- A response that is refused ends the exchange.
abbrev pub close : Modbus × Bool → Modbus × Bool
close (m, true) = (m, true)
close (m, false) = (record m { finished = true; completed = true }, false)

unfoldable pub receive_modbus_frame : Modbus → List ℕ → Modbus × Bool
receive_modbus_frame m msg =
    if length m.modbus_frame == 0 then close (m, false) else close (received m msg)
