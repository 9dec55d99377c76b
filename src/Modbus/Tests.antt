-- ===== src/Modbus/Tests.antt =====
-- Runs of the Modbus frames and responses, and instances of their theorems.
use fiware_io_tagent_cpluspl.Common.{
  ◌+◌, ◌*◌, codes, str_eq, bytes_key, Bytes, ℕ, ◌^◌, ◌<◌, ◌≡◌, ◌≢◌, ◌↔◌, ◌⊎◌, refl, true, false,
  List, [], ◌∷◌, ◌++◌, some, arith, codes, Bytes, nat_key,
}
use fiware_io_tagent_cpluspl.Common.Map.{find}
use fiware_io_tagent_cpluspl.Modbus.Crc.{crc}
use fiware_io_tagent_cpluspl.Modbus.Crc.Reference.{reference, swap_bytes, crc-reference}
use fiware_io_tagent_cpluspl.Modbus.Crc.Detection.{crc-ne_single_byte}
use fiware_io_tagent_cpluspl.Common.Int.{ℤ, pos}
use fiware_io_tagent_cpluspl.Modbus.Mapped.{
  FloatPosition, get_mapped_values, find-get_mapped_values,
}
use fiware_io_tagent_cpluspl.Modbus.Frame.{
  read_holding_registers, preset_single_register, preset_multiple_register, append_crc, word_bytes,
  new_request, new_write, Modbus,
}
use fiware_io_tagent_cpluspl.Modbus.Receive.{check_crc, receive_modbus_frame}
use fiware_io_tagent_cpluspl.Modbus.Receive.Checksum.{constructors-check_crc}
use fiware_io_tagent_cpluspl.Modbus.Receive.Reading.{read_response, stored, find-stored}
use fiware_io_tagent_cpluspl.Modbus.Receive.Pieces.{
  receive_all, finished_read, receive_all-read_response,
}
use fiware_io_tagent_cpluspl.Modbus.Receive.Echo.{receive-echo_iff}
use fiware_io_tagent_cpluspl.Modbus.Receive.Writing.{
  acknowledgement, receive-new_write, receive-new_write_refused,
}
use fiware_io_tagent_cpluspl.Modbus.Receive.Refusal.{IsGenuine, receive-of_IsGenuine}

abbrev body : List ℕ
body = 0x01 ∷ 0x03 ∷ 0x00 ∷ 0x00 ∷ 0x00 ∷ 0x0A ∷ []

abbrev operation : Bytes
operation = codes "GetData"

crc-body : crc body ≡ 0xC5CD
unfolding crc
crc-body = refl

crc-reference_example : (crc body ≡ swap_bytes (reference body)) × (crc body < 2 ^ 16)
crc-reference_example = crc-reference body (omega arith)

crc-ne_single_byte_example : crc (1 ∷ 3 ∷ 0 ∷ 7 ∷ []) ≢ crc (1 ∷ 3 ∷ 4 ∷ 7 ∷ [])
crc-ne_single_byte_example =
    crc-ne_single_byte (1 ∷ 3 ∷ []) (7 ∷ []) 0 4 (omega arith) (omega arith) (omega arith)
      (omega arith) (omega arith)

constructors-check_crc_example :
    let request = (new_request 1 read_holding_registers 0 10 operation).modbus_frame in
    check_crc request ≡ some true
constructors-check_crc_example =
    (constructors-check_crc 1 read_holding_registers 0 10 (5 ∷ []) operation true (omega arith)).0

abbrev poll : Modbus
poll = new_request 1 read_holding_registers 100 2 operation

abbrev registers : List ℕ
registers = 0x1234 ∷ 0x00FF ∷ []

poll_response : read_response 1 registers ≡ 1 ∷ 3 ∷ 4 ∷ 0x12 ∷ 0x34 ∷ 0 ∷ 0xFF ∷ 254 ∷ 197 ∷ []
unfolding append_crc crc word_bytes
poll_response = refl

receive_all-read_response_example :
    receive_all poll ((1 ∷ 3 ∷ 4 ∷ []) ∷ (0x12 ∷ 0x34 ∷ 0 ∷ 0xFF ∷ 254 ∷ []) ∷ (197 ∷ []) ∷ [])
    ≡ (finished_read poll registers, true)
unfolding new_request append_crc crc word_bytes
receive_all-read_response_example =
    receive_all-read_response poll (1 ∷ 3 ∷ 4 ∷ [])
      ((0x12 ∷ 0x34 ∷ 0 ∷ 0xFF ∷ 254 ∷ []) ∷ (197 ∷ []) ∷ []) registers refl (omega arith)
      (omega arith) (omega arith) (omega arith) (λ e. cc, (λ e. cc, (λ e. cc, tt))) refl

find-stored_example : find 102 (stored 100 0 registers []) ≡ some 0x00FF
find-stored_example =
    find-stored 100 0 1 102 registers [] (omega arith) (λ i h. unfold find in refl) (omega arith)
      refl

receive-echo_iff_example :
    let m = new_request 1 preset_single_register 5 9 operation in
    ((receive_modbus_frame m (1 ∷ 6 ∷ 0 ∷ 5 ∷ 0 ∷ 9 ∷ 89 ∷ 205 ∷ [])).1 ≡ true)
    ↔ ((1 ∷ 6 ∷ 0 ∷ 5 ∷ 0 ∷ 9 ∷ 89 ∷ 205 ∷ []) ≡ m.modbus_frame)
receive-echo_iff_example =
    receive-echo_iff 1 5 9 operation (1 ∷ 6 ∷ 0 ∷ 5 ∷ 0 ∷ 9 ∷ 89 ∷ 205 ∷ []) (omega arith)
      (omega arith) (omega arith) (omega arith) refl

receive-new_write_example :
    let m = new_write 1 preset_multiple_register 5 (7 ∷ 8 ∷ []) operation true in
    receive_modbus_frame m m.modbus_frame ≡ (record m { confirmed = true }, true)
receive-new_write_example =
    (receive-new_write 1 5 (7 ∷ 8 ∷ []) operation (omega arith) (omega arith) (omega arith)).0

abbrev unconfirmed : Modbus
unconfirmed = new_write 1 preset_multiple_register 5 (7 ∷ []) operation true

-- The echo and the acknowledgement in one piece.
abbrev merged : List ℕ
merged = unconfirmed.modbus_frame ++ acknowledgement 1 5 1

receive-new_write_refused_example : receive_modbus_frame unconfirmed merged ≡ (
  record unconfirmed { modbus_frame_response = merged; completed = true; finished = true },
  false,
)
unfolding new_write append_crc crc word_bytes
receive-new_write_refused_example =
    receive-new_write_refused 1 5 (7 ∷ []) merged operation (omega arith) (λ e. cc) (omega arith)

-- The checksum of the response is wrong in its last byte.
abbrev spoilt : List ℕ
spoilt = 0x12 ∷ 0x34 ∷ 0 ∷ 0xFF ∷ 254 ∷ 196 ∷ []

abbrev half_read : Modbus
half_read = record poll { modbus_frame_response = 1 ∷ 3 ∷ 4 ∷ [] }

abbrev single : Modbus
single = new_request 1 preset_single_register 5 9 operation

receive-of_IsGenuine_example :
    ((receive_modbus_frame half_read spoilt).0.values ≡ half_read.values)
    ⊎ IsGenuine half_read (half_read.modbus_frame_response ++ spoilt)
receive-of_IsGenuine_example = receive-of_IsGenuine half_read spoilt

abbrev two_values : Modbus
two_values = record single { values = (1, 2) ∷ (4, 3) ∷ [] }

abbrev digit : ℕ → Bytes
digit n = (48 + n) ∷ []

abbrev scaled : ℕ → ℤ → ℕ → Bytes
scaled factor precision value = digit (factor * value)

abbrev label : Bytes → ℕ → FloatPosition ℕ
label name factor = record { name = name; factor = factor; precision = pos 0 }

find-get_mapped_values_example :
    find
      (codes "t")
      (get_mapped_values ℕ digit scaled (label [] 1 ∷ label (codes "t") 2 ∷ []) two_values)
    ≡ some (codes "6")
unfolding str_eq
find-get_mapped_values_example =
    find-get_mapped_values ℕ digit scaled (codes "t") (label [] 1 ∷ label (codes "t") 2 ∷ [])
      two_values
