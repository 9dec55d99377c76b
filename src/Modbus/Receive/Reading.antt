-- ===== src/Modbus/Receive/Reading.antt =====
-- A read request and the response of the slave: the registers come back, in order.
use fiware_io_tagent_cpluspl.Common.{
  ℕ, zero, suc, ◌+◌, ◌-◌, ◌*◌, ◌%◌, ◌^◌, ◌≤◌, ◌<◌, ◌≡◌, refl, sym, ap, ◌∙◌, true, false, List, [],
  ◌∷◌, ◌++◌, none, some, arith, ltb, ◌==◌, length, get_elem?, length-append, All, nat_key,
}
use mathlib.Core.List.{append_assoc}
use fiware_io_tagent_cpluspl.Common.Map.{
  Assoc, find, insert, find-insert_fresh, find-insert_present,
}
use fiware_io_tagent_cpluspl.Modbus.Crc.Reference.{IsByte}
use fiware_io_tagent_cpluspl.Modbus.Frame.{
  read_holding_registers, low_byte, high_byte, append_crc, word_bytes, Modbus,
}
use fiware_io_tagent_cpluspl.Modbus.Receive.{word_at, bad_frame, read_registers, decode, checked}
use fiware_io_tagent_cpluspl.Modbus.Receive.Checksum.{
  word_at-append, bytes_of_word, check_crc-append_crc, length-append_crc, word_bytes-IsByte,
  length-word_bytes, bad_frame-eq_false, checked-decode,
}

abbrev pub IsWord : ℕ → Type 0
IsWord w = w < 2 ^ 16

-- What a slave answers to a read of these registers.
abbrev pub read_body : ℕ → List ℕ → List ℕ
read_body slave ws = slave ∷ 0x03 ∷ (length ws * 2) ∷ word_bytes ws

abbrev pub read_response : ℕ → List ℕ → List ℕ
read_response slave ws = append_crc (read_body slave ws)

-- The map that holds `ws` from the key after `address + num` on.
pub stored : ℕ → ℕ → List ℕ → Assoc ℕ ℕ → Assoc ℕ ℕ
stored address num [] values = values
stored address num (w ∷ ws) values =
    stored address (num + 1) ws (insert ((address + (num + 1)) % 65536) w values)

module _ (fuel : ℕ) (frame : List ℕ) (limit address i num : ℕ) (values : Assoc ℕ ℕ) where
  read_registers_stop :
      ltb i limit ≡ false
      → read_registers (suc fuel) frame limit address i num values ≡ (values, true)
  unfolding read_registers
  read_registers_stop e = rw (e, read_registers) refl

  read_registers_next :
      (w : ℕ)
      → ltb i limit ≡ true
      → word_at frame i ≡ some w
      → read_registers (suc fuel) frame limit address i num values
        ≡ read_registers fuel frame limit address
            (i + 2)
            (num + 1)
            (insert ((address + (num + 1)) % 65536) w values)
  unfolding read_registers
  read_registers_next w e f = rw (e, read_registers) (rw (f, read_registers) refl)

pub read_registers-word_bytes :
    (fuel address num i limit : ℕ) (front ws tail : List ℕ) (values : Assoc ℕ ℕ)
    → All IsWord ws
    → i ≡ length front
    → limit ≡ i + length ws * 2
    → length ws < fuel
    → read_registers fuel (front ++ (word_bytes ws ++ tail)) limit address i num values
      ≡ (stored address num ws values, true)
unfolding word_bytes stored
read_registers-word_bytes zero address num i limit front ws tail values h hi hl hf = elim hf [ ]
read_registers-word_bytes (suc fuel) address num i limit front [] tail values h hi hl hf =
    read_registers_stop fuel _ limit address i num values (ground arith)
read_registers-word_bytes (suc fuel) address num i limit front (w ∷ ws) tail values h hi hl hf =
    let head = high_byte w ∷ low_byte w ∷ [] in
    let stored_w = insert ((address + (num + 1)) % 65536) w values in
    let word =
      word_at-append front (word_bytes ws ++ tail) (high_byte w) (low_byte w) i hi
      ∙ ap some (bytes_of_word w h.0) in
    read_registers_next fuel _ limit address i num values w (ground arith) word
    ∙ ap (λ frame. read_registers fuel frame limit address (i + 2) (num + 1) stored_w)
        (sym (append_assoc front head (word_bytes ws ++ tail)))
    ∙ read_registers-word_bytes fuel address (num + 1) (i + 2) limit (front ++ head) ws tail
        stored_w h.1 (omega (arith, length-append front head)) (omega arith) (omega arith)

-- An entry that is there already stays.
find-stored_present :
    (address num j w : ℕ) (ws : List ℕ) (values : Assoc ℕ ℕ)
    → find j values ≡ some w
    → find j (stored address num ws values) ≡ some w
unfolding stored
find-stored_present address num j w [] values h = h
find-stored_present address num j w (x ∷ ws) values h =
    find-stored_present address (num + 1) j w ws _ (find-insert_present _ j x w values h)

-- What the map holds, register by register. No key is written twice while the addresses fit 16 bits.
pub find-stored :
    (address num k j : ℕ) (ws : List ℕ) (values : Assoc ℕ ℕ)
    → address + num + length ws < 65536
    → ((i : ℕ) → address + num < i → find i values ≡ none)
    → k < length ws
    → j ≡ address + num + 1 + k
    → find j (stored address num ws values) ≡ get_elem? ws k
unfolding stored
find-stored address num k j [] values h fresh hk hj = elim hk [ ]
find-stored address num zero j (w ∷ ws) values h fresh hk hj =
    let key = (address + (num + 1)) % 65536 in
    let same : j ≡ key = omega arith in
    find-stored_present address (num + 1) j w ws _
      (find-insert_fresh key j w values (fresh key (omega arith)) ∙ ground arith)
find-stored address num (suc k) j (w ∷ ws) values h fresh hk hj =
    let key = (address + (num + 1)) % 65536 in
    find-stored address (num + 1) k j ws _ (omega arith)
      (λ i hi.
        find-insert_fresh key i w values (fresh key (omega arith))
        ∙ ground (arith, fresh i (omega arith)))
      (omega arith) (omega arith)

-- The checks that come before the registers are read.
pub read_response-length :
    (slave : ℕ) (ws : List ℕ) → length (read_response slave ws) ≡ length ws * 2 + 5
read_response-length slave ws =
    omega (arith, length-append_crc (read_body slave ws), length-word_bytes ws)

read_body-IsByte :
    (slave : ℕ) (ws : List ℕ) → slave < 256 → length ws ≤ 127 → All IsByte (read_body slave ws)
read_body-IsByte slave ws h hn = (h, (omega arith, (omega arith, word_bytes-IsByte ws)))

decode-read_lem :
    (m : Modbus) (bytes : ℕ) (values : Assoc ℕ ℕ)
    → get_elem? m.modbus_frame_response 2 ≡ some bytes
    → length m.modbus_frame_response ≡ bytes + 5
    → read_registers (bytes + 1) m.modbus_frame_response (bytes + 3) m.address_data 3 0 m.values
      ≡ (values, true)
    → decode read_holding_registers m ≡ (record m { values = values }, true)
unfolding decode
decode-read_lem m bytes values at size read =
    let fits : (length m.modbus_frame_response - 2 == bytes + 3) ≡ true = ground arith in
    rw (at, decode) (rw fits (rw read refl))

module _ (m : Modbus) (ws : List ℕ)
    (gathered : m.modbus_frame_response ≡ read_response m.slave_address ws)
    (code : m.function_code ≡ read_holding_registers) (slave : m.slave_address < 256)
    (count : length ws ≤ 127) (words : All IsWord ws) where
  bad_frame-read_response : bad_frame m ≡ some false
  unfolding append_crc
  bad_frame-read_response = bad_frame-eq_false m (rw gathered refl) (rw (gathered, code) refl) (
      rw gathered (
        check_crc-append_crc (read_body m.slave_address ws)
          (read_body-IsByte m.slave_address ws slave count)))

  decode-read_response :
      decode read_holding_registers m
      ≡ (record m { values = stored m.address_data 0 ws m.values }, true)
  unfolding append_crc
  decode-read_response =
      decode-read_lem m (length ws * 2) (stored m.address_data 0 ws m.values) (rw gathered refl)
        (ap length gathered ∙ read_response-length m.slave_address ws)
        (rw gathered (
          read_registers-word_bytes (length ws * 2 + 1) m.address_data 0 3 (length ws * 2 + 3)
            (m.slave_address ∷ 0x03 ∷ (length ws * 2) ∷ []) ws _ m.values words refl (omega arith)
            (omega arith)))

  pub checked-read_response :
      checked m ≡ (record m { values = stored m.address_data 0 ws m.values }, true)
  checked-read_response =
      checked-decode m bad_frame-read_response ∙ ap (λ c. decode c m) code ∙ decode-read_response
