-- ===== src/Modbus/Receive/Pieces.antt =====
-- A response that the serial line delivers in pieces.
use mathlib.Core.List.{append_assoc, append-nil}
use fiware_io_tagent_cpluspl.Common.{
  ℕ, ◌+◌, ◌-◌, ◌*◌, ◌≤◌, ◌<◌, ◌≡◌, ◌≢◌, refl, sym, ap, ◌∙◌, Bool, true, false, ◌&&◌, List, [], ◌∷◌,
  ◌++◌, arith, leb, ◌==◌, if◌then◌else◌, length, get_or, get_or-append_left, length-append, All,
}
use fiware_io_tagent_cpluspl.Modbus.Frame.{read_holding_registers, append_crc, Modbus}
use fiware_io_tagent_cpluspl.Modbus.Receive.{
  check_completed, completed_by, received, receive_modbus_frame, checked,
}
use fiware_io_tagent_cpluspl.Modbus.Receive.Reading.{
  IsWord, read_response, read_response-length, stored, checked-read_response,
}

-- The calls of `receive_modbus_frame` for the pieces, up to the first one that is refused.
unfoldable pub receive_all : Modbus → List (List ℕ) → Modbus × Bool
receive_all m [] = (m, true)
receive_all m (piece ∷ pieces) =
    let (n, ok) = receive_modbus_frame m piece in
    let rest = receive_all n pieces in if ok then rest else (n, false)

abbrev pub joined : List (List ℕ) → List ℕ
joined [] = []
joined (piece ∷ pieces) = piece ++ joined pieces

-- The test for completion on a part `r` of a response, and on a whole one.
short_test :
    (r rest : List ℕ) (bytes : ℕ)
    → get_or (r ++ rest) 2 0 ≡ bytes
    → length r < bytes + 5
    → (leb 3 (length r) && (length r - 2 == get_or r 2 0 + 3)) ≡ false
short_test r rest bytes e h = ground (arith, get_or-append_left r rest 2 0)

whole_test :
    (r : List ℕ) (bytes : ℕ)
    → get_or r 2 0 ≡ bytes
    → length r ≡ bytes + 5
    → (leb 3 (length r) && (length r - 2 == get_or r 2 0 + 3)) ≡ true
whole_test r bytes e h = ground arith

module _ (m : Modbus) (piece : List ℕ) (code : m.function_code ≡ read_holding_registers) where
  abbrev gathered : List ℕ
  gathered = m.modbus_frame_response ++ piece

  check_completed-read : check_completed m piece ≡ (
    record m { modbus_frame_response = gathered },
    leb 3 (length gathered) && (length gathered - 2 == get_or gathered 2 0 + 3),
  )
  unfolding check_completed completed_by
  check_completed-read =
      ap (λ c. completed_by c (record m { modbus_frame_response = gathered }) gathered) code

  received_short :
      (leb 3 (length gathered) && (length gathered - 2 == get_or gathered 2 0 + 3)) ≡ false
      → received m piece ≡ (record m { modbus_frame_response = gathered; completed = false }, true)
  unfolding received
  received_short e = rw (check_completed-read, received) (rw e refl)

  received_whole :
      (leb 3 (length gathered) && (length gathered - 2 == get_or gathered 2 0 + 3)) ≡ true
      → received m piece
        ≡ checked (record m { modbus_frame_response = gathered; completed = true; finished = true })
  unfolding received
  received_whole e = rw (check_completed-read, received) (rw e refl)

module _ (m : Modbus) (piece : List ℕ) (request : 0 < length m.modbus_frame) where
  pub receive_of :
      (n : Modbus) → received m piece ≡ (n, true) → receive_modbus_frame m piece ≡ (n, true)
  unfolding receive_modbus_frame
  receive_of n e =
      let some_request : (length m.modbus_frame == 0) ≡ false = ground arith in
      rw some_request (rw e refl)

length-ne_zero {ℓ} : {A : Type ℓ} (xs : List A) → xs ≢ [] → 0 < length xs
length-ne_zero [] h = absurd (h refl)
length-ne_zero (x ∷ xs) h = omega arith

third_byte : (slave : ℕ) (ws : List ℕ) → get_or (read_response slave ws) 2 0 ≡ length ws * 2
unfolding append_crc
third_byte slave ws = refl

abbrev pub finished_read : Modbus → List ℕ → Modbus
finished_read m ws = record m {
  modbus_frame_response = read_response m.slave_address ws;
  values = stored m.address_data 0 ws m.values;
  completed = true;
  finished = true;
}

receive_last :
    (m : Modbus) (piece ws : List ℕ)
    → m.function_code ≡ read_holding_registers
    → 0 < length m.modbus_frame
    → m.slave_address < 256
    → length ws ≤ 127
    → All IsWord ws
    → m.modbus_frame_response ++ piece ≡ read_response m.slave_address ws
    → receive_modbus_frame m piece ≡ (finished_read m ws, true)
receive_last m piece ws code request slave count words e =
    let all = m.modbus_frame_response ++ piece in
    let n = record m { modbus_frame_response = all; completed = true; finished = true } in
    receive_of m piece request (finished_read m ws) (
      received_whole m piece code (
        whole_test all (length ws * 2) (ap (λ r. get_or r 2 0) e ∙ third_byte m.slave_address ws)
          (ap length e ∙ read_response-length m.slave_address ws))
      ∙ checked-read_response n ws e code slave count words
      ∙ ap {B = Modbus × Bool}
          (λ r. (record (finished_read m ws) { modbus_frame_response = r }, true)) e)

receive_part :
    (m : Modbus) (piece rest ws : List ℕ)
    → m.function_code ≡ read_holding_registers
    → 0 < length m.modbus_frame
    → rest ≢ []
    → m.modbus_frame_response ++ piece ++ rest ≡ read_response m.slave_address ws
    → receive_modbus_frame m piece ≡ (
      record m { modbus_frame_response = m.modbus_frame_response ++ piece; completed = false },
      true,
    )
receive_part m piece rest ws code request more e = receive_of m piece request _ (
    received_short m piece code (
      short_test (m.modbus_frame_response ++ piece) rest (length ws * 2)
        (ap (λ r. get_or r 2 0) e ∙ third_byte m.slave_address ws)
        (omega (
          arith,
          ap length e,
          length-append (m.modbus_frame_response ++ piece) rest,
          read_response-length m.slave_address ws,
          length-ne_zero rest more,
        ))))

append-ne_nil {ℓ} : {A : Type ℓ} (xs ys : List A) → xs ≢ [] → xs ++ ys ≢ []
append-ne_nil [] ys h = absurd (h refl)
append-ne_nil (x ∷ xs) ys h = cc

pub receive_all_next :
    (m n : Modbus) (piece : List ℕ) (pieces : List (List ℕ))
    → receive_modbus_frame m piece ≡ (n, true)
    → receive_all m (piece ∷ pieces) ≡ receive_all n pieces
unfolding receive_all
receive_all_next m n piece pieces e = rw e refl

-- A slave's answer to a read request of at most 127 registers is accepted however the serial line
-- splits it into non-empty pieces: no piece is refused, the exchange is complete and finished after
-- the last one, and the registers are stored from the key after the requested address on.
pub receive_all-read_response :
    (m : Modbus) (piece : List ℕ) (pieces : List (List ℕ)) (ws : List ℕ)
    → m.function_code ≡ read_holding_registers
    → 0 < length m.modbus_frame
    → m.slave_address < 256
    → length ws ≤ 127
    → All IsWord ws
    → All (λ p. p ≢ []) (piece ∷ pieces)
    → m.modbus_frame_response ++ joined (piece ∷ pieces) ≡ read_response m.slave_address ws
    → receive_all m (piece ∷ pieces) ≡ (finished_read m ws, true)
receive_all-read_response m piece [] ws code request slave count words full e =
    receive_all_next m _ piece [] (
      receive_last m piece ws code request slave count words
        (ap (λ p. m.modbus_frame_response ++ p) (sym (append-nil piece)) ∙ e))
    ∙ unfold receive_all in refl
receive_all-read_response m piece (next ∷ pieces) ws code request slave count words full e =
    let split = append_assoc m.modbus_frame_response piece (joined (next ∷ pieces)) ∙ e in
    let n = record m {
      modbus_frame_response = m.modbus_frame_response ++ piece;
      completed = false;
    } in
    receive_all_next m n piece (next ∷ pieces) (
      receive_part m piece (joined (next ∷ pieces)) ws code request
        (append-ne_nil next (joined pieces) full.1.0) split)
    ∙ receive_all-read_response n next pieces ws code request slave count words full.1 split
