-- ===== src/Modbus/Receive/Writing.antt =====
-- The two answers to a write of several registers: the echo, where it has to be confirmed, and the
-- acknowledgement.
use fiware_io_tagent_cpluspl.Common.{
  ℕ, ◌^◌, ◌≤◌, ◌<◌, ◌≡◌, ◌≢◌, refl, sym, ap, ◌∙◌, Bool, true, false, List, [], ◌∷◌, ◌++◌, arith,
  ◌==◌, length, Bytes, str_eq_iff, some,
}
use fiware_io_tagent_cpluspl.Modbus.Frame.{
  preset_multiple_register, append_crc, new_write, request_body, function_byte, Modbus,
}
use fiware_io_tagent_cpluspl.Modbus.Receive.{
  word_at, check_completed, completed_by, checked, decode, received, receive_modbus_frame,
}
use fiware_io_tagent_cpluspl.Modbus.Receive.Checksum.{
  check_crc-append_crc, bad_frame-eq_false, checked-decode, constructors-check_crc,
  request_body-IsByte, length-append_crc,
}
use fiware_io_tagent_cpluspl.Modbus.Receive.Pieces.{receive_all, receive_all_next, receive_of}

-- What the slave answers once it has written `n` registers.
abbrev pub acknowledgement : ℕ → ℕ → ℕ → List ℕ
acknowledgement slave address n = append_crc (request_body slave preset_multiple_register address n)

module _ (slave address : ℕ) (values : List ℕ) (operation : Bytes) where
  abbrev write : Bool → Modbus
  write confirmed = new_write slave preset_multiple_register address values operation confirmed

  -- The state after the echo has come back.
  abbrev echoed : Modbus
  echoed = record (write true) { confirmed = true }

  decode_acknowledged :
      (m : Modbus)
      → m.modbus_frame_response ≡ acknowledgement slave address (length values)
      → m.address_data ≡ address
      → m.values_to_write ≡ values
      → m.confirmed ≡ true
      → address < 2 ^ 16
      → length values < 2 ^ 16
      → decode preset_multiple_register m ≡ (m, true)
  unfolding decode append_crc word_at
  decode_acknowledged m r a v c ha hn = ground (arith)

module _ (m : Modbus) (r : List ℕ) where
  completed_by_echo :
      m.need_be_confirmed ≡ true
      → m.confirmed ≡ false
      → r ≡ m.modbus_frame
      → completed_by preset_multiple_register m r
        ≡ (record m { confirmed = true; modbus_frame_response = [] }, false)
  unfolding completed_by
  completed_by_echo need unconfirmed e =
      ground (arith, str_eq_iff r m.modbus_frame, ap (length {A = ℕ}) e)

  completed_by_other :
      m.need_be_confirmed ≡ true
      → m.confirmed ≡ false
      → r ≢ m.modbus_frame
      → length m.modbus_frame ≤ length r
      → completed_by preset_multiple_register m r ≡ (m, true)
  unfolding completed_by
  completed_by_other need unconfirmed ne long = ground (arith, str_eq_iff r m.modbus_frame)

  completed_by_size :
      m.confirmed ≡ true → 8 ≤ length r → completed_by preset_multiple_register m r ≡ (m, true)
  unfolding completed_by
  completed_by_size known long = ground arith

module _ (m n : Modbus) (piece : List ℕ) where
  received_next :
      check_completed m piece ≡ (n, false)
      → received m piece ≡ (record n { completed = false }, true)
  unfolding received
  received_next e = rw (e, received) refl

  pub received_done :
      check_completed m piece ≡ (n, true)
      → received m piece ≡ checked (record n { completed = true; finished = true })
  unfolding received
  received_done e = rw (e, received) refl

module _ (slave address : ℕ) (values : List ℕ) (operation : Bytes) (hs : slave < 256) where
  write_frame_size :
      (confirmed : Bool) → 8 ≤ length (write slave address values operation confirmed).modbus_frame
  write_frame_size confirmed =
      let sizes =
        constructors-check_crc slave preset_multiple_register address 0 values operation confirmed
          hs in
      omega arith

  receive_echo :
      receive_modbus_frame
        (write slave address values operation true)
        (write slave address values operation true).modbus_frame
      ≡ (echoed slave address values operation, true)
  unfolding check_completed new_write
  receive_echo =
      let m = write slave address values operation true in
      receive_of m m.modbus_frame (omega (arith, write_frame_size true)) _ (
        received_next m (echoed slave address values operation) m.modbus_frame (
          completed_by_echo (record m { modbus_frame_response = m.modbus_frame }) m.modbus_frame
            refl refl refl))

  acknowledgement-size : 8 ≤ length (acknowledgement slave address (length values))
  acknowledgement-size = omega (
    arith,
    length-append_crc (request_body slave preset_multiple_register address (length values)),
  )

  receive_acknowledged :
      (m : Modbus)
      → m.modbus_frame_response ≡ []
      → m.slave_address ≡ slave
      → m.function_code ≡ preset_multiple_register
      → m.address_data ≡ address
      → m.values_to_write ≡ values
      → m.confirmed ≡ true
      → 0 < length m.modbus_frame
      → address < 2 ^ 16
      → length values < 2 ^ 16
      → receive_modbus_frame m (acknowledgement slave address (length values)) ≡ (
        record m {
          modbus_frame_response = acknowledgement slave address (length values);
          completed = true;
          finished = true;
        },
        true,
      )
  unfolding check_completed append_crc
  receive_acknowledged m r s f a v c some_request ha hn =
      let ack = acknowledgement slave address (length values) in
      let body = request_body slave preset_multiple_register address (length values) in
      let n : Modbus = record m { modbus_frame_response = ack } in
      let done : Modbus = record n { completed = true; finished = true } in
      let complete =
        ap (λ g. completed_by m.function_code (record m { modbus_frame_response = g }) g)
          (ap (λ x. x ++ ack) r)
        ∙ ap (λ code. completed_by code n ack) f
        ∙ completed_by_size n ack c acknowledgement-size in
      let passes =
        bad_frame-eq_false done (ap some (sym s)) (ap (λ code. some (function_byte code)) (sym f)) (
          check_crc-append_crc body
            (request_body-IsByte slave preset_multiple_register address (length values) hs)) in
      receive_of m ack some_request done (
        received_done m n ack complete
        ∙ checked-decode done passes
        ∙ ap (λ code. decode code done) f
        ∙ decode_acknowledged slave address values operation done refl a v c ha hn)

-- A write of several registers that has to be confirmed takes the echo of its frame without being
-- completed, and is completed and accepted by the acknowledgement that follows; one that needs no
-- confirmation is completed by the acknowledgement alone.
pub receive-new_write :
    (slave address : ℕ) (values : List ℕ) (operation : Bytes)
    → slave < 256
    → address < 2 ^ 16
    → length values < 2 ^ 16
    → let ack = acknowledgement slave address (length values) in
      let confirmed = new_write slave preset_multiple_register address values operation true in
      let plain = new_write slave preset_multiple_register address values operation false in
      (receive_modbus_frame confirmed confirmed.modbus_frame
        ≡ (record confirmed { confirmed = true }, true))
      × (receive_all confirmed (confirmed.modbus_frame ∷ ack ∷ []) ≡ (
        record confirmed {
          confirmed = true;
          modbus_frame_response = ack;
          completed = true;
          finished = true;
        },
        true,
      ))
      × (receive_modbus_frame plain ack
          ≡ (record plain { modbus_frame_response = ack; completed = true; finished = true }, true))
unfolding new_write receive_all
receive-new_write slave address values operation hs ha hn =
    let confirmed = write slave address values operation true in
    let plain = write slave address values operation false in
    let known = echoed slave address values operation in
    let ack = acknowledgement slave address (length values) in
    let size = write_frame_size slave address values operation hs in
    let first = receive_echo slave address values operation hs in
    let second =
      receive_acknowledged slave address values operation hs known refl refl refl refl refl refl
        (omega (arith, size true)) ha hn in
    (
      first,
      receive_all_next confirmed known confirmed.modbus_frame (ack ∷ []) first
          ∙ receive_all_next known _ ack [] second,
      receive_acknowledged slave address values operation hs plain refl refl refl refl refl refl
          (omega (arith, size false)) ha hn,
    )

checked_unconfirmed :
    (m : Modbus)
    → m.function_code ≡ preset_multiple_register
    → m.confirmed ≡ false
    → checked m ≡ (m, false)
unfolding checked decode
checked_unconfirmed m code unconfirmed = ground arith

pub receive_refused :
    (m n : Modbus) (piece : List ℕ)
    → 0 < length m.modbus_frame
    → received m piece ≡ (n, false)
    → receive_modbus_frame m piece ≡ (record n { finished = true; completed = true }, false)
unfolding receive_modbus_frame
receive_refused m n piece request e =
    let some_request : (length m.modbus_frame == 0) ≡ false = ground arith in
    rw some_request (rw e refl)

-- A write that has to be confirmed is refused and finished by any first piece at least as long as
-- the request that is not exactly its echo; so it is where the echo and the beginning of the
-- acknowledgement arrive in one piece.
pub receive-new_write_refused :
    (slave address : ℕ) (values piece : List ℕ) (operation : Bytes)
    → slave < 256
    → let m = new_write slave preset_multiple_register address values operation true in
      piece ≢ m.modbus_frame
      → length m.modbus_frame ≤ length piece
      → receive_modbus_frame m piece
        ≡ (record m { modbus_frame_response = piece; completed = true; finished = true }, false)
unfolding new_write check_completed
receive-new_write_refused slave address values piece operation hs ne long =
    let m = write slave address values operation true in
    let n : Modbus = record m { modbus_frame_response = piece } in
    receive_refused m (record n { completed = true; finished = true }) piece
      (omega (arith, write_frame_size slave address values operation hs true))
      (received_done m n piece (completed_by_other n piece refl refl ne long)
        ∙ checked_unconfirmed _ refl refl)
