-- ===== src/Modbus/Receive/Echo.antt =====
-- The responses to a write of one register, which echo the request.
use fiware_io_tagent_cpluspl.Common.{
  ℕ, ◌+◌, ◌*◌, ◌^◌, ◌<◌, ◌≡◌, ◌↔◌, sym, ap, ◌∙◌, Bool, true, ◌&&◌, List, [], ◌∷◌, arith, ◌==◌,
  length, All, Bytes,
}
use fiware_io_tagent_cpluspl.Modbus.Crc.{crc}
use fiware_io_tagent_cpluspl.Modbus.Crc.Reference.{IsByte, crc-reference}
use fiware_io_tagent_cpluspl.Modbus.Frame.{
  preset_single_register, append_crc, new_request, request_body, high_byte, low_byte, Modbus,
}
use fiware_io_tagent_cpluspl.Modbus.Receive.Checksum.{request_body-IsByte}
use fiware_io_tagent_cpluspl.Modbus.Receive.{
  word_at, check_crc, bad_frame, check_completed, completed_by, checked, decode, received,
  receive_modbus_frame,
}

module _ (slave address value : ℕ) (operation : Bytes) where
  abbrev request : Modbus
  request = new_request slave preset_single_register address value operation

  echo_test :
      (a b c d e f g h : ℕ)
      → (receive_modbus_frame request (a ∷ b ∷ c ∷ d ∷ e ∷ f ∷ g ∷ h ∷ [])).1
        ≡ (a == slave)
          && (b == 6)
          && (g * 256 + h == crc (a ∷ b ∷ c ∷ d ∷ e ∷ f ∷ []))
          && (c * 256 + d == address)
          && (e * 256 + f == value)
  unfolding new_request append_crc receive_modbus_frame received check_completed completed_by
      checked bad_frame check_crc word_at decode
  echo_test a b c d e f g h = ground arith

  module _ (a b c d e f g h : ℕ) where
    abbrev test : Bool
    test =
        (a == slave)
        && (b == 6)
        && (g * 256 + h == crc (a ∷ b ∷ c ∷ d ∷ e ∷ f ∷ []))
        && (c * 256 + d == address)
        && (e * 256 + f == value)

    fields_of_test :
        test ≡ true
        → (a ≡ slave)
          × (b ≡ 6)
          × (g * 256 + h ≡ crc (a ∷ b ∷ c ∷ d ∷ e ∷ f ∷ []))
          × (c * 256 + d ≡ address)
          × (e * 256 + f ≡ value)
    fields_of_test t = ground arith

    frame_of_test :
        All IsByte (a ∷ b ∷ c ∷ d ∷ e ∷ f ∷ g ∷ h ∷ [])
        → test ≡ true
        → (a ∷ b ∷ c ∷ d ∷ e ∷ f ∷ g ∷ h ∷ []) ≡ request.modbus_frame
    unfolding new_request append_crc
    frame_of_test bytes t =
        let (ha, hb, hg, hc, he) = fields_of_test t in
        let sum = crc (a ∷ b ∷ c ∷ d ∷ e ∷ f ∷ []) in
        let c' : c ≡ high_byte address = omega arith in
        let d' : d ≡ low_byte address = omega arith in
        let e' : e ≡ high_byte value = omega arith in
        let f' : f ≡ low_byte value = omega arith in
        let g' : g ≡ high_byte sum = omega arith in
        let h' : h ≡ low_byte sum = omega arith in
        let body : (a ∷ b ∷ c ∷ d ∷ e ∷ f ∷ [])
            ≡ request_body slave preset_single_register address value =
          cc (ha, hb, c', d', e', f') in
        cc (g' ∙ ap (λ r. high_byte (crc r)) body, h' ∙ ap (λ r. low_byte (crc r)) body)

    test_of_frame :
        slave < 256
        → address < 2 ^ 16
        → value < 2 ^ 16
        → (a ∷ b ∷ c ∷ d ∷ e ∷ f ∷ g ∷ h ∷ []) ≡ request.modbus_frame
        → test ≡ true
    unfolding new_request append_crc
    test_of_frame hs ha hv t = ground (
      arith,
      crc-reference (request_body slave preset_single_register address value)
          (request_body-IsByte slave preset_single_register address value hs),
    )

-- A complete response of eight bytes to a write of one register is accepted exactly when it is
-- the echo of the request.
pub receive-echo_iff :
    (slave address value : ℕ) (operation : Bytes) (response : List ℕ)
    → slave < 256
    → address < 2 ^ 16
    → value < 2 ^ 16
    → All IsByte response
    → length response ≡ 8
    → let m = new_request slave preset_single_register address value operation in
      ((receive_modbus_frame m response).1 ≡ true) ↔ (response ≡ m.modbus_frame)
receive-echo_iff slave address value op (a ∷ b ∷ c ∷ d ∷ e ∷ f ∷ g ∷ h ∷ []) hs ha hv bytes size =
    let run = echo_test slave address value op a b c d e f g h in
    (
      λ t. frame_of_test slave address value op a b c d e f g h bytes (sym run ∙ t),
      λ t. run ∙ test_of_frame slave address value op a b c d e f g h hs ha hv t,
    )
receive-echo_iff slave address value op _ hs ha hv bytes size = absurd (omega arith)
