-- ===== src/Modbus/Receive/Checksum.antt =====
-- `check_crc` on frames that end in the checksum of what stands before it.
use fiware_io_tagent_cpluspl.Common.{
  ℕ, ◌+◌, ◌-◌, ◌*◌, ◌^◌, ◌<◌, ◌≡◌, false, get_elem?, refl, ap, true, List, [], ◌∷◌, ◌++◌, some,
  arith, length, get_elem?, length-append, take-append_left, get_elem?-append_right, All,
  All-append, ==_self, Bool, Bytes,
}
use fiware_io_tagent_cpluspl.Modbus.Crc.{crc}
use fiware_io_tagent_cpluspl.Modbus.Crc.Reference.{IsByte, crc-reference}
use fiware_io_tagent_cpluspl.Modbus.Frame.{
  FunctionCode, high_byte, low_byte, append_crc, word_bytes, request_body, write_body, new_request,
  new_write, Modbus, function_byte,
}
use fiware_io_tagent_cpluspl.Modbus.Receive.{word_at, check_crc, bad_frame, checked, decode}

pub word_at-append :
    (xs ys : List ℕ) (a b i : ℕ) → i ≡ length xs → word_at (xs ++ a ∷ b ∷ ys) i ≡ some (a * 256 + b)
unfolding word_at
word_at-append xs ys a b i h =
    rw
      (
        get_elem?-append_right xs (a ∷ b ∷ ys) i 0 (omega arith),
        get_elem?-append_right xs (a ∷ b ∷ ys) (i + 1) 1 (omega arith),
      )
      refl

pub bytes_of_word : (w : ℕ) → w < 2 ^ 16 → high_byte w * 256 + low_byte w ≡ w
bytes_of_word w h = omega arith

pub length-append_crc : (body : List ℕ) → length (append_crc body) ≡ length body + 2
unfolding append_crc
length-append_crc body = length-append body _

pub append_crc-IsByte : (body : List ℕ) → All IsByte body → All IsByte (append_crc body)
unfolding append_crc
append_crc-IsByte body h = All-append IsByte body _ h (omega arith)

-- A frame that ends in the checksum of its body passes.
pub check_crc-append_crc :
    (body : List ℕ) → All IsByte body → check_crc (append_crc body) ≡ some true
unfolding check_crc append_crc
check_crc-append_crc body h =
    let c = crc body in
    let n : length (body ++ high_byte c ∷ low_byte c ∷ []) - 2 ≡ length body =
      omega (arith, length-append body (high_byte c ∷ low_byte c ∷ [])) in
    rw
      (
        n,
        word_at-append body [] (high_byte c) (low_byte c) (length body) refl,
        take-append_left (length body) body (high_byte c ∷ low_byte c ∷ []) refl,
        bytes_of_word c (crc-reference body h).1,
      )
      (ap some (==_self c))

pub word_bytes-IsByte : (ws : List ℕ) → All IsByte (word_bytes ws)
unfolding word_bytes
word_bytes-IsByte [] = tt
word_bytes-IsByte (w ∷ ws) = (omega arith, (omega arith, word_bytes-IsByte ws))

pub length-word_bytes : (ws : List ℕ) → length (word_bytes ws) ≡ length ws * 2
unfolding word_bytes
length-word_bytes [] = refl
length-word_bytes (w ∷ ws) = omega (arith, length-word_bytes ws)

pub request_body-IsByte :
    (slave : ℕ) (code : FunctionCode) (address number : ℕ)
    → slave < 256
    → All IsByte (request_body slave code address number)
request_body-IsByte slave code address number h = ground arith

pub write_body-IsByte :
    (slave : ℕ) (code : FunctionCode) (address : ℕ) (values : List ℕ)
    → slave < 256
    → All IsByte (write_body slave code address values)
write_body-IsByte slave code address values h = ground (arith, word_bytes-IsByte values)

-- Both constructors build a frame of bytes that passes the check of the checksum. A frame that
-- writes `n` registers has 9 + 2n bytes, any other request has 8.
pub constructors-check_crc :
    (slave : ℕ) (code : FunctionCode) (address number : ℕ) (values : List ℕ) (operation : Bytes)
    (confirmed : Bool)
    → slave < 256
    → let request = (new_request slave code address number operation).modbus_frame in
      let write = (new_write slave code address values operation confirmed).modbus_frame in
      (check_crc request ≡ some true)
      × (length request ≡ 8)
      × All IsByte request
      × (check_crc write ≡ some true)
      × (length write ≡ length values * 2 + 9)
      × All IsByte write
unfolding new_request new_write
constructors-check_crc slave code address number values operation confirmed h =
    let request = request_body-IsByte slave code address number h in
    let write = write_body-IsByte slave code address values h in
    (
      check_crc-append_crc _ request,
      length-append_crc _,
      append_crc-IsByte _ request,
      check_crc-append_crc _ write,
      omega (
        arith,
        length-append_crc (write_body slave code address values),
        length-word_bytes values,
      ),
      append_crc-IsByte _ write,
    )

-- The header and the checksum that `receive_modbus_frame` lets pass.
pub bad_frame-eq_false :
    (m : Modbus)
    → get_elem? m.modbus_frame_response 0 ≡ some m.slave_address
    → get_elem? m.modbus_frame_response 1 ≡ some (function_byte m.function_code)
    → check_crc m.modbus_frame_response ≡ some true
    → bad_frame m ≡ some false
unfolding bad_frame
bad_frame-eq_false m slave code sum = rw slave (
    rw (==_self m.slave_address)
      (rw code (rw (==_self (function_byte m.function_code)) (rw sum refl))))

pub checked-decode : (m : Modbus) → bad_frame m ≡ some false → checked m ≡ decode m.function_code m
unfolding checked
checked-decode m e = rw (e, checked) refl
