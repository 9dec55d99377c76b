-- ===== src/Modbus/Receive/Refusal.antt =====
-- src/modbus/modbus.cc: which responses may change the registers.
use fiware_io_tagent_cpluspl.Common.{
  ℕ, ◌≡◌, ◌∙◌, refl, sym, ap, ◌⊎◌, inl, inr, true, false, Bool, not, ◌&&◌, ◌==◌, List, ◌++◌, Option,
  none, some, arith, length, ltb, str_eq, get_elem?, if◌then◌else◌, if-both,
}
use fiware_io_tagent_cpluspl.Modbus.Frame.{
  FunctionCode, read_holding_registers, preset_single_register, preset_multiple_register, Modbus,
  function_byte,
}
use fiware_io_tagent_cpluspl.Modbus.Receive.{
  check_crc, bad_frame, check_completed, completed_by, accept_if, decode, checked, received, close,
  receive_modbus_frame,
}

-- The response so far is of the slave that was asked, to the function of the request, and its checksum
-- is right.
abbrev pub IsGenuine : Modbus → List ℕ → Type 0
IsGenuine m response =
    (m.function_code ≡ read_holding_registers)
    × ((get_elem? response 0 ≡ some m.slave_address)
        × ((get_elem? response 1 ≡ some (function_byte m.function_code))
            × (check_crc response ≡ some true)))

-- The registers are those of `m`, unless its response is genuine.
abbrev KeepsOf : Modbus → Modbus × Bool → Type 0
KeepsOf m (n, ok) = (n.values ≡ m.values) ⊎ IsGenuine m m.modbus_frame_response

bad_frame-eq_false :
    (m : Modbus)
    → bad_frame m ≡ some false
    → m.function_code ≡ read_holding_registers
    → IsGenuine m m.modbus_frame_response
unfolding bad_frame
bad_frame-eq_false m e f = (f, ground (arith, e))

accept_if-KeepsOf : (m : Modbus) (o : Option Bool) → KeepsOf m (accept_if m o)
accept_if-KeepsOf m none = inl refl
accept_if-KeepsOf m (some ok) = inl refl

decode-KeepsOf :
    (code : FunctionCode) (m : Modbus)
    → m.function_code ≡ code
    → bad_frame m ≡ some false
    → KeepsOf m (decode code m)
unfolding decode
decode-KeepsOf read_holding_registers m f e = inr (bad_frame-eq_false m e f)
decode-KeepsOf preset_single_register m f e = accept_if-KeepsOf m _
decode-KeepsOf preset_multiple_register m f e =
    if-both (KeepsOf m) (not m.confirmed) _ _ (λ _. inl refl) (λ _. accept_if-KeepsOf m _)

checked-KeepsOf : (m : Modbus) → KeepsOf m (checked m)
unfolding checked
checked-KeepsOf m = by_bad (bad_frame m) refl
  where
    by_bad :
        (bad : Option Bool)
        → bad_frame m ≡ bad
        → KeepsOf m (elim bad [
          | none ↦ (m, false)
          | some true ↦ (m, false)
          | some false ↦ decode m.function_code m
        ])
    by_bad none e = inl refl
    by_bad (some true) e = inl refl
    by_bad (some false) e = decode-KeepsOf m.function_code m refl e

-- The test for completion changes nothing that matters here; it only forgets the response that confirms
-- a write.
abbrev IsSame : Modbus → Modbus → Type 0
IsSame m n =
    (n.values ≡ m.values)
    × ((n.function_code ≡ m.function_code)
        × ((n.slave_address ≡ m.slave_address)
            × (m.function_code ≡ read_holding_registers
                → n.modbus_frame_response ≡ m.modbus_frame_response)))

completed_by-IsSame :
    (code : FunctionCode) (m : Modbus) (response : List ℕ)
    → m.function_code ≡ code
    → IsSame m (completed_by code m response).0
unfolding completed_by
completed_by-IsSame read_holding_registers m response f = (refl, (refl, (refl, λ e. refl)))
completed_by-IsSame preset_single_register m response f = (refl, (refl, (refl, λ e. refl)))
completed_by-IsSame preset_multiple_register m response f =
    let same : IsSame m m = (refl, (refl, (refl, λ e. refl))) in
    let P : Modbus × Bool → Type 0 = λ r. IsSame m r.0 in
    if-both P (m.need_be_confirmed && not m.confirmed) _ _
      (λ _.
        if-both P (length response == length m.modbus_frame) _ _
          (λ _.
            if-both P (str_eq response m.modbus_frame) _ _
              (λ _. (refl, (refl, (refl, λ e. absurd (ground (arith, f, e)))))) (λ _. same))
          (λ _.
            if-both P (ltb (length m.modbus_frame) (length response)) _ _ (λ _. same) (λ _. same)))
      (λ _. same)

IsGenuine-of_IsSame :
    (m n : Modbus)
    → IsSame m n
    → IsGenuine n n.modbus_frame_response
    → IsGenuine m m.modbus_frame_response
IsGenuine-of_IsSame m n (values, (code, (slave, kept))) (f, (first, (second, checksum))) =
    let f_m : m.function_code ≡ read_holding_registers = sym code ∙ f in
    let response : m.modbus_frame_response ≡ n.modbus_frame_response = sym (kept f_m) in
    (
      f_m,
      (
        ap (λ (r : List ℕ). get_elem? r 0) response ∙ first ∙ ap some slave,
        (
          ap (λ (r : List ℕ). get_elem? r 1) response
              ∙ second
              ∙ ap (λ (c : FunctionCode). some (function_byte c)) code,
          ap check_crc response ∙ checksum,
        ),
      ),
    )

KeepsOf-of_IsSame : (m n : Modbus) (r : Modbus × Bool) → IsSame m n → KeepsOf n r → KeepsOf m r
KeepsOf-of_IsSame m n (end, ok) same (inl kept) = inl (kept ∙ same.0)
KeepsOf-of_IsSame m n (end, ok) same (inr genuine) = inr (IsGenuine-of_IsSame m n same genuine)

close-KeepsOf : (m : Modbus) (r : Modbus × Bool) → KeepsOf m r → KeepsOf m (close r)
close-KeepsOf m (n, true) h = h
close-KeepsOf m (n, false) h = h

abbrev gather : Modbus → List ℕ → Modbus
gather m piece = record m { modbus_frame_response = m.modbus_frame_response ++ piece }

received-KeepsOf : (m : Modbus) (piece : List ℕ) → KeepsOf (gather m piece) (received m piece)
unfolding received check_completed
received-KeepsOf m piece =
    by_done (completed_by m.function_code (gather m piece) (m.modbus_frame_response ++ piece))
      (completed_by-IsSame m.function_code (gather m piece) (m.modbus_frame_response ++ piece) refl)
  where
    by_done :
        (c : Modbus × Bool)
        → IsSame (gather m piece) c.0
        → KeepsOf (gather m piece) (
            if c.1
            then checked (record c.0 { completed = true; finished = true })
            else (record c.0 { completed = false }, true))
    by_done (n, true) same =
        KeepsOf-of_IsSame (gather m piece) (record n { completed = true; finished = true })
          (checked (record n { completed = true; finished = true })) same
          (checked-KeepsOf (record n { completed = true; finished = true }))
    by_done (n, false) same = inl same.0

-- Whatever the piece that arrives: the registers stay as they are, unless registers were asked for and the
-- response gathered so far has the address of the slave that was asked, the byte of the function, and
-- a right checksum.
pub receive-of_IsGenuine :
    (m : Modbus) (piece : List ℕ)
    → ((receive_modbus_frame m piece).0.values ≡ m.values)
      ⊎ IsGenuine m (m.modbus_frame_response ++ piece)
unfolding receive_modbus_frame
receive-of_IsGenuine m piece =
    if-both
      (λ (r : Modbus × Bool).
        (r.0.values ≡ m.values) ⊎ IsGenuine m (m.modbus_frame_response ++ piece))
      (length m.modbus_frame == 0) _ _ (λ _. inl refl)
      (λ _.
        by_pair (close (received m piece))
          (close-KeepsOf (gather m piece) (received m piece) (received-KeepsOf m piece)))
  where
    by_pair :
        (r : Modbus × Bool)
        → KeepsOf (gather m piece) r
        → (r.0.values ≡ m.values) ⊎ IsGenuine m (m.modbus_frame_response ++ piece)
    by_pair (n, ok) h = h
