-- ===== src/Modbus/Crc/Reference.antt =====
-- The checksum that the protocol defines, CRC-16/MODBUS, bit by bit: the reflected polynomial
-- 0xA001 and the initial value 0xFFFF. The tables of `Modbus::crc` are checked against it.
use Prim.Native.Nat.{bit_xor}
use fiware_io_tagent_cpluspl.Common.{
  ℕ, zero, suc, ◌+◌, ◌*◌, ◌/◌, ◌%◌, ◌^◌, ◌<◌, ◌≡◌, refl, sym, ap, ◌∙◌, true, ◌&&◌, List, [], ◌∷◌,
  arith, ◌==◌, if◌then◌else◌, get_or, All, ltb, all_below, all_below-holds,
}
use fiware_io_tagent_cpluspl.Common.Bits.{
  bit_xor-mod, bit_xor-div, bit_xor_comm, bit_xor_assoc, bit_xor_self, bit_xor_byte, bit_xor-lt,
  zero-bit_xor,
}
use fiware_io_tagent_cpluspl.Modbus.Crc.{
  table_crc_hi, table_crc_lo, Register, crc_round, crc_loop, crc,
}

-- One bit of the division.
pub shift : ℕ → ℕ
shift x = if x % 2 == 1 then bit_xor (x / 2) 0xA001 else x / 2

pub shifts : ℕ → ℕ → ℕ
shifts zero x = x
shifts (suc n) x = shifts n (shift x)

-- A byte enters at the low end of the register, and is shifted through.
pub reference_loop : ℕ → List ℕ → ℕ
reference_loop x [] = x
reference_loop x (b ∷ frame) = reference_loop (shifts 8 (bit_xor x b)) frame

unfoldable pub reference : List ℕ → ℕ
reference frame = reference_loop 0xFFFF frame

-- The shift is linear, and undoes a doubling.
xor_swap : (a b c : ℕ) → bit_xor (bit_xor a b) c ≡ bit_xor (bit_xor a c) b
xor_swap a b c = bit_xor_assoc a b c ∙ ap (bit_xor a) (bit_xor_comm b c) ∙ sym (bit_xor_assoc a c b)

xor_masks : (a b c : ℕ) → bit_xor (bit_xor a c) (bit_xor b c) ≡ bit_xor a b
xor_masks a b c =
    bit_xor_assoc a c (bit_xor b c)
    ∙ ap (bit_xor a) (
        ap (bit_xor c) (bit_xor_comm b c)
        ∙ sym (bit_xor_assoc c c b)
        ∙ ap (λ t. bit_xor t b) (bit_xor_self c)
        ∙ zero-bit_xor b)

shift-bit_xor : (x y : ℕ) → shift (bit_xor x y) ≡ bit_xor (shift x) (shift y)
unfolding shift
shift-bit_xor x y = ground (
  arith,
  bit_xor-mod x y,
  bit_xor-div x y,
  xor_masks (x / 2) (y / 2) 0xA001,
  xor_swap (x / 2) 0xA001 (y / 2),
  bit_xor_assoc (x / 2) (y / 2) 0xA001,
)

shifts-bit_xor : (n x y : ℕ) → shifts n (bit_xor x y) ≡ bit_xor (shifts n x) (shifts n y)
unfolding shifts
shifts-bit_xor zero x y = refl
shifts-bit_xor (suc n) x y =
    ap (shifts n) (shift-bit_xor x y) ∙ shifts-bit_xor n (shift x) (shift y)

shift_double : (x : ℕ) → shift (x * 2) ≡ x
unfolding shift
shift_double x = ground arith

shifts_high : (h : ℕ) → shifts 8 (h * 256) ≡ h
unfolding shifts
shifts_high h =
    let doubled : h * 256 ≡ h * 2 * 2 * 2 * 2 * 2 * 2 * 2 * 2 = omega arith in
    rw doubled (simp shift_double)

-- The check of the two tables, entry by entry.
abbrev entry_hi : ℕ → ℕ
entry_hi i = get_or table_crc_hi i 0

abbrev entry_lo : ℕ → ℕ
entry_lo i = get_or table_crc_lo i 0

entries_checked :
    all_below 256 (λ i.
      (shifts 8 i == entry_lo i * 256 + entry_hi i)
      && (ltb (entry_lo i) 256 && ltb (entry_hi i) 256))
    ≡ true
unfolding all_below shifts shift table_crc_hi table_crc_lo
entries_checked = refl

entry_lem :
    (i : ℕ)
    → i < 256
    → (shifts 8 i ≡ entry_lo i * 256 + entry_hi i) × (entry_lo i < 256) × (entry_hi i < 256)
entry_lem i h = ground (arith, all_below-holds _ i 256 h entries_checked)

-- The 16-bit register of the reference: the code's `crc_hi` is its low byte.
abbrev value : Register → ℕ
value r = r.lo * 256 + r.hi

abbrev pub IsByte : ℕ → Type 0
IsByte b = b < 256

abbrev pub IsRegister : Register → Type 0
IsRegister r = (r.hi < 256) × (r.lo < 256)

value_fields : (r : Register) → r.hi < 256 → value r ≡ bit_xor (r.lo * 256) r.hi
value_fields r h = sym (bit_xor_byte r.lo r.hi h)

pub crc_round-IsRegister :
    (r : Register) (b : ℕ) → IsRegister r → b < 256 → IsRegister (crc_round r b)
unfolding crc_round
crc_round-IsRegister r b h hb =
    let e = entry_lem (bit_xor r.hi b) (bit_xor-lt 8 r.hi b h.0 hb) in
    (bit_xor-lt 8 r.lo (entry_hi (bit_xor r.hi b)) h.1 e.2, e.1)

crc_round_lem :
    (r : Register) (b : ℕ)
    → IsRegister r
    → b < 256
    → value (crc_round r b) ≡ shifts 8 (bit_xor (value r) b)
unfolding crc_round
crc_round_lem r b h hb =
    let i = bit_xor r.hi b in
    let small : i < 256 = bit_xor-lt 8 r.hi b h.0 hb in
    let e = entry_lem i small in
    sym (
      ap (λ t. shifts 8 (bit_xor t b)) (value_fields r h.0)
      ∙ ap (shifts 8) (bit_xor_assoc (r.lo * 256) r.hi b)
      ∙ shifts-bit_xor 8 (r.lo * 256) i
      ∙ ap (λ t. bit_xor t (shifts 8 i)) (shifts_high r.lo)
      ∙ ap (bit_xor r.lo) (e.0 ∙ sym (bit_xor_byte (entry_lo i) (entry_hi i) e.2))
      ∙ sym (bit_xor_assoc r.lo (entry_lo i * 256) (entry_hi i))
      ∙ ap (λ t. bit_xor t (entry_hi i)) (bit_xor_comm r.lo (entry_lo i * 256))
      ∙ bit_xor_assoc (entry_lo i * 256) r.lo (entry_hi i)
      ∙ bit_xor_byte (entry_lo i) (bit_xor r.lo (entry_hi i))
          (bit_xor-lt 8 r.lo (entry_hi i) h.1 e.2))

crc_loop_lem :
    (r : Register) (frame : List ℕ)
    → IsRegister r
    → All IsByte frame
    → (value (crc_loop r frame) ≡ reference_loop (value r) frame) × IsRegister (crc_loop r frame)
unfolding crc_loop reference_loop
crc_loop_lem r [] h hf = (refl, h)
crc_loop_lem r (b ∷ frame) h hf =
    let rest = crc_loop_lem (crc_round r b) frame (crc_round-IsRegister r b h hf.0) hf.1 in
    (rest.0 ∙ ap (λ t. reference_loop t frame) (crc_round_lem r b h hf.0), rest.1)

-- The two bytes of a 16-bit word change places: the protocol sends the low byte first.
abbrev pub swap_bytes : ℕ → ℕ
swap_bytes x = x % 256 * 256 + x / 256

-- For every frame of bytes the table-driven `Modbus::crc` is the bitwise CRC-16/MODBUS with its
-- two bytes exchanged, and is a 16-bit word.
pub crc-reference :
    (frame : List ℕ)
    → All IsByte frame
    → (crc frame ≡ swap_bytes (reference frame)) × (crc frame < 2 ^ 16)
unfolding crc reference
crc-reference frame h =
    let r = crc_loop_lem (record { hi = 0xFF; lo = 0xFF }) frame (omega arith) h in
    (omega arith, omega arith)
