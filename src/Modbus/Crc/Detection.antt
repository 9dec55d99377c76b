-- ===== src/Modbus/Crc/Detection.antt =====
-- What the checksum of `Modbus::crc` detects.
use Prim.Native.Nat.{bit_xor}
use fiware_io_tagent_cpluspl.Common.{
  ℕ, ◌+◌, ◌*◌, ◌<◌, ◌≡◌, refl, sym, ap, ◌∙◌, ◌≢◌, true, List, [], ◌∷◌, ◌++◌, arith, ◌==◌,
  if◌then◌else◌, get_or, All, All-append, ==_iff, all_below, all_below-holds,
}
use fiware_io_tagent_cpluspl.Common.Bits.{bit_xor-lt, bit_xor_cancel, bit_xor_comm}
use fiware_io_tagent_cpluspl.Modbus.Crc.{
  table_crc_hi, table_crc_lo, Register, crc_round, crc_loop, crc,
}
use fiware_io_tagent_cpluspl.Modbus.Crc.Reference.{IsByte, IsRegister, crc_round-IsRegister}

-- No value stands twice in the low table: its position is found again.
index_of : ℕ → ℕ → List ℕ → ℕ
index_of v n [] = n
index_of v n (x ∷ xs) = let rest = index_of v (n + 1) xs in if x == v then n else rest

positions_checked :
    all_below 256 (λ i. index_of (get_or table_crc_lo i 0) 0 table_crc_lo == i) ≡ true
unfolding all_below index_of table_crc_lo
positions_checked = refl

entry_lo-injective :
    (i j : ℕ) → i < 256 → j < 256 → get_or table_crc_lo i 0 ≡ get_or table_crc_lo j 0 → i ≡ j
entry_lo-injective i j hi hj e =
    sym ((==_iff _ i).0 (all_below-holds _ i 256 hi positions_checked))
    ∙ ap (λ v. index_of v 0 table_crc_lo) e
    ∙ (==_iff _ j).0 (all_below-holds _ j 256 hj positions_checked)

xor_right-injective : (a b c : ℕ) → bit_xor a c ≡ bit_xor b c → a ≡ b
xor_right-injective a b c e =
    sym (bit_xor_cancel a c) ∙ ap (λ t. bit_xor t c) e ∙ bit_xor_cancel b c

-- Two rounds that end in one register read one entry of the tables.
round_entry :
    (r s : Register) (a b : ℕ)
    → IsRegister r
    → IsRegister s
    → a < 256
    → b < 256
    → crc_round r a ≡ crc_round s b
    → (bit_xor r.hi a ≡ bit_xor s.hi b) × (r.lo ≡ s.lo)
unfolding crc_round
round_entry r s a b hr hs ha hb e =
    let same =
      entry_lo-injective (bit_xor r.hi a) (bit_xor s.hi b) (bit_xor-lt 8 r.hi a hr.0 ha)
        (bit_xor-lt 8 s.hi b hs.0 hb) (ap (λ (t : Register). t.lo) e) in
    let highs = ap (λ (t : Register). t.hi) e in
    (
      same,
      xor_right-injective r.lo s.lo (get_or table_crc_hi (bit_xor s.hi b) 0)
          (ap (λ i. bit_xor r.lo (get_or table_crc_hi i 0)) (sym same) ∙ highs),
    )

crc_loop-injective :
    (frame : List ℕ) (r s : Register)
    → All IsByte frame
    → IsRegister r
    → IsRegister s
    → crc_loop r frame ≡ crc_loop s frame
    → r ≡ s
unfolding crc_loop
crc_loop-injective [] r s h hr hs e = e
crc_loop-injective (b ∷ frame) r s h hr hs e =
    let same = round_entry r s b b hr hs h.0 h.0 (
      crc_loop-injective frame (crc_round r b) (crc_round s b) h.1 (crc_round-IsRegister r b hr h.0)
        (crc_round-IsRegister s b hs h.0) e) in
    cc (xor_right-injective r.hi s.hi b same.0, same.1)

pub crc_loop-append :
    (r : Register) (xs ys : List ℕ) → crc_loop r (xs ++ ys) ≡ crc_loop (crc_loop r xs) ys
unfolding crc_loop
crc_loop-append r [] ys = refl
crc_loop-append r (x ∷ xs) ys = crc_loop-append (crc_round r x) xs ys

pub crc_loop-IsRegister :
    (r : Register) (frame : List ℕ)
    → IsRegister r
    → All IsByte frame
    → IsRegister (crc_loop r frame)
unfolding crc_loop
crc_loop-IsRegister r [] h hf = h
crc_loop-IsRegister r (b ∷ frame) h hf =
    crc_loop-IsRegister (crc_round r b) frame (crc_round-IsRegister r b h hf.0) hf.1

join-injective :
    (r s : Register) → IsRegister r → IsRegister s → r.hi * 256 + r.lo ≡ s.hi * 256 + s.lo → r ≡ s
join-injective r s hr hs e = ground arith

xor_left-injective : (a b c : ℕ) → bit_xor c a ≡ bit_xor c b → a ≡ b
xor_left-injective a b c e = xor_right-injective a b c (bit_xor_comm a c ∙ e ∙ bit_xor_comm c b)

-- A change of one byte changes the register, whatever follows.
crc_loop-single_byte :
    (r : Register) (before behind : List ℕ) (a b : ℕ)
    → IsRegister r
    → All IsByte before
    → All IsByte behind
    → a < 256
    → b < 256
    → crc_loop r (before ++ a ∷ behind) ≡ crc_loop r (before ++ b ∷ behind)
    → a ≡ b
unfolding crc_loop
crc_loop-single_byte r before behind a b hr hx hy ha hb e =
    let s = crc_loop r before in
    let ok = crc_loop-IsRegister r before hr hx in
    let joined =
      sym (crc_loop-append r before (a ∷ behind)) ∙ e ∙ crc_loop-append r before (b ∷ behind) in
    let same =
      crc_loop-injective behind (crc_round s a) (crc_round s b) hy (crc_round-IsRegister s a ok ha)
        (crc_round-IsRegister s b ok hb) joined in
    xor_left-injective a b s.hi (round_entry s s a b ok ok ha hb same).0

IsByte-between :
    (xs ys : List ℕ) (a : ℕ) → All IsByte xs → a < 256 → All IsByte ys → All IsByte (xs ++ a ∷ ys)
IsByte-between xs ys a hx ha hy = All-append IsByte xs (a ∷ ys) hx (ha, hy)

-- A frame in which one byte has been changed, wherever it stands, has another checksum.
pub crc-ne_single_byte :
    (before behind : List ℕ) (a b : ℕ)
    → All IsByte before
    → All IsByte behind
    → a < 256
    → b < 256
    → a ≢ b
    → crc (before ++ a ∷ behind) ≢ crc (before ++ b ∷ behind)
unfolding crc
crc-ne_single_byte before behind a b hx hy ha hb ne e =
    let start : Register = record { hi = 0xFF; lo = 0xFF } in
    let fits : IsRegister start = omega arith in
    ne (
      crc_loop-single_byte start before behind a b fits hx hy ha hb (
        join-injective (crc_loop start (before ++ a ∷ behind))
          (crc_loop start (before ++ b ∷ behind))
          (crc_loop-IsRegister start _ fits (IsByte-between before behind a hx ha hy))
          (crc_loop-IsRegister start _ fits (IsByte-between before behind b hx hb hy)) e))
