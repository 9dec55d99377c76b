-- ===== src/Common/Bits.antt =====
-- Laws of `bit_xor` at variables. The native operation means `bitwise`, a recursion on binary
-- digits with fuel; here the fuel is dropped, and each law follows by strong induction.
use Prim.Native.Nat.{
  ℕ, zero, suc, ◌+◌, ◌*◌, ◌/◌, ◌%◌, ◌^◌, ◌≤◌, ◌<◌, bit_xor, digits, differ, bit_xor-bitwise,
}
use mathlib.Core.Path.{◌≡◌, refl, sym, ◌∙◌, ap}
use mathlib.Core.WellFounded
use native.Mathlib.Omega.{arith}
use native.Mathlib.Nat.{pow-suc}
use fiware_io_tagent_cpluspl.Common.Order.{lt_wf}

-- Induction from half of a number to the number.
halving {ℓ} : (P : ℕ → Type ℓ) → P 0 → ((n : ℕ) → P (suc n / 2) → P (suc n)) → (n : ℕ) → P n
halving P base from_half n = WellFounded.induction lt_wf {C = P} n strong
  where
    strong : (k : ℕ) → ((j : ℕ) → j < k → P j) → P k
    strong zero below = base
    strong (suc k) below = from_half k (below (suc k / 2) (omega arith))

pub zero-bit_xor : (b : ℕ) → bit_xor 0 b ≡ b
zero-bit_xor b = bit_xor-bitwise 0 b

-- Fuel of at least the first number is enough.
bit_xor_fuel : (a n b : ℕ) → a ≤ n → digits (λ y. y) differ n a b ≡ bit_xor a b
bit_xor_fuel = halving (λ a. (n b : ℕ) → a ≤ n → digits (λ y. y) differ n a b ≡ bit_xor a b) base up
  where
    base : (n b : ℕ) → 0 ≤ n → digits (λ y. y) differ n 0 b ≡ bit_xor 0 b
    base zero b h = sym (zero-bit_xor b)
    base (suc n) b h = sym (zero-bit_xor b)

    up :
        (a : ℕ)
        → ((n b : ℕ)
            → suc a / 2 ≤ n
            → digits (λ y. y) differ n (suc a / 2) b ≡ bit_xor (suc a / 2) b)
        → (n b : ℕ) → suc a ≤ n
        → digits (λ y. y) differ n (suc a) b ≡ bit_xor (suc a) b
    up a half zero b h = absurd (omega arith)
    up a half (suc n) b h = omega (
      arith,
      half n (b / 2) (omega arith),
      half a (b / 2) (omega arith),
      bit_xor-bitwise (suc a) b,
    )

digits_sum : (x y : ℕ) → x < 2 → y < 2 → differ x y ≡ (x + y) % 2
digits_sum zero y p q = omega arith
digits_sum (suc zero) zero p q = refl
digits_sum (suc zero) (suc zero) p q = refl
digits_sum _ _ p q = absurd (omega arith)

-- The lowest digit, and the rest.
pub bit_xor_step : (a b : ℕ) → bit_xor a b ≡ bit_xor (a / 2) (b / 2) * 2 + (a + b) % 2
bit_xor_step zero b = omega (arith, zero-bit_xor b, zero-bit_xor (b / 2))
bit_xor_step (suc a) b =
    let low = digits_sum (suc a % 2) (b % 2) (omega arith) (omega arith) in
    let rest = bit_xor_fuel (suc a / 2) a (b / 2) (omega arith) in
    omega (arith, bit_xor-bitwise (suc a) b, low, rest)

pub bit_xor-mod : (a b : ℕ) → bit_xor a b % 2 ≡ (a + b) % 2
bit_xor-mod a b = omega (arith, bit_xor_step a b)

pub bit_xor-div : (a b : ℕ) → bit_xor a b / 2 ≡ bit_xor (a / 2) (b / 2)
bit_xor-div a b = omega (arith, bit_xor_step a b)

pub bit_xor-zero : (a : ℕ) → bit_xor a 0 ≡ a
bit_xor-zero =
    halving (λ a. bit_xor a 0 ≡ a) refl (λ n half. omega (arith, bit_xor_step (suc n) 0, half))

pub bit_xor_self : (a : ℕ) → bit_xor a a ≡ 0
bit_xor_self =
    halving (λ a. bit_xor a a ≡ 0) refl
      (λ n half. omega (arith, bit_xor_step (suc n) (suc n), half))

pub bit_xor_comm : (a b : ℕ) → bit_xor a b ≡ bit_xor b a
bit_xor_comm =
    halving (λ a. (b : ℕ) → bit_xor a b ≡ bit_xor b a) (λ b. zero-bit_xor b ∙ sym (bit_xor-zero b))
      (λ n half b. omega (arith, bit_xor_step (suc n) b, bit_xor_step b (suc n), half (b / 2)))

pub bit_xor_assoc : (a b c : ℕ) → bit_xor (bit_xor a b) c ≡ bit_xor a (bit_xor b c)
bit_xor_assoc = halving (λ a. (b c : ℕ) → bit_xor (bit_xor a b) c ≡ bit_xor a (bit_xor b c)) base up
  where
    base : (b c : ℕ) → bit_xor (bit_xor 0 b) c ≡ bit_xor 0 (bit_xor b c)
    base b c = ap (λ t. bit_xor t c) (zero-bit_xor b) ∙ sym (zero-bit_xor (bit_xor b c))

    up :
        (n : ℕ)
        → ((b c : ℕ) → bit_xor (bit_xor (suc n / 2) b) c ≡ bit_xor (suc n / 2) (bit_xor b c))
        → (b c : ℕ) → bit_xor (bit_xor (suc n) b) c ≡ bit_xor (suc n) (bit_xor b c)
    up n half b c =
        rw
          (
            bit_xor_step (bit_xor (suc n) b) c,
            bit_xor_step (suc n) (bit_xor b c),
            bit_xor-div (suc n) b,
            bit_xor-div b c,
            half (b / 2) (c / 2),
          )
          (omega (arith, bit_xor-mod (suc n) b, bit_xor-mod b c))

-- Exclusive or stays within the width of its arguments, and joins disjoint fields as a sum.
pub bit_xor-lt : (k a b : ℕ) → a < 2 ^ k → b < 2 ^ k → bit_xor a b < 2 ^ k
bit_xor-lt zero zero b p q = omega (arith, zero-bit_xor b)
bit_xor-lt zero (suc a) b p q = absurd (omega arith)
bit_xor-lt (suc k) a b p q = omega (
  arith,
  bit_xor_step a b,
  pow-suc 2 k,
  bit_xor-lt k (a / 2) (b / 2) (omega (arith, pow-suc 2 k)) (omega (arith, pow-suc 2 k)),
)

-- A number doubled `k` times has room for `k` bits below.
abbrev doubled : ℕ → ℕ → ℕ
doubled zero q = q
doubled (suc k) q = doubled k q * 2

bit_xor-doubled : (k q r : ℕ) → r < doubled k 1 → bit_xor (doubled k q) r ≡ doubled k q + r
bit_xor-doubled zero q zero fits = omega (arith, bit_xor-zero q)
bit_xor-doubled zero q (suc r) fits = absurd (omega arith)
bit_xor-doubled (suc k) q r fits =
    ground (arith, bit_xor_step (doubled k q * 2) r, bit_xor-doubled k q (r / 2) (omega arith))

pub bit_xor_byte : (q r : ℕ) → r < 256 → bit_xor (q * 256) r ≡ q * 256 + r
bit_xor_byte q r fits =
    let e : q * 256 ≡ doubled 8 q = omega arith in
    ap (λ t. bit_xor t r) e ∙ bit_xor-doubled 8 q r (omega arith) ∙ ap (λ t. t + r) (sym e)

-- A number is what it was after the same mask is put on twice.
pub bit_xor_cancel : (a b : ℕ) → bit_xor (bit_xor a b) b ≡ a
bit_xor_cancel a b = bit_xor_assoc a b b ∙ ap (bit_xor a) (bit_xor_self b) ∙ bit_xor-zero a
