-- ===== src/Common/Int.antt =====
-- Signed integers over the native numbers, for the sentinels that the program keeps in them.
use Prim.Native.Nat.{ℕ}
use mathlib.Core.Path.{◌≡◌, refl}
use mathlib.Core.Logic.{◌↔◌}
use mathlib.Core.Bool.{Bool, true, false}
use native.Mathlib.Omega.{arith}
use fiware_io_tagent_cpluspl.Common.Bools.{ltb, ◌==◌, ==_iff}
use fiware_io_tagent_cpluspl.Common.Map.{Key}

-- `negsuc n` is -(n + 1).
pub data ℤ : Type 0 where
  pos : ℕ → ℤ
  negsuc : ℕ → ℤ

abbrev pub int_same : ℤ → ℤ → Bool
int_same (pos a) (pos b) = a == b
int_same (negsuc a) (negsuc b) = a == b
int_same (pos a) (negsuc b) = false
int_same (negsuc a) (pos b) = false

abbrev pub int_below : ℤ → ℤ → Bool
int_below (pos a) (pos b) = ltb a b
int_below (negsuc a) (negsuc b) = ltb b a
int_below (pos a) (negsuc b) = false
int_below (negsuc a) (pos b) = true

pub int_same_iff : (a b : ℤ) → (int_same a b ≡ true) ↔ (a ≡ b)
int_same_iff (pos a) (pos b) = ground (arith, ==_iff a b)
int_same_iff (negsuc a) (negsuc b) = ground (arith, ==_iff a b)
int_same_iff (pos a) (negsuc b) = ground arith
int_same_iff (negsuc a) (pos b) = ground arith

pub int_below_trans :
    (a b c : ℤ) → int_below a b ≡ true → int_below b c ≡ true → int_below a c ≡ true
int_below_trans (pos a) (pos b) (pos c) p q = ground arith
int_below_trans (negsuc a) (negsuc b) (negsuc c) p q = ground arith
int_below_trans (negsuc a) _ (pos c) p q = refl
int_below_trans (pos a) (pos b) (negsuc c) p q = q
int_below_trans (pos a) (negsuc b) _ p q = ground (arith, p)
int_below_trans (negsuc a) (pos b) (negsuc c) p q = ground (arith, q)

pub int_below_irrefl : (a : ℤ) → int_below a a ≡ false
int_below_irrefl (pos a) = ground arith
int_below_irrefl (negsuc a) = ground arith

pub int_below_total :
    (a b : ℤ) → int_same a b ≡ false → int_below a b ≡ false → int_below b a ≡ true
int_below_total (pos a) (pos b) p q = ground arith
int_below_total (negsuc a) (negsuc b) p q = ground arith
int_below_total (pos a) (negsuc b) p q = refl
int_below_total (negsuc a) (pos b) p q = ground (arith, q)

instance abbrev pub int_key : Key ℤ
int_key = record {
  same = int_same;
  below = int_below;
  same_iff = int_same_iff;
  below_trans = int_below_trans;
  below_irrefl = int_below_irrefl;
  below_total = int_below_total;
}
