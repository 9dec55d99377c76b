-- ===== src/Common/Strings.antt =====
-- `std::string` as the list of its bytes, with the comparison that orders map keys.
use Prim.Native.Char.{code}
use Prim.Native.String.{String}
use Prim.Native.Nat.{ℕ}
use mathlib.Core.Path.{◌≡◌, refl}
use mathlib.Core.Logic.{◌↔◌, ◌≢◌}
use mathlib.Core.Bool.{Bool, true, false, ◌&&◌, ◌||◌}
use mathlib.Core.List.{List, [], ◌∷◌}
use native.Mathlib.Omega.{arith}
use fiware_io_tagent_cpluspl.Common.Lists.{All}
use fiware_io_tagent_cpluspl.Common.Bools.{◌==◌, ==_iff, ltb}
use fiware_io_tagent_cpluspl.Common.Map.{Key}

abbrev pub Bytes : Type 0
Bytes = List ℕ

-- A byte that a text does not have.
abbrev pub Avoids : ℕ → Bytes → Type 0
Avoids c text = All (λ (d : ℕ). d ≢ c) text

-- The bytes of an ASCII literal.
abbrev pub codes : String → Bytes
codes String.[] = []
codes (String.◌∷◌ c s) = code c ∷ codes s

-- a.compare(b) == 0
unfoldable pub str_eq : Bytes → Bytes → Bool
str_eq [] [] = true
str_eq [] (y ∷ ys) = false
str_eq (x ∷ xs) [] = false
str_eq (x ∷ xs) (y ∷ ys) = x == y && str_eq xs ys

-- a < b, byte by byte
unfoldable pub str_below : Bytes → Bytes → Bool
str_below [] [] = false
str_below [] (y ∷ ys) = true
str_below (x ∷ xs) [] = false
str_below (x ∷ xs) (y ∷ ys) = ltb x y || (x == y && str_below xs ys)

pub str_eq_iff : (a b : Bytes) → (str_eq a b ≡ true) ↔ (a ≡ b)
unfolding str_eq
str_eq_iff (x ∷ a) (y ∷ b) = ground (arith, str_eq_iff a b)
str_eq_iff _ _ = ground arith

pub str_eq_self : (a : Bytes) → str_eq a a ≡ true
str_eq_self a = (str_eq_iff a a).1 refl

pub str_below_trans :
    (a b c : Bytes) → str_below a b ≡ true → str_below b c ≡ true → str_below a c ≡ true
unfolding str_below
str_below_trans (x ∷ a) (y ∷ b) (z ∷ c) p q = ground (arith, str_below_trans a b c)
str_below_trans _ _ _ p q = ground arith

pub str_below_irrefl : (a : Bytes) → str_below a a ≡ false
unfolding str_below
str_below_irrefl [] = refl
str_below_irrefl (x ∷ a) = ground (arith, str_below_irrefl a)

pub str_below_total :
    (a b : Bytes) → str_eq a b ≡ false → str_below a b ≡ false → str_below b a ≡ true
unfolding str_eq str_below
str_below_total (x ∷ a) (y ∷ b) p q = ground (arith, str_below_total a b)
str_below_total _ _ p q = ground arith

pub nat_below_trans : (a b c : ℕ) → ltb a b ≡ true → ltb b c ≡ true → ltb a c ≡ true
nat_below_trans a b c p q = ground arith

pub nat_below_irrefl : (a : ℕ) → ltb a a ≡ false
nat_below_irrefl a = ground arith

pub nat_below_total : (a b : ℕ) → (a == b) ≡ false → ltb a b ≡ false → ltb b a ≡ true
nat_below_total a b p q = ground arith

instance abbrev pub bytes_key : Key Bytes
bytes_key = record {
  same = str_eq;
  below = str_below;
  same_iff = str_eq_iff;
  below_trans = str_below_trans;
  below_irrefl = str_below_irrefl;
  below_total = str_below_total;
}

instance abbrev pub nat_key : Key ℕ
nat_key = record {
  same = ◌==◌;
  below = ltb;
  same_iff = ==_iff;
  below_trans = nat_below_trans;
  below_irrefl = nat_below_irrefl;
  below_total = nat_below_total;
}
