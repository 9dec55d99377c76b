-- ===== src/Common/Outcome.antt =====
-- What a call ends with, and calls one after the other.
use mathlib.Core.Path.{◌≡◌, refl}
use Prim.Native.Nat.{ℕ}
use fiware_io_tagent_cpluspl.Common.Strings.{Bytes, codes}

-- types::RESPONSE_MESSAGE_INVALID_PARAMETER
abbrev pub invalid_parameter : Bytes
invalid_parameter = codes "A parameter of the request is invalid/not allowed"

-- `bad_cast` is a std::bad_cast; `undefined` is what the language or an assertion of a library leaves open, and `out_of_fuel` a
-- recursion that did not end within the fuel.
pub data Outcome {ℓ} (A : Type ℓ) : Type ℓ where
  returned : A → Outcome A
  iota_exception : Bytes → Bytes → ℕ → Outcome A
  runtime_error : Bytes → Outcome A
  bad_cast : Outcome A
  undefined : Outcome A
  out_of_fuel : Outcome A

infixl 5 ◌>>=◌ ◌>>◌
abbrev pub ◌>>=◌ {ℓ κ} : {A : Type ℓ} {B : Type κ} → Outcome A → (A → Outcome B) → Outcome B
returned a >>= f = f a
iota_exception reason details status >>= f = iota_exception reason details status
runtime_error what >>= f = runtime_error what
bad_cast >>= f = bad_cast
undefined >>= f = undefined
out_of_fuel >>= f = out_of_fuel

abbrev pub ◌>>◌ {ℓ} : {B : Type ℓ} → Outcome (Unit {0}) → Outcome B → Outcome B
m >> k = m >>= λ _. k

-- A sequence that returned has a first call that returned.
pub >>=-eq-returned {ℓ κ} :
    {A : Type ℓ} {B : Type κ} (m : Outcome A) (f : A → Outcome B) {b : B}
    → (m >>= f) ≡ returned b
    → (a : A) × (m ≡ returned a) × (f a ≡ returned b)
>>=-eq-returned (returned a) f h = (a, refl, h)
>>=-eq-returned (iota_exception reason details status) f h = cc
>>=-eq-returned (runtime_error what) f h = cc
>>=-eq-returned bad_cast f h = cc
>>=-eq-returned undefined f h = cc
>>=-eq-returned out_of_fuel f h = cc
