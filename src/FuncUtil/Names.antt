-- ===== src/FuncUtil/Names.antt =====
-- src/util/FuncUtil.cc: the checks of the Fiware-Service and Fiware-ServicePath headers, and of the
-- characters that are forbidden.
use fiware_io_tagent_cpluspl.Common.{
  ℕ, ◌+◌, ◌≤◌, Bytes, codes, Bool, true, false, Bool-cases, ◌&&◌, ◌||◌, not, inl, inr, ◌↔◌, ◌⊎◌, [],
  ◌∷◌, ◌≡◌, length, get_or, drop, is_empty, any, if◌then◌else◌, leb, ltb, ◌==◌, All, arith,
}

abbrev pub fiware_service_length : ℕ
fiware_service_length = 50

-- The <cctype> tests, in the C locale.
unfoldable pub is_lower : ℕ → Bool
is_lower c = leb 97 c && leb c 122

unfoldable pub is_alpha : ℕ → Bool
is_alpha c = (leb 65 c && leb c 90) || is_lower c

unfoldable pub is_alnum : ℕ → Bool
is_alnum c = (leb 48 c && leb c 57) || is_alpha c

-- A return, or the IotaException that is thrown with its reason and its code.
pub data Checked : Type 0 where
  accepted : Checked
  iota_exception : Bytes → ℕ → Checked

abbrev pub service_error : Checked
service_error = iota_exception (codes "Malformed header") 1000

abbrev pub service_path_error : Checked
service_path_error = iota_exception (codes "Malformed header") 1001

-- What the loops look for: `error` after them, for the characters that are left.
unfoldable pub service_loop : Bytes → Bool → Bool
service_loop [] error = error
service_loop (c ∷ s) error =
    if error
    then error
    else service_loop s ((not (is_alnum c) && not (c == 95)) || (is_alpha c && not (is_lower c)))

unfoldable pub path_loop : Bytes → Bool → Bool
path_loop [] error = error
path_loop (c ∷ s) error = if error then error else path_loop s (not (is_alnum c) && not (c == 95))

-- iota::check_fiware_service_name
unfoldable pub check_fiware_service_name : Bytes → Checked
check_fiware_service_name s =
    let error = is_empty s || ltb fiware_service_length (length s) in
    if service_loop s error then service_error else accepted

-- iota::check_fiware_service_path_name; the character past the end of a string is 0.
unfoldable pub check_fiware_service_path_name : Bytes → Checked
check_fiware_service_path_name s =
    if is_empty s
    then accepted
    else let no_slash = not (get_or s 0 0 == 47) in
      let wild_card = get_or s 1 0 == 42 || get_or s 1 0 == 35 in
      let start = if wild_card then 2 else 1 in
      let long_wild_card = wild_card && ltb 2 (length s) in
      let too_long = ltb (fiware_service_length + 1) (length s) in
      if path_loop (drop start s) ((no_slash || long_wild_card) || too_long)
      then service_path_error
      else accepted

-- iota::check_forbidden_characters: find_first_of finds one of the characters.
unfoldable pub check_forbidden_characters : Bytes → Bytes → Bool
check_forbidden_characters forbidden str = any (λ c. any (λ f. c == f) forbidden) str

-- A character of a service name: a digit, a lower-case letter or `_`.
abbrev pub ServiceChar : ℕ → Type 0
ServiceChar c = ((48 ≤ c) × (c ≤ 57)) ⊎ ((97 ≤ c) × (c ≤ 122)) ⊎ (c ≡ 95)

-- One of a service path may be an upper-case letter too.
abbrev pub PathChar : ℕ → Type 0
PathChar c = ServiceChar c ⊎ ((65 ≤ c) × (c ≤ 90))

abbrev service_test : ℕ → Bool
service_test c = (not (is_alnum c) && not (c == 95)) || (is_alpha c && not (is_lower c))

service_test_iff : (c : ℕ) → (service_test c ≡ false) ↔ ServiceChar c
unfolding is_alnum is_alpha is_lower
service_test_iff c = ground arith

path_test_iff : (c : ℕ) → ((not (is_alnum c) && not (c == 95)) ≡ false) ↔ PathChar c
unfolding is_alnum is_alpha is_lower
path_test_iff c = ground arith

service_loop_iff :
    (s : Bytes) (error : Bool)
    → (service_loop s error ≡ false) ↔ ((error ≡ false) × All ServiceChar s)
unfolding service_loop
service_loop_iff [] error = ground arith
service_loop_iff (c ∷ s) true = ground arith
service_loop_iff (c ∷ s) false =
    ground (arith, service_loop_iff s (service_test c), service_test_iff c)

path_loop_iff :
    (s : Bytes) (error : Bool) → (path_loop s error ≡ false) ↔ ((error ≡ false) × All PathChar s)
unfolding path_loop
path_loop_iff [] error = ground arith
path_loop_iff (c ∷ s) true = ground arith
path_loop_iff (c ∷ s) false =
    ground (arith, path_loop_iff s (not (is_alnum c) && not (c == 95)), path_test_iff c)

-- A service name is accepted exactly when it has 1 to 50 characters, each a digit, a lower-case
-- letter or `_`; in every other case the exception with code 1000 is thrown.
pub check_fiware_service_name_iff :
    (s : Bytes)
    → ((check_fiware_service_name s ≡ accepted)
        ↔ ((1 ≤ length s) × (length s ≤ 50) × All ServiceChar s))
      × ((check_fiware_service_name s ≡ accepted) ⊎ (check_fiware_service_name s ≡ service_error))
unfolding check_fiware_service_name
check_fiware_service_name_iff [] =
    ground (arith, service_loop_iff [] (true || ltb fiware_service_length 0))
check_fiware_service_name_iff (c ∷ s) = ground (
  arith,
  service_loop_iff (c ∷ s) (is_empty (c ∷ s) || ltb fiware_service_length (length (c ∷ s))),
)

-- The empty path, or `/` and then nothing, a single `*` or `#`, or at most 50 characters.
abbrev pub IsServicePath : Bytes → Type 0
IsServicePath [] = Unit
IsServicePath (c ∷ name) =
    (c ≡ 47) × ((name ≡ codes "*") ⊎ (name ≡ codes "#") ⊎ ((length name ≤ 50) × All PathChar name))

-- A service path is accepted exactly when it is empty, or `/` with nothing or a single `*` or `#`
-- after it, or `/` followed by at most 50 digits, letters of either case and `_`; in every other case
-- the exception with code 1001 is thrown.
pub check_fiware_service_path_name_iff :
    (s : Bytes)
    → ((check_fiware_service_path_name s ≡ accepted) ↔ IsServicePath s)
      × ((check_fiware_service_path_name s ≡ accepted)
          ⊎ (check_fiware_service_path_name s ≡ service_path_error))
unfolding check_fiware_service_path_name
check_fiware_service_path_name_iff [] = ground arith
check_fiware_service_path_name_iff (c ∷ []) =
    ground (arith, path_loop_iff [] ((not (c == 47) || false) || false))
check_fiware_service_path_name_iff (c ∷ d ∷ name) = elim (Bool-cases (d == 42 || d == 35)) [
  | inl w ↦ rw w (
      ground (
        arith,
        w,
        path_loop_iff name
            ((not (c == 47) || ltb 2 (length (c ∷ d ∷ name))) || ltb 51 (length (c ∷ d ∷ name))),
      ))
  | inr w ↦ rw w (
      ground (
        arith,
        w,
        path_loop_iff (d ∷ name) ((not (c == 47) || false) || ltb 51 (length (c ∷ d ∷ name))),
      ))
]
