-- ===== src/Cache/Recency.antt =====
-- src/util/cache.cc, src/util/cache.h: the least-recently-used policy against the order of the last uses.
pub mod Insertion
pub mod History
use fiware_io_tagent_cpluspl.Common.{
  ℕ, zero, suc, ◌≤◌, ◌<◌, Bool, true, false, ◌&&◌, Option, none, some, List, [], ◌∷◌, ◌≡◌, ◌≢◌,
  refl, sym, ap, ◌∙◌, length, get_elem?, take, any, map, if◌then◌else◌, arith, str_eq, str_eq_iff,
  str_eq_self,
}
use fiware_io_tagent_cpluspl.Common.Positions.{erase_at, drop_last, Lacks}
use fiware_io_tagent_cpluspl.Device.{Device}
use fiware_io_tagent_cpluspl.Cache.{Identity, identity}

unfoldable pub same_identity : Identity → Identity → Bool
same_identity a b = str_eq a.0 b.0 && (str_eq a.1 b.1 && str_eq a.2 b.2)

pub same_identity_sound : (a b : Identity) → same_identity a b ≡ true → a ≡ b
unfolding same_identity
same_identity_sound a b h =
    ground (arith, str_eq_iff a.0 b.0, str_eq_iff a.1 b.1, str_eq_iff a.2 b.2)

pub same_identity_self : (a : Identity) → same_identity a a ≡ true
unfolding same_identity
same_identity_self a = rw (str_eq_self a.0, str_eq_self a.1, str_eq_self a.2) refl

unfoldable pub erase_first : Identity → List Identity → List Identity
erase_first k [] = []
erase_first k (x ∷ xs) = if same_identity x k then xs else (x ∷ erase_first k xs)

-- The identities by their last use, the latest first: a use brings one to the front.
unfoldable pub touch : Identity → List Identity → List Identity
touch k order = k ∷ erase_first k order

abbrev pub identities : List Device → List Identity
identities list = map identity list

take-take : (n : ℕ) (xs : List Identity) → take n (take n xs) ≡ take n xs
take-take zero xs = refl
take-take (suc n) [] = refl
take-take (suc n) (x ∷ xs) = ap (◌∷◌ x) (take-take n xs)

take-erase_first :
    (n : ℕ) (k : Identity) (xs : List Identity)
    → take n (erase_first k (take (suc n) xs)) ≡ take n (erase_first k xs)
unfolding erase_first
take-erase_first n k [] = refl
take-erase_first zero k (x ∷ xs) = refl
take-erase_first (suc n) k (x ∷ xs) = ground (arith, take-take (suc n) xs, take-erase_first n k xs)

-- What is beyond the first `n` uses has no part in the first `n` after a further use.
pub take-touch :
    (n : ℕ) (k : Identity) (xs : List Identity) → take n (touch k (take n xs)) ≡ take n (touch k xs)
unfolding touch
take-touch zero k xs = refl
take-touch (suc n) k xs = ap (◌∷◌ k) (take-erase_first n k xs)

pub take-all : (n : ℕ) (xs : List Identity) → length xs ≤ n → take n xs ≡ xs
take-all zero [] h = refl
take-all zero (x ∷ xs) h = absurd (omega arith)
take-all (suc n) [] h = refl
take-all (suc n) (x ∷ xs) h = ap (◌∷◌ x) (take-all n xs (omega arith))

pub length-identities : (list : List Device) → length (identities list) ≡ length list
length-identities [] = refl
length-identities (d ∷ list) = omega (arith, length-identities list)

pub identities-drop_last :
    (n : ℕ) (list : List Device)
    → length list ≡ suc n
    → identities (drop_last list) ≡ take n (identities list)
identities-drop_last n [] h = absurd (omega arith)
identities-drop_last zero (d ∷ []) h = refl
identities-drop_last (suc n) (d ∷ []) h = absurd (omega arith)
identities-drop_last zero (d ∷ e ∷ list) h = absurd (omega arith)
identities-drop_last (suc n) (d ∷ e ∷ list) h =
    ap (◌∷◌ (identity d)) (identities-drop_last n (e ∷ list) (omega arith))
