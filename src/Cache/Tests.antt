-- ===== src/Cache/Tests.antt =====
-- A cache over an index that is searched from the front, its runs, and instances of its theorems.
use fiware_io_tagent_cpluspl.Common.{
  ℕ, zero, suc, codes, Bool, true, false, Option, none, some, List, [], ◌∷◌, ◌≡◌, refl, sym, ap,
  get_elem?, take, if◌then◌else◌, arith, str_eq, str_eq_iff,
}
use fiware_io_tagent_cpluspl.Common.Positions.{Lacks}
use fiware_io_tagent_cpluspl.Device.{Device, new_device, same_device, unique_entity, unique_name}
use fiware_io_tagent_cpluspl.Cache.{Index, Identity, identity, new_cache, set_function}
use fiware_io_tagent_cpluspl.Cache.Invariant.{IsSound}
use fiware_io_tagent_cpluspl.Cache.Invariant.Reachable.{
  insertion, search, removal, run, run-new_cache,
}
use fiware_io_tagent_cpluspl.Cache.Recency.{
  same_identity, same_identity_sound, same_identity_self, identities, touch, erase_first,
}
use fiware_io_tagent_cpluspl.Cache.Recency.Insertion.{IsExact}
use fiware_io_tagent_cpluspl.Cache.Recency.History.{
  Use, inserted, searched, use_all, order_of, order_after, use_all-order_of,
}

-- The first position at which a test holds.
position : (Device → Bool) → List Device → Option ℕ
position p [] = none
position p (d ∷ list) =
    let rest = position p list in
    if p d then some 0 else elim rest [ none ↦ none | some i ↦ some (suc i) ]

position_sound :
    (p : Device → Bool) (list : List Device) (i : ℕ)
    → position p list ≡ some i
    → (d : Device) × (get_elem? list i ≡ some d) × (p d ≡ true)
unfolding position
position_sound p [] i e = absurd (ground (arith, e))
position_sound p (d ∷ list) zero e = (d, refl, ground (arith, e))
position_sound p (d ∷ list) (suc i) e = position_sound p list i (ground (arith, e))

position-Lacks :
    (key : Device) (list : List Device)
    → position (λ (d : Device). same_identity (identity d) (identity key)) list ≡ none
    → Lacks identity (identity key) list
unfolding position
position-Lacks key [] e = tt
position-Lacks key (d ∷ list) e =
    let differ : same_identity (identity d) (identity key) ≡ false = ground (arith, e) in
    let rest : position (λ (d : Device). same_identity (identity d) (identity key)) list ≡ none =
      ground (arith, e) in
    (
      λ same. absurd (
          ground (
            arith,
            differ,
            sym (ap (λ (k : Identity). same_identity k (identity key)) same),
            same_identity_self (identity key),
          )),
      position-Lacks key list rest,
    )

by_identity : Device → Device → Bool
by_identity key d = same_identity (identity d) (identity key)

same_device-identity : (d key : Device) → identity d ≡ identity key → same_device d key ≡ true
unfolding same_device identity
same_device-identity d key e =
    rw
      (
        (str_eq_iff d.name key.name).1 (ap (λ (k : Identity). k.0) e),
        (str_eq_iff d.service key.service).1 (ap (λ (k : Identity). k.1) e),
      )
      refl

abbrev from_front : Index
unfolding by_identity
from_front = record {
  found = λ key list. position (λ d. same_identity (identity d) (identity key)) list;
  found_entity = λ key list. position (λ d. str_eq (unique_entity d) (unique_entity key)) list;
  found_name = λ key list. position (λ d. str_eq (unique_name d) (unique_name key)) list;
  found_same = λ key list i e.
      let r = position_sound (λ d. same_identity (identity d) (identity key)) list i e in
      (
        r.0,
        r.1,
        same_device-identity r.0 key (same_identity_sound (identity r.0) (identity key) r.2),
      );
  found_none = position-Lacks;
  found_entity_same = λ key list i e.
      let r = position_sound (λ d. str_eq (unique_entity d) (unique_entity key)) list i e in
      (r.0, r.1, (str_eq_iff (unique_entity r.0) (unique_entity key)).0 r.2);
  found_name_same = λ key list i e.
      let r = position_sound (λ d. str_eq (unique_name d) (unique_name key)) list i e in
      (r.0, r.1, (str_eq_iff (unique_name r.0) (unique_name key)).0 r.2);
}

from_front-IsExact : IsExact from_front
unfolding position from_front
from_front-IsExact key list i e =
    let r = position_sound (λ d. same_identity (identity d) (identity key)) list i e in
    (r.0, r.1, same_identity_sound (identity r.0) (identity key) r.2)

abbrev first : Device
first = new_device 1 (codes "a") (codes "s")

abbrev second : Device
second = new_device 2 (codes "b") (codes "s")

abbrev third : Device
third = new_device 3 (codes "c") (codes "s")

run-new_cache_example : IsSound 2 true (
    run
      ((from_front, insertion first)
        ∷ (from_front, insertion second)
        ∷ (from_front, search first)
        ∷ (from_front, insertion third)
        ∷ (from_front, removal second)
        ∷ [])
      (new_cache 2 true 30))
run-new_cache_example = run-new_cache 2 true 30 (
    (from_front, insertion first)
    ∷ (from_front, insertion second)
    ∷ (from_front, search first)
    ∷ (from_front, insertion third)
    ∷ (from_front, removal second)
    ∷ [])

abbrev uses : List (Index × Use)
uses =
    (from_front, inserted first)
    ∷ (from_front, inserted second)
    ∷ (from_front, searched first)
    ∷ (from_front, inserted third)
    ∷ []

order_of_test :
    order_of 2 (some (λ (key : Device). none)) uses []
    ≡ identity third ∷ identity first ∷ identity second ∷ []
unfolding order_of order_after touch same_identity new_device erase_first str_eq identity
order_of_test = refl

use_all-order_of_example :
    identities (use_all uses (set_function (λ (key : Device). none) (new_cache 2 true 0))).list
    ≡ take 2 (order_of 2 (some (λ (key : Device). none)) uses [])
use_all-order_of_example =
    use_all-order_of 2 0 (λ (key : Device). none) uses
      (from_front-IsExact, (from_front-IsExact, (from_front-IsExact, (from_front-IsExact, tt))))
