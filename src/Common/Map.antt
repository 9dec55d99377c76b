-- ===== src/Common/Map.antt =====
-- `std::map`: an association list in the order of its keys. A search and an insertion stop at the
-- first key that is not below the one that is looked for, as the comparator makes the tree do.
use mathlib.Core.Path.{◌≡◌, refl}
use mathlib.Core.Logic.{◌↔◌}
use mathlib.Core.Bool.{Bool, true, false}
use mathlib.Core.Option.{Option, none, some}
use mathlib.Core.List.{List, [], ◌∷◌}
use native.Mathlib.Omega.{arith}
use Prim.Native.Nat.{suc, ◌≤◌}
use fiware_io_tagent_cpluspl.Common.Bools.{if◌then◌else◌}
use fiware_io_tagent_cpluspl.Common.Lists.{length, drop}

-- A key type with its comparator.
pub record Key {ℓ} (K : Type ℓ) : Type ℓ where
  pub same : K → K → Bool
  pub below : K → K → Bool
  pub same_iff : (a b : K) → (same a b ≡ true) ↔ (a ≡ b)
  pub below_trans : (a b c : K) → below a b ≡ true → below b c ≡ true → below a c ≡ true
  pub below_irrefl : (a : K) → below a a ≡ false
  pub below_total : (a b : K) → same a b ≡ false → below a b ≡ false → below b a ≡ true

abbrev pub Assoc {ℓ κ} : Type ℓ → Type κ → Type (ℓ ⊔ κ)
Assoc K V = List (K × V)

module _ {ℓ κ} {K : Type ℓ} {V : Type κ} ⦃o : Key K⦄ where
  -- m.find(k)
  unfoldable pub find : K → Assoc K V → Option V
  find k [] = none
  find k ((j, w) ∷ m) = if o.same k j then some w else if o.below k j then none else find k m

  -- m.insert(std::make_pair(k, v)): an entry that is there already stays.
  unfoldable pub insert : K → V → Assoc K V → Assoc K V
  insert k v [] = (k, v) ∷ []
  insert k v ((j, w) ∷ m) =
      if o.same k j
      then (j, w) ∷ m
      else if o.below k j
      then (k, v) ∷ (j, w) ∷ m
      else (j, w) ∷ insert k v m

  -- m[k] = v
  unfoldable pub put : K → V → Assoc K V → Assoc K V
  put k v [] = (k, v) ∷ []
  put k v ((j, w) ∷ m) =
      if o.same k j
      then (k, v) ∷ m
      else if o.below k j
      then (k, v) ∷ (j, w) ∷ m
      else (j, w) ∷ put k v m

  -- m.erase(k)
  unfoldable pub erase : K → Assoc K V → Assoc K V
  erase k [] = []
  erase k ((j, w) ∷ m) =
      if o.same k j then m else if o.below k j then (j, w) ∷ m else (j, w) ∷ erase k m

  -- Every key of the map is above `k`.
  abbrev pub Above : K → Assoc K V → Type 0
  Above k [] = Unit
  Above k ((j, w) ∷ m) = (o.below k j ≡ true) × Above k m

  abbrev pub IsOrdered : Assoc K V → Type 0
  IsOrdered [] = Unit
  IsOrdered ((j, w) ∷ m) = Above j m × IsOrdered m

  pub find-put :
      (k j : K) (v : V) (m : Assoc K V)
      → find j (put k v m) ≡ (if o.same j k then some v else find j m)
  unfolding find put
  find-put k j v [] = ground arith
  find-put k j v ((i, w) ∷ m) = ground (
    arith,
    find-put k j v m,
    o.same_iff k i,
    o.same_iff j i,
    o.same_iff j k,
    o.below_trans j k i,
    o.below_irrefl k,
    o.below_irrefl i,
    o.below_irrefl j,
  )

  pub find-insert :
      (k j : K) (v : V) (m : Assoc K V)
      → find j (insert k v m)
        ≡ elim (find k m) [ none ↦ if o.same j k then some v else find j m | some w ↦ find j m ]
  unfolding find insert
  find-insert k j v [] = ground arith
  find-insert k j v ((i, w) ∷ m) = ground (
    arith,
    find-insert k j v m,
    o.same_iff k i,
    o.same_iff j i,
    o.same_iff j k,
    o.below_trans j k i,
    o.below_irrefl k,
    o.below_irrefl i,
    o.below_irrefl j,
  )

  pub find-insert_fresh :
      (k j : K) (v : V) (m : Assoc K V)
      → find k m ≡ none
      → find j (insert k v m) ≡ (if o.same j k then some v else find j m)
  find-insert_fresh k j v m h = ground (arith, find-insert k j v m)

  pub find-insert_present :
      (k j : K) (v w : V) (m : Assoc K V) → find j m ≡ some w → find j (insert k v m) ≡ some w
  find-insert_present k j v w m h = ground (arith, find-insert k j v m, o.same_iff j k)

  Above-trans : (k j : K) (m : Assoc K V) → o.below k j ≡ true → Above j m → Above k m
  Above-trans k j [] h a = tt
  Above-trans k j ((i, w) ∷ m) h a = (o.below_trans k j i h a.0, Above-trans k j m h a.1)

  find-Above : (k : K) (m : Assoc K V) → Above k m → find k m ≡ none
  unfolding find
  find-Above k [] a = refl
  find-Above k ((i, w) ∷ m) a = ground (arith, o.same_iff k i, o.below_irrefl k)

  pub find_below : (j i : K) (m : Assoc K V) → o.below j i ≡ true → Above i m → find j m ≡ none
  find_below j i m h a = find-Above j m (Above-trans j i m h a)

  pub find-erase :
      (k j : K) (m : Assoc K V)
      → IsOrdered m
      → find j (erase k m) ≡ (if o.same j k then none else find j m)
  unfolding find erase
  find-erase k j [] h = ground arith
  find-erase k j ((i, w) ∷ m) h = ground (
    arith,
    find-erase k j m h.1,
    find-Above i m h.0,
    find_below j i m,
    o.same_iff k i,
    o.same_iff j i,
    o.same_iff j k,
    o.below_trans j k i,
    o.below_irrefl k,
  )

  Above-put :
      (k j : K) (v : V) (m : Assoc K V) → o.below j k ≡ true → Above j m → Above j (put k v m)
  unfolding put
  Above-put k j v [] h a = (h, tt)
  Above-put k j v ((i, w) ∷ m) h a = ground (arith, Above-put k j v m h a.1, o.same_iff k i)

  -- A write keeps the keys in order.
  pub put-IsOrdered : (k : K) (v : V) (m : Assoc K V) → IsOrdered m → IsOrdered (put k v m)
  unfolding put
  put-IsOrdered k v [] h = (tt, tt)
  put-IsOrdered k v ((i, w) ∷ m) h = ground (
    arith,
    o.same_iff k i,
    o.below_total k i,
    Above-trans k i m,
    Above-put k i v m,
    put-IsOrdered k v m h.1,
  )

  Above-insert :
      (k j : K) (v : V) (m : Assoc K V) → o.below j k ≡ true → Above j m → Above j (insert k v m)
  unfolding insert
  Above-insert k j v [] h a = (h, tt)
  Above-insert k j v ((i, w) ∷ m) h a = ground (arith, Above-insert k j v m h a.1, o.same_iff k i)

  pub insert-IsOrdered : (k : K) (v : V) (m : Assoc K V) → IsOrdered m → IsOrdered (insert k v m)
  unfolding insert
  insert-IsOrdered k v [] h = (tt, tt)
  insert-IsOrdered k v ((i, w) ∷ m) h = ground (
    arith,
    o.same_iff k i,
    o.below_total k i,
    Above-trans k i m,
    Above-insert k i v m,
    insert-IsOrdered k v m h.1,
  )

  Above-erase : (k j : K) (m : Assoc K V) → Above j m → Above j (erase k m)
  unfolding erase
  Above-erase k j [] a = tt
  Above-erase k j ((i, w) ∷ m) a = ground (arith, Above-erase k j m a.1)

  pub erase-IsOrdered : (k : K) (m : Assoc K V) → IsOrdered m → IsOrdered (erase k m)
  unfolding erase
  erase-IsOrdered k [] h = tt
  erase-IsOrdered k ((i, w) ∷ m) h = ground (arith, Above-erase k i m h.0, erase-IsOrdered k m h.1)

  pub find-drop_first :
      (k : K) (m : Assoc K V) → IsOrdered m → find k m ≡ none → find k (drop 1 m) ≡ none
  unfolding find
  find-drop_first k [] h e = refl
  find-drop_first k ((j, w) ∷ m) h e = ground (arith, find_below k j m, h.0)

  pub drop_first-IsOrdered : (m : Assoc K V) → IsOrdered m → IsOrdered (drop 1 m)
  drop_first-IsOrdered [] h = tt
  drop_first-IsOrdered ((j, w) ∷ m) h = h.1

  -- An insertion adds one entry at most, and a write to a key that is there none.
  pub length-insert : (k : K) (v : V) (m : Assoc K V) → length (insert k v m) ≤ suc (length m)
  unfolding insert
  length-insert k v [] = omega arith
  length-insert k v ((j, w) ∷ m) = ground (arith, length-insert k v m)

  pub length-put :
      (k : K) (v w : V) (m : Assoc K V) → find k m ≡ some w → length (put k v m) ≡ length m
  unfolding find put
  length-put k v w [] e = absurd (ground (arith, e))
  length-put k v w ((j, x) ∷ m) e = ground (arith, length-put k v w m)
