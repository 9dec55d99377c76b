-- ===== src/Device/Copy.antt =====
-- src/util/device.h: what the copy constructor keeps of a device.
use fiware_io_tagent_cpluspl.Common.{
  ℕ, Bytes, bytes_key, ◌≡◌, refl, sym, ap, ◌∙◌, true, [], ◌∷◌, ◌++◌, arith, append_nil, append_snoc,
}
use fiware_io_tagent_cpluspl.Common.Int.{ℤ, pos, negsuc}
use fiware_io_tagent_cpluspl.Common.Map.{Assoc, insert, IsOrdered, Above}
use fiware_io_tagent_cpluspl.Device.{Device, int_eq, copy_entries, copy_text, copy_int, copy}

copy_text_lem : (text : Bytes) → copy_text text ≡ text
unfolding copy_text
copy_text_lem [] = refl
copy_text_lem (x ∷ text) = refl

int_eq_sound : (a b : ℤ) → int_eq a b ≡ true → a ≡ b
unfolding int_eq
int_eq_sound (pos a) (pos b) h = ground arith
int_eq_sound (pos a) (negsuc b) h = ground arith
int_eq_sound (negsuc a) (pos b) h = ground arith
int_eq_sound (negsuc a) (negsuc b) h = ground arith

copy_int_lem : (unset n : ℤ) → copy_int unset n ≡ n
unfolding copy_int
copy_int_lem unset n = ground (arith, int_eq_sound n unset)

-- Every key of `m` is below `k`.
abbrev Below : Bytes → Assoc Bytes Bytes → Type 0
Below k [] = Unit
Below k ((j, w) ∷ m) = (bytes_key.below j k ≡ true) × Below k m

-- Every key of `copied` is below every key of `m`.
abbrev Before : Assoc Bytes Bytes → Assoc Bytes Bytes → Type 0
Before [] m = Unit
Before ((j, w) ∷ copied) m = Above j m × Before copied m

Before-head :
    (copied m : Assoc Bytes Bytes) (k v : Bytes) → Before copied ((k, v) ∷ m) → Below k copied
Before-head [] m k v h = tt
Before-head ((j, w) ∷ copied) m k v h = (h.0.0, Before-head copied m k v h.1)

Before-step :
    (copied m : Assoc Bytes Bytes) (k v : Bytes)
    → Before copied ((k, v) ∷ m)
    → Above k m
    → Before (copied ++ ((k, v) ∷ [])) m
Before-step [] m k v h a = (a, tt)
Before-step ((j, w) ∷ copied) m k v h a = (h.0.1, Before-step copied m k v h.1 a)

insert-last : (k v : Bytes) (m : Assoc Bytes Bytes) → Below k m → insert k v m ≡ m ++ ((k, v) ∷ [])
unfolding insert
insert-last k v [] h = refl
insert-last k v ((j, w) ∷ m) h = ground (
  arith,
  insert-last k v m h.1,
  bytes_key.same_iff k j,
  bytes_key.below_trans j k j,
  bytes_key.below_irrefl j,
)

copy_entries_append :
    (m copied : Assoc Bytes Bytes)
    → IsOrdered m
    → Before copied m
    → copy_entries m copied ≡ copied ++ m
unfolding copy_entries
copy_entries_append [] copied o h = sym (append_nil copied)
copy_entries_append ((k, v) ∷ m) copied o h =
    ap (copy_entries m) (insert-last k v copied (Before-head copied m k v h))
    ∙ copy_entries_append m (copied ++ ((k, v) ∷ [])) o.1 (Before-step copied m k v h o.0)
    ∙ append_snoc copied (k, v) m

pub copy_entries_lem : (m : Assoc Bytes Bytes) → IsOrdered m → copy_entries m [] ≡ m
copy_entries_lem m o = copy_entries_append m [] o tt

-- When the three maps that it copies are in the order of their keys, the copy constructor gives a
-- device with every field of the original but `_lazy`, which is empty in the copy whatever the
-- original has there; the copy is another object.
pub copy-all_but_lazy :
    (address : ℕ) (dev : Device)
    → IsOrdered dev.attributes
    → IsOrdered dev.commands
    → IsOrdered dev.static_attributes
    → copy address dev ≡ record dev { address = address; lazy = [] }
unfolding copy
copy-all_but_lazy address dev a c s = simp (
  copy_text_lem,
  copy_int_lem,
  copy_entries_lem dev.attributes a,
  copy_entries_lem dev.commands c,
  copy_entries_lem dev.static_attributes s,
)
