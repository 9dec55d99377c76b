-- ===== src/CommandCache/Tests.antt =====
-- A cache over an index that is searched from the front, its runs, and instances of its theorems.
use fiware_io_tagent_cpluspl.Common.{
  ℕ, zero, suc, Bytes, codes, Bool, true, false, Option, none, some, List, [], ◌∷◌, ◌≡◌, refl, sym,
  ap, get_elem?, drop, length, if◌then◌else◌, arith, str_eq, str_eq_iff,
}
use fiware_io_tagent_cpluspl.Common.Int.{ℤ, pos}
use fiware_io_tagent_cpluspl.Common.Positions.{Lacks}
use fiware_io_tagent_cpluspl.Command.{
  Command, same_command, unique_command_entity, unique_id, entity_command,
}
use fiware_io_tagent_cpluspl.CommandCache.{
  Item, Identity, identity, Index, CommandCache, new_command_cache, remove_all, get_by_id_vector,
}
use fiware_io_tagent_cpluspl.CommandCache.Invariant.{IsSound}
use fiware_io_tagent_cpluspl.CommandCache.Invariant.Reachable.{
  insertion, capacity_setting, full_removal, id_vector_search, run, run-new_command_cache,
  remove_all-length,
}
use fiware_io_tagent_cpluspl.Cache.Recency.{same_identity, same_identity_sound, same_identity_self}

abbrev no_cast : ℤ → Bytes
no_cast n = []

abbrev Cell : Type 0
Cell = Item Bytes no_cast

abbrev key_of : Item Bytes no_cast → Identity Bytes no_cast
key_of item = identity Bytes no_cast item

-- The first position at which a test holds.
position : (Item Bytes no_cast → Bool) → List (Item Bytes no_cast) → Option ℕ
position p [] = none
position p (x ∷ list) =
    let rest = position p list in
    if p x then some 0 else elim rest [ none ↦ none | some i ↦ some (suc i) ]

position_sound :
    (p : Cell → Bool) (list : List Cell) (i : ℕ)
    → position p list ≡ some i
    → (x : Cell) × (get_elem? list i ≡ some x) × (p x ≡ true)
unfolding position
position_sound p [] i e = absurd (ground (arith, e))
position_sound p (x ∷ list) zero e = (x, refl, ground (arith, e))
position_sound p (x ∷ list) (suc i) e = position_sound p list i (ground (arith, e))

position-Lacks :
    (key : Cell) (list : List Cell)
    → position (λ x. same_identity (key_of x) (key_of key)) list ≡ none
    → Lacks (identity Bytes no_cast) (key_of key) list
unfolding position
position-Lacks key [] e = tt
position-Lacks key (x ∷ list) e =
    let differ : same_identity (key_of x) (key_of key) ≡ false = ground (arith, e) in
    let rest : position (λ x. same_identity (key_of x) (key_of key)) list ≡ none =
      ground (arith, e) in
    (
      λ same. absurd (
          ground (
            arith,
            differ,
            sym (ap (λ k. same_identity k (key_of key)) same),
            same_identity_self (key_of key),
          )),
      position-Lacks key list rest,
    )

same_command-identity :
    (x key : Cell) → key_of x ≡ key_of key → same_command Bytes x.command key.command ≡ true
unfolding same_command identity
same_command-identity x key e =
    rw
      (
        (str_eq_iff x.command.sequence key.command.sequence).1 (ap (λ k. k.0) e),
        (str_eq_iff x.command.service key.command.service).1 (ap (λ k. k.1) e),
      )
      refl

-- The list from its first element with the same text.
tail_of :
    (Item Bytes no_cast → Bytes)
    → Item Bytes no_cast
    → List (Item Bytes no_cast)
    → List (Item Bytes no_cast)
tail_of text key list = elim (position (λ x. str_eq (text x) (text key)) list) [
  | none ↦ []
  | some i ↦ drop i list
]

entity_text : Item Bytes no_cast → Bytes
entity_text x = unique_command_entity Bytes no_cast x.command

id_text : Item Bytes no_cast → Bytes
id_text x = unique_id Bytes x.command

begin : List (Item Bytes no_cast) → Option ℕ
begin [] = none
begin (x ∷ list) = some 0

from_front : Index Bytes no_cast
unfolding entity_text id_text begin
from_front = record {
  found = λ key list. position (λ x. same_identity (key_of x) (key_of key)) list;
  found_entity = λ key list. position (λ x. str_eq (entity_text x) (entity_text key)) list;
  found_id = λ key list. position (λ x. str_eq (id_text x) (id_text key)) list;
  entity_tail = tail_of entity_text;
  id_tail = tail_of id_text;
  id_begin = begin;
  found_same = λ key list i e.
      let r = position_sound (λ x. same_identity (key_of x) (key_of key)) list i e in
      (r.0, r.1, same_command-identity r.0 key (same_identity_sound (key_of r.0) (key_of key) r.2));
  found_none = position-Lacks;
  found_entity_same = λ key list i e.
      let r = position_sound (λ x. str_eq (entity_text x) (entity_text key)) list i e in
      (r.0, r.1, (str_eq_iff (entity_text r.0) (entity_text key)).0 r.2);
  found_id_same = λ key list i e.
      let r = position_sound (λ x. str_eq (id_text x) (id_text key)) list i e in
      (r.0, r.1, (str_eq_iff (id_text r.0) (id_text key)).0 r.2);
  id_begin_some = λ x list. (0, x, refl, refl);
  id_begin_none = refl;
}

abbrev waiting : ℕ → Bytes → Item Bytes no_cast
waiting address id =
    let command = entity_command Bytes (codes "e") (codes "s") (codes "/") in
    let named : Command Bytes = record command { id = id; sequence = id; timeout = pos 30 } in
    record { address = address; command = named }

abbrev ping : Item Bytes no_cast
ping = waiting 1 (codes "ping")

abbrev reset : Item Bytes no_cast
reset = waiting 2 (codes "reset")

run-new_command_cache_example : IsSound Bytes no_cast 2 (
    run Bytes no_cast
      ((from_front, insertion ping)
        ∷ (from_front, capacity_setting 1)
        ∷ (from_front, insertion reset)
        ∷ (from_front, id_vector_search ping)
        ∷ (from_front, full_removal)
        ∷ [])
      (new_command_cache Bytes no_cast 2 true))
run-new_command_cache_example =
    run-new_command_cache Bytes no_cast 2 2 true
      ((from_front, insertion ping)
        ∷ (from_front, capacity_setting 1)
        ∷ (from_front, insertion reset)
        ∷ (from_front, id_vector_search ping)
        ∷ (from_front, full_removal)
        ∷ [])
      (omega arith) (tt, (omega arith, (tt, (tt, (tt, tt)))))

abbrev of_two : CommandCache Bytes no_cast
of_two = record (new_command_cache Bytes no_cast 5 true) { list = ping ∷ reset ∷ [] }

remove_all-length_example :
    (length (remove_all Bytes no_cast from_front of_two).list ≡ 1)
    × ((remove_all Bytes no_cast from_front of_two).timers ≡ of_two.timers)
remove_all-length_example = remove_all-length Bytes no_cast from_front ping (reset ∷ []) of_two refl

-- A search for one identifier returns the commands of the other identifiers that follow in the index.
get_by_id_vector_test :
    (get_by_id_vector Bytes no_cast from_front ping of_two).0 ≡ ping ∷ reset ∷ []
unfolding get_by_id_vector from_front tail_of position id_text unique_id str_eq entity_command
get_by_id_vector_test = refl
