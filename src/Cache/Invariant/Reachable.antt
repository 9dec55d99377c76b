-- ===== src/Cache/Invariant/Reachable.antt =====
-- src/util/cache.cc, src/util/cache.h: every cache that the operations reach is within its capacity and has
-- each device once.
use fiware_io_tagent_cpluspl.Common.{
  ℕ, zero, suc, Bool, true, false, Option, none, some, List, [], ◌∷◌, refl, sym, ◌∙◌, get_elem?,
  arith,
}
use mathlib.Core.Path.{subst}
use fiware_io_tagent_cpluspl.Common.Positions.{length-erase_at_le, IsDistinct-erase_at}
use fiware_io_tagent_cpluspl.Device.{Device}
use fiware_io_tagent_cpluspl.Cache.{
  Index, Cache, identity, new_cache, set_function, set_entity_function, set_time_to_life, insert,
  Answer, returned, bad_function_call, hit, fetched, miss, look_up, take_out, get, get_by_entity,
  get_by_name, remove, item_timeout,
}
use fiware_io_tagent_cpluspl.Cache.Invariant.{IsSoundList, IsSound, insert-IsSound}

abbrev pub cache_of : (index : Index) → Answer index → Cache
cache_of index (returned item c) = c
cache_of index (bad_function_call c) = c

-- A call of the cache.
pub data Operation : Type 0 where
  insertion : Device → Operation
  search : Device → Operation
  entity_search : Device → Operation
  name_search : Device → Operation
  removal : Device → Operation
  expiry : Device → Bool → Operation
  time_setting : ℕ → Operation
  function_setting : (Device → Option Device) → Operation
  entity_function_setting : (Device → Option Device) → Operation

unfoldable pub perform : Index → Operation → Cache → Cache
perform index (insertion item) c = insert index item c
perform index (search key) c = cache_of index (get index key c)
perform index (entity_search key) c = cache_of index (get_by_entity index key c)
perform index (name_search key) c = cache_of index (get_by_name index key c)
perform index (removal item) c = remove index item c
perform index (expiry item aborted) c = item_timeout index item aborted c
perform index (time_setting time_life) c = set_time_to_life time_life c
perform index (function_setting f) c = set_function f c
perform index (entity_function_setting f) c = set_entity_function f c

-- Calls one after another, each with the index as it is at its time.
unfoldable pub run : List (Index × Operation) → Cache → Cache
run [] c = c
run ((index, operation) ∷ calls) c = run calls (perform index operation c)

-- Nothing that the invariant is about differs.
abbrev Keeps : Cache → Cache → Type 0
Keeps c d = IsSoundList c.max_num_items c.list → IsSound c.max_num_items c.lru d

set_time_to_life-Keeps : (t : ℕ) (c : Cache) → Keeps c (set_time_to_life t c)
unfolding set_time_to_life
set_time_to_life-Keeps zero c h = (h, refl, refl)
set_time_to_life-Keeps (suc t) c h = ground arith

module _ (index : Index) where
  hit-Keeps : (o : Option Device) (c : Cache) → Keeps c (cache_of index (hit index o c))
  unfolding hit
  hit-Keeps none c h = (h, refl, refl)
  hit-Keeps (some item) c h = insert-IsSound index item c h

  fetched-Keeps : (o : Option Device) (c : Cache) → Keeps c (cache_of index (fetched index o c))
  unfolding fetched
  fetched-Keeps none c h = (h, refl, refl)
  fetched-Keeps (some item) c h = insert-IsSound index item c h

  miss-Keeps :
      (g f : Option (Device → Option Device)) (key : Device) (c : Cache)
      → Keeps c (cache_of index (miss index g f key c))
  unfolding miss
  miss-Keeps none f key c h = (h, refl, refl)
  miss-Keeps (some g) none key c h = (h, refl, refl)
  miss-Keeps (some g) (some f) key c h = fetched-Keeps (f key) c h

  look_up-Keeps :
      (o : Option ℕ) (f : Option (Device → Option Device)) (key : Device) (c : Cache)
      → Keeps c (cache_of index (look_up index o f key c))
  unfolding look_up
  look_up-Keeps none f key c h = miss-Keeps c.get_function f key c h
  look_up-Keeps (some i) f key c h = hit-Keeps (get_elem? c.list i) c h

  take_out-Keeps : (o : Option ℕ) (c : Cache) → Keeps c (take_out index o c)
  unfolding take_out
  take_out-Keeps none c h = (h, refl, refl)
  take_out-Keeps (some i) c h =
      ground (arith, length-erase_at_le i c.list, IsDistinct-erase_at identity i c.list h.1)

  item_timeout-Keeps :
      (item : Device) (aborted : Bool) (c : Cache) → Keeps c (item_timeout index item aborted c)
  unfolding item_timeout remove
  item_timeout-Keeps item true c h = (h, refl, refl)
  item_timeout-Keeps item false c h = take_out-Keeps (index.found item c.list) c h

  perform-Keeps : (operation : Operation) (c : Cache) → Keeps c (perform index operation c)
  unfolding perform get get_by_entity get_by_name remove set_function set_entity_function
  perform-Keeps (insertion item) c h = insert-IsSound index item c h
  perform-Keeps (search key) c h = look_up-Keeps (index.found key c.list) c.get_function key c h
  perform-Keeps (entity_search key) c h =
      look_up-Keeps (index.found_entity key c.list) c.get_entity_function key c h
  perform-Keeps (name_search key) c h =
      look_up-Keeps (index.found_name key c.list) c.get_entity_function key c h
  perform-Keeps (removal item) c h = take_out-Keeps (index.found item c.list) c h
  perform-Keeps (expiry item aborted) c h = item_timeout-Keeps item aborted c h
  perform-Keeps (time_setting t) c h = set_time_to_life-Keeps t c h
  perform-Keeps (function_setting f) c h = (h, refl, refl)
  perform-Keeps (entity_function_setting f) c h = (h, refl, refl)

pub perform-IsSound :
    (capacity : ℕ) (lru : Bool) (index : Index) (operation : Operation) (c : Cache)
    → IsSound capacity lru c
    → IsSound capacity lru (perform index operation c)
perform-IsSound capacity lru index operation c h =
    let here = subst (λ (n : ℕ). IsSoundList n c.list) (sym h.1) h.0 in
    let next = perform-Keeps index operation c here in
    (
      subst (λ (n : ℕ). IsSoundList n (perform index operation c).list) h.1 next.0,
      next.1 ∙ h.1,
      next.2 ∙ h.2,
    )

run-IsSound :
    (capacity : ℕ) (lru : Bool) (calls : List (Index × Operation)) (c : Cache)
    → IsSound capacity lru c
    → IsSound capacity lru (run calls c)
unfolding run
run-IsSound capacity lru [] c h = h
run-IsSound capacity lru ((index, operation) ∷ calls) c h =
    run-IsSound capacity lru calls (perform index operation c)
      (perform-IsSound capacity lru index operation c h)

-- From a new cache of any capacity and either policy, every sequence of insertions, searches by
-- key, entity and name, removals, expiries and settings, whatever the hashed indices answer within
-- their contract and whatever the fetching functions return, leaves at most `capacity` devices in
-- the list, no two of them with the same name, service and service path, and the same capacity and
-- policy.
pub run-new_cache :
    (capacity : ℕ) (lru : Bool) (time_life : ℕ) (calls : List (Index × Operation))
    → IsSound capacity lru (run calls (new_cache capacity lru time_life))
unfolding new_cache
run-new_cache capacity lru time_life calls =
    run-IsSound capacity lru calls (new_cache capacity lru time_life)
      ((omega arith, tt), refl, refl)
