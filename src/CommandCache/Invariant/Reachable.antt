-- ===== src/CommandCache/Invariant/Reachable.antt =====
-- src/util/command_cache.cc, src/util/command_cache.h: the caches that the operations reach, and what
-- remove_all leaves of one.
use fiware_io_tagent_cpluspl.Common.{
  ℕ, ◌≤◌, Bytes, Bool, Option, List, [], ◌∷◌, ◌≡◌, refl, length, arith,
}
use fiware_io_tagent_cpluspl.Common.Int.{ℤ}
use fiware_io_tagent_cpluspl.Common.Positions.{length-erase_at}
use fiware_io_tagent_cpluspl.CommandCache.{
  Item, Index, CommandCache, new_command_cache, set_max_num_items, set_function,
  set_entity_function, set_id_function, set_timeout_function, insert, get, get_by_entity, get_by_id,
  get_by_id_from_mongo, get_by_id_vector, get_by_entity_vector, remove, erase_begin, remove_all,
  item_timeout, cache_of,
}
use fiware_io_tagent_cpluspl.CommandCache.Invariant.{IsSound, insert-IsSound, insert_all-IsSound}
use fiware_io_tagent_cpluspl.CommandCache.Invariant.Calls.{
  look_up-IsSound, fetch_id-IsSound, entity_hits-IsSound, erase_begin-IsSound, take_out-IsSound,
  item_timeout-IsSound,
}

module _ (Tree : Type 0) (lexical_cast : ℤ → Bytes) where
  abbrev Cell : Type 0
  Cell = Item Tree lexical_cast

  abbrev Cached : Type 0
  Cached = CommandCache Tree lexical_cast

  abbrev Fetch : Type 0
  Fetch = Item Tree lexical_cast → Option (Item Tree lexical_cast)

  -- A call of the cache.
  pub data Operation : Type 0 where
    capacity_setting : ℕ → Operation
    function_setting : (Item Tree lexical_cast → Option (Item Tree lexical_cast)) → Operation
    entity_function_setting : (Item Tree lexical_cast → Option (Item Tree lexical_cast)) → Operation
    id_function_setting : (Item Tree lexical_cast → Option (Item Tree lexical_cast)) → Operation
    timeout_function_setting : Operation
    insertion : Item Tree lexical_cast → Operation
    search : Item Tree lexical_cast → Operation
    entity_search : Item Tree lexical_cast → Operation
    id_search : Item Tree lexical_cast → Operation
    id_fetch : Item Tree lexical_cast → Operation
    entity_vector_search : Item Tree lexical_cast → ℤ → Operation
    id_vector_search : Item Tree lexical_cast → Operation
    removal : Item Tree lexical_cast → Operation
    full_removal : Operation
    expiry : Item Tree lexical_cast → Bool → Operation

  unfoldable pub perform :
      Index Tree lexical_cast
      → Operation
      → CommandCache Tree lexical_cast
      → CommandCache Tree lexical_cast
  perform index (capacity_setting capacity) c = set_max_num_items Tree lexical_cast capacity c
  perform index (function_setting f) c = set_function Tree lexical_cast f c
  perform index (entity_function_setting f) c = set_entity_function Tree lexical_cast f c
  perform index (id_function_setting f) c = set_id_function Tree lexical_cast f c
  perform index timeout_function_setting c = set_timeout_function Tree lexical_cast c
  perform index (insertion item) c = insert Tree lexical_cast index item c
  perform index (search key) c =
      cache_of Tree lexical_cast index (get Tree lexical_cast index key c)
  perform index (entity_search key) c =
      cache_of Tree lexical_cast index (get_by_entity Tree lexical_cast index key c)
  perform index (id_search key) c =
      cache_of Tree lexical_cast index (get_by_id Tree lexical_cast index key c)
  perform index (id_fetch key) c =
      cache_of Tree lexical_cast index (get_by_id_from_mongo Tree lexical_cast index key c)
  perform index (entity_vector_search key status) c =
      cache_of Tree lexical_cast index (get_by_entity_vector Tree lexical_cast index key status c)
  perform index (id_vector_search key) c = (get_by_id_vector Tree lexical_cast index key c).1
  perform index (removal key) c = remove Tree lexical_cast index key c
  perform index full_removal c = remove_all Tree lexical_cast index c
  perform index (expiry item aborted) c = item_timeout Tree lexical_cast index item aborted c

  -- A capacity that is set is at most `peak`.
  abbrev pub IsWithin : ℕ → Operation → Type 0
  IsWithin peak (capacity_setting capacity) = capacity ≤ peak
  IsWithin peak _ = Unit

  -- Calls one after another, each with the index as it is at its time.
  unfoldable pub run :
      List (Index Tree lexical_cast × Operation)
      → CommandCache Tree lexical_cast
      → CommandCache Tree lexical_cast
  run [] c = c
  run ((index, operation) ∷ calls) c = run calls (perform index operation c)

  abbrev pub IsAllWithin : ℕ → List (Index Tree lexical_cast × Operation) → Type 0
  IsAllWithin peak [] = Unit
  IsAllWithin peak ((index, operation) ∷ calls) = IsWithin peak operation × IsAllWithin peak calls

  module _ (peak : ℕ) (index : Index Tree lexical_cast) where
    abbrev Sound : Cached → Type 0
    Sound c = IsSound Tree lexical_cast peak c

    perform-IsSound :
        (operation : Operation) (c : Cached)
        → IsWithin peak operation
        → Sound c
        → Sound (perform index operation c)
    unfolding perform set_max_num_items set_function set_entity_function set_id_function
        set_timeout_function get get_by_entity get_by_id get_by_id_from_mongo get_by_entity_vector
        get_by_id_vector remove remove_all
    perform-IsSound (capacity_setting capacity) c w h = (w, h.1, h.2)
    perform-IsSound (function_setting f) c w h = h
    perform-IsSound (entity_function_setting f) c w h = h
    perform-IsSound (id_function_setting f) c w h = h
    perform-IsSound timeout_function_setting c w h = h
    perform-IsSound (insertion item) c w h = insert-IsSound Tree lexical_cast peak index item c h
    perform-IsSound (search key) c w h =
        look_up-IsSound Tree lexical_cast peak index _ c.get_function key c h
    perform-IsSound (entity_search key) c w h =
        look_up-IsSound Tree lexical_cast peak index _ c.get_entity_function key c h
    perform-IsSound (id_search key) c w h =
        look_up-IsSound Tree lexical_cast peak index _ c.get_id_function key c h
    perform-IsSound (id_fetch key) c w h =
        fetch_id-IsSound Tree lexical_cast peak index c.get_function c.get_id_function key c h
    perform-IsSound (entity_vector_search key status) c w h =
        entity_hits-IsSound Tree lexical_cast peak index status _ key c h
    perform-IsSound (id_vector_search key) c w h =
        insert_all-IsSound Tree lexical_cast peak index (index.id_tail key c.list) c h
    perform-IsSound (removal key) c w h = take_out-IsSound Tree lexical_cast peak index _ c h
    perform-IsSound full_removal c w h = erase_begin-IsSound Tree lexical_cast peak index _ c h
    perform-IsSound (expiry item aborted) c w h =
        item_timeout-IsSound Tree lexical_cast peak index item aborted c h

  run-IsSound :
      (peak : ℕ) (calls : List (Index Tree lexical_cast × Operation)) (c : Cached)
      → IsAllWithin peak calls
      → IsSound Tree lexical_cast peak c
      → IsSound Tree lexical_cast peak (run calls c)
  unfolding run
  run-IsSound peak [] c w h = h
  run-IsSound peak ((index, operation) ∷ calls) c w h =
      run-IsSound peak calls (perform index operation c) w.1
        (perform-IsSound peak index operation c w.0 h)

  -- From a new cache, every sequence of insertions, searches of all kinds, removals, expiries and settings
  -- in which no capacity above `peak` is set leaves at most `peak` commands, no two of
  -- them with the same sequence, service and service path, whatever the hashed indices answer within
  -- their contract and whatever the fetching functions return.
  pub run-new_command_cache :
      (peak capacity : ℕ) (lru : Bool) (calls : List (Index Tree lexical_cast × Operation))
      → capacity ≤ peak
      → IsAllWithin peak calls
      → IsSound Tree lexical_cast peak
          (run calls (new_command_cache Tree lexical_cast capacity lru))
  unfolding new_command_cache
  run-new_command_cache peak capacity lru calls h w =
      run-IsSound peak calls (new_command_cache Tree lexical_cast capacity lru) w
        (h, omega arith, tt)

  -- remove_all takes one command out of a cache that has any, and cancels no timer: all the others stay.
  pub remove_all-length :
      (index : Index Tree lexical_cast) (x : Item Tree lexical_cast)
      (list : List (Item Tree lexical_cast)) (c : CommandCache Tree lexical_cast)
      → c.list ≡ x ∷ list
      → (length (remove_all Tree lexical_cast index c).list ≡ length list)
        × ((remove_all Tree lexical_cast index c).timers ≡ c.timers)
  unfolding remove_all erase_begin
  remove_all-length index x list c e =
      let (i, y, begin, place) = index.id_begin_some x list in
      rw (e, begin) (ground (arith, length-erase_at i (x ∷ list) y place), refl)
