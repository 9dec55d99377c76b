-- ===== src/CommandCache/Invariant/Calls.antt =====
-- src/util/command_cache.cc, src/util/command_cache.h: the searches and the removals keep the invariant.
use fiware_io_tagent_cpluspl.Common.{
  ℕ, Bytes, Bool, true, false, Option, none, some, List, [], ◌∷◌, ◌≡◌, refl, get_elem?, if-both,
  arith,
}
use fiware_io_tagent_cpluspl.Common.Int.{ℤ}
use fiware_io_tagent_cpluspl.Common.Positions.{length-erase_at_le, IsDistinct-erase_at}
use fiware_io_tagent_cpluspl.CommandCache.{
  Item, identity, Index, CommandCache, Answer, insert_found, miss, look_up, fetch_id, entity_miss,
  entity_hits, take_out, remove, erase_begin, item_timeout, cache_of,
}
use fiware_io_tagent_cpluspl.CommandCache.Invariant.{
  IsSound, insert-IsSound, insert_with_status-IsSound,
}

module _ (Tree : Type 0) (lexical_cast : ℤ → Bytes) where
  abbrev Cell : Type 0
  Cell = Item Tree lexical_cast

  abbrev Cached : Type 0
  Cached = CommandCache Tree lexical_cast

  abbrev Fetch : Type 0
  Fetch = Item Tree lexical_cast → Option (Item Tree lexical_cast)

  module _ (peak : ℕ) (index : Index Tree lexical_cast) where
    abbrev Sound : Cached → Type 0
    Sound c = IsSound Tree lexical_cast peak c

    abbrev after : {A : Type 0} → Answer Tree lexical_cast index A → Cached
    after answer = cache_of Tree lexical_cast index answer

    insert_found-IsSound :
        (o : Option Cell) (c : Cached)
        → Sound c
        → Sound (after (insert_found Tree lexical_cast index o c))
    unfolding insert_found
    insert_found-IsSound none c h = h
    insert_found-IsSound (some item) c h = insert-IsSound Tree lexical_cast peak index item c h

    miss-IsSound :
        (g f : Option Fetch) (key : Cell) (c : Cached)
        → Sound c
        → Sound (after (miss Tree lexical_cast index g f key c))
    unfolding miss
    miss-IsSound none f key c h = h
    miss-IsSound (some g) none key c h = h
    miss-IsSound (some g) (some f) key c h = insert_found-IsSound (f key) c h

    pub look_up-IsSound :
        (o : Option ℕ) (f : Option Fetch) (key : Cell) (c : Cached)
        → Sound c
        → Sound (after (look_up Tree lexical_cast index o f key c))
    unfolding look_up
    look_up-IsSound (some i) f key c h = insert_found-IsSound (get_elem? c.list i) c h
    look_up-IsSound none f key c h = miss-IsSound c.get_function f key c h

    pub fetch_id-IsSound :
        (g f : Option Fetch) (key : Cell) (c : Cached)
        → Sound c
        → Sound (after (fetch_id Tree lexical_cast index g f key c))
    unfolding fetch_id
    fetch_id-IsSound none f key c h = h
    fetch_id-IsSound (some g) none key c h = h
    fetch_id-IsSound (some g) (some f) key c h = h

    fetched_status-IsSound :
        (status : ℤ) (g f : Fetch) (o : Option Cell) (key : Cell) (c : Cached)
        → f key ≡ o
        → Sound c
        → Sound (after (entity_miss Tree lexical_cast index status (some g) (some f) key c))
    unfolding entity_miss
    fetched_status-IsSound status g f none key c e h = rw e h
    fetched_status-IsSound status g f (some item) key c e h =
        rw e (insert_with_status-IsSound Tree lexical_cast peak index status (item ∷ []) c h)

    entity_miss-IsSound :
        (status : ℤ) (g f : Option Fetch) (key : Cell) (c : Cached)
        → Sound c
        → Sound (after (entity_miss Tree lexical_cast index status g f key c))
    unfolding entity_miss
    entity_miss-IsSound status none f key c h = h
    entity_miss-IsSound status (some g) none key c h = h
    entity_miss-IsSound status (some g) (some f) key c h =
        fetched_status-IsSound status g f (f key) key c refl h

    pub entity_hits-IsSound :
        (status : ℤ) (items : List Cell) (key : Cell) (c : Cached)
        → Sound c
        → Sound (after (entity_hits Tree lexical_cast index status items key c))
    unfolding entity_hits
    entity_hits-IsSound status [] key c h =
        entity_miss-IsSound status c.get_function c.get_entity_function key c h
    entity_hits-IsSound status (item ∷ items) key c h =
        insert_with_status-IsSound Tree lexical_cast peak index status (item ∷ items) c h

    pub erase_begin-IsSound :
        (o : Option ℕ) (c : Cached) → Sound c → Sound (erase_begin Tree lexical_cast index o c)
    unfolding erase_begin
    erase_begin-IsSound none c h = h
    erase_begin-IsSound (some i) c h = (
      h.0,
      omega (arith, length-erase_at_le i c.list, h.1),
      IsDistinct-erase_at (identity Tree lexical_cast) i c.list h.2,
    )

    pub take_out-IsSound :
        (o : Option ℕ) (c : Cached) → Sound c → Sound (take_out Tree lexical_cast index o c)
    unfolding take_out
    take_out-IsSound none c h = h
    take_out-IsSound (some i) c h = ground (
      arith,
      length-erase_at_le i c.list,
      IsDistinct-erase_at (identity Tree lexical_cast) i c.list h.2,
      h,
    )

    pub item_timeout-IsSound :
        (item : Cell) (aborted : Bool) (c : Cached)
        → Sound c
        → Sound (item_timeout Tree lexical_cast index item aborted c)
    unfolding item_timeout remove
    item_timeout-IsSound item true c h = h
    item_timeout-IsSound item false c h =
        if-both (λ d. Sound (take_out Tree lexical_cast index (index.found_id item d.list) d))
          c.timeout_function _ c (λ _. take_out-IsSound _ _ h) (λ _. take_out-IsSound _ c h)
