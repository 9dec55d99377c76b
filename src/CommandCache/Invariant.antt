-- ===== src/CommandCache/Invariant.antt =====
-- src/util/command_cache.cc, src/util/command_cache.h: what every operation of the cache keeps.
pub mod Calls
pub mod Reachable
use fiware_io_tagent_cpluspl.Common.{
  ℕ, zero, suc, ◌≤◌, ◌<◌, Bytes, Bool, true, false, Option, none, some, Option-cases, List, [], ◌∷◌,
  ◌++◌, ◌≡◌, refl, sym, ap, ◌∙◌, inl, inr, length, get_elem?, map, if◌then◌else◌, if-both, ltb,
  ◌==◌, arith, length-append, All,
}
use fiware_io_tagent_cpluspl.Common.Int.{ℤ, pos, negsuc}
use fiware_io_tagent_cpluspl.Common.Positions.{
  erase_at, move_front, move_back, drop_last, last?, Lacks, IsDistinct, length-move_front,
  length-move_back, length-drop_last, length-erase_at_le, IsDistinct-move_front,
  IsDistinct-move_back, IsDistinct-drop_last, IsDistinct-erase_at, IsDistinct-append, length-map,
  IsDistinct-map,
}
use fiware_io_tagent_cpluspl.Command.{set_status}
use fiware_io_tagent_cpluspl.CommandCache.{
  Item, identity, Index, CommandCache, new_command_cache, set_max_num_items, start_timer, discard,
  insert_lru, push_back, insert_mru, insert, Answer, returned, bad_function_call, insert_found,
  miss, look_up, get, get_by_entity, get_by_id, fetch_id, get_by_id_from_mongo, insert_all,
  get_by_id_vector, set_item_status, set_status_at, insert_with_status, entity_miss, entity_hits,
  get_by_entity_vector, take_out, remove, erase_begin, remove_all, item_timeout,
}

module _ (Tree : Type 0) (lexical_cast : ℤ → Bytes) (peak : ℕ) where
  abbrev Cell : Type 0
  Cell = Item Tree lexical_cast

  abbrev Cached : Type 0
  Cached = CommandCache Tree lexical_cast

  abbrev pub IsDistinctList : List (Item Tree lexical_cast) → Type 0
  IsDistinctList list = IsDistinct (identity Tree lexical_cast) list

  -- A capacity of at most `peak`, no more items than that, and no identity twice.
  abbrev pub IsSound : CommandCache Tree lexical_cast → Type 0
  IsSound c = (c.max_num_items ≤ peak) × (length c.list ≤ peak) × IsDistinctList c.list

  start_timer-IsSound :
      (item : Cell) (time : ℤ) (c : Cached)
      → IsSound c
      → IsSound (start_timer Tree lexical_cast item time c)
  unfolding start_timer
  start_timer-IsSound item (pos zero) c h = h
  start_timer-IsSound item (pos (suc time)) c h = h
  start_timer-IsSound item (negsuc time) c h = h

  discard-IsSound :
      (item : Cell) (list : List Cell) (c : Cached)
      → c.list ≡ item ∷ list
      → c.max_num_items ≤ peak
      → length list ≤ peak
      → IsDistinctList c.list
      → IsSound (discard Tree lexical_cast c)
  unfolding discard
  discard-IsSound item list c e capacity size distinct =
      if-both IsSound (ltb c.max_num_items (length c.list)) _ c
        (λ _. (
          capacity,
          rw e (omega (arith, length-drop_last item list, size)),
          IsDistinct-drop_last (identity Tree lexical_cast) c.list distinct,
        ))
        (λ few. (capacity, ground (arith, few, capacity), distinct))

  start_timer-list :
      (item : Cell) (time : ℤ) (c : Cached)
      → ((start_timer Tree lexical_cast item time c).list ≡ c.list)
        × ((start_timer Tree lexical_cast item time c).max_num_items ≡ c.max_num_items)
  unfolding start_timer
  start_timer-list item (pos zero) c = (refl, refl)
  start_timer-list item (pos (suc time)) c = (refl, refl)
  start_timer-list item (negsuc time) c = (refl, refl)

  module _ (index : Index Tree lexical_cast) where
    insert_lru-IsSound :
        (item : Cell) (o : Option ℕ) (c : Cached)
        → index.found item c.list ≡ o
        → IsSound c
        → IsSound (insert_lru Tree lexical_cast item o c)
    unfolding insert_lru
    insert_lru-IsSound item none c e h =
        let pushed : Cached = record c { list = item ∷ c.list } in
        let (list, capacity) = start_timer-list item item.command.timeout pushed in
        discard-IsSound item c.list (start_timer Tree lexical_cast item item.command.timeout pushed)
          list (rw capacity h.0) h.1 (rw list (index.found_none item c.list e, h.2))
    insert_lru-IsSound item (some i) c e h =
        start_timer-IsSound item item.command.timeout (record c { list = move_front i c.list })
          (
            h.0,
            omega (arith, length-move_front i c.list, h.1),
            IsDistinct-move_front (identity Tree lexical_cast) i c.list h.2,
          )

    push_back-IsDistinct :
        (item : Cell) (o : Option ℕ) (list : List Cell)
        → index.found item list ≡ o
        → IsDistinctList list
        → (length (push_back Tree lexical_cast item o list) ≤ suc (length list))
          × IsDistinctList (push_back Tree lexical_cast item o list)
    unfolding push_back
    push_back-IsDistinct item none list e h = (
      omega (arith, length-append list (item ∷ [])),
      IsDistinct-append (identity Tree lexical_cast) list item h (index.found_none item list e),
    )
    push_back-IsDistinct item (some i) list e h = (
      omega (arith, length-move_back i list),
      IsDistinct-move_back (identity Tree lexical_cast) i list h,
    )

    insert_mru-IsSound :
        (item : Cell) (c : Cached)
        → IsSound c
        → IsSound (insert_mru Tree lexical_cast item (index.found item c.list) c)
    unfolding insert_mru
    insert_mru-IsSound item c h =
        let place = index.found item c.list in
        let (size, distinct) = push_back-IsDistinct item place c.list refl h.2 in
        if-both IsSound (ltb (length c.list) c.max_num_items) _ c
          (λ room.
            start_timer-IsSound item item.command.timeout
              (record c { list = push_back Tree lexical_cast item place c.list })
              (h.0, ground (arith, room, size, h.0), distinct))
          (λ _. h)

    pub insert-IsSound :
        (item : Cell) (c : Cached) → IsSound c → IsSound (insert Tree lexical_cast index item c)
    unfolding insert
    insert-IsSound item c h =
        if-both IsSound c.lru _ _ (λ _. insert_lru-IsSound item (index.found item c.list) c refl h)
          (λ _. insert_mru-IsSound item c h)

    pub insert_all-IsSound :
        (items : List Cell) (c : Cached)
        → IsSound c
        → IsSound (insert_all Tree lexical_cast index items c)
    unfolding insert_all
    insert_all-IsSound [] c h = h
    insert_all-IsSound (item ∷ items) c h = insert_all-IsSound items _ (insert-IsSound item c h)

    pub insert_with_status-IsSound :
        (status : ℤ) (items : List Cell) (c : Cached)
        → IsSound c
        → IsSound (insert_with_status Tree lexical_cast index status items c)
    unfolding insert_with_status set_status_at set_item_status set_status identity
    insert_with_status-IsSound status [] c h = h
    insert_with_status-IsSound status (item ∷ items) c h =
        let change = set_status_at Tree lexical_cast status item.address in
        let same : (x : Cell)
            → identity Tree lexical_cast (change x) ≡ identity Tree lexical_cast x =
          λ x.
            if-both (λ y. identity Tree lexical_cast y ≡ identity Tree lexical_cast x)
              (x.address == item.address) _ x (λ _. refl) (λ _. refl) in
        insert_with_status-IsSound status items _ (
          insert-IsSound (set_item_status Tree lexical_cast status item)
            (record c { list = map change c.list })
            (
              h.0,
              rw (length-map (identity Tree lexical_cast) change same c.list) h.1,
              IsDistinct-map (identity Tree lexical_cast) change same c.list h.2,
            ))
