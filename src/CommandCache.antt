-- ===== src/CommandCache.antt =====
-- src/util/command_cache.cc and src/util/command_cache.h: the cache of the commands that wait.
pub mod Invariant
mod Tests
use fiware_io_tagent_cpluspl.Common.{
  ℕ, zero, suc, Bytes, Bool, true, false, ◌==◌, Option, none, some, List, [], ◌∷◌, ◌++◌, ◌≡◌,
  length, map, get_elem?, if◌then◌else◌, ltb,
}
use fiware_io_tagent_cpluspl.Common.Int.{ℤ, pos, negsuc}
use fiware_io_tagent_cpluspl.Common.Positions.{
  erase_at, move_front, move_back, drop_last, last?, Lacks,
}
use fiware_io_tagent_cpluspl.Command.{
  Command, same_command, set_status, unique_command_entity, unique_id,
}

-- Commands whose tree is a `Tree`; `lexical_cast` is Boost's text of a number.
module _ (Tree : Type 0) (lexical_cast : ℤ → Bytes) where
  -- A command, and the object that a shared pointer to it points at.
  pub record Item : Type 0 where
    pub address : ℕ
    pub command : Command Tree

  -- What `hash_value` reads of a command.
  abbrev pub Identity : Type 0
  Identity = Bytes × Bytes × Bytes

  unfoldable pub identity : Item → Identity
  identity item = (item.command.sequence, item.command.service, item.command.service_path)

  -- The three hashed indices of the container, a part of Boost: the position in the sequence of an
  -- element that the equality of an index accepts, the elements from there to the end of the index,
  -- and the position of the element that an index starts with.
  pub record Index : Type 0 where
    pub found : Item → List Item → Option ℕ
    pub found_entity : Item → List Item → Option ℕ
    pub found_id : Item → List Item → Option ℕ
    pub entity_tail : Item → List Item → List Item
    pub id_tail : Item → List Item → List Item
    pub id_begin : List Item → Option ℕ
    pub found_same :
        (key : Item) (list : List Item) (i : ℕ)
        → found key list ≡ some i
        → (x : Item) × (get_elem? list i ≡ some x)
          × (same_command Tree x.command key.command ≡ true)
    pub found_none :
        (key : Item) (list : List Item) → found key list ≡ none → Lacks identity (identity key) list
    pub found_entity_same :
        (key : Item) (list : List Item) (i : ℕ)
        → found_entity key list ≡ some i
        → (x : Item) × (get_elem? list i ≡ some x)
          × (unique_command_entity Tree lexical_cast x.command
              ≡ unique_command_entity Tree lexical_cast key.command)
    pub found_id_same :
        (key : Item) (list : List Item) (i : ℕ)
        → found_id key list ≡ some i
        → (x : Item) × (get_elem? list i ≡ some x)
          × (unique_id Tree x.command ≡ unique_id Tree key.command)
    pub id_begin_some :
        (x : Item) (list : List Item)
        → (i : ℕ) × (y : Item) × (id_begin (x ∷ list) ≡ some i) × (get_elem? (x ∷ list) i ≡ some y)
    pub id_begin_none : id_begin [] ≡ none

  -- What happens to the timer of the object at an address; a timer starts with a time in seconds.
  pub data TimerCall : Type 0 where
    start : ℕ → ℕ → TimerCall
    cancel : ℕ → TimerCall

  -- `timers` is what the cache has done to the timers of its items, and `expired` the calls of
  -- _timeout_function, the latest first.
  pub record CommandCache : Type 0 where
    pub max_num_items : ℕ
    pub list : List Item
    pub lru : Bool
    pub get_function : Option (Item → Option Item)
    pub get_entity_function : Option (Item → Option Item)
    pub get_id_function : Option (Item → Option Item)
    pub timeout_function : Bool
    pub timers : List TimerCall
    pub expired : List Item

  -- CommandCache::CommandCache
  unfoldable pub new_command_cache : ℕ → Bool → CommandCache
  new_command_cache capacity lru = record {
    max_num_items = capacity;
    list = [];
    lru = lru;
    get_function = none;
    get_entity_function = none;
    get_id_function = none;
    timeout_function = false;
    timers = [];
    expired = [];
  }

  unfoldable pub set_max_num_items : ℕ → CommandCache → CommandCache
  set_max_num_items capacity c = record c { max_num_items = capacity }

  unfoldable pub set_function : (Item → Option Item) → CommandCache → CommandCache
  set_function get_function c = record c { get_function = some get_function }

  unfoldable pub set_entity_function : (Item → Option Item) → CommandCache → CommandCache
  set_entity_function get_function c = record c { get_entity_function = some get_function }

  unfoldable pub set_id_function : (Item → Option Item) → CommandCache → CommandCache
  set_id_function get_function c = record c { get_id_function = some get_function }

  -- Only that the function is set matters: its calls are recorded.
  unfoldable pub set_timeout_function : CommandCache → CommandCache
  set_timeout_function c = record c { timeout_function = true }

  unfoldable pub set_item_status : ℤ → Item → Item
  set_item_status status item = record item { command = set_status Tree status item.command }

  -- The object at an address is shared: it changes wherever it stands.
  unfoldable pub set_status_at : ℤ → ℕ → Item → Item
  set_status_at status address item =
      if item.address == address then set_item_status status item else item

  -- A timer of the item's own time, when that is above 0
  unfoldable pub start_timer : Item → ℤ → CommandCache → CommandCache
  start_timer item (pos (suc time)) c = record c {
    timers = start item.address (suc time) ∷ c.timers;
  }
  start_timer item _ c = c

  -- _list.back()->cancel(), and pop_back(), when the list has grown beyond the capacity
  unfoldable pub cancel_last : Option Item → List TimerCall → List TimerCall
  cancel_last none timers = timers
  cancel_last (some item) timers = cancel item.address ∷ timers

  unfoldable pub discard : CommandCache → CommandCache
  discard c =
      if ltb c.max_num_items (length c.list)
      then record c { timers = cancel_last (last? c.list) c.timers; list = drop_last c.list }
      else c

  -- The two branches of CommandCache::insert, by what the unique index has of the item.
  unfoldable pub insert_lru : Item → Option ℕ → CommandCache → CommandCache
  insert_lru item none c =
      discard (start_timer item item.command.timeout (record c { list = item ∷ c.list }))
  insert_lru item (some i) c =
      start_timer item item.command.timeout (record c { list = move_front i c.list })

  unfoldable pub push_back : Item → Option ℕ → List Item → List Item
  push_back item none list = list ++ (item ∷ [])
  push_back item (some i) list = move_back i list

  unfoldable pub insert_mru : Item → Option ℕ → CommandCache → CommandCache
  insert_mru item place c =
      if ltb (length c.list) c.max_num_items
      then start_timer item item.command.timeout (record c { list = push_back item place c.list })
      else c

  module _ (index : Index) where
    -- CommandCache::insert
    unfoldable pub insert : Item → CommandCache → CommandCache
    insert item c =
        let place = index.found item c.list in
        if c.lru then insert_lru item place c else insert_mru item place c

    -- `bad_function_call` is what calling an empty boost::function throws.
    pub data Answer (A : Type 0) : Type 0 where
      returned : A → CommandCache → Answer A
      bad_function_call : CommandCache → Answer A

    -- The cache after a call, whether it returned or not.
    abbrev pub cache_of : {A : Type 0} → Answer A → CommandCache
    cache_of (returned a c) = c
    cache_of (bad_function_call c) = c

    -- An item that the index found, or that the function had, is inserted.
    unfoldable pub insert_found : Option Item → CommandCache → Answer (Option Item)
    insert_found none c = returned none c
    insert_found (some item) c = returned (some item) (insert item c)

    -- Otherwise the function `fetch` is called, when `_get_function` is set.
    unfoldable pub miss :
        Option (Item → Option Item)
        → Option (Item → Option Item)
        → Item
        → CommandCache
        → Answer (Option Item)
    miss none fetch key c = returned none c
    miss (some get_function) none key c = bad_function_call c
    miss (some get_function) (some fetch) key c = insert_found (fetch key) c

    unfoldable pub look_up :
        Option ℕ → Option (Item → Option Item) → Item → CommandCache → Answer (Option Item)
    look_up (some i) fetch key c = insert_found (get_elem? c.list i) c
    look_up none fetch key c = miss c.get_function fetch key c

    unfoldable pub get : Item → CommandCache → Answer (Option Item)
    get key c = look_up (index.found key c.list) c.get_function key c

    unfoldable pub get_by_entity : Item → CommandCache → Answer (Option Item)
    get_by_entity key c = look_up (index.found_entity key c.list) c.get_entity_function key c

    unfoldable pub get_by_id : Item → CommandCache → Answer (Option Item)
    get_by_id key c = look_up (index.found_id key c.list) c.get_id_function key c

    -- The function for identifiers is called whatever the cache has, and nothing is inserted.
    unfoldable pub fetch_id :
        Option (Item → Option Item)
        → Option (Item → Option Item)
        → Item
        → CommandCache
        → Answer (Option Item)
    fetch_id none fetch key c = returned none c
    fetch_id (some get_function) none key c = bad_function_call c
    fetch_id (some get_function) (some fetch) key c = returned (fetch key) c

    unfoldable pub get_by_id_from_mongo : Item → CommandCache → Answer (Option Item)
    get_by_id_from_mongo key c = fetch_id c.get_function c.get_id_function key c

    -- The loop of get_by_idV, over the items from the one that was found to the end of the index
    unfoldable pub insert_all : List Item → CommandCache → CommandCache
    insert_all [] c = c
    insert_all (item ∷ items) c = insert_all items (insert item c)

    unfoldable pub get_by_id_vector : Item → CommandCache → List Item × CommandCache
    get_by_id_vector key c = let items = index.id_tail key c.list in (items, insert_all items c)

    -- The loop of get_by_entityV, which sets a status before it inserts an item
    unfoldable pub insert_with_status : ℤ → List Item → CommandCache → CommandCache
    insert_with_status status [] c = c
    insert_with_status status (item ∷ items) c = insert_with_status status items (
        insert (set_item_status status item)
          (record c { list = map (set_status_at status item.address) c.list }))

    unfoldable pub entity_miss :
        ℤ
        → Option (Item → Option Item)
        → Option (Item → Option Item)
        → Item
        → CommandCache
        → Answer (List Item)
    entity_miss status none fetch key c = returned [] c
    entity_miss status (some get_function) none key c = bad_function_call c
    entity_miss status (some get_function) (some fetch) key c = elim (fetch key) [
      | none ↦ returned [] c
      | some item ↦
          returned (set_item_status status item ∷ []) (insert_with_status status (item ∷ []) c)
    ]

    unfoldable pub entity_hits : ℤ → List Item → Item → CommandCache → Answer (List Item)
    entity_hits status [] key c = entity_miss status c.get_function c.get_entity_function key c
    entity_hits status (item ∷ items) key c =
        returned (map (set_item_status status) (item ∷ items))
          (insert_with_status status (item ∷ items) c)

    -- CommandCache::get_by_entityV
    unfoldable pub get_by_entity_vector : Item → ℤ → CommandCache → Answer (List Item)
    get_by_entity_vector key new_status c =
        entity_hits new_status (index.entity_tail key c.list) key c

    unfoldable pub take_out : Option ℕ → CommandCache → CommandCache
    take_out none c = c
    take_out (some i) c = elim (get_elem? c.list i) [
      | none ↦ c
      | some item ↦ record c { timers = cancel item.address ∷ c.timers; list = erase_at i c.list }
    ]

    -- CommandCache::remove, by the identifier
    unfoldable pub remove : Item → CommandCache → CommandCache
    remove key c = take_out (index.found_id key c.list) c

    -- CommandCache::remove_all erases the element that the index of identifiers starts with.
    unfoldable pub erase_begin : Option ℕ → CommandCache → CommandCache
    erase_begin none c = c
    erase_begin (some i) c = record c { list = erase_at i c.list }

    unfoldable pub remove_all : CommandCache → CommandCache
    remove_all c = erase_begin (index.id_begin c.list) c

    -- CommandCache::item_timeout; `aborted` is `ec == operation_aborted`.
    unfoldable pub item_timeout : Item → Bool → CommandCache → CommandCache
    item_timeout item aborted c =
        if aborted
        then c
        else remove item (if c.timeout_function then record c { expired = item ∷ c.expired } else c)
