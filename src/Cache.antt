-- ===== src/Cache.antt =====
-- src/util/cache.cc and src/util/cache.h: the cache of devices.
pub mod Invariant
pub mod Recency
mod Tests
use fiware_io_tagent_cpluspl.Common.{
  ℕ, zero, suc, ◌<◌, Bytes, Bool, true, false, Option, none, some, List, [], ◌∷◌, ◌++◌, ◌≡◌, length,
  get_elem?, if◌then◌else◌, ltb,
}
use fiware_io_tagent_cpluspl.Common.Positions.{
  erase_at, move_front, move_back, drop_last, last?, Lacks,
}
use fiware_io_tagent_cpluspl.Device.{Device, same_device, unique_entity, unique_name}

-- What `hash_value` reads of a device.
abbrev pub Identity : Type 0
Identity = Bytes × Bytes × Bytes

unfoldable pub identity : Device → Identity
identity d = (d.name, d.service, d.service_path)

-- The three hashed indices of the container, a part of Boost: each answers with the position in
-- the sequence of an element that its equality accepts. `operator==` leaves out the service path,
-- which `hash_value` reads, so that the unique index surely finds an equal identity, and may find a
-- device of another service path that shares its bucket.
pub record Index : Type 0 where
  pub found : Device → List Device → Option ℕ
  pub found_entity : Device → List Device → Option ℕ
  pub found_name : Device → List Device → Option ℕ
  pub found_same :
      (key : Device) (list : List Device) (i : ℕ)
      → found key list ≡ some i
      → (d : Device) × (get_elem? list i ≡ some d) × (same_device d key ≡ true)
  pub found_none :
      (key : Device) (list : List Device)
      → found key list ≡ none
      → Lacks identity (identity key) list
  pub found_entity_same :
      (key : Device) (list : List Device) (i : ℕ)
      → found_entity key list ≡ some i
      → (d : Device) × (get_elem? list i ≡ some d) × (unique_entity d ≡ unique_entity key)
  pub found_name_same :
      (key : Device) (list : List Device) (i : ℕ)
      → found_name key list ≡ some i
      → (d : Device) × (get_elem? list i ≡ some d) × (unique_name d ≡ unique_name key)

-- What happens to the timer of the object at an address.
pub data TimerCall : Type 0 where
  start : ℕ → ℕ → TimerCall
  cancel : ℕ → TimerCall

-- `timers` is what the cache has done to the timers of its items, the latest first.
pub record Cache : Type 0 where
  pub max_num_items : ℕ
  pub list : List Device
  pub lru : Bool
  pub time_life : ℕ
  pub get_function : Option (Device → Option Device)
  pub get_entity_function : Option (Device → Option Device)
  pub timers : List TimerCall

-- Cache::Cache
unfoldable pub new_cache : ℕ → Bool → ℕ → Cache
new_cache capacity lru time_life = record {
  max_num_items = capacity;
  list = [];
  lru = lru;
  time_life = time_life;
  get_function = none;
  get_entity_function = none;
  timers = [];
}

unfoldable pub set_function : (Device → Option Device) → Cache → Cache
set_function get_function c = record c { get_function = some get_function }

unfoldable pub set_entity_function : (Device → Option Device) → Cache → Cache
set_entity_function get_function c = record c { get_entity_function = some get_function }

-- A time of 0 changes nothing, and a time that is set stays.
unfoldable pub set_time_to_life : ℕ → Cache → Cache
set_time_to_life zero c = c
set_time_to_life (suc time_life) c = elim c.time_life [
  | zero ↦ record c { time_life = suc time_life }
  | suc time ↦ c
]

-- item->start(io_service, _time_life), under its test
unfoldable pub start_timer : Device → Cache → Cache
start_timer item c =
    if ltb 0 c.time_life then record c { timers = start item.address c.time_life ∷ c.timers } else c

unfoldable pub cancel_last : Cache → Cache
cancel_last c = elim (last? c.list) [
  | none ↦ c
  | some item ↦ record c { timers = cancel item.address ∷ c.timers }
]

-- The last item goes when the list has grown beyond the capacity.
unfoldable pub discard : Cache → Cache
discard c =
    if ltb c.max_num_items (length c.list)
    then (let cancelled = if ltb 0 c.time_life then cancel_last c else c in
        record cancelled { list = drop_last cancelled.list })
    else c

-- push_back(item), and the relocation when the unique index refused it
unfoldable pub push_back : Device → Option ℕ → Cache → Cache
push_back item none c = record c { list = c.list ++ (item ∷ []) }
push_back item (some i) c = record c { list = move_back i c.list }

-- The two branches of Cache::insert: an item that is there already keeps its object, which moves.
module _ (index : Index) where
  unfoldable pub insert_lru : Device → Cache → Cache
  insert_lru item c = elim (index.found item c.list) [
    | none ↦ discard (start_timer item (record c { list = item ∷ c.list }))
    | some i ↦
        let started = start_timer item c in record started { list = move_front i started.list }
  ]

  unfoldable pub insert_mru : Device → Cache → Cache
  insert_mru item c =
      if ltb (length c.list) c.max_num_items
      then start_timer item (push_back item (index.found item c.list) c)
      else c

  -- Cache::insert
  unfoldable pub insert : Device → Cache → Cache
  insert item c = if c.lru then insert_lru item c else insert_mru item c

  -- `bad_function_call` is what calling an empty boost::function throws.
  pub data Answer : Type 0 where
    returned : Option Device → Cache → Answer
    bad_function_call : Cache → Answer

  -- An item that the index found is inserted again, and returned.
  unfoldable pub hit : Option Device → Cache → Answer
  hit none c = returned none c
  hit (some item) c = returned (some item) (insert item c)

  -- An item that the function had is inserted.
  unfoldable pub fetched : Option Device → Cache → Answer
  fetched none c = returned none c
  fetched (some new_item) c = returned (some new_item) (insert new_item c)

  -- Otherwise the function `fetch` is called, when `_get_function` is set.
  unfoldable pub miss :
      Option (Device → Option Device) → Option (Device → Option Device) → Device → Cache → Answer
  miss none fetch key c = returned none c
  miss (some get_function) none key c = bad_function_call c
  miss (some get_function) (some fetch) key c = fetched (fetch key) c

  unfoldable pub look_up : Option ℕ → Option (Device → Option Device) → Device → Cache → Answer
  look_up (some i) fetch key c = hit (get_elem? c.list i) c
  look_up none fetch key c = miss c.get_function fetch key c

  -- Cache::get
  unfoldable pub get : Device → Cache → Answer
  get key c = look_up (index.found key c.list) c.get_function key c

  -- Cache::get_by_entity
  unfoldable pub get_by_entity : Device → Cache → Answer
  get_by_entity key c = look_up (index.found_entity key c.list) c.get_entity_function key c

  -- Cache::get_by_name: on a miss it calls `_get_entity_function` too.
  unfoldable pub get_by_name : Device → Cache → Answer
  get_by_name key c = look_up (index.found_name key c.list) c.get_entity_function key c

  -- The found item's timer stops, and the item goes.
  unfoldable pub take_out : Option ℕ → Cache → Cache
  take_out none c = c
  take_out (some i) c = elim (get_elem? c.list i) [
    | none ↦ c
    | some item ↦ record c { timers = cancel item.address ∷ c.timers; list = erase_at i c.list }
  ]

  -- Cache::remove
  unfoldable pub remove : Device → Cache → Cache
  remove item c = take_out (index.found item c.list) c

  -- Cache::item_timeout; `aborted` is `ec == operation_aborted`.
  unfoldable pub item_timeout : Device → Bool → Cache → Cache
  item_timeout item aborted c = if aborted then c else remove item c

-- Cache::size
unfoldable pub size : Cache → ℕ
size c = length c.list
