-- ===== src/Cache/Invariant.antt =====
-- src/util/cache.cc, src/util/cache.h: what every operation of the cache keeps.
pub mod Reachable
use fiware_io_tagent_cpluspl.Common.{
  ℕ, zero, suc, ◌≤◌, ◌<◌, Bool, true, false, Bool-cases, Option, none, some, Option-cases, List, [],
  ◌∷◌, ◌++◌, ◌≡◌, refl, sym, ap, ◌∙◌, inl, inr, length, get_elem?, if◌then◌else◌, ltb, arith,
  length-append,
}
use fiware_io_tagent_cpluspl.Common.Positions.{
  erase_at, move_front, move_back, drop_last, Lacks, IsDistinct, length-move_front,
  length-move_back, length-drop_last, length-erase_at_le, IsDistinct-move_front,
  IsDistinct-move_back, IsDistinct-drop_last, IsDistinct-erase_at, IsDistinct-append,
}
use fiware_io_tagent_cpluspl.Device.{Device}
use fiware_io_tagent_cpluspl.Cache.{
  Index, Cache, identity, Identity, new_cache, set_function, set_entity_function, set_time_to_life,
  start_timer, cancel_last, discard, insert_lru, insert_mru, insert, Answer, returned,
  bad_function_call, push_back, hit, miss, get, get_by_entity, get_by_name, remove, item_timeout,
}

-- A list within a capacity, with no identity twice.
abbrev pub IsSoundList : ℕ → List Device → Type 0
IsSoundList capacity list = (length list ≤ capacity) × IsDistinct identity list

-- The list is sound, and the capacity and the policy are those given.
abbrev pub IsSound : ℕ → Bool → Cache → Type 0
IsSound capacity lru c = IsSoundList capacity c.list × (c.max_num_items ≡ capacity) × (c.lru ≡ lru)

pub start_timer-list : (item : Device) (c : Cache) → (start_timer item c).list ≡ c.list
unfolding start_timer
start_timer-list item c = ground arith

start_timer-capacity :
    (item : Device) (c : Cache) → (start_timer item c).max_num_items ≡ c.max_num_items
unfolding start_timer
start_timer-capacity item c = ground arith

start_timer-lru : (item : Device) (c : Cache) → (start_timer item c).lru ≡ c.lru
unfolding start_timer
start_timer-lru item c = ground arith

cancel_last-list : (c : Cache) → (cancel_last c).list ≡ c.list
unfolding cancel_last
cancel_last-list c = ground arith

cancel_last-capacity : (c : Cache) → (cancel_last c).max_num_items ≡ c.max_num_items
unfolding cancel_last
cancel_last-capacity c = ground arith

cancel_last-lru : (c : Cache) → (cancel_last c).lru ≡ c.lru
unfolding cancel_last
cancel_last-lru c = ground arith

pub discard-list :
    (c : Cache)
    → (discard c).list ≡ (if ltb c.max_num_items (length c.list) then drop_last c.list else c.list)
unfolding discard
discard-list c = ground (arith, cancel_last-list c)

discard-capacity : (c : Cache) → (discard c).max_num_items ≡ c.max_num_items
unfolding discard
discard-capacity c = ground (arith, cancel_last-capacity c)

discard-lru : (c : Cache) → (discard c).lru ≡ c.lru
unfolding discard
discard-lru c = ground (arith, cancel_last-lru c)

IsSoundList-cut :
    (capacity : ℕ) (item : Device) (list : List Device)
    → IsSoundList capacity list
    → Lacks identity (identity item) list
    → IsSoundList capacity
        (if ltb capacity (length (item ∷ list)) then drop_last (item ∷ list) else (item ∷ list))
IsSoundList-cut capacity item list h f = elim (Bool-cases (ltb capacity (length (item ∷ list)))) [
  | inl e ↦ rw e (
    omega (arith, length-drop_last item list),
    IsDistinct-drop_last identity (item ∷ list) (f, h.1),
  )
  | inr e ↦ rw e (ground arith, (f, h.1))
]

module _ (index : Index) where
  pub insert_lru-of_none :
      (item : Device) (c : Cache)
      → index.found item c.list ≡ none
      → insert_lru index item c ≡ discard (start_timer item (record c { list = item ∷ c.list }))
  unfolding insert_lru
  insert_lru-of_none item c e =
      ap
        (λ o. elim o [
          | none ↦ discard (start_timer item (record c { list = item ∷ c.list }))
          | some i ↦ record (start_timer item c) { list = move_front i (start_timer item c).list }
        ])
        e

  pub insert_lru-of_some :
      (item : Device) (c : Cache) (i : ℕ)
      → index.found item c.list ≡ some i
      → insert_lru index item c
        ≡ record (start_timer item c) { list = move_front i (start_timer item c).list }
  unfolding insert_lru
  insert_lru-of_some item c i e =
      ap
        (λ o. elim o [
          | none ↦ discard (start_timer item (record c { list = item ∷ c.list }))
          | some i ↦ record (start_timer item c) { list = move_front i (start_timer item c).list }
        ])
        e

  -- The list that an insertion leaves, by what the unique index finds.
  pub insert_lru-list_fresh :
      (item : Device) (c : Cache)
      → index.found item c.list ≡ none
      → (insert_lru index item c).list ≡ (
          if ltb c.max_num_items (length (item ∷ c.list))
          then drop_last (item ∷ c.list)
          else (item ∷ c.list))
  insert_lru-list_fresh item c e =
      let pushed : Cache = record c { list = item ∷ c.list } in
      ap (λ (d : Cache). d.list) (insert_lru-of_none item c e)
      ∙ discard-list (start_timer item pushed)
      ∙ ap
          (λ (n : ℕ).
            if ltb n (length (start_timer item pushed).list)
            then drop_last (start_timer item pushed).list
            else (start_timer item pushed).list)
          (start_timer-capacity item pushed)
      ∙ ap (λ (l : List Device). if ltb c.max_num_items (length l) then drop_last l else l)
          (start_timer-list item pushed)

  pub insert_lru-list_found :
      (item : Device) (c : Cache) (i : ℕ)
      → index.found item c.list ≡ some i
      → (insert_lru index item c).list ≡ move_front i c.list
  insert_lru-list_found item c i e =
      ap (λ (d : Cache). d.list) (insert_lru-of_some item c i e)
      ∙ ap (move_front i) (start_timer-list item c)

  pub insert_lru-settings :
      (item : Device) (c : Cache)
      → ((insert_lru index item c).max_num_items ≡ c.max_num_items)
        × ((insert_lru index item c).lru ≡ c.lru)
  insert_lru-settings item c = elim (Option-cases (index.found item c.list)) [
    | inl e ↦
        let pushed : Cache = record c { list = item ∷ c.list } in
        rw (insert_lru-of_none item c e) (
          discard-capacity (start_timer item pushed) ∙ start_timer-capacity item pushed,
          discard-lru (start_timer item pushed) ∙ start_timer-lru item pushed,
        )
    | inr (i, e) ↦
        rw (insert_lru-of_some item c i e) (start_timer-capacity item c, start_timer-lru item c)
  ]

  insert_lru-IsSoundList :
      (item : Device) (c : Cache)
      → IsSoundList c.max_num_items c.list
      → IsSoundList c.max_num_items (insert_lru index item c).list
  insert_lru-IsSoundList item c h = elim (Option-cases (index.found item c.list)) [
    | inl e ↦
        rw (insert_lru-list_fresh item c e)
          (IsSoundList-cut c.max_num_items item c.list h (index.found_none item c.list e))
    | inr (i, e) ↦
        rw (insert_lru-list_found item c i e)
          (omega (arith, length-move_front i c.list), IsDistinct-move_front identity i c.list h.1)
  ]

  insert_mru-of_room :
      (item : Device) (c : Cache)
      → ltb (length c.list) c.max_num_items ≡ true
      → insert_mru index item c ≡ start_timer item (push_back item (index.found item c.list) c)
  unfolding insert_mru
  insert_mru-of_room item c room = ground (arith, room)

  pub insert_mru-of_full :
      (item : Device) (c : Cache)
      → ltb (length c.list) c.max_num_items ≡ false
      → insert_mru index item c ≡ c
  unfolding insert_mru
  insert_mru-of_full item c full = ground (arith, full)

  push_back-IsSoundList :
      (item : Device) (c : Cache)
      → length c.list < c.max_num_items
      → IsSoundList c.max_num_items c.list
      → IsSoundList c.max_num_items (push_back item (index.found item c.list) c).list
  unfolding push_back
  push_back-IsSoundList item c room h = elim (Option-cases (index.found item c.list)) [
    | inl e ↦ rw e (
      omega (arith, length-append c.list (item ∷ [])),
      IsDistinct-append identity c.list item h.1 (index.found_none item c.list e),
    )
    | inr (i, e) ↦
        rw e (omega (arith, length-move_back i c.list), IsDistinct-move_back identity i c.list h.1)
  ]

  push_back-settings :
      (item : Device) (o : Option ℕ) (c : Cache)
      → ((push_back item o c).max_num_items ≡ c.max_num_items) × ((push_back item o c).lru ≡ c.lru)
  unfolding push_back
  push_back-settings item none c = (refl, refl)
  push_back-settings item (some i) c = (refl, refl)

  insert_mru-IsSound :
      (item : Device) (c : Cache)
      → IsSoundList c.max_num_items c.list
      → IsSound c.max_num_items c.lru (insert_mru index item c)
  insert_mru-IsSound item c h = elim (Bool-cases (ltb (length c.list) c.max_num_items)) [
    | inl room ↦
        let pushed = push_back item (index.found item c.list) c in
        let settings = push_back-settings item (index.found item c.list) c in
        rw (insert_mru-of_room item c room, start_timer-list item pushed)
          (
            push_back-IsSoundList item c (ground arith) h,
            start_timer-capacity item pushed ∙ settings.0,
            start_timer-lru item pushed ∙ settings.1,
          )
    | inr full ↦ rw (insert_mru-of_full item c full) (h, refl, refl)
  ]

  pub insert-of_lru :
      (item : Device) (c : Cache) → c.lru ≡ true → insert index item c ≡ insert_lru index item c
  unfolding insert
  insert-of_lru item c e =
      ap (λ b. if b then insert_lru index item c else insert_mru index item c) e

  insert-of_mru :
      (item : Device) (c : Cache) → c.lru ≡ false → insert index item c ≡ insert_mru index item c
  unfolding insert
  insert-of_mru item c e =
      ap (λ b. if b then insert_lru index item c else insert_mru index item c) e

  pub insert-IsSound :
      (item : Device) (c : Cache)
      → IsSoundList c.max_num_items c.list
      → IsSound c.max_num_items c.lru (insert index item c)
  insert-IsSound item c h = elim (Bool-cases c.lru) [
    | inl e ↦
        let settings = insert_lru-settings item c in
        rw (insert-of_lru item c e) (insert_lru-IsSoundList item c h, settings.0, settings.1)
    | inr e ↦ rw (insert-of_mru item c e) (insert_mru-IsSound item c h)
  ]
