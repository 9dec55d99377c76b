-- ===== src/Cache/Recency/Insertion.antt =====
-- src/util/cache.cc: one insertion under the least-recently-used policy is one use of the device.
use fiware_io_tagent_cpluspl.Common.{
  ℕ, zero, suc, ◌≤◌, true, Bool-cases, some, Option-cases, inl, inr, List, [], ◌∷◌, ◌≡◌, ◌≢◌, refl,
  sym, ap, ◌∙◌, length, get_elem?, take, if◌then◌else◌, ltb, arith,
}
use fiware_io_tagent_cpluspl.Common.Positions.{
  erase_at, move_front, move_front-of_some, drop_last, Lacks, IsDistinct, length-move_front,
  All-get_elem?,
}
use fiware_io_tagent_cpluspl.Device.{Device}
use fiware_io_tagent_cpluspl.Cache.{Index, Cache, Identity, identity, insert_lru, insert}
use fiware_io_tagent_cpluspl.Cache.Invariant.{
  IsSoundList, insert_lru-list_fresh, insert_lru-list_found, insert-of_lru,
}
use fiware_io_tagent_cpluspl.Cache.Recency.{
  same_identity, same_identity_sound, same_identity_self, erase_first, touch, identities, take-all,
  length-identities, identities-drop_last,
}

-- The unique index finds only devices with all of the key's identity: no two service paths share a
-- bucket.
abbrev pub IsExact : Index → Type 0
IsExact index =
    (key : Device) (list : List Device) (i : ℕ)
    → index.found key list ≡ some i
    → (d : Device) × (get_elem? list i ≡ some d) × (identity d ≡ identity key)

erase_first-Lacks :
    (k : Identity) (list : List Device)
    → Lacks identity k list
    → erase_first k (identities list) ≡ identities list
unfolding erase_first
erase_first-Lacks k [] h = refl
erase_first-Lacks k (d ∷ list) h = elim (Bool-cases (same_identity (identity d) k)) [
  | inl e ↦ absurd (h.0 (same_identity_sound (identity d) k e))
  | inr e ↦ rw e (ap (◌∷◌ (identity d)) (erase_first-Lacks k list h.1))
]

erase_first-erase_at :
    (list : List Device) (i : ℕ) (d : Device)
    → get_elem? list i ≡ some d
    → IsDistinct identity list
    → erase_first (identity d) (identities list) ≡ identities (erase_at i list)
unfolding erase_first
erase_first-erase_at [] i d e h = refl
erase_first-erase_at (x ∷ list) zero d e h =
    let same : x ≡ d = ground (arith, e) in
    let found : same_identity (identity x) (identity d) ≡ true =
      ap (λ (y : Device). same_identity (identity y) (identity d)) same
      ∙ same_identity_self (identity d) in
    rw found refl
erase_first-erase_at (x ∷ list) (suc i) d e h =
    let other = All-get_elem? (λ (y : Device). identity y ≢ identity x) i list d h.0 e in
    elim (Bool-cases (same_identity (identity x) (identity d))) [
      | inl same ↦ absurd (other (sym (same_identity_sound (identity x) (identity d) same)))
      | inr differ ↦ rw differ (ap (◌∷◌ (identity x)) (erase_first-erase_at list i d e h.1))
    ]

cut-touch :
    (n : ℕ) (item : Device) (list : List Device)
    → length list ≤ n
    → identities (if ltb n (length (item ∷ list)) then drop_last (item ∷ list) else (item ∷ list))
      ≡ take n (identity item ∷ identities list)
cut-touch n item list h = elim (Bool-cases (ltb n (length (item ∷ list)))) [
  | inl e ↦ rw e (identities-drop_last n (item ∷ list) (ground (arith, e)))
  | inr e ↦ rw e (
      sym
        (take-all n (identity item ∷ identities list) (ground (arith, e, length-identities list))))
]

module _ (index : Index) (exact : IsExact index) where
  insert_lru-touch :
      (item : Device) (c : Cache)
      → IsSoundList c.max_num_items c.list
      → identities (insert_lru index item c).list
        ≡ take c.max_num_items (touch (identity item) (identities c.list))
  unfolding touch
  insert_lru-touch item c h = elim (Option-cases (index.found item c.list)) [
    | inl e ↦
        let fresh = index.found_none item c.list e in
        ap identities (insert_lru-list_fresh index item c e)
        ∙ cut-touch c.max_num_items item c.list h.0
        ∙ ap (λ (t : List Identity). take c.max_num_items (identity item ∷ t))
            (sym (erase_first-Lacks (identity item) c.list fresh))
    | inr (i, e) ↦
        let there = exact item c.list i e in
        let moved = move_front-of_some i c.list there.0 there.1 in
        let size : length (identities (move_front i c.list)) ≤ c.max_num_items =
          omega (arith, length-identities (move_front i c.list), length-move_front i c.list) in
        let order : identities (move_front i c.list)
            ≡ identity item ∷ erase_first (identity item) (identities c.list) =
          ap identities moved
          ∙ ap (λ (t : List Identity). identity there.0 ∷ t)
              (sym (erase_first-erase_at c.list i there.0 there.1 h.1))
          ∙ ap (λ (k : Identity). k ∷ erase_first k (identities c.list)) there.2 in
        ap identities (insert_lru-list_found index item c i e)
        ∙ sym (take-all c.max_num_items (identities (move_front i c.list)) size)
        ∙ ap (take c.max_num_items) order
  ]

  pub insert-touch :
      (item : Device) (c : Cache)
      → c.lru ≡ true
      → IsSoundList c.max_num_items c.list
      → identities (insert index item c).list
        ≡ take c.max_num_items (touch (identity item) (identities c.list))
  insert-touch item c lru h =
      ap (λ (d : Cache). identities d.list) (insert-of_lru index item c lru)
      ∙ insert_lru-touch item c h
