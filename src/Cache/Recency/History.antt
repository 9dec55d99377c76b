-- ===== src/Cache/Recency/History.antt =====
-- src/util/cache.cc, src/util/cache.h: insertions and searches under the least-recently-used policy, against
-- the order of the last uses, which is never cut.
use mathlib.Core.Path.{subst}
use fiware_io_tagent_cpluspl.Common.{
  ℕ, zero, suc, true, false, Bool-cases, Option, none, some, Option-cases, inl, inr, List, [], ◌∷◌,
  ◌≡◌, refl, sym, ap, ◌∙◌, get_elem?, take, any, if◌then◌else◌, All, arith,
}
use fiware_io_tagent_cpluspl.Common.Positions.{Lacks}
use fiware_io_tagent_cpluspl.Device.{Device}
use fiware_io_tagent_cpluspl.Cache.{
  Index, Cache, Identity, identity, new_cache, set_function, insert, insert_lru, insert_mru,
  discard, start_timer, cancel_last, push_back, get, look_up, hit, miss, fetched,
}
use fiware_io_tagent_cpluspl.Cache.Invariant.{IsSoundList, IsSound}
use fiware_io_tagent_cpluspl.Cache.Invariant.Reachable.{
  cache_of, perform, insertion, perform-IsSound,
}
use fiware_io_tagent_cpluspl.Cache.Recency.{
  same_identity, same_identity_sound, same_identity_self, touch, identities, take-touch,
}
use fiware_io_tagent_cpluspl.Cache.Recency.Insertion.{IsExact, insert-touch}

pub data Use : Type 0 where
  inserted : Device → Use
  searched : Device → Use

unfoldable pub perform_use : Index → Use → Cache → Cache
perform_use index (inserted item) c = insert index item c
perform_use index (searched key) c = cache_of index (get index key c)

unfoldable pub use_all : List (Index × Use) → Cache → Cache
use_all [] c = c
use_all ((index, u) ∷ uses) c = use_all uses (perform_use index u c)

-- The specification: the order of all the last uses. A device is there for a search when it is one
-- of the `n` last used; otherwise what `fetch` gives is used.
abbrev fetched_order : Option Device → List Identity → List Identity
fetched_order none order = order
fetched_order (some item) order = touch (identity item) order

abbrev missed_order : Option (Device → Option Device) → Device → List Identity → List Identity
missed_order none key order = order
missed_order (some fetch) key order = fetched_order (fetch key) order

unfoldable pub order_after :
    ℕ → Option (Device → Option Device) → Use → List Identity → List Identity
order_after n fetch (inserted item) order = touch (identity item) order
order_after n fetch (searched key) order =
    if any (same_identity (identity key)) (take n order)
    then touch (identity key) order
    else missed_order fetch key order

unfoldable pub order_of :
    ℕ → Option (Device → Option Device) → List (Index × Use) → List Identity → List Identity
order_of n fetch [] order = order
order_of n fetch ((index, u) ∷ uses) order = order_of n fetch uses (order_after n fetch u order)

any-found :
    (k : Identity) (list : List Device) (i : ℕ) (d : Device)
    → get_elem? list i ≡ some d
    → identity d ≡ k
    → any (same_identity k) (identities list) ≡ true
any-found k [] i d e same = absurd (ground (arith, e))
any-found k (x ∷ list) zero d e same =
    let at : x ≡ d = ground (arith, e) in
    let hit : same_identity k (identity x) ≡ true =
      ap (λ (y : Device). same_identity k (identity y)) at
      ∙ ap (same_identity k) same
      ∙ same_identity_self k in
    rw hit refl
any-found k (x ∷ list) (suc i) d e same = ground (arith, any-found k list i d e same)

any-Lacks :
    (k : Identity) (list : List Device)
    → Lacks identity k list
    → any (same_identity k) (identities list) ≡ false
any-Lacks k [] h = refl
any-Lacks k (x ∷ list) h = elim (Bool-cases (same_identity k (identity x))) [
  | inl e ↦ absurd (h.0 (sym (same_identity_sound k (identity x) e)))
  | inr e ↦ rw e (any-Lacks k list h.1)
]

insert-get_function :
    (index : Index) (item : Device) (c : Cache)
    → (insert index item c).get_function ≡ c.get_function
unfolding insert insert_lru insert_mru discard start_timer cancel_last push_back
insert-get_function index item c = ground arith

-- The cache has the first `n` of the order.
abbrev Tracks : ℕ → Option (Device → Option Device) → List Identity → Cache → Type 0
Tracks n fetch order c =
    IsSound n true c × (c.get_function ≡ fetch) × (identities c.list ≡ take n order)

module _ (index : Index) (exact : IsExact index) where
  insert-Tracks :
      (n : ℕ) (fetch : Option (Device → Option Device)) (item : Device) (order : List Identity)
      (c : Cache)
      → Tracks n fetch order c
      → Tracks n fetch (touch (identity item) order) (insert index item c)
  unfolding perform
  insert-Tracks n fetch item order c h =
      let sound = perform-IsSound n true index (insertion item) c h.0 in
      let here = subst (λ (m : ℕ). IsSoundList m c.list) (sym h.0.1) h.0.0 in
      (
        sound,
        insert-get_function index item c ∙ h.1,
        insert-touch index exact item c h.0.2 here
            ∙ ap (λ (m : ℕ). take m (touch (identity item) (identities c.list))) h.0.1
            ∙ ap (λ (t : List Identity). take n (touch (identity item) t)) h.2
            ∙ take-touch n (identity item) order,
      )

  hit-Tracks :
      (n : ℕ) (fetch : Option (Device → Option Device)) (k : Identity) (i : ℕ) (d : Device)
      (order : List Identity) (c : Cache)
      → get_elem? c.list i ≡ some d
      → identity d ≡ k
      → Tracks n fetch order c
      → Tracks n fetch (touch k order) (cache_of index (hit index (get_elem? c.list i) c))
  unfolding hit
  hit-Tracks n fetch k i d order c e same h =
      subst (λ o. Tracks n fetch (touch k order) (cache_of index (hit index o c))) (sym e)
        (subst (λ j. Tracks n fetch (touch j order) (insert index d c)) same
          (insert-Tracks n fetch d order c h))

  fetched-Tracks :
      (n : ℕ) (fetch : Option (Device → Option Device)) (o : Option Device) (order : List Identity)
      (c : Cache)
      → Tracks n fetch order c
      → Tracks n fetch (fetched_order o order) (cache_of index (fetched index o c))
  unfolding fetched
  fetched-Tracks n fetch none order c h = h
  fetched-Tracks n fetch (some item) order c h = insert-Tracks n fetch item order c h

  miss-Tracks :
      (n : ℕ) (fetch f : Option (Device → Option Device)) (key : Device) (order : List Identity)
      (c : Cache)
      → Tracks n fetch order c
      → Tracks n fetch (missed_order f key order) (cache_of index (miss index f f key c))
  unfolding miss
  miss-Tracks n fetch none key order c h = h
  miss-Tracks n fetch (some f) key order c h = fetched-Tracks n fetch (f key) order c h

  get-Tracks :
      (n : ℕ) (fetch : Option (Device → Option Device)) (key : Device) (order : List Identity)
      (c : Cache)
      → Tracks n fetch order c
      → Tracks n fetch (order_after n fetch (searched key) order) (cache_of index (get index key c))
  unfolding order_after get look_up
  get-Tracks n fetch key order c h = elim (Option-cases (index.found key c.list)) [
    | inl e ↦
        let absent : any (same_identity (identity key)) (take n order) ≡ false =
          ap (any (same_identity (identity key))) (sym h.2)
          ∙ any-Lacks (identity key) c.list (index.found_none key c.list e) in
        let missed =
          subst
            (λ f.
              Tracks n fetch (missed_order fetch key order) (cache_of index (miss index f f key c)))
            (sym h.1) (miss-Tracks n fetch fetch key order c h) in
        rw (e, absent) missed
    | inr (i, e) ↦
        let there = exact key c.list i e in
        let present : any (same_identity (identity key)) (take n order) ≡ true =
          ap (any (same_identity (identity key))) (sym h.2)
          ∙ any-found (identity key) c.list i there.0 there.1 there.2 in
        rw (e, present) (hit-Tracks n fetch (identity key) i there.0 order c there.1 there.2 h)
  ]

take_nil : (n : ℕ) → take {A = Identity} n [] ≡ []
take_nil zero = refl
take_nil (suc n) = refl

use_all-Tracks :
    (n : ℕ) (fetch : Option (Device → Option Device)) (uses : List (Index × Use))
    (order : List Identity) (c : Cache)
    → All (λ (u : Index × Use). IsExact u.0) uses
    → Tracks n fetch order c
    → Tracks n fetch (order_of n fetch uses order) (use_all uses c)
unfolding use_all order_of perform_use order_after
use_all-Tracks n fetch [] order c exact h = h
use_all-Tracks n fetch ((index, inserted item) ∷ uses) order c exact h =
    use_all-Tracks n fetch uses (order_after n fetch (inserted item) order) (insert index item c)
      exact.1 (insert-Tracks index exact.0 n fetch item order c h)
use_all-Tracks n fetch ((index, searched key) ∷ uses) order c exact h =
    use_all-Tracks n fetch uses (order_after n fetch (searched key) order)
      (cache_of index (get index key c)) exact.1 (get-Tracks index exact.0 n fetch key order c h)

-- Take a new least-recently-used cache of any capacity with a fetching function, and any sequence of
-- insertions and searches at which no two service paths share a bucket of the unique index. The
-- identities of the devices in the list, in its order, are then the first `capacity` of the order of
-- last uses, which an insertion, a search that finds the device among the first `capacity`, and a
-- search whose fetch gives a device each extend by one use.
pub use_all-order_of :
    (capacity time_life : ℕ) (fetch : Device → Option Device) (uses : List (Index × Use))
    → All (λ (u : Index × Use). IsExact u.0) uses
    → identities (use_all uses (set_function fetch (new_cache capacity true time_life))).list
      ≡ take capacity (order_of capacity (some fetch) uses [])
unfolding new_cache set_function
use_all-order_of capacity time_life fetch uses exact =
    let start : Tracks capacity (some fetch) []
        (set_function fetch (new_cache capacity true time_life)) =
      (((omega arith, tt), refl, refl), refl, sym (take_nil capacity)) in
    (use_all-Tracks capacity (some fetch) uses []
      (set_function fetch (new_cache capacity true time_life)) exact start).2
