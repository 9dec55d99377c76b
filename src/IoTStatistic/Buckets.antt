-- ===== src/IoTStatistic/Buckets.antt =====
-- src/rest/iot_statistic.cc: how many hours are kept, and what a value changes.
use fiware_io_tagent_cpluspl.Common.{
  ℕ, suc, ◌≤◌, Bytes, bytes_key, nat_key, str_eq_self, ==_self, Bool, true, if-both, Option, none,
  some, Option-cases, inl, inr, List, [], ◌∷◌, ◌≡◌, refl, ap, ◌∙◌, length, drop, if◌then◌else◌, leb,
  arith,
}
use fiware_io_tagent_cpluspl.Common.Map.{
  Assoc, find, insert, put, IsOrdered, find-put, find-insert_fresh, find-drop_first,
  drop_first-IsOrdered, length-insert, length-put, put-IsOrdered, insert-IsOrdered,
}
use fiware_io_tagent_cpluspl.IoTStatistic.{
  IoTStatistic, new_statistic, set_enable, acc_time, reset, change_found, change_name, change_hour,
  change_at, add, subscript,
}

module _ {A V : Type 0} (empty : A) (feed : A → V → A) where
  length-drop_first : (m : Assoc ℕ (Assoc Bytes A)) → length m ≤ 24 → suc (length (drop 1 m)) ≤ 24
  length-drop_first [] h = omega arith
  length-drop_first (x ∷ m) h = h

  -- At most 24 hours, in their order.
  abbrev pub IsBounded : IoTStatistic empty feed → Type 0
  IsBounded s = (length s.accumulators ≤ 24) × IsOrdered s.accumulators

  reset-hours :
      (s : IoTStatistic empty feed)
      → IsBounded s
      → (suc (length (reset empty feed s).accumulators) ≤ 24)
        × IsOrdered (reset empty feed s).accumulators
  unfolding reset
  reset-hours s h =
      if-both
        (λ (t : IoTStatistic empty feed).
          (suc (length t.accumulators) ≤ 24) × IsOrdered t.accumulators)
        (leb 24 (length s.accumulators)) (record s { accumulators = drop 1 s.accumulators }) s
        (λ full. (length-drop_first s.accumulators h.0, drop_first-IsOrdered s.accumulators h.1))
        (λ room. (ground (arith, room), h.1))

  change_hour-IsBounded :
      (hour : ℕ) (acc_name : Bytes) (change : A → A) (s : IoTStatistic empty feed)
      → IsBounded s
      → IsBounded (change_hour empty feed hour acc_name change (find hour s.accumulators) s)
  unfolding change_hour
  change_hour-IsBounded hour acc_name change s h = elim (Option-cases (find hour s.accumulators)) [
    | inl e ↦ rw e (
        let cut = reset-hours s h in
        (
          omega (
            arith,
            length-insert hour ((acc_name, change empty) ∷ []) (reset empty feed s).accumulators,
            cut.0,
          ),
          insert-IsOrdered hour ((acc_name, change empty) ∷ []) (reset empty feed s).accumulators
              cut.1,
        ))
    | inr (accs, e) ↦ rw e (
      omega (
        arith,
        h.0,
        length-put hour (change_name empty feed acc_name change accs) accs s.accumulators e,
      ),
      put-IsOrdered hour (change_name empty feed acc_name change accs) s.accumulators h.1,
    )
  ]

  change_at-IsBounded :
      (to : ℕ) (acc_name : Bytes) (change : A → A) (s : IoTStatistic empty feed)
      → IsBounded s
      → IsBounded (change_at empty feed to acc_name change s)
  unfolding change_at
  change_at-IsBounded to acc_name change s h =
      if-both IsBounded s.enabled
        (change_hour empty feed (acc_time empty feed to) acc_name change
          (find (acc_time empty feed to) s.accumulators) s)
        s (λ on. change_hour-IsBounded (acc_time empty feed to) acc_name change s h) (λ off. h)

  -- The calls of a statistic, each with its time.
  pub data Call : Type 0 where
    addition : ℕ → Bytes → V → Call
    access : ℕ → Bytes → Call
    enabling : Bool → Call

  unfoldable pub perform : Call → IoTStatistic empty feed → IoTStatistic empty feed
  perform (addition to acc_name value) s = add empty feed to acc_name value s
  perform (access to acc_name) s = (subscript empty feed to acc_name s).1
  perform (enabling on) s = set_enable empty feed on s

  unfoldable pub run : List Call → IoTStatistic empty feed → IoTStatistic empty feed
  run [] s = s
  run (call ∷ calls) s = run calls (perform call s)

  run-IsBounded :
      (calls : List Call) (s : IoTStatistic empty feed) → IsBounded s → IsBounded (run calls s)
  unfolding run perform add subscript set_enable
  run-IsBounded [] s h = h
  run-IsBounded (addition to acc_name value ∷ calls) s h =
      run-IsBounded calls (change_at empty feed to acc_name (λ acc. feed acc value) s)
        (change_at-IsBounded to acc_name (λ acc. feed acc value) s h)
  run-IsBounded (access to acc_name ∷ calls) s h =
      run-IsBounded calls (change_at empty feed to acc_name (λ acc. acc) s)
        (change_at-IsBounded to acc_name (λ acc. acc) s h)
  run-IsBounded (enabling on ∷ calls) s h = run-IsBounded calls (record s { enabled = on }) h

  -- From a new statistic, any sequence of additions, accesses and settings, at any times, leaves the
  -- counters of at most 24 hours, in the order of the hours and each once.
  pub run-new_statistic :
      (name : Bytes) (calls : List Call) → IsBounded (run calls (new_statistic empty feed name))
  unfolding new_statistic
  run-new_statistic name calls =
      run-IsBounded calls (new_statistic empty feed name) (omega arith, tt)

  -- The accumulator of a name in an hour.
  abbrev pub counter_in : Bytes → Option (Assoc Bytes A) → Option A
  counter_in acc_name none = none
  counter_in acc_name (some accs) = find acc_name accs

  abbrev pub counter : ℕ → Bytes → IoTStatistic empty feed → Option A
  counter hour acc_name s = counter_in acc_name (find hour s.accumulators)

  -- What it has before any value: a new accumulator.
  abbrev pub value_or_empty : Option A → A
  value_or_empty none = empty
  value_or_empty (some acc) = acc

  find-change_found :
      (acc_name : Bytes) (change : A → A) (o : Option A) (accs : Assoc Bytes A)
      → find acc_name accs ≡ o
      → find acc_name (change_found empty feed acc_name change o accs)
        ≡ some (change (value_or_empty o))
  unfolding change_found
  find-change_found acc_name change none accs e =
      find-insert_fresh acc_name acc_name (change empty) accs e ∙ rw (str_eq_self acc_name) refl
  find-change_found acc_name change (some acc) accs e =
      find-put acc_name acc_name (change acc) accs ∙ rw (str_eq_self acc_name) refl

  find_single : (acc_name : Bytes) (acc : A) → find acc_name ((acc_name, acc) ∷ []) ≡ some acc
  unfolding find
  find_single acc_name acc = rw (str_eq_self acc_name) refl

  find-reset :
      (hour : ℕ) (s : IoTStatistic empty feed)
      → IsOrdered s.accumulators
      → find hour s.accumulators ≡ none
      → find hour (reset empty feed s).accumulators ≡ none
  unfolding reset
  find-reset hour s h e =
      if-both (λ (t : IoTStatistic empty feed). find hour t.accumulators ≡ none)
        (leb 24 (length s.accumulators)) (record s { accumulators = drop 1 s.accumulators }) s
        (λ full. find-drop_first hour s.accumulators h e) (λ room. e)

  counter-change_hour :
      (hour : ℕ) (acc_name : Bytes) (change : A → A) (o : Option (Assoc Bytes A))
      (s : IoTStatistic empty feed)
      → IsOrdered s.accumulators
      → find hour s.accumulators ≡ o
      → counter hour acc_name (change_hour empty feed hour acc_name change o s)
        ≡ some (change (value_or_empty (counter_in acc_name o)))
  unfolding change_hour change_name
  counter-change_hour hour acc_name change (some accs) s h e =
      let changed = change_found empty feed acc_name change (find acc_name accs) accs in
      let stored : find hour (put hour changed s.accumulators) ≡ some changed =
        find-put hour hour changed s.accumulators ∙ rw (==_self hour) refl in
      ap (counter_in acc_name) stored
      ∙ find-change_found acc_name change (find acc_name accs) accs refl
  counter-change_hour hour acc_name change none s h e =
      let accs : Assoc Bytes A = (acc_name, change empty) ∷ [] in
      let cut = (reset empty feed s).accumulators in
      let stored : find hour (insert hour accs cut) ≡ some accs =
        find-insert_fresh hour hour accs cut (find-reset hour s h e) ∙ rw (==_self hour) refl in
      ap (counter_in acc_name) stored ∙ find_single acc_name (change empty)

  -- While a statistic is enabled and its hours are at most 24 and in order, adding a value feeds it
  -- to the accumulator of its name in the hour of the time: to the one that was there, or to a new
  -- one, also when an earlier hour is dropped for it.
  pub counter-add :
      (to : ℕ) (acc_name : Bytes) (value : V) (s : IoTStatistic empty feed)
      → IsBounded s
      → s.enabled ≡ true
      → counter (acc_time empty feed to) acc_name (add empty feed to acc_name value s)
        ≡ some (feed (value_or_empty (counter (acc_time empty feed to) acc_name s)) value)
  unfolding add change_at
  counter-add to acc_name value s h on =
      let hour = acc_time empty feed to in
      let change : A → A = λ acc. feed acc value in
      let changed = change_hour empty feed hour acc_name change (find hour s.accumulators) s in
      ap (λ (b : Bool). counter hour acc_name (if b then changed else s)) on
      ∙ counter-change_hour hour acc_name change (find hour s.accumulators) s h.1 refl
