-- ===== src/IoTStatistic.antt =====
-- src/rest/iot_statistic.cc: the counters of the agent, by the hour and by name.
pub mod Buckets
mod Tests
use fiware_io_tagent_cpluspl.Common.{
  ℕ, zero, suc, ◌*◌, ◌/◌, Bytes, bytes_key, nat_key, Bool, true, false, Option, none, some, List,
  [], ◌∷◌, length, drop, if◌then◌else◌, leb,
}
use fiware_io_tagent_cpluspl.Common.Map.{Assoc, find, insert, put}

-- The accumulators are Boost's: `empty` is a new one, and `feed` gives one a value.
module _ {A V : Type 0} (empty : A) (feed : A → V → A) where
  pub record IoTStatistic : Type 0 where
    pub name : Bytes
    pub enabled : Bool
    pub accumulators : Assoc ℕ (Assoc Bytes A)

  -- IoTStatistic::IoTStatistic
  unfoldable pub new_statistic : Bytes → IoTStatistic
  new_statistic name = record { name = name; enabled = true; accumulators = [] }

  -- IoTStatistic::set_enable
  unfoldable pub set_enable : Bool → IoTStatistic → IoTStatistic
  set_enable enabled s = record s { enabled = enabled }

  -- The second at which the hour of a time begins.
  unfoldable pub acc_time : ℕ → ℕ
  acc_time to = to / 3600 * 3600

  -- IoTStatistic::reset: the earliest hour goes when there are 24.
  unfoldable pub reset : IoTStatistic → IoTStatistic
  reset s =
      if leb 24 (length s.accumulators)
      then record s { accumulators = drop 1 s.accumulators }
      else s

  -- The accumulator of a name in the counters of an hour, after `change`: the one found, or a new one.
  unfoldable pub change_found : Bytes → (A → A) → Option A → Assoc Bytes A → Assoc Bytes A
  change_found acc_name change (some acc) accs = put acc_name (change acc) accs
  change_found acc_name change none accs = insert acc_name (change empty) accs

  unfoldable pub change_name : Bytes → (A → A) → Assoc Bytes A → Assoc Bytes A
  change_name acc_name change accs = change_found acc_name change (find acc_name accs) accs

  unfoldable pub change_hour :
      ℕ → Bytes → (A → A) → Option (Assoc Bytes A) → IoTStatistic → IoTStatistic
  change_hour hour acc_name change (some accs) s = record s {
    accumulators = put hour (change_name acc_name change accs) s.accumulators;
  }
  change_hour hour acc_name change none s =
      let cut = reset s in
      record cut { accumulators = insert hour ((acc_name, change empty) ∷ []) cut.accumulators }

  unfoldable pub change_at : ℕ → Bytes → (A → A) → IoTStatistic → IoTStatistic
  change_at to acc_name change s =
      if s.enabled
      then change_hour (acc_time to) acc_name change (find (acc_time to) s.accumulators) s
      else s

  -- IoTStatistic::add, at the time `to`
  unfoldable pub add : ℕ → Bytes → V → IoTStatistic → IoTStatistic
  add to acc_name value s = change_at to acc_name (λ acc. feed acc value) s

  -- IoTStatistic::operator[], at the time `to`: where the accumulator is that the pointer points at,
  -- which is made when it is not there.
  unfoldable pub subscript : ℕ → Bytes → IoTStatistic → Option (ℕ × Bytes) × IoTStatistic
  subscript to acc_name s = (
    if s.enabled then some (acc_time to, acc_name) else none,
    change_at to acc_name (λ acc. acc) s,
  )
