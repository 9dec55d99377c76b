-- ===== src/Alarm/Cycle.antt =====
-- src/util/alarm.cc: an alarm from its start to its end.
use fiware_io_tagent_cpluspl.Common.{
  Bytes, codes, bytes_key, str_eq, str_eq_self, false, Option, none, some, [], ◌∷◌, ◌++◌, ◌≡◌, refl,
  ap, ◌∙◌, if◌then◌else◌,
}
use fiware_io_tagent_cpluspl.Common.Int.{ℤ}
use fiware_io_tagent_cpluspl.Common.Map.{
  find, insert, erase, IsOrdered, find-insert, find-insert_fresh, find-insert_present, find-erase,
  insert-IsOrdered,
}
use fiware_io_tagent_cpluspl.Alarm.{
  Alarm, Cause, LogLevel, log_error, log_debug, message, get_key, put_alarm, end_level,
  remove_alarm,
}

module _ (lexical_cast : ℤ → Bytes) where
  abbrev pub put_twice : ℤ → Bytes → Cause → Cause → Alarm → Alarm
  put_twice code endpoint first again a =
      put_alarm lexical_cast code endpoint again (put_alarm lexical_cast code endpoint first a)

  abbrev pub level_of : Alarm → Option LogLevel
  level_of a = elim a.log [ [] ↦ none | entry ∷ log ↦ some entry.0 ]

  -- Among alarms in the order of their keys, none of them for this code and endpoint: an alarm that is
  -- put twice keeps the text of the first time; ending it takes it away and logs an error, and ending
  -- it once more logs only for debugging; and an alarm of any other key is what it was before.
  pub remove_alarm-put_alarm :
      (code : ℤ) (endpoint text other : Bytes) (first again : Cause) (a : Alarm)
      → IsOrdered a.alarms
      → find (get_key lexical_cast code endpoint) a.alarms ≡ none
      → str_eq other (get_key lexical_cast code endpoint) ≡ false
      → let on = put_twice code endpoint first again a in
        let off = remove_alarm lexical_cast code endpoint text on in
        let twice = remove_alarm lexical_cast code endpoint text off in
        (find (get_key lexical_cast code endpoint) on.alarms
          ≡ some (codes " event=ALARM" ++ message lexical_cast code endpoint first))
        × (find (get_key lexical_cast code endpoint) off.alarms ≡ none)
        × (level_of off ≡ some log_error)
        × (level_of twice ≡ some log_debug)
        × (find other off.alarms ≡ find other a.alarms)
  unfolding put_alarm remove_alarm end_level
  remove_alarm-put_alarm code endpoint text other first again a ordered fresh distinct =
      let key = get_key lexical_cast code endpoint in
      let start = codes " event=ALARM" ++ message lexical_cast code endpoint first in
      let next = codes " event=ALARM" ++ message lexical_cast code endpoint again in
      let once = insert key start a.alarms in
      let on = insert key next once in
      let once_ordered = insert-IsOrdered key start a.alarms ordered in
      let on_ordered = insert-IsOrdered key next once once_ordered in
      let kept : find key once ≡ some start =
        find-insert_fresh key key start a.alarms fresh ∙ rw (str_eq_self key) refl in
      let still : find key on ≡ some start = find-insert_present key key next start once kept in
      let gone : find key (erase key on) ≡ none =
        find-erase key key on on_ordered ∙ rw (str_eq_self key) refl in
      let other_off : find other (erase key on) ≡ find other on =
        find-erase key other on on_ordered ∙ rw distinct refl in
      let other_on : find other on ≡ find other once =
        find-insert key other next once
        ∙ ap
            (λ (o : Option Bytes). elim o [
              | none ↦ if str_eq other key then some next else find other once
              | some w ↦ find other once
            ])
            kept in
      let other_once : find other once ≡ find other a.alarms =
        find-insert_fresh key other start a.alarms fresh ∙ rw distinct refl in
      (
        still,
        gone,
        ap (λ (o : Option Bytes). some (end_level lexical_cast o)) still,
        ap (λ (o : Option Bytes). some (end_level lexical_cast o)) gone,
        other_off ∙ other_on ∙ other_once,
      )
