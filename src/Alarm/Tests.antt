-- ===== src/Alarm/Tests.antt =====
-- Runs of the alarms, and an instance of their theorem.
use fiware_io_tagent_cpluspl.Common.{
  ◌+◌, ◌/◌, ◌%◌, ltb, if◌then◌else◌, Bytes, codes, bytes_key, str_eq, str_below, none, some, [],
  ◌∷◌, ◌++◌, ◌≡◌, refl,
}
use fiware_io_tagent_cpluspl.Common.Int.{ℤ, pos, negsuc}
use fiware_io_tagent_cpluspl.Common.Map.{find}
use fiware_io_tagent_cpluspl.Alarm.{
  Alarm, plain, log_error, log_debug, message, get_key, remove_alarm,
}
use fiware_io_tagent_cpluspl.Alarm.Cycle.{put_twice, level_of, remove_alarm-put_alarm}

-- The text of the numbers that the runs use.
abbrev digit_text : ℤ → Bytes
digit_text (pos n) = (48 + n) ∷ []
digit_text (negsuc n) = 45 ∷ (49 + n) ∷ []

abbrev quiet : Alarm
quiet = record { alarms = (codes "3y", codes "old") ∷ []; log = [] }

abbrev two_digit_text : ℤ → Bytes
two_digit_text (pos n) = if ltb n 10 then (48 + n) ∷ [] else (48 + n / 10) ∷ (48 + n % 10) ∷ []
two_digit_text (negsuc n) = []

-- The keys of two alarms may be the same.
get_key_test :
    get_key two_digit_text (pos 1) (codes "2x") ≡ get_key two_digit_text (pos 12) (codes "x")
unfolding get_key
get_key_test = refl

remove_alarm-put_alarm_example :
    let on =
      put_twice digit_text (pos 1) (codes "x") (plain (codes "a")) (plain (codes "b")) quiet in
    let off = remove_alarm digit_text (pos 1) (codes "x") (codes "end") on in
    let twice = remove_alarm digit_text (pos 1) (codes "x") (codes "end") off in
    (find (get_key digit_text (pos 1) (codes "x")) on.alarms
      ≡ some (codes " event=ALARM" ++ message digit_text (pos 1) (codes "x") (plain (codes "a"))))
    × (find (get_key digit_text (pos 1) (codes "x")) off.alarms ≡ none)
    × (level_of digit_text off ≡ some log_error)
    × (level_of digit_text twice ≡ some log_debug)
    × (find (codes "3y") off.alarms ≡ find (codes "3y") quiet.alarms)
unfolding get_key find str_eq str_below
remove_alarm-put_alarm_example =
    remove_alarm-put_alarm digit_text (pos 1) (codes "x") (codes "end") (codes "3y")
      (plain (codes "a")) (plain (codes "b")) quiet (tt, tt) refl refl
