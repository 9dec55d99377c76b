-- ===== src/Alarm.antt =====
-- src/util/alarm.cc: the alarms that are on, by code and endpoint, and what is logged of them.
pub mod Cycle
mod Tests
use fiware_io_tagent_cpluspl.Common.{
  ℕ, Bytes, codes, bytes_key, Bool, true, false, Option, none, some, List, [], ◌∷◌, ◌++◌, length,
}
use fiware_io_tagent_cpluspl.Common.Int.{ℤ}
use fiware_io_tagent_cpluspl.Common.Map.{Assoc, find, insert, erase}

pub data LogLevel : Type 0 where
  log_error : LogLevel
  log_debug : LogLevel

-- `log` is what has been logged, the latest first.
pub record Alarm : Type 0 where
  pub alarms : Assoc Bytes Bytes
  pub log : List (LogLevel × Bytes)

-- What an alarm is put with: the text, and for a request its content and the two fields of the tree,
-- each with its default where the tree has none.
pub data Cause : Type 0 where
  plain : Bytes → Cause
  with_content : Bytes → Bytes → Bytes → Bytes → Cause

-- `lexical_cast` is Boost's text of a number.
module _ (lexical_cast : ℤ → Bytes) where
  -- The two functions Alarm::message
  unfoldable pub message : ℤ → Bytes → Cause → Bytes
  message code endpoint (plain text) =
      codes " code="
      ++ (lexical_cast code ++ (codes " to=" ++ (endpoint ++ (codes " info=" ++ text))))
  message code endpoint (with_content content service service_path text) =
      codes " code="
      ++ (lexical_cast code
          ++ (codes " to="
              ++ (endpoint
                  ++ (codes " service="
                      ++ (service
                          ++ (codes " service_path="
                              ++ (service_path
                                  ++ (codes " content="
                                      ++ (content ++ (codes " info=" ++ text))))))))))

  -- Alarm::get_key
  unfoldable pub get_key : ℤ → Bytes → Bytes
  get_key code endpoint = lexical_cast code ++ endpoint

  -- The two functions Alarm::put: an alarm that is on keeps its first text.
  unfoldable pub put_alarm : ℤ → Bytes → Cause → Alarm → Alarm
  put_alarm code endpoint cause a =
      let error_str = codes " event=ALARM" ++ message code endpoint cause in
      record a {
        log = (log_error, error_str) ∷ a.log;
        alarms = insert (get_key code endpoint) error_str a.alarms;
      }

  -- The level of the log is by whether the map had the key.
  unfoldable pub end_level : Option Bytes → LogLevel
  end_level none = log_debug
  end_level (some text) = log_error

  -- Alarm::remove
  unfoldable pub remove_alarm : ℤ → Bytes → Bytes → Alarm → Alarm
  remove_alarm code endpoint text a =
      let error_str = codes " event=END-ALARM" ++ message code endpoint (plain text) in
      let level = end_level (find (get_key code endpoint) a.alarms) in
      record a { alarms = erase (get_key code endpoint) a.alarms; log = (level, error_str) ∷ a.log }

-- Alarm::reset
unfoldable pub reset_alarms : Alarm → Alarm
reset_alarms a = record a { alarms = [] }

-- Alarm::size
unfoldable pub alarm_count : Alarm → ℕ
alarm_count a = length a.alarms

-- Alarm::get_last reads the first alarm; without one it reads beyond the map.
unfoldable pub get_last : Alarm → Option Bytes
get_last a = elim a.alarms [ [] ↦ none | (key, text) ∷ alarms ↦ some text ]
