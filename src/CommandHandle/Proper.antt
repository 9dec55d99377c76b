-- ===== src/CommandHandle/Proper.antt =====
-- src/rest/command_handle.cc: updateCommand with the handler's own transform_command always ends.
use fiware_io_tagent_cpluspl.Common.{
  ℕ, Bytes, str_eq, bytes_key, ◌||◌, some, List, inl, inr, is_empty, if-both, Bool-cases,
  Option-cases, arith,
}
use fiware_io_tagent_cpluspl.Common.Map.{find}
use fiware_io_tagent_cpluspl.Common.Outcome.{
  Outcome, returned, iota_exception, runtime_error, bad_cast, undefined, out_of_fuel,
}
use fiware_io_tagent_cpluspl.Device.{Device}
use fiware_io_tagent_cpluspl.CommandHandle.{
  Calls, raw, command_body, transform_command, Effect, Execution, saved_then, run_command,
  with_line, get_command_line, update_command,
}
use fiware_io_tagent_cpluspl.CommandHandle.Template.{transform_command-IsFilled}
use fiware_io_tagent_cpluspl.CommandHandle.Update.{Handler}
use fiware_io_tagent_cpluspl.CommandHandle.Answers.{IsProper}

transform_command-IsProper :
    (lib : Calls) (value update sequence : Bytes)
    → IsProper (transform_command lib value update sequence)
transform_command-IsProper lib value update sequence =
    elim (Bool-cases (is_empty value || str_eq value raw)) [
      | inl plain ↦ unfold transform_command command_body in rw plain tt
      | inr other ↦
          elim (transform_command-IsFilled lib value update sequence (ground (arith, other))
            (ground (arith, other))) [
              | inl (few, e) ↦ rw e (omega arith)
              | inr (first, parts, whole, free, sizes, e) ↦ rw e tt
            ]
    ]

get_command_line-IsProper :
    (transform : Bytes → Bytes → Bytes → Bytes → Device → Outcome (Bytes × Bytes))
    (name parameters sequence : Bytes) (dev : Device)
    → ((value : Bytes) → IsProper (transform name value parameters sequence dev))
    → IsProper (get_command_line transform name parameters sequence (some dev))
unfolding get_command_line
get_command_line-IsProper transform name parameters sequence dev each =
    if-both IsProper (is_empty name) _ _ (λ _. omega arith)
      (λ _. elim (Option-cases (find name dev.commands)) [
        | inl missing ↦ rw missing (omega arith)
        | inr (value, found) ↦ rw found (each value)
      ])

with_line-IsProper :
    (updated : ℕ) (execution : Execution) (name : Bytes) (dev : Device)
    (line : Outcome (Bytes × Bytes))
    → IsProper line
    → IsProper (with_line updated execution name dev line).0
unfolding with_line run_command saved_then
with_line-IsProper updated execution name dev (returned (id, body)) ok =
    if-both (λ (end : Outcome (Unit {0}) × List Effect). IsProper end.0) (is_empty id) _ _
      (λ _. omega arith) (λ _. tt)
with_line-IsProper updated execution name dev (iota_exception reason details status) ok = ok
with_line-IsProper updated execution name dev (runtime_error what) ok = tt
with_line-IsProper updated execution name dev bad_cast ok = tt
with_line-IsProper updated execution name dev undefined ok = absurd ok
with_line-IsProper updated execution name dev out_of_fuel ok = absurd ok

-- The handler of a request with a sequence, for responses that come at once.
abbrev pub own_handler : Calls → ℕ → Execution → Bytes → Handler
own_handler lib updated execution sequence name value dev entity_type =
    update_command (λ n v u s d. transform_command lib v u s) updated execution name value sequence
      dev

pub own_handler-IsProper :
    (lib : Calls) (updated : ℕ) (execution : Execution) (sequence name value : Bytes) (dev : Device)
    (entity_type : Bytes)
    → IsProper (own_handler lib updated execution sequence name value dev entity_type).0
unfolding update_command
own_handler-IsProper lib updated execution sequence name value dev entity_type =
    with_line-IsProper updated execution name dev _ (
      get_command_line-IsProper (λ n v u s d. transform_command lib v u s) name value sequence dev
        (λ v. transform_command-IsProper lib v value sequence))
