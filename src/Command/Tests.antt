-- ===== src/Command/Tests.antt =====
-- Runs of the constructor for stored commands.
use fiware_io_tagent_cpluspl.Common.{Bytes, codes, [], ◌∷◌, ◌≡◌, refl}
use fiware_io_tagent_cpluspl.Common.Int.{ℤ, pos, negsuc}
use fiware_io_tagent_cpluspl.Common.Outcome.{Outcome, returned, bad_cast, ◌>>=◌}
use fiware_io_tagent_cpluspl.Command.{
  Command, at_least, minus, int_of, limited, check_expired, entity_command, new_command,
  stored_command,
}

abbrev stored : ℤ → ℤ → Outcome (Command Bytes)
stored milliseconds seconds =
    stored_command Bytes (codes "id") (codes "PING") (codes "s") (codes "/") (codes "q") (codes "e")
      (codes "t") [] (pos 100) (codes "2014-01-01T00:00:00")
      (λ timestamp. record { total_milliseconds = milliseconds; total_seconds = seconds })
      (codes "{}")

-- A minute is more milliseconds than the number of the timeout, which stays as it was stored.
expired_after_a_minute :
    (stored (pos 60000) (pos 60) >>= λ c. returned (c.expired ∷ c.timeout ∷ []))
    ≡ returned (pos 1 ∷ pos 100 ∷ [])
unfolding stored_command check_expired at_least limited new_command entity_command
expired_after_a_minute = refl

-- A timestamp in the far future leaves more than an `int` holds.
no_int_left : stored (negsuc 2147483647000) (negsuc 2147483646) ≡ bad_cast
unfolding stored_command check_expired int_of at_least minus limited new_command entity_command
no_int_left = refl
