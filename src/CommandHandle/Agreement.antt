-- ===== src/CommandHandle/Agreement.antt =====
-- src/rest/command_handle.cc: what the context broker was told last of a command, and the cache.
use fiware_io_tagent_cpluspl.Common.{
  Bytes, str_eq, Bool, true, false, ◌||◌, ◌&&◌, not, Option, none, some, List, [], ◌∷◌, ◌≡◌, ◌≢◌,
  ◌⊎◌, is_empty,
}
use fiware_io_tagent_cpluspl.Common.Outcome.{Outcome, returned}
use fiware_io_tagent_cpluspl.Device.{Device}
use fiware_io_tagent_cpluspl.CommandHandle.{
  Effect, publish, save, remove, mark_delivered, CommandData, Execution, interrupted, pending,
  delivered,
}

-- The status that was published last.
abbrev pub last_status : List Effect → Option Bytes → Option Bytes
last_status [] last = last
last_status (publish name status info ∷ effects) last = last_status effects (some status)
last_status (save id name body endpoint ∷ effects) last = last_status effects last
last_status (remove id ∷ effects) last = last_status effects last
last_status (mark_delivered id ∷ effects) last = last_status effects last

-- Whether the command is in the cache.
abbrev pub in_cache : Bytes → List Effect → Bool → Bool
in_cache id [] there = there
in_cache id (publish name status info ∷ effects) there = in_cache id effects there
in_cache id (save other name body endpoint ∷ effects) there =
    in_cache id effects (str_eq other id || there)
in_cache id (remove other ∷ effects) there = in_cache id effects (not (str_eq other id) && there)
in_cache id (mark_delivered other ∷ effects) there = in_cache id effects there

-- A status after which the response of the device is still to come.
abbrev pub is_open : Option Bytes → Bool
is_open none = false
is_open (some status) = str_eq status pending || str_eq status delivered

abbrev pub Agrees : Bytes → List Effect → Type 0
Agrees id effects = in_cache id effects false ≡ is_open (last_status effects none)

-- After the command is published as pending and saved.
abbrev AgreesAfter : CommandData → List Effect → Type 0
AgreesAfter c effects =
    in_cache c.command_id effects true ≡ is_open (last_status effects (some pending))

-- No exception cut the handling of a response short.
abbrev pub IsWhole : Execution → Type 0
IsWhole (interrupted calls res_code resp_cmd) = ⊥
IsWhole execution = Unit

-- How a call ends whose line was made with `line`: it returns, and the command of the line is in the
-- cache just when its last status is open; or it throws, and no command is in the cache.
abbrev pub IsSettled : Outcome (Bytes × Bytes) → Outcome (Unit {0}) × List Effect → Type 0
IsSettled line (outcome, effects) =
    ((outcome ≡ returned tt)
      × ((id : Bytes) × (body : Bytes) × (line ≡ returned (id, body))
          × (is_empty id ≡ false)
          × Agrees id effects))
    ⊎ ((outcome ≢ returned tt) × ((id : Bytes) → in_cache id effects false ≡ false))
