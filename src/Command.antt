-- ===== src/Command.antt =====
-- src/util/command.cc and src/util/command.h: a command, its constructors and its keys.
mod Tests
use fiware_io_tagent_cpluspl.Common.{
  ℕ, Bytes, codes, str_eq, Bool, true, false, ◌&&◌, Option, none, some, List, [], ◌∷◌, ◌++◌,
  is_empty, if◌then◌else◌, leb, ◌-◌, ◌+◌,
}
use fiware_io_tagent_cpluspl.Common.Int.{ℤ, pos, negsuc}
use fiware_io_tagent_cpluspl.Common.Outcome.{Outcome, returned, bad_cast, ◌>>=◌}
use fiware_io_tagent_cpluspl.Device.{int_min}

abbrev pub int_max : ℤ
int_max = pos 0x7FFFFFFF

-- A command whose tree is a `Tree`.
module _ (Tree : Type 0) where
  pub record Command : Type 0 where
    pub id : Bytes
    pub name : Bytes
    pub service : Bytes
    pub service_path : Bytes
    pub sequence : Bytes
    pub entity : Bytes
    pub entity_type : Bytes
    pub response_uri : Bytes
    pub command : Option Tree
    pub timeout : ℤ
    pub expired : ℤ
    pub status : ℤ

  -- Command::Command(id_entity, service, service_path)
  unfoldable pub entity_command : Bytes → Bytes → Bytes → Command
  entity_command id_entity service service_path = record {
    id = [];
    name = [];
    service = service;
    service_path = service_path;
    sequence = [];
    entity = id_entity;
    entity_type = [];
    response_uri = [];
    command = none;
    timeout = int_min;
    expired = int_min;
    status = int_min;
  }

  -- Command::Command(id_cmd, service, service_path, sequence, id_entity, responseURI, cmd)
  unfoldable pub new_command : Bytes → Bytes → Bytes → Bytes → Bytes → Bytes → Tree → Command
  new_command id_cmd service service_path sequence id_entity response_uri cmd =
      record (entity_command id_entity service service_path) {
        id = id_cmd;
        sequence = sequence;
        response_uri = response_uri;
        command = some cmd;
      }

  -- The time since a timestamp, whole milliseconds and seconds, is Boost's.
  pub record Elapsed : Type 0 where
    pub total_milliseconds : ℤ
    pub total_seconds : ℤ

  unfoldable pub at_least : ℤ → ℤ → Bool
  at_least (pos a) (pos b) = leb b a
  at_least (pos a) (negsuc b) = true
  at_least (negsuc a) (pos b) = false
  at_least (negsuc a) (negsuc b) = leb a b

  -- a - b
  unfoldable pub minus : ℤ → ℤ → ℤ
  minus (pos a) (pos b) = if leb b a then pos (a - b) else negsuc ((b - a) - 1)
  minus (pos a) (negsuc b) = pos (a + b + 1)
  minus (negsuc a) (pos b) = negsuc (a + b)
  minus (negsuc a) (negsuc b) = if leb a b then pos (b - a) else negsuc ((a - b) - 1)

  -- A timeout below 0 is none.
  unfoldable pub limited : ℤ → ℤ
  limited (pos t) = pos t
  limited (negsuc t) = int_min

  -- boost::lexical_cast<int> of a whole number; std::bad_cast is the class of its exception.
  unfoldable pub int_of : ℤ → Outcome ℤ
  int_of n = if at_least int_max n && at_least n int_min then returned n else bad_cast

  -- The test of the timestamp: milliseconds are compared with the timeout, and what is left of it is
  -- computed from the seconds, when it is an `int`.
  unfoldable pub check_expired : Elapsed → Command → Outcome Command
  check_expired diff c =
      if at_least diff.total_milliseconds c.timeout
      then returned (record c { expired = pos 1 })
      else int_of (minus c.timeout diff.total_seconds) >>= λ left.
          returned (record c { timeout = left; expired = pos 0 })

  -- The constructor for stored commands; `elapsed` is the time since its timestamp.
  unfoldable pub stored_command :
      Bytes
      → Bytes
      → Bytes
      → Bytes
      → Bytes
      → Bytes
      → Bytes
      → Bytes
      → ℤ
      → Bytes
      → (Bytes → Elapsed)
      → Tree
      → Outcome Command
  stored_command id_cmd name service service_path sequence id_entity entity_type response_uri
        timeout timestamp elapsed cmd =
      let read : Command =
        record (new_command id_cmd service service_path sequence id_entity response_uri cmd) {
          name = name;
          entity_type = entity_type;
          timeout = limited timeout;
        } in
      let timed : Outcome Command =
        if is_empty timestamp
        then returned (record read { expired = pos 0 })
        else check_expired (elapsed timestamp) read in
      timed >>= λ c. returned (record c { timeout = timeout; status = int_min })

  -- Command::operator==
  unfoldable pub same_command : Command → Command → Bool
  same_command c a = str_eq c.sequence a.sequence && str_eq c.service a.service

  -- Command::unique_entity; `lexical_cast` is Boost's text of a number.
  unfoldable pub unique_command_entity : (ℤ → Bytes) → Command → Bytes
  unique_command_entity lexical_cast c =
      c.service
      ++ (codes ":"
          ++ (c.service_path ++ (codes ":" ++ (c.entity ++ (codes ":" ++ lexical_cast c.status)))))

  -- Command::unique_id
  unfoldable pub unique_id : Command → Bytes
  unique_id c = c.service ++ (codes ":" ++ (c.service_path ++ (codes ":" ++ c.id)))

  -- The setters
  unfoldable pub set_timeout : ℤ → Command → Command
  set_timeout timeout c = record c { timeout = timeout }

  unfoldable pub set_sequence : Bytes → Command → Command
  set_sequence sequence c = record c { sequence = sequence }

  unfoldable pub set_entity : Bytes → Command → Command
  set_entity entity c = record c { entity = entity }

  unfoldable pub set_id : Bytes → Command → Command
  set_id id c = record c { id = id }

  unfoldable pub set_expired : ℤ → Command → Command
  set_expired expired c = record c { expired = expired }

  unfoldable pub set_status : ℤ → Command → Command
  set_status status c = record c { status = status }

  unfoldable pub set_service : Bytes → Command → Command
  set_service service c = record c { service = service }

  unfoldable pub set_service_path : Bytes → Command → Command
  set_service_path service_path c = record c { service_path = service_path }

  unfoldable pub set_entity_type : Bytes → Command → Command
  set_entity_type entity_type c = record c { entity_type = entity_type }

  unfoldable pub set_name : Bytes → Command → Command
  set_name name c = record c { name = name }

  unfoldable pub set_uri_resp : Bytes → Command → Command
  set_uri_resp uri c = record c { response_uri = uri }

  unfoldable pub set_command : Tree → Command → Command
  set_command cmd c = record c { command = some cmd }
