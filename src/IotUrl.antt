-- ===== src/IotUrl.antt =====
-- src/util/iot_url.cc and src/util/iot_url.h: the parts of a URL.
pub mod Parts
pub mod Refusal
mod Tests
use fiware_io_tagent_cpluspl.Common.{
  ℕ, zero, suc, ◌-◌, Bytes, codes, str_eq, Bool, true, false, ◌==◌, Option, none, some, [], ◌∷◌,
  ◌++◌, length, take, is_empty, if◌then◌else◌, ltb,
}
use fiware_io_tagent_cpluspl.Common.Int.{ℤ, pos, negsuc}
use fiware_io_tagent_cpluspl.Common.Outcome.{invalid_parameter, Outcome, returned, iota_exception}

pub record IotUrl : Type 0 where
  pub protocol : Bytes
  pub host : Bytes
  pub port : ℤ
  pub path : Bytes
  pub query : Bytes

-- The parts of a text before and after the first of a character.
unfoldable pub cut : ℕ → Bytes → Option (Bytes × Bytes)
cut c [] = none
cut c (d ∷ text) =
    let rest = cut c text in
    if d == c
    then some ([], text)
    else (elim rest [ none ↦ none | some (before, after) ↦ some (d ∷ before, after) ])

-- What follows `://` at the front of a text.
unfoldable pub after_delimiter : Bytes → Option Bytes
after_delimiter (a ∷ b ∷ c ∷ rest) =
    if a == 58 then if b == 47 then if c == 47 then some rest else none else none else none
after_delimiter _ = none

unfoldable pub shift : ℕ → Option (Bytes × Bytes) → Option (Bytes × Bytes)
shift d none = none
shift d (some (before, after)) = some (d ∷ before, after)

unfoldable pub protocol_cut : Option Bytes → ℕ → Option (Bytes × Bytes) → Option (Bytes × Bytes)
protocol_cut (some rest) d later = some ([], rest)
protocol_cut none d later = shift d later

-- The parts of a text before and after the first `://`.
unfoldable pub cut_delimiter : Bytes → Option (Bytes × Bytes)
cut_delimiter [] = none
cut_delimiter (d ∷ text) = protocol_cut (after_delimiter (d ∷ text)) d (cut_delimiter text)

-- The part of the URL with the host and the port, the path and the query.
pub record Places : Type 0 where
  pub hp : Bytes
  pub path : Bytes
  pub query : Bytes

-- By the first `/` and the first `?` after the protocol. The length of a path whose `/` stands behind
-- the `?` wraps around, so that the path goes to the end.
unfoldable pub places : Bytes → Option (Bytes × Bytes) → Option (Bytes × Bytes) → Places
places rest none none = record { hp = rest; path = []; query = [] }
places rest none (some (before, query)) = record { hp = before; path = []; query = query }
places rest (some (hp, after)) none = record { hp = hp; path = 47 ∷ after; query = [] }
places rest (some (hp, after)) (some (before, query)) = record {
  hp = hp;
  path =
      if ltb (length before) (length hp)
      then 47 ∷ after
      else take (length before - length hp) (47 ∷ after);
  query = query;
}

-- `atoi` is that of the C library.
unfoldable pub port_of : (Bytes → ℤ) → Option (Bytes × Bytes) → ℤ
port_of atoi none = negsuc 0
port_of atoi (some (host, text)) = atoi text

unfoldable pub host_of : Bytes → Option (Bytes × Bytes) → Bytes
host_of hp none = hp
host_of hp (some (host, text)) = host

-- A port of -1 is the one of the protocol, for HTTP and HTTPS.
unfoldable pub default_port : Bytes → ℤ → ℤ
default_port protocol (negsuc zero) =
    if str_eq protocol (codes "http")
    then pos 80
    else if str_eq protocol (codes "https")
    then pos 443
    else negsuc 0
default_port protocol port = port

unfoldable pub default_path : Bytes → Bytes
default_path path = if is_empty path then codes "/" else path

unfoldable pub url_of : (Bytes → ℤ) → Bytes → Places → IotUrl
url_of atoi protocol p =
    let port = cut 58 p.hp in
    record {
      protocol = protocol;
      host = host_of p.hp port;
      port = default_port protocol (port_of atoi port);
      path = default_path p.path;
      query = p.query;
    }

-- Without a protocol the host is looked for at the position npos, and that throws.
unfoldable pub parse : (Bytes → ℤ) → Bytes → Option (Bytes × Bytes) → Outcome IotUrl
parse atoi url none =
    iota_exception (invalid_parameter ++ (codes "[" ++ (url ++ codes "]")))
      (url ++ codes " is not a correct uri") 400
parse atoi url (some (protocol, rest)) =
    returned (url_of atoi protocol (places rest (cut 47 rest) (cut 63 rest)))

-- IoTUrl::IoTUrl
unfoldable pub new_iot_url : (Bytes → ℤ) → Bytes → Outcome IotUrl
new_iot_url atoi url =
    if is_empty url
    then iota_exception (invalid_parameter ++ codes "[ empty url ]") (codes "empty url") 400
    else parse atoi url (cut_delimiter url)

-- IoTUrl::getSSL
unfoldable pub get_ssl : IotUrl → Bool
get_ssl url = str_eq url.protocol (codes "https")
