-- ===== src/IotUrl/Parts.antt =====
-- src/util/iot_url.cc: the parts that a URL was written from, and what every parsed URL has.
use mathlib.Core.List.{append_assoc}
use fiware_io_tagent_cpluspl.Common.{
  Avoids, append_nil, ℕ, ◌-◌, Bytes, codes, str_eq, false, Option, none, some, [], ◌∷◌, ◌++◌, ◌≡◌,
  ◌≢◌, refl, sym, ap, ◌∙◌, All-append, length, length-append, take, take-append_left, is_empty,
  if◌then◌else◌, ltb, arith,
}
use fiware_io_tagent_cpluspl.Common.Int.{ℤ, pos, negsuc}
use fiware_io_tagent_cpluspl.Common.Outcome.{returned}
use fiware_io_tagent_cpluspl.IotUrl.{
  cut, after_delimiter, shift, protocol_cut, cut_delimiter, places, port_of, host_of, default_port,
  default_path, url_of, parse, new_iot_url,
}

pub cut-absent : (c : ℕ) (text : Bytes) → Avoids c text → cut c text ≡ none
unfolding cut
cut-absent c [] h = refl
cut-absent c (d ∷ text) h = ground (arith, h.0, cut-absent c text h.1)

pub cut-first :
    (c : ℕ) (before after : Bytes)
    → Avoids c before
    → cut c (before ++ (c ∷ after)) ≡ some (before, after)
unfolding cut
cut-first c [] after h = ground arith
cut-first c (d ∷ before) after h = ground (arith, h.0, cut-first c before after h.1)

after_delimiter-other : (d : ℕ) (text : Bytes) → d ≢ 58 → after_delimiter (d ∷ text) ≡ none
unfolding after_delimiter
after_delimiter-other d [] h = refl
after_delimiter-other d (e ∷ []) h = refl
after_delimiter-other d (e ∷ f ∷ text) h = ground (arith, h)

cut_delimiter-first :
    (protocol rest : Bytes)
    → Avoids 58 protocol
    → cut_delimiter (protocol ++ (codes "://" ++ rest)) ≡ some (protocol, rest)
unfolding cut_delimiter protocol_cut shift after_delimiter
cut_delimiter-first [] rest h = refl
cut_delimiter-first (d ∷ protocol) rest h =
    rw
      (
        after_delimiter-other d (protocol ++ (codes "://" ++ rest)) h.0,
        cut_delimiter-first protocol rest h.1,
      )
      refl

-- A port is its text and the number that it stands for.
abbrev pub Port : Type 0
Port = Option (Bytes × ℕ)

abbrev pub port_text : Option (Bytes × ℕ) → Bytes
port_text none = []
port_text (some (text, n)) = 58 ∷ text

abbrev pub path_text : Option Bytes → Bytes
path_text none = []
path_text (some path) = 47 ∷ path

abbrev pub query_text : Option Bytes → Bytes
query_text none = []
query_text (some query) = 63 ∷ query

-- A URL with its parts: protocol://host[:port][/path][?query].
abbrev pub url_text : Bytes → Bytes → Option (Bytes × ℕ) → Option Bytes → Option Bytes → Bytes
url_text protocol host port path query =
    protocol ++ (codes "://" ++ ((host ++ port_text port) ++ (path_text path ++ query_text query)))

abbrev pub port_number : Bytes → Option (Bytes × ℕ) → ℤ
port_number protocol none =
    if str_eq protocol (codes "http")
    then pos 80
    else if str_eq protocol (codes "https")
    then pos 443
    else negsuc 0
port_number protocol (some (text, n)) = pos n

abbrev pub IsPort : (Bytes → ℤ) → Option (Bytes × ℕ) → Type 0
IsPort atoi none = Unit
IsPort atoi (some (text, n)) = Avoids 47 text × Avoids 63 text × (atoi text ≡ pos n)

-- Without a path, a `/` in the query is taken for one.
abbrev pub IsTail : Option Bytes → Option Bytes → Type 0
IsTail none none = Unit
IsTail none (some query) = Avoids 47 query
IsTail (some path) query = Avoids 63 path

abbrev pub path_of : Option Bytes → Bytes
path_of none = codes "/"
path_of (some path) = 47 ∷ path

abbrev pub query_of : Option Bytes → Bytes
query_of none = []
query_of (some query) = query

-- The path between the first `/` and the first `?`.
path_between :
    (hp path query : Bytes)
    → (if ltb (length (hp ++ (47 ∷ path))) (length hp)
        then 47 ∷ (path ++ (63 ∷ query))
        else take (length (hp ++ (47 ∷ path)) - length hp) (47 ∷ (path ++ (63 ∷ query))))
      ≡ 47 ∷ path
path_between hp path query =
    let longer : ltb (length (hp ++ (47 ∷ path))) (length hp) ≡ false =
      ground (arith, length-append hp (47 ∷ path)) in
    rw longer (
      take-append_left (length (hp ++ (47 ∷ path)) - length hp) (47 ∷ path) (63 ∷ query)
        (omega (arith, length-append hp (47 ∷ path))))

cut_mark :
    (hp path query : Bytes)
    → Avoids 63 hp
    → Avoids 63 path
    → cut 63 (hp ++ (47 ∷ (path ++ (63 ∷ query)))) ≡ some (hp ++ (47 ∷ path), query)
cut_mark hp path query h k =
    ap (cut 63) (sym (append_assoc hp (47 ∷ path) (63 ∷ query)))
    ∙ cut-first 63 (hp ++ (47 ∷ path)) query
        (All-append (λ (d : ℕ). d ≢ 63) hp (47 ∷ path) h (λ e. absurd (omega (arith, e)), k))

places-of_tail :
    (hp : Bytes) (path query : Option Bytes)
    → Avoids 47 hp
    → Avoids 63 hp
    → IsTail path query
    → let rest = hp ++ (path_text path ++ query_text query) in
      places rest (cut 47 rest) (cut 63 rest)
      ≡ record { hp = hp; path = path_text path; query = query_of query }
unfolding places
places-of_tail hp none none slash mark h =
    rw (append_nil hp, cut-absent 47 hp slash, cut-absent 63 hp mark) refl
places-of_tail hp none (some query) slash mark h =
    let no_slash =
      All-append (λ (d : ℕ). d ≢ 47) hp (63 ∷ query) slash (λ e. absurd (omega (arith, e)), h) in
    rw (cut-absent 47 (hp ++ (63 ∷ query)) no_slash, cut-first 63 hp query mark) refl
places-of_tail hp (some path) none slash mark h =
    let no_mark =
      All-append (λ (d : ℕ). d ≢ 63) hp (47 ∷ path) mark (λ e. absurd (omega (arith, e)), h) in
    rw (append_nil path, cut-first 47 hp path slash, cut-absent 63 (hp ++ (47 ∷ path)) no_mark) refl
places-of_tail hp (some path) (some query) slash mark h =
    rw (cut-first 47 hp (path ++ (63 ∷ query)) slash, cut_mark hp path query mark h)
      (λ i. record { hp = hp; path = path_between hp path query i; query = query })

port_text-Avoids :
    (atoi : Bytes → ℤ) (host : Bytes) (port : Option (Bytes × ℕ))
    → Avoids 47 host
    → Avoids 63 host
    → IsPort atoi port
    → Avoids 47 (host ++ port_text port) × Avoids 63 (host ++ port_text port)
port_text-Avoids atoi host none slash mark h = rw (append_nil host) (slash, mark)
port_text-Avoids atoi host (some (text, n)) slash mark h = (
  All-append (λ (d : ℕ). d ≢ 47) host (58 ∷ text) slash (λ e. absurd (omega (arith, e)), h.0),
  All-append (λ (d : ℕ). d ≢ 63) host (58 ∷ text) mark (λ e. absurd (omega (arith, e)), h.1),
)

url_of-port :
    (atoi : Bytes → ℤ) (protocol host path query : Bytes) (port : Option (Bytes × ℕ))
    → Avoids 58 host
    → IsPort atoi port
    → url_of atoi protocol (record { hp = host ++ port_text port; path = path; query = query })
      ≡ record {
        protocol = protocol;
        host = host;
        port = port_number protocol port;
        path = default_path path;
        query = query;
      }
unfolding url_of port_of host_of default_port
url_of-port atoi protocol host path query none h k = rw (append_nil host, cut-absent 58 host h) refl
url_of-port atoi protocol host path query (some (text, n)) h k =
    rw (cut-first 58 host text h, k.2) refl

path_of_lem : (path : Option Bytes) → default_path (path_text path) ≡ path_of path
unfolding default_path
path_of_lem none = refl
path_of_lem (some path) = refl

url_text_nonempty : (protocol rest : Bytes) → is_empty (protocol ++ (codes "://" ++ rest)) ≡ false
url_text_nonempty [] rest = refl
url_text_nonempty (c ∷ protocol) rest = refl

-- A URL that is written protocol://host[:port][/path][?query] is read as those parts. The protocol has
-- no `:`, the host no `:`, `/` or `?`, the text of the port no `/` or `?`, and the path no `?`;
-- without a path the query has no `/`. atoi reads the text of the port as its number;
-- without a port it is 80 for http, 443 for https and -1 otherwise, and without a path
-- the path is `/`.
pub new_iot_url-url_text :
    (atoi : Bytes → ℤ) (protocol host : Bytes) (port : Option (Bytes × ℕ))
    (path query : Option Bytes)
    → Avoids 58 protocol
    → Avoids 58 host
    → Avoids 47 host
    → Avoids 63 host
    → IsPort atoi port
    → IsTail path query
    → new_iot_url atoi (url_text protocol host port path query)
      ≡ returned (record {
        protocol = protocol;
        host = host;
        port = port_number protocol port;
        path = path_of path;
        query = query_of query;
      })
unfolding new_iot_url parse
new_iot_url-url_text atoi protocol host port path query colon host_colon slash mark is_port tail =
    let hp = host ++ port_text port in
    let rest = hp ++ (path_text path ++ query_text query) in
    let avoids = port_text-Avoids atoi host port slash mark is_port in
    rw
      (
        url_text_nonempty protocol rest,
        cut_delimiter-first protocol rest colon,
        parse,
        places-of_tail hp path query avoids.0 avoids.1 tail,
        url_of-port atoi protocol host (path_text path) (query_of query) port host_colon is_port,
        path_of_lem path,
      )
      refl
