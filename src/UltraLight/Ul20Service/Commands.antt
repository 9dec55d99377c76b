-- ===== src/UltraLight/Ul20Service/Commands.antt =====
-- src/ultra_light/ul20_service.cc: what a request gets, and that GET and POST carry the same measures.
use fiware_io_tagent_cpluspl.Common.{
  Bytes, codes, str_eq, Bool, true, false, Option, none, some, List, [], ◌∷◌, ◌++◌, ◌≡◌, refl, ap,
  sym, ◌∙◌, is_empty, All, arith,
}
use mathlib.Core.List.{append_assoc}
use fiware_io_tagent_cpluspl.Common.Find.{joined}
use fiware_io_tagent_cpluspl.Common.Outcome.{
  Outcome, returned, iota_exception, runtime_error, bad_cast, undefined, out_of_fuel,
}
use fiware_io_tagent_cpluspl.Device.{Device}
use fiware_io_tagent_cpluspl.FuncUtil.Query.{Kvp}
use fiware_io_tagent_cpluspl.Ngsi.ContextElement.{Service}
use fiware_io_tagent_cpluspl.UltraLight.Ul20Service.Request.{
  Query, no_query, add_sbc, read_ip, add_content, read_pair, read_pairs, no_content, body, handle,
  content_of_request, device_for, unknown_device, checked_endpoint, move_endpoint, handle_content,
  actions_of,
}
use fiware_io_tagent_cpluspl.UltraLight.Ul20Service.Answer.{
  Searches, with_commands, with_service, with_query, service,
}

-- A pair that is no measure.
abbrev pub IsOther : Kvp → Type 0
IsOther (key, value) = str_eq key (codes "d") ≡ false

read_pair-of_other :
    (key value : Bytes) (q : Query)
    → str_eq key (codes "d") ≡ false
    → read_pair true (key, value) q ≡ read_pair false (key, value) q
unfolding read_pair
read_pair-of_other key value q h = rw h refl

read_pairs-of_other :
    (query : List Kvp) (q : Query)
    → All IsOther query
    → read_pairs true query q ≡ read_pairs false query q
unfolding read_pairs
read_pairs-of_other [] q h = refl
read_pairs-of_other ((key, value) ∷ query) q h =
    ap (read_pairs true query) (read_pair-of_other key value q h.0)
    ∙ read_pairs-of_other query (read_pair false (key, value) q) h.1

-- The loop over the other pairs leaves the content as it is.
read_pair-content :
    (key value : Bytes) (q : Query) → (read_pair false (key, value) q).content ≡ q.content
unfolding read_pair read_ip add_sbc
read_pair-content key value q = ground arith

read_pairs-content : (query : List Kvp) (q : Query) → (read_pairs false query q).content ≡ q.content
unfolding read_pairs
read_pairs-content [] q = refl
read_pairs-content ((key, value) ∷ query) q =
    read_pairs-content query (read_pair false (key, value) q) ∙ read_pair-content key value q

read_pairs-append :
    (is_get : Bool) (query more : List Kvp) (q : Query)
    → read_pairs is_get (query ++ more) q ≡ read_pairs is_get more (read_pairs is_get query q)
unfolding read_pairs
read_pairs-append is_get [] more q = refl
read_pairs-append is_get (pair ∷ query) more q =
    read_pairs-append is_get query more (read_pair is_get pair q)

-- d=value for each measure
abbrev pub measures : List Bytes → List Kvp
measures [] = []
measures (value ∷ values) = (codes "d", value) ∷ measures values

read_pair-of_measure :
    (value : Bytes) (q : Query) → read_pair true (codes "d", value) q ≡ add_content value q
unfolding read_pair str_eq
read_pair-of_measure value q = refl

joined-longer :
    (first value : Bytes) (values : List Bytes)
    → joined (codes "#") (first ++ (35 ∷ value)) values
      ≡ first ++ (35 ∷ joined (codes "#") value values)
joined-longer first value [] = refl
joined-longer first value (next ∷ values) = append_assoc first (35 ∷ value) _

add_content-longer :
    (value : Bytes) (q : Query)
    → is_empty q.content ≡ false
    → add_content value q ≡ record q { content = q.content ++ (35 ∷ value) }
unfolding add_content
add_content-longer value q filled =
    rw filled
      (ap (λ (t : Bytes). record q { content = t }) (append_assoc q.content (codes "#") value))

append-filled : (first rest : Bytes) → is_empty first ≡ false → is_empty (first ++ rest) ≡ false
append-filled [] rest filled = cc
append-filled (c ∷ first) rest filled = refl

-- More measures behind a first one.
read_pairs-of_measures :
    (values : List Bytes) (first : Bytes) (q : Query)
    → is_empty first ≡ false
    → read_pairs true (measures values) (record q { content = first })
      ≡ record q { content = joined (codes "#") first values }
unfolding read_pairs
read_pairs-of_measures [] first q filled = refl
read_pairs-of_measures (value ∷ values) first q filled =
    ap (read_pairs true (measures values)) (
      read_pair-of_measure value (record q { content = first })
      ∙ add_content-longer value (record q { content = first }) filled)
    ∙ read_pairs-of_measures values (first ++ (35 ∷ value)) q
        (append-filled first (35 ∷ value) filled)
    ∙ ap (λ (t : Bytes). record q { content = t }) (joined-longer first value values)

-- All the measures of a query.
read_pairs-of_query :
    (query : List Kvp) (value : Bytes) (values : List Bytes)
    → All IsOther query
    → is_empty value ≡ false
    → read_pairs true (query ++ measures (value ∷ values)) no_query
      ≡ record (read_pairs false query no_query) { content = joined (codes "#") value values }
unfolding read_pairs
read_pairs-of_query query value values others filled =
    let q : Query = read_pairs false query no_query in
    read_pairs-append true query (measures (value ∷ values)) no_query
    ∙ ap (read_pairs true (measures (value ∷ values))) (read_pairs-of_other query no_query others)
    ∙ ap (read_pairs true (measures values))
        (read_pair-of_measure value q ∙ first_content value q (read_pairs-content query no_query))
    ∙ read_pairs-of_measures values value q filled
  where
    first_content :
        (value : Bytes) (q : Query)
        → q.content ≡ []
        → add_content value q ≡ record q { content = value }
    first_content value q none_yet = unfold add_content in rw none_yet refl

read_pairs-of_get_cmd :
    (query : List Kvp) (value : Bytes)
    → read_pairs false (query ++ ((codes "getCmd", value) ∷ [])) no_query
      ≡ record (read_pairs false query no_query) { get_cmd = true }
unfolding read_pairs read_pair str_eq
read_pairs-of_get_cmd query value =
    read_pairs-append false query ((codes "getCmd", value) ∷ []) no_query

module _ (s : Searches) (is_mongo : Bool) (q : Query) (text : Bytes) where
  same_handled :
      (found : Service) (dev : Outcome (Option Device))
      → handle
          (λ t d sbc. s.translate t found d sbc)
          (s.get_command found)
          s.ends
          s.atoi
          is_mongo
          (record q { content = text })
          no_content
          found
          dev
        ≡ handle
            (λ t d sbc. s.translate t found d sbc)
            (s.get_command found)
            s.ends
            s.atoi
            is_mongo
            (record q { get_cmd = true })
            (body false text)
            found
            dev
  unfolding handle content_of_request device_for unknown_device checked_endpoint move_endpoint
      handle_content actions_of
  same_handled found (returned none) = refl
  same_handled found (returned (some dev)) = refl
  same_handled found undefined = refl
  same_handled found out_of_fuel = refl
  same_handled found (iota_exception reason details status) = refl
  same_handled found (runtime_error what) = refl
  same_handled found bad_cast = refl

  by_service :
      (found : Outcome Service)
      → with_service s is_mongo true (record q { content = text }) no_content found
        ≡ with_service s is_mongo true (record q { get_cmd = true }) (body false text) found
  unfolding with_service
  by_service (returned found) =
      ap (with_commands s is_mongo true found) (same_handled found (s.get_device q.device found))
  by_service undefined = refl
  by_service out_of_fuel = refl
  by_service (iota_exception reason details status) = refl
  by_service (runtime_error what) = refl
  by_service bad_cast = refl

  -- The content of the query, and that commands are asked for, come to the same.
  answer-of_content :
      with_query s is_mongo true (record q { content = text }) no_content
      ≡ with_query s is_mongo false (record q { get_cmd = true }) (body false text)
  unfolding with_query
  answer-of_content = by_service (s.get_service q.apikey)

-- A GET whose measures stand in the query under `d` does the same, in the same order, and is answered
-- with the same code and commands, as a POST that asks for commands with getCmd and has the measures
-- in its body with a `#` between each two: for any other pairs before them, and a first measure that is
-- not empty.
pub service-of_measures :
    (s : Searches) (is_mongo : Bool) (query : List Kvp) (value : Bytes) (values : List Bytes)
    (asked : Bytes)
    → All IsOther query
    → is_empty value ≡ false
    → service s is_mongo true (query ++ measures (value ∷ values)) no_content
      ≡ service s is_mongo false
          (query ++ ((codes "getCmd", asked) ∷ []))
          (body false (joined (codes "#") value values))
unfolding service
service-of_measures s is_mongo query value values asked others filled =
    let text : Bytes = joined (codes "#") value values in
    ap (λ (q : Query). with_query s is_mongo true q no_content)
      (read_pairs-of_query query value values others filled)
    ∙ answer-of_content s is_mongo (read_pairs false query no_query) text
    ∙ ap (λ (q : Query). with_query s is_mongo false q (body false text))
        (sym (read_pairs-of_get_cmd query asked))
