-- ===== src/UltraLight.antt =====
-- src/ultra_light/ULInsertObservation.cc: the translation of a message of measures into entities.
pub mod Measured
pub mod Sbc
pub mod Content
pub mod Messages
pub mod Ul20Service
mod Tests
use fiware_io_tagent_cpluspl.Common.{
  ℕ, zero, suc, Bytes, codes, str_eq, Bool, true, false, ◌||◌, ◌==◌, Option, none, some, List, [],
  ◌∷◌, ◌++◌, length, is_empty, if◌then◌else◌,
}
use fiware_io_tagent_cpluspl.Common.Int.{ℤ}
use fiware_io_tagent_cpluspl.Common.Outcome.{
  invalid_parameter, Outcome, returned, iota_exception, runtime_error, bad_cast, undefined,
  out_of_fuel, ◌>>=◌,
}
use fiware_io_tagent_cpluspl.Device.{Device, get_real_name}
use fiware_io_tagent_cpluspl.FuncUtil.Query.{Kvp}
use fiware_io_tagent_cpluspl.Ngsi.{Library}
use fiware_io_tagent_cpluspl.Ngsi.Attribute.{Attribute, new_attribute, add_metadata}
use fiware_io_tagent_cpluspl.Ngsi.ContextElement.{
  ContextElement, Service, set_env_info, add_attribute, new_context_element,
}

-- boost::numeric_cast<long>(boost::lexical_cast<double>(text)), or the exception that it throws.
pub data Number : Type 0 where
  number : ℤ → Number
  bad_lexical_cast : Number
  bad_numeric_cast : Number

-- What the translation calls: the trim, the erasure and the tokenizer of Boost, whose tokens
-- riot_tokenizer copies, its casts, and the texts of times. `now` is the time of the call, and
-- `iso_text` the text of the time that a text is read as.
pub record Calls : Type 0 where
  pub json : Library
  pub trim : Bytes → Bytes
  pub erase_all : Bytes → Bytes → Bytes
  pub riot_tokenizer : Bytes → Bytes → List Bytes
  pub now : Bytes
  pub iso_text : Bytes → Outcome Bytes
  pub epoch_text : ℤ → Bytes
  pub number_of : Bytes → Number
  pub plus : ℤ → ℤ → ℤ

-- The parts of a text before and after its first `|`.
unfoldable pub cut_pipe : Bytes → Option (Bytes × Bytes)
cut_pipe [] = none
cut_pipe (c ∷ text) =
    let rest = cut_pipe text in
    if c == 124
    then some ([], text)
    else (elim rest [ none ↦ none | some (before, after) ↦ some (c ∷ before, after) ])

unfoldable pub join_content : Bytes → Bytes → Bytes → Bytes → Bytes
join_content res sampling_time alias content =
    codes "|"
    ++ (res ++ (codes "|" ++ (sampling_time ++ (codes "|" ++ (alias ++ (codes "||" ++ content))))))

-- With a second `|`, the time stands before the first one.
unfoldable pub content_after :
    Bytes → Bytes → Bytes → Bytes → Bytes → Option (Bytes × Bytes) → Bytes
content_after io sampling_time res before after none = join_content res sampling_time before io
content_after io sampling_time res before after (some (alias, value)) =
    join_content res before alias after

unfoldable pub content_of : Bytes → Bytes → Bytes → Option (Bytes × Bytes) → Bytes
content_of io sampling_time res none = join_content res [] [] []
content_of io sampling_time res (some (before, after)) =
    content_after io sampling_time res before after (cut_pipe after)

-- ULInsertObservation::contentForSBCProtocol
unfoldable pub content_for_sbc_protocol : Bytes → Bytes → Bytes → Bytes
content_for_sbc_protocol io sampling_time res = content_of io sampling_time res (cut_pipe io)

abbrev pub protocol_error {ℓ} : {A : Type ℓ} → Bytes → Outcome A
protocol_error what = iota_exception invalid_parameter what 400

-- The loop over the query: the last value under a name counts.
unfoldable pub query_value_of : Bytes → Bytes → List Kvp → Bytes
query_value_of name value [] = value
query_value_of name value ((key, text) ∷ query) =
    query_value_of name (if str_eq key name then text else value) query

unfoldable pub name_of : Option Device → Service → List Kvp → Bytes
name_of none service query = query_value_of (codes "ID") [] query
name_of (some dev) service query = get_real_name service.get dev

-- tokens_io[UL_ID_RESOURCE], with the name of the device in front of it
unfoldable pub resource_of : Bytes → Bytes → Bytes
resource_of device_name id =
    if is_empty id
    then device_name
    else if is_empty device_name
    then id
    else device_name ++ (codes "." ++ id)

-- catch (std::runtime_error& e): an IotaException is one too, and its `what()` are its details.
unfoldable pub caught {ℓ} : {A : Type ℓ} → Outcome A → Outcome A
caught (runtime_error what) = protocol_error what
caught (iota_exception reason details status) = protocol_error details
caught o = o

module _ (lib : Calls) where
  -- A time that is no ISO 8601 text is the time of the call.
  unfoldable pub time_instant : Outcome Bytes → Outcome Bytes
  time_instant (runtime_error what) = returned lib.now
  time_instant (iota_exception reason details status) = returned lib.now
  time_instant o = o

  -- The begin of a period; the sum of the two numbers is the end, which is only checked.
  unfoldable pub period_begin : Bytes → Number → Number → Outcome Bytes
  period_begin begin (number b) (number e) = returned (lib.epoch_text b)
  period_begin begin (number b) bad_lexical_cast = returned begin
  period_begin begin (number b) bad_numeric_cast = bad_cast
  period_begin begin bad_lexical_cast e = returned begin
  period_begin begin bad_numeric_cast e = bad_cast

  -- date_to_cb, from the parts of the sampling time
  unfoldable pub date_of : List Bytes → Outcome Bytes
  date_of [] = returned lib.now
  date_of (instant ∷ []) = time_instant (lib.iso_text instant)
  date_of (begin ∷ end ∷ _) = period_begin begin (lib.number_of begin) (lib.number_of end)

  -- The entity of one name and value.
  unfoldable pub make_element :
      ℕ → Bytes → Option Device → Service → Bytes → Bytes → Bytes → Outcome ContextElement
  make_element fuel device_name dev service date attr_name value = do
    let instant = new_attribute lib.json (codes "TimeInstant") (codes "ISO8601") date
    let att = add_metadata instant (new_attribute lib.json attr_name [] value)
    let element = new_context_element lib.json device_name [] (codes "false")
    informed ← set_env_info lib.json fuel lib.now service dev element
    measured ← add_attribute lib.json fuel att informed
    add_attribute lib.json fuel instant measured

  -- One round of the loop over the tokens after the fourth.
  unfoldable pub add_value :
      (Bytes → Bytes → Outcome ContextElement)
      → Bytes
      → Bytes
      → List ContextElement
      → Outcome (List ContextElement)
  add_value make attr_name value elements =
      if is_empty value
      then protocol_error (codes "Protocol error, Empty values is not allowed ")
      else do element ← make attr_name value; returned (elements ++ (element ∷ []))

  -- The loop: an empty token is stepped over, and a name without a value reads beyond the tokens.
  unfoldable pub read_values :
      (Bytes → Bytes → Outcome ContextElement)
      → List Bytes
      → List ContextElement
      → Outcome (List ContextElement)
  read_values make [] elements = returned elements
  read_values make ([] ∷ attr_name ∷ value ∷ tokens) elements = do
    added ← add_value make attr_name value elements
    read_values make tokens added
  read_values make ([] ∷ _) elements = undefined
  read_values make ((c ∷ attr_name) ∷ value ∷ tokens) elements = do
    added ← add_value make (c ∷ attr_name) value elements
    read_values make tokens added
  read_values make ((c ∷ attr_name) ∷ []) elements = undefined

  -- One measure, by its tokens.
  unfoldable pub read_measure :
      ℕ
      → Bytes
      → Option Device
      → Service
      → List Bytes
      → List ContextElement
      → Outcome (List ContextElement)
  read_measure fuel device_name dev service (uc ∷ id ∷ time ∷ property ∷ tokens) elements =
      if is_empty (resource_of device_name id) || is_empty property
      then protocol_error (codes "Protocol error, measurement has not got property or idResource ")
      else caught (do
        date ← date_of (lib.riot_tokenizer time (codes " "))
        read_values (make_element fuel device_name dev service date) tokens elements)
  read_measure fuel device_name dev service _ elements =
      protocol_error (codes "Protocol error, a measure is not complete ")

  unfoldable pub read_measures :
      ℕ
      → ℕ
      → Bytes
      → Bytes
      → Option Device
      → Service
      → List Bytes
      → List ContextElement
      → Outcome (List ContextElement)
  read_measures fuel protocol device_name sampling_time dev service [] elements = returned elements
  read_measures fuel protocol device_name sampling_time dev service (text ∷ texts) elements = do
    let content =
        if protocol == 0 then content_for_sbc_protocol text sampling_time device_name else text
    added ←
        read_measure fuel device_name dev service (lib.riot_tokenizer content (codes "|")) elements
    read_measures fuel protocol device_name sampling_time dev service texts added

  -- The message without what `trim` takes off its ends, and without line breaks.
  unfoldable pub clean : Bytes → Bytes
  clean str_io = lib.erase_all (lib.erase_all (lib.trim str_io) (10 ∷ [])) (13 ∷ [])

  unfoldable pub checked_size : ℕ → List ContextElement → Outcome (List ContextElement)
  checked_size num_medidas elements =
      if num_medidas == length elements
      then returned elements
      else protocol_error (codes "Protocol error, ")

  -- ULInsertObservation::translate; the fuel is that of add_attribute, and the result the vector of
  -- the caller after a return.
  unfoldable pub translate :
      ℕ
      → Bytes
      → Option Device
      → Service
      → List Kvp
      → List ContextElement
      → ℕ
      → Outcome (List ContextElement)
  translate fuel str_io dev service query cb_eltos protocol =
      let texts = lib.riot_tokenizer (clean str_io) (codes "#") in
      let sampling_time = query_value_of (codes "t") [] query in
      if is_empty texts then protocol_error (codes "Protocol error, no measurements") else do
        elements ←
            read_measures fuel protocol (name_of dev service query) sampling_time dev service texts
              cb_eltos
        checked_size (length texts) elements
