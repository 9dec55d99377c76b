-- ===== src/UltraLight/Tests.antt =====
-- Runs of the translation of measures, and instances of its theorems.
use fiware_io_tagent_cpluspl.Common.{
  Avoids, ℕ, Bytes, codes, false, none, List, [], ◌∷◌, ◌++◌, ◌≡◌, refl, ap, ◌∙◌, get_or, length,
  is_empty, All, if◌then◌else◌, leb, ◌==◌, str_eq, bytes_key, arith,
}
use fiware_io_tagent_cpluspl.Common.Int.{pos}
use fiware_io_tagent_cpluspl.Common.Outcome.{returned, undefined}
use fiware_io_tagent_cpluspl.FuncUtil.Query.{Kvp}
use fiware_io_tagent_cpluspl.Ngsi.Attribute.{
  Attribute, Attributes, no_attributes, attribute, push_all, add_metadata, new_attribute,
  or_empty_value, render_identifier,
}
use fiware_io_tagent_cpluspl.Ngsi.ContextElement.{
  ContextElement, no_service, set_env_info, add_attribute, add_step, with_type, has_empty_value,
  attr_mapping, device_mapping, service_mapping, format, format_type, format_id, own_type,
  new_context_element, add_device_statics, device_statics, add_service_statics, service_statics,
}
use fiware_io_tagent_cpluspl.UltraLight.{
  Calls, number, content_for_sbc_protocol, protocol_error, query_value_of, name_of, resource_of,
  caught, time_instant, date_of, make_element, add_value, read_values, read_measure, read_measures,
  clean, checked_size, translate,
}
use fiware_io_tagent_cpluspl.UltraLight.Measured.{IsMeasured, translate-IsMeasured}
use fiware_io_tagent_cpluspl.UltraLight.Content.{
  join, IsGraphic, IsBoost, content_for_sbc_protocol-of_pair, content_for_sbc_protocol-of_timed,
}
use fiware_io_tagent_cpluspl.UltraLight.Messages.{IsMeasure}
use fiware_io_tagent_cpluspl.UltraLight.Sbc.{elements_of, translate-message_text}

-- Calls that do what is said of Boost's.
put_first : ℕ → List Bytes → List Bytes
put_first d [] = (d ∷ []) ∷ []
put_first d (part ∷ parts) = (d ∷ part) ∷ parts

split : ℕ → Bytes → List Bytes
split c [] = [] ∷ []
split c (d ∷ text) = if d == c then [] ∷ split c text else put_first d (split c text)

tokens : Bytes → Bytes → List Bytes
tokens text sep = if is_empty text then [] else split (get_or sep 0 0) text

drop_blanks : Bytes → Bytes
drop_blanks [] = []
drop_blanks (c ∷ text) = if leb c 32 then drop_blanks text else (c ∷ text)

erase : ℕ → Bytes → Bytes
erase c [] = []
erase c (d ∷ text) = if d == c then erase c text else (d ∷ erase c text)

split_last : (c : ℕ) (part : Bytes) → Avoids c part → split c part ≡ part ∷ []
unfolding split put_first
split_last c [] h = refl
split_last c (d ∷ part) h = ground (arith, h.0, split_last c part h.1)

split_first :
    (c : ℕ) (part text : Bytes) → Avoids c part → split c (part ++ (c ∷ text)) ≡ part ∷ split c text
unfolding split put_first
split_first c [] text h = ground arith
split_first c (d ∷ part) text h = ground (arith, h.0, split_first c part text h.1)

split-join :
    (c : ℕ) (part : Bytes) (parts : List Bytes)
    → All (Avoids c) (part ∷ parts)
    → split c (join c part parts) ≡ part ∷ parts
split-join c part [] h = split_last c part h.0
split-join c part (next ∷ parts) h =
    split_first c part (join c next parts) h.0 ∙ ap (◌∷◌ part) (split-join c next parts h.1)

drop_blanks-graphic : (text : Bytes) → IsGraphic text → drop_blanks text ≡ text
unfolding drop_blanks
drop_blanks-graphic [] h = refl
drop_blanks-graphic (c ∷ text) h = ground (arith, h.0)

erase-absent : (c : ℕ) (text : Bytes) → Avoids c text → erase c text ≡ text
unfolding erase
erase-absent c [] h = refl
erase-absent c (d ∷ text) h = ground (arith, h.0, erase-absent c text h.1)

abbrev sample : Calls
unfolding tokens
sample = record {
  json = record {
    erase_all_regex_copy = λ text. text;
    accept = λ value. codes "{}";
    parse = λ text. none;
  };
  trim = drop_blanks;
  erase_all = λ text absent. erase (get_or absent 0 0) text;
  riot_tokenizer = tokens;
  now = codes "now";
  iso_text = λ text. returned text;
  epoch_text = λ n. codes "epoch";
  number_of = λ text. number (pos 0);
  plus = λ a b. a;
}

sample-IsBoost : IsBoost sample
unfolding tokens
sample-IsBoost = record {
  trim_graphic = drop_blanks-graphic;
  erase_all_absent = erase-absent;
  tokens_of_join = λ c part parts h some_text. rw some_text (split-join c part parts h);
}

abbrev query : List Kvp
query = (codes "ID", codes "dev1") ∷ (codes "t", codes "2015") ∷ []

abbrev measure : Bytes × Bytes
measure = (codes "t", codes "25")

content_for_sbc_protocol-of_pair_example :
    content_for_sbc_protocol (codes "t|25") (codes "2015") (codes "dev1")
    ≡ codes "|dev1|2015|t||t|25"
content_for_sbc_protocol-of_pair_example =
    content_for_sbc_protocol-of_pair (codes "t") (codes "25") (codes "2015") (codes "dev1")
      (ground arith) (ground arith)

content_for_sbc_protocol-of_timed_example :
    content_for_sbc_protocol (codes "2016|t|25") (codes "2015") (codes "dev1")
    ≡ codes "|dev1|2016|t||t|25"
content_for_sbc_protocol-of_timed_example =
    content_for_sbc_protocol-of_timed (codes "2016") (codes "t") (codes "25") (codes "2015")
      (codes "dev1") (ground arith) (ground arith)

measure-IsMeasure : IsMeasure measure
measure-IsMeasure = ((refl, ground arith), (refl, ground arith))

abbrev plain_attribute : Bytes → Bytes → Bytes → Attributes → Attribute
plain_attribute name type value metadata = record {
  name = name;
  type = type;
  value = value;
  metadata = metadata;
  value_compound = no_attributes;
  compound_as_object = false;
}

abbrev instant : Attribute
instant = plain_attribute (codes "TimeInstant") (codes "ISO8601") (codes "2015") no_attributes

abbrev measured : ContextElement
measured = record {
  id = codes "thing:dev1";
  type = codes "thing";
  is_pattern = codes "false";
  attributes =
      plain_attribute (codes "t") (codes "string") (codes "25") (attribute instant no_attributes)
      ∷ instant
      ∷ [];
  service_info = no_service;
  device_info = none;
}

translate-message_text_example :
    translate sample 2 (codes "t|25#t|25") none no_service query [] 0
    ≡ elements_of sample sample-IsBoost 2 none no_service
        (codes "dev1")
        (codes "2015")
        (measure ∷ measure ∷ [])
unfolding name_of query_value_of str_eq
translate-message_text_example =
    translate-message_text sample sample-IsBoost 2 none no_service query measure (measure ∷ []) refl
      (ground arith) (ground arith) (measure-IsMeasure, (measure-IsMeasure, tt))

-- A measure of two names and values is refused, since two entities come of it.
translate_test_two :
    translate sample 2 (codes "|m|2015|p|t|25|u|26") none no_service query [] 1
    ≡ protocol_error (codes "Protocol error, ")
unfolding translate clean drop_blanks erase tokens split put_first name_of query_value_of str_eq
    read_measures read_measure resource_of caught date_of time_instant read_values add_value
    make_element checked_size new_context_element set_env_info format format_type format_id own_type
    add_device_statics device_statics add_service_statics service_statics add_attribute add_step
    with_type has_empty_value attr_mapping device_mapping service_mapping new_attribute
    render_identifier or_empty_value add_metadata push_all
translate_test_two = refl

-- A name without a value is read beyond the tokens of the measure.
translate_test_odd : translate sample 2 (codes "|m|2015|p|t") none no_service query [] 1 ≡ undefined
unfolding translate clean drop_blanks erase tokens split put_first name_of query_value_of str_eq
    read_measures read_measure resource_of caught date_of time_instant read_values
translate_test_odd = refl

translate-IsMeasured_example :
    (length (measured ∷ [])
      ≡ length (sample.riot_tokenizer (clean sample (codes "|m|2015|p|t|25")) (codes "#")))
    × (is_empty (measured ∷ []) ≡ false)
    × All (IsMeasured sample (name_of none no_service query) none no_service) (measured ∷ [])
unfolding translate clean drop_blanks erase tokens split put_first name_of query_value_of str_eq
    read_measures read_measure resource_of caught date_of time_instant read_values add_value
    make_element checked_size new_context_element set_env_info format format_type format_id own_type
    add_device_statics device_statics add_service_statics service_statics add_attribute add_step
    with_type has_empty_value attr_mapping device_mapping service_mapping new_attribute
    render_identifier or_empty_value add_metadata push_all
translate-IsMeasured_example =
    translate-IsMeasured sample 2 (codes "|m|2015|p|t|25") none no_service query 1 (measured ∷ [])
      refl
