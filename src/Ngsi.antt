-- ===== src/Ngsi.antt =====
-- src/ngsi: the attributes and the entities that go to the context broker.
pub mod Attribute
pub mod ContextElement
pub mod Naming
pub mod Mapping
mod Tests
use fiware_io_tagent_cpluspl.Common.{Bytes, Bool, Option}

-- A JSON document, as rapidjson has it in memory. A number is the text that `lexical_cast` gives of
-- its `GetDouble()`.
mutual
  pub data Value : Type 0 where
    null_value : Value
    bool_value : Bool → Value
    number_value : Bytes → Value
    string_value : Bytes → Value
    array_value : Items → Value
    object_value : Members → Value

  pub data Items : Type 0 where
    no_items : Items
    item : Value → Items → Items

  pub data Members : Type 0 where
    no_members : Members
    member : Bytes → Value → Members → Members

-- The calls of Boost and of rapidjson: the erasure of REGEX_IDENTIFIER_FORBIDDEN_CHARACTERS, the
-- text of a value, and the value of a text, which is none when the text has a parse error.
pub record Library : Type 0 where
  pub erase_all_regex_copy : Bytes → Bytes
  pub accept : Value → Bytes
  pub parse : Bytes → Option Value
