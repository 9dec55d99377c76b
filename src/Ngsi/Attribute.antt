-- ===== src/Ngsi/Attribute.antt =====
-- src/ngsi/Attribute.cc, src/ngsi/Attribute.h, src/util/json_util.cc: an attribute, and its
-- constructors from three texts and from a JSON value.
use fiware_io_tagent_cpluspl.Common.{
  ℕ, Bytes, codes, str_eq, Bool, true, false, Option, none, some, [], ◌++◌, take, is_empty,
  if◌then◌else◌,
}
use fiware_io_tagent_cpluspl.Common.Outcome.{Outcome, returned, runtime_error, undefined, ◌>>=◌}
use fiware_io_tagent_cpluspl.Ngsi.{
  Value, null_value, bool_value, number_value, string_value, array_value, object_value, Items,
  no_items, item, Members, no_members, member, Library,
}

-- std::vector<Attribute>: each element by its fields, in the order of `Attribute`.
pub data Attributes : Type 0 where
  no_attributes : Attributes
  more : Bytes → Bytes → Bytes → Attributes → Attributes → Bool → Attributes → Attributes

pub record Attribute : Type 0 where
  pub name : Bytes
  pub type : Bytes
  pub value : Bytes
  pub metadata : Attributes
  pub value_compound : Attributes
  pub compound_as_object : Bool

abbrev pub attribute : Attribute → Attributes → Attributes
attribute a = more a.name a.type a.value a.metadata a.value_compound a.compound_as_object

-- iota::get_str_value
unfoldable mutual
  pub get_str_value : Value → Bytes
  get_str_value null_value = []
  get_str_value (bool_value true) = codes "1"
  get_str_value (bool_value false) = codes "0"
  get_str_value (number_value text) = text
  get_str_value (string_value text) = text
  get_str_value (array_value no_items) = []
  get_str_value (array_value (item first items)) = get_str_value first ++ get_str_items items
  get_str_value (object_value _) = []

  -- The rounds of the loop after the first.
  pub get_str_items : Items → Bytes
  get_str_items no_items = []
  get_str_items (item value items) = codes "|" ++ (get_str_value value ++ get_str_items items)

-- push_back, once for each of the attributes that follow
unfoldable pub push_all : Attributes → Attributes → Attributes
push_all no_attributes last = last
push_all (more name type value metadata compound object first) last =
    more name type value metadata compound object (push_all first last)

-- What `HasMember` looks for, and `operator[]` finds.
unfoldable pub find_member : Bytes → Members → Option Value
find_member name no_members = none
find_member name (member key value fields) =
    if str_eq key name then some value else find_member name fields

-- GetString() asserts that the value is a string.
unfoldable pub get_string : Value → Outcome Bytes
get_string (string_value text) = returned text
get_string _ = undefined

-- value[name].GetString() asserts that there is a member of the name.
unfoldable pub member_string : Bytes → Value → Outcome Bytes
member_string name (object_value fields) = elim (find_member name fields) [
  | none ↦ undefined
  | some value ↦ get_string value
]
member_string name _ = undefined

abbrev pub empty_value : Bytes
empty_value = codes " "

unfoldable pub or_empty_value : Bytes → Bytes
or_empty_value text = if is_empty text then empty_value else text

abbrev pub identifier_max_length : ℕ
identifier_max_length = 256

module _ (lib : Library) where
  -- iota::render_identifier
  unfoldable pub render_identifier : Bytes → Bytes
  render_identifier text = take identifier_max_length (lib.erase_all_regex_copy text)

  -- Attribute::Attribute(name, type, value)
  unfoldable pub new_attribute : Bytes → Bytes → Bytes → Attribute
  new_attribute name type value = record {
    name = if is_empty name then empty_value else render_identifier name;
    type = render_identifier type;
    value = or_empty_value value;
    metadata = no_attributes;
    value_compound = no_attributes;
    compound_as_object = false;
  }

  -- The attribute of an element of a compound value or of the metadata.
  unfoldable pub read_triple : Value → Outcome Attribute
  read_triple value = do
    name ← member_string (codes "name") value
    type ← member_string (codes "type") value
    text ← member_string (codes "value") value
    returned (new_attribute name type text)

  unfoldable pub read_triples : Items → Outcome Attributes
  read_triples no_items = returned no_attributes
  read_triples (item value items) = do
    a ← read_triple value
    others ← read_triples items
    returned (attribute a others)

  unfoldable pub read_compound : Attribute → Value → Outcome Attribute
  read_compound a (array_value items) = do
    values ← read_triples items
    returned (record a { value_compound = values })
  read_compound a json = returned (record a { value = lib.accept json; compound_as_object = true })

  -- The value of a command is an object, or is read as the others are.
  unfoldable pub read_plain : Bool → Attribute → Value → Attribute
  read_plain true a (object_value fields) = record a { value = lib.accept (object_value fields) }
  read_plain _ a json = record a { value = or_empty_value (get_str_value json) }

  unfoldable pub read_type : Option Value → Attribute → Outcome Attribute
  read_type none a = returned a
  read_type (some type) a = do
    text ← get_string type
    returned (record a { type = render_identifier text })

  unfoldable pub read_value : Option Value → Attribute → Outcome Attribute
  read_value none a = returned a
  read_value (some json) a =
      if str_eq a.type (codes "compound")
      then read_compound a json
      else returned (read_plain (str_eq a.type (codes "command")) a json)

  unfoldable pub read_metadatas : Option Value → Attribute → Outcome Attribute
  read_metadatas none a = returned a
  read_metadatas (some (array_value items)) a = do
    metadata ← read_triples items
    returned (record a { metadata = metadata })
  read_metadatas (some _) a = runtime_error (codes "Attribute: invalid type field [metadatas]")

  unfoldable pub read_name : Option Value → Outcome Bytes
  read_name none = runtime_error (codes "Attribute: missing field [name]")
  read_name (some name) = get_string name

  -- Attribute::Attribute(attribute), from a JSON value
  unfoldable pub read_attribute : Value → Outcome Attribute
  read_attribute (object_value fields) = do
    name ← read_name (find_member (codes "name") fields)
    let named : Attribute = record {
      name = render_identifier name;
      type = [];
      value = [];
      metadata = no_attributes;
      value_compound = no_attributes;
      compound_as_object = false;
    }
    typed ← read_type (find_member (codes "type") fields) named
    valued ← read_value (find_member (codes "value") fields) typed
    read_metadatas (find_member (codes "metadatas") fields) valued
  read_attribute _ = runtime_error (codes "Invalid Object")

-- Attribute::add_metadata
unfoldable pub add_metadata : Attribute → Attribute → Attribute
add_metadata metadata a = record a {
  metadata = push_all a.metadata (attribute metadata no_attributes);
}
