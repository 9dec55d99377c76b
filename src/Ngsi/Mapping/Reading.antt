-- ===== src/Ngsi/Mapping/Reading.antt =====
-- src/ngsi/Attribute.cc: the constructor from a JSON value calls nothing that calls it.
use fiware_io_tagent_cpluspl.Common.{
  Bytes, codes, str_eq, Option, none, some, ◌≢◌, refl, if-both, arith,
}
use fiware_io_tagent_cpluspl.Common.Outcome.{
  Outcome, returned, iota_exception, runtime_error, bad_cast, undefined, out_of_fuel, ◌>>=◌,
}
use fiware_io_tagent_cpluspl.Ngsi.{
  Library, Value, string_value, array_value, object_value, Items, no_items, item,
}
use fiware_io_tagent_cpluspl.Ngsi.Attribute.{
  Attribute, read_attribute, find_member, get_string, member_string, read_triple, read_triples,
  read_compound, read_type, read_value, read_plain, read_metadatas, read_name,
}

abbrev pub IsFinal {ℓ} : {A : Type ℓ} → Outcome A → Type ℓ
IsFinal o = o ≢ out_of_fuel

pub IsFinal-bind {ℓ κ} :
    {A : Type ℓ} {B : Type κ} (m : Outcome A) (f : A → Outcome B)
    → IsFinal m
    → ((a : A) → IsFinal (f a))
    → IsFinal (m >>= f)
IsFinal-bind (returned a) f h k = k a
IsFinal-bind (iota_exception reason details status) f h k = λ e. absurd (ground (arith, e))
IsFinal-bind (runtime_error what) f h k = λ e. absurd (ground (arith, e))
IsFinal-bind bad_cast f h k = λ e. absurd (ground (arith, e))
IsFinal-bind undefined f h k = λ e. absurd (ground (arith, e))
IsFinal-bind out_of_fuel f h k = λ e. h refl

get_string-IsFinal : (value : Value) → IsFinal (get_string value)
unfolding get_string
get_string-IsFinal (string_value text) e = absurd (ground (arith, e))
get_string-IsFinal _ e = absurd (ground (arith, e))

member_string-IsFinal : (name : Bytes) (value : Value) → IsFinal (member_string name value)
unfolding member_string
member_string-IsFinal name (object_value fields) = found (find_member name fields)
  where
    found :
        (o : Option Value) → IsFinal (elim o [ none ↦ undefined | some value ↦ get_string value ])
    found none = λ e. absurd (ground (arith, e))
    found (some value) = get_string-IsFinal value
member_string-IsFinal name _ = λ e. absurd (ground (arith, e))

pub returned-IsFinal {ℓ} : {A : Type ℓ} (a : A) → IsFinal (returned a)
returned-IsFinal a e = absurd (ground (arith, e))

module _ (lib : Library) where
  read_triple-IsFinal : (value : Value) → IsFinal (read_triple lib value)
  unfolding read_triple
  read_triple-IsFinal value = IsFinal-bind _ _ (member_string-IsFinal (codes "name") value) λ name.
      IsFinal-bind _ _ (member_string-IsFinal (codes "type") value) λ type.
        IsFinal-bind _ _ (member_string-IsFinal (codes "value") value) λ text. returned-IsFinal _

  read_triples-IsFinal : (items : Items) → IsFinal (read_triples lib items)
  unfolding read_triples
  read_triples-IsFinal no_items = returned-IsFinal _
  read_triples-IsFinal (item value items) =
      IsFinal-bind _ _ (read_triple-IsFinal value)
        λ a. IsFinal-bind _ _ (read_triples-IsFinal items) λ others. returned-IsFinal _

  read_compound-IsFinal : (a : Attribute) (value : Value) → IsFinal (read_compound lib a value)
  unfolding read_compound
  read_compound-IsFinal a (array_value items) =
      IsFinal-bind _ _ (read_triples-IsFinal items) λ values. returned-IsFinal _
  read_compound-IsFinal a _ = returned-IsFinal _

  read_type-IsFinal : (o : Option Value) (a : Attribute) → IsFinal (read_type lib o a)
  unfolding read_type
  read_type-IsFinal none a = returned-IsFinal a
  read_type-IsFinal (some value) a =
      IsFinal-bind _ _ (get_string-IsFinal value) λ text. returned-IsFinal _

  read_value-IsFinal : (o : Option Value) (a : Attribute) → IsFinal (read_value lib o a)
  unfolding read_value
  read_value-IsFinal none a = returned-IsFinal a
  read_value-IsFinal (some value) a =
      if-both IsFinal (str_eq a.type (codes "compound")) (read_compound lib a value)
        (returned (read_plain lib (str_eq a.type (codes "command")) a value))
        (λ _. read_compound-IsFinal a value) (λ _. returned-IsFinal _)

  read_metadatas-IsFinal : (o : Option Value) (a : Attribute) → IsFinal (read_metadatas lib o a)
  unfolding read_metadatas
  read_metadatas-IsFinal none a = returned-IsFinal a
  read_metadatas-IsFinal (some (array_value items)) a =
      IsFinal-bind _ _ (read_triples-IsFinal items) λ metadata. returned-IsFinal _
  read_metadatas-IsFinal (some _) a = λ e. absurd (ground (arith, e))

  read_name-IsFinal : (o : Option Value) → IsFinal (read_name lib o)
  unfolding read_name
  read_name-IsFinal none = λ e. absurd (ground (arith, e))
  read_name-IsFinal (some value) = get_string-IsFinal value

  pub read_attribute-IsFinal : (value : Value) → IsFinal (read_attribute lib value)
  unfolding read_attribute
  read_attribute-IsFinal (object_value fields) =
      IsFinal-bind _ _ (read_name-IsFinal (find_member (codes "name") fields)) λ name.
        IsFinal-bind _ _ (read_type-IsFinal (find_member (codes "type") fields) _) λ typed.
          IsFinal-bind _ _ (read_value-IsFinal (find_member (codes "value") fields) typed)
            λ valued. read_metadatas-IsFinal (find_member (codes "metadatas") fields) valued
  read_attribute-IsFinal _ = λ e. absurd (ground (arith, e))
