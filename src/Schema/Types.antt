-- ===== src/Schema/Types.antt =====
-- pkg/interfaceschema/types.go: the enumerations of an interface definition and their wire strings.
-- A value outside an enumeration's range, which Go's uint8 could hold and no parser returns, has no
-- counterpart: the default branches of the `String` methods and the error of `marshalEnum` are for
-- such values only.
pub mod Wire
use astrate.Base.{
  ℕ, zero, suc, ◌+◌, ◌-◌, ◌<◌, String, Bool, ◌&&◌, Option, none, some, List, [], ◌∷◌, str_eq, leb,
  if◌then◌else◌, get_elem?, any, Result, ok, err,
}

pub data InterfaceType : Type 0 where
  datastream properties : InterfaceType

pub data Ownership : Type 0 where
  device server : Ownership

pub data Aggregation : Type 0 where
  individual object : Aggregation

pub data Reliability : Type 0 where
  unreliable guaranteed unique : Reliability

pub data Retention : Type 0 where
  discard volatile stored : Retention

pub data DatabaseRetentionPolicy : Type 0 where
  no_ttl use_ttl : DatabaseRetentionPolicy

pub data ValueType : Type 0 where
  double integer boolean longinteger string binaryblob datetime : ValueType
  doublearray integerarray booleanarray longintegerarray : ValueType
  stringarray binaryblobarray datetimearray : ValueType

-- "unknown interface type", "unknown ownership" and so on, with the word that was refused.
pub data Unknown : Type 0 where
  unknown : String → Unknown

-- The parsers: `switch s { case ...: }`.
unfoldable pub parse_interface_type : String → Result Unknown InterfaceType
parse_interface_type s =
    if str_eq s "datastream"
    then ok datastream
    else if str_eq s "properties"
    then ok properties
    else err (unknown s)

unfoldable pub parse_ownership : String → Result Unknown Ownership
parse_ownership s =
    if str_eq s "device"
    then ok device
    else if str_eq s "server"
    then ok server
    else err (unknown s)

unfoldable pub parse_aggregation : String → Result Unknown Aggregation
parse_aggregation s =
    if str_eq s "individual"
    then ok individual
    else if str_eq s "object"
    then ok object
    else err (unknown s)

unfoldable pub parse_reliability : String → Result Unknown Reliability
parse_reliability s =
    if str_eq s "unreliable"
    then ok unreliable
    else if str_eq s "guaranteed"
    then ok guaranteed
    else if str_eq s "unique"
    then ok unique
    else err (unknown s)

unfoldable pub parse_retention : String → Result Unknown Retention
parse_retention s =
    if str_eq s "discard"
    then ok discard
    else if str_eq s "volatile"
    then ok volatile
    else if str_eq s "stored"
    then ok stored
    else err (unknown s)

unfoldable pub parse_database_retention_policy : String → Result Unknown DatabaseRetentionPolicy
parse_database_retention_policy s =
    if str_eq s "no_ttl"
    then ok no_ttl
    else if str_eq s "use_ttl"
    then ok use_ttl
    else err (unknown s)

-- The `String` methods.
pub string_interface_type : InterfaceType → String
string_interface_type datastream = "datastream"
string_interface_type properties = "properties"

pub string_ownership : Ownership → String
string_ownership device = "device"
string_ownership server = "server"

pub string_aggregation : Aggregation → String
string_aggregation individual = "individual"
string_aggregation object = "object"

pub string_reliability : Reliability → String
string_reliability unreliable = "unreliable"
string_reliability guaranteed = "guaranteed"
string_reliability unique = "unique"

pub string_retention : Retention → String
string_retention discard = "discard"
string_retention volatile = "volatile"
string_retention stored = "stored"

pub string_database_retention_policy : DatabaseRetentionPolicy → String
string_database_retention_policy no_ttl = "no_ttl"
string_database_retention_policy use_ttl = "use_ttl"

-- `QoS`: the numeric value of a reliability.
unfoldable pub qos : Reliability → ℕ
qos unreliable = 0
qos guaranteed = 1
qos unique = 2

-- `valueTypeNames`, each name with the value at its place.
pub value_type_names : List (String × ValueType)
value_type_names =
    ("double", double)
    ∷ ("integer", integer)
    ∷ ("boolean", boolean)
    ∷ ("longinteger", longinteger)
    ∷ ("string", string)
    ∷ ("binaryblob", binaryblob)
    ∷ ("datetime", datetime)
    ∷ ("doublearray", doublearray)
    ∷ ("integerarray", integerarray)
    ∷ ("booleanarray", booleanarray)
    ∷ ("longintegerarray", longintegerarray)
    ∷ ("stringarray", stringarray)
    ∷ ("binaryblobarray", binaryblobarray)
    ∷ ("datetimearray", datetimearray)
    ∷ []

-- The loop of `ParseValueType`, over any table of names.
pub find_name : {A : Type 0} → List (String × A) → String → Result Unknown A
find_name [] s = err (unknown s)
find_name ((name, v) ∷ names) s = if str_eq s name then ok v else find_name names s

unfoldable pub parse_value_type : String → Result Unknown ValueType
unfolding find_name value_type_names
parse_value_type s = find_name value_type_names s

-- The uint8 that stands for a value type: `iota + 1`.
unfoldable pub code_value_type : ValueType → ℕ
code_value_type double = 1
code_value_type integer = 2
code_value_type boolean = 3
code_value_type longinteger = 4
code_value_type string = 5
code_value_type binaryblob = 6
code_value_type datetime = 7
code_value_type doublearray = 8
code_value_type integerarray = 9
code_value_type booleanarray = 10
code_value_type longintegerarray = 11
code_value_type stringarray = 12
code_value_type binaryblobarray = 13
code_value_type datetimearray = 14

-- `valueTypeNames[v-1]`; the empty text stands for a code out of range.
pub string_value_type : ValueType → String
unfolding value_type_names code_value_type
string_value_type v = elim (get_elem? value_type_names (code_value_type v - 1)) [
  | none ↦ ""
  | some p ↦ p.0
]

-- v >= DoubleArray && v <= DateTimeArray
unfoldable pub is_array : ValueType → Bool
unfolding code_value_type
is_array v =
    leb (code_value_type doublearray) (code_value_type v)
    && leb (code_value_type v) (code_value_type datetimearray)

-- The value with a code, where there is one.
unfoldable pub of_code : ℕ → Option ValueType
unfolding value_type_names
of_code zero = none
of_code (suc n) = elim (get_elem? value_type_names n) [ none ↦ none | some p ↦ some p.1 ]

-- `Elem`: v - DoubleArray + Double for an array type.
unfoldable pub elem : ValueType → Option ValueType
unfolding is_array of_code
elem v =
    if is_array v
    then of_code (code_value_type v - code_value_type doublearray + code_value_type double)
    else some v
