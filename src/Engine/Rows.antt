-- ===== src/Engine/Rows.antt =====
-- internal/engine: PersistOp (data.go) and its conversion to rows of the store (batch.go:
-- individualRow, objectRow, propertyRow, jsonable). encoding/json is a parameter that writes a tree of
-- JSON values; a tree names the text form of a value (base64, RFC 3339, decimal), and the writer
-- spells it. A device id is its bytes, a time an integer.
use astrate.Base.{
  ℕ, ◌-◌, ◌^◌, Bool, true, false, ◌||◌, not, Option, none, some, List, [], ◌∷◌, if◌then◌else◌,
  Result, ok, err, ◌>>=◌, ◌>>◌, reject_if, Bytes, ℤ, pos, negsuc, ltb_ℤ,
}
use astrate.Schema.Types.{
  ValueType, double, integer, boolean, longinteger, string, binaryblob, datetime, is_array,
}
use astrate.Schema.Definition.{CompiledMapping}
use astrate.Schema.Compile.{CompiledInterface}
use astrate.DeviceId.{Id16}
use astrate.Triggers.Value as Go
use astrate.Triggers.Value.{Value, Fields, nil, no_fields, field}

-- `OpKind`.
pub data OpKind : Type 0 where
  op_individual op_object op_property_set op_property_unset : OpKind

-- `PersistOp`, without what only its observers read; `ticket` stands for the message that `ack`
-- acknowledges.
pub record PersistOp : Type 0 where
  pub kind : OpKind
  pub realm_id : ℤ
  pub device_id : Id16
  pub iface : CompiledInterface
  pub mapping : Option CompiledMapping
  pub path : Bytes
  pub value : Value
  pub ts : ℤ
  pub reception_ts : ℤ
  pub ticket : ℕ
  pub broken : Bool

mutual
  -- What `jsonable` hands to the encoder.
  pub data Json : Type 0 where
    null : Json
    float : ℕ → Json
    number decimal_text instant : ℤ → Json
    text base64 : Bytes → Json
    truth : Bool → Json
    array : Jsons → Json
    object : Members → Json

  pub data Jsons : Type 0 where
    no_items : Jsons
    item : Json → Jsons → Jsons

  pub data Members : Type 0 where
    no_members : Members
    member : Bytes → Json → Members → Members

-- json.Marshal.
abbrev pub Marshal : Type 0
Marshal = Json → Option Bytes

abbrev pub max_safe_json_int : ℤ
max_safe_json_int = pos (2 ^ 53 - 1)

-- An int64 beyond what JSON readers hold exactly is a decimal string.
unfoldable pub jsonable_int64 : ℤ → Json
jsonable_int64 x =
    if ltb_ℤ max_safe_json_int x || ltb_ℤ x (negsuc (2 ^ 53 - 2)) then decimal_text x else number x

-- `jsonableSlice`.
unfoldable pub jsonable_slice {ℓ} : {A : Type ℓ} → (A → Json) → List A → Jsons
jsonable_slice one [] = no_items
jsonable_slice one (x ∷ xs) = item (one x) (jsonable_slice one xs)

unfoldable mutual
  unfolding jsonable_int64 jsonable_slice

  -- `jsonable`.
  pub jsonable : Value → Option Json
  jsonable Go.nil = some null
  jsonable (Go.float64 x) = some (float x)
  jsonable (Go.int32 x) = some (number x)
  jsonable (Go.bool x) = some (truth x)
  jsonable (Go.string x) = some (text x)
  jsonable (Go.int64 x) = some (jsonable_int64 x)
  jsonable (Go.bytes x) = some (base64 x)
  jsonable (Go.time x) = some (instant x)
  jsonable (Go.float64s xs) = some (array (jsonable_slice float xs))
  jsonable (Go.int32s xs) = some (array (jsonable_slice number xs))
  jsonable (Go.int64s xs) = some (array (jsonable_slice jsonable_int64 xs))
  jsonable (Go.bools xs) = some (array (jsonable_slice truth xs))
  jsonable (Go.strings xs) = some (array (jsonable_slice text xs))
  jsonable (Go.blobs xs) = some (array (jsonable_slice base64 xs))
  jsonable (Go.times xs) = some (array (jsonable_slice instant xs))
  jsonable (Go.object fields) = elim (jsonable_fields fields) [
    | none ↦ none
    | some out ↦ some (object out)
  ]
  jsonable (Go.int x) = none
  jsonable (Go.anys xs) = none

  pub jsonable_fields : Fields → Option Members
  jsonable_fields no_fields = some no_members
  jsonable_fields (field k e fields) = elim (jsonable e) [
    | none ↦ none
    | some jv ↦ elim (jsonable_fields fields) [ none ↦ none | some out ↦ some (member k jv out) ]
  ]

-- Why a value gives no row.
pub data RowError : Type 0 where
  not_persistable not_encodable mismatch no_object no_mapping : RowError

abbrev pub or_error {ℓ} : {A : Type ℓ} → RowError → Option A → Result RowError A
or_error e none = err e
or_error e (some a) = ok a

-- `encodeValueJSON`.
unfoldable pub encode_value_json : Marshal → Value → Result RowError Bytes
unfolding jsonable
encode_value_json marshal v = do
  jv ← or_error not_persistable (jsonable v)
  or_error not_encodable (marshal jv)

-- The value column of a row; the others stay empty.
pub data Column : Type 0 where
  value_double : ℕ → Column
  value_integer value_longinteger value_datetime : ℤ → Column
  value_boolean : Bool → Column
  value_string value_binaryblob value_array : Bytes → Column

-- The rows and properties of internal/store/datastreams.go and properties.go.
pub record IndividualRow : Type 0 where
  pub realm_id : ℤ
  pub device_id : Id16
  pub interface_id : ℤ
  pub endpoint_id : ℤ
  pub path : Bytes
  pub ts : ℤ
  pub reception_ts : ℤ
  pub column : Column

pub record ObjectRow : Type 0 where
  pub realm_id : ℤ
  pub device_id : Id16
  pub interface_id : ℤ
  pub path : Bytes
  pub ts : ℤ
  pub reception_ts : ℤ
  pub value : Bytes

pub record Property : Type 0 where
  pub realm_id : ℤ
  pub device_id : Id16
  pub interface_id : ℤ
  pub endpoint_id : ℤ
  pub path : Bytes
  pub value : Bytes
  pub value_type : ValueType

-- The column of the declared type, where the value has that type.
unfoldable pub scalar_column : ValueType → Value → Option Column
scalar_column double (Go.float64 v) = some (value_double v)
scalar_column integer (Go.int32 v) = some (value_integer v)
scalar_column longinteger (Go.int64 v) = some (value_longinteger v)
scalar_column boolean (Go.bool v) = some (value_boolean v)
scalar_column string (Go.string v) = some (value_string v)
scalar_column binaryblob (Go.bytes v) = some (value_binaryblob v)
scalar_column datetime (Go.time v) = some (value_datetime v)
scalar_column _ _ = none

unfoldable pub array_column : Marshal → Value → Result RowError Column
unfolding encode_value_json
array_column marshal v = do js ← encode_value_json marshal v; ok (value_array js)

unfoldable pub column_of : Marshal → ValueType → Value → Result RowError Column
unfolding is_array array_column scalar_column
column_of marshal vt v =
    if is_array vt then array_column marshal v else or_error mismatch (scalar_column vt v)

-- `individualRow`; an individual op always has its mapping, and without one there is no row.
unfoldable pub individual_row : Marshal → PersistOp → Result RowError IndividualRow
unfolding column_of
individual_row marshal op = do
  mapping ← or_error no_mapping op.mapping
  column ← column_of marshal mapping.value_type op.value
  ok (record {
    realm_id = op.realm_id;
    device_id = op.device_id;
    interface_id = op.iface.id;
    endpoint_id = mapping.endpoint_id;
    path = op.path;
    ts = op.ts;
    reception_ts = op.reception_ts;
    column = column;
  })

abbrev pub is_document : Value → Bool
is_document (Go.object _) = true
is_document _ = false

-- `objectRow`.
unfoldable pub object_row : Marshal → PersistOp → Result RowError ObjectRow
unfolding encode_value_json
object_row marshal op = do
  reject_if (not (is_document op.value)) no_object
  js ← encode_value_json marshal op.value
  ok (record {
    realm_id = op.realm_id;
    device_id = op.device_id;
    interface_id = op.iface.id;
    path = op.path;
    ts = op.ts;
    reception_ts = op.reception_ts;
    value = js;
  })

-- `propertyRow`; a property op always has its mapping, too.
unfoldable pub property_row : Marshal → PersistOp → Result RowError Property
unfolding encode_value_json
property_row marshal op = do
  mapping ← or_error no_mapping op.mapping
  js ← encode_value_json marshal op.value
  ok (record {
    realm_id = op.realm_id;
    device_id = op.device_id;
    interface_id = op.iface.id;
    endpoint_id = mapping.endpoint_id;
    path = op.path;
    value = js;
    value_type = mapping.value_type;
  })
