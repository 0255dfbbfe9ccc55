-- ===== src/Schema/Build/Raw.antt =====
-- pkg/interfaceschema/parse.go and violations.go: decoded documents, violations and rejections.
use astrate.Base.{
  ℕ, String, Bool, true, false, Option, none, some, List, [], ◌∷◌, ◌++◌, ltb, if◌then◌else◌, length,
  Result, ok, err, Bytes, ℤ,
}
use astrate.Schema.Types.{
  InterfaceType, Ownership, Aggregation, Reliability, Retention, DatabaseRetentionPolicy, ValueType,
}
use astrate.Schema.Endpoint.{EndpointError}
use astrate.Schema.Unique.{UniqueError}

-- `mappingJSON`.
pub record RawMapping : Type 0 where
  pub endpoint : Option Bytes
  pub path : Option Bytes
  pub type : Option ValueType
  pub reliability : Option Reliability
  pub retention : Option Retention
  pub expiry : Option ℤ
  pub database_retention_policy : Option DatabaseRetentionPolicy
  pub database_retention_ttl : Option ℤ
  pub allow_unset : Option Bool
  pub explicit_timestamp : Option Bool
  pub required : Option Bool
  pub encrypted : Option Bool
  pub description : Bytes
  pub doc : Bytes

-- `interfaceJSON`; `aliases` says whether a legacy field was consumed.
pub record RawInterface : Type 0 where
  pub interface_name : Option Bytes
  pub version_major : Option ℤ
  pub version_minor : Option ℤ
  pub type : Option InterfaceType
  pub ownership : Option Ownership
  pub quality : Option Ownership
  pub aggregate : Option Bool
  pub aggregation : Option Aggregation
  pub description : Bytes
  pub doc : Bytes
  pub mappings : List RawMapping
  pub aliases : Bool

-- The messages of the violations, without their wording.
pub data Message : Type 0 where
  mutually_exclusive : Message
  at_most at_least below : ℕ → Message

-- `Violation`; `none` is the index -1 of an interface-level field.
pub record Violation : Type 0 where
  pub field : String
  pub message : Message
  pub mapping_index : Option ℕ

-- The attributes that error messages name.
pub data Attribute : Type 0 where
  type reliability retention expiry explicit_timestamp database_retention_policy : Attribute
  database_retention_ttl required encrypted allow_unset : Attribute

pub data BuildError : Type 0 where
  missing_interface_name missing_version_major missing_version_minor : BuildError
  missing_type missing_ownership name_too_long invalid_name : BuildError
  negative_major negative_minor zero_version object_properties : BuildError
  no_mappings too_many_mappings missing_endpoint missing_mapping_type : BuildError
  bad_endpoint : EndpointError → BuildError
  not_allowed : Attribute → BuildError
  negative_expiry ttl_missing ttl_without_policy : BuildError
  violations : List Violation → ℕ → BuildError
  not_unique : UniqueError → BuildError
  different_depth different_prefix parametric_object_leaf no_endpoints : BuildError
  different_attribute : Attribute → BuildError

abbrev pub is_some {ℓ} : {A : Type ℓ} → Option A → Bool
is_some none = false
is_some (some a) = true

abbrev pub get_or {ℓ} : {A : Type ℓ} → A → Option A → A
get_or d none = d
get_or d (some a) = a

-- if *raw.X != nil && bad { return err }, written with the value.
abbrev pub required_field {ℓ} : {A : Type ℓ} → Option A → BuildError → Result BuildError A
required_field none e = err e
required_field (some a) e = ok a

abbrev pub max_description_length : ℕ
max_description_length = 1000

abbrev pub max_doc_length : ℕ
max_doc_length = 100_000

abbrev pub min_database_retention_ttl : ℕ
min_database_retention_ttl = 60

abbrev pub max_database_retention_ttl : ℕ
max_database_retention_ttl = 630_720_000

abbrev pub max_name_length : ℕ
max_name_length = 128

abbrev pub max_mappings : ℕ
max_mappings = 1024

-- if len(text) > bound { vc.add(field, tooLongMessage(bound)) }
unfoldable pub check_length : String → Option ℕ → Bytes → ℕ → List Violation → List Violation
check_length field index text bound vc =
    if ltb bound (length text)
    then vc ++ record { field = field; message = at_most bound; mapping_index = index } ∷ []
    else vc
