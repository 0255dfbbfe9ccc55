-- ===== src/Schema/Definition.antt =====
-- pkg/interfaceschema/parse.go and trie.go: a validated interface definition with its mappings, and
-- the compiled form of a mapping.
use astrate.Base.{ℕ, Bool, List, Bytes, ℤ}
use astrate.Schema.Types.{
  InterfaceType, Ownership, Aggregation, Reliability, Retention, DatabaseRetentionPolicy, ValueType,
}

-- `Mapping`. Expiry and TTL are int64 seconds.
pub record Mapping : Type 0 where
  pub endpoint : Bytes
  pub type : ValueType
  pub reliability : Reliability
  pub retention : Retention
  pub expiry : ℤ
  pub database_retention_policy : DatabaseRetentionPolicy
  pub database_retention_ttl : ℤ
  pub allow_unset : Bool
  pub explicit_timestamp : Bool
  pub required : Bool
  pub encrypted : Bool
  pub description : Bytes
  pub doc : Bytes

-- `Interface`.
pub record Interface : Type 0 where
  pub name : Bytes
  pub major : ℤ
  pub minor : ℤ
  pub type : InterfaceType
  pub ownership : Ownership
  pub aggregation : Aggregation
  pub description : Bytes
  pub doc : Bytes
  pub mappings : List Mapping

-- `CompiledMapping`. Durations are int64 nanoseconds.
pub record CompiledMapping : Type 0 where
  pub endpoint_id : ℤ
  pub value_type : ValueType
  pub reliability : ℕ
  pub retention : Retention
  pub expiry : ℤ
  pub explicit_timestamp : Bool
  pub allow_unset : Bool
  pub db_retention_ttl : ℤ
  pub required : Bool
  pub encrypted : Bool
