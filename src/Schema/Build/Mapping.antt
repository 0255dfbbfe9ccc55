-- ===== src/Schema/Build/Mapping.antt =====
-- pkg/interfaceschema/parse.go: `buildMapping`.
pub mod Rules
use astrate.Base.{
  ◌>>=◌, ◌>>◌, ℕ, ◌+◌, ◌-◌, false, not, Option, none, some, List, [], ◌∷◌, ◌++◌, if◌then◌else◌,
  length, Result, ok, err, reject_if, Bytes, ℤ, pos, ltb_ℤ, leb_ℤ,
}
use astrate.Schema.Types.{
  InterfaceType, datastream, properties, unreliable, discard, DatabaseRetentionPolicy, no_ttl,
  use_ttl, ValueType,
}
use astrate.Schema.Definition.{Mapping}
use astrate.Schema.Endpoint.{Segment, split_endpoint}
use astrate.Schema.Build.Raw.{
  RawMapping, Violation, Message, at_least, below, Attribute, BuildError, missing_endpoint,
  missing_mapping_type, bad_endpoint, not_allowed, negative_expiry, ttl_missing, ttl_without_policy,
  is_some, get_or, required_field, max_description_length, max_doc_length,
  min_database_retention_ttl, max_database_retention_ttl, check_length,
}

-- What `buildMapping` returns: the mapping, its segments, and the violations so far.
pub record Built : Type 0 where
  pub mapping : Mapping
  pub segments : List Segment
  pub violations : List Violation

abbrev pub segments_of : Bytes → Result BuildError (List Segment)
segments_of endpoint = elim (split_endpoint endpoint) [
  | ok segs ↦ ok segs
  | err e ↦ err (bad_endpoint e)
]

-- The mapping before its attributes are read.
unfoldable pub base_mapping : Bytes → ValueType → RawMapping → Mapping
base_mapping endpoint type raw = record {
  endpoint = endpoint;
  type = type;
  reliability = unreliable;
  retention = discard;
  expiry = pos 0;
  database_retention_policy = no_ttl;
  database_retention_ttl = pos 0;
  allow_unset = false;
  explicit_timestamp = false;
  required = false;
  encrypted = false;
  description = raw.description;
  doc = raw.doc;
}

-- The branch for properties: the attributes of datastreams are not allowed.
pub properties_mapping : RawMapping → Mapping → Result BuildError Mapping
properties_mapping raw m = do
  reject_if (is_some raw.reliability) (not_allowed Attribute.reliability)
  reject_if (is_some raw.retention) (not_allowed Attribute.retention)
  reject_if (is_some raw.expiry) (not_allowed Attribute.expiry)
  reject_if (is_some raw.explicit_timestamp) (not_allowed Attribute.explicit_timestamp)
  reject_if (is_some raw.database_retention_policy)
      (not_allowed Attribute.database_retention_policy)
  reject_if (is_some raw.database_retention_ttl) (not_allowed Attribute.database_retention_ttl)
  reject_if (is_some raw.required) (not_allowed Attribute.required)
  reject_if (is_some raw.encrypted) (not_allowed Attribute.encrypted)
  ok (record m { allow_unset = get_or false raw.allow_unset })

abbrev pub ttl_violation : Message → ℕ → Violation
ttl_violation message index = record {
  field = "database_retention_ttl";
  message = message;
  mapping_index = some index;
}

-- The switch on the retention policy: the TTL to store, and the violations.
unfoldable pub retention_ttl :
    DatabaseRetentionPolicy → Option ℤ → ℕ → List Violation → Result BuildError (ℤ × List Violation)
retention_ttl use_ttl none index vc = err ttl_missing
retention_ttl use_ttl (some ttl) index vc =
    if ltb_ℤ ttl (pos min_database_retention_ttl)
    then ok (pos 0, vc ++ ttl_violation (at_least min_database_retention_ttl) index ∷ [])
    else if leb_ℤ (pos max_database_retention_ttl) ttl
    then ok (pos 0, vc ++ ttl_violation (below max_database_retention_ttl) index ∷ [])
    else ok (ttl, vc)
retention_ttl no_ttl none index vc = ok (pos 0, vc)
retention_ttl no_ttl (some ttl) index vc = err ttl_without_policy

-- The branch for datastreams.
unfoldable pub datastream_mapping :
    RawMapping → Mapping → ℕ → List Violation → Result BuildError (Mapping × List Violation)
datastream_mapping raw m index vc = do
  reject_if (is_some raw.allow_unset) (not_allowed Attribute.allow_unset)
  reject_if (ltb_ℤ (get_or (pos 0) raw.expiry) (pos 0)) negative_expiry
  let policy = get_or no_ttl raw.database_retention_policy
  kept ← retention_ttl policy raw.database_retention_ttl index vc
  ok (
    record m {
      required = get_or false raw.required;
      encrypted = get_or false raw.encrypted;
      reliability = get_or unreliable raw.reliability;
      retention = get_or discard raw.retention;
      expiry = get_or (pos 0) raw.expiry;
      database_retention_policy = policy;
      database_retention_ttl = kept.0;
      explicit_timestamp = get_or false raw.explicit_timestamp;
    },
    kept.1,
  )

unfoldable pub typed_mapping :
    InterfaceType
    → RawMapping
    → Mapping
    → ℕ
    → List Violation
    → Result BuildError (Mapping × List Violation)
typed_mapping properties raw m index vc = do m' ← properties_mapping raw m; ok (m', vc)
typed_mapping datastream raw m index vc = datastream_mapping raw m index vc

-- The length bounds of a mapping.
unfoldable pub mapping_lengths : RawMapping → ℕ → List Violation → List Violation
mapping_lengths raw index vc =
    check_length "doc" (some index) raw.doc max_doc_length
      (check_length "description" (some index) raw.description max_description_length vc)

-- `buildMapping`.
unfoldable pub build_mapping :
    RawMapping → InterfaceType → ℕ → List Violation → Result BuildError Built
build_mapping raw iface_type index vc = do
  endpoint ← required_field raw.endpoint missing_endpoint
  type ← required_field raw.type missing_mapping_type
  segs ← segments_of endpoint
  r ←
      typed_mapping iface_type raw (base_mapping endpoint type raw) index
        (mapping_lengths raw index vc)
  ok (record { mapping = r.0; segments = segs; violations = r.1 })
