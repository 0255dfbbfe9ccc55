-- ===== src/Schema/Upgrade.antt =====
-- pkg/interfaceschema/compat.go: `CheckMinorUpgrade`. A nil interface is `none`.
pub mod Attributes
pub mod Endpoints
pub mod Laws
use astrate.Base.{
  ◌>>=◌, ◌>>◌, ◌-◌, ◌*◌, Bool, true, false, not, Option, none, some, List, [], ◌∷◌, map, ◌==◌,
  if◌then◌else◌, Result, ok, err, ◌>>◌, reject_if, Bytes, eq_bytes, ltb_ℤ, eq_ℤ,
}
use astrate.Schema.Types.{
  InterfaceType, datastream, properties, Ownership, Aggregation, individual, object,
  code_value_type,
}
use astrate.Schema.Definition.{Mapping, Interface}
use astrate.Schema.Endpoint.{EndpointError, split_endpoint, normalize_endpoint}
use astrate.Schema.Unique.{same_bool}
use astrate.Schema.Build.Raw.{Attribute}
use astrate.Schema.Build.Object.{same_reliability, same_retention, same_policy}

-- Every one wraps `ErrIncompatibleUpgrade`; the sentinels tell `minor_not_increased`,
-- `downgrade_not_allowed`, `missing_endpoints` and `incompatible_endpoint_change` apart.
pub data UpgradeError : Type 0 where
  nil_interface name_changed major_changed minor_not_increased downgrade_not_allowed : UpgradeError
  type_changed ownership_changed aggregation_changed : UpgradeError
  bad_key : EndpointError → UpgradeError
  missing_endpoints : Bytes → UpgradeError
  incompatible_endpoint_change : Bytes → Attribute → UpgradeError

-- `sameMappingAttributes`: the first case of the switch that holds.
unfoldable pub same_mapping_attributes : Mapping → Mapping → Result UpgradeError (Unit {0})
same_mapping_attributes om nm = do
  let changed = incompatible_endpoint_change om.endpoint
  reject_if (not (code_value_type nm.type == code_value_type om.type)) (changed Attribute.type)
  reject_if (not (same_reliability nm.reliability om.reliability)) (changed Attribute.reliability)
  reject_if (not (same_retention nm.retention om.retention)) (changed Attribute.retention)
  reject_if (not (eq_ℤ nm.expiry om.expiry)) (changed Attribute.expiry)
  reject_if (not (same_policy nm.database_retention_policy om.database_retention_policy))
      (changed Attribute.database_retention_policy)
  reject_if (not (eq_ℤ nm.database_retention_ttl om.database_retention_ttl))
      (changed Attribute.database_retention_ttl)
  reject_if (not (same_bool nm.allow_unset om.allow_unset)) (changed Attribute.allow_unset)
  reject_if (not (same_bool nm.explicit_timestamp om.explicit_timestamp))
      (changed Attribute.explicit_timestamp)
  reject_if (not (same_bool nm.required om.required)) (changed Attribute.required)
  reject_if (not (same_bool nm.encrypted om.encrypted)) (changed Attribute.encrypted)

-- `normalizedKey`.
unfoldable pub normalized_key : Bytes → Result UpgradeError Bytes
normalized_key endpoint = elim (split_endpoint endpoint) [
  | ok segs ↦ ok (normalize_endpoint segs)
  | err e ↦ err (bad_key e)
]

-- map[string]*Mapping, as its lookups.
abbrev pub ByEndpoint : Type 0
ByEndpoint = Bytes → Option Mapping

-- nextByEndpoint[key] = m
unfoldable pub put : Bytes → Mapping → ByEndpoint → ByEndpoint
put key m found k = if eq_bytes k key then some m else found k

-- The loop that fills `nextByEndpoint`.
unfoldable pub index_mappings : List Mapping → ByEndpoint → Result UpgradeError ByEndpoint
index_mappings [] found = ok found
index_mappings (m ∷ ms) found = do
  key ← normalized_key m.endpoint
  index_mappings ms (put key m found)

-- One round of the loop over the old mappings.
unfoldable pub check_kept : ByEndpoint → Mapping → Result UpgradeError (Unit {0})
check_kept found om = do
  key ← normalized_key om.endpoint
  elim (found key) [
    | none ↦ err (missing_endpoints om.endpoint)
    | some nm ↦ same_mapping_attributes om nm
  ]

unfoldable pub check_all_kept : ByEndpoint → List Mapping → Result UpgradeError (Unit {0})
check_all_kept found [] = ok tt
check_all_kept found (om ∷ oms) = check_kept found om >> check_all_kept found oms

abbrev pub same_type : InterfaceType → InterfaceType → Bool
same_type datastream datastream = true
same_type properties properties = true
same_type _ _ = false

abbrev pub same_ownership : Ownership → Ownership → Bool
same_ownership Ownership.device Ownership.device = true
same_ownership Ownership.server Ownership.server = true
same_ownership _ _ = false

abbrev pub same_aggregation : Aggregation → Aggregation → Bool
same_aggregation individual individual = true
same_aggregation object object = true
same_aggregation _ _ = false

-- The checks before the mappings.
unfoldable pub check_same_header : Interface → Interface → Result UpgradeError (Unit {0})
check_same_header old next = do
  reject_if (not (eq_bytes next.name old.name)) name_changed
  reject_if (not (eq_ℤ next.major old.major)) major_changed
  reject_if (eq_ℤ next.minor old.minor) minor_not_increased
  reject_if (ltb_ℤ next.minor old.minor) downgrade_not_allowed
  reject_if (not (same_type next.type old.type)) type_changed
  reject_if (not (same_ownership next.ownership old.ownership)) ownership_changed
  reject_if (not (same_aggregation next.aggregation old.aggregation)) aggregation_changed

-- `CheckMinorUpgrade`.
unfoldable pub check_minor_upgrade :
    Option Interface → Option Interface → Result UpgradeError (Unit {0})
check_minor_upgrade (some old) (some next) = do
  check_same_header old next
  found ← index_mappings next.mappings (λ k. none)
  check_all_kept found old.mappings
check_minor_upgrade _ _ = err nil_interface
