-- ===== src/Schema/Build/Object.antt =====
-- pkg/interfaceschema/parse.go: `checkObjectAggregation` and `sameObjectAttributes`.
pub mod Shape
use astrate.Base.{
  ◌>>◌, Bool, true, false, ◌&&◌, not, List, [], ◌∷◌, ◌==◌, length, Result, ok, err, ◌>>◌, reject_if,
  eq_ℤ,
}
use astrate.Schema.Types.{
  Reliability, unreliable, guaranteed, unique, Retention, discard, volatile, stored,
  DatabaseRetentionPolicy, no_ttl, use_ttl,
}
use astrate.Schema.Definition.{Mapping}
use astrate.Schema.Endpoint.{Segment, eq_segment}
use astrate.Schema.Unique.{Parsed, same_bool}
use astrate.Schema.Build.Raw.{
  Attribute, BuildError, different_depth, different_prefix, parametric_object_leaf, no_endpoints,
  different_attribute,
}

abbrev pub same_reliability : Reliability → Reliability → Bool
same_reliability unreliable unreliable = true
same_reliability guaranteed guaranteed = true
same_reliability unique unique = true
same_reliability _ _ = false

abbrev pub same_retention : Retention → Retention → Bool
same_retention discard discard = true
same_retention volatile volatile = true
same_retention stored stored = true
same_retention _ _ = false

abbrev pub same_policy : DatabaseRetentionPolicy → DatabaseRetentionPolicy → Bool
same_policy no_ttl no_ttl = true
same_policy use_ttl use_ttl = true
same_policy _ _ = false

-- `sameObjectAttributes`.
unfoldable pub same_object_attributes : Mapping → Mapping → Result BuildError (Unit {0})
same_object_attributes ref m = do
  reject_if (not (same_reliability m.reliability ref.reliability))
      (different_attribute Attribute.reliability)
  reject_if (not (same_retention m.retention ref.retention))
      (different_attribute Attribute.retention)
  reject_if (not (eq_ℤ m.expiry ref.expiry)) (different_attribute Attribute.expiry)
  reject_if (not (same_bool m.explicit_timestamp ref.explicit_timestamp))
      (different_attribute Attribute.explicit_timestamp)
  reject_if (not (same_policy m.database_retention_policy ref.database_retention_policy))
      (different_attribute Attribute.database_retention_policy)
  reject_if (not (eq_ℤ m.database_retention_ttl ref.database_retention_ttl))
      (different_attribute Attribute.database_retention_ttl)

-- segs[k] == first[k] for every k below len(segs)-1; the depths are equal.
unfoldable pub same_prefix : List Segment → List Segment → Bool
same_prefix (a ∷ b ∷ segs) (c ∷ first) = eq_segment a c && same_prefix (b ∷ segs) first
same_prefix _ _ = true

-- segs[len(segs)-1].param
unfoldable pub last_param : List Segment → Bool
last_param [] = false
last_param (a ∷ []) = a.param
last_param (a ∷ b ∷ segs) = last_param (b ∷ segs)

-- One round of the loop.
unfoldable pub check_object_row : Parsed → Parsed → Result BuildError (Unit {0})
check_object_row ref p = do
  reject_if (not (length p.1 == length ref.1)) different_depth
  reject_if (not (same_prefix p.1 ref.1)) different_prefix
  reject_if (last_param p.1) parametric_object_leaf
  same_object_attributes ref.0 p.0

unfoldable pub check_object_rows : Parsed → List Parsed → Result BuildError (Unit {0})
check_object_rows ref [] = ok tt
check_object_rows ref (p ∷ ps) = check_object_row ref p >> check_object_rows ref ps

-- `checkObjectAggregation`. On no endpoints the source would index out of range.
unfoldable pub check_object_aggregation : List Parsed → Result BuildError (Unit {0})
check_object_aggregation [] = err no_endpoints
check_object_aggregation (p ∷ ps) = check_object_rows p (p ∷ ps)
