-- ===== src/Schema/Upgrade/Attributes.antt =====
-- What `sameMappingAttributes` and the tests of equality compare.
use astrate.Base.{
  ◌≡◌, refl, sym, ap, ◌∙◌, Bool, true, false, not, some, arith, ◌==◌, ==_iff, ok, ◌>>◌, reject_if,
  ℤ, pos, negsuc, eq_ℤ,
}
use astrate.Schema.Types.{
  InterfaceType, Ownership, Aggregation, Reliability, unreliable, guaranteed, unique, Retention,
  discard, volatile, stored, DatabaseRetentionPolicy, no_ttl, use_ttl, ValueType, code_value_type,
  of_code,
}
use astrate.Schema.Definition.{Mapping}
use astrate.Schema.Unique.{same_bool}
use astrate.Schema.Build.Object.{same_reliability, same_retention, same_policy}
use astrate.Schema.Upgrade.{
  UpgradeError, same_mapping_attributes, same_type, same_ownership, same_aggregation,
}

-- The two mappings have the same attributes; the texts and the endpoint may differ.
pub record SameAttributes (om nm : Mapping) : Type 0 where
  pub type : nm.type ≡ om.type
  pub reliability : nm.reliability ≡ om.reliability
  pub retention : nm.retention ≡ om.retention
  pub expiry : nm.expiry ≡ om.expiry
  pub database_retention_policy : nm.database_retention_policy ≡ om.database_retention_policy
  pub database_retention_ttl : nm.database_retention_ttl ≡ om.database_retention_ttl
  pub allow_unset : nm.allow_unset ≡ om.allow_unset
  pub explicit_timestamp : nm.explicit_timestamp ≡ om.explicit_timestamp
  pub required : nm.required ≡ om.required
  pub encrypted : nm.encrypted ≡ om.encrypted

code_value_type-of_code : (v : ValueType) → of_code (code_value_type v) ≡ some v
unfolding of_code code_value_type
code_value_type-of_code ValueType.double = refl
code_value_type-of_code _ = refl

pub some_injective : {A : Type 0} {a b : A} → some a ≡ some b → a ≡ b
some_injective h = cc

same_value_type_lem : (a b : ValueType) → (code_value_type a == code_value_type b) ≡ true → a ≡ b
same_value_type_lem a b h =
    let e : code_value_type a ≡ code_value_type b = (==_iff _ _).0 h in
    some_injective (sym (code_value_type-of_code a) ∙ ap of_code e ∙ code_value_type-of_code b)

pub same_reliability_lem : (a b : Reliability) → same_reliability a b ≡ true → a ≡ b
same_reliability_lem unreliable b h = ground arith
same_reliability_lem guaranteed b h = ground arith
same_reliability_lem unique b h = ground arith

pub same_retention_lem : (a b : Retention) → same_retention a b ≡ true → a ≡ b
same_retention_lem discard b h = ground arith
same_retention_lem volatile b h = ground arith
same_retention_lem stored b h = ground arith

pub same_policy_lem : (a b : DatabaseRetentionPolicy) → same_policy a b ≡ true → a ≡ b
same_policy_lem no_ttl b h = ground arith
same_policy_lem use_ttl b h = ground arith

pub same_bool_lem : (a b : Bool) → same_bool a b ≡ true → a ≡ b
same_bool_lem a b h = ground arith

pub eq_ℤ_lem : (a b : ℤ) → eq_ℤ a b ≡ true → a ≡ b
eq_ℤ_lem (pos a) (pos b) h = ap pos ((==_iff a b).0 h)
eq_ℤ_lem (negsuc a) (negsuc b) h = ap negsuc ((==_iff a b).0 h)
eq_ℤ_lem (pos a) (negsuc b) h = cc
eq_ℤ_lem (negsuc a) (pos b) h = cc

pub same_type_lem : (a b : InterfaceType) → same_type a b ≡ true → a ≡ b
same_type_lem a b h = ground arith

pub same_ownership_lem : (a b : Ownership) → same_ownership a b ≡ true → a ≡ b
same_ownership_lem a b h = ground arith

pub same_aggregation_lem : (a b : Aggregation) → same_aggregation a b ≡ true → a ≡ b
same_aggregation_lem a b h = ground arith

-- Guards in a row: all of them hold.
guards10 :
    (b1 b2 b3 b4 b5 b6 b7 b8 b9 b10 : Bool) (x1 x2 x3 x4 x5 x6 x7 x8 x9 x10 : UpgradeError)
    → (reject_if (not b1) x1
        >> (reject_if (not b2) x2
            >> (reject_if (not b3) x3
                >> (reject_if (not b4) x4
                    >> (reject_if (not b5) x5
                        >> (reject_if (not b6) x6
                            >> (reject_if (not b7) x7
                                >> (reject_if (not b8) x8
                                    >> (reject_if (not b9) x9 >> (reject_if (not b10) x10))))))))))
      ≡ ok tt
    → (b1 ≡ true)
      × (b2 ≡ true)
      × (b3 ≡ true)
      × (b4 ≡ true)
      × (b5 ≡ true)
      × (b6 ≡ true)
      × (b7 ≡ true)
      × (b8 ≡ true)
      × (b9 ≡ true)
      × (b10 ≡ true)
guards10 false b2 b3 b4 b5 b6 b7 b8 b9 b10 x1 x2 x3 x4 x5 x6 x7 x8 x9 x10 h = cc
guards10 true false b3 b4 b5 b6 b7 b8 b9 b10 x1 x2 x3 x4 x5 x6 x7 x8 x9 x10 h = cc
guards10 true true false b4 b5 b6 b7 b8 b9 b10 x1 x2 x3 x4 x5 x6 x7 x8 x9 x10 h = cc
guards10 true true true false b5 b6 b7 b8 b9 b10 x1 x2 x3 x4 x5 x6 x7 x8 x9 x10 h = cc
guards10 true true true true false b6 b7 b8 b9 b10 x1 x2 x3 x4 x5 x6 x7 x8 x9 x10 h = cc
guards10 true true true true true false b7 b8 b9 b10 x1 x2 x3 x4 x5 x6 x7 x8 x9 x10 h = cc
guards10 true true true true true true false b8 b9 b10 x1 x2 x3 x4 x5 x6 x7 x8 x9 x10 h = cc
guards10 true true true true true true true false b9 b10 x1 x2 x3 x4 x5 x6 x7 x8 x9 x10 h = cc
guards10 true true true true true true true true false b10 x1 x2 x3 x4 x5 x6 x7 x8 x9 x10 h = cc
guards10 true true true true true true true true true false x1 x2 x3 x4 x5 x6 x7 x8 x9 x10 h = cc
guards10 true true true true true true true true true true x1 x2 x3 x4 x5 x6 x7 x8 x9 x10 h =
    (refl, refl, refl, refl, refl, refl, refl, refl, refl, refl)

pub same_mapping_attributes-SameAttributes :
    (om nm : Mapping) → same_mapping_attributes om nm ≡ ok tt → SameAttributes om nm
unfolding same_mapping_attributes
same_mapping_attributes-SameAttributes om nm h =
    let (g1, g2, g3, g4, g5, g6, g7, g8, g9, g10) =
      guards10 (code_value_type nm.type == code_value_type om.type)
        (same_reliability nm.reliability om.reliability) (same_retention nm.retention om.retention)
        (eq_ℤ nm.expiry om.expiry)
        (same_policy nm.database_retention_policy om.database_retention_policy)
        (eq_ℤ nm.database_retention_ttl om.database_retention_ttl)
        (same_bool nm.allow_unset om.allow_unset)
        (same_bool nm.explicit_timestamp om.explicit_timestamp) (same_bool nm.required om.required)
        (same_bool nm.encrypted om.encrypted) _ _ _ _ _ _ _ _ _ _ h in
    record {
      type = same_value_type_lem _ _ g1;
      reliability = same_reliability_lem _ _ g2;
      retention = same_retention_lem _ _ g3;
      expiry = eq_ℤ_lem _ _ g4;
      database_retention_policy = same_policy_lem _ _ g5;
      database_retention_ttl = eq_ℤ_lem _ _ g6;
      allow_unset = same_bool_lem _ _ g7;
      explicit_timestamp = same_bool_lem _ _ g8;
      required = same_bool_lem _ _ g9;
      encrypted = same_bool_lem _ _ g10;
    }
