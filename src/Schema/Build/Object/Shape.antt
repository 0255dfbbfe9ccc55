-- ===== src/Schema/Build/Object/Shape.antt =====
-- The common shape of the endpoints of an object, which `checkObjectAggregation` asks for.
use astrate.Base.{
  ◌≡◌, refl, Bool, true, false, not, List, [], ◌∷◌, arith, ◌==◌, length, All, ok, reject_if,
  >>-eq-ok,
}
use astrate.Schema.Definition.{Mapping}
use astrate.Schema.Endpoint.{Segment}
use astrate.Schema.Trie.Store.{eq_segment_iff}
use astrate.Schema.Unique.{Parsed}
use astrate.Schema.Upgrade.Attributes.{
  eq_ℤ_lem, same_reliability_lem, same_retention_lem, same_policy_lem, same_bool_lem,
}
use astrate.Schema.Build.Object.{
  same_object_attributes, same_prefix, last_param, check_object_row, check_object_rows,
  check_object_aggregation,
}

-- The endpoints agree in every level but the last, which is not a placeholder in the first of them.
pub data SameButLast : List Segment → List Segment → Type 0 where
  no_levels : SameButLast [] []
  last : {a c : Segment} → a.param ≡ false → SameButLast (a ∷ []) (c ∷ [])
  level :
      {a b c : Segment} {as' cs : List Segment}
      → SameButLast (b ∷ as') (c ∷ cs)
      → SameButLast (a ∷ b ∷ as') (a ∷ c ∷ cs)

-- The attributes that the mappings of an object share.
pub record SameObject (ref m : Mapping) : Type 0 where
  pub reliability : m.reliability ≡ ref.reliability
  pub retention : m.retention ≡ ref.retention
  pub expiry : m.expiry ≡ ref.expiry
  pub explicit_timestamp : m.explicit_timestamp ≡ ref.explicit_timestamp
  pub database_retention_policy : m.database_retention_policy ≡ ref.database_retention_policy
  pub database_retention_ttl : m.database_retention_ttl ≡ ref.database_retention_ttl

-- A mapping fits in an object with the first one.
abbrev pub Joins : Parsed → Parsed → Type 0
Joins ref p = SameButLast p.1 ref.1 × SameObject ref.0 p.0

-- There is a first mapping, and all join it, itself included.
abbrev pub IsObject : List Parsed → Type 0
IsObject [] = ⊥
IsObject (ref ∷ ps) = All (Joins ref) (ref ∷ ps)

SameButLast_lem :
    (as' cs : List Segment)
    → (length as' == length cs) ≡ true
    → same_prefix as' cs ≡ true
    → last_param as' ≡ false
    → SameButLast as' cs
unfolding same_prefix last_param
SameButLast_lem [] [] n p l = no_levels
SameButLast_lem [] (c ∷ cs) n p l = absurd (ground arith)
SameButLast_lem (a ∷ as') [] n p l = absurd (ground arith)
SameButLast_lem (a ∷ []) (c ∷ []) n p l = last l
SameButLast_lem (a ∷ []) (c ∷ d ∷ cs) n p l = absurd (ground arith)
SameButLast_lem (a ∷ b ∷ as') (c ∷ []) n p l = absurd (ground arith)
SameButLast_lem (a ∷ b ∷ as') (c ∷ d ∷ cs) n p l =
    let same : a ≡ c = (eq_segment_iff a c).0 (ground arith) in
    rw same (level (SameButLast_lem (b ∷ as') (d ∷ cs) (ground arith) (ground arith) l))

guard : {E : Type 0} (b : Bool) (x : E) → reject_if (not b) x ≡ ok tt → b ≡ true
guard true x h = refl
guard false x h = cc

same_object_attributes-SameObject :
    (ref m : Mapping) → same_object_attributes ref m ≡ ok tt → SameObject ref m
unfolding same_object_attributes
same_object_attributes-SameObject ref m h =
    let (g1, h1) = >>-eq-ok _ _ h in
    let (g2, h2) = >>-eq-ok _ _ h1 in
    let (g3, h3) = >>-eq-ok _ _ h2 in
    let (g4, h4) = >>-eq-ok _ _ h3 in
    let (g5, g6) = >>-eq-ok _ _ h4 in
    record {
      reliability = same_reliability_lem _ _ (guard _ _ g1);
      retention = same_retention_lem _ _ (guard _ _ g2);
      expiry = eq_ℤ_lem _ _ (guard _ _ g3);
      explicit_timestamp = same_bool_lem _ _ (guard _ _ g4);
      database_retention_policy = same_policy_lem _ _ (guard _ _ g5);
      database_retention_ttl = eq_ℤ_lem _ _ (guard _ _ g6);
    }

unguard : {E : Type 0} (b : Bool) (x : E) → reject_if b x ≡ ok tt → b ≡ false
unguard true x h = cc
unguard false x h = refl

check_object_row-Joins : (ref p : Parsed) → check_object_row ref p ≡ ok tt → Joins ref p
unfolding check_object_row
check_object_row-Joins ref p h =
    let (g1, h1) = >>-eq-ok _ _ h in
    let (g2, h2) = >>-eq-ok _ _ h1 in
    let (g3, g4) = >>-eq-ok _ _ h2 in
    (
      SameButLast_lem p.1 ref.1 (guard _ _ g1) (guard _ _ g2) (unguard _ _ g3),
      same_object_attributes-SameObject ref.0 p.0 g4,
    )

check_object_rows-Joins :
    (ref : Parsed) (ps : List Parsed) → check_object_rows ref ps ≡ ok tt → All (Joins ref) ps
unfolding check_object_rows
check_object_rows-Joins ref [] h = tt
check_object_rows-Joins ref (p ∷ ps) h =
    let (g, rest) = >>-eq-ok (check_object_row ref p) (check_object_rows ref ps) h in
    (check_object_row-Joins ref p g, check_object_rows-Joins ref ps rest)

-- Endpoints that `checkObjectAggregation` accepts have the shape of an object.
pub check_object_aggregation-IsObject :
    (ps : List Parsed) → check_object_aggregation ps ≡ ok tt → IsObject ps
unfolding check_object_aggregation
check_object_aggregation-IsObject [] h = cc
check_object_aggregation-IsObject (p ∷ ps) h = check_object_rows-Joins p (p ∷ ps) h
