-- ===== src/Schema/Upgrade/Laws.antt =====
-- What an accepted minor upgrade keeps.
use astrate.Base.{
  ◌≡◌, refl, sym, ap, ◌∙◌, ◌⊎◌, inl, inr, Bool, true, false, not, none, some, List, [], ◌∷◌, arith,
  Bool-cases, Option-cases, All, Any, Any-map, ok, ◌>>=◌, ◌>>◌, reject_if, Result-cases, >>-eq-ok,
  >>=-eq-ok, ok_injective, Bytes, eq_bytes, eq_bytes_iff, ℤ, pos, negsuc, ltb_ℤ, eq_ℤ,
}
use astrate.Schema.Definition.{Mapping, Interface}
use astrate.Schema.Compile.Laws.{none-some}
use astrate.Schema.Upgrade.Endpoints.{SameEndpoint, normalized_key-SameEndpoint}
use astrate.Schema.Upgrade.{
  UpgradeError, normalized_key, ByEndpoint, put, index_mappings, check_kept, check_all_kept,
  same_type, same_ownership, same_aggregation, check_same_header, check_minor_upgrade,
}
use astrate.Schema.Upgrade.Attributes.{
  SameAttributes, same_mapping_attributes-SameAttributes, some_injective, eq_ℤ_lem, same_type_lem,
  same_ownership_lem, same_aggregation_lem,
}

-- A mapping whose endpoint has the key.
abbrev Keyed : Bytes → Mapping → Mapping → Type 0
Keyed key nm m = (m ≡ nm) × (normalized_key m.endpoint ≡ ok key)

-- What the index answers for a key is a mapping with that key.
index_mappings_sound :
    (ms : List Mapping) (found found' : ByEndpoint) (key : Bytes) (nm : Mapping)
    → index_mappings ms found ≡ ok found'
    → found' key ≡ some nm
    → (found key ≡ some nm) ⊎ Any (Keyed key nm) ms
unfolding index_mappings put
index_mappings_sound [] found found' key nm h e =
    inl (ap (λ (f : ByEndpoint). f key) (ok_injective h) ∙ e)
index_mappings_sound (m ∷ ms) found found' key nm h e =
    elim (Result-cases (normalized_key m.endpoint)) [
      | inr (x, bad) ↦ absurd (ground arith)
      | inl (k, keyed) ↦
          elim (index_mappings_sound ms (put k m found) found' key nm
            (rw (keyed, index_mappings) at h) e) [
              | inr later ↦ inr (inr later)
              | inl now ↦ elim (Bool-cases (eq_bytes key k)) [
                | inl same ↦ inr (
                    inl (
                      some_injective (rw (same, put) at now),
                      keyed ∙ ap ok (sym ((eq_bytes_iff key k).0 same)),
                    ))
                | inr other ↦ inl (rw (other, put) at now)
              ]
            ]
    ]

-- The new mappings have one with the old one's endpoint, up to the names of placeholders, and its
-- attributes.
abbrev pub Kept : List Mapping → Mapping → Type 0
Kept news om = Any (λ nm. SameAttributes om nm × SameEndpoint om.endpoint nm.endpoint) news

check_kept-Kept :
    (news : List Mapping) (found : ByEndpoint) (om : Mapping)
    → index_mappings news (λ k. none) ≡ ok found
    → check_kept found om ≡ ok tt
    → Kept news om
unfolding check_kept
check_kept-Kept news found om indexed h = elim (Result-cases (normalized_key om.endpoint)) [
  | inr (x, bad) ↦ absurd (ground arith)
  | inl (key, keyed) ↦ elim (Option-cases (found key)) [
    | inl e ↦ absurd (ground arith)
    | inr (nm, e) ↦
        let same = same_mapping_attributes-SameAttributes om nm (ground arith) in
        elim (index_mappings_sound news (λ k. none) found key nm indexed e) [
          | inl bad ↦ absurd (none-some refl bad)
          | inr there ↦
              Any-map (Keyed key nm)
                (λ m. SameAttributes om m × SameEndpoint om.endpoint m.endpoint) news
                (λ m k.
                  (rw (k.0) same, normalized_key-SameEndpoint om.endpoint m.endpoint key keyed k.1))
                there
        ]
  ]
]

check_all_kept-Kept :
    (news : List Mapping) (found : ByEndpoint) (oms : List Mapping)
    → index_mappings news (λ k. none) ≡ ok found
    → check_all_kept found oms ≡ ok tt
    → All (Kept news) oms
unfolding check_all_kept
check_all_kept-Kept news found [] indexed h = tt
check_all_kept-Kept news found (om ∷ oms) indexed h =
    let (now, rest) = >>-eq-ok (check_kept found om) (check_all_kept found oms) h in
    (check_kept-Kept news found om indexed now, check_all_kept-Kept news found oms indexed rest)

-- The minor upgrade that the rule allows.
pub record IsUpgrade (old next : Interface) : Type 0 where
  pub name : next.name ≡ old.name
  pub major : next.major ≡ old.major
  pub minor : ltb_ℤ old.minor next.minor ≡ true
  pub type : next.type ≡ old.type
  pub ownership : next.ownership ≡ old.ownership
  pub aggregation : next.aggregation ≡ old.aggregation
  pub kept : All (Kept next.mappings) old.mappings

ltb_ℤ-flip : (a b : ℤ) → eq_ℤ a b ≡ false → ltb_ℤ a b ≡ false → ltb_ℤ b a ≡ true
ltb_ℤ-flip (pos a) (pos b) n l = ground arith
ltb_ℤ-flip (pos a) (negsuc b) n l = ground arith
ltb_ℤ-flip (negsuc a) (pos b) n l = ground arith
ltb_ℤ-flip (negsuc a) (negsuc b) n l = ground arith

guards7 :
    (b1 b2 b3 b4 b5 b6 b7 : Bool) (x1 x2 x3 x4 x5 x6 x7 : UpgradeError)
    → (reject_if b1 x1
        >> (reject_if b2 x2
            >> (reject_if b3 x3
                >> (reject_if b4 x4
                    >> (reject_if b5 x5 >> (reject_if b6 x6 >> (reject_if b7 x7)))))))
      ≡ ok tt
    → (b1 ≡ false)
      × (b2 ≡ false)
      × (b3 ≡ false)
      × (b4 ≡ false)
      × (b5 ≡ false)
      × (b6 ≡ false)
      × (b7 ≡ false)
guards7 true b2 b3 b4 b5 b6 b7 x1 x2 x3 x4 x5 x6 x7 h = cc
guards7 false true b3 b4 b5 b6 b7 x1 x2 x3 x4 x5 x6 x7 h = cc
guards7 false false true b4 b5 b6 b7 x1 x2 x3 x4 x5 x6 x7 h = cc
guards7 false false false true b5 b6 b7 x1 x2 x3 x4 x5 x6 x7 h = cc
guards7 false false false false true b6 b7 x1 x2 x3 x4 x5 x6 x7 h = cc
guards7 false false false false false true b7 x1 x2 x3 x4 x5 x6 x7 h = cc
guards7 false false false false false false true x1 x2 x3 x4 x5 x6 x7 h = cc
guards7 false false false false false false false x1 x2 x3 x4 x5 x6 x7 h =
    (refl, refl, refl, refl, refl, refl, refl)

not-false : (b : Bool) → not b ≡ false → b ≡ true
not-false b h = ground arith

-- If `CheckMinorUpgrade` accepts, the new interface has the old one's name, major version, type,
-- ownership and aggregation, a greater minor version, and for every old mapping a mapping with the
-- same attributes whose endpoint has the same levels, up to the names of placeholders.
pub check_minor_upgrade-IsUpgrade :
    (old next : Interface) → check_minor_upgrade (some old) (some next) ≡ ok tt → IsUpgrade old next
unfolding check_minor_upgrade check_same_header
check_minor_upgrade-IsUpgrade old next h =
    let (header, rest) =
      >>-eq-ok (check_same_header old next)
        (index_mappings next.mappings (λ k. none) >>= λ found. check_all_kept found old.mappings)
        h in
    let (found, indexed, kept) =
      >>=-eq-ok (index_mappings next.mappings (λ k. none))
        (λ found. check_all_kept found old.mappings) rest in
    let (g1, g2, g3, g4, g5, g6, g7) =
      guards7 (not (eq_bytes next.name old.name)) (not (eq_ℤ next.major old.major))
        (eq_ℤ next.minor old.minor) (ltb_ℤ next.minor old.minor)
        (not (same_type next.type old.type)) (not (same_ownership next.ownership old.ownership))
        (not (same_aggregation next.aggregation old.aggregation)) _ _ _ _ _ _ _ header in
    record {
      name = (eq_bytes_iff _ _).0 (not-false _ g1);
      major = eq_ℤ_lem _ _ (not-false _ g2);
      minor = ltb_ℤ-flip next.minor old.minor g3 g4;
      type = same_type_lem _ _ (not-false _ g5);
      ownership = same_ownership_lem _ _ (not-false _ g6);
      aggregation = same_aggregation_lem _ _ (not-false _ g7);
      kept = check_all_kept-Kept next.mappings found old.mappings indexed kept;
    }
