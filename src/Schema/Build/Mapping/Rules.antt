-- ===== src/Schema/Build/Mapping/Rules.antt =====
-- What a mapping without violations satisfies.
use astrate.Base.{
  ℕ, ◌≤◌, ◌<◌, String, ◌≡◌, ap, ◌∙◌, ◌≢◌, inl, inr, false, Option, none, some, List, [], ◌∷◌, ◌++◌,
  arith, ltb, Bool-cases, length, ok, Result-cases, Bytes, ℤ, pos, negsuc, ltb_ℤ,
}
use astrate.Schema.Types.{
  InterfaceType, datastream, properties, unreliable, discard, DatabaseRetentionPolicy, no_ttl,
  use_ttl, ValueType,
}
use astrate.Schema.Definition.{Mapping}
use astrate.Schema.Endpoint.{Segment, split_endpoint}
use astrate.Schema.Build.Raw.{
  RawMapping, Violation, at_least, below, get_or, required_field, max_description_length,
  max_doc_length, min_database_retention_ttl, max_database_retention_ttl, check_length,
  missing_endpoint, missing_mapping_type,
}
use astrate.Schema.Build.Mapping.{
  ttl_violation, Built, segments_of, base_mapping, properties_mapping, retention_ttl,
  datastream_mapping, typed_mapping, mapping_lengths, build_mapping,
}

-- A stored TTL lies in [60, 630720000) under "use_ttl" and is 0 under "no_ttl".
abbrev pub TtlFits : DatabaseRetentionPolicy → ℤ → Type 0
TtlFits no_ttl ttl = ttl ≡ pos 0
TtlFits use_ttl ttl = (n : ℕ) × (ttl ≡ pos n) × (60 ≤ n) × (n < 630_720_000)

-- The attributes of the other interface type have their zero values.
abbrev pub FitsType : InterfaceType → Mapping → Type 0
FitsType properties m =
    (m.reliability ≡ unreliable)
    × (m.retention ≡ discard)
    × (m.expiry ≡ pos 0)
    × (m.explicit_timestamp ≡ false)
    × (m.database_retention_policy ≡ no_ttl)
    × (m.database_retention_ttl ≡ pos 0)
    × (m.required ≡ false)
    × (m.encrypted ≡ false)
FitsType datastream m =
    (m.allow_unset ≡ false)
    × (ltb_ℤ m.expiry (pos 0) ≡ false)
    × TtlFits m.database_retention_policy m.database_retention_ttl

pub record IsMapping (type : InterfaceType) (m : Mapping) : Type 0 where
  pub fits_type : FitsType type m
  pub short_description : length m.description ≤ 1000
  pub short_doc : length m.doc ≤ 100_000

append-ne-nil : {A : Type 0} (xs : List A) (x : A) → xs ++ x ∷ [] ≢ []
append-ne-nil [] x e = cc
append-ne-nil (y ∷ xs) x e = cc

pub check_length-nil :
    (field : String) (index : Option ℕ) (text : Bytes) (bound : ℕ) (vc : List Violation)
    → check_length field index text bound vc ≡ []
    → (length text ≤ bound) × (vc ≡ [])
unfolding check_length
check_length-nil field index text bound vc h = elim (Bool-cases (ltb bound (length text))) [
  | inl e ↦ absurd (append-ne-nil vc _ (rw e at h))
  | inr n ↦ (ground arith, rw n at h)
]

retention_ttl-TtlFits :
    (p : DatabaseRetentionPolicy) (ttl : Option ℤ) (index : ℕ) (vc : List Violation) (t : ℤ)
    (vc' : List Violation)
    → retention_ttl p ttl index vc ≡ ok (t, vc')
    → vc' ≡ []
    → TtlFits p t × (vc ≡ [])
unfolding retention_ttl
retention_ttl-TtlFits no_ttl none index vc t vc' h e = (ground arith, ground arith)
retention_ttl-TtlFits no_ttl (some ttl) index vc t vc' h e = cc
retention_ttl-TtlFits use_ttl none index vc t vc' h e = cc
retention_ttl-TtlFits use_ttl (some (negsuc n)) index vc t vc' h e =
    absurd
      (ground (arith, append-ne-nil vc (ttl_violation (at_least min_database_retention_ttl) index)))
retention_ttl-TtlFits use_ttl (some (pos n)) index vc t vc' h e =
    elim (Bool-cases (ltb n min_database_retention_ttl)) [
      | inl low ↦ absurd (
          ground
            (arith, append-ne-nil vc (ttl_violation (at_least min_database_retention_ttl) index)))
      | inr high ↦ elim (Bool-cases (ltb n max_database_retention_ttl)) [
        | inl fine ↦ ((n, ground arith, ground arith, ground arith), ground arith)
        | inr above ↦ absurd (
            ground
              (arith, append-ne-nil vc (ttl_violation (below max_database_retention_ttl) index)))
      ]
    ]

properties_mapping-FitsType :
    (raw : RawMapping) (endpoint : Bytes) (type : ValueType) (m : Mapping)
    → properties_mapping raw (base_mapping endpoint type raw) ≡ ok m
    → FitsType properties m
unfolding properties_mapping base_mapping
properties_mapping-FitsType raw endpoint type m h = ground arith

datastream_mapping-FitsType :
    (raw : RawMapping) (endpoint : Bytes) (type : ValueType) (index : ℕ) (vc : List Violation)
    (m : Mapping) (vc' : List Violation)
    → datastream_mapping raw (base_mapping endpoint type raw) index vc ≡ ok (m, vc')
    → vc' ≡ []
    → FitsType datastream m × (vc ≡ [])
unfolding datastream_mapping base_mapping
datastream_mapping-FitsType raw endpoint type index vc m vc' h e =
    let policy = get_or no_ttl raw.database_retention_policy in
    elim (Result-cases (retention_ttl policy raw.database_retention_ttl index vc)) [
      | inr (x, bad) ↦ absurd (ground arith)
      | inl ((t, kept), good) ↦
          let same : kept ≡ vc' = ground arith in
          let (fits, clean) =
            retention_ttl-TtlFits policy raw.database_retention_ttl index vc t kept good
              (same ∙ e) in
          let is_policy : m.database_retention_policy ≡ policy = ground arith in
          let is_ttl : m.database_retention_ttl ≡ t = ground arith in
          ((ground arith, ground arith, rw (is_policy, is_ttl) fits), clean)
    ]

typed_mapping-FitsType :
    (itype : InterfaceType) (raw : RawMapping) (endpoint : Bytes) (type : ValueType) (index : ℕ)
    (vc : List Violation) (m : Mapping) (vc' : List Violation)
    → typed_mapping itype raw (base_mapping endpoint type raw) index vc ≡ ok (m, vc')
    → vc' ≡ []
    → FitsType itype m × (vc ≡ [])
unfolding typed_mapping
typed_mapping-FitsType properties raw endpoint type index vc m vc' h e =
    elim (Result-cases (properties_mapping raw (base_mapping endpoint type raw))) [
      | inr (x, bad) ↦ absurd (ground arith)
      | inl (n, good) ↦
          let same : n ≡ m = ground arith in
          (properties_mapping-FitsType raw endpoint type m (good ∙ ap ok same), ground arith)
    ]
typed_mapping-FitsType datastream raw endpoint type index vc m vc' h e =
    datastream_mapping-FitsType raw endpoint type index vc m vc' h e

typed_mapping-texts :
    (itype : InterfaceType) (raw : RawMapping) (endpoint : Bytes) (type : ValueType) (index : ℕ)
    (vc : List Violation) (m : Mapping) (vc' : List Violation)
    → typed_mapping itype raw (base_mapping endpoint type raw) index vc ≡ ok (m, vc')
    → (m.endpoint ≡ endpoint) × (m.description ≡ raw.description) × (m.doc ≡ raw.doc)
unfolding typed_mapping datastream_mapping properties_mapping base_mapping
typed_mapping-texts properties raw endpoint type index vc m vc' h = ground arith
typed_mapping-texts datastream raw endpoint type index vc m vc' h =
    elim (Result-cases (
      retention_ttl (get_or no_ttl raw.database_retention_policy) raw.database_retention_ttl index
        vc)) [ inr (x, bad) ↦ ground arith | inl (kept, good) ↦ ground arith ]

segments_of-ok :
    (endpoint : Bytes) (segs : List Segment)
    → segments_of endpoint ≡ ok segs
    → split_endpoint endpoint ≡ ok segs
segments_of-ok endpoint segs h = elim (Result-cases (split_endpoint endpoint)) [
  | inl (ss, e) ↦ ground arith
  | inr (x, e) ↦ absurd (ground arith)
]

built-IsMapping :
    (itype : InterfaceType) (raw : RawMapping) (endpoint : Bytes) (type : ValueType) (index : ℕ)
    (vc : List Violation) (m : Mapping) (vc' : List Violation) (segs : List Segment)
    → segments_of endpoint ≡ ok segs
    → typed_mapping itype raw (base_mapping endpoint type raw) index (mapping_lengths raw index vc)
      ≡ ok (m, vc')
    → vc' ≡ []
    → IsMapping itype m × (split_endpoint m.endpoint ≡ ok segs) × (vc ≡ [])
unfolding mapping_lengths
built-IsMapping itype raw endpoint type index vc m vc' segs split h e =
    let vc1 = check_length "description" (some index) raw.description max_description_length vc in
    let (fits, clean) = typed_mapping-FitsType itype raw endpoint type index _ m vc' h e in
    let (same, described, documented) =
      typed_mapping-texts itype raw endpoint type index _ m vc' h in
    let (short_doc, clean1) =
      check_length-nil "doc" (some index) raw.doc max_doc_length vc1 clean in
    let (short_description, clean0) =
      check_length-nil "description" (some index) raw.description max_description_length vc
        clean1 in
    (
      record {
        fits_type = fits;
        short_description = rw described short_description;
        short_doc = rw documented short_doc;
      },
      rw same (segments_of-ok endpoint segs split),
      clean0,
    )

-- A mapping that adds no violation is well formed, and its segments are those of its endpoint.
pub build_mapping-IsMapping :
    (raw : RawMapping) (itype : InterfaceType) (index : ℕ) (vc : List Violation) (b : Built)
    → build_mapping raw itype index vc ≡ ok b
    → b.violations ≡ []
    → IsMapping itype b.mapping × (split_endpoint b.mapping.endpoint ≡ ok b.segments) × (vc ≡ [])
unfolding build_mapping
build_mapping-IsMapping raw itype index vc b h e =
    elim (Result-cases (required_field raw.endpoint missing_endpoint)) [
      | inr (x, bad) ↦ absurd (ground arith)
      | inl (endpoint, has_endpoint) ↦
          elim (Result-cases (required_field raw.type missing_mapping_type)) [
            | inr (x, bad) ↦ absurd (ground arith)
            | inl (type, has_type) ↦ elim (Result-cases (segments_of endpoint)) [
              | inr (x, bad) ↦ absurd (ground arith)
              | inl (segs, split) ↦
                  elim (Result-cases (
                    typed_mapping itype raw (base_mapping endpoint type raw) index
                      (mapping_lengths raw index vc))) [
                        | inr (x, bad) ↦ absurd (ground arith)
                        | inl ((m, vc'), typed) ↦
                            let is : b ≡ record { mapping = m; segments = segs; violations = vc' } =
                              ground arith in
                            rw is (
                              built-IsMapping itype raw endpoint type index vc m vc' segs split
                                typed (rw is at e))
                      ]
            ]
          ]
    ]
