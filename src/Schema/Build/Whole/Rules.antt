-- ===== src/Schema/Build/Whole/Rules.antt =====
-- What `buildInterface` promises of an interface.
use astrate.Base.{
  ℕ, ◌≤◌, ◌≡◌, refl, ap, ◌∙◌, inl, inr, true, false, ◌&&◌, none, List, [], ◌∷◌, map, arith,
  Option-cases, length, All, is_empty, ok, Result-cases, Bytes, split_on, pos, ltb_ℤ, eq_ℤ,
}
use astrate.Schema.Types.{InterfaceType, properties, datastream, Aggregation, individual}
use astrate.Schema.Build.Whole.Name.{AreLabels, interface_name_ok-AreLabels}
use astrate.Schema.Definition.{Interface}
use astrate.Schema.Unique.{Parsed, check_endpoint_uniqueness}
use astrate.Schema.Unique.Laws.{NoOverlap, check_endpoint_uniqueness_iff}
use astrate.Schema.Compile.Meaning.{patterns}
use astrate.Schema.Build.Raw.{
  RawInterface, Violation, missing_interface_name, missing_version_major, missing_version_minor,
  missing_type, missing_ownership, get_or, required_field, max_description_length, max_doc_length,
  check_length,
}
use astrate.Schema.Build.Mapping.Rules.{IsMapping, check_length-nil}
use astrate.Schema.Build.Object.Shape.{IsObject, check_object_aggregation-IsObject}
use astrate.Schema.Build.Whole.{
  Collected, build_mappings, is_object, is_properties, final_checks, check_header,
  interface_lengths, build_normalized, build_interface, Codec, parse_interface,
  parse_interface_canonical, canonical,
}
use astrate.Schema.Build.Whole.Loop.{
  build_mappings-IsCollected, patterns-pairs, mappings-pairs, length-mappings,
}
use astrate.Schema.Build.Whole.Header.{check_header-Header}

-- What the rest of the system relies on in an interface: the bounds of its name, version, texts and
-- number of mappings, its mappings' rules, endpoints of which no two overlap, and the shape of an
-- object.
pub record IsInterface (iface : Interface) : Type 0 where
  pub named : AreLabels (split_on b'.' iface.name)
  pub short_name : length iface.name ≤ 128
  pub major : ltb_ℤ iface.major (pos 0) ≡ false
  pub minor : ltb_ℤ iface.minor (pos 0) ≡ false
  pub versioned : (eq_ℤ iface.major (pos 0) && eq_ℤ iface.minor (pos 0)) ≡ false
  pub shape : iface.type ≡ properties → iface.aggregation ≡ individual
  pub some_mapping : 1 ≤ length iface.mappings
  pub few_mappings : length iface.mappings ≤ 1024
  pub short_description : length iface.description ≤ 1000
  pub short_doc : length iface.doc ≤ 100_000
  pub mappings : All (IsMapping iface.type) iface.mappings
  pub patterned : length (patterns iface.mappings) ≡ length iface.mappings
  pub distinct : NoOverlap (patterns iface.mappings)
  pub object : iface.aggregation ≡ Aggregation.object → IsObject (patterns iface.mappings)

no_object_properties :
    (type : InterfaceType) (aggregation : Aggregation)
    → (is_properties type && is_object aggregation) ≡ false
    → type ≡ properties
    → aggregation ≡ individual
no_object_properties type individual h e = refl
no_object_properties datastream Aggregation.object h e = cc
no_object_properties properties Aggregation.object h e = cc

record Final (aggregation : Aggregation) (c : Collected) : Type 0 where
  clean : c.violations ≡ []
  distinct : NoOverlap c.pairs
  object : aggregation ≡ Aggregation.object → IsObject c.pairs

is_empty-nil : {A : Type 0} (xs : List A) → is_empty xs ≡ true → xs ≡ []
is_empty-nil [] h = refl
is_empty-nil (x ∷ xs) h = cc

final_checks-Final :
    (aggregation : Aggregation) (c : Collected) (n : ℕ)
    → final_checks aggregation c n ≡ ok tt
    → Final aggregation c
unfolding final_checks
final_checks-Final aggregation c n h = elim (Result-cases (check_endpoint_uniqueness c.pairs)) [
  | inr (x, bad) ↦ absurd (ground arith)
  | inl (tt, good) ↦ record {
    clean = is_empty-nil c.violations (ground arith);
    distinct = (check_endpoint_uniqueness_iff c.pairs).0 good;
    object = λ o.
        let is : is_object aggregation ≡ true = rw o refl in
        check_object_aggregation-IsObject c.pairs (ground arith);
  }
]

-- The interface that a successful run returns.
record Run (raw : RawInterface) (vc : List Violation) (iface : Interface) (c : Collected)
    : Type 0 where
  header :
      check_header iface.name iface.major iface.minor iface.type iface.aggregation raw.mappings
      ≡ ok tt
  looped : build_mappings iface.type 0 raw.mappings (interface_lengths raw vc) ≡ ok c
  final : final_checks iface.aggregation c (length raw.mappings) ≡ ok tt
  description : iface.description ≡ raw.description
  doc : iface.doc ≡ raw.doc
  mappings : iface.mappings ≡ map (λ (p : Parsed). p.0) c.pairs

build_normalized-Run :
    (raw : RawInterface) (vc : List Violation) (iface : Interface) (raw' : RawInterface)
    → build_normalized raw vc ≡ ok (iface, raw')
    → (c : Collected) × Run raw vc iface c
unfolding build_normalized
build_normalized-Run raw vc iface raw' h =
    elim (Result-cases (required_field raw.interface_name missing_interface_name)) [
      | inr (x, bad) ↦ absurd (ground arith)
      | inl (name, n) ↦
          elim (Result-cases (required_field raw.version_major missing_version_major)) [
            | inr (x, bad) ↦ absurd (ground arith)
            | inl (major, ma) ↦
                elim (Result-cases (required_field raw.version_minor missing_version_minor)) [
                  | inr (x, bad) ↦ absurd (ground arith)
                  | inl (minor, mi) ↦ elim (Result-cases (required_field raw.type missing_type)) [
                    | inr (x, bad) ↦ absurd (ground arith)
                    | inl (type, t) ↦
                        elim (Result-cases (required_field raw.ownership missing_ownership)) [
                          | inr (x, bad) ↦ absurd (ground arith)
                          | inl (owner, o) ↦
                              elim (Result-cases (
                                check_header name major minor type
                                  (get_or individual raw.aggregation) raw.mappings)) [
                                    | inr (x, bad) ↦ absurd (ground arith)
                                    | inl (tt, header) ↦
                                        elim (Result-cases (
                                          build_mappings type 0 raw.mappings
                                            (interface_lengths raw vc))) [
                                              | inr (x, bad) ↦ absurd (ground arith)
                                              | inl (c, looped) ↦
                                                  elim (Result-cases (
                                                    final_checks (get_or individual raw.aggregation)
                                                      c (length raw.mappings))) [
                                                        | inr (x, bad) ↦ absurd (ground arith)
                                                        | inl (tt, final) ↦
                                                            let is : iface ≡ record {
                                                            name = name;
                                                            major = major;
                                                            minor = minor;
                                                            type = type;
                                                            ownership = owner;
                                                            aggregation =
                                                            get_or individual raw.aggregation;
                                                            description = raw.description;
                                                            doc = raw.doc;
                                                            mappings =
                                                            map (λ (p : Parsed). p.0) c.pairs;
                                                            } =
                                                            ground arith in
                                                            rw is (
                                                            c,
                                                            record {
                                                            header = header;
                                                            looped = looped;
                                                            final = final;
                                                            description = refl;
                                                            doc = refl;
                                                            mappings = refl;
                                                            },
                                                            )
                                                      ]
                                            ]
                                  ]
                        ]
                  ]
                ]
          ]
    ]

-- The interface that a run without violations returns.
Run-IsInterface :
    (raw : RawInterface) (vc : List Violation) (iface : Interface) (c : Collected)
    → Run raw vc iface c
    → IsInterface iface
unfolding interface_lengths
Run-IsInterface raw vc iface c run =
    let final = final_checks-Final iface.aggregation c (length raw.mappings) run.final in
    let (loop, none_before) =
      build_mappings-IsCollected iface.type 0 raw.mappings (interface_lengths raw vc) c run.looped
        final.clean in
    let (doc, nil) =
      check_length-nil "doc" none raw.doc max_doc_length
        (check_length "description" none raw.description max_description_length vc) none_before in
    let (description, nil') =
      check_length-nil "description" none raw.description max_description_length vc nil in
    let header =
      check_header-Header iface.name iface.major iface.minor iface.type iface.aggregation
        raw.mappings run.header in
    let pairs = patterns-pairs iface.type c.pairs loop.pairs in
    let counted : length iface.mappings ≡ length raw.mappings =
      ap length run.mappings ∙ length-mappings c.pairs ∙ loop.count in
    let parsed : patterns iface.mappings ≡ c.pairs = ap patterns run.mappings ∙ pairs in
    record {
      named = interface_name_ok-AreLabels iface.name header.named;
      short_name = header.short_name;
      major = header.major;
      minor = header.minor;
      versioned = header.versioned;
      shape = no_object_properties iface.type iface.aggregation header.shape;
      some_mapping = rw counted header.some_mapping;
      few_mappings = rw counted header.few_mappings;
      short_description = rw run.description description;
      short_doc = rw run.doc doc;
      mappings = rw run.mappings (mappings-pairs iface.type c.pairs loop.pairs);
      patterned = rw (parsed, counted) loop.count;
      distinct = rw parsed final.distinct;
      object = rw parsed final.object;
    }

pub build_interface-IsInterface :
    (raw raw' : RawInterface) (iface : Interface)
    → build_interface raw ≡ ok (iface, raw')
    → IsInterface iface
unfolding build_interface
build_interface-IsInterface raw raw' iface h =
    let (c, run) = build_normalized-Run _ _ iface raw' h in Run-IsInterface _ _ iface c run

-- Whatever the decoder gives, an interface that `ParseInterface` returns has a name of at most 128
-- bytes whose labels between the dots are letters and digits behind a letter, those between the
-- first and the last also with hyphens and behind a digit, a version that is not negative and not
-- 0.0, 1 to 1024 mappings, texts within their bounds, only mappings that obey the rules of its
-- type, endpoints that parse and of which no two overlap, no object aggregation of properties, and,
-- if it aggregates objects, endpoints that agree in every level but the last, which is no
-- placeholder, and mappings with the same reliability, retention, expiry, explicit_timestamp and
-- database retention.
pub parse_interface-IsInterface :
    (codec : Codec) (text : Bytes) (iface : Interface)
    → parse_interface codec text ≡ ok iface
    → IsInterface iface
unfolding parse_interface parse_interface_canonical canonical
parse_interface-IsInterface codec text iface h = elim (Option-cases (codec.decode text)) [
  | inl none_left ↦ absurd (ground arith)
  | inr (raw, decoded) ↦ elim (Result-cases (build_interface raw)) [
    | inr (x, bad) ↦ absurd (ground arith)
    | inl ((iface', raw'), built) ↦
        let is : iface ≡ iface' = ground arith in
        rw is (build_interface-IsInterface raw raw' iface' built)
  ]
]
