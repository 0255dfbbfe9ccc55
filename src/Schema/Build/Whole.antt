-- ===== src/Schema/Build/Whole.antt =====
-- pkg/interfaceschema/parse.go: `buildInterface`. The document is normalised on the way, so a success
-- returns it too: `ParseInterfaceCanonical` encodes it again where an alias was consumed.
pub mod Loop
pub mod Header
pub mod Name
pub mod Rules
pub mod Served
use astrate.Base.{
  ◌>>=◌, ◌>>◌, ℕ, suc, ◌+◌, ◌-◌, ◌*◌, String, Bool, true, false, ◌&&◌, ◌||◌, not, Option, none,
  some, List, [], ◌∷◌, ◌++◌, map, ltb, leb, ◌==◌, if◌then◌else◌, length, all, is_empty, take,
  Result, ok, err, reject_if, Bytes, split_on, ℤ, pos, ltb_ℤ, eq_ℤ,
}
use astrate.Schema.Types.{InterfaceType, datastream, properties, Aggregation, individual, object}
use astrate.Schema.Definition.{Mapping, Interface}
use astrate.Schema.Unique.{Parsed, check_endpoint_uniqueness}
use astrate.Schema.Build.Raw.{
  RawMapping, RawInterface, Violation, mutually_exclusive, BuildError, missing_interface_name,
  missing_version_major, missing_version_minor, missing_type, missing_ownership, name_too_long,
  invalid_name, negative_major, negative_minor, zero_version, object_properties, no_mappings,
  too_many_mappings, violations, not_unique, is_some, get_or, required_field,
  max_description_length, max_doc_length, max_name_length, max_mappings, check_length,
}
use astrate.Schema.Build.Mapping.{build_mapping}
use astrate.Schema.Build.Object.{check_object_aggregation}

abbrev pub exclusive : String → Violation
exclusive field = record { field = field; message = mutually_exclusive; mapping_index = none }

-- The legacy alias "quality" of ownership.
unfoldable pub take_quality : RawInterface → List Violation → RawInterface × List Violation
take_quality raw vc = elim raw.quality [
  | none ↦ (raw, vc)
  | some q ↦
      if is_some raw.ownership
      then (record raw { aliases = true; quality = none }, vc ++ exclusive "ownership" ∷ [])
      else (record raw { aliases = true; quality = none; ownership = some q }, vc)
]

abbrev pub aggregation_of : Bool → Aggregation
aggregation_of aggregate = if aggregate then object else individual

-- The legacy alias "aggregate" of aggregation.
unfoldable pub take_aggregate : RawInterface → List Violation → RawInterface × List Violation
take_aggregate raw vc = elim raw.aggregate [
  | none ↦ (raw, vc)
  | some a ↦
      if is_some raw.aggregation
      then (record raw { aliases = true; aggregate = none }, vc ++ exclusive "aggregation" ∷ [])
      else (
        record raw { aliases = true; aggregate = none; aggregation = some (aggregation_of a) },
        vc,
      )
]

abbrev between_byte : ℕ → ℕ → ℕ → Bool
between_byte lo hi c = leb lo c && leb c hi

-- [a-zA-Z], [a-zA-Z0-9] and [a-zA-Z0-9-].
unfoldable pub alpha : ℕ → Bool
alpha c = between_byte b'a' b'z' c || between_byte b'A' b'Z' c

unfoldable pub alnum : ℕ → Bool
unfolding alpha
alnum c = alpha c || between_byte b'0' b'9' c

unfoldable pub alnum_dash : ℕ → Bool
unfolding alnum
alnum_dash c = alnum c || (c == b'-')

-- [a-zA-Z][a-zA-Z0-9]* and [a-zA-Z0-9][a-zA-Z0-9-]*.
unfoldable pub end_label : Bytes → Bool
unfolding alnum
end_label [] = false
end_label (c ∷ s) = alpha c && all alnum s

unfoldable pub middle_label : Bytes → Bool
unfolding alnum_dash
middle_label [] = false
middle_label (c ∷ s) = alnum c && all alnum_dash s

unfoldable pub later_labels : List Bytes → Bool
unfolding end_label middle_label
later_labels [] = false
later_labels (l ∷ []) = end_label l
later_labels (l ∷ k ∷ ls) = middle_label l && later_labels (k ∷ ls)

unfoldable pub labels_ok : List Bytes → Bool
unfolding later_labels
labels_ok [] = false
labels_ok (l ∷ []) = end_label l
labels_ok (l ∷ k ∷ ls) = end_label l && later_labels (k ∷ ls)

-- `interfaceNameRe`, over the labels between the dots.
unfoldable pub interface_name_ok : Bytes → Bool
unfolding labels_ok split_on
interface_name_ok name = labels_ok (split_on b'.' name)

-- The legacy alias "path" of a mapping's endpoint; the flag says whether it was there.
unfoldable pub take_path : RawMapping → RawMapping × Bool
take_path raw = elim raw.path [
  | none ↦ (raw, false)
  | some p ↦ (record raw { path = none; endpoint = some (get_or p raw.endpoint) }, true)
]

-- What the loop over the mappings collects.
pub record Collected : Type 0 where
  pub raws : List RawMapping
  pub pairs : List Parsed
  pub violations : List Violation
  pub aliases : Bool

-- The loop over the mappings, from index `i`.
unfoldable pub build_mappings :
    InterfaceType → ℕ → List RawMapping → List Violation → Result BuildError Collected
build_mappings type i [] vc =
    ok (record { raws = []; pairs = []; violations = vc; aliases = false })
build_mappings type i (raw ∷ raws) vc = do
  let taken = take_path raw
  b ← build_mapping taken.0 type i vc
  rest ← build_mappings type (suc i) raws b.violations
  ok (record {
    raws = taken.0 ∷ rest.raws;
    pairs = (b.mapping, b.segments) ∷ rest.pairs;
    violations = rest.violations;
    aliases = taken.1 || rest.aliases;
  })

abbrev pub is_object : Aggregation → Bool
is_object object = true
is_object individual = false

abbrev pub is_properties : InterfaceType → Bool
is_properties properties = true
is_properties datastream = false

abbrev pub unique_or_fail : List Parsed → Result BuildError (Unit {0})
unique_or_fail pairs = elim (check_endpoint_uniqueness pairs) [
  | ok u ↦ ok tt
  | err e ↦ err (not_unique e)
]

abbrev pub check_if : Bool → Result BuildError (Unit {0}) → Result BuildError (Unit {0})
check_if b r = if b then r else ok tt

-- The checks behind the loop: violations, unique endpoints, the shape of an object.
unfoldable pub final_checks : Aggregation → Collected → ℕ → Result BuildError (Unit {0})
final_checks aggregation c count = do
  reject_if (not (is_empty c.violations)) (violations c.violations count)
  unique_or_fail c.pairs
  check_if (is_object aggregation) (check_object_aggregation c.pairs)

-- The checks of the header, in the source's order.
unfoldable pub check_header :
    Bytes → ℤ → ℤ → InterfaceType → Aggregation → List RawMapping → Result BuildError (Unit {0})
check_header name major minor type aggregation mappings = do
  reject_if (ltb max_name_length (length name)) name_too_long
  reject_if (not (interface_name_ok name)) invalid_name
  reject_if (ltb_ℤ major (pos 0)) negative_major
  reject_if (ltb_ℤ minor (pos 0)) negative_minor
  reject_if (eq_ℤ major (pos 0) && eq_ℤ minor (pos 0)) zero_version
  reject_if (is_properties type && is_object aggregation) object_properties
  reject_if (is_empty mappings) no_mappings
  reject_if (ltb max_mappings (length mappings)) too_many_mappings

-- The length bounds of the interface's own texts.
unfoldable pub interface_lengths : RawInterface → List Violation → List Violation
interface_lengths raw vc =
    check_length "doc" none raw.doc max_doc_length
      (check_length "description" none raw.description max_description_length vc)

-- The interface from a normalised document, with the violations found so far.
unfoldable pub build_normalized :
    RawInterface → List Violation → Result BuildError (Interface × RawInterface)
build_normalized raw vc = do
  name ← required_field raw.interface_name missing_interface_name
  major ← required_field raw.version_major missing_version_major
  minor ← required_field raw.version_minor missing_version_minor
  type ← required_field raw.type missing_type
  ownership ← required_field raw.ownership missing_ownership
  let aggregation = get_or individual raw.aggregation
  check_header name major minor type aggregation raw.mappings
  c ← build_mappings type 0 raw.mappings (interface_lengths raw vc)
  final_checks aggregation c (length raw.mappings)
  ok (
    record {
      name = name;
      major = major;
      minor = minor;
      type = type;
      ownership = ownership;
      aggregation = aggregation;
      description = raw.description;
      doc = raw.doc;
      mappings = map (λ p. p.0) c.pairs;
    },
    record raw { mappings = c.raws; aliases = raw.aliases || c.aliases },
  )

-- `buildInterface`.
unfoldable pub build_interface : RawInterface → Result BuildError (Interface × RawInterface)
build_interface raw =
    let q = take_quality raw [] in let a = take_aggregate q.0 q.1 in build_normalized a.0 a.1

-- The codec of encoding/json: the strict decoder, which also refuses trailing data, and the encoder.
pub record Codec : Type 0 where
  pub decode : Bytes → Option RawInterface
  pub encode : RawInterface → Option Bytes

pub data ParseError : Type 0 where
  not_decoded not_encoded : ParseError
  not_built : BuildError → ParseError

-- The canonical re-encoding, if an alias was consumed; the encoder ends it with a newline.
unfoldable pub canonical : Codec → RawInterface → Result ParseError (Option Bytes)
canonical codec raw =
    if raw.aliases
    then elim (codec.encode raw) [
      | none ↦ err not_encoded
      | some text ↦ ok (some (take (length text - 1) text))
    ]
    else ok none

abbrev pub built_or_fail :
    Result BuildError (Interface × RawInterface) → Result ParseError (Interface × RawInterface)
built_or_fail (ok r) = ok r
built_or_fail (err e) = err (not_built e)

-- `ParseInterfaceCanonical`.
unfoldable pub parse_interface_canonical :
    Codec → Bytes → Result ParseError (Interface × Option Bytes)
parse_interface_canonical codec text = elim (codec.decode text) [
  | none ↦ err not_decoded
  | some raw ↦ do
    built ← built_or_fail (build_interface raw)
    canon ← canonical codec built.1
    ok (built.0, canon)
]

-- `ParseInterface`.
unfoldable pub parse_interface : Codec → Bytes → Result ParseError Interface
parse_interface codec text = do r ← parse_interface_canonical codec text; ok r.0
