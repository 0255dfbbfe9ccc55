-- ===== src/Schema/Tests.antt =====
-- Sample interfaces, and the theorems of this folder at them.
use astrate.Base.{
  String, ◌≡◌, refl, ◌≢◌, ◌↔◌, true, false, none, some, List, [], ◌∷◌, arith, if◌then◌else◌, All,
  Any, ok, err, codes, eq_bytes, contains_byte, contains_any, cut, split_on, last_byte, pos,
  int64_of, seconds, duration_of_seconds,
}
use astrate.Schema.Types.{
  datastream, Ownership, individual, unreliable, discard, use_ttl, ValueType, qos, code_value_type,
}
use astrate.Schema.Definition.{Mapping, Interface, CompiledMapping}
use astrate.Schema.Endpoint.{
  Segment, parse_segment, split_endpoint, is_letter, is_digit, identifier_from, valid_identifier,
  parse_placeholder, parse_literal, split_loop, normalize_endpoint,
}
use astrate.Schema.Endpoint.Failure.{Rejects, split_endpoint-Rejects_iff}
use astrate.Schema.Endpoint.{EndpointError, out_of_fuel}
use astrate.Schema.Endpoint.Print.{print_endpoint, IsPattern, split_endpoint_iff}
use astrate.Schema.Unique.{Parsed, check_endpoint_uniqueness, compare_levels, check_pair, check_row}
use astrate.Schema.Unique.Laws.{
  NoOverlap, IsShort, check_endpoint_uniqueness_iff, NoCommon,
  check_endpoint_uniqueness-NoCommon_iff,
}
use astrate.Schema.Trie.{
  Node, node, nil, kid, no_param, param, conflicting_placeholder, add, match, lookup_kid, set_kid,
  add_param, add_literal, add_mapping, add_levels,
}
use astrate.Schema.Trie.Store.{stored, eq_segments, stored-add, add-failed}
use astrate.Schema.Trie.Meaning.{fits_all, match_sound_complete}
use astrate.Schema.Compile.{
  CompiledInterface, compile, compile_mapping, endpoint_id, interface_id, add_or_fail, add_leaf,
  compile_mappings, compile_interface,
}
use astrate.Schema.Compile.Laws.{CompilesTo, stored-compile}
use astrate.Schema.Compile.Meaning.{Serves, match-compile_iff}
use astrate.Schema.Build.Raw.{RawMapping, RawInterface, Violation, check_length}
use astrate.Schema.Build.Mapping.{
  Built, build_mapping, base_mapping, retention_ttl, datastream_mapping, typed_mapping,
  mapping_lengths,
}
use astrate.Schema.Build.Mapping.Rules.{IsMapping, build_mapping-IsMapping}
use astrate.Schema.Build.Whole.{
  Codec, parse_interface, take_quality, take_aggregate, alpha, alnum, alnum_dash, end_label,
  middle_label, later_labels, labels_ok, interface_name_ok, take_path, build_mappings, final_checks,
  check_header, interface_lengths, build_normalized, build_interface, canonical,
  parse_interface_canonical,
}
use astrate.Schema.Build.Whole.Rules.{IsInterface, parse_interface-IsInterface}
use astrate.Schema.Build.Whole.Served.{match-compile-parse_interface_iff}
use astrate.Schema.Upgrade.{
  check_minor_upgrade, same_mapping_attributes, normalized_key, put, index_mappings, check_kept,
  check_all_kept, check_same_header,
}
use astrate.Schema.Upgrade.Laws.{IsUpgrade, check_minor_upgrade-IsUpgrade}

abbrev literal : String → Segment
literal s = record { literal = codes s; param = false }

abbrev placeholder : String → Segment
placeholder s = record { literal = codes s; param = true }

abbrev pub sensor_pattern : List Segment
sensor_pattern = literal "sensors" ∷ placeholder "id" ∷ []

abbrev raw_sensor : RawMapping
raw_sensor = record {
  endpoint = some (codes "/sensors/%{id}");
  path = none;
  type = some ValueType.double;
  reliability = none;
  retention = none;
  expiry = some (pos 60);
  database_retention_policy = some use_ttl;
  database_retention_ttl = some (pos 3600);
  allow_unset = none;
  explicit_timestamp = some true;
  required = none;
  encrypted = none;
  description = [];
  doc = [];
}

abbrev pub sensor : Mapping
sensor = record {
  endpoint = codes "/sensors/%{id}";
  type = ValueType.double;
  reliability = unreliable;
  retention = discard;
  expiry = pos 60;
  database_retention_policy = use_ttl;
  database_retention_ttl = pos 3600;
  allow_unset = false;
  explicit_timestamp = true;
  required = false;
  encrypted = false;
  description = [];
  doc = [];
}

abbrev raw_sensors : RawInterface
raw_sensors = record {
  interface_name = some (codes "org.Sensors");
  version_major = some (pos 1);
  version_minor = some (pos 2);
  type = some datastream;
  ownership = none;
  quality = some Ownership.device;
  aggregate = none;
  aggregation = none;
  description = [];
  doc = [];
  mappings = raw_sensor ∷ [];
  aliases = false;
}

abbrev sensors : Interface
sensors = record {
  name = codes "org.Sensors";
  major = pos 1;
  minor = pos 2;
  type = datastream;
  ownership = Ownership.device;
  aggregation = individual;
  description = [];
  doc = [];
  mappings = sensor ∷ [];
}

-- The next minor version: the placeholder has another name, and there is a new mapping.
abbrev next_sensors : Interface
next_sensors = record sensors {
  minor = pos 3;
  mappings =
      record sensor { endpoint = codes "/status"; type = ValueType.boolean }
      ∷ record sensor { endpoint = codes "/sensors/%{name}"; description = codes "d" }
      ∷ [];
}

abbrev pub compiled_sensor : CompiledMapping
compiled_sensor = record {
  endpoint_id = pos 0;
  value_type = ValueType.double;
  reliability = 0;
  retention = discard;
  expiry = pos 60_000_000_000;
  explicit_timestamp = true;
  allow_unset = false;
  db_retention_ttl = pos 3_600_000_000_000;
  required = false;
  encrypted = false;
}

abbrev sensor_trie : Node
sensor_trie =
    node
      (kid (codes "sensors")
        (node nil (param (codes "id") (node nil no_param (some compiled_sensor))) none) nil)
      no_param none

abbrev pub compiled_sensors : CompiledInterface
compiled_sensors = record {
  id = pos 0;
  name = codes "org.Sensors";
  major = pos 1;
  minor = pos 2;
  type = datastream;
  ownership = Ownership.device;
  aggregation = individual;
  trie = sensor_trie;
  object_leaves = none;
}

-- A codec that decodes every text to the sample document.
abbrev sample_codec : Codec
sample_codec = record {
  decode = λ text. some raw_sensors;
  encode = λ raw. some (b'{' ∷ b'}' ∷ 10 ∷ []);
}

sensors-parsed : parse_interface sample_codec [] ≡ ok sensors
unfolding eq_bytes contains_byte contains_any cut split_on last_byte is_letter is_digit
    identifier_from valid_identifier parse_placeholder parse_literal parse_segment split_loop
    split_endpoint compare_levels check_pair check_row check_endpoint_uniqueness base_mapping
    retention_ttl datastream_mapping typed_mapping mapping_lengths build_mapping check_length
    take_quality take_aggregate alpha alnum alnum_dash end_label middle_label later_labels labels_ok
    interface_name_ok take_path build_mappings final_checks check_header interface_lengths
    build_normalized build_interface canonical parse_interface_canonical parse_interface
sensors-parsed = refl

sensors-compiled : compile (some sensors) none ≡ ok compiled_sensors
unfolding eq_bytes contains_byte contains_any cut split_on last_byte is_letter is_digit
    identifier_from valid_identifier parse_placeholder parse_literal parse_segment split_loop
    split_endpoint lookup_kid set_kid add_param add_literal add_mapping add_levels add
    compile_mapping endpoint_id interface_id add_or_fail add_leaf compile_mappings compile_interface
    compile int64_of seconds duration_of_seconds qos
sensors-compiled = refl

match-compile-parse_interface_example :
    (match (some sensor_trie) (codes "/sensors/s1") ≡ some compiled_sensor)
    ↔ Any (Serves none (codes "sensors/s1") compiled_sensor) (sensor ∷ [])
match-compile-parse_interface_example =
    match-compile-parse_interface_iff sample_codec [] sensors none compiled_sensors
      (codes "sensors/s1") compiled_sensor sensors-parsed sensors-compiled

parse_interface_example : IsInterface sensors
parse_interface_example = parse_interface-IsInterface sample_codec [] sensors sensors-parsed

match_sound_complete_example :
    ((m : CompiledMapping)
      → match (some sensor_trie) (codes "/sensors/s1") ≡ some m
      → (ss : List Segment) × (fits_all ss (split_on b'/' (codes "sensors/s1")) ≡ true)
        × (stored ss sensor_trie ≡ some m))
    × ((ss : List Segment)
        → fits_all ss (split_on b'/' (codes "sensors/s1")) ≡ true
        → stored ss sensor_trie ≢ none
        → match (some sensor_trie) (codes "/sensors/s1") ≢ none)
match_sound_complete_example = match_sound_complete sensor_trie (codes "sensors/s1")

sensors-upgraded : check_minor_upgrade (some sensors) (some next_sensors) ≡ ok tt
unfolding eq_bytes contains_byte contains_any cut split_on last_byte is_letter is_digit
    identifier_from valid_identifier parse_placeholder parse_literal parse_segment split_loop
    split_endpoint normalize_endpoint same_mapping_attributes normalized_key put index_mappings
    check_kept check_all_kept check_same_header check_minor_upgrade code_value_type
sensors-upgraded = refl

check_minor_upgrade_example : IsUpgrade sensors next_sensors
check_minor_upgrade_example = check_minor_upgrade-IsUpgrade sensors next_sensors sensors-upgraded

match-compile_example :
    (match (some sensor_trie) (codes "/sensors/s1") ≡ some compiled_sensor)
    ↔ Any (Serves none (codes "sensors/s1") compiled_sensor) (sensor ∷ [])
match-compile_example =
    match-compile_iff sensors none compiled_sensors (codes "sensors/s1") compiled_sensor
      sensors-compiled parse_interface_example.distinct

abbrev two_parsed : List Parsed
two_parsed = (sensor, sensor_pattern) ∷ (sensor, literal "sensors" ∷ literal "all" ∷ []) ∷ []

check_endpoint_uniqueness_example :
    (check_endpoint_uniqueness two_parsed ≡ ok tt) ↔ NoOverlap two_parsed
check_endpoint_uniqueness_example = check_endpoint_uniqueness_iff two_parsed

sensor_pattern-IsShort : All IsShort sensor_pattern
unfolding is_letter is_digit identifier_from valid_identifier
sensor_pattern-IsShort = ((refl, omega arith), ((refl, omega arith), tt))

concrete-IsShort : All IsShort (literal "sensors" ∷ literal "all" ∷ [])
unfolding is_letter is_digit identifier_from valid_identifier
concrete-IsShort = ((refl, omega arith), ((refl, omega arith), tt))

check_endpoint_uniqueness-NoCommon_example :
    (check_endpoint_uniqueness two_parsed ≡ ok tt) ↔ NoCommon two_parsed
check_endpoint_uniqueness-NoCommon_example =
    check_endpoint_uniqueness-NoCommon_iff two_parsed
      (sensor_pattern-IsShort, (concrete-IsShort, tt))

added : (add sensor_trie (codes "/status") (some compiled_sensor)).1 ≡ none
unfolding eq_bytes contains_byte contains_any cut split_on last_byte is_letter is_digit
    identifier_from valid_identifier parse_placeholder parse_literal parse_segment split_loop
    split_endpoint lookup_kid set_kid add_param add_literal add_mapping add_levels add
added = refl

stored-add_example :
    (segs : List Segment) × (split_endpoint (codes "/status") ≡ ok segs)
    × (stored segs sensor_trie ≡ none)
    × ((rs : List Segment)
        → stored rs (add sensor_trie (codes "/status") (some compiled_sensor)).0
          ≡ (if eq_segments segs rs then some compiled_sensor else stored rs sensor_trie))
stored-add_example = stored-add sensor_trie (codes "/status") compiled_sensor added

refused :
    (add sensor_trie (codes "/sensors/%{name}/x") (some compiled_sensor)).1
    ≡ some conflicting_placeholder
unfolding eq_bytes contains_byte contains_any cut split_on last_byte is_letter is_digit
    identifier_from valid_identifier parse_placeholder parse_literal parse_segment split_loop
    split_endpoint lookup_kid set_kid add_param add_literal add_mapping add_levels add
refused = refl

add-failed_example :
    (add sensor_trie (codes "/sensors/%{name}/x") (some compiled_sensor)).0 ≡ sensor_trie
add-failed_example =
    add-failed sensor_trie (codes "/sensors/%{name}/x") (some compiled_sensor)
      conflicting_placeholder refused

stored-compile_example :
    (stored sensor_pattern sensor_trie ≡ some compiled_sensor)
    ↔ Any (λ m. CompilesTo none m sensor_pattern compiled_sensor) (sensor ∷ [])
stored-compile_example =
    stored-compile sensors none compiled_sensors sensor_pattern compiled_sensor sensors-compiled

split_endpoint-Rejects_example :
    (split_endpoint (codes "/sensors//x") ≢ err out_of_fuel)
    × ((e : EndpointError)
        → (split_endpoint (codes "/sensors//x") ≡ err e) ↔ Rejects (codes "/sensors//x") e)
split_endpoint-Rejects_example = split_endpoint-Rejects_iff (codes "/sensors//x")

split_endpoint_iff_example :
    (split_endpoint (codes "/sensors/%{id}") ≡ ok sensor_pattern)
    ↔ ((codes "/sensors/%{id}" ≡ print_endpoint sensor_pattern) × IsPattern sensor_pattern)
split_endpoint_iff_example = split_endpoint_iff (codes "/sensors/%{id}") sensor_pattern

abbrev built_sensor : Built
built_sensor = record { mapping = sensor; segments = sensor_pattern; violations = [] }

sensor-built : build_mapping raw_sensor datastream 0 [] ≡ ok built_sensor
unfolding eq_bytes contains_byte contains_any cut split_on last_byte is_letter is_digit
    identifier_from valid_identifier parse_placeholder parse_literal parse_segment split_loop
    split_endpoint base_mapping retention_ttl datastream_mapping typed_mapping mapping_lengths
    build_mapping check_length
sensor-built = refl

build_mapping_example :
    IsMapping datastream sensor
    × (split_endpoint (codes "/sensors/%{id}") ≡ ok sensor_pattern)
    × (◌≡◌ {A = List Violation} [] [])
build_mapping_example =
    build_mapping-IsMapping raw_sensor datastream 0 [] built_sensor sensor-built refl
