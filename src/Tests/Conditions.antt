-- ===== src/Tests/Conditions.antt =====
-- The theorems on device ids and trigger conditions at sample inputs.
use astrate.Base.{
  ◌≡◌, refl, ◌↔◌, true, false, not, none, some, [], ◌∷◌, arith, ok, codes, eq_bytes, contains_byte,
  contains_any, cut, split_on, last_byte, pos, negsuc, ltb_ℤ, leb_ℤ, eq_ℤ, int64_of, seconds,
  duration_of_seconds,
}
use astrate.Schema.Endpoint.{
  is_letter, is_digit, identifier_from, valid_identifier, parse_placeholder, parse_literal,
  parse_segment, split_loop, split_endpoint,
}
use astrate.Schema.Types.{qos}
use astrate.Schema.Trie.Meaning.{fits, fits_all}
use astrate.Schema.Compile.{endpoint_id, compile_mapping}
use astrate.Schema.Compile.Meaning.{Serves}
use astrate.Schema.Build.Whole.{
  alpha, alnum, alnum_dash, end_label, middle_label, later_labels, labels_ok, interface_name_ok,
}
use astrate.Schema.Tests.{sensor, compiled_sensor, sensor_pattern}
use astrate.DeviceId.{Id16, value_of, sextets, pack, parse, to_string, from_uuid, uuid, IsId}
use astrate.DeviceId.Base64.{parse_iff}
use astrate.DeviceId.Uuid.{from_uuid-uuid}
use astrate.Triggers.Value.Order.{ComparesAs, value_matches_exact}
use astrate.Triggers.Value.{
  float64, int32, nil, order_key, lt_float, bit_length, round_shift, float_of_ℕ, float_of_ℤ,
  numeric, operator_matches, value_matches,
}
use astrate.Triggers.Condition.{
  has_word, SimpleTriggerConfig, Trigger, match_level_ok, match_path_ok, device_id_errs,
  device_filter_errs, note_unsupported, empty_trigger, device_trigger_on,
}
use astrate.Triggers.Condition.Data.{
  presence_errs, interface_errs, path_errs, data_errs, KnownDecoder, known_of, data_matcher,
  compile_data,
}
use astrate.Triggers.Condition.Device.{
  filter_errs, device_errs, device_matcher, compile_device, compile_simple,
}
use astrate.Triggers.Match.{
  DataEvent, DeviceEvent, is_placeholder, seg_matches, match_segs, path_matches, device_id_matches,
  filters_match, data_matches, matches_data, tracks_changes, matches_device,
}
use astrate.Schema.Trie.Meaning.{is_value}
use astrate.Triggers.Match.Gate.{
  on_value_change, tracks_changes-matches_data, compile_simple-unsupported,
}
use astrate.Triggers.Match.Served.{Fires, matches_data-compile_data_iff}
use astrate.Triggers.Match.Endpoints.{watching, matches_data-Serves}

abbrev sample_id : Id16
sample_id =
    217 ∷ 48 ∷ 103 ∷ 254 ∷ 51 ∷ 68 ∷ 74 ∷ 203 ∷ 161 ∷ 26 ∷ 97 ∷ 54 ∷ 163 ∷ 80 ∷ 26 ∷ 156 ∷ []

sample_id-IsId : IsId sample_id
sample_id-IsId = record { sized = refl; bytes = ground arith }

parse_iff_example :
    (parse (codes "2TBn_jNESsuhGmE2o1AanA") ≡ ok sample_id)
    ↔ ((codes "2TBn_jNESsuhGmE2o1AanA" ≡ to_string sample_id) × IsId sample_id)
parse_iff_example = parse_iff (codes "2TBn_jNESsuhGmE2o1AanA") sample_id

parsed_id : parse (codes "2TBn_jNESsuhGmE2o1AanA") ≡ ok sample_id
unfolding parse sextets value_of pack
parsed_id = refl

from_uuid_example : from_uuid (uuid sample_id) ≡ ok sample_id
from_uuid_example = from_uuid-uuid sample_id sample_id-IsId

-- A decoder that reads every known value as 21.
abbrev sample_decoder : KnownDecoder
sample_decoder raw = some (float64 (float_of_ℕ 21))

-- A change to more than 21 degrees, of one device.
abbrev warm : SimpleTriggerConfig
warm = record {
  type = "data_trigger";
  on = "value_change";
  group_name = [];
  device_id = codes "2TBn_jNESsuhGmE2o1AanA";
  interface_name = some (codes "org.Sensors");
  interface_major = some (pos 1);
  match_path = codes "/sensors/%{id}";
  value_match_operator = ">";
  known_value = codes "21";
}

abbrev warm_trigger : Trigger
warm_trigger = record {
  unsupported = [];
  data_matchers = data_matcher warm (float64 (float_of_ℕ 21)) ∷ [];
  device_matchers = [];
}

warm-compiled : compile_data sample_decoder warm empty_trigger ≡ ok warm_trigger
unfolding compile_data data_errs presence_errs interface_errs path_errs device_filter_errs
    device_id_errs parse sextets value_of pack has_word interface_name_ok labels_ok later_labels
    end_label middle_label alnum alnum_dash alpha match_path_ok match_level_ok valid_identifier
    identifier_from is_letter is_digit last_byte split_on eq_bytes known_of note_unsupported
warm-compiled = refl

abbrev reading : DataEvent
reading = record {
  device_id = codes "2TBn_jNESsuhGmE2o1AanA";
  on = "value_change";
  iface = codes "org.Sensors";
  major = pos 1;
  path = codes "/sensors/s1";
  value = int32 (pos 22);
}

matches_data_example :
    (matches_data warm_trigger reading ≡ true) ↔ Fires warm (float64 (float_of_ℕ 21)) reading
matches_data_example =
    matches_data-compile_data_iff sample_decoder warm warm_trigger (float64 (float_of_ℕ 21)) reading
      warm-compiled known
  where
    known : known_of sample_decoder (codes "21") ≡ ok (float64 (float_of_ℕ 21))
    known = unfold known_of in refl

reading-matched : matches_data warm_trigger reading ≡ true
unfolding matches_data data_matches filters_match device_id_matches path_matches match_segs
    seg_matches is_placeholder last_byte cut contains_byte split_on eq_bytes has_word value_matches
    operator_matches numeric lt_float order_key float_of_ℤ float_of_ℕ bit_length round_shift
reading-matched = refl

tracks_changes_example :
    tracks_changes warm_trigger (record reading { on = ""; value = nil }) ≡ true
tracks_changes_example =
    tracks_changes-matches_data warm_trigger (record reading { on = ""; value = nil })
      "value_change" (int32 (pos 22)) on_value_change reading-matched

-- A condition that upstream knows and that never fires.
abbrev empty_cache : SimpleTriggerConfig
empty_cache = record warm {
  type = "device_trigger";
  on = "device_empty_cache_received";
  interface_name = none;
  interface_major = none;
}

abbrev empty_cache_trigger : Trigger
empty_cache_trigger = record {
  unsupported = device_trigger_on "device_empty_cache_received" ∷ [];
  data_matchers = [];
  device_matchers = device_matcher empty_cache ∷ [];
}

empty_cache-compiled :
    compile_simple sample_decoder empty_cache empty_trigger ≡ ok empty_cache_trigger
unfolding compile_simple compile_device device_errs filter_errs device_filter_errs device_id_errs
    parse sextets value_of pack has_word eq_bytes note_unsupported
empty_cache-compiled = refl

abbrev cache_event : DeviceEvent
cache_event = record {
  device_id = codes "2TBn_jNESsuhGmE2o1AanA";
  on = "device_empty_cache_received";
  iface = [];
  major = pos 0;
}

compile_simple_example :
    (matches_data empty_cache_trigger reading ≡ false)
    × (matches_device empty_cache_trigger cache_event ≡ false)
compile_simple_example =
    compile_simple-unsupported sample_decoder empty_cache empty_cache_trigger reading cache_event
      empty_cache-compiled refl

sensor-parsed : split_endpoint (codes "/sensors/%{id}") ≡ ok sensor_pattern
unfolding split_endpoint split_loop cut parse_segment parse_placeholder parse_literal last_byte
    contains_any contains_byte valid_identifier identifier_from is_letter is_digit
sensor-parsed = refl

sensor-compiled : compiled_sensor ≡ compile_mapping sensor (pos 0)
unfolding compile_mapping qos duration_of_seconds seconds int64_of
sensor-compiled = refl

sensor-fits : fits_all sensor_pattern (split_on b'/' (codes "sensors/s1")) ≡ true
unfolding fits_all fits is_value eq_bytes split_on
sensor-fits = refl

sensor-Serves : Serves none (codes "sensors/s1") compiled_sensor sensor
unfolding endpoint_id
sensor-Serves = record {
  segs = sensor_pattern;
  compiles = record {
    pattern = sensor-parsed;
    id = pos 0;
    identified = refl;
    compiled = sensor-compiled;
  };
  fitting = sensor-fits;
}

name_ok : interface_name_ok (codes "org.Sensors") ≡ true
unfolding interface_name_ok labels_ok later_labels end_label middle_label alnum alnum_dash alpha
    split_on
name_ok = refl

stored_on :
    has_word
      ("incoming_data" ∷ "value_change" ∷ "value_change_applied" ∷ "path_created" ∷ "path_removed"
        ∷ "value_stored" ∷ [])
      "value_stored"
    ≡ true
unfolding has_word
stored_on = refl

matches_data-Serves_example :
    (t : Trigger) × (compile_data sample_decoder
        (watching "value_stored" (codes "org.Sensors") (pos 1) (codes "/sensors/%{id}"))
        empty_trigger
      ≡ ok t)
    × (matches_data t (record reading { on = "value_stored" }) ≡ true)
matches_data-Serves_example =
    matches_data-Serves sample_decoder none sensor compiled_sensor (codes "sensors/s1")
      (codes "org.Sensors") (pos 1) "value_stored" (codes "2TBn_jNESsuhGmE2o1AanA") (int32 (pos 22))
      sensor-Serves name_ok stored_on

value_matches_example :
    ComparesAs "==" true (pos 22) (negsuc 4) (eq_ℤ (pos 22) (negsuc 4))
    × ComparesAs "!=" true (pos 22) (negsuc 4) (not (eq_ℤ (pos 22) (negsuc 4)))
    × ComparesAs "<" true (pos 22) (negsuc 4) (ltb_ℤ (pos 22) (negsuc 4))
    × ComparesAs "<=" true (pos 22) (negsuc 4) (leb_ℤ (pos 22) (negsuc 4))
    × ComparesAs ">" true (pos 22) (negsuc 4) (ltb_ℤ (negsuc 4) (pos 22))
    × ComparesAs ">=" true (pos 22) (negsuc 4) (leb_ℤ (negsuc 4) (pos 22))
value_matches_example = value_matches_exact true (pos 22) (negsuc 4) (omega arith) (omega arith)
