-- ===== src/Triggers/Condition/Data.antt =====
-- internal/engine/triggers/match.go: compileData.
use astrate.Base.{
  String, Bool, ◌&&◌, not, Option, none, some, List, [], ◌∷◌, ◌++◌, str_eq, if◌then◌else◌, is_empty,
  drop, Result, ok, err, ◌>>=◌, ◌>>◌, reject_if, Bytes, eq_bytes, split_on, pos,
}
use astrate.Schema.Build.Raw.{get_or}
use astrate.Schema.Build.Whole.{interface_name_ok}
use astrate.Triggers.Value.{Value, nil}
use astrate.Triggers.Condition.{
  incoming_data, has_word, data_ons, value_operators, any_token, any_path, SimpleTriggerConfig,
  DataMatcher, group_scoped, data_trigger_on, Trigger, FieldErrs, TriggerError, fields,
  known_value_does_not_parse, add_if, match_path_ok, device_filter_errs, note_unsupported,
}

-- The rules on the condition's name, its interface, path and operator being there.
unfoldable pub presence_errs : SimpleTriggerConfig → Bytes → FieldErrs
unfolding has_word
presence_errs c iface =
    add_if (str_eq c.on "") "on" "can't be blank"
    ++ add_if (not (str_eq c.on "") && not (has_word data_ons c.on)) "on" "is invalid"
    ++ add_if (is_empty iface) "interface_name" "can't be blank"
    ++ add_if (is_empty c.match_path) "match_path" "can't be blank"
    ++ add_if (str_eq c.value_match_operator "") "value_match_operator" "can't be blank"
    ++ add_if
        (not (str_eq c.value_match_operator "")
          && not (has_word value_operators c.value_match_operator))
        "value_match_operator" "is invalid"

-- The rules on the interface filter; the wildcard forces the condition and the path.
unfoldable pub interface_errs : SimpleTriggerConfig → Bytes → FieldErrs
unfolding interface_name_ok eq_bytes
interface_errs c iface =
    if eq_bytes iface any_token
    then if not (str_eq c.on incoming_data)
      then ("on", "must be incoming_data when interface_name is *") ∷ []
      else add_if (not (eq_bytes c.match_path any_path)) "match_path"
          "must be /* when interface_name is *"
    else add_if (not (is_empty iface) && not (interface_name_ok iface)) "interface_name"
        "has invalid format"
      ++ elim c.interface_major [ none ↦ ("interface_major", "can't be blank") ∷ [] | some _ ↦ [] ]

-- An operator that is there and is not the wildcard.
abbrev pub compares : String → Bool
compares op = not (str_eq op "*") && not (str_eq op "")

-- The rules on the path, and on the value that an operator needs.
unfoldable pub path_errs : SimpleTriggerConfig → FieldErrs
unfolding match_path_ok eq_bytes
path_errs c =
    (if eq_bytes c.match_path any_path
      then add_if (compares c.value_match_operator) "value_match_operator"
          "must be * when match_path is /*"
      else add_if (not (is_empty c.match_path) && not (match_path_ok c.match_path)) "match_path"
          "has invalid format")
    ++ add_if (compares c.value_match_operator && is_empty c.known_value) "known_value"
        "can't be blank"

unfoldable pub data_errs : SimpleTriggerConfig → FieldErrs
unfolding presence_errs interface_errs device_filter_errs path_errs
data_errs c =
    let iface = get_or [] c.interface_name in
    presence_errs c iface
    ++ interface_errs c iface
    ++ device_filter_errs c.device_id c.group_name
    ++ path_errs c

-- strings.Split(c.MatchPath, "/")[1:]
abbrev pub path_segments : Bytes → List Bytes
path_segments path = drop 1 (split_on b'/' path)

-- The decoder of JSON.
abbrev pub KnownDecoder : Type 0
KnownDecoder = Bytes → Option Value

abbrev pub data_matcher : SimpleTriggerConfig → Value → DataMatcher
data_matcher c known = record {
  on = c.on;
  device_id = c.device_id;
  iface = get_or [] c.interface_name;
  major = get_or (pos 0) c.interface_major;
  any_path = eq_bytes c.match_path any_path;
  path_segs = if eq_bytes c.match_path any_path then [] else path_segments c.match_path;
  operator = c.value_match_operator;
  known = known;
  evaluated = has_word data_ons c.on && is_empty c.group_name;
}

-- The known value, which is nil where none is given.
unfoldable pub known_of : KnownDecoder → Bytes → Result TriggerError Value
known_of decode raw =
    if is_empty raw
    then ok nil
    else elim (decode raw) [ none ↦ err known_value_does_not_parse | some v ↦ ok v ]

abbrev pub note_data : SimpleTriggerConfig → Trigger → Trigger
note_data c t = record t {
  unsupported =
      note_unsupported (not (is_empty c.group_name)) group_scoped
        (note_unsupported (not (has_word data_ons c.on)) (data_trigger_on c.on) t.unsupported);
}

-- `compileData`.
unfoldable pub compile_data :
    KnownDecoder → SimpleTriggerConfig → Trigger → Result TriggerError Trigger
unfolding data_errs known_of note_unsupported
compile_data decode c t = do
  reject_if (not (is_empty (data_errs c))) (fields (data_errs c))
  known ← known_of decode c.known_value
  let noted = note_data c t
  ok (record noted { data_matchers = t.data_matchers ++ data_matcher c known ∷ [] })
