-- ===== src/Triggers/Condition/Device.antt =====
-- internal/engine/triggers: compileDevice and compileSimple (match.go), CompileCondition
-- (transient.go).
use astrate.Base.{
  ◌>>◌, String, Bool, ◌&&◌, ◌||◌, not, Option, none, some, [], ◌∷◌, ◌++◌, str_eq, if◌then◌else◌,
  is_empty, Result, ok, err, ◌>>◌, reject_if, Bytes, eq_bytes,
}
use astrate.Schema.Build.Raw.{get_or, is_some}
use astrate.Schema.Build.Whole.{interface_name_ok}
use astrate.Triggers.Condition.{
  interface_minor_updated, incoming_introspection, has_word, evaluated_device_ons, other_device_ons,
  introspection_ons, any_token, SimpleTriggerConfig, DeviceMatcher, group_scoped, device_trigger_on,
  Trigger, FieldErrs, TriggerError, fields, unknown_type, does_not_parse, add_if,
  device_filter_errs, note_unsupported, empty_trigger,
}
use astrate.Triggers.Condition.Data.{KnownDecoder, compile_data}

-- `deviceOns`: whether the name is known, and whether it is evaluated.
abbrev pub known_on : String → Bool
known_on on = has_word evaluated_device_ons on || has_word other_device_ons on

-- The rules on the interface filter of an introspection condition.
unfoldable pub filter_errs : SimpleTriggerConfig → Bytes → FieldErrs
unfolding interface_name_ok eq_bytes
filter_errs c name =
    let major_missing =
      add_if (not (is_some c.interface_major)) "interface_major" "can't be blank" in
    if is_empty name
    then add_if (str_eq c.on interface_minor_updated) "interface_name"
        "must be set in interface_minor_updated triggers"
      ++ major_missing
    else if eq_bytes name any_token
    then add_if (str_eq c.on interface_minor_updated) "interface_name"
        "must not be '*' in interface_minor_updated triggers"
    else add_if (not (interface_name_ok name)) "interface_name" "has invalid format"
      ++ major_missing

unfoldable pub device_errs : SimpleTriggerConfig → FieldErrs
unfolding has_word device_filter_errs filter_errs
device_errs c =
    let name = get_or [] c.interface_name in
    let has_name = not (is_empty name) in
    add_if (str_eq c.on "") "on" "can't be blank"
    ++ add_if (not (str_eq c.on "") && not (known_on c.on)) "on" "is invalid"
    ++ device_filter_errs c.device_id c.group_name
    ++ add_if (has_name && not (has_word introspection_ons c.on)) "interface_name"
        "is allowed only in if 'on' is one of interface_minor_updated, interface_removed, interface_added"
    ++ (if has_word introspection_ons c.on then filter_errs c name else [])
    ++ add_if (str_eq c.on incoming_introspection && has_name) "interface_name"
        "must not be set in incoming_introspection triggers"

abbrev pub device_matcher : SimpleTriggerConfig → DeviceMatcher
device_matcher c = record {
  on = c.on;
  device_id = c.device_id;
  iface = get_or [] c.interface_name;
  major =
      if has_word introspection_ons c.on && not (eq_bytes (get_or [] c.interface_name) any_token)
      then c.interface_major
      else none;
  evaluated = has_word evaluated_device_ons c.on && is_empty c.group_name;
}

abbrev pub note_device : SimpleTriggerConfig → Trigger → Trigger
note_device c t = record t {
  unsupported = note_unsupported (not (is_empty c.group_name)) group_scoped (
      note_unsupported (not (has_word evaluated_device_ons c.on)) (device_trigger_on c.on)
        t.unsupported);
}

-- `compileDevice`.
unfoldable pub compile_device : SimpleTriggerConfig → Trigger → Result TriggerError Trigger
unfolding device_errs note_unsupported eq_bytes
compile_device c t = do
  reject_if (not (is_empty (device_errs c))) (fields (device_errs c))
  let noted = note_device c t
  ok (record noted { device_matchers = t.device_matchers ++ device_matcher c ∷ [] })

-- `compileSimple`.
unfoldable pub compile_simple :
    KnownDecoder → SimpleTriggerConfig → Trigger → Result TriggerError Trigger
unfolding compile_data compile_device
compile_simple decode c t =
    if str_eq c.type "data_trigger"
    then compile_data decode c t
    else if str_eq c.type "device_trigger"
    then compile_device c t
    else err unknown_type

-- `CompileCondition`, over the decoder of a condition.
unfoldable pub compile_condition :
    (Bytes → Option SimpleTriggerConfig) → KnownDecoder → Bytes → Result TriggerError Trigger
unfolding compile_simple
compile_condition parse decode raw = elim (parse raw) [
  | none ↦ err does_not_parse
  | some c ↦ compile_simple decode c empty_trigger
]
