-- ===== src/Triggers/Condition.antt =====
-- internal/engine/triggers: the conditions of a trigger and their compilation (match.go:
-- compileSimple, compileData, compileDevice and their tables; validation.go: fieldErrs;
-- transient.go: CompileCondition). A map of field errors is the list of its entries in the order
-- of `add`; a word that the code only compares is a string.
pub mod Data
pub mod Device
pub mod Accepts
use astrate.Base.{
  ℕ, ◌+◌, ◌-◌, ◌*◌, ◌<◌, String, Bool, true, false, ◌&&◌, ◌||◌, not, Option, none, some, List, [],
  ◌∷◌, ◌++◌, map, str_eq, leb, ◌==◌, if◌then◌else◌, length, all, any, is_empty, take, ok, err,
  Bytes, eq_bytes, split_on, last_byte, ℤ,
}
use astrate.Schema.Endpoint.{valid_identifier}
use astrate.DeviceId.{encoded_len, between_codes, parse}
use astrate.Triggers.Value.{Value}

-- The names of the conditions.
abbrev pub incoming_data : String
incoming_data = "incoming_data"

abbrev pub path_removed : String
path_removed = "path_removed"

abbrev pub interface_minor_updated : String
interface_minor_updated = "interface_minor_updated"

abbrev pub incoming_introspection : String
incoming_introspection = "incoming_introspection"

-- Membership in a table of words.
unfoldable pub has_word : List String → String → Bool
has_word words w = any (str_eq w) words

-- `dataOns`, all of them evaluated.
abbrev pub data_ons : List String
data_ons =
    "incoming_data" ∷ "value_change" ∷ "value_change_applied" ∷ "path_created" ∷ "path_removed"
    ∷ "value_stored" ∷ []

-- `prevOns`.
abbrev pub prev_ons : List String
prev_ons = "value_change" ∷ "value_change_applied" ∷ "path_created" ∷ "path_removed" ∷ []

-- `deviceOns`: those that are evaluated, and those that are not.
abbrev pub evaluated_device_ons : List String
evaluated_device_ons =
    "device_registered" ∷ "device_connected" ∷ "device_disconnected" ∷ "device_deletion_started"
    ∷ "device_deletion_finished" ∷ "device_error" ∷ "incoming_introspection" ∷ "interface_added"
    ∷ "interface_removed" ∷ []

abbrev pub other_device_ons : List String
other_device_ons = "device_empty_cache_received" ∷ "interface_minor_updated" ∷ []

-- `introspectionOns`.
abbrev pub introspection_ons : List String
introspection_ons = "interface_added" ∷ "interface_removed" ∷ "interface_minor_updated" ∷ []

-- `valueOperators`.
abbrev pub value_operators : List String
value_operators = "*" ∷ "==" ∷ "!=" ∷ ">" ∷ ">=" ∷ "<" ∷ "<=" ∷ "contains" ∷ "not_contains" ∷ []

-- `anyToken` and `anyPath`.
abbrev pub any_token : Bytes
any_token = b'*' ∷ []

abbrev pub any_path : Bytes
any_path = b'/' ∷ b'*' ∷ []

-- `simpleTriggerConfig`; the absent known_value is the empty text.
pub record SimpleTriggerConfig : Type 0 where
  pub type : String
  pub on : String
  pub group_name : Bytes
  pub device_id : Bytes
  pub interface_name : Option Bytes
  pub interface_major : Option ℤ
  pub match_path : Bytes
  pub value_match_operator : String
  pub known_value : Bytes

-- `dataMatcher`.
pub record DataMatcher : Type 0 where
  pub on : String
  pub device_id : Bytes
  pub iface : Bytes
  pub major : ℤ
  pub any_path : Bool
  pub path_segs : List Bytes
  pub operator : String
  pub known : Value
  pub evaluated : Bool

-- `deviceMatcher`.
pub record DeviceMatcher : Type 0 where
  pub on : String
  pub device_id : Bytes
  pub iface : Bytes
  pub major : Option ℤ
  pub evaluated : Bool

-- The notes of `Unsupported`.
pub data Note : Type 0 where
  data_trigger_on device_trigger_on : String → Note
  group_scoped : Note

-- `Trigger`, without its name, action and policy.
pub record Trigger : Type 0 where
  pub unsupported : List Note
  pub data_matchers : List DataMatcher
  pub device_matchers : List DeviceMatcher

-- `fieldErrs`: the fields with their messages.
abbrev pub FieldErrs : Type 0
FieldErrs = List (String × String)

pub data TriggerError : Type 0 where
  fields : FieldErrs → TriggerError
  known_value_does_not_parse unknown_type does_not_parse : TriggerError

-- `fe.add(field, msg)` under a condition.
abbrev pub add_if : Bool → String → String → FieldErrs
add_if cond field msg = if cond then (field, msg) ∷ [] else []

-- `matchPathRE`: 1 to 64 levels behind slashes, each an identifier or a placeholder with a name.
abbrev pub closes : Bytes → Bool
closes s = elim (last_byte s) [ none ↦ false | some c ↦ c == b'}' ]

unfoldable pub match_level_ok : Bytes → Bool
unfolding last_byte valid_identifier
match_level_ok (c ∷ d ∷ s) =
    if c == b'%'
    then (d == b'{') && closes s && valid_identifier (take (length s - 1) s)
    else valid_identifier (c ∷ d ∷ s)
match_level_ok s = valid_identifier s

unfoldable pub match_path_ok : Bytes → Bool
unfolding match_level_ok split_on
match_path_ok [] = false
match_path_ok (c ∷ s) =
    (c == b'/') && all match_level_ok (split_on b'/' s) && leb (length (split_on b'/' s)) 64

-- `isExtendedDeviceID`.
abbrev pub id_character : ℕ → Bool
id_character c =
    between_codes b'A' b'Z' c
    || between_codes b'a' b'z' c
    || between_codes b'0' b'9' c
    || (c == b'-')
    || (c == b'_')

unfoldable pub is_extended_device_id : Bytes → Bool
is_extended_device_id s = if leb (length s) encoded_len then false else all id_character s

-- The error of a device_id that is not the wildcard.
unfoldable pub device_id_errs : Bytes → FieldErrs
unfolding parse is_extended_device_id
device_id_errs device_id = elim (parse device_id) [
  | ok _ ↦ []
  | err _ ↦
      if is_extended_device_id device_id
      then ("device_id", "is too long, device id must be 128 bits") ∷ []
      else ("device_id", "is not a valid device id") ∷ []
]

-- `deviceFilterErrs`.
unfoldable pub device_filter_errs : Bytes → Bytes → FieldErrs
unfolding device_id_errs eq_bytes
device_filter_errs device_id group_name =
    add_if (not (is_empty device_id) && not (is_empty group_name)) "group_name"
      "must not be defined if device_id is defined"
    ++ (if not (is_empty device_id) && not (eq_bytes device_id any_token)
        then device_id_errs device_id
        else [])

-- `noteUnsupported`: a note is taken once.
unfoldable pub eq_note : Note → Note → Bool
eq_note (data_trigger_on a) (data_trigger_on b) = str_eq a b
eq_note (device_trigger_on a) (device_trigger_on b) = str_eq a b
eq_note group_scoped group_scoped = true
eq_note _ _ = false

unfoldable pub note_unsupported : Bool → Note → List Note → List Note
unfolding eq_note
note_unsupported cond what notes =
    if not cond
    then notes
    else if any (λ u. eq_note u what) notes
    then notes
    else notes ++ what ∷ []

abbrev pub empty_trigger : Trigger
empty_trigger = record { unsupported = []; data_matchers = []; device_matchers = [] }
