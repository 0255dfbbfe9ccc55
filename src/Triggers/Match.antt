-- ===== src/Triggers/Match.antt =====
-- internal/engine/triggers/match.go: MatchesData, MatchesDevice, TracksChanges and the path match.
pub mod Paths
pub mod Formats
pub mod Gate
pub mod Fires
pub mod Served
pub mod Endpoints
use astrate.Base.{
  ◌-◌, String, Bool, true, false, ◌&&◌, ◌||◌, not, none, some, List, [], ◌∷◌, str_eq, ◌==◌,
  if◌then◌else◌, any, is_empty, Bytes, eq_bytes, contains_byte, cut, last_byte, ℤ, eq_ℤ,
}
use astrate.Triggers.Value.{Value, value_matches}
use astrate.Triggers.Condition.{
  path_removed, prev_ons, introspection_ons, has_word, any_token, DataMatcher, DeviceMatcher,
  Trigger,
}

-- `DataEvent`; the value is nil for an unset property.
pub record DataEvent : Type 0 where
  pub device_id : Bytes
  pub on : String
  pub iface : Bytes
  pub major : ℤ
  pub path : Bytes
  pub value : Value

-- `DeviceEvent`.
pub record DeviceEvent : Type 0 where
  pub device_id : Bytes
  pub on : String
  pub iface : Bytes
  pub major : ℤ

-- strings.HasSuffix(pattern, "}")
abbrev pub closed : Bytes → Bool
closed s = elim (last_byte s) [ none ↦ false | some c ↦ c == b'}' ]

-- strings.HasPrefix(pattern, "%{") && strings.HasSuffix(pattern, "}")
unfoldable pub is_placeholder : Bytes → Bool
unfolding last_byte
is_placeholder (c ∷ d ∷ s) = (c == b'%') && (d == b'{') && closed (c ∷ d ∷ s)
is_placeholder _ = false

-- `segMatches`.
unfoldable pub seg_matches : Bytes → Bytes → Bool
unfolding is_placeholder eq_bytes
seg_matches pattern seg =
    if is_placeholder pattern then not (is_empty seg) else eq_bytes pattern seg

-- The loop of `pathMatches`: what is left of the path must be empty at the end.
unfoldable pub match_segs : List Bytes → Bytes → Bool
unfolding seg_matches contains_byte cut
match_segs [] rest = is_empty rest
match_segs (seg ∷ []) rest =
    if contains_byte b'/' rest then false else if not (seg_matches seg rest) then false else true
match_segs (seg ∷ next ∷ segs) rest = elim (cut b'/' rest) [
  | none ↦ false
  | some (cur, tail) ↦
      let later = match_segs (next ∷ segs) tail in
      if contains_byte b'/' cur then false else if not (seg_matches seg cur) then false else later
]

-- `pathMatches`.
unfoldable pub path_matches : List Bytes → Bytes → Bool
unfolding match_segs
path_matches segs [] = false
path_matches segs (c ∷ rest) = if c == b'/' then match_segs segs rest else false

-- `deviceIDMatches`.
unfoldable pub device_id_matches : Bytes → Bytes → Bool
unfolding eq_bytes
device_id_matches filter device_id =
    is_empty filter || eq_bytes filter any_token || eq_bytes filter device_id

-- The filters that `matches` and `TracksChanges` share: device, interface and path.
unfoldable pub filters_match : DataMatcher → DataEvent → Bool
unfolding device_id_matches path_matches eq_bytes
filters_match m ev =
    if not (device_id_matches m.device_id ev.device_id)
    then false
    else if not (eq_bytes m.iface any_token)
        && (not (eq_bytes m.iface ev.iface) || not (eq_ℤ m.major ev.major))
    then false
    else if not m.any_path && not (path_matches m.path_segs ev.path)
    then false
    else true

-- `dataMatcher.matches`.
unfoldable pub data_matches : DataMatcher → DataEvent → Bool
unfolding filters_match value_matches
data_matches m ev =
    if not m.evaluated || not (str_eq m.on ev.on)
    then false
    else if not (filters_match m ev)
    then false
    else if str_eq ev.on path_removed
    then true
    else value_matches m.operator ev.value m.known

-- `MatchesData`.
unfoldable pub matches_data : Trigger → DataEvent → Bool
unfolding data_matches
matches_data t ev = any (λ m. data_matches m ev) t.data_matchers

-- One round of the loop of `TracksChanges`.
unfoldable pub tracks : DataMatcher → DataEvent → Bool
unfolding filters_match has_word
tracks m ev =
    if not m.evaluated || not (has_word prev_ons m.on)
    then false
    else if not (filters_match m ev)
    then false
    else true

-- `TracksChanges`.
unfoldable pub tracks_changes : Trigger → DataEvent → Bool
unfolding tracks
tracks_changes t ev = any (λ m. tracks m ev) t.data_matchers

-- The filter of an introspection condition; a name-less or wildcard one takes every interface.
unfoldable pub introspection_filter : DeviceMatcher → DeviceEvent → Bool
unfolding eq_bytes
introspection_filter m ev =
    if not (is_empty m.iface) && not (eq_bytes m.iface any_token) && not (eq_bytes m.iface ev.iface)
    then false
    else elim m.major [ none ↦ true | some major ↦ eq_ℤ major ev.major ]

-- One round of the loop of `MatchesDevice`.
unfoldable pub device_matches : DeviceMatcher → DeviceEvent → Bool
unfolding introspection_filter has_word device_id_matches
device_matches m ev =
    if not m.evaluated || not (str_eq m.on ev.on)
    then false
    else if not (device_id_matches m.device_id ev.device_id)
    then false
    else if has_word introspection_ons m.on
    then introspection_filter m ev
    else true

-- `MatchesDevice`.
unfoldable pub matches_device : Trigger → DeviceEvent → Bool
unfolding device_matches
matches_device t ev = any (λ m. device_matches m ev) t.device_matchers
