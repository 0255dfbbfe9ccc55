-- ===== src/Triggers/Match/Gate.antt =====
-- What the engine may skip: the gate in front of the lookup of previous values, and the conditions
-- that are noted as unsupported.
use astrate.Base.{
  String, ◌≡◌, refl, sym, ◌⊎◌, inl, inr, Bool, true, false, ◌&&◌, ◌||◌, not, List, [], ◌∷◌, ◌++◌,
  arith, str_eq, eq_iff, if◌then◌else◌, any, is_empty, Result, ok, err, reject_if, >>-eq-ok,
  >>=-eq-ok, ok_injective,
}
use astrate.Triggers.Value.{Value, value_matches}
use astrate.Triggers.Condition.{
  has_word, prev_ons, data_ons, evaluated_device_ons, SimpleTriggerConfig, DataMatcher,
  DeviceMatcher, Trigger, Note, group_scoped, data_trigger_on, device_trigger_on, fields,
  unknown_type, path_removed, note_unsupported, empty_trigger,
}
use astrate.Triggers.Condition.Data.{
  KnownDecoder, data_errs, known_of, data_matcher, note_data, compile_data,
}
use astrate.Triggers.Condition.Device.{
  device_errs, device_matcher, note_device, compile_device, compile_simple,
}
use astrate.Triggers.Match.{
  DataEvent, DeviceEvent, filters_match, data_matches, matches_data, tracks, tracks_changes,
  device_matches, matches_device,
}

-- The conditions that compare with the previous value.
pub data IsComparing : String → Type 0 where
  on_value_change : IsComparing "value_change"
  on_value_change_applied : IsComparing "value_change_applied"
  on_path_created : IsComparing "path_created"
  on_path_removed : IsComparing "path_removed"

has_word-IsComparing : {on : String} → IsComparing on → has_word prev_ons on ≡ true
unfolding has_word
has_word-IsComparing on_value_change = refl
has_word-IsComparing on_value_change_applied = refl
has_word-IsComparing on_path_created = refl
has_word-IsComparing on_path_removed = refl

-- The event before its name and value are known.
abbrev at : DataEvent → String → Value → DataEvent
at ev on value = record ev { on = on; value = value }

gate_rule :
    (evaluated same filters removed value watched : Bool)
    → watched ≡ true
    → (if not evaluated || not same
        then false
        else if not filters
        then false
        else if removed
        then true
        else value)
      ≡ true
    → (if not evaluated || not watched then false else if not filters then false else true) ≡ true
gate_rule true true true removed value true w h = refl
gate_rule true true false removed value watched w h = cc
gate_rule true false filters removed value watched w h = cc
gate_rule false same filters removed value watched w h = cc
gate_rule evaluated same filters removed value false w h = cc

same_name :
    (evaluated same filters removed value : Bool)
    → (if not evaluated || not same
        then false
        else if not filters
        then false
        else if removed
        then true
        else value)
      ≡ true
    → same ≡ true
same_name evaluated true filters removed value h = refl
same_name true false filters removed value h = h
same_name false false filters removed value h = h

tracks-data_matches :
    (m : DataMatcher) (ev : DataEvent) (on : String) (value : Value)
    → has_word prev_ons on ≡ true
    → data_matches m (at ev on value) ≡ true
    → tracks m ev ≡ true
unfolding data_matches tracks filters_match
tracks-data_matches m ev on value watched h =
    let named =
      same_name m.evaluated (str_eq m.on on) (filters_match m (at ev on value))
        (str_eq on path_removed) (value_matches m.operator value m.known) h in
    let same : m.on ≡ on = (eq_iff m.on on).0 named in
    gate_rule m.evaluated (str_eq m.on on) (filters_match m (at ev on value))
      (str_eq on path_removed) (value_matches m.operator value m.known) (has_word prev_ons m.on)
      (rw same watched) h

or_mono :
    (a b a' b' : Bool)
    → (a ≡ true → a' ≡ true)
    → (b ≡ true → b' ≡ true)
    → (a || b) ≡ true
    → (a' || b') ≡ true
or_mono a b a' b' f g h = ground arith

any-tracks :
    (ev : DataEvent) (on : String) (value : Value) (ms : List DataMatcher)
    → has_word prev_ons on ≡ true
    → any (λ m. data_matches m (at ev on value)) ms ≡ true
    → any (λ m. tracks m ev) ms ≡ true
any-tracks ev on value [] watched h = h
any-tracks ev on value (m ∷ ms) watched h =
    or_mono (data_matches m (at ev on value)) (any (λ m. data_matches m (at ev on value)) ms)
      (tracks m ev) (any (λ m. tracks m ev) ms) (tracks-data_matches m ev on value watched)
      (any-tracks ev on value ms watched) h

-- The gate hides no event: where a trigger matches an event of a condition that compares with the
-- previous value, one of value_change, value_change_applied, path_created and path_removed,
-- `TracksChanges` answers true for the device, interface and path of the event.
pub tracks_changes-matches_data :
    (t : Trigger) (ev : DataEvent) (on : String) (value : Value)
    → IsComparing on
    → matches_data t (at ev on value) ≡ true
    → tracks_changes t ev ≡ true
unfolding matches_data tracks_changes
tracks_changes-matches_data t ev on value watched h =
    any-tracks ev on value t.data_matchers (has_word-IsComparing watched) h

-- The parts of a successful compilation of a data condition.
pub compile_data_sound :
    (decode : KnownDecoder) (c : SimpleTriggerConfig) (t t' : Trigger)
    → compile_data decode c t ≡ ok t'
    → (known : Value) × (known_of decode c.known_value ≡ ok known)
      × (t'
          ≡ record (note_data c t) { data_matchers = t.data_matchers ++ data_matcher c known ∷ [] })
unfolding compile_data
compile_data_sound decode c t t' h =
    let (_, rest) =
      >>-eq-ok (reject_if (not (is_empty (data_errs c))) (fields (data_errs c))) _ h in
    let (known, k, r) = >>=-eq-ok (known_of decode c.known_value) _ rest in
    (known, k, sym (ok_injective r))

pub compile_device_sound :
    (c : SimpleTriggerConfig) (t t' : Trigger)
    → compile_device c t ≡ ok t'
    → t' ≡ record (note_device c t) { device_matchers = t.device_matchers ++ device_matcher c ∷ [] }
unfolding compile_device
compile_device_sound c t t' h =
    let (_, rest) =
      >>-eq-ok (reject_if (not (is_empty (device_errs c))) (fields (device_errs c))) _ h in
    sym (ok_injective rest)

-- A note stands for a condition that is not evaluated.
two_notes :
    (known grouped : Bool) (what : Note)
    → is_empty (note_unsupported grouped group_scoped (note_unsupported (not known) what []))
      ≡ false
    → (known && not grouped) ≡ false
unfolding note_unsupported
two_notes true true what h = refl
two_notes true false what h = h
two_notes false grouped what h = refl

unevaluated-data :
    (m : DataMatcher) (ev : DataEvent) → m.evaluated ≡ false → data_matches m ev ≡ false
unfolding data_matches
unevaluated-data m ev h = ground arith

unevaluated-device :
    (m : DeviceMatcher) (ev : DeviceEvent) → m.evaluated ≡ false → device_matches m ev ≡ false
unfolding device_matches
unevaluated-device m ev h = ground arith

abbrev Silent : Trigger → DataEvent → DeviceEvent → Type 0
Silent t ev dev = (matches_data t ev ≡ false) × (matches_device t dev ≡ false)

data-Silent :
    (decode : KnownDecoder) (c : SimpleTriggerConfig) (t : Trigger) (ev : DataEvent)
    (dev : DeviceEvent)
    → compile_data decode c empty_trigger ≡ ok t
    → is_empty t.unsupported ≡ false
    → Silent t ev dev
unfolding matches_data matches_device
data-Silent decode c t ev dev h noted =
    let (known, k, is) = compile_data_sound decode c empty_trigger t h in
    let noted' = rw is at noted in
    let off =
      two_notes (has_word data_ons c.on) (not (is_empty c.group_name)) (data_trigger_on c.on)
        noted' in
    let quiet = unevaluated-data (data_matcher c known) ev (ground arith) in
    rw is (ground (arith, quiet), refl)

device-Silent :
    (c : SimpleTriggerConfig) (t : Trigger) (ev : DataEvent) (dev : DeviceEvent)
    → compile_device c empty_trigger ≡ ok t
    → is_empty t.unsupported ≡ false
    → Silent t ev dev
unfolding matches_data matches_device
device-Silent c t ev dev h noted =
    let is = compile_device_sound c empty_trigger t h in
    let noted' = rw is at noted in
    let off =
      two_notes (has_word evaluated_device_ons c.on) (not (is_empty c.group_name))
        (device_trigger_on c.on) noted' in
    let quiet = unevaluated-device (device_matcher c) dev (ground arith) in
    rw is (refl, ground (arith, quiet))

pub two_kinds :
    {E A : Type 0} (a b : Bool) (x y : Result E A) (e : E) (r : A)
    → (if a then x else if b then y else err e) ≡ ok r
    → (x ≡ ok r) ⊎ (y ≡ ok r)
two_kinds true b x y e r h = inl h
two_kinds false true x y e r h = inr h
two_kinds false false x y e r h = cc

-- A compiled condition with a note in Unsupported never matches an event.
pub compile_simple-unsupported :
    (decode : KnownDecoder) (c : SimpleTriggerConfig) (t : Trigger) (ev : DataEvent)
    (dev : DeviceEvent)
    → compile_simple decode c empty_trigger ≡ ok t
    → is_empty t.unsupported ≡ false
    → (matches_data t ev ≡ false) × (matches_device t dev ≡ false)
unfolding compile_simple
compile_simple-unsupported decode c t ev dev h noted =
    elim (two_kinds (str_eq c.type "data_trigger") (str_eq c.type "device_trigger")
      (compile_data decode c empty_trigger) (compile_device c empty_trigger) unknown_type t h) [
        | inl d ↦ data-Silent decode c t ev dev d noted
        | inr d ↦ device-Silent c t ev dev d noted
      ]
