-- ===== src/Triggers/Match/Endpoints.antt =====
-- Triggers and interfaces together: a condition on the endpoint of a mapping sees every publish that
-- the mapping serves.
use astrate.Base.{
  String, ◌≡◌, refl, inl, inr, true, Option, some, List, [], ◌∷◌, arith, ok, Bytes, split_on, ℤ,
}
use astrate.Schema.Definition.{Mapping, CompiledMapping}
use astrate.Schema.Endpoint.{Segment, split_endpoint}
use astrate.Schema.Trie.Meaning.{fits, fits_all}
use astrate.Schema.Compile.{Resolver}
use astrate.Schema.Compile.Meaning.{Serves}
use astrate.Schema.Build.Whole.{interface_name_ok}
use astrate.Triggers.Value.{Value, nil, value_matches}
use astrate.Triggers.Condition.{has_word, data_ons, SimpleTriggerConfig, Trigger, empty_trigger}
use astrate.Triggers.Condition.Data.{KnownDecoder, known_of, compile_data}
use astrate.Triggers.Condition.Accepts.{IsDataCondition, compile_data-ok_iff}
use astrate.Triggers.Match.{matches_data}
use astrate.Triggers.Match.Formats.{is_ok}
use astrate.Triggers.Match.Fires.{takes, takes_all}
use astrate.Triggers.Match.Served.{is_ok-cases, matches_data-compile_data_iff}

fits-takes : (s : Segment) (p : Bytes) → fits s p ≡ true → takes s p ≡ true
unfolding fits takes
fits-takes s p h = ground arith

fits_all-takes_all :
    (ss : List Segment) (ps : List Bytes) → fits_all ss ps ≡ true → takes_all ss ps ≡ true
unfolding fits_all takes_all
fits_all-takes_all [] [] h = refl
fits_all-takes_all [] (p ∷ ps) h = h
fits_all-takes_all (s ∷ ss) [] h = h
fits_all-takes_all (s ∷ ss) (p ∷ ps) h = ground (arith, fits-takes s p, fits_all-takes_all ss ps)

-- Every value at an endpoint of an interface, for any device.
abbrev pub watching : String → Bytes → ℤ → Bytes → SimpleTriggerConfig
watching on name major endpoint = record {
  type = "data_trigger";
  on = on;
  group_name = [];
  device_id = [];
  interface_name = some name;
  interface_major = some major;
  match_path = endpoint;
  value_match_operator = "*";
  known_value = [];
}

watching-IsDataCondition :
    (on : String) (name : Bytes) (major : ℤ) (endpoint : Bytes)
    → has_word data_ons on ≡ true
    → interface_name_ok name ≡ true
    → is_ok (split_endpoint endpoint) ≡ true
    → IsDataCondition (watching on name major endpoint)
unfolding has_word
watching-IsDataCondition on name major endpoint o n e = record {
  on = o;
  operator = refl;
  interface = inr (n, λ z. cc);
  path = inr (e, inl refl);
  device = inl refl;
}

-- For a mapping that serves a path, a condition of any known name on the mapping's endpoint compiles,
-- and the trigger matches every event of that name on that interface at that path, whatever the
-- device and the value.
pub matches_data-Serves :
    (decode : KnownDecoder) (ids : Option Resolver) (m : Mapping) (cm : CompiledMapping)
    (rest name : Bytes) (major : ℤ) (on : String) (device : Bytes) (value : Value)
    → Serves ids rest cm m
    → interface_name_ok name ≡ true
    → has_word data_ons on ≡ true
    → (t : Trigger) × (compile_data decode (watching on name major m.endpoint) empty_trigger ≡ ok t)
      × (matches_data t (record {
        device_id = device;
        on = on;
        iface = name;
        major = major;
        path = b'/' ∷ rest;
        value = value;
      })
          ≡ true)
unfolding known_of
matches_data-Serves decode ids m cm rest name major on device value s n o =
    let c = watching on name major m.endpoint in
    let parsed = s.compiles.pattern in
    let valid = watching-IsDataCondition on name major m.endpoint o n (rw parsed refl) in
    let (t, compiled) =
      is_ok-cases (compile_data decode c empty_trigger)
        ((compile_data-ok_iff decode c empty_trigger).1 (valid, refl)) in
    (
      t,
      compiled,
      (matches_data-compile_data_iff decode c t nil _ compiled refl).1 (record {
        named = refl;
        ungrouped = refl;
        device = inl refl;
        interface = inr (refl, refl);
        path = inr (record {
          segs = s.segs;
          rest = rest;
          parsed = parsed;
          below = refl;
          levels = fits_all-takes_all s.segs (split_on b'/' rest) s.fitting;
        });
        value = inr (unfold value_matches in refl);
      }),
    )
