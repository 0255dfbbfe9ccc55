-- ===== src/Triggers/Match/Served.antt =====
-- A compiled data condition matches exactly the events that its configuration describes.
use astrate.Base.{
  ◌≡◌, refl, sym, ap, ◌∙◌, ◌≢◌, ◌↔◌, ◌⊎◌, inl, inr, Bool, true, false, ◌&&◌, ◌||◌, not, Option,
  none, some, [], ◌∷◌, arith, str_eq, eq_iff, if◌then◌else◌, Bool-cases, ==_iff, is_empty,
  is_empty_iff, Result, ok, err, ok_injective, Bytes, eq_bytes, eq_bytes_iff, ℤ, pos, negsuc, eq_ℤ,
}
use astrate.Schema.Build.Raw.{get_or}
use astrate.Schema.Endpoint.{split_endpoint}
use astrate.Triggers.Value.{Value, value_matches}
use astrate.Triggers.Condition.{
  path_removed, has_word, data_ons, any_token, any_path, SimpleTriggerConfig, Trigger,
  empty_trigger,
}
use astrate.Triggers.Condition.Data.{
  KnownDecoder, path_segments, known_of, data_matcher, compile_data,
}
use astrate.Triggers.Condition.Accepts.{
  FitsInterface, FitsPath, IsDataCondition, compile_data-ok_iff,
}
use astrate.Triggers.Match.{
  DataEvent, path_matches, device_id_matches, filters_match, data_matches, matches_data,
}
use astrate.Triggers.Match.Formats.{is_ok}
use astrate.Triggers.Match.Fires.{OnPath, path_levels}
use astrate.Triggers.Match.Gate.{compile_data_sound}

-- The configured filters hold of the event.
pub record Fires (c : SimpleTriggerConfig) (known : Value) (ev : DataEvent) : Type 0 where
  pub named : c.on ≡ ev.on
  pub ungrouped : c.group_name ≡ []
  pub device : (c.device_id ≡ []) ⊎ ((c.device_id ≡ any_token) ⊎ (c.device_id ≡ ev.device_id))
  pub interface :
      (get_or [] c.interface_name ≡ any_token)
      ⊎ ((get_or [] c.interface_name ≡ ev.iface) × (c.interface_major ≡ some ev.major))
  pub path : (c.match_path ≡ any_path) ⊎ OnPath c.match_path ev.path
  pub value : (ev.on ≡ path_removed) ⊎ (value_matches c.value_match_operator ev.value known ≡ true)

eq_ℤ_iff : (a b : ℤ) → (eq_ℤ a b ≡ true) ↔ (a ≡ b)
eq_ℤ_iff (pos a) (pos b) = (λ h. ap pos ((==_iff a b).0 h), λ h. ground arith)
eq_ℤ_iff (negsuc a) (negsuc b) = (λ h. ap negsuc ((==_iff a b).0 h), λ h. ground arith)
eq_ℤ_iff (pos a) (negsuc b) = (λ h. cc, λ h. cc)
eq_ℤ_iff (negsuc a) (pos b) = (λ h. cc, λ h. cc)

or_true : (a b : Bool) → (a || b) ≡ true → (a ≡ true) ⊎ (b ≡ true)
or_true true b h = inl refl
or_true false b h = inr h

only_true : (b : Bool) → (b || false) ≡ true → b ≡ true
only_true true h = refl
only_true false h = h

and_true : (a b : Bool) → (a && b) ≡ true → (a ≡ true) × (b ≡ true)
and_true true b h = (refl, h)
and_true false b h = cc

device_id_matches_iff :
    (filter device : Bytes)
    → (device_id_matches filter device ≡ true)
      ↔ ((filter ≡ []) ⊎ ((filter ≡ any_token) ⊎ (filter ≡ device)))
unfolding device_id_matches
device_id_matches_iff filter device = (
  λ h. elim (or_true (is_empty filter || eq_bytes filter any_token) (eq_bytes filter device) h) [
    | inl two ↦ elim (or_true (is_empty filter) (eq_bytes filter any_token) two) [
      | inl e ↦ inl ((is_empty_iff filter).0 e)
      | inr e ↦ inr (inl ((eq_bytes_iff filter any_token).0 e))
    ]
    | inr e ↦ inr (inr ((eq_bytes_iff filter device).0 e))
  ],
  λ f. elim f [
    | inl e ↦ ground (arith, is_empty_iff filter)
    | inr (inl e) ↦ ground (arith, eq_bytes_iff filter any_token)
    | inr (inr e) ↦ ground (arith, eq_bytes_iff filter device)
  ],
)

-- The tests of `matches`, one by one.
abbrev Tests : Bool → Bool → Bool → Bool → Bool → Bool → Bool → Type 0
Tests evaluated same device other_iface other_path removed value =
    ((evaluated && same) ≡ true)
    × (device ≡ true)
    × (not other_iface ≡ true)
    × (not other_path ≡ true)
    × ((removed || value) ≡ true)

rules_iff :
    (evaluated same device other_iface other_path removed value : Bool)
    → ((if not evaluated || not same
          then false
          else if not (
              if not device
              then false
              else if other_iface
              then false
              else if other_path
              then false
              else true)
          then false
          else if removed
          then true
          else value)
        ≡ true)
      ↔ Tests evaluated same device other_iface other_path removed value
rules_iff true true true false false true value = (λ h. (refl, refl, refl, refl, refl), λ h. refl)
rules_iff true true true false false false value =
    (λ h. (refl, refl, refl, refl, h), λ (_, _, _, _, h). h)
rules_iff true true true false true removed value = (λ h. cc, λ (_, _, _, h, _). h)
rules_iff true true true true other_path removed value = (λ h. cc, λ (_, _, h, _, _). h)
rules_iff true true false other_iface other_path removed value = (λ h. cc, λ (_, h, _, _, _). h)
rules_iff true false device other_iface other_path removed value = (λ h. cc, λ (h, _, _, _, _). h)
rules_iff false same device other_iface other_path removed value = (λ h. cc, λ (h, _, _, _, _). h)

neither : (a b : Bool) → not (not a && not b) ≡ (a || b)
neither a b = ground arith

neither_both : (a b c : Bool) → not (not a && (not b || not c)) ≡ (a || (b && c))
neither_both a b c = ground arith

major_iff :
    (given : Option ℤ) (major : ℤ)
    → given ≢ none
    → (eq_ℤ (get_or (pos 0) given) major ≡ true) ↔ (given ≡ some major)
major_iff none major there = absurd (there refl)
major_iff (some n) major there =
    (λ h. ap some ((eq_ℤ_iff n major).0 h), λ h. (eq_ℤ_iff n major).1 (ground arith))

given_major :
    (given : Option ℤ) (major : ℤ) → given ≡ some major → eq_ℤ (get_or (pos 0) given) major ≡ true
given_major given major e = rw e ((eq_ℤ_iff major major).1 refl)

interface_iff :
    (c : SimpleTriggerConfig) (ev : DataEvent)
    → FitsInterface c
    → (not (
          not (eq_bytes (get_or [] c.interface_name) any_token)
          && (not (eq_bytes (get_or [] c.interface_name) ev.iface)
              || not (eq_ℤ (get_or (pos 0) c.interface_major) ev.major)))
        ≡ true)
      ↔ ((get_or [] c.interface_name ≡ any_token)
          ⊎ ((get_or [] c.interface_name ≡ ev.iface) × (c.interface_major ≡ some ev.major)))
interface_iff c ev fit =
    let name = get_or [] c.interface_name in
    let any = eq_bytes_iff name any_token in
    let same = eq_bytes_iff name ev.iface in
    rw
      (neither_both (eq_bytes name any_token) (eq_bytes name ev.iface)
        (eq_ℤ (get_or (pos 0) c.interface_major) ev.major))
      (
        λ h. elim (or_true _ _ h) [
          | inl e ↦ inl (any.0 e)
          | inr both ↦ elim fit [
            | inl (e, _, _) ↦ inl e
            | inr (_, there) ↦
                let (i, m) = and_true _ _ both in
                inr (same.0 i, (major_iff c.interface_major ev.major there).0 m)
          ]
        ],
        λ f. elim f [
          | inl e ↦ rw (any.1 e) refl
          | inr (i, m) ↦
              let j = same.1 i in let k = given_major c.interface_major ev.major m in ground arith
        ],
      )

pub is_ok-cases : {E A : Type 0} (r : Result E A) → is_ok r ≡ true → (a : A) × (r ≡ ok a)
is_ok-cases (ok a) h = (a, refl)
is_ok-cases (err e) h = cc

-- The filter by path, with the levels that compileData keeps.
kept_levels : Bytes → Bytes → Bool
unfolding eq_bytes
kept_levels pattern path =
    path_matches (if eq_bytes pattern any_path then [] else path_segments pattern) path

plain_path :
    (c : SimpleTriggerConfig) (path : Bytes)
    → FitsPath c
    → eq_bytes c.match_path any_path ≡ false
    → (kept_levels c.match_path path ≡ true) ↔ OnPath c.match_path path
plain_path c path (inl (e, _)) other = absurd (ground (arith, eq_bytes_iff c.match_path any_path))
plain_path c path (inr (parsed, _)) other =
    let (segs, p) = is_ok-cases (split_endpoint c.match_path) parsed in
    unfold kept_levels in rw other (path_levels c.match_path path segs p)

path_iff :
    (c : SimpleTriggerConfig) (path : Bytes)
    → FitsPath c
    → (not (not (eq_bytes c.match_path any_path) && not (kept_levels c.match_path path)) ≡ true)
      ↔ ((c.match_path ≡ any_path) ⊎ OnPath c.match_path path)
path_iff c path fit =
    let any = eq_bytes_iff c.match_path any_path in
    rw (neither (eq_bytes c.match_path any_path) (kept_levels c.match_path path)) (
      λ h. elim (Bool-cases (eq_bytes c.match_path any_path)) [
        | inl e ↦ inl (any.0 e)
        | inr n ↦ inr ((plain_path c path fit n).0 (ground arith))
      ],
      λ f. elim f [
        | inl e ↦ rw (any.1 e) refl
        | inr on ↦ elim (Bool-cases (eq_bytes c.match_path any_path)) [
          | inl e ↦ rw e refl
          | inr n ↦ let k = (plain_path c path fit n).1 on in ground arith
        ]
      ],
    )

matches_one :
    (c : SimpleTriggerConfig) (known : Value) (ev : DataEvent)
    → IsDataCondition c
    → (data_matches (data_matcher c known) ev ≡ true) ↔ Fires c known ev
unfolding data_matches filters_match kept_levels
matches_one c known ev v =
    let evaluated = has_word data_ons c.on && is_empty c.group_name in
    let other_iface =
      not (eq_bytes (get_or [] c.interface_name) any_token)
      && (not (eq_bytes (get_or [] c.interface_name) ev.iface)
          || not (eq_ℤ (get_or (pos 0) c.interface_major) ev.major)) in
    let other_path =
      not (eq_bytes c.match_path any_path) && not (kept_levels c.match_path ev.path) in
    let tests =
      rules_iff evaluated (str_eq c.on ev.on) (device_id_matches c.device_id ev.device_id)
        other_iface other_path (str_eq ev.on path_removed)
        (value_matches c.value_match_operator ev.value known) in
    let named = eq_iff c.on ev.on in
    let dev = device_id_matches_iff c.device_id ev.device_id in
    let ifc = interface_iff c ev v.interface in
    let pth = path_iff c ev.path v.path in
    (
      λ h.
          let (es, d, i, p, r) = tests.0 h in
          let (e, s) = and_true evaluated (str_eq c.on ev.on) es in
          record {
            named = named.0 s;
            ungrouped =
                (is_empty_iff c.group_name).0
                  ((and_true (has_word data_ons c.on) (is_empty c.group_name) e).1);
            device = dev.0 d;
            interface = ifc.0 i;
            path = pth.0 p;
            value = elim (or_true _ _ r) [
              | inl e ↦ inl ((eq_iff ev.on path_removed).0 e)
              | inr e ↦ inr e
            ];
          },
      λ f.
          let e = v.on in
          let g = (is_empty_iff c.group_name).1 f.ungrouped in
          let s = named.1 f.named in
          tests.1 (
            ground arith,
            dev.1 f.device,
            ifc.1 f.interface,
            pth.1 f.path,
            elim f.value [
              | inl e ↦ rw ((eq_iff ev.on path_removed).1 e) refl
              | inr e ↦ ground arith
            ],
          ),
    )

compiled_matchers :
    (decode : KnownDecoder) (c : SimpleTriggerConfig) (t : Trigger) (known : Value)
    → compile_data decode c empty_trigger ≡ ok t
    → known_of decode c.known_value ≡ ok known
    → t.data_matchers ≡ data_matcher c known ∷ []
compiled_matchers decode c t known compiled k =
    let (known', k', is) = compile_data_sound decode c empty_trigger t compiled in
    let same : known' ≡ known = ok_injective (sym k' ∙ k) in
    ap (λ u. u.data_matchers) is ∙ ap (λ v. data_matcher c v ∷ []) same

-- A compiled data condition matches an event exactly if the event has the condition's name, the
-- condition names no group, the device and the interface with its major version pass their filters,
-- the path fits the endpoint that match_path is, and the value passes the operator; a removed path
-- has no value.
pub matches_data-compile_data_iff :
    (decode : KnownDecoder) (c : SimpleTriggerConfig) (t : Trigger) (known : Value) (ev : DataEvent)
    → compile_data decode c empty_trigger ≡ ok t
    → known_of decode c.known_value ≡ ok known
    → (matches_data t ev ≡ true) ↔ Fires c known ev
unfolding matches_data
matches_data-compile_data_iff decode c t known ev compiled k =
    let only = compiled_matchers decode c t known compiled k in
    let accepted = (compile_data-ok_iff decode c empty_trigger).0 (rw compiled refl) in
    let one = matches_one c known ev accepted.0 in
    rw only
      (λ h. one.0 (only_true (data_matches (data_matcher c known) ev) h), λ f. rw (one.1 f) refl)
