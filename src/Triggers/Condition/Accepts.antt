-- ===== src/Triggers/Condition/Accepts.antt =====
-- Which data conditions compileData accepts: its error rules against one description of a condition.
use astrate.Base.{
  String, ◌≡◌, refl, sym, ◌∙◌, ◌≢◌, ◌↔◌, ◌⊎◌, inl, inr, Bool, true, false, ◌&&◌, not, none, List,
  [], ◌∷◌, ◌++◌, arith, str_eq, eq_iff, Bool-cases, any, is_empty, is_empty_iff, Result, ok, err,
  ◌>>=◌, ◌>>◌, reject_if, Bytes, eq_bytes, eq_bytes_iff, split_on,
}
use astrate.Schema.Build.Raw.{get_or}
use astrate.Schema.Build.Whole.{interface_name_ok, labels_ok}
use astrate.Schema.Endpoint.{split_endpoint}
use astrate.DeviceId.{parse}
use astrate.Triggers.Condition.{
  incoming_data, has_word, data_ons, value_operators, any_token, any_path, SimpleTriggerConfig,
  Trigger, TriggerError, fields, add_if, match_path_ok, device_id_errs, device_filter_errs,
}
use astrate.Triggers.Condition.Data.{
  presence_errs, interface_errs, path_errs, data_errs, KnownDecoder, data_matcher, known_of,
  note_data, compile_data,
}
use astrate.Triggers.Match.Formats.{is_ok, match_path_ok_lem}

-- A wildcard interface forces the condition and the path; any other is named with its major version.
abbrev pub FitsInterface : SimpleTriggerConfig → Type 0
FitsInterface c =
    ((get_or [] c.interface_name ≡ any_token) × (c.on ≡ incoming_data) × (c.match_path ≡ any_path))
    ⊎ ((interface_name_ok (get_or [] c.interface_name) ≡ true) × (c.interface_major ≢ none))

-- A wildcard path takes no operator; any other is an endpoint, with a value for the operator.
abbrev pub FitsPath : SimpleTriggerConfig → Type 0
FitsPath c =
    ((c.match_path ≡ any_path) × (c.value_match_operator ≡ "*"))
    ⊎ ((is_ok (split_endpoint c.match_path) ≡ true)
        × ((c.value_match_operator ≡ "*") ⊎ (c.known_value ≢ [])))

-- A device or a group, not both; a device is the wildcard or an identifier.
abbrev pub FitsDevice : Bytes → Bytes → Type 0
FitsDevice device_id group_name =
    (device_id ≡ [])
    ⊎ ((group_name ≡ []) × ((device_id ≡ any_token) ⊎ (is_ok (parse device_id) ≡ true)))

pub record IsDataCondition (c : SimpleTriggerConfig) : Type 0 where
  pub on : has_word data_ons c.on ≡ true
  pub operator : has_word value_operators c.value_match_operator ≡ true
  pub interface : FitsInterface c
  pub path : FitsPath c
  pub device : FitsDevice c.device_id c.group_name

is_empty-append : {A : Type 0} (xs ys : List A) → is_empty (xs ++ ys) ≡ (is_empty xs && is_empty ys)
is_empty-append [] ys = refl
is_empty-append (x ∷ xs) ys = refl

-- No table has the empty word.
has_word-nil :
    (words : List String) (w : String)
    → has_word words "" ≡ false
    → str_eq w "" ≡ true
    → has_word words w ≡ false
has_word-nil words w none_empty e = let is : w ≡ "" = (eq_iff w "").0 e in rw is none_empty

data_ons-nil : has_word data_ons "" ≡ false
unfolding has_word
data_ons-nil = refl

value_operators-nil : has_word value_operators "" ≡ false
unfolding has_word
value_operators-nil = refl

is_empty-add_if : (cond : Bool) (field msg : String) → is_empty (add_if cond field msg) ≡ not cond
is_empty-add_if true field msg = refl
is_empty-add_if false field msg = refl

-- The two rules on a word leave exactly the known words.
word_rules :
    (blank known : Bool)
    → (blank ≡ true → known ≡ false)
    → (not blank && not (not blank && not known)) ≡ known
word_rules true true h = sym (h refl)
word_rules true false h = refl
word_rules false true h = refl
word_rules false false h = refl

and_pairs : (a b c d e f : Bool) → (a && b && c && d && e && f) ≡ ((a && b) && (e && f) && c && d)
and_pairs a b c d e f = ground arith

presence_errs_lem :
    (c : SimpleTriggerConfig) (iface : Bytes)
    → is_empty (presence_errs c iface) ≡ (
        has_word data_ons c.on
        && has_word value_operators c.value_match_operator
        && not (is_empty iface)
        && not (is_empty c.match_path))
unfolding presence_errs
presence_errs_lem c iface =
    rw
      (
        is_empty-append,
        is_empty-append,
        is_empty-append,
        is_empty-append,
        is_empty-append,
        is_empty-add_if,
        is_empty-add_if,
        is_empty-add_if,
        is_empty-add_if,
        is_empty-add_if,
        is_empty-add_if,
        and_pairs,
        word_rules (str_eq c.on "") (has_word data_ons c.on)
            (has_word-nil data_ons c.on data_ons-nil),
        word_rules (str_eq c.value_match_operator "")
            (has_word value_operators c.value_match_operator)
            (has_word-nil value_operators c.value_match_operator value_operators-nil),
      )
      refl

device_filter_errs_iff :
    (device_id group_name : Bytes)
    → (is_empty (device_filter_errs device_id group_name) ≡ true) ↔ FitsDevice device_id group_name
unfolding device_filter_errs device_id_errs
device_filter_errs_iff device_id group_name = (
  λ h. elim (Bool-cases (is_empty device_id)) [
    | inl e ↦ inl ((is_empty_iff device_id).0 e)
    | inr e ↦ inr (
      (is_empty_iff group_name).0 (ground arith),
      elim (Bool-cases (eq_bytes device_id any_token)) [
        | inl any ↦ inl ((eq_bytes_iff device_id any_token).0 any)
        | inr other ↦ inr (ground arith)
      ],
    )
  ],
  λ fit. elim fit [
    | inl e ↦ rw e refl
    | inr (g, inl any) ↦ ground (arith, eq_bytes_iff device_id any_token, is_empty_iff group_name)
    | inr (g, inr id) ↦ ground (arith, is_empty_iff group_name)
  ],
)

bad_wildcard :
    (iface : Bytes) → interface_name_ok iface ≡ true → eq_bytes iface any_token ≡ true → ⊥
bad_wildcard iface i e = wildcard_name (rw ((eq_bytes_iff iface any_token).0 e) at i)
  where
    wildcard_name : interface_name_ok any_token ≢ true
    wildcard_name h = unfold interface_name_ok in unfold split_on in unfold labels_ok in cc

interface_errs_iff :
    (c : SimpleTriggerConfig)
    → is_empty (get_or [] c.interface_name) ≡ false
    → (is_empty (interface_errs c (get_or [] c.interface_name)) ≡ true) ↔ FitsInterface c
unfolding interface_errs
interface_errs_iff c there = elim (Bool-cases (eq_bytes (get_or [] c.interface_name) any_token)) [
  | inl e ↦ (
    λ h. inl (
      (eq_bytes_iff (get_or [] c.interface_name) any_token).0 e,
      ground (arith, eq_iff c.on incoming_data),
      ground (arith, eq_bytes_iff c.match_path any_path),
    ),
    λ fit. elim fit [
      | inl (i, o, p) ↦
          ground (arith, eq_iff c.on incoming_data, eq_bytes_iff c.match_path any_path)
      | inr (i, m) ↦ absurd (bad_wildcard (get_or [] c.interface_name) i e)
    ],
  )
  | inr e ↦ (
    λ h. inr (ground arith, ground arith),
    λ fit. elim fit [
      | inl (i, o, p) ↦ absurd (ground (arith, eq_bytes_iff (get_or [] c.interface_name) any_token))
      | inr (i, m) ↦ ground arith
    ],
  )
]

any_path-format : match_path_ok any_path ≡ false
unfolding match_path_ok
any_path-format = refl

not_blank : (op : String) → has_word value_operators op ≡ true → str_eq op "" ≡ false
not_blank op h = ground (arith, has_word-nil value_operators op value_operators-nil)

wildcard_path-no_endpoint :
    (path : Bytes) → eq_bytes path any_path ≡ true → is_ok (split_endpoint path) ≢ true
wildcard_path-no_endpoint path e h =
    let is : path ≡ any_path = (eq_bytes_iff path any_path).0 e in
    let bad : is_ok (split_endpoint any_path) ≡ true = rw is at h in
    ground (arith, match_path_ok_lem any_path, any_path-format)

path_errs_iff :
    (c : SimpleTriggerConfig)
    → is_empty c.match_path ≡ false
    → has_word value_operators c.value_match_operator ≡ true
    → (is_empty (path_errs c) ≡ true) ↔ FitsPath c
unfolding path_errs
path_errs_iff c there op = elim (Bool-cases (eq_bytes c.match_path any_path)) [
  | inl e ↦ (
    λ h. inl (
      (eq_bytes_iff c.match_path any_path).0 e,
      ground (arith, eq_iff c.value_match_operator "*", not_blank c.value_match_operator op),
    ),
    λ fit. elim fit [
      | inl (p, o) ↦ ground (arith, eq_iff c.value_match_operator "*")
      | inr (p, o) ↦ absurd (wildcard_path-no_endpoint c.match_path e p)
    ],
  )
  | inr e ↦ (
    λ h. inr (
      ground (arith, match_path_ok_lem c.match_path),
      elim (Bool-cases (str_eq c.value_match_operator "*")) [
        | inl any ↦ inl ((eq_iff c.value_match_operator "*").0 any)
        | inr other ↦
            inr
              (λ z. ground (arith, not_blank c.value_match_operator op, is_empty_iff c.known_value))
      ],
    ),
    λ fit. elim fit [
      | inl (p, o) ↦ absurd (ground (arith, eq_bytes_iff c.match_path any_path))
      | inr (p, inl o) ↦
          ground (arith, match_path_ok_lem c.match_path, eq_iff c.value_match_operator "*")
      | inr (p, inr o) ↦ ground (arith, match_path_ok_lem c.match_path, is_empty_iff c.known_value)
    ],
  )
]

four_parts :
    {A : Type 0} (xs ys zs us : List A)
    → is_empty (xs ++ ys ++ zs ++ us) ≡ (is_empty xs && is_empty ys && is_empty zs && is_empty us)
four_parts xs ys zs us = rw (is_empty-append, is_empty-append, is_empty-append) refl

FitsInterface-nonempty :
    (c : SimpleTriggerConfig) → FitsInterface c → is_empty (get_or [] c.interface_name) ≡ false
FitsInterface-nonempty c (inl (e, o, p)) = rw e refl
FitsInterface-nonempty c (inr (named, m)) = nonempty_name (get_or [] c.interface_name) named
  where
    nonempty_name : (name : Bytes) → interface_name_ok name ≡ true → is_empty name ≡ false
    nonempty_name [] h = unfold interface_name_ok in unfold split_on in unfold labels_ok in cc
    nonempty_name (x ∷ s) h = refl

FitsPath-nonempty : (c : SimpleTriggerConfig) → FitsPath c → is_empty c.match_path ≡ false
FitsPath-nonempty c (inl (e, o)) = rw e refl
FitsPath-nonempty c (inr (parsed, o)) = nonempty_path c.match_path parsed
  where
    nonempty_path : (path : Bytes) → is_ok (split_endpoint path) ≡ true → is_empty path ≡ false
    nonempty_path [] h = unfold split_endpoint in cc
    nonempty_path (x ∷ s) h = refl

four_true :
    (a b c d : Bool) → (a && b && c && d) ≡ true → (a ≡ true) × (b ≡ true) × (c ≡ true) × (d ≡ true)
four_true a b c d h = ground arith

false_of_not : (b : Bool) → not b ≡ true → b ≡ false
false_of_not true h = sym h
false_of_not false h = refl

data_errs_sound : (c : SimpleTriggerConfig) → is_empty (data_errs c) ≡ true → IsDataCondition c
unfolding data_errs
data_errs_sound c h =
    let iface = get_or [] c.interface_name in
    let parts =
      four_parts (presence_errs c iface) (interface_errs c iface)
        (device_filter_errs c.device_id c.group_name) (path_errs c) in
    let (presence, i, d, p) =
      four_true (is_empty (presence_errs c iface)) (is_empty (interface_errs c iface))
        (is_empty (device_filter_errs c.device_id c.group_name)) (is_empty (path_errs c))
        (sym parts ∙ h) in
    let (on, op, named, rooted_path) =
      four_true (has_word data_ons c.on) (has_word value_operators c.value_match_operator)
        (not (is_empty iface)) (not (is_empty c.match_path))
        (sym (presence_errs_lem c iface) ∙ presence) in
    record {
      on = on;
      operator = op;
      interface = (interface_errs_iff c (false_of_not (is_empty iface) named)).0 i;
      path = (path_errs_iff c (false_of_not (is_empty c.match_path) rooted_path) op).0 p;
      device = (device_filter_errs_iff c.device_id c.group_name).0 d;
    }

data_errs_complete : (c : SimpleTriggerConfig) → IsDataCondition c → is_empty (data_errs c) ≡ true
unfolding data_errs
data_errs_complete c v =
    let iface = get_or [] c.interface_name in
    let parts =
      four_parts (presence_errs c iface) (interface_errs c iface)
        (device_filter_errs c.device_id c.group_name) (path_errs c) in
    let present = presence_errs_lem c iface in
    let named = FitsInterface-nonempty c v.interface in
    let rooted_path = FitsPath-nonempty c v.path in
    let i = (interface_errs_iff c named).1 v.interface in
    let p = (path_errs_iff c rooted_path v.operator).1 v.path in
    let d = (device_filter_errs_iff c.device_id c.group_name).1 v.device in
    let o = v.on in let w = v.operator in ground arith

guarded_ok :
    {A B : Type 0} (clean : Bool) (e : TriggerError) (r : Result TriggerError A) (f : A → B)
    → is_ok (reject_if (not clean) e >> (r >>= λ v. ok (f v))) ≡ (clean && is_ok r)
guarded_ok true e (ok v) f = refl
guarded_ok true e (err x) f = refl
guarded_ok false e r f = refl

compile_data_lem :
    (decode : KnownDecoder) (c : SimpleTriggerConfig) (t : Trigger)
    → is_ok (compile_data decode c t)
      ≡ (is_empty (data_errs c) && is_ok (known_of decode c.known_value))
unfolding compile_data
compile_data_lem decode c t =
    guarded_ok (is_empty (data_errs c)) (fields (data_errs c)) (known_of decode c.known_value)
      (λ known. record (note_data c t) {
        data_matchers = t.data_matchers ++ data_matcher c known ∷ [];
      })

pub compile_data-ok_iff :
    (decode : KnownDecoder) (c : SimpleTriggerConfig) (t : Trigger)
    → (is_ok (compile_data decode c t) ≡ true)
      ↔ (IsDataCondition c × (is_ok (known_of decode c.known_value) ≡ true))
compile_data-ok_iff decode c t =
    rw (compile_data_lem decode c t) (
      λ h. (data_errs_sound c (ground arith), ground arith),
      λ (v, k). rw (data_errs_complete c v) k,
    )
