-- ===== src/Engine/Topics.antt =====
-- internal/engine/topics.go: the split of a device topic, its kind, and its interface.
pub mod Split
pub mod Longest
use astrate.Base.{
  ℕ, zero, suc, ◌+◌, ◌-◌, ◌||◌, not, Option, none, some, [], ◌∷◌, ltb, ◌==◌, if◌then◌else◌, length,
  is_empty, take, drop, Bytes, codes, eq_bytes, cut_prefix,
}

pub data TopicKind : Type 0 where
  introspection capabilities control data_publish : TopicKind

-- The length of an encoded device id.
abbrev pub device_id_length : ℕ
device_id_length = 22

-- `splitDeviceTopic`; `id` is the encoded device id.
unfoldable pub split_device_topic : Bytes → Bytes → Bytes → Option Bytes
unfolding eq_bytes
split_device_topic topic realm id =
    let root = length realm + 1 + device_id_length in
    if ltb (length topic) root
      || not (eq_bytes (take (length realm) topic) realm)
      || not (eq_bytes (take 1 (drop (length realm) topic)) (codes "/"))
      || not (eq_bytes (take device_id_length (drop (length realm + 1) topic)) id)
    then none
    else elim (drop root topic) [ [] ↦ some [] | c ∷ rest ↦ if c == b'/' then some rest else none ]

-- `classify`: the kind, and the subpath of a control topic.
pub classify : Bytes → TopicKind × Bytes
classify rest =
    if is_empty rest
    then (introspection, [])
    else if eq_bytes rest (codes "capabilities")
    then (capabilities, [])
    else if eq_bytes rest (codes "control")
    then (control, [])
    else elim (cut_prefix (codes "control/") rest) [
      | some subpath ↦ (control, subpath)
      | none ↦ (data_publish, [])
    ]

-- `strings.LastIndexByte`.
unfoldable pub last_index : ℕ → Bytes → Option ℕ
last_index c [] = none
last_index c (x ∷ s) =
    let later = last_index c s in
    elim later [ some i ↦ some (suc i) | none ↦ if x == c then some 0 else none ]

-- The loop of `matchInterface`, from the prefix of length `end`, with a bound on its rounds: `none` is a
-- loop that has not returned within them.
unfoldable pub match_from :
    {V : Type 0} → (Bytes → Option V) → ℕ → Bytes → ℕ → Option (Option (Bytes × Bytes × V))
match_from declares zero rest end = none
match_from declares (suc rounds) rest end = elim (declares (take end rest)) [
  | some v ↦ some (some (take end rest, drop end rest, v))
  | none ↦ elim (last_index b'/' (take end rest)) [
    | none ↦ some none
    | some i ↦ match_from declares rounds rest i
  ]
]

-- `matchInterface`: every round shortens the prefix, so as many rounds as the text is long, and one, are enough.
unfoldable pub match_interface :
    {V : Type 0} → (Bytes → Option V) → Bytes → Option (Bytes × Bytes × V)
match_interface declares rest = elim (match_from declares (suc (length rest)) rest (length rest)) [
  | none ↦ none
  | some answer ↦ answer
]
