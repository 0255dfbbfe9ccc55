-- ===== src/Engine/Data.antt =====
-- internal/engine/data.go: handle and processData, from a message to its op, and noteFormat. The
-- payload decoders, the schema snapshot and the device cache are parameters: a decoder answers a
-- payload or a reject reason, or none for an error without one. The lookup of previous values and the
-- metrics are left out.
pub mod Accepted
use astrate.Base.{
  ℕ, ◌+◌, ◌-◌, String, Bool, true, false, not, Option, none, some, [], ◌∷◌, ◌++◌, if◌then◌else◌,
  Result, ok, err, Bytes, ℤ,
}
use astrate.Schema.Types.{
  properties, datastream, Ownership, device, server, Aggregation, individual, object,
}
use astrate.Schema.Definition.{CompiledMapping}
use astrate.Schema.Trie.{match}
use astrate.Schema.Compile.{CompiledInterface, Leaves}
use astrate.Schema.Build.Raw.{get_or}
use astrate.DeviceId.{Id16, to_string}
use astrate.Payload.Sniff as Payload
use astrate.Payload.Sniff.{Format}
use astrate.Triggers.Value.{Value, is_nil}
use astrate.Engine.Introspection.{InterfaceVersion}
use astrate.Engine.Topics.{
  TopicKind, introspection, capabilities, control, data_publish, split_device_topic, classify,
  match_interface,
}
use astrate.Engine.Rows.{
  OpKind, op_individual, op_object, op_property_set, op_property_unset, PersistOp,
}

-- `broker.InboundMessage`; `ticket` stands for its acknowledgement.
pub record InboundMessage : Type 0 where
  pub realm : Bytes
  pub device_id : Id16
  pub topic : Bytes
  pub payload : Bytes
  pub received_at : ℤ
  pub ticket : ℕ

-- `payload.DecodedPayload`; the value of an unset is nil.
pub record DecodedPayload : Type 0 where
  pub value : Value
  pub timestamp : Option ℤ
  pub format : Format

abbrev pub is_unset : DecodedPayload → Bool
is_unset dp = is_nil dp.value

-- The decoders of pkg/payload; an error carries its reject reason, if it has one.
abbrev pub Decoded : Type 0
Decoded = Result (Option String) DecodedPayload

pub record Decoders : Type 0 where
  pub decode_object : Bytes → Option Leaves → Decoded
  pub decode_individual : Bytes → CompiledMapping → Decoded

-- `realmSchema`: its storage id, and `iface`.
pub record RealmSchema : Type 0 where
  pub id : ℤ
  pub iface : Bytes → ℕ → Option CompiledInterface

-- What happens to a message: a rejection and a consumption acknowledge it, an accepted one is
-- acknowledged with its op.
pub data Verdict : Type 0 where
  rejected : String → Verdict
  consumed : Verdict
  accepted : PersistOp → Format → Verdict

abbrev pub is_some_mapping : Option CompiledMapping → Bool
is_some_mapping none = false
is_some_mapping (some _) = true

-- `objectPathOK`: the loop over the leaves returns in its first round, whichever leaf that is.
unfoldable pub object_path_ok : CompiledInterface → Bytes → Bool
object_path_ok ci prefix = elim (get_or [] ci.object_leaves) [
  | [] ↦ false
  | leaf ∷ _ ↦ is_some_mapping (match (some ci.trie) (prefix ++ b'/' ∷ leaf.0))
]

-- The switch over the kinds at the end of `processData`.
unfoldable pub op_kind : CompiledInterface → DecodedPayload → OpKind
op_kind ci dp = elim ci.type [
  | properties ↦ if is_unset dp then op_property_unset else op_property_set
  | datastream ↦ elim ci.aggregation [ object ↦ op_object | individual ↦ op_individual ]
]

unfoldable pub op_of :
    InboundMessage
    → RealmSchema
    → CompiledInterface
    → Option CompiledMapping
    → Bytes
    → DecodedPayload
    → PersistOp
unfolding op_kind
op_of m realm ci mapping path dp = record {
  kind = op_kind ci dp;
  realm_id = realm.id;
  device_id = m.device_id;
  iface = ci;
  mapping = mapping;
  path = path;
  value = dp.value;
  ts = get_or m.received_at dp.timestamp;
  reception_ts = m.received_at;
  ticket = m.ticket;
  broken = false;
}

-- After the decoder: an error is a rejection with its reason, or consumed as an internal error.
unfoldable pub conclude :
    InboundMessage
    → RealmSchema
    → CompiledInterface
    → Option CompiledMapping
    → Bytes
    → Decoded
    → Verdict
unfolding op_of
conclude m realm ci mapping path (ok dp) = accepted (op_of m realm ci mapping path dp) dp.format
conclude m realm ci mapping path (err none) = consumed
conclude m realm ci mapping path (err (some reason)) = rejected reason

abbrev pub decode_matched :
    Option CompiledMapping
    → Decoders
    → InboundMessage
    → RealmSchema
    → CompiledInterface
    → Bytes
    → Verdict
decode_matched none dec m realm ci path = rejected "unexpected_path"
decode_matched (some mapping) dec m realm ci path =
    conclude m realm ci (some mapping) path (dec.decode_individual m.payload mapping)

-- The two branches of `processData` between the ownership and the decoded payload.
abbrev pub decode_by :
    Aggregation → Decoders → InboundMessage → RealmSchema → CompiledInterface → Bytes → Verdict
decode_by object dec m realm ci path =
    if not (object_path_ok ci path)
    then rejected "unexpected_path"
    else conclude m realm ci none path (dec.decode_object m.payload ci.object_leaves)
decode_by individual dec m realm ci path =
    decode_matched (match (some ci.trie) path) dec m realm ci path

unfoldable pub decode_message :
    Decoders → InboundMessage → RealmSchema → CompiledInterface → Bytes → Verdict
unfolding object_path_ok conclude
decode_message dec m realm ci path = decode_by ci.aggregation dec m realm ci path

abbrev pub is_device : Ownership → Bool
is_device device = true
is_device server = false

-- `processData` from the installed interface on, and from the declared one.
abbrev pub process_on :
    Option CompiledInterface → Decoders → InboundMessage → RealmSchema → Bytes → Verdict
process_on none dec m realm path = rejected "interface_not_installed"
process_on (some ci) dec m realm path =
    if not (is_device ci.ownership)
    then rejected "ownership_violation"
    else decode_message dec m realm ci path

abbrev pub process_at :
    Option (Bytes × Bytes × InterfaceVersion) → Decoders → InboundMessage → RealmSchema → Verdict
process_at none dec m realm = rejected "interface_not_in_introspection"
process_at (some (name, path, ver)) dec m realm =
    process_on (realm.iface name ver.major) dec m realm path

-- `processData`.
unfoldable pub process_data :
    Decoders → InboundMessage → RealmSchema → (Bytes → Option InterfaceVersion) → Bytes → Verdict
unfolding decode_message
process_data dec m realm declares rest = process_at (match_interface declares rest) dec m realm

-- The state of a device's format hint: `formatHint` is json or not, `resetHintOnBSON` is armed or not.
pub record FormatHint : Type 0 where
  pub json : Bool
  pub reset_on_bson : Bool

-- `noteFormat`, with the hint that is persisted, if it flips: true for json.
unfoldable pub note_format : Format → FormatHint → FormatHint × Option Bool
note_format Payload.json h =
    (record { json = true; reset_on_bson = false }, if h.json then none else some true)
note_format Payload.bson h =
    if h.reset_on_bson
    then (record { json = false; reset_on_bson = false }, if h.json then some false else none)
    else (h, none)
note_format _ h = (h, none)

-- Where a message goes after the topic is split.
pub data Route : Type 0 where
  refuse : String → Route
  handler : TopicKind → Bytes → Route
  publish : Bytes → Route

-- The switch of `handle` over the kinds; a control message carries its subpath.
abbrev pub route_of : TopicKind × Bytes → Bytes → Route
route_of (data_publish, _) rest = publish rest
route_of (introspection, subpath) rest = handler introspection subpath
route_of (capabilities, subpath) rest = handler capabilities subpath
route_of (control, subpath) rest = handler control subpath

-- `handle`, up to the handlers and the device cache.
unfoldable pub route_message : InboundMessage → Option RealmSchema → Route
unfolding to_string split_device_topic
route_message m none = refuse "realm_unknown"
route_message m (some realm) = elim (split_device_topic m.topic m.realm (to_string m.device_id)) [
  | none ↦ refuse "malformed_topic"
  | some rest ↦ route_of (classify rest) rest
]
