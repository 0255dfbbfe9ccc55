-- ===== src/Engine/Data/Accepted.antt =====
-- What an accepted message has passed: its op in terms of the topic, the interface and the trie.
use astrate.Base.{
  String, ◌≡◌, refl, sym, ap, ◌∙◌, inl, inr, true, false, Option, none, some, List, [], ◌∷◌, ◌++◌,
  arith, ◌==◌, ◌≢◌, subst, ℤ, if◌then◌else◌, Bool-cases, Option-cases, ==_iff, ok, err, Bytes,
  split_on,
}
use astrate.Schema.Types.{
  InterfaceType, properties, datastream, Ownership, device, server, Aggregation, individual, object,
}
use astrate.Schema.Definition.{CompiledMapping}
use astrate.Schema.Endpoint.{Segment}
use astrate.Schema.Trie.{Node, match}
use astrate.Schema.Trie.Store.{stored}
use astrate.Schema.Trie.Meaning.{fits_all, match_sound_complete, match-unrooted, match-nil}
use astrate.Schema.Compile.{CompiledInterface, Leaves}
use astrate.Schema.Build.Raw.{get_or}
use astrate.Payload.Sniff.{Format}
use astrate.Engine.Introspection.{InterfaceVersion}
use astrate.Engine.Topics.{match_interface}
use astrate.Engine.Topics.Longest.{IsLongest, match_interface-IsLongest}
use astrate.Engine.Rows.{
  OpKind, op_individual, op_object, op_property_set, op_property_unset, PersistOp,
}
use astrate.Triggers.Value.{Value, nil, is_nil}
use astrate.Engine.Data.{
  InboundMessage, DecodedPayload, Decoded, Decoders, RealmSchema, rejected, accepted,
  is_some_mapping, object_path_ok, op_of, conclude, decode_matched, decode_by, decode_message,
  op_kind, is_device, process_on, process_at, process_data,
}

-- A pattern with the mapping fits the path.
pub record Holds (t : Node) (path : Bytes) (cm : CompiledMapping) : Type 0 where
  pub rest : Bytes
  pub rooted_at : path ≡ b'/' ∷ rest
  pub segs : List Segment
  pub fitting : fits_all segs (split_on b'/' rest) ≡ true
  pub stored_as : stored segs t ≡ some cm

match-Holds :
    (t : Node) (path : Bytes) (cm : CompiledMapping)
    → match (some t) path ≡ some cm
    → Holds t path cm
match-Holds t [] cm h = absurd (ground (arith, match-nil t))
match-Holds t (c ∷ rest) cm h = elim (Bool-cases (c == b'/')) [
  | inl e ↦
      let is : c ≡ b'/' = (==_iff c b'/').0 e in
      let (segs, f, s) = (match_sound_complete t rest).0 cm (rw is at h) in
      record {
        rest = rest;
        rooted_at = ap (λ x. x ∷ rest) is;
        segs = segs;
        fitting = f;
        stored_as = s;
      }
  | inr n ↦ absurd (ground (arith, match-unrooted t c rest n))
]

-- Some leaf below the path is an endpoint.
object_path_ok_sound :
    (ci : CompiledInterface) (path : Bytes)
    → object_path_ok ci path ≡ true
    → (leaf : Bytes) × (cm : CompiledMapping) × Holds ci.trie (path ++ b'/' ∷ leaf) cm
unfolding object_path_ok
object_path_ok_sound ci path h = first_leaf (get_or [] ci.object_leaves) h
  where
    first_leaf :
        (leaves : Leaves)
        → elim leaves [
          | [] ↦ false
          | leaf ∷ _ ↦ is_some_mapping (match (some ci.trie) (path ++ b'/' ∷ leaf.0))
        ]
          ≡ true
        → (leaf : Bytes) × (cm : CompiledMapping) × Holds ci.trie (path ++ b'/' ∷ leaf) cm
    first_leaf [] h = cc
    first_leaf (leaf ∷ leaves) h =
        elim (Option-cases (match (some ci.trie) (path ++ b'/' ∷ leaf.0))) [
          | inl e ↦ absurd (ground arith)
          | inr (cm, e) ↦ (leaf.0, cm, match-Holds ci.trie (path ++ b'/' ∷ leaf.0) cm e)
        ]

-- What the path and the payload of an op came from.
abbrev Served :
    Decoders
    → InboundMessage
    → CompiledInterface
    → Option CompiledMapping
    → Bytes
    → DecodedPayload
    → Type 0
Served dec m ci (some cm) path dp =
    Holds ci.trie path cm × (dec.decode_individual m.payload cm ≡ ok dp)
Served dec m ci none path dp =
    ((leaf : Bytes) × (cm : CompiledMapping) × Holds ci.trie (path ++ b'/' ∷ leaf) cm)
    × (dec.decode_object m.payload ci.object_leaves ≡ ok dp)

-- The kind of an op: a property is unset by a nil value, and set by any other; the data of a stream
-- is one value or an object.
pub data HasKind : InterfaceType → Aggregation → Value → OpKind → Type 0 where
  unset : {a : Aggregation} → HasKind properties a nil op_property_unset
  set : {a : Aggregation} {v : Value} → v ≢ nil → HasKind properties a v op_property_set
  one_value : {v : Value} → HasKind datastream individual v op_individual
  one_object : {v : Value} → HasKind datastream object v op_object

-- The time of an op: that of the payload, or else of the reception.
pub data HasTime (received : ℤ) : Option ℤ → ℤ → Type 0 where
  of_payload : (ts : ℤ) → HasTime received (some ts) ts
  of_reception : HasTime received none received

is_nil-nil : (v : Value) → is_nil v ≡ true → v ≡ nil
is_nil-nil nil h = refl
is_nil-nil _ h = cc

op_kind-HasKind :
    (ci : CompiledInterface) (dp : DecodedPayload)
    → HasKind ci.type ci.aggregation dp.value (op_kind ci dp)
unfolding op_kind
op_kind-HasKind ci dp = kind_of ci.type ci.aggregation dp.value
  where
    kind_of :
        (type : InterfaceType) (aggregation : Aggregation) (v : Value)
        → HasKind type aggregation v (elim type [
          | properties ↦ if is_nil v then op_property_unset else op_property_set
          | datastream ↦ elim aggregation [ object ↦ op_object | individual ↦ op_individual ]
        ])
    kind_of datastream individual v = one_value
    kind_of datastream object v = one_object
    kind_of properties a v = elim (Bool-cases (is_nil v)) [
      | inl e ↦ rw (is_nil-nil v e) unset
      | inr e ↦ rw e (set (λ z. cc))
    ]

get_or-HasTime : (received : ℤ) (ts : Option ℤ) → HasTime received ts (get_or received ts)
get_or-HasTime received none = of_reception
get_or-HasTime received (some ts) = of_payload ts

pub record IsAccepted (dec : Decoders) (m : InboundMessage) (realm : RealmSchema)
    (declares : Bytes → Option InterfaceVersion) (rest : Bytes) (op : PersistOp) : Type 0 where
  pub name : Bytes
  pub version : InterfaceVersion
  pub longest : IsLongest declares rest name op.path version
  pub installed : realm.iface name version.major ≡ some op.iface
  pub owned : op.iface.ownership ≡ device
  pub payload : DecodedPayload
  pub served : Served dec m op.iface op.mapping op.path payload
  pub value : op.value ≡ payload.value
  pub kind : HasKind op.iface.type op.iface.aggregation payload.value op.kind
  pub time : HasTime m.received_at payload.timestamp op.ts
  pub reception_time : op.reception_ts ≡ m.received_at
  pub ids : (op.realm_id ≡ realm.id) × (op.device_id ≡ m.device_id) × (op.ticket ≡ m.ticket)
  pub unbroken : op.broken ≡ false

accepted_injective :
    {op op' : PersistOp} {f f' : Format} → accepted op f ≡ accepted op' f' → op ≡ op'
accepted_injective h = cc

conclude_sound :
    (m : InboundMessage) (realm : RealmSchema) (ci : CompiledInterface)
    (mapping : Option CompiledMapping) (path : Bytes) (r : Decoded) (op : PersistOp) (f : Format)
    → conclude m realm ci mapping path r ≡ accepted op f
    → (dp : DecodedPayload) × (r ≡ ok dp) × (op ≡ op_of m realm ci mapping path dp)
unfolding conclude
conclude_sound m realm ci mapping path (ok dp) op f h = (dp, refl, sym (accepted_injective h))
conclude_sound m realm ci mapping path (err none) op f h = cc
conclude_sound m realm ci mapping path (err (some reason)) op f h = cc

abbrev Decided :
    Decoders → InboundMessage → RealmSchema → CompiledInterface → Bytes → PersistOp → Type 0
Decided dec m realm ci path op =
    (mapping : Option CompiledMapping) × (dp : DecodedPayload) × Served dec m ci mapping path dp
    × (op ≡ op_of m realm ci mapping path dp)

object_sound :
    (dec : Decoders) (m : InboundMessage) (realm : RealmSchema) (ci : CompiledInterface)
    (path : Bytes) (op : PersistOp) (f : Format)
    → object_path_ok ci path ≡ true
    → conclude m realm ci none path (dec.decode_object m.payload ci.object_leaves) ≡ accepted op f
    → Decided dec m realm ci path op
object_sound dec m realm ci path op f fits h =
    let (dp, decoded, stamped) =
      conclude_sound m realm ci none path (dec.decode_object m.payload ci.object_leaves) op f h in
    (none, dp, (object_path_ok_sound ci path fits, decoded), stamped)

individual_sound :
    (dec : Decoders) (m : InboundMessage) (realm : RealmSchema) (ci : CompiledInterface)
    (path : Bytes) (op : PersistOp) (f : Format) (cm : CompiledMapping)
    → match (some ci.trie) path ≡ some cm
    → conclude m realm ci (some cm) path (dec.decode_individual m.payload cm) ≡ accepted op f
    → Decided dec m realm ci path op
individual_sound dec m realm ci path op f cm found h =
    let (dp, decoded, stamped) =
      conclude_sound m realm ci (some cm) path (dec.decode_individual m.payload cm) op f h in
    (some cm, dp, (match-Holds ci.trie path cm found, decoded), stamped)

rejected_accepted :
    {reason : String} {op : PersistOp} {f : Format} → rejected reason ≡ accepted op f → ⊥
rejected_accepted h = cc

matched_sound :
    (dec : Decoders) (m : InboundMessage) (realm : RealmSchema) (ci : CompiledInterface)
    (path : Bytes) (op : PersistOp) (f : Format) (mapping : Option CompiledMapping)
    → match (some ci.trie) path ≡ mapping
    → decode_matched mapping dec m realm ci path ≡ accepted op f
    → Decided dec m realm ci path op
matched_sound dec m realm ci path op f none found h = absurd (rejected_accepted h)
matched_sound dec m realm ci path op f (some cm) found h =
    individual_sound dec m realm ci path op f cm found h

decode_by_sound :
    (aggregation : Aggregation) (dec : Decoders) (m : InboundMessage) (realm : RealmSchema)
    (ci : CompiledInterface) (path : Bytes) (op : PersistOp) (f : Format)
    → decode_by aggregation dec m realm ci path ≡ accepted op f
    → Decided dec m realm ci path op
decode_by_sound object dec m realm ci path op f h = elim (Bool-cases (object_path_ok ci path)) [
  | inl e ↦ object_sound dec m realm ci path op f e (rw e at h)
  | inr e ↦ absurd (rejected_accepted (rw e at h))
]
decode_by_sound individual dec m realm ci path op f h =
    matched_sound dec m realm ci path op f (match (some ci.trie) path) refl h

decode_message_sound :
    (dec : Decoders) (m : InboundMessage) (realm : RealmSchema) (ci : CompiledInterface)
    (path : Bytes) (op : PersistOp) (f : Format)
    → decode_message dec m realm ci path ≡ accepted op f
    → Decided dec m realm ci path op
unfolding decode_message
decode_message_sound dec m realm ci path op f h =
    decode_by_sound ci.aggregation dec m realm ci path op f h

op_of-iface :
    (m : InboundMessage) (realm : RealmSchema) (ci : CompiledInterface)
    (mapping : Option CompiledMapping) (path : Bytes) (dp : DecodedPayload) (op : PersistOp)
    → op ≡ op_of m realm ci mapping path dp
    → (op.iface ≡ ci) × (op.mapping ≡ mapping) × (op.path ≡ path)
unfolding op_of
op_of-iface m realm ci mapping path dp op e =
    (ap (λ o. o.iface) e, ap (λ o. o.mapping) e, ap (λ o. o.path) e)

owner : (o : Ownership) → is_device o ≡ true → o ≡ device
owner device h = refl
owner server h = cc

accept :
    (dec : Decoders) (m : InboundMessage) (realm : RealmSchema)
    (declares : Bytes → Option InterfaceVersion) (rest name path : Bytes) (ver : InterfaceVersion)
    (ci : CompiledInterface) (op : PersistOp)
    → match_interface declares rest ≡ some (name, path, ver)
    → realm.iface name ver.major ≡ some ci
    → ci.ownership ≡ device
    → Decided dec m realm ci path op
    → IsAccepted dec m realm declares rest op
unfolding op_of
accept dec m realm declares rest name path ver ci op found there own
      (mapping, dp, served, stamped) =
    let (i, k, p) = op_of-iface m realm ci mapping path dp op stamped in
    record {
      name = name;
      version = ver;
      longest = rw p ((match_interface-IsLongest declares rest).1 name path ver found);
      installed = there ∙ ap some (sym i);
      owned = rw i own;
      payload = dp;
      served = rw (i, k, p) served;
      value = ap (λ o. o.value) stamped;
      kind =
          subst (λ (o : PersistOp). HasKind o.iface.type o.iface.aggregation dp.value o.kind)
            (sym stamped) (op_kind-HasKind ci dp);
      time =
          subst (λ (o : PersistOp). HasTime m.received_at dp.timestamp o.ts) (sym stamped)
            (get_or-HasTime m.received_at dp.timestamp);
      reception_time = ap (λ o. o.reception_ts) stamped;
      ids =
          (ap (λ o. o.realm_id) stamped, ap (λ o. o.device_id) stamped, ap (λ o. o.ticket) stamped);
      unbroken = ap (λ o. o.broken) stamped;
    }

process_on_sound :
    (dec : Decoders) (m : InboundMessage) (realm : RealmSchema)
    (declares : Bytes → Option InterfaceVersion) (rest name path : Bytes) (ver : InterfaceVersion)
    (installed : Option CompiledInterface) (op : PersistOp) (f : Format)
    → match_interface declares rest ≡ some (name, path, ver)
    → realm.iface name ver.major ≡ installed
    → process_on installed dec m realm path ≡ accepted op f
    → IsAccepted dec m realm declares rest op
process_on_sound dec m realm declares rest name path ver none op f found there h =
    absurd (rejected_accepted h)
process_on_sound dec m realm declares rest name path ver (some ci) op f found there h =
    elim (Bool-cases (is_device ci.ownership)) [
      | inl own ↦
          accept dec m realm declares rest name path ver ci op found there (owner ci.ownership own)
            (decode_message_sound dec m realm ci path op f (rw own at h))
      | inr other ↦ absurd (rejected_accepted (rw other at h))
    ]

process_at_sound :
    (dec : Decoders) (m : InboundMessage) (realm : RealmSchema)
    (declares : Bytes → Option InterfaceVersion) (rest : Bytes)
    (found : Option (Bytes × Bytes × InterfaceVersion)) (op : PersistOp) (f : Format)
    → match_interface declares rest ≡ found
    → process_at found dec m realm ≡ accepted op f
    → IsAccepted dec m realm declares rest op
process_at_sound dec m realm declares rest none op f e h = absurd (rejected_accepted h)
process_at_sound dec m realm declares rest (some (name, path, ver)) op f e h =
    process_on_sound dec m realm declares rest name path ver (realm.iface name ver.major) op f e
      refl h

-- An accepted message names a device-owned interface, installed at the declared major version, by the
-- longest declared prefix of its topic; its path fits a pattern that is stored with the mapping of
-- the op, or with a leaf behind it a pattern of the object; and the op carries the decoded value, the
-- ids of the message and the realm, the payload's time or else that of the reception, and a kind:
-- one value or an object of a datastream, or a property that a nil value unsets and any other sets.
pub process_data-IsAccepted :
    (dec : Decoders) (m : InboundMessage) (realm : RealmSchema)
    (declares : Bytes → Option InterfaceVersion) (rest : Bytes) (op : PersistOp) (f : Format)
    → process_data dec m realm declares rest ≡ accepted op f
    → IsAccepted dec m realm declares rest op
unfolding process_data
process_data-IsAccepted dec m realm declares rest op f h =
    process_at_sound dec m realm declares rest (match_interface declares rest) op f refl h
