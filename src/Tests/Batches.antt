-- ===== src/Tests/Batches.antt =====
-- The theorems on batches at a sample batch, with a database that keeps the rows of datastreams.
use astrate.Base.{
  ◌+◌, ◌≡◌, refl, false, Option, none, some, List, [], ◌∷◌, ◌++◌, ◌==◌, if◌then◌else◌, All, ok, err,
  Bytes, codes, eq_bytes, contains_byte, cut, pos,
}
use astrate.Schema.Trie.{
  lookup_kid, placeholder_value_ok, below_literal, below_param, match_level, match_node, match,
}
use mathlib.Core.List.{append_assoc}
use astrate.Engine.Batch.Durable.{Keeps, IsDurable}
use astrate.Engine.Batch.Observed.{AllStored, flush-AllStored}
use astrate.Payload.Sniff.{Format}
use astrate.Engine.Introspection.{InterfaceVersion}
use astrate.Engine.Topics.{last_index, match_from, match_interface}
use astrate.Engine.Data.{
  InboundMessage, Decoders, RealmSchema, accepted, op_kind, op_of, conclude, decode_message,
  process_data,
}
use astrate.Engine.Data.Accepted.{IsAccepted, process_data-IsAccepted}
use astrate.Schema.Types.{is_array}
use astrate.Schema.Tests.{compiled_sensor, compiled_sensors}
use astrate.Triggers.Value.{float64, string}
use astrate.Engine.Rows.{
  op_individual, PersistOp, Marshal, ObjectRow, IndividualRow, scalar_column, column_of,
  individual_row, value_double,
}
use astrate.Engine.Batch.{
  Store, World, Wait, live, finalize, commit_rows, act_of, commit_loop, flush_loop, flush_ops,
  flush,
}
use astrate.Engine.Batch.Balance.{count, due, Balance}
use astrate.Engine.Batch.Once.{flush-Balance}
use astrate.Engine.Batch.Complete.{IsAnswering, flush_complete}

abbrev rows_store : Store (List IndividualRow)
rows_store = record {
  upsert_property = λ p s. (s, none);
  unset_property = λ op s. (s, none);
  append_datastreams = λ is os s. (s ++ is, none);
}

abbrev sample_marshal : Marshal
sample_marshal j = some []

-- A value for the sample sensor, and one of the wrong type.
abbrev good_op : PersistOp
good_op = record {
  kind = op_individual;
  realm_id = pos 1;
  device_id = [];
  iface = compiled_sensors;
  mapping = some compiled_sensor;
  path = codes "/sensors/s1";
  value = float64 0;
  ts = pos 0;
  reception_ts = pos 0;
  ticket = 7;
  broken = false;
}

abbrev bad_op : PersistOp
bad_op = record good_op { value = string []; ticket = 8 }

abbrev start : World (List IndividualRow)
start = record { store = []; acked = []; observed = []; refused = []; abandoned = [] }

abbrev good_row : IndividualRow
good_row = record {
  realm_id = pos 1;
  device_id = [];
  interface_id = pos 0;
  endpoint_id = pos 0;
  path = codes "/sensors/s1";
  ts = pos 0;
  reception_ts = pos 0;
  column = value_double 0;
}

abbrev finish : World (List IndividualRow)
finish = record {
  store = good_row ∷ [];
  acked = 8 ∷ 7 ∷ [];
  observed = good_op ∷ [];
  refused = 8 ∷ [];
  abandoned = [];
}

flushed : flush sample_marshal rows_store [] (good_op ∷ bad_op ∷ []) start ≡ some ([], finish)
unfolding flush flush_ops flush_loop commit_loop commit_rows act_of finalize live individual_row
    column_of scalar_column is_array
flushed = refl

flush-Balance_example : Balance 8 start (due 8 (good_op ∷ bad_op ∷ [])) finish 0
flush-Balance_example =
    flush-Balance sample_marshal rows_store [] [] (good_op ∷ bad_op ∷ []) start finish 8 flushed

rows_store-IsAnswering : IsAnswering rows_store
rows_store-IsAnswering = record { upsert = λ p s. tt; unset = λ op s. tt; append = λ is os s. tt }

flush_complete_example :
    (waits : List Wait) × (w : World (List IndividualRow)) × (flush sample_marshal rows_store []
        (good_op ∷ bad_op ∷ [])
        start
      ≡ some (waits, w))
    × (count 7 w.acked ≡ count 7 [] + due 7 (good_op ∷ bad_op ∷ []))
flush_complete_example =
    flush_complete sample_marshal rows_store [] (good_op ∷ bad_op ∷ []) start 7
      rows_store-IsAnswering

-- A message of the sample device, whose decoder reads a JSON number.
abbrev message : InboundMessage
message = record {
  realm = codes "home";
  device_id = [];
  topic = codes "home/2TBn_jNESsuhGmE2o1AanA/org.Sensors/sensors/s1";
  payload = codes "{}";
  received_at = pos 0;
  ticket = 7;
}

abbrev sample_decoders : Decoders
sample_decoders = record {
  decode_object = λ p leaves. err none;
  decode_individual =
      λ p m. ok (record { value = float64 0; timestamp = none; format = Format.json });
}

abbrev home : RealmSchema
home = record {
  id = pos 1;
  iface = λ name major. if major == 1 then some compiled_sensors else none;
}

abbrev declared_sensors : Bytes → Option InterfaceVersion
declared_sensors name =
    if eq_bytes name (codes "org.Sensors") then some (record { major = 1; minor = 2 }) else none

message-accepted :
    process_data sample_decoders message home declared_sensors (codes "org.Sensors/sensors/s1")
    ≡ accepted good_op Format.json
unfolding process_data decode_message conclude op_of op_kind match_interface match_from last_index
    match match_node match_level below_literal below_param lookup_kid placeholder_value_ok
    contains_byte cut eq_bytes
message-accepted = refl

process_data_example :
    IsAccepted sample_decoders message home declared_sensors
      (codes "org.Sensors/sensors/s1")
      good_op
process_data_example =
    process_data-IsAccepted sample_decoders message home declared_sensors
      (codes "org.Sensors/sensors/s1") good_op Format.json message-accepted

-- A row stands in the rows of the sample database, which keeps no objects.
abbrev HasRow : List IndividualRow → IndividualRow → Type 0
HasRow s row = (a b : List IndividualRow) × (s ≡ a ++ row ∷ b)

abbrev HasObjectRow : List IndividualRow → ObjectRow → Type 0
HasObjectRow s row = Unit

All-here : (s is : List IndividualRow) → All (HasRow (s ++ is)) is
All-here s [] = tt
All-here s (x ∷ is) =
    ((s, is, refl), rw (append_assoc s (x ∷ []) is) at (All-here (s ++ x ∷ []) is))

All-objects : (s : List IndividualRow) (os : List ObjectRow) → All (HasObjectRow s) os
All-objects s [] = tt
All-objects s (o ∷ os) = (tt, All-objects s os)

longer-Keeps : (s is : List IndividualRow) → Keeps HasRow HasObjectRow s (s ++ is)
longer-Keeps s is = record {
  rows = λ row (a, b, e). (a, b ++ is, rw e (append_assoc a (row ∷ b) is));
  objects = λ row h. tt;
}

rows_store-IsDurable : IsDurable HasRow HasObjectRow rows_store
rows_store-IsDurable = record {
  stores = λ is os s e. (All-here s is, All-objects (s ++ is) os);
  append = λ is os s. longer-Keeps s is;
  upsert = λ p s. record { rows = λ row h. h; objects = λ row h. h };
  unset = λ op s. record { rows = λ row h. h; objects = λ row h. h };
}

flush-AllStored_example : AllStored HasRow HasObjectRow sample_marshal finish
flush-AllStored_example =
    flush-AllStored HasRow HasObjectRow sample_marshal rows_store [] [] (good_op ∷ bad_op ∷ [])
      start finish rows_store-IsDurable tt flushed
