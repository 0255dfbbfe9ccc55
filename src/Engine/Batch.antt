-- ===== src/Engine/Batch.antt =====
-- internal/engine/batch.go: the micro-batch of a shard. The store is a parameter with its own state;
-- `waits` are the answers of the selects after failed attempts, in order. Where they run out, the
-- shard is still waiting. The batch keeps, beside the store, what was acknowledged (by ticket), what
-- afterCommit observed, what was refused for good, and what was abandoned.
pub mod Balance
pub mod Once
pub mod Complete
pub mod Durable
pub mod Observed
use astrate.Base.{
  ℕ, ◌+◌, ◌-◌, Bool, true, false, ◌&&◌, ◌||◌, not, Option, none, some, List, [], ◌∷◌, ◌++◌, ltb,
  if◌then◌else◌, length, any, is_empty, Result, ok, err, Bytes, codes, cut_prefix,
}
use astrate.Schema.Build.Raw.{is_some}
use astrate.Engine.Rows.{
  OpKind, op_individual, op_object, op_property_set, op_property_unset, PersistOp, Marshal,
  IndividualRow, ObjectRow, Property, RowError, individual_row, object_row, property_row,
}

-- `pgconn.PgError` with its SQLSTATE, or any other error.
pub data StoreError : Type 0 where
  pg_error : Bytes → StoreError
  other_error : StoreError

-- The statements that a batch runs, on the state of the database.
pub record Store (S : Type 0) : Type 0 where
  pub upsert_property : Property → S → S × Option StoreError
  pub unset_property : PersistOp → S → S × Option StoreError
  pub append_datastreams : List IndividualRow → List ObjectRow → S → S × Option StoreError

-- The answer of the select: time.After, e.quit or ctx.Done.
pub data Wait : Type 0 where
  elapsed quit done : Wait

pub record World (S : Type 0) : Type 0 where
  pub store : S
  pub acked : List ℕ
  pub observed : List PersistOp
  pub refused : List ℕ
  pub abandoned : List ℕ

-- `isPermanentCommitError`: SQLSTATE class 22 or 23.
unfoldable pub is_permanent_commit_error : StoreError → Bool
unfolding cut_prefix
is_permanent_commit_error (pg_error code) =
    is_some (cut_prefix (codes "23") code) || is_some (cut_prefix (codes "22") code)
is_permanent_commit_error other_error = false

abbrev pub tickets : List PersistOp → List ℕ
tickets [] = []
tickets (op ∷ ops) = op.ticket ∷ tickets ops

-- The ops that are not broken: `finalize` skips the others.
abbrev pub keep_live : PersistOp → List PersistOp → List PersistOp
keep_live op ops = if op.broken then ops else op ∷ ops

unfoldable pub live : List PersistOp → List PersistOp
live [] = []
live (op ∷ ops) = keep_live op (live ops)

-- An attempt: the ops with their marks, and the error, if any.
pub record Attempt (S : Type 0) : Type 0 where
  pub ops : List PersistOp
  pub world : World S
  pub error : Option StoreError

-- What is left when a flush returns: the answers not yet given, and the world; `none` while the shard
-- still waits.
abbrev pub Flushed : Type 0 → Type 0
Flushed S = Option (List Wait × World S)

-- An op fails its conversion, runs a statement of its own, or adds a row to the transaction.
pub data Act (S : Type 0) : Type 0 where
  give_up : Act S
  run : S × Option StoreError → Act S
  collect : IndividualRow → Act S
  collect_object : ObjectRow → Act S

module _ {S : Type 0} where
  abbrev pub with_store : S → World S → World S
  with_store s w = record w { store = s }

  -- A conversion that fails breaks the op.
  abbrev pub or_give_up : {R : Type 0} → Result RowError R → (R → Act S) → Act S
  or_give_up (err _) act = give_up
  or_give_up (ok row) act = act row

  -- op.ack() of an op that is given up.
  abbrev pub refuse : PersistOp → World S → World S
  refuse op w = record w {
    acked = w.acked ++ op.ticket ∷ [];
    refused = w.refused ++ op.ticket ∷ [];
  }

  -- `finalize`: acknowledge, then observe.
  unfoldable pub finalize : List PersistOp → World S → World S
  unfolding live
  finalize ops w = record w {
    acked = w.acked ++ tickets (live ops);
    observed = w.observed ++ live ops;
  }

  abbrev pub onto_ops : PersistOp → Attempt S → Attempt S
  onto_ops op a = record a { ops = op ∷ a.ops }

  -- `markBroken`, before the ops that follow.
  abbrev pub mark_broken : PersistOp → (World S → Attempt S) → World S → Attempt S
  mark_broken op next w = onto_ops (record op { broken = true }) (next (refuse op w))

  -- A statement of its own: an error ends the attempt, with the ops that follow as they are.
  abbrev pub statement :
      PersistOp
      → List PersistOp
      → S × Option StoreError
      → (World S → Attempt S)
      → World S
      → Attempt S
  statement op ops r next w = elim r.1 [
    | some e ↦ record { ops = op ∷ ops; world = with_store r.0 w; error = some e }
    | none ↦ onto_ops op (next (with_store r.0 w))
  ]

  -- The op, and then the rest of the loop.
  abbrev pub perform :
      PersistOp
      → List PersistOp
      → Act S
      → (List IndividualRow → List ObjectRow → World S → Attempt S)
      → List IndividualRow
      → List ObjectRow
      → World S
      → Attempt S
  perform op ops give_up rest individual objects w = mark_broken op (rest individual objects) w
  perform op ops (run r) rest individual objects w = statement op ops r (rest individual objects) w
  perform op ops (collect row) rest individual objects w =
      onto_ops op (rest (individual ++ row ∷ []) objects w)
  perform op ops (collect_object row) rest individual objects w =
      onto_ops op (rest individual (objects ++ row ∷ []) w)

  -- The broken ops of an abandoned batch are acknowledged already.
  abbrev pub abandon : List PersistOp → World S → World S
  abandon ops w = record w { abandoned = w.abandoned ++ tickets (live ops) }

  -- One round of `flushOps`: what a permanent rejection leads to, and what a transient error.
  abbrev pub settle :
      (List Wait → List PersistOp → World S → Flushed S)
      → List Wait
      → Attempt S
      → Flushed S
      → Flushed S
  settle rejected waits a transient = elim a.error [
    | none ↦ some (waits, finalize a.ops a.world)
    | some e ↦ if is_permanent_commit_error e then rejected waits a.ops a.world else transient
  ]

  -- A single op that the database refuses for good is consumed.
  abbrev pub drop_first : List Wait → List PersistOp → World S → Flushed S
  drop_first waits [] w = some (waits, w)
  drop_first waits (op ∷ ops) w = some (waits, refuse op w)

  module _ (marshal : Marshal) (st : Store S) where
    -- The end of `commit`: the collected datastream rows, in one transaction.
    unfoldable pub commit_rows : List IndividualRow → List ObjectRow → World S → Attempt S
    commit_rows individual objects w =
        if is_empty individual && is_empty objects
        then record { ops = []; world = w; error = none }
        else (let r = st.append_datastreams individual objects w.store in
            record { ops = []; world = with_store r.0 w; error = r.1 })

    -- What the switch of `commit` does with an op of a kind.
    abbrev pub act_of_kind : OpKind → PersistOp → S → Act S
    act_of_kind op_property_set op s =
        or_give_up (property_row marshal op) (λ p. run (st.upsert_property p s))
    act_of_kind op_property_unset op s = run (st.unset_property op s)
    act_of_kind op_individual op s = or_give_up (individual_row marshal op) collect
    act_of_kind op_object op s = or_give_up (object_row marshal op) collect_object

    unfoldable pub act_of : PersistOp → S → Act S
    unfolding individual_row object_row property_row
    act_of op s = act_of_kind op.kind op s

    -- The loop of `commit`.
    unfoldable pub commit_loop :
        List PersistOp → List IndividualRow → List ObjectRow → World S → Attempt S
    unfolding commit_rows act_of
    commit_loop [] individual objects w = commit_rows individual objects w
    commit_loop (op ∷ ops) individual objects w =
        if op.broken
        then onto_ops op (commit_loop ops individual objects w)
        else perform op ops (act_of op w.store) (commit_loop ops) individual objects w

    -- `commit`.
    abbrev pub commit : List PersistOp → World S → Attempt S
    commit ops w = commit_loop ops [] [] w

    -- The loop of `flushOps`.
    unfoldable pub flush_loop :
        (List Wait → List PersistOp → World S → Flushed S)
        → List Wait
        → List PersistOp
        → World S
        → Flushed S
    unfolding commit_loop finalize is_permanent_commit_error live
    flush_loop rejected [] ops w = settle rejected [] (commit ops w) none
    flush_loop rejected (elapsed ∷ waits) ops w =
        let a = commit ops w in
        settle rejected (elapsed ∷ waits) a (flush_loop rejected waits a.ops a.world)
    flush_loop rejected (quit ∷ waits) ops w =
        let a = commit ops w in
        settle rejected (quit ∷ waits) a (some (waits, abandon a.ops a.world))
    flush_loop rejected (done ∷ waits) ops w =
        let a = commit ops w in
        settle rejected (done ∷ waits) a (some (waits, abandon a.ops a.world))

    -- The ops of a rejected batch, each with a loop of its own.
    unfoldable pub flush_each : List Wait → List PersistOp → World S → Flushed S
    unfolding flush_loop
    flush_each waits [] w = some (waits, w)
    flush_each waits (op ∷ ops) w = elim (flush_loop drop_first waits (op ∷ []) w) [
      | none ↦ none
      | some (waits', w') ↦ flush_each waits' ops w'
    ]

    abbrev pub split_or_drop : List Wait → List PersistOp → World S → Flushed S
    split_or_drop waits ops w =
        if ltb 1 (length ops) then flush_each waits ops w else drop_first waits ops w

    -- `flushOps`.
    unfoldable pub flush_ops : List Wait → List PersistOp → World S → Flushed S
    unfolding flush_loop flush_each
    flush_ops waits ops w = flush_loop split_or_drop waits ops w

    -- `flush`, which leaves no op behind.
    unfoldable pub flush : List Wait → List PersistOp → World S → Flushed S
    unfolding flush_ops
    flush waits [] w = some (waits, w)
    flush waits (op ∷ ops) w = flush_ops waits (op ∷ ops) w
