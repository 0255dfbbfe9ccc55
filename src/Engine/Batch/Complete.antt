-- ===== src/Engine/Batch/Complete.antt =====
-- A flush comes to its end without abandoning an op, where the database answers every statement.
use astrate.Base.{
  ℕ, ◌+◌, ◌≡◌, refl, ap, ◌∙◌, Bool, true, false, ◌&&◌, Option, none, some, List, [], ◌∷◌, ◌++◌,
  arith, ltb, if◌then◌else◌, length, is_empty, Result, ok, err,
}
use astrate.Engine.Rows.{
  PersistOp, Marshal, OpKind, op_individual, op_object, op_property_set, op_property_unset,
  IndividualRow, ObjectRow, Property, RowError, individual_row, object_row, property_row,
}
use astrate.Engine.Batch.{
  StoreError, Store, Wait, elapsed, quit, done, World, is_permanent_commit_error, Attempt, Flushed,
  Act, give_up, run, collect, collect_object, with_store, refuse, finalize, onto_ops, commit_rows,
  or_give_up, act_of_kind, act_of, perform, commit_loop, commit, settle, flush_loop, drop_first,
  flush_each, split_or_drop, flush_ops, flush,
}
use astrate.Engine.Batch.Balance.{count, due, settled}
use astrate.Engine.Batch.Once.{flush-Balance}

-- An error that no retry can fix.
abbrev Final : Option StoreError → Type 0
Final none = Unit
Final (some e) = is_permanent_commit_error e ≡ true

-- The database is there: what it does not do, it refuses for good.
pub record IsAnswering {S : Type 0} (st : Store S) : Type 0 where
  pub upsert : (p : Property) (s : S) → Final (st.upsert_property p s).1
  pub unset : (op : PersistOp) (s : S) → Final (st.unset_property op s).1
  pub append :
      (is : List IndividualRow) (os : List ObjectRow) (s : S)
      → Final (st.append_datastreams is os s).1

abbrev FinalAct : {S : Type 0} → Act S → Type 0
FinalAct give_up = Unit
FinalAct (run r) = Final r.1
FinalAct (collect row) = Unit
FinalAct (collect_object row) = Unit

module _ {S : Type 0} (marshal : Marshal) (st : Store S) (answers : IsAnswering st) where
  -- No op was abandoned since, and the error is final.
  record Stays (w : World S) (a : Attempt S) : Type 0 where
    kept : a.world.abandoned ≡ w.abandoned
    final : Final a.error

  perform-Stays :
      (op : PersistOp) (ops : List PersistOp) (act : Act S)
      (rest : List IndividualRow → List ObjectRow → World S → Attempt S) (is : List IndividualRow)
      (os : List ObjectRow) (w : World S)
      → FinalAct act
      → ((is' : List IndividualRow) (os' : List ObjectRow) (w' : World S)
          → Stays w' (rest is' os' w'))
      → Stays w (perform op ops act rest is os w)
  perform-Stays op ops give_up rest is os w f ih =
      let s = ih is os (refuse op w) in record { kept = s.kept; final = s.final }
  perform-Stays op ops (run (s, some e)) rest is os w f ih = record { kept = refl; final = f }
  perform-Stays op ops (run (s, none)) rest is os w f ih =
      let t = ih is os (with_store s w) in record { kept = t.kept; final = t.final }
  perform-Stays op ops (collect row) rest is os w f ih =
      let t = ih (is ++ row ∷ []) os w in record { kept = t.kept; final = t.final }
  perform-Stays op ops (collect_object row) rest is os w f ih =
      let t = ih is (os ++ row ∷ []) w in record { kept = t.kept; final = t.final }

  or_give_up-FinalAct :
      {R : Type 0} (r : Result RowError R) (act : R → Act S)
      → ((row : R) → FinalAct (act row))
      → FinalAct (or_give_up r act)
  or_give_up-FinalAct (err e) act f = tt
  or_give_up-FinalAct (ok row) act f = f row

  act_of_kind-FinalAct :
      (kind : OpKind) (op : PersistOp) (s : S) → FinalAct (act_of_kind marshal st kind op s)
  act_of_kind-FinalAct op_property_set op s =
      or_give_up-FinalAct (property_row marshal op) (λ p. run (st.upsert_property p s))
        (λ p. answers.upsert p s)
  act_of_kind-FinalAct op_property_unset op s = answers.unset op s
  act_of_kind-FinalAct op_individual op s =
      or_give_up-FinalAct (individual_row marshal op) collect (λ row. tt)
  act_of_kind-FinalAct op_object op s =
      or_give_up-FinalAct (object_row marshal op) collect_object (λ row. tt)

  act_of-FinalAct : (op : PersistOp) (s : S) → FinalAct (act_of marshal st op s)
  unfolding act_of
  act_of-FinalAct op s = act_of_kind-FinalAct op.kind op s

  if-Stays :
      (b : Bool) (w : World S) (a a' : Attempt S)
      → Stays w a
      → Stays w a'
      → Stays w (if b then a else a')
  if-Stays true w a a' p q = p
  if-Stays false w a a' p q = q

  commit_loop-Stays :
      (ops : List PersistOp) (is : List IndividualRow) (os : List ObjectRow) (w : World S)
      → Stays w (commit_loop marshal st ops is os w)
  unfolding commit_loop commit_rows
  commit_loop-Stays [] is os w =
      if-Stays (is_empty is && is_empty os) w _ _ (record { kept = refl; final = tt })
        (record { kept = refl; final = answers.append is os w.store })
  commit_loop-Stays (op ∷ ops) is os w =
      let t = commit_loop-Stays ops is os w in
      if-Stays op.broken w (onto_ops op (commit_loop marshal st ops is os w)) _
        (record { kept = t.kept; final = t.final })
        (perform-Stays op ops (act_of marshal st op w.store) (commit_loop marshal st ops) is os w
          (act_of-FinalAct op w.store) (commit_loop-Stays ops))

  -- The flush returned, and abandoned nothing.
  abbrev Completes : World S → Flushed S → Type 0
  Completes w none = ⊥
  Completes w (some (waits, w')) = w'.abandoned ≡ w.abandoned

  later-Completes :
      (w w' : World S) (f : Flushed S) → w'.abandoned ≡ w.abandoned → Completes w' f → Completes w f
  later-Completes w w' none e p = p
  later-Completes w w' (some (waits, w'')) e p = p ∙ e

  elim-Completes :
      (w : World S) (error : Option StoreError) (x transient : Flushed S) (rejected : Flushed S)
      → Final error
      → Completes w x
      → Completes w rejected
      → Completes w (elim error [
        | none ↦ x
        | some e ↦ if is_permanent_commit_error e then rejected else transient
      ])
  elim-Completes w none x transient rejected f p q = p
  elim-Completes w (some e) x transient rejected f p q = rw f q

  module _ (rejected : List Wait → List PersistOp → World S → Flushed S)
      (refusing : (waits : List Wait) (ops : List PersistOp) (w : World S)
        → Completes w (rejected waits ops w)) where
    round-Completes :
        (waits : List Wait) (ops : List PersistOp) (w : World S) (transient : Flushed S)
        → Completes w (settle rejected waits (commit marshal st ops w) transient)
    unfolding finalize
    round-Completes waits ops w transient =
        let a = commit marshal st ops w in
        let t = commit_loop-Stays ops [] [] w in
        later-Completes w a.world (settle rejected waits a transient) t.kept (
          elim-Completes a.world a.error (some (waits, finalize a.ops a.world)) transient
            (rejected waits a.ops a.world) t.final refl (refusing waits a.ops a.world))

    flush_loop-Completes :
        (waits : List Wait) (ops : List PersistOp) (w : World S)
        → Completes w (flush_loop marshal st rejected waits ops w)
    unfolding flush_loop
    flush_loop-Completes [] ops w = round-Completes [] ops w none
    flush_loop-Completes (elapsed ∷ waits) ops w = round-Completes (elapsed ∷ waits) ops w _
    flush_loop-Completes (quit ∷ waits) ops w = round-Completes (quit ∷ waits) ops w _
    flush_loop-Completes (done ∷ waits) ops w = round-Completes (done ∷ waits) ops w _

  drop_first-Completes :
      (waits : List Wait) (ops : List PersistOp) (w : World S)
      → Completes w (drop_first waits ops w)
  drop_first-Completes waits [] w = refl
  drop_first-Completes waits (op ∷ ops) w = refl

  then-Completes :
      (w : World S) (f : Flushed S) (next : List Wait → World S → Flushed S)
      → Completes w f
      → ((waits : List Wait) (w' : World S) → Completes w' (next waits w'))
      → Completes w (elim f [ none ↦ none | some (waits', w') ↦ next waits' w' ])
  then-Completes w none next p q = p
  then-Completes w (some (waits, w')) next p q = later-Completes w w' (next waits w') p (q waits w')

  flush_each-Completes :
      (waits : List Wait) (ops : List PersistOp) (w : World S)
      → Completes w (flush_each marshal st waits ops w)
  unfolding flush_each
  flush_each-Completes waits [] w = refl
  flush_each-Completes waits (op ∷ ops) w =
      then-Completes w (flush_loop marshal st drop_first waits (op ∷ []) w)
        (λ waits' w'. flush_each marshal st waits' ops w')
        (flush_loop-Completes drop_first drop_first-Completes waits (op ∷ []) w)
        (λ waits' w'. flush_each-Completes waits' ops w')

  if-Completes :
      (b : Bool) (w : World S) (x y : Flushed S)
      → Completes w x
      → Completes w y
      → Completes w (if b then x else y)
  if-Completes true w x y p q = p
  if-Completes false w x y p q = q

  flush-Completes :
      (waits : List Wait) (ops : List PersistOp) (w : World S)
      → Completes w (flush marshal st waits ops w)
  unfolding flush flush_ops
  flush-Completes waits [] w = refl
  flush-Completes waits (op ∷ ops) w =
      flush_loop-Completes (split_or_drop marshal st)
        (λ ws os v.
          if-Completes (ltb 1 (length os)) v (flush_each marshal st ws os v) (drop_first ws os v)
            (flush_each-Completes ws os v) (drop_first-Completes ws os v))
        waits (op ∷ ops) w

  completed :
      (w : World S) (f : Flushed S)
      → Completes w f
      → (waits : List Wait) × (w' : World S) × (f ≡ some (waits, w')) × (w'.abandoned ≡ w.abandoned)
  completed w none p = elim p [ ]
  completed w (some (waits, w')) p = (waits, w', refl, p)

acked_total :
    {S : Type 0} (n : ℕ) (w w' : World S) (b : ℕ)
    → w'.abandoned ≡ w.abandoned
    → settled n w' + 0 ≡ settled n w + b
    → count n w'.acked ≡ count n w.acked + b
unfolding settled
acked_total n w w' b kept total = omega (arith, total, ap (count n) kept)

-- With a database that answers every statement, `flush` returns, whatever the waits, and has
-- acknowledged every message of the batch that was not acknowledged before, each once, and no other.
pub flush_complete :
    {S : Type 0} (marshal : Marshal) (st : Store S) (waits : List Wait) (ops : List PersistOp)
    (w : World S) (n : ℕ)
    → IsAnswering st
    → (waits' : List Wait) × (w' : World S) × (flush marshal st waits ops w ≡ some (waits', w'))
      × (count n w'.acked ≡ count n w.acked + due n ops)
flush_complete marshal st waits ops w n answers =
    let (waits', w', returned, kept) =
      completed marshal st answers w (flush marshal st waits ops w)
        (flush-Completes marshal st answers waits ops w) in
    let b = flush-Balance marshal st waits waits' ops w w' n returned in
    (waits', w', returned, acked_total n w w' (due n ops) kept b.total)
