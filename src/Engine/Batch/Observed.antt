-- ===== src/Engine/Batch/Observed.antt =====
-- A flush keeps every observed op in the database.
use astrate.Base.{
  ◌≡◌, refl, inl, inr, Bool, true, false, Option, none, some, List, [], ◌∷◌, ltb, if◌then◌else◌,
  Bool-cases, length, All, All-append,
}
use astrate.Engine.Rows.{PersistOp, Marshal, IndividualRow, ObjectRow}
use astrate.Engine.Batch.{
  StoreError, Store, Wait, elapsed, quit, done, World, is_permanent_commit_error, live, Flushed,
  finalize, commit, settle, flush_loop, drop_first, flush_each, split_or_drop, flush_ops, flush,
}
use astrate.Engine.Batch.Durable.{IsDurable, Persisted, keep-All, commit_loop-Secures}

module _ {S : Type 0} (Has : S → IndividualRow → Type 0) (HasObject : S → ObjectRow → Type 0)
    (marshal : Marshal) where
  -- Every datastream op that afterCommit observed has its row in the database.
  abbrev pub AllStored : World S → Type 0
  AllStored w = All (Persisted Has HasObject marshal w.store) w.observed

  abbrev Leaves : Flushed S → Type 0
  Leaves none = Unit
  Leaves (some (waits, w)) = AllStored w

  module _ (st : Store S) (durable : IsDurable Has HasObject st) where
    commit-AllStored :
        (ops : List PersistOp) (w : World S)
        → AllStored w
        → AllStored (commit marshal st ops w).world
    commit-AllStored ops w h =
        let a = commit marshal st ops w in
        let t = commit_loop-Secures Has HasObject marshal st durable ops [] [] w in
        rw t.seen (keep-All Has HasObject marshal w.store a.world.store w.observed t.kept h)

    finalize-AllStored :
        (ops : List PersistOp) (w : World S)
        → AllStored w
        → All (Persisted Has HasObject marshal w.store) (live ops)
        → AllStored (finalize ops w)
    unfolding finalize
    finalize-AllStored ops w h k =
        All-append (Persisted Has HasObject marshal w.store) w.observed (live ops) h k

    elim-Leaves :
        (error : Option StoreError) (x transient : Flushed S) (rejected : Flushed S)
        → (error ≡ none → Leaves x)
        → Leaves transient
        → Leaves rejected
        → Leaves (elim error [
          | none ↦ x
          | some e ↦ if is_permanent_commit_error e then rejected else transient
        ])
    elim-Leaves none x transient rejected p q r = p refl
    elim-Leaves (some e) x transient rejected p q r =
        if-Leaves (is_permanent_commit_error e) rejected transient r q
      where
        if-Leaves : (b : Bool) (x y : Flushed S) → Leaves x → Leaves y → Leaves (if b then x else y)
        if-Leaves true x y p q = p
        if-Leaves false x y p q = q

    module _ (rejected : List Wait → List PersistOp → World S → Flushed S)
        (refusing : (waits : List Wait) (ops : List PersistOp) (w : World S)
          → AllStored w
          → Leaves (rejected waits ops w)) where
      round-Leaves :
          (waits : List Wait) (ops : List PersistOp) (w : World S) (transient : Flushed S)
          → AllStored w
          → Leaves transient
          → Leaves (settle rejected waits (commit marshal st ops w) transient)
      round-Leaves waits ops w transient h q =
          let a = commit marshal st ops w in
          let t = commit_loop-Secures Has HasObject marshal st durable ops [] [] w in
          let k = commit-AllStored ops w h in
          elim-Leaves a.error (some (waits, finalize a.ops a.world)) transient
            (rejected waits a.ops a.world) (λ e. finalize-AllStored a.ops a.world k (t.done_ops e))
            q (refusing waits a.ops a.world k)

      flush_loop-Leaves :
          (waits : List Wait) (ops : List PersistOp) (w : World S)
          → AllStored w
          → Leaves (flush_loop marshal st rejected waits ops w)
      unfolding flush_loop
      flush_loop-Leaves [] ops w h = round-Leaves [] ops w none h tt
      flush_loop-Leaves (elapsed ∷ waits) ops w h =
          let a = commit marshal st ops w in
          round-Leaves (elapsed ∷ waits) ops w (flush_loop marshal st rejected waits a.ops a.world)
            h (flush_loop-Leaves waits a.ops a.world (commit-AllStored ops w h))
      flush_loop-Leaves (quit ∷ waits) ops w h =
          round-Leaves (quit ∷ waits) ops w _ h (commit-AllStored ops w h)
      flush_loop-Leaves (done ∷ waits) ops w h =
          round-Leaves (done ∷ waits) ops w _ h (commit-AllStored ops w h)

    drop_first-Leaves :
        (waits : List Wait) (ops : List PersistOp) (w : World S)
        → AllStored w
        → Leaves (drop_first waits ops w)
    drop_first-Leaves waits [] w h = h
    drop_first-Leaves waits (op ∷ ops) w h = h

    then-Leaves :
        (f : Flushed S) (next : List Wait → World S → Flushed S)
        → Leaves f
        → ((waits : List Wait) (w : World S) → AllStored w → Leaves (next waits w))
        → Leaves (elim f [ none ↦ none | some (waits', w') ↦ next waits' w' ])
    then-Leaves none next p q = tt
    then-Leaves (some (waits, w)) next p q = q waits w p

    flush_each-Leaves :
        (waits : List Wait) (ops : List PersistOp) (w : World S)
        → AllStored w
        → Leaves (flush_each marshal st waits ops w)
    unfolding flush_each
    flush_each-Leaves waits [] w h = h
    flush_each-Leaves waits (op ∷ ops) w h =
        then-Leaves (flush_loop marshal st drop_first waits (op ∷ []) w)
          (λ waits' w'. flush_each marshal st waits' ops w')
          (flush_loop-Leaves drop_first drop_first-Leaves waits (op ∷ []) w h)
          (λ waits' w' k. flush_each-Leaves waits' ops w' k)

    split-Leaves :
        (waits : List Wait) (ops : List PersistOp) (w : World S)
        → AllStored w
        → Leaves (split_or_drop marshal st waits ops w)
    split-Leaves waits ops w h = elim (Bool-cases (ltb 1 (length ops))) [
      | inl e ↦ rw e (flush_each-Leaves waits ops w h)
      | inr e ↦ rw e (drop_first-Leaves waits ops w h)
    ]

    flush-Leaves :
        (waits : List Wait) (ops : List PersistOp) (w : World S)
        → AllStored w
        → Leaves (flush marshal st waits ops w)
    unfolding flush flush_ops
    flush-Leaves waits [] w h = h
    flush-Leaves waits (op ∷ ops) w h =
        flush_loop-Leaves (split_or_drop marshal st) split-Leaves waits (op ∷ ops) w h

    left_at :
        (f : Flushed S) (waits : List Wait) (w : World S)
        → Leaves f
        → f ≡ some (waits, w)
        → AllStored w
    left_at f waits w p e = rw e at p

-- With a database whose successful transactions store their rows and whose statements lose none, the
-- row of every datastream op that afterCommit observed is in the database when a flush returns, if
-- it was so before.
pub flush-AllStored :
    {S : Type 0} (Has : S → IndividualRow → Type 0) (HasObject : S → ObjectRow → Type 0)
    (marshal : Marshal) (st : Store S) (waits waits' : List Wait) (ops : List PersistOp)
    (w w' : World S)
    → IsDurable Has HasObject st
    → AllStored Has HasObject marshal w
    → flush marshal st waits ops w ≡ some (waits', w')
    → AllStored Has HasObject marshal w'
flush-AllStored Has HasObject marshal st waits waits' ops w w' durable h returned =
    left_at Has HasObject marshal st durable (flush marshal st waits ops w) waits' w'
      (flush-Leaves Has HasObject marshal st durable waits ops w h) returned
