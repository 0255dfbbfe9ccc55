-- ===== src/Engine/Batch/Durable.antt =====
-- Nothing is observed, and so acknowledged as stored, before the database has it.
use astrate.Base.{
  ◌≡◌, refl, Bool, true, false, ◌&&◌, none, some, List, [], ◌∷◌, ◌++◌, if◌then◌else◌, All, is_empty,
  Result, ok, err,
}
use astrate.Engine.Rows.{
  OpKind, op_individual, op_object, op_property_set, op_property_unset, PersistOp, Marshal,
  IndividualRow, ObjectRow, Property, RowError, individual_row, object_row, property_row,
}
use astrate.Engine.Batch.{
  Store, World, live, Attempt, Act, give_up, run, collect, collect_object, with_store, refuse,
  onto_ops, commit_rows, or_give_up, act_of_kind, act_of, perform, commit_loop,
}

if_All :
    {A : Type 0} (P : A → Type 0) (b : Bool) (xs ys : List A)
    → All P xs
    → All P ys
    → All P (if b then xs else ys)
if_All P true xs ys p q = p
if_All P false xs ys p q = q

All-last :
    {A : Type 0} (P : A → Type 0) (xs : List A) (x : A) → All P (xs ++ x ∷ []) → All P xs × P x
All-last P [] x (h, _) = (tt, h)
All-last P (y ∷ xs) x (h, hs) = let (front, last) = All-last P xs x hs in ((h, front), last)

module _ {S : Type 0} (Has : S → IndividualRow → Type 0) (HasObject : S → ObjectRow → Type 0) where
  -- The rows of one state are in the other.
  pub record Keeps (s s' : S) : Type 0 where
    pub rows : (row : IndividualRow) → Has s row → Has s' row
    pub objects : (row : ObjectRow) → HasObject s row → HasObject s' row

  -- The database: a transaction that succeeds stores its rows, and no statement loses any.
  pub record IsDurable (st : Store S) : Type 0 where
    pub stores :
        (is : List IndividualRow) (os : List ObjectRow) (s : S)
        → (st.append_datastreams is os s).1 ≡ none
        → All (Has (st.append_datastreams is os s).0) is
          × All (HasObject (st.append_datastreams is os s).0) os
    pub append :
        (is : List IndividualRow) (os : List ObjectRow) (s : S)
        → Keeps s (st.append_datastreams is os s).0
    pub upsert : (p : Property) (s : S) → Keeps s (st.upsert_property p s).0
    pub unset : (op : PersistOp) (s : S) → Keeps s (st.unset_property op s).0

  same_Keeps : (s : S) → Keeps s s
  same_Keeps s = record { rows = λ row h. h; objects = λ row h. h }

  trans_Keeps : (s s' s'' : S) → Keeps s s' → Keeps s' s'' → Keeps s s''
  trans_Keeps s s' s'' p q = record {
    rows = λ row h. q.rows row (p.rows row h);
    objects = λ row h. q.objects row (p.objects row h);
  }

  module _ (marshal : Marshal) where
    -- The row of a datastream op is in the database.
    abbrev pub PersistedAs : OpKind → S → PersistOp → Type 0
    PersistedAs op_individual s op =
        (row : IndividualRow) × (individual_row marshal op ≡ ok row) × Has s row
    PersistedAs op_object s op =
        (row : ObjectRow) × (object_row marshal op ≡ ok row) × HasObject s row
    PersistedAs op_property_set s op = Unit
    PersistedAs op_property_unset s op = Unit

    abbrev pub Persisted : S → PersistOp → Type 0
    Persisted s op = PersistedAs op.kind s op

    keep_kind :
        (kind : OpKind) (s s' : S) (op : PersistOp)
        → Keeps s s'
        → PersistedAs kind s op
        → PersistedAs kind s' op
    keep_kind op_individual s s' op k (row, e, h) = (row, e, k.rows row h)
    keep_kind op_object s s' op k (row, e, h) = (row, e, k.objects row h)
    keep_kind op_property_set s s' op k h = tt
    keep_kind op_property_unset s s' op k h = tt

    pub keep-All :
        (s s' : S) (ops : List PersistOp)
        → Keeps s s'
        → All (Persisted s) ops
        → All (Persisted s') ops
    keep-All s s' [] k h = tt
    keep-All s s' (op ∷ ops) k (p, h) = (keep_kind op.kind s s' op k p, keep-All s s' ops k h)

    skip_live :
        (op : PersistOp) (s : S) (ops : List PersistOp)
        → op.broken ≡ true
        → All (Persisted s) (live ops)
        → All (Persisted s) (live (op ∷ ops))
    unfolding live
    skip_live op s ops b h = rw b h

    take_live :
        (op : PersistOp) (s : S) (ops : List PersistOp)
        → Persisted s op
        → All (Persisted s) (live ops)
        → All (Persisted s) (live (op ∷ ops))
    unfolding live
    take_live op s ops p h = if_All (Persisted s) op.broken (live ops) (op ∷ live ops) h (p, h)

    -- What an act does for its op: a statement loses nothing, and a collected row is the op's.
    abbrev Serves : OpKind → PersistOp → S → Act S → Type 0
    Serves kind op s give_up = Unit
    Serves kind op s (run r) = Keeps s r.0 × ((s' : S) → PersistedAs kind s' op)
    Serves kind op s (collect row) = (s' : S) → Has s' row → PersistedAs kind s' op
    Serves kind op s (collect_object row) = (s' : S) → HasObject s' row → PersistedAs kind s' op

    module _ (st : Store S) (durable : IsDurable st) where
      individual-Serves :
          (op : PersistOp) (s : S) (r : Result RowError IndividualRow)
          → individual_row marshal op ≡ r
          → Serves op_individual op s (or_give_up r collect)
      individual-Serves op s (ok row) e = λ s' h. (row, e, h)
      individual-Serves op s (err x) e = tt

      object-Serves :
          (op : PersistOp) (s : S) (r : Result RowError ObjectRow)
          → object_row marshal op ≡ r
          → Serves op_object op s (or_give_up r collect_object)
      object-Serves op s (ok row) e = λ s' h. (row, e, h)
      object-Serves op s (err x) e = tt

      set-Serves :
          (op : PersistOp) (s : S) (r : Result RowError Property)
          → Serves op_property_set op s (or_give_up r (λ p. run (st.upsert_property p s)))
      set-Serves op s (ok p) = (durable.upsert p s, λ s'. tt)
      set-Serves op s (err x) = tt

      act_of_kind-Serves :
          (kind : OpKind) (op : PersistOp) (s : S)
          → Serves kind op s (act_of_kind marshal st kind op s)
      act_of_kind-Serves op_individual op s =
          individual-Serves op s (individual_row marshal op) refl
      act_of_kind-Serves op_object op s = object-Serves op s (object_row marshal op) refl
      act_of_kind-Serves op_property_set op s = set-Serves op s (property_row marshal op)
      act_of_kind-Serves op_property_unset op s = (durable.unset op s, λ s'. tt)

      -- Nothing is lost or observed by an attempt, and where it succeeds its rows and ops are stored.
      pub record Secures (w : World S) (is : List IndividualRow) (os : List ObjectRow)
          (a : Attempt S) : Type 0 where
        pub kept : Keeps w.store a.world.store
        pub seen : a.world.observed ≡ w.observed
        pub rows : a.error ≡ none → All (Has a.world.store) is × All (HasObject a.world.store) os
        pub done_ops : a.error ≡ none → All (Persisted a.world.store) (live a.ops)

      -- An op that is skipped, and an op that is stored, in front of what the attempt does.
      skip-Secures :
          (op : PersistOp) (w : World S) (is : List IndividualRow) (os : List ObjectRow)
          (a : Attempt S)
          → op.broken ≡ true
          → Secures w is os a
          → Secures w is os (onto_ops op a)
      skip-Secures op w is os a b t = record {
        kept = t.kept;
        seen = t.seen;
        rows = t.rows;
        done_ops = λ e. skip_live op a.world.store a.ops b (t.done_ops e);
      }

      store-Secures :
          (op : PersistOp) (w : World S) (is : List IndividualRow) (os : List ObjectRow)
          (a : Attempt S)
          → (a.error ≡ none → Persisted a.world.store op)
          → Secures w is os a
          → Secures w is os (onto_ops op a)
      store-Secures op w is os a p t = record {
        kept = t.kept;
        seen = t.seen;
        rows = t.rows;
        done_ops = λ e. take_live op a.world.store a.ops (p e) (t.done_ops e);
      }

      perform-Secures :
          (op : PersistOp) (ops : List PersistOp) (act : Act S)
          (rest : List IndividualRow → List ObjectRow → World S → Attempt S)
          (is : List IndividualRow) (os : List ObjectRow) (w : World S)
          → Serves op.kind op w.store act
          → ((is' : List IndividualRow) (os' : List ObjectRow) (w' : World S)
              → Secures w' is' os' (rest is' os' w'))
          → Secures w is os (perform op ops act rest is os w)
      perform-Secures op ops give_up rest is os w f ih =
          let t = ih is os (refuse op w) in
          skip-Secures (record op { broken = true }) w is os (rest is os (refuse op w)) refl
            (record { kept = t.kept; seen = t.seen; rows = t.rows; done_ops = t.done_ops })
      perform-Secures op ops (run (s, some e)) rest is os w f ih = record {
        kept = f.0;
        seen = refl;
        rows = λ h. cc;
        done_ops = λ h. cc;
      }
      perform-Secures op ops (run (s, none)) rest is os w f ih =
          let t = ih is os (with_store s w) in
          store-Secures op w is os (rest is os (with_store s w)) (λ e. f.1 _)
            (record {
              kept = trans_Keeps w.store s _ f.0 t.kept;
              seen = t.seen;
              rows = t.rows;
              done_ops = t.done_ops;
            })
      perform-Secures op ops (collect row) rest is os w f ih =
          let a = rest (is ++ row ∷ []) os w in
          let t = ih (is ++ row ∷ []) os w in
          store-Secures op w is os a (λ e. f _ (All-last (Has a.world.store) is row (t.rows e).0).1)
            (record {
              kept = t.kept;
              seen = t.seen;
              done_ops = t.done_ops;
              rows = λ e. ((All-last (Has a.world.store) is row (t.rows e).0).0, (t.rows e).1);
            })
      perform-Secures op ops (collect_object row) rest is os w f ih =
          let a = rest is (os ++ row ∷ []) w in
          let t = ih is (os ++ row ∷ []) w in
          store-Secures op w is os a
            (λ e. f _ (All-last (HasObject a.world.store) os row (t.rows e).1).1)
            (record {
              kept = t.kept;
              seen = t.seen;
              done_ops = t.done_ops;
              rows =
                  λ e. ((t.rows e).0, (All-last (HasObject a.world.store) os row (t.rows e).1).0);
            })

      if-Secures :
          (b : Bool) (w : World S) (is : List IndividualRow) (os : List ObjectRow)
          (a a' : Attempt S)
          → (b ≡ true → Secures w is os a)
          → Secures w is os a'
          → Secures w is os (if b then a else a')
      if-Secures true w is os a a' p q = p refl
      if-Secures false w is os a a' p q = q

      nothing_collected :
          (s : S) (is : List IndividualRow) (os : List ObjectRow)
          → (is_empty is && is_empty os) ≡ true
          → All (Has s) is × All (HasObject s) os
      nothing_collected s [] [] h = (tt, tt)
      nothing_collected s [] (o ∷ os) h = cc
      nothing_collected s (i ∷ is) os h = cc

      commit_rows-Secures :
          (is : List IndividualRow) (os : List ObjectRow) (w : World S)
          → Secures w is os (commit_rows marshal st is os w)
      unfolding commit_rows live
      commit_rows-Secures is os w =
          if-Secures (is_empty is && is_empty os) w is os _ _
            (λ e. record {
              kept = same_Keeps w.store;
              seen = refl;
              done_ops = λ h. tt;
              rows = λ h. nothing_collected w.store is os e;
            })
            (record {
              kept = durable.append is os w.store;
              seen = refl;
              done_ops = λ h. tt;
              rows = λ h. durable.stores is os w.store h;
            })

      pub commit_loop-Secures :
          (ops : List PersistOp) (is : List IndividualRow) (os : List ObjectRow) (w : World S)
          → Secures w is os (commit_loop marshal st ops is os w)
      unfolding commit_loop act_of
      commit_loop-Secures [] is os w = commit_rows-Secures is os w
      commit_loop-Secures (op ∷ ops) is os w =
          let a = commit_loop marshal st ops is os w in
          if-Secures op.broken w is os (onto_ops op a) _
            (λ b. skip-Secures op w is os a b (commit_loop-Secures ops is os w))
            (perform-Secures op ops (act_of_kind marshal st op.kind op w.store)
              (commit_loop marshal st ops) is os w (act_of_kind-Serves op.kind op w.store)
              (commit_loop-Secures ops))
