-- ===== src/Engine/Batch/Balance.antt =====
-- Every op of a batch is acknowledged or abandoned, once.
use astrate.Base.{
  ℕ, ◌+◌, ◌≡◌, refl, ap, ◌∙◌, inl, inr, Bool, true, false, ◌&&◌, none, some, List, [], ◌∷◌, ◌++◌,
  arith, ◌==◌, if◌then◌else◌, Bool-cases, is_empty,
}
use astrate.Engine.Rows.{PersistOp, Marshal, IndividualRow, ObjectRow}
use astrate.Engine.Batch.{
  Store, World, tickets, live, Attempt, Act, give_up, run, collect, collect_object, with_store,
  refuse, finalize, onto_ops, commit_rows, act_of, perform, commit_loop, abandon,
}

-- How often a ticket stands in a list.
unfoldable pub count : ℕ → List ℕ → ℕ
count n [] = 0
count n (t ∷ ts) = (if t == n then 1 else 0) + count n ts

pub count-append : (n : ℕ) (xs ys : List ℕ) → count n (xs ++ ys) ≡ count n xs + count n ys
unfolding count
count-append n [] ys = omega arith
count-append n (t ∷ xs) ys = omega (arith, count-append n xs ys)

tickets-append : (xs ys : List PersistOp) → tickets (xs ++ ys) ≡ tickets xs ++ tickets ys
tickets-append [] ys = refl
tickets-append (x ∷ xs) ys = ap (◌∷◌ x.ticket) (tickets-append xs ys)

-- How often a ticket is still due.
unfoldable pub due : ℕ → List PersistOp → ℕ
due n ops = count n (tickets (live ops))

pub live_due :
    (n : ℕ) (op : PersistOp) (ops : List PersistOp)
    → op.broken ≡ false
    → due n (op ∷ ops) ≡ (if op.ticket == n then 1 else 0) + due n ops
unfolding due live count
live_due n op ops h = rw h refl

pub broken_due :
    (n : ℕ) (op : PersistOp) (ops : List PersistOp)
    → op.broken ≡ true
    → due n (op ∷ ops) ≡ due n ops
unfolding due live count
broken_due n op ops h = rw h refl

-- The op is due before both lists, or before neither.
due-onto :
    (n : ℕ) (op : PersistOp) (ops ops' : List PersistOp)
    → due n (op ∷ ops) + due n ops' ≡ due n (op ∷ ops') + due n ops
due-onto n op ops ops' = elim (Bool-cases op.broken) [
  | inl e ↦ rw (broken_due n op ops e, broken_due n op ops' e) (omega arith)
  | inr e ↦ rw (live_due n op ops e, live_due n op ops' e) (omega arith)
]

module _ {S : Type 0} (n : ℕ) where
  -- How often a ticket was acknowledged or abandoned; and how often it was observed or refused.
  unfoldable pub settled : World S → ℕ
  settled w = count n w.acked + count n w.abandoned

  unfoldable pub caused : World S → ℕ
  caused w = count n w.refused + count n (tickets w.observed)

  -- From a world with `before` tickets due to one with `after`: nothing is lost or doubled, and an
  -- acknowledgement is of an op that was observed or refused.
  pub record Balance (w : World S) (before : ℕ) (w' : World S) (after : ℕ) : Type 0 where
    pub total : settled w' + after ≡ settled w + before
    pub causes : count n w'.acked + caused w ≡ count n w.acked + caused w'

  pub trans_Balance :
      (w w' w'' : World S) {a b c : ℕ} → Balance w a w' b → Balance w' b w'' c → Balance w a w'' c
  trans_Balance w w' w'' p q = record {
    total = omega (arith, p.total, q.total);
    causes = omega (arith, p.causes, q.causes);
  }

  pub refuse-Balance :
      (op : PersistOp) (w : World S) (b : ℕ)
      → Balance w ((if op.ticket == n then 1 else 0) + b) (refuse op w) b
  unfolding settled caused count
  refuse-Balance op w b =
      let a = count-append n w.acked (op.ticket ∷ []) in
      let r = count-append n w.refused (op.ticket ∷ []) in
      record { total = omega (arith, a); causes = omega (arith, a, r) }

  pub finalize-Balance :
      (ops : List PersistOp) (w : World S) → Balance w (due n ops) (finalize ops w) 0
  unfolding settled caused due finalize
  finalize-Balance ops w =
      let a = count-append n w.acked (tickets (live ops)) in
      let o =
        ap (count n) (tickets-append w.observed (live ops))
        ∙ count-append n (tickets w.observed) (tickets (live ops)) in
      record { total = omega (arith, a); causes = omega (arith, a, o) }

  pub abandon-Balance :
      (ops : List PersistOp) (w : World S) → Balance w (due n ops) (abandon ops w) 0
  unfolding settled caused due
  abandon-Balance ops w =
      let a = count-append n w.abandoned (tickets (live ops)) in
      record { total = omega (arith, a); causes = refl }

  -- The world after an attempt, with its ops as they are marked now.
  abbrev Attempted : World S → List PersistOp → Attempt S → Type 0
  Attempted w ops a = Balance w (due n ops) a.world (due n a.ops)

  pub same-Balance : (w : World S) (b : ℕ) → Balance w b w b
  same-Balance w b = record { total = refl; causes = refl }

  stored-Balance : (s : S) (w : World S) (b : ℕ) → Balance w b (with_store s w) b
  unfolding settled caused
  stored-Balance s w b = record { total = refl; causes = refl }

  onto-Balance :
      (op : PersistOp) (ops : List PersistOp) (w : World S) (a : Attempt S)
      → Attempted w ops a
      → Attempted w (op ∷ ops) (onto_ops op a)
  onto-Balance op ops w a p = record {
    total = omega (arith, p.total, due-onto n op ops a.ops);
    causes = p.causes;
  }

  perform-Balance :
      (op : PersistOp) (ops : List PersistOp) (act : Act S)
      (rest : List IndividualRow → List ObjectRow → World S → Attempt S)
      (individual : List IndividualRow) (objects : List ObjectRow) (w : World S)
      → op.broken ≡ false
      → ((is : List IndividualRow) (os : List ObjectRow) (w' : World S)
          → Attempted w' ops (rest is os w'))
      → Attempted w (op ∷ ops) (perform op ops act rest individual objects w)
  perform-Balance op ops give_up rest individual objects w h ih =
      let a = rest individual objects (refuse op w) in
      rw (live_due n op ops h, broken_due n (record op { broken = true }) a.ops refl)
        (trans_Balance w (refuse op w) a.world (refuse-Balance op w (due n ops))
          (ih individual objects (refuse op w)))
  perform-Balance op ops (run (s, some e)) rest individual objects w h ih =
      stored-Balance s w (due n (op ∷ ops))
  perform-Balance op ops (run (s, none)) rest individual objects w h ih =
      onto-Balance op ops w (rest individual objects (with_store s w)) (
        trans_Balance w (with_store s w) (rest individual objects (with_store s w)).world
          (stored-Balance s w (due n ops)) (ih individual objects (with_store s w)))
  perform-Balance op ops (collect row) rest individual objects w h ih =
      onto-Balance op ops w (rest (individual ++ row ∷ []) objects w)
        (ih (individual ++ row ∷ []) objects w)
  perform-Balance op ops (collect_object row) rest individual objects w h ih =
      onto-Balance op ops w (rest individual (objects ++ row ∷ []) w)
        (ih individual (objects ++ row ∷ []) w)

  if-Attempted :
      (b : Bool) (w : World S) (ops : List PersistOp) (a a' : Attempt S)
      → (b ≡ true → Attempted w ops a)
      → (b ≡ false → Attempted w ops a')
      → Attempted w ops (if b then a else a')
  if-Attempted true w ops a a' p q = p refl
  if-Attempted false w ops a a' p q = q refl

  module _ (marshal : Marshal) (st : Store S) where
    commit_rows-Balance :
        (individual : List IndividualRow) (objects : List ObjectRow) (w : World S)
        → Attempted w [] (commit_rows marshal st individual objects w)
    unfolding commit_rows
    commit_rows-Balance individual objects w =
        elim (Bool-cases (is_empty individual && is_empty objects)) [
          | inl e ↦ rw e (same-Balance w (due n []))
          | inr e ↦
              rw e
                (stored-Balance (st.append_datastreams individual objects w.store).0 w (due n []))
        ]

    pub commit_loop-Balance :
        (ops : List PersistOp) (individual : List IndividualRow) (objects : List ObjectRow)
        (w : World S)
        → Attempted w ops (commit_loop marshal st ops individual objects w)
    unfolding commit_loop
    commit_loop-Balance [] individual objects w = commit_rows-Balance individual objects w
    commit_loop-Balance (op ∷ ops) individual objects w =
        if-Attempted op.broken w (op ∷ ops)
          (onto_ops op (commit_loop marshal st ops individual objects w)) _
          (λ e.
            onto-Balance op ops w (commit_loop marshal st ops individual objects w)
              (commit_loop-Balance ops individual objects w))
          (λ e.
            perform-Balance op ops (act_of marshal st op w.store) (commit_loop marshal st ops)
              individual objects w e (commit_loop-Balance ops))
