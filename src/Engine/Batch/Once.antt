-- ===== src/Engine/Batch/Once.antt =====
-- A flush that returns has acknowledged or abandoned every op, once.
use astrate.Base.{
  ℕ, suc, ◌+◌, ◌≤◌, ◌≡◌, refl, ap, ◌∙◌, ◌≢◌, inl, inr, Bool, true, false, ◌&&◌, Option, none, some,
  List, [], ◌∷◌, ◌++◌, arith, ltb, if◌then◌else◌, Bool-cases, length, is_empty,
}
use astrate.Engine.Rows.{PersistOp, Marshal, IndividualRow, ObjectRow}
use astrate.Engine.Batch.{
  StoreError, Store, Wait, elapsed, quit, done, World, is_permanent_commit_error, live, Attempt,
  Flushed, Act, give_up, run, collect, collect_object, with_store, refuse, onto_ops, commit_rows,
  act_of, perform, commit_loop, commit, abandon, settle, flush_loop, drop_first, flush_each,
  split_or_drop, flush_ops, flush,
}
use astrate.Engine.Batch.Balance.{
  count, due, Balance, trans_Balance, refuse-Balance, finalize-Balance, abandon-Balance,
  same-Balance, live_due, broken_due, commit_loop-Balance,
}

-- What a failed attempt leaves: a single op is not broken.
abbrev pub Rejected : List PersistOp → Type 0
Rejected [] = Unit
Rejected (op ∷ []) = op.broken ≡ false
Rejected (op ∷ next ∷ ops) = Unit

long_Rejected : (ops : List PersistOp) → 2 ≤ length ops → Rejected ops
long_Rejected [] h = tt
long_Rejected (op ∷ []) h = absurd (omega (arith, h))
long_Rejected (op ∷ next ∷ ops) h = tt

module _ {S : Type 0} (marshal : Marshal) (st : Store S) where
  if-length :
      (b : Bool) (a a' : Attempt S) (k : ℕ)
      → length a.ops ≡ k
      → length a'.ops ≡ k
      → length (if b then a else a').ops ≡ k
  if-length true a a' k p q = p
  if-length false a a' k p q = q

  length-perform :
      (op : PersistOp) (ops : List PersistOp) (act : Act S)
      (rest : List IndividualRow → List ObjectRow → World S → Attempt S)
      (individual : List IndividualRow) (objects : List ObjectRow) (w : World S)
      → ((is : List IndividualRow) (os : List ObjectRow) (w' : World S)
          → length (rest is os w').ops ≡ length ops)
      → length (perform op ops act rest individual objects w).ops ≡ suc (length ops)
  length-perform op ops give_up rest is os w ih = ap suc (ih is os (refuse op w))
  length-perform op ops (run (s, some e)) rest is os w ih = refl
  length-perform op ops (run (s, none)) rest is os w ih = ap suc (ih is os (with_store s w))
  length-perform op ops (collect row) rest is os w ih = ap suc (ih (is ++ row ∷ []) os w)
  length-perform op ops (collect_object row) rest is os w ih = ap suc (ih is (os ++ row ∷ []) w)

  -- An attempt keeps the number of the ops.
  length-commit_loop :
      (ops : List PersistOp) (is : List IndividualRow) (os : List ObjectRow) (w : World S)
      → length (commit_loop marshal st ops is os w).ops ≡ length ops
  unfolding commit_loop commit_rows
  length-commit_loop [] is os w = if-length (is_empty is && is_empty os) _ _ 0 refl refl
  length-commit_loop (op ∷ ops) is os w =
      if-length op.broken (onto_ops op (commit_loop marshal st ops is os w))
        (perform op ops (act_of marshal st op w.store) (commit_loop marshal st ops) is os w)
        (suc (length ops)) (ap suc (length-commit_loop ops is os w))
        (length-perform op ops (act_of marshal st op w.store) (commit_loop marshal st ops) is os w
          (length-commit_loop ops))

  nothing_fails : (w : World S) (e : StoreError) → (commit_rows marshal st [] [] w).error ≢ some e
  unfolding commit_rows
  nothing_fails w e h = cc

  one-Rejected :
      (op : PersistOp) (act : Act S) (w : World S) (e : StoreError)
      → op.broken ≡ false
      → (perform op [] act (commit_rows marshal st) [] [] w).error ≡ some e
      → Rejected (perform op [] act (commit_rows marshal st) [] [] w).ops
  unfolding commit_rows
  one-Rejected op give_up w e b h = cc
  one-Rejected op (run (s, some x)) w e b h = b
  one-Rejected op (run (s, none)) w e b h = cc
  one-Rejected op (collect row) w e b h = b
  one-Rejected op (collect_object row) w e b h = b

  if-Rejected :
      (b : Bool) (e : StoreError) (a a' : Attempt S)
      → (a.error ≢ some e)
      → (b ≡ false → a'.error ≡ some e → Rejected a'.ops)
      → (if b then a else a').error ≡ some e
      → Rejected (if b then a else a').ops
  if-Rejected true e a a' p q h = absurd (p h)
  if-Rejected false e a a' p q h = q refl h

  commit-Rejected :
      (ops : List PersistOp) (w : World S) (e : StoreError)
      → (commit marshal st ops w).error ≡ some e
      → Rejected (commit marshal st ops w).ops
  commit-Rejected [] w e h = unfold commit_loop in absurd (nothing_fails w e h)
  commit-Rejected (op ∷ []) w e h =
      unfold commit_loop in
      if-Rejected op.broken e (onto_ops op (commit_rows marshal st [] [] w)) _ (nothing_fails w e)
        (λ b. one-Rejected op (act_of marshal st op w.store) w e b) h
  commit-Rejected (op ∷ next ∷ ops) w e h =
      long_Rejected (commit marshal st (op ∷ next ∷ ops) w).ops
        (omega (arith, length-commit_loop (op ∷ next ∷ ops) [] [] w))

  module _ (n : ℕ) where
    -- Nothing is due any more, where the flush returned.
    abbrev Settles : World S → ℕ → Flushed S → Type 0
    Settles w b none = Unit
    Settles w b (some (waits, w')) = Balance n w b w' 0

    elim-Settles :
        (w : World S) (b : ℕ) (error : Option StoreError) (x : Flushed S)
        (f : StoreError → Flushed S)
        → Settles w b x
        → ((e : StoreError) → error ≡ some e → Settles w b (f e))
        → Settles w b (elim error [ none ↦ x | some e ↦ f e ])
    elim-Settles w b none x f p q = p
    elim-Settles w b (some e) x f p q = q e refl

    if-Settles :
        (w : World S) (b : ℕ) (c : Bool) (x y : Flushed S)
        → Settles w b x
        → Settles w b y
        → Settles w b (if c then x else y)
    if-Settles w b true x y p q = p
    if-Settles w b false x y p q = q

    later-Settles :
        (w w' : World S) (a b : ℕ) (f : Flushed S)
        → Balance n w a w' b
        → Settles w' b f
        → Settles w a f
    later-Settles w w' a b none p q = tt
    later-Settles w w' a b (some (waits, w'')) p q = trans_Balance n w w' w'' p q

    module _ (rejected : List Wait → List PersistOp → World S → Flushed S) (k : ℕ)
        (refusing : (waits : List Wait) (ops : List PersistOp) (w : World S)
          → length ops ≡ k
          → Rejected ops
          → Settles w (due n ops) (rejected waits ops w)) where
      -- One round, from what the transient error leads to.
      round-Settles :
          (waits : List Wait) (ops : List PersistOp) (w : World S) (transient : Flushed S)
          → length ops ≡ k
          → Settles (commit marshal st ops w).world (due n (commit marshal st ops w).ops) transient
          → Settles w (due n ops) (settle rejected waits (commit marshal st ops w) transient)
      round-Settles waits ops w transient l p =
          let a = commit marshal st ops w in
          later-Settles w a.world (due n ops) (due n a.ops) (settle rejected waits a transient)
            (commit_loop-Balance n marshal st ops [] [] w)
            (elim-Settles a.world (due n a.ops) a.error _ _ (finalize-Balance n a.ops a.world)
              (λ e failed.
                if-Settles a.world (due n a.ops) (is_permanent_commit_error e) _ _
                  (refusing waits a.ops a.world (length-commit_loop ops [] [] w ∙ l)
                    (commit-Rejected ops w e failed))
                  p))

      flush_loop-Settles :
          (waits : List Wait) (ops : List PersistOp) (w : World S)
          → length ops ≡ k
          → Settles w (due n ops) (flush_loop marshal st rejected waits ops w)
      unfolding flush_loop
      flush_loop-Settles [] ops w l = round-Settles [] ops w none l tt
      flush_loop-Settles (elapsed ∷ waits) ops w l =
          let a = commit marshal st ops w in
          round-Settles (elapsed ∷ waits) ops w (flush_loop marshal st rejected waits a.ops a.world)
            l (flush_loop-Settles waits a.ops a.world (length-commit_loop ops [] [] w ∙ l))
      flush_loop-Settles (quit ∷ waits) ops w l =
          let a = commit marshal st ops w in
          round-Settles (quit ∷ waits) ops w (some (waits, abandon a.ops a.world)) l
            (abandon-Balance n a.ops a.world)
      flush_loop-Settles (done ∷ waits) ops w l =
          let a = commit marshal st ops w in
          round-Settles (done ∷ waits) ops w (some (waits, abandon a.ops a.world)) l
            (abandon-Balance n a.ops a.world)

    drop_first-Settles :
        (waits : List Wait) (ops : List PersistOp) (w : World S)
        → length ops ≤ 1
        → Rejected ops
        → Settles w (due n ops) (drop_first waits ops w)
    unfolding due count live
    drop_first-Settles waits [] w l r = same-Balance n w 0
    drop_first-Settles waits (op ∷ []) w l r = rw (live_due n op [] r) (refuse-Balance n op w 0)
    drop_first-Settles waits (op ∷ next ∷ ops) w l r = absurd (omega (arith, l))

    due-nil : due n [] ≡ 0
    unfolding due live count
    due-nil = refl

    due-cons :
        (op : PersistOp) (ops : List PersistOp) → due n (op ∷ ops) ≡ due n (op ∷ []) + due n ops
    due-cons op ops = elim (Bool-cases op.broken) [
      | inl e ↦ omega (arith, broken_due n op ops e, broken_due n op [] e, due-nil)
      | inr e ↦ omega (arith, live_due n op ops e, live_due n op [] e, due-nil)
    ]

    -- One op first, the others after it.
    then-Settles :
        (op : PersistOp) (ops : List PersistOp) (w : World S) (f : Flushed S)
        (next : List Wait → World S → Flushed S)
        → Settles w (due n (op ∷ [])) f
        → ((waits : List Wait) (w' : World S) → Settles w' (due n ops) (next waits w'))
        → Settles w (due n (op ∷ ops)) (elim f [ none ↦ none | some (waits', w') ↦ next waits' w' ])
    then-Settles op ops w none next p q = tt
    then-Settles op ops w (some (waits, w')) next p q =
        later-Settles w w' (due n (op ∷ ops)) (due n ops) (next waits w')
          (record { total = omega (arith, p.total, due-cons op ops); causes = p.causes })
          (q waits w')

    flush_each-Settles :
        (waits : List Wait) (ops : List PersistOp) (w : World S)
        → Settles w (due n ops) (flush_each marshal st waits ops w)
    unfolding flush_each due live count
    flush_each-Settles waits [] w = same-Balance n w 0
    flush_each-Settles waits (op ∷ ops) w =
        then-Settles op ops w (flush_loop marshal st drop_first waits (op ∷ []) w)
          (λ waits' w'. flush_each marshal st waits' ops w')
          (flush_loop-Settles drop_first 1
            (λ ws os v l r. drop_first-Settles ws os v (omega (arith, l)) r) waits (op ∷ []) w refl)
          (λ waits' w'. flush_each-Settles waits' ops w')

    split-Settles :
        (waits : List Wait) (ops : List PersistOp) (w : World S)
        → Rejected ops
        → Settles w (due n ops) (split_or_drop marshal st waits ops w)
    split-Settles waits ops w r = elim (Bool-cases (ltb 1 (length ops))) [
      | inl e ↦ rw e (flush_each-Settles waits ops w)
      | inr e ↦ rw e (drop_first-Settles waits ops w (ground arith) r)
    ]

    flush_ops-Settles :
        (waits : List Wait) (ops : List PersistOp) (w : World S)
        → Settles w (due n ops) (flush_ops marshal st waits ops w)
    unfolding flush_ops
    flush_ops-Settles waits ops w =
        flush_loop-Settles (split_or_drop marshal st) (length ops)
          (λ ws os v l r. split-Settles ws os v r) waits ops w refl

    settled_at :
        (w w' : World S) (b : ℕ) (f : Flushed S) (waits : List Wait)
        → Settles w b f
        → f ≡ some (waits, w')
        → Balance n w b w' 0
    settled_at w w' b f waits p e = rw e at p

nil_Balance : {S : Type 0} (n : ℕ) (w : World S) → Balance n w (due n []) w 0
unfolding due live count
nil_Balance n w = same-Balance n w 0

-- Where a flush returns, every message of the batch that was not acknowledged before was acknowledged
-- or abandoned exactly once, no other was, and every acknowledgement is of an op that afterCommit
-- observed or that was refused for good.
pub flush-Balance :
    {S : Type 0} (marshal : Marshal) (st : Store S) (waits waits' : List Wait)
    (ops : List PersistOp) (w w' : World S) (n : ℕ)
    → flush marshal st waits ops w ≡ some (waits', w')
    → Balance n w (due n ops) w' 0
unfolding flush
flush-Balance marshal st waits waits' [] w w' n h =
    settled_at marshal st n w w' (due n []) (some (waits, w)) waits' (nil_Balance n w) h
flush-Balance marshal st waits waits' (op ∷ ops) w w' n h =
    settled_at marshal st n w w' (due n (op ∷ ops)) (flush_ops marshal st waits (op ∷ ops) w) waits'
      (flush_ops-Settles marshal st n waits (op ∷ ops) w) h
