-- ===== src/Triggers/Policy/Decide/Laws.antt =====
-- Which handler of a compiled policy governs a delivery attempt.
use astrate.Base.{
  ℕ, suc, ◌≤◌, ◌≡◌, ◌↔◌, inl, inr, true, false, Option, some, List, [], ◌∷◌, arith, Bool-cases, Any,
  ok, Bytes, ℤ, pos,
}
use astrate.Triggers.Policy.Handler.{retry, Handler, claims, claimants, within}
use astrate.Triggers.Policy.Compile.{PolicyDoc, Policy, compile_policy}
use astrate.Triggers.Policy.Compile.Laws.{compile_policy-IsPolicy}
use astrate.Triggers.Policy.Decide.{decide_from, decide}

-- Some handler that retries claims the status.
abbrev pub RetryClaims : List Handler → ℤ → Type 0
RetryClaims hs status = Any (λ h. (claims h status ≡ true) × (h.strategy ≡ retry)) hs

RetryClaims-claimants :
    (hs : List Handler) (c : ℕ) → RetryClaims hs (pos c) → 1 ≤ claimants hs (pos c)
unfolding claimants
RetryClaims-claimants [] c r = elim r [ ]
RetryClaims-claimants (h ∷ hs) c (inl (e, _)) = rw e (omega arith)
RetryClaims-claimants (h ∷ hs) c (inr r) = omega (arith, RetryClaims-claimants hs c r)

module _ (i : ℕ) (h : Handler) (hs : List Handler) (c : ℕ) where
  decide_from-claimed :
      claims h (pos c) ≡ true → (decide_from i (h ∷ hs) (pos c)).strategy ≡ h.strategy
  unfolding decide_from
  decide_from-claimed mine = ground arith

  decide_from-unclaimed :
      claims h (pos c) ≡ false → decide_from i (h ∷ hs) (pos c) ≡ decide_from (suc i) hs (pos c)
  unfolding decide_from
  decide_from-unclaimed other = ground arith

decide_from_iff :
    (i : ℕ) (hs : List Handler) (c : ℕ)
    → 400 ≤ c
    → claimants hs (pos c) ≤ 1
    → ((decide_from i hs (pos c)).strategy ≡ retry) ↔ RetryClaims hs (pos c)
unfolding claimants
decide_from_iff i [] c lo few = (λ e. unfold decide_from in ground arith, λ r. elim r [ ])
decide_from_iff i (h ∷ hs) c lo few = elim (Bool-cases (claims h (pos c))) [
  | inl mine ↦ rw (decide_from-claimed i h hs c mine) (
    λ e. inl (mine, e),
    elim [ inl (_, e) ↦ e | inr r ↦ ground (arith, RetryClaims-claimants hs c r) ],
  )
  | inr other ↦
      let ih = decide_from_iff (suc i) hs c lo (ground arith) in
      rw (decide_from-unclaimed i h hs c other)
        (λ e. inr (ih.0 e), elim [ inl (e, _) ↦ ground arith | inr r ↦ ih.1 r ])
]

-- For a policy that `CompilePolicy` returned and a status code from 400 to 599, `Decide` answers
-- retry exactly when some handler that retries claims the code: the order of the handlers, by which
-- the loop chooses, makes no difference.
pub decide-retry_iff :
    (decode : Bytes → Option PolicyDoc) (def : Bytes) (p : Policy) (c : ℕ)
    → compile_policy decode def ≡ ok p
    → 400 ≤ c
    → c ≤ 599
    → ((decide (some p) (pos c)).strategy ≡ retry) ↔ RetryClaims p.handlers (pos c)
unfolding decide
decide-retry_iff decode def p c h lo hi =
    let few = (compile_policy-IsPolicy decode def p h).single c lo hi in
    let outside : within 200 399 (pos c) ≡ false = ground arith in
    rw (outside, decide) (decide_from_iff 0 p.handlers c lo few)
