-- ===== src/Triggers/Policy/Overlap/Laws.antt =====
-- What `checkHandlersDisjoint` decides: whether some status code has two handlers.
use astrate.Base.{
  ℕ, zero, suc, ◌+◌, ◌-◌, ◌≤◌, ◌<◌, ◌≡◌, refl, ◌↔◌, inl, inr, Bool, false, ◌&&◌, ◌||◌, List, [],
  ◌∷◌, arith, ltb, leb, if◌then◌else◌, All, ok, >>-eq-ok, pos,
}
use astrate.Triggers.Policy.Handler.{
  IsCode, IsOn, On, keyword, explicit, contains_code, Handler, claims, AreValid, claimants,
  claims_status,
}
use astrate.Triggers.Policy.Overlap.{
  take_codes, own_codes, none_claimed, codes_from, check_from, check_free, check_handlers_disjoint,
}
use astrate.Triggers.Policy.Overlap.Table.{
  Reads, none_claimed-Reads, take_codes-Reads, check_free_iff, MissesAll,
}

contains_code-codes_from :
    (lo n c : ℕ) → contains_code (codes_from lo n) (pos c) ≡ (leb lo c && ltb c (lo + n))
unfolding codes_from
contains_code-codes_from lo zero c = ground arith
contains_code-codes_from lo (suc n) c = ground (arith, contains_code-codes_from (suc lo) n c)

codes_from-IsCode : (lo n : ℕ) → 400 ≤ lo → lo + n ≤ 600 → All IsCode (codes_from lo n)
unfolding codes_from
codes_from-IsCode lo zero p q = tt
codes_from-IsCode lo (suc n) p q =
    ((lo, refl, p, omega arith), codes_from-IsCode (suc lo) n (omega arith) (omega arith))

own_codes-IsCode : (on : On) → IsOn on → All IsCode (own_codes on)
unfolding own_codes
own_codes-IsCode (keyword k) (inl e) = rw e (codes_from-IsCode 400 200 (omega arith) (omega arith))
own_codes-IsCode (keyword k) (inr (inl e)) =
    rw e (codes_from-IsCode 400 100 (omega arith) (omega arith))
own_codes-IsCode (keyword k) (inr (inr e)) =
    rw e (codes_from-IsCode 500 100 (omega arith) (omega arith))
own_codes-IsCode (explicit cs) v = v

own_codes-claims_status :
    (on : On) (c : ℕ)
    → IsOn on
    → 400 ≤ c
    → c ≤ 599
    → contains_code (own_codes on) (pos c) ≡ claims_status on (pos c)
unfolding own_codes claims_status
own_codes-claims_status (keyword k) c (inl e) lo hi =
    rw (e, contains_code-codes_from 400 200 c) (ground arith)
own_codes-claims_status (keyword k) c (inr (inl e)) lo hi =
    rw (e, contains_code-codes_from 400 100 c) (ground arith)
own_codes-claims_status (keyword k) c (inr (inr e)) lo hi =
    rw (e, contains_code-codes_from 500 100 c) (ground arith)
own_codes-claims_status (explicit cs) c v lo hi = refl

-- The listed codes are those that the handler claims.
own_codes-claims :
    (h : Handler) (c : ℕ)
    → IsOn h.on
    → 400 ≤ c
    → c ≤ 599
    → contains_code (own_codes h.on) (pos c) ≡ claims h (pos c)
unfolding claims
own_codes-claims h c v lo hi = ground (arith, own_codes-claims_status h.on c v lo hi)

abbrev count : Bool → ℕ
count b = if b then 1 else 0

-- No place of the table and no handler claim a code together.
abbrev AtMostOne : (ℕ → Bool) → List Handler → Type 0
AtMostOne f hs = (i : ℕ) → i < 200 → count (f i) + claimants hs (pos (400 + i)) ≤ 1

module _ (h : Handler) (hs : List Handler) (f : ℕ → Bool) (v : IsOn h.on) where
  AtMostOne-cons :
      MissesAll f (own_codes h.on)
      → AtMostOne (λ i. f i || contains_code (own_codes h.on) (pos (400 + i))) hs
      → AtMostOne f (h ∷ hs)
  unfolding claimants
  AtMostOne-cons m a i lt =
      ground (arith, m i lt, a i lt, own_codes-claims h (400 + i) v (omega arith) (omega arith))

  AtMostOne-head : AtMostOne f (h ∷ hs) → MissesAll f (own_codes h.on)
  unfolding claimants
  AtMostOne-head a i lt k =
      ground (arith, a i lt, own_codes-claims h (400 + i) v (omega arith) (omega arith))

  AtMostOne-tail :
      AtMostOne f (h ∷ hs)
      → AtMostOne (λ i. f i || contains_code (own_codes h.on) (pos (400 + i))) hs
  unfolding claimants
  AtMostOne-tail a i lt =
      ground (arith, a i lt, own_codes-claims h (400 + i) v (omega arith) (omega arith))

check_from_iff :
    (hs : List Handler) (claimed : List Bool) (f : ℕ → Bool)
    → AreValid hs
    → Reads claimed f
    → (check_from claimed hs ≡ ok tt) ↔ AtMostOne f hs
unfolding check_from
check_from_iff [] claimed f v r = (λ _ i lt. unfold claimants in ground arith, λ _. refl)
check_from_iff (h ∷ hs) claimed f (vh, v) r =
    let own = own_codes h.on in
    let free = check_free_iff own claimed f (own_codes-IsCode h.on vh) r in
    let r' = take_codes-Reads own claimed f (own_codes-IsCode h.on vh) r in
    let later =
      check_from_iff hs (take_codes claimed own) (λ i. f i || contains_code own (pos (400 + i))) v
        r' in
    (
      λ done.
          let (first, rest) = >>-eq-ok (check_free claimed own) _ done in
          AtMostOne-cons h hs f vh (free.0 first) (later.0 rest),
      λ a. rw (free.1 (AtMostOne-head h hs f vh a)) (later.1 (AtMostOne-tail h hs f vh a)),
    )

-- `checkHandlersDisjoint` accepts handlers that `compileHandlerOn` lets through exactly when no
-- status code from 400 to 599 has two of them.
pub check_handlers_disjoint_iff :
    (hs : List Handler)
    → AreValid hs
    → (check_handlers_disjoint hs ≡ ok tt)
      ↔ ((c : ℕ) → 400 ≤ c → c ≤ 599 → claimants hs (pos c) ≤ 1)
unfolding check_handlers_disjoint
check_handlers_disjoint_iff hs v =
    let e = check_from_iff hs (none_claimed 200) (λ _. false) v none_claimed-Reads in
    (
      λ done c lo hi.
          let at : 400 + (c - 400) ≡ c = omega arith in
          let few = e.0 done (c - 400) (omega arith) in omega (arith, rw at at few),
      λ few. e.1 (λ i lt. omega (arith, few (400 + i) (omega arith) (omega arith))),
    )
