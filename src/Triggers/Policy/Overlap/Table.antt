-- ===== src/Triggers/Policy/Overlap/Table.antt =====
-- The table of claimed codes, read as a function of the index.
use astrate.Base.{
  ℕ, zero, suc, ◌+◌, ◌-◌, ◌<◌, ◌≤◌, ◌≡◌, refl, Bool, true, false, ◌||◌, some, List, [], ◌∷◌,
  get_elem?, All, eq_ℤ, if◌then◌else◌, ◌==◌, pos, ℤ, arith, ◌↔◌, ok, err, inl, inr, Bool-cases,
  ==_iff,
}
use astrate.Triggers.Policy.Handler.{IsCode, contains_code, overlap}
use astrate.Triggers.Policy.Overlap.{
  slot, is_claimed, set_true, check_free, take_code, take_codes, none_claimed,
}

-- The table holds `f` at each of its 200 places.
abbrev pub Reads : List Bool → (ℕ → Bool) → Type 0
Reads claimed f = (i : ℕ) → i < 200 → get_elem? claimed i ≡ some (f i)

get_elem?-none_claimed : (n i : ℕ) → i < n → get_elem? (none_claimed n) i ≡ some false
unfolding none_claimed
get_elem?-none_claimed zero i h = elim h [ ]
get_elem?-none_claimed (suc n) zero h = refl
get_elem?-none_claimed (suc n) (suc i) h = get_elem?-none_claimed n i (omega arith)

pub none_claimed-Reads : Reads (none_claimed 200) (λ _. false)
none_claimed-Reads i h = get_elem?-none_claimed 200 i h

set_true_lem :
    (bs : List Bool) (i j : ℕ) (b : Bool)
    → get_elem? bs j ≡ some b
    → get_elem? (set_true bs i) j ≡ some (b || (i == j))
unfolding set_true
set_true_lem [] i j b h = ground arith
set_true_lem (x ∷ bs) zero zero b h = ground arith
set_true_lem (x ∷ bs) zero (suc j) b h = ground arith
set_true_lem (x ∷ bs) (suc i) zero b h = ground arith
set_true_lem (x ∷ bs) (suc i) (suc j) b h = ground (arith, set_true_lem bs i j b)

slot-code : (n : ℕ) → 400 ≤ n → slot (pos n) ≡ some (n - 400)
slot-code n h = ground arith

take_code-Reads :
    (c : ℤ) (claimed : List Bool) (f : ℕ → Bool)
    → IsCode c
    → Reads claimed f
    → Reads (take_code claimed c) (λ i. f i || eq_ℤ c (pos (400 + i)))
unfolding take_code
take_code-Reads c claimed f (n, e, lo, hi) r i h =
    rw (e, take_code, slot-code n lo)
      (ground (arith, set_true_lem claimed (n - 400) i (f i) (r i h)))

pub take_codes-Reads :
    (cs : List ℤ) (claimed : List Bool) (f : ℕ → Bool)
    → All IsCode cs
    → Reads claimed f
    → Reads (take_codes claimed cs) (λ i. f i || contains_code cs (pos (400 + i)))
unfolding take_codes
take_codes-Reads [] claimed f v r i h = ground (arith, r i h)
take_codes-Reads (c ∷ cs) claimed f (k, v) r i h = ground (
  arith,
  take_codes-Reads cs (take_code claimed c) (λ j. f j || eq_ℤ c (pos (400 + j))) v
      (take_code-Reads c claimed f k r) i h,
)

is_claimed-code :
    (n : ℕ) (claimed : List Bool) (f : ℕ → Bool)
    → 400 ≤ n
    → n ≤ 599
    → Reads claimed f
    → is_claimed claimed (pos n) ≡ some (f (n - 400))
unfolding is_claimed
is_claimed-code n claimed f lo hi r = rw (is_claimed, slot-code n lo) (r (n - 400) (omega arith))

-- The first loop, at a code: it goes on exactly when the table does not have the code.
check_free-cons :
    (n : ℕ) (cs : List ℤ) (claimed : List Bool) (f : ℕ → Bool)
    → 400 ≤ n
    → n ≤ 599
    → Reads claimed f
    → check_free claimed (pos n ∷ cs) ≡ (if f (n - 400) then err overlap else check_free claimed cs)
unfolding check_free
check_free-cons n cs claimed f lo hi r = ground (arith, is_claimed-code n claimed f lo hi r)

abbrev pub MissesAll : (ℕ → Bool) → List ℤ → Type 0
MissesAll f cs = (i : ℕ) → i < 200 → contains_code cs (pos (400 + i)) ≡ true → f i ≡ false

MissesAll-cons :
    (n : ℕ) (cs : List ℤ) (f : ℕ → Bool)
    → 400 ≤ n
    → f (n - 400) ≡ false
    → MissesAll f cs
    → MissesAll f (pos n ∷ cs)
MissesAll-cons n cs f lo e m i h k = elim (Bool-cases (n == 400 + i)) [
  | inl same ↦ let at : n - 400 ≡ i = omega (arith, (==_iff n (400 + i)).0 same) in rw at at e
  | inr other ↦ m i h (rw other at k)
]

MissesAll-tail :
    (n : ℕ) (cs : List ℤ) (f : ℕ → Bool)
    → 400 ≤ n
    → n ≤ 599
    → MissesAll f (pos n ∷ cs)
    → (f (n - 400) ≡ false) × MissesAll f cs
MissesAll-tail n cs f lo hi m =
    (m (n - 400) (omega arith) (ground arith), λ i h k. m i h (ground arith))

-- The first loop succeeds exactly when the table has none of the codes.
pub check_free_iff :
    (cs : List ℤ) (claimed : List Bool) (f : ℕ → Bool)
    → All IsCode cs
    → Reads claimed f
    → (check_free claimed cs ≡ ok tt) ↔ MissesAll f cs
check_free_iff [] claimed f v r = (λ _ i h k. ground arith, λ _. unfold check_free in refl)
check_free_iff (c ∷ cs) claimed f ((n, e, lo, hi), v) r =
    let later = check_free_iff cs claimed f v r in
    rw (e, check_free-cons n cs claimed f lo hi r)
      (
        λ done. elim (Bool-cases (f (n - 400))) [
          | inl taken ↦ ground arith
          | inr free ↦ MissesAll-cons n cs f lo free (later.0 (rw free at done))
        ],
        λ m. let (free, rest) = MissesAll-tail n cs f lo hi m in rw free (later.1 rest),
      )
