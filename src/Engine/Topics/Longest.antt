-- ===== src/Engine/Topics/Longest.antt =====
-- Which interface of a device a topic names.
use astrate.Base.{
  ℕ, zero, suc, ◌≤◌, ◌<◌, ◌≡◌, refl, sym, ap, ap₂, ◌∙◌, ◌↔◌, ◌⊎◌, ◌≢◌, subst, inl, inr, Option,
  none, some, [], ◌∷◌, ◌++◌, arith, ltb, ◌==◌, Bool-cases, Option-cases, ==_iff, length, take, drop,
  length-append, take-append, append_nil, append-take-drop, Bytes,
}
use astrate.Engine.Topics.{last_index, match_from, match_interface}

last_index-bound : (c : ℕ) (s : Bytes) (i : ℕ) → last_index c s ≡ some i → i < length s
unfolding last_index
last_index-bound c [] i h = cc
last_index-bound c (x ∷ s) i h = elim (Option-cases (last_index c s)) [
  | inl e ↦ ground arith
  | inr (j, e) ↦ let below = last_index-bound c s j e in ground arith
]

-- No occurrence stands behind the last one.
last_index_last :
    (c : ℕ) (a b : Bytes) → (i : ℕ) × (last_index c (a ++ c ∷ b) ≡ some i) × (length a ≤ i)
unfolding last_index
last_index_last c [] b = elim (Option-cases (last_index c b)) [
  | inl e ↦ (0, rw e (ground arith), omega arith)
  | inr (j, e) ↦ (suc j, rw e refl, omega arith)
]
last_index_last c (x ∷ a) b =
    let (i, e, bound) = last_index_last c a b in (suc i, rw e refl, omega arith)

take-inside :
    (n : ℕ) (c : ℕ) (a b : Bytes)
    → length a < n
    → (b' : Bytes) × (take n (a ++ c ∷ b) ≡ a ++ c ∷ b')
take-inside zero c a b h = absurd (ground arith)
take-inside (suc n) c [] b h = (take n b, refl)
take-inside (suc n) c (x ∷ a) b h =
    let (b', e) = take-inside n c a b (omega arith) in (b', ap (◌∷◌ x) e)

length-take_le : (n : ℕ) (s : Bytes) → length (take n s) ≤ n
length-take_le zero s = omega arith
length-take_le (suc n) [] = omega arith
length-take_le (suc n) (c ∷ s) = omega (arith, length-take_le n s)

take_all : (s : Bytes) → take (length s) s ≡ s
take_all [] = refl
take_all (c ∷ s) = ap (◌∷◌ c) (take_all s)

length-take_eq : (n : ℕ) (s : Bytes) → n ≤ length s → length (take n s) ≡ n
length-take_eq zero s h = refl
length-take_eq (suc n) [] h = absurd (ground arith)
length-take_eq (suc n) (c ∷ s) h = ap suc (length-take_eq n s (omega arith))

last_index-at :
    (c : ℕ) (s : Bytes) (i : ℕ) → last_index c s ≡ some i → (b : Bytes) × (drop i s ≡ c ∷ b)
unfolding last_index
last_index-at c [] i h = cc
last_index-at c (x ∷ s) i h = elim (Option-cases (last_index c s)) [
  | inr (j, e) ↦
      let is : i ≡ suc j = ground arith in let (b, at) = last_index-at c s j e in (b, rw is at)
  | inl e ↦
      let is : i ≡ 0 = ground arith in let same : x ≡ c = ground arith in (s, rw is (rw same refl))
]

drop-append :
    (i : ℕ) (s t : Bytes) {c : ℕ} {b : Bytes} → drop i s ≡ c ∷ b → drop i (s ++ t) ≡ c ∷ (b ++ t)
drop-append zero s t e = ap (λ (r : Bytes). r ++ t) e
drop-append (suc i) [] t e = cc
drop-append (suc i) (x ∷ s) t e = drop-append i s t e

-- Nothing, or a text that begins with a slash.
abbrev pub IsPath : Bytes → Type 0
IsPath path = (path ≡ []) ⊎ ((b : Bytes) × (path ≡ b'/' ∷ b))

drop-IsPath :
    (i end : ℕ) (rest : Bytes) → last_index b'/' (take end rest) ≡ some i → IsPath (drop i rest)
drop-IsPath i end rest h =
    let (b, at) = last_index-at b'/' (take end rest) i h in
    inr (
      b ++ drop end rest,
      ap (drop i) (sym (append-take-drop end rest))
          ∙ drop-append i (take end rest) (drop end rest) at,
    )

drop_all : (s : Bytes) → drop (length s) s ≡ []
drop_all [] = refl
drop_all (c ∷ s) = drop_all s

some_eq : {A : Type 0} {a b : A} → some a ≡ some b → a ≡ b
some_eq h = cc

none-some : {A : Type 0} {a : A} → none ≡ some a → ⊥
none-some h = cc

index_clash : {o : Option ℕ} {i j n : ℕ} → o ≡ some i → o ≡ some j → i < n → n ≤ j → ⊥
index_clash {o} {i} {j} {n} p q l m = let same : i ≡ j = ground arith in omega arith

module _ {V : Type 0} (declares : Bytes → Option V) (rest : Bytes) where
  -- No prefix before a slash that is longer than `n` is declared, nor is a longer whole.
  abbrev pub NoneAbove : ℕ → Type 0
  NoneAbove n =
      ((a b : Bytes) → a ++ b'/' ∷ b ≡ rest → n < length a → declares a ≡ none)
      × (n < length rest → declares rest ≡ none)

  -- The answer is declared, splits the text, and no longer prefix is declared.
  abbrev pub IsLongest : Bytes → Bytes → V → Type 0
  IsLongest name path v =
      (declares name ≡ some v) × (name ++ path ≡ rest) × IsPath path × NoneAbove (length name)

  -- Neither the whole nor a prefix before a slash is declared.
  abbrev pub NoneDeclared : Type 0
  NoneDeclared = (declares rest ≡ none) × ((a b : Bytes) → a ++ b'/' ∷ b ≡ rest → declares a ≡ none)

  prefix-undeclared :
      (end : ℕ)
      → declares (take end rest) ≡ none
      → NoneAbove end
      → (a b : Bytes) → a ++ b'/' ∷ b ≡ rest
      → (declares a ≡ none)
        ⊎ ((i : ℕ) × (last_index b'/' (take end rest) ≡ some i) × (length a ≤ i))
  prefix-undeclared end d above a b e = elim (Bool-cases (ltb end (length a))) [
    | inl longer ↦ inl (above.0 a b e (ground arith))
    | inr no_longer ↦ elim (Bool-cases (length a == end)) [
      | inl same ↦
          let is : length a ≡ end = (==_iff _ _).0 same in
          let here : take end rest ≡ a =
            ap₂ (λ (n : ℕ) (s : Bytes). take n s) (sym is) (sym e) ∙ take-append a (b'/' ∷ b) in
          inl (ap declares (sym here) ∙ d)
      | inr other ↦
          let (b', inside) = take-inside end b'/' a b (ground arith) in
          let (i, found, bound) = last_index_last b'/' a b' in
          let same : take end rest ≡ a ++ b'/' ∷ b' = ap (take end) (sym e) ∙ inside in
          inr (i, ap (last_index b'/') same ∙ found, bound)
    ]
  ]

  whole-undeclared :
      (end : ℕ)
      → end ≤ length rest
      → declares (take end rest) ≡ none
      → NoneAbove end
      → declares rest ≡ none
  whole-undeclared end le d above = elim (Bool-cases (ltb end (length rest))) [
    | inl shorter ↦ above.1 (ground arith)
    | inr all_of_it ↦
        let is : end ≡ length rest = ground arith in
        ap declares (sym (take_all rest)) ∙ ap (λ (n : ℕ). declares (take n rest)) (sym is) ∙ d
  ]

  -- The loop returned, with the longest declared prefix, or because none is declared.
  data Returns : Option (Option (Bytes × Bytes × V)) → Type 0 where
    longest :
        (name path : Bytes) (v : V) → IsLongest name path v → Returns (some (some (name, path, v)))
    undeclared : NoneDeclared → Returns (some none)

  match_from-Returns :
      (rounds end : ℕ)
      → end < rounds
      → end ≤ length rest
      → NoneAbove end
      → IsPath (drop end rest)
      → Returns (match_from declares rounds rest end)
  unfolding match_from
  match_from-Returns zero end lt le above slash = absurd (ground arith)
  match_from-Returns (suc rounds) end lt le above slash =
      elim (Option-cases (declares (take end rest))) [
        | inr (w, d) ↦
            let is : match_from declares (suc rounds) rest end
                ≡ some (some (take end rest, drop end rest, w)) =
              ground arith in
            let long : end ≡ length (take end rest) = sym (length-take_eq end rest le) in
            rw is (
              longest (take end rest) (drop end rest) w
                (d, append-take-drop end rest, slash, rw long at above))
        | inl d ↦ elim (Option-cases (last_index b'/' (take end rest))) [
          | inl n ↦
              let is : match_from declares (suc rounds) rest end ≡ some none = ground arith in
              rw is (
                undeclared (
                  whole-undeclared end le d above,
                  λ a b e. elim (prefix-undeclared end d above a b e) [
                    | inl x ↦ x
                    | inr (i, f, _) ↦ absurd (none-some (sym n ∙ f))
                  ],
                ))
          | inr (i, f) ↦
              let is : match_from declares (suc rounds) rest end
                  ≡ match_from declares rounds rest i =
                ground arith in
              let short = last_index-bound b'/' (take end rest) i f in
              let bound = length-take_le end rest in
              let next : NoneAbove i = (
                λ a b e longer. elim (prefix-undeclared end d above a b e) [
                  | inl x ↦ x
                  | inr (j, g, below) ↦ absurd (index_clash f g longer below)
                ],
                λ shorter. whole-undeclared end le d above,
              ) in
              rw is (
                match_from-Returns rounds i (omega arith) (omega arith) next
                  (drop-IsPath i end rest f))
        ]
      ]

too_long : (a b rest : Bytes) → a ++ b'/' ∷ b ≡ rest → length rest < length a → ⊥
too_long a b rest e longer =
    let sum = length-append a (b'/' ∷ b) in
    let same = ap length e in omega (arith, sum, same, longer)

not_undeclared :
    {V : Type 0} (declares : Bytes → Option V) (rest name path : Bytes) (v : V)
    → NoneDeclared declares rest
    → IsLongest declares rest name path v
    → ⊥
not_undeclared declares rest name path v (whole, before) (d, split, inl nil, above) =
    let same : name ≡ rest = sym (append_nil name) ∙ ap (◌++◌ name) (sym nil) ∙ split in
    none-some (sym whole ∙ ap declares (sym same) ∙ d)
not_undeclared declares rest name path v (whole, before) (d, split, inr (b, slash), above) =
    none-some (sym (before name b (ap (◌++◌ name) (sym slash) ∙ split)) ∙ d)

abbrev answer_of : {A : Type 0} → Option (Option A) → Option A
answer_of none = none
answer_of (some answer) = answer

Returns-some :
    {A : Type 0} (declares : Bytes → Option A) (rest : Bytes)
    {r : Option (Option (Bytes × Bytes × A))}
    → Returns declares rest r
    → (r ≢ none)
      × ((name path : Bytes) (v : A)
          → answer_of r ≡ some (name, path, v)
          → IsLongest declares rest name path v)
      × ((answer_of r ≡ none) ↔ NoneDeclared declares rest)
Returns-some {A = A} declares rest (longest n p w l) = (
  λ e. cc,
  λ name path v h.
      let same : (n, p, w) ≡ (name, path, v) = some_eq h in
      subst (λ (t : Bytes × Bytes × A). IsLongest declares rest t.0 t.1 t.2) same l,
  (λ e. absurd (cc), λ u. absurd (not_undeclared declares rest n p w u l)),
)
Returns-some declares rest (undeclared u) =
    (λ e. cc, (λ name path v h. absurd (none-some h)), (λ e. u, λ _. refl))

-- The loop of `matchInterface` always returns within a round for each byte and one more. It answers
-- the longest of the whole text and its prefixes before a slash that the device declares, with the
-- text behind it as the path, which is empty or begins with a slash; it fails exactly if none of them
-- is declared.
pub match_interface-IsLongest :
    {V : Type 0} (declares : Bytes → Option V) (rest : Bytes)
    → (match_from declares (suc (length rest)) rest (length rest) ≢ none)
      × ((name path : Bytes) (v : V)
          → match_interface declares rest ≡ some (name, path, v)
          → IsLongest declares rest name path v)
      × ((match_interface declares rest ≡ none) ↔ NoneDeclared declares rest)
unfolding match_interface
match_interface-IsLongest declares rest = Returns-some declares rest (
    match_from-Returns declares rest (suc (length rest)) (length rest) (omega arith) (omega arith)
      ((λ a b e longer. absurd (too_long a b rest e longer)), (λ shorter. absurd (omega arith)))
      (inl (drop_all rest)))
