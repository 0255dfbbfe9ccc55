-- ===== src/Schema/Build/Whole/Name.antt =====
-- The names that `interfaceNameRe` takes.
use astrate.Base.{
  ℕ, ◌≤◌, ◌≡◌, refl, ap, ◌⊎◌, true, List, [], ◌∷◌, ◌++◌, ◌&&◌, arith, all, All, Bytes, split_on,
  Bool, false,
}
use astrate.Schema.Build.Whole.{
  between_byte, alpha, alnum, alnum_dash, end_label, middle_label, later_labels, labels_ok,
  interface_name_ok,
}

abbrev pub IsLetter : ℕ → Type 0
IsLetter c = ((b'a' ≤ c) × (c ≤ b'z')) ⊎ ((b'A' ≤ c) × (c ≤ b'Z'))

abbrev pub IsAlphanumeric : ℕ → Type 0
IsAlphanumeric c = IsLetter c ⊎ ((b'0' ≤ c) × (c ≤ b'9'))

-- A letter, and letters and digits behind it.
pub data IsEndLabel : Bytes → Type 0 where
  end_label_of : {c : ℕ} {s : Bytes} → IsLetter c → All IsAlphanumeric s → IsEndLabel (c ∷ s)

-- A letter or digit, and letters, digits and hyphens behind it.
pub data IsMiddleLabel : Bytes → Type 0 where
  middle_label_of :
      {c : ℕ} {s : Bytes}
      → IsAlphanumeric c
      → All (λ d. IsAlphanumeric d ⊎ (d ≡ b'-')) s
      → IsMiddleLabel (c ∷ s)

-- The labels of a name.
pub data AreLabels : List Bytes → Type 0 where
  one : {l : Bytes} → IsEndLabel l → AreLabels (l ∷ [])
  more :
      {l k : Bytes} (middles : List Bytes)
      → IsEndLabel l
      → All IsMiddleLabel middles
      → IsEndLabel k
      → AreLabels (l ∷ (middles ++ k ∷ []))

alpha-IsLetter : (c : ℕ) → alpha c ≡ true → IsLetter c
unfolding alpha between_byte
alpha-IsLetter c h = ground arith

alnum-IsAlphanumeric : (c : ℕ) → alnum c ≡ true → IsAlphanumeric c
unfolding alnum alpha between_byte
alnum-IsAlphanumeric c h = ground arith

alnum_dash-cases : (c : ℕ) → alnum_dash c ≡ true → IsAlphanumeric c ⊎ (c ≡ b'-')
unfolding alnum_dash alnum alpha between_byte
alnum_dash-cases c h = ground arith

and_parts : (a b : Bool) → (a && b) ≡ true → (a ≡ true) × (b ≡ true)
and_parts true b h = (refl, h)
and_parts false b h = cc

all-All :
    (p : ℕ → Bool) (P : ℕ → Type 0) (s : Bytes)
    → ((c : ℕ) → p c ≡ true → P c)
    → all p s ≡ true
    → All P s
all-All p P [] f h = tt
all-All p P (c ∷ s) f h = let (x, y) = and_parts (p c) (all p s) h in (f c x, all-All p P s f y)

end_label-IsEndLabel : (l : Bytes) → end_label l ≡ true → IsEndLabel l
unfolding end_label
end_label-IsEndLabel [] h = absurd (ground arith)
end_label-IsEndLabel (c ∷ s) h =
    let (x, y) = and_parts (alpha c) (all alnum s) h in
    end_label_of (alpha-IsLetter c x) (all-All alnum IsAlphanumeric s alnum-IsAlphanumeric y)

middle_label-IsMiddleLabel : (l : Bytes) → middle_label l ≡ true → IsMiddleLabel l
unfolding middle_label
middle_label-IsMiddleLabel [] h = absurd (ground arith)
middle_label-IsMiddleLabel (c ∷ s) h =
    let (x, y) = and_parts (alnum c) (all alnum_dash s) h in
    middle_label_of (alnum-IsAlphanumeric c x)
      (all-All alnum_dash (λ d. IsAlphanumeric d ⊎ (d ≡ b'-')) s alnum_dash-cases y)

later_labels-AreLabels :
    (l : Bytes) (ls : List Bytes)
    → later_labels (l ∷ ls) ≡ true
    → (middles : List Bytes) × (k : Bytes) × (l ∷ ls ≡ middles ++ k ∷ [])
      × All IsMiddleLabel middles
      × IsEndLabel k
unfolding later_labels
later_labels-AreLabels l [] h = ([], l, refl, tt, end_label-IsEndLabel l h)
later_labels-AreLabels l (k ∷ ls) h =
    let (x, y) = and_parts (middle_label l) (later_labels (k ∷ ls)) h in
    let (middles, e, split, ms, last) = later_labels-AreLabels k ls y in
    (l ∷ middles, e, ap (◌∷◌ l) split, (middle_label-IsMiddleLabel l x, ms), last)

labels_ok-AreLabels : (ls : List Bytes) → labels_ok ls ≡ true → AreLabels ls
unfolding labels_ok
labels_ok-AreLabels [] h = absurd (ground arith)
labels_ok-AreLabels (l ∷ []) h = one (end_label-IsEndLabel l h)
labels_ok-AreLabels (l ∷ k ∷ ls) h =
    let (x, y) = and_parts (end_label l) (later_labels (k ∷ ls)) h in
    let (middles, e, split, ms, last) = later_labels-AreLabels k ls y in
    rw split (more middles (end_label-IsEndLabel l x) ms last)

-- A name that passes the test has labels of that form between its dots.
pub interface_name_ok-AreLabels :
    (name : Bytes) → interface_name_ok name ≡ true → AreLabels (split_on b'.' name)
unfolding interface_name_ok
interface_name_ok-AreLabels name h = labels_ok-AreLabels (split_on b'.' name) h
