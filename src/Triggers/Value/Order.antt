-- ===== src/Triggers/Value/Order.antt =====
-- The operators on integers below 2^53 compare as integers.
use astrate.Base.{
  ℕ, suc, ◌+◌, ◌-◌, ◌^◌, ◌≤◌, ◌<◌, String, ◌≡◌, refl, ap, inl, inr, Bool, true, false, ◌||◌, not,
  arith, ltb, ◌==◌, Bool-cases, ℤ, pos, negsuc, ltb_ℤ, leb_ℤ, eq_ℤ,
}
use astrate.Triggers.Value.{
  Value, float64, int64, int32, is_nan, order_key, eq_float, lt_float, le_float, float_of_ℕ,
  float_of_ℤ, numeric, value_equals, operator_matches, value_matches,
}
use astrate.Triggers.Value.Exact.{float_bound, float_positive, float_mono}

-- An integer of magnitude below 2^53.
abbrev pub IsSafe : ℤ → Type 0
IsSafe (pos n) = n < 2 ^ 53
IsSafe (negsuc n) = suc n < 2 ^ 53

float_order : (m n : ℕ) → m < 2 ^ 53 → n < 2 ^ 53 → ltb (float_of_ℕ m) (float_of_ℕ n) ≡ ltb m n
float_order m n p q = elim (Bool-cases (ltb m n)) [
  | inl e ↦ ground (arith, float_mono m n (ground arith) q)
  | inr e ↦ elim (Bool-cases (m == n)) [
    | inl same ↦ let is : m ≡ n = ground arith in rw is (ground arith)
    | inr other ↦ ground (arith, float_mono n m (ground arith) p)
  ]
]

float_same : (m n : ℕ) → m < 2 ^ 53 → n < 2 ^ 53 → (float_of_ℕ m == float_of_ℕ n) ≡ (m == n)
float_same m n p q = elim (Bool-cases (m == n)) [
  | inl same ↦ let is : m ≡ n = ground arith in rw is (ground arith)
  | inr other ↦ elim (Bool-cases (ltb m n)) [
    | inl e ↦ ground (arith, float_mono m n (ground arith) q)
    | inr e ↦ ground (arith, float_mono n m (ground arith) p)
  ]
]

-- The key of an integer's float.
abbrev key : ℤ → ℤ
key (pos n) = pos (float_of_ℕ n)
key (negsuc n) = negsuc (float_of_ℕ (suc n) - 1)

finite_key : (x : ℕ) → x < 2 ^ 63 - 2 ^ 60 → (order_key x ≡ pos x) × (is_nan x ≡ false)
unfolding order_key
finite_key x h = ground arith

finite_negative :
    (x : ℕ)
    → 1 ≤ x
    → x < 2 ^ 63 - 2 ^ 60
    → (order_key (2 ^ 63 + x) ≡ negsuc (x - 1)) × (is_nan (2 ^ 63 + x) ≡ false)
unfolding order_key
finite_negative x one h = ground arith

key_lem : (z : ℤ) → IsSafe z → (order_key (float_of_ℤ z) ≡ key z) × (is_nan (float_of_ℤ z) ≡ false)
unfolding float_of_ℤ
key_lem (pos n) h = finite_key (float_of_ℕ n) (float_bound n h)
key_lem (negsuc n) h =
    finite_negative (float_of_ℕ (suc n)) (float_positive (suc n) h (omega arith))
      (float_bound (suc n) h)

key_order : (a b : ℤ) → IsSafe a → IsSafe b → ltb_ℤ (key a) (key b) ≡ ltb_ℤ a b
key_order (pos m) (pos n) p q = float_order m n p q
key_order (pos m) (negsuc n) p q = refl
key_order (negsuc m) (pos n) p q = refl
key_order (negsuc m) (negsuc n) p q = ground (
  arith,
  float_order (suc n) (suc m) q p,
  float_positive (suc m) p (omega arith),
  float_positive (suc n) q (omega arith),
)

key_same : (a b : ℤ) → IsSafe a → IsSafe b → eq_ℤ (key a) (key b) ≡ eq_ℤ a b
key_same (pos m) (pos n) p q = float_same m n p q
key_same (pos m) (negsuc n) p q = refl
key_same (negsuc m) (pos n) p q = refl
key_same (negsuc m) (negsuc n) p q = ground (
  arith,
  float_same (suc m) (suc n) p q,
  float_positive (suc m) p (omega arith),
  float_positive (suc n) q (omega arith),
)

lt_float-float_of_ℤ :
    (a b : ℤ) → IsSafe a → IsSafe b → lt_float (float_of_ℤ a) (float_of_ℤ b) ≡ ltb_ℤ a b
unfolding lt_float
lt_float-float_of_ℤ a b p q =
    let (ka, na) = key_lem a p in
    let (kb, nb) = key_lem b q in rw (ka, kb, na, nb) (key_order a b p q)

eq_float-float_of_ℤ :
    (a b : ℤ) → IsSafe a → IsSafe b → eq_float (float_of_ℤ a) (float_of_ℤ b) ≡ eq_ℤ a b
unfolding eq_float
eq_float-float_of_ℤ a b p q =
    let (ka, na) = key_lem a p in
    let (kb, nb) = key_lem b q in rw (ka, kb, na, nb) (key_same a b p q)

le_ℤ : (a b : ℤ) → (ltb_ℤ a b || eq_ℤ a b) ≡ leb_ℤ a b
le_ℤ (pos m) (pos n) = ground arith
le_ℤ (pos m) (negsuc n) = refl
le_ℤ (negsuc m) (pos n) = refl
le_ℤ (negsuc m) (negsuc n) = ground arith

le_float-float_of_ℤ :
    (a b : ℤ) → IsSafe a → IsSafe b → le_float (float_of_ℤ a) (float_of_ℤ b) ≡ leb_ℤ a b
unfolding le_float
le_float-float_of_ℤ a b p q =
    rw (lt_float-float_of_ℤ a b p q, eq_float-float_of_ℤ a b p q) (le_ℤ a b)

-- The payload of an integer or a longinteger.
abbrev pub integer_payload : Bool → ℤ → Value
integer_payload true a = int64 a
integer_payload false a = int32 a

-- What an operator says of an integer payload and a known number.
abbrev pub ComparesAs : String → Bool → ℤ → ℤ → Bool → Type 0
ComparesAs op wide a b answer =
    value_matches op (integer_payload wide a) (float64 (float_of_ℤ b)) ≡ answer

-- For an integer or longinteger payload and a known integer, both of magnitude below 2^53, the six
-- operators compare them as integers.
pub value_matches_exact :
    (wide : Bool) (a b : ℤ)
    → IsSafe a
    → IsSafe b
    → ComparesAs "==" wide a b (eq_ℤ a b)
      × ComparesAs "!=" wide a b (not (eq_ℤ a b))
      × ComparesAs "<" wide a b (ltb_ℤ a b)
      × ComparesAs "<=" wide a b (leb_ℤ a b)
      × ComparesAs ">" wide a b (ltb_ℤ b a)
      × ComparesAs ">=" wide a b (leb_ℤ b a)
unfolding value_matches operator_matches value_equals numeric
value_matches_exact true a b p q = (
  eq_float-float_of_ℤ a b p q,
  ap not (eq_float-float_of_ℤ a b p q),
  lt_float-float_of_ℤ a b p q,
  le_float-float_of_ℤ a b p q,
  lt_float-float_of_ℤ b a q p,
  le_float-float_of_ℤ b a q p,
)
value_matches_exact false a b p q = (
  eq_float-float_of_ℤ a b p q,
  ap not (eq_float-float_of_ℤ a b p q),
  lt_float-float_of_ℤ a b p q,
  le_float-float_of_ℤ a b p q,
  lt_float-float_of_ℤ b a q p,
  le_float-float_of_ℤ b a q p,
)
