-- ===== src/Triggers/Value/Exact.antt =====
-- The comparisons of numbers are exact below 2^53.
use astrate.Base.{
  ℕ, zero, suc, ◌+◌, ◌-◌, ◌*◌, ◌^◌, ◌≤◌, ◌<◌, ◌≡◌, refl, ◌≢◌, inl, inr, Bool, true, false, arith,
  ltb, leb, ◌==◌, if◌then◌else◌, Bool-cases, ==_iff,
}
use Prim.Native.Nat.{◌/◌}
use native.Mathlib.Nat.{
  pow-suc, pow-le-pow_right, one-le-pow, mul-lt-mul_of_pos_right, mul-le-mul_right,
}
use astrate.Triggers.Value.{bit_length, float_of_ℕ}

two_pow : (k : ℕ) → 2 ^ suc k ≡ 2 ^ k + 2 ^ k
two_pow k = omega (arith, pow-suc 2 k)

pow_split : (j k : ℕ) → 2 ^ (j + k) ≡ 2 ^ j * 2 ^ k
pow_split zero k = let e : 0 + k ≡ k = omega arith in rw e (omega arith)
pow_split (suc j) k =
    let e : suc j + k ≡ suc (j + k) = omega arith in
    rw (e, two_pow (j + k), two_pow j, pow_split j k) (omega arith)

-- The number has this many binary digits.
abbrev Digits : ℕ → ℕ → Type 0
Digits n zero = n ≡ 0
Digits n (suc k) = (2 ^ k ≤ n) × (n < 2 ^ suc k)

half_Digits : (n k : ℕ) → 1 ≤ n → Digits (n / 2) k → Digits n (suc k)
half_Digits n zero one h = omega (arith, h, one)
half_Digits n (suc k) one (low, high) =
    (omega (arith, low, two_pow k), omega (arith, high, two_pow (suc k)))

bit_length-suc : (bound n : ℕ) → 1 ≤ n → bit_length (suc bound) n ≡ suc (bit_length bound (n / 2))
unfolding bit_length
bit_length-suc bound n one = ground arith

bit_length-Digits : (bound n : ℕ) → n < 2 ^ bound → Digits n (bit_length bound n)
unfolding bit_length
bit_length-Digits zero n h = omega (arith, h)
bit_length-Digits (suc bound) zero h = refl
bit_length-Digits (suc bound) (suc n) h = rw (bit_length-suc bound (suc n) (omega arith)) (
    half_Digits (suc n) (bit_length bound (suc n / 2)) (omega arith)
      (bit_length-Digits bound (suc n / 2) (omega (arith, h, two_pow bound))))

bit_length-bound : (bound n : ℕ) → bit_length bound n ≤ bound
unfolding bit_length
bit_length-bound zero n = omega arith
bit_length-bound (suc bound) n = ground (arith, bit_length-bound bound (n / 2))

-- A number of k digits with k <= 53, shifted to 53 digits.
shift_Digits :
    (n k : ℕ)
    → Digits n (suc k)
    → suc k ≤ 53
    → (2 ^ 52 ≤ n * 2 ^ (53 - suc k)) × (n * 2 ^ (53 - suc k) < 2 ^ 53)
shift_Digits n k (low, high) le =
    let d = 53 - suc k in
    let e1 : k + d ≡ 52 = omega (arith, le) in
    let e2 : suc k + d ≡ 53 = omega (arith, le) in
    let p1 = rw e1 at (pow_split k d) in
    let p2 = rw e2 at (pow_split (suc k) d) in
    let pos_d : 0 < 2 ^ d = one-le-pow d 2 (omega arith) in
    let up = mul-lt-mul_of_pos_right high pos_d in
    let down = mul-le-mul_right (2 ^ d) low in (omega (arith, p1, down), omega (arith, p2, up))

-- float64(n) for 0 < n < 2^53: no bit is lost.
abbrev Shifted : ℕ → ℕ → Type 0
Shifted n j =
    Digits n (suc j)
    × (suc j ≤ 53)
    × (float_of_ℕ n ≡ (suc j + 1021) * 2 ^ 52 + n * 2 ^ (53 - suc j))

small-Digits : (n k : ℕ) → Digits n k → n < 2 ^ 53 → k ≤ 53
small-Digits n zero d h = omega arith
small-Digits n (suc k) (low, high) h = elim (Bool-cases (ltb k 53)) [
  | inl e ↦ ground arith
  | inr e ↦
      let big : 53 ≤ k = ground arith in
      let p : 2 ^ 53 ≤ 2 ^ k = pow-le-pow_right (omega arith) big in
      absurd (omega (arith, p, low, h))
]

two_tests :
    {A : Type 0} (x y z : A) (a b : Bool)
    → a ≡ false
    → b ≡ true
    → (if a then x else if b then y else z) ≡ y
two_tests x y z true b p q = cc
two_tests x y z false true p q = refl
two_tests x y z false false p q = cc

float_at :
    (n k : ℕ)
    → bit_length 64 n ≡ k
    → 1 ≤ n
    → k ≤ 53
    → float_of_ℕ n ≡ (k + 1021) * 2 ^ 52 + n * 2 ^ (53 - k)
unfolding float_of_ℕ
float_at n k e one le = rw e (two_tests _ _ _ (n == 0) (leb k 53) (ground arith) (ground arith))

float-Shifted : (n k : ℕ) → bit_length 64 n ≡ k → 1 ≤ n → n < 2 ^ 53 → (j : ℕ) × Shifted n j
float-Shifted n zero e one h =
    absurd (omega (arith, one, rw e at (bit_length-Digits 64 n (omega (arith, h)))))
float-Shifted n (suc j) e one h =
    let d = rw e at (bit_length-Digits 64 n (omega (arith, h))) in
    let le = small-Digits n (suc j) d h in (j, (d, le, float_at n (suc j) e one le))

-- The value of a shifted number lies between two powers.
range-Shifted :
    (n j : ℕ)
    → Shifted n j
    → ((suc j + 1022) * 2 ^ 52 ≤ float_of_ℕ n) × (float_of_ℕ n < (suc j + 1023) * 2 ^ 52)
range-Shifted n j (d, le, e) =
    let (low, high) = shift_Digits n j d le in (omega (arith, e, low), omega (arith, e, high))

same_places : (m n j : ℕ) → m < n → Shifted m j → Shifted n j → float_of_ℕ m < float_of_ℕ n
same_places m n j lt (_, _, e) (_, _, e') =
    let pos_d : 0 < 2 ^ (53 - suc j) = one-le-pow (53 - suc j) 2 (omega arith) in
    let more = mul-lt-mul_of_pos_right lt pos_d in omega (arith, e, e', more)

-- A smaller number has no more digits.
more_places : (m n j i : ℕ) → m < n → Digits m (suc j) → Digits n (suc i) → j ≢ i → suc j ≤ i
more_places m n j i lt (low, _) (_, high) ne = elim (Bool-cases (ltb j i)) [
  | inl e ↦ ground arith
  | inr e ↦
      let le : suc i ≤ j = ground (arith, ne) in
      let p : 2 ^ suc i ≤ 2 ^ j = pow-le-pow_right (omega arith) le in
      absurd (omega (arith, p, low, high, lt))
]

mono-Shifted : (m n j i : ℕ) → m < n → Shifted m j → Shifted n i → float_of_ℕ m < float_of_ℕ n
mono-Shifted m n j i lt s t = elim (Bool-cases (j == i)) [
  | inl e ↦ same_places m n j lt s (rw (← (==_iff j i).0 e) at t)
  | inr ne ↦
      let (_, below) = range-Shifted m j s in
      let (above, _) = range-Shifted n i t in
      let more = more_places m n j i lt s.0 t.0 (λ z. ground arith) in
      omega (arith, below, above, more)
]

-- float64 keeps the order of the natural numbers below 2^53, and stays far from the infinities.
pub float_bound : (n : ℕ) → n < 2 ^ 53 → float_of_ℕ n < 2 ^ 63 - 2 ^ 60
float_bound zero h = unfold float_of_ℕ in ground arith
float_bound (suc n) h =
    let (j, s) = float-Shifted (suc n) (bit_length 64 (suc n)) refl (omega arith) h in
    let (_, below) = range-Shifted (suc n) j s in let (_, le, _) = s in omega (arith, below, le)

pub float_positive : (n : ℕ) → n < 2 ^ 53 → 1 ≤ n → 1 ≤ float_of_ℕ n
float_positive n h one =
    let (j, s) = float-Shifted n (bit_length 64 n) refl one h in
    let (above, _) = range-Shifted n j s in omega (arith, above)

float_zero : float_of_ℕ 0 ≡ 0
unfolding float_of_ℕ
float_zero = refl

pub float_mono : (m n : ℕ) → m < n → n < 2 ^ 53 → float_of_ℕ m < float_of_ℕ n
float_mono zero n lt h = omega (arith, float_zero, float_positive n h lt)
float_mono (suc m) n lt h =
    let (j, s) =
      float-Shifted (suc m) (bit_length 64 (suc m)) refl (omega arith) (omega (arith, lt, h)) in
    let (i, t) = float-Shifted n (bit_length 64 n) refl (omega (arith, lt)) h in
    mono-Shifted (suc m) n j i lt s t
