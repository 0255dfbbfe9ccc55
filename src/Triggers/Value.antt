-- ===== src/Triggers/Value.antt =====
-- internal/engine/triggers/match.go: values as triggers compare them, and the operators of
-- value_match_operator. Go's `any` ranges over the decoded payload values and what encoding/json
-- decodes a known_value to; a float64 is its 64 bits.
pub mod Exact
pub mod Order
use astrate.Base.{
  ℕ, zero, suc, ◌+◌, ◌-◌, ◌*◌, ◌^◌, String, Bool, true, false, ◌&&◌, ◌||◌, not, Option, none, some,
  List, [], ◌∷◌, str_eq, ltb, leb, ◌==◌, if◌then◌else◌, is_empty, Bytes, eq_bytes, cut_prefix, ℤ,
  pos, negsuc, ltb_ℤ, eq_ℤ,
}
use Prim.Native.Nat.{◌/◌, ◌%◌}

mutual
  pub data Value : Type 0 where
    nil : Value
    float64 : ℕ → Value
    int32 int64 int : ℤ → Value
    string bytes : Bytes → Value
    bool : Bool → Value
    time : ℤ → Value
    float64s : List ℕ → Value
    int32s int64s times : List ℤ → Value
    bools : List Bool → Value
    strings blobs : List Bytes → Value
    anys : Values → Value
    object : Fields → Value

  pub data Values : Type 0 where
    no_values : Values
    item : Value → Values → Values

  pub data Fields : Type 0 where
    no_fields : Fields
    field : Bytes → Value → Fields → Fields

-- The bits without the sign, and the test for NaN.
abbrev pub magnitude : ℕ → ℕ
magnitude x = x % 2 ^ 63

abbrev pub is_nan : ℕ → Bool
is_nan x = ltb (2047 * 2 ^ 52) (magnitude x)

-- The order of the floats that are not NaN; the two zeros are one.
unfoldable pub order_key : ℕ → ℤ
order_key x =
    if ltb x (2 ^ 63) || (magnitude x == 0) then pos (magnitude x) else negsuc (magnitude x - 1)

-- a == b, a < b and a <= b on float64.
unfoldable pub eq_float : ℕ → ℕ → Bool
unfolding order_key
eq_float a b = not (is_nan a) && not (is_nan b) && eq_ℤ (order_key a) (order_key b)

unfoldable pub lt_float : ℕ → ℕ → Bool
unfolding order_key
lt_float a b = not (is_nan a) && not (is_nan b) && ltb_ℤ (order_key a) (order_key b)

unfoldable pub le_float : ℕ → ℕ → Bool
unfolding lt_float eq_float
le_float a b = lt_float a b || eq_float a b

-- The number of binary digits, up to the given bound.
unfoldable pub bit_length : ℕ → ℕ → ℕ
bit_length zero n = 0
bit_length (suc bound) n = let rest = bit_length bound (n / 2) in if n == 0 then 0 else suc rest

-- n divided by 2 ^ shift, rounded to the nearest, and to the even one of two.
unfoldable pub round_shift : ℕ → ℕ → ℕ
round_shift n zero = n
round_shift n (suc s) =
    let q = n / 2 ^ suc s in
    let r = n % 2 ^ suc s in if ltb (2 ^ s) r || ((r == 2 ^ s) && (q % 2 == 1)) then suc q else q

-- The bits of float64(n) for 0 <= n < 2^64: the exponent in front of the 53-bit mantissa, whose
-- leading bit adds one to it.
unfoldable pub float_of_ℕ : ℕ → ℕ
unfolding bit_length round_shift
float_of_ℕ n =
    let k = bit_length 64 n in
    if n == 0
    then 0
    else if leb k 53
    then (k + 1021) * 2 ^ 52 + n * 2 ^ (53 - k)
    else (k + 1021) * 2 ^ 52 + round_shift n (k - 53)

-- float64(n) of an int32, an int64 or an int.
unfoldable pub float_of_ℤ : ℤ → ℕ
unfolding float_of_ℕ
float_of_ℤ (pos n) = float_of_ℕ n
float_of_ℤ (negsuc n) = 2 ^ 63 + float_of_ℕ (suc n)

-- `numeric`.
unfoldable pub numeric : Value → Option ℕ
unfolding float_of_ℤ
numeric (float64 x) = some x
numeric (int32 n) = some (float_of_ℤ n)
numeric (int64 n) = some (float_of_ℤ n)
numeric (int n) = some (float_of_ℤ n)
numeric _ = none

abbrev pub same_string : Value → Value → Bool × Bool
same_string (string v) (string s) = (eq_bytes v s, true)
same_string _ _ = (false, false)

abbrev pub same_truth : Value → Value → Bool × Bool
same_truth (bool true) (bool b) = (b, true)
same_truth (bool false) (bool b) = (not b, true)
same_truth _ _ = (false, false)

-- The type switch of `valueEquals` for values that are not numbers.
abbrev pub same_kind : Value → Value → Bool × Bool
same_kind (string v) known = same_string (string v) known
same_kind (bool v) known = same_truth (bool v) known
same_kind _ known = (false, false)

-- `valueEquals`: whether the two are equal, and whether they are comparable.
unfoldable pub value_equals : Value → Value → Bool × Bool
unfolding numeric eq_float eq_bytes
value_equals value known = elim (numeric value) [
  | some a ↦ elim (numeric known) [ some b ↦ (eq_float a b, true) | none ↦ (false, false) ]
  | none ↦ same_kind value known
]

-- `strings.Contains(v, s)`.
unfoldable pub contains_text : Bytes → Bytes → Bool
unfolding cut_prefix
contains_text s [] = is_empty s
contains_text s (c ∷ v) =
    let later = contains_text s v in elim (cut_prefix s (c ∷ v)) [ some _ ↦ true | none ↦ later ]

-- `sliceContains`, the elements as values.
unfoldable pub slice_contains {ℓ} : {A : Type ℓ} → (A → Value) → List A → Value → Bool
unfolding value_equals
slice_contains wrap [] known = false
slice_contains wrap (x ∷ xs) known =
    let later = slice_contains wrap xs known in
    let result = value_equals (wrap x) known in if result.1 && result.0 then true else later

abbrev pub text_contains : Bytes → Value → Bool
text_contains v (string s) = contains_text s v
text_contains v _ = false

-- `containable`: the predicate, where containment applies.
unfoldable pub containable : Value → Option (Value → Bool)
unfolding slice_contains contains_text
containable (string v) = some (text_contains v)
containable (strings v) = some (slice_contains string v)
containable (float64s v) = some (slice_contains float64 v)
containable (int32s v) = some (slice_contains int32 v)
containable (int64s v) = some (slice_contains int64 v)
containable (bools v) = some (slice_contains bool v)
containable _ = none

-- `containsValue`.
unfoldable pub contains_value : Value → Value → Bool
unfolding containable
contains_value value known = elim (containable value) [ none ↦ false | some c ↦ c known ]

-- The comparison that an ordering operator names.
abbrev pub ordering : String → ℕ → ℕ → Bool
ordering op a b =
    if str_eq op ">"
    then lt_float b a
    else if str_eq op ">="
    then le_float b a
    else if str_eq op "<"
    then lt_float a b
    else le_float a b

-- The operators on a value that is not nil.
unfoldable pub operator_matches : String → Value → Value → Bool
unfolding value_equals numeric lt_float le_float containable contains_value
operator_matches op value known =
    if str_eq op "=="
    then (value_equals value known).1 && (value_equals value known).0
    else if str_eq op "!="
    then (value_equals value known).1 && not (value_equals value known).0
    else if str_eq op ">" || str_eq op ">=" || str_eq op "<" || str_eq op "<="
    then elim (numeric value) [
      | none ↦ false
      | some a ↦ elim (numeric known) [ none ↦ false | some b ↦ ordering op a b ]
    ]
    else if str_eq op "contains"
    then contains_value value known
    else if str_eq op "not_contains"
    then elim (containable value) [ none ↦ false | some c ↦ not (c known) ]
    else false

abbrev pub is_nil : Value → Bool
is_nil nil = true
is_nil _ = false

-- `valueMatches`.
unfoldable pub value_matches : String → Value → Value → Bool
unfolding operator_matches
value_matches op value known =
    if str_eq op "*" then true else if is_nil value then false else operator_matches op value known
