-- ===== src/Base/Int.antt =====
-- Go's signed integers, which the modelled code tests and stores, and the durations of
-- pkg/interfaceschema/compile.go and internal/engine/triggers/policy.go, which it computes in 64 bits.
use Prim.Native.Nat.{ℕ, ◌+◌, ◌-◌, ◌*◌, ◌%◌, ◌^◌, ◌≤◌}
use mathlib.Core.Path.{◌≡◌}
use native.Mathlib.Omega.{arith}
use mathlib.Core.Bool.{Bool, true, false, not}
use astrate.Base.Tests.{ltb, ◌==◌, if◌then◌else◌}

-- `negsuc n` is -(n + 1).
pub data ℤ : Type 0 where
  pos : ℕ → ℤ
  negsuc : ℕ → ℤ

abbrev pub ltb_ℤ : ℤ → ℤ → Bool
ltb_ℤ (pos a) (pos b) = ltb a b
ltb_ℤ (pos a) (negsuc b) = false
ltb_ℤ (negsuc a) (pos b) = true
ltb_ℤ (negsuc a) (negsuc b) = ltb b a

abbrev pub eq_ℤ : ℤ → ℤ → Bool
eq_ℤ (pos a) (pos b) = a == b
eq_ℤ (negsuc a) (negsuc b) = a == b
eq_ℤ _ _ = false

abbrev pub leb_ℤ : ℤ → ℤ → Bool
leb_ℤ a b = not (ltb_ℤ b a)

-- An integer read back from the 64 bits of `n`, as Go's int64 arithmetic leaves it.
unfoldable pub int64_of : ℕ → ℤ
int64_of n = let r = n % 2 ^ 64 in if ltb r (2 ^ 63) then pos r else negsuc (2 ^ 64 - r - 1)

-- `time.Duration(n) * time.Second` for n >= 0: nanoseconds in an int64, which wraps round.
unfoldable pub seconds : ℕ → ℤ
unfolding int64_of
seconds n = int64_of (n * 1_000_000_000)

-- The largest count of seconds that an int64 of nanoseconds holds.
abbrev pub max_seconds : ℕ
max_seconds = 9_223_372_036

pub seconds_exact : (n : ℕ) → n ≤ max_seconds → seconds n ≡ pos (n * 1_000_000_000)
unfolding seconds
seconds_exact n h = ground arith

-- `time.Duration(n) * time.Second` for any int64 n; a negative product is read from its bits.
unfoldable pub duration_of_seconds : ℤ → ℤ
unfolding seconds int64_of
duration_of_seconds (pos n) = seconds n
duration_of_seconds (negsuc n) = int64_of (2 ^ 64 * 1_000_000_000 - (n + 1) * 1_000_000_000)
