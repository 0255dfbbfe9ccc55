-- ===== src/Base/Text.antt =====
-- Go strings as lists of bytes: equality, the searches and slices that the source takes from the
-- package strings, and what splitting has to do with cutting.
use Prim.Native.Nat.{ℕ, suc, ◌-◌, ◌<◌}
use Prim.Native.Char.{code}
use Prim.Native.String.{String}
use mathlib.Core.Path.{◌≡◌, refl, ap, ◌∙◌}
use mathlib.Core.Bool.{Bool, true, false, ◌&&◌, ◌||◌}
use mathlib.Core.Logic.{◌↔◌, ◌≢◌, inl, inr}
use mathlib.Core.Option.{Option, none, some}
use mathlib.Core.List.{append-nil, List, [], ◌∷◌, ◌++◌}
use native.Mathlib.Omega.{arith}
use astrate.Base.Tests.{◌==◌, if◌then◌else◌, Option-cases, ==_self}
use astrate.Base.Lists.{length, take, All}

abbrev pub Bytes : Type 0
Bytes = List ℕ

-- The bytes of an ASCII literal.
abbrev pub codes : String → Bytes
codes String.[] = []
codes (String.◌∷◌ c s) = code c ∷ codes s

unfoldable pub eq_bytes : Bytes → Bytes → Bool
eq_bytes [] [] = true
eq_bytes (a ∷ s) (b ∷ t) = (a == b) && eq_bytes s t
eq_bytes _ _ = false

eq_bytes_sound : (s t : Bytes) → eq_bytes s t ≡ true → s ≡ t
unfolding eq_bytes
eq_bytes_sound [] [] h = refl
eq_bytes_sound (a ∷ s) (b ∷ t) h = ground (arith, eq_bytes_sound s t)
eq_bytes_sound [] (b ∷ t) h = ground arith
eq_bytes_sound (a ∷ s) [] h = ground arith

pub eq_bytes_self : (s : Bytes) → eq_bytes s s ≡ true
unfolding eq_bytes
eq_bytes_self [] = refl
eq_bytes_self (a ∷ s) = ground (arith, eq_bytes_self s)

pub eq_bytes_iff : (s t : Bytes) → (eq_bytes s t ≡ true) ↔ (s ≡ t)
eq_bytes_iff s t = (eq_bytes_sound s t, λ e. rw e (eq_bytes_self t))

-- `strings.IndexByte(s, c) >= 0`.
unfoldable pub contains_byte : ℕ → Bytes → Bool
contains_byte c [] = false
contains_byte c (x ∷ s) = (x == c) || contains_byte c s

pub contains_byte-append :
    (c : ℕ) (a b : Bytes) → contains_byte c (a ++ b) ≡ (contains_byte c a || contains_byte c b)
unfolding contains_byte
contains_byte-append c [] b = refl
contains_byte-append c (x ∷ a) b = ground (arith, contains_byte-append c a b)

-- `strings.ContainsAny(s, chars)`.
unfoldable pub contains_any : Bytes → Bytes → Bool
unfolding contains_byte
contains_any chars [] = false
contains_any chars (x ∷ s) = contains_byte x chars || contains_any chars s

-- `strings.Cut` at one byte: the parts round its first occurrence.
unfoldable pub cut : ℕ → Bytes → Option (Bytes × Bytes)
cut sep [] = none
cut sep (c ∷ s) =
    if c == sep
    then some ([], s)
    else elim (cut sep s) [ none ↦ none | some (a, b) ↦ some (c ∷ a, b) ]

-- `strings.Split` at one byte.
abbrev pub cons_head : ℕ → List Bytes → List Bytes
cons_head c [] = (c ∷ []) ∷ []
cons_head c (p ∷ ps) = (c ∷ p) ∷ ps

unfoldable pub split_on : ℕ → Bytes → List Bytes
split_on sep [] = [] ∷ []
split_on sep (c ∷ s) =
    let parts = split_on sep s in if c == sep then [] ∷ parts else cons_head c parts

-- `strings.CutPrefix(s, p)`; `none` where the prefix is missing.
unfoldable pub cut_prefix : Bytes → Bytes → Option Bytes
cut_prefix [] s = some s
cut_prefix (p ∷ ps) [] = none
cut_prefix (p ∷ ps) (c ∷ s) = if p == c then cut_prefix ps s else none

-- The last byte, where there is one.
unfoldable pub last_byte : Bytes → Option ℕ
last_byte [] = none
last_byte (c ∷ []) = some c
last_byte (c ∷ d ∷ s) = last_byte (d ∷ s)

pub split_on-cut-none : (sep : ℕ) (s : Bytes) → cut sep s ≡ none → split_on sep s ≡ s ∷ []
unfolding cut split_on
split_on-cut-none sep [] h = refl
split_on-cut-none sep (c ∷ s) h = ground (arith, split_on-cut-none sep s)

pub split_on-cut-some :
    (sep : ℕ) (s a b : Bytes) → cut sep s ≡ some (a, b) → split_on sep s ≡ a ∷ split_on sep b
unfolding cut split_on
split_on-cut-some sep [] a b h = ground arith
split_on-cut-some sep (c ∷ s) a b h = elim (Option-cases (cut sep s)) [
  | inl e ↦ ground arith
  | inr ((x, y), e) ↦ ground (arith, split_on-cut-some sep s x y e)
]

pub length-cut : (sep : ℕ) (s a b : Bytes) → cut sep s ≡ some (a, b) → length b < length s
unfolding cut
length-cut sep [] a b h = ground arith
length-cut sep (c ∷ s) a b h = elim (Option-cases (cut sep s)) [
  | inl e ↦ ground arith
  | inr ((x, y), e) ↦ ground (arith, length-cut sep s x y e)
]

-- A cut loses nothing: the parts and the separator make up the text, and the first part has none.
pub append-cut : (sep : ℕ) (s a b : Bytes) → cut sep s ≡ some (a, b) → a ++ sep ∷ b ≡ s
unfolding cut
append-cut sep [] a b h = ground arith
append-cut sep (c ∷ s) a b h = elim (Option-cases (cut sep s)) [
  | inl e ↦ ground arith
  | inr ((x, y), e) ↦ ground (arith, append-cut sep s x y e)
]

pub last_byte-append : (a b : Bytes) (c : ℕ) → last_byte (a ++ c ∷ b) ≡ last_byte (c ∷ b)
unfolding last_byte
last_byte-append [] b c = refl
last_byte-append (x ∷ []) b c = refl
last_byte-append (x ∷ y ∷ a) b c = last_byte-append (y ∷ a) b c

pub last_byte-cut-none : (sep : ℕ) (s : Bytes) → cut sep s ≡ none → last_byte s ≢ some sep
unfolding cut last_byte
last_byte-cut-none sep [] h e = ground arith
last_byte-cut-none sep (c ∷ []) h e = ground arith
last_byte-cut-none sep (c ∷ d ∷ s) h e = last_byte-cut-none sep (d ∷ s) (ground arith) e

-- A text is all but its last byte, and that byte.
pub take-last_byte :
    (s : Bytes) (c : ℕ) → last_byte s ≡ some c → take (length s - 1) s ++ c ∷ [] ≡ s
unfolding last_byte
take-last_byte [] c e = ground arith
take-last_byte (x ∷ []) c e = ground arith
take-last_byte (x ∷ y ∷ s) c e =
    let one : length (x ∷ y ∷ s) - 1 ≡ suc (length (y ∷ s) - 1) = omega arith in
    rw one (ap (◌∷◌ x) (take-last_byte (y ∷ s) c e))

-- Pieces that hold no separator are what splitting their concatenation gives back.
pub split_on-append :
    (sep : ℕ) (a s : Bytes)
    → contains_byte sep a ≡ false
    → split_on sep (a ++ sep ∷ s) ≡ a ∷ split_on sep s
unfolding split_on contains_byte
split_on-append sep [] s h = ground (arith, ==_self sep)
split_on-append sep (c ∷ a) s h = ground (arith, split_on-append sep a s)

pub split_on-one : (sep : ℕ) (a : Bytes) → contains_byte sep a ≡ false → split_on sep a ≡ a ∷ []
unfolding split_on contains_byte
split_on-one sep [] h = refl
split_on-one sep (c ∷ a) h = ground (arith, split_on-one sep a)

-- The pieces, each behind a separator.
unfoldable pub rooted : ℕ → List Bytes → Bytes
rooted sep [] = []
rooted sep (p ∷ ps) = sep ∷ p ++ rooted sep ps

rooted-cons_head :
    (sep c : ℕ) (ps : List Bytes) (s : Bytes)
    → rooted sep ps ≡ sep ∷ s
    → rooted sep (cons_head c ps) ≡ sep ∷ c ∷ s
unfolding rooted
rooted-cons_head sep c [] s h = cc
rooted-cons_head sep c (p ∷ ps) s h = cc

pub rooted-split_on : (sep : ℕ) (s : Bytes) → rooted sep (split_on sep s) ≡ sep ∷ s
unfolding split_on rooted
rooted-split_on sep [] = refl
rooted-split_on sep (c ∷ s) = ground (
  arith,
  rooted-split_on sep s,
  rooted-cons_head sep c (split_on sep s) s (rooted-split_on sep s),
)

pub split_on-rooted :
    (sep : ℕ) (p : Bytes) (ps : List Bytes)
    → contains_byte sep p ≡ false
    → All (λ q. contains_byte sep q ≡ false) ps
    → split_on sep (p ++ rooted sep ps) ≡ p ∷ ps
unfolding rooted
split_on-rooted sep p [] h a = rw append-nil (split_on-one sep p h)
split_on-rooted sep p (q ∷ ps) h (k, a) =
    split_on-append sep p (q ++ rooted sep ps) h ∙ ap (◌∷◌ p) (split_on-rooted sep q ps k a)
