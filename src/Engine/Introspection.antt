-- ===== src/Engine/Introspection.antt =====
-- internal/engine/introspection.go: `parseIntrospection`.
pub mod Laws
use astrate.Base.{
  ◌>>=◌, ◌>>◌, ℕ, ◌+◌, ◌-◌, ◌*◌, ◌^◌, ◌&&◌, not, Option, none, some, List, [], ◌∷◌, map, ltb, leb,
  ◌==◌, if◌then◌else◌, is_empty, Result, ok, err, reject_if, Bytes, codes, eq_bytes, contains_any,
  cut, split_on,
}

-- `store.InterfaceVersion`.
pub record InterfaceVersion : Type 0 where
  pub major : ℕ
  pub minor : ℕ

pub data IntrospectionError : Type 0 where
  malformed_entry metacharacters invalid_major invalid_minor : Bytes → IntrospectionError

-- The map from interface names, as its lookups.
abbrev pub Introspection : Type 0
Introspection = Bytes → Option InterfaceVersion

-- The number that decimal digits spell behind `n`.
unfoldable pub digits : ℕ → Bytes → Option ℕ
digits n [] = some n
digits n (c ∷ s) = if leb b'0' c && leb c b'9' then digits (10 * n + (c - b'0')) s else none

abbrev pub unsigned : Bytes → Option ℕ
unsigned [] = none
unsigned (c ∷ s) = digits 0 (c ∷ s)

-- `strconv.Atoi`, where its result is not negative: an int has 64 bits, and a sign may stand first.
unfoldable pub atoi : Bytes → Option ℕ
atoi [] = none
atoi (c ∷ s) =
    if c == b'-'
    then elim (unsigned s) [ none ↦ none | some n ↦ if n == 0 then some 0 else none ]
    else elim (unsigned (if c == b'+' then s else c ∷ s)) [
      | none ↦ none
      | some n ↦ if ltb n (2 ^ 63) then some n else none
    ]

abbrev pub or_fail : {A : Type 0} → Option A → IntrospectionError → Result IntrospectionError A
or_fail none e = err e
or_fail (some a) e = ok a

-- intro[name] = version
unfoldable pub declare : Bytes → InterfaceVersion → Introspection → Introspection
declare name version intro k = if eq_bytes k name then some version else intro k

-- One entry `name:major:minor`.
unfoldable pub parse_entry : Bytes → Result IntrospectionError (Bytes × InterfaceVersion)
parse_entry entry = do
  named ← or_fail (cut b':' entry) (malformed_entry entry)
  reject_if (is_empty named.0) (malformed_entry entry)
  reject_if (contains_any (codes "/+#") named.0) (metacharacters named.0)
  versions ← or_fail (cut b':' named.1) (malformed_entry entry)
  major ← or_fail (atoi versions.0) (invalid_major entry)
  minor ← or_fail (atoi versions.1) (invalid_minor entry)
  ok (named.0, record { major = major; minor = minor })

-- The loop over the entries.
unfoldable pub parse_entries : List Bytes → Introspection → Result IntrospectionError Introspection
parse_entries [] intro = ok intro
parse_entries (entry ∷ entries) intro = do
  e ← parse_entry entry
  parse_entries entries (declare e.0 e.1 intro)

-- `parseIntrospection`.
unfoldable pub parse_introspection : Bytes → Result IntrospectionError Introspection
parse_introspection [] = ok (λ k. none)
parse_introspection (c ∷ s) = parse_entries (split_on b';' (c ∷ s)) (λ k. none)
