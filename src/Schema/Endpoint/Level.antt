-- ===== src/Schema/Endpoint/Level.antt =====
-- One level of an endpoint pattern: `parseSegment` and its printed form.
use astrate.Base.{
  ℕ, ◌-◌, ◌≤◌, ◌≡◌, refl, ◌↔◌, inl, inr, Bool, true, false, some, [], ◌∷◌, ◌++◌, arith, ◌==◌,
  if◌then◌else◌, Bool-cases, Option-cases, length, take, length-append, take-append, ok, Bytes,
  contains_byte, last_byte, last_byte-append, take-last_byte,
}
use astrate.Schema.Endpoint.{
  Segment, is_letter, is_digit, identifier_from, valid_identifier, parse_placeholder, parse_literal,
  parse_segment,
}

abbrev pub print_segment : Segment → Bytes
print_segment s = if s.param then b'%' ∷ b'{' ∷ s.literal ++ b'}' ∷ [] else s.literal

abbrev pub IsSegment : Segment → Type 0
IsSegment s = valid_identifier s.literal ≡ true

identifier_from-no_byte :
    (c : ℕ) (b : Bool) (s : Bytes)
    → is_letter c ≡ false
    → is_digit c ≡ false
    → identifier_from b s ≡ true
    → contains_byte c s ≡ false
unfolding identifier_from contains_byte
identifier_from-no_byte c b [] l d h = refl
identifier_from-no_byte c b (x ∷ s) l d h = elim (Bool-cases (x == c)) [
  | inl e ↦ let same : x ≡ c = ground arith in ground (arith, rw (← same) at l, rw (← same) at d)
  | inr n ↦ ground (arith, identifier_from-no_byte c false s l d)
]

-- An identifier holds none of the bytes that mean something in a pattern or a topic.
pub valid_identifier-no_byte :
    (c : ℕ) (s : Bytes)
    → is_letter c ≡ false
    → is_digit c ≡ false
    → valid_identifier s ≡ true
    → contains_byte c s ≡ false
unfolding valid_identifier
valid_identifier-no_byte c [] l d h = cc
valid_identifier-no_byte c (x ∷ s) l d h = identifier_from-no_byte c true (x ∷ s) l d h

pub valid_identifier-nonempty : (s : Bytes) → valid_identifier s ≡ true → 1 ≤ length s
unfolding valid_identifier
valid_identifier-nonempty [] h = cc
valid_identifier-nonempty (x ∷ s) h = omega arith

pub valid_identifier-head :
    (c : ℕ) (s : Bytes) → valid_identifier (c ∷ s) ≡ true → (c == b'%') ≡ false
unfolding valid_identifier
valid_identifier-head c s h = ground arith

parse_placeholder_sound :
    (t : Bytes) (seg : Segment)
    → parse_placeholder (b'%' ∷ t) ≡ ok seg
    → (b'%' ∷ t ≡ print_segment seg) × IsSegment seg
unfolding parse_placeholder last_byte
parse_placeholder_sound [] seg h = ground arith
parse_placeholder_sound (c ∷ []) seg h = ground arith
parse_placeholder_sound (c ∷ x ∷ u) seg h = elim (Option-cases (last_byte (x ∷ u))) [
  | inl e ↦ ground arith
  | inr (d, e) ↦
      let three : length (b'%' ∷ c ∷ x ∷ u) - 3 ≡ length (x ∷ u) - 1 = omega arith in
      let name = take (length (x ∷ u) - 1) (x ∷ u) in
      let closed : d ≡ b'}' = ground arith in
      let opened : c ≡ b'{' = ground arith in
      let is : seg ≡ record { literal = name; param = true } = ground (arith, three) in
      let whole = take-last_byte (x ∷ u) b'}' (rw closed at e) in
      rw (is, opened, whole) (refl, ground (arith, three))
]

parse_literal_sound :
    (c : ℕ) (s : Bytes) (seg : Segment)
    → parse_literal (c ∷ s) ≡ ok seg
    → (c ∷ s ≡ print_segment seg) × IsSegment seg
unfolding parse_literal
parse_literal_sound c s seg h = ground arith

parse_segment_sound :
    (raw : Bytes) (seg : Segment)
    → parse_segment raw ≡ ok seg
    → (raw ≡ print_segment seg) × IsSegment seg
unfolding parse_segment
parse_segment_sound [] seg h = cc
parse_segment_sound (c ∷ s) seg h = elim (Bool-cases (c == b'%')) [
  | inl e ↦
      let is : c ≡ b'%' = ground arith in
      rw is (parse_placeholder_sound s seg (rw is at (rw (e, parse_segment) at h)))
  | inr n ↦ parse_literal_sound c s seg (rw (n, parse_segment) at h)
]

length-placeholder : (n : Bytes) → length (b'%' ∷ b'{' ∷ (n ++ b'}' ∷ [])) - 3 ≡ length n
length-placeholder n = omega (arith, length-append n (b'}' ∷ []))

parse_placeholder_complete :
    (n : Bytes)
    → valid_identifier n ≡ true
    → parse_placeholder (b'%' ∷ b'{' ∷ (n ++ b'}' ∷ [])) ≡ ok (record { literal = n; param = true })
unfolding parse_placeholder
parse_placeholder_complete n v = ground (
  arith,
  length-append n (b'}' ∷ []),
  last_byte-append (b'%' ∷ b'{' ∷ n) [] b'}',
  last_byte-one,
  name_lem,
  nonempty,
  v,
)
  where
    last_byte-one : last_byte (b'}' ∷ []) ≡ some b'}'
    last_byte-one = unfold last_byte in refl

    name_lem : take (length (b'%' ∷ b'{' ∷ (n ++ b'}' ∷ [])) - 3) (n ++ b'}' ∷ []) ≡ n
    name_lem = rw (length-placeholder n) (take-append n (b'}' ∷ []))

    nonempty : 1 ≤ length n
    nonempty = valid_identifier-nonempty n v

parse_segment_at :
    (n : Bytes) (b : Bool)
    → valid_identifier n ≡ true
    → parse_segment (print_segment (record { literal = n; param = b }))
      ≡ ok (record { literal = n; param = b })
unfolding parse_segment
parse_segment_at n true v = parse_placeholder_complete n v
parse_segment_at [] false v = cc
parse_segment_at (c ∷ s) false v = ground (arith, valid_identifier-head c s v, v)

pub parse_segment_iff :
    (raw : Bytes) (seg : Segment)
    → (parse_segment raw ≡ ok seg) ↔ ((raw ≡ print_segment seg) × IsSegment seg)
parse_segment_iff raw seg =
    (parse_segment_sound raw seg, λ (e, v). rw e (parse_segment_at seg.literal seg.param v))
