-- ===== src/Schema/Endpoint/Print.antt =====
-- Printing an endpoint pattern: the parser's inverse.
use astrate.Base.{
  ◌≤◌, ◌≡◌, refl, sym, ap₂, ◌∙◌, ◌↔◌, inl, inr, false, List, [], ◌∷◌, ◌++◌, map, arith, ◌==◌,
  Bool-cases, ==_iff, length, All, ok, >>=-eq-ok, Bytes, contains_byte, contains_byte-append,
  split_on, rooted, rooted-split_on, split_on-rooted,
}
use astrate.Schema.Endpoint.{
  Segment, is_letter, is_digit, check_depth, split_endpoint, parse_segment,
}
use astrate.Schema.Endpoint.Level.{
  print_segment, IsSegment, parse_segment_iff, valid_identifier-no_byte,
}
use astrate.Schema.Endpoint.Split.{parse_levels, split_endpoint_lem}

-- The text of a pattern.
unfoldable pub print_endpoint : List Segment → Bytes
print_endpoint segs = rooted b'/' (map print_segment segs)

-- What `splitEndpoint` promises of its segments.
pub record IsPattern (segs : List Segment) : Type 0 where
  pub named : All IsSegment segs
  pub nonempty : 1 ≤ length segs
  pub depth : length segs ≤ 64

pub parse_levels_sound :
    (raws : List Bytes) (segs : List Segment)
    → parse_levels raws ≡ ok segs
    → (raws ≡ map print_segment segs) × All IsSegment segs
unfolding parse_levels
parse_levels_sound [] segs h = let e : segs ≡ [] = ground arith in rw e (refl, tt)
parse_levels_sound (raw ∷ raws) segs h =
    let (seg, p, h1) = >>=-eq-ok (parse_segment raw) _ h in
    let (rest, q, h2) = >>=-eq-ok (parse_levels raws) _ h1 in
    let e : segs ≡ seg ∷ rest = ground arith in
    let (r, v) = (parse_segment_iff raw seg).0 p in
    let (rs, vs) = parse_levels_sound raws rest q in rw e (ap₂ ◌∷◌ r rs, (v, vs))

parse_levels_complete :
    (segs : List Segment) → All IsSegment segs → parse_levels (map print_segment segs) ≡ ok segs
unfolding parse_levels
parse_levels_complete [] v = refl
parse_levels_complete (seg ∷ segs) (v, vs) =
    rw ((parse_segment_iff (print_segment seg) seg).1 (refl, v), parse_levels_complete segs vs)

print_segment-no_slash :
    (seg : Segment) → IsSegment seg → contains_byte b'/' (print_segment seg) ≡ false
unfolding contains_byte
print_segment-no_slash seg v = ground (
  arith,
  contains_byte-append b'/' seg.literal (b'}' ∷ []),
  valid_identifier-no_byte b'/' seg.literal no_letter no_digit v,
)
  where
    no_letter : is_letter b'/' ≡ false
    no_letter = unfold is_letter in refl

    no_digit : is_digit b'/' ≡ false
    no_digit = unfold is_digit in refl

nonempty_of :
    (ss : List Segment) (s : Bytes) → rooted b'/' (map print_segment ss) ≡ b'/' ∷ s → 1 ≤ length ss
unfolding rooted
nonempty_of [] s e = cc
nonempty_of (seg ∷ ss) s e = omega arith

All-no_slash :
    (segs : List Segment)
    → All IsSegment segs
    → All (λ q. contains_byte b'/' q ≡ false) (map print_segment segs)
All-no_slash [] v = tt
All-no_slash (seg ∷ segs) (v, vs) = (print_segment-no_slash seg v, All-no_slash segs vs)

split_rooted_sound :
    (s : Bytes) (segs : List Segment)
    → split_endpoint (b'/' ∷ s) ≡ ok segs
    → (b'/' ∷ s ≡ print_endpoint segs) × IsPattern segs
unfolding print_endpoint
split_rooted_sound s segs h =
    let (ss, p, h1) =
      >>=-eq-ok (parse_levels (split_on b'/' s)) check_depth (sym (split_endpoint_lem s) ∙ h) in
    let (printed, valid) = parse_levels_sound (split_on b'/' s) ss p in
    let same : ss ≡ segs = ground arith in
    let text : rooted b'/' (map print_segment ss) ≡ b'/' ∷ s =
      rw printed at (rooted-split_on b'/' s) in
    rw (← same)
      (sym text, record { named = valid; nonempty = nonempty_of ss s text; depth = ground arith })

split_endpoint_sound :
    (ep : Bytes) (segs : List Segment)
    → split_endpoint ep ≡ ok segs
    → (ep ≡ print_endpoint segs) × IsPattern segs
split_endpoint_sound [] segs h = unfold split_endpoint in cc
split_endpoint_sound (c ∷ s) segs h = elim (Bool-cases (c == b'/')) [
  | inl e ↦
      let is : c ≡ b'/' = (==_iff c b'/').0 e in
      let h' : split_endpoint (b'/' ∷ s) ≡ ok segs = rw is at h in
      rw is (split_rooted_sound s segs h')
  | inr n ↦ unfold split_endpoint in ground arith
]

split_endpoint-print :
    (segs : List Segment) → IsPattern segs → split_endpoint (print_endpoint segs) ≡ ok segs
unfolding print_endpoint rooted
split_endpoint-print [] v = absurd (omega (arith, v.nonempty))
split_endpoint-print (seg ∷ segs) v =
    let (slash_free, all_free) = All-no_slash (seg ∷ segs) v.named in
    let pieces =
      split_on-rooted b'/' (print_segment seg) (map print_segment segs) slash_free all_free in
    let parsed = parse_levels_complete (seg ∷ segs) v.named in
    split_endpoint_lem (print_segment seg ++ rooted b'/' (map print_segment segs))
    ∙ rw (pieces, parsed) (ground (arith, v.depth))

-- Parsing and printing endpoint patterns are inverse: `splitEndpoint` accepts a text with the
-- segments `segs` exactly if `segs` print that text, there are 1 to 64 of them, and the text or
-- placeholder name of each is an identifier.
pub split_endpoint_iff :
    (ep : Bytes) (segs : List Segment)
    → (split_endpoint ep ≡ ok segs) ↔ ((ep ≡ print_endpoint segs) × IsPattern segs)
split_endpoint_iff ep segs =
    (split_endpoint_sound ep segs, λ (e, v). rw e (split_endpoint-print segs v))
