-- ===== src/Schema/Endpoint/Failure.antt =====
-- Which error `splitEndpoint` returns.
use astrate.Base.{
  ℕ, ◌≡◌, refl, sym, ap, ◌∙◌, ◌↔◌, ◌≢◌, ◌<◌, inl, inr, List, [], ◌∷◌, ◌++◌, arith, ◌==◌, Bool-cases,
  ==_iff, All, ok, err, ◌>>=◌, Result-cases, length, Bytes, split_on,
}
use astrate.Schema.Endpoint.{
  Segment, EndpointError, no_leading_slash, too_deep, out_of_fuel, check_depth, parse_segment,
  parse_placeholder, parse_literal, split_endpoint,
}
use astrate.Schema.Endpoint.Split.{parse_levels, split_endpoint_lem}

abbrev Parses : Bytes → Type 0
Parses raw = (seg : Segment) × (parse_segment raw ≡ ok seg)

-- Why an endpoint is rejected: it does not begin with a slash, or one of the levels between its
-- slashes is bad and those before it are not, or there are more than 64.
pub data Rejects : Bytes → EndpointError → Type 0 where
  nothing : Rejects [] no_leading_slash
  unrooted : {c : ℕ} {s : Bytes} → c ≢ b'/' → Rejects (c ∷ s) no_leading_slash
  bad_level :
      {s : Bytes} {e : EndpointError} (before after : List Bytes) (raw : Bytes)
      → split_on b'/' s ≡ before ++ raw ∷ after
      → All Parses before
      → parse_segment raw ≡ err e
      → Rejects (b'/' ∷ s) e
  deep :
      {s : Bytes}
      → All Parses (split_on b'/' s)
      → 64 < length (split_on b'/' s)
      → Rejects (b'/' ∷ s) too_deep

-- The first level that does not parse.
abbrev FirstBad : List Bytes → EndpointError → Type 0
FirstBad raws e =
    (before : List Bytes) × (after : List Bytes) × (raw : Bytes) × (raws ≡ before ++ raw ∷ after)
    × All Parses before
    × (parse_segment raw ≡ err e)

parse_levels-err :
    (raws : List Bytes) (e : EndpointError) → parse_levels raws ≡ err e → FirstBad raws e
unfolding parse_levels
parse_levels-err [] e h = absurd (ground arith)
parse_levels-err (raw ∷ raws) e h = elim (Result-cases (parse_segment raw)) [
  | inr (x, bad) ↦ ([], raws, raw, refl, tt, ground arith)
  | inl (seg, p) ↦ elim (Result-cases (parse_levels raws)) [
    | inr (x, bad) ↦
        let (before, after, r, split, good, b) = parse_levels-err raws e (ground arith) in
        (raw ∷ before, after, r, ap (◌∷◌ raw) split, ((seg, p), good), b)
    | inl (segs, q) ↦ absurd (ground arith)
  ]
]

parse_levels-ok :
    (raws : List Bytes) (segs : List Segment)
    → parse_levels raws ≡ ok segs
    → All Parses raws × (length segs ≡ length raws)
unfolding parse_levels
parse_levels-ok [] segs h = let e : segs ≡ [] = ground arith in (tt, rw e refl)
parse_levels-ok (raw ∷ raws) segs h = elim (Result-cases (parse_segment raw)) [
  | inr (x, bad) ↦ absurd (ground arith)
  | inl (seg, p) ↦ elim (Result-cases (parse_levels raws)) [
    | inr (x, bad) ↦ absurd (ground arith)
    | inl (ss, q) ↦
        let (good, n) = parse_levels-ok raws ss q in
        let e : segs ≡ seg ∷ ss = ground arith in (((seg, p), good), rw e (omega (arith, n)))
  ]
]

parse_levels-All :
    (raws : List Bytes)
    → All Parses raws
    → (segs : List Segment) × (parse_levels raws ≡ ok segs) × (length segs ≡ length raws)
unfolding parse_levels
parse_levels-All [] v = ([], refl, refl)
parse_levels-All (raw ∷ raws) ((seg, p), vs) =
    let (segs, q, n) = parse_levels-All raws vs in (seg ∷ segs, ground arith, omega (arith, n))

parse_levels-first :
    (before after : List Bytes) (raw : Bytes) (e : EndpointError)
    → All Parses before
    → parse_segment raw ≡ err e
    → parse_levels (before ++ raw ∷ after) ≡ err e
unfolding parse_levels
parse_levels-first [] after raw e v b = ground arith
parse_levels-first (r ∷ before) after raw e ((seg, p), vs) b =
    let ih = parse_levels-first before after raw e vs b in ground arith

rooted-err :
    (s : Bytes) (e : EndpointError)
    → (parse_levels (split_on b'/' s) >>= check_depth) ≡ err e
    → Rejects (b'/' ∷ s) e
rooted-err s e h = elim (Result-cases (parse_levels (split_on b'/' s))) [
  | inr (x, bad) ↦
      let (before, after, raw, split, good, b) =
        parse_levels-err (split_on b'/' s) e (ground arith) in
      bad_level before after raw split good b
  | inl (segs, q) ↦
      let (good, n) = parse_levels-ok (split_on b'/' s) segs q in
      let is : e ≡ too_deep = ground arith in rw is (deep good (ground (arith, n)))
]

split_endpoint-err : (ep : Bytes) (e : EndpointError) → split_endpoint ep ≡ err e → Rejects ep e
unfolding split_endpoint
split_endpoint-err [] e h = let is : e ≡ no_leading_slash = ground arith in rw is nothing
split_endpoint-err (c ∷ s) e h = elim (Bool-cases (c == b'/')) [
  | inl y ↦
      let is : c ≡ b'/' = (==_iff c b'/').0 y in
      rw is (rooted-err s e (sym (split_endpoint_lem s) ∙ rw is at h))
  | inr n ↦ let is : e ≡ no_leading_slash = ground arith in rw is (unrooted (λ z. ground arith))
]

Rejects-err : {ep : Bytes} {e : EndpointError} → Rejects ep e → split_endpoint ep ≡ err e
unfolding split_endpoint
Rejects-err nothing = refl
Rejects-err (unrooted {c = c} n) = elim (Bool-cases (c == b'/')) [
  | inl y ↦ absurd (n ((==_iff c b'/').0 y))
  | inr y ↦ ground arith
]
Rejects-err (bad_level {s = s} {e = e} before after raw split good b) =
    let levels : parse_levels (split_on b'/' s) ≡ err e =
      ap parse_levels split ∙ parse_levels-first before after raw e good b in
    split_endpoint_lem s ∙ rw levels refl
Rejects-err (deep {s = s} good n) =
    let (segs, q, m) = parse_levels-All (split_on b'/' s) good in
    split_endpoint_lem s ∙ rw q (ground (arith, m))

parse_segment-fuel : (raw : Bytes) → parse_segment raw ≢ err out_of_fuel
unfolding parse_segment parse_placeholder parse_literal
parse_segment-fuel [] h = cc
parse_segment-fuel (c ∷ s) h = ground arith

not-out_of_fuel : {ep : Bytes} → Rejects ep out_of_fuel → ⊥
not-out_of_fuel (bad_level before after raw split good b) = parse_segment-fuel raw b

-- The loop of `splitEndpoint` returns before its fuel runs out, and it returns an error exactly for one
-- of these reasons: the endpoint does not begin with a slash; a level between its slashes is the first
-- bad one, whose error it is; all levels are good, but there are more than 64.
pub split_endpoint-Rejects_iff :
    (ep : Bytes)
    → (split_endpoint ep ≢ err out_of_fuel)
      × ((e : EndpointError) → (split_endpoint ep ≡ err e) ↔ Rejects ep e)
split_endpoint-Rejects_iff ep = (
  λ h. not-out_of_fuel (split_endpoint-err ep out_of_fuel h),
  λ e. (split_endpoint-err ep e, λ r. Rejects-err r),
)
