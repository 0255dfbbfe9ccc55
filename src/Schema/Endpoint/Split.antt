-- ===== src/Schema/Endpoint/Split.antt =====
-- The loop of `splitEndpoint` against a plain description: split at '/', parse every level.
use astrate.Base.{
  ℕ, zero, suc, ◌<◌, ◌≡◌, refl, ap, ◌∙◌, inl, inr, true, false, none, some, List, [], ◌∷◌, ◌++◌,
  arith, ◌==◌, Bool-cases, Option-cases, ==_iff, length, Result, ok, err, ◌>>=◌, Result-cases,
  Bytes, cut, split_on, last_byte, split_on-cut-none, split_on-cut-some, length-cut, append-cut,
  last_byte-append, last_byte-cut-none,
}
use mathlib.Core.List.{append_assoc}
use astrate.Schema.Endpoint.{
  Segment, EndpointError, parse_segment, empty_segment, split_loop, split_endpoint, ends_with_slash,
  check_depth,
}

abbrev pub Parsed : Type 0
Parsed = Result EndpointError (List Segment)

-- Every level parsed, or the error of the first that is bad.
unfoldable pub parse_levels : List Bytes → Result EndpointError (List Segment)
parse_levels [] = ok []
parse_levels (raw ∷ raws) = do seg ← parse_segment raw; segs ← parse_levels raws; ok (seg ∷ segs)

abbrev onto :
    List Segment → Result EndpointError (List Segment) → Result EndpointError (List Segment)
onto segs r = r >>= λ ss. ok (segs ++ ss)

pub onto-onto :
    (segs : List Segment) (seg : Segment) (r : Parsed)
    → onto (segs ++ seg ∷ []) r ≡ onto segs (r >>= λ ss. ok (seg ∷ ss))
onto-onto segs seg (ok ss) = ap ok (append_assoc segs (seg ∷ []) ss)
onto-onto segs seg (err e) = refl

-- While text is left, it ends in a slash exactly if the whole endpoint does.
abbrev SameEnd : Bytes → Bytes → Type 0
SameEnd endpoint [] = Unit
SameEnd endpoint (c ∷ s) = ends_with_slash endpoint ≡ ends_with_slash (c ∷ s)

ends_with_slash-cut-none : (s : Bytes) → cut b'/' s ≡ none → ends_with_slash s ≡ false
ends_with_slash-cut-none s h = elim (Option-cases (last_byte s)) [
  | inl e ↦ ground arith
  | inr (c, e) ↦ elim (Bool-cases (c == b'/')) [
    | inl same ↦
        let is : c ≡ b'/' = (==_iff c b'/').0 same in
        absurd (last_byte-cut-none b'/' s h (rw is at e))
    | inr other ↦ ground arith
  ]
]

last_byte-cut-some : (s a b : Bytes) → cut b'/' s ≡ some (a, b) → last_byte s ≡ last_byte (b'/' ∷ b)
last_byte-cut-some s a b h = rw (← append-cut b'/' s a b h) (last_byte-append a b b'/')

ends_with_slash-cut-some :
    (s a : Bytes) (d : ℕ) (b : Bytes)
    → cut b'/' s ≡ some (a, d ∷ b)
    → ends_with_slash s ≡ ends_with_slash (d ∷ b)
unfolding last_byte
ends_with_slash-cut-some s a d b h = ground (arith, last_byte-cut-some s a (d ∷ b) h)

ends_with_slash-cut_end : (s a : Bytes) → cut b'/' s ≡ some (a, []) → ends_with_slash s ≡ true
unfolding last_byte
ends_with_slash-cut_end s a h = ground (arith, last_byte-cut-some s a [] h)

parse_segment-nil : parse_segment [] ≡ err empty_segment
unfolding parse_segment
parse_segment-nil = refl

module _ (fuel : ℕ) (endpoint : Bytes) (c : ℕ) (s : Bytes) (segs : List Segment)
    (same : ends_with_slash endpoint ≡ ends_with_slash (c ∷ s)) where
  -- The last level: no slash is left.
  last_round :
      cut b'/' (c ∷ s) ≡ none
      → split_loop (suc fuel) endpoint (c ∷ s) segs ≡ onto segs (parse_levels ((c ∷ s) ∷ []))
  unfolding split_loop parse_levels
  last_round e = elim (Result-cases (parse_segment (c ∷ s))) [
    | inl (seg, p) ↦ ground (arith, ends_with_slash-cut-none (c ∷ s) e)
    | inr (x, p) ↦ ground arith
  ]

  -- A slash with nothing behind it.
  trailing_round :
      (a : Bytes)
      → cut b'/' (c ∷ s) ≡ some (a, [])
      → split_loop (suc fuel) endpoint (c ∷ s) segs ≡ onto segs (parse_levels (a ∷ [] ∷ []))
  unfolding split_loop parse_levels
  trailing_round a e = elim (Result-cases (parse_segment a)) [
    | inl (seg, p) ↦ ground (arith, ends_with_slash-cut_end (c ∷ s) a e, parse_segment-nil)
    | inr (x, p) ↦ ground arith
  ]

  -- A level with more behind it.
  middle_round :
      (a : Bytes) (d : ℕ) (b : Bytes)
      → cut b'/' (c ∷ s) ≡ some (a, d ∷ b)
      → split_loop (suc fuel) endpoint (c ∷ s) segs
        ≡ (parse_segment a >>= λ seg. split_loop fuel endpoint (d ∷ b) (segs ++ seg ∷ []))
  unfolding split_loop
  middle_round a d b e = ground (arith, e)

empty_round :
    (fuel : ℕ) (endpoint : Bytes) (segs : List Segment)
    → split_loop (suc fuel) endpoint [] segs ≡ onto segs (parse_levels (split_on b'/' []))
unfolding split_loop parse_levels split_on cut parse_segment
empty_round fuel endpoint segs = refl

-- The loop with fuel enough: the segments so far, then those of the levels that are left.
split_loop_lem :
    (fuel : ℕ) (endpoint rest : Bytes) (segs : List Segment)
    → length rest < fuel
    → SameEnd endpoint rest
    → split_loop fuel endpoint rest segs ≡ onto segs (parse_levels (split_on b'/' rest))
unfolding parse_levels
split_loop_lem zero endpoint rest segs lt same = elim lt [ ]
split_loop_lem (suc fuel) endpoint [] segs lt same = empty_round fuel endpoint segs
split_loop_lem (suc fuel) endpoint (c ∷ s) segs lt same = elim (Option-cases (cut b'/' (c ∷ s))) [
  | inl e ↦ rw (split_on-cut-none b'/' (c ∷ s) e) (last_round fuel endpoint c s segs same e)
  | inr ((a, []), e) ↦
      rw (split_on-cut-some b'/' (c ∷ s) a [] e)
        (unfold split_on in trailing_round fuel endpoint c s segs same a e)
  | inr ((a, d ∷ b), e) ↦
      let ih = λ (seg : Segment).
        split_loop_lem fuel endpoint (d ∷ b) (segs ++ seg ∷ [])
          (omega (arith, length-cut b'/' (c ∷ s) a (d ∷ b) e))
          (same ∙ ends_with_slash-cut-some (c ∷ s) a d b e) in
      rw
        (
          middle_round fuel endpoint c s segs same a d b e,
          split_on-cut-some b'/' (c ∷ s) a (d ∷ b) e,
        )
        (elim (Result-cases (parse_segment a)) [
          | inl (seg, p) ↦
              rw (p, parse_levels)
                (rw (ih seg) (onto-onto segs seg (parse_levels (split_on b'/' (d ∷ b)))))
          | inr (x, p) ↦ rw (p, parse_levels)
        ])
]

SameEnd-tail : (c : ℕ) (s : Bytes) → SameEnd (c ∷ s) s
unfolding last_byte
SameEnd-tail c [] = tt
SameEnd-tail c (d ∷ s) = refl

onto-nil : (r : Parsed) → onto [] r ≡ r
onto-nil (ok ss) = refl
onto-nil (err e) = refl

-- The fuel is always enough: `splitEndpoint` splits what stands behind the leading slash at the
-- slashes, parses each level, returns the error of the first bad one, and bounds their number.
pub split_endpoint_lem :
    (s : Bytes) → split_endpoint (b'/' ∷ s) ≡ (parse_levels (split_on b'/' s) >>= check_depth)
unfolding split_endpoint
split_endpoint_lem s =
    ap (λ (r : Parsed). r >>= check_depth)
      (split_loop_lem (suc (length s)) (b'/' ∷ s) s [] (omega arith) (SameEnd-tail b'/' s)
        ∙ onto-nil (parse_levels (split_on b'/' s)))
