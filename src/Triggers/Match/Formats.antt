-- ===== src/Triggers/Match/Formats.antt =====
-- The format of match_path is that of endpoints: the regular expression accepts a path exactly if
-- splitEndpoint does.
use astrate.Base.{
  ℕ, ◌≡◌, refl, inl, inr, Bool, true, false, ◌&&◌, List, [], ◌∷◌, arith, leb, ◌==◌, Bool-cases,
  length, all, Result, ok, err, ◌>>=◌, >>=-eq-ok, Bytes, split_on, last_byte,
}
use astrate.Schema.Endpoint.{
  Segment, valid_identifier, parse_placeholder, parse_literal, parse_segment, check_depth,
  split_endpoint,
}
use astrate.Schema.Endpoint.Split.{Parsed, parse_levels, split_endpoint_lem}
use astrate.Triggers.Condition.{match_level_ok, match_path_ok}

abbrev pub is_ok {ℓ κ} : {E : Type ℓ} {A : Type κ} → Result E A → Bool
is_ok (ok _) = true
is_ok (err _) = false

valid_identifier-percent : (s : Bytes) → valid_identifier (b'%' ∷ s) ≡ false
unfolding valid_identifier
valid_identifier-percent s = refl

valid_identifier-nil : valid_identifier [] ≡ false
unfolding valid_identifier
valid_identifier-nil = refl

placeholder_ok_lem : (s : Bytes) → is_ok (parse_placeholder (b'%' ∷ s)) ≡ match_level_ok (b'%' ∷ s)
unfolding parse_placeholder match_level_ok last_byte
placeholder_ok_lem [] = ground (arith, valid_identifier-percent [])
placeholder_ok_lem (d ∷ []) = ground arith
placeholder_ok_lem (d ∷ x ∷ []) = ground (arith, valid_identifier-nil)
placeholder_ok_lem (d ∷ x ∷ y ∷ s) = ground arith

literal_ok_lem : (raw : Bytes) → is_ok (parse_literal raw) ≡ valid_identifier raw
unfolding parse_literal
literal_ok_lem raw = ground arith

literal_level :
    (c : ℕ) (s : Bytes)
    → (c == b'%') ≡ false
    → is_ok (parse_segment (c ∷ s)) ≡ match_level_ok (c ∷ s)
unfolding parse_segment match_level_ok
literal_level c [] n = ground (arith, literal_ok_lem (c ∷ []))
literal_level c (d ∷ s) n = ground (arith, literal_ok_lem (c ∷ d ∷ s))

percent_level :
    (c : ℕ) (s : Bytes) → c ≡ b'%' → is_ok (parse_segment (c ∷ s)) ≡ match_level_ok (c ∷ s)
percent_level c s is = rw is (unfold parse_segment in placeholder_ok_lem s)

parse_segment_nil_ok : is_ok (parse_segment []) ≡ match_level_ok []
unfolding parse_segment match_level_ok
parse_segment_nil_ok = ground (arith, valid_identifier-nil)

match_level_ok_lem : (raw : Bytes) → is_ok (parse_segment raw) ≡ match_level_ok raw
match_level_ok_lem [] = parse_segment_nil_ok
match_level_ok_lem (c ∷ s) = elim (Bool-cases (c == b'%')) [
  | inl e ↦ percent_level c s (ground arith)
  | inr n ↦ literal_level c s n
]

parse_levels-is_ok : (raws : List Bytes) → is_ok (parse_levels raws) ≡ all match_level_ok raws
unfolding parse_levels
parse_levels-is_ok [] = refl
parse_levels-is_ok (raw ∷ raws) = ground (arith, match_level_ok_lem raw, parse_levels-is_ok raws)

length-parse_levels :
    (raws : List Bytes) (segs : List Segment)
    → parse_levels raws ≡ ok segs
    → length segs ≡ length raws
unfolding parse_levels
length-parse_levels [] segs h = let e : segs ≡ [] = ground arith in rw e refl
length-parse_levels (raw ∷ raws) segs h =
    let (seg, p, h1) = >>=-eq-ok (parse_segment raw) _ h in
    let (rest, q, h2) = >>=-eq-ok (parse_levels raws) _ h1 in
    let e : segs ≡ seg ∷ rest = ground arith in
    rw e (omega (arith, length-parse_levels raws rest q))

rooted_format :
    (s : Bytes) (r : Parsed)
    → parse_levels (split_on b'/' s) ≡ r
    → is_ok (r >>= check_depth) ≡ (is_ok r && leb (length (split_on b'/' s)) 64)
rooted_format s (ok segs) e = ground (arith, length-parse_levels (split_on b'/' s) segs e)
rooted_format s (err x) e = refl

-- The regular expression and the parser of endpoints accept the same texts.
pub match_path_ok_lem : (path : Bytes) → match_path_ok path ≡ is_ok (split_endpoint path)
unfolding match_path_ok
match_path_ok_lem [] = unfold split_endpoint in refl
match_path_ok_lem (c ∷ s) = elim (Bool-cases (c == b'/')) [
  | inl e ↦
      let is : c ≡ b'/' = ground arith in
      rw (is, split_endpoint_lem s)
        (ground (
          arith,
          rooted_format s (parse_levels (split_on b'/' s)) refl,
          parse_levels-is_ok (split_on b'/' s),
        ))
  | inr n ↦ unfold split_endpoint in ground arith
]
