-- ===== src/Triggers/Match/Fires.antt =====
-- When a compiled data condition matches an event, in the words of its configuration.
use astrate.Base.{
  ◌≤◌, ◌≡◌, refl, sym, ap, ◌∙◌, ◌↔◌, inl, inr, Bool, true, false, ◌&&◌, not, some, List, [], ◌∷◌,
  ◌++◌, map, arith, ◌==◌, if◌then◌else◌, Bool-cases, length, All, is_empty, ok, >>=-eq-ok, Bytes,
  eq_bytes, split_on, last_byte, last_byte-append,
}
use astrate.Schema.Endpoint.{Segment, valid_identifier, check_depth, split_endpoint}
use astrate.Schema.Endpoint.Level.{print_segment, IsSegment, valid_identifier-head}
use astrate.Schema.Endpoint.Split.{parse_levels, split_endpoint_lem}
use astrate.Schema.Endpoint.Print.{parse_levels_sound, split_endpoint_iff}
use astrate.Triggers.Condition.Data.{path_segments}
use astrate.Triggers.Match.{closed, is_placeholder, seg_matches, path_matches}
use astrate.Triggers.Match.Paths.{levels_match, path_matches_lem}

-- A level of a path against a level of a pattern: anything but the empty text for a placeholder.
unfoldable pub takes : Segment → Bytes → Bool
takes s p = if s.param then not (is_empty p) else eq_bytes s.literal p

unfoldable pub takes_all : List Segment → List Bytes → Bool
takes_all [] [] = true
takes_all (s ∷ ss) (p ∷ ps) = takes s p && takes_all ss ps
takes_all _ _ = false

closed_name : (n : Bytes) → closed (b'%' ∷ b'{' ∷ n ++ b'}' ∷ []) ≡ true
closed_name n = ground (arith, last_byte-append (b'%' ∷ b'{' ∷ n) [] b'}', one_byte)
  where
    one_byte : last_byte (b'}' ∷ []) ≡ some b'}'
    one_byte = unfold last_byte in refl

literal_level : (n p : Bytes) → valid_identifier n ≡ true → seg_matches n p ≡ eq_bytes n p
unfolding seg_matches is_placeholder
literal_level [] p v = refl
literal_level (c ∷ []) p v = refl
literal_level (c ∷ d ∷ n) p v = ground (arith, valid_identifier-head c (d ∷ n) v)

placeholder_level : (n p : Bytes) → seg_matches (b'%' ∷ b'{' ∷ n ++ b'}' ∷ []) p ≡ not (is_empty p)
unfolding seg_matches is_placeholder
placeholder_level n p = rw (closed_name n) refl

seg_matches_at :
    (n p : Bytes) (b : Bool)
    → valid_identifier n ≡ true
    → seg_matches (print_segment (record { literal = n; param = b })) p
      ≡ takes (record { literal = n; param = b }) p
unfolding takes
seg_matches_at n p true v = placeholder_level n p
seg_matches_at n p false v = literal_level n p v

levels_match_lem :
    (ss : List Segment) (ps : List Bytes)
    → All IsSegment ss
    → levels_match (map print_segment ss) ps ≡ takes_all ss ps
unfolding levels_match takes_all
levels_match_lem [] [] v = refl
levels_match_lem [] (p ∷ ps) v = refl
levels_match_lem (s ∷ ss) [] v = refl
levels_match_lem (s ∷ ss) (p ∷ ps) (v, vs) =
    rw (seg_matches_at s.literal p s.param v, levels_match_lem ss ps vs) refl

-- The path fits the endpoint that match_path is.
pub record OnPath (pattern path : Bytes) : Type 0 where
  pub segs : List Segment
  pub rest : Bytes
  pub parsed : split_endpoint pattern ≡ ok segs
  pub below : path ≡ b'/' ∷ rest
  pub levels : takes_all segs (split_on b'/' rest) ≡ true

pattern_levels :
    (s : Bytes) (segs : List Segment)
    → split_endpoint (b'/' ∷ s) ≡ ok segs
    → (path_segments (b'/' ∷ s) ≡ map print_segment segs) × All IsSegment segs
unfolding split_on
pattern_levels s segs h =
    let (ss, p, h1) =
      >>=-eq-ok (parse_levels (split_on b'/' s)) check_depth (sym (split_endpoint_lem s) ∙ h) in
    let same : ss ≡ segs = ground arith in rw (← same) (parse_levels_sound (split_on b'/' s) ss p)

path_matches-segs :
    (segs : List Segment) (rest : Bytes)
    → 1 ≤ length segs
    → All IsSegment segs
    → path_matches (map print_segment segs) (b'/' ∷ rest) ≡ takes_all segs (split_on b'/' rest)
path_matches-segs [] rest one v = absurd (omega (arith, one))
path_matches-segs (s ∷ ss) rest one v =
    path_matches_lem (print_segment s) (map print_segment ss) rest
    ∙ levels_match_lem (s ∷ ss) (split_on b'/' rest) v

rooted_levels :
    (s rest : Bytes) (segs : List Segment)
    → split_endpoint (b'/' ∷ s) ≡ ok segs
    → path_matches (path_segments (b'/' ∷ s)) (b'/' ∷ rest) ≡ takes_all segs (split_on b'/' rest)
rooted_levels s rest segs h =
    let (levels, named) = pattern_levels s segs h in
    let (_, pattern) = (split_endpoint_iff (b'/' ∷ s) segs).0 h in
    rw levels (path_matches-segs segs rest pattern.nonempty named)

-- An endpoint begins with a slash.
split_endpoint-rooted :
    (pattern : Bytes) (segs : List Segment)
    → split_endpoint pattern ≡ ok segs
    → (s : Bytes) × (pattern ≡ b'/' ∷ s)
unfolding split_endpoint
split_endpoint-rooted [] segs h = absurd (ground arith)
split_endpoint-rooted (c ∷ s) segs h = elim (Bool-cases (c == b'/')) [
  | inl e ↦ let is : c ≡ b'/' = ground arith in (s, ap (λ x. x ∷ s) is)
  | inr n ↦ absurd (ground arith)
]

path_matches-rooted :
    (segs : List Bytes) (path : Bytes)
    → path_matches segs path ≡ true
    → (rest : Bytes) × (path ≡ b'/' ∷ rest)
unfolding path_matches
path_matches-rooted segs [] h = absurd (ground arith)
path_matches-rooted segs (c ∷ rest) h = elim (Bool-cases (c == b'/')) [
  | inl e ↦ let is : c ≡ b'/' = ground arith in (rest, ap (λ x. x ∷ rest) is)
  | inr n ↦ absurd (ground arith)
]

-- The levels of an endpoint match those of a path as its segments take them.
pub path_levels :
    (pattern path : Bytes) (segs : List Segment)
    → split_endpoint pattern ≡ ok segs
    → (path_matches (path_segments pattern) path ≡ true) ↔ OnPath pattern path
path_levels pattern path segs h =
    let (s, is) = split_endpoint-rooted pattern segs h in
    (
      λ m.
          let (rest, below) = path_matches-rooted (path_segments pattern) path m in
          record {
            segs = segs;
            rest = rest;
            parsed = h;
            below = below;
            levels = sym (rooted_levels s rest segs (rw is at h)) ∙ rw (is, below) at m;
          },
      λ on. rw (is, on.below) (rooted_levels s on.rest on.segs (rw is at on.parsed) ∙ on.levels),
    )
