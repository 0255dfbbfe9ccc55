-- ===== src/Triggers/Match/Paths.antt =====
-- The path match of data triggers is the match of the levels, one by one.
use astrate.Base.{
  ℕ, ◌≡◌, refl, inl, inr, Bool, true, false, ◌&&◌, none, some, List, [], ◌∷◌, arith, Option-cases,
  is_empty, Bytes, contains_byte, cut, split_on, split_on-cut-none, split_on-cut-some,
}
use astrate.Triggers.Match.{seg_matches, match_segs, path_matches}

contains_byte-cut-none : (sep : ℕ) (s : Bytes) → cut sep s ≡ none → contains_byte sep s ≡ false
unfolding cut contains_byte
contains_byte-cut-none sep [] h = refl
contains_byte-cut-none sep (c ∷ s) h = ground (arith, contains_byte-cut-none sep s)

contains_byte-cut-some :
    (sep : ℕ) (s a b : Bytes)
    → cut sep s ≡ some (a, b)
    → (contains_byte sep a ≡ false) × (contains_byte sep s ≡ true)
unfolding cut contains_byte
contains_byte-cut-some sep [] a b h = ground arith
contains_byte-cut-some sep (c ∷ s) a b h = elim (Option-cases (cut sep s)) [
  | inl e ↦ ground arith
  | inr ((x, y), e) ↦ ground (arith, contains_byte-cut-some sep s x y e)
]

-- The levels of a pattern against those of a path.
unfoldable pub levels_match : List Bytes → List Bytes → Bool
levels_match [] [] = true
levels_match (seg ∷ segs) (p ∷ ps) = seg_matches seg p && levels_match segs ps
levels_match _ _ = false

levels_match-short : (ps : List Bytes) → is_empty ps ≡ false → levels_match [] ps ≡ false
unfolding levels_match
levels_match-short [] h = cc
levels_match-short (p ∷ ps) h = refl

split_on-nonempty : (sep : ℕ) (s : Bytes) → is_empty (split_on sep s) ≡ false
split_on-nonempty sep s = elim (Option-cases (cut sep s)) [
  | inl e ↦ rw (split_on-cut-none sep s e) refl
  | inr ((a, b), e) ↦ rw (split_on-cut-some sep s a b e) refl
]

match_segs_lem :
    (seg : Bytes) (segs : List Bytes) (rest : Bytes)
    → match_segs (seg ∷ segs) rest ≡ levels_match (seg ∷ segs) (split_on b'/' rest)
unfolding match_segs levels_match
match_segs_lem seg [] rest = elim (Option-cases (cut b'/' rest)) [
  | inl e ↦ rw (split_on-cut-none b'/' rest e) (ground (arith, contains_byte-cut-none b'/' rest e))
  | inr ((a, b), e) ↦ rw (split_on-cut-some b'/' rest a b e) (
      ground (
        arith,
        contains_byte-cut-some b'/' rest a b e,
        levels_match-short (split_on b'/' b) (split_on-nonempty b'/' b),
      ))
]
match_segs_lem seg (next ∷ segs) rest = elim (Option-cases (cut b'/' rest)) [
  | inl e ↦ rw (split_on-cut-none b'/' rest e) (ground (arith, e))
  | inr ((a, b), e) ↦
      rw (split_on-cut-some b'/' rest a b e)
        (ground (arith, e, contains_byte-cut-some b'/' rest a b e, match_segs_lem next segs b))
]

-- A path that begins with a slash, against a pattern of one level and more.
pub path_matches_lem :
    (seg : Bytes) (segs : List Bytes) (rest : Bytes)
    → path_matches (seg ∷ segs) (b'/' ∷ rest) ≡ levels_match (seg ∷ segs) (split_on b'/' rest)
unfolding path_matches
path_matches_lem seg segs rest = match_segs_lem seg segs rest
