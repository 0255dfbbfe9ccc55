-- ===== src/Schema/Unique/Laws.antt =====
-- What the uniqueness check rules out: endpoints that some concrete path would fit both.
use astrate.Base.{
  ◌≤◌, ◌≡◌, refl, ap₂, ◌↔◌, inl, inr, Bool, true, false, ◌&&◌, ◌||◌, List, [], ◌∷◌, arith, ◌==◌,
  if◌then◌else◌, Bool-cases, length, All, is_empty, ok, >>-eq-ok, Bytes, eq_bytes, eq_bytes_self,
  eq_bytes_iff,
}
use astrate.Schema.Endpoint.{Segment, valid_identifier, is_letter, is_digit}
use astrate.Schema.Endpoint.Level.{IsSegment, valid_identifier-no_byte}
use astrate.Schema.Trie.{placeholder_value_ok}
use astrate.Schema.Trie.Meaning.{is_value, placeholder_value_ok-is_value, fits, fits_all}
use astrate.Schema.Unique.{Parsed, compare_levels, check_pair, check_row, check_endpoint_uniqueness}

-- Two levels that some value fits both: a placeholder on either side, or the same literal.
unfoldable pub level_overlap : Segment → Segment → Bool
level_overlap a b = a.param || b.param || eq_bytes a.literal b.literal

unfoldable pub overlap : List Segment → List Segment → Bool
overlap [] [] = true
overlap (a ∷ as') (b ∷ bs) = level_overlap a b && overlap as' bs
overlap _ _ = false

-- No two of the endpoints overlap.
abbrev pub NoOverlap : List Parsed → Type 0
NoOverlap [] = Unit
NoOverlap (a ∷ as') = All (λ b. overlap a.1 b.1 ≡ false) as' × NoOverlap as'

compare_levels-overlap :
    (as' bs : List Segment) (i : Bool)
    → length as' ≡ length bs
    → (compare_levels as' bs true i).0 ≡ overlap as' bs
unfolding compare_levels overlap level_overlap
compare_levels-overlap [] [] i e = refl
compare_levels-overlap [] (b ∷ bs) i e = absurd (omega arith)
compare_levels-overlap (a ∷ as') [] i e = absurd (omega arith)
compare_levels-overlap (a ∷ as') (b ∷ bs) i e = ground (
  arith,
  compare_levels-overlap as' bs i (omega arith),
  compare_levels-overlap as' bs false (omega arith),
)

compare_levels-identical :
    (as' bs : List Segment) (o i : Bool)
    → (compare_levels as' bs o i).1 ≡ true
    → (compare_levels as' bs o i).0 ≡ o
unfolding compare_levels
compare_levels-identical [] bs o i e = refl
compare_levels-identical (a ∷ as') [] o i e = refl
compare_levels-identical (a ∷ as') (b ∷ bs) o i e =
    ground (arith, compare_levels-identical as' bs o i, compare_levels-identical as' bs o false)

overlap-length : (as' bs : List Segment) → overlap as' bs ≡ true → length as' ≡ length bs
unfolding overlap
overlap-length [] [] h = refl
overlap-length [] (b ∷ bs) h = cc
overlap-length (a ∷ as') [] h = cc
overlap-length (a ∷ as') (b ∷ bs) h = ground (arith, overlap-length as' bs)

check_pair_iff : (a b : Parsed) → (check_pair a b ≡ ok tt) ↔ (overlap a.1 b.1 ≡ false)
unfolding check_pair
check_pair_iff a b = elim (Bool-cases (length a.1 == length b.1)) [
  | inl e ↦
      let same : length a.1 ≡ length b.1 = ground arith in
      ground (
        arith,
        compare_levels-overlap a.1 b.1 true same,
        compare_levels-identical a.1 b.1 true true,
      )
  | inr n ↦ ground (arith, overlap-length a.1 b.1)
]

check_row_iff :
    (a : Parsed) (bs : List Parsed)
    → (check_row a bs ≡ ok tt) ↔ All (λ b. overlap a.1 b.1 ≡ false) bs
unfolding check_row
check_row_iff a [] = (λ _. tt, λ _. refl)
check_row_iff a (b ∷ bs) = (
  λ h.
      let (p, q) = >>-eq-ok (check_pair a b) _ h in
      ((check_pair_iff a b).0 p, (check_row_iff a bs).0 q),
  λ (p, q). rw ((check_pair_iff a b).1 p) ((check_row_iff a bs).1 q),
)

-- `checkEndpointUniqueness` accepts the endpoints of an interface exactly when no two of them, at
-- whatever positions, overlap.
pub check_endpoint_uniqueness_iff :
    (as' : List Parsed) → (check_endpoint_uniqueness as' ≡ ok tt) ↔ NoOverlap as'
unfolding check_endpoint_uniqueness
check_endpoint_uniqueness_iff [] = (λ _. tt, λ _. refl)
check_endpoint_uniqueness_iff (a ∷ as') = (
  λ h.
      let (p, q) = >>-eq-ok (check_row a as') _ h in
      ((check_row_iff a as').0 p, (check_endpoint_uniqueness_iff as').0 q),
  λ (p, q). rw ((check_row_iff a as').1 p) ((check_endpoint_uniqueness_iff as').1 q),
)

level_overlap-fits :
    (a b : Segment) (p : Bytes) → fits a p ≡ true → fits b p ≡ true → level_overlap a b ≡ true
unfolding fits level_overlap
level_overlap-fits a b p f g =
    ground
      (arith, eq_bytes_iff a.literal p, eq_bytes_iff b.literal p, eq_bytes_iff a.literal b.literal)

-- A path that fits two patterns makes them overlap.
pub overlap-fits_all :
    (as' bs : List Segment) (ps : List Bytes)
    → fits_all as' ps ≡ true
    → fits_all bs ps ≡ true
    → overlap as' bs ≡ true
unfolding fits_all overlap
overlap-fits_all [] [] [] f g = refl
overlap-fits_all (a ∷ as') (b ∷ bs) (p ∷ ps) f g =
    ground (arith, level_overlap-fits a b p, overlap-fits_all as' bs ps)
overlap-fits_all [] (b ∷ bs) [] f g = cc
overlap-fits_all [] bs (p ∷ ps) f g = cc
overlap-fits_all (a ∷ as') bs [] f g = cc
overlap-fits_all (a ∷ as') [] (p ∷ ps) f g = cc

-- A segment whose text is short enough to be the value of a placeholder.
abbrev pub IsShort : Segment → Type 0
IsShort s = IsSegment s × (length s.literal ≤ 256)

-- A value that fits two levels, where there is one.
abbrev common_value : Segment → Segment → Bytes
common_value a b = if a.param then (if b.param then b'x' ∷ [] else b.literal) else a.literal

abbrev common_path : List Segment → List Segment → List Bytes
common_path (a ∷ as') (b ∷ bs) = common_value a b ∷ common_path as' bs
common_path _ _ = []

identifier-value_ok : (s : Bytes) → valid_identifier s ≡ true → length s ≤ 256 → is_value s ≡ true
unfolding placeholder_value_ok
identifier-value_ok s v h = ground (
  arith,
  placeholder_value_ok-is_value s,
  valid_identifier-no_byte b'+' s (unfold is_letter in refl) (unfold is_digit in refl) v,
  valid_identifier-no_byte b'#' s (unfold is_letter in refl) (unfold is_digit in refl) v,
)

identifier-not_empty : (s : Bytes) → valid_identifier s ≡ true → is_empty s ≡ false
unfolding valid_identifier
identifier-not_empty [] v = cc
identifier-not_empty (c ∷ s) v = refl

x_value_ok : is_value (b'x' ∷ []) ≡ true
unfolding is_value
x_value_ok = refl

common_value-fits :
    (a b : Segment)
    → IsShort a
    → IsShort b
    → level_overlap a b ≡ true
    → (fits a (common_value a b) ≡ true) × (fits b (common_value a b) ≡ true)
unfolding fits level_overlap
common_value-fits a b (v, h) (w, k) o = ground (
  arith,
  identifier-value_ok a.literal v h,
  identifier-value_ok b.literal w k,
  identifier-not_empty a.literal v,
  identifier-not_empty b.literal w,
  eq_bytes_self a.literal,
  eq_bytes_self b.literal,
  eq_bytes_iff b.literal a.literal,
  eq_bytes_iff a.literal b.literal,
  x_value_ok,
)

common_path-fits :
    (as' bs : List Segment)
    → All IsShort as'
    → All IsShort bs
    → overlap as' bs ≡ true
    → (fits_all as' (common_path as' bs) ≡ true) × (fits_all bs (common_path as' bs) ≡ true)
unfolding fits_all overlap
common_path-fits [] [] v w o = (refl, refl)
common_path-fits [] (b ∷ bs) v w o = cc
common_path-fits (a ∷ as') [] v w o = cc
common_path-fits (a ∷ as') (b ∷ bs) (v, vs) (w, ws) o =
    ground (arith, common_value-fits a b v w, common_path-fits as' bs vs ws)

-- A path, as the list of its levels, that fits both endpoints.
abbrev pub Common : Parsed → Parsed → Type 0
Common a b = (ps : List Bytes) × (fits_all a.1 ps ≡ true) × (fits_all b.1 ps ≡ true)

-- No path fits two of the endpoints.
abbrev pub NoCommon : List Parsed → Type 0
NoCommon [] = Unit
NoCommon (a ∷ as') = All (λ b. ¬ Common a b) as' × NoCommon as'

-- Two patterns of identifiers of at most 256 bytes overlap exactly when some path fits both.
overlap_iff :
    (as' bs : List Segment)
    → All IsShort as'
    → All IsShort bs
    → (overlap as' bs ≡ true)
      ↔ ((ps : List Bytes) × (fits_all as' ps ≡ true) × (fits_all bs ps ≡ true))
overlap_iff as' bs v w = (
  λ o. let (f, g) = common_path-fits as' bs v w o in (common_path as' bs, f, g),
  λ (ps, f, g). overlap-fits_all as' bs ps f g,
)

apart_iff :
    (a b : Parsed) → All IsShort a.1 → All IsShort b.1 → (overlap a.1 b.1 ≡ false) ↔ (¬ Common a b)
apart_iff a b v w = elim (Bool-cases (overlap a.1 b.1)) [
  | inl e ↦ (λ f. absurd (cc), λ n. absurd (n ((overlap_iff a.1 b.1 v w).0 e)))
  | inr e ↦ (λ f c. let o = (overlap_iff a.1 b.1 v w).1 c in cc, λ n. e)
]

apart_row :
    (a : Parsed) (bs : List Parsed)
    → All IsShort a.1
    → All (λ (b : Parsed). All IsShort b.1) bs
    → All (λ b. overlap a.1 b.1 ≡ false) bs ↔ All (λ b. ¬ Common a b) bs
apart_row a [] v ws = (λ _. tt, λ _. tt)
apart_row a (b ∷ bs) v (w, ws) = (
  λ (h, hs). ((apart_iff a b v w).0 h, (apart_row a bs v ws).0 hs),
  λ (h, hs). ((apart_iff a b v w).1 h, (apart_row a bs v ws).1 hs),
)

NoOverlap-NoCommon :
    (as' : List Parsed) → All (λ (a : Parsed). All IsShort a.1) as' → NoOverlap as' ↔ NoCommon as'
NoOverlap-NoCommon [] vs = (λ _. tt, λ _. tt)
NoOverlap-NoCommon (a ∷ as') (v, vs) = (
  λ (h, hs). ((apart_row a as' v vs).0 h, (NoOverlap-NoCommon as' vs).0 hs),
  λ (h, hs). ((apart_row a as' v vs).1 h, (NoOverlap-NoCommon as' vs).1 hs),
)

-- `checkEndpointUniqueness` accepts endpoints whose literals and placeholder names are identifiers of
-- at most 256 bytes exactly if no path fits two of them: a literal level of a path is that of the
-- endpoint, and a placeholder stands for 1 to 256 bytes without + and #.
pub check_endpoint_uniqueness-NoCommon_iff :
    (as' : List Parsed)
    → All (λ (a : Parsed). All IsShort a.1) as'
    → (check_endpoint_uniqueness as' ≡ ok tt) ↔ NoCommon as'
check_endpoint_uniqueness-NoCommon_iff as' vs = (
  λ h. (NoOverlap-NoCommon as' vs).0 ((check_endpoint_uniqueness_iff as').0 h),
  λ n. (check_endpoint_uniqueness_iff as').1 ((NoOverlap-NoCommon as' vs).1 n),
)

level_overlap_comm : (a b : Segment) → level_overlap a b ≡ level_overlap b a
unfolding level_overlap
level_overlap_comm a b =
    ground (arith, eq_bytes_iff a.literal b.literal, eq_bytes_iff b.literal a.literal)

pub overlap_comm : (as' bs : List Segment) → overlap as' bs ≡ overlap bs as'
unfolding overlap
overlap_comm [] [] = refl
overlap_comm [] (b ∷ bs) = refl
overlap_comm (a ∷ as') [] = refl
overlap_comm (a ∷ as') (b ∷ bs) = ap₂ ◌&&◌ (level_overlap_comm a b) (overlap_comm as' bs)
