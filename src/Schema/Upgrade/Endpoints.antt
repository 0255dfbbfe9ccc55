-- ===== src/Schema/Upgrade/Endpoints.antt =====
-- What `normalizedKey` compares: two endpoints have one key exactly where they differ in the names of
-- placeholders alone.
use astrate.Base.{
  ◌≡◌, refl, sym, ap, ◌∙◌, ◌⊎◌, inl, inr, true, false, List, [], ◌∷◌, ◌++◌, map, arith,
  if◌then◌else◌, Bool-cases, All, ok, Result-cases, Bytes, codes, contains_byte, split_on, rooted,
  split_on-rooted,
}
use astrate.Schema.Endpoint.{
  Segment, is_letter, is_digit, split_endpoint, normalize_endpoint, valid_identifier,
}
use astrate.Schema.Endpoint.Level.{IsSegment, valid_identifier-no_byte, valid_identifier-head}
use astrate.Schema.Endpoint.Print.{split_endpoint_iff}
use astrate.Schema.Upgrade.{normalized_key}

-- Two placeholders, or the same literal.
abbrev pub SameLevel : Segment → Segment → Type 0
SameLevel a b =
    ((a.param ≡ true) × (b.param ≡ true))
    ⊎ ((a.param ≡ false) × (b.param ≡ false) × (a.literal ≡ b.literal))

abbrev pub SameLevels : List Segment → List Segment → Type 0
SameLevels [] [] = Unit
SameLevels (a ∷ as') (b ∷ bs) = SameLevel a b × SameLevels as' bs
SameLevels _ _ = ⊥

-- Two endpoints that parse, and are the same up to the names of placeholders.
pub record SameEndpoint (a b : Bytes) : Type 0 where
  pub levels : List Segment
  pub levels' : List Segment
  pub parsed : split_endpoint a ≡ ok levels
  pub parsed' : split_endpoint b ≡ ok levels'
  pub same : SameLevels levels levels'

abbrev text : Segment → Bytes
text s = if s.param then codes "%{}" else s.literal

normalize_endpoint-rooted :
    (segs : List Segment) → normalize_endpoint segs ≡ rooted b'/' (map text segs)
unfolding normalize_endpoint rooted
normalize_endpoint-rooted [] = refl
normalize_endpoint-rooted (s ∷ segs) =
    ap (λ (t : Bytes). b'/' ∷ (text s ++ t)) (normalize_endpoint-rooted segs)

text-no_slash : (s : Segment) → IsSegment s → contains_byte b'/' (text s) ≡ false
unfolding contains_byte
text-no_slash s v = ground (
  arith,
  valid_identifier-no_byte b'/' s.literal (unfold is_letter in refl) (unfold is_digit in refl) v,
)

All-text-no_slash :
    (segs : List Segment)
    → All IsSegment segs
    → All (λ q. contains_byte b'/' q ≡ false) (map text segs)
All-text-no_slash [] v = tt
All-text-no_slash (s ∷ segs) (v, vs) = (text-no_slash s v, All-text-no_slash segs vs)

not_placeholder : (l : Bytes) → valid_identifier l ≡ true → l ≡ codes "%{}" → ⊥
not_placeholder l v e =
    let v' : valid_identifier (codes "%{}") ≡ true = rw e at v in
    let bad = valid_identifier-head b'%' (codes "{}") v' in ground arith

level_of : (a b : Segment) → IsSegment a → IsSegment b → text a ≡ text b → SameLevel a b
level_of a b v w e = elim (Bool-cases a.param) [
  | inl p ↦ elim (Bool-cases b.param) [
    | inl q ↦ inl (p, q)
    | inr q ↦ absurd (not_placeholder b.literal w (cc))
  ]
  | inr p ↦ elim (Bool-cases b.param) [
    | inl q ↦ absurd (not_placeholder a.literal v (cc))
    | inr q ↦ inr (p, q, cc)
  ]
]

levels_of :
    (as' bs : List Segment)
    → All IsSegment as'
    → All IsSegment bs
    → map text as' ≡ map text bs
    → SameLevels as' bs
levels_of [] [] vs ws e = tt
levels_of [] (b ∷ bs) vs ws e = absurd (ground arith)
levels_of (a ∷ as') [] vs ws e = absurd (ground arith)
levels_of (a ∷ as') (b ∷ bs) (v, vs) (w, ws) e =
    (level_of a b v w (cc), levels_of as' bs vs ws (cc))

tail_eq : {x y : Bytes} → b'/' ∷ x ≡ b'/' ∷ y → x ≡ y
tail_eq h = cc

rooted-injective :
    (ps qs : List Bytes)
    → All (λ q. contains_byte b'/' q ≡ false) ps
    → All (λ q. contains_byte b'/' q ≡ false) qs
    → rooted b'/' ps ≡ rooted b'/' qs
    → ps ≡ qs
unfolding rooted
rooted-injective [] [] vs ws e = refl
rooted-injective [] (q ∷ qs) vs ws e = absurd (ground arith)
rooted-injective (p ∷ ps) [] vs ws e = absurd (ground arith)
rooted-injective (p ∷ ps) (q ∷ qs) (v, vs) (w, ws) e =
    sym (split_on-rooted b'/' p ps v vs)
    ∙ ap (split_on b'/') (tail_eq e)
    ∙ split_on-rooted b'/' q qs w ws

-- Endpoints with one key are the same up to the names of placeholders.
pub normalized_key-SameEndpoint :
    (a b key : Bytes) → normalized_key a ≡ ok key → normalized_key b ≡ ok key → SameEndpoint a b
unfolding normalized_key
normalized_key-SameEndpoint a b key h k = elim (Result-cases (split_endpoint a)) [
  | inr (x, bad) ↦ absurd (ground arith)
  | inl (as', p) ↦ elim (Result-cases (split_endpoint b)) [
    | inr (x, bad) ↦ absurd (ground arith)
    | inl (bs, q) ↦
        let vs = ((split_endpoint_iff a as').0 p).1.named in
        let ws = ((split_endpoint_iff b bs).0 q).1.named in
        let keys : normalize_endpoint as' ≡ normalize_endpoint bs = ground arith in
        let texts : map text as' ≡ map text bs =
          rooted-injective _ _ (All-text-no_slash as' vs) (All-text-no_slash bs ws)
            (sym (normalize_endpoint-rooted as') ∙ keys ∙ normalize_endpoint-rooted bs) in
        record {
          levels = as';
          levels' = bs;
          parsed = p;
          parsed' = q;
          same = levels_of as' bs vs ws texts;
        }
  ]
]
