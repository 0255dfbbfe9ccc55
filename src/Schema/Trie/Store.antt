-- ===== src/Schema/Trie/Store.antt =====
-- The trie as a map from patterns to mappings: what `Add` changes, and what it leaves alone.
use astrate.Base.{
  ◌≡◌, refl, sym, ap, ap₂, ◌∙◌, ◌↔◌, inl, inr, Bool, true, false, ◌&&◌, Option, none, some, List,
  [], ◌∷◌, arith, if◌then◌else◌, Bool-cases, Option-cases, ok, Result-cases, Bytes, eq_bytes,
  eq_bytes_self, eq_bytes_iff,
}
use astrate.Schema.Definition.{CompiledMapping}
use astrate.Schema.Endpoint.{Segment, split_endpoint, eq_segment}
use astrate.Schema.Trie.{
  Node, node, Kids, nil, kid, Param, no_param, param, empty_node, mapping_of, lookup_kid, set_kid,
  TrieError, Added, or_empty, add_param, add_literal, add_mapping, add_levels, add,
}

unfoldable pub eq_segments : List Segment → List Segment → Bool
eq_segments [] [] = true
eq_segments (s ∷ ss) (r ∷ rs) = eq_segment s r && eq_segments ss rs
eq_segments _ _ = false

abbrev param_child : Bytes → Param → Option Node
param_child name no_param = none
param_child name (param n c) = if eq_bytes n name then some c else none

-- The child that a level of a pattern leads to.
unfoldable pub child : Segment → Node → Option Node
child s (node kids par mapping) =
    if s.param then param_child s.literal par else lookup_kid s.literal kids

-- What the trie stores under a pattern.
unfoldable pub stored : List Segment → Node → Option CompiledMapping
stored [] t = mapping_of t
stored (s ∷ ss) t = elim (child s t) [ none ↦ none | some c ↦ stored ss c ]

pub stored-empty_node : (ss : List Segment) → stored ss empty_node ≡ none
unfolding stored child lookup_kid
stored-empty_node [] = refl
stored-empty_node (s ∷ ss) = ground arith

pub lookup_kid-set_kid :
    (key other : Bytes) (c : Node) (kids : Kids)
    → lookup_kid other (set_kid key c kids)
      ≡ (if eq_bytes key other then some c else lookup_kid other kids)
unfolding lookup_kid set_kid
lookup_kid-set_kid key other c nil = refl
lookup_kid-set_kid key other c (kid k t kids) = ground (
  arith,
  eq_bytes_iff k key,
  eq_bytes_iff k other,
  eq_bytes_iff key other,
  lookup_kid-set_kid key other c kids,
)

set_kid-same :
    (key : Bytes) (c : Node) (kids : Kids)
    → lookup_kid key kids ≡ some c
    → set_kid key c kids ≡ kids
unfolding lookup_kid set_kid
set_kid-same key c nil h = cc
set_kid-same key c (kid k t kids) h = ground (arith, set_kid-same key c kids)

abbrev add_level : Segment → Node → (Node → Added) → Added
add_level s t next = if s.param then add_param s.literal t next else add_literal s.literal t next

add_level-below :
    (s : Segment) (t : Node) (next : Node → Added)
    → (add_level s t next).1 ≡ none
    → (next (or_empty (child s t))).1 ≡ none
unfolding add_param add_literal child
add_level-below s (node kids no_param mapping) next done = ground arith
add_level-below s (node kids (param n c) mapping) next done = ground arith

mapping_of-add_level :
    (s : Segment) (t : Node) (next : Node → Added)
    → mapping_of (add_level s t next).0 ≡ mapping_of t
unfolding add_param add_literal
mapping_of-add_level s (node kids no_param mapping) next = ground arith
mapping_of-add_level s (node kids (param n c) mapping) next = ground arith

child-add_level :
    (s : Segment) (t : Node) (next : Node → Added) (r : Segment)
    → (add_level s t next).1 ≡ none
    → child r (add_level s t next).0
      ≡ (if eq_segment s r then some (next (or_empty (child s t))).0 else child r t)
unfolding add_param add_literal child eq_segment
child-add_level s (node kids no_param mapping) next r done = ground (
  arith,
  lookup_kid-set_kid s.literal r.literal (next (or_empty (lookup_kid s.literal kids))).0 kids,
)
child-add_level s (node kids (param n c) mapping) next r done = ground (
  arith,
  eq_bytes_iff n s.literal,
  eq_bytes_iff n r.literal,
  eq_bytes_iff s.literal r.literal,
  lookup_kid-set_kid s.literal r.literal (next (or_empty (lookup_kid s.literal kids))).0 kids,
)

-- A level that fails leaves its node alone, if what is below does so and does not fail at a new node.
add_level-failed :
    (s : Segment) (t : Node) (next : Node → Added) (e : TrieError)
    → ((c : Node) → (next c).1 ≡ some e → (next c).0 ≡ c)
    → (next empty_node).1 ≡ none
    → (add_level s t next).1 ≡ some e
    → (add_level s t next).0 ≡ t
unfolding add_param add_literal
add_level-failed s (node kids no_param mapping) next e keep fresh failed =
    elim (Option-cases (lookup_kid s.literal kids)) [
      | inl new ↦ ground arith
      | inr (c, old) ↦ ground (arith, keep c, set_kid-same s.literal c kids old)
    ]
add_level-failed s (node kids (param n c) mapping) next e keep fresh failed =
    elim (Option-cases (lookup_kid s.literal kids)) [
      | inl new ↦ ground (arith, keep c)
      | inr (d, old) ↦ ground (arith, keep c, keep d, set_kid-same s.literal d kids old)
    ]

add_levels-fresh : (ss : List Segment) (m : CompiledMapping) → (add_levels ss m empty_node).1 ≡ none
unfolding add_levels add_mapping add_param add_literal lookup_kid
add_levels-fresh [] m = refl
add_levels-fresh (s ∷ ss) m = ground (arith, add_levels-fresh ss m)

add_levels-failed :
    (ss : List Segment) (m : CompiledMapping) (t : Node) (e : TrieError)
    → (add_levels ss m t).1 ≡ some e
    → (add_levels ss m t).0 ≡ t
unfolding add_levels
add_levels-failed [] m (node kids par none) e failed = unfold add_mapping in ground arith
add_levels-failed [] m (node kids par (some old)) e failed = unfold add_mapping in refl
add_levels-failed (s ∷ ss) m t e failed =
    add_level-failed s t (add_levels ss m) e (λ c. add_levels-failed ss m c e)
      (add_levels-fresh ss m) failed

stored-or_empty :
    (s : Segment) (rs : List Segment) (t : Node)
    → stored rs (or_empty (child s t)) ≡ stored (s ∷ rs) t
unfolding stored
stored-or_empty s rs t = elim (Option-cases (child s t)) [
  | inl e ↦ ground (arith, stored-empty_node rs)
  | inr (c, e) ↦ ground arith
]

pub eq_segment_iff : (s r : Segment) → (eq_segment s r ≡ true) ↔ (s ≡ r)
unfolding eq_segment
eq_segment_iff s r = (
  λ h. ground (arith, eq_bytes_iff s.literal r.literal),
  λ e. rw e (ground (arith, eq_bytes_self r.literal)),
)

stored-add_level :
    (s : Segment) (ss : List Segment) (t : Node) (r : Segment) (rs : List Segment)
    (m : CompiledMapping) (next : Node → Added)
    → child r (add_level s t next).0
      ≡ (if eq_segment s r then some (next (or_empty (child s t))).0 else child r t)
    → stored rs (next (or_empty (child s t))).0
      ≡ (if eq_segments ss rs then some m else stored rs (or_empty (child s t)))
    → stored (r ∷ rs) (add_level s t next).0
      ≡ (if eq_segment s r && eq_segments ss rs then some m else stored (r ∷ rs) t)
unfolding stored
stored-add_level s ss t r rs m next step ih = elim (Bool-cases (eq_segment s r)) [
  | inl same ↦
      let is : s ≡ r = (eq_segment_iff s r).0 same in
      let there : child r t ≡ child s t = ap (λ x. child x t) (sym is) in
      ground (arith, stored-or_empty s rs t)
  | inr other ↦ ground arith
]

-- A success stores the mapping under the pattern, and nothing else changes.
pub stored-add_levels :
    (ss : List Segment) (m : CompiledMapping) (t : Node) (rs : List Segment)
    → (add_levels ss m t).1 ≡ none
    → stored rs (add_levels ss m t).0 ≡ (if eq_segments ss rs then some m else stored rs t)
unfolding add_levels eq_segments
stored-add_levels [] m (node kids par none) [] done = unfold add_mapping stored in refl
stored-add_levels [] m (node kids par none) (r ∷ rs) done = unfold add_mapping stored child in refl
stored-add_levels [] m (node kids par (some old)) rs done = unfold add_mapping in cc
stored-add_levels (s ∷ ss) m t [] done = unfold stored in mapping_of-add_level s t (add_levels ss m)
stored-add_levels (s ∷ ss) m t (r ∷ rs) done =
    let below = add_level-below s t (add_levels ss m) done in
    let ih = stored-add_levels ss m (or_empty (child s t)) rs below in
    stored-add_level s ss t r rs m (add_levels ss m) (child-add_level s t (add_levels ss m) r done)
      ih

stored-fresh :
    (ss : List Segment) (m : CompiledMapping) (t : Node)
    → (add_levels ss m t).1 ≡ none
    → stored ss t ≡ none
unfolding add_levels
stored-fresh [] m (node kids par none) done = unfold stored in refl
stored-fresh [] m (node kids par (some old)) done = unfold add_mapping in cc
stored-fresh (s ∷ ss) m t done =
    sym (stored-or_empty s ss t)
    ∙ stored-fresh ss m (or_empty (child s t)) (add_level-below s t (add_levels ss m) done)

-- `Add` leaves the trie as it was whenever it returns an error: nothing of a rejected endpoint
-- stays behind.
pub add-failed :
    (t : Node) (endpoint : Bytes) (m : Option CompiledMapping) (e : TrieError)
    → (add t endpoint m).1 ≡ some e
    → (add t endpoint m).0 ≡ t
unfolding add
add-failed t endpoint none e failed = refl
add-failed t endpoint (some m) e failed = elim (Result-cases (split_endpoint endpoint)) [
  | inl (segs, split) ↦ ground (arith, add_levels-failed segs m t e)
  | inr (x, bad) ↦ ground arith
]

-- When `Add` returns no error, the endpoint is a well-formed pattern under which nothing was stored
-- before; afterwards the mapping is stored under it, and under every other pattern what was.
pub stored-add :
    (t : Node) (endpoint : Bytes) (m : CompiledMapping)
    → (add t endpoint (some m)).1 ≡ none
    → (segs : List Segment) × (split_endpoint endpoint ≡ ok segs)
      × (stored segs t ≡ none)
      × ((rs : List Segment)
          → stored rs (add t endpoint (some m)).0
            ≡ (if eq_segments segs rs then some m else stored rs t))
unfolding add
stored-add t endpoint m done = elim (Result-cases (split_endpoint endpoint)) [
  | inl (segs, split) ↦
      let ok_levels : (add_levels segs m t).1 ≡ none = ground arith in
      let same : add t endpoint (some m) ≡ add_levels segs m t = ground arith in
      (
        segs,
        split,
        stored-fresh segs m t ok_levels,
        λ rs. ap (λ (x : Added). stored rs x.0) same ∙ stored-add_levels segs m t rs ok_levels,
      )
  | inr (x, bad) ↦ absurd (ground arith)
]

pub eq_segments_iff : (ss rs : List Segment) → (eq_segments ss rs ≡ true) ↔ (ss ≡ rs)
unfolding eq_segments
eq_segments_iff [] [] = (λ _. refl, λ _. refl)
eq_segments_iff [] (r ∷ rs) = (λ h. cc, λ h. cc)
eq_segments_iff (s ∷ ss) [] = (λ h. cc, λ h. cc)
eq_segments_iff (s ∷ ss) (r ∷ rs) =
    let (same, from_same) = eq_segment_iff s r in
    let (sames, from_sames) = eq_segments_iff ss rs in
    (
      λ h. ap₂ ◌∷◌ (same (ground arith)) (sames (ground arith)),
      λ e. ground (arith, eq_segment_iff s r, eq_segments_iff ss rs),
    )
