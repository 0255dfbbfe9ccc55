-- ===== src/Schema/Trie.antt =====
-- pkg/interfaceschema/trie.go: the endpoint trie.
-- A map of children is an association list in which a key stands once; the placeholder child and its
-- name are one field. `Add` returns the trie that it leaves behind, and the error, if any.
pub mod Store
pub mod Search
pub mod Meaning
use astrate.Base.{
  ℕ, zero, suc, ◌+◌, ◌-◌, Bool, false, ◌&&◌, not, Option, none, some, List, [], ◌∷◌, map, ltb, ◌==◌,
  if◌then◌else◌, length, any, is_empty, ok, err, Bytes, eq_bytes, contains_byte, cut,
}
use astrate.Schema.Definition.{CompiledMapping}
use astrate.Schema.Endpoint.{Segment, EndpointError, split_endpoint}

mutual
  -- `trieNode`.
  pub data Node : Type 0 where
    node : Kids → Param → Option CompiledMapping → Node

  pub data Kids : Type 0 where
    nil : Kids
    kid : Bytes → Node → Kids → Kids

  pub data Param : Type 0 where
    no_param : Param
    param : Bytes → Node → Param

abbrev pub empty_node : Node
empty_node = node nil no_param none

abbrev pub mapping_of : Node → Option CompiledMapping
mapping_of (node kids par mapping) = mapping

-- `n.children[seg]`.
unfoldable pub lookup_kid : Bytes → Kids → Option Node
lookup_kid key nil = none
lookup_kid key (kid k t kids) = if eq_bytes k key then some t else lookup_kid key kids

-- `node.children[seg] = child`.
unfoldable pub set_kid : Bytes → Node → Kids → Kids
set_kid key c nil = kid key c nil
set_kid key c (kid k t kids) = if eq_bytes k key then kid k c kids else kid k t (set_kid key c kids)

-- `bad_endpoint` wraps the error of `splitEndpoint`.
pub data TrieError : Type 0 where
  nil_mapping conflicting_placeholder duplicate_endpoint : TrieError
  bad_endpoint : EndpointError → TrieError

abbrev pub Added : Type 0
Added = Node × Option TrieError

abbrev pub or_empty : Option Node → Node
or_empty none = empty_node
or_empty (some t) = t

-- One level of `Add`, with the levels below as a function: a placeholder level, then a literal one.
unfoldable pub add_param : Bytes → Node → (Node → Added) → Added
add_param name (node kids no_param mapping) next =
    let r = next empty_node in (node kids (param name r.0) mapping, r.1)
add_param name (node kids (param n c) mapping) next =
    let r = next c in
    if eq_bytes n name
    then (node kids (param n r.0) mapping, r.1)
    else (node kids (param n c) mapping, some conflicting_placeholder)

unfoldable pub add_literal : Bytes → Node → (Node → Added) → Added
add_literal key (node kids par mapping) next =
    let r = next (or_empty (lookup_kid key kids)) in (node (set_kid key r.0 kids) par mapping, r.1)

-- The end of the pattern: `node.mapping = m`, unless it is set.
unfoldable pub add_mapping : CompiledMapping → Node → Added
add_mapping m (node kids par none) = (node kids par (some m), none)
add_mapping m (node kids par (some old)) = (node kids par (some old), some duplicate_endpoint)

-- The loop of `Add`.
unfoldable pub add_levels : List Segment → CompiledMapping → Node → Added
add_levels [] m t = add_mapping m t
add_levels (seg ∷ segs) m t =
    if seg.param
    then add_param seg.literal t (add_levels segs m)
    else add_literal seg.literal t (add_levels segs m)

-- `Add`; the mapping may be nil.
unfoldable pub add : Node → Bytes → Option CompiledMapping → Added
add t endpoint none = (t, some nil_mapping)
add t endpoint (some m) = elim (split_endpoint endpoint) [
  | ok segs ↦ add_levels segs m t
  | err e ↦ (t, some (bad_endpoint e))
]

abbrev pub max_placeholder_value_len : ℕ
max_placeholder_value_len = 256

unfoldable pub placeholder_value_ok : Bytes → Bool
placeholder_value_ok seg =
    if ltb max_placeholder_value_len (length seg)
    then false
    else not (contains_byte b'+' seg) && not (contains_byte b'#' seg)

-- What lies below the literal child for `seg`, and below the placeholder child if it takes `seg`.
unfoldable pub below_literal :
    Bytes → Node → (Node → Option CompiledMapping) → Option CompiledMapping
below_literal seg (node kids par mapping) next = elim (lookup_kid seg kids) [
  | none ↦ none
  | some child ↦ next child
]

unfoldable pub below_param : Bytes → Node → (Node → Option CompiledMapping) → Option CompiledMapping
below_param seg (node kids no_param mapping) next = none
below_param seg (node kids (param n child) mapping) next =
    if placeholder_value_ok seg then next child else none

-- One level of `matchNode`: an empty segment fails, a literal child comes first, and where it leads
-- nowhere the placeholder child is tried.
unfoldable pub match_level : Bytes → Node → (Node → Option CompiledMapping) → Option CompiledMapping
match_level seg t next =
    if is_empty seg
    then none
    else elim (below_literal seg t next) [ some m ↦ some m | none ↦ below_param seg t next ]

-- `matchNode`: the last level reads the mapping, any other goes on with the text behind the slash.
unfoldable pub match_node : ℕ → Node → Bytes → Option CompiledMapping
match_node zero t rest = none
match_node (suc fuel) t rest = elim (cut b'/' rest) [
  | none ↦ match_level rest t mapping_of
  | some (seg, tail) ↦ match_level seg t (λ child. match_node fuel child tail)
]

abbrev match_rooted : Node → Bytes → Option CompiledMapping
match_rooted t [] = none
match_rooted t (c ∷ rest) = if c == b'/' then match_node (suc (length rest)) t rest else none

-- `Match`; the receiver may be nil. Each round takes a byte at least, so the length is fuel enough.
unfoldable pub match : Option Node → Bytes → Option CompiledMapping
match none path = none
match (some t) path = if ltb (length path) 2 then none else match_rooted t path
