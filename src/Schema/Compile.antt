-- ===== src/Schema/Compile.antt =====
-- pkg/interfaceschema/compile.go: `Compile`, from a validated interface to its hot-path form.
-- The resolver of storage identifiers is a parameter; `none` is the nil resolver, and a `none` from
-- one of its methods the error that it returned.
pub mod Laws
pub mod Meaning
use astrate.Base.{
  ◌>>=◌, ◌>>◌, ◌+◌, ◌-◌, Bool, Option, none, some, List, [], ◌∷◌, ◌++◌, if◌then◌else◌, any, Result,
  ok, err, reject_if, Bytes, eq_bytes, ℤ, pos, duration_of_seconds,
}
use astrate.Schema.Types.{InterfaceType, Ownership, Aggregation, individual, object, qos}
use astrate.Schema.Definition.{Mapping, Interface, CompiledMapping}
use astrate.Schema.Endpoint.{Segment, EndpointError, split_endpoint}
use astrate.Schema.Trie.{Node, empty_node, TrieError, add}

-- `EndpointIDResolver`.
pub record Resolver : Type 0 where
  pub resolve_interface : Bytes → ℤ → Option ℤ
  pub resolve_endpoint : Bytes → Option ℤ

pub data CompileError : Type 0 where
  nil_interface unresolved_interface unresolved_endpoint : CompileError
  not_added : TrieError → CompileError
  bad_endpoint : EndpointError → CompileError
  parametric_leaf duplicate_leaf : CompileError

-- `ObjectLeaves`, in which a key stands once.
abbrev pub Leaves : Type 0
Leaves = List (Bytes × CompiledMapping)

pub record CompiledInterface : Type 0 where
  pub id : ℤ
  pub name : Bytes
  pub major : ℤ
  pub minor : ℤ
  pub type : InterfaceType
  pub ownership : Ownership
  pub aggregation : Aggregation
  pub trie : Node
  pub object_leaves : Option Leaves

-- The compiled form of one mapping, with its storage identifier.
unfoldable pub compile_mapping : Mapping → ℤ → CompiledMapping
compile_mapping m id = record {
  endpoint_id = id;
  value_type = m.type;
  reliability = qos m.reliability;
  retention = m.retention;
  expiry = duration_of_seconds m.expiry;
  explicit_timestamp = m.explicit_timestamp;
  allow_unset = m.allow_unset;
  db_retention_ttl = duration_of_seconds m.database_retention_ttl;
  required = m.required;
  encrypted = m.encrypted;
}

abbrev pub resolved : CompileError → Option ℤ → Result CompileError ℤ
resolved e none = err e
resolved e (some id) = ok id

-- The identifier of an endpoint; 0 with the nil resolver.
unfoldable pub endpoint_id : Option Resolver → Bytes → Result CompileError ℤ
endpoint_id none endpoint = ok (pos 0)
endpoint_id (some ids) endpoint = resolved unresolved_endpoint (ids.resolve_endpoint endpoint)

unfoldable pub interface_id : Option Resolver → Interface → Result CompileError ℤ
interface_id none iface = ok (pos 0)
interface_id (some ids) iface =
    resolved unresolved_interface (ids.resolve_interface iface.name iface.major)

unfoldable pub add_or_fail : Node → Bytes → CompiledMapping → Result CompileError Node
add_or_fail t endpoint cm =
    let r = add t endpoint (some cm) in elim r.1 [ none ↦ ok r.0 | some e ↦ err (not_added e) ]

-- segs[len(segs)-1]; `none` where there is no segment.
pub last_segment : List Segment → Option Segment
last_segment [] = none
last_segment (s ∷ []) = some s
last_segment (s ∷ r ∷ segs) = last_segment (r ∷ segs)

abbrev pub literal_or_fail : Option Segment → Result CompileError Bytes
literal_or_fail none = err parametric_leaf
literal_or_fail (some s) = if s.param then err parametric_leaf else ok s.literal

-- `lastLiteralSegment`.
pub last_literal_segment : Bytes → Result CompileError Bytes
last_literal_segment endpoint = elim (split_endpoint endpoint) [
  | err e ↦ err (bad_endpoint e)
  | ok segs ↦ literal_or_fail (last_segment segs)
]

pub has_leaf : Bytes → Leaves → Bool
has_leaf key leaves = any (λ l. eq_bytes l.0 key) leaves

unfoldable pub add_leaf :
    Bytes → CompiledMapping → Option Leaves → Result CompileError (Option Leaves)
add_leaf endpoint cm none = ok none
add_leaf endpoint cm (some leaves) = do
  key ← last_literal_segment endpoint
  reject_if (has_leaf key leaves) duplicate_leaf
  ok (some (leaves ++ (key, cm) ∷ []))

-- The loop over the mappings.
unfoldable pub compile_mappings :
    Option Resolver
    → List Mapping
    → Node
    → Option Leaves
    → Result CompileError (Node × Option Leaves)
compile_mappings ids [] t leaves = ok (t, leaves)
compile_mappings ids (m ∷ ms) t leaves = do
  id ← endpoint_id ids m.endpoint
  let cm = compile_mapping m id
  t' ← add_or_fail t m.endpoint cm
  leaves' ← add_leaf m.endpoint cm leaves
  compile_mappings ids ms t' leaves'

abbrev pub first_leaves : Aggregation → Option Leaves
first_leaves object = some []
first_leaves individual = none

unfoldable pub compile_interface :
    Interface → Option Resolver → Result CompileError CompiledInterface
compile_interface iface ids = do
  id ← interface_id ids iface
  r ← compile_mappings ids iface.mappings empty_node (first_leaves iface.aggregation)
  ok (record {
    id = id;
    name = iface.name;
    major = iface.major;
    minor = iface.minor;
    type = iface.type;
    ownership = iface.ownership;
    aggregation = iface.aggregation;
    trie = r.0;
    object_leaves = r.1;
  })

-- `Compile`; the interface may be nil.
unfoldable pub compile : Option Interface → Option Resolver → Result CompileError CompiledInterface
compile none ids = err nil_interface
compile (some iface) ids = compile_interface iface ids
