-- ===== src/Schema/Compile/Laws.antt =====
-- What the compiled trie stores: the mappings of the interface, each under its own pattern.
use astrate.Base.{
  ◌≡◌, sym, ap, ◌∙◌, ◌↔◌, ◌⊎◌, inl, inr, false, Option, none, some, List, [], ◌∷◌, arith,
  if◌then◌else◌, Bool-cases, Option-cases, Any, Result, ok, >>=-eq-ok, ok_injective, Bytes, ℤ,
}
use astrate.Schema.Definition.{Mapping, Interface, CompiledMapping}
use astrate.Schema.Endpoint.{Segment, EndpointError, split_endpoint}
use astrate.Schema.Trie.{Node, empty_node, add}
use astrate.Schema.Trie.Store.{stored, stored-add, stored-empty_node, eq_segments, eq_segments_iff}
use astrate.Schema.Compile.{
  Resolver, Leaves, CompiledInterface, compile_mapping, endpoint_id, interface_id, add_or_fail,
  add_leaf, compile_mappings, first_leaves, compile_interface, compile,
}

-- `m` has the pattern `segs` and compiles to `cm`.
pub record CompilesTo (ids : Option Resolver) (m : Mapping) (segs : List Segment)
    (cm : CompiledMapping) : Type 0 where
  pub pattern : split_endpoint m.endpoint ≡ ok segs
  pub id : ℤ
  pub identified : endpoint_id ids m.endpoint ≡ ok id
  pub compiled : cm ≡ compile_mapping m id

-- One mapping is added: its pattern is new, and the trie gains it and nothing else.
add_or_fail_lem :
    (t t' : Node) (endpoint : Bytes) (cm : CompiledMapping)
    → add_or_fail t endpoint cm ≡ ok t'
    → (segs : List Segment) × (split_endpoint endpoint ≡ ok segs)
      × (stored segs t ≡ none)
      × ((rs : List Segment)
          → stored rs t' ≡ (if eq_segments segs rs then some cm else stored rs t))
unfolding add_or_fail
add_or_fail_lem t t' endpoint cm h = elim (Option-cases (add t endpoint (some cm)).1) [
  | inr (e, bad) ↦ absurd (ground arith)
  | inl good ↦
      let same : (add t endpoint (some cm)).0 ≡ t' = ground arith in
      rw same at (stored-add t endpoint cm good)
]

pub none-some : {A : Type 0} {o : Option A} {a : A} → o ≡ none → o ≡ some a → ⊥
none-some p q = cc

same_compiled :
    (ids : Option Resolver) (m : Mapping) (id : ℤ) (rs : List Segment) (cm : CompiledMapping)
    → endpoint_id ids m.endpoint ≡ ok id
    → CompilesTo ids m rs cm
    → compile_mapping m id ≡ cm
same_compiled ids m id rs cm identified c =
    let same : id ≡ c.id = ok_injective (sym identified ∙ c.identified) in
    ap (compile_mapping m) same ∙ sym c.compiled

other_pattern :
    (segs rs : List Segment)
    → ◌≡◌ {A = Result EndpointError (List Segment)} (ok segs) (ok rs)
    → eq_segments segs rs ≡ false
    → ⊥
other_pattern segs rs e n = let same = (eq_segments_iff segs rs).1 (ok_injective e) in cc

stored-step :
    (ids : Option Resolver) (m : Mapping) (id : ℤ) (t t' : Node) (rs : List Segment)
    (cm : CompiledMapping)
    → endpoint_id ids m.endpoint ≡ ok id
    → add_or_fail t m.endpoint (compile_mapping m id) ≡ ok t'
    → (stored rs t' ≡ some cm) ↔ ((stored rs t ≡ some cm) ⊎ CompilesTo ids m rs cm)
stored-step ids m id t t' rs cm identified added =
    let (segs, pattern, fresh, after) =
      add_or_fail_lem t t' m.endpoint (compile_mapping m id) added in
    elim (Bool-cases (eq_segments segs rs)) [
      | inl e ↦
          let is : segs ≡ rs = (eq_segments_iff segs rs).0 e in
          let new : stored rs t' ≡ some (compile_mapping m id) = ground (arith, after rs) in
          (
            λ h. inr (record {
              pattern = rw (← is) pattern;
              id = id;
              identified = identified;
              compiled = ground arith;
            }),
            elim [
              | inl old ↦ absurd (none-some (rw is at fresh) old)
              | inr c ↦ new ∙ ap some (same_compiled ids m id rs cm identified c)
            ],
          )
      | inr n ↦
          let kept : stored rs t' ≡ stored rs t = ground (arith, after rs) in
          (
            λ h. inl (sym kept ∙ h),
            elim [
              | inl old ↦ kept ∙ old
              | inr c ↦ absurd (other_pattern segs rs (sym pattern ∙ c.pattern) n)
            ],
          )
    ]

regroup : {A B C D E : Type 0} → A ↔ (B ⊎ C) → B ↔ (D ⊎ E) → A ↔ (D ⊎ (E ⊎ C))
regroup (f, g) (h, k) = (
  λ a. elim (f a) [
    | inl b ↦ elim (h b) [ inl d ↦ inl d | inr e ↦ inr (inl e) ]
    | inr c ↦ inr (inr c)
  ],
  elim [
    | inl d ↦ g (inl (k (inl d)))
    | inr x ↦ elim x [ inl e ↦ g (inl (k (inr e))) | inr c ↦ g (inr c) ]
  ],
)

pub stored-compile_mappings :
    (ids : Option Resolver) (ms : List Mapping) (t : Node) (leaves : Option Leaves) (t' : Node)
    (leaves' : Option Leaves) (rs : List Segment) (cm : CompiledMapping)
    → compile_mappings ids ms t leaves ≡ ok (t', leaves')
    → (stored rs t' ≡ some cm) ↔ ((stored rs t ≡ some cm) ⊎ Any (λ m. CompilesTo ids m rs cm) ms)
unfolding compile_mappings
stored-compile_mappings ids [] t leaves t' leaves' rs cm h =
    let same : t ≡ t' = ground arith in rw same (inl, elim [ inl e ↦ e | inr r ↦ elim r [ ] ])
stored-compile_mappings ids (m ∷ ms) t leaves t' leaves' rs cm h =
    let (id, identified, h1) = >>=-eq-ok (endpoint_id ids m.endpoint) _ h in
    let (t1, added, h2) = >>=-eq-ok (add_or_fail t m.endpoint (compile_mapping m id)) _ h1 in
    let (l1, leafed, h3) = >>=-eq-ok (add_leaf m.endpoint (compile_mapping m id) leaves) _ h2 in
    let ih = stored-compile_mappings ids ms t1 l1 t' leaves' rs cm h3 in
    let step = stored-step ids m id t t1 rs cm identified added in regroup ih step

-- The compiled trie stores a mapping under a pattern exactly if a mapping of the interface has that
-- pattern and compiles to it.
pub stored-compile :
    (iface : Interface) (ids : Option Resolver) (ci : CompiledInterface) (rs : List Segment)
    (cm : CompiledMapping)
    → compile (some iface) ids ≡ ok ci
    → (stored rs ci.trie ≡ some cm) ↔ Any (λ m. CompilesTo ids m rs cm) iface.mappings
unfolding compile compile_interface
stored-compile iface ids ci rs cm h =
    let (id, named, h1) = >>=-eq-ok (interface_id ids iface) _ h in
    let ((t, leaves), looped, h2) =
      >>=-eq-ok (compile_mappings ids iface.mappings empty_node (first_leaves iface.aggregation)) _
        h1 in
    let same : t ≡ ci.trie = ground arith in
    let (f, g) =
      stored-compile_mappings ids iface.mappings empty_node (first_leaves iface.aggregation) t
        leaves rs cm looped in
    rw (← same) (
      λ e. elim (f e) [ inl old ↦ absurd (none-some (stored-empty_node rs) old) | inr a ↦ a ],
      λ a. g (inr a),
    )
