-- ===== src/Schema/Compile/Meaning.antt =====
-- What a compiled interface answers to a path: the mapping whose endpoint the path fits.
use astrate.Base.{
  ◌≡◌, sym, ◌∙◌, ◌↔◌, inl, inr, true, false, Option, some, List, [], ◌∷◌, arith, Option-cases, All,
  Any, Any-map, ok, err, Result-cases, ok_injective, Bytes, split_on,
}
use astrate.Schema.Definition.{Mapping, Interface, CompiledMapping}
use astrate.Schema.Endpoint.{Segment, EndpointError, split_endpoint}
use astrate.Schema.Unique.{Parsed}
use astrate.Schema.Unique.Laws.{NoOverlap, overlap, overlap-fits_all, overlap_comm}
use astrate.Schema.Trie.{match}
use astrate.Schema.Trie.Meaning.{fits_all, match_sound_complete}
use astrate.Schema.Compile.{Resolver, CompiledInterface, compile}
use astrate.Schema.Compile.Laws.{none-some, CompilesTo, stored-compile}

-- The mappings with their patterns, as `buildInterface` pairs them.
unfoldable pub patterns : List Mapping → List Parsed
patterns [] = []
patterns (m ∷ ms) = elim (split_endpoint m.endpoint) [
  | ok segs ↦ (m, segs) ∷ patterns ms
  | err _ ↦ patterns ms
]

pub patterns-cons :
    (m : Mapping) (ms : List Mapping) (segs : List Segment)
    → split_endpoint m.endpoint ≡ ok segs
    → patterns (m ∷ ms) ≡ (m, segs) ∷ patterns ms
unfolding patterns
patterns-cons m ms segs e = ground arith

patterns-skip :
    (m : Mapping) (ms : List Mapping) (x : EndpointError)
    → split_endpoint m.endpoint ≡ err x
    → patterns (m ∷ ms) ≡ patterns ms
unfolding patterns
patterns-skip m ms x e = ground arith

abbrev HasPattern : List Segment → List Mapping → Type 0
HasPattern segs ms = Any (λ m. split_endpoint m.endpoint ≡ ok segs) ms

row-HasPattern :
    (a b : List Segment) (ms : List Mapping)
    → All (λ p. overlap a p.1 ≡ false) (patterns ms)
    → HasPattern b ms
    → overlap a b ≡ false
row-HasPattern a b [] free h = elim h [ ]
row-HasPattern a b (m ∷ ms) free (inl e) = (rw (patterns-cons m ms b e) at free).0
row-HasPattern a b (m ∷ ms) free (inr h) = elim (Result-cases (split_endpoint m.endpoint)) [
  | inl (segs, e) ↦ row-HasPattern a b ms (rw (patterns-cons m ms segs e) at free).1 h
  | inr (x, e) ↦ row-HasPattern a b ms (rw (patterns-skip m ms x e) at free) h
]

-- Where no endpoints overlap, overlapping patterns are one pattern.
pub NoOverlap-same :
    (a b : List Segment) (ms : List Mapping)
    → NoOverlap (patterns ms)
    → HasPattern a ms
    → HasPattern b ms
    → overlap a b ≡ true
    → a ≡ b
NoOverlap-same a b [] free h k o = elim h [ ]
NoOverlap-same a b (m ∷ ms) free (inl e) (inl f) o = ok_injective (sym e ∙ f)
NoOverlap-same a b (m ∷ ms) free (inl e) (inr k) o =
    let no = row-HasPattern a b ms (rw (patterns-cons m ms a e) at free).0 k in cc
NoOverlap-same a b (m ∷ ms) free (inr h) (inl f) o =
    let no = row-HasPattern b a ms (rw (patterns-cons m ms b f) at free).0 h in
    ground (arith, overlap_comm a b)
NoOverlap-same a b (m ∷ ms) free (inr h) (inr k) o =
    elim (Result-cases (split_endpoint m.endpoint)) [
      | inl (segs, e) ↦ NoOverlap-same a b ms (rw (patterns-cons m ms segs e) at free).1 h k o
      | inr (x, e) ↦ NoOverlap-same a b ms (rw (patterns-skip m ms x e) at free) h k o
    ]

-- `m` serves the path behind a slash with `cm`: its endpoint fits the levels, and it compiles to `cm`.
pub record Serves (ids : Option Resolver) (rest : Bytes) (cm : CompiledMapping) (m : Mapping)
    : Type 0 where
  pub segs : List Segment
  pub compiles : CompilesTo ids m segs cm
  pub fitting : fits_all segs (split_on b'/' rest) ≡ true

some-Serves :
    (ids : Option Resolver) (rest : Bytes) (cm : CompiledMapping) (segs : List Segment)
    (ms : List Mapping)
    → fits_all segs (split_on b'/' rest) ≡ true
    → Any (λ m. CompilesTo ids m segs cm) ms
    → Any (Serves ids rest cm) ms
some-Serves ids rest cm segs ms f h =
    Any-map (λ m. CompilesTo ids m segs cm) (Serves ids rest cm) ms
      (λ m c. record { segs = segs; compiles = c; fitting = f }) h

serving :
    (ids : Option Resolver) (rest : Bytes) (cm : CompiledMapping) (ms : List Mapping)
    → Any (Serves ids rest cm) ms
    → (segs : List Segment) × (fits_all segs (split_on b'/' rest) ≡ true)
      × Any (λ m. CompilesTo ids m segs cm) ms
serving ids rest cm [] h = elim h [ ]
serving ids rest cm (m ∷ ms) (inl s) = (s.segs, s.fitting, inl s.compiles)
serving ids rest cm (m ∷ ms) (inr h) =
    let (segs, f, a) = serving ids rest cm ms h in (segs, f, inr a)

has_pattern :
    (ids : Option Resolver) (segs : List Segment) (cm : CompiledMapping) (ms : List Mapping)
    → Any (λ m. CompilesTo ids m segs cm) ms
    → HasPattern segs ms
has_pattern ids segs cm ms h =
    Any-map (λ m. CompilesTo ids m segs cm) (λ m. split_endpoint m.endpoint ≡ ok segs) ms
      (λ m c. c.pattern) h

-- For a compiled interface no two of whose endpoints overlap, `Match` on a path that begins with a
-- slash answers `cm` exactly if some mapping of the interface has an endpoint that fits the path and
-- compiles to `cm`. So the answer does not depend on the order of the mappings or of the search.
pub match-compile_iff :
    (iface : Interface) (ids : Option Resolver) (ci : CompiledInterface) (rest : Bytes)
    (cm : CompiledMapping)
    → compile (some iface) ids ≡ ok ci
    → NoOverlap (patterns iface.mappings)
    → (match (some ci.trie) (b'/' ∷ rest) ≡ some cm) ↔ Any (Serves ids rest cm) iface.mappings
match-compile_iff iface ids ci rest cm compiled free =
    let (sound, complete) = match_sound_complete ci.trie rest in
    (
      λ found.
          let (segs, f, there) = sound cm found in
          some-Serves ids rest cm segs iface.mappings f
            ((stored-compile iface ids ci segs cm compiled).0 there),
      λ served.
          let (segs, f, a) = serving ids rest cm iface.mappings served in
          let there = (stored-compile iface ids ci segs cm compiled).1 a in
          elim (Option-cases (match (some ci.trie) (b'/' ∷ rest))) [
            | inl e ↦ absurd (complete segs f (λ z. none-some z there) e)
            | inr (cm', e) ↦
                let (segs', f', there') = sound cm' e in
                let a' = (stored-compile iface ids ci segs' cm' compiled).0 there' in
                let same =
                  NoOverlap-same segs' segs iface.mappings free
                    (has_pattern ids segs' cm' iface.mappings a')
                    (has_pattern ids segs cm iface.mappings a)
                    (overlap-fits_all segs' segs (split_on b'/' rest) f' f) in
                e ∙ sym (rw same at there') ∙ there
          ],
    )
