-- ===== src/Schema/Build/Whole/Loop.antt =====
-- What the loop over the mappings collects when it finds no violation.
use astrate.Base.{
  ℕ, suc, ◌≡◌, refl, ap, ◌∙◌, inl, inr, false, List, [], ◌∷◌, map, arith, length, All, ok,
  Result-cases,
}
use astrate.Schema.Types.{InterfaceType}
use astrate.Schema.Endpoint.{split_endpoint}
use astrate.Schema.Unique.{Parsed}
use astrate.Schema.Compile.Meaning.{patterns, patterns-cons}
use astrate.Schema.Build.Raw.{RawMapping, Violation}
use astrate.Schema.Build.Mapping.{build_mapping}
use astrate.Schema.Build.Mapping.Rules.{IsMapping, build_mapping-IsMapping}
use astrate.Schema.Build.Whole.{take_path, Collected, build_mappings}

abbrev pub IsPair : InterfaceType → Parsed → Type 0
IsPair type p = IsMapping type p.0 × (split_endpoint p.0.endpoint ≡ ok p.1)

pub record IsCollected (type : InterfaceType) (raws : List RawMapping) (c : Collected)
    : Type 0 where
  pub pairs : All (IsPair type) c.pairs
  pub count : length c.pairs ≡ length raws

pub build_mappings-IsCollected :
    (type : InterfaceType) (i : ℕ) (raws : List RawMapping) (vc : List Violation) (c : Collected)
    → build_mappings type i raws vc ≡ ok c
    → c.violations ≡ []
    → IsCollected type raws c × (vc ≡ [])
unfolding build_mappings
build_mappings-IsCollected type i [] vc c h e =
    let is : c ≡ record { raws = []; pairs = []; violations = vc; aliases = false } =
      ground arith in
    rw is (record { pairs = tt; count = refl }, rw is at e)
build_mappings-IsCollected type i (raw ∷ raws) vc c h e =
    elim (Result-cases (build_mapping (take_path raw).0 type i vc)) [
      | inr (x, bad) ↦ absurd (ground arith)
      | inl (b, built) ↦ elim (Result-cases (build_mappings type (suc i) raws b.violations)) [
        | inr (x, bad) ↦ absurd (ground arith)
        | inl (rest, looped) ↦
            let clean : rest.violations ≡ [] = ground arith in
            let ih = build_mappings-IsCollected type (suc i) raws b.violations rest looped clean in
            let one = build_mapping-IsMapping (take_path raw).0 type i vc b built ih.1 in
            let is : c.pairs ≡ (b.mapping, b.segments) ∷ rest.pairs = ground arith in
            (
              record {
                pairs = rw is ((one.0, one.1), ih.0.pairs);
                count = rw is (ap suc ih.0.count);
              },
              one.2,
            )
      ]
    ]

-- The pairs are the mappings with their patterns.
pub patterns-pairs :
    (type : InterfaceType) (ps : List Parsed)
    → All (IsPair type) ps
    → patterns (map (λ (p : Parsed). p.0) ps) ≡ ps
patterns-pairs type [] v = unfold patterns in refl
patterns-pairs type ((m, segs) ∷ ps) ((v, e), vs) =
    patterns-cons m (map (λ (p : Parsed). p.0) ps) segs e
    ∙ ap (◌∷◌ (m, segs)) (patterns-pairs type ps vs)

pub mappings-pairs :
    (type : InterfaceType) (ps : List Parsed)
    → All (IsPair type) ps
    → All (IsMapping type) (map (λ (p : Parsed). p.0) ps)
mappings-pairs type [] v = tt
mappings-pairs type (p ∷ ps) (v, vs) = (v.0, mappings-pairs type ps vs)

pub length-mappings : (ps : List Parsed) → length (map (λ (p : Parsed). p.0) ps) ≡ length ps
length-mappings [] = refl
length-mappings (p ∷ ps) = ap suc (length-mappings ps)
