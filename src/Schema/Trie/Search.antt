-- ===== src/Schema/Trie/Search.antt =====
-- `matchNode` reads its path as the list of its levels.
use astrate.Base.{
  ℕ, zero, suc, ◌<◌, ◌≡◌, ap, inl, inr, Option, none, some, List, [], ◌∷◌, arith, ◌==◌,
  if◌then◌else◌, Option-cases, length, Bytes, cut, split_on, split_on-cut-none, split_on-cut-some,
  length-cut,
}
use mathlib.Core.Path.{fun_ext}
use astrate.Schema.Definition.{CompiledMapping}
use astrate.Schema.Trie.{Node, mapping_of, match_level, match_node, match}

-- The search over a list of levels.
unfoldable pub match_levels : List Bytes → Node → Option CompiledMapping
match_levels [] t = mapping_of t
match_levels (p ∷ ps) t = match_level p t (match_levels ps)

match_node-eq :
    (fuel : ℕ) (t : Node) (rest : Bytes)
    → length rest < fuel
    → match_node fuel t rest ≡ match_levels (split_on b'/' rest) t
unfolding match_node match_levels
match_node-eq zero t rest lt = elim lt [ ]
match_node-eq (suc fuel) t rest lt = elim (Option-cases (cut b'/' rest)) [
  | inl e ↦ rw (e, match_node, split_on-cut-none b'/' rest e)
  | inr ((a, b), e) ↦
      let shorter = length-cut b'/' rest a b e in
      rw (e, match_node, split_on-cut-some b'/' rest a b e)
        (ap (match_level a t) (fun_ext (λ c. match_node-eq fuel c b (omega (arith, shorter)))))
]

-- The fuel of `Match` is always enough: on a path that begins with a slash and goes on, it searches
-- for the levels between the slashes; on any other path of two bytes and more it finds nothing.
pub match_lem :
    (t : Node) (c d : ℕ) (rest : Bytes)
    → match (some t) (c ∷ d ∷ rest)
      ≡ (if c == b'/' then match_levels (split_on b'/' (d ∷ rest)) t else none)
unfolding match
match_lem t c d rest = ground (arith, match_node-eq (suc (length (d ∷ rest))) t (d ∷ rest))
