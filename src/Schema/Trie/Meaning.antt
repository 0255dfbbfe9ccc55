-- ===== src/Schema/Trie/Meaning.antt =====
-- What a path means to a trie: a mapping is found exactly where a stored pattern fits the path.
use astrate.Base.{
  ◌==◌, ℕ, ◌≡◌, refl, sym, ◌∙◌, ◌≢◌, inl, inr, Bool, true, false, ◌&&◌, not, Option, none, some,
  List, [], ◌∷◌, arith, if◌then◌else◌, Option-cases, is_empty, Bytes, eq_bytes, eq_bytes_self,
  eq_bytes_iff, split_on, leb, all, length, contains_byte,
}
use astrate.Schema.Definition.{CompiledMapping}
use astrate.Schema.Endpoint.{Segment}
use astrate.Schema.Trie.{
  Node, node, no_param, param, lookup_kid, match_level, below_literal, below_param,
  placeholder_value_ok, match,
}
use astrate.Schema.Trie.Store.{child, stored}
use astrate.Schema.Trie.Search.{match_levels, match_lem}

-- The value of a placeholder: at most 256 bytes, none of them a wildcard of MQTT.
unfoldable pub is_value : Bytes → Bool
is_value p = leb (length p) 256 && all (λ c. not (c == b'+') && not (c == b'#')) p

no_wildcard :
    (p : Bytes)
    → (not (contains_byte b'+' p) && not (contains_byte b'#' p))
      ≡ all (λ c. not (c == b'+') && not (c == b'#')) p
unfolding contains_byte
no_wildcard [] = refl
no_wildcard (c ∷ p) = ground (arith, no_wildcard p)

-- The test of the source takes these values and no others.
pub placeholder_value_ok-is_value : (p : Bytes) → placeholder_value_ok p ≡ is_value p
unfolding placeholder_value_ok is_value
placeholder_value_ok-is_value p = ground (arith, no_wildcard p)

-- A level of a path fits a level of a pattern: it is the literal, or a value that the placeholder
-- takes; and it is not empty.
unfoldable pub fits : Segment → Bytes → Bool
fits s p = not (is_empty p) && (if s.param then is_value p else eq_bytes s.literal p)

unfoldable pub fits_all : List Segment → List Bytes → Bool
fits_all [] [] = true
fits_all (s ∷ ss) (p ∷ ps) = fits s p && fits_all ss ps
fits_all _ _ = false

-- A found mapping comes through some child that the level fits.
abbrev Through : Bytes → Node → (Node → Option CompiledMapping) → CompiledMapping → Type 0
Through p t next m =
    (s : Segment) × (c : Node) × (fits s p ≡ true) × (child s t ≡ some c) × (next c ≡ some m)

below_literal_sound :
    (x : ℕ) (p : Bytes) (t : Node) (next : Node → Option CompiledMapping) (m : CompiledMapping)
    → below_literal (x ∷ p) t next ≡ some m
    → Through (x ∷ p) t next m
unfolding below_literal fits child
below_literal_sound x p (node kids par mapping) next m h =
    elim (Option-cases (lookup_kid (x ∷ p) kids)) [
      | inr (c, e) ↦
          (record { literal = x ∷ p; param = false }, c, eq_bytes_self (x ∷ p), e, ground arith)
      | inl e ↦ absurd (ground arith)
    ]

below_param_sound :
    (x : ℕ) (p : Bytes) (t : Node) (next : Node → Option CompiledMapping) (m : CompiledMapping)
    → below_param (x ∷ p) t next ≡ some m
    → Through (x ∷ p) t next m
unfolding below_param fits child
below_param_sound x p (node kids no_param mapping) next m h = absurd (ground arith)
below_param_sound x p (node kids (param n c) mapping) next m h = (
  record { literal = n; param = true },
  c,
  ground (arith, placeholder_value_ok-is_value (x ∷ p)),
  ground (arith, eq_bytes_self n),
  ground arith,
)

match_level_sound :
    (p : Bytes) (t : Node) (next : Node → Option CompiledMapping) (m : CompiledMapping)
    → match_level p t next ≡ some m
    → Through p t next m
unfolding match_level
match_level_sound [] t next m h = absurd (ground arith)
match_level_sound (x ∷ p) t next m h = elim (Option-cases (below_literal (x ∷ p) t next)) [
  | inr (k, e) ↦ below_literal_sound x p t next m (ground arith)
  | inl e ↦ below_param_sound x p t next m (ground arith)
]

match_levels_sound :
    (ps : List Bytes) (t : Node) (m : CompiledMapping)
    → match_levels ps t ≡ some m
    → (ss : List Segment) × (fits_all ss ps ≡ true) × (stored ss t ≡ some m)
unfolding match_levels stored fits_all
match_levels_sound [] t m h = ([], refl, h)
match_levels_sound (p ∷ ps) t m h =
    let (s, c, f, there, found) = match_level_sound p t (match_levels ps) m h in
    let (ss, fs, st) = match_levels_sound ps c m found in (s ∷ ss, ground arith, ground arith)

-- A fitting child that leads on is found, unless another child is.
match_level_complete :
    (p : Bytes) (t : Node) (next : Node → Option CompiledMapping) (s : Segment) (c : Node)
    → fits s p ≡ true
    → child s t ≡ some c
    → next c ≢ none
    → match_level p t next ≢ none
unfolding match_level below_literal below_param fits child
match_level_complete p (node kids no_param mapping) next s c f e n h =
    ground (arith, eq_bytes_iff s.literal p, placeholder_value_ok-is_value p, n)
match_level_complete p (node kids (param k d) mapping) next s c f e n h =
    ground (
      arith,
      eq_bytes_iff s.literal p,
      eq_bytes_iff k s.literal,
      placeholder_value_ok-is_value p,
      n,
    )

match_levels_complete :
    (ps : List Bytes) (t : Node) (ss : List Segment)
    → fits_all ss ps ≡ true
    → stored ss t ≢ none
    → match_levels ps t ≢ none
unfolding match_levels stored fits_all
match_levels_complete [] t [] f n h = n h
match_levels_complete [] t (s ∷ ss) f n h = cc
match_levels_complete (p ∷ ps) t [] f n h = cc
match_levels_complete (p ∷ ps) t (s ∷ ss) f n h = elim (Option-cases (child s t)) [
  | inl e ↦ n (ground arith)
  | inr (c, e) ↦
      match_level_complete p t (match_levels ps) s c (ground arith) e
        (match_levels_complete ps c ss (ground arith) (λ z. n (ground arith))) h
]

match_nothing : (t : Node) → match (some t) (b'/' ∷ []) ≡ none
unfolding match
match_nothing t = refl

match_levels-nothing : (t : Node) → match_levels (split_on b'/' []) t ≡ none
unfolding match_levels split_on match_level
match_levels-nothing t = refl

-- `Match` on a rooted path is the search over the levels behind the slash.
pub match_rooted_lem :
    (t : Node) (rest : Bytes) → match (some t) (b'/' ∷ rest) ≡ match_levels (split_on b'/' rest) t
match_rooted_lem t [] = match_nothing t ∙ sym (match_levels-nothing t)
match_rooted_lem t (d ∷ rest) = match_lem t b'/' d rest

-- A mapping that `Match` finds is stored under a pattern that fits the path; and where a pattern
-- with a mapping fits the path, `Match` finds a mapping.
pub match_sound_complete :
    (t : Node) (rest : Bytes)
    → ((m : CompiledMapping)
        → match (some t) (b'/' ∷ rest) ≡ some m
        → (ss : List Segment) × (fits_all ss (split_on b'/' rest) ≡ true) × (stored ss t ≡ some m))
      × ((ss : List Segment)
          → fits_all ss (split_on b'/' rest) ≡ true
          → stored ss t ≢ none
          → match (some t) (b'/' ∷ rest) ≢ none)
match_sound_complete t rest = rw (match_rooted_lem t rest) (
  λ m h. match_levels_sound (split_on b'/' rest) t m h,
  λ ss f n. match_levels_complete (split_on b'/' rest) t ss f n,
)

-- `Match` finds nothing on a text that does not begin with a slash.
pub match-unrooted :
    (t : Node) (c : ℕ) (rest : Bytes) → (c == b'/') ≡ false → match (some t) (c ∷ rest) ≡ none
unfolding match
match-unrooted t c rest n = ground arith

pub match-nil : (t : Node) → match (some t) [] ≡ none
unfolding match
match-nil t = refl
