-- ===== src/Triggers/ErrorName/Laws.antt =====
-- The closed set of the names that clients accept.
use astrate.Base.{
  String, ◌≡◌, refl, inl, inr, Bool, true, none, some, List, [], ◌∷◌, arith, str_eq, if◌then◌else◌,
  Bool-cases, Option-cases, all,
}
use astrate.Triggers.ErrorName.{
  upstream_error_names, upstream_fallback, astrate_to_upstream, has_name, lookup_reason,
  upstream_error_name,
}

-- A lookup answers one of the table's values.
lookup_reason-all :
    (p : String → Bool) (table : List (String × String)) (reason m : String)
    → all (λ e. p e.1) table ≡ true
    → lookup_reason table reason ≡ some m
    → p m ≡ true
lookup_reason-all p [] reason m a h = cc
lookup_reason-all p ((k, v) ∷ table) reason m a h = elim (Bool-cases (str_eq k reason)) [
  | inl e ↦ let is : v ≡ m = ground arith in let good : p v ≡ true = ground arith in rw is at good
  | inr e ↦ lookup_reason-all p table reason m (ground arith) (ground arith)
]

-- The translation over any set of names, table and fallback.
abbrev translate : List String → List (String × String) → String → String → String
translate names table fallback reason =
    if has_name names reason
    then reason
    else elim (lookup_reason table reason) [ some m ↦ m | none ↦ fallback ]

module _ (names : List String) (table : List (String × String)) (fallback : String)
    (closed : all (λ e. has_name names e.1) table ≡ true)
    (ends : has_name names fallback ≡ true) where
  translate-closed :
      (reason : String) → has_name names (translate names table fallback reason) ≡ true
  translate-closed reason = elim (Bool-cases (has_name names reason)) [
    | inl e ↦ ground arith
    | inr e ↦ elim (Option-cases (lookup_reason table reason)) [
      | inl n ↦ rw (e, n) ends
      | inr (m, n) ↦ rw (e, n) (lookup_reason-all (has_name names) table reason m closed n)
    ]
  ]

translate-kept :
    (names : List String) (table : List (String × String)) (fallback reason : String)
    → has_name names reason ≡ true
    → translate names table fallback reason ≡ reason
translate-kept names table fallback reason h = rw h refl

-- Every reason becomes one of the names of the closed set, and a name of the set becomes itself; so
-- the translation of a translated reason changes nothing.
pub upstream_error_name-closed :
    (reason : String)
    → (has_name upstream_error_names (upstream_error_name reason) ≡ true)
      × (has_name upstream_error_names reason ≡ true → upstream_error_name reason ≡ reason)
      × (upstream_error_name (upstream_error_name reason) ≡ upstream_error_name reason)
unfolding upstream_error_name
upstream_error_name-closed reason =
    let closed =
      translate-closed upstream_error_names astrate_to_upstream upstream_fallback refl refl
        reason in
    (
      closed,
      translate-kept upstream_error_names astrate_to_upstream upstream_fallback reason,
      translate-kept upstream_error_names astrate_to_upstream upstream_fallback
          (translate upstream_error_names astrate_to_upstream upstream_fallback reason) closed,
    )
