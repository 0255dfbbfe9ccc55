-- ===== src/Engine/Introspection/Laws.antt =====
-- The names and versions of a parsed introspection.
use astrate.Base.{
  ℕ, ◌^◌, ◌<◌, ◌≡◌, sym, ap, ◌∙◌, ◌⊎◌, inl, inr, false, none, some, List, [], ◌∷◌, ◌++◌, arith,
  ◌==◌, if◌then◌else◌, Bool-cases, Option-cases, Any, is_empty, ok, Result-cases, ok_injective,
  Bytes, codes, eq_bytes, eq_bytes_iff, contains_any, cut, split_on, append-cut,
}
use astrate.Engine.Introspection.{
  InterfaceVersion, Introspection, unsigned, atoi, declare, parse_entry, parse_entries,
  parse_introspection,
}

atoi-bound : (s : Bytes) (n : ℕ) → atoi s ≡ some n → n < 2 ^ 63
unfolding atoi
atoi-bound [] n h = cc
atoi-bound (c ∷ s) n h = elim (Bool-cases (c == b'-')) [
  | inl e ↦ elim (Option-cases (unsigned s)) [
    | inl x ↦ absurd (ground arith)
    | inr (m, x) ↦ ground arith
  ]
  | inr e ↦ elim (Option-cases (unsigned (if c == b'+' then s else c ∷ s))) [
    | inl x ↦ absurd (ground arith)
    | inr (m, x) ↦ ground arith
  ]
]

-- An entry that declares the name with the version.
pub record Declares (name : Bytes) (v : InterfaceVersion) (entry : Bytes) : Type 0 where
  pub major_text : Bytes
  pub minor_text : Bytes
  pub spelled : name ++ b':' ∷ (major_text ++ b':' ∷ minor_text) ≡ entry
  pub major : atoi major_text ≡ some v.major
  pub minor : atoi minor_text ≡ some v.minor
  pub bounded : (v.major < 2 ^ 63) × (v.minor < 2 ^ 63)
  pub named : is_empty name ≡ false
  pub plain : contains_any (codes "/+#") name ≡ false

parse_entry-Declares :
    (entry : Bytes) (name : Bytes) (v : InterfaceVersion)
    → parse_entry entry ≡ ok (name, v)
    → Declares name v entry
unfolding parse_entry
parse_entry-Declares entry name v h = elim (Option-cases (cut b':' entry)) [
  | inl e ↦ absurd (ground arith)
  | inr ((n, rest), e) ↦ elim (Option-cases (cut b':' rest)) [
    | inl f ↦ absurd (ground arith)
    | inr ((a, b), f) ↦ elim (Option-cases (atoi a)) [
      | inl g ↦ absurd (ground arith)
      | inr (major, g) ↦ elim (Option-cases (atoi b)) [
        | inl k ↦ absurd (ground arith)
        | inr (minor, k) ↦
            let is_n : n ≡ name = ground arith in
            let is_v : v ≡ record { major = major; minor = minor } = ground arith in
            rw is_v (
              rw (← is_n) (record {
                major_text = a;
                minor_text = b;
                spelled =
                    ap (λ (t : Bytes). n ++ b':' ∷ t) (append-cut b':' rest a b f)
                    ∙ append-cut b':' entry n rest e;
                major = g;
                minor = k;
                bounded = (atoi-bound a major g, atoi-bound b minor k);
                named = ground arith;
                plain = ground arith;
              }))
      ]
    ]
  ]
]

parse_entries-Declares :
    (entries : List Bytes) (intro intro' : Introspection) (name : Bytes) (v : InterfaceVersion)
    → parse_entries entries intro ≡ ok intro'
    → intro' name ≡ some v
    → (intro name ≡ some v) ⊎ Any (Declares name v) entries
unfolding parse_entries declare
parse_entries-Declares [] intro intro' name v h e =
    inl (ap (λ (f : Introspection). f name) (ok_injective h) ∙ e)
parse_entries-Declares (entry ∷ entries) intro intro' name v h e =
    elim (Result-cases (parse_entry entry)) [
      | inr (x, bad) ↦ absurd (ground arith)
      | inl ((n, w), parsed) ↦
          elim (parse_entries-Declares entries (declare n w intro) intro' name v
            (rw (parsed, parse_entries) at h) e) [
              | inr later ↦ inr (inr later)
              | inl now ↦ elim (Bool-cases (eq_bytes name n)) [
                | inl same ↦
                    let is_v : w ≡ v = ground arith in
                    let is_n : n ≡ name = sym ((eq_bytes_iff name n).0 same) in
                    inr (inl (rw is_n at (rw is_v at (parse_entry-Declares entry n w parsed))))
                | inr other ↦ inl (rw (other, declare) at now)
              ]
            ]
    ]

-- Every interface that a parsed introspection declares is spelled by one of its entries
-- `name:major:minor`; its name is not empty and contains none of `/`, `+` and `#`, and its versions are
-- numbers below 2^63.
pub parse_introspection-Declares :
    (text : Bytes) (intro : Introspection) (name : Bytes) (v : InterfaceVersion)
    → parse_introspection text ≡ ok intro
    → intro name ≡ some v
    → Any (Declares name v) (split_on b';' text)
unfolding parse_introspection
parse_introspection-Declares [] intro name v h e =
    let no_entry : none ≡ some v = ap (λ (f : Introspection). f name) (ok_injective h) ∙ e in
    absurd (ground arith)
parse_introspection-Declares (c ∷ s) intro name v h e =
    elim (parse_entries-Declares (split_on b';' (c ∷ s)) (λ k. none) intro name v h e) [
      | inl bad ↦ absurd (ground arith)
      | inr there ↦ there
    ]
