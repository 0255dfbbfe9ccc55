-- ===== src/Auth/Claims/Laws.antt =====
-- Which authorization strings authorize a request.
use astrate.Base.{
  ℕ, ◌≡◌, refl, sym, ap, ◌∙◌, ◌↔◌, inl, inr, Bool, true, false, ◌&&◌, ◌||◌, none, some, List, [],
  ◌∷◌, ◌++◌, arith, Bool-cases, Option-cases, any, Any, Bytes, eq_bytes, contains_byte, cut,
  append-cut,
}
use astrate.Auth.Claims.{
  Claim, channels, RegexpCompile, Grant, AstarteClaims, anchored, compile_grant, compile_grants,
  new_token, authorizes, authorizes_channel,
}

-- The string is `verb:options:path`, and the two patterns between ^ and $ compile.
pub record Spells (regexp : RegexpCompile) (s : Bytes) (g : Grant) : Type 0 where
  pub options : Bytes
  pub path_text : Bytes
  pub spelled : g.verb_literal ++ b':' ∷ (options ++ b':' ∷ path_text) ≡ s
  pub no_colon : (contains_byte b':' g.verb_literal ≡ false) × (contains_byte b':' options ≡ false)
  pub verb : regexp (b'^' ∷ (g.verb_literal ++ b'$' ∷ [])) ≡ some g.verb
  pub path : regexp (b'^' ∷ (path_text ++ b'$' ∷ [])) ≡ some g.path

cut-no_byte : (sep : ℕ) (s a b : Bytes) → cut sep s ≡ some (a, b) → contains_byte sep a ≡ false
unfolding cut contains_byte
cut-no_byte sep [] a b h = ground arith
cut-no_byte sep (c ∷ s) a b h = elim (Option-cases (cut sep s)) [
  | inl e ↦ ground arith
  | inr ((x, y), e) ↦ ground (arith, cut-no_byte sep s x y e)
]

cut-append :
    (sep : ℕ) (a b : Bytes) → contains_byte sep a ≡ false → cut sep (a ++ sep ∷ b) ≡ some (a, b)
unfolding cut contains_byte
cut-append sep [] b h = ground arith
cut-append sep (c ∷ a) b h = ground (arith, cut-append sep a b)

compile_grant_sound :
    (regexp : RegexpCompile) (s : Bytes) (g : Grant)
    → compile_grant regexp s ≡ some g
    → Spells regexp s g
unfolding compile_grant
compile_grant_sound regexp s g h = elim (Option-cases (cut b':' s)) [
  | inl e ↦ absurd (ground arith)
  | inr ((v, rest), e) ↦ elim (Option-cases (cut b':' rest)) [
    | inl f ↦ absurd (ground arith)
    | inr ((o, p), f) ↦ elim (Option-cases (regexp (anchored v))) [
      | inl k ↦ absurd (ground arith)
      | inr (verb, k) ↦ elim (Option-cases (regexp (anchored p))) [
        | inl l ↦ absurd (ground arith)
        | inr (path, l) ↦
            let is : g ≡ record { verb = verb; verb_literal = v; path = path } = ground arith in
            rw is (record {
              options = o;
              path_text = p;
              spelled =
                  ap (λ (t : Bytes). v ++ b':' ∷ t) (append-cut b':' rest o p f)
                  ∙ append-cut b':' s v rest e;
              no_colon = (cut-no_byte b':' s v rest e, cut-no_byte b':' rest o p f);
              verb = k;
              path = l;
            })
      ]
    ]
  ]
]

compile_grant_complete :
    (regexp : RegexpCompile) (s : Bytes) (g : Grant)
    → Spells regexp s g
    → compile_grant regexp s ≡ some g
unfolding compile_grant
compile_grant_complete regexp s g sp =
    let first = cut-append b':' g.verb_literal (sp.options ++ b':' ∷ sp.path_text) sp.no_colon.0 in
    let second = cut-append b':' sp.options sp.path_text sp.no_colon.1 in
    let verb = sp.verb in
    let path = sp.path in rw (← sp.spelled) (rw (compile_grant, first, second, verb, path) refl)

none_is_some : {A : Type 0} {a : A} → none ≡ some a → ⊥
none_is_some h = cc

same_some : {A : Type 0} {a b : A} → some a ≡ some b → a ≡ b
same_some h = cc

or_left : (a b : Bool) → a ≡ true → (a || b) ≡ true
or_left a b h = ground arith

or_right : (a b : Bool) → b ≡ true → (a || b) ≡ true
or_right a b h = ground arith

-- The string spells a grant that passes the test.
abbrev pub Grants : RegexpCompile → (Grant → Bool) → Bytes → Type 0
Grants regexp p s = (g : Grant) × Spells regexp s g × (p g ≡ true)

any-compile_grants :
    (regexp : RegexpCompile) (p : Grant → Bool) (ss : List Bytes)
    → (any p (compile_grants regexp ss) ≡ true) ↔ Any (Grants regexp p) ss
unfolding compile_grants
any-compile_grants regexp p [] = (λ h. absurd (ground arith), λ h. elim h [ ])
any-compile_grants regexp p (s ∷ ss) =
    let ih = any-compile_grants regexp p ss in
    elim (Option-cases (compile_grant regexp s)) [
      | inl e ↦ (
        λ h. inr (ih.0 (rw (e, compile_grants) at h)),
        λ h.
            rw (e, compile_grants)
              (elim h [
                | inl (g, sp, t) ↦
                    absurd (none_is_some (sym e ∙ compile_grant_complete regexp s g sp))
                | inr later ↦ ih.1 later
              ]),
      )
      | inr (g, e) ↦ (
        λ h. elim (Bool-cases (p g)) [
          | inl t ↦ inl (g, compile_grant_sound regexp s g e, t)
          | inr f ↦ inr (ih.0 (rw (e, compile_grants, f) at h))
        ],
        λ h.
            rw (e, compile_grants)
              (elim h [
                | inl (g', sp, t) ↦
                    let is : g' ≡ g = same_some (sym (compile_grant_complete regexp s g' sp) ∙ e) in
                    or_left (p g) _ (ap p (sym is) ∙ t)
                | inr later ↦ or_right (p g) _ (ih.1 later)
              ]),
      )
    ]

-- A token made from claims authorizes a verb and a path under a claim exactly if one of the claim's
-- strings is `verb:options:path` where the patterns verb and path, each between ^ and $, compile and
-- match; on the channels surface the first field must be the verb itself.
pub authorizes_iff :
    (regexp : RegexpCompile) (c : AstarteClaims) (claim : Claim) (verb path : Bytes)
    → ((authorizes (new_token regexp c) claim verb path ≡ true)
        ↔ Any (Grants regexp (λ g. g.verb verb && g.path path)) (c.strings claim))
      × ((authorizes_channel (new_token regexp c) verb path ≡ true)
          ↔ Any
              (Grants regexp (λ g. eq_bytes g.verb_literal verb && g.path path))
              (c.strings channels))
unfolding authorizes authorizes_channel new_token
authorizes_iff regexp c claim verb path = (
  any-compile_grants regexp (λ g. g.verb verb && g.path path) (c.strings claim),
  any-compile_grants regexp (λ g. eq_bytes g.verb_literal verb && g.path path) (c.strings channels),
)
