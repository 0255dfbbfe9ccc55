-- ===== src/Auth/Claims.antt =====
-- internal/auth/claims.go: `compileGrant`, `newToken`, `Authorizes` and `AuthorizesChannel`. The
-- package regexp is a parameter: a pattern compiles to its test, or does not compile.
pub mod Laws
use astrate.Base.{
  ℕ, ◌+◌, ◌-◌, ◌^◌, Bool, ◌&&◌, not, Option, none, some, List, [], ◌∷◌, ◌++◌, any, Bytes, eq_bytes,
  cut,
}

pub data Claim : Type 0 where
  app_engine channels flow housekeeping pairing realm_management : Claim

-- regexp.Compile, with MatchString of its result.
abbrev pub RegexpCompile : Type 0
RegexpCompile = Bytes → Option (Bytes → Bool)

-- `grant`.
pub record Grant : Type 0 where
  pub verb : Bytes → Bool
  pub verb_literal : Bytes
  pub path : Bytes → Bool

-- `Token`: the grants of each claim, and the expiry.
pub record Token : Type 0 where
  pub expires_at : Option ℕ
  pub grants : Claim → List Grant

-- `astarteClaims`: the authorization strings of each claim.
pub record AstarteClaims : Type 0 where
  pub expires_at : Option ℕ
  pub strings : Claim → List Bytes

-- "^" + part + "$"
abbrev pub anchored : Bytes → Bytes
anchored part = b'^' ∷ part ++ b'$' ∷ []

-- `compileGrant`.
pub compile_grant : RegexpCompile → Bytes → Option Grant
compile_grant regexp s = elim (cut b':' s) [
  | none ↦ none
  | some first ↦ elim (cut b':' first.1) [
    | none ↦ none
    | some second ↦ elim (regexp (anchored first.0)) [
      | none ↦ none
      | some verb ↦ elim (regexp (anchored second.1)) [
        | none ↦ none
        | some path ↦ some (record { verb = verb; verb_literal = first.0; path = path })
      ]
    ]
  ]
]

-- The inner loop of `newToken`.
pub compile_grants : RegexpCompile → List Bytes → List Grant
compile_grants regexp [] = []
compile_grants regexp (s ∷ ss) =
    let grants = compile_grants regexp ss in
    elim (compile_grant regexp s) [ none ↦ grants | some g ↦ g ∷ grants ]

-- `newToken`.
unfoldable pub new_token : RegexpCompile → AstarteClaims → Token
new_token regexp c = record {
  expires_at = c.expires_at;
  grants = λ claim. compile_grants regexp (c.strings claim);
}

-- `Authorizes`.
pub authorizes : Token → Claim → Bytes → Bytes → Bool
authorizes t claim verb path = any (λ g. g.verb verb && g.path path) (t.grants claim)

-- `AuthorizesChannel`.
pub authorizes_channel : Token → Bytes → Bytes → Bool
authorizes_channel t verb path =
    any (λ g. eq_bytes g.verb_literal verb && g.path path) (t.grants channels)
