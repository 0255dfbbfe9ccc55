-- ===== src/Auth/Verify.antt =====
-- internal/auth/jwt.go: `ParsePublicKeysPEM` and `Verify`. The packages pem, x509 and jwt are
-- parameters: the PEM blocks of a text, the parsers of a key, and the parser of a token under one key
-- at a time of the clock. The wording of errors is left out.
pub mod Rotation
use astrate.Base.{
  ℕ, Bool, true, false, Option, none, some, List, [], ◌∷◌, ◌++◌, if◌then◌else◌, is_empty, Result,
  ok, err, ◌>>=◌, Bytes, eq_bytes, codes,
}
use astrate.Auth.Claims.{RegexpCompile, AstarteClaims, Token, new_token}

-- The errors of this package, and those of a key's parser and of jwt that it wraps.
pub data AuthError : Type 0 where
  no_realm_keys no_key_matched unsupported_key no_pem_block invalid_key token_expired : AuthError
  invalid_token : ℕ → AuthError

-- `pem.Block`.
pub record PemBlock : Type 0 where
  pub type : Bytes
  pub bytes : Bytes

-- `jwt.ErrTokenSignatureInvalid`, or another error of ParseWithClaims.
pub data JwtError : Type 0 where
  signature_invalid : JwtError
  other : ℕ → JwtError

-- The packages: the blocks that repeated calls of pem.Decode return, x509.ParsePKIXPublicKey with the
-- test for RSA and ECDSA keys, x509.ParsePKCS1PublicKey, and the ParseWithClaims of a parser that is
-- made for a list of methods.
pub record Packages (Key : Type 0) : Type 0 where
  pub decode_pem : Bytes → List PemBlock
  pub parse_pkix : Bytes → Option Key
  pub is_supported : Key → Bool
  pub parse_pkcs1 : Bytes → Option Key
  pub parse_with_claims : List Bytes → Bytes → Key → ℕ → Result JwtError AstarteClaims
  pub regexp : RegexpCompile

-- `allowedSigningMethods`.
abbrev pub allowed_signing_methods : List Bytes
allowed_signing_methods =
    codes "RS256"
    ∷ codes "RS384"
    ∷ codes "RS512"
    ∷ codes "ES256"
    ∷ codes "ES384"
    ∷ codes "ES512"
    ∷ []

module _ {Key : Type 0} (p : Packages Key) where
  -- `parsePublicKeyBlock`.
  unfoldable pub parse_public_key_block : PemBlock → Result AuthError Key
  parse_public_key_block block =
      if eq_bytes block.type (codes "PUBLIC KEY")
      then elim (p.parse_pkix block.bytes) [
        | none ↦ err invalid_key
        | some key ↦ if p.is_supported key then ok key else err unsupported_key
      ]
      else if eq_bytes block.type (codes "RSA PUBLIC KEY")
      then elim (p.parse_pkcs1 block.bytes) [ none ↦ err invalid_key | some key ↦ ok key ]
      else err unsupported_key

  -- The inner loop of `ParsePublicKeysPEM`.
  unfoldable pub parse_blocks : List PemBlock → Result AuthError (List Key)
  parse_blocks [] = ok []
  parse_blocks (block ∷ rest) = do
    key ← parse_public_key_block block
    keys ← parse_blocks rest
    ok (key ∷ keys)

  -- One round of its outer loop, with `found`.
  unfoldable pub parse_pem_entry : Bytes → Result AuthError (List Key)
  parse_pem_entry entry =
      let blocks = p.decode_pem entry in
      if is_empty blocks then err no_pem_block else parse_blocks blocks

  -- `ParsePublicKeysPEM`.
  unfoldable pub parse_public_keys_pem : List Bytes → Result AuthError (List Key)
  parse_public_keys_pem [] = ok []
  parse_public_keys_pem (entry ∷ pems) = do
    keys ← parse_pem_entry entry
    more ← parse_public_keys_pem pems
    ok (keys ++ more)

  -- The loop of `Verify`: the next key after a signature that does not match.
  unfoldable pub verify_with : List Key → Bytes → ℕ → Result AuthError Token
  verify_with [] token now = err no_key_matched
  verify_with (key ∷ keys) token now =
      let next = verify_with keys token now in
      elim (p.parse_with_claims allowed_signing_methods token key now) [
        | ok claims ↦ ok (new_token p.regexp claims)
        | err signature_invalid ↦ next
        | err (other e) ↦ err (invalid_token e)
      ]

  -- `Verify`.
  unfoldable pub verify : Bytes → List Key → ℕ → Result AuthError Token
  verify token keys now = if is_empty keys then err no_realm_keys else verify_with keys token now
