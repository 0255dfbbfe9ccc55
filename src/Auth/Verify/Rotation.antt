-- ===== src/Auth/Verify/Rotation.antt =====
-- Which key of a set verifies a token, for `Verify` of internal/auth/jwt.go.
use astrate.Base.{
  ◌≡◌, refl, sym, ap, ◌∙◌, ◌↔◌, inl, inr, List, [], ◌∷◌, ◌++◌, ok, err, Result-cases, Bytes, All, ℕ,
}
use astrate.Auth.Claims.{AstarteClaims, Token, new_token}
use astrate.Auth.Verify.{
  signature_invalid, other, Packages, allowed_signing_methods, verify_with, verify,
}

module _ {Key : Type 0} (p : Packages Key) (token : Bytes) (now : ℕ) where
  -- The signature is not one of this key.
  abbrev pub Mismatch : Key → Type 0
  Mismatch key = p.parse_with_claims allowed_signing_methods token key now ≡ err signature_invalid

  -- The first key of the set whose signature it is, or at which the token is refused for another
  -- reason, accepts the token with claims that compile to `tok`.
  pub record Verifies (keys : List Key) (tok : Token) : Type 0 where
    pub older : List Key
    pub key : Key
    pub newer : List Key
    pub position : older ++ key ∷ newer ≡ keys
    pub mismatches : All Mismatch older
    pub claims : AstarteClaims
    pub accepted : p.parse_with_claims allowed_signing_methods token key now ≡ ok claims
    pub compiled : new_token p.regexp claims ≡ tok

  verify_with-after :
      (older keys : List Key)
      → All Mismatch older
      → verify_with p (older ++ keys) token now ≡ verify_with p keys token now
  unfolding verify_with
  verify_with-after [] keys hs = refl
  verify_with-after (k ∷ older) keys (h, hs) = rw h (verify_with-after older keys hs)

  further :
      (k : Key) (keys : List Key) (tok : Token)
      → Mismatch k
      → Verifies keys tok
      → Verifies (k ∷ keys) tok
  further k keys tok h v = record {
    older = k ∷ v.older;
    key = v.key;
    newer = v.newer;
    position = ap (◌∷◌ k) v.position;
    mismatches = (h, v.mismatches);
    claims = v.claims;
    accepted = v.accepted;
    compiled = v.compiled;
  }

  verify_with_sound :
      (keys : List Key) (tok : Token) → verify_with p keys token now ≡ ok tok → Verifies keys tok
  unfolding verify_with
  verify_with_sound [] tok h = absurd (cc)
  verify_with_sound (k ∷ keys) tok h =
      elim (Result-cases (p.parse_with_claims allowed_signing_methods token k now)) [
        | inl (claims, e) ↦ record {
          older = [];
          key = k;
          newer = keys;
          position = refl;
          mismatches = tt;
          claims = claims;
          accepted = e;
          compiled = cc;
        }
        | inr (signature_invalid, e) ↦ further k keys tok e (verify_with_sound keys tok (cc))
        | inr (other f, e) ↦ absurd (cc)
      ]

  verify-ok :
      (keys : List Key) (tok : Token)
      → (verify p token keys now ≡ ok tok) ↔ (verify_with p keys token now ≡ ok tok)
  unfolding verify verify_with
  verify-ok [] tok = (λ h. absurd (cc), λ h. absurd (cc))
  verify-ok (k ∷ keys) tok = (λ h. h, λ h. h)

  -- A token is verified to `tok` exactly if a key of the set accepts it with claims that compile to
  -- `tok`, and its signature mismatches each key before that one.
  pub verify-ok_iff :
      (keys : List Key) (tok : Token) → (verify p token keys now ≡ ok tok) ↔ Verifies keys tok
  unfolding verify_with
  verify-ok_iff keys tok = (
    λ h. verify_with_sound keys tok ((verify-ok keys tok).0 h),
    λ v. (verify-ok keys tok).1 (
        ap (λ ks. verify_with p ks token now) (sym v.position)
        ∙ verify_with-after v.older (v.key ∷ v.newer) v.mismatches
        ∙ rw (v.accepted, verify_with) (ap ok v.compiled)),
  )
