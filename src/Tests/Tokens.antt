-- ===== src/Tests/Tokens.antt =====
-- The token cache at a sample series of calls: a cache of one entry, digests that are the texts
-- themselves, and keys that accept the token that spells them until time 10.
use astrate.Base.{
  ◌≡◌, refl, ◌↔◌, inl, inr, true, Bool-cases, Option, none, some, [], ◌∷◌, if◌then◌else◌, ltb,
  Result, ok, err, Bytes, codes, eq_bytes, eq_bytes_iff, contains_byte,
}
use astrate.Auth.Claims.{AstarteClaims, Token, new_token}
use astrate.Auth.Verify.{
  JwtError, signature_invalid, other, Packages, token_expired, parse_public_key_block, parse_blocks,
  parse_pem_entry, parse_public_keys_pem, verify_with, verify,
}
use astrate.Auth.Verify.Rotation.{Verifies, verify-ok_iff}
use astrate.Auth.Cache.{
  Lru, IsLru, Call, cached_verify, key_set_text, is_expired, reuse, verify_anew,
}
use astrate.Auth.Cache.History.{IsClean, IsAnswer, after, cached_verify-IsAnswer}

abbrev plain_claims : AstarteClaims
plain_claims = record { expires_at = some 10; strings = λ claim. [] }

abbrev spelled_token : Bytes → Bytes → Result JwtError AstarteClaims
spelled_token token key = if eq_bytes token key then ok plain_claims else err signature_invalid

abbrev plain_packages : Packages Bytes
plain_packages = record {
  decode_pem = λ entry. record { type = codes "PUBLIC KEY"; bytes = entry } ∷ [];
  parse_pkix = λ bytes. some bytes;
  is_supported = λ key. true;
  parse_pkcs1 = λ bytes. none;
  parse_with_claims =
      λ methods token key now. if ltb now 10 then spelled_token token key else err (other 1);
  regexp = λ pattern_text. none;
}

abbrev Slot : Type 0
Slot = Option (Bytes × Token)

abbrev found : Bytes → Slot → Option Token
found k none = none
found k (some (j, tok)) = if eq_bytes k j then some tok else none

abbrev one_slot : Lru Bytes Slot
one_slot = record {
  empty = none;
  get = λ k s. (found k s, s);
  add = λ k tok s. some (k, tok);
  remove = λ k s. none;
}

found-some : (k j : Bytes) (u v : Token) → found k (some (j, u)) ≡ some v → (k ≡ j) × (u ≡ v)
found-some k j u v h = elim (Bool-cases (eq_bytes k j)) [
  | inl e ↦ ((eq_bytes_iff k j).0 e, cc)
  | inr e ↦ absurd (cc)
]

one_slot-IsLru : IsLru one_slot
one_slot-IsLru = record {
  get-empty = λ k. refl;
  get-get = λ k j s v h. h;
  get-add = λ k j s u v h. inl (found-some k j u v h);
  get-remove = λ k j s v h. absurd (cc);
}

abbrev early : Call
early = record { token = codes "ab"; keys_pem = codes "x" ∷ codes "ab" ∷ []; now = 3 }

abbrev late : Call
late = record { token = codes "ab"; keys_pem = codes "x" ∷ codes "ab" ∷ []; now = 12 }

early-IsClean : IsClean early
unfolding contains_byte
early-IsClean = (refl, (refl, (refl, tt)))

late-IsClean : IsClean late
unfolding contains_byte
late-IsClean = (refl, (refl, (refl, tt)))

-- The second call finds the token that the first one left, past its expiry.
late_rejected :
    (cached_verify plain_packages
      (λ b. b)
      one_slot
      late
      (after plain_packages (λ b. b) one_slot (early ∷ []))).0
    ≡ err token_expired
unfolding cached_verify key_set_text is_expired reuse verify_anew parse_public_key_block
    parse_blocks parse_pem_entry parse_public_keys_pem verify_with verify eq_bytes new_token
late_rejected = refl

cached_verify_example :
    IsAnswer plain_packages
      (λ b. b)
      one_slot
      (early ∷ [])
      late
      (cached_verify plain_packages
        (λ b. b)
        one_slot
        late
        (after plain_packages (λ b. b) one_slot (early ∷ []))).0
cached_verify_example =
    cached_verify-IsAnswer plain_packages (λ b. b) one_slot one_slot-IsLru (early ∷ []) late
      (early-IsClean, tt) late-IsClean ((λ e. e), tt)

verify_example :
    (verify plain_packages (codes "ab") (codes "x" ∷ codes "ab" ∷ []) 3
      ≡ ok (new_token plain_packages.regexp plain_claims))
    ↔ Verifies plain_packages
        (codes "ab")
        3
        (codes "x" ∷ codes "ab" ∷ [])
        (new_token plain_packages.regexp plain_claims)
verify_example =
    verify-ok_iff plain_packages (codes "ab") 3 (codes "x" ∷ codes "ab" ∷ [])
      (new_token plain_packages.regexp plain_claims)
