-- ===== src/Auth/Cache/History.antt =====
-- What the cache of internal/auth/cache.go holds after a series of calls, and what it answers.
use astrate.Base.{
  ◌≤◌, ◌<◌, ℕ, arith, ◌≡◌, refl, sym, subst, ◌∙◌, ◌⊎◌, inl, inr, true, false, none, some, List, [],
  ◌∷◌, ◌++◌, Bool-cases, Option-cases, Any, Result, ok, err, Result-cases, ◌>>=◌, Bytes,
  contains_byte, All, ap, split_on, rooted, split_on-rooted,
}
use astrate.Auth.Claims.{Token}
use astrate.Auth.Verify.{AuthError, token_expired, Packages, parse_public_keys_pem, verify}
use astrate.Auth.Cache.{
  Lru, IsLru, Call, key_set_text, cache_text, is_expired, cache_key, reuse, verify_anew,
  cached_verify,
}

-- Verification without a cache.
abbrev pub uncached : {Key : Type 0} → Packages Key → Call → Result AuthError Token
uncached p c = parse_public_keys_pem p c.keys_pem >>= λ keys. verify p c.token keys c.now

-- A NUL byte is in neither the token nor the key set.
abbrev pub IsClean : Call → Type 0
IsClean c = (contains_byte 0 c.token ≡ false) × All (λ k. contains_byte 0 k ≡ false) c.keys_pem

-- The token has an expiry, which is now or was before.
abbrev pub IsOutdated : Token → ℕ → Type 0
IsOutdated tok now = (exp : ℕ) × (tok.expires_at ≡ some exp) × (exp ≤ now)

-- The token has no expiry, or one to come.
abbrev pub IsCurrent : Token → ℕ → Type 0
IsCurrent tok now =
    (tok.expires_at ≡ none) ⊎ ((exp : ℕ) × (tok.expires_at ≡ some exp) × (now < exp))

outdated : (tok : Token) (now : ℕ) → is_expired tok now ≡ true → IsOutdated tok now
unfolding is_expired
outdated tok now h = elim (Option-cases tok.expires_at) [
  | inl e ↦ absurd (ground arith)
  | inr (exp, e) ↦ (exp, e, ground arith)
]

current : (tok : Token) (now : ℕ) → is_expired tok now ≡ false → IsCurrent tok now
unfolding is_expired
current tok now h = elim (Option-cases tok.expires_at) [
  | inl e ↦ inl e
  | inr (exp, e) ↦ inr (exp, e, ground arith)
]

-- The same token under the same key set.
abbrev pub SameQuestion : Call → Call → Type 0
SameQuestion c d = (c.token ≡ d.token) × (c.keys_pem ≡ d.keys_pem)

key_set_text-rooted : (ks : List Bytes) → key_set_text ks ≡ rooted 0 ks
unfolding key_set_text rooted
key_set_text-rooted [] = refl
key_set_text-rooted (k ∷ ks) = ap (λ t. 0 ∷ k ++ t) (key_set_text-rooted ks)

split_on-cache_text : (c : Call) → IsClean c → split_on 0 (cache_text c) ≡ c.token ∷ c.keys_pem
split_on-cache_text c (h, hs) =
    ap (λ t. split_on 0 (c.token ++ t)) (key_set_text-rooted c.keys_pem)
    ∙ split_on-rooted 0 c.token c.keys_pem h hs

-- The digested text tells the token and each key.
cache_text-injective :
    (c d : Call) → IsClean c → IsClean d → cache_text c ≡ cache_text d → SameQuestion c d
cache_text-injective c d hc hd e =
    let lists : c.token ∷ c.keys_pem ≡ d.token ∷ d.keys_pem =
      sym (split_on-cache_text c hc) ∙ ap (split_on 0) e ∙ split_on-cache_text d hd in
    (cc, cc)

module _ {Key Digest State : Type 0} (p : Packages Key) (sha256 : Bytes → Digest)
    (l : Lru Digest State) where
  -- The cache after a series of calls, the latest first.
  abbrev pub after : List Call → State
  after [] = l.empty
  after (c ∷ cs) = (cached_verify p sha256 l c (after cs)).1

  -- The call put the same question, and was answered with the token by a full verification.
  pub record Vouches (c : Call) (tok : Token) (earlier : Call) : Type 0 where
    pub same : SameQuestion c earlier
    pub verified : uncached p earlier ≡ ok tok

  -- What may be answered to a call after others.
  pub data IsAnswer (cs : List Call) (c : Call) : Result AuthError Token → Type 0 where
    anew : IsAnswer cs c (uncached p c)
    reused : (tok : Token) → Any (Vouches c tok) cs → IsCurrent tok c.now → IsAnswer cs c (ok tok)
    expired :
        (tok : Token)
        → Any (Vouches c tok) cs
        → IsOutdated tok c.now
        → IsAnswer cs c (err token_expired)

  verify_anew-uncached : (c : Call) (s : State) → (verify_anew p sha256 l c s).0 ≡ uncached p c
  unfolding verify_anew
  verify_anew-uncached c s = elim (Result-cases (parse_public_keys_pem p c.keys_pem)) [
    | inr (e, f) ↦ cc
    | inl (keys, f) ↦ elim (Result-cases (verify p c.token keys c.now)) [
      | inr (e, g) ↦ cc
      | inl (tok, g) ↦ cc
    ]
  ]

  module _ (laws : IsLru l) where
    get-reuse :
        (c : Call) (tok : Token) (s : State) (k : Digest) (v : Token)
        → (l.get k (reuse p sha256 l c tok s).1).0 ≡ some v
        → (l.get k s).0 ≡ some v
    unfolding reuse
    get-reuse c tok s k v h = elim (Bool-cases (is_expired tok c.now)) [
      | inl e ↦ laws.get-remove k (cache_key p sha256 l c) s v (rw e at h)
      | inr e ↦ cc
    ]

    get-verify_anew :
        (c : Call) (s : State) (k : Digest) (v : Token)
        → (l.get k (verify_anew p sha256 l c s).1).0 ≡ some v
        → ((k ≡ cache_key p sha256 l c) × (uncached p c ≡ ok v)) ⊎ ((l.get k s).0 ≡ some v)
    unfolding verify_anew
    get-verify_anew c s k v h = elim (Result-cases (parse_public_keys_pem p c.keys_pem)) [
      | inr (e, f) ↦ inr cc
      | inl (keys, f) ↦ elim (Result-cases (verify p c.token keys c.now)) [
        | inr (e, g) ↦ inr cc
        | inl (tok, g) ↦ elim (laws.get-add k (cache_key p sha256 l c) s tok v (cc)) [
          | inl (same, e) ↦ inl (same, rw f (g ∙ ap ok e))
          | inr old ↦ inr old
        ]
      ]
    ]

    get-cached_verify :
        (c : Call) (s : State) (k : Digest) (v : Token)
        → (l.get k (cached_verify p sha256 l c s).1).0 ≡ some v
        → ((k ≡ cache_key p sha256 l c) × (uncached p c ≡ ok v)) ⊎ ((l.get k s).0 ≡ some v)
    unfolding cached_verify
    get-cached_verify c s k v h = elim (Option-cases (l.get (cache_key p sha256 l c) s).0) [
      | inl e ↦ elim (get-verify_anew c (l.get (cache_key p sha256 l c) s).1 k v cc) [
        | inl new ↦ inl new
        | inr old ↦ inr (laws.get-get k (cache_key p sha256 l c) s v old)
      ]
      | inr (tok, e) ↦ inr (
          laws.get-get k (cache_key p sha256 l c) s v
            (get-reuse c tok (l.get (cache_key p sha256 l c) s).1 k v cc))
    ]

    -- The digests of the two calls do not collide.
    abbrev pub Apart : Call → Call → Type 0
    Apart c d = cache_key p sha256 l c ≡ cache_key p sha256 l d → cache_text c ≡ cache_text d

    held-vouched :
        (cs : List Call) (c : Call) (tok : Token)
        → All IsClean cs
        → IsClean c
        → All (Apart c) cs
        → (l.get (cache_key p sha256 l c) (after cs)).0 ≡ some tok
        → Any (Vouches c tok) cs
    held-vouched [] c tok hs hc apart h =
        let nothing : (l.get (cache_key p sha256 l c) l.empty).0 ≡ none =
          laws.get-empty (cache_key p sha256 l c) in
        absurd (cc)
    held-vouched (d ∷ ds) c tok (hd, hs) hc (now, apart) h =
        elim (get-cached_verify d (after ds) (cache_key p sha256 l c) tok h) [
          | inl (same, verified) ↦
              inl (record { same = cache_text-injective c d hc hd (now same); verified = verified })
          | inr held ↦ inr (held-vouched ds c tok hs hc apart held)
        ]

    -- After any series of calls, the answer to the next call is that of a verification without the
    -- cache, or a token that a verification of the same token and key set in the series yielded: the
    -- token itself while it has not expired, an error once it has; where no token and no key has a NUL
    -- byte, and the digest of this call's text collides with none of the other texts in the series.
    pub cached_verify-IsAnswer :
        (cs : List Call) (c : Call)
        → All IsClean cs
        → IsClean c
        → All (Apart c) cs
        → IsAnswer cs c (cached_verify p sha256 l c (after cs)).0
    unfolding cached_verify reuse
    cached_verify-IsAnswer cs c hs hc apart =
        elim (Option-cases (l.get (cache_key p sha256 l c) (after cs)).0) [
          | inl e ↦
              let old : State = (l.get (cache_key p sha256 l c) (after cs)).1 in
              let r : (cached_verify p sha256 l c (after cs)).0 ≡ (verify_anew p sha256 l c old).0 =
                cc in
              subst (IsAnswer cs c) (sym (r ∙ verify_anew-uncached c old)) anew
          | inr (tok, e) ↦ elim (Bool-cases (is_expired tok c.now)) [
            | inl f ↦
                let r : (cached_verify p sha256 l c (after cs)).0 ≡ err token_expired = cc in
                subst (IsAnswer cs c) (sym r)
                  (expired tok (held-vouched cs c tok hs hc apart e) (outdated tok c.now f))
            | inr f ↦
                let r : (cached_verify p sha256 l c (after cs)).0 ≡ ok tok = cc in
                subst (IsAnswer cs c) (sym r)
                  (reused tok (held-vouched cs c tok hs hc apart e) (current tok c.now f))
          ]
        ]
