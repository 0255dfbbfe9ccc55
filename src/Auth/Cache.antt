-- ===== src/Auth/Cache.antt =====
-- internal/auth/cache.go: `cacheKey` and `Cache.Verify`. SHA-256 and the LRU cache are parameters; the
-- documented behaviour of the cache that is relied on is `IsLru`. Calls are taken
-- one after another; how concurrent calls interleave is left out. `NewCache` with its capacity is left out.
pub mod History
use astrate.Base.{
  ℕ, ◌≡◌, ◌⊎◌, Bool, true, false, not, Option, none, some, List, [], ◌∷◌, ◌++◌, if◌then◌else◌, ltb,
  Result, ok, err, Bytes,
}
use astrate.Auth.Claims.{Token}
use astrate.Auth.Verify.{AuthError, token_expired, Packages, parse_public_keys_pem, verify}

-- `lru.Cache`: Get also marks its entry as used, so it returns the next state.
pub record Lru (Digest State : Type 0) : Type 0 where
  pub empty : State
  pub get : Digest → State → Option Token × State
  pub add : Digest → Token → State → State
  pub remove : Digest → State → State

-- A cache that may forget, but finds nothing that was not added under the same key.
pub record IsLru {Digest State : Type 0} (l : Lru Digest State) : Type 0 where
  pub get-empty : (k : Digest) → (l.get k l.empty).0 ≡ none
  pub get-get :
      (k j : Digest) (s : State) (v : Token)
      → (l.get k (l.get j s).1).0 ≡ some v
      → (l.get k s).0 ≡ some v
  pub get-add :
      (k j : Digest) (s : State) (u v : Token)
      → (l.get k (l.add j u s)).0 ≡ some v
      → ((k ≡ j) × (u ≡ v)) ⊎ ((l.get k s).0 ≡ some v)
  pub get-remove :
      (k j : Digest) (s : State) (v : Token)
      → (l.get k (l.remove j s)).0 ≡ some v
      → (l.get k s).0 ≡ some v

-- The arguments of one call of `Cache.Verify`, with the clock at that time.
pub record Call : Type 0 where
  pub token : Bytes
  pub keys_pem : List Bytes
  pub now : ℕ

-- The bytes that `cacheKey` writes for the key set, each entry behind a zero.
unfoldable pub key_set_text : List Bytes → Bytes
key_set_text [] = []
key_set_text (k ∷ ks) = 0 ∷ k ++ key_set_text ks

-- All the bytes that `cacheKey` digests.
abbrev pub cache_text : Call → Bytes
cache_text c = c.token ++ key_set_text c.keys_pem

-- `has && !c.now().Before(exp)`.
unfoldable pub is_expired : Token → ℕ → Bool
is_expired tok now = elim tok.expires_at [ none ↦ false | some exp ↦ not (ltb now exp) ]

module _ {Key Digest State : Type 0} (p : Packages Key) (sha256 : Bytes → Digest)
    (l : Lru Digest State) where
  -- `cacheKey`.
  abbrev pub cache_key : Call → Digest
  cache_key c = sha256 (cache_text c)

  -- The hit of `Cache.Verify`.
  unfoldable pub reuse : Call → Token → State → Result AuthError Token × State
  reuse c tok s =
      if is_expired tok c.now then (err token_expired, l.remove (cache_key c) s) else (ok tok, s)

  -- Its miss.
  unfoldable pub verify_anew : Call → State → Result AuthError Token × State
  verify_anew c s = elim (parse_public_keys_pem p c.keys_pem) [
    | err e ↦ (err e, s)
    | ok keys ↦ elim (verify p c.token keys c.now) [
      | err e ↦ (err e, s)
      | ok tok ↦ (ok tok, l.add (cache_key c) tok s)
    ]
  ]

  -- `Cache.Verify`.
  unfoldable pub cached_verify : Call → State → Result AuthError Token × State
  cached_verify c s =
      let found = l.get (cache_key c) s in
      elim found.0 [ some tok ↦ reuse c tok found.1 | none ↦ verify_anew c found.1 ]
