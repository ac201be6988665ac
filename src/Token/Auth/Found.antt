-- ===== src/Token/Auth/Found.antt =====
-- What `get_token` answers.
use node_get.Prelude.{◌≡◌, ◌↔◌, inl, inr, some, arith, Option-cases}
use node_get.Dict.{lookup}
use node_get.Error.{NodegetError, ok, err, Result-cases, permission_denied, invalid_credentials}
use node_get.Permission.{Token}
use node_get.Token.Cache.{CachedToken, TokenCacheInner}
use node_get.Token.Auth.{
  World, TokenOrAuth, token, auth, get_token, hash_to_bytes, to_token, find_entry,
}

-- The credential names the entry, and its secret or password has the entry's hash.
abbrev pub Proves : World → TokenCacheInner → TokenOrAuth → CachedToken → Type 0
Proves w cache (token key secret) entry =
    (lookup key cache.by_key ≡ some entry) × (hash_to_bytes w secret ≡ entry.token_hash_bytes)
Proves w cache (auth username password) entry =
    (lookup username cache.by_username ≡ some entry)
    × (entry.password_hash_bytes ≡ some (hash_to_bytes w password))

find_entry_sound :
    (w : World) (cache : TokenCacheInner) (c : TokenOrAuth) (entry : CachedToken)
    → find_entry w cache c ≡ ok entry
    → Proves w cache c entry
unfolding find_entry
find_entry_sound w cache (token key secret) entry h =
    elim (Option-cases (lookup key cache.by_key)) [
      | inl e ↦ ground arith
      | inr (found, e) ↦ ground arith
    ]
find_entry_sound w cache (auth username password) entry h =
    elim (Option-cases (lookup username cache.by_username)) [
      | inl e ↦ ground arith
      | inr (found, e) ↦ elim (Option-cases found.password_hash_bytes) [
        | inl e' ↦ ground arith
        | inr (stored, e') ↦ ground arith
      ]
    ]

find_entry_complete :
    (w : World) (cache : TokenCacheInner) (c : TokenOrAuth) (entry : CachedToken)
    → Proves w cache c entry
    → find_entry w cache c ≡ ok entry
unfolding find_entry
find_entry_complete w cache (token key secret) entry h = ground arith
find_entry_complete w cache (auth username password) entry h = ground arith

find_entry_error :
    (w : World) (cache : TokenCacheInner) (c : TokenOrAuth) (e : NodegetError)
    → find_entry w cache c ≡ err e
    → e ≡ permission_denied invalid_credentials
unfolding find_entry
find_entry_error w cache (token key secret) e h = ground arith
find_entry_error w cache (auth username password) e h = ground arith

get_token_found :
    (w : World) (cache : TokenCacheInner) (c : TokenOrAuth) (entry : CachedToken)
    → w.cache ≡ some cache
    → find_entry w cache c ≡ ok entry
    → get_token w c ≡ ok (to_token entry)
unfolding get_token
get_token_found w cache c entry h f = ground arith

get_token_lost :
    (w : World) (cache : TokenCacheInner) (c : TokenOrAuth) (e : NodegetError)
    → w.cache ≡ some cache
    → find_entry w cache c ≡ err e
    → get_token w c ≡ err e
unfolding get_token
get_token_lost w cache c e h f = ground arith

-- With the cache initialized, every failure of get_token is the same error.
pub get_token_error :
    (w : World) (cache : TokenCacheInner) (c : TokenOrAuth) (e : NodegetError)
    → w.cache ≡ some cache
    → get_token w c ≡ err e
    → e ≡ permission_denied invalid_credentials
unfolding get_token
get_token_error w cache c e h g = elim (Result-cases (find_entry w cache c)) [
  | inl (entry, f) ↦ ground arith
  | inr (e', f) ↦ ground (arith, find_entry_error w cache c e' f)
]

-- With the cache initialized, get_token returns a token exactly when the key or user name is in
-- the cache with the hash of the secret or password, and it is that entry's token.
pub get_token_iff :
    (w : World) (cache : TokenCacheInner) (c : TokenOrAuth) (t : Token)
    → w.cache ≡ some cache
    → (get_token w c ≡ ok t)
      ↔ ((entry : CachedToken) × Proves w cache c entry × (t ≡ to_token entry))
get_token_iff w cache c t h = (forth, back)
  where
    forth :
        get_token w c ≡ ok t → (entry : CachedToken) × Proves w cache c entry × (t ≡ to_token entry)
    forth g = elim (Result-cases (find_entry w cache c)) [
      | inl (entry, f) ↦
          (entry, find_entry_sound w cache c entry f, cc (g, get_token_found w cache c entry h f))
      | inr (e, f) ↦ cc (g, get_token_lost w cache c e h f)
    ]

    back :
        (entry : CachedToken) × Proves w cache c entry × (t ≡ to_token entry) → get_token w c ≡ ok t
    back (entry, p, e) =
        cc (e, get_token_found w cache c entry h (find_entry_complete w cache c entry p))
