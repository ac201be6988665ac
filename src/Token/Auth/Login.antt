-- ===== src/Token/Auth/Login.antt =====
-- From a row of the table to an answered call.
use node_get.Prelude.{
  ℕ, ◌<◌, ◌≡◌, refl, sym, ap, ◌∙◌, List, Option, some, All, All_at, Member, arith, length,
}
use node_get.Prelude.Int.{ℤ}
use node_get.Text.{Text}
use node_get.Permission.{Token}
use node_get.Error.{ok}
use node_get.Dict.{lookup}
use node_get.Token.Limits.{Serde}
use node_get.Token.Cache.{Model, TokenCacheInner, build_maps, cached_token}
use node_get.Token.Cache.Build.{AllDiffer, Found, build_maps-Found}
use node_get.Token.Cache.Hex.{Encodes, hex_to_bytes-encode}
use node_get.Token.Auth.{
  World, inner, TokenOrAuth, token, auth, get_token, hash_to_bytes, to_token, reload_from_models,
}
use node_get.Token.Auth.Found.{Proves, get_token_iff}

-- The row was written for this credential: it has the key and the hash of the secret, or the user
-- name and the hash of the password, each hash in the digits of `encode`.
abbrev pub WrittenFor : World → (List ℕ → Text) → TokenOrAuth → Model → Type 0
WrittenFor w encode (token key secret) m =
    (m.token_key ≡ key) × (m.token_hash ≡ encode (hash_to_bytes w secret))
WrittenFor w encode (auth username password) m =
    (m.username ≡ some username) × (m.password_hash ≡ some (encode (hash_to_bytes w password)))

-- The credential logs in, with these bounds in time and this user name.
abbrev pub LogsIn : World → TokenOrAuth → Option ℤ → Option ℤ → Option Text → Type 0
LogsIn w c from to username =
    (t : Token) × (get_token w c ≡ ok t)
    × (t.timestamp_from ≡ from)
    × (t.timestamp_to ≡ to)
    × (t.username ≡ username)

-- SHA-256 gives 32 bytes.
abbrev pub IsSha256 : (List ℕ → List ℕ) → Type 0
IsSha256 sha256 = (s : List ℕ) → (length (sha256 s) ≡ 32) × All (λ b. b < 256) (sha256 s)

module _ (serde : Serde) (encode : List ℕ → Text) (encodes : Encodes encode) where
  abbrev IsDigest : List ℕ → Type 0
  IsDigest bytes = (length bytes ≡ 32) × All (λ b. b < 256) bytes

  stored : (w : World) (t : Text) → IsSha256 w.sha256 → IsDigest (hash_to_bytes w t)
  unfolding hash_to_bytes
  stored w t sha = sha _

  token_hash-cached_token :
      (m : Model) (bytes : List ℕ)
      → m.token_hash ≡ encode bytes
      → IsDigest bytes
      → (cached_token serde m).token_hash_bytes ≡ bytes
  unfolding cached_token
  token_hash-cached_token m bytes e d =
      ground (arith, hex_to_bytes-encode encode encodes bytes d.0 d.1)

  password_hash-cached_token :
      (m : Model) (bytes : List ℕ)
      → m.password_hash ≡ some (encode bytes)
      → IsDigest bytes
      → (cached_token serde m).password_hash_bytes ≡ some bytes
  unfolding cached_token
  password_hash-cached_token m bytes e d =
      ground (arith, hex_to_bytes-encode encode encodes bytes d.0 d.1)

  entry_Proves :
      (w : World) (cache : TokenCacheInner) (c : TokenOrAuth) (m : Model)
      → IsSha256 w.sha256
      → WrittenFor w encode c m
      → lookup m.token_key cache.by_key ≡ some (cached_token serde m)
      → ((u : Text)
          → m.username ≡ some u
          → lookup u cache.by_username ≡ some (cached_token serde m))
      → Proves w cache c (cached_token serde m)
  entry_Proves w cache (token key secret) m sha h k u = (
    rw (← h.0) k,
    sym (token_hash-cached_token m (hash_to_bytes w secret) h.1 (stored w secret sha)),
  )
  entry_Proves w cache (auth username password) m sha h k u = (
    u username h.0,
    password_hash-cached_token m (hash_to_bytes w password) h.1 (stored w password sha),
  )

  WrittenFor-reload :
      (models : List Model) (old : World) (c : TokenOrAuth) (m : Model)
      → WrittenFor old encode c m
      → WrittenFor (reload_from_models serde models old) encode c m
  unfolding reload_from_models hash_to_bytes
  WrittenFor-reload models old (token key secret) m h = h
  WrittenFor-reload models old (auth username password) m h = h

  row_get_token :
      (models : List Model) (old : World) (c : TokenOrAuth) (m : Model)
      → IsSha256 old.sha256
      → Found serde (build_maps serde models) m
      → WrittenFor old encode c m
      → get_token (reload_from_models serde models old) c ≡ ok (to_token (cached_token serde m))
  unfolding reload_from_models
  row_get_token models old c m sha f h =
      let w = reload_from_models serde models old in
      let cache = inner (build_maps serde models) in
      (get_token_iff w cache c (to_token (cached_token serde m)) refl).1 (
        cached_token serde m,
        entry_Proves w cache c m sha (WrittenFor-reload models old c m h) f.key f.username,
        refl,
      )

  -- With a SHA-256 of 32 bytes and a hexadecimal encoder of two digits a byte: after a reload from
  -- a table with unique columns, the credential that a row was written for gets the token of that
  -- row.
  pub get_token-reload :
      (models : List Model) (old : World) (c : TokenOrAuth) (m : Model)
      → AllDiffer models
      → IsSha256 old.sha256
      → Member m models
      → WrittenFor old encode c m
      → get_token (reload_from_models serde models old) c ≡ ok (to_token (cached_token serde m))
  get_token-reload models old c m d sha at h =
      row_get_token models old c m sha (All_at _ m models (build_maps-Found serde models d) at) h

  to_token_fields :
      (m : Model)
      → ((to_token (cached_token serde m)).timestamp_from ≡ m.time_stamp_from)
        × ((to_token (cached_token serde m)).timestamp_to ≡ m.time_stamp_to)
        × ((to_token (cached_token serde m)).username ≡ m.username)
  unfolding to_token cached_token
  to_token_fields m = (refl, refl, refl)

  pub LogsIn-reload :
      (models : List Model) (old : World) (c : TokenOrAuth) (m : Model)
      → AllDiffer models
      → IsSha256 old.sha256
      → Member m models
      → WrittenFor old encode c m
      → LogsIn (reload_from_models serde models old) c m.time_stamp_from m.time_stamp_to m.username
  LogsIn-reload models old c m d sha at h =
      let fields = to_token_fields m in
      (
        to_token (cached_token serde m),
        get_token-reload models old c m d sha at h,
        fields.0,
        fields.1,
        fields.2,
      )

  -- After a reload, a secret that logs in under the key of a row has the hash that the row was written with.
  pub get_token-reload_secret :
      (models : List Model) (old : World) (m : Model) (secret other : Text) (t : Token)
      → AllDiffer models
      → IsSha256 old.sha256
      → Member m models
      → m.token_hash ≡ encode (hash_to_bytes old secret)
      → get_token (reload_from_models serde models old) (token m.token_key other) ≡ ok t
      → hash_to_bytes old other ≡ hash_to_bytes old secret
  unfolding reload_from_models hash_to_bytes
  get_token-reload_secret models old m secret other t d sha at h g =
      let f : Found serde (build_maps serde models) m =
        All_at _ m models (build_maps-Found serde models d) at in
      let (entry, proves, _) =
        (get_token_iff (reload_from_models serde models old) (inner (build_maps serde models))
            (token m.token_key other) t refl).0
          g in
      let same : cached_token serde m ≡ entry = cc (f.key, proves.0) in
      proves.1
      ∙ ap (λ e. e.token_hash_bytes) (sym same)
      ∙ token_hash-cached_token m (hash_to_bytes old secret) h (stored old secret sha)

  pub get_token-reload_password :
      (models : List Model) (old : World) (m : Model) (username password other : Text) (t : Token)
      → AllDiffer models
      → IsSha256 old.sha256
      → Member m models
      → m.username ≡ some username
      → m.password_hash ≡ some (encode (hash_to_bytes old password))
      → get_token (reload_from_models serde models old) (auth username other) ≡ ok t
      → hash_to_bytes old other ≡ hash_to_bytes old password
  unfolding reload_from_models hash_to_bytes
  get_token-reload_password models old m username password other t d sha at u h g =
      let f : Found serde (build_maps serde models) m =
        All_at _ m models (build_maps-Found serde models d) at in
      let (entry, proves, _) =
        (get_token_iff (reload_from_models serde models old) (inner (build_maps serde models))
            (auth username other) t refl).0
          g in
      let same : cached_token serde m ≡ entry = cc (f.username username u, proves.0) in
      let hash : some (hash_to_bytes old other) ≡ some (hash_to_bytes old password) =
        sym proves.1
        ∙ ap (λ e. e.password_hash_bytes) (sym same)
        ∙ password_hash-cached_token m (hash_to_bytes old password) h (stored old password sha) in
      cc hash
