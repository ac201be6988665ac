-- ===== src/Token/Auth.antt =====
-- Credentials and the checks on them: crates/ng-core/src/permission/token_auth.rs, and from
-- crates/ng-token `check_super_token` (super_token.rs), `authenticate` (cache.rs), `get_token` and
-- `check_token_limit` (get.rs). The global caches, the clock and SHA-256 are fields of `World`.
pub mod Check
pub mod Single
pub mod Parse
pub mod Login
pub mod Window
pub mod Found
use node_get.Prelude.{
  ℕ, Bool, true, false, List, [], ◌∷◌, ◌++◌, Option, none, some, ◌&&◌, ◌||◌, not, if◌then◌else◌,
}
use node_get.Prelude.Int.{ℤ, ltb_ℤ}
use node_get.Text.{Text, text_eq, codes, split_once}
use node_get.Dict.{lookup}
use node_get.Error.{
  NodegetError, Message, Result, ok, err, map_err, ◌>>=◌, config_not_found, not_found,
  permission_denied, token_cache_not_initialized, super_token_missing, invalid_credentials,
  token_not_found, invalid_token_format, display,
}
use node_get.Permission.{Limit, Scope, Permission, Token}
use node_get.Token.Match.{check_limits_cover}
use node_get.Token.Limits.{Serde}
use node_get.Token.Cache.{Model, CachedToken, TokenCacheInner, Maps, build_maps}

pub data TokenOrAuth : Type 0 where
  token auth : Text → Text → TokenOrAuth

-- `Result<Self, String>`: the error is a plain message.
pub data Parsed : Type 0 where
  parsed : TokenOrAuth → Parsed
  refused : Message → Parsed

unfoldable pub from_full_token : Text → Parsed
from_full_token full_token = elim (split_once full_token b':') [
  | some (key, secret) ↦ parsed (token key secret)
  | none ↦ elim (split_once full_token b'|') [
    | some (username, password) ↦ parsed (auth username password)
    | none ↦ refused invalid_token_format
  ]
]

-- What a call can see: `sha256` of a byte string, the time (`get_local_timestamp_ms_i64`), the two
-- global caches, and whether a permission checker is registered.
pub record World : Type 0 where
  pub sha256 : List ℕ → List ℕ
  pub now : Result ℤ
  pub cache : Option TokenCacheInner
  pub super_token : Option CachedToken
  pub checker_registered : Bool

username_ok : Option Text → Text → Bool
username_ok none username = false
username_ok (some u) username = text_eq u username

abbrev denied : NodegetError
denied = permission_denied invalid_credentials

unfoldable pub to_token : CachedToken → Token
to_token entry = record {
  version = entry.model.version;
  token_key = entry.model.token_key;
  timestamp_from = entry.model.time_stamp_from;
  timestamp_to = entry.model.time_stamp_to;
  token_limit = entry.parsed_limits;
  username = entry.model.username;
}

by_username : TokenCacheInner → Text → Result Token
unfolding to_token
by_username cache identifier = elim (lookup identifier cache.by_username) [
  | some entry ↦ ok (to_token entry)
  | none ↦ err (not_found (token_not_found identifier))
]

-- `now < from`, `now > to`, on a bound that is there.
unfoldable pub starts_later : ℤ → Option ℤ → Bool
starts_later now none = false
starts_later now (some from) = ltb_ℤ now from

unfoldable pub ended_before : ℤ → Option ℤ → Bool
ended_before now none = false
ended_before now (some to) = ltb_ℤ to now

-- The two early returns on the token's validity.
unfoldable pub is_in_time : ℤ → Token → Bool
unfolding starts_later ended_before
is_in_time now t =
    if starts_later now t.timestamp_from
    then false
    else if ended_before now t.timestamp_to
    then false
    else true

-- The two nested loops over what is requested.
all_permissions : List Limit → Scope → List Permission → Bool
all_permissions limits req_scope [] = true
all_permissions limits req_scope (req_perm ∷ perms) =
    let rest = all_permissions limits req_scope perms in
    if not (check_limits_cover limits req_scope req_perm) then false else rest

unfoldable pub all_requested : List Limit → List Scope → List Permission → Bool
unfolding all_permissions
all_requested limits [] permissions = true
all_requested limits (req_scope ∷ scopes) permissions =
    let rest = all_requested limits scopes permissions in
    if not (all_permissions limits req_scope permissions) then false else rest

abbrev pub as_denied : NodegetError → NodegetError
as_denied e = permission_denied (display e)

module _ (w : World) where
  unfoldable pub hash_to_bytes : Text → List ℕ
  hash_to_bytes need_hash = w.sha256 (codes "NODEGET" ++ need_hash)

  require_cache : Result TokenCacheInner
  require_cache = elim w.cache [
    | none ↦ err (config_not_found token_cache_not_initialized)
    | some cache ↦ ok cache
  ]

  require_super_entry : Result CachedToken
  require_super_entry = elim w.super_token [
    | none ↦ err (not_found super_token_missing)
    | some entry ↦ ok entry
  ]

  -- `stored` against the hash of `password`; an account without a password never matches.
  password_ok : Option (List ℕ) → Text → Bool
  unfolding hash_to_bytes
  password_ok none password = false
  password_ok (some stored) password = text_eq (hash_to_bytes password) stored

  match_super : CachedToken → TokenOrAuth → Bool
  unfolding password_ok username_ok hash_to_bytes
  match_super entry (token key secret) =
      if not (text_eq key entry.model.token_key)
      then false
      else text_eq (hash_to_bytes secret) entry.token_hash_bytes
  match_super entry (auth username password) =
      if not (username_ok entry.model.username username)
      then false
      else password_ok entry.password_hash_bytes password

  unfoldable pub check_super_token : TokenOrAuth → Result Bool
  unfolding require_cache require_super_entry match_super
  check_super_token token_or_auth = do
    cache ← require_cache
    super_entry ← require_super_entry
    ok (match_super super_entry token_or_auth)

  verify_secret : Option CachedToken → Text → Result CachedToken
  unfolding hash_to_bytes
  verify_secret none secret = err denied
  verify_secret (some entry) secret =
      if not (text_eq (hash_to_bytes secret) entry.token_hash_bytes) then err denied else ok entry

  verify_password : Option CachedToken → Text → Result CachedToken
  unfolding password_ok
  verify_password none password = err denied
  verify_password (some entry) password =
      if not (password_ok entry.password_hash_bytes password) then err denied else ok entry

  find_entry : TokenCacheInner → TokenOrAuth → Result CachedToken
  unfolding verify_secret verify_password
  find_entry cache (token key secret) = verify_secret (lookup key cache.by_key) secret
  find_entry cache (auth username password) =
      verify_password (lookup username cache.by_username) password

  unfoldable pub get_token : TokenOrAuth → Result Token
  unfolding require_cache find_entry to_token
  get_token token_or_auth = do
    cache ← require_cache
    entry ← find_entry cache token_or_auth
    ok (to_token entry)

  unfoldable pub get_token_by_key_or_username : Text → Result Token
  unfolding require_cache to_token by_username
  get_token_by_key_or_username identifier = do
    cache ← require_cache
    elim (lookup identifier cache.by_key) [
      | some entry ↦ ok (to_token entry)
      | none ↦ by_username cache identifier
    ]

  -- The branches of `authenticate` below the super token's record.
  authenticate_with : CachedToken → TokenCacheInner → TokenOrAuth → Result (CachedToken × Bool)
  unfolding hash_to_bytes password_ok username_ok verify_secret verify_password
  authenticate_with super_entry cache (token key secret) =
      if text_eq key super_entry.model.token_key
      then (if text_eq (hash_to_bytes secret) super_entry.token_hash_bytes
          then ok (super_entry, true)
          else err denied)
      else (do entry ← verify_secret (lookup key cache.by_key) secret; ok (entry, false))
  authenticate_with super_entry cache (auth username password) =
      if username_ok super_entry.model.username username
      then (if password_ok super_entry.password_hash_bytes password
          then ok (super_entry, true)
          else err denied)
      else (do
        entry ← verify_password (lookup username cache.by_username) password
        ok (entry, false))

  unfoldable pub authenticate : TokenCacheInner → TokenOrAuth → Result (CachedToken × Bool)
  unfolding require_super_entry authenticate_with
  authenticate cache token_or_auth = do
    super_entry ← require_super_entry
    authenticate_with super_entry cache token_or_auth

  limited : TokenOrAuth → List Scope → List Permission → Result Bool
  limited token_or_auth scopes permissions = do
    t ← get_token token_or_auth
    now ← w.now
    if not (is_in_time now t) then ok false else ok (all_requested t.token_limit scopes permissions)

  unfoldable pub check_token_limit : TokenOrAuth → List Scope → List Permission → Result Bool
  unfolding limited
  check_token_limit token_or_auth scopes permissions = do
    is_super_token ← map_err as_denied (check_super_token token_or_auth)
    if is_super_token then ok true else limited token_or_auth scopes permissions

abbrev pub inner : Maps → TokenCacheInner
inner maps = record { by_key = maps.by_key; by_username = maps.by_username }

-- `reload_from_models` takes two locks, one after the other: the indices are replaced first, then
-- the super token's record.
unfoldable pub write_indices : Serde → List Model → World → World
write_indices serde models w = record w { cache = some (inner (build_maps serde models)) }

unfoldable pub write_super_token : Serde → List Model → World → World
write_super_token serde models w =
    let maps = build_maps serde models in record w { super_token = maps.super_token }

unfoldable pub reload_from_models : Serde → List Model → World → World
unfolding write_indices write_super_token
reload_from_models serde models w = write_super_token serde models (write_indices serde models w)
