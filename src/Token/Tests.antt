-- ===== src/Token/Tests.antt =====
-- The theorems on tokens at a small table: a super token, and a user with two limits.
use node_get.Prelude.{
  ℕ, zero, suc, ◌≡◌, ◌≢◌, ◌↔◌, ◌⊎◌, refl, sym, inl, inr, true, false, List, [], ◌∷◌, Option, none,
  some, length, replicate, ◌/◌, ◌%◌, ◌<◌, All, arith, ap,
}
use node_get.Prelude.Int.{pos}
use node_get.Text.{Text, codes, text_discrete}
use node_get.Dict.{lookup, insert}
use node_get.Error.{Result, ok, err, permission_denied, invalid_credentials}
use node_get.Permission.{Limit, Permission, Task, Token}
use node_get.Token.Limits.{
  Json, Serde, array, null, string, object, nil, cons, end, field, parse_token_limit_with_compat,
}
use node_get.Token.Cache.{
  Model, TokenCacheInner, build_maps, insert_model, cached_token, hex_to_bytes,
}
use node_get.Token.Cache.Build.{AllDiffer}
use node_get.Token.Cache.Hex.{hex_digit, Encodes}
use node_get.Token.Auth.{
  World, TokenOrAuth, token, auth, inner, hash_to_bytes, get_token, check_super_token,
  check_token_limit, reload_from_models, write_indices, to_token,
}
use node_get.Token.Auth.Check.{IsAllowed, check_token_limit_iff}
use node_get.Token.Auth.Single.{one_step, two_steps, authenticate-reload}
use node_get.Token.Auth.Login.{IsSha256, get_token-reload}
use node_get.Token.Auth.Window.{window_denies}
use node_get.Token.Match.Tests.{limits, cfg, read_key}

-- A stand-in for serde_json: no limits decode, and a permission if it is the text "Known".
abbrev pub toy_permission : Json → Option Permission
toy_permission (string t) = elim (text_discrete t (codes "Known")) [
  | yes _ ↦ some (Permission.task Task.listen)
  | no _ ↦ none
]
toy_permission _ = none

abbrev pub toy_serde : Serde
toy_serde = record {
  limits = λ v. elim v [ null ↦ some limits | _ ↦ some [] ];
  permission = toy_permission;
}

abbrev stored_limits : Json
stored_limits = array (
    cons
      (object (
        field (codes "permissions")
          (array (cons (string (codes "Known")) (cons (string (codes "Old")) nil))) end))
      nil)

-- Two digits to a byte, as in the `hex` crate, and a stand-in for SHA-256.
unfoldable pub toy_encode : List ℕ → Text
unfolding hex_digit
toy_encode [] = []
toy_encode (b ∷ bytes) = hex_digit (b / 16) ∷ hex_digit (b % 16) ∷ toy_encode bytes

pub toy_encode-Encodes : Encodes toy_encode
unfolding toy_encode
toy_encode-Encodes = record { nil = refl; cons = λ b bytes. refl }

abbrev pub toy_sha256 : List ℕ → List ℕ
toy_sha256 s = replicate 32 (length s % 256)

All-replicate : (P : ℕ → Type 0) (n a : ℕ) → P a → All P (replicate n a)
All-replicate P zero a h = tt
All-replicate P (suc n) a h = (h, All-replicate P n a h)

pub toy_sha256-IsSha256 : IsSha256 toy_sha256
toy_sha256-IsSha256 s = (refl, All-replicate (λ b. b < 256) 32 (length s % 256) (omega arith))

-- The credentials of the super token and of the user; the last one is nobody's.
abbrev pub root : TokenOrAuth
root = token (codes "root") (codes "r")

abbrev pub mia : TokenOrAuth
mia = auth (codes "mia") (codes "pw")

abbrev pub stranger : TokenOrAuth
stranger = token (codes "key") (codes "bad")

abbrev pub before : World
before = record {
  sha256 = toy_sha256;
  now = ok (pos 50);
  cache = none;
  super_token = none;
  checker_registered = true;
}

abbrev pub digits : Text → Text
digits t = toy_encode (hash_to_bytes before t)

abbrev pub root_row : Model
root_row = record {
  id = pos 1;
  version = pos 1;
  token_key = codes "root";
  token_hash = digits (codes "r");
  time_stamp_from = none;
  time_stamp_to = none;
  token_limit = array nil;
  username = none;
  password_hash = none;
}

abbrev pub mia_row : Model
mia_row = record {
  id = pos 2;
  version = pos 1;
  token_key = codes "key";
  token_hash = digits (codes "secret");
  time_stamp_from = some (pos 10);
  time_stamp_to = some (pos 90);
  token_limit = null;
  username = some (codes "mia");
  password_hash = some (digits (codes "pw"));
}

abbrev pub rows : List Model
rows = root_row ∷ mia_row ∷ []

pub rows_differ : AllDiffer rows
rows_differ =
    (((λ e. ground (arith, e), λ e. ground (arith, e), λ u e e'. ground (arith, e)), tt), (tt, tt))

abbrev pub w : World
w = reload_from_models toy_serde rows before

get_token-reload_example : get_token w mia ≡ ok (to_token (cached_token toy_serde mia_row))
unfolding toy_encode
get_token-reload_example =
    get_token-reload toy_serde toy_encode toy_encode-Encodes rows before mia mia_row rows_differ
      toy_sha256-IsSha256 (inr (inl refl)) (refl, refl)

abbrev pub cache : TokenCacheInner
cache = inner (build_maps toy_serde rows)

check_token_limit_iff_example :
    (check_token_limit w mia (cfg ∷ []) (read_key (codes "ab") ∷ []) ≡ ok true) ↔ (
      (check_super_token w mia ≡ ok true)
      ⊎ (check_super_token w mia ≡ ok false)
        × IsAllowed w mia (cfg ∷ []) (read_key (codes "ab") ∷ []))
check_token_limit_iff_example = check_token_limit_iff w mia (cfg ∷ []) (read_key (codes "ab") ∷ [])

-- Nobody has this key.
stranger_refused : get_token w stranger ≡ err (permission_denied invalid_credentials)
unfolding get_token reload_from_models build_maps lookup insert insert_model text_discrete
    cached_token hex_to_bytes toy_encode
stranger_refused = refl

authenticate-reload_example :
    (c : TokenCacheInner) × (w.cache ≡ some c) × (one_step w c mia ≡ two_steps w mia)
authenticate-reload_example = authenticate-reload toy_serde rows before mia rows_differ (inl refl)

-- The super token is replaced: the table holds a new secret.
abbrev new_rows : List Model
new_rows = record root_row { token_hash = digits (codes "new") } ∷ mia_row ∷ []

window_denies_example :
    check_token_limit
      (write_indices toy_serde new_rows w)
      (token (codes "root") (codes "new"))
      (cfg ∷ [])
      (read_key (codes "ab") ∷ [])
    ≢ ok true
unfolding write_indices check_super_token get_token reload_from_models build_maps lookup insert
    insert_model text_discrete cached_token hex_to_bytes toy_encode to_token
    parse_token_limit_with_compat
window_denies_example =
    window_denies toy_serde new_rows w cache (token (codes "root") (codes "new"))
      (to_token (cached_token toy_serde (record root_row { token_hash = digits (codes "new") })))
      cfg [] (read_key (codes "ab")) [] refl refl refl refl

abbrev limits_of : Result Token → List Limit
limits_of (ok t) = t.token_limit
limits_of (err e) = []

-- The user's limits are those decoded from the table.
pub mia_limits : (t : Token) → get_token w mia ≡ ok t → t.token_limit ≡ limits
unfolding get_token reload_from_models build_maps lookup insert insert_model text_discrete
    cached_token hex_to_bytes toy_encode to_token parse_token_limit_with_compat
mia_limits t h = ap limits_of (sym h)
