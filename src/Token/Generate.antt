-- ===== src/Token/Generate.antt =====
-- crates/ng-token/src/generate_token.rs: `generate_and_store_token`. The id that the database gives
-- and the random strings are arguments, `encode_limits` is serde_json on the limits, and `encode` is the
-- crate `hex`. Errors of the connection and of serde_json are left out.
pub mod Stored
pub mod Tests
use node_get.Prelude.{ℕ, Bool, true, false, not, List, Option, none, some, ◌||◌, if◌then◌else◌}
use node_get.Prelude.Int.{ℤ, pos}
use node_get.Text.{Text, contains}
use node_get.Error.{
  Result, ok, err, map_err, ◌>>=◌, ◌>>◌, permission_denied, parse_error, invalid_input,
  only_super_creates_tokens, username_and_password_together, username_has_separator,
  password_has_separator, token_insert_failed,
}
use node_get.Permission.{Limit}
use node_get.Token.Limits.{Json, Serde}
use node_get.Token.Cache.{Model}
use node_get.Token.Auth.{World, TokenOrAuth, check_super_token, hash_to_bytes, as_denied}
use node_get.Token.Table.{TokenServer, Change, insert_row, commit}

abbrev pub given_together : Option Text → Option Text → Result (Unit {0})
given_together none none = ok tt
given_together (some username) (some password) = ok tt
given_together none (some password) = err (parse_error username_and_password_together)
given_together (some username) none = err (parse_error username_and_password_together)

abbrev pub has_separator : Option Text → Bool
has_separator none = false
has_separator (some text) = contains text b':' || contains text b'|'

-- The checks, in their order.
abbrev pub check_request : World → TokenOrAuth → Option Text → Option Text → Result (Unit {0})
check_request w father username password =
    map_err as_denied (check_super_token w father) >>= λ is_authorized.
    if not is_authorized
    then err (permission_denied only_super_creates_tokens)
    else (given_together username password
        >> (if has_separator username
            then err (invalid_input username_has_separator)
            else if has_separator password
            then err (invalid_input password_has_separator)
            else ok tt))

module _ (encode : List ℕ → Text) (encode_limits : List Limit → Json) where
  abbrev pub hash_optional : World → Option Text → Option Text
  hash_optional w none = none
  hash_optional w (some password) = some (encode (hash_to_bytes w password))

  abbrev pub new_model :
      World → ℤ → Text → Text → Option ℤ → Option ℤ → List Limit → Option Text → Option Text → Model
  new_model w id token_key token_secret from to limits username password = record {
    id = id;
    version = pos 1;
    token_key = token_key;
    token_hash = encode (hash_to_bytes w token_secret);
    time_stamp_from = from;
    time_stamp_to = to;
    token_limit = encode_limits limits;
    username = username;
    password_hash = hash_optional w password;
  }

  abbrev pub generate :
      ℤ
      → Text
      → Text
      → TokenOrAuth
      → Option ℤ
      → Option ℤ
      → List Limit
      → Option Text
      → Option Text
      → TokenServer
      → Change (Text × Text)
  generate id token_key token_secret father from to limits username password s = do
    check_request s.world father username password
    rows ←
        insert_row token_insert_failed
          (new_model s.world id token_key token_secret from to limits username password) s.rows
    ok ((token_key, token_secret), rows)

  unfoldable pub generate_and_store_token :
      Serde
      → ℤ
      → Text
      → Text
      → TokenOrAuth
      → Option ℤ
      → Option ℤ
      → List Limit
      → Option Text
      → Option Text
      → TokenServer
      → Result (Text × Text) × TokenServer
  generate_and_store_token serde id token_key token_secret father from to limits username password
        s =
      commit serde (generate id token_key token_secret father from to limits username password s) s
