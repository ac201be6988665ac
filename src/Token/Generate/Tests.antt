-- ===== src/Token/Generate/Tests.antt =====
-- The theorem on generated tokens at a small table.
use node_get.Prelude.{◌≡◌, refl, List, [], none, some, true, any}
use node_get.Prelude.Int.{pos}
use node_get.Text.{Text, codes, contains, text_discrete}
use node_get.Error.{
  Result, ok, err, permission_denied, only_super_creates_tokens, database_error,
  token_insert_failed,
}
use node_get.Permission.{Limit}
use node_get.Token.Limits.{Json, array, nil}
use node_get.Token.Cache.{build_maps, insert_model, cached_token, hex_to_bytes}
use node_get.Token.Auth.{
  token, auth, parsed, from_full_token, check_super_token, reload_from_models,
}
use node_get.Token.Auth.Login.{LogsIn}
use node_get.Token.Auth.Parse.{to_full_token}
use node_get.Token.Table.{TokenServer, insert_row}
use node_get.Token.Generate.{generate_and_store_token}
use node_get.Token.Generate.Stored.{
  generate_and_store_token-LogsIn, generate_and_store_token-PasswordLogsIn,
}
use node_get.Token.Tests.{
  toy_serde, toy_encode, toy_encode-Encodes, toy_sha256-IsSha256, root, mia, rows, rows_differ, w,
}

abbrev encode_limits : List Limit → Json
encode_limits limits = array nil

abbrev server : TokenServer
server = record { rows = rows; world = w }

-- The super token asks for a token of the user `zoe` that is valid from 20 to 80.
abbrev generated : Result (Text × Text) × TokenServer
generated =
    generate_and_store_token toy_encode encode_limits toy_serde (pos 3) (codes "new")
      (codes "hidden") root (some (pos 20)) (some (pos 80)) [] (some (codes "zoe"))
      (some (codes "pass")) server

generated_ok : generated.0 ≡ ok (codes "new", codes "hidden")
unfolding generate_and_store_token check_super_token reload_from_models build_maps insert_model
    text_discrete cached_token hex_to_bytes toy_encode contains insert_row any
generated_ok = refl

-- The user name `mia` is taken.
taken_refused :
    (generate_and_store_token toy_encode encode_limits toy_serde
      (pos 3)
      (codes "new")
      (codes "hidden")
      root
      none
      none
      []
      (some (codes "mia"))
      (some (codes "pass"))
      server).0
    ≡ err (database_error token_insert_failed)
unfolding generate_and_store_token check_super_token reload_from_models build_maps insert_model
    text_discrete cached_token hex_to_bytes toy_encode contains insert_row any
taken_refused = refl

-- A user's credential generates nothing.
mia_refused :
    (generate_and_store_token toy_encode encode_limits toy_serde
      (pos 3)
      (codes "new")
      (codes "hidden")
      mia
      none
      none
      []
      none
      none
      server).0
    ≡ err (permission_denied only_super_creates_tokens)
unfolding generate_and_store_token check_super_token reload_from_models build_maps insert_model
    cached_token
mia_refused = refl

generate_and_store_token-LogsIn_example :
    (check_super_token server.world root ≡ ok true)
    × LogsIn generated.1.world
        (token (codes "new") (codes "hidden"))
        (some (pos 20))
        (some (pos 80))
        (some (codes "zoe"))
unfolding reload_from_models
generate_and_store_token-LogsIn_example =
    generate_and_store_token-LogsIn toy_serde toy_encode encode_limits (pos 3) (codes "new")
      (codes "hidden") root (some (pos 20)) (some (pos 80)) [] (some (codes "zoe"))
      (some (codes "pass")) server (codes "new", codes "hidden") toy_encode-Encodes
      toy_sha256-IsSha256 rows_differ generated_ok

generate_and_store_token-PasswordLogsIn_example :
    (from_full_token (codes "zoe|pass") ≡ parsed (auth (codes "zoe") (codes "pass")))
    × LogsIn generated.1.world
        (auth (codes "zoe") (codes "pass"))
        (some (pos 20))
        (some (pos 80))
        (some (codes "zoe"))
unfolding reload_from_models to_full_token
generate_and_store_token-PasswordLogsIn_example =
    generate_and_store_token-PasswordLogsIn toy_serde toy_encode encode_limits (pos 3) (codes "new")
      (codes "hidden") root (some (pos 20)) (some (pos 80)) [] (codes "zoe") (codes "pass") server
      (codes "new", codes "hidden") toy_encode-Encodes toy_sha256-IsSha256 rows_differ generated_ok
