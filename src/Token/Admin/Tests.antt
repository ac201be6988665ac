-- ===== src/Token/Admin/Tests.antt =====
-- The calls on the table of tokens at a small table: the super token, and the user `mia`.
use node_get.Prelude.{◌≡◌, ◌≢◌, refl, inl, List, [], ◌∷◌, none, some, Bool, Member, keep}
use node_get.Prelude.Int.{pos}
use node_get.Text.{
  Text, codes, contains, text_discrete, trim, trim_start, trim_end, is_whitespace, split_once,
  byte_length,
}
use node_get.Error.{NodegetError, Result, ok, err, permission_denied, super_cannot_be_deleted}
use node_get.Permission.{Limit, Token}
use node_get.Token.Limits.{Json, null}
use node_get.Token.Cache.{Model, build_maps, insert_model, cached_token, hex_to_bytes}
use node_get.Token.Auth.{
  TokenOrAuth, token, get_token, hash_to_bytes, from_full_token, check_super_token,
  reload_from_models,
}
use node_get.Token.Auth.Login.{LogsIn, WrittenFor}
use node_get.Token.Table.{TokenServer, find_row}
use node_get.Token.Admin.{
  Request, Response, create, delete, change_password, roll_token_secret, edit, roll_super_token,
  deleted, by_name, rolled, password_changed, edited, find_target_token, find_by_key_or_username,
  check_new_password, extract_target_identifier, change, serve, serve_all,
}
use node_get.Token.Admin.Granted.{Granted, serve-Granted}
use node_get.Token.Admin.Sound.{IsSound, serve_all-IsSound}
use node_get.Token.Admin.Gone.{IsNamed, LockedOut, serve-delete}
use node_get.Token.Admin.Changed.{serve-roll_token_secret}
use node_get.Token.Admin.Edited.{serve-edit}
use node_get.Token.Tests.{
  toy_serde, toy_encode, toy_encode-Encodes, toy_sha256-IsSha256, rows, root_row, rows_differ, w,
}
use node_get.Token.Match.Tests.{limits}

abbrev encode_limits : List Limit → Json
encode_limits ls = null

abbrev server : TokenServer
server = record { rows = rows; world = w }

abbrev after : Request → TokenServer
after r = (serve toy_encode encode_limits toy_serde r server).1

abbrev answer_of : Request → Result Response
answer_of r = (serve toy_encode encode_limits toy_serde r server).0

server-IsSound : IsSound toy_serde server
unfolding reload_from_models
server-IsSound = ((rows_differ, (root_row, inl refl, refl)), (refl, refl))

abbrev calls : List Request
calls =
    create (codes "root:r") (pos 3) (codes "new") (codes "hidden") none none [] none none
    ∷ roll_token_secret (codes "root:r") (codes "root") (codes "s")
    ∷ delete (codes "root:s") (codes "mia")
    ∷ roll_super_token (codes "key2") (codes "secret2") (codes "password")
    ∷ []

serve_all-IsSound_example :
    IsSound toy_serde (serve_all toy_encode encode_limits toy_serde calls server)
    × ((c : TokenOrAuth)
        → (b : Bool) × (check_super_token
              (serve_all toy_encode encode_limits toy_serde calls server).world
              c
            ≡ ok b))
serve_all-IsSound_example =
    serve_all-IsSound toy_encode encode_limits toy_serde calls server server-IsSound

abbrev delete_mia : Request
delete_mia = delete (codes "root:r") (codes "mia")

mia_deleted : answer_of delete_mia ≡ ok (deleted 1 by_name)
unfolding serve change check_super_token reload_from_models build_maps insert_model text_discrete
    cached_token hex_to_bytes toy_encode from_full_token split_once find_row keep trim trim_end
    trim_start is_whitespace
mia_deleted = refl

-- The super token is not deleted.
root_kept :
    answer_of (delete (codes "root:r") (codes "root"))
    ≡ err (permission_denied super_cannot_be_deleted)
unfolding serve change check_super_token reload_from_models build_maps insert_model text_discrete
    cached_token hex_to_bytes toy_encode from_full_token split_once find_row trim trim_end
    trim_start is_whitespace
root_kept = refl

serve-Granted_example :
    ((answer : Response) → answer_of delete_mia ≡ ok answer → Granted server.world delete_mia)
    × ((e : NodegetError) → answer_of delete_mia ≡ err e → after delete_mia ≡ server)
serve-Granted_example = serve-Granted toy_encode encode_limits toy_serde delete_mia server

serve-delete_example :
    (m : Model) × Member m rows
    × (m.id ≢ pos 1)
    × IsNamed (codes "mia") m
    × LockedOut (after delete_mia).world m
    × ((n : Model) → Member n rows → n.id ≢ m.id → Member n (after delete_mia).rows)
serve-delete_example =
    serve-delete toy_serde toy_encode encode_limits (codes "root:r") (codes "mia") server
      (deleted 1 by_name) rows_differ mia_deleted

abbrev roll_mia : Request
roll_mia = roll_token_secret (codes "root:r") (codes "mia|pw") (codes "fresh")

mia_rolled : answer_of roll_mia ≡ ok (rolled (codes "key") (codes "fresh"))
unfolding serve change check_super_token reload_from_models build_maps insert_model text_discrete
    cached_token hex_to_bytes toy_encode from_full_token split_once find_row find_target_token
    find_by_key_or_username extract_target_identifier
mia_rolled = refl

serve-roll_token_secret_example :
    (m : Model) × (find_target_token rows (codes "mia|pw") ≡ ok m)
    × (rolled (codes "key") (codes "fresh") ≡ rolled m.token_key (codes "fresh"))
    × LogsIn
        (after roll_mia).world
        (token m.token_key (codes "fresh"))
        m.time_stamp_from
        m.time_stamp_to
        m.username
    × ((other : Text) (t : Token)
        → get_token (after roll_mia).world (token m.token_key other) ≡ ok t
        → hash_to_bytes w other ≡ hash_to_bytes w (codes "fresh"))
unfolding reload_from_models
serve-roll_token_secret_example =
    serve-roll_token_secret toy_serde toy_encode encode_limits (codes "root:r") (codes "mia|pw")
      (codes "fresh") server (rolled (codes "key") (codes "fresh")) toy_encode-Encodes
      toy_sha256-IsSha256 rows_differ mia_rolled

abbrev change_mia : Request
change_mia = change_password (codes "root:r") (codes "mia") (codes "longer")

mia_changed : answer_of change_mia ≡ ok password_changed
unfolding serve change check_super_token reload_from_models build_maps insert_model text_discrete
    cached_token hex_to_bytes toy_encode from_full_token split_once find_row find_target_token
    find_by_key_or_username contains byte_length check_new_password
mia_changed = refl

abbrev edit_mia : Request
edit_mia = edit (codes "root:r") (codes "mia") limits

mia_edited : answer_of edit_mia ≡ ok (edited (pos 2) (codes "key"))
unfolding serve change check_super_token reload_from_models build_maps insert_model text_discrete
    cached_token hex_to_bytes toy_encode from_full_token split_once find_row find_by_key_or_username
mia_edited = refl

serve-edit_example :
    (m : Model) × (find_by_key_or_username rows (codes "mia") ≡ some m)
    × (m.id ≢ pos 1)
    × ((c : TokenOrAuth)
        → WrittenFor w toy_encode c m
        → (t : Token) × (get_token (after edit_mia).world c ≡ ok t) × (t.token_limit ≡ limits))
unfolding reload_from_models
serve-edit_example =
    serve-edit toy_serde toy_encode encode_limits (codes "root:r") (codes "mia") limits server
      (edited (pos 2) (codes "key")) toy_encode-Encodes toy_sha256-IsSha256 rows_differ refl
      mia_edited
