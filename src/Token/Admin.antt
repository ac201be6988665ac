-- ===== src/Token/Admin.antt =====
-- crates/ng-token/src/rpc (create.rs, delete.rs, change_password.rs, roll_token_secret.rs, edit.rs,
-- utils.rs) and `generate_super_token` and `roll_super_token` of super_token.rs: the calls that
-- change the table of tokens. Random strings and the id that the database gives are in the request.
-- The text of an answer is the data that it is made of.
pub mod Granted
pub mod Deleted
pub mod Kept
pub mod Sound
pub mod Gone
pub mod Answers
pub mod Found
pub mod Changed
pub mod Edited
pub mod Tests
use node_get.Prelude.{
  ℕ, Bool, true, false, not, ◌&&◌, ◌||◌, List, [], ◌∷◌, Option, none, some, ltb, keep, length,
  if◌then◌else◌,
}
use node_get.Prelude.Int.{ℤ, pos, eq_ℤ}
use node_get.Text.{Text, text_eq, codes, contains, split_once, trim, is_empty, byte_length}
use node_get.Error.{
  Message, Result, ok, err, map_err, ◌>>=◌, ◌>>◌, permission_denied, parse_error, invalid_input,
  not_found, only_super_deletes, only_super_edits, only_super_performs, target_is_empty,
  super_missing_in_table, super_cannot_be_deleted, super_cannot_be_edited, new_password_is_empty,
  new_password_too_short, password_has_separator, target_not_found, token_missing,
  token_insert_failed, super_transaction_failed,
}
use node_get.Permission.{Limit}
use node_get.Token.Limits.{Json, Serde, array, nil}
use node_get.Token.Cache.{Model}
use node_get.Token.Auth.{
  World, Parsed, parsed, refused, TokenOrAuth, from_full_token, check_super_token, hash_to_bytes,
  as_denied,
}
use node_get.Token.Guard.{parse_token, allowed_or}
use node_get.Token.Table.{
  TokenServer, Change, commit, has_id, has_key, has_username, insert_row, find_row, update_row,
  delete_rows,
}
use node_get.Token.Generate.{generate}

pub data MatchedBy : Type 0 where
  by_token_key by_name : MatchedBy

pub data Response : Type 0 where
  created rolled : Text → Text → Response
  deleted : ℕ → MatchedBy → Response
  password_changed : Response
  edited : ℤ → Text → Response
  super_token : Text → Text → Text → Response
  super_token_exists : Response

-- What each call is given; the credential comes first, but for the two commands of the server.
pub data Request : Type 0 where
  create :
      Text
      → ℤ
      → Text
      → Text
      → Option ℤ
      → Option ℤ
      → List Limit
      → Option Text
      → Option Text
      → Request
  delete : Text → Text → Request
  change_password : Text → Text → Text → Request
  roll_token_secret : Text → Text → Text → Request
  edit : Text → Text → List Limit → Request
  generate_super_token roll_super_token : Text → Text → Text → Request

unfoldable pub extract_target_identifier : Text → Text
extract_target_identifier identifier = elim (split_once identifier b':') [
  | some (k, _) ↦ k
  | none ↦ elim (split_once identifier b'|') [ some (u, _) ↦ u | none ↦ identifier ]
]

unfoldable pub find_by_key_or_username : List Model → Text → Option Model
find_by_key_or_username rows key_or_name = elim (find_row (has_key key_or_name) rows) [
  | some model ↦ some model
  | none ↦ find_row (has_username key_or_name) rows
]

abbrev pub or_error : {A : Type 0} → Result A → Option A → Result A
or_error missing (some a) = ok a
or_error missing none = missing

-- The loop over the candidates, of which there are one or two.
unfoldable pub find_target_token : List Model → Text → Result Model
find_target_token rows identifier =
    let extracted = extract_target_identifier identifier in
    elim (find_by_key_or_username rows identifier) [
      | some model ↦ ok model
      | none ↦ or_error (err (not_found (target_not_found extracted))) (
          if not (text_eq extracted identifier)
          then find_by_key_or_username rows extracted
          else none)
    ]

abbrev pub plain_parsed : Parsed → Result TokenOrAuth
plain_parsed (parsed c) = ok c
plain_parsed (refused m) = err (parse_error m)

-- The super token's check after parsing; the denial is the method's own.
abbrev pub only_super : World → Message → TokenOrAuth → Result (Unit {0})
only_super w denial c = map_err as_denied (check_super_token w c) >>= λ is_super.
    allowed_or (permission_denied denial) is_super

abbrev pub require_super : World → Message → Text → Result (Unit {0})
require_super w denial token = parse_token token >>= only_super w denial

abbrev pub verify_supertoken : World → Text → Result (Unit {0})
verify_supertoken w token =
    plain_parsed (from_full_token token) >>= only_super w only_super_performs

unfoldable pub check_new_password : Text → Result (Unit {0})
check_new_password new_password =
    if is_empty new_password
    then err (invalid_input new_password_is_empty)
    else if ltb (byte_length new_password) 6
    then err (invalid_input new_password_too_short)
    else if contains new_password b':' || contains new_password b'|'
    then err (invalid_input password_has_separator)
    else ok tt

-- `filter(Id.ne(1))` with the filter on the column.
abbrev pub is_deletable : (Model → Bool) → Model → Bool
is_deletable p r = not (has_id (pos 1) r) && p r

-- `delete_token_by_key`, and `delete_token_by_username` if there was no such key.
abbrev pub delete_matching : Text → List Model → Change Response
delete_matching target rows =
    let by_key = length (keep (is_deletable (has_key target)) rows) in
    let by_username = length (keep (is_deletable (has_username target)) rows) in
    if ltb 0 by_key
    then ok (deleted by_key by_token_key, delete_rows (is_deletable (has_key target)) rows)
    else if ltb 0 by_username
    then ok (deleted by_username by_name, delete_rows (is_deletable (has_username target)) rows)
    else err (not_found (token_missing (extract_target_identifier target)))

abbrev pub is_super_target : Text → Model → Bool
is_super_target target super = has_key target super || has_username target super

abbrev pub delete_token : Text → Text → TokenServer → Change Response
delete_token token target s = do
  require_super s.world only_super_deletes token
  if is_empty (trim target) then err (invalid_input target_is_empty) else ok tt
  super ← or_error (err (not_found super_missing_in_table)) (find_row (has_id (pos 1)) s.rows)
  if is_super_target target super then err (permission_denied super_cannot_be_deleted) else ok tt
  delete_matching target s.rows

-- A row that clashes is a violation of a unique constraint: the answer is `Ok(None)`. `commit` reloads
-- the cache after it too, which the code does only after an insertion.
abbrev pub stored_or_exists : Response → List Model → Result (List Model) → Change Response
stored_or_exists answer rows (ok stored) = ok (answer, stored)
stored_or_exists answer rows (err _) = ok (super_token_exists, rows)

module _ (encode : List ℕ → Text) (encode_limits : List Limit → Json) where
  abbrev pub set_password : World → Text → Model → Model
  set_password w new_password r = record r {
    password_hash = some (encode (hash_to_bytes w new_password));
  }

  abbrev pub set_secret : World → Text → Model → Model
  set_secret w new_secret r = record r { token_hash = encode (hash_to_bytes w new_secret) }

  abbrev pub set_limits : List Limit → Model → Model
  set_limits limits r = record r { token_limit = encode_limits limits }

  abbrev pub password_change : Text → Text → Text → TokenServer → Change Response
  password_change token target new_password s = do
    verify_supertoken s.world token
    check_new_password new_password
    model ← find_target_token s.rows target
    ok (password_changed, update_row model.id (set_password s.world new_password) s.rows)

  abbrev pub secret_roll : Text → Text → Text → TokenServer → Change Response
  secret_roll token target new_secret s = do
    verify_supertoken s.world token
    model ← find_target_token s.rows target
    ok (
      rolled model.token_key new_secret,
      update_row model.id (set_secret s.world new_secret) s.rows,
    )

  abbrev pub limits_edit : Text → Text → List Limit → TokenServer → Change Response
  limits_edit token target limits s = do
    require_super s.world only_super_edits token
    model ←
        or_error (err (not_found (token_missing (extract_target_identifier target))))
          (find_by_key_or_username s.rows target)
    if has_id (pos 1) model then err (permission_denied super_cannot_be_edited) else ok tt
    ok (edited model.id model.token_key, update_row model.id (set_limits limits) s.rows)

  abbrev pub super_model : World → Text → Text → Text → Model
  super_model w token_key token_secret raw_password = record {
    id = pos 1;
    version = pos 1;
    token_key = token_key;
    token_hash = encode (hash_to_bytes w token_secret);
    time_stamp_from = none;
    time_stamp_to = none;
    token_limit = array nil;
    username = some (codes "root");
    password_hash = some (encode (hash_to_bytes w raw_password));
  }

  abbrev pub super_generation : Text → Text → Text → TokenServer → Change Response
  super_generation key secret raw_password s =
      stored_or_exists (super_token key secret raw_password) s.rows
        (insert_row token_insert_failed (super_model s.world key secret raw_password) s.rows)

  -- One transaction: a failure of the second statement takes the first back.
  abbrev pub super_roll : Text → Text → Text → TokenServer → Change Response
  super_roll key secret raw_password s = do
    rows ←
        insert_row super_transaction_failed (super_model s.world key secret raw_password)
          (delete_rows (has_id (pos 1)) s.rows)
    ok (super_token key secret raw_password, rows)

  abbrev pub creation :
      Text
      → ℤ
      → Text
      → Text
      → Option ℤ
      → Option ℤ
      → List Limit
      → Option Text
      → Option Text
      → TokenServer
      → Change Response
  creation father_token id key secret from to limits username password s = do
    father ← parse_token father_token
    (answer, rows) ←
        generate encode encode_limits id key secret father from to limits username password s
    ok (created answer.0 answer.1, rows)

  unfoldable pub change : Request → TokenServer → Change Response
  change (create father id key secret from to limits username password) s =
      creation father id key secret from to limits username password s
  change (delete token target) s = delete_token token target s
  change (change_password token target new_password) s = password_change token target new_password s
  change (roll_token_secret token target new_secret) s = secret_roll token target new_secret s
  change (edit token target limits) s = limits_edit token target limits s
  change (generate_super_token key secret raw_password) s =
      super_generation key secret raw_password s
  change (roll_super_token key secret raw_password) s = super_roll key secret raw_password s

  unfoldable pub serve : Serde → Request → TokenServer → Result Response × TokenServer
  unfolding change
  serve serde request s = commit serde (change request s) s

  unfoldable pub serve_all : Serde → List Request → TokenServer → TokenServer
  unfolding serve
  serve_all serde [] s = s
  serve_all serde (request ∷ requests) s = serve_all serde requests (serve serde request s).1
