-- ===== src/Token/Table.antt =====
-- The table `token` as the calls of sea_orm on it in crates/ng-token change it, with the columns that
-- crates/ng-db/migration/src/m20260131_112949_create_token.rs makes unique. Errors of a connection
-- are left out.
pub mod Unique
pub mod Committed
use node_get.Prelude.{
  Bool, true, false, not, ◌||◌, List, [], ◌∷◌, ◌++◌, Option, none, some, any, keep, map,
  if◌then◌else◌,
}
use node_get.Prelude.Int.{ℤ, pos, eq_ℤ}
use node_get.Text.{Text, text_eq}
use node_get.Error.{Result, ok, err, Message, database_error}
use node_get.Token.Limits.{Serde}
use node_get.Token.Cache.{Model}
use node_get.Token.Auth.{World, reload_from_models}

-- The rows, and what the calls see, the cache included.
pub record TokenServer : Type 0 where
  pub rows : List Model
  pub world : World

abbrev pub has_id : ℤ → Model → Bool
has_id id r = eq_ℤ r.id id

abbrev pub has_key : Text → Model → Bool
has_key key r = text_eq r.token_key key

abbrev pub is_text : Option Text → Text → Bool
is_text none text = false
is_text (some other) text = text_eq other text

abbrev pub has_username : Text → Model → Bool
has_username username r = is_text r.username username

-- `NULL` is equal to no user name.
abbrev pub same_username : Option Text → Option Text → Bool
same_username a none = false
same_username a (some b) = is_text a b

-- The primary key and the two unique indices.
abbrev pub clashes : Model → Model → Bool
clashes m r = has_id m.id r || has_key m.token_key r || same_username r.username m.username

unfoldable pub insert_row : Message → Model → List Model → Result (List Model)
insert_row failure model rows =
    if any (clashes model) rows then err (database_error failure) else ok (rows ++ model ∷ [])

-- `.one(db)` on a filter
unfoldable pub find_row : (Model → Bool) → List Model → Option Model
find_row p [] = none
find_row p (r ∷ rows) = if p r then some r else find_row p rows

-- `active_model.update(db)`: the row with the primary key gets the columns that were set.
abbrev pub update_row : ℤ → (Model → Model) → List Model → List Model
update_row id f rows = map (λ r. if has_id id r then f r else r) rows

abbrev pub delete_rows : (Model → Bool) → List Model → List Model
delete_rows p rows = keep (λ r. not (p r)) rows

-- What an operation answers with the rows that it leaves, or its error, which leaves them as they are.
abbrev pub Change : Type 0 → Type 0
Change A = Result (A × List Model)

-- The rows are written, and the cache is reloaded from them.
abbrev pub commit : {A : Type 0} → Serde → Change A → TokenServer → Result A × TokenServer
commit serde (err e) s = (err e, s)
commit serde (ok (answer, rows)) s =
    (ok answer, record { rows = rows; world = reload_from_models serde rows s.world })
