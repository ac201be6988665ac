-- ===== src/Kv/Table.antt =====
-- crates/ng-kv/src/db.rs and kv.rs: the rows of the `kv` table and the operations on them. The
-- database is the list of rows in the order of insertion. A connection that is missing and a query
-- that fails are not modelled. JSON values are a parameter `V`, and their `null` an argument.
pub mod View
pub mod Keys
use node_get.Prelude.{
  ◌≡◌, Bool, true, false, ◌&&◌, not, List, [], ◌∷◌, Option, none, some, any, keep, if◌then◌else◌,
}
use node_get.Text.{Text, text_eq, codes}
use node_get.Dict.{Dict, lookup, insert}
use node_get.Dict
use node_get.Error.{
  Result, ok, err, ◌>>=◌, ◌>>◌, database_error, invalid_input, namespace_missing,
  namespace_already_exists, marker_is_protected,
}

-- crates/ng-db/src/entity/kv.rs; the generated `id` is not read by this crate.
pub record Row (V : Type 0) : Type 0 where
  pub namespace : Text
  pub key : Text
  pub value : V

unfoldable pub marker : Text
marker = codes "__nodeget_namespace_marker__"

pub record KvStore (V : Type 0) : Type 0 where
  pub namespace : Text
  pub kv : Dict V

module _ {V : Type 0} where
  unfoldable pub new : Text → KvStore V
  new namespace = record { namespace = namespace; kv = [] }

  unfoldable pub get : KvStore V → Text → Option V
  get store key = lookup key store.kv

  unfoldable pub set : KvStore V → Text → V → KvStore V
  set store key value = record store { kv = insert key value store.kv }

  -- `filter(Namespace.eq(ns))`, and with `filter(Key.eq(key))`.
  abbrev pub in_namespace : Text → Row V → Bool
  in_namespace ns row = text_eq row.namespace ns

  abbrev pub at_key : Text → Text → Row V → Bool
  at_key ns key row = text_eq row.namespace ns && text_eq row.key key

  unfoldable pub namespace_exists : List (Row V) → Text → Bool
  namespace_exists db ns = any (in_namespace ns) db

  -- The first row that passes both filters.
  unfoldable pub find_value : List (Row V) → Text → Text → Option V
  find_value [] ns key = none
  find_value (row ∷ db) ns key = if at_key ns key row then some row.value else find_value db ns key

  -- `INSERT … ON CONFLICT (namespace, key) DO UPDATE SET value`
  unfoldable pub upsert : List (Row V) → Text → Text → V → List (Row V)
  upsert [] ns key value = record { namespace = ns; key = key; value = value } ∷ []
  upsert (row ∷ db) ns key value =
      if at_key ns key row then record row { value = value } ∷ db else row ∷ upsert db ns key value

  -- A plain INSERT.
  unfoldable pub append_row : List (Row V) → Row V → List (Row V)
  append_row [] row = row ∷ []
  append_row (r ∷ db) row = r ∷ append_row db row

  -- `DELETE … WHERE`
  unfoldable pub delete_where : (Row V → Bool) → List (Row V) → List (Row V)
  delete_where p db = keep (λ row. not (p row)) db

-- An action on the database: the result, and the rows afterwards. An error leaves what was written.
abbrev pub Action : Type 0 → Type 0 → Type 0
Action V A = List (Row V) → Result A × List (Row V)

module _ {V : Type 0} where
  -- `ensure_namespace_exists(…)?`, then the rest.
  abbrev ensure_then : {A : Type 0} → Text → Action V A → Action V A
  ensure_then ns rest db =
      if namespace_exists db ns then rest db else (err (database_error (namespace_missing ns)), db)

  unfoldable pub create_kv : V → Text → Action V (KvStore V)
  unfolding append_row
  create_kv null ns db =
      if namespace_exists db ns
      then (err (database_error (namespace_already_exists ns)), db)
      else (ok (new ns), append_row db (record { namespace = ns; key = marker; value = null }))

  unfoldable pub get_v_from_kv_lenient : Text → Text → List (Row V) → Result (Option V)
  get_v_from_kv_lenient ns key db =
      if text_eq key marker then ok none else ok (find_value db ns key)

  unfoldable pub get_v_from_kv : Text → Text → List (Row V) → Result (Option V)
  get_v_from_kv ns key db =
      if text_eq key marker
      then ok none
      else if namespace_exists db ns
      then ok (find_value db ns key)
      else err (database_error (namespace_missing ns))

  unfoldable pub set_v_to_kv : Text → Text → V → Action V (Unit {0})
  set_v_to_kv ns key value = ensure_then ns λ db. (ok tt, upsert db ns key value)

  unfoldable pub delete_key_from_kv : Text → Text → Action V (Unit {0})
  delete_key_from_kv ns key db =
      if text_eq key marker
      then (err (invalid_input marker_is_protected), db)
      else ensure_then ns (λ db'. (ok tt, delete_where (at_key ns key) db')) db

  unfoldable pub delete_kv : Text → Action V (Unit {0})
  delete_kv ns = ensure_then ns λ db. (ok tt, delete_where (in_namespace ns) db)
