-- ===== src/Kv/Rpc.antt =====
-- crates/ng-kv/src/rpc: the RPC methods `kv_create`, `kv_set_value`, `kv_delete_key`,
-- `kv_delete_namespace` and `kv_get_value`. The JSON of the answers is not modelled.
pub mod Reserved
use node_get.Prelude.{Bool, true, false, List, [], ◌∷◌, Option, none, some}
use node_get.Text.{Text}
use node_get.Error.{Result, ok, err, ◌>>=◌, ◌>>◌}
use node_get.Token.Auth.{World}
use node_get.Kv.Table.{
  Row, Action, KvStore, create_kv, set_v_to_kv, delete_key_from_kv, delete_kv, get_v_from_kv,
}
use node_get.Kv.Auth.{
  ensure_namespace_writable, check_kv_read_permission, check_kv_write_permission,
  check_kv_delete_permission, check_kv_delete_namespace_permission, check_kv_create_permission,
}

-- `check?;`, then the rest.
abbrev pub checked : {V : Type 0} {A : Type 0} → Result (Unit {0}) → Action V A → Action V A
checked (ok _) rest db = rest db
checked (err e) rest db = (err e, db)

module _ {V : Type 0} (w : World) where
  unfoldable pub set_value : Text → Text → Text → V → Action V (Unit {0})
  set_value full_token namespace key value = checked (ensure_namespace_writable namespace) (
      checked (check_kv_write_permission w full_token namespace key)
        (set_v_to_kv namespace key value))

  unfoldable pub create : V → Text → Text → Action V (KvStore V)
  create null full_token name =
      checked (ensure_namespace_writable name)
        (checked (check_kv_create_permission w full_token) (create_kv null name))

  unfoldable pub delete_key : Text → Text → Text → Action V (Unit {0})
  delete_key full_token namespace key = checked (ensure_namespace_writable namespace) (
      checked (check_kv_delete_permission w full_token namespace key)
        (delete_key_from_kv namespace key))

  unfoldable pub delete_namespace : Text → Text → Action V (Unit {0})
  delete_namespace full_token namespace =
      checked (ensure_namespace_writable namespace) (
        checked (check_kv_delete_namespace_permission w full_token namespace) (delete_kv namespace))

  -- An absent key is answered with `null`.
  unfoldable pub get_value : V → Text → Text → Text → List (Row V) → Result V
  get_value null full_token namespace key db = do
    check_kv_read_permission w full_token namespace key
    value ← get_v_from_kv namespace key db
    elim value [ none ↦ ok null | some v ↦ ok v ]
