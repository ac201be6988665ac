-- ===== src/Kv/Table/View.antt =====
-- What the table promises: a map from namespaces to maps from keys to values. The marker row that
-- keeps a namespace alive is not seen, and the order of the rows is forgotten.
pub mod Marked
pub mod Refines
use node_get.Prelude.{
  ◌≡◌, refl, ap, ap₂, subst, ◌∙◌, Bool, true, false, ◌&&◌, ◌||◌, not, List, [], ◌∷◌, Option, none,
  some, any, keep, arith, if◌then◌else◌, Bool-cases, Option-cases, inl, inr,
}
use mathlib.Core.Path.{fun_ext}
use node_get.Text.{Text, text_eq, text_discrete}
use node_get.Text.Laws.{text_eq→eq, text_eq_refl}
use node_get.Error.{
  Result, ok, err, database_error, invalid_input, namespace_missing, namespace_already_exists,
  marker_is_protected,
}
use node_get.Kv.Table.{
  Row, marker, in_namespace, at_key, namespace_exists, find_value, upsert, append_row, delete_where,
  Action, KvStore, create_kv, set_v_to_kv, delete_key_from_kv, delete_kv,
}
use node_get.Kv.Table.Keys.{
  exists-upsert, find-upsert, exists-append_row, find-append_row, find-delete_key,
  find-delete_namespace, exists-delete_namespace, find_exists, exists_before_delete,
}

-- The calls that change the table.
pub data Call (V : Type 0) : Type 0 where
  create : Text → Call V
  set_value : Text → Text → V → Call V
  delete_key : Text → Text → Call V
  delete_namespace : Text → Call V

abbrev pub Namespaces : Type 0 → Type 0
Namespaces V = Text → Option (Text → Option V)

abbrev pub forget : {A : Type 0} → Result A → Result (Unit {0})
forget (ok a) = ok tt
forget (err e) = err e

abbrev pub override : {A : Type 0} → Text → A → (Text → A) → Text → A
override key a f j = if text_eq key j then a else f j

module _ {V : Type 0} where
  unfoldable pub run_call : V → Call V → List (Row V) → Result (Unit {0}) × List (Row V)
  run_call null (create ns) db = (forget (create_kv null ns db).0, (create_kv null ns db).1)
  run_call null (set_value ns key v) db = set_v_to_kv ns key v db
  run_call null (delete_key ns key) db = delete_key_from_kv ns key db
  run_call null (delete_namespace ns) db = delete_kv ns db

  -- The map that a table stands for.
  unfoldable pub view : List (Row V) → Namespaces V
  view db n =
      if namespace_exists db n
      then some (λ j. if text_eq j marker then none else find_value db n j)
      else none

  abbrev pub write : Text → V → (Text → Option V) → Text → Option V
  write key v kv = if text_eq key marker then kv else override key (some v) kv

  -- What a call does to the map, and what it answers.
  unfoldable pub step : Call V → Namespaces V → Result (Unit {0}) × Namespaces V
  step (create ns) m = elim (m ns) [
    | some kv ↦ (err (database_error (namespace_already_exists ns)), m)
    | none ↦ (ok tt, override ns (some (λ j. none)) m)
  ]
  step (set_value ns key v) m = elim (m ns) [
    | none ↦ (err (database_error (namespace_missing ns)), m)
    | some kv ↦ (ok tt, override ns (some (write key v kv)) m)
  ]
  step (delete_key ns key) m =
      if text_eq key marker then (err (invalid_input marker_is_protected), m) else elim (m ns) [
        | none ↦ (err (database_error (namespace_missing ns)), m)
        | some kv ↦ (ok tt, override ns (some (override key none kv)) m)
      ]
  step (delete_namespace ns) m = elim (m ns) [
    | none ↦ (err (database_error (namespace_missing ns)), m)
    | some kv ↦ (ok tt, override ns none m)
  ]

  unfoldable pub has_marker : List (Row V) → Text → Bool
  has_marker db n = any (at_key n marker) db

  -- Every namespace has its marker row.
  abbrev pub IsMarked : List (Row V) → Type 0
  IsMarked db = (n : Text) → namespace_exists db n ≡ true → has_marker db n ≡ true

  -- A read of the map, and one that takes a missing namespace for an empty one.
  unfoldable pub read : Text → Text → Namespaces V → Result (Option V)
  read ns key m = if text_eq key marker then ok none else elim (m ns) [
    | none ↦ err (database_error (namespace_missing ns))
    | some kv ↦ ok (kv key)
  ]

  unfoldable pub peek : Text → Text → Namespaces V → Option V
  peek ns key m =
      if text_eq key marker then none else elim (m ns) [ none ↦ none | some kv ↦ kv key ]
