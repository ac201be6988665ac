-- ===== src/Kv/Table/View/Marked.antt =====
-- The marker row of a namespace through the writes.
use node_get.Prelude.{
  ◌≡◌, refl, true, false, ◌&&◌, ◌||◌, List, [], ◌∷◌, any, keep, arith, if◌then◌else◌,
}
use node_get.Text.{Text, text_eq}
use node_get.Kv.Table.{
  Row, marker, in_namespace, at_key, namespace_exists, upsert, append_row, delete_where, create_kv,
  set_v_to_kv, delete_key_from_kv, delete_kv,
}
use node_get.Kv.Table.Keys.{
  exists-upsert, exists-append_row, exists-delete_namespace, exists_before_delete,
}
use node_get.Kv.Table.View.{
  Call, create, set_value, delete_key, delete_namespace, run_call, has_marker, IsMarked,
}

module _ {V : Type 0} where
  marker-upsert :
      (db : List (Row V)) (ns key n : Text) (v : V)
      → has_marker (upsert db ns key v) n ≡ (text_eq ns n && text_eq key marker || has_marker db n)
  unfolding upsert has_marker any
  marker-upsert [] ns key n v = ground arith
  marker-upsert (r ∷ db) ns key n v = ground (arith, marker-upsert db ns key n v)

  marker-append_row :
      (db : List (Row V)) (r : Row V) (n : Text)
      → has_marker (append_row db r) n ≡ (has_marker db n || at_key n marker r)
  unfolding append_row has_marker any
  marker-append_row [] r n = ground arith
  marker-append_row (x ∷ db) r n = ground (arith, marker-append_row db r n)

  marker-delete_key :
      (db : List (Row V)) (ns key n : Text)
      → text_eq key marker ≡ false
      → has_marker (delete_where (at_key ns key) db) n ≡ has_marker db n
  unfolding delete_where keep has_marker any
  marker-delete_key [] ns key n h = refl
  marker-delete_key (r ∷ db) ns key n h = ground (arith, marker-delete_key db ns key n h)

  marker-delete_namespace :
      (db : List (Row V)) (ns n : Text)
      → has_marker (delete_where (in_namespace ns) db) n
        ≡ (if text_eq n ns then false else has_marker db n)
  unfolding delete_where keep has_marker any
  marker-delete_namespace [] ns n = ground arith
  marker-delete_namespace (r ∷ db) ns n = ground (arith, marker-delete_namespace db ns n)

  marker_exists :
      (db : List (Row V)) (n : Text) → has_marker db n ≡ true → namespace_exists db n ≡ true
  unfolding has_marker namespace_exists any
  marker_exists [] n h = h
  marker_exists (r ∷ db) n h = ground (arith, marker_exists db n)

  pub exists-delete_key :
      (db : List (Row V)) (ns key n : Text)
      → IsMarked db
      → text_eq key marker ≡ false
      → namespace_exists (delete_where (at_key ns key) db) n ≡ namespace_exists db n
  exists-delete_key db ns key n marked h = ground (
    arith,
    marked n,
    marker-delete_key db ns key n h,
    exists_before_delete (at_key ns key) db n,
    marker_exists (delete_where (at_key ns key) db) n,
  )

  -- If every namespace of a table has its marker row, this still holds after every call that
  -- writes.
  pub run_call-IsMarked :
      (null : V) (c : Call V) (db : List (Row V)) → IsMarked db → IsMarked (run_call null c db).1
  unfolding run_call create_kv set_v_to_kv delete_key_from_kv delete_kv
  run_call-IsMarked null (create ns) db marked n h = ground (
    arith,
    marked n,
    exists-append_row db (record { namespace = ns; key = marker; value = null }) n,
    marker-append_row db (record { namespace = ns; key = marker; value = null }) n,
  )
  run_call-IsMarked null (set_value ns key v) db marked n h =
      ground (arith, marked n, exists-upsert db ns key n v, marker-upsert db ns key n v)
  run_call-IsMarked null (delete_key ns key) db marked n h =
      ground
        (arith, marked n, exists_before_delete (at_key ns key) db n, marker-delete_key db ns key n)
  run_call-IsMarked null (delete_namespace ns) db marked n h =
      ground (arith, marked n, exists-delete_namespace db ns n, marker-delete_namespace db ns n)
