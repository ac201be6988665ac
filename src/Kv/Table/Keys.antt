-- ===== src/Kv/Table/Keys.antt =====
-- What the writes do to the existence of namespaces and to the value under a key.
use node_get.Prelude.{
  ◌≡◌, refl, Bool, true, false, ◌&&◌, ◌||◌, List, [], ◌∷◌, none, some, any, keep, arith,
  if◌then◌else◌,
}
use node_get.Text.{Text, text_eq}
use node_get.Kv.Table.{
  Row, in_namespace, at_key, namespace_exists, find_value, upsert, append_row, delete_where,
}

module _ {V : Type 0} where
  pub exists-upsert :
      (db : List (Row V)) (ns key n : Text) (v : V)
      → namespace_exists (upsert db ns key v) n ≡ (text_eq ns n || namespace_exists db n)
  unfolding upsert namespace_exists any
  exists-upsert [] ns key n v = ground arith
  exists-upsert (r ∷ db) ns key n v = ground (arith, exists-upsert db ns key n v)

  pub find-upsert :
      (db : List (Row V)) (ns key n j : Text) (v : V)
      → find_value (upsert db ns key v) n j
        ≡ (if text_eq ns n && text_eq key j then some v else find_value db n j)
  unfolding upsert find_value
  find-upsert [] ns key n j v = refl
  find-upsert (r ∷ db) ns key n j v = ground (arith, find-upsert db ns key n j v)

  pub exists-append_row :
      (db : List (Row V)) (r : Row V) (n : Text)
      → namespace_exists (append_row db r) n ≡ (namespace_exists db n || text_eq r.namespace n)
  unfolding append_row namespace_exists any
  exists-append_row [] r n = ground arith
  exists-append_row (x ∷ db) r n = ground (arith, exists-append_row db r n)

  -- A row at the end shows where no other row is under its key.
  pub find-append_row :
      (db : List (Row V)) (r : Row V) (n j : Text)
      → find_value (append_row db r) n j ≡ elim (find_value db n j) [
        | none ↦ if text_eq r.namespace n && text_eq r.key j then some r.value else none
        | some v ↦ some v
      ]
  unfolding append_row find_value
  find-append_row [] r n j = refl
  find-append_row (x ∷ db) r n j = ground (arith, find-append_row db r n j)

  pub find-delete_key :
      (db : List (Row V)) (ns key n j : Text)
      → find_value (delete_where (at_key ns key) db) n j
        ≡ (if text_eq n ns && text_eq j key then none else find_value db n j)
  unfolding delete_where keep find_value
  find-delete_key [] ns key n j = ground arith
  find-delete_key (r ∷ db) ns key n j = ground (arith, find-delete_key db ns key n j)

  pub find-delete_namespace :
      (db : List (Row V)) (ns n j : Text)
      → find_value (delete_where (in_namespace ns) db) n j
        ≡ (if text_eq n ns then none else find_value db n j)
  unfolding delete_where keep find_value
  find-delete_namespace [] ns n j = ground arith
  find-delete_namespace (r ∷ db) ns n j = ground (arith, find-delete_namespace db ns n j)

  pub exists-delete_namespace :
      (db : List (Row V)) (ns n : Text)
      → namespace_exists (delete_where (in_namespace ns) db) n
        ≡ (if text_eq n ns then false else namespace_exists db n)
  unfolding delete_where keep namespace_exists any
  exists-delete_namespace [] ns n = ground arith
  exists-delete_namespace (r ∷ db) ns n = ground (arith, exists-delete_namespace db ns n)

  -- A value is found only in a namespace that exists.
  pub find_exists :
      (db : List (Row V)) (n j : Text) (v : V)
      → find_value db n j ≡ some v
      → namespace_exists db n ≡ true
  unfolding find_value namespace_exists any
  find_exists [] n j v h = cc
  find_exists (r ∷ db) n j v h = ground (arith, find_exists db n j v)

  -- A deletion makes no namespace.
  pub exists_before_delete :
      (p : Row V → Bool) (db : List (Row V)) (n : Text)
      → namespace_exists (delete_where p db) n ≡ true
      → namespace_exists db n ≡ true
  unfolding delete_where keep namespace_exists any
  exists_before_delete p [] n h = h
  exists_before_delete p (r ∷ db) n h = ground (arith, exists_before_delete p db n)
