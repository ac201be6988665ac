-- ===== src/Kv/Table/View/Refines.antt =====
-- The calls on the table against the steps on its view.
use node_get.Prelude.{
  ◌≡◌, refl, ap, ap₂, subst, ◌∙◌, Bool, true, false, List, Option, none, some, arith, if◌then◌else◌,
  Bool-cases, Option-cases, inl, inr,
}
use mathlib.Core.Path.{fun_ext}
use node_get.Text.{Text, text_eq, text_discrete}
use node_get.Text.Laws.{text_eq_refl}
use node_get.Error.{ok}
use node_get.Kv.Table.{
  Row, marker, in_namespace, at_key, namespace_exists, find_value, upsert, append_row, delete_where,
  create_kv, set_v_to_kv, delete_key_from_kv, delete_kv, get_v_from_kv, get_v_from_kv_lenient,
}
use node_get.Kv.Table.Keys.{
  exists-upsert, find-upsert, exists-append_row, find-append_row, find-delete_key,
  find-delete_namespace, exists-delete_namespace, find_exists,
}
use node_get.Kv.Table.View.{
  Call, create, set_value, delete_key, delete_namespace, run_call, override, write, view, step,
  IsMarked, read, peek,
}
use node_get.Kv.Table.View.Marked.{exists-delete_key}

module _ {V : Type 0} where
  -- The view of a namespace, by whether the namespace exists and by what is found in it.
  abbrev shown : Bool → (Text → Option V) → Option (Text → Option V)
  shown e f = if e then some (λ j. if text_eq j marker then none else f j) else none

  shown_eq :
      (b c : Bool) (f g : Text → Option V)
      → b ≡ c
      → ((j : Text) → text_eq j marker ≡ false → f j ≡ g j)
      → shown b f ≡ shown c g
  shown_eq b c f g e h =
      ap₂ (λ x k. if x then some k else none) e
        (fun_ext λ j. elim (Bool-cases (text_eq j marker)) [
          | inl m ↦ ground (arith, m)
          | inr m ↦ ground (arith, m, h j m)
        ])

  -- A view that is overridden at one namespace.
  override_eq :
      (db db' : List (Row V)) (ns : Text) (o : Option (Text → Option V))
      → view db' ns ≡ o
      → ((n : Text) → text_eq ns n ≡ false → view db' n ≡ view db n)
      → view db' ≡ override ns o (view db)
  override_eq db db' ns o here there = fun_ext λ n. elim (text_discrete ns n) [
    | yes e ↦ let s : view db' n ≡ o = subst (λ m. view db' m ≡ o) e here in ground (arith, s, e)
    | no ne ↦ let s : view db' n ≡ view db n = there n (ground arith) in ground (arith, s, ne)
  ]

  abbrev contents : List (Row V) → Text → Text → Option V
  contents db n j = if text_eq j marker then none else find_value db n j

  view_missing : (db : List (Row V)) (n : Text) → namespace_exists db n ≡ false → view db n ≡ none
  unfolding view
  view_missing db n e = rw e refl

  view_present :
      (db : List (Row V)) (n : Text)
      → namespace_exists db n ≡ true
      → view db n ≡ some (contents db n)
  unfolding view
  view_present db n e = rw e refl

  find_missing :
      (db : List (Row V)) (n j : Text) → namespace_exists db n ≡ false → find_value db n j ≡ none
  find_missing db n j e = elim (Option-cases (find_value db n j)) [
    | inl h ↦ h
    | inr (v, h) ↦ ground (arith, find_exists db n j v h)
  ]

  view_same :
      (db db' : List (Row V)) (n : Text)
      → namespace_exists db' n ≡ namespace_exists db n
      → ((j : Text) → find_value db' n j ≡ find_value db n j)
      → view db' n ≡ view db n
  unfolding view
  view_same db db' n e h =
      shown_eq (namespace_exists db' n) (namespace_exists db n) (find_value db' n) (find_value db n)
        e (λ j m. h j)

  view-create :
      (null : V) (db : List (Row V)) (ns : Text)
      → namespace_exists db ns ≡ false
      → view (append_row db (record { namespace = ns; key = marker; value = null }))
        ≡ override ns (some (λ j. none)) (view db)
  view-create null db ns e =
      let row : Row V = record { namespace = ns; key = marker; value = null } in
      override_eq db (append_row db row) ns (some (λ j. none))
        (view_present (append_row db row) ns
            (ground (arith, text_eq_refl ns, exists-append_row db row ns))
          ∙ ap some
              (fun_ext λ j. ground (arith, find-append_row db row ns j, find_missing db ns j e)))
        (λ n ne.
          view_same db (append_row db row) n (ground (arith, exists-append_row db row n))
            (λ j. ground (arith, ne, find-append_row db row n j, Option-cases (find_value db n j))))

  view-upsert :
      (db : List (Row V)) (ns key : Text) (v : V)
      → namespace_exists db ns ≡ true
      → view (upsert db ns key v) ≡ override ns (some (write key v (contents db ns))) (view db)
  view-upsert db ns key v e =
      override_eq db (upsert db ns key v) ns (some (write key v (contents db ns)))
        (view_present (upsert db ns key v) ns (ground (arith, exists-upsert db ns key ns v))
          ∙ ap some (fun_ext λ j. ground (arith, text_eq_refl ns, find-upsert db ns key ns j v)))
        (λ n ne.
          view_same db (upsert db ns key v) n (ground (arith, exists-upsert db ns key n v))
            (λ j. ground (arith, ne, find-upsert db ns key n j v)))

  view-delete_key :
      (db : List (Row V)) (ns key : Text)
      → IsMarked db
      → text_eq key marker ≡ false
      → namespace_exists db ns ≡ true
      → view (delete_where (at_key ns key) db)
        ≡ override ns (some (override key none (contents db ns))) (view db)
  view-delete_key db ns key marked k e =
      override_eq db (delete_where (at_key ns key) db) ns
        (some (override key none (contents db ns)))
        (view_present (delete_where (at_key ns key) db) ns
            (ground (arith, exists-delete_key db ns key ns marked k))
          ∙ ap some (fun_ext λ j. ground (arith, text_eq_refl ns, find-delete_key db ns key ns j)))
        (λ n ne.
          view_same db (delete_where (at_key ns key) db) n
            (ground (arith, exists-delete_key db ns key n marked k))
            (λ j. ground (arith, ne, find-delete_key db ns key n j)))

  view-delete_namespace :
      (db : List (Row V)) (ns : Text)
      → view (delete_where (in_namespace ns) db) ≡ override ns none (view db)
  view-delete_namespace db ns =
      override_eq db (delete_where (in_namespace ns) db) ns none
        (view_missing (delete_where (in_namespace ns) db) ns
          (ground (arith, text_eq_refl ns, exists-delete_namespace db ns ns)))
        (λ n ne.
          view_same db (delete_where (in_namespace ns) db) n
            (ground (arith, ne, exists-delete_namespace db ns n))
            (λ j. ground (arith, ne, find-delete_namespace db ns n j)))

  -- On a table in which every namespace has its marker row, creating a namespace, setting a value,
  -- deleting a key and deleting a namespace do to the view of the table, a map from namespaces to
  -- maps from keys to values, what the abstract step does, and answer the same.
  pub run_call-step :
      (null : V) (c : Call V) (db : List (Row V))
      → IsMarked db
      → ((run_call null c db).0, view (run_call null c db).1) ≡ step c (view db)
  unfolding run_call create_kv set_v_to_kv delete_key_from_kv delete_kv step
  run_call-step null (create ns) db marked = elim (Bool-cases (namespace_exists db ns)) [
    | inl e ↦ rw (e, view_present db ns e, step) refl
    | inr e ↦ rw (e, view_missing db ns e, step) (ap (λ m. (ok tt, m)) (view-create null db ns e))
  ]
  run_call-step null (set_value ns key v) db marked = elim (Bool-cases (namespace_exists db ns)) [
    | inl e ↦ rw (e, view_present db ns e, step) (ap (λ m. (ok tt, m)) (view-upsert db ns key v e))
    | inr e ↦ rw (e, view_missing db ns e, step) refl
  ]
  run_call-step null (delete_key ns key) db marked = elim (Bool-cases (text_eq key marker)) [
    | inl k ↦ rw k refl
    | inr k ↦ elim (Bool-cases (namespace_exists db ns)) [
      | inl e ↦
          rw (k, e, view_present db ns e, step)
            (ap (λ m. (ok tt, m)) (view-delete_key db ns key marked k e))
      | inr e ↦ rw (k, e, view_missing db ns e, step) refl
    ]
  ]
  run_call-step null (delete_namespace ns) db marked = elim (Bool-cases (namespace_exists db ns)) [
    | inl e ↦
        rw (e, view_present db ns e, step) (ap (λ m. (ok tt, m)) (view-delete_namespace db ns))
    | inr e ↦ rw (e, view_missing db ns e, step) refl
  ]

  -- get_v_from_kv and get_v_from_kv_lenient answer from the view: the marker key reads as absent,
  -- and a missing namespace is an error for the one and absent for the other.
  pub reads-view :
      (ns key : Text) (db : List (Row V))
      → (get_v_from_kv ns key db ≡ read ns key (view db))
        × (get_v_from_kv_lenient ns key db ≡ ok (peek ns key (view db)))
  unfolding get_v_from_kv get_v_from_kv_lenient read peek
  reads-view ns key db = elim (Bool-cases (text_eq key marker)) [
    | inl k ↦ (rw k refl, rw k refl)
    | inr k ↦ elim (Bool-cases (namespace_exists db ns)) [
      | inl e ↦ (
        rw (k, e, view_present db ns e) (ap ok (ground (arith, k))),
        rw (k, view_present db ns e) (ap ok (ground (arith, k))),
      )
      | inr e ↦ (
        rw (k, e, view_missing db ns e) refl,
        rw (k, view_missing db ns e) (ap ok (find_missing db ns key e)),
      )
    ]
  ]
