-- ===== src/Kv/Rpc/Reserved.antt =====
-- The write methods against the reserved namespaces, and what a refusal leaves behind.
use node_get.Prelude.{
  ◌≡◌, refl, sym, subst, ◌∙◌, true, false, List, [], ◌∷◌, keep, arith, Bool-cases, inl, inr,
}
use node_get.Text.{Text, text_eq, codes, starts_with}
use node_get.Text.Laws.{text_eq→eq, starts_with-append}
use node_get.Error.{NodegetError, ok, err, Result-cases}
use node_get.Token.Auth.{World}
use node_get.Kv.Table.{
  Row, in_namespace, at_key, upsert, append_row, delete_where, Action, create_kv, set_v_to_kv,
  delete_key_from_kv, delete_kv, marker,
}
use node_get.Kv.Table.View.{forget}
use node_get.Kv.Auth.{is_reserved_namespace, ensure_namespace_writable}
use node_get.Kv.Rpc.{set_value, create, delete_key, delete_namespace}

-- A request to one of the methods that write, with its credential.
pub data Request (V : Type 0) : Type 0 where
  kv_create : Text → Text → Request V
  kv_set_value : Text → Text → Text → V → Request V
  kv_delete_key : Text → Text → Text → Request V
  kv_delete_namespace : Text → Text → Request V

other_namespace :
    (ns n : Text)
    → is_reserved_namespace ns ≡ true
    → ensure_namespace_writable n ≡ ok tt
    → text_eq n ns ≡ false
unfolding ensure_namespace_writable
other_namespace ns n r e = elim (Bool-cases (text_eq n ns)) [
  | inr x ↦ x
  | inl x ↦ ground (arith, text_eq→eq n ns x)
]

module _ {V : Type 0} where
  unfoldable pub handle : V → World → Request V → Action V (Unit {0})
  handle null w (kv_create token name) db = let r = create w null token name db in (forget r.0, r.1)
  handle null w (kv_set_value token ns key v) db = set_value w token ns key v db
  handle null w (kv_delete_key token ns key) db = delete_key w token ns key db
  handle null w (kv_delete_namespace token ns) db = delete_namespace w token ns db

  -- Requests one after the other. The caches and the clock may change between them.
  unfoldable pub serve : V → List (World × Request V) → List (Row V) → List (Row V)
  serve null [] db = db
  serve null ((w, request) ∷ requests) db = serve null requests (handle null w request db).1

  -- The rows of a namespace.
  abbrev pub rows_of : Text → List (Row V) → List (Row V)
  rows_of ns db = keep (in_namespace ns) db

  rows_of-upsert :
      (db : List (Row V)) (ns n key : Text) (v : V)
      → text_eq n ns ≡ false
      → rows_of ns (upsert db n key v) ≡ rows_of ns db
  unfolding keep upsert
  rows_of-upsert [] ns n key v e = ground arith
  rows_of-upsert (r ∷ db) ns n key v e = ground (arith, rows_of-upsert db ns n key v e)

  rows_of-append_row :
      (db : List (Row V)) (ns : Text) (row : Row V)
      → text_eq row.namespace ns ≡ false
      → rows_of ns (append_row db row) ≡ rows_of ns db
  unfolding keep append_row
  rows_of-append_row [] ns row e = ground arith
  rows_of-append_row (r ∷ db) ns row e = ground (arith, rows_of-append_row db ns row e)

  rows_of-delete_key :
      (db : List (Row V)) (ns n key : Text)
      → text_eq n ns ≡ false
      → rows_of ns (delete_where (at_key n key) db) ≡ rows_of ns db
  unfolding keep delete_where
  rows_of-delete_key [] ns n key e = refl
  rows_of-delete_key (r ∷ db) ns n key e = ground (arith, rows_of-delete_key db ns n key e)

  rows_of-delete_namespace :
      (db : List (Row V)) (ns n : Text)
      → text_eq n ns ≡ false
      → rows_of ns (delete_where (in_namespace n) db) ≡ rows_of ns db
  unfolding keep delete_where
  rows_of-delete_namespace [] ns n e = refl
  rows_of-delete_namespace (r ∷ db) ns n e = ground (arith, rows_of-delete_namespace db ns n e)

  -- A request leaves the rows of a reserved namespace as they are, whatever the credential.
  pub handle-reserved :
      (null : V) (w : World) (request : Request V) (ns : Text) (db : List (Row V))
      → is_reserved_namespace ns ≡ true
      → rows_of ns (handle null w request db).1 ≡ rows_of ns db
  unfolding handle create create_kv set_value set_v_to_kv delete_key delete_key_from_kv
      delete_namespace delete_kv
  handle-reserved null w (kv_create token name) ns db r =
      elim (Result-cases (ensure_namespace_writable name)) [
        | inr (e, x) ↦ ground (arith, x)
        | inl (u, x) ↦ ground (
          arith,
          x,
          rows_of-append_row db ns (record { namespace = name; key = marker; value = null })
              (other_namespace ns name r x),
        )
      ]
  handle-reserved null w (kv_set_value token n key v) ns db r =
      elim (Result-cases (ensure_namespace_writable n)) [
        | inr (e, x) ↦ ground (arith, x)
        | inl (u, x) ↦ ground (arith, x, rows_of-upsert db ns n key v (other_namespace ns n r x))
      ]
  handle-reserved null w (kv_delete_key token n key) ns db r =
      elim (Result-cases (ensure_namespace_writable n)) [
        | inr (e, x) ↦ ground (arith, x)
        | inl (u, x) ↦ ground (arith, x, rows_of-delete_key db ns n key (other_namespace ns n r x))
      ]
  handle-reserved null w (kv_delete_namespace token n) ns db r =
      elim (Result-cases (ensure_namespace_writable n)) [
        | inr (e, x) ↦ ground (arith, x)
        | inl (u, x) ↦
            ground (arith, x, rows_of-delete_namespace db ns n (other_namespace ns n r x))
      ]

  -- No sequence of KV write requests, with any credentials (the super token's included) and at any
  -- times, changes a row of a namespace that starts with two underscores.
  pub serve-reserved :
      (null : V) (requests : List (World × Request V)) (ns rest : Text) (db : List (Row V))
      → ns ≡ b'_' ∷ b'_' ∷ rest
      → rows_of ns (serve null requests db) ≡ rows_of ns db
  unfolding serve is_reserved_namespace
  serve-reserved null [] ns rest db r = refl
  serve-reserved null ((w, request) ∷ requests) ns rest db r =
      serve-reserved null requests ns rest (handle null w request db).1 r
      ∙ handle-reserved null w request ns db (
          subst (λ x. starts_with x (codes "__") ≡ true) (sym r)
            (starts_with-append (codes "__") rest))

  -- A write request that is answered with an error leaves every row as it was.
  pub handle_error :
      (null : V) (w : World) (request : Request V) (db : List (Row V)) (e : NodegetError)
      → (handle null w request db).0 ≡ err e
      → (handle null w request db).1 ≡ db
  unfolding handle create create_kv set_value set_v_to_kv delete_key delete_key_from_kv
      delete_namespace delete_kv
  handle_error null w (kv_create token name) db e h = ground arith
  handle_error null w (kv_set_value token n key v) db e h = ground arith
  handle_error null w (kv_delete_key token n key) db e h = ground arith
  handle_error null w (kv_delete_namespace token n) db e h = ground arith
