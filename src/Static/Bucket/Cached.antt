-- ===== src/Static/Bucket/Cached.antt =====
-- crates/ng-static/src/cache.rs: what the cache answers, compared with the table.
use node_get.Prelude.{
  ◌≡◌, refl, sym, ap, ◌∙◌, subst, List, [], ◌∷◌, arith, All, Bool-cases, Option-cases, Option, none,
  some, inl, inr, if◌then◌else◌,
}
use node_get.Prelude.Pairs.{Pairwise}
use node_get.Text.{Text, text_eq}
use node_get.Text.Laws.{text_eq→eq, text_eq_refl}
use node_get.Dict.{Dict, lookup, insert, lookup-insert}
use node_get.Error.{ok}
use node_get.Static.Bucket.{
  StaticFile, StaticCache, Server, note_root, build_from, build_maps, get_by_name, get_http_root,
  find_by_name, read_static,
}
use node_get.Static.Bucket.Valid.{Apart}
use node_get.Static.Bucket.Serve.{IsSound}

-- The row that is the root, as a search of the table.
abbrev pub first_root : List StaticFile → Option StaticFile
first_root [] = none
first_root (r ∷ rows) = if r.is_http_root then some r else first_root rows

abbrev or_else : {A : Type 0} → Option A → Option A → Option A
or_else none later = later
or_else (some a) later = some a

find-others :
    (r : StaticFile) (rows : List StaticFile) → All (Apart r) rows → find_by_name r.name rows ≡ none
unfolding find_by_name
find-others r [] h = refl
find-others r (x ∷ rows) h = elim (Bool-cases (text_eq x.name r.name)) [
  | inl e ↦ elim (h.0.1 (sym (text_eq→eq x.name r.name e))) [ ]
  | inr e ↦ rw e (find-others r rows h.1)
]

lookup-build_from :
    (d : Dict StaticFile) (root : Option Text) (rows : List StaticFile) (name : Text)
    → Pairwise Apart rows
    → lookup name (build_from d root rows).by_name
      ≡ or_else (find_by_name name rows) (lookup name d)
unfolding build_from find_by_name
lookup-build_from d root [] name h = refl
lookup-build_from d root (r ∷ rows) name h =
    lookup-build_from (insert r.name r d) (note_root root r) rows name h.1
    ∙ elim (Bool-cases (text_eq r.name name)) [
      | inl e ↦
          let absent : find_by_name name rows ≡ none =
            subst (λ n. find_by_name n rows ≡ none) (text_eq→eq r.name name e)
              (find-others r rows h.0) in
          rw (lookup-insert r.name name r d, e, absent) refl
      | inr e ↦ rw (lookup-insert r.name name r d, e) refl
    ]

abbrev name_of : Option StaticFile → Option Text
name_of none = none
name_of (some r) = some r.name

root-build_from :
    (d : Dict StaticFile) (root : Option Text) (rows : List StaticFile)
    → (build_from d root rows).http_root_name ≡ or_else root (name_of (first_root rows))
unfolding build_from
root-build_from d none [] = refl
root-build_from d (some n) [] = refl
root-build_from d (some n) (r ∷ rows) = root-build_from (insert r.name r d) (some n) rows
root-build_from d none (r ∷ rows) =
    root-build_from (insert r.name r d) (note_root none r) rows
    ∙ elim (Bool-cases r.is_http_root) [ inl e ↦ rw e refl | inr e ↦ rw e refl ]

find-first_root :
    (rows : List StaticFile) (r : StaticFile)
    → Pairwise Apart rows
    → first_root rows ≡ some r
    → find_by_name r.name rows ≡ some r
unfolding find_by_name
find-first_root [] r h e = cc
find-first_root (x ∷ rows) r h e = elim (Bool-cases x.is_http_root) [
  | inl t ↦
      let same : x ≡ r = ground (arith, t, e) in
      subst (λ y. find_by_name y.name (x ∷ rows) ≡ some y) same
        (ground (arith, text_eq_refl x.name))
  | inr f ↦
      let found = find-first_root rows r h.1 (ground (arith, f, e)) in
      elim (Bool-cases (text_eq x.name r.name)) [
        | inl n ↦ cc (
          found,
          subst (λ k. find_by_name k rows ≡ none) (text_eq→eq x.name r.name n)
              (find-others x rows h.0),
        )
        | inr n ↦ rw n found
      ]
]

get_http_root-build_maps :
    (rows : List StaticFile)
    → Pairwise Apart rows
    → get_http_root (build_maps rows) ≡ first_root rows
unfolding get_http_root build_maps
get_http_root-build_maps rows h =
    rw (root-build_from [] none rows) (elim (Option-cases (first_root rows)) [
      | inl e ↦ rw e refl
      | inr (r, e) ↦
          rw (e, lookup-build_from [] none rows r.name h, find-first_root rows r h e) refl
    ])

-- While the table and the cache agree as the operations keep them: reading a bucket by name from
-- the cache answers as a search of the table does, and the root bucket of the cache is the first
-- row that is the root.
pub read_static-rows :
    {D : Type 0} (s : Server D) (c : StaticCache) (name : Text)
    → IsSound s
    → s.cache ≡ some c
    → (read_static name s ≡ ok (find_by_name name s.rows)) × (get_http_root c ≡ first_root s.rows)
unfolding read_static get_by_name build_maps lookup
read_static-rows s c name h e =
    let built : c ≡ build_maps s.rows = ground (arith, e, h.1) in
    (
      rw (e, built)
          (ap ok (lookup-build_from [] none s.rows name h.0.0 ∙ at_end (find_by_name name s.rows))),
      rw built (get_http_root-build_maps s.rows h.0.0),
    )
  where
    at_end : (o : Option StaticFile) → or_else o none ≡ o
    at_end none = refl
    at_end (some r) = refl
