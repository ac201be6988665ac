-- ===== src/Static/Bucket/Valid.antt =====
-- crates/ng-static/src/ops.rs: what every operation on a bucket keeps of the table.
use node_get.Prelude.{
  ◌≡◌, ◌≢◌, ◌⊎◌, inl, inr, sym, ap, subst, Bool, true, false, List, [], ◌∷◌, ◌++◌, ◌==◌, ℕ, suc,
  ◌<◌, arith, All, Bool-cases, Option, none, some, All-append, All-map, Member, any, map, ◌&&◌, not,
}
use node_get.Prelude.Pairs.{Pairwise, Pairwise-append_last, Pairwise-at}
use node_get.Text.{Text, text_eq}
use node_get.Text.Laws.{text_eq→eq, text_eq_refl}
use node_get.Error.{ok}
use node_get.Static.Validate.{validate_name, validate_sub_path}
use node_get.Static.Bucket.{StaticFile, find_by_name, other_root, set_columns, update_row}

-- Two rows have different keys and different names, and are not both the root.
abbrev pub Apart : StaticFile → StaticFile → Type 0
Apart a b = (a.id ≢ b.id) × (a.name ≢ b.name) × (a.is_http_root ≡ true → b.is_http_root ≡ false)

-- A key that was given out, an accepted name and an accepted directory.
abbrev pub GoodRow : ℕ → StaticFile → Type 0
GoodRow next r = (r.id < next) × (validate_name r.name ≡ ok tt) × (validate_sub_path r.path ≡ ok tt)

abbrev pub Valid : List StaticFile → ℕ → Type 0
Valid rows next = Pairwise Apart rows × All (GoodRow next) rows

Apart-sym : (a b : StaticFile) → Apart a b → Apart b a
Apart-sym a b h = (
  λ e. h.0 (sym e),
  λ e. h.1 (sym e),
  λ r. elim (Bool-cases a.is_http_root) [ inl e ↦ cc (r, h.2 e) | inr e ↦ e ],
)

pub find_by_name→Member :
    (name : Text) (rows : List StaticFile) (r : StaticFile)
    → find_by_name name rows ≡ some r
    → Member r rows × (r.name ≡ name)
unfolding find_by_name
find_by_name→Member name [] r h = cc
find_by_name→Member name (x ∷ rows) r h = elim (Bool-cases (text_eq x.name name)) [
  | inl e ↦
      let same : x ≡ r = ground (arith, e, h) in
      (inl same, subst (λ y. y.name ≡ name) same (text_eq→eq (x.name) name e))
  | inr e ↦ let (m, n) = find_by_name→Member name rows r (ground (arith, e, h)) in (inr m, n)
]

pub find_by_name-none :
    (name : Text) (rows : List StaticFile)
    → find_by_name name rows ≡ none
    → All (λ r. r.name ≢ name) rows
unfolding find_by_name
find_by_name-none name [] h = tt
find_by_name-none name (x ∷ rows) h = elim (Bool-cases (text_eq x.name name)) [
  | inl e ↦ cc (e, h)
  | inr e ↦ (λ p. cc (e, p, text_eq_refl name), find_by_name-none name rows (ground (arith, e, h)))
]

pub none_of :
    (p : StaticFile → Bool) (rows : List StaticFile)
    → any p rows ≡ false
    → All (λ r. p r ≡ false) rows
unfolding any
none_of p [] h = tt
none_of p (x ∷ rows) h = (ground arith, none_of p rows (ground arith))

-- Two facts on every element.
All-both :
    {A : Type 0} (P Q : A → Type 0) (xs : List A) → All P xs → All Q xs → All (λ x. P x × Q x) xs
All-both P Q [] h k = tt
All-both P Q (x ∷ xs) h k = ((h.0, k.0), All-both P Q xs h.1 k.1)

-- A row of the next key, with a new name, that is the root only if no row is.
pub Valid-append :
    (rows : List StaticFile) (m : StaticFile)
    → Valid rows m.id
    → All (λ r. r.name ≢ m.name) rows
    → All (λ r. m.is_http_root ≡ true → r.is_http_root ≡ false) rows
    → validate_name m.name ≡ ok tt
    → validate_sub_path m.path ≡ ok tt
    → Valid (rows ++ m ∷ []) (suc m.id)
Valid-append rows m (apart, good) names roots n p = (
  Pairwise-append_last Apart rows m apart (
      All-map
        (λ r.
          GoodRow m.id r × ((r.name ≢ m.name) × (m.is_http_root ≡ true → r.is_http_root ≡ false)))
        (λ r. Apart r m) (λ r. λ h. ((λ e. omega (arith, e, h.0.0)), h.1.0, λ t. other r h.1.1 t))
        rows
        (All-both (GoodRow m.id)
          (λ r. (r.name ≢ m.name) × (m.is_http_root ≡ true → r.is_http_root ≡ false)) rows good
          (All-both (λ r. r.name ≢ m.name) (λ r. m.is_http_root ≡ true → r.is_http_root ≡ false)
            rows names roots))),
  All-append (GoodRow (suc m.id)) rows (m ∷ [])
      (All-map (GoodRow m.id) (GoodRow (suc m.id)) (λ r. λ h. (omega (arith, h.0), h.1, h.2)) rows
        good)
      ((omega arith, n, p), tt),
)
  where
    other :
        (r : StaticFile)
        → (m.is_http_root ≡ true → r.is_http_root ≡ false)
        → r.is_http_root ≡ true
        → m.is_http_root ≡ false
    other r f t = elim (Bool-cases m.is_http_root) [ inl e ↦ cc (t, f e) | inr e ↦ e ]

-- What an update needs of the other rows.
abbrev pub Free : ℕ → Bool → StaticFile → Type 0
Free id root r = (r.id ≡ id) ⊎ (root ≡ true → r.is_http_root ≡ false)

pub update-Apart :
    (id : ℕ) (path : Text) (root cors : Bool) (enable : Option Bool) (a b : StaticFile)
    → Free id root a
    → Free id root b
    → Apart a b
    → Apart
        (update_row id (set_columns path root cors enable) a)
        (update_row id (set_columns path root cors enable) b)
update-Apart id path root cors enable a b fa fb h = elim (Bool-cases (a.id == id)) [
  | inl e ↦ elim (Bool-cases (b.id == id)) [
    | inl f ↦ elim (h.0 (ground (arith, e, f))) [ ]
    | inr f ↦ elim fb [ inl x ↦ ground (arith, f, x) | inr k ↦ rw (e, f) (h.0, h.1, k) ]
  ]
  | inr e ↦ elim (Bool-cases (b.id == id)) [
    | inl f ↦ elim fa [
      | inl x ↦ ground (arith, e, x)
      | inr k ↦
          rw (e, f) (h.0, h.1, λ t. elim (Bool-cases root) [ inl r ↦ cc (t, k r) | inr r ↦ r ])
    ]
    | inr f ↦ rw (e, f) h
  ]
]

pub update-GoodRow :
    (next id : ℕ) (path : Text) (root cors : Bool) (enable : Option Bool) (rows : List StaticFile)
    → validate_sub_path path ≡ ok tt
    → All (GoodRow next) rows
    → All (GoodRow next) (map (update_row id (set_columns path root cors enable)) rows)
update-GoodRow next id path root cors enable [] p h = tt
update-GoodRow next id path root cors enable (r ∷ rows) p h = elim (Bool-cases (r.id == id)) [
  | inl e ↦ rw e ((h.0.0, h.0.1, p), update-GoodRow next id path root cors enable rows p h.1)
  | inr e ↦ rw e (h.0, update-GoodRow next id path root cors enable rows p h.1)
]

not_root :
    (rows : List StaticFile)
    → any (λ r. r.is_http_root) rows ≡ false
    → (root : Bool) → All (λ r. root ≡ true → r.is_http_root ≡ false) rows
not_root rows e root =
    All-map (λ r. r.is_http_root ≡ false) (λ r. root ≡ true → r.is_http_root ≡ false)
      (λ r. λ h. λ t. h) rows (none_of (λ r. r.is_http_root) rows e)

-- The test before a new row: it is not to be the root, or no row is.
pub new_root :
    (rows : List StaticFile) (root : Bool)
    → (root && any (λ r. r.is_http_root) rows) ≡ false
    → All (λ r. root ≡ true → r.is_http_root ≡ false) rows
new_root rows true e = not_root rows e true
new_root rows false e =
    All-map (λ r. Unit {0}) (λ r. false ≡ true → r.is_http_root ≡ false) (λ r. λ u. λ t. cc t) rows
      (units rows)
  where
    units : (rows : List StaticFile) → All (λ r. Unit {0}) rows
    units [] = tt
    units (r ∷ rows) = (tt, units rows)

-- The test before an update: the row is not to become the root, or no other row is.
pub updated_root :
    (rows : List StaticFile) (model : StaticFile) (root : Bool)
    → Pairwise Apart rows
    → Member model rows
    → ((root && not model.is_http_root) && any (other_root model.id) rows) ≡ false
    → All (Free model.id root) rows
updated_root rows model root apart m e = elim (Bool-cases (root && not model.is_http_root)) [
  | inl t ↦
      All-map (λ r. other_root model.id r ≡ false) (Free model.id root) (λ r. λ h. not_other r h)
        rows (none_of (other_root model.id) rows (ground (arith, t, e)))
  | inr f ↦
      All-map (λ r. (r ≡ model) ⊎ Apart model r) (Free model.id root)
        (λ r. λ h. elim h [
          | inl x ↦ inl (ap (λ y. y.id) x)
          | inr a ↦ inr (λ t. a.2 (ground (arith, f, t)))
        ])
        rows (Pairwise-at Apart Apart-sym model rows apart m)
]
  where
    not_other : (r : StaticFile) → other_root model.id r ≡ false → Free model.id root r
    not_other r h = elim (Bool-cases (r.id == model.id)) [
      | inl x ↦ inl (ground (arith, x))
      | inr x ↦ inr (λ t. ground (arith, h, x))
    ]
