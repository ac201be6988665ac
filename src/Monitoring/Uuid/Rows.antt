-- ===== src/Monitoring/Uuid/Rows.antt =====
-- The rows of `monitoring_uuid`: which UUID has which id.
use node_get.Prelude.{
  ℕ, ◌≡◌, ◌≢◌, refl, sym, ap, ◌∙◌, ◌⊎◌, inl, inr, Bool, false, List, [], ◌∷◌, ◌++◌, some, any,
  Member, All, ◌==◌, ==_iff, Bool-cases, arith, if◌then◌else◌,
}
use node_get.Prelude.Int.{ℤ, eq_ℤ, eq_ℤ_refl}
use node_get.Prelude.Pairs.{Pairwise, Pairwise-at, Pairwise-append_last, Pairwise-map}
use node_get.Prelude.Members.{Member-append, Member-append_last, Member-map}
use node_get.Prelude.{All_at}
use node_get.Monitoring.Uuid.{UuidRow, find_uuid, set_soft_delete, row_clashes}

abbrev pub Apart : UuidRow → UuidRow → Type 0
Apart a b = (a.id ≢ b.id) × (a.uuid ≢ b.uuid)

-- The primary key and the unique column.
abbrev pub AllApart : List UuidRow → Type 0
AllApart = Pairwise Apart

Apart-sym : (a b : UuidRow) → Apart a b → Apart b a
Apart-sym a b d = (λ e. d.0 (sym e), λ e. d.1 (sym e))

abbrev pub HasRow : List UuidRow → ℕ → ℤ → Type 0
HasRow rows uuid id = (row : UuidRow) × Member row rows × (row.uuid ≡ uuid) × (row.id ≡ id)

either_one :
    (rows : List UuidRow) (a b : UuidRow)
    → AllApart rows
    → Member a rows
    → Member b rows
    → (b ≡ a) ⊎ Apart a b
either_one rows a b d at here =
    All_at (λ x. (x ≡ a) ⊎ Apart a x) b rows (Pairwise-at Apart Apart-sym a rows d at) here

pub HasRow-id :
    (rows : List UuidRow) (uuid : ℕ) (i j : ℤ)
    → AllApart rows
    → HasRow rows uuid i
    → HasRow rows uuid j
    → i ≡ j
HasRow-id rows uuid i j d (a, at, ua, ia) (b, here, ub, ib) = elim (either_one rows a b d at here) [
  | inl e ↦ sym ia ∙ ap (λ r. r.id) (sym e) ∙ ib
  | inr dif ↦ elim (dif.1 (ua ∙ sym ub)) [ ]
]

pub HasRow-uuid :
    (rows : List UuidRow) (u v : ℕ) (id : ℤ)
    → AllApart rows
    → HasRow rows u id
    → HasRow rows v id
    → u ≡ v
HasRow-uuid rows u v id d (a, at, ua, ia) (b, here, ub, ib) = elim (either_one rows a b d at here) [
  | inl e ↦ sym ua ∙ ap (λ r. r.uuid) (sym e) ∙ ub
  | inr dif ↦ elim (dif.0 (ia ∙ sym ib)) [ ]
]

pub find_uuid-HasRow :
    (uuid : ℕ) (rows : List UuidRow) (row : UuidRow)
    → find_uuid uuid rows ≡ some row
    → Member row rows × (row.uuid ≡ uuid)
unfolding find_uuid
find_uuid-HasRow uuid [] row h = cc h
find_uuid-HasRow uuid (r ∷ rows) row h = elim (Bool-cases (r.uuid == uuid)) [
  | inl e ↦
      let same : r ≡ row = ground (arith, e, h) in
      (inl same, ap (λ x. x.uuid) (sym same) ∙ (==_iff r.uuid uuid).0 e)
  | inr e ↦ let (at, u) = find_uuid-HasRow uuid rows row (ground (arith, e, h)) in (inr at, u)
]

-- Rows are only added, and keep their UUID and their id.
abbrev pub Grows : List UuidRow → List UuidRow → Type 0
Grows rows rows' = (uuid : ℕ) (id : ℤ) → HasRow rows uuid id → HasRow rows' uuid id

abbrev pub marked : ℤ → Bool → UuidRow → UuidRow
marked id value row = if eq_ℤ row.id id then record row { soft_delete = value } else row

marked_same :
    (id : ℤ) (value : Bool) (row : UuidRow)
    → ((marked id value row).uuid ≡ row.uuid) × ((marked id value row).id ≡ row.id)
marked_same id value row = elim (Bool-cases (eq_ℤ row.id id)) [
  | inl e ↦ rw e (refl, refl)
  | inr e ↦ rw e (refl, refl)
]

pub set_soft_delete-Grows :
    (id : ℤ) (value : Bool) (rows : List UuidRow) → Grows rows (set_soft_delete id value rows)
set_soft_delete-Grows id value rows uuid i (row, at, u, e) =
    let same = marked_same id value row in
    (marked id value row, Member-map (marked id value) row rows at, same.0 ∙ u, same.1 ∙ e)

All-Unit : (rows : List UuidRow) → All (λ r. Unit {0}) rows
All-Unit [] = tt
All-Unit (r ∷ rows) = (tt, All-Unit rows)

pub set_soft_delete-AllApart :
    (id : ℤ) (value : Bool) (rows : List UuidRow)
    → AllApart rows
    → AllApart (set_soft_delete id value rows)
set_soft_delete-AllApart id value rows d =
    Pairwise-map Apart (λ r. Unit {0}) (marked id value)
      (λ a b p q dif. (
        λ e. dif.0 (sym (marked_same id value a).1 ∙ e ∙ (marked_same id value b).1),
        λ e. dif.1 (sym (marked_same id value a).0 ∙ e ∙ (marked_same id value b).0),
      ))
      rows (All-Unit rows) d

new_Apart :
    (row : UuidRow) (rows : List UuidRow)
    → any (row_clashes row.id row.uuid) rows ≡ false
    → All (λ r. Apart r row) rows
unfolding any
new_Apart row [] h = tt
new_Apart row (r ∷ rows) h = (
  (λ e. ground (arith, h, e, eq_ℤ_refl row.id), λ e. ground (arith, h, e, ==_iff r.uuid row.uuid)),
  new_Apart row rows (ground (arith, h)),
)

pub append-AllApart :
    (row : UuidRow) (rows : List UuidRow)
    → AllApart rows
    → any (row_clashes row.id row.uuid) rows ≡ false
    → AllApart (rows ++ row ∷ [])
append-AllApart row rows d h = Pairwise-append_last Apart rows row d (new_Apart row rows h)

pub append-Grows : (row : UuidRow) (rows : List UuidRow) → Grows rows (rows ++ row ∷ [])
append-Grows row rows uuid id (r, at, u, e) = (r, Member-append r rows (row ∷ []) at, u, e)

pub append-HasRow :
    (row : UuidRow) (rows : List UuidRow) → HasRow (rows ++ row ∷ []) row.uuid row.id
append-HasRow row rows = (row, Member-append_last row rows, refl, refl)
