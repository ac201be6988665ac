-- ===== src/Token/Admin/Kept.antt =====
-- What the writes keep of the table.
use node_get.Prelude.{
  ◌≡◌, refl, sym, ◌∙◌, subst, inl, inr, Bool, not, List, [], ◌∷◌, Member, Bool-cases, arith,
  if◌then◌else◌,
}
use node_get.Prelude.Int.{ℤ, pos, eq_ℤ_refl}
use node_get.Prelude.Pairs.{Pairwise-keep}
use node_get.Prelude.Members.{Member-append, Member-keep, Member-map}
use node_get.Error.{Message, Result, ok, err}
use node_get.Token.Cache.{Model}
use node_get.Token.Cache.Build.{Differs, AllDiffer}
use node_get.Token.Table.{Change, has_id, insert_row, update_row, delete_rows}
use node_get.Token.Table.Unique.{insert_row-AllDiffer, update_row-AllDiffer, KeepsColumns}
use node_get.Token.Admin.{Response, is_deletable, stored_or_exists}

-- The unique columns are unique, and the super token has a row.
abbrev pub IsTable : List Model → Type 0
IsTable rows = AllDiffer rows × ((m : Model) × Member m rows × (m.id ≡ pos 1))

pub update_row-IsTable :
    (id : ℤ) (f : Model → Model) (rows : List Model)
    → KeepsColumns f
    → IsTable rows
    → IsTable (update_row id f rows)
update_row-IsTable id f rows k (d, (m, at, e)) = (
  update_row-AllDiffer id f rows k d,
  (
    (if has_id id m then f m else m),
    Member-map (λ r. if has_id id r then f r else r) m rows at,
    elim (Bool-cases (has_id id m)) [ inl t ↦ rw t ((k m).0 ∙ e) | inr t ↦ rw t e ],
  ),
)

pub delete_rows-IsTable :
    (p : Model → Bool) (rows : List Model)
    → IsTable rows
    → IsTable (delete_rows (is_deletable p) rows)
delete_rows-IsTable p rows (d, (m, at, e)) = (
  Pairwise-keep Differs _ rows d,
  (
    m,
    Member-keep (λ r. not (is_deletable p r)) m rows (ground (arith, e, eq_ℤ_refl (pos 1))) at,
    e,
  ),
)

pub insert_row-IsTable :
    (failure : Message) (m : Model) (rows rows' : List Model)
    → IsTable rows
    → insert_row failure m rows ≡ ok rows'
    → IsTable rows'
insert_row-IsTable failure m rows rows' (d, (n, at, e)) h =
    let (unique, _, all_rows) = insert_row-AllDiffer failure m rows rows' d h in
    (unique, (n, subst (Member n) (sym all_rows) (Member-append n rows (m ∷ []) at), e))

pub at_rows :
    {A : Type 0} (P : List Model → Type 0) (a b : A) (rows rows' : List Model)
    → P rows
    → ◌≡◌ {A = Change A} (ok (a, rows)) (ok (b, rows'))
    → P rows'
at_rows P a b rows rows' p h = let same : rows ≡ rows' = cc h in subst P same p

pub stored_or_exists-IsTable :
    (stored : Result (List Model)) (answer a : Response) (rows rows' : List Model)
    → ((new_rows : List Model) → stored ≡ ok new_rows → IsTable new_rows)
    → IsTable rows
    → stored_or_exists answer rows stored ≡ ok (a, rows')
    → IsTable rows'
stored_or_exists-IsTable (ok new_rows) answer a rows rows' p t h =
    at_rows IsTable answer a new_rows rows' (p new_rows refl) h
stored_or_exists-IsTable (err e) answer a rows rows' p t h = at_rows IsTable _ a rows rows' t h
