-- ===== src/Token/Table/Unique.antt =====
-- The operations on the table keep its unique columns unique.
use node_get.Prelude.{
  ◌≡◌, refl, sym, ap, ◌∙◌, subst, ◌⊎◌, inl, inr, Bool, true, false, not, List, [], ◌∷◌, ◌++◌,
  Option, none, some, any, keep, Member, All, Bool-cases, arith, if◌then◌else◌,
}
use node_get.Prelude.Int.{ℤ, eq_ℤ_refl}
use node_get.Prelude.Pairs.{Pairwise-append_last, Pairwise-map, Pairwise-at, keep_yes, keep_no}
use node_get.Prelude.Members.{Member-append_last, Member-map}
use node_get.Text.{Text}
use node_get.Text.Laws.{text_eq→eq, text_eq_refl}
use node_get.Error.{Message, ok}
use node_get.Token.Cache.{Model}
use node_get.Token.Cache.Build.{Differs, AllDiffer}
use node_get.Token.Table.{has_id, is_text, clashes, insert_row, find_row, update_row, delete_rows}

pub is_text→eq : (o : Option Text) (t : Text) → is_text o t ≡ true → o ≡ some t
is_text→eq none t h = cc h
is_text→eq (some u) t h = ap some (text_eq→eq u t h)

pub is_text_refl : (o : Option Text) (t : Text) → o ≡ some t → is_text o t ≡ true
is_text_refl none t h = cc h
is_text_refl (some u) t h = ground (arith, h)

pub Differs-sym : (a b : Model) → Differs a b → Differs b a
Differs-sym a b d = (λ e. d.0 (sym e), λ e. d.1 (sym e), λ u e f. d.2 u f e)

apart : (m r : Model) → clashes m r ≡ false → Differs r m
apart m r h = (
  λ e. ground (arith, h, e),
  λ e. ground (arith, h, e, eq_ℤ_refl m.id),
  λ u e f. ground (arith, h, e, f, text_eq_refl u),
)

All-apart :
    (m : Model) (rows : List Model) → any (clashes m) rows ≡ false → All (λ r. Differs r m) rows
unfolding any
All-apart m [] h = tt
All-apart m (r ∷ rows) h = (apart m r (ground (arith, h)), All-apart m rows (ground (arith, h)))

-- A row that is inserted has its unique columns to itself.
pub insert_row-AllDiffer :
    (failure : Message) (m : Model) (rows rows' : List Model)
    → AllDiffer rows
    → insert_row failure m rows ≡ ok rows'
    → AllDiffer rows' × Member m rows' × (rows' ≡ rows ++ m ∷ [])
unfolding insert_row
insert_row-AllDiffer failure m rows rows' d h = elim (Bool-cases (any (clashes m) rows)) [
  | inl e ↦ ground (arith, e, h)
  | inr e ↦
      let same : rows ++ m ∷ [] ≡ rows' = ground (arith, e, h) in
      (
        subst AllDiffer same (Pairwise-append_last Differs rows m d (All-apart m rows e)),
        subst (Member m) same (Member-append_last m rows),
        sym same,
      )
]

-- A function on rows that leaves the unique columns as they are.
abbrev pub KeepsColumns : (Model → Model) → Type 0
KeepsColumns f =
    (r : Model)
    → ((f r).id ≡ r.id) × ((f r).token_key ≡ r.token_key) × ((f r).username ≡ r.username)

KeepsColumns-update :
    (id : ℤ) (f : Model → Model)
    → KeepsColumns f
    → KeepsColumns (λ r. if has_id id r then f r else r)
KeepsColumns-update id f k r = elim (Bool-cases (has_id id r)) [
  | inl e ↦ rw e (k r)
  | inr e ↦ rw e (refl, refl, refl)
]

Differs-KeepsColumns :
    (f : Model → Model) → KeepsColumns f → (a b : Model) → Differs a b → Differs (f a) (f b)
Differs-KeepsColumns f k a b d = (
  λ e. d.0 (sym (k a).1 ∙ e ∙ (k b).1),
  λ e. d.1 (sym (k a).0 ∙ e ∙ (k b).0),
  λ u e g. d.2 u (sym (k a).2 ∙ e) (sym (k b).2 ∙ g),
)

All-tt : (rows : List Model) → All (λ r. Unit {0}) rows
All-tt [] = tt
All-tt (r ∷ rows) = (tt, All-tt rows)

pub update_row-AllDiffer :
    (id : ℤ) (f : Model → Model) (rows : List Model)
    → KeepsColumns f
    → AllDiffer rows
    → AllDiffer (update_row id f rows)
update_row-AllDiffer id f rows k d =
    Pairwise-map Differs (λ r. Unit {0}) (λ r. if has_id id r then f r else r)
      (λ a b p q.
        Differs-KeepsColumns (λ r. if has_id id r then f r else r) (KeepsColumns-update id f k) a b)
      rows (All-tt rows) d

pub find_row-Member :
    (p : Model → Bool) (rows : List Model) (m : Model)
    → find_row p rows ≡ some m
    → Member m rows × (p m ≡ true)
unfolding find_row
find_row-Member p [] m h = cc h
find_row-Member p (r ∷ rows) m h = elim (Bool-cases (p r)) [
  | inl e ↦ let same : r ≡ m = ground (arith, e, h) in (inl same, subst (λ x. p x ≡ true) same e)
  | inr e ↦ let (at, t) = find_row-Member p rows m (ground (arith, e, h)) in (inr at, t)
]

pub Member-find_row :
    (p : Model → Bool) (rows : List Model) (m : Model)
    → Member m rows
    → p m ≡ true
    → (n : Model) × (find_row p rows ≡ some n)
unfolding find_row
Member-find_row p [] m at h = elim at [ ]
Member-find_row p (r ∷ rows) m at h = elim (Bool-cases (p r)) [
  | inl e ↦ (r, ground (arith, e))
  | inr e ↦ elim at [
    | inl same ↦ cc (e, h, same)
    | inr below ↦ let (n, f) = Member-find_row p rows m below h in (n, ground (arith, e, f))
  ]
]

-- A deletion that takes a row leaves only rows that differ from it.
pub delete_rows-Differs :
    (p : Model → Bool) (rows : List Model) (m : Model)
    → AllDiffer rows
    → Member m rows
    → p m ≡ true
    → All (Differs m) (delete_rows p rows)
unfolding keep
delete_rows-Differs p rows m d at h = left rows (Pairwise-at Differs Differs-sym m rows d at)
  where
    left :
        (xs : List Model)
        → All (λ x. (x ≡ m) ⊎ Differs m x) xs
        → All (Differs m) (keep (λ r. not (p r)) xs)
    left [] k = tt
    left (x ∷ xs) k = elim (Bool-cases (p x)) [
      | inl e ↦
          subst (All (Differs m)) (sym (keep_no (λ r. not (p r)) x xs (ap not e))) (left xs k.1)
      | inr e ↦
          subst (All (Differs m)) (sym (keep_yes (λ r. not (p r)) x xs (ap not e)))
            (elim k.0 [ inl same ↦ cc (e, h, same) | inr dif ↦ dif ], left xs k.1)
    ]

-- The row with its columns changed is in the table, and the unique columns are still unique.
pub updated-Member :
    (m : Model) (f : Model → Model) (rows rows' : List Model)
    → KeepsColumns f
    → AllDiffer rows
    → Member m rows
    → update_row m.id f rows ≡ rows'
    → AllDiffer rows' × Member (f m) rows'
updated-Member m f rows rows' k d at same =
    let here : (if has_id m.id m then f m else m) ≡ f m = ground (arith, eq_ℤ_refl m.id) in
    (
      subst AllDiffer same (update_row-AllDiffer m.id f rows k d),
      subst (Member (f m)) same (
          subst (λ x. Member x (update_row m.id f rows)) here
            (Member-map (λ r. if has_id m.id r then f r else r) m rows at)),
    )
