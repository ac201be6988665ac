-- ===== src/Static/Walk/Sort.antt =====
-- crates/ng-static/src/ops.rs: the order of the listing.
use node_get.Prelude.{
  ◌≡◌, refl, Bool, true, false, List, [], ◌∷◌, ◌++◌, ℕ, ◌+◌, arith, Bool-cases, inl, inr,
  if◌then◌else◌,
}
use node_get.Text.{Text}
use node_get.Static.Walk.{FileInfo, text_le, insert_sorted, sort}

abbrev pub one_if : Bool → ℕ
one_if b = if b then 1 else 0

-- How many elements pass a test.
abbrev pub count : (FileInfo → Bool) → List FileInfo → ℕ
count p [] = 0
count p (f ∷ fs) = one_if (p f) + count p fs

pub count-append :
    (p : FileInfo → Bool) (a b : List FileInfo) → count p (a ++ b) ≡ count p a + count p b
count-append p [] b = omega arith
count-append p (f ∷ a) b = omega (arith, count-append p a b)

-- The next path, if there is one, is not smaller.
abbrev pub NextFrom : FileInfo → List FileInfo → Type 0
NextFrom f [] = Unit {0}
NextFrom f (g ∷ fs) = text_le f.path g.path ≡ true

abbrev pub IsSorted : List FileInfo → Type 0
IsSorted [] = Unit {0}
IsSorted (f ∷ fs) = NextFrom f fs × IsSorted fs

text_le_total : (a b : Text) → text_le a b ≡ false → text_le b a ≡ true
unfolding text_le
text_le_total [] b h = cc h
text_le_total (c ∷ a) [] h = refl
text_le_total (c ∷ a) (d ∷ b) h = ground (arith, text_le_total a b)

insert_sorted-NextFrom :
    (g f : FileInfo) (fs : List FileInfo)
    → text_le g.path f.path ≡ true
    → NextFrom g fs
    → NextFrom g (insert_sorted f fs)
unfolding insert_sorted
insert_sorted-NextFrom g f [] le h = le
insert_sorted-NextFrom g f (i ∷ fs) le h = elim (Bool-cases (text_le f.path i.path)) [
  | inl e ↦ rw e le
  | inr e ↦ rw e h
]

insert_sorted-IsSorted :
    (f : FileInfo) (fs : List FileInfo) → IsSorted fs → IsSorted (insert_sorted f fs)
unfolding insert_sorted
insert_sorted-IsSorted f [] h = (tt, tt)
insert_sorted-IsSorted f (g ∷ fs) h = elim (Bool-cases (text_le f.path g.path)) [
  | inl e ↦ rw e (e, h)
  | inr e ↦ rw e (
    insert_sorted-NextFrom g f fs (text_le_total f.path g.path e) h.0,
    insert_sorted-IsSorted f fs h.1,
  )
]

pub sort-IsSorted : (fs : List FileInfo) → IsSorted (sort fs)
unfolding sort
sort-IsSorted [] = tt
sort-IsSorted (f ∷ fs) = insert_sorted-IsSorted f (sort fs) (sort-IsSorted fs)

count-insert_sorted :
    (p : FileInfo → Bool) (f : FileInfo) (fs : List FileInfo)
    → count p (insert_sorted f fs) ≡ one_if (p f) + count p fs
unfolding insert_sorted
count-insert_sorted p f [] = refl
count-insert_sorted p f (g ∷ gs) = elim (Bool-cases (text_le f.path g.path)) [
  | inl e ↦ rw e refl
  | inr e ↦ rw e (omega (arith, count-insert_sorted p f gs))
]

pub count-sort : (p : FileInfo → Bool) (fs : List FileInfo) → count p (sort fs) ≡ count p fs
unfolding sort
count-sort p [] = refl
count-sort p (f ∷ fs) = omega (arith, count-insert_sorted p f (sort fs), count-sort p fs)
