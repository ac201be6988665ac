-- ===== src/Static/Walk/Counted.antt =====
-- Lists that have every kind of entry equally often.
use node_get.Prelude.{
  ◌≡◌, ◌<◌, sym, ap, subst, Bool, true, List, [], ◌∷◌, ◌&&◌, ◌==◌, arith, inl, inr, Member,
  Bool-cases,
}
use node_get.Text.{text_eq}
use node_get.Text.Laws.{text_eq→eq, text_eq_refl}
use node_get.Static.Walk.{FileInfo}
use node_get.Static.Walk.Sort.{count, one_if}

-- Two lists that have every kind of entry equally often have the same entries.
abbrev is_same_info : FileInfo → FileInfo → Bool
is_same_info f g = text_eq f.path g.path && (f.size == g.size && f.mtime == g.mtime)

is_same_info→eq : (f g : FileInfo) → is_same_info f g ≡ true → f ≡ g
is_same_info→eq f g h =
    all_equal (text_eq→eq f.path g.path (ground (arith, h))) (ground (arith, h)) (ground (arith, h))
  where
    all_equal : f.path ≡ g.path → f.size ≡ g.size → f.mtime ≡ g.mtime → f ≡ g
    all_equal a b c = cc (a, b, c)

is_same_info_refl : (f : FileInfo) → is_same_info f f ≡ true
is_same_info_refl f = rw (text_eq_refl f.path) (ground arith)

Member→count : (f : FileInfo) (fs : List FileInfo) → Member f fs → 0 < count (is_same_info f) fs
Member→count f [] m = elim m [ ]
Member→count f (g ∷ fs) (inl e) =
    let same : is_same_info f g ≡ true =
      subst (λ x. is_same_info f x ≡ true) (sym e) (is_same_info_refl f) in
    omega (arith, ap one_if same)
Member→count f (g ∷ fs) (inr m) = omega (arith, Member→count f fs m)

count→Member : (f : FileInfo) (fs : List FileInfo) → 0 < count (is_same_info f) fs → Member f fs
count→Member f [] h = ground (arith, h)
count→Member f (g ∷ fs) h = elim (Bool-cases (is_same_info f g)) [
  | inl e ↦ inl (sym (is_same_info→eq f g e))
  | inr e ↦ inr (count→Member f fs (ground (arith, e, h)))
]

pub count-Member :
    (fs gs : List FileInfo)
    → ((p : FileInfo → Bool) → count p fs ≡ count p gs)
    → (f : FileInfo) → Member f fs
    → Member f gs
count-Member fs gs same f m =
    count→Member f gs (omega (arith, same (is_same_info f), Member→count f fs m))
