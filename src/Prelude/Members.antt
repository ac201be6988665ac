-- ===== src/Prelude/Members.antt =====
-- What is in a list after an operation on it.
use mathlib.Core.Path.{◌≡◌, refl, sym, ap, subst, ◌∙◌}
use mathlib.Core.Logic.{inl, inr}
use mathlib.Core.Bool.{Bool, true}
use mathlib.Core.List.{List, [], ◌∷◌, ◌++◌, map}
use native.Mathlib.Omega.{arith}
use node_get.Prelude.Lists.{Member, keep, any}
use node_get.Prelude.Tests.{Bool-cases}
use node_get.Prelude.Pairs.{keep_yes, keep_no}

module _ {A : Type 0} where
  pub Member-append : (a : A) (xs ys : List A) → Member a xs → Member a (xs ++ ys)
  Member-append a [] ys m = elim m [ ]
  Member-append a (x ∷ xs) ys (inl e) = inl e
  Member-append a (x ∷ xs) ys (inr m) = inr (Member-append a xs ys m)

  pub Member-append_last : (a : A) (xs : List A) → Member a (xs ++ a ∷ [])
  Member-append_last a [] = inl refl
  Member-append_last a (x ∷ xs) = inr (Member-append_last a xs)

  pub Member-keep :
      (p : A → Bool) (a : A) (xs : List A) → p a ≡ true → Member a xs → Member a (keep p xs)
  Member-keep p a [] e m = elim m [ ]
  Member-keep p a (x ∷ xs) e (inl q) = subst (Member a) (sym (keep_yes p x xs (ap p q ∙ e))) (inl q)
  Member-keep p a (x ∷ xs) e (inr m) = elim (Bool-cases (p x)) [
    | inl t ↦ subst (Member a) (sym (keep_yes p x xs t)) (inr (Member-keep p a xs e m))
    | inr f ↦ subst (Member a) (sym (keep_no p x xs f)) (Member-keep p a xs e m)
  ]

  pub Member-map :
      {B : Type 0} (f : A → B) (a : A) (xs : List A) → Member a xs → Member (f a) (map f xs)
  Member-map f a [] m = elim m [ ]
  Member-map f a (x ∷ xs) (inl e) = inl (ap f e)
  Member-map f a (x ∷ xs) (inr m) = inr (Member-map f a xs m)

  pub any→Member :
      (p : A → Bool) (xs : List A) → any p xs ≡ true → (a : A) × Member a xs × (p a ≡ true)
  unfolding any
  any→Member p [] h = cc h
  any→Member p (x ∷ xs) h = elim (Bool-cases (p x)) [
    | inl e ↦ (x, inl refl, e)
    | inr e ↦ let (a, m, t) = any→Member p xs (ground (arith, e, h)) in (a, inr m, t)
  ]
