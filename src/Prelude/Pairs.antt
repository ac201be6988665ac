-- ===== src/Prelude/Pairs.antt =====
-- Lists whose elements are related in pairs, the earlier one first.
use mathlib.Core.Path.{◌≡◌, sym, subst}
use mathlib.Core.Logic.{◌⊎◌, inl, inr}
use mathlib.Core.Bool.{Bool, true, false}
use mathlib.Core.List.{List, [], ◌∷◌, ◌++◌, map}
use native.Mathlib.Omega.{arith}
use node_get.Prelude.Lists.{All, All-append, All-map, keep, Member, All_at}
use node_get.Prelude.Tests.{Bool-cases}

module _ {A : Type 0} where
  abbrev pub Pairwise : (A → A → Type 0) → List A → Type 0
  Pairwise R [] = Unit {0}
  Pairwise R (x ∷ xs) = All (R x) xs × Pairwise R xs

  pub keep_yes : (p : A → Bool) (x : A) (xs : List A) → p x ≡ true → keep p (x ∷ xs) ≡ x ∷ keep p xs
  unfolding keep
  keep_yes p x xs e = ground arith

  pub keep_no : (p : A → Bool) (x : A) (xs : List A) → p x ≡ false → keep p (x ∷ xs) ≡ keep p xs
  unfolding keep
  keep_no p x xs e = ground arith

  pub All-keep : (P : A → Type 0) (p : A → Bool) (xs : List A) → All P xs → All P (keep p xs)
  unfolding keep
  All-keep P p [] h = tt
  All-keep P p (x ∷ xs) h = elim (Bool-cases (p x)) [
    | inl e ↦ subst (All P) (sym (keep_yes p x xs e)) (h.0, All-keep P p xs h.1)
    | inr e ↦ subst (All P) (sym (keep_no p x xs e)) (All-keep P p xs h.1)
  ]

  pub Pairwise-keep :
      (R : A → A → Type 0) (p : A → Bool) (xs : List A) → Pairwise R xs → Pairwise R (keep p xs)
  unfolding keep
  Pairwise-keep R p [] h = tt
  Pairwise-keep R p (x ∷ xs) h = elim (Bool-cases (p x)) [
    | inl e ↦
        subst (Pairwise R) (sym (keep_yes p x xs e))
          (All-keep (R x) p xs h.0, Pairwise-keep R p xs h.1)
    | inr e ↦ subst (Pairwise R) (sym (keep_no p x xs e)) (Pairwise-keep R p xs h.1)
  ]

  pub Pairwise-append_last :
      (R : A → A → Type 0) (xs : List A) (x : A)
      → Pairwise R xs
      → All (λ y. R y x) xs
      → Pairwise R (xs ++ x ∷ [])
  Pairwise-append_last R [] x h k = (tt, tt)
  Pairwise-append_last R (y ∷ xs) x h k =
      (All-append (R y) xs (x ∷ []) h.0 (k.0, tt), Pairwise-append_last R xs x h.1 k.1)

  -- A function on the elements that keeps the relation between elements for which `Q` holds.
  All-map_related :
      (R : A → A → Type 0) (Q : A → Type 0) (f : A → A)
      → ((a b : A) → Q a → Q b → R a b → R (f a) (f b))
      → (x : A) (xs : List A) → Q x
      → All Q xs
      → All (R x) xs
      → All (R (f x)) (map f xs)
  All-map_related R Q f k x [] q qs h = tt
  All-map_related R Q f k x (y ∷ xs) q qs h =
      (k x y q qs.0 h.0, All-map_related R Q f k x xs q qs.1 h.1)

  pub Pairwise-map :
      (R : A → A → Type 0) (Q : A → Type 0) (f : A → A)
      → ((a b : A) → Q a → Q b → R a b → R (f a) (f b))
      → (xs : List A) → All Q xs
      → Pairwise R xs
      → Pairwise R (map f xs)
  Pairwise-map R Q f k [] q h = tt
  Pairwise-map R Q f k (x ∷ xs) q h =
      (All-map_related R Q f k x xs q.0 q.1 h.0, Pairwise-map R Q f k xs q.1 h.1)

  -- Where the relation is symmetric, an element is related to every element but itself.
  pub Pairwise-at :
      (R : A → A → Type 0)
      → ((a b : A) → R a b → R b a)
      → (a : A) (xs : List A) → Pairwise R xs
      → Member a xs
      → All (λ x. (x ≡ a) ⊎ R a x) xs
  Pairwise-at R s a [] h m = elim m [ ]
  Pairwise-at R s a (x ∷ xs) h (inl e) = (
    inl e,
    All-map (R a) (λ y. (y ≡ a) ⊎ R a y) (λ y k. inr k) xs (subst (λ y. All (R y) xs) e h.0),
  )
  Pairwise-at R s a (x ∷ xs) h (inr m) =
      (inr (s x a (All_at (R x) a xs h.0 m)), Pairwise-at R s a xs h.1 m)
