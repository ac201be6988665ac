-- ===== src/Keyed.antt =====
-- `HashMap<K, V>` over a key type with decidable equality, as an association list.
use node_get.Prelude.{
  All, Bool-cases, inl, inr, ◌≡◌, ◌≢◌, refl, sym, subst, Bool, true, false, List, [], ◌∷◌, Option,
  none, some, arith, if◌then◌else◌,
}

abbrev pub is_same : {K : Type 0} → Discrete K → K → K → Bool
is_same discrete a b = elim (discrete a b) [ yes _ ↦ true | no _ ↦ false ]

module _ {K V : Type 0} (discrete : Discrete K) where
  unfoldable pub find : K → List (K × V) → Option V
  find k [] = none
  find k ((j, v) ∷ m) = if is_same discrete j k then some v else find k m

  unfoldable pub put : K → V → List (K × V) → List (K × V)
  put k v [] = (k, v) ∷ []
  put k v ((j, w) ∷ m) = if is_same discrete j k then (j, v) ∷ m else (j, w) ∷ put k v m

  unfoldable pub erase : K → List (K × V) → List (K × V)
  erase k [] = []
  erase k ((j, w) ∷ m) =
      let rest = erase k m in if is_same discrete j k then rest else (j, w) ∷ rest

  pub find-put :
      (k j : K) (v : V) (m : List (K × V))
      → find j (put k v m) ≡ (if is_same discrete k j then some v else find j m)
  unfolding find put
  find-put k j v [] = refl
  find-put k j v ((i, w) ∷ m) = ground (arith, find-put k j v m)

  pub find-put_same : (k : K) (v : V) (m : List (K × V)) → find k (put k v m) ≡ some v
  find-put_same k v m = ground (arith, find-put k k v m)

  pub find-put_other : (k j : K) (v : V) (m : List (K × V)) → k ≢ j → find j (put k v m) ≡ find j m
  find-put_other k j v m ne = ground (arith, find-put k j v m)

  -- What holds of the new value under its key, and of what was under each key, holds afterwards.
  pub find-put_elim :
      (P : K → Option V → Type 0) (k : K) (v : V) (m : List (K × V))
      → P k (some v)
      → ((j : K) → P j (find j m))
      → (j : K) → P j (find j (put k v m))
  find-put_elim P k v m here there j = elim (discrete k j) [
    | yes e ↦ subst (λ x. P x (find x (put k v m))) e (subst (P k) (sym (find-put_same k v m)) here)
    | no ne ↦ subst (P j) (sym (find-put_other k j v m ne)) (there j)
  ]

  -- One `insert` for each entry.
  unfoldable pub put_all : List (K × V) → List (K × V) → List (K × V)
  put_all [] m = m
  put_all ((k, v) ∷ es) m = put_all es (put k v m)

  abbrev pub Absent : K → List (K × V) → Type 0
  Absent k [] = Unit {0}
  Absent k ((j, v) ∷ m) = (k ≢ j) × Absent k m

  -- Each key has one entry, as in a map.
  abbrev pub Distinct : List (K × V) → Type 0
  Distinct [] = Unit {0}
  Distinct ((k, v) ∷ m) = Absent k m × Distinct m

  pub find-Absent : (k : K) (m : List (K × V)) → Absent k m → find k m ≡ none
  unfolding find
  find-Absent k [] h = refl
  find-Absent k ((j, v) ∷ m) h = ground (arith, h.0, find-Absent k m h.1)

  pub find-put_all :
      (es m : List (K × V)) (j : K)
      → Distinct es
      → find j (put_all es m) ≡ elim (find j es) [ none ↦ find j m | some v ↦ some v ]
  unfolding find put_all
  find-put_all [] m j d = refl
  find-put_all ((k, v) ∷ es) m j d = elim (discrete k j) [
    | yes e ↦
        let a : find j es ≡ none = subst (λ x. find x es ≡ none) e (find-Absent k es d.0) in
        ground (arith, e, a, find-put_all es (put k v m) j d.1, find-put k j v m)
    | no ne ↦ ground (arith, ne, find-put_all es (put k v m) j d.1, find-put k j v m)
  ]

  pub put-Absent : (j k : K) (v : V) (m : List (K × V)) → j ≢ k → Absent j m → Absent j (put k v m)
  unfolding put
  put-Absent j k v [] ne a = (ne, tt)
  put-Absent j k v ((i, w) ∷ m) ne a = elim (Bool-cases (is_same discrete i k)) [
    | inl e ↦ rw e a
    | inr e ↦ rw e (a.0, put-Absent j k v m ne a.1)
  ]

  pub put-Distinct : (k : K) (v : V) (m : List (K × V)) → Distinct m → Distinct (put k v m)
  unfolding put
  put-Distinct k v [] d = (tt, tt)
  put-Distinct k v ((i, w) ∷ m) d = elim (Bool-cases (is_same discrete i k)) [
    | inl e ↦ rw e d
    | inr e ↦ rw e (put-Absent i k v m (λ p. ground (arith, e, p)) d.0, put-Distinct k v m d.1)
  ]

  pub put-All :
      (P : V → Type 0) (k : K) (v : V) (m : List (K × V))
      → P v
      → All (λ e. P e.1) m
      → All (λ e. P e.1) (put k v m)
  unfolding put
  put-All P k v [] p h = (p, tt)
  put-All P k v ((i, w) ∷ m) p h = elim (Bool-cases (is_same discrete i k)) [
    | inl e ↦ rw e (p, h.1)
    | inr e ↦ rw e (h.0, put-All P k v m p h.1)
  ]

  pub find-erase_other : (k j : K) (m : List (K × V)) → k ≢ j → find j (erase k m) ≡ find j m
  unfolding find erase
  find-erase_other k j [] ne = refl
  find-erase_other k j ((i, w) ∷ m) ne = ground (arith, ne, find-erase_other k j m ne)
