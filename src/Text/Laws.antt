-- ===== src/Text/Laws.antt =====
-- What the text methods return, in terms of concatenation.
use node_get.Prelude.{
  ℕ, ◌≡◌, refl, true, false, [], ◌∷◌, ◌++◌, none, some, arith, ◌==◌, Bool-cases, Option-cases, inl,
  inr, ◌||◌,
}
use node_get.Text.{Text, text_eq, starts_with, contains, strip_suffix, split_once}

pub text_eq→eq : (a b : Text) → text_eq a b ≡ true → a ≡ b
text_eq→eq a b h = ground arith

pub text_eq_refl : (a : Text) → text_eq a a ≡ true
text_eq_refl a = ground arith

pub starts_with-append : (p s : Text) → starts_with (p ++ s) p ≡ true
unfolding starts_with
starts_with-append [] s = refl
starts_with-append (c ∷ p) s = ground (arith, starts_with-append p s)

pub starts_with_refl : (s : Text) → starts_with s s ≡ true
unfolding starts_with
starts_with_refl [] = refl
starts_with_refl (c ∷ s) = ground (arith, starts_with_refl s)

pub starts_with→append : (s p : Text) → starts_with s p ≡ true → (r : Text) × (s ≡ p ++ r)
unfolding starts_with
starts_with→append s [] h = (s, refl)
starts_with→append [] (p ∷ ps) h = cc
starts_with→append (c ∷ s) (p ∷ ps) h =
    let (r, e) = starts_with→append s ps (ground arith) in (r, ground arith)

pub strip_suffix→append :
    (s : Text) (c : ℕ) (p : Text) → strip_suffix s c ≡ some p → s ≡ p ++ c ∷ []
unfolding strip_suffix
strip_suffix→append [] c p h = cc
strip_suffix→append (d ∷ []) c p h = ground arith
strip_suffix→append (d ∷ e ∷ s) c p h = elim (Option-cases (strip_suffix (e ∷ s) c)) [
  | inl x ↦ cc (x, h)
  | inr (q, x) ↦ ground (arith, strip_suffix→append (e ∷ s) c q x)
]

pub strip_suffix-append : (p : Text) (c : ℕ) → strip_suffix (p ++ c ∷ []) c ≡ some p
unfolding strip_suffix
strip_suffix-append [] c = ground arith
strip_suffix-append (d ∷ []) c = ground (arith)
strip_suffix-append (d ∷ e ∷ p) c = rw (strip_suffix-append (e ∷ p) c)

pub contains-append : (a b : Text) (c : ℕ) → contains (a ++ b) c ≡ (contains a c || contains b c)
unfolding contains
contains-append [] b c = refl
contains-append (d ∷ a) b c = ground (arith, contains-append a b c)

pub split_once-append :
    (a b : Text) (c : ℕ) → contains a c ≡ false → split_once (a ++ c ∷ b) c ≡ some (a, b)
unfolding split_once contains
split_once-append [] b c h = ground arith
split_once-append (d ∷ a) b c h = ground (arith, split_once-append a b c)

pub split_once-none : (s : Text) (c : ℕ) → contains s c ≡ false → split_once s c ≡ none
unfolding split_once contains
split_once-none [] c h = refl
split_once-none (d ∷ s) c h = ground (arith, split_once-none s c)

-- Where the character occurs, the text is split at its first occurrence.
pub split_once_found :
    (s : Text) (c : ℕ)
    → contains s c ≡ true
    → (a : Text) × (b : Text) × (split_once s c ≡ some (a, b))
      × (s ≡ a ++ c ∷ b)
      × (contains a c ≡ false)
unfolding split_once contains
split_once_found [] c h = cc
split_once_found (d ∷ s) c h = elim (Bool-cases (d == c)) [
  | inl e ↦ ([], s, ground arith, ground arith, refl)
  | inr ne ↦
      let (a, b, found, joined, first) = split_once_found s c (ground arith) in
      (d ∷ a, b, ground arith, ground arith, ground arith)
]
