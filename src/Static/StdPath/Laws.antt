-- ===== src/Static/StdPath/Laws.antt =====
-- The components of a joined path, and what the path methods return in terms of concatenation.
use node_get.Prelude.{
  ◌≡◌, ◌≢◌, refl, true, false, List, [], ◌∷◌, ◌++◌, arith, ◌==◌, Bool-cases, inl, inr, ap, sym, ◌∙◌,
  ℕ, if◌then◌else◌,
}
use mathlib.Core.List.{append_assoc, append-nil}
use node_get.Text.{Text, text_eq}
use node_get.Static.StdPath.{
  root_dir, cur_dir, slash, split, segment, segments, first_segments, components, is_absolute, join,
  ends_with_slash, onto_first, dot,
}

-- The head and the tail of a split, which is never empty.
split_cons : (s : Text) → (x : Text) × (xs : List Text) × (split s ≡ x ∷ xs)
unfolding split
split_cons [] = ([], [], refl)
split_cons (c ∷ s) =
    let (x, xs, e) = split_cons s in
    elim (Bool-cases (c == slash)) [
      | inl h ↦ ([], split s, rw h refl)
      | inr h ↦ (c ∷ x, xs, rw (h, e) refl)
    ]

onto_first-append :
    (c : ℕ) (a : Text) (ys : List Text)
    → onto_first c (split a ++ ys) ≡ onto_first c (split a) ++ ys
onto_first-append c a ys = let (x, xs, e) = split_cons a in rw e refl

pub split-append : (a b : Text) → split (a ++ slash ∷ b) ≡ split a ++ split b
unfolding split
split-append [] b = refl
split-append (c ∷ a) b = elim (Bool-cases (c == slash)) [
  | inl h ↦ rw (h, split-append a b) refl
  | inr h ↦ rw (h, split-append a b) (onto_first-append c a (split b))
]

pub segments-append : (xs ys : List Text) → segments (xs ++ ys) ≡ segments xs ++ segments ys
unfolding segments
segments-append [] ys = refl
segments-append (x ∷ xs) ys =
    ap (λ r. segment x ++ r) (segments-append xs ys)
    ∙ sym (append_assoc (segment x) (segments xs) (segments ys))

first_segments-append :
    (x : Text) (xs ys : List Text)
    → first_segments (x ∷ xs ++ ys) ≡ first_segments (x ∷ xs) ++ segments ys
unfolding first_segments
first_segments-append x xs ys =
    ap (λ r. (if text_eq x dot then cur_dir ∷ [] else segment x) ++ r) (segments-append xs ys)
    ∙ sym (
        append_assoc (if text_eq x dot then cur_dir ∷ [] else segment x) (segments xs)
          (segments ys))

components-slash :
    (c : ℕ) (a b : Text)
    → components (c ∷ a ++ slash ∷ b) ≡ components (c ∷ a) ++ segments (split b)
unfolding components
components-slash c a b = elim (Bool-cases (c == slash)) [
  | inl h ↦ rw (h, split-append a b) (ap (λ r. root_dir ∷ r) (segments-append (split a) (split b)))
  | inr h ↦
      let (x, xs, e) = split_cons (c ∷ a) in
      rw (h, split-append (c ∷ a) b, e) (first_segments-append x xs (split b))
]

ends_with_slash→append :
    (c : ℕ) (a : Text) → ends_with_slash (c ∷ a) ≡ true → (p : Text) × (c ∷ a ≡ p ++ slash ∷ [])
unfolding ends_with_slash
ends_with_slash→append c [] h = ([], ground arith)
ends_with_slash→append c (d ∷ a) h =
    let (p, e) = ends_with_slash→append d a h in (c ∷ p, ap (λ r. c ∷ r) e)

components-slash_at :
    (a b : Text) → components (a ++ slash ∷ b) ≡ components (a ++ slash ∷ []) ++ segments (split b)
unfolding components split segments segment
components-slash_at [] b = refl
components-slash_at (c ∷ a) b =
    components-slash c a b
    ∙ ap (λ r. r ++ segments (split b))
        (sym (components-slash c a [] ∙ append-nil (components (c ∷ a))))

-- A relative path joined to one that is not empty adds its segments.
pub components-join :
    (a b : Text)
    → a ≢ []
    → is_absolute b ≡ false
    → components (join a b) ≡ components a ++ segments (split b)
unfolding join
components-join [] b h r = elim (h refl) [ ]
components-join (c ∷ a) b h r = elim (Bool-cases (ends_with_slash (c ∷ a))) [
  | inl e ↦
      let (p, q) = ends_with_slash→append c a e in
      rw (r, e)
        (ap (λ t. components (t ++ b)) q
          ∙ ap components (append_assoc p (slash ∷ []) b)
          ∙ components-slash_at p b
          ∙ ap (λ t. components t ++ segments (split b)) (sym q))
  | inr e ↦ rw (r, e) (components-slash c a b)
]
