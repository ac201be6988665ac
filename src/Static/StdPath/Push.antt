-- ===== src/Static/StdPath/Push.antt =====
-- What the methods of a path return, for paths written as concatenations.
use node_get.Prelude.{
  ◌≡◌, refl, true, false, List, [], ◌∷◌, ◌++◌, some, arith, ◌==◌, Bool-cases, Option-cases, inl,
  inr, All, ℕ, if◌then◌else◌, Bool, All-append,
}
use node_get.Text.{Text, text_eq, contains}
use node_get.Text.{is_empty}
use node_get.Static.StdPath.{
  Component, PathBuf, normal, prefix, root_dir, cur_dir, parent_dir, slash, split, segment,
  segments, first_segments, components, component_eq, path_starts_with, parent, onto_first, dot,
  dot_dot,
}

pub component_eq→eq : (a b : Component) → component_eq a b ≡ true → a ≡ b
unfolding component_eq
component_eq→eq a b h = ground arith

pub component_eq_refl : (a : Component) → component_eq a a ≡ true
unfolding component_eq
component_eq_refl a = ground arith

pub path_starts_with→append :
    (path base : PathBuf) → path_starts_with path base ≡ true → (r : PathBuf) × (path ≡ base ++ r)
unfolding path_starts_with
path_starts_with→append path [] h = (path, refl)
path_starts_with→append [] (b ∷ base) h = cc
path_starts_with→append (c ∷ path) (b ∷ base) h =
    let (r, e) = path_starts_with→append path base (ground arith) in
    (r, ground (arith, component_eq→eq c b))

pub path_starts_with-append : (base r : PathBuf) → path_starts_with (base ++ r) base ≡ true
unfolding path_starts_with
path_starts_with-append [] r = refl
path_starts_with-append (b ∷ base) r = rw (component_eq_refl b, path_starts_with-append base r) refl

-- A path ends in at most one component more than its parent.
pub parent→append :
    (path up : PathBuf) → parent path ≡ some up → (c : Component) × (path ≡ up ++ c ∷ [])
unfolding parent
parent→append [] up h = cc
parent→append (prefix ∷ []) up h = cc
parent→append (root_dir ∷ []) up h = cc
parent→append (cur_dir ∷ []) up h = (cur_dir, ground arith)
parent→append (parent_dir ∷ []) up h = (parent_dir, ground arith)
parent→append (normal a ∷ []) up h = (normal a, ground arith)
parent→append (c ∷ d ∷ path) up h = elim (Option-cases (parent (d ∷ path))) [
  | inl e ↦ cc (e, h)
  | inr (q, e) ↦ let (x, y) = parent→append (d ∷ path) q e in (x, ground arith)
]

pub parent-normal : (path : PathBuf) (a : Text) → parent (path ++ normal a ∷ []) ≡ some path
unfolding parent
parent-normal [] a = refl
parent-normal (c ∷ []) a = refl
parent-normal (c ∷ d ∷ path) a = rw (parent-normal (d ∷ path) a) refl

-- A component that names an entry of a directory: not empty, without slashes, and neither "." nor "..".
unfoldable pub is_entry : Component → Bool
is_entry (normal a) =
    if is_empty a
    then false
    else if contains a slash
    then false
    else if text_eq a dot
    then false
    else if text_eq a dot_dot
    then false
    else true
is_entry _ = false

abbrev pub NoSlash : Text → Type 0
NoSlash a = contains a slash ≡ false

onto_first-NoSlash :
    (c : ℕ) (xs : List Text) → (c == slash) ≡ false → All NoSlash xs → All NoSlash (onto_first c xs)
unfolding contains
onto_first-NoSlash c [] h a = (rw h refl, tt)
onto_first-NoSlash c (x ∷ xs) h a = (rw (h, a.0) refl, a.1)

split-NoSlash : (s : Text) → All NoSlash (split s)
unfolding split contains
split-NoSlash [] = (refl, tt)
split-NoSlash (c ∷ s) = elim (Bool-cases (c == slash)) [
  | inl h ↦ rw h (refl, split-NoSlash s)
  | inr h ↦ rw h (onto_first-NoSlash c (split s) h (split-NoSlash s))
]

-- A component that, when it is a name, is the name of an entry.
abbrev pub Named : Component → Type 0
Named (normal a) = is_entry (normal a) ≡ true
Named _ = Unit {0}

segment-Named : (x : Text) → NoSlash x → All Named (segment x)
unfolding is_entry segment
segment-Named [] h = tt
segment-Named (c ∷ x) h = elim (Bool-cases (text_eq (c ∷ x) dot)) [
  | inl e ↦ rw e tt
  | inr e ↦ elim (Bool-cases (text_eq (c ∷ x) dot_dot)) [
    | inl f ↦ rw (e, f) (tt, tt)
    | inr f ↦ rw (e, f) (rw (h, e, f) refl, tt)
  ]
]

segments-Named : (xs : List Text) → All NoSlash xs → All Named (segments xs)
unfolding segments
segments-Named [] h = tt
segments-Named (x ∷ xs) h =
    All-append Named (segment x) (segments xs) (segment-Named x h.0) (segments-Named xs h.1)

first_segments-Named : (xs : List Text) → All NoSlash xs → All Named (first_segments xs)
unfolding first_segments
first_segments-Named [] h = tt
first_segments-Named (x ∷ xs) h = elim (Bool-cases (text_eq x dot)) [
  | inl e ↦ rw e (tt, segments-Named xs h.1)
  | inr e ↦
      rw e
        (All-append Named (segment x) (segments xs) (segment-Named x h.0) (segments-Named xs h.1))
]

pub components-Named : (s : Text) → All Named (components s)
unfolding components
components-Named [] = tt
components-Named (c ∷ s) = elim (Bool-cases (c == slash)) [
  | inl h ↦ rw h (tt, segments-Named (split s) (split-NoSlash s))
  | inr h ↦ rw h (first_segments-Named (split (c ∷ s)) (split-NoSlash (c ∷ s)))
]
