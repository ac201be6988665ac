-- ===== src/Static/Validate/Inside.antt =====
-- crates/ng-static/src/ops.rs: a resolved file lies inside its bucket, and the bucket inside the
-- configured directory.
use mathlib.Core.List.{append_assoc, append-nil, append_cancel_left}
use node_get.Prelude.{
  ◌≡◌, ◌≢◌, inl, inr, refl, sym, ap, ◌∙◌, subst, true, false, List, [], ◌∷◌, ◌++◌, ◌==◌, arith, All,
  Any, Bool-cases, Option-cases, some, last-cases, but_last, but_last-append, All-append,
  All-append_split,
}
use node_get.Text.{Text, text_eq}
use node_get.Text.Laws.{text_eq→eq}
use node_get.Error.{ok, Result-cases}
use node_get.Text.{is_empty}
use node_get.Static.StdPath.{
  Component, PathBuf, prefix, root_dir, cur_dir, parent_dir, normal, components, join, parent,
  path_starts_with, split, segments, first_segments, segment, is_absolute, slash, dot, dot_dot,
}
use node_get.Static.StdPath.Laws.{components-join}
use node_get.Static.StdPath.Push.{
  is_entry, Named, components-Named, parent→append, path_starts_with→append,
}
use node_get.Static.Validate.{
  validate_sub_path, resolve_components, check_inside, resolve_safe_file_path,
}
use node_get.Static.Validate.Accepted.{Allowed, GoodName, IsNormal, validate_sub_path_iff}

abbrev pub Entry : Component → Type 0
Entry c = is_entry c ≡ true

-- Where the loop is: up some of the base, and down again by names.
abbrev Tracks : PathBuf → PathBuf → Type 0
Tracks base path =
    (before : PathBuf) × (after : PathBuf) × (names : PathBuf) × (base ≡ before ++ after)
    × (path ≡ before ++ names)
    × All Entry names

Tracks-push :
    (base path : PathBuf) (c : Component)
    → Tracks base path
    → Entry c
    → Tracks base (path ++ c ∷ [])
Tracks-push base path c (before, after, names, b, p, n) e = (
  before,
  after,
  names ++ c ∷ [],
  b,
  ap (λ r. r ++ c ∷ []) p ∙ append_assoc before names (c ∷ []),
  All-append Entry names (c ∷ []) n (e, tt),
)

-- The parent drops the last name, or else the last component of the base that is left.
Tracks-pop : (base path up : PathBuf) → Tracks base path → parent path ≡ some up → Tracks base up
Tracks-pop base path up (before, after, names, b, p, n) h =
    let (c, q) = parent→append path up h in
    elim (last-cases names) [
      | inr (ns, x, e) ↦
          let names_up : up ≡ before ++ ns =
            sym (but_last-append up c)
            ∙ ap but_last
                (sym q ∙ p ∙ ap (λ r. before ++ r) e ∙ sym (append_assoc before ns (x ∷ [])))
            ∙ but_last-append (before ++ ns) x in
          (
            before,
            after,
            ns,
            b,
            names_up,
            (All-append_split Entry ns (x ∷ []) (subst (All Entry) e n)).0,
          )
      | inl e ↦
          let whole : before ≡ up ++ c ∷ [] =
            sym (p ∙ ap (λ r. before ++ r) e ∙ append-nil before) ∙ q in
          (
            up,
            c ∷ after,
            [],
            b ∙ ap (λ r. r ++ after) whole ∙ append_assoc up (c ∷ []) after,
            sym (append-nil up),
            tt,
          )
    ]

resolve_components-Tracks :
    (base path : PathBuf) (rest : PathBuf) (r : PathBuf)
    → Tracks base path
    → All Named rest
    → resolve_components path rest ≡ ok r
    → Tracks base r
unfolding resolve_components
resolve_components-Tracks base path [] r t n h = subst (Tracks base) (ground arith) t
resolve_components-Tracks base path (normal c ∷ rest) r t n h =
    resolve_components-Tracks base (path ++ normal c ∷ []) rest r
      (Tracks-push base path (normal c) t n.0) n.1 h
resolve_components-Tracks base path (root_dir ∷ rest) r t n h =
    resolve_components-Tracks base path rest r t n.1 h
resolve_components-Tracks base path (cur_dir ∷ rest) r t n h =
    resolve_components-Tracks base path rest r t n.1 h
resolve_components-Tracks base path (prefix ∷ rest) r t n h = cc
resolve_components-Tracks base path (parent_dir ∷ rest) r t n h =
    elim (Option-cases (parent path)) [
      | inl e ↦ cc (e, h)
      | inr (up, e) ↦
          resolve_components-Tracks base up rest r (Tracks-pop base path up t e) n.1 (ground arith)
    ]

-- Below the base, only names are left.
Tracks-below : (base rest : PathBuf) → Tracks base (base ++ rest) → All Entry rest
Tracks-below base rest (before, after, names, b, p, n) =
    let same : after ++ rest ≡ names =
      append_cancel_left before (after ++ rest) names
        (sym (append_assoc before after rest) ∙ ap (λ x. x ++ rest) (sym b) ∙ p) in
    (All-append_split Entry after rest (subst (All Entry) (sym same) n)).1

-- A component that is an acceptable name.
abbrev pub BucketDir : Component → Type 0
BucketDir (normal c) = GoodName c
BucketDir _ = ⊥

segment-BucketDir : (x : Text) → All Allowed (segment x) → All BucketDir (segment x)
unfolding segment
segment-BucketDir x = elim (Bool-cases (is_empty x)) [
  | inl e ↦ rw e (λ h. tt)
  | inr e ↦ elim (Bool-cases (text_eq x dot)) [
    | inl f ↦ rw (e, f) (λ h. tt)
    | inr f ↦ elim (Bool-cases (text_eq x dot_dot)) [
      | inl g ↦ rw (e, f, g) (λ h. elim h.0 [ ])
      | inr g ↦ rw (e, f, g) (λ h. h)
    ]
  ]
]

segments-BucketDir : (xs : List Text) → All Allowed (segments xs) → All BucketDir (segments xs)
unfolding segments
segments-BucketDir [] h = tt
segments-BucketDir (x ∷ xs) h =
    let (a, b) = All-append_split Allowed (segment x) (segments xs) h in
    All-append BucketDir (segment x) (segments xs) (segment-BucketDir x a) (segments-BucketDir xs b)

dot_segment : (xs : List Text) → All Allowed (segments xs) → All Allowed (segments (dot ∷ xs))
unfolding segments segment node_get.Text.text_discrete
dot_segment xs h = h

first_segments-Allowed :
    (xs : List Text) → All Allowed (first_segments xs) → All Allowed (segments xs)
unfolding first_segments segments
first_segments-Allowed [] = λ h. tt
first_segments-Allowed (x ∷ xs) = elim (Bool-cases (text_eq x dot)) [
  | inl e ↦ rw e (λ h. rw (text_eq→eq x dot e) (dot_segment xs h.1))
  | inr e ↦ rw e (λ h. h)
]

relative_dirs :
    (path : Text)
    → All Allowed (components path)
    → Any IsNormal (components path)
    → (is_absolute path ≡ false) × All BucketDir (segments (split path))
unfolding components is_absolute
relative_dirs [] = λ a. λ n. elim n [ ]
relative_dirs (c ∷ s) = elim (Bool-cases (c == slash)) [
  | inl e ↦ rw e (λ a. λ n. elim a.0 [ ])
  | inr e ↦ rw e (λ a.
      λ n. (refl, segments-BucketDir (split (c ∷ s)) (first_segments-Allowed (split (c ∷ s)) a)))
]

-- An accepted directory is relative, and its segments are acceptable names.
pub validate_sub_path→dirs :
    (path : Text)
    → validate_sub_path path ≡ ok tt
    → (is_absolute path ≡ false) × All BucketDir (segments (split path))
validate_sub_path→dirs path h =
    let accepted = (validate_sub_path_iff path).0 h in relative_dirs path accepted.2 accepted.3

-- What the last test lets through is inside.
ok-injective : (q r : PathBuf) → ok q ≡ ok r → q ≡ r
ok-injective q r h = cc h

checked :
    (base q r : PathBuf)
    → check_inside base (ok q) ≡ ok r
    → (q ≡ r) × (path_starts_with r base ≡ true)
checked base q r = elim (Bool-cases (path_starts_with q base)) [
  | inl e ↦ rw e (λ h.
      (ok-injective q r h, subst (λ x. path_starts_with x base ≡ true) (ok-injective q r h) e))
  | inr e ↦ rw e (λ h. cc h)
]

-- The configured directory, then the acceptable names of the bucket's directory, then names of entries.
abbrev pub LiesBelow : Text → Text → PathBuf → Type 0
LiesBelow static_path sub_path r =
    (dirs : PathBuf) × (rest : PathBuf) × (r ≡ components static_path ++ dirs ++ rest)
    × (dirs ≡ segments (split sub_path))
    × All BucketDir dirs
    × All Entry rest

-- Whatever bucket directory and file path are asked for: with a configured directory that is not
-- empty, a path that is resolved is the configured directory, then the acceptable names of the
-- bucket's directory, then names of entries, none of them a dot, two dots or with a slash.
pub resolve_safe_file_path-below :
    (static_path sub_path file_path : Text) (r : PathBuf)
    → static_path ≢ []
    → resolve_safe_file_path static_path sub_path file_path ≡ ok r
    → LiesBelow static_path sub_path r
unfolding resolve_safe_file_path
resolve_safe_file_path-below sp sub fp r ne h = elim (Result-cases (validate_sub_path sub)) [
  | inr (e, bad) ↦ cc (bad, h)
  | inl (u, good) ↦
      let base = components (join sp sub) in
      elim (Result-cases (resolve_components base (components fp))) [
        | inr (e, bad) ↦ cc (good, bad, h)
        | inl (q, found) ↦
            let (same, inside) = checked base q r (ground (arith, good, found)) in
            let (rest, split_base) = path_starts_with→append r base inside in
            let (relative, dirs) = validate_sub_path→dirs sub good in
            let t : Tracks base r =
              resolve_components-Tracks base base (components fp) r
                (base, [], [], sym (append-nil base), sym (append-nil base), tt)
                (components-Named fp) (found ∙ ap ok same) in
            (
              segments (split sub),
              rest,
              split_base ∙ ap (λ x. x ++ rest) (components-join sp sub ne relative),
              refl,
              dirs,
              Tracks-below base rest (subst (Tracks base) split_base t),
            )
      ]
]
