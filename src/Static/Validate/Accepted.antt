-- ===== src/Static/Validate/Accepted.antt =====
-- crates/ng-static/src/ops.rs: which names and which directories the checks accept.
use node_get.Prelude.{
  ◌≡◌, ◌≢◌, ◌↔◌, ◌⊎◌, inl, inr, refl, Bool, true, false, [], ◌∷◌, ◌==◌, ℕ, ◌≤◌, arith, All, Any,
  Bool-cases, all, length, ltb,
}
use node_get.Text.{byte_length, Text, contains}
use node_get.Error.{ok, Result-cases}
use node_get.Static.StdPath.{
  Component, PathBuf, prefix, root_dir, cur_dir, parent_dir, normal, components,
}
use node_get.Static.Validate.{
  is_ascii_alphanumeric, is_name_char, validate_name, check_components, validate_sub_path,
}

-- A letter or a digit of ASCII, an underscore, a dash or a dot.
abbrev pub NameChar : ℕ → Type 0
NameChar c =
    ((48 ≤ c) × (c ≤ 57))
    ⊎ ((65 ≤ c) × (c ≤ 90))
    ⊎ ((97 ≤ c) × (c ≤ 122))
    ⊎ (c ≡ 95)
    ⊎ (c ≡ 45)
    ⊎ (c ≡ 46)

NameChar-is_name_char : (c : ℕ) → (is_name_char c ≡ true) ↔ NameChar c
unfolding is_ascii_alphanumeric
NameChar-is_name_char c = ground arith

byte_length-ascii : (s : Text) → all is_name_char s ≡ true → byte_length s ≡ length s
unfolding byte_length all is_ascii_alphanumeric
byte_length-ascii [] h = refl
byte_length-ascii (c ∷ s) h = ground (arith, byte_length-ascii s)

all_iff :
    (p : ℕ → Bool) (P : ℕ → Type 0)
    → ((c : ℕ) → (p c ≡ true) ↔ P c)
    → (s : Text) → (all p s ≡ true) ↔ All P s
unfolding all
all_iff p P f [] = (λ h. tt, λ h. refl)
all_iff p P f (c ∷ s) = elim (Bool-cases (p c)) [
  | inl e ↦ rw e ((λ h. ((f c).0 e, (all_iff p P f s).0 h)), (λ h. (all_iff p P f s).1 h.1))
  | inr e ↦ rw e ((λ h. cc), (λ h. cc (e, (f c).1 h.0)))
]

not_all_iff : (s : Text) → (all (λ c. c == 46) s ≡ false) ↔ Any (λ c. c ≢ 46) s
unfolding all
not_all_iff [] = ((λ h. cc), (λ h. elim h [ ]))
not_all_iff (c ∷ s) = elim (Bool-cases (c == 46)) [
  | inl e ↦ rw e (
    (λ h. inr ((not_all_iff s).0 h)),
    (λ h. elim h [ inl n ↦ elim (n (ground arith)) [ ] | inr r ↦ (not_all_iff s).1 r ]),
  )
  | inr e ↦ rw e ((λ h. inl (ground arith)), (λ h. refl))
]

-- What the tests of a name ask for.
abbrev pub GoodName : Text → Type 0
GoodName s = (1 ≤ length s) × (length s ≤ 128) × All NameChar s × Any (λ c. c ≢ 46) s

-- A name is accepted exactly when it has 1 to 128 characters, each a letter or digit of ASCII, an
-- underscore, a dash or a dot, and not all of them dots.
pub validate_name_iff : (s : Text) → (validate_name s ≡ ok tt) ↔ GoodName s
unfolding validate_name
validate_name_iff [] = ((λ h. cc), (λ h. ground (arith, h.0)))
validate_name_iff (c ∷ s) = elim (Bool-cases (all is_name_char (c ∷ s))) [
  | inl e ↦
      let bytes : byte_length (c ∷ s) ≡ length (c ∷ s) = byte_length-ascii (c ∷ s) e in
      let chars : All NameChar (c ∷ s) =
        (all_iff is_name_char NameChar NameChar-is_name_char (c ∷ s)).0 e in
      elim (Bool-cases (all (λ d. d == 46) (c ∷ s))) [
        | inl f ↦ rw (bytes, e, f) ((λ h. ground arith), (λ h. cc (f, (not_all_iff (c ∷ s)).1 h.3)))
        | inr f ↦
            rw (bytes, e, f)
              (
                (λ h. (ground arith, ground arith, chars, (not_all_iff (c ∷ s)).0 f)),
                (λ h. ground (arith, h.0, h.1)),
              )
      ]
  | inr e ↦ rw e (
    (λ h. ground arith),
    (λ h. cc (e, (all_iff is_name_char NameChar NameChar-is_name_char (c ∷ s)).1 h.2)),
  )
]

-- What the loop asks of the components of a bucket's directory.
abbrev pub Allowed : Component → Type 0
Allowed (normal c) = GoodName c
Allowed cur_dir = Unit {0}
Allowed _ = ⊥

abbrev pub IsNormal : Component → Type 0
IsNormal (normal c) = Unit {0}
IsNormal _ = ⊥

check_components_iff :
    (path : PathBuf) (has_component : Bool)
    → (check_components path has_component ≡ ok tt)
      ↔ (All Allowed path × ((has_component ≡ true) ⊎ Any IsNormal path))
unfolding check_components
check_components_iff [] true = ((λ h. (tt, inl refl)), (λ h. refl))
check_components_iff [] false = ((λ h. cc), (λ h. elim h.1 [ inl e ↦ cc e | inr a ↦ elim a [ ] ]))
check_components_iff (normal c ∷ path) b = elim (Result-cases (validate_name c)) [
  | inl (u, e) ↦ rw e (
    (λ h.
        let (a, n) = (check_components_iff path true).0 h in
        (((validate_name_iff c).0 e, a), inr (inl tt))),
    (λ h. (check_components_iff path true).1 (h.0.1, inl refl)),
  )
  | inr (x, e) ↦ rw e ((λ h. cc), (λ h. cc (e, (validate_name_iff c).1 h.0.0)))
]
check_components_iff (cur_dir ∷ path) b = (
  (λ h.
      let (a, n) = (check_components_iff path b).0 h in
      ((tt, a), elim n [ inl e ↦ inl e | inr m ↦ inr (inr m) ])),
  (λ h.
      (check_components_iff path b).1 (
        h.0.1,
        elim h.1 [ inl e ↦ inl e | inr m ↦ elim m [ inl x ↦ elim x [ ] | inr y ↦ inr y ] ],
      )),
)
check_components_iff (parent_dir ∷ path) b = ((λ h. cc), (λ h. elim h.0.0 [ ]))
check_components_iff (root_dir ∷ path) b = ((λ h. cc), (λ h. elim h.0.0 [ ]))
check_components_iff (prefix ∷ path) b = ((λ h. cc), (λ h. elim h.0.0 [ ]))

nothing_in_empty : Any IsNormal (components []) → ⊥
unfolding components
nothing_in_empty h = h

-- A directory is accepted exactly when it has at most 512 bytes and no backslash, each of its
-- components is an acceptable name or a leading dot, and at least one is a name.
pub validate_sub_path_iff :
    (path : Text)
    → (validate_sub_path path ≡ ok tt) ↔ (
        (byte_length path ≤ 512)
        × (contains path 92 ≡ false)
        × All Allowed (components path)
        × Any IsNormal (components path))
unfolding validate_sub_path
validate_sub_path_iff [] = ((λ h. cc), (λ h. elim (nothing_in_empty h.3) [ ]))
validate_sub_path_iff (c ∷ s) = elim (Bool-cases (ltb 512 (byte_length (c ∷ s)))) [
  | inl e ↦ rw e ((λ h. cc), (λ h. ground (arith, e, h.0)))
  | inr e ↦ elim (Bool-cases (contains (c ∷ s) 92)) [
    | inl f ↦ rw (e, f) ((λ h. cc), (λ h. cc h.1))
    | inr f ↦
        rw (e, f)
          (
            (λ h.
                let (a, n) = (check_components_iff (components (c ∷ s)) false).0 h in
                (ground (arith, e), refl, a, elim n [ inl x ↦ cc x | inr m ↦ m ])),
            (λ h. (check_components_iff (components (c ∷ s)) false).1 (h.2, inr h.3)),
          )
  ]
]
