-- ===== src/Token/Match/Wildcard.antt =====
-- Grants with a trailing `*`: which values they cover, and when they compose.
use node_get.Prelude.{
  ℕ, ◌≡◌, ◌≢◌, ◌↔◌, ◌⊎◌, inl, inr, refl, ap, ◌∙◌, sym, true, false, ◌∷◌, [], ◌++◌, some,
  Option-cases, arith,
}
use mathlib.Core.List.{append_assoc}
use node_get.Text.{Text, starts_with, strip_suffix, contains}
use node_get.Text.Laws.{
  text_eq→eq, text_eq_refl, starts_with-append, starts_with_refl, starts_with→append,
  strip_suffix→append, strip_suffix-append, contains-append,
}
use node_get.Token.Match.{wildcard_matches_pattern}

-- `pattern` is a prefix followed by `*`, and the value begins with that prefix.
abbrev pub HasPrefix : Text → Text → Type 0
HasPrefix pattern value =
    (prefix : Text) × (rest : Text) × (pattern ≡ prefix ++ b'*' ∷ []) × (value ≡ prefix ++ rest)

wildcard_sound :
    (value pattern : Text)
    → wildcard_matches_pattern value pattern ≡ true
    → (value ≡ pattern) ⊎ HasPrefix pattern value
unfolding wildcard_matches_pattern
wildcard_sound value pattern h = elim (Option-cases (strip_suffix pattern b'*')) [
  | inl e ↦ inl (text_eq→eq value pattern (ground arith))
  | inr (prefix, e) ↦
      let (rest, v) = starts_with→append value prefix (ground arith) in
      inr (prefix, rest, strip_suffix→append pattern b'*' prefix e, v)
]

pub wildcard_prefix :
    (prefix rest : Text) → wildcard_matches_pattern (prefix ++ rest) (prefix ++ b'*' ∷ []) ≡ true
unfolding wildcard_matches_pattern
wildcard_prefix prefix rest =
    rw (strip_suffix-append prefix b'*', wildcard_matches_pattern) (starts_with-append prefix rest)

pub wildcard_refl : (value : Text) → wildcard_matches_pattern value value ≡ true
unfolding wildcard_matches_pattern
wildcard_refl value = elim (Option-cases (strip_suffix value b'*')) [
  | inl e ↦ rw (e, wildcard_matches_pattern) (text_eq_refl value)
  | inr (prefix, e) ↦
      rw (strip_suffix→append value b'*' prefix e) (wildcard_prefix prefix (b'*' ∷ []))
]

-- A pattern covers a value exactly when they are equal, or the pattern is a prefix followed by a
-- star and the value begins with the prefix.
pub wildcard_iff :
    (value pattern : Text)
    → (wildcard_matches_pattern value pattern ≡ true)
      ↔ ((value ≡ pattern) ⊎ HasPrefix pattern value)
wildcard_iff value pattern = (wildcard_sound value pattern, back)
  where
    back :
        (value ≡ pattern) ⊎ HasPrefix pattern value → wildcard_matches_pattern value pattern ≡ true
    back (inl e) = rw e (wildcard_refl pattern)
    back (inr (prefix, rest, p, v)) = rw (p, v) (wildcard_prefix prefix rest)

-- The star can only be at the end.
abbrev pub OnlyTrailingStar : Text → Type 0
OnlyTrailingStar pattern =
    (prefix : Text) → pattern ≡ prefix ++ b'*' ∷ [] → contains prefix b'*' ≡ false

split_before :
    (g r p : Text) (c : ℕ) → contains g c ≡ false → g ++ r ≡ p ++ c ∷ [] → (q : Text) × (p ≡ g ++ q)
unfolding contains
split_before [] r p c h e = (p, refl)
split_before (d ∷ g) r [] c h e = ground arith
split_before (d ∷ g) r (x ∷ p) c h e =
    let (q, i) = split_before g r p c (ground arith) (cc) in (q, cc)

-- A grant whose star is its last character only covers every value of every pattern it covers.
pub wildcard_trans :
    (value pattern grant : Text)
    → OnlyTrailingStar grant
    → wildcard_matches_pattern pattern grant ≡ true
    → wildcard_matches_pattern value pattern ≡ true
    → wildcard_matches_pattern value grant ≡ true
wildcard_trans value pattern grant only g p =
    compose (wildcard_sound pattern grant g) (wildcard_sound value pattern p)
  where
    compose :
        (pattern ≡ grant) ⊎ HasPrefix grant pattern
        → (value ≡ pattern) ⊎ HasPrefix pattern value
        → wildcard_matches_pattern value grant ≡ true
    compose (inl e) _ = rw (← e) p
    compose (inr (prefix, rest, at_grant, at_pattern)) (inl e) =
        rw (at_grant, e, at_pattern) (wildcard_prefix prefix rest)
    compose (inr (prefix, rest, at_grant, at_pattern)) (inr (inner, tail, star, at_value)) =
        let (q, e) =
          split_before prefix rest inner b'*' (only prefix at_grant) (sym at_pattern ∙ star) in
        rw (at_grant, at_value, e, append_assoc) (wildcard_prefix prefix (q ++ tail))

double_star :
    (prefix : Text)
    → wildcard_matches_pattern (prefix ++ b'*' ∷ []) (prefix ++ b'*' ∷ b'*' ∷ []) ≡ true
unfolding wildcard_matches_pattern
double_star prefix =
    rw
      (
        ← append_assoc prefix (b'*' ∷ []) (b'*' ∷ []),
        strip_suffix-append (prefix ++ b'*' ∷ []) b'*',
        wildcard_matches_pattern,
      )
      (starts_with_refl (prefix ++ b'*' ∷ []))

starts_with_ne :
    (prefix : Text) (c d : ℕ) → c ≢ d → starts_with (prefix ++ c ∷ []) (prefix ++ d ∷ []) ≡ false
unfolding starts_with
starts_with_ne [] c d h = ground arith
starts_with_ne (x ∷ prefix) c d h = ground (arith, starts_with_ne prefix c d h)

double_star_ne :
    (prefix : Text) (c : ℕ)
    → c ≢ b'*'
    → wildcard_matches_pattern (prefix ++ c ∷ []) (prefix ++ b'*' ∷ b'*' ∷ []) ≡ false
unfolding wildcard_matches_pattern
double_star_ne prefix c h =
    rw
      (
        ← append_assoc prefix (b'*' ∷ []) (b'*' ∷ []),
        strip_suffix-append (prefix ++ b'*' ∷ []) b'*',
        wildcard_matches_pattern,
      )
      (starts_with_ne prefix c b'*' h)

-- For every prefix and every character but the star, the grant with two stars covers the pattern
-- with one, which covers a value that the grant does not cover.
pub wildcard_not_trans :
    (prefix : Text) (c : ℕ)
    → c ≢ b'*'
    → (wildcard_matches_pattern (prefix ++ b'*' ∷ []) (prefix ++ b'*' ∷ b'*' ∷ []) ≡ true)
      × (wildcard_matches_pattern (prefix ++ c ∷ []) (prefix ++ b'*' ∷ []) ≡ true)
      × (wildcard_matches_pattern (prefix ++ c ∷ []) (prefix ++ b'*' ∷ b'*' ∷ []) ≡ false)
wildcard_not_trans prefix c h =
    (double_star prefix, wildcard_prefix prefix (c ∷ []), double_star_ne prefix c h)

pub prefix_star-OnlyTrailingStar :
    (p : Text) → contains p b'*' ≡ false → OnlyTrailingStar (p ++ b'*' ∷ [])
prefix_star-OnlyTrailingStar p h prefix e =
    let s : some p ≡ some prefix =
      sym (strip_suffix-append p b'*')
      ∙ ap (λ t. strip_suffix t b'*') e
      ∙ strip_suffix-append prefix b'*' in
    ground (arith, h, s)

pub no_star-OnlyTrailingStar : (p : Text) → contains p b'*' ≡ false → OnlyTrailingStar p
unfolding contains
no_star-OnlyTrailingStar p h prefix e =
    let s : contains (prefix ++ b'*' ∷ []) b'*' ≡ false = cc (h, e) in
    ground (arith, contains-append prefix (b'*' ∷ []) b'*', s)
