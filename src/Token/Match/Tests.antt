-- ===== src/Token/Match/Tests.antt =====
-- The theorems on grants at two limits.
use node_get.Prelude.{
  ◌≡◌, ◌↔◌, ◌⊎◌, refl, inl, inr, true, false, List, [], ◌∷◌, none, some, arith, subst,
}
use node_get.Text.{Text, codes, contains}
use node_get.Permission.{Scope, Limit, Permission, Kv, Task}
use node_get.Token.Match.{
  wildcard_matches_pattern, permission_matches, scope_matches, check_limits_cover,
}
use node_get.Token.Match.Wildcard.{
  prefix_star-OnlyTrailingStar, OnlyTrailingStar, HasPrefix, wildcard_iff, wildcard_not_trans,
}
use node_get.Token.Match.Cover.{
  ByPattern, Covered, argument, with_argument, permission_matches_iff, check_limits_cover_iff,
}
use node_get.Token.Match.Chain.{PlainGrant, PlainGrants}

wildcard_iff_example :
    (wildcard_matches_pattern (codes "meta_a") (codes "meta_*") ≡ true)
    ↔ ((codes "meta_a" ≡ codes "meta_*") ⊎ HasPrefix (codes "meta_*") (codes "meta_a"))
wildcard_iff_example = wildcard_iff (codes "meta_a") (codes "meta_*")

abbrev pub read_key : Text → Permission
read_key key = Permission.kv (Kv.read key)

permission_matches_iff_example :
    (permission_matches (read_key (codes "a*")) (read_key (codes "ab")) ≡ true) ↔ (
      (read_key (codes "a*") ≡ read_key (codes "ab"))
      ⊎ ByPattern (read_key (codes "a*")) (read_key (codes "ab")))
permission_matches_iff_example =
    permission_matches_iff (read_key (codes "a*")) (read_key (codes "ab"))

wildcard_not_trans_example :
    (wildcard_matches_pattern (codes "a*") (codes "a**") ≡ true)
    × (wildcard_matches_pattern (codes "ab") (codes "a*") ≡ true)
    × (wildcard_matches_pattern (codes "ab") (codes "a**") ≡ false)
wildcard_not_trans_example = wildcard_not_trans (codes "a") b'b' (ground arith)

abbrev pub reads_a : Limit
reads_a = record {
  scopes = Scope.kv_namespace (codes "cfg") ∷ [];
  permissions = read_key (codes "a*") ∷ Permission.kv (Kv.write (codes "*")) ∷ [];
}

abbrev pub limits : List Limit
limits =
    reads_a
    ∷ record { scopes = Scope.global ∷ []; permissions = Permission.task Task.listen ∷ [] }
    ∷ []

check_limits_cover_iff_example :
    (check_limits_cover limits (Scope.kv_namespace (codes "cfg")) (read_key (codes "ab")) ≡ true)
    ↔ Covered limits (Scope.kv_namespace (codes "cfg")) (read_key (codes "ab"))
check_limits_cover_iff_example =
    check_limits_cover_iff limits (Scope.kv_namespace (codes "cfg")) (read_key (codes "ab"))

plain_of :
    (p : Permission) (pattern : Text)
    → argument p ≡ some pattern
    → OnlyTrailingStar pattern
    → PlainGrant p
plain_of p pattern e h q e' =
    let same : pattern ≡ q = ground (arith, e, e') in subst OnlyTrailingStar same h

plain_of_none : (p : Permission) → argument p ≡ none → PlainGrant p
plain_of_none p e q e' = ground (arith, e, e')

pub limits_plain : PlainGrants limits
unfolding argument contains
limits_plain = (
  (
    plain_of (read_key (codes "a*")) (codes "a*") refl
        (prefix_star-OnlyTrailingStar (codes "a") refl),
    (
      plain_of (Permission.kv (Kv.write (codes "*"))) (codes "*") refl
          (prefix_star-OnlyTrailingStar [] refl),
      tt,
    ),
  ),
  ((plain_of_none (Permission.task Task.listen) refl, tt), tt),
)

abbrev pub cfg : Scope
cfg = Scope.kv_namespace (codes "cfg")

pub reads-Covered :
    (name : Text)
    → wildcard_matches_pattern name (codes "a*") ≡ true
    → Covered limits cfg (read_key name)
unfolding scope_matches argument with_argument
reads-Covered name h = inl (
  inl refl,
  inl (
      (permission_matches_iff (read_key (codes "a*")) (read_key name)).1
        (inr (codes "a*", name, refl, refl, h))),
)
