-- ===== src/Token/Match/Chain.antt =====
-- Limits that cover a pattern, and what the pattern covers.
use node_get.Prelude.{◌≡◌, ◌⊎◌, inl, inr, true, List, some, arith, All, Any-map}
use node_get.Text.{Text}
use node_get.Permission.{Scope, Limit, Permission}
use node_get.Token.Match.{permission_matches, check_limits_cover}
use node_get.Token.Match.Wildcard.{OnlyTrailingStar, wildcard_trans}
use node_get.Token.Match.Cover.{
  argument, with_argument, ByPattern, permission_matches_iff, cover→Covered, Covered→cover,
}

-- In no granted name does a star stand before another character.
abbrev pub PlainGrant : Permission → Type 0
PlainGrant p = (pattern : Text) → argument p ≡ some pattern → OnlyTrailingStar pattern

abbrev pub PlainGrants : List Limit → Type 0
PlainGrants = All (λ limit. All PlainGrant limit.permissions)

argument-with_argument :
    (p : Permission) (pattern name : Text)
    → argument p ≡ some pattern
    → argument (with_argument p name) ≡ some name
unfolding argument with_argument
argument-with_argument (Permission.kv g) pattern name e = ground arith
argument-with_argument _ pattern name e = ground arith

with_argument-with_argument :
    (p : Permission) (a b : Text) → with_argument (with_argument p a) b ≡ with_argument p b
unfolding with_argument
with_argument-with_argument (Permission.kv g) a b = ground arith
with_argument-with_argument _ a b = ground arith

permission_trans :
    (granted mid required : Permission)
    → PlainGrant granted
    → permission_matches mid required ≡ true
    → permission_matches granted mid ≡ true
    → permission_matches granted required ≡ true
permission_trans granted mid required plain n m =
    compose ((permission_matches_iff granted mid).0 m) ((permission_matches_iff mid required).0 n)
  where
    compose :
        (granted ≡ mid) ⊎ ByPattern granted mid
        → (mid ≡ required) ⊎ ByPattern mid required
        → permission_matches granted required ≡ true
    compose (inl e) _ = rw e n
    compose (inr _) (inl e) = rw (← e) m
    compose (inr (p, a, at, e, w)) (inr (q, b, at', e', w')) =
        (permission_matches_iff granted required).1 (
          inr (
            p,
            b,
            at,
            cc (e, e', with_argument-with_argument granted a b),
            wildcard_trans b a p (plain p at) w
                (cc (e, at', argument-with_argument granted p a at, w')),
          ))

-- If no grant has a star before another character, limits that cover a permission cover every
-- permission that this one covers.
pub check_limits_cover_trans :
    (limits : List Limit) (req_scope : Scope) (mid required : Permission)
    → PlainGrants limits
    → permission_matches mid required ≡ true
    → check_limits_cover limits req_scope mid ≡ true
    → check_limits_cover limits req_scope required ≡ true
check_limits_cover_trans limits req_scope mid required plain m h =
    Covered→cover req_scope required limits (
      Any-map _ _ (λ limit. All PlainGrant limit.permissions)
        (λ limit r c. (
          c.0,
          Any-map _ _ PlainGrant (λ p q. permission_trans p mid required q m) limit.permissions r
              c.1,
        ))
        limits plain (cover→Covered req_scope mid limits h))
