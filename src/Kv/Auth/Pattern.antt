-- ===== src/Kv/Auth/Pattern.antt =====
-- Reading by a pattern against reading key by key.
use node_get.Prelude.{◌≡◌, inl, inr, true, ◌||◌, List, arith}
use node_get.Text.{Text}
use node_get.Error.{ok, Result-cases, permission_denied, no_read_permission}
use node_get.Permission.{Limit, Scope, Permission, Kv, Token}
use node_get.Token.Match.{check_limits_cover, wildcard_matches_pattern, permission_matches}
use node_get.Token.Match.Chain.{PlainGrants, check_limits_cover_trans}
use node_get.Token.Auth.{World, TokenOrAuth, get_token}
use node_get.Kv.Auth.{
  validate_namespace, validate_key, validate_key_pattern, parse_credential, on_key, star,
  limits_cover_global_or_specific, check_kv_read_permission, check_kv_read_permission_with_pattern,
}
use node_get.Kv.Auth.Granted.{Entitled, decide→Entitled, Entitled→decide}

-- A star covers every key.
read_matches :
    (key key_pattern : Text)
    → wildcard_matches_pattern key key_pattern ≡ true
    → permission_matches (Permission.kv (Kv.read key_pattern)) (Permission.kv (Kv.read key)) ≡ true
unfolding permission_matches
read_matches key key_pattern m = ground arith

covered_by_pattern :
    (limits : List Limit) (s : Scope) (key key_pattern : Text)
    → PlainGrants limits
    → wildcard_matches_pattern key key_pattern ≡ true
    → (check_limits_cover limits s (Permission.kv (Kv.read star))
        || check_limits_cover limits s (Permission.kv (Kv.read key_pattern)))
      ≡ true
    → (check_limits_cover limits s (Permission.kv (Kv.read star))
        || check_limits_cover limits s (Permission.kv (Kv.read key)))
      ≡ true
covered_by_pattern limits s key key_pattern plain m h = ground (
  arith,
  check_limits_cover_trans limits s (Permission.kv (Kv.read key_pattern))
      (Permission.kv (Kv.read key)) plain (read_matches key key_pattern m),
)

-- If no grant of the credential's token has a star before another character, a credential that may
-- read by a pattern may read every star-free key that the pattern covers.
pub check_kv_read_permission-pattern :
    (w : World) (full_token ns key key_pattern : Text)
    → ((c : TokenOrAuth) (t : Token)
        → parse_credential full_token ≡ ok c
        → get_token w c ≡ ok t
        → PlainGrants t.token_limit)
    → validate_key key ≡ ok tt
    → wildcard_matches_pattern key key_pattern ≡ true
    → check_kv_read_permission_with_pattern w full_token ns key_pattern ≡ ok tt
    → check_kv_read_permission w full_token ns key ≡ ok tt
unfolding check_kv_read_permission check_kv_read_permission_with_pattern on_key
    limits_cover_global_or_specific
check_kv_read_permission-pattern w full_token ns key key_pattern plain v m h =
    elim (Result-cases (validate_namespace ns)) [
      | inr (e, x) ↦ ground arith
      | inl (u, x) ↦ elim (Result-cases (validate_key_pattern key_pattern)) [
        | inr (e, y) ↦ ground arith
        | inl (u', y) ↦ elim (Result-cases (parse_credential full_token)) [
          | inr (e, z) ↦ ground arith
          | inl (c, z) ↦
              let e : Entitled w c (λ limits.
                limits_cover_global_or_specific limits (Scope.kv_namespace ns)
                  (Permission.kv (Kv.read star)) (Permission.kv (Kv.read key))) =
                widen c z (
                  decide→Entitled w full_token c
                    (permission_denied (no_read_permission key_pattern ns))
                    (λ limits.
                      limits_cover_global_or_specific limits (Scope.kv_namespace ns)
                        (Permission.kv (Kv.read star)) (Permission.kv (Kv.read key_pattern)))
                    z (ground arith)) in
              ground (
                arith,
                Entitled→decide w full_token c (permission_denied (no_read_permission key ns))
                    (λ limits.
                      limits_cover_global_or_specific limits (Scope.kv_namespace ns)
                        (Permission.kv (Kv.read star)) (Permission.kv (Kv.read key)))
                    z e,
              )
        ]
      ]
    ]
  where
    widen :
        (c : TokenOrAuth)
        → parse_credential full_token ≡ ok c
        → Entitled w c (λ limits.
          limits_cover_global_or_specific limits
            (Scope.kv_namespace ns)
            (Permission.kv (Kv.read star))
            (Permission.kv (Kv.read key_pattern)))
        → Entitled w c (λ limits.
          limits_cover_global_or_specific limits
            (Scope.kv_namespace ns)
            (Permission.kv (Kv.read star))
            (Permission.kv (Kv.read key)))
    widen c z (inl s) = inl s
    widen c z (inr (s, t, now, g, n, i, l)) = inr (
      s,
      t,
      now,
      g,
      n,
      i,
      covered_by_pattern t.token_limit (Scope.kv_namespace ns) key key_pattern (plain c t z g) m l,
    )
