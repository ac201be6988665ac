-- ===== src/Token/Auth/Window.antt =====
-- Between the two writes of `reload_from_models`: new indices, old super token.
use node_get.Prelude.{
  ◌≡◌, ◌≢◌, ap, ◌∙◌, subst, true, false, List, [], ◌∷◌, some, inl, inr, ◌⊎◌, arith,
}
use node_get.Error.{ok}
use node_get.Permission.{Scope, Permission, Token}
use node_get.Token.Limits.{Serde}
use node_get.Token.Match.Cover.{Covered}
use node_get.Token.Cache.{Model, TokenCacheInner}
use node_get.Token.Auth.{
  World, TokenOrAuth, token, auth, get_token, check_super_token, check_token_limit, write_indices,
}
use node_get.Token.Auth.Check.{IsAllowed, check_token_limit_iff}

module _ (serde : Serde) (models : List Model) (old : World) where
  -- Until the super token's record is replaced, exactly the old credentials are the super token's.
  pub check_super_token-window :
      (cache : TokenCacheInner) (c : TokenOrAuth)
      → old.cache ≡ some cache
      → check_super_token (write_indices serde models old) c ≡ check_super_token old c
  unfolding check_super_token write_indices
  check_super_token-window cache (token key secret) h = ground arith
  check_super_token-window cache (auth username password) h = ground arith

  -- With the old cache initialized: between the two writes of a reload, a token without limits
  -- that is not yet the super token is denied every request that names a scope and a permission.
  pub window_denies :
      (cache : TokenCacheInner) (c : TokenOrAuth) (t : Token) (s : Scope) (scopes : List Scope)
      (p : Permission) (permissions : List Permission)
      → old.cache ≡ some cache
      → check_super_token old c ≡ ok false
      → get_token (write_indices serde models old) c ≡ ok t
      → t.token_limit ≡ []
      → check_token_limit (write_indices serde models old) c (s ∷ scopes) (p ∷ permissions)
        ≢ ok true
  window_denies cache c t s scopes p permissions h not_super g no_limits allowed =
      refuted ((check_token_limit_iff w c (s ∷ scopes) (p ∷ permissions)).0 allowed)
    where
      w : World
      w = write_indices serde models old

      refuted :
          (check_super_token w c ≡ ok true)
            ⊎ (check_super_token w c ≡ ok false) × IsAllowed w c (s ∷ scopes) (p ∷ permissions)
          → ⊥
      refuted (inl e) = cc (e, check_super_token-window cache c h, not_super)
      refuted (inr (_, (t', now, g', n, i, a))) =
          let same : t' ≡ t = cc (g, g') in
          let none_left : t'.token_limit ≡ [] =
            ap (λ (x : Token). x.token_limit) same ∙ no_limits in
          subst (λ limits. Covered limits s p) none_left a.0.0
