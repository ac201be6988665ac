-- ===== src/Token/Auth/Single.antt =====
-- `authenticate` beside `check_super_token` and `get_token`.
use node_get.Prelude.{List, [], ◌∷◌, All, Any, ◌≡◌, refl, Bool, some, arith, Option-cases, inl, inr}
use node_get.Prelude.Int.{pos}
use node_get.Text.{Text}
use node_get.Dict.{lookup}
use node_get.Error.{Result, ok, ◌>>=◌}
use node_get.Permission.{Token}
use node_get.Token.Limits.{Serde}
use node_get.Token.Cache.{Model, CachedToken, TokenCacheInner, Maps, build_maps, cached_token}
use node_get.Token.Cache.Build.{AllDiffer, Found, build_maps-Found}
use node_get.Token.Auth.{
  World, TokenOrAuth, token, auth, get_token, check_super_token, authenticate, to_token,
  reload_from_models, inner,
}

-- The super token's entry stands in both indices, under its own key and user name.
pub record Indexed (cache : TokenCacheInner) (super_entry : CachedToken) : Type 0 where
  pub key : lookup super_entry.model.token_key cache.by_key ≡ some super_entry
  pub username :
      (u : Text)
      → super_entry.model.username ≡ some u
      → lookup u cache.by_username ≡ some super_entry

abbrev pub two_steps : World → TokenOrAuth → Result (Token × Bool)
two_steps w c = do is_super ← check_super_token w c; t ← get_token w c; ok (t, is_super)

abbrev pub one_step : World → TokenCacheInner → TokenOrAuth → Result (Token × Bool)
one_step w cache c = do r ← authenticate w cache c; ok (to_token r.0, r.1)

-- With the super token's entry in both indices, authenticate gives the token, the super answer and
-- the errors of check_super_token followed by get_token.
pub authenticate-eq :
    (w : World) (cache : TokenCacheInner) (super_entry : CachedToken) (c : TokenOrAuth)
    → w.cache ≡ some cache
    → w.super_token ≡ some super_entry
    → Indexed cache super_entry
    → one_step w cache c ≡ two_steps w c
unfolding authenticate check_super_token get_token
authenticate-eq w cache e (token key secret) hc hs i = ground (arith, i.key)
authenticate-eq w cache e (auth username password) hc hs i = elim (Option-cases e.model.username) [
  | inl n ↦ ground arith
  | inr (u, n) ↦ ground (arith, i.username u n)
]

abbrev pub HasSuper : List Model → Type 0
HasSuper = Any (λ m. m.id ≡ pos 1)

module _ (serde : Serde) where
  super_row :
      (maps : Maps) (models : List Model)
      → HasSuper models
      → All (Found serde maps) models
      → (m : Model) × (m.id ≡ pos 1) × Found serde maps m
  super_row maps [] h f = elim h [ ]
  super_row maps (m ∷ models) (inl e) f = (m, e, f.0)
  super_row maps (m ∷ models) (inr h) f = super_row maps models h f.1

  -- After a reload from a table with unique columns and a row with id 1, authenticate gives the
  -- token, the super answer and the errors of check_super_token followed by get_token.
  pub authenticate-reload :
      (models : List Model) (old : World) (c : TokenOrAuth)
      → AllDiffer models
      → HasSuper models
      → let w = reload_from_models serde models old in
        (cache : TokenCacheInner) × (w.cache ≡ some cache) × (one_step w cache c ≡ two_steps w c)
  unfolding reload_from_models cached_token
  authenticate-reload models old c d h =
      let maps = build_maps serde models in
      let (m, is_one, f) = super_row maps models h (build_maps-Found serde models d) in
      let cache = inner maps in
      (
        cache,
        refl,
        authenticate-eq (reload_from_models serde models old) cache (cached_token serde m) c refl
            (f.super is_one) (record { key = f.key; username = f.username }),
      )
