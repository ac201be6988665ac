-- ===== src/Token/Cache/Build.antt =====
-- What the three indices hold after `build_maps`.
use node_get.Prelude.{
  ◌≡◌, ◌≢◌, refl, sym, ◌∙◌, ◌⊎◌, inl, inr, Bool, true, false, List, [], ◌∷◌, some, All, Any, arith,
  Option-cases, Bool-cases, if◌then◌else◌,
}
use node_get.Prelude.Pairs.{Pairwise}
use node_get.Prelude.Int.{pos, eq_ℤ→eq}
use node_get.Text.{Text, text_eq}
use node_get.Text.Laws.{text_eq→eq, text_eq_refl}
use node_get.Dict.{lookup, lookup-insert}
use node_get.Token.Limits.{Serde}
use node_get.Token.Cache.{
  Model, CachedToken, Maps, cached_token, insert_model, build_from, build_maps,
}

-- The unique columns of the table: no other row has the key, the user name or the id.
abbrev pub Differs : Model → Model → Type 0
Differs m n =
    (m.token_key ≢ n.token_key)
    × (m.id ≢ n.id)
    × ((u : Text) → m.username ≡ some u → n.username ≡ some u → ⊥)

abbrev pub AllDiffer : List Model → Type 0
AllDiffer = Pairwise Differs

-- The row is found under its key and under its user name, and in the super token's place exactly if
-- its id is 1.
pub record Found (serde : Serde) (maps : Maps) (m : Model) : Type 0 where
  pub key : lookup m.token_key maps.by_key ≡ some (cached_token serde m)
  pub username :
      (u : Text) → m.username ≡ some u → lookup u maps.by_username ≡ some (cached_token serde m)
  pub super : m.id ≡ pos 1 → maps.super_token ≡ some (cached_token serde m)

module _ (serde : Serde) where
  insert_model-Found : (maps : Maps) (m : Model) → Found serde (insert_model serde maps m) m
  unfolding insert_model
  insert_model-Found maps m = record {
    key = rw lookup-insert (rw (text_eq_refl m.token_key));
    username = λ u e. ground (arith, lookup-insert u u (cached_token serde m) maps.by_username);
    super = λ e. rw e;
  }

  -- A row with other columns leaves it there.
  keep_Found :
      (maps : Maps) (m n : Model)
      → Differs m n
      → Found serde maps m
      → Found serde (insert_model serde maps n) m
  unfolding insert_model
  keep_Found maps m n d f = record {
    key =
        ground
          (arith, f.key, lookup-insert n.token_key m.token_key (cached_token serde n) maps.by_key);
    username = λ u e. elim (Option-cases n.username) [
      | inl a ↦ ground (arith, f.username u e)
      | inr (v, a) ↦ ground (
        arith,
        f.username u e,
        d.2 u e,
        lookup-insert v u (cached_token serde n) maps.by_username,
      )
    ];
    super = λ e. ground (arith, f.super e, eq_ℤ→eq n.id (pos 1));
  }

  build_from-Found :
      (models : List Model) (maps : Maps) (m : Model)
      → All (Differs m) models
      → Found serde maps m
      → Found serde (build_from serde maps models) m
  unfolding build_from
  build_from-Found [] maps m d f = f
  build_from-Found (n ∷ models) maps m d f =
      build_from-Found models (insert_model serde maps n) m d.1 (keep_Found maps m n d.0 f)

  build_from-AllFound :
      (models : List Model) (maps : Maps)
      → AllDiffer models
      → All (Found serde (build_from serde maps models)) models
  unfolding build_from
  build_from-AllFound [] maps d = tt
  build_from-AllFound (m ∷ models) maps d = (
    build_from-Found models (insert_model serde maps m) m d.0 (insert_model-Found maps m),
    build_from-AllFound models (insert_model serde maps m) d.1,
  )

  -- If keys, user names and ids are unique, build_maps finds every row under its key and its user
  -- name, and the row with id 1 as the super token.
  pub build_maps-Found :
      (models : List Model) → AllDiffer models → All (Found serde (build_maps serde models)) models
  unfolding build_maps
  build_maps-Found models d = build_from-AllFound models _ d

  by_key-insert_model :
      (maps : Maps) (m : Model) (k : Text)
      → lookup k (insert_model serde maps m).by_key
        ≡ (if text_eq m.token_key k then some (cached_token serde m) else lookup k maps.by_key)
  unfolding insert_model
  by_key-insert_model maps m k = lookup-insert m.token_key k (cached_token serde m) maps.by_key

  lookup-build_from :
      (models : List Model) (maps : Maps) (k : Text) (e : CachedToken)
      → lookup k (build_from serde maps models).by_key ≡ some e
      → (lookup k maps.by_key ≡ some e)
        ⊎ Any (λ m. (m.token_key ≡ k) × (e ≡ cached_token serde m)) models
  unfolding build_from
  lookup-build_from [] maps k e h = inl h
  lookup-build_from (m ∷ models) maps k e h =
      older (lookup-build_from models (insert_model serde maps m) k e h)
    where
      inserted :
          (b : Bool)
          → text_eq m.token_key k ≡ b
          → (if b then some (cached_token serde m) else lookup k maps.by_key) ≡ some e
          → (lookup k maps.by_key ≡ some e)
            ⊎ Any (λ n. (n.token_key ≡ k) × (e ≡ cached_token serde n)) (m ∷ models)
      inserted true t x = inr (inl (text_eq→eq m.token_key k t, cc))
      inserted false t x = inl x

      older :
          (lookup k (insert_model serde maps m).by_key ≡ some e)
            ⊎ Any (λ n. (n.token_key ≡ k) × (e ≡ cached_token serde n)) models
          → (lookup k maps.by_key ≡ some e)
            ⊎ Any (λ n. (n.token_key ≡ k) × (e ≡ cached_token serde n)) (m ∷ models)
      older (inl x) = inserted (text_eq m.token_key k) refl (sym (by_key-insert_model maps m k) ∙ x)
      older (inr x) = inr (inr x)

  -- An entry found under a key after build_maps is that of a row with this key.
  pub lookup-build_maps :
      (models : List Model) (k : Text) (e : CachedToken)
      → lookup k (build_maps serde models).by_key ≡ some e
      → Any (λ m. (m.token_key ≡ k) × (e ≡ cached_token serde m)) models
  unfolding build_maps lookup
  lookup-build_maps models k e h = elim (lookup-build_from models _ k e h) [
    | inl x ↦ cc
    | inr x ↦ x
  ]

  by_username-insert_model :
      (maps : Maps) (m : Model) (k : Text) (e : CachedToken)
      → lookup k (insert_model serde maps m).by_username ≡ some e
      → (lookup k maps.by_username ≡ some e) ⊎ ((m.username ≡ some k) × (e ≡ cached_token serde m))
  unfolding insert_model
  by_username-insert_model maps m k e h = elim (Option-cases m.username) [
    | inl a ↦ inl (ground (arith, a, h))
    | inr (u, a) ↦ elim (Bool-cases (text_eq u k)) [
      | inl t ↦ inr (
        cc (a, text_eq→eq u k t),
        ground (arith, a, t, h, lookup-insert u k (cached_token serde m) maps.by_username),
      )
      | inr f ↦
          inl (ground (arith, a, f, h, lookup-insert u k (cached_token serde m) maps.by_username))
    ]
  ]

  username-build_from :
      (models : List Model) (maps : Maps) (k : Text) (e : CachedToken)
      → lookup k (build_from serde maps models).by_username ≡ some e
      → (lookup k maps.by_username ≡ some e)
        ⊎ Any (λ m. (m.username ≡ some k) × (e ≡ cached_token serde m)) models
  unfolding build_from
  username-build_from [] maps k e h = inl h
  username-build_from (m ∷ models) maps k e h =
      elim (username-build_from models (insert_model serde maps m) k e h) [
        | inl x ↦ elim (by_username-insert_model maps m k e x) [
          | inl y ↦ inl y
          | inr y ↦ inr (inl y)
        ]
        | inr x ↦ inr (inr x)
      ]

  -- An entry found under a user name after build_maps is that of a row with this user name.
  pub username-build_maps :
      (models : List Model) (k : Text) (e : CachedToken)
      → lookup k (build_maps serde models).by_username ≡ some e
      → Any (λ m. (m.username ≡ some k) × (e ≡ cached_token serde m)) models
  unfolding build_maps lookup
  username-build_maps models k e h = elim (username-build_from models _ k e h) [
    | inl x ↦ cc
    | inr x ↦ x
  ]
