-- ===== src/Token/Admin/Gone.antt =====
-- A token that is deleted is gone, and no other one is.
use node_get.Prelude.{
  ◌≡◌, ◌≢◌, refl, sym, ap, ◌∙◌, subst, ◌⊎◌, inl, inr, Bool, true, false, not, List, [], ◌∷◌, some,
  ℕ, Member, All, Any, All_at, Bool-cases, arith,
}
use node_get.Prelude.Int.{pos, eq_ℤ_refl}
use node_get.Prelude.Pairs.{Pairwise-at}
use node_get.Prelude.Members.{Member-keep}
use node_get.Text.{Text}
use node_get.Text.Laws.{text_eq→eq}
use node_get.Error.{ok, err, Result-cases, permission_denied, invalid_credentials}
use node_get.Permission.{Limit}
use node_get.Token.Limits.{Json, Serde}
use node_get.Token.Cache.{Model, CachedToken, TokenCacheInner, build_maps}
use node_get.Token.Cache.Build.{Differs, AllDiffer, lookup-build_maps, username-build_maps}
use node_get.Token.Auth.{World, TokenOrAuth, token, auth, inner, get_token, reload_from_models}
use node_get.Token.Auth.Found.{Proves, get_token_iff, get_token_error}
use node_get.Token.Table.{TokenServer, has_key, has_username}
use node_get.Token.Table.Unique.{Differs-sym, is_text→eq, delete_rows-Differs}
use node_get.Token.Table.Committed.{commit-ok}
use node_get.Token.Admin.{Response, delete, is_deletable, change, serve}
use node_get.Token.Admin.Deleted.{delete_token-Removes}

-- Neither the key with any secret nor the user name with any password logs in.
abbrev pub LockedOut : World → Model → Type 0
LockedOut w m =
    ((secret : Text)
      → get_token w (token m.token_key secret) ≡ err (permission_denied invalid_credentials))
    × ((username password : Text)
        → m.username ≡ some username
        → get_token w (auth username password) ≡ err (permission_denied invalid_credentials))

nowhere :
    (P Q : Model → Type 0) (rows : List Model)
    → ((n : Model) → P n → Q n → ⊥)
    → Any P rows
    → All Q rows
    → ⊥
nowhere P Q [] f a q = a
nowhere P Q (r ∷ rows) f (inl p) q = f r p q.0
nowhere P Q (r ∷ rows) f (inr a) q = nowhere P Q rows f a q.1

refused_unless :
    (w : World) (cache : TokenCacheInner) (c : TokenOrAuth)
    → w.cache ≡ some cache
    → ((entry : CachedToken) → Proves w cache c entry → ⊥)
    → get_token w c ≡ err (permission_denied invalid_credentials)
refused_unless w cache c h f = elim (Result-cases (get_token w c)) [
  | inl (t, g) ↦
      let (entry, proves, _) = (get_token_iff w cache c t h).0 g in elim (f entry proves) [ ]
  | inr (e, g) ↦ g ∙ ap (λ x. err x) (get_token_error w cache c e h g)
]

Differs-LockedOut :
    (serde : Serde) (rows : List Model) (old : World) (m : Model)
    → All (Differs m) rows
    → LockedOut (reload_from_models serde rows old) m
unfolding reload_from_models
Differs-LockedOut serde rows old m d = (
  λ secret.
      refused_unless (reload_from_models serde rows old) (inner (build_maps serde rows))
        (token m.token_key secret) refl
        (λ entry proves.
          nowhere _ (Differs m) rows (λ n found dif. dif.0 (sym found.0))
            (lookup-build_maps serde rows m.token_key entry proves.0) d),
  λ username password u.
      refused_unless (reload_from_models serde rows old) (inner (build_maps serde rows))
        (auth username password) refl
        (λ entry proves.
          nowhere _ (Differs m) rows (λ n found dif. dif.2 username u found.0)
            (username-build_maps serde rows username entry proves.0) d),
)

-- The key of a row is the text, or its user name is.
abbrev pub IsNamed : Text → Model → Type 0
IsNamed target m = (m.token_key ≡ target) ⊎ (m.username ≡ some target)

named :
    (target : Text) (p : Model → Bool) (m : Model)
    → (p ≡ has_key target) ⊎ (p ≡ has_username target)
    → is_deletable p m ≡ true
    → (m.id ≢ pos 1) × IsNamed target m
named target p m which h = (λ e. ground (arith, h, e, eq_ℤ_refl (pos 1)), name which)
  where
    passed : p m ≡ true
    passed = ground (arith, h)

    name : (p ≡ has_key target) ⊎ (p ≡ has_username target) → IsNamed target m
    name (inl e) = inl (text_eq→eq m.token_key target (ap (λ q. q m) (sym e) ∙ passed))
    name (inr e) = inr (is_text→eq m.username target (ap (λ q. q m) (sym e) ∙ passed))

-- Two rows that one filter takes are one row.
same_row :
    (target : Text) (p : Model → Bool) (m n : Model)
    → (p ≡ has_key target) ⊎ (p ≡ has_username target)
    → is_deletable p m ≡ true
    → is_deletable p n ≡ true
    → Differs m n
    → ⊥
same_row target p m n (inl e) h k d =
    let passed : (p m ≡ true) × (p n ≡ true) = (ground (arith, h), ground (arith, k)) in
    d.0 (
      text_eq→eq m.token_key target (ap (λ q. q m) (sym e) ∙ passed.0)
      ∙ sym (text_eq→eq n.token_key target (ap (λ q. q n) (sym e) ∙ passed.1)))
same_row target p m n (inr e) h k d =
    let passed : (p m ≡ true) × (p n ≡ true) = (ground (arith, h), ground (arith, k)) in
    d.2 target (is_text→eq m.username target (ap (λ q. q m) (sym e) ∙ passed.0))
      (is_text→eq n.username target (ap (λ q. q n) (sym e) ∙ passed.1))

module _ (serde : Serde) (encode : List ℕ → Text) (encode_limits : List Limit → Json) where
  -- When a deletion answers on a table with unique columns, there was a row, not the super
  -- token's, whose key or user name is the target; afterwards its key logs in with no secret and
  -- its user name with no password, and every row with another id is still there.
  pub serve-delete :
      (credential target : Text) (s : TokenServer) (answer : Response)
      → AllDiffer s.rows
      → (serve encode encode_limits serde (delete credential target) s).0 ≡ ok answer
      → (m : Model) × Member m s.rows
        × (m.id ≢ pos 1)
        × IsNamed target m
        × LockedOut (serve encode encode_limits serde (delete credential target) s).1.world m
        × ((n : Model)
            → Member n s.rows
            → n.id ≢ m.id
            → Member n (serve encode encode_limits serde (delete credential target) s).1.rows)
  unfolding serve change
  serve-delete credential target s answer d h =
      let (rows, changed, after) =
        commit-ok serde (change encode encode_limits (delete credential target) s) s answer h in
      let (p, which, left, (m, at, taken)) =
        delete_token-Removes credential target s answer rows changed in
      let (not_super, name) = named target p m which taken in
      (
        m,
        at,
        not_super,
        name,
        subst (λ x. LockedOut x.world m) (sym after)
            (Differs-LockedOut serde rows s.world m (
              subst (All (Differs m)) (sym left)
                (delete_rows-Differs (is_deletable p) s.rows m d at taken))),
        λ n here other.
            subst (λ x. Member n x.rows) (sym after)
              (subst (Member n) (sym left) (
                Member-keep (λ r. not (is_deletable p r)) n s.rows
                  (ap not (stays p which m at taken n here other)) here)),
      )
    where
      stays :
          (p : Model → Bool)
          → (p ≡ has_key target) ⊎ (p ≡ has_username target)
          → (m : Model) → Member m s.rows
          → is_deletable p m ≡ true
          → (n : Model) → Member n s.rows
          → n.id ≢ m.id
          → is_deletable p n ≡ false
      stays p which m at taken n here other = elim (Bool-cases (is_deletable p n)) [
        | inr e ↦ e
        | inl e ↦
            elim (All_at (λ x. (x ≡ m) ⊎ Differs m x) n s.rows
              (Pairwise-at Differs Differs-sym m s.rows d at) here) [
                | inl same ↦ elim (other (ap (λ x. x.id) same)) [ ]
                | inr dif ↦ elim (same_row target p m n which taken e dif) [ ]
              ]
      ]
