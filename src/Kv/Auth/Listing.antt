-- ===== src/Kv/Auth/Listing.antt =====
-- The namespaces that a token may list, against the general check of its limits.
use node_get.Prelude.{
  ◌≡◌, refl, sym, ap, ◌∙◌, inl, inr, Bool, true, false, ◌||◌, List, [], ◌∷◌, Option, none, some,
  any, arith, Option-cases,
}
use node_get.Text.{Text, text_eq}
use node_get.Error.{ok, Result-cases}
use node_get.Permission.{Limit, Scope, Permission, Kv, Token}
use node_get.Token.Match.{check_limits_cover, scope_matches, permission_matches}
use node_get.Token.Auth.{World, TokenOrAuth, get_token, check_super_token}
use node_get.Kv.Auth.{
  all_namespaces, scoped, parse_credential, collect_scopes, collect_limits, lists_namespaces,
  resolve_kv_list_namespace_permission,
}

abbrev pub list_all : Permission
list_all = Permission.kv Kv.list_all_namespace

-- `allowed.contains(namespace)`
abbrev pub has : List Text → Text → Bool
has allowed n = any (λ m. text_eq m n) allowed

abbrev stops : Option (List Text) → Bool
stops none = true
stops (some _) = false

matches-list_all : (p : Permission) → permission_matches p list_all ≡ lists_namespaces p
unfolding permission_matches lists_namespaces
matches-list_all (Permission.kv k) = ground arith
matches-list_all _ = ground arith

any_matches-list_all :
    (ps : List Permission) → any (λ p. permission_matches p list_all) ps ≡ any lists_namespaces ps
unfolding any
any_matches-list_all [] = refl
any_matches-list_all (p ∷ ps) = ground (arith, matches-list_all p, any_matches-list_all ps)

scopes_stop :
    (scopes : List Scope) (allowed : List Text)
    → stops (collect_scopes scopes allowed) ≡ any (λ s. scope_matches s Scope.global) scopes
unfolding any collect_scopes scope_matches
scopes_stop [] allowed = refl
scopes_stop (Scope.global ∷ scopes) allowed = refl
scopes_stop (Scope.kv_namespace n ∷ scopes) allowed = scopes_stop scopes (n ∷ allowed)
scopes_stop (Scope.agent_uuid u ∷ scopes) allowed = scopes_stop scopes allowed
scopes_stop (Scope.js_worker u ∷ scopes) allowed = scopes_stop scopes allowed
scopes_stop (Scope.static_bucket u ∷ scopes) allowed = scopes_stop scopes allowed
scopes_stop (Scope.db u ∷ scopes) allowed = scopes_stop scopes allowed

scopes_collect :
    (scopes : List Scope) (allowed more : List Text) (n : Text)
    → collect_scopes scopes allowed ≡ some more
    → has more n ≡ (any (λ s. scope_matches s (Scope.kv_namespace n)) scopes || has allowed n)
unfolding any collect_scopes scope_matches
scopes_collect [] allowed more n h = ground (arith, h)
scopes_collect (Scope.global ∷ scopes) allowed more n h = cc h
scopes_collect (Scope.kv_namespace m ∷ scopes) allowed more n h =
    ground (arith, scopes_collect scopes (m ∷ allowed) more n h)
scopes_collect (Scope.agent_uuid u ∷ scopes) allowed more n h =
    scopes_collect scopes allowed more n h
scopes_collect (Scope.js_worker u ∷ scopes) allowed more n h =
    scopes_collect scopes allowed more n h
scopes_collect (Scope.static_bucket u ∷ scopes) allowed more n h =
    scopes_collect scopes allowed more n h
scopes_collect (Scope.db u ∷ scopes) allowed more n h = scopes_collect scopes allowed more n h

limits_stop :
    (limits : List Limit) (allowed : List Text)
    → stops (collect_limits limits allowed) ≡ check_limits_cover limits Scope.global list_all
unfolding collect_limits check_limits_cover
limits_stop [] allowed = refl
limits_stop (limit ∷ limits) allowed = elim (Option-cases (collect_scopes limit.scopes allowed)) [
  | inl e ↦ ground (
    arith,
    e,
    any_matches-list_all limit.permissions,
    scopes_stop limit.scopes allowed,
    limits_stop limits allowed,
  )
  | inr (more, e) ↦ ground (
    arith,
    e,
    any_matches-list_all limit.permissions,
    scopes_stop limit.scopes allowed,
    limits_stop limits allowed,
    limits_stop limits more,
  )
]

limits_collect :
    (limits : List Limit) (allowed more : List Text) (n : Text)
    → collect_limits limits allowed ≡ some more
    → has more n ≡ (check_limits_cover limits (Scope.kv_namespace n) list_all || has allowed n)
unfolding collect_limits check_limits_cover
limits_collect [] allowed more n h = ground (arith, h)
limits_collect (limit ∷ limits) allowed more n h =
    elim (Option-cases (collect_scopes limit.scopes allowed)) [
      | inl e ↦ ground (
        arith,
        e,
        h,
        any_matches-list_all limit.permissions,
        limits_collect limits allowed more n,
      )
      | inr (found, e) ↦ ground (
        arith,
        e,
        h,
        any_matches-list_all limit.permissions,
        scopes_collect limit.scopes allowed found n e,
        limits_collect limits allowed more n,
        limits_collect limits found more n,
      )
    ]

module _ (w : World) (full_token : Text) (c : TokenOrAuth) (t : Token) where
  -- If a credential that is not the super token's gets a set of namespaces to list, the set holds
  -- exactly those for which check_limits_cover grants its token the permission to list.
  pub listing-scoped :
      (allowed : List Text) (n : Text)
      → parse_credential full_token ≡ ok c
      → check_super_token w c ≡ ok false
      → get_token w c ≡ ok t
      → resolve_kv_list_namespace_permission w full_token ≡ ok (scoped allowed)
      → has allowed n ≡ check_limits_cover t.token_limit (Scope.kv_namespace n) list_all
  unfolding resolve_kv_list_namespace_permission any
  listing-scoped allowed n p s g h = elim (Result-cases w.now) [
    | inr (e, x) ↦ ground (arith, p, s, g, h, x)
    | inl (now, x) ↦
        let e : collect_limits t.token_limit [] ≡ some allowed = ground (arith, p, s, g, h, x) in
        limits_collect t.token_limit [] allowed n e ∙ ground arith
  ]

  -- If a credential that is not the super token's may list all namespaces, check_limits_cover
  -- grants its token the permission to list in the global scope.
  pub listing-all :
      parse_credential full_token ≡ ok c
      → check_super_token w c ≡ ok false
      → get_token w c ≡ ok t
      → resolve_kv_list_namespace_permission w full_token ≡ ok all_namespaces
      → check_limits_cover t.token_limit Scope.global list_all ≡ true
  unfolding resolve_kv_list_namespace_permission
  listing-all p s g h = elim (Result-cases w.now) [
    | inr (e, x) ↦ ground (arith, p, s, g, h, x)
    | inl (now, x) ↦
        let e : collect_limits t.token_limit [] ≡ none = ground (arith, p, s, g, h, x) in
        sym (limits_stop t.token_limit []) ∙ ap stops e
  ]
