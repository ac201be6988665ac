-- ===== src/Token/Match/Cover.antt =====
-- What a list of limits covers.
use node_get.Prelude.{
  ◌≡◌, ◌↔◌, ◌⊎◌, inl, inr, refl, true, List, [], ◌∷◌, Option, none, some, arith, any, Any, ◌&&◌,
  ◌||◌, any→Any, Any→any,
}
use node_get.Text.{Text}
use node_get.Permission.{
  Scope, Limit, Permission, Kv, CrontabResult, JsResult, Task, permission_discrete,
}
use node_get.Token.Match.{
  variant_matches, wildcard_matches_pattern, permission_matches, scope_matches, check_limits_cover,
}
use node_get.Token.Match.Scopes.{
  ScopeCovers, scope_matches→ScopeCovers, ScopeCovers→scope_matches, Any-each,
}

-- The name or pattern that a permission is about, if it can be a pattern.
unfoldable pub argument : Permission → Option Text
argument (Permission.kv (Kv.read key)) = some key
argument (Permission.kv (Kv.write key)) = some key
argument (Permission.kv (Kv.delete key)) = some key
argument (Permission.crontab_result (CrontabResult.read name)) = some name
argument (Permission.crontab_result (CrontabResult.delete name)) = some name
argument (Permission.js_result (JsResult.read name)) = some name
argument (Permission.js_result (JsResult.delete name)) = some name
argument (Permission.task (Task.create name)) = some name
argument (Permission.task (Task.read name)) = some name
argument (Permission.task (Task.write name)) = some name
argument (Permission.task (Task.delete name)) = some name
argument _ = none

-- The same operation on another name.
unfoldable pub with_argument : Permission → Text → Permission
with_argument (Permission.kv (Kv.read key)) t = Permission.kv (Kv.read t)
with_argument (Permission.kv (Kv.write key)) t = Permission.kv (Kv.write t)
with_argument (Permission.kv (Kv.delete key)) t = Permission.kv (Kv.delete t)
with_argument (Permission.crontab_result (CrontabResult.read name)) t =
    Permission.crontab_result (CrontabResult.read t)
with_argument (Permission.crontab_result (CrontabResult.delete name)) t =
    Permission.crontab_result (CrontabResult.delete t)
with_argument (Permission.js_result (JsResult.read name)) t = Permission.js_result (JsResult.read t)
with_argument (Permission.js_result (JsResult.delete name)) t =
    Permission.js_result (JsResult.delete t)
with_argument (Permission.task (Task.create name)) t = Permission.task (Task.create t)
with_argument (Permission.task (Task.read name)) t = Permission.task (Task.read t)
with_argument (Permission.task (Task.write name)) t = Permission.task (Task.write t)
with_argument (Permission.task (Task.delete name)) t = Permission.task (Task.delete t)
with_argument p t = p

-- The same operation on names, the granted one read as a pattern.
abbrev pub ByPattern : Permission → Permission → Type 0
ByPattern granted required =
    (pattern : Text) × (name : Text) × (argument granted ≡ some pattern)
    × (required ≡ with_argument granted name)
    × (wildcard_matches_pattern name pattern ≡ true)

kv-ByPattern :
    (g r : Kv)
    → variant_matches (Permission.kv g) (Permission.kv r) ≡ true
    → ByPattern (Permission.kv g) (Permission.kv r)
unfolding variant_matches argument with_argument
kv-ByPattern (Kv.read p) (Kv.read n) h = (p, n, refl, refl, h)
kv-ByPattern (Kv.write p) (Kv.write n) h = (p, n, refl, refl, h)
kv-ByPattern (Kv.delete p) (Kv.delete n) h = (p, n, refl, refl, h)
kv-ByPattern _ _ h = cc

crontab_result-ByPattern :
    (g r : CrontabResult)
    → variant_matches (Permission.crontab_result g) (Permission.crontab_result r) ≡ true
    → ByPattern (Permission.crontab_result g) (Permission.crontab_result r)
unfolding variant_matches argument with_argument
crontab_result-ByPattern (CrontabResult.read p) (CrontabResult.read n) h = (p, n, refl, refl, h)
crontab_result-ByPattern (CrontabResult.delete p) (CrontabResult.delete n) h = (p, n, refl, refl, h)
crontab_result-ByPattern _ _ h = cc

js_result-ByPattern :
    (g r : JsResult)
    → variant_matches (Permission.js_result g) (Permission.js_result r) ≡ true
    → ByPattern (Permission.js_result g) (Permission.js_result r)
unfolding variant_matches argument with_argument
js_result-ByPattern (JsResult.read p) (JsResult.read n) h = (p, n, refl, refl, h)
js_result-ByPattern (JsResult.delete p) (JsResult.delete n) h = (p, n, refl, refl, h)
js_result-ByPattern _ _ h = cc

task-ByPattern :
    (g r : Task)
    → variant_matches (Permission.task g) (Permission.task r) ≡ true
    → ByPattern (Permission.task g) (Permission.task r)
unfolding variant_matches argument with_argument
task-ByPattern (Task.create p) (Task.create n) h = (p, n, refl, refl, h)
task-ByPattern (Task.read p) (Task.read n) h = (p, n, refl, refl, h)
task-ByPattern (Task.write p) (Task.write n) h = (p, n, refl, refl, h)
task-ByPattern (Task.delete p) (Task.delete n) h = (p, n, refl, refl, h)
task-ByPattern _ _ h = cc

variant-ByPattern :
    (granted required : Permission)
    → variant_matches granted required ≡ true
    → ByPattern granted required
unfolding variant_matches
variant-ByPattern (Permission.kv g) (Permission.kv r) h = kv-ByPattern g r h
variant-ByPattern (Permission.crontab_result g) (Permission.crontab_result r) h =
    crontab_result-ByPattern g r h
variant-ByPattern (Permission.js_result g) (Permission.js_result r) h = js_result-ByPattern g r h
variant-ByPattern (Permission.task g) (Permission.task r) h = task-ByPattern g r h
variant-ByPattern _ _ h = cc

variant_of_pattern :
    (granted : Permission) (pattern name : Text)
    → argument granted ≡ some pattern
    → variant_matches granted (with_argument granted name) ≡ wildcard_matches_pattern name pattern
unfolding variant_matches argument with_argument
variant_of_pattern (Permission.kv g) pattern name e = ground arith
variant_of_pattern _ pattern name e = ground arith

permission_matches_self : (p : Permission) → permission_matches p p ≡ true
unfolding permission_matches
permission_matches_self p = ground arith

-- A granted permission covers a required one exactly when they are the same, or both are the same
-- operation on names and the granted name, read as a pattern, covers the required one.
pub permission_matches_iff :
    (granted required : Permission)
    → (permission_matches granted required ≡ true)
      ↔ ((granted ≡ required) ⊎ ByPattern granted required)
unfolding permission_matches
permission_matches_iff granted required = (forth, back)
  where
    forth :
        permission_matches granted required ≡ true
        → (granted ≡ required) ⊎ ByPattern granted required
    forth h = elim (permission_discrete granted required) [
      | yes e ↦ inl e
      | no ne ↦ inr (variant-ByPattern granted required (ground arith))
    ]

    back :
        (granted ≡ required) ⊎ ByPattern granted required
        → permission_matches granted required ≡ true
    back (inl e) = rw e (permission_matches_self required)
    back (inr (pattern, name, at, e, m)) =
        ground (arith, variant_of_pattern granted pattern name at)

-- Some limit has both a scope and a permission that cover the request.
abbrev pub Covered : List Limit → Scope → Permission → Type 0
Covered limits req_scope req_perm =
    Any
      (λ limit.
        Any (λ s. ScopeCovers s req_scope) limit.scopes
        × Any (λ p. permission_matches p req_perm ≡ true) limit.permissions)
      limits

cover_cons :
    (limit : Limit) (limits : List Limit) (req_scope : Scope) (req_perm : Permission)
    → check_limits_cover (limit ∷ limits) req_scope req_perm ≡ (
        any (λ s. scope_matches s req_scope) limit.scopes
          && any (λ p. permission_matches p req_perm) limit.permissions
        || check_limits_cover limits req_scope req_perm)
unfolding check_limits_cover
cover_cons limit limits req_scope req_perm = ground arith

module _ (req_scope : Scope) (req_perm : Permission) where
  covering_scope :
      (scopes : List Scope)
      → any (λ s. scope_matches s req_scope) scopes ≡ true
      → Any (λ s. ScopeCovers s req_scope) scopes
  covering_scope scopes h =
      Any-each (λ s. scope_matches→ScopeCovers s req_scope) scopes
        (any→Any (λ s. scope_matches s req_scope) scopes h)

  pub cover→Covered :
      (limits : List Limit)
      → check_limits_cover limits req_scope req_perm ≡ true
      → Covered limits req_scope req_perm
  unfolding check_limits_cover
  cover→Covered [] h = cc
  cover→Covered (limit ∷ limits) h = ground (
    arith,
    cover_cons limit limits req_scope req_perm,
    cover→Covered limits,
    covering_scope limit.scopes,
    any→Any (λ p. permission_matches p req_perm) limit.permissions,
  )

  pub Covered→cover :
      (limits : List Limit)
      → Covered limits req_scope req_perm
      → check_limits_cover limits req_scope req_perm ≡ true
  Covered→cover [] h = elim h [ ]
  Covered→cover (limit ∷ limits) (inl (s, p)) = rw (
    cover_cons limit limits req_scope req_perm,
    Any→any (λ x. scope_matches x req_scope) limit.scopes
        (Any-each (λ x. ScopeCovers→scope_matches x req_scope) limit.scopes s),
    Any→any (λ x. permission_matches x req_perm) limit.permissions p,
  )
  Covered→cover (limit ∷ limits) (inr h) =
      ground (arith, cover_cons limit limits req_scope req_perm, Covered→cover limits h)

-- The loop over the limits answers whether one limit covers both the requested scope and the
-- requested permission, where the global scope covers all, an agent and a namespace cover
-- themselves, and a worker, a bucket and a database cover themselves and what their pattern
-- matches.
pub check_limits_cover_iff :
    (limits : List Limit) (req_scope : Scope) (req_perm : Permission)
    → (check_limits_cover limits req_scope req_perm ≡ true) ↔ Covered limits req_scope req_perm
check_limits_cover_iff limits req_scope req_perm =
    (cover→Covered req_scope req_perm limits, Covered→cover req_scope req_perm limits)
