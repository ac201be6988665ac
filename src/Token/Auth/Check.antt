-- ===== src/Token/Auth/Check.antt =====
-- When `check_token_limit` passes.
use node_get.Prelude.{
  sym, ◌∙◌, if◌then◌else◌, ◌≡◌, refl, ◌↔◌, ◌⊎◌, inl, inr, Bool, true, false, List, [], ◌∷◌, some,
  All, arith, Option-cases,
}
use node_get.Prelude.Int.{ℤ, ◌≤ℤ◌}
use node_get.Error.{NodegetError, ok, err, Result-cases, permission_denied, display}
use node_get.Permission.{Limit, Scope, Permission, Token}
use node_get.Token.Match.Cover.{Covered, check_limits_cover_iff}
use node_get.Token.Auth.{
  World, TokenOrAuth, is_in_time, all_permissions, all_requested, limited, get_token,
  check_super_token, check_token_limit,
}

-- The bounds that the token has hold at `now`; both are inclusive.
pub record InTime (now : ℤ) (t : Token) : Type 0 where
  pub started : (from : ℤ) → t.timestamp_from ≡ some from → from ≤ℤ now
  pub not_ended : (to : ℤ) → t.timestamp_to ≡ some to → now ≤ℤ to

pub is_in_time-InTime : (now : ℤ) (t : Token) → is_in_time now t ≡ true → InTime now t
unfolding is_in_time
is_in_time-InTime now t h = record {
  started = λ from e. ground arith;
  not_ended = λ to e. ground arith;
}

pub InTime-is_in_time : (now : ℤ) (t : Token) → InTime now t → is_in_time now t ≡ true
unfolding is_in_time
InTime-is_in_time now t h = elim (Option-cases t.timestamp_from) [
  | inl e ↦ elim (Option-cases t.timestamp_to) [
    | inl e' ↦ ground arith
    | inr (to, e') ↦ ground (arith, h.not_ended to e')
  ]
  | inr (from, e) ↦ elim (Option-cases t.timestamp_to) [
    | inl e' ↦ ground (arith, h.started from e)
    | inr (to, e') ↦ ground (arith, h.started from e, h.not_ended to e')
  ]
]

-- Every requested scope with every requested permission.
abbrev pub AllCovered : List Limit → List Scope → List Permission → Type 0
AllCovered limits scopes permissions = All (λ s. All (λ p. Covered limits s p) permissions) scopes

each_permission_sound :
    (limits : List Limit) (s : Scope) (perms : List Permission)
    → all_permissions limits s perms ≡ true
    → All (λ p. Covered limits s p) perms
unfolding all_permissions
each_permission_sound limits s [] h = tt
each_permission_sound limits s (p ∷ perms) h = (
  (check_limits_cover_iff limits s p).0 (ground arith),
  each_permission_sound limits s perms (ground arith),
)

each_permission_complete :
    (limits : List Limit) (s : Scope) (perms : List Permission)
    → All (λ p. Covered limits s p) perms
    → all_permissions limits s perms ≡ true
unfolding all_permissions
each_permission_complete limits s [] h = refl
each_permission_complete limits s (p ∷ perms) h =
    ground (
      arith,
      (check_limits_cover_iff limits s p).1 h.0,
      each_permission_complete limits s perms h.1,
    )

all_requested→AllCovered :
    (limits : List Limit) (scopes : List Scope) (perms : List Permission)
    → all_requested limits scopes perms ≡ true
    → AllCovered limits scopes perms
unfolding all_requested
all_requested→AllCovered limits [] perms h = tt
all_requested→AllCovered limits (s ∷ scopes) perms h = (
  each_permission_sound limits s perms (ground arith),
  all_requested→AllCovered limits scopes perms (ground arith),
)

AllCovered→all_requested :
    (limits : List Limit) (scopes : List Scope) (perms : List Permission)
    → AllCovered limits scopes perms
    → all_requested limits scopes perms ≡ true
unfolding all_requested
AllCovered→all_requested limits [] perms h = refl
AllCovered→all_requested limits (s ∷ scopes) perms h = ground (
  arith,
  each_permission_complete limits s perms h.0,
  AllCovered→all_requested limits scopes perms h.1,
)

-- The credential's token is valid now, and each pair of a requested scope and a requested permission
-- is covered by one of its limits.
abbrev pub IsAllowed : World → TokenOrAuth → List Scope → List Permission → Type 0
IsAllowed w c scopes permissions =
    (t : Token) × (now : ℤ) × (get_token w c ≡ ok t)
    × (w.now ≡ ok now)
    × InTime now t
    × AllCovered t.token_limit scopes permissions

limited→IsAllowed :
    (w : World) (c : TokenOrAuth) (scopes : List Scope) (permissions : List Permission)
    → limited w c scopes permissions ≡ ok true
    → IsAllowed w c scopes permissions
unfolding limited
limited→IsAllowed w c scopes permissions h = elim (Result-cases (get_token w c)) [
  | inr (e, g) ↦ ground arith
  | inl (t, g) ↦ elim (Result-cases w.now) [
    | inr (e, n) ↦ ground arith
    | inl (now, n) ↦ (
      t,
      now,
      g,
      n,
      is_in_time-InTime now t (ground arith),
      all_requested→AllCovered t.token_limit scopes permissions (ground arith),
    )
  ]
]

IsAllowed→limited :
    (w : World) (c : TokenOrAuth) (scopes : List Scope) (permissions : List Permission)
    → IsAllowed w c scopes permissions
    → limited w c scopes permissions ≡ ok true
unfolding limited
IsAllowed→limited w c scopes permissions (t, now, g, n, i, a) =
    ground (
      arith,
      InTime-is_in_time now t i,
      AllCovered→all_requested t.token_limit scopes permissions a,
    )

check_by_super :
    (w : World) (c : TokenOrAuth) (scopes : List Scope) (permissions : List Permission)
    (is_super : Bool)
    → check_super_token w c ≡ ok is_super
    → check_token_limit w c scopes permissions
      ≡ (if is_super then ok true else limited w c scopes permissions)
unfolding check_token_limit
check_by_super w c scopes permissions is_super e = rw (e, check_token_limit)

check_by_super_error :
    (w : World) (c : TokenOrAuth) (scopes : List Scope) (permissions : List Permission)
    (e : NodegetError)
    → check_super_token w c ≡ err e
    → check_token_limit w c scopes permissions ≡ err (permission_denied (display e))
unfolding check_token_limit
check_by_super_error w c scopes permissions e s = rw (s, check_token_limit)

-- A request passes check_token_limit exactly when the credential is the super token's, or it is
-- not and its own token is valid now and each pair of a requested scope and a requested permission
-- is covered by one limit.
pub check_token_limit_iff :
    (w : World) (c : TokenOrAuth) (scopes : List Scope) (permissions : List Permission)
    → (check_token_limit w c scopes permissions ≡ ok true) ↔ (
        (check_super_token w c ≡ ok true)
        ⊎ (check_super_token w c ≡ ok false) × IsAllowed w c scopes permissions)
check_token_limit_iff w c scopes permissions = (forth, back)
  where
    by_super :
        (is_super : Bool)
        → check_super_token w c ≡ ok is_super
        → (if is_super then ok true else limited w c scopes permissions) ≡ ok true
        → (check_super_token w c ≡ ok true)
          ⊎ (check_super_token w c ≡ ok false) × IsAllowed w c scopes permissions
    by_super true s h = inl s
    by_super false s h = inr (s, limited→IsAllowed w c scopes permissions h)

    forth :
        check_token_limit w c scopes permissions ≡ ok true
        → (check_super_token w c ≡ ok true)
          ⊎ (check_super_token w c ≡ ok false) × IsAllowed w c scopes permissions
    forth h = elim (Result-cases (check_super_token w c)) [
      | inr (e, s) ↦ cc (h, check_by_super_error w c scopes permissions e s)
      | inl (is_super, s) ↦
          by_super is_super s (sym (check_by_super w c scopes permissions is_super s) ∙ h)
    ]

    back :
        (check_super_token w c ≡ ok true)
          ⊎ (check_super_token w c ≡ ok false) × IsAllowed w c scopes permissions
        → check_token_limit w c scopes permissions ≡ ok true
    back (inl e) = check_by_super w c scopes permissions true e
    back (inr (e, a)) =
        check_by_super w c scopes permissions false e ∙ IsAllowed→limited w c scopes permissions a
