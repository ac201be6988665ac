-- ===== src/Kv/Auth/Granted.antt =====
-- When the checks on a namespace or a key pass.
use node_get.Prelude.{
  ◌≡◌, ◌↔◌, ◌⊎◌, inl, inr, Bool, true, false, ◌||◌, List, [], ◌∷◌, arith, Bool-cases,
}
use node_get.Prelude.Int.{ℤ}
use node_get.Text.{Text}
use node_get.Error.{
  NodegetError, ok, ◌>>◌, Result-cases, permission_denied, no_read_permission, no_write_permission,
  no_delete_permission,
}
use node_get.Permission.{Limit, Scope, Permission, Kv, Token}
use node_get.Token.Match.{check_limits_cover}
use node_get.Token.Match.Cover.{check_limits_cover_iff}
use node_get.Token.Auth.{World, TokenOrAuth, get_token, check_super_token, check_token_limit}
use node_get.Token.Auth.Check.{InTime, check_token_limit_iff, is_in_time-InTime, InTime-is_in_time}
use node_get.Kv.Auth.{
  validate_namespace, validate_key, parse_credential, decide, on_key, star,
  resolve_token_for_kv_check, limits_cover_global_or_specific, check_kv_read_permission,
  check_kv_write_permission, check_kv_delete_permission,
}

-- The credential is the super token's, or its own token is valid now and has limits that decide.
abbrev pub Entitled : World → TokenOrAuth → (List Limit → Bool) → Type 0
Entitled w c covered =
    (check_super_token w c ≡ ok true)
    ⊎ (check_super_token w c ≡ ok false)
      × (t : Token) × (now : ℤ) × (get_token w c ≡ ok t)
      × (w.now ≡ ok now)
      × InTime now t
      × (covered t.token_limit ≡ true)

pub decide→Entitled :
    (w : World) (full_token : Text) (c : TokenOrAuth) (e : NodegetError)
    (covered : List Limit → Bool)
    → parse_credential full_token ≡ ok c
    → decide w full_token e covered ≡ ok tt
    → Entitled w c covered
unfolding decide resolve_token_for_kv_check
decide→Entitled w full_token c e covered p h = elim (Result-cases (check_super_token w c)) [
  | inr (x, s) ↦ ground arith
  | inl (true, s) ↦ inl s
  | inl (false, s) ↦ elim (Result-cases (get_token w c)) [
    | inr (x, g) ↦ ground arith
    | inl (t, g) ↦ elim (Result-cases w.now) [
      | inr (x, n) ↦ ground arith
      | inl (now, n) ↦ inr (s, t, now, g, n, is_in_time-InTime now t (ground arith), ground arith)
    ]
  ]
]

pub Entitled→decide :
    (w : World) (full_token : Text) (c : TokenOrAuth) (e : NodegetError)
    (covered : List Limit → Bool)
    → parse_credential full_token ≡ ok c
    → Entitled w c covered
    → decide w full_token e covered ≡ ok tt
unfolding decide resolve_token_for_kv_check
Entitled→decide w full_token c e covered p (inl s) = ground arith
Entitled→decide w full_token c e covered p (inr (s, t, now, g, n, i, l)) =
    ground (arith, InTime-is_in_time now t i)

-- One requested scope and permission, asked of `check_token_limit`.
asked :
    (w : World) (c : TokenOrAuth) (s : Scope) (p : Permission)
    → (check_token_limit w c (s ∷ []) (p ∷ []) ≡ ok true)
      ↔ Entitled w c (λ limits. check_limits_cover limits s p)
asked w c s p = (forth, back)
  where
    forth :
        check_token_limit w c (s ∷ []) (p ∷ []) ≡ ok true
        → Entitled w c (λ limits. check_limits_cover limits s p)
    forth h = elim ((check_token_limit_iff w c (s ∷ []) (p ∷ [])).0 h) [
      | inl x ↦ inl x
      | inr (x, allowed) ↦
          let (t, now, g, n, i, a) = allowed in
          inr (x, t, now, g, n, i, (check_limits_cover_iff t.token_limit s p).1 a.0.0)
    ]

    back :
        Entitled w c (λ limits. check_limits_cover limits s p)
        → check_token_limit w c (s ∷ []) (p ∷ []) ≡ ok true
    back (inl x) = (check_token_limit_iff w c (s ∷ []) (p ∷ [])).1 (inl x)
    back (inr (x, t, now, g, n, i, a)) =
        (check_token_limit_iff w c (s ∷ []) (p ∷ [])).1
          (inr (x, (t, now, g, n, i, (((check_limits_cover_iff t.token_limit s p).0 a, tt), tt))))

either→ :
    (w : World) (c : TokenOrAuth) (f g : List Limit → Bool)
    → Entitled w c (λ limits. f limits || g limits)
    → Entitled w c f ⊎ Entitled w c g
either→ w c f g (inl s) = inl (inl s)
either→ w c f g (inr (s, t, now, e, n, i, l)) = elim (Bool-cases (f t.token_limit)) [
  | inl x ↦ inl (inr (s, t, now, e, n, i, x))
  | inr x ↦ inr (inr (s, t, now, e, n, i, ground arith))
]

either← :
    (w : World) (c : TokenOrAuth) (f g : List Limit → Bool)
    → Entitled w c f ⊎ Entitled w c g
    → Entitled w c (λ limits. f limits || g limits)
either← w c f g (inl (inl s)) = inl s
either← w c f g (inr (inl s)) = inl s
either← w c f g (inl (inr (s, t, now, e, n, i, l))) = inr (s, t, now, e, n, i, ground arith)
either← w c f g (inr (inr (s, t, now, e, n, i, l))) = inr (s, t, now, e, n, i, ground arith)

-- The credential passes `check_token_limit` in the namespace for the operation on every key, or
-- passes it for the operation on this key.
abbrev pub InEitherCall : World → TokenOrAuth → Text → (Text → Kv) → Text → Type 0
InEitherCall w c ns operation key =
    let s = Scope.kv_namespace ns in
    (check_token_limit w c (s ∷ []) (Permission.kv (operation star) ∷ []) ≡ ok true)
    ⊎ (check_token_limit w c (s ∷ []) (Permission.kv (operation key) ∷ []) ≡ ok true)

on_key_iff :
    (w : World) (full_token ns key : Text) (operation : Text → Kv) (refusal : NodegetError)
    (c : TokenOrAuth)
    → parse_credential full_token ≡ ok c
    → (on_key w ns operation key refusal full_token ≡ ok tt) ↔ InEitherCall w c ns operation key
unfolding on_key limits_cover_global_or_specific
on_key_iff w full_token ns key operation refusal c p = (forth, back)
  where
    s : Scope
    s = Scope.kv_namespace ns

    on : Text → List Limit → Bool
    on k limits = check_limits_cover limits s (Permission.kv (operation k))

    forth : on_key w ns operation key refusal full_token ≡ ok tt → InEitherCall w c ns operation key
    forth h =
        elim (either→ w c (on star) (on key)
          (decide→Entitled w full_token c refusal (λ l. on star l || on key l) p h)) [
            | inl x ↦ inl ((asked w c s (Permission.kv (operation star))).1 x)
            | inr x ↦ inr ((asked w c s (Permission.kv (operation key))).1 x)
          ]

    back : InEitherCall w c ns operation key → on_key w ns operation key refusal full_token ≡ ok tt
    back h =
        Entitled→decide w full_token c refusal (λ l. on star l || on key l) p
          (either← w c (on star) (on key) (elim h [
            | inl x ↦ inl ((asked w c s (Permission.kv (operation star))).0 x)
            | inr x ↦ inr ((asked w c s (Permission.kv (operation key))).0 x)
          ]))

-- The namespace and the key are well-formed, the token is a credential, and it passes one of the two.
abbrev pub Permitted : World → Text → Text → (Text → Kv) → Text → Type 0
Permitted w full_token ns operation key =
    (validate_namespace ns ≡ ok tt)
    × (validate_key key ≡ ok tt)
    × (c : TokenOrAuth) × (parse_credential full_token ≡ ok c)
    × InEitherCall w c ns operation key

on_valid_key_iff :
    (w : World) (full_token ns key : Text) (operation : Text → Kv) (refusal : NodegetError)
    → ((validate_namespace ns >> (validate_key key >> on_key w ns operation key refusal full_token))
        ≡ ok tt)
      ↔ Permitted w full_token ns operation key
unfolding on_key decide
on_valid_key_iff w full_token ns key operation refusal = (forth, back)
  where
    forth :
        (validate_namespace ns
            >> (validate_key key >> on_key w ns operation key refusal full_token))
          ≡ ok tt
        → Permitted w full_token ns operation key
    forth h = elim (Result-cases (validate_namespace ns)) [
      | inr (e, x) ↦ ground arith
      | inl (u, x) ↦ elim (Result-cases (validate_key key)) [
        | inr (e, y) ↦ ground arith
        | inl (u', y) ↦ elim (Result-cases (parse_credential full_token)) [
          | inr (e, z) ↦ ground arith
          | inl (c, z) ↦
              (x, y, c, z, (on_key_iff w full_token ns key operation refusal c z).0 (ground arith))
        ]
      ]
    ]

    back :
        Permitted w full_token ns operation key
        → (validate_namespace ns
            >> (validate_key key >> on_key w ns operation key refusal full_token))
          ≡ ok tt
    back (x, y, c, z, h) =
        ground (arith, (on_key_iff w full_token ns key operation refusal c z).1 h)

-- The checks for reading, writing and deleting a key pass exactly when namespace and key are well-
-- formed, the token text is a credential, and check_token_limit passes for the operation on every
-- key or on this key.
pub check_kv_permissions_iff :
    (w : World) (full_token ns key : Text)
    → ((check_kv_read_permission w full_token ns key ≡ ok tt)
        ↔ Permitted w full_token ns Kv.read key)
      × ((check_kv_write_permission w full_token ns key ≡ ok tt)
          ↔ Permitted w full_token ns Kv.write key)
      × ((check_kv_delete_permission w full_token ns key ≡ ok tt)
          ↔ Permitted w full_token ns Kv.delete key)
unfolding check_kv_read_permission check_kv_write_permission check_kv_delete_permission
check_kv_permissions_iff w full_token ns key = (
  on_valid_key_iff w full_token ns key Kv.read (permission_denied (no_read_permission key ns)),
  on_valid_key_iff w full_token ns key Kv.write (permission_denied (no_write_permission key ns)),
  on_valid_key_iff w full_token ns key Kv.delete (permission_denied (no_delete_permission key ns)),
)
