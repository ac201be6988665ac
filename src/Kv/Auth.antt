-- ===== src/Kv/Auth.antt =====
-- crates/ng-kv/src/auth.rs and reserved.rs: which token may do what to which namespace and key.
-- `World` holds what the token crate sees: the caches, the clock and SHA-256.
pub mod Granted
pub mod Pattern
pub mod Listing
use node_get.Prelude.{
  ℕ, ◌≡◌, Bool, true, false, ◌&&◌, ◌||◌, not, List, [], ◌∷◌, Option, none, some, any, keep, length,
  ◌==◌, if◌then◌else◌,
}
use node_get.Text.{Text, codes, contains, starts_with, strip_suffix}
use node_get.Error.{
  NodegetError, Result, ok, err, map_err, ◌>>=◌, ◌>>◌, invalid_input, parse_error,
  permission_denied, config_not_found, namespace_empty, namespace_has_star, key_has_star, key_empty,
  bad_wildcard_key, no_read_permission, no_write_permission, no_delete_permission,
  no_namespace_permission, no_list_keys_permission, token_not_yet_valid, token_expired,
  no_list_namespaces_permission, only_super_token, namespace_is_reserved, failed_to_parse_token,
  permission_checker_not_initialized,
}
use node_get.Permission.{Limit, Scope, Permission, Kv, Token}
use node_get.Token.Match.{check_limits_cover}
use node_get.Token.Auth.{
  World, TokenOrAuth, Parsed, parsed, refused, from_full_token, check_super_token, get_token,
  is_in_time, starts_later, ended_before, as_denied,
}

unfoldable pub validate_namespace : Text → Result (Unit {0})
validate_namespace [] = err (invalid_input namespace_empty)
validate_namespace (c ∷ namespace) =
    if contains (c ∷ namespace) b'*' then err (invalid_input namespace_has_star) else ok tt

unfoldable pub validate_key : Text → Result (Unit {0})
validate_key key = if contains key b'*' then err (invalid_input key_has_star) else ok tt

-- `key.ends_with('*')`
abbrev ends_with_star : Text → Bool
ends_with_star key = elim (strip_suffix key b'*') [ none ↦ false | some _ ↦ true ]

abbrev star_count : Text → ℕ
star_count key = length (keep (λ c. c == b'*') key)

unfoldable pub validate_key_pattern : Text → Result (Unit {0})
validate_key_pattern [] = err (invalid_input key_empty)
validate_key_pattern (c ∷ key) =
    if not (contains (c ∷ key) b'*')
    then ok tt
    else if not (star_count (c ∷ key) == 1) || not (ends_with_star (c ∷ key))
    then err (invalid_input bad_wildcard_key)
    else ok tt

-- The prefix "__".
unfoldable pub is_reserved_namespace : Text → Bool
is_reserved_namespace namespace = starts_with namespace (codes "__")

unfoldable pub ensure_namespace_writable : Text → Result (Unit {0})
ensure_namespace_writable namespace =
    if is_reserved_namespace namespace
    then err (permission_denied (namespace_is_reserved namespace))
    else ok tt

pub data KvTokenState : Type 0 where
  granted denied : KvTokenState
  token : Token → KvTokenState

pub data KvNamespaceListPermission : Type 0 where
  all_namespaces : KvNamespaceListPermission
  scoped : List Text → KvNamespaceListPermission

unfoldable pub limits_cover_global_or_specific : List Limit → Scope → Permission → Permission → Bool
limits_cover_global_or_specific limits scope global_perm specific_perm =
    check_limits_cover limits scope global_perm || check_limits_cover limits scope specific_perm

-- `TokenOrAuth::from_full_token(token).map_err(…)?`
unfoldable pub parse_credential : Text → Result TokenOrAuth
parse_credential full_token = elim (from_full_token full_token) [
  | parsed c ↦ ok c
  | refused m ↦ err (parse_error (failed_to_parse_token m))
]

abbrev pub star : Text
star = codes "*"

-- One limit of the loop of `resolve_kv_list_namespace_permission`: `none` is the early return of
-- `All`, otherwise the namespaces collected so far. The set is a list.
collect_scopes : List Scope → List Text → Option (List Text)
collect_scopes [] allowed = some allowed
collect_scopes (Scope.global ∷ scopes) allowed = none
collect_scopes (Scope.kv_namespace ns ∷ scopes) allowed = collect_scopes scopes (ns ∷ allowed)
collect_scopes (_ ∷ scopes) allowed = collect_scopes scopes allowed

lists_namespaces : Permission → Bool
lists_namespaces (Permission.kv Kv.list_all_namespace) = true
lists_namespaces _ = false

unfoldable pub collect_limits : List Limit → List Text → Option (List Text)
unfolding collect_scopes lists_namespaces
collect_limits [] allowed = some allowed
collect_limits (limit ∷ limits) allowed =
    if not (any lists_namespaces limit.permissions)
    then collect_limits limits allowed
    else elim (collect_scopes limit.scopes allowed) [
      | none ↦ none
      | some more ↦ collect_limits limits more
    ]

-- What is left of the function after the loop.
abbrev listed : Option (List Text) → Result KvNamespaceListPermission
listed none = ok all_namespaces
listed (some []) = err (permission_denied no_list_namespaces_permission)
listed (some (ns ∷ allowed)) = ok (scoped (ns ∷ allowed))

module _ (w : World) where
  unfoldable pub resolve_token_for_kv_check : TokenOrAuth → Result KvTokenState
  resolve_token_for_kv_check token_or_auth = do
    is_super_token ← map_err as_denied (check_super_token w token_or_auth)
    if is_super_token then ok granted else (do
      t ← get_token w token_or_auth
      now ← w.now
      if not (is_in_time now t) then ok denied else ok (token t))

  -- The part of the checks below their validation: the credential is parsed and resolved, and the
  -- limits of a token that is valid now decide. `refusal` is the error of a denial.
  unfoldable pub decide : Text → NodegetError → (List Limit → Bool) → Result (Unit {0})
  unfolding resolve_token_for_kv_check
  decide full_token refusal covered = do
    token_or_auth ← parse_credential full_token
    state ← resolve_token_for_kv_check token_or_auth
    elim state [
      | granted ↦ ok tt
      | denied ↦ err refusal
      | token t ↦ if covered t.token_limit then ok tt else err refusal
    ]

  -- The checks on one key: the operation on every key of the namespace, or on that key.
  unfoldable pub on_key : Text → (Text → Kv) → Text → NodegetError → Text → Result (Unit {0})
  unfolding decide
  on_key namespace operation key refusal full_token = decide full_token refusal λ limits.
      limits_cover_global_or_specific limits (Scope.kv_namespace namespace)
        (Permission.kv (operation star)) (Permission.kv (operation key))

  unfoldable pub check_kv_read_permission : Text → Text → Text → Result (Unit {0})
  unfolding on_key
  check_kv_read_permission full_token namespace key = do
    validate_namespace namespace
    validate_key key
    on_key namespace Kv.read key (permission_denied (no_read_permission key namespace)) full_token

  unfoldable pub check_kv_read_permission_with_pattern : Text → Text → Text → Result (Unit {0})
  unfolding on_key
  check_kv_read_permission_with_pattern full_token namespace key_pattern = do
    validate_namespace namespace
    validate_key_pattern key_pattern
    on_key namespace Kv.read key_pattern
        (permission_denied (no_read_permission key_pattern namespace)) full_token

  unfoldable pub check_kv_write_permission : Text → Text → Text → Result (Unit {0})
  unfolding on_key
  check_kv_write_permission full_token namespace key = do
    validate_namespace namespace
    validate_key key
    on_key namespace Kv.write key (permission_denied (no_write_permission key namespace)) full_token

  unfoldable pub check_kv_delete_permission : Text → Text → Text → Result (Unit {0})
  unfolding on_key
  check_kv_delete_permission full_token namespace key = do
    validate_namespace namespace
    validate_key key
    on_key namespace Kv.delete key (permission_denied (no_delete_permission key namespace))
        full_token

  unfoldable pub check_kv_delete_namespace_permission : Text → Text → Result (Unit {0})
  unfolding decide
  check_kv_delete_namespace_permission full_token namespace = do
    validate_namespace namespace
    decide full_token (permission_denied (no_namespace_permission namespace)) λ limits.
        check_limits_cover limits (Scope.kv_namespace namespace) (Permission.kv (Kv.delete star))

  unfoldable pub check_kv_list_keys_permission : Text → Text → Result (Unit {0})
  unfolding decide
  check_kv_list_keys_permission full_token namespace = do
    validate_namespace namespace
    decide full_token (permission_denied (no_list_keys_permission namespace)) λ limits.
        check_limits_cover limits (Scope.kv_namespace namespace) (Permission.kv Kv.list_all_keys)

  -- `get_checker()?`; the registered checker calls `check_super_token` and `get_token`.
  require_checker : Result (Unit {0})
  require_checker =
      if w.checker_registered
      then ok tt
      else err (config_not_found permission_checker_not_initialized)

  unfoldable pub resolve_kv_list_namespace_permission : Text → Result KvNamespaceListPermission
  unfolding require_checker collect_limits
  resolve_kv_list_namespace_permission full_token = do
    require_checker
    token_or_auth ← parse_credential full_token
    is_super_token ← map_err as_denied (check_super_token w token_or_auth)
    if is_super_token then ok all_namespaces else (do
      t ← get_token w token_or_auth
      now ← w.now
      if starts_later now t.timestamp_from
          then err (permission_denied token_not_yet_valid)
          else if ended_before now t.timestamp_to
          then err (permission_denied token_expired)
          else listed (collect_limits t.token_limit []))

  unfoldable pub check_kv_create_permission : Text → Result (Unit {0})
  unfolding require_checker
  check_kv_create_permission full_token = do
    require_checker
    token_or_auth ← parse_credential full_token
    is_super_token ← map_err as_denied (check_super_token w token_or_auth)
    if is_super_token then ok tt else err (permission_denied only_super_token)
