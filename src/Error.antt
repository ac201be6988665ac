-- ===== src/Error.antt =====
-- crates/ng-core/src/error.rs: the error type of every crate, and the result of fallible code.
-- A message is kept as the format string that the source fills in, with its arguments.
use node_get.Prelude.{ℕ, ◌≡◌, refl, ◌⊎◌, inl, inr}
use node_get.Prelude.Int.{ℤ}
use node_get.Text.{Text}

mutual
  pub data NodegetError : Type 0 where
    parse_error invalid_input permission_denied database_error : Message → NodegetError
    agent_connection_error agent_offline not_found uuid_not_found : Message → NodegetError
    config_not_found serialization_error io_error other : Message → NodegetError

  pub data Message : Type 0 where
    -- "{e}"
    display : NodegetError → Message
    -- ng-core
    invalid_token_format permission_checker_not_initialized clock_failure : Message
    -- ng-token
    token_cache_not_initialized invalid_credentials super_token_missing : Message
    token_not_found : Text → Message
    failed_to_parse_permissions only_super_creates_tokens : Message
    username_and_password_together username_has_separator password_has_separator : Message
    token_insert_failed super_transaction_failed : Message
    only_super_deletes only_super_edits only_super_performs : Message
    target_is_empty super_missing_in_table super_cannot_be_deleted super_cannot_be_edited : Message
    new_password_is_empty new_password_too_short : Message
    target_not_found token_missing : Text → Message
    -- ng-kv
    failed_to_parse_token : Message → Message
    namespace_empty namespace_has_star key_has_star key_empty bad_wildcard_key : Message
    no_read_permission no_write_permission no_delete_permission : Text → Text → Message
    no_namespace_permission no_list_keys_permission : Text → Message
    token_not_yet_valid token_expired no_list_namespaces_permission only_super_token : Message
    namespace_is_reserved namespace_missing namespace_already_exists : Text → Message
    marker_is_protected db_not_initialized nothing_requested : Message
    -- ng-static
    name_is_empty name_too_long name_has_bad_chars name_is_dots : Message
    path_is_empty path_too_long path_has_backslash path_has_parent path_is_absolute : Message
    path_has_prefix path_has_no_component path_traversal_detected absolute_path_not_allowed :
        Message
    static_already_exists static_not_found : Text → Message
    http_root_is_taken both_body_and_base64 no_body_or_base64 invalid_base64 : Message
    static_cache_not_initialized failed_to_write_file failed_to_stat_file : Message
    failed_to_read_file failed_to_delete_file failed_to_rename_file : Message
    file_not_found source_file_not_found : Text → Message
    file_too_large : ℕ → Message
    failed_to_stat_static_dir failed_to_read_dir failed_to_read_dir_entry : Message
    no_static_permission no_static_file_permission : Text → Text → Message
    -- ng-monitoring
    uuid_id_out_of_range : ℤ → ℕ → Message
    uuid_id_out_of_range_after_insert : ℕ → Message
    conflict_without_row : Message
    -- ng-task
    execute_cmd_is_empty invalid_task_reference result_already_uploaded : Message
    no_task_create_permission no_task_create_or_read_permission no_task_write_permission :
        Text → Message
    no_task_write_permission_at_all bad_original_task_type : Message
    agent_not_connected agent_queue_full sending_task_event : ℕ → Message
    task_timed_out : ℕ → ℕ → Message

-- The code that a JSON-RPC error carries in `error_id`.
unfoldable pub error_code : NodegetError → ℕ
error_code (invalid_input m) = 108
error_code (permission_denied m) = 102
error_code (database_error m) = 103
error_code (agent_connection_error m) = 104
error_code (not_found m) = 105
error_code (uuid_not_found m) = 106
error_code (config_not_found m) = 107
error_code (agent_offline m) = 109
error_code (other m) = 999
error_code (parse_error m) = 101
error_code (serialization_error m) = 101
error_code (io_error m) = 101

-- `anyhow::Result` and `Result<_, NodegetError>`
pub data Result (T : Type 0) : Type 0 where
  ok : T → Result T
  err : NodegetError → Result T

-- `map_err`
abbrev pub map_err : {T : Type 0} → (NodegetError → NodegetError) → Result T → Result T
map_err f (ok value) = ok value
map_err f (err e) = err (f e)

-- The `?` operator, with the value and without it.
infixl 5 ◌>>=◌
abbrev pub ◌>>=◌ : {T U : Type 0} → Result T → (T → Result U) → Result U
err e >>= rest = err e
ok value >>= rest = rest value

infixl 5 ◌>>◌
abbrev pub ◌>>◌ : {U : Type 0} → Result (Unit {0}) → Result U → Result U
check >> rest = check >>= λ u. rest

pub Result-cases :
    {T : Type 0} (r : Result T)
    → ((value : T) × (r ≡ ok value)) ⊎ ((e : NodegetError) × (r ≡ err e))
Result-cases (ok value) = inl (value, refl)
Result-cases (err e) = inr (e, refl)

-- A chain that succeeds has a first part that does, and a rest that does with its value.
pub bind-ok :
    {T U : Type 0} (r : Result T) (rest : T → Result U) (u : U)
    → (r >>= rest) ≡ ok u
    → (value : T) × (r ≡ ok value) × (rest value ≡ ok u)
bind-ok (ok value) rest u h = (value, refl, h)
bind-ok (err e) rest u h = cc h

pub map_err-ok :
    {T : Type 0} (f : NodegetError → NodegetError) (r : Result T) (value : T)
    → map_err f r ≡ ok value
    → r ≡ ok value
map_err-ok f (ok v) value h = h
map_err-ok f (err e) value h = cc h
