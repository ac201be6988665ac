-- ===== src/Task/Upload.antt =====
-- crates/ng-task/src/rpc/upload_task_result.rs: an agent hands in the result of a task.
pub mod Named
pub mod Allowed
use node_get.Prelude.{
  ℕ, suc, Bool, true, false, not, List, [], ◌∷◌, ◌++◌, Option, none, some, keep, any, map, ◌==◌,
  ◌&&◌, ◌||◌, leb, min, max, if◌then◌else◌, ℕ_discrete,
}
use node_get.Prelude.Int.{ℤ, pos, eq_ℤ}
use node_get.Text.{Text, text_eq, trim, is_empty}
use node_get.Keyed.{find}
use node_get.Error.{
  NodegetError, Result, ok, err, map_err, ◌>>=◌, ◌>>◌, invalid_input, parse_error,
  permission_denied, config_not_found, not_found, serialization_error, agent_offline,
  agent_connection_error, other, failed_to_parse_token, permission_checker_not_initialized,
  execute_cmd_is_empty, invalid_task_reference, result_already_uploaded, no_task_create_permission,
  no_task_create_or_read_permission, no_task_write_permission, no_task_write_permission_at_all,
  bad_original_task_type, agent_not_connected, agent_queue_full, sending_task_event, task_timed_out,
}
use node_get.Permission.{Limit, Scope, Permission, Task, Token}
use node_get.Token.Auth.{
  World, TokenOrAuth, Parsed, parsed, refused, from_full_token, check_super_token, get_token,
  check_token_limit, as_denied,
}
use node_get.Token.Guard.{parse_token, get_checker, allowed_or}
use node_get.Task.{
  TaskEventType, execute, TaskEvent, TaskEventResponse, Row, task_name, cast_signed,
}
use node_get.Task.Manager.{
  TaskManager, TaskSendError, not_connected, queue_full, notify_blocking_waiter,
}
use node_get.Task.Rpc.{TaskSerde, Server, Call, refuse, with_manager, with_rows, check_task_limit}

-- `Scope::Global`, or the agent of the response.
abbrev pub scope_of_agent : ℕ → Scope → Bool
scope_of_agent uuid Scope.global = true
scope_of_agent uuid (Scope.agent_uuid u) = u == uuid
scope_of_agent uuid _ = false

abbrev pub is_task_write : Permission → Bool
is_task_write (Permission.task (Task.write _)) = true
is_task_write _ = false

unfoldable pub has_any_task_write : ℕ → List Limit → Bool
has_any_task_write uuid limits =
    any (λ limit. any (scope_of_agent uuid) limit.scopes && any is_task_write limit.permissions)
      limits

-- The check before the row is read.
unfoldable pub check_any_task_write : World → TokenOrAuth → ℕ → Result (Unit {0})
check_any_task_write w c uuid = map_err as_denied (check_super_token w c) >>= λ is_super.
    if is_super
    then ok tt
    else (map_err as_denied (get_token w c) >>= λ t.
        allowed_or (permission_denied no_task_write_permission_at_all)
          (has_any_task_write uuid t.token_limit))

module _ {U R J : Type 0} (json : TaskSerde U R J) where
  -- The filters of the query and of the update, but for the null test.
  abbrev pub is_row_of : TaskEventResponse R → Row J → Bool
  is_row_of response r =
      eq_ℤ (pos r.id) (cast_signed response.task_id)
      && (r.uuid == response.agent_uuid && text_eq r.token response.task_token)

  abbrev pub is_open_row_of : TaskEventResponse R → Row J → Bool
  is_open_row_of response r = elim (r.success) [ none ↦ is_row_of response r | some _ ↦ false ]

  unfoldable pub find_row : TaskEventResponse R → List (Row J) → Option (Row J)
  find_row response [] = none
  find_row response (r ∷ rows) = if is_row_of response r then some r else find_row response rows

  abbrev pub encode_optional : Option R → Option J
  encode_optional none = none
  encode_optional (some result) = some (json.encode_result result)

  abbrev pub record_result : TaskEventResponse R → Row J → Row J
  record_result response r = record {
    id = r.id;
    uuid = r.uuid;
    token = r.token;
    cron_source = r.cron_source;
    timestamp = some (cast_signed response.timestamp);
    success = some response.success;
    error_message = response.error_message;
    task_event_type = r.task_event_type;
    task_event_result = encode_optional response.task_event_result;
    created_at = r.created_at;
  }

  -- `update_many`, with every filter.
  abbrev pub update_open : TaskEventResponse R → Row J → Row J
  update_open response r = if is_open_row_of response r then record_result response r else r

  abbrev pub or_missing : Option (Row J) → Result (Row J)
  or_missing none = err (not_found invalid_task_reference)
  or_missing (some r) = ok r

  abbrev pub still_open : Row J → Result (Unit {0})
  still_open r = elim (r.success) [
    | none ↦ ok tt
    | some _ ↦ err (invalid_input result_already_uploaded)
  ]

  abbrev pub decoded : Option (TaskEventType U) → Result (TaskEventType U)
  decoded none = err (serialization_error bad_original_task_type)
  decoded (some t) = ok t

  -- Every check of an upload.
  abbrev pub check_upload : World → Text → TaskEventResponse R → List (Row J) → Result (Unit {0})
  check_upload w token response rows = parse_token token >>= λ c.
      get_checker w
      >> (check_any_task_write w c response.agent_uuid
          >> (or_missing (find_row response rows) >>= λ r.
              still_open r
              >> (decoded (json.decode_type r.task_event_type) >>= λ t.
                  check_task_limit w c response.agent_uuid
                    (Permission.task (Task.write (task_name t)) ∷ [])
                    (permission_denied (no_task_write_permission (task_name t))))))

  abbrev pub store_result : TaskEventResponse R → Call json ℕ
  store_result response s =
      if not (any (is_open_row_of response) s.rows)
      then (err (invalid_input result_already_uploaded), s)
      else (
        ok response.task_id,
        with_manager json (notify_blocking_waiter response.task_id response s.manager).1
            (with_rows json (map (update_open response) s.rows) s),
      )

  unfoldable pub upload_task_result : World → Text → TaskEventResponse R → Call json ℕ
  upload_task_result w token response s =
      refuse json (check_upload w token response s.rows) (store_result response) s
