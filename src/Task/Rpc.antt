-- ===== src/Task/Rpc.antt =====
-- crates/ng-task/src/rpc/create_task.rs and create_task_blocking.rs: creating a task, and waiting for
-- its result. The database answers; the drawn task token and the time are arguments. A blocking call is
-- its two parts, up to the wait and after it. The registration of the agent's UUID with the monitoring
-- tables is left out, and so is the wait's branch for a sender that was dropped.
pub mod Failed
use node_get.Prelude.{
  ℕ, suc, Bool, true, false, not, List, [], ◌∷◌, ◌++◌, Option, none, some, keep, any, map, ◌==◌,
  ◌&&◌, ◌||◌, leb, min, max, if◌then◌else◌, ℕ_discrete,
}
use node_get.Prelude.Int.{ℤ, pos, eq_ℤ}
use node_get.Text.{Text, text_eq, trim, is_empty}
use node_get.Keyed.{find}
use node_get.Error.{
  NodegetError, Result, ok, err, map_err, ◌>>=◌, ◌>>◌, invalid_input, parse_error,
  permission_denied, config_not_found, not_found, serialization_error, agent_offline,
  agent_connection_error, other, failed_to_parse_token, permission_checker_not_initialized,
  execute_cmd_is_empty, invalid_task_reference, result_already_uploaded, no_task_create_permission,
  no_task_create_or_read_permission, no_task_write_permission, no_task_write_permission_at_all,
  bad_original_task_type, agent_not_connected, agent_queue_full, sending_task_event, task_timed_out,
}
use node_get.Permission.{Limit, Scope, Permission, Task, Token}
use node_get.Token.Auth.{
  World, TokenOrAuth, Parsed, parsed, refused, from_full_token, check_super_token, get_token,
  check_token_limit, as_denied,
}
use node_get.Token.Guard.{parse_token, get_checker, allowed_or}
use node_get.Task.{
  TaskEventType, execute, TaskEvent, TaskEventResponse, Row, task_name, cast_signed,
}
use node_get.Task.Manager.{
  TaskManager, TaskSendError, not_connected, queue_full, send_event, is_connected,
  register_blocking_waiter, remove_blocking_waiter, notify_blocking_waiter,
}

-- serde_json on the types of tasks and results.
pub record TaskSerde (U R J : Type 0) : Type 0 where
  pub encode_type : TaskEventType U → J
  pub decode_type : J → Option (TaskEventType U)
  pub encode_result : R → J

pub record Server (U R J : Type 0) : Type 0 where
  pub rows : List (Row J)
  pub next_id : ℕ
  pub manager : TaskManager U R

unfoldable pub validate_task_type : {U : Type 0} → TaskEventType U → Result (Unit {0})
validate_task_type (execute t) =
    if is_empty (trim t.cmd) then err (invalid_input execute_cmd_is_empty) else ok tt
validate_task_type _ = ok tt

abbrev pub check_task_limit :
    World → TokenOrAuth → ℕ → List Permission → NodegetError → Result (Unit {0})
check_task_limit w c uuid permissions denial =
    check_token_limit w c (Scope.agent_uuid uuid ∷ []) permissions >>= allowed_or denial

abbrev pub connected_or : ℕ → Bool → Result (Unit {0})
connected_or uuid connected =
    if connected then ok tt else err (agent_offline (agent_not_connected uuid))

unfoldable pub clamp_timeout : ℕ → ℕ
clamp_timeout timeout_ms = min (max timeout_ms 1) 300000

abbrev pub send_failure : ℕ → TaskSendError → NodegetError
send_failure uuid (not_connected _) = agent_offline (agent_not_connected uuid)
send_failure uuid (queue_full _) = agent_connection_error (sending_task_event uuid)

module _ {U R J : Type 0} (json : TaskSerde U R J) where
  abbrev pub Call : Type 0 → Type 0
  Call A = Server U R J → Result A × Server U R J

  abbrev pub refuse : {A : Type 0} → Result (Unit {0}) → Call A → Call A
  refuse (ok _) rest s = rest s
  refuse (err e) rest s = (err e, s)

  abbrev pub with_manager : TaskManager U R → Server U R J → Server U R J
  with_manager m s = record { rows = s.rows; next_id = s.next_id; manager = m }

  abbrev pub with_rows : List (Row J) → Server U R J → Server U R J
  with_rows rows s = record { rows = rows; next_id = s.next_id; manager = s.manager }

  -- The new row of a task.
  abbrev pub new_row : ℕ → ℕ → Text → ℤ → TaskEventType U → Row J
  new_row id uuid token now task_type = record {
    id = id;
    uuid = uuid;
    token = token;
    cron_source = none;
    timestamp = none;
    success = none;
    error_message = none;
    task_event_type = json.encode_type task_type;
    task_event_result = none;
    created_at = some now;
  }

  abbrev pub insert_task : ℕ → Text → ℤ → TaskEventType U → Server U R J → Server U R J
  insert_task uuid token now task_type s = record {
    rows = s.rows ++ new_row s.next_id uuid token now task_type ∷ [];
    next_id = suc s.next_id;
    manager = s.manager;
  }

  -- `delete_by_id`
  abbrev pub delete_task : ℕ → Server U R J → Server U R J
  delete_task id s = with_rows (keep (λ r. not (r.id == id)) s.rows) s

  -- A task that cannot be sent is taken back.
  abbrev pub sent_or_taken_back :
      ℕ → ℕ → Option TaskSendError × TaskManager U R → Server U R J → Result ℕ × Server U R J
  sent_or_taken_back uuid id (none, m) s = (ok id, with_manager m s)
  sent_or_taken_back uuid id (some e, m) s =
      (err (send_failure uuid e), delete_task id (with_manager m s))

  abbrev pub event_of : ℕ → Text → TaskEventType U → TaskEvent U
  event_of id token task_type = record {
    task_id = id;
    task_token = token;
    task_event_type = task_type;
  }

  abbrev pub dispatch : ℕ → Text → ℤ → TaskEventType U → Call ℕ
  dispatch uuid token now task_type s =
      sent_or_taken_back uuid s.next_id
        (send_event uuid (event_of s.next_id token task_type) s.manager)
        (insert_task uuid token now task_type s)

  -- The checks of the two methods, with the permissions they ask for.
  abbrev pub check_create :
      World → Text → ℕ → TaskEventType U → List Permission → NodegetError → Result (Unit {0})
  check_create w token target_uuid task_type permissions denial =
      validate_task_type task_type
      >> (parse_token token >>= λ c.
          get_checker w >> check_task_limit w c target_uuid permissions denial)

  abbrev pub create_permissions : TaskEventType U → List Permission
  create_permissions task_type = Permission.task (Task.create (task_name task_type)) ∷ []

  abbrev pub blocking_permissions : TaskEventType U → List Permission
  blocking_permissions task_type =
      Permission.task (Task.create (task_name task_type))
      ∷ Permission.task (Task.read (task_name task_type))
      ∷ []

  abbrev pub when_connected : {A : Type 0} → ℕ → Call A → Call A
  when_connected uuid rest s = refuse (connected_or uuid (is_connected uuid s.manager)) rest s

  unfoldable pub create_task : World → Text → ℤ → Text → ℕ → TaskEventType U → Call ℕ
  create_task w task_token now token target_uuid task_type =
      refuse
        (check_create w token target_uuid task_type (create_permissions task_type)
          (permission_denied (no_task_create_permission (task_name task_type))))
        (when_connected target_uuid (dispatch target_uuid task_token now task_type))

  abbrev pub sent_or_unregistered :
      ℕ → ℕ → Option TaskSendError × TaskManager U R → Server U R J → Result ℕ × Server U R J
  sent_or_unregistered uuid id (none, m) s = (ok id, with_manager m s)
  sent_or_unregistered uuid id (some e, m) s =
      (err (send_failure uuid e), delete_task id (with_manager (remove_blocking_waiter id m) s))

  abbrev pub dispatch_waiting : ℕ → Text → ℤ → TaskEventType U → Call ℕ
  dispatch_waiting uuid token now task_type s =
      sent_or_unregistered uuid s.next_id
        (send_event uuid (event_of s.next_id token task_type)
          (register_blocking_waiter s.next_id s.manager))
        (insert_task uuid token now task_type s)

  -- `create_task_blocking` up to the wait, with the key of the task.
  unfoldable pub create_task_blocking : World → Text → ℤ → Text → ℕ → TaskEventType U → Call ℕ
  create_task_blocking w task_token now token target_uuid task_type =
      refuse
        (check_create w token target_uuid task_type (blocking_permissions task_type)
          (permission_denied (no_task_create_or_read_permission (task_name task_type))))
        (when_connected target_uuid (dispatch_waiting target_uuid task_token now task_type))

  -- The wait looks for the answer before the clock: `none` while there is neither.
  unfoldable pub finish_blocking :
      ℕ → ℕ → ℕ → Server U R J → Option (Result (TaskEventResponse R)) × Server U R J
  finish_blocking task_id timeout_ms elapsed s =
      elim (find ℕ_discrete task_id (s.manager).answers) [
        | some response ↦ (some (ok response), s)
        | none ↦
            if leb (clamp_timeout timeout_ms) elapsed
            then (
              some (err (other (task_timed_out task_id timeout_ms))),
              with_manager (remove_blocking_waiter task_id s.manager) s,
            )
            else (none, s)
      ]
