-- ===== src/Task/Tests.antt =====
-- The theorems on tasks, at a server with one agent whose queue is full, and one task.
use node_get.Prelude.{
  ◌≡◌, refl, inl, true, List, [], ◌∷◌, none, some, arith, ℕ_discrete, any, Member,
}
use node_get.Prelude.Int.{pos}
use node_get.Text.{Text, codes, text_discrete, split_once}
use node_get.Keyed.{find}
use node_get.Error.{Result, ok, err, agent_connection_error, sending_task_event}
use node_get.Token.Tests.{w, toy_encode}
use node_get.Token.Auth.{
  World, from_full_token, reload_from_models, check_super_token, check_token_limit,
}
use node_get.Token.Cache.{build_maps, insert_model, cached_token, hex_to_bytes}
use node_get.Task.{ping, Row, TaskEventResponse, cast_signed}
use node_get.Task.Manager.{
  is_connected, send_event, register_blocking_waiter, try_send, notify_blocking_waiter,
}
use node_get.Task.Rpc.{TaskSerde, Server, create_task_blocking, finish_blocking, validate_task_type}
use node_get.Task.Rpc.Failed.{IsFresh, Unchanged, create_task_blocking-failed, finish_blocking-ends}
use node_get.Task.Upload.{upload_task_result, check_any_task_write, find_row}
use node_get.Task.Upload.Allowed.{Permitted, upload_task_result-Permitted}
use node_get.Task.Recorded.{TaskCall, create, finish, upload, leave, serve, serve-settled}
use node_get.Task.Recorded.Answered.{InRows, finish_blocking-Recorded}

-- Tasks are stored as their names: every stored text is read as a ping.
abbrev json : TaskSerde Text Text Text
json = record {
  encode_type = λ t. codes "ping";
  decode_type = λ text. some (ping text);
  encode_result = λ r. r;
}

abbrev recorded_row : Row Text
recorded_row = record {
  id = 1;
  uuid = 5;
  token = codes "tt";
  cron_source = none;
  timestamp = some (pos 9);
  success = some true;
  error_message = none;
  task_event_type = codes "ping";
  task_event_result = some (codes "ok");
  created_at = some (pos 3);
}

abbrev open_row : Row Text
open_row = record {
  id = 2;
  uuid = 5;
  token = codes "uu";
  cron_source = none;
  timestamp = none;
  success = none;
  error_message = none;
  task_event_type = codes "ping";
  task_event_result = none;
  created_at = some (pos 4);
}

-- Agent 5 has a session whose channel has no room; the second task has a waiting call.
abbrev server : Server Text Text Text
server = record {
  rows = recorded_row ∷ open_row ∷ [];
  next_id = 3;
  manager = record {
    peers = (5, (7, 7)) ∷ [];
    channels = (7, record { queue = []; capacity = 0; is_open = true }) ∷ [];
    blocking_waiters = 2 ∷ [];
    answers = [];
  };
}

abbrev response : TaskEventResponse Text
response = record {
  task_id = 2;
  agent_uuid = 5;
  task_token = codes "uu";
  timestamp = 11;
  success = true;
  error_message = none;
  task_event_result = some (codes "12 ms");
}

abbrev root_token : Text
root_token = codes "root:r"

server-IsFresh : IsFresh w json server
server-IsFresh = ((omega arith, (omega arith, tt)), (omega arith, tt))

abbrev calls : List (World × TaskCall Text Text)
calls =
    (w, create (codes "vv") (pos 5) root_token 5 (ping (codes "1.1.1.1")))
    ∷ (w, upload root_token response)
    ∷ (w, leave 5 7)
    ∷ (w, finish 2 1000 20)
    ∷ []

serve-settled_example : Member recorded_row (serve json calls server).rows
serve-settled_example =
    serve-settled json calls server recorded_row true server-IsFresh.0 refl (inl refl)

uploaded : (upload_task_result json w root_token response server).0 ≡ ok 2
unfolding upload_task_result from_full_token split_once reload_from_models check_super_token
    build_maps insert_model text_discrete cached_token hex_to_bytes toy_encode check_token_limit
    check_any_task_write find_row cast_signed any
uploaded = refl

upload_task_result-Permitted_example : Permitted w json root_token response server.rows
upload_task_result-Permitted_example =
    upload_task_result-Permitted w json root_token response server 2 uploaded

answered :
    (finish_blocking json 2 1000 20 (serve json ((w, upload root_token response) ∷ []) server)).0
    ≡ some (ok response)
unfolding upload_task_result from_full_token split_once reload_from_models check_super_token
    build_maps insert_model text_discrete cached_token hex_to_bytes toy_encode check_token_limit
    check_any_task_write find_row cast_signed any finish_blocking find serve notify_blocking_waiter
    ℕ_discrete
answered = refl

finish_blocking-Recorded_example :
    InRows json (serve json ((w, upload root_token response) ∷ []) server).rows (2, response)
finish_blocking-Recorded_example =
    finish_blocking-Recorded json ((w, upload root_token response) ∷ []) server 2 1000 20 response
      server-IsFresh.0 tt answered

queue_is_full :
    (create_task_blocking json w
      (codes "vv")
      (pos 5)
      root_token
      5
      (ping (codes "1.1.1.1"))
      server).0
    ≡ err (agent_connection_error (sending_task_event 5))
unfolding create_task_blocking from_full_token split_once reload_from_models check_super_token
    build_maps insert_model text_discrete cached_token hex_to_bytes toy_encode check_token_limit
    validate_task_type is_connected find send_event register_blocking_waiter try_send ℕ_discrete
queue_is_full = refl

create_task_blocking-failed_example :
    Unchanged w json server
      (create_task_blocking json w
        (codes "vv")
        (pos 5)
        root_token
        5
        (ping (codes "1.1.1.1"))
        server).1
create_task_blocking-failed_example =
    create_task_blocking-failed w json (codes "vv") (pos 5) root_token 5 (ping (codes "1.1.1.1"))
      server (agent_connection_error (sending_task_event 5)) server-IsFresh queue_is_full

finish_blocking-ends_example :
    (r : Result (TaskEventResponse Text)) × ((finish_blocking json 2 999999999 300000 server).0
      ≡ some r)
finish_blocking-ends_example = finish_blocking-ends w json 2 999999999 300000 server (omega arith)
