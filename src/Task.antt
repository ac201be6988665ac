-- ===== src/Task.antt =====
-- crates/ng-task/src/types/mod.rs: the tasks and their results. `U` is the type of the URLs, from the
-- crate `url`, and `R` that of the results, which the server only stores.
pub mod Manager
pub mod Rpc
pub mod Upload
pub mod Recorded
pub mod Tests
use node_get.Prelude.{ℕ, Bool, true, false, List, Option, ltb, if◌then◌else◌, ◌^◌}
use node_get.Prelude.Int.{ℤ, pos, ◌-ℤ◌}
use node_get.Text.{Text, codes}

pub record WebShellTask (U : Type 0) : Type 0 where
  pub url : U
  pub terminal_id : ℕ

pub record ExecuteTask : Type 0 where
  pub cmd : Text
  pub args : List Text

pub record HttpRequestTask (U : Type 0) : Type 0 where
  pub url : U
  pub method : Text
  pub headers : List (Text × Text)
  pub body : Option Text
  pub body_base64 : Option Text
  pub ip : Option Text

pub data DnsRecordType : Type 0 where
  a aaaa cname mx txt ns srv ptr soa caa : DnsRecordType

pub record DnsTask : Type 0 where
  pub domain : Text
  pub record_types : List DnsRecordType
  pub dns_server : Option Text

pub data TaskEventType (U : Type 0) : Type 0 where
  ping tcp_ping : Text → TaskEventType U
  http_ping : U → TaskEventType U
  web_shell : WebShellTask U → TaskEventType U
  execute : ExecuteTask → TaskEventType U
  http_request : HttpRequestTask U → TaskEventType U
  dns : DnsTask → TaskEventType U
  read_config : TaskEventType U
  edit_config : Text → TaskEventType U
  ip version : TaskEventType U
  self_update : Text → TaskEventType U

unfoldable pub task_name : {U : Type 0} → TaskEventType U → Text
task_name (ping _) = codes "ping"
task_name (tcp_ping _) = codes "tcp_ping"
task_name (http_ping _) = codes "http_ping"
task_name (web_shell _) = codes "web_shell"
task_name (execute _) = codes "execute"
task_name (http_request _) = codes "http_request"
task_name (dns _) = codes "dns"
task_name (edit_config _) = codes "edit_config"
task_name read_config = codes "read_config"
task_name ip = codes "ip"
task_name version = codes "version"
task_name (self_update _) = codes "self_update"

pub record TaskEvent (U : Type 0) : Type 0 where
  pub task_id : ℕ
  pub task_token : Text
  pub task_event_type : TaskEventType U

pub record TaskEventResponse (R : Type 0) : Type 0 where
  pub task_id : ℕ
  pub agent_uuid : ℕ
  pub task_token : Text
  pub timestamp : ℕ
  pub success : Bool
  pub error_message : Option Text
  pub task_event_result : Option R

-- A row of the table `task`; `J` is the type of JSON values. Keys are positive.
pub record Row (J : Type 0) : Type 0 where
  pub id : ℕ
  pub uuid : ℕ
  pub token : Text
  pub cron_source : Option Text
  pub timestamp : Option ℤ
  pub success : Option Bool
  pub error_message : Option Text
  pub task_event_type : J
  pub task_event_result : Option J
  pub created_at : Option ℤ

-- `u64::cast_signed`
unfoldable pub cast_signed : ℕ → ℤ
cast_signed n = if ltb n (2 ^ 63) then pos n else pos n -ℤ pos (2 ^ 64)
