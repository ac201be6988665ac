-- ===== src/Permission.antt =====
-- crates/ng-core/src/permission/data_structure.rs: tokens, limits, scopes and permissions.
use node_get.Prelude.{ℕ, Bool, true, false, List, Option}
use node_get.Prelude.Int.{ℤ}
use node_get.Text.{Text, text_discrete}

pub data Scope : Type 0 where
  global : Scope
  -- The UUID's 128 bits, as a number.
  agent_uuid : ℕ → Scope
  kv_namespace js_worker static_bucket db : Text → Scope

pub data StaticDataQueryField : Type 0 where
  cpu system gpu : StaticDataQueryField

pub data DynamicDataQueryField : Type 0 where
  cpu ram load system disk network gpu : DynamicDataQueryField

pub data StaticMonitoring : Type 0 where
  read : StaticDataQueryField → StaticMonitoring
  write delete : StaticMonitoring

pub data DynamicMonitoring : Type 0 where
  read : DynamicDataQueryField → DynamicMonitoring
  write delete : DynamicMonitoring

pub data DynamicMonitoringSummary : Type 0 where
  read write delete : DynamicMonitoringSummary

pub data Task : Type 0 where
  create read write delete : Text → Task
  listen : Task

pub data Crontab : Type 0 where
  read write delete : Crontab

pub data CrontabResult : Type 0 where
  read delete : Text → CrontabResult

pub data Kv : Type 0 where
  list_all_namespace list_all_keys : Kv
  read write delete : Text → Kv

pub data Terminal : Type 0 where
  connect : Terminal

pub data NodeGet : Type 0 where
  list_all_agent_uuid get_rt_pool delete_agent_uuid exec_sql get_database_type : NodeGet

pub data MonitoringUuid : Type 0 where
  list delete : MonitoringUuid

pub data JsWorker : Type 0 where
  list_all_js_worker create read write delete run_defined_js_worker run_raw_js_worker : JsWorker

pub data JsResult : Type 0 where
  read delete : Text → JsResult

pub data StaticBucket : Type 0 where
  read write delete : StaticBucket

pub data StaticBucketFile : Type 0 where
  read write delete list : StaticBucketFile

pub data Db : Type 0 where
  list read create update delete exec_sql : Db

pub data Permission : Type 0 where
  static_monitoring : StaticMonitoring → Permission
  dynamic_monitoring : DynamicMonitoring → Permission
  task : Task → Permission
  crontab : Crontab → Permission
  crontab_result : CrontabResult → Permission
  kv : Kv → Permission
  terminal : Terminal → Permission
  nodeget : NodeGet → Permission
  monitoring_uuid : MonitoringUuid → Permission
  js_worker : JsWorker → Permission
  js_result : JsResult → Permission
  dynamic_monitoring_summary : DynamicMonitoringSummary → Permission
  static_bucket : StaticBucket → Permission
  static_bucket_file : StaticBucketFile → Permission
  db : Db → Permission

pub record Limit : Type 0 where
  pub scopes : List Scope
  pub permissions : List Permission

pub record Token : Type 0 where
  pub version : ℤ
  pub token_key : Text
  pub timestamp_from : Option ℤ
  pub timestamp_to : Option ℤ
  pub token_limit : List Limit
  pub username : Option Text

-- The derived `==`.
unfoldable pub permission_discrete : Discrete Permission
unfolding text_discrete
permission_discrete = hlevel text_discrete

abbrev pub permission_eq : Permission → Permission → Bool
permission_eq p q = elim (permission_discrete p q) [ yes _ ↦ true | no _ ↦ false ]
