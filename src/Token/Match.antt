-- ===== src/Token/Match.antt =====
-- crates/ng-token/src/get.rs: which grants cover which requests. Pure, no cache and no clock.
pub mod Wildcard
pub mod Scopes
pub mod Cover
pub mod Chain
pub mod Tests
use node_get.Prelude.{
  ℕ, Bool, true, false, ◌&&◌, ◌||◌, List, [], ◌∷◌, none, some, ◌==◌, if◌then◌else◌, any, not,
}
use node_get.Text.{Text, text_eq, starts_with, strip_suffix}
use node_get.Permission.{
  Scope, Limit, Permission, Kv, CrontabResult, JsResult, Task, permission_eq, permission_discrete,
}

unfoldable pub wildcard_matches_pattern : Text → Text → Bool
wildcard_matches_pattern value pattern = elim (strip_suffix pattern b'*') [
  | none ↦ text_eq value pattern
  | some prefix ↦ starts_with value prefix
]

kv_matches : Kv → Kv → Bool
kv_matches (Kv.read pattern) (Kv.read key) = wildcard_matches_pattern key pattern
kv_matches (Kv.write pattern) (Kv.write key) = wildcard_matches_pattern key pattern
kv_matches (Kv.delete pattern) (Kv.delete key) = wildcard_matches_pattern key pattern
kv_matches _ _ = false

crontab_result_matches : CrontabResult → CrontabResult → Bool
crontab_result_matches (CrontabResult.read pattern) (CrontabResult.read cron_name) =
    wildcard_matches_pattern cron_name pattern
crontab_result_matches (CrontabResult.delete pattern) (CrontabResult.delete cron_name) =
    wildcard_matches_pattern cron_name pattern
crontab_result_matches _ _ = false

js_result_matches : JsResult → JsResult → Bool
js_result_matches (JsResult.read pattern) (JsResult.read worker_name) =
    wildcard_matches_pattern worker_name pattern
js_result_matches (JsResult.delete pattern) (JsResult.delete worker_name) =
    wildcard_matches_pattern worker_name pattern
js_result_matches _ _ = false

task_matches : Task → Task → Bool
task_matches (Task.create pattern) (Task.create task_name) =
    wildcard_matches_pattern task_name pattern
task_matches (Task.read pattern) (Task.read task_name) = wildcard_matches_pattern task_name pattern
task_matches (Task.write pattern) (Task.write task_name) =
    wildcard_matches_pattern task_name pattern
task_matches (Task.delete pattern) (Task.delete task_name) =
    wildcard_matches_pattern task_name pattern
task_matches _ _ = false

-- The `match` on the pair of permissions, after the test for equality.
variant_matches : Permission → Permission → Bool
unfolding kv_matches crontab_result_matches js_result_matches task_matches
variant_matches (Permission.kv granted) (Permission.kv required) = kv_matches granted required
variant_matches (Permission.crontab_result granted) (Permission.crontab_result required) =
    crontab_result_matches granted required
variant_matches (Permission.js_result granted) (Permission.js_result required) =
    js_result_matches granted required
variant_matches (Permission.task granted) (Permission.task required) = task_matches granted required
variant_matches _ _ = false

unfoldable pub permission_matches : Permission → Permission → Bool
unfolding variant_matches
permission_matches granted required =
    if permission_eq granted required then true else variant_matches granted required

unfoldable pub scope_matches : Scope → Scope → Bool
scope_matches Scope.global _ = true
scope_matches (Scope.agent_uuid limit_id) (Scope.agent_uuid req_id) = limit_id == req_id
scope_matches (Scope.kv_namespace limit_ns) (Scope.kv_namespace req_ns) = text_eq limit_ns req_ns
scope_matches (Scope.js_worker limit_name) (Scope.js_worker req_name) =
    wildcard_matches_pattern req_name limit_name
scope_matches (Scope.static_bucket limit_name) (Scope.static_bucket req_name) =
    wildcard_matches_pattern req_name limit_name
scope_matches (Scope.db limit_name) (Scope.db req_name) =
    wildcard_matches_pattern req_name limit_name
scope_matches _ _ = false

-- `continue` on a limit whose scopes do not match, `return true` on one that covers both.
unfoldable pub check_limits_cover : List Limit → Scope → Permission → Bool
check_limits_cover [] req_scope req_perm = false
check_limits_cover (limit ∷ limits) req_scope req_perm =
    let rest = check_limits_cover limits req_scope req_perm in
    let scope_covered = any (λ limit_scope. scope_matches limit_scope req_scope) limit.scopes in
    if not scope_covered
    then rest
    else if any (λ perm. permission_matches perm req_perm) limit.permissions
    then true
    else rest
