-- ===== src/Lib.antt =====
-- NodeGet: the parts of the server that decide who may do what, and the states behind them.
--
-- A client sends a credential with each call. crates/ng-core/src/permission/token_auth.rs reads it,
-- crates/ng-token finds its token in a cache of the token table and compares the token's limits with
-- what the call needs, and the component that is called, such as crates/ng-kv, reads or writes its
-- rows. Agents report counters, which crates/ng-monitoring turns into totals; they
-- run tasks, which crates/ng-task sends and whose results it records. crates/ng-static keeps buckets of
-- files below one directory.
--
-- Prelude, Text, Dict, Keyed: numbers, lists, strings as lists of code points, and maps.
-- Error (crates/ng-core/src/error.rs): the errors; a message is a constructor for its format string.
-- Permission (crates/ng-core/src/permission/data_structure.rs): tokens, limits, scopes, permissions.
-- Token/Match (crates/ng-token/src/get.rs): `wildcard_matches_pattern`, `permission_matches`,
--   `scope_matches`, `check_limits_cover`; Wildcard and Cover say what they decide.
-- Token/Limits (get.rs): `parse_token_limit_with_compat` on the JSON column, `serde_json` a parameter.
-- Token/Cache (crates/ng-token/src/cache.rs): the indices and `build_maps`, and the hexadecimal hashes.
-- Token/Auth (token_auth.rs, super_token.rs, cache.rs, get.rs): `from_full_token`,
--   `check_super_token`, `get_token`, `authenticate`, `check_token_limit`, `reload_from_models`. The
--   globals that these functions read, the clock and SHA-256 are the record `World`.
-- Kv/Table (crates/ng-kv/src/db.rs): the rows of the table `kv` and the operations, with View, the map
--   of maps that they implement. Kv/Auth (auth.rs, reserved.rs): the permission checks. Kv/Rpc (rpc/):
--   the methods, which compose the guard, the check and the operation.
-- Crontab (crates/ng-crontab/src): the cache of jobs (cache.rs) and the scheduler (server_cron.rs), with
--   the crate `cron` as a parameter; `run_events` is any sequence of ticks and changes of the table.
-- Static (crates/ng-static/src): StdPath is `std::path` on Unix as the crate uses it; Validate
--   (ops.rs) the checks of names and directories and `resolve_safe_file_path`; Bucket (ops.rs, cache.rs)
--   the table of buckets with its cache; File (ops.rs) uploading, reading, deleting and renaming over
--   a disk that is a parameter; Walk (ops.rs) `collect_files`; Rpc (auth.rs, rpc/) the methods.
-- Monitoring/Uuid (crates/ng-monitoring/src/monitoring_uuid_cache.rs): the cache of the table
--   `monitoring_uuid`. A call is a `Phase` that says what it does next, and `step` does what the code does
--   up to the next await; `run_events` interleaves the steps of calls in any order.
-- Task (crates/ng-task/src): the types (types/mod.rs); Manager (rpc/mod.rs) the sessions of the agents
--   and the waiting calls of `TaskManager`; Rpc (rpc/create_task.rs, create_task_blocking.rs) and Upload
--   (rpc/upload_task_result.rs) the methods; Recorded the sequences of calls. A blocking call is two
--   functions, one up to its wait and `finish_blocking` after it, so that other calls come between.
-- Token/Table: the table `token` with its unique columns; Token/Generate (generate_token.rs) and
--   Token/Admin (rpc/, super_token.rs) the calls that change it. A call computes the rows that it leaves,
--   or its error, and `commit` writes them and reloads the cache; random strings are arguments.
-- Token/Guard: the beginning that the methods of ng-static and ng-task share.
-- Monitoring/Traffic (crates/ng-monitoring/src/traffic_stats.rs): the totals; Report is
--   `State::apply_report`, Flush the rows that are written and loaded, and the retry of a failed write.
-- The modules called Tests apply the results to small inputs.
--
-- The loop of `collect_files` over its queue takes fuel; more fuel than the tree has directories is
-- enough. Every other loop of the modelled code runs over a list. A `u64` is a natural number with its
-- saturation or cast written out, an `i64` an integer; a subtraction of two `i64` wraps around as in a
-- release build. A UUID is a number, and a key of the tables for buckets and tasks a natural number.
--
-- Not modelled: logging, JSON encoding of answers, poisoned locks, constant-time comparison (a
-- comparison here has only its result), the HTTP and WebDAV router of ng-static, the methods and the
-- dispatch of jobs of ng-crontab, the other caches and the queries of ng-monitoring, and the crates for
-- scripts, terminals, the database, configuration and start-up, which are connections, I/O and glue
-- around these parts. A database answers every query, but for the writes of the traffic totals and of
-- the last run of jobs, which may fail; the listing of a directory is of a tree that does not change
-- meanwhile. A path is its components: what it leads to through symbolic links is up to the disk.
pub mod Prelude
pub mod Text
pub mod Error
pub mod Permission
pub mod Dict
pub mod Keyed
pub mod Token
pub mod Kv
pub mod Static
pub mod Task
pub mod Monitoring
pub mod Crontab
