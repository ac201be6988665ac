-- ===== src/Crontab/Scheduler.antt =====
-- crates/ng-crontab/src/server_cron.rs: the tick of the scheduler, its sleep, and the changes by name. A
-- tick runs as one step. Errors of the connection are left out, but for the update that the scheduler
-- survives.
pub mod Ran
pub mod Again
pub mod Last
pub mod Due
pub mod Deadline
use node_get.Prelude.{
  ℕ, suc, ◌+◌, ◌-◌, ◌*◌, ◌/◌, Bool, true, false, List, [], ◌∷◌, ◌++◌, Option, none, some, any, keep,
  map, min, ltb, leb, ◌==◌, ℕ_discrete, if◌then◌else◌,
}
use node_get.Text.{Text, text_eq}
use node_get.Keyed.{find, put, erase}
use node_get.Crontab.Cache.{
  nanos_per_milli, millis, CrontabRow, Cron, CachedCrontab, CrontabCache, get_enabled_entries,
  remove_by_name, effective_last, job_of, advance_all, upsert, reload_from_models,
}

-- The table and the cache.
pub record CronServer (S K J : Type 0) : Type 0 where
  pub rows : List (CrontabRow J)
  pub cache : CrontabCache S K J

-- What happens to the scheduler: a tick at an instant, with whether the update of the table succeeds;
-- a row that is written; a deletion and a switch by name; a reload.
pub data CronEvent (J : Type 0) : Type 0 where
  tick : ℕ → Bool → CronEvent J
  upsert_row : CrontabRow J → CronEvent J
  delete_by_name : Text → CronEvent J
  set_enable_by_name : Text → Bool → CronEvent J
  reload : CronEvent J

abbrev pub or_instant : ℕ → Option ℕ → ℕ
or_instant fallback none = fallback
or_instant fallback (some instant) = instant

abbrev pub is_reached : ℕ → Option ℕ → Bool
is_reached now none = false
is_reached now (some next_run) = leb next_run now

abbrev pub earlier : Option ℕ → ℕ → ℕ
earlier none next_run = next_run
earlier (some e) next_run = if ltb next_run e then next_run else e

abbrev pub earliest_of : Option ℕ → Option ℕ → Option ℕ
earliest_of earliest none = earliest
earliest_of earliest (some next_run) = some (earlier earliest next_run)

module _ (timestamp_millis_opt : ℕ → Option ℕ) where
  -- A job that never ran counts as run one second ago.
  abbrev pub last_instant : ℕ → ℕ → Option ℕ → ℕ
  last_instant fallback now none = now - 1000 * nanos_per_milli
  last_instant fallback now (some t) = or_instant fallback (timestamp_millis_opt t)

module _ {J : Type 0} where
  -- The row with this id is replaced, or added.
  unfoldable pub write_row : CrontabRow J → List (CrontabRow J) → List (CrontabRow J)
  write_row model [] = model ∷ []
  write_row model (row ∷ rows) =
      if row.id == model.id then model ∷ rows else row ∷ write_row model rows

  unfoldable pub find_named : Text → List (CrontabRow J) → Option (CrontabRow J)
  find_named name [] = none
  find_named name (row ∷ rows) = if text_eq row.name name then some row else find_named name rows

module _ {K J : Type 0} where
  abbrev pub set_last_run : List (Cron K) → ℕ → CrontabRow J → CrontabRow J
  set_last_run due now_millis row =
      if any (λ job. job.id == row.id) due
      then record row { last_run_time = some now_millis }
      else row

  abbrev pub write_last_run : Bool → List (Cron K) → ℕ → List (CrontabRow J) → List (CrontabRow J)
  write_last_run false due now_millis rows = rows
  write_last_run true due now_millis rows = map (set_last_run due now_millis) rows

module _ {S K J : Type 0} where
  abbrev pub delete_crontab_by_name : Text → CronServer S K J → CronServer S K J
  delete_crontab_by_name name s =
      if any (λ row. text_eq row.name name) s.rows
      then record {
        rows = keep (λ row. if text_eq row.name name then false else true) s.rows;
        cache = remove_by_name name s.cache;
      }
      else s

module _ {S K J : Type 0} (from_str : Text → Option S) (from_value : J → Option K) where
  abbrev pub write_and_upsert : CrontabRow J → CronServer S K J → CronServer S K J
  write_and_upsert model s = record {
    rows = write_row model s.rows;
    cache = upsert from_str from_value model s.cache;
  }

  abbrev pub enable_found : Bool → Option (CrontabRow J) → CronServer S K J → CronServer S K J
  enable_found enable none s = s
  enable_found enable (some model) s = write_and_upsert (record model { enable = enable }) s

  abbrev pub set_crontab_enable_by_name : Text → Bool → CronServer S K J → CronServer S K J
  set_crontab_enable_by_name name enable s = enable_found enable (find_named name s.rows) s

module _ {S K J : Type 0} (after : S → ℕ → Option ℕ) (timestamp_millis_opt : ℕ → Option ℕ) where
  -- A stored time that chrono refuses counts as the epoch.
  abbrev pub should_run : ℕ → CrontabCache S K J → CachedCrontab S K J → Bool
  should_run now cache entry =
      is_reached now (
        after entry.schedule (last_instant timestamp_millis_opt 0 now (effective_last entry cache)))

  abbrev pub due_jobs : ℕ → CrontabCache S K J → List (Cron K)
  due_jobs now cache = map (job_of cache) (keep (should_run now cache) (get_enabled_entries cache))

  -- The jobs that are run, and the server afterwards.
  unfoldable pub process_crontab : ℕ → Bool → CronServer S K J → List (Cron K) × CronServer S K J
  process_crontab now written s =
      let due = due_jobs now s.cache in
      (
        due,
        record {
          rows = write_last_run written due (millis now) s.rows;
          cache = advance_all due (millis now) s.cache;
        },
      )

  -- Here a stored time that chrono refuses counts as now.
  abbrev pub next_of : ℕ → CrontabCache S K J → CachedCrontab S K J → Option ℕ
  next_of now cache entry =
      after entry.schedule (last_instant timestamp_millis_opt now now (effective_last entry cache))

  unfoldable pub earliest_run :
      ℕ → CrontabCache S K J → Option ℕ → List (CachedCrontab S K J) → Option ℕ
  earliest_run now cache earliest [] = earliest
  earliest_run now cache earliest (entry ∷ jobs) =
      earliest_run now cache (earliest_of earliest (next_of now cache entry)) jobs

  -- The milliseconds to sleep, at most 60 seconds.
  unfoldable pub compute_next_deadline : ℕ → CrontabCache S K J → ℕ
  compute_next_deadline now cache =
      min
        ((or_instant (now + 60000 * nanos_per_milli)
              (earliest_run now cache none (get_enabled_entries cache))
            - now)
          / nanos_per_milli)
        60000

module _ {S K J : Type 0} (from_str : Text → Option S) (from_value : J → Option K)
    (after : S → ℕ → Option ℕ) (timestamp_millis_opt : ℕ → Option ℕ) where
  unfoldable pub run_event : CronEvent J → CronServer S K J → CronServer S K J
  run_event (tick now written) s = (process_crontab after timestamp_millis_opt now written s).1
  run_event (upsert_row model) s = write_and_upsert from_str from_value model s
  run_event (delete_by_name name) s = delete_crontab_by_name name s
  run_event (set_enable_by_name name enable) s =
      set_crontab_enable_by_name from_str from_value name enable s
  run_event reload s = record {
    rows = s.rows;
    cache = reload_from_models from_str from_value s.rows s.cache;
  }

  unfoldable pub run_events : List (CronEvent J) → CronServer S K J → CronServer S K J
  unfolding run_event
  run_events [] s = s
  run_events (e ∷ es) s = run_events es (run_event e s)
