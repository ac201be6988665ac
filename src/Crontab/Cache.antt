-- ===== src/Crontab/Cache.antt =====
-- crates/ng-crontab/src/cache.rs: the jobs in memory, with the times of their last runs.
use node_get.Prelude.{
  ℕ, ◌/◌, Bool, List, [], ◌∷◌, Option, none, some, keep, ℕ_discrete, if◌then◌else◌,
}
use node_get.Text.{Text, text_eq}
use node_get.Keyed.{find, put, erase}

abbrev pub nanos_per_milli : ℕ
nanos_per_milli = 1000000

-- `timestamp_millis`
abbrev pub millis : ℕ → ℕ
millis instant = instant / nanos_per_milli

-- crates/ng-db/src/entity/crontab.rs: a row.
pub record CrontabRow (J : Type 0) : Type 0 where
  pub id : ℕ
  pub name : Text
  pub enable : Bool
  pub cron_expression : Text
  pub cron_type : J
  pub last_run_time : Option ℕ

-- crates/ng-crontab/src/lib.rs: a job as it is run.
pub record Cron (K : Type 0) : Type 0 where
  pub id : ℕ
  pub name : Text
  pub enable : Bool
  pub cron_expression : Text
  pub cron_type : K
  pub last_run_time : Option ℕ

pub record CachedCrontab (S K J : Type 0) : Type 0 where
  pub model : CrontabRow J
  pub schedule : S
  pub cron_type : K

pub record CrontabCache (S K J : Type 0) : Type 0 where
  pub by_id : List (ℕ × CachedCrontab S K J)
  pub last_run_times : List (ℕ × ℕ)

abbrev pub or_else : Option ℕ → Option ℕ → Option ℕ
or_else none o = o
or_else (some t) o = some t

module _ {S K J : Type 0} where
  abbrev pub values : List (ℕ × CachedCrontab S K J) → List (CachedCrontab S K J)
  values [] = []
  values ((id, c) ∷ by_id) = c ∷ values by_id

  abbrev pub get_enabled_entries : CrontabCache S K J → List (CachedCrontab S K J)
  get_enabled_entries cache = keep (λ c. c.model.enable) (values cache.by_id)

  abbrev pub get_last_run_time : ℕ → Option ℕ → CrontabCache S K J → Option ℕ
  get_last_run_time id model_last cache =
      or_else (find ℕ_discrete id cache.last_run_times) model_last

  abbrev pub update_last_run_time : ℕ → ℕ → CrontabCache S K J → CrontabCache S K J
  update_last_run_time id timestamp cache = record {
    by_id = cache.by_id;
    last_run_times = put ℕ_discrete id timestamp cache.last_run_times;
  }

  abbrev pub remove : ℕ → CrontabCache S K J → CrontabCache S K J
  remove id cache = record {
    by_id = erase ℕ_discrete id cache.by_id;
    last_run_times = erase ℕ_discrete id cache.last_run_times;
  }

  unfoldable pub ids_named : Text → List (ℕ × CachedCrontab S K J) → List ℕ
  ids_named name [] = []
  ids_named name ((id, c) ∷ by_id) =
      let rest = ids_named name by_id in if text_eq c.model.name name then id ∷ rest else rest

  unfoldable pub remove_all : List ℕ → CrontabCache S K J → CrontabCache S K J
  remove_all [] cache = cache
  remove_all (id ∷ ids) cache = remove_all ids (remove id cache)

  abbrev pub remove_by_name : Text → CrontabCache S K J → CrontabCache S K J
  remove_by_name name cache = remove_all (ids_named name cache.by_id) cache

  abbrev pub effective_last : CachedCrontab S K J → CrontabCache S K J → Option ℕ
  effective_last entry cache = get_last_run_time entry.model.id entry.model.last_run_time cache

  abbrev pub job_of : CrontabCache S K J → CachedCrontab S K J → Cron K
  job_of cache entry = record {
    id = entry.model.id;
    name = entry.model.name;
    enable = entry.model.enable;
    cron_expression = entry.model.cron_expression;
    cron_type = entry.cron_type;
    last_run_time = effective_last entry cache;
  }

  -- `update_last_run_time` for each job that is due.
  unfoldable pub advance_all : List (Cron K) → ℕ → CrontabCache S K J → CrontabCache S K J
  advance_all [] now_millis cache = cache
  advance_all (job ∷ due) now_millis cache =
      advance_all due now_millis (update_last_run_time job.id now_millis cache)

module _ {S K J : Type 0} (from_str : Text → Option S) (from_value : J → Option K) where
  abbrev pub parsed_entry : CrontabRow J → Option S → Option K → Option (CachedCrontab S K J)
  parsed_entry model none t = none
  parsed_entry model (some s) none = none
  parsed_entry model (some s) (some k) =
      some (record { model = model; schedule = s; cron_type = k })

  abbrev pub parse_one : CrontabRow J → Option (CachedCrontab S K J)
  parse_one model = parsed_entry model (from_str model.cron_expression) (from_value model.cron_type)

  abbrev pub insert_parsed :
      Option (CachedCrontab S K J) → List (ℕ × CachedCrontab S K J) → List (ℕ × CachedCrontab S K J)
  insert_parsed none by_id = by_id
  insert_parsed (some c) by_id = put ℕ_discrete c.model.id c by_id

  unfoldable pub build_maps :
      List (CrontabRow J) → List (ℕ × CachedCrontab S K J) → List (ℕ × CachedCrontab S K J)
  build_maps [] by_id = by_id
  build_maps (model ∷ models) by_id = build_maps models (insert_parsed (parse_one model) by_id)

  abbrev pub reload_from_models : List (CrontabRow J) → CrontabCache S K J → CrontabCache S K J
  reload_from_models models cache = record {
    by_id = build_maps models [];
    last_run_times = cache.last_run_times;
  }

  abbrev pub replace_entry :
      ℕ
      → Option (CachedCrontab S K J)
      → List (ℕ × CachedCrontab S K J)
      → List (ℕ × CachedCrontab S K J)
  replace_entry id none by_id = erase ℕ_discrete id by_id
  replace_entry id (some c) by_id = put ℕ_discrete id c by_id

  abbrev pub upsert : CrontabRow J → CrontabCache S K J → CrontabCache S K J
  upsert model cache = record {
    by_id = replace_entry model.id (parse_one model) cache.by_id;
    last_run_times = cache.last_run_times;
  }
