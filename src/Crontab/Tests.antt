-- ===== src/Crontab/Tests.antt =====
-- The theorems on the scheduler with a job that occurs at every instant.
use node_get.Prelude.{
  ℕ, suc, ◌≡◌, refl, ◌≤◌, ◌<◌, ◌*◌, ◌↔◌, true, false, List, [], ◌∷◌, Option, none, some, Member,
  max, inl, keep, ℕ_discrete, arith, leb, if◌then◌else◌,
}
use node_get.Text.{Text, codes}
use node_get.Keyed.{find, put}
use node_get.Crontab.Cache.{
  nanos_per_milli, CrontabRow, Cron, CachedCrontab, CrontabCache, get_enabled_entries, job_of,
  advance_all, build_maps,
}
use node_get.Crontab.Scheduler.{
  CronServer, CronEvent, tick, upsert_row, reload, should_run, process_crontab, run_events,
  write_row,
}
use node_get.Crontab.Scheduler.Due.{IsNext, Missed, should_run_iff}
use node_get.Crontab.Scheduler.Last.{IsLast}
use node_get.Crontab.Scheduler.Again.{process_crontab_again}

-- A stand-in for the crate `cron`: every instant from a start on.
abbrev after : ℕ → ℕ → Option ℕ
after s t = some (max s (suc t))

abbrev Occurs : ℕ → ℕ → Type 0
Occurs s n = s ≤ n

after-IsNext : IsNext Occurs after
after-IsNext = record {
  later = λ s t n h. (ground (arith, h), ground (arith, h));
  first = λ s t m o l. (max s (suc t), refl, omega (arith, o, l));
}

abbrev from_str : Text → Option ℕ
from_str expression = some 0

abbrev from_value : ℕ → Option ℕ
from_value value = some value

abbrev horizon : ℕ
horizon = 1000000000

abbrev from_millis : ℕ → Option ℕ
from_millis t = if leb t horizon then some (t * nanos_per_milli) else none

from_millis-converts : (t : ℕ) → t ≤ horizon → from_millis t ≡ some (t * nanos_per_milli)
from_millis-converts t h = ground (arith, h)

abbrev backup : CrontabRow ℕ
backup = record {
  id = 1;
  name = codes "backup";
  enable = true;
  cron_expression = codes "* * * * * *";
  cron_type = 7;
  last_run_time = none;
}

abbrev entry : CachedCrontab ℕ ℕ ℕ
entry = record { model = backup; schedule = 0; cron_type = 7 }

abbrev cache : CrontabCache ℕ ℕ ℕ
cache = record { by_id = (1, entry) ∷ []; last_run_times = [] }

abbrev server : CronServer ℕ ℕ ℕ
server = record { rows = backup ∷ []; cache = cache }

abbrev seconds : ℕ → ℕ
seconds n = n * 1000000000

should_run_iff_example : (should_run after from_millis (seconds 5) cache entry ≡ true) ↔ (
    (last : ℕ) × IsLast from_millis 0 (seconds 5) cache entry last
    × Missed Occurs after after-IsNext 0 last (seconds 5))
should_run_iff_example =
    should_run_iff Occurs after after-IsNext from_millis (seconds 5) cache entry

-- The update of the table fails, then the cache is reloaded from the table.
abbrev events : List (CronEvent ℕ)
events =
    reload
    ∷ upsert_row (record backup { id = 2; name = codes "other" })
    ∷ tick (seconds 6) true
    ∷ []

abbrev first_tick : List (Cron ℕ) × CronServer ℕ ℕ ℕ
first_tick = process_crontab after from_millis (seconds 5) false server

abbrev later_server : CronServer ℕ ℕ ℕ
later_server = run_events from_str from_value after from_millis events first_tick.1

-- The schedule has no instant between a tick and one at the same time: the job does not run again.
not_again : (process_crontab after from_millis (seconds 6) true later_server).0 ≡ []
unfolding process_crontab run_events advance_all build_maps find put write_row keep ℕ_discrete
not_again = refl

process_crontab_again_example :
    (e : CachedCrontab ℕ ℕ ℕ) × Member e (get_enabled_entries later_server.cache)
    × (e.model.id ≡ 1)
    × ((n : ℕ) × Occurs e.schedule n × (seconds 5 < n) × (n ≤ seconds 7))
unfolding process_crontab run_events advance_all build_maps find put write_row keep ℕ_discrete
process_crontab_again_example =
    process_crontab_again Occurs after after-IsNext from_millis horizon from_millis-converts
      from_str from_value 1 (seconds 5) (seconds 7) false true server events (omega arith)
      (job_of cache entry, inl refl, refl) (tt, (tt, ((omega arith, omega arith), tt)))
      (job_of later_server.cache entry, inl refl, refl)
