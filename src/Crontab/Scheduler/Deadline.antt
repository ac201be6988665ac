-- ===== src/Crontab/Scheduler/Deadline.antt =====
-- The scheduler never sleeps past the next instant of a job.
use node_get.Prelude.{ℕ, ◌≡◌, ◌⊎◌, ◌≤◌, ◌<◌, ◌+◌, ◌-◌, ◌*◌, List, Option, some, Member}
use node_get.Crontab.Cache.{CachedCrontab, CrontabCache, get_enabled_entries, nanos_per_milli}
use node_get.Crontab.Scheduler.Due.{IsNext}
use node_get.Crontab.Scheduler.Last.{IsLast}
use node_get.Crontab.Scheduler.{next_of}

module _ {S K J : Type 0} (after : S → ℕ → Option ℕ) (timestamp_millis_opt : ℕ → Option ℕ) (now : ℕ)
    (cache : CrontabCache S K J) where
  -- The result is there, and not after the instant.
  abbrev Before : Option ℕ → ℕ → Type 0
  Before o n = (r : ℕ) × (o ≡ some r) × (r ≤ n)

  -- What `earliest_run` finds is the next instant of one of the jobs.
  abbrev NextOfOne : List (CachedCrontab S K J) → ℕ → Type 0
  NextOfOne jobs n =
      (entry : CachedCrontab S K J) × Member entry jobs
      × (next_of after timestamp_millis_opt now cache entry ≡ some n)

module _ {S K J : Type 0} (Occurs : S → ℕ → Type 0) (after : S → ℕ → Option ℕ)
    (next : IsNext Occurs after) (timestamp_millis_opt : ℕ → Option ℕ) (now : ℕ)
    (cache : CrontabCache S K J) where
  -- An enabled job and an instant of its schedule after its last run, where a time that chrono
  -- refuses counts as now.
  abbrev pub IsPending : CachedCrontab S K J → ℕ → Type 0
  IsPending entry n =
      Member entry (get_enabled_entries cache)
      × Occurs entry.schedule n
      × ((last : ℕ) × IsLast timestamp_millis_opt now now cache entry last × (last < n))

  -- The sleep is the whole one, or ends in the millisecond of a pending instant.
  abbrev pub EndsAt : ℕ → Type 0
  EndsAt sleep =
      (sleep ≡ 60000)
      ⊎ ((entry : CachedCrontab S K J) × (n : ℕ) × IsPending entry n
          × (n - now < (sleep + 1) * nanos_per_milli))
