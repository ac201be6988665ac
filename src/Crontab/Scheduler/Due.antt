-- ===== src/Crontab/Scheduler/Due.antt =====
-- Which jobs a tick runs.
use node_get.Prelude.{ℕ, ◌≡◌, refl, sym, subst, ◌↔◌, ◌≤◌, ◌<◌, true, Option, none, some, arith}
use node_get.Crontab.Cache.{CachedCrontab, CrontabCache, effective_last}
use node_get.Crontab.Scheduler.{last_instant, is_reached, should_run}
use node_get.Crontab.Scheduler.Last.{IsLast, last_instant-IsLast, IsLast-unique}

-- `Schedule::after(&t).next()` of the crate `cron`: the first of the schedule's instants after t.
pub record IsNext {S : Type 0} (Occurs : S → ℕ → Type 0) (after : S → ℕ → Option ℕ) : Type 0 where
  pub later : (s : S) (t n : ℕ) → after s t ≡ some n → (t < n) × Occurs s n
  pub first : (s : S) (t m : ℕ) → Occurs s m → t < m → (n : ℕ) × (after s t ≡ some n) × (n ≤ m)

module _ {S : Type 0} (Occurs : S → ℕ → Type 0) (after : S → ℕ → Option ℕ)
    (next : IsNext Occurs after) where
  -- An instant of the schedule after the last run that is not after now.
  abbrev pub Missed : S → ℕ → ℕ → Type 0
  Missed s last now = (n : ℕ) × Occurs s n × (last < n) × (n ≤ now)

  reached-Missed :
      (s : S) (last now : ℕ) (o : Option ℕ)
      → after s last ≡ o
      → is_reached now o ≡ true
      → Missed s last now
  reached-Missed s last now none e h = cc h
  reached-Missed s last now (some n) e h =
      let (t, at) = next.later s last n e in (n, at, t, ground (arith, h))

  Missed-reached : (s : S) (last now : ℕ) → Missed s last now → is_reached now (after s last) ≡ true
  Missed-reached s last now (m, at, t, le) =
      let (n, e, n_le) = next.first s last m at t in ground (arith, e, n_le, le)

  -- With the crate cron giving the next instant of a schedule: an entry is due exactly when its
  -- schedule has an instant after its last run and not after now, where the last run is the time
  -- in memory, or else in its row, the epoch if chrono refuses this time, and one second ago if
  -- there is none.
  pub should_run_iff :
      {K J : Type 0} (timestamp_millis_opt : ℕ → Option ℕ) (now : ℕ) (cache : CrontabCache S K J)
      (entry : CachedCrontab S K J)
      → (should_run after timestamp_millis_opt now cache entry ≡ true) ↔ (
          (last : ℕ) × IsLast timestamp_millis_opt 0 now cache entry last
          × Missed entry.schedule last now)
  should_run_iff timestamp_millis_opt now cache entry =
      let last = last_instant timestamp_millis_opt 0 now (effective_last entry cache) in
      (
        λ h. (
          last,
          last_instant-IsLast timestamp_millis_opt 0 now cache entry,
          reached-Missed entry.schedule last now (after entry.schedule last) refl h,
        ),
        λ (l, is_last, missed). Missed-reached entry.schedule last now (
            subst (λ x. Missed entry.schedule x now)
              (sym (IsLast-unique timestamp_millis_opt 0 now cache entry l is_last)) missed),
      )
