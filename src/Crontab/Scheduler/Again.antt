-- ===== src/Crontab/Scheduler/Again.antt =====
-- A job that ran runs again only for another instant of its schedule.
use node_get.Prelude.{
  ℕ, ◌≡◌, refl, sym, ap, ◌∙◌, subst, ◌≤◌, ◌<◌, ◌*◌, Bool, true, List, [], ◌∷◌, Option, some, Member,
  keep, map, Bool-cases, inl, inr, arith, ℕ_discrete,
}
use node_get.Prelude.Pairs.{keep_yes, keep_no}
use node_get.Text.{Text}
use node_get.Keyed.{find}
use node_get.Crontab.Cache.{
  nanos_per_milli, millis, CachedCrontab, CrontabCache, get_enabled_entries, effective_last,
  or_else, job_of,
}
use node_get.Crontab.Scheduler.{
  CronServer, CronEvent, last_instant, or_instant, should_run, due_jobs, process_crontab,
  run_events,
}
use node_get.Crontab.Scheduler.Due.{IsNext, should_run_iff}
use node_get.Crontab.Scheduler.Last.{IsLast-unique}
use node_get.Crontab.Scheduler.Ran.{
  Runs, LastWithin, AllAllowed, Runs-LastWithin, run_events-LastWithin,
}

kept_of :
    {A B : Type 0} (f : A → B) (p : A → Bool) (xs : List A) (b : B)
    → Member b (map f (keep p xs))
    → (a : A) × Member a xs × (p a ≡ true) × (f a ≡ b)
unfolding keep
kept_of f p [] b m = elim m [ ]
kept_of f p (x ∷ xs) b m = elim (Bool-cases (p x)) [
  | inl e ↦ elim (subst (λ ys. Member b (map f ys)) (keep_yes p x xs e) m) [
    | inl same ↦ (x, inl refl, e, same)
    | inr below ↦ let (a, at, t, g) = kept_of f p xs b below in (a, inr at, t, g)
  ]
  | inr e ↦
      let (a, at, t, g) =
        kept_of f p xs b (subst (λ ys. Member b (map f ys)) (keep_no p x xs e) m) in
      (a, inr at, t, g)
]

module _ {S K J : Type 0} (Occurs : S → ℕ → Type 0) (after : S → ℕ → Option ℕ)
    (next : IsNext Occurs after) (timestamp_millis_opt : ℕ → Option ℕ) (horizon : ℕ)
    (converts : (t : ℕ) → t ≤ horizon → timestamp_millis_opt t ≡ some (t * nanos_per_milli)) where
  -- The instant that makes a job run that ran before.
  next_run :
      (k low now : ℕ) (cache : CrontabCache S K J)
      → LastWithin k low horizon cache
      → Runs k (due_jobs after timestamp_millis_opt now cache)
      → (entry : CachedCrontab S K J) × Member entry (get_enabled_entries cache)
        × (entry.model.id ≡ k)
        × ((n : ℕ) × Occurs entry.schedule n × (low * nanos_per_milli < n) × (n ≤ now))
  next_run k low now cache (t, e, tl, th) (job, m, same) =
      let (entry, at, due, of) =
        kept_of (job_of cache) (should_run after timestamp_millis_opt now cache)
          (get_enabled_entries cache) job m in
      let is_k : entry.model.id ≡ k = ap (λ j. j.id) of ∙ same in
      let last : effective_last entry cache ≡ some t =
        ap (λ o. or_else o entry.model.last_run_time)
          (ap (λ i. find ℕ_discrete i cache.last_run_times) is_k ∙ e) in
      let instant : last_instant timestamp_millis_opt 0 now (effective_last entry cache)
          ≡ t * nanos_per_milli =
        ap (last_instant timestamp_millis_opt 0 now) last ∙ ap (or_instant 0) (converts t th) in
      let (l, is_last, (n, occurs, later, reached)) =
        (should_run_iff Occurs after next timestamp_millis_opt now cache entry).0 due in
      let same_instant : l ≡ t * nanos_per_milli =
        sym (IsLast-unique timestamp_millis_opt 0 now cache entry l is_last) ∙ instant in
      (entry, at, is_k, (n, occurs, omega (arith, later, same_instant, tl), reached))

  -- With the crate cron giving the next instant of a schedule and chrono converting all times up
  -- to a horizon: if a tick runs a job and, after any ticks that are not before its millisecond
  -- and within the horizon, whether the table could be updated or not, writes of rows, switches,
  -- reloads and deletions of other jobs, a tick runs it again, then an enabled entry of this id
  -- has a schedule with an instant after the millisecond of the first tick and not after the last
  -- one.
  pub process_crontab_again :
      (from_str : Text → Option S) (from_value : J → Option K) (k now again : ℕ)
      (written written_again : Bool) (s : CronServer S K J) (es : List (CronEvent J))
      → millis now ≤ horizon
      → Runs k (process_crontab after timestamp_millis_opt now written s).0
      → AllAllowed from_str from_value after timestamp_millis_opt k
          (millis now)
          horizon
          es
          (process_crontab after timestamp_millis_opt now written s).1
      → Runs k
          (process_crontab after timestamp_millis_opt again written_again (
            run_events from_str from_value after timestamp_millis_opt es
              (process_crontab after timestamp_millis_opt now written s).1)).0
      → (entry : CachedCrontab S K J) × Member entry (
          get_enabled_entries
            (run_events from_str from_value after timestamp_millis_opt es
              (process_crontab after timestamp_millis_opt now written s).1).cache)
        × (entry.model.id ≡ k)
        × ((n : ℕ) × Occurs entry.schedule n × (millis now * nanos_per_milli < n) × (n ≤ again))
  unfolding process_crontab
  process_crontab_again from_str from_value k now again written written_again s es h ran allowed
        runs =
      next_run k (millis now) again _
        (run_events-LastWithin from_str from_value after timestamp_millis_opt k (millis now) horizon
          es _ allowed
          (Runs-LastWithin k (millis now) horizon (due_jobs after timestamp_millis_opt now s.cache)
            (millis now) s.cache (omega arith) h ran))
        runs
