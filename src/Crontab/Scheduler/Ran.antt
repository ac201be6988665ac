-- ===== src/Crontab/Scheduler/Ran.antt =====
-- The time in memory of the last run, from one event to the next.
use node_get.Prelude.{
  ℕ, ◌≡◌, ap, ◌∙◌, subst, ◌≤◌, Bool, List, [], ◌∷◌, Option, none, some, Member, any, inl, inr,
  if_case, ℕ_discrete,
}
use node_get.Text.{Text, text_eq}
use node_get.Keyed.{find, put, find-put_same, find-put_other, find-erase_other}
use node_get.Crontab.Cache.{
  millis, CrontabRow, Cron, CrontabCache, update_last_run_time, advance_all, ids_named, remove_all,
  remove,
}
use node_get.Crontab.Scheduler.{
  CronServer, CronEvent, tick, upsert_row, delete_by_name, set_enable_by_name, reload, find_named,
  due_jobs, process_crontab, enable_found, run_event, run_events,
}

-- A job of this id is among those that are run.
abbrev pub Runs : {K : Type 0} → ℕ → List (Cron K) → Type 0
Runs k due = (job : Cron _) × Member job due × (job.id ≡ k)

-- The time in memory of the last run.
abbrev pub LastWithin : {S K J : Type 0} → ℕ → ℕ → ℕ → CrontabCache S K J → Type 0
LastWithin k low high cache =
    (t : ℕ) × (find ℕ_discrete k cache.last_run_times ≡ some t) × (low ≤ t) × (t ≤ high)

module _ {S K J : Type 0} (k low high : ℕ) where
  update-LastWithin :
      (id now_millis : ℕ) (cache : CrontabCache S K J)
      → low ≤ now_millis
      → now_millis ≤ high
      → LastWithin k low high cache
      → LastWithin k low high (update_last_run_time id now_millis cache)
  update-LastWithin id now_millis cache l h (t, e, tl, th) = elim (ℕ_discrete id k) [
    | yes same ↦ (
      now_millis,
      subst
          (λ x.
            find ℕ_discrete x (put ℕ_discrete id now_millis cache.last_run_times) ≡ some now_millis)
          same (find-put_same ℕ_discrete id now_millis cache.last_run_times),
      l,
      h,
    )
    | no ne ↦ (t, find-put_other ℕ_discrete id k now_millis cache.last_run_times ne ∙ e, tl, th)
  ]

  advance_all-LastWithin :
      (due : List (Cron K)) (now_millis : ℕ) (cache : CrontabCache S K J)
      → low ≤ now_millis
      → now_millis ≤ high
      → LastWithin k low high cache
      → LastWithin k low high (advance_all due now_millis cache)
  unfolding advance_all
  advance_all-LastWithin [] now_millis cache l h w = w
  advance_all-LastWithin (job ∷ due) now_millis cache l h w =
      advance_all-LastWithin due now_millis (update_last_run_time job.id now_millis cache) l h
        (update-LastWithin job.id now_millis cache l h w)

  pub Runs-LastWithin :
      (due : List (Cron K)) (now_millis : ℕ) (cache : CrontabCache S K J)
      → low ≤ now_millis
      → now_millis ≤ high
      → Runs k due
      → LastWithin k low high (advance_all due now_millis cache)
  unfolding advance_all
  Runs-LastWithin [] now_millis cache l h (job, m, e) = elim m [ ]
  Runs-LastWithin (x ∷ due) now_millis cache l h (job, inr m, e) =
      Runs-LastWithin due now_millis (update_last_run_time x.id now_millis cache) l h (job, m, e)
  Runs-LastWithin (x ∷ due) now_millis cache l h (job, inl same, e) =
      advance_all-LastWithin due now_millis (update_last_run_time x.id now_millis cache) l h (
        now_millis,
        subst
            (λ i.
              find ℕ_discrete i (put ℕ_discrete x.id now_millis cache.last_run_times)
              ≡ some now_millis)
            (ap (λ j. j.id) same ∙ e)
            (find-put_same ℕ_discrete x.id now_millis cache.last_run_times),
        l,
        h,
      )

  remove_all-LastWithin :
      (ids : List ℕ) (cache : CrontabCache S K J)
      → (Member k ids → ⊥)
      → LastWithin k low high cache
      → LastWithin k low high (remove_all ids cache)
  unfolding remove_all
  remove_all-LastWithin [] cache n w = w
  remove_all-LastWithin (id ∷ ids) cache n (t, e, tl, th) =
      remove_all-LastWithin ids (remove id cache) (λ m. n (inr m))
        (
          t,
          find-erase_other ℕ_discrete id k cache.last_run_times (λ same. n (inl same)) ∙ e,
          tl,
          th,
        )

  -- What the events may be: the clock does not go back before `low`, stays within `high`, and the job
  -- is not deleted.
  abbrev pub Allowed : CronEvent J → CronServer S K J → Type 0
  Allowed (tick now written) s = (low ≤ millis now) × (millis now ≤ high)
  Allowed (delete_by_name name) s = Member k (ids_named name (s.cache).by_id) → ⊥
  Allowed (upsert_row model) s = Unit
  Allowed (set_enable_by_name name enable) s = Unit
  Allowed reload s = Unit

module _ {S K J : Type 0} (from_str : Text → Option S) (from_value : J → Option K)
    (after : S → ℕ → Option ℕ) (timestamp_millis_opt : ℕ → Option ℕ) (k low high : ℕ) where
  abbrev pub AllAllowed : List (CronEvent J) → CronServer S K J → Type 0
  AllAllowed [] s = Unit
  AllAllowed (e ∷ es) s =
      Allowed k low high e s
      × AllAllowed es (run_event from_str from_value after timestamp_millis_opt e s)

  enable_found-LastWithin :
      (enable : Bool) (o : Option (CrontabRow J)) (s : CronServer S K J)
      → LastWithin k low high s.cache
      → LastWithin k low high (enable_found from_str from_value enable o s).cache
  enable_found-LastWithin enable none s w = w
  enable_found-LastWithin enable (some model) s w = w

  run_event-LastWithin :
      (e : CronEvent J) (s : CronServer S K J)
      → Allowed k low high e s
      → LastWithin k low high s.cache
      → LastWithin k low high (run_event from_str from_value after timestamp_millis_opt e s).cache
  unfolding run_event process_crontab
  run_event-LastWithin (tick now written) s a w =
      advance_all-LastWithin k low high (due_jobs after timestamp_millis_opt now s.cache)
        (millis now) s.cache a.0 a.1 w
  run_event-LastWithin (delete_by_name name) s a w =
      if_case (λ x. LastWithin k low high x.cache) (any (λ row. text_eq row.name name) s.rows) _ s
        (λ _. remove_all-LastWithin k low high (ids_named name (s.cache).by_id) s.cache a w)
        (λ _. w)
  run_event-LastWithin (upsert_row model) s a w = w
  run_event-LastWithin (set_enable_by_name name enable) s a w =
      enable_found-LastWithin enable (find_named name s.rows) s w
  run_event-LastWithin reload s a w = w

  pub run_events-LastWithin :
      (es : List (CronEvent J)) (s : CronServer S K J)
      → AllAllowed es s
      → LastWithin k low high s.cache
      → LastWithin k low high (run_events from_str from_value after timestamp_millis_opt es s).cache
  unfolding run_events
  run_events-LastWithin [] s a w = w
  run_events-LastWithin (e ∷ es) s a w =
      run_events-LastWithin es (run_event from_str from_value after timestamp_millis_opt e s) a.1
        (run_event-LastWithin e s a.0 w)
