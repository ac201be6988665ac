-- ===== src/Crontab/Scheduler/Last.antt =====
-- The instant that counts as the last run of a job, described without the code.
use node_get.Prelude.{
  ℕ, ◌≡◌, refl, sym, ap, ◌∙◌, ◌⊎◌, ◌-◌, Option, none, some, inl, inr, ℕ_discrete,
}
use node_get.Keyed.{find}
use node_get.Crontab.Cache.{CachedCrontab, CrontabCache, or_else, effective_last}
use node_get.Crontab.Scheduler.{or_instant, last_instant}

-- The time in memory, or that in the row where memory has none.
abbrev pub LastTime : Option ℕ → Option ℕ → ℕ → Type 0
LastTime in_memory in_row t = (in_memory ≡ some t) ⊎ ((in_memory ≡ none) × (in_row ≡ some t))

module _ (timestamp_millis_opt : ℕ → Option ℕ) (refused now : ℕ) where
  -- The instant of the last time, `refused` where chrono refuses it, and a second before now where
  -- there is no time at all.
  abbrev pub LastOf : Option ℕ → Option ℕ → ℕ → Type 0
  LastOf in_memory in_row last =
      ((t : ℕ) × LastTime in_memory in_row t
        × ((timestamp_millis_opt t ≡ some last)
            ⊎ ((timestamp_millis_opt t ≡ none) × (last ≡ refused))))
      ⊎ ((in_memory ≡ none) × (in_row ≡ none) × (last ≡ now - 1000000000))

  abbrev pub IsLast : {S K J : Type 0} → CrontabCache S K J → CachedCrontab S K J → ℕ → Type 0
  IsLast cache entry last =
      LastOf (find ℕ_discrete entry.model.id cache.last_run_times) entry.model.last_run_time last

  converted :
      (t : ℕ) (o : Option ℕ)
      → timestamp_millis_opt t ≡ o
      → (timestamp_millis_opt t ≡ some (or_instant refused o))
        ⊎ ((timestamp_millis_opt t ≡ none) × (or_instant refused o ≡ refused))
  converted t none e = inr (e, refl)
  converted t (some instant) e = inl e

  last_instant-LastOf :
      (a b : Option ℕ) → LastOf a b (last_instant timestamp_millis_opt refused now (or_else a b))
  last_instant-LastOf (some t) b = inl (t, inl refl, converted t (timestamp_millis_opt t) refl)
  last_instant-LastOf none (some t) =
      inl (t, inr (refl, refl), converted t (timestamp_millis_opt t) refl)
  last_instant-LastOf none none = inr (refl, refl, refl)

  LastTime-unique : (a b : Option ℕ) (t : ℕ) → LastTime a b t → or_else a b ≡ some t
  LastTime-unique a b t (inl e) = rw e refl
  LastTime-unique a b t (inr (e, f)) = rw e f

  LastOf-unique :
      (a b : Option ℕ) (last : ℕ)
      → LastOf a b last
      → last_instant timestamp_millis_opt refused now (or_else a b) ≡ last
  LastOf-unique a b last (inl (t, at, inl e)) =
      ap (last_instant timestamp_millis_opt refused now) (LastTime-unique a b t at)
      ∙ ap (or_instant refused) e
  LastOf-unique a b last (inl (t, at, inr (e, f))) =
      ap (last_instant timestamp_millis_opt refused now) (LastTime-unique a b t at)
      ∙ ap (or_instant refused) e
      ∙ sym f
  LastOf-unique a b last (inr (e, f, g)) = rw (e, f) (sym g)

  pub last_instant-IsLast :
      {S K J : Type 0} (cache : CrontabCache S K J) (entry : CachedCrontab S K J)
      → IsLast cache entry
          (last_instant timestamp_millis_opt refused now (effective_last entry cache))
  last_instant-IsLast cache entry =
      last_instant-LastOf (find ℕ_discrete entry.model.id cache.last_run_times)
        entry.model.last_run_time

  pub IsLast-unique :
      {S K J : Type 0} (cache : CrontabCache S K J) (entry : CachedCrontab S K J) (last : ℕ)
      → IsLast cache entry last
      → last_instant timestamp_millis_opt refused now (effective_last entry cache) ≡ last
  IsLast-unique cache entry last h =
      LastOf-unique (find ℕ_discrete entry.model.id cache.last_run_times) entry.model.last_run_time
        last h
