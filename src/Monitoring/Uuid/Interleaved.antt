-- ===== src/Monitoring/Uuid/Interleaved.antt =====
-- Calls that run at the same time: what holds after every step.
use node_get.Prelude.{
  ℕ, zero, suc, ◌≡◌, refl, subst, ◌↔◌, Bool, List, [], ◌∷◌, Option, none, some, Member, All, All_at,
  All-map, All-append, ℕ_discrete, if_case, inl, inr,
}
use node_get.Prelude.Int.{ℤ}
use node_get.Keyed.{find}
use node_get.Error.{ok}
use node_get.Monitoring.Uuid.{
  UuidRow, UuidCache, UuidServer, UuidSystem, Phase, looking, got, UuidEvent, get_call, delete_call,
  reload_call, advance, from_cache, advance_call, run_event, run_events,
}
use node_get.Monitoring.Uuid.Rows.{HasRow, HasRow-id, HasRow-uuid, Grows}
use node_get.Monitoring.Uuid.Cached.{IsCacheOf, AllHave}
use node_get.Monitoring.Uuid.Steps.{Owns, Knows, IsSoundServer, Knows-Grows, step-Goes}

abbrev pub IsSound : UuidSystem → Type 0
IsSound x = IsSoundServer x.server × All (Knows (x.server).rows) x.calls

advance_call-IsSound :
    (n : ℕ) (new_id : ℤ) (calls : List Phase) (s : UuidServer)
    → IsSoundServer s
    → All (Knows s.rows) calls
    → IsSound (advance_call n new_id calls s)
      × Grows s.rows ((advance_call n new_id calls s).server).rows
unfolding advance_call
advance_call-IsSound n new_id [] s sound k = ((sound, tt), λ u i h. h)
advance_call-IsSound zero new_id (p ∷ calls) s sound k =
    let (next, knows, g) = step-Goes new_id p s sound k.0 in
    ((next, (knows, All-map (Knows s.rows) (Knows _) (Knows-Grows s.rows _ g) calls k.1)), g)
advance_call-IsSound (suc n) new_id (p ∷ calls) s sound k =
    let ((next, knows), g) = advance_call-IsSound n new_id calls s sound k.1 in
    ((next, (Knows-Grows s.rows _ g p k.0, knows)), g)

from_cache-Knows :
    (rows : List UuidRow) (cache : UuidCache) (uuid : ℕ) (o : Option (ℤ × Bool))
    → find ℕ_discrete uuid cache.by_uuid ≡ o
    → IsCacheOf rows cache
    → Knows rows (from_cache uuid o)
from_cache-Knows rows cache uuid none e c = tt
from_cache-Knows rows cache uuid (some (id, soft)) e c =
    if_case (Knows rows) soft (looking uuid) (got uuid (ok id)) (λ _. tt)
      (λ _. c.known uuid id soft e)

All-self :
    (rows models : List UuidRow)
    → ((r : UuidRow) → Member r models → Member r rows)
    → AllHave rows models
All-self rows [] f = tt
All-self rows (r ∷ models) f =
    ((r, f r (inl refl), refl, refl), All-self rows models (λ x m. f x (inr m)))

run_event-IsSound : (e : UuidEvent) (x : UuidSystem) → IsSound x → IsSound (run_event e x)
unfolding run_event
run_event-IsSound (get_call uuid) x (sound, k) = (
  sound,
  All-append _ x.calls _ k (
    from_cache-Knows (x.server).rows (x.server).cache uuid
        (find ℕ_discrete uuid ((x.server).cache).by_uuid) refl sound.1,
    tt,
  ),
)
run_event-IsSound (delete_call uuid) x (sound, k) = (sound, All-append _ x.calls _ k (tt, tt))
run_event-IsSound reload_call x (sound, k) =
    (sound, All-append _ x.calls _ k (All-self (x.server).rows (x.server).rows (λ r m. m), tt))
run_event-IsSound (advance n new_id) x (sound, k) =
    (advance_call-IsSound n new_id x.calls x.server sound k).0

run_events-Sound : (es : List UuidEvent) (x : UuidSystem) → IsSound x → IsSound (run_events es x)
unfolding run_events
run_events-Sound [] x h = h
run_events-Sound (e ∷ es) x h = run_events-Sound es (run_event e x) (run_event-IsSound e x h)

-- No two answers disagree.
abbrev pub Agree : UuidSystem → Type 0
Agree x =
    (u v : ℕ) (i j : ℤ)
    → Member (got u (ok i)) x.calls
    → Member (got v (ok j)) x.calls
    → (u ≡ v) ↔ (i ≡ j)

Sound-Agree : (x : UuidSystem) → IsSound x → Agree x
Sound-Agree x (sound, k) u v i j a b =
    let owns_u : Owns (x.server).rows u i =
      All_at (Knows (x.server).rows) (got u (ok i)) x.calls k a in
    let owns_v : Owns (x.server).rows v j =
      All_at (Knows (x.server).rows) (got v (ok j)) x.calls k b in
    (
      λ e.
          HasRow-id (x.server).rows v i j sound.0
            (subst (λ w. HasRow (x.server).rows w i) e owns_u.0) owns_v.0,
      λ e.
          HasRow-uuid (x.server).rows u v j sound.0 (subst (HasRow (x.server).rows u) e owns_u.0)
            owns_v.0,
    )

-- From a table in which ids and UUIDs are unique and a cache whose entries are those of rows, with
-- ids that fit into i16 and the two directions inverse to each other: any interleaving of the
-- steps of any calls of get_or_insert, soft_delete and reload keeps this, and of the calls of
-- get_or_insert that answered, two have the same id exactly when they were for the same UUID.
pub run_events-IsSound :
    (es : List UuidEvent) (x : UuidSystem)
    → IsSound x
    → IsSound (run_events es x) × Agree (run_events es x)
run_events-IsSound es x h =
    let sound = run_events-Sound es x h in (sound, Sound-Agree (run_events es x) sound)
