-- ===== src/Monitoring/Uuid/Tests.antt =====
-- The theorems on the cache of UUIDs with three calls at the same time.
use node_get.Prelude.{◌≡◌, refl, true, false, List, [], ◌∷◌, some, any}
use node_get.Prelude.Int.{pos}
use node_get.Error.{ok}
use node_get.Keyed.{find, put}
use node_get.Monitoring.Uuid.{
  UuidRow, UuidServer, UuidSystem, Phase, looking, got, gone, UuidEvent, get_call, reload_call,
  advance, is_active, build_cache, cache_rows, find_uuid, run_events,
}
use node_get.Monitoring.Uuid.Cached.{build_cache-IsCacheOf}
use node_get.Monitoring.Uuid.Interleaved.{IsSound, Agree, run_events-IsSound}
use node_get.Monitoring.Uuid.Race.{schedule, schedule_stale}

abbrev server : UuidServer
server = record { rows = []; cache = build_cache [] }

abbrev start : UuidSystem
start = record { server = server; calls = [] }

start-IsSound : IsSound start
start-IsSound = ((tt, build_cache-IsCacheOf [] [] tt tt), tt)

-- Two calls for one new UUID: the second one's insertion clashes, and finds the row of the first.
abbrev events : List UuidEvent
events =
    get_call 7
    ∷ get_call 7
    ∷ get_call 8
    ∷ advance 0 (pos 0)
    ∷ advance 1 (pos 0)
    ∷ advance 0 (pos 1)
    ∷ advance 1 (pos 2)
    ∷ reload_call
    ∷ advance 1 (pos 0)
    ∷ advance 1 (pos 0)
    ∷ advance 2 (pos 0)
    ∷ advance 2 (pos 2)
    ∷ advance 2 (pos 0)
    ∷ advance 0 (pos 0)
    ∷ []

answers :
    (run_events events start).calls
    ≡ got 7 (ok (pos 1))
      ∷ got 7 (ok (pos 1))
      ∷ got 8 (ok (pos 2))
      ∷ Phase.reloading (record { id = pos 1; uuid = 7; soft_delete = false } ∷ [])
      ∷ []
unfolding run_events find_uuid cache_rows find put any
answers = refl

run_events-IsSound_example : IsSound (run_events events start) × Agree (run_events events start)
run_events-IsSound_example = run_events-IsSound events start start-IsSound

-- A UUID that is marked as deleted, while another call is under way.
abbrev deleted_row : UuidRow
deleted_row = record { id = pos 3; uuid = 7; soft_delete = true }

abbrev with_deleted : UuidSystem
with_deleted = record {
  server = record { rows = deleted_row ∷ []; cache = build_cache [] };
  calls = looking 8 ∷ [];
}

schedule_stale_example :
    ((run_events (schedule 1 7) with_deleted).calls
      ≡ looking 8 ∷ got 7 (ok (pos 3)) ∷ gone 7 (ok true) ∷ [])
    × (find_uuid 7 ((run_events (schedule 1 7) with_deleted).server).rows ≡ some deleted_row)
    × (is_active 7 ((run_events (schedule 1 7) with_deleted).server).cache ≡ true)
unfolding find_uuid find cache_rows
schedule_stale_example = schedule_stale 7 deleted_row with_deleted refl refl refl refl
