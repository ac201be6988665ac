-- ===== src/Monitoring/Uuid.antt =====
-- crates/ng-monitoring/src/monitoring_uuid_cache.rs: the cache of the table `monitoring_uuid` in both
-- directions, and the calls on it. Calls run at the same time and are cut at each `await`: a `Phase` is
-- what a call does next, and a step of a phase is atomic. A UUID is a number; the id that the database
-- gives to a new row is an argument. Errors of the connection are left out.
pub mod Rows
pub mod Cached
pub mod Steps
pub mod Interleaved
pub mod Race
pub mod Tests
use node_get.Prelude.{
  ℕ, zero, suc, Bool, true, false, ◌||◌, not, List, [], ◌∷◌, ◌++◌, Option, none, some, any, map,
  ltb, ◌==◌, ap, ℕ_discrete, if◌then◌else◌,
}
use node_get.Prelude.Int.{ℤ, pos, negsuc, eq_ℤ}
use node_get.Keyed.{find, put}
use node_get.Error.{
  Message, Result, ok, err, database_error, uuid_id_out_of_range, uuid_id_out_of_range_after_insert,
  conflict_without_row,
}

abbrev pub ℤ_discrete : Discrete ℤ
ℤ_discrete (pos a) (pos b) = elim (ℕ_discrete a b) [
  | yes e ↦ yes (ap pos e)
  | no ne ↦ no (λ h. ne (cc h))
]
ℤ_discrete (pos a) (negsuc b) = no (λ h. cc h)
ℤ_discrete (negsuc a) (pos b) = no (λ h. cc h)
ℤ_discrete (negsuc a) (negsuc b) = elim (ℕ_discrete a b) [
  | yes e ↦ yes (ap negsuc e)
  | no ne ↦ no (λ h. ne (cc h))
]

-- crates/ng-db/src/entity/monitoring_uuid.rs: a row.
pub record UuidRow : Type 0 where
  pub id : ℤ
  pub uuid : ℕ
  pub soft_delete : Bool

pub record UuidCache : Type 0 where
  pub by_uuid : List (ℕ × (ℤ × Bool))
  pub by_id : List (ℤ × (ℕ × Bool))

pub record UuidServer : Type 0 where
  pub rows : List UuidRow
  pub cache : UuidCache

-- `i16::try_from` on an i32
abbrev pub is_i16 : ℤ → Bool
is_i16 (pos n) = ltb n 32768
is_i16 (negsuc n) = ltb n 32768

abbrev pub try_id_i16 : ℤ → Option ℤ
try_id_i16 model_id = if is_i16 model_id then some model_id else none

abbrev pub insert_entry : ℕ → ℤ → Bool → UuidCache → UuidCache
insert_entry uuid id soft_delete cache = record {
  by_uuid = put ℕ_discrete uuid (id, soft_delete) cache.by_uuid;
  by_id = put ℤ_discrete id (uuid, soft_delete) cache.by_id;
}

abbrev pub empty_cache : UuidCache
empty_cache = record { by_uuid = []; by_id = [] }

-- One round of the loop: an id that is out of range is skipped.
abbrev pub cache_row : Option ℤ → UuidRow → UuidCache → UuidCache
cache_row none model cache = cache
cache_row (some id) model cache = insert_entry model.uuid id model.soft_delete cache

unfoldable pub cache_rows : List UuidRow → UuidCache → UuidCache
cache_rows [] cache = cache
cache_rows (model ∷ models) cache = cache_rows models (cache_row (try_id_i16 model.id) model cache)

abbrev pub build_cache : List UuidRow → UuidCache
build_cache models = cache_rows models empty_cache

abbrev pub id_of : Option (ℤ × Bool) → Option ℤ
id_of none = none
id_of (some (id, _)) = some id

abbrev pub get_id : ℕ → UuidCache → Option ℤ
get_id uuid cache = id_of (find ℕ_discrete uuid cache.by_uuid)

abbrev pub uuid_of : Option (ℕ × Bool) → Option ℕ
uuid_of none = none
uuid_of (some (uuid, _)) = some uuid

abbrev pub get_uuid : ℤ → UuidCache → Option ℕ
get_uuid id cache = uuid_of (find ℤ_discrete id cache.by_id)

abbrev pub is_live : Option (ℤ × Bool) → Bool
is_live none = false
is_live (some (_, soft_delete)) = not soft_delete

abbrev pub is_active : ℕ → UuidCache → Bool
is_active uuid cache = is_live (find ℕ_discrete uuid cache.by_uuid)

-- What a call does next. The first five are of `get_or_insert`, then those of `soft_delete`, then those of
-- `reload`, which has loaded the rows and will build the cache from them.
pub data Phase : Type 0 where
  looking inserting conflicted : ℕ → Phase
  reviving caching : ℕ → ℤ → Phase
  got : ℕ → Result ℤ → Phase
  deletion : ℕ → Phase
  deleting uncaching : ℕ → ℤ → Phase
  gone : ℕ → Result Bool → Phase
  reloading : List UuidRow → Phase
  reloaded : Phase

unfoldable pub find_uuid : ℕ → List UuidRow → Option UuidRow
find_uuid uuid [] = none
find_uuid uuid (row ∷ rows) = if row.uuid == uuid then some row else find_uuid uuid rows

-- `active.update(db)`
abbrev pub set_soft_delete : ℤ → Bool → List UuidRow → List UuidRow
set_soft_delete id value rows =
    map (λ row. if eq_ℤ row.id id then record row { soft_delete = value } else row) rows

-- The primary key and the unique column.
abbrev pub row_clashes : ℤ → ℕ → UuidRow → Bool
row_clashes id uuid row = eq_ℤ row.id id || row.uuid == uuid

-- The beginning of `get_or_insert`.
abbrev pub from_cache : ℕ → Option (ℤ × Bool) → Phase
from_cache uuid none = looking uuid
from_cache uuid (some (id, soft_delete)) = if soft_delete then looking uuid else got uuid (ok id)

abbrev pub get_or_insert : ℕ → UuidServer → Phase
get_or_insert uuid s = from_cache uuid (find ℕ_discrete uuid (s.cache).by_uuid)

-- With a row: its id has to fit, and a deleted one is revived.
abbrev pub with_id : Message → ℕ → UuidRow → Option ℤ → Phase
with_id out_of_range uuid model none = got uuid (err (database_error out_of_range))
with_id out_of_range uuid model (some id) =
    if model.soft_delete then reviving uuid id else caching uuid id

abbrev pub with_row : (ℤ → Message) → ℕ → Phase → Option UuidRow → Phase
with_row out_of_range uuid missing none = missing
with_row out_of_range uuid missing (some model) =
    with_id (out_of_range model.id) uuid model (try_id_i16 model.id)

abbrev pub with_new_id : ℕ → ℤ → Option ℤ → Phase
with_new_id uuid new_id none =
    got uuid (err (database_error (uuid_id_out_of_range_after_insert uuid)))
with_new_id uuid new_id (some id) = caching uuid id

abbrev pub delete_id : ℕ → UuidRow → Option ℤ → Phase
delete_id uuid model none = gone uuid (err (database_error (uuid_id_out_of_range model.id uuid)))
delete_id uuid model (some id) = deleting uuid id

abbrev pub delete_row : ℕ → Option UuidRow → Phase
delete_row uuid none = gone uuid (ok false)
delete_row uuid (some model) =
    if model.soft_delete then gone uuid (ok true) else delete_id uuid model (try_id_i16 model.id)

abbrev pub with_rows : List UuidRow → UuidServer → UuidServer
with_rows rows s = record { rows = rows; cache = s.cache }

abbrev pub with_cache : UuidCache → UuidServer → UuidServer
with_cache cache s = record { rows = s.rows; cache = cache }

abbrev pub insert_new : Bool → ℤ → ℕ → UuidServer → Phase × UuidServer
insert_new true new_id uuid s = (conflicted uuid, s)
insert_new false new_id uuid s = (
  with_new_id uuid new_id (try_id_i16 new_id),
  with_rows (s.rows ++ record { id = new_id; uuid = uuid; soft_delete = false } ∷ []) s,
)

-- One step; an answered call has no more.
unfoldable pub step : ℤ → Phase → UuidServer → Phase × UuidServer
step new_id (looking uuid) s =
    (with_row (λ id. uuid_id_out_of_range id uuid) uuid (inserting uuid) (find_uuid uuid s.rows), s)
step new_id (inserting uuid) s = insert_new (any (row_clashes new_id uuid) s.rows) new_id uuid s
step new_id (conflicted uuid) s = (
  with_row (λ id. uuid_id_out_of_range_after_insert uuid) uuid
      (got uuid (err (database_error conflict_without_row))) (find_uuid uuid s.rows),
  s,
)
step new_id (reviving uuid id) s = (caching uuid id, with_rows (set_soft_delete id false s.rows) s)
step new_id (caching uuid id) s =
    (got uuid (ok id), with_cache (insert_entry uuid id false s.cache) s)
step new_id (deletion uuid) s = (delete_row uuid (find_uuid uuid s.rows), s)
step new_id (deleting uuid id) s = (uncaching uuid id, with_rows (set_soft_delete id true s.rows) s)
step new_id (uncaching uuid id) s =
    (gone uuid (ok true), with_cache (insert_entry uuid id true s.cache) s)
step new_id (reloading models) s = (reloaded, with_cache (build_cache models) s)
step new_id reloaded s = (reloaded, s)
step new_id (got uuid answer) s = (got uuid answer, s)
step new_id (gone uuid answer) s = (gone uuid answer, s)

-- The calls so far, the first one first.
pub record UuidSystem : Type 0 where
  pub server : UuidServer
  pub calls : List Phase

-- A call comes, or the call of this number makes a step, with the id that the database would give.
pub data UuidEvent : Type 0 where
  get_call delete_call : ℕ → UuidEvent
  reload_call : UuidEvent
  advance : ℕ → ℤ → UuidEvent

unfoldable pub advance_call : ℕ → ℤ → List Phase → UuidServer → UuidSystem
unfolding step
advance_call n new_id [] s = record { server = s; calls = [] }
advance_call zero new_id (p ∷ calls) s =
    let next = step new_id p s in record { server = next.1; calls = next.0 ∷ calls }
advance_call (suc n) new_id (p ∷ calls) s =
    let rest = advance_call n new_id calls s in
    record { server = rest.server; calls = p ∷ rest.calls }

unfoldable pub run_event : UuidEvent → UuidSystem → UuidSystem
unfolding advance_call
run_event (get_call uuid) x = record {
  server = x.server;
  calls = x.calls ++ get_or_insert uuid x.server ∷ [];
}
run_event (delete_call uuid) x = record { server = x.server; calls = x.calls ++ deletion uuid ∷ [] }
run_event reload_call x = record {
  server = x.server;
  calls = x.calls ++ reloading (x.server).rows ∷ [];
}
run_event (advance n new_id) x = advance_call n new_id x.calls x.server

unfoldable pub run_events : List UuidEvent → UuidSystem → UuidSystem
unfolding run_event
run_events [] x = x
run_events (e ∷ es) x = run_events es (run_event e x)
