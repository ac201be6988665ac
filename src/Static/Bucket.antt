-- ===== src/Static/Bucket.antt =====
-- crates/ng-static/src/ops.rs and cache.rs: the table of buckets, its cache, and the operations on a
-- bucket. The database answers every query; `D` is the state of the disk.
pub mod Valid
pub mod Cached
pub mod Serve
use node_get.Prelude.{
  Bool, true, false, List, [], ◌∷◌, ◌++◌, ◌==◌, if◌then◌else◌, ℕ, suc, ◌&&◌, not, Option, none,
  some, leb, any, keep, map, ◌||◌,
}
use node_get.Text.{Text, text_eq, trim}
use node_get.Dict.{Dict, lookup, insert}
use node_get.Error.{
  Result, ok, err, ◌>>◌, invalid_input, not_found, database_error, config_not_found,
  static_already_exists, static_not_found, http_root_is_taken, static_cache_not_initialized,
}
use node_get.Static.StdPath.{PathBuf, components, join}
use node_get.Static.Validate.{validate_name, validate_sub_path}

-- A row of the table `static_file`.
pub record StaticFile : Type 0 where
  pub id : ℕ
  pub name : Text
  pub path : Text
  pub is_http_root : Bool
  pub cors : Bool
  pub enable : Bool

pub record StaticCache : Type 0 where
  pub by_name : Dict StaticFile
  pub http_root_name : Option Text

-- The table with the next value of its primary key, the global cache once it is initialised, and the
-- disk.
pub record Server (D : Type 0) : Type 0 where
  pub rows : List StaticFile
  pub next_id : ℕ
  pub cache : Option StaticCache
  pub disk : D

-- The name of the first row that is the root, once one is known.
abbrev pub note_root : Option Text → StaticFile → Option Text
note_root (some root) model = some root
note_root none model = if model.is_http_root then some model.name else none

unfoldable pub build_from : Dict StaticFile → Option Text → List StaticFile → StaticCache
build_from by_name root [] = record { by_name = by_name; http_root_name = root }
build_from by_name root (model ∷ models) =
    build_from (insert model.name model by_name) (note_root root model) models

unfoldable pub build_maps : List StaticFile → StaticCache
build_maps models = build_from [] none models

unfoldable pub get_by_name : Text → StaticCache → Option StaticFile
get_by_name name cache = lookup name cache.by_name

unfoldable pub get_http_root : StaticCache → Option StaticFile
get_http_root cache = elim (cache.http_root_name) [
  | none ↦ none
  | some name ↦ lookup name cache.by_name
]

abbrev pub values : Dict StaticFile → List StaticFile
values [] = []
values ((k, v) ∷ d) = v ∷ values d

unfoldable pub get_all : StaticCache → List StaticFile
get_all cache = values cache.by_name

unfoldable pub exists : Text → StaticCache → Bool
exists name cache = elim (lookup name cache.by_name) [ none ↦ false | some _ ↦ true ]

-- `StaticCache::reload`: nothing before the cache is initialised.
abbrev pub reload_maps : Option StaticCache → List StaticFile → Option StaticCache
reload_maps none rows = none
reload_maps (some cache) rows = some (build_maps rows)

unfoldable pub find_by_name : Text → List StaticFile → Option StaticFile
find_by_name name [] = none
find_by_name name (r ∷ rows) = if text_eq r.name name then some r else find_by_name name rows

abbrev pub other_root : ℕ → StaticFile → Bool
other_root id r = r.is_http_root && not (r.id == id)

-- `active_model.update(db)`: the row of the primary key gets the set columns.
abbrev pub set_columns : Text → Bool → Bool → Option Bool → StaticFile → StaticFile
set_columns path is_http_root cors enable r = record {
  id = r.id;
  name = r.name;
  path = path;
  is_http_root = is_http_root;
  cors = cors;
  enable = elim enable [ none ↦ r.enable | some v ↦ v ];
}

abbrev pub update_row : ℕ → (StaticFile → StaticFile) → StaticFile → StaticFile
update_row id f r = if r.id == id then f r else r

unfoldable pub read_static : {D : Type 0} → Text → Server D → Result (Option StaticFile)
read_static name s = elim (s.cache) [
  | none ↦ err (config_not_found static_cache_not_initialized)
  | some cache ↦ ok (get_by_name name cache)
]

module _ {D : Type 0} (static_path : Text) (create_dir_all remove_dir_all : PathBuf → D → D) where
  abbrev pub Call : Type 0 → Type 0
  Call A = Server D → Result A × Server D

  abbrev pub refuse : {A : Type 0} → Result (Unit {0}) → Call A → Call A
  refuse (ok _) rest s = rest s
  refuse (err e) rest s = (err e, s)

  -- The rows as written, the directory, and the cache reloaded from the rows.
  abbrev pub written : List StaticFile → ℕ → D → Server D → Server D
  written rows next_id disk s = record {
    rows = rows;
    next_id = next_id;
    cache = reload_maps s.cache rows;
    disk = disk;
  }

  abbrev pub insert_static : Text → Text → Bool → Bool → Call StaticFile
  insert_static name path is_http_root cors s =
      let model : StaticFile = record {
        id = s.next_id;
        name = name;
        path = path;
        is_http_root = is_http_root;
        cors = cors;
        enable = true;
      } in
      (
        ok model,
        written (s.rows ++ model ∷ []) (suc s.next_id)
            (create_dir_all (components (join static_path path)) s.disk) s,
      )

  unfoldable pub create_static : Text → Text → Bool → Bool → Call StaticFile
  create_static name path is_http_root cors = refuse (validate_name (trim name)) (
      refuse (validate_sub_path (trim path)) (λ s. elim (find_by_name (trim name) s.rows) [
        | some r ↦ (err (database_error (static_already_exists (trim name))), s)
        | none ↦
            if is_http_root && any (λ r. r.is_http_root) s.rows
            then (err (invalid_input http_root_is_taken), s)
            else insert_static (trim name) (trim path) is_http_root cors s
      ]))

  abbrev pub update_model : Text → Bool → Bool → Option Bool → StaticFile → Call StaticFile
  update_model path is_http_root cors enable model s = (
    ok (set_columns path is_http_root cors enable model),
    written (map (update_row model.id (set_columns path is_http_root cors enable)) s.rows)
        (s.next_id) (create_dir_all (components (join static_path path)) s.disk) s,
  )

  unfoldable pub update_static : Text → Text → Bool → Bool → Option Bool → Call StaticFile
  update_static name new_path new_is_http_root new_cors new_enable =
      refuse (validate_name (trim name)) (
        refuse (validate_sub_path (trim new_path)) (λ s. elim (find_by_name (trim name) s.rows) [
          | none ↦ (err (not_found (static_not_found (trim name))), s)
          | some model ↦
              if (new_is_http_root && not (model.is_http_root))
                && any (other_root (model.id)) s.rows
              then (err (invalid_input http_root_is_taken), s)
              else update_model (trim new_path) new_is_http_root new_cors new_enable model s
        ]))

  -- A directory that is refused stays on the disk: the error is only logged.
  unfoldable pub delete_static_bucket_dir : Text → D → D
  delete_static_bucket_dir bucket_sub_path disk = elim (validate_sub_path bucket_sub_path) [
    | ok _ ↦ remove_dir_all (components (join static_path bucket_sub_path)) disk
    | err _ ↦ disk
  ]

  unfoldable pub delete_static : Text → Call (Unit {0})
  delete_static name = refuse (validate_name (trim name)) (λ s.
      elim (find_by_name (trim name) s.rows) [
        | none ↦ (err (not_found (static_not_found (trim name))), s)
        | some model ↦ (
          ok tt,
          written (keep (λ r. not (r.id == model.id)) s.rows) (s.next_id)
              (delete_static_bucket_dir (model.path) s.disk) s,
        )
      ])
