-- ===== src/Static/File.antt =====
-- crates/ng-static/src/ops.rs: uploading, reading, deleting and renaming a file of a bucket.
-- The disk and base64 are not the program's: `Disk` has the calls of `tokio::fs` that it makes.
pub mod Frame
pub mod Kept
use node_get.Prelude.{
  ◌≡◌, ◌≢◌, Bool, true, false, List, [], ◌∷◌, if◌then◌else◌, ℕ, ◌&&◌, ◌*◌, Option, none, some, ltb,
  length,
}
use node_get.Text.{Text}
use node_get.Error.{
  NodegetError, Result, ok, err, ◌>>=◌, ◌>>◌, invalid_input, not_found, config_not_found, io_error,
  static_not_found, static_cache_not_initialized, both_body_and_base64, no_body_or_base64,
  invalid_base64, failed_to_write_file, failed_to_stat_file, failed_to_read_file,
  failed_to_delete_file, failed_to_rename_file, file_not_found, source_file_not_found,
  file_too_large,
}
use node_get.Static.StdPath.{PathBuf, component_eq, parent}
use node_get.Static.Validate.{validate_name, resolve_safe_file_path}
use node_get.Static.Bucket.{StaticFile, StaticCache, get_by_name}

abbrev pub Bytes : Type 0
Bytes = List ℕ

-- `std::io::Result`, by the kinds of error that the program tells apart.
pub data IoResult (A : Type 0) : Type 0 where
  done : A → IoResult A
  io_not_found io_failed : IoResult A

pub record Disk (D : Type 0) : Type 0 where
  pub create_dir_all : PathBuf → D → D
  pub write : PathBuf → Bytes → D → IoResult (Unit {0}) × D
  pub metadata_len : PathBuf → D → IoResult ℕ
  pub read : PathBuf → D → IoResult Bytes
  pub remove_file : PathBuf → D → IoResult (Unit {0}) × D
  pub rename : PathBuf → PathBuf → D → IoResult (Unit {0}) × D

pub record Base64 : Type 0 where
  pub encode : Bytes → Text
  pub decode : Text → Option Bytes

-- 8 MiB
abbrev pub max_static_file_size : ℕ
max_static_file_size = 8 * 1024 * 1024

-- The bucket of a checked name, from the global cache.
abbrev pub cached_bucket : Option StaticCache → Text → Result StaticFile
cached_bucket none name = err (config_not_found static_cache_not_initialized)
cached_bucket (some cache) name = elim (get_by_name name cache) [
  | none ↦ err (not_found (static_not_found name))
  | some model ↦ ok model
]

-- `from_resolved == to_resolved`
unfoldable pub path_eq : PathBuf → PathBuf → Bool
path_eq [] [] = true
path_eq (c ∷ p) (d ∷ q) = component_eq c d && path_eq p q
path_eq _ _ = false

abbrev pub resolve_in : Text → Text → StaticFile → Result PathBuf
resolve_in static_path file_path model = resolve_safe_file_path static_path model.path file_path

unfoldable pub resolve_file : Text → Option StaticCache → Text → Text → Result PathBuf
resolve_file static_path cache name file_path =
    validate_name name >> (cached_bucket cache name >>= resolve_in static_path file_path)

-- Exactly one of the two, with base64 decoded later.
abbrev pub check_upload : Option Bytes → Option Text → Result (Unit {0})
check_upload (some body) (some base64) = err (invalid_input both_body_and_base64)
check_upload none none = err (invalid_input no_body_or_base64)
check_upload _ _ = ok tt

abbrev pub upload_data : Base64 → Option Bytes → Option Text → Result Bytes
upload_data b64 (some body) base64 = ok body
upload_data b64 none none = ok []
upload_data b64 none (some text) = elim (b64.decode text) [
  | none ↦ err (invalid_input invalid_base64)
  | some bytes ↦ ok bytes
]

abbrev pub create_parent : {D : Type 0} → Disk D → PathBuf → D → D
create_parent disk path d = elim (parent path) [ none ↦ d | some up ↦ disk.create_dir_all up d ]

abbrev pub or_write_error : {D : Type 0} → IoResult (Unit {0}) × D → Result (Unit {0}) × D
or_write_error (done u, d) = (ok tt, d)
or_write_error (io_not_found, d) = (err (io_error failed_to_write_file), d)
or_write_error (io_failed, d) = (err (io_error failed_to_write_file), d)

abbrev pub or_rename_error : {D : Type 0} → Text → IoResult (Unit {0}) × D → Result (Unit {0}) × D
or_rename_error from (done u, d) = (ok tt, d)
or_rename_error from (io_not_found, d) = (err (not_found (source_file_not_found from)), d)
or_rename_error from (io_failed, d) = (err (io_error failed_to_rename_file), d)

-- A missing file counts as deleted.
abbrev pub or_delete_error : {D : Type 0} → IoResult (Unit {0}) × D → Result (Unit {0}) × D
or_delete_error (done u, d) = (ok tt, d)
or_delete_error (io_not_found, d) = (ok tt, d)
or_delete_error (io_failed, d) = (err (io_error failed_to_delete_file), d)

abbrev pub or_read_error : {A : Type 0} → Text → NodegetError → IoResult A → Result A
or_read_error file_path failed (done a) = ok a
or_read_error file_path failed io_not_found = err (not_found (file_not_found file_path))
or_read_error file_path failed io_failed = err failed

-- What is done on the disk, once the checks have passed.
abbrev pub on_disk :
    {A D : Type 0} → Result A → (A → D → Result (Unit {0}) × D) → D → Result (Unit {0}) × D
on_disk (err e) act d = (err e, d)
on_disk (ok a) act d = act a d

-- The data and the path of an upload, in the order in which the code finds them.
abbrev pub prepare_upload :
    Base64
    → Text
    → Option StaticCache
    → Text
    → Text
    → Option Bytes
    → Option Text
    → Result (PathBuf × Bytes)
prepare_upload b64 static_path cache name file_path body base64 =
    check_upload body base64
    >> (validate_name name
        >> (cached_bucket cache name >>= λ model. upload_data b64 body base64 >>= λ bytes.
            resolve_in static_path file_path model >>= λ path. ok (path, bytes)))

abbrev pub prepare_rename :
    Text → Option StaticCache → Text → Text → Text → Result (PathBuf × PathBuf)
prepare_rename static_path cache name from to =
    validate_name name
    >> (cached_bucket cache name >>= λ model. resolve_in static_path from model >>= λ a.
        resolve_in static_path to model >>= λ b. ok (a, b))

module _ {D : Type 0} (disk : Disk D) (b64 : Base64) (static_path : Text)
    (cache : Option StaticCache) where
  abbrev pub write_file : PathBuf × Bytes → D → Result (Unit {0}) × D
  write_file (path, bytes) d = or_write_error (disk.write path bytes (create_parent disk path d))

  abbrev pub move_file : Text → PathBuf × PathBuf → D → Result (Unit {0}) × D
  move_file from (a, b) d =
      if path_eq a b
      then (ok tt, d)
      else or_rename_error from (disk.rename a b (create_parent disk b d))

  unfoldable pub upload_file : Text → Text → Option Bytes → Option Text → D → Result (Unit {0}) × D
  upload_file name file_path body base64 =
      on_disk (prepare_upload b64 static_path cache name file_path body base64) write_file

  abbrev pub read_small : Text → D → PathBuf → ℕ → Result Text
  read_small file_path d path size =
      if ltb max_static_file_size size
      then err (invalid_input (file_too_large size))
      else (or_read_error file_path (io_error failed_to_read_file) (disk.read path d) >>= λ bytes.
          ok (b64.encode bytes))

  unfoldable pub read_at : Text → D → PathBuf → Result Text
  read_at file_path d path =
      or_read_error file_path (io_error failed_to_stat_file) (disk.metadata_len path d)
      >>= read_small file_path d path

  unfoldable pub read_file : Text → Text → D → Result Text
  read_file name file_path d = resolve_file static_path cache name file_path >>= read_at file_path d

  unfoldable pub delete_file : Text → Text → D → Result (Unit {0}) × D
  delete_file name file_path =
      on_disk (resolve_file static_path cache name file_path)
        (λ path. λ d. or_delete_error (disk.remove_file path d))

  unfoldable pub rename_file : Text → Text → Text → D → Result (Unit {0}) × D
  rename_file name from to =
      on_disk (prepare_rename static_path cache name from to) (move_file from)
