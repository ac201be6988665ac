-- ===== src/Static/Rpc.antt =====
-- crates/ng-static/src/auth.rs and rpc: the RPC methods of the namespaces `static-bucket` and
-- `static-bucket-file`. The JSON of the answers is not modelled.
pub mod Denied
use node_get.Prelude.{
  Bool, true, false, not, List, [], ◌∷◌, ◌++◌, if◌then◌else◌, ℕ, Option, none, some, map,
}
use node_get.Text.{Text, codes}
use node_get.Error.{
  NodegetError, Result, ok, err, map_err, ◌>>=◌, ◌>>◌, not_found, parse_error, permission_denied,
  config_not_found, other, permission_checker_not_initialized, failed_to_parse_token,
  no_static_permission, no_static_file_permission, static_not_found, only_super_token, display,
  io_error,
}
use node_get.Permission.{Scope, Permission, StaticBucket, StaticBucketFile}
use node_get.Token.Auth.{
  World, TokenOrAuth, Parsed, parsed, refused, from_full_token, check_super_token,
  check_token_limit, as_denied,
}
use node_get.Token.Guard.{parse_token, get_checker, allowed_or}
use node_get.Static.StdPath.{PathBuf, components, join}
use node_get.Static.Validate.{validate_name}
use node_get.Static.Bucket.{
  StaticFile, StaticCache, Server, create_static, update_static, delete_static, read_static,
  get_all,
}
use node_get.Static.File.{
  Bytes, Disk, Base64, cached_bucket, upload_file, read_file, delete_file, rename_file,
}
use node_get.Static.Walk.{Base, FileInfo, text_le, collect_files}

-- `{permission:?}`
abbrev pub bucket_permission_name : StaticBucket → Text
bucket_permission_name StaticBucket.read = codes "Read"
bucket_permission_name StaticBucket.write = codes "Write"
bucket_permission_name StaticBucket.delete = codes "Delete"

abbrev pub file_permission_name : StaticBucketFile → Text
file_permission_name StaticBucketFile.read = codes "Read"
file_permission_name StaticBucketFile.write = codes "Write"
file_permission_name StaticBucketFile.delete = codes "Delete"
file_permission_name StaticBucketFile.list = codes "List"

module _ (w : World) where
  abbrev pub check_scope : Text → Text → Permission → NodegetError → Result (Unit {0})
  check_scope token name permission denial = parse_token token >>= λ c.
      get_checker w
      >> (check_token_limit w c (Scope.static_bucket name ∷ []) (permission ∷ [])
          >>= allowed_or denial)

  unfoldable pub check_static_bucket_permission : Text → Text → StaticBucket → Result (Unit {0})
  check_static_bucket_permission token name p =
      check_scope token name (Permission.static_bucket p)
        (permission_denied (no_static_permission name (bucket_permission_name p)))

  unfoldable pub check_static_bucket_file_permission :
      Text → Text → StaticBucketFile → Result (Unit {0})
  check_static_bucket_file_permission token name p =
      check_scope token name (Permission.static_bucket_file p)
        (permission_denied (no_static_file_permission name (file_permission_name p)))

  -- rpc/static_bucket/auth.rs
  unfoldable pub check_super_token_rpc : Text → Result Bool
  check_super_token_rpc token =
      parse_token token >>= λ c. get_checker w >> map_err as_denied (check_super_token w c)

abbrev pub insert_name : Text → List Text → List Text
insert_name n [] = n ∷ []
insert_name n (m ∷ ms) = if text_le n m then n ∷ m ∷ ms else m ∷ insert_name n ms

-- `names.sort()`
unfoldable pub sort_names : List Text → List Text
sort_names [] = []
sort_names (n ∷ ns) = insert_name n (sort_names ns)

abbrev pub names_of : List StaticFile → List Text
names_of [] = []
names_of (m ∷ ms) = m.name ∷ names_of ms

unfoldable pub list_all_names : Option StaticCache → List Text
list_all_names none = []
list_all_names (some cache) = sort_names (names_of (get_all cache))

-- `check?;` and the operation after it.
abbrev pub permitted : {A S : Type 0} → Result (Unit {0}) → (S → Result A × S) → S → Result A × S
permitted (ok _) rest s = rest s
permitted (err e) rest s = (err e, s)

abbrev pub with_disk : {A D : Type 0} → Server D → Result A × D → Result A × Server D
with_disk s (answer, disk) =
    (answer, record { rows = s.rows; next_id = s.next_id; cache = s.cache; disk = disk })

abbrev pub or_absent : Text → Option StaticFile → Result StaticFile
or_absent name none = err (not_found (static_not_found name))
or_absent name (some model) = ok model

module _ {D : Type 0} (w : World) (disk : Disk D) (remove_dir_all : PathBuf → D → D) (b64 : Base64)
    (static_path : Text) where
  unfoldable pub create : Text → Text → Text → Bool → Bool → Server D → Result StaticFile × Server D
  create token name path is_http_root cors =
      permitted (check_static_bucket_permission w token name StaticBucket.write)
        (create_static static_path disk.create_dir_all remove_dir_all name path is_http_root cors)

  unfoldable pub update :
      Text → Text → Text → Bool → Bool → Option Bool → Server D → Result StaticFile × Server D
  update token name path is_http_root cors enable =
      permitted (check_static_bucket_permission w token name StaticBucket.write) (
        update_static static_path disk.create_dir_all remove_dir_all name path is_http_root cors
          enable)

  unfoldable pub delete : Text → Text → Server D → Result (Unit {0}) × Server D
  delete token name =
      permitted (check_static_bucket_permission w token name StaticBucket.delete)
        (delete_static static_path disk.create_dir_all remove_dir_all name)

  unfoldable pub read : Text → Text → Server D → Result StaticFile
  read token name s =
      check_static_bucket_permission w token name StaticBucket.read
      >> (read_static name s >>= or_absent name)

  unfoldable pub list_rpc : Text → Server D → Result (List Text)
  list_rpc token s = map_err as_denied (check_super_token_rpc w token) >>= λ is_super_token.
      if not is_super_token
      then err (permission_denied only_super_token)
      else ok (list_all_names s.cache)

  unfoldable pub upload_file_rpc :
      Text → Text → Text → Option Bytes → Option Text → Server D → Result (Unit {0}) × Server D
  upload_file_rpc token name path body base64 =
      permitted (check_static_bucket_file_permission w token name StaticBucketFile.write)
        (λ s. with_disk s (upload_file disk b64 static_path s.cache name path body base64 s.disk))

  unfoldable pub read_file_rpc : Text → Text → Text → Server D → Result Text
  read_file_rpc token name path s =
      check_static_bucket_file_permission w token name StaticBucketFile.read
      >> read_file disk b64 static_path s.cache name path s.disk

  unfoldable pub delete_file_rpc : Text → Text → Text → Server D → Result (Unit {0}) × Server D
  delete_file_rpc token name path =
      permitted (check_static_bucket_file_permission w token name StaticBucketFile.delete)
        (λ s. with_disk s (delete_file disk b64 static_path s.cache name path s.disk))

  unfoldable pub rename_file_rpc :
      Text → Text → Text → Text → Server D → Result (Unit {0}) × Server D
  rename_file_rpc token name from to =
      permitted (check_static_bucket_file_permission w token name StaticBucketFile.write) (
        permitted (check_static_bucket_file_permission w token name StaticBucketFile.delete)
          (λ s. with_disk s (rename_file disk b64 static_path s.cache name from to s.disk)))

  -- `list_file`: `none` when the fuel is used up. `tree` is what the disk has at a path.
  abbrev pub list_in : (PathBuf → D → Base) → ℕ → D → StaticFile → Option (Result (List FileInfo))
  list_in tree fuel d model = collect_files fuel (tree (components (join static_path model.path)) d)

  abbrev pub or_refused : {A B : Type 0} → Result A → (A → Option (Result B)) → Option (Result B)
  or_refused (err e) rest = some (err e)
  or_refused (ok a) rest = rest a

  unfoldable pub list_file_rpc :
      (PathBuf → D → Base) → ℕ → Text → Text → Server D → Option (Result (List FileInfo))
  list_file_rpc tree fuel token name s =
      or_refused
        (check_static_bucket_file_permission w token name StaticBucketFile.list
          >> (validate_name name >> cached_bucket s.cache name))
        (list_in tree fuel s.disk)
