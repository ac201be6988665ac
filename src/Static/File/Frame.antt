-- ===== src/Static/File/Frame.antt =====
-- crates/ng-static/src/ops.rs: where the requests on the files of a bucket use the disk.
use node_get.Prelude.{◌≡◌, ◌≢◌, refl, sym, ap, ◌∙◌, subst, [], Option, none, some, if_case}
use node_get.Text.{Text}
use node_get.Error.{Result, ok, err, bind-ok}
use node_get.Static.StdPath.{PathBuf, parent}
use node_get.Static.Validate.{validate_name}
use node_get.Static.Validate.Inside.{LiesBelow, resolve_safe_file_path-below}
use node_get.Static.Bucket.{StaticFile, StaticCache}
use node_get.Static.File.{
  Bytes, IoResult, done, io_not_found, io_failed, Disk, Base64, cached_bucket, resolve_in,
  resolve_file, prepare_upload, prepare_rename, upload_file, delete_file, rename_file,
  create_parent, or_write_error, or_delete_error, or_rename_error, write_file, move_file, on_disk,
  path_eq, check_upload, upload_data,
}

pub data FileRequest : Type 0 where
  upload : Text → Text → Option Bytes → Option Text → FileRequest
  delete : Text → Text → FileRequest
  rename : Text → Text → Text → FileRequest

abbrev pub bucket_name : FileRequest → Text
bucket_name (upload name fp body base64) = name
bucket_name (delete name fp) = name
bucket_name (rename name from to) = name

-- The path lies in the directory of the cached bucket of this name.
abbrev pub InBucket : Text → Option StaticCache → Text → PathBuf → Type 0
InBucket sp cache name path =
    (model : StaticFile) × (cached_bucket cache name ≡ ok model) × LiesBelow sp model.path path

-- The second disk is left by calls on the first one, each on paths with the property: writing,
-- removing and renaming files, and creating the directory that such a path is in.
pub data Calls {D : Type 0} (disk : Disk D) (P : PathBuf → Type 0) : D → D → Type 0 where
  no_call : (d : D) → Calls disk P d d
  create_dir_of :
      (path up : PathBuf) (d d' : D)
      → P path
      → parent path ≡ some up
      → Calls disk P (disk.create_dir_all up d) d'
      → Calls disk P d d'
  write_at :
      (path : PathBuf) (bytes : Bytes) (d d' : D)
      → P path
      → Calls disk P (disk.write path bytes d).1 d'
      → Calls disk P d d'
  remove_at :
      (path : PathBuf) (d d' : D)
      → P path
      → Calls disk P (disk.remove_file path d).1 d'
      → Calls disk P d d'
  rename_at :
      (from to : PathBuf) (d d' : D)
      → P from
      → P to
      → Calls disk P (disk.rename from to d).1 d'
      → Calls disk P d d'

-- What an upload found is what a reader finds.
pub prepare_upload-resolve_file :
    (b64 : Base64) (sp : Text) (cache : Option StaticCache) (name fp : Text) (body : Option Bytes)
    (base64 : Option Text) (path : PathBuf) (bytes : Bytes)
    → prepare_upload b64 sp cache name fp body base64 ≡ ok (path, bytes)
    → (resolve_file sp cache name fp ≡ ok path) × (upload_data b64 body base64 ≡ ok bytes)
unfolding resolve_file
prepare_upload-resolve_file b64 sp cache name fp body base64 path bytes h =
    let (u, x, h1) = bind-ok (check_upload body base64) _ (path, bytes) h in
    let (v, y, h2) = bind-ok (validate_name name) _ (path, bytes) h1 in
    let (model, z, h3) = bind-ok (cached_bucket cache name) _ (path, bytes) h2 in
    let (found, t, h4) = bind-ok (upload_data b64 body base64) _ (path, bytes) h3 in
    let (p, r, h5) = bind-ok (resolve_in sp fp model) _ (path, bytes) h4 in
    let same : p ≡ path = cc h5 in
    let data_same : found ≡ bytes = cc h5 in (rw (y, z) (r ∙ ap ok same), t ∙ ap ok data_same)

pub resolve_file-InBucket :
    (sp : Text) (cache : Option StaticCache) (name fp : Text) (r : PathBuf)
    → sp ≢ []
    → resolve_file sp cache name fp ≡ ok r
    → InBucket sp cache name r
unfolding resolve_file
resolve_file-InBucket sp cache name fp r ne h =
    let (v, y, h1) = bind-ok (validate_name name) _ r h in
    let (model, z, h2) = bind-ok (cached_bucket cache name) _ r h1 in
    (model, z, resolve_safe_file_path-below sp model.path fp r ne h2)

prepare_rename-InBucket :
    (sp : Text) (cache : Option StaticCache) (name from to : Text) (a b : PathBuf)
    → sp ≢ []
    → prepare_rename sp cache name from to ≡ ok (a, b)
    → InBucket sp cache name a × InBucket sp cache name b
prepare_rename-InBucket sp cache name from to a b ne h =
    let (v, y, h1) = bind-ok (validate_name name) _ (a, b) h in
    let (model, z, h2) = bind-ok (cached_bucket cache name) _ (a, b) h1 in
    let (p, x, h3) = bind-ok (resolve_in sp from model) _ (a, b) h2 in
    let (q, t, h4) = bind-ok (resolve_in sp to model) _ (a, b) h3 in
    let pa : p ≡ a = cc h4 in
    let qb : q ≡ b = cc h4 in
    (
      subst (InBucket sp cache name) pa
          (model, z, resolve_safe_file_path-below sp model.path from p ne x),
      subst (InBucket sp cache name) qb
          (model, z, resolve_safe_file_path-below sp model.path to q ne t),
    )

-- What is left on the disk by the answer to a call.
write_answer : {D : Type 0} (r : IoResult (Unit {0}) × D) → (or_write_error r).1 ≡ r.1
write_answer (done u, d) = refl
write_answer (io_not_found, d) = refl
write_answer (io_failed, d) = refl

delete_answer : {D : Type 0} (r : IoResult (Unit {0}) × D) → (or_delete_error r).1 ≡ r.1
delete_answer (done u, d) = refl
delete_answer (io_not_found, d) = refl
delete_answer (io_failed, d) = refl

rename_answer :
    {D : Type 0} (from : Text) (r : IoResult (Unit {0}) × D) → (or_rename_error from r).1 ≡ r.1
rename_answer from (done u, d) = refl
rename_answer from (io_not_found, d) = refl
rename_answer from (io_failed, d) = refl

on_disk_keeps :
    {A D : Type 0} (P : D → Type 0) (r : Result A) (act : A → D → Result (Unit {0}) × D) (d : D)
    → P d
    → ((a : A) → r ≡ ok a → P (act a d).1)
    → P (on_disk r act d).1
on_disk_keeps P (err e) act d p k = p
on_disk_keeps P (ok a) act d p k = k a refl

module _ {D : Type 0} (disk : Disk D) (b64 : Base64) (sp : Text) (cache : Option StaticCache) where
  abbrev pub handle : FileRequest → D → D
  handle (upload name fp body base64) d = (upload_file disk b64 sp cache name fp body base64 d).1
  handle (delete name fp) d = (delete_file disk b64 sp cache name fp d).1
  handle (rename name from to) d = (rename_file disk b64 sp cache name from to d).1

  create_parent-Calls :
      (P : PathBuf → Type 0) (path : PathBuf) (d d' : D)
      → P path
      → Calls disk P (create_parent disk path d) d'
      → Calls disk P d d'
  create_parent-Calls P path d d' at = by_parent (parent path) refl
    where
      by_parent :
          (o : Option PathBuf)
          → parent path ≡ o
          → Calls disk P (elim o [ none ↦ d | some up ↦ disk.create_dir_all up d ]) d'
          → Calls disk P d d'
      by_parent none e k = k
      by_parent (some up) e k = create_dir_of path up d d' at e k

  -- With a configured directory that is not empty: whatever the disk, the names and the paths, a
  -- request to upload, delete or rename a file leaves the disk as calls on it do that create the
  -- directory of a path, or write, remove or rename at paths, and all these paths lie in the
  -- directory of the cached bucket that the request names.
  pub handle-Calls :
      (r : FileRequest) (d : D)
      → sp ≢ []
      → Calls disk (InBucket sp cache (bucket_name r)) d (handle r d)
  unfolding upload_file delete_file rename_file
  handle-Calls (upload name fp body base64) d ne =
      on_disk_keeps (Calls disk (InBucket sp cache name) d)
        (prepare_upload b64 sp cache name fp body base64) (write_file disk b64 sp cache) d
        (no_call d)
        (λ a. λ h.
          let resolved =
            (prepare_upload-resolve_file b64 sp cache name fp body base64 a.0 a.1 h).0 in
          let at = resolve_file-InBucket sp cache name fp a.0 ne resolved in
          create_parent-Calls (InBucket sp cache name) a.0 d _ at (
            write_at a.0 a.1 (create_parent disk a.0 d) _ at (
              subst (Calls disk (InBucket sp cache name) _)
                (sym (write_answer (disk.write a.0 a.1 (create_parent disk a.0 d)))) (no_call _))))
  handle-Calls (delete name fp) d ne =
      on_disk_keeps (Calls disk (InBucket sp cache name) d) (resolve_file sp cache name fp) _ d
        (no_call d)
        (λ path. λ h. remove_at path d _ (resolve_file-InBucket sp cache name fp path ne h) (
          subst (Calls disk (InBucket sp cache name) _)
            (sym (delete_answer (disk.remove_file path d))) (no_call _)))
  handle-Calls (rename name from to) d ne =
      on_disk_keeps (Calls disk (InBucket sp cache name) d) (prepare_rename sp cache name from to)
        (move_file disk b64 sp cache from) d (no_call d)
        (λ a. λ h.
          let inside = prepare_rename-InBucket sp cache name from to a.0 a.1 ne h in
          if_case (λ (r : Result (Unit {0}) × D). Calls disk (InBucket sp cache name) d r.1)
            (path_eq a.0 a.1) _ _ (λ e. no_call d)
            (λ e. create_parent-Calls (InBucket sp cache name) a.1 d _ inside.1 (
              rename_at a.0 a.1 (create_parent disk a.1 d) _ inside.0 inside.1 (
                subst (Calls disk (InBucket sp cache name) _)
                  (sym (rename_answer from (disk.rename a.0 a.1 (create_parent disk a.1 d))))
                  (no_call _)))))
