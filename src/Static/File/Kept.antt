-- ===== src/Static/File/Kept.antt =====
-- crates/ng-static/src/ops.rs: a file that was uploaded is read back.
use node_get.Prelude.{◌≡◌, ◌≢◌, ◌≤◌, [], Option, arith, length, inl, inr}
use node_get.Text.{Text}
use node_get.Error.{ok, Result-cases}
use node_get.Static.StdPath.{PathBuf}
use node_get.Static.Bucket.{StaticCache}
use node_get.Static.File.{
  Bytes, IoResult, done, io_not_found, io_failed, Disk, Base64, max_static_file_size, upload_data,
  prepare_upload, upload_file, read_file, read_at, create_parent, or_write_error,
}
use node_get.Static.File.Frame.{InBucket, resolve_file-InBucket, prepare_upload-resolve_file}

write_done :
    {D : Type 0} (r : IoResult (Unit {0}) × D) (d' : D)
    → or_write_error r ≡ (ok tt, d')
    → r ≡ (done tt, d')
write_done (done u, d) d' h = ground arith
write_done (io_not_found, d) d' h = cc h
write_done (io_failed, d) d' h = cc h

-- A file that was just written at such a path has the bytes that were written.
pub record ReadsBack {D : Type 0} (disk : Disk D) (P : PathBuf → Type 0) : Type 0 where
  pub written_is_read :
      (p : PathBuf) (bytes : Bytes) (d d' : D)
      → P p
      → disk.write p bytes d ≡ (done tt, d')
      → (disk.read p d' ≡ done bytes) × (disk.metadata_len p d' ≡ done (length bytes))

-- On a disk that reads what was just written to a path in the bucket's directory, and with a
-- configured directory that is not empty: after an upload that succeeds, of at most 8 MiB, reading
-- the file gives the base64 text of the data.
pub read_file-upload_file :
    {D : Type 0} (disk : Disk D) (b64 : Base64) (sp : Text) (cache : Option StaticCache)
    (name fp : Text) (body : Option Bytes) (base64 : Option Text) (bytes : Bytes) (d d' : D)
    → ReadsBack disk (InBucket sp cache name)
    → sp ≢ []
    → upload_file disk b64 sp cache name fp body base64 d ≡ (ok tt, d')
    → upload_data b64 body base64 ≡ ok bytes
    → length bytes ≤ max_static_file_size
    → read_file disk b64 sp cache name fp d' ≡ ok (b64.encode bytes)
unfolding upload_file read_file read_at
read_file-upload_file disk b64 sp cache name fp body base64 bytes d d' laws ne h given fits =
    elim (Result-cases (prepare_upload b64 sp cache name fp body base64)) [
      | inr (e, x) ↦ cc (x, h)
      | inl ((path, found), x) ↦
          let (at, same) =
            prepare_upload-resolve_file b64 sp cache name fp body base64 path found x in
          let same_bytes : found ≡ bytes = cc (same, given) in
          let w : disk.write path found (create_parent disk path d) ≡ (done tt, d') =
            write_done (disk.write path found (create_parent disk path d)) d'
              (ground (arith, x, h)) in
          let (reads, size) =
            laws.written_is_read path found (create_parent disk path d) d'
              (resolve_file-InBucket sp cache name fp path ne at) w in
          rw (at, size, reads, same_bytes) (ground (arith, fits))
    ]
