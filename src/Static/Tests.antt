-- ===== src/Static/Tests.antt =====
-- The theorems on static buckets, at a server of one bucket.
pub mod Toy
use node_get.Prelude.{
  ◌≡◌, ◌≢◌, ◌↔◌, ◌⊎◌, ◌≤◌, refl, inl, inr, Bool, true, false, List, [], ◌∷◌, ◌++◌, ℕ, Option, none,
  some, arith, All, Any, if◌then◌else◌, length, all, ltb,
}
use node_get.Text.{byte_length, Text, codes, contains, text_discrete}
use node_get.Dict.{lookup, insert}
use node_get.Error.{Result, ok, err}
use node_get.Permission.{Permission, StaticBucket}
use node_get.Token.Tests.{w}
use node_get.Static.StdPath.{
  Component, PathBuf, normal, components, join, path_starts_with, split, segments, segment,
  first_segments, path_starts_with, parent, component_eq, is_absolute, ends_with_slash,
}
use node_get.Static.Validate.{
  validate_name, validate_sub_path, resolve_safe_file_path, check_components, resolve_components,
  is_ascii_alphanumeric,
}
use node_get.Static.Validate.Accepted.{
  GoodName, Allowed, IsNormal, validate_name_iff, validate_sub_path_iff,
}
use node_get.Static.Validate.Inside.{LiesBelow, resolve_safe_file_path-below}
use node_get.Static.Validate.Plain.{names, resolve_safe_file_path-names}
use node_get.Static.Bucket.{
  StaticFile, StaticCache, Server, build_maps, build_from, get_by_name, read_static, find_by_name,
  get_http_root,
}
use node_get.Static.Bucket.Serve
use node_get.Static.Bucket.Serve.{IsSound, serve-IsSound}
use node_get.Static.Bucket.Cached.{first_root, read_static-rows}
use node_get.Static.File.{
  Bytes, IoResult, done, io_not_found, io_failed, Disk, Base64, upload_file, read_file, path_eq,
}
use node_get.Static.File.Kept.{read_file-upload_file}
use node_get.Static.File.Frame
use node_get.Static.File.Frame.{Calls, InBucket, handle-Calls}
use node_get.Static.Tests.Toy.{Files, disk, disk-ReadsBack, path_discrete}
use node_get.Static.Walk.{Directory, listing, nothing, no_stat, entry, file, folder, symlink}
use node_get.Static.Walk.Complete.{Listed, dir_count, collect_files-total}
use node_get.Static.Rpc.Denied
use node_get.Static.Rpc.Denied.{Granted, handle-Granted}

abbrev sp : Text
sp = codes "./static/"

abbrev sub : Text
sub = codes "sites/blog"

abbrev blog : StaticFile
blog = record {
  id = 1;
  name = codes "blog";
  path = sub;
  is_http_root = true;
  cors = false;
  enable = true;
}

abbrev server : Server Files
server = record {
  rows = blog ∷ [];
  next_id = 2;
  cache = some (build_maps (blog ∷ []));
  disk = λ p. none;
}

abbrev b64 : Base64
b64 = record { encode = λ bytes. bytes; decode = λ text. some text }

sub_accepted : validate_sub_path sub ≡ ok tt
unfolding validate_sub_path byte_length contains check_components components validate_name
    is_ascii_alphanumeric split segments segment first_segments text_discrete all
sub_accepted = refl

name_accepted : validate_name (codes "blog") ≡ ok tt
unfolding validate_name byte_length is_ascii_alphanumeric all
name_accepted = refl

server-IsSound : IsSound server
server-IsSound = (((tt, tt), ((omega arith, name_accepted, sub_accepted), tt)), refl)

-- A path that leaves the bucket and comes back.
abbrev there_and_back : Text
there_and_back = codes "../blog/./a.css"

abbrev a_css : PathBuf
a_css = components (join sp sub) ++ normal (codes "a.css") ∷ []

resolved : resolve_safe_file_path sp sub there_and_back ≡ ok a_css
unfolding resolve_safe_file_path resolve_components parent path_starts_with component_eq
    validate_sub_path byte_length contains check_components components join ends_with_slash
    is_absolute validate_name is_ascii_alphanumeric split segments segment first_segments
    text_discrete all
resolved = refl

resolve_safe_file_path-below_example : LiesBelow sp sub a_css
resolve_safe_file_path-below_example =
    resolve_safe_file_path-below sp sub there_and_back a_css (λ e. ground (arith, e)) resolved

abbrev requests : List Serve.Request
requests =
    Serve.create (codes " docs ") (codes "docs") false true
    ∷ Serve.update (codes "blog") (codes "b") false false none
    ∷ Serve.delete (codes "docs")
    ∷ []

serve-IsSound_example : IsSound (Serve.serve sp disk.create_dir_all (λ p d. d) requests server)
serve-IsSound_example =
    serve-IsSound sp disk.create_dir_all (λ p d. d) requests server server-IsSound

-- An upload of three bytes, and the disk after it.
abbrev after : Files
after =
    (upload_file disk b64 sp server.cache (codes "blog") (codes "a.css") (some (1 ∷ 2 ∷ 3 ∷ []))
      none server.disk).1

uploads :
    upload_file disk b64 sp server.cache
      (codes "blog")
      (codes "a.css")
      (some (1 ∷ 2 ∷ 3 ∷ []))
      none
      server.disk
    ≡ (ok tt, after)
unfolding upload_file get_by_name build_maps build_from lookup insert resolve_safe_file_path
    resolve_components parent path_starts_with component_eq validate_sub_path byte_length contains
    check_components components join ends_with_slash is_absolute validate_name is_ascii_alphanumeric
    split segments segment first_segments text_discrete all
uploads = refl

read_file-upload_file_example :
    read_file disk b64 sp server.cache (codes "blog") (codes "a.css") after ≡ ok (1 ∷ 2 ∷ 3 ∷ [])
read_file-upload_file_example =
    read_file-upload_file disk b64 sp server.cache (codes "blog") (codes "a.css")
      (some (1 ∷ 2 ∷ 3 ∷ [])) none (1 ∷ 2 ∷ 3 ∷ []) server.disk after (disk-ReadsBack _)
      (λ e. ground (arith, e)) uploads refl (omega arith)

abbrev rename_request : Frame.FileRequest
rename_request = Frame.rename (codes "blog") (codes "a.css") (codes "../blog/y")

handle-Calls_example :
    Calls disk
      (InBucket sp server.cache (codes "blog"))
      after
      (Frame.handle disk b64 sp server.cache rename_request after)
handle-Calls_example =
    handle-Calls disk b64 sp server.cache rename_request after (λ e. ground (arith, e))

abbrev tree : Directory
tree = listing (
    entry (some (codes "b")) (file 3 (some 5)) (
      entry (some (codes "a")) (folder (listing (entry (some (codes "c")) (file 1 none) nothing)))
        (entry (some (codes "l")) symlink (no_stat none nothing))))

collect_files-total_example : Listed 3 tree
unfolding dir_count
collect_files-total_example = collect_files-total 3 tree (omega arith)

abbrev remove_request : Denied.Request
remove_request = Denied.delete_bucket (codes "mia|pw") (codes "blog")

handle-Granted_example :
    (Denied.handle w disk (λ p d. d) b64 sp remove_request server ≡ server)
    ⊎ All
        (Granted w (codes "mia|pw") (codes "blog"))
        (Permission.static_bucket StaticBucket.delete ∷ [])
handle-Granted_example = handle-Granted w disk (λ p d. d) b64 sp remove_request server
