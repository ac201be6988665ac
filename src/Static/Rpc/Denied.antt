-- ===== src/Static/Rpc/Denied.antt =====
-- crates/ng-static/src/rpc: which requests change anything.
use node_get.Prelude.{◌≡◌, ◌⊎◌, inl, inr, refl, ap, ◌∙◌, Bool, true, List, [], ◌∷◌, Option, All}
use node_get.Text.{Text}
use node_get.Error.{NodegetError, Result, ok, err, bind-ok}
use node_get.Permission.{Scope, Permission, StaticBucket, StaticBucketFile}
use node_get.Token.Auth.{World, TokenOrAuth, parsed, from_full_token, check_token_limit}
use node_get.Token.Guard.{parse_token, get_checker, parse_token→parsed, allowed_or→true}
use node_get.Static.StdPath.{PathBuf}
use node_get.Static.Bucket.{Server}
use node_get.Static.File.{Bytes, Disk, Base64}
use node_get.Static.Rpc.{
  check_scope, check_static_bucket_permission, check_static_bucket_file_permission, permitted,
  create, update, delete, upload_file_rpc, delete_file_rpc, rename_file_rpc,
}

-- The requests that can change the table, the cache or the disk, with the credential and the name.
pub data Request : Type 0 where
  create_bucket : Text → Text → Text → Bool → Bool → Request
  update_bucket : Text → Text → Text → Bool → Bool → Option Bool → Request
  delete_bucket : Text → Text → Request
  upload : Text → Text → Text → Option Bytes → Option Text → Request
  remove : Text → Text → Text → Request
  move : Text → Text → Text → Text → Request

-- The credential, the name and the permissions that a request must have.
abbrev pub needed : Request → Text × Text × List Permission
needed (create_bucket token name path root cors) =
    (token, name, Permission.static_bucket StaticBucket.write ∷ [])
needed (update_bucket token name path root cors enable) =
    (token, name, Permission.static_bucket StaticBucket.write ∷ [])
needed (delete_bucket token name) = (token, name, Permission.static_bucket StaticBucket.delete ∷ [])
needed (upload token name path body base64) =
    (token, name, Permission.static_bucket_file StaticBucketFile.write ∷ [])
needed (remove token name path) =
    (token, name, Permission.static_bucket_file StaticBucketFile.delete ∷ [])
needed (move token name from to) = (
  token,
  name,
  Permission.static_bucket_file StaticBucketFile.write
      ∷ Permission.static_bucket_file StaticBucketFile.delete
      ∷ [],
)

-- The credential passes `check_token_limit` for the bucket of that name.
abbrev pub Granted : World → Text → Text → Permission → Type 0
Granted w token name permission =
    (c : TokenOrAuth) × (from_full_token token ≡ parsed c)
    × (check_token_limit w c (Scope.static_bucket name ∷ []) (permission ∷ []) ≡ ok true)

check_scope→Granted :
    (w : World) (token name : Text) (p : Permission) (denial : NodegetError)
    → check_scope w token name p denial ≡ ok tt
    → Granted w token name p
check_scope→Granted w token name p denial h =
    let (c, x, h1) = bind-ok (parse_token token) _ tt h in
    let (u, y, h2) = bind-ok (get_checker w) _ tt h1 in
    let (b, z, h3) =
      bind-ok (check_token_limit w c (Scope.static_bucket name ∷ []) (p ∷ [])) _ tt h2 in
    (c, parse_token→parsed token c x, z ∙ ap ok (allowed_or→true denial b h3))

-- Either the check passes, or nothing is done.
permitted-cases :
    {A S : Type 0} (check : Result (Unit {0})) (rest : S → Result A × S) (s : S)
    → (check ≡ ok tt) ⊎ ((permitted check rest s).1 ≡ s)
permitted-cases (ok u) rest s = inl refl
permitted-cases (err e) rest s = inr refl

both_permitted :
    {A S : Type 0} (a b : Result (Unit {0})) (rest : S → Result A × S) (s : S)
    → ((permitted a (permitted b rest) s).1 ≡ s) ⊎ ((a ≡ ok tt) × (b ≡ ok tt))
both_permitted (err e) b rest s = inl refl
both_permitted (ok u) (err e) rest s = inl refl
both_permitted (ok u) (ok v) rest s = inr (refl, refl)

module _ {D : Type 0} (w : World) (disk : Disk D) (remove_dir_all : PathBuf → D → D) (b64 : Base64)
    (static_path : Text) where
  -- The server after a request, whatever the answer.
  abbrev pub handle : Request → Server D → Server D
  handle (create_bucket token name path root cors) s =
      (create w disk remove_dir_all b64 static_path token name path root cors s).1
  handle (update_bucket token name path root cors enable) s =
      (update w disk remove_dir_all b64 static_path token name path root cors enable s).1
  handle (delete_bucket token name) s =
      (delete w disk remove_dir_all b64 static_path token name s).1
  handle (upload token name path body base64) s =
      (upload_file_rpc w disk remove_dir_all b64 static_path token name path body base64 s).1
  handle (remove token name path) s =
      (delete_file_rpc w disk remove_dir_all b64 static_path token name path s).1
  handle (move token name from to) s =
      (rename_file_rpc w disk remove_dir_all b64 static_path token name from to s).1

  abbrev OneNeeded : Text → Text → Permission → Server D → Server D → Type 0
  OneNeeded token name p s s' = (s' ≡ s) ⊎ (Granted w token name p × Unit {0})

  one_check :
      {A : Type 0} (token name : Text) (p : Permission) (denial : NodegetError)
      (rest : Server D → Result A × Server D) (s : Server D)
      → OneNeeded token name p s (permitted (check_scope w token name p denial) rest s).1
  one_check token name p denial rest s =
      elim (permitted-cases (check_scope w token name p denial) rest s) [
        | inl e ↦ inr (check_scope→Granted w token name p denial e, tt)
        | inr e ↦ inl e
      ]

  -- A request that changes the buckets, their cache or the disk has a credential that passes
  -- check_token_limit for the bucket's name as it was sent and each permission that the request
  -- needs, two for a renaming.
  pub handle-Granted :
      (r : Request) (s : Server D)
      → (handle r s ≡ s) ⊎ All (Granted w (needed r).0 (needed r).1) (needed r).2
  unfolding create update delete upload_file_rpc delete_file_rpc rename_file_rpc
      check_static_bucket_permission check_static_bucket_file_permission
  handle-Granted (create_bucket token name path root cors) s = one_check token name _ _ _ s
  handle-Granted (update_bucket token name path root cors enable) s = one_check token name _ _ _ s
  handle-Granted (delete_bucket token name) s = one_check token name _ _ _ s
  handle-Granted (upload token name path body base64) s = one_check token name _ _ _ s
  handle-Granted (remove token name path) s = one_check token name _ _ _ s
  handle-Granted (move token name from to) s =
      elim (both_permitted (check_static_bucket_file_permission w token name StaticBucketFile.write)
        (check_static_bucket_file_permission w token name StaticBucketFile.delete) _ s) [
          | inl e ↦ inl e
          | inr (a, b) ↦
              inr (
                check_scope→Granted w token name _ _ a,
                (check_scope→Granted w token name _ _ b, tt),
              )
        ]
