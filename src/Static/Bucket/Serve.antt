-- ===== src/Static/Bucket/Serve.antt =====
-- crates/ng-static/src/ops.rs: sequences of operations on the buckets.
use node_get.Prelude.{
  ◌≡◌, refl, Bool, true, List, [], ◌∷◌, Option, none, some, any, not, ◌==◌, ◌&&◌, if_case,
  match_case,
}
use node_get.Prelude.Pairs.{All-keep, Pairwise-keep, Pairwise-map}
use node_get.Text.{Text}
use node_get.Error.{Result, ok, err}
use node_get.Static.StdPath.{PathBuf}
use node_get.Static.Validate.{validate_name, validate_sub_path}
use node_get.Text.{trim}
use node_get.Static.Bucket.{
  StaticFile, StaticCache, Server, find_by_name, other_root, set_columns, update_row, reload_maps,
  refuse, create_static, update_static, delete_static,
}
use node_get.Static.Bucket.Valid.{
  Apart, GoodRow, Valid, find_by_name→Member, find_by_name-none, Valid-append, new_root,
  updated_root, update-Apart, update-GoodRow, Free,
}

pub data Request : Type 0 where
  create : Text → Text → Bool → Bool → Request
  update : Text → Text → Bool → Bool → Option Bool → Request
  delete : Text → Request

-- The rows are valid and the cache, where there is one, was built from them.
abbrev pub IsSound : {D : Type 0} → Server D → Type 0
IsSound s = Valid s.rows s.next_id × (s.cache ≡ reload_maps s.cache s.rows)

reload_maps_twice :
    (cache : Option StaticCache) (rows : List StaticFile)
    → reload_maps cache rows ≡ reload_maps (reload_maps cache rows) rows
reload_maps_twice none rows = refl
reload_maps_twice (some c) rows = refl

module _ {D : Type 0} (static_path : Text) (create_dir_all remove_dir_all : PathBuf → D → D) where
  -- The state after a request, whatever its answer.
  abbrev pub handle : Request → Server D → Server D
  handle (create name path root cors) s =
      (create_static static_path create_dir_all remove_dir_all name path root cors s).1
  handle (update name path root cors enable) s =
      (update_static static_path create_dir_all remove_dir_all name path root cors enable s).1
  handle (delete name) s = (delete_static static_path create_dir_all remove_dir_all name s).1

  unfoldable pub serve : List Request → Server D → Server D
  serve [] s = s
  serve (r ∷ rs) s = serve rs (handle r s)

  refuse-keeps :
      {A : Type 0} (P : Server D → Type 0) (check : Result (Unit {0}))
      (rest : Server D → Result A × Server D) (s : Server D)
      → P s
      → (check ≡ ok tt → P (rest s).1)
      → P (refuse static_path create_dir_all remove_dir_all check rest s).1
  refuse-keeps P (ok u) rest s p k = k refl
  refuse-keeps P (err e) rest s p k = p

  abbrev LeavesSound : (A : Type 0) → Result A × Server D → Type 0
  LeavesSound A r = IsSound r.1

  create-IsSound :
      (name path : Text) (root cors : Bool) (s : Server D)
      → IsSound s
      → IsSound (handle (create name path root cors) s)
  unfolding create_static
  create-IsSound name path root cors s h =
      refuse-keeps IsSound (validate_name (trim name)) _ s h (λ good.
        refuse-keeps IsSound (validate_sub_path (trim path)) _ s h (λ sub.
          match_case (LeavesSound StaticFile) (find_by_name (trim name) s.rows) _ _
            (λ new.
              if_case (LeavesSound StaticFile) (root && any (λ r. r.is_http_root) s.rows) _ _
                (λ taken. h)
                (λ free. (
                  Valid-append s.rows
                      (record {
                        id = s.next_id;
                        name = trim name;
                        path = trim path;
                        is_http_root = root;
                        cors = cors;
                        enable = true;
                      })
                      h.0 (find_by_name-none (trim name) s.rows new) (new_root s.rows root free)
                      good sub,
                  reload_maps_twice s.cache _,
                )))
            (λ r. λ found. h)))

  update-IsSound :
      (name path : Text) (root cors : Bool) (enable : Option Bool) (s : Server D)
      → IsSound s
      → IsSound (handle (update name path root cors enable) s)
  unfolding update_static
  update-IsSound name path root cors enable s h =
      refuse-keeps IsSound (validate_name (trim name)) _ s h (λ good.
        refuse-keeps IsSound (validate_sub_path (trim path)) _ s h (λ sub.
          match_case (LeavesSound StaticFile) (find_by_name (trim name) s.rows) _ _ (λ absent. h)
            (λ model. λ found.
              if_case (LeavesSound StaticFile)
                ((root && not (model.is_http_root)) && any (other_root (model.id)) s.rows) _ _
                (λ taken. h)
                (λ free. (
                  (
                    Pairwise-map Apart (Free model.id root)
                        (update_row model.id (set_columns (trim path) root cors enable))
                        (update-Apart model.id (trim path) root cors enable) s.rows
                        (updated_root s.rows model root h.0.0
                          (find_by_name→Member (trim name) s.rows model found).0 free)
                        h.0.0,
                    update-GoodRow s.next_id model.id (trim path) root cors enable s.rows sub h.0.1,
                  ),
                  reload_maps_twice s.cache _,
                )))))

  delete-IsSound : (name : Text) (s : Server D) → IsSound s → IsSound (handle (delete name) s)
  unfolding delete_static
  delete-IsSound name s h = refuse-keeps IsSound (validate_name (trim name)) _ s h (λ good.
      match_case (LeavesSound (Unit {0})) (find_by_name (trim name) s.rows) _ _ (λ absent. h)
        (λ model. λ found. (
          (
            Pairwise-keep Apart (λ r. not (r.id == model.id)) s.rows h.0.0,
            All-keep (GoodRow s.next_id) (λ r. not (r.id == model.id)) s.rows h.0.1,
          ),
          reload_maps_twice s.cache _,
        )))

  -- Any sequence of requests to create, update and delete buckets keeps that keys and names are
  -- unique, that at most one bucket is the root, that every name and directory is an accepted one,
  -- and that the cache is built from the rows.
  pub serve-IsSound : (rs : List Request) (s : Server D) → IsSound s → IsSound (serve rs s)
  unfolding serve
  serve-IsSound [] s h = h
  serve-IsSound (create name path root cors ∷ rs) s h =
      serve-IsSound rs _ (create-IsSound name path root cors s h)
  serve-IsSound (update name path root cors enable ∷ rs) s h =
      serve-IsSound rs _ (update-IsSound name path root cors enable s h)
  serve-IsSound (delete name ∷ rs) s h = serve-IsSound rs _ (delete-IsSound name s h)
