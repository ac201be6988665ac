-- ===== src/Static/Validate/Plain.antt =====
-- crates/ng-static/src/ops.rs: file paths that are always resolved.
use mathlib.Core.List.{append_assoc, append-nil}
use node_get.Prelude.{◌≡◌, refl, sym, ap, ◌∙◌, [], ◌∷◌, ◌++◌, All}
use node_get.Text.{Text}
use node_get.Error.{ok}
use node_get.Static.StdPath.{
  Component, PathBuf, prefix, root_dir, cur_dir, parent_dir, normal, components, join,
}
use node_get.Static.StdPath.Push.{path_starts_with-append}
use node_get.Static.Validate.{validate_sub_path, resolve_components, resolve_safe_file_path}

-- Neither ".." nor a drive.
abbrev pub GoesDown : Component → Type 0
GoesDown parent_dir = ⊥
GoesDown prefix = ⊥
GoesDown _ = Unit {0}

-- The names among the components.
abbrev pub names : PathBuf → PathBuf
names [] = []
names (normal c ∷ path) = normal c ∷ names path
names (prefix ∷ path) = names path
names (root_dir ∷ path) = names path
names (cur_dir ∷ path) = names path
names (parent_dir ∷ path) = names path

resolve_components-names :
    (base path : PathBuf)
    → All GoesDown path
    → resolve_components base path ≡ ok (base ++ names path)
unfolding resolve_components
resolve_components-names base [] h = ap ok (sym (append-nil base))
resolve_components-names base (normal c ∷ path) h =
    resolve_components-names (base ++ normal c ∷ []) path h.1
    ∙ ap ok (append_assoc base (normal c ∷ []) (names path))
resolve_components-names base (root_dir ∷ path) h = resolve_components-names base path h.1
resolve_components-names base (cur_dir ∷ path) h = resolve_components-names base path h.1
resolve_components-names base (parent_dir ∷ path) h = elim h.0 [ ]
resolve_components-names base (prefix ∷ path) h = elim h.0 [ ]

-- In a bucket with an accepted directory, a file path without two dots is always resolved, to the
-- bucket's directory followed by the names in the path.
pub resolve_safe_file_path-names :
    (static_path sub_path file_path : Text)
    → validate_sub_path sub_path ≡ ok tt
    → All GoesDown (components file_path)
    → resolve_safe_file_path static_path sub_path file_path
      ≡ ok (components (join static_path sub_path) ++ names (components file_path))
unfolding resolve_safe_file_path
resolve_safe_file_path-names sp sub fp good h =
    let base = components (join sp sub) in
    rw (good, resolve_components-names base (components fp) h)
      (rw (path_starts_with-append base (names (components fp))) refl)
