-- ===== src/Static/Validate.antt =====
-- crates/ng-static/src/ops.rs: the checks of a bucket's name and of its directory, and the
-- resolution of a file's path inside a bucket.
pub mod Accepted
pub mod Inside
pub mod Plain
use node_get.Prelude.{
  Bool, true, false, List, [], ◌∷◌, ◌++◌, ◌==◌, if◌then◌else◌, ℕ, ◌+◌, ◌||◌, ◌&&◌, not, Option,
  none, some, leb, ltb, all,
}
use node_get.Text.{byte_length, Text, contains}
use node_get.Error.{
  Result, ok, err, ◌>>◌, invalid_input, name_is_empty, name_too_long, name_has_bad_chars,
  name_is_dots, path_is_empty, path_too_long, path_has_backslash, path_has_parent, path_is_absolute,
  path_has_prefix, path_has_no_component, path_traversal_detected, absolute_path_not_allowed,
}
use node_get.Text.{byte_length, is_empty}
use node_get.Static.StdPath.{
  PathBuf, prefix, root_dir, cur_dir, parent_dir, normal, components, join, path_starts_with,
  parent,
}

-- `c.is_ascii_alphanumeric()`
unfoldable pub is_ascii_alphanumeric : ℕ → Bool
is_ascii_alphanumeric c = leb 48 c && leb c 57 || leb 65 c && leb c 90 || leb 97 c && leb c 122

abbrev pub is_name_char : ℕ → Bool
is_name_char c = is_ascii_alphanumeric c || c == 95 || c == 45 || c == 46

unfoldable pub validate_name : Text → Result (Unit {0})
validate_name name =
    if is_empty name
    then err (invalid_input name_is_empty)
    else if ltb 128 (byte_length name)
    then err (invalid_input name_too_long)
    else if not (all is_name_char name)
    then err (invalid_input name_has_bad_chars)
    else if all (λ c. c == 46) name
    then err (invalid_input name_is_dots)
    else ok tt

-- The loop over the components of a directory, with its flag, and the test after it.
unfoldable pub check_components : PathBuf → Bool → Result (Unit {0})
check_components [] true = ok tt
check_components [] false = err (invalid_input path_has_no_component)
check_components (normal c ∷ path) has_component = validate_name c >> check_components path true
check_components (cur_dir ∷ path) has_component = check_components path has_component
check_components (parent_dir ∷ path) has_component = err (invalid_input path_has_parent)
check_components (root_dir ∷ path) has_component = err (invalid_input path_is_absolute)
check_components (prefix ∷ path) has_component = err (invalid_input path_has_prefix)

unfoldable pub validate_sub_path : Text → Result (Unit {0})
validate_sub_path path =
    if is_empty path
    then err (invalid_input path_is_empty)
    else if ltb 512 (byte_length path)
    then err (invalid_input path_too_long)
    else if contains path 92
    then err (invalid_input path_has_backslash)
    else check_components (components path) false

-- The loop over the components of a file's path.
unfoldable pub resolve_components : PathBuf → PathBuf → Result PathBuf
resolve_components resolved [] = ok resolved
resolve_components resolved (normal c ∷ path) = resolve_components (resolved ++ normal c ∷ []) path
resolve_components resolved (root_dir ∷ path) = resolve_components resolved path
resolve_components resolved (cur_dir ∷ path) = resolve_components resolved path
resolve_components resolved (parent_dir ∷ path) = elim (parent resolved) [
  | none ↦ err (invalid_input path_traversal_detected)
  | some up ↦ resolve_components up path
]
resolve_components resolved (prefix ∷ path) = err (invalid_input absolute_path_not_allowed)

-- The test that the path is still below the bucket's directory.
abbrev pub check_inside : PathBuf → Result PathBuf → Result PathBuf
check_inside base (err e) = err e
check_inside base (ok resolved) =
    if path_starts_with resolved base
    then ok resolved
    else err (invalid_input path_traversal_detected)

unfoldable pub resolve_safe_file_path : Text → Text → Text → Result PathBuf
resolve_safe_file_path static_path sub_path file_path =
    validate_sub_path sub_path
    >> (let base = components (join static_path sub_path) in
        check_inside base (resolve_components base (components file_path)))
