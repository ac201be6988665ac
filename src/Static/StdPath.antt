-- ===== src/Static/StdPath.antt =====
-- `std::path` on Unix, as crates/ng-static/src/ops.rs uses it: a path is its sequence of components,
-- which is what `components`, `starts_with`, `push`, `pop` and `==` of the library go by.
pub mod Laws
pub mod Push
use node_get.Prelude.{
  Bool, true, false, List, [], ◌∷◌, ◌++◌, ◌==◌, if◌then◌else◌, ℕ, ◌&&◌, Option, none, some,
}
use node_get.Text.{Text, text_eq, is_empty}

pub data Component : Type 0 where
  prefix root_dir cur_dir parent_dir : Component
  normal : Text → Component

abbrev pub PathBuf : Type 0
PathBuf = List Component

abbrev pub slash : ℕ
slash = 47

abbrev pub dot : Text
dot = 46 ∷ []

abbrev pub dot_dot : Text
dot_dot = 46 ∷ 46 ∷ []

abbrev pub onto_first : ℕ → List Text → List Text
onto_first c [] = (c ∷ []) ∷ []
onto_first c (x ∷ xs) = (c ∷ x) ∷ xs

-- The texts between the slashes of a path.
unfoldable pub split : Text → List Text
split [] = [] ∷ []
split (c ∷ s) = let rest = split s in if c == slash then [] ∷ rest else onto_first c rest

-- What a text between slashes stands for, unless it is the first.
unfoldable pub segment : Text → PathBuf
segment x =
    if is_empty x
    then []
    else if text_eq x dot
    then []
    else if text_eq x dot_dot
    then parent_dir ∷ []
    else normal x ∷ []

unfoldable pub segments : List Text → PathBuf
segments [] = []
segments (x ∷ xs) = segment x ++ segments xs

-- A leading "." is a component of its own.
unfoldable pub first_segments : List Text → PathBuf
first_segments [] = []
first_segments (x ∷ xs) = (if text_eq x dot then cur_dir ∷ [] else segment x) ++ segments xs

unfoldable pub is_absolute : Text → Bool
is_absolute [] = false
is_absolute (c ∷ s) = c == slash

-- `Path::new(s).components()`
unfoldable pub components : Text → PathBuf
components [] = []
components (c ∷ s) =
    if c == slash then root_dir ∷ segments (split s) else first_segments (split (c ∷ s))

unfoldable pub ends_with_slash : Text → Bool
ends_with_slash [] = false
ends_with_slash (c ∷ []) = c == slash
ends_with_slash (c ∷ d ∷ s) = ends_with_slash (d ∷ s)

-- `Path::new(a).join(b)`
unfoldable pub join : Text → Text → Text
join a b =
    if is_absolute b
    then b
    else if is_empty a
    then b
    else if ends_with_slash a
    then a ++ b
    else a ++ slash ∷ b

unfoldable pub component_eq : Component → Component → Bool
component_eq prefix prefix = true
component_eq root_dir root_dir = true
component_eq cur_dir cur_dir = true
component_eq parent_dir parent_dir = true
component_eq (normal a) (normal b) = text_eq a b
component_eq _ _ = false

-- `path.starts_with(base)`
unfoldable pub path_starts_with : PathBuf → PathBuf → Bool
path_starts_with path [] = true
path_starts_with [] (b ∷ base) = false
path_starts_with (c ∷ path) (b ∷ base) = component_eq c b && path_starts_with path base

-- `path.pop()`: the parent, where the path has one.
unfoldable pub parent : PathBuf → Option PathBuf
parent [] = none
parent (prefix ∷ []) = none
parent (root_dir ∷ []) = none
parent (cur_dir ∷ []) = some []
parent (parent_dir ∷ []) = some []
parent (normal a ∷ []) = some []
parent (c ∷ d ∷ path) = elim (parent (d ∷ path)) [ none ↦ none | some up ↦ some (c ∷ up) ]
