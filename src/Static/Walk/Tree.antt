-- ===== src/Static/Walk/Tree.antt =====
-- crates/ng-static/src/ops.rs: the files of a tree and their entries, described without the walk.
use node_get.Prelude.{◌≡◌, ◌≤◌, ◌<◌, ◌⊎◌, List, [], ◌∷◌, ◌++◌, ℕ, Option, none, some, map}
use node_get.Text.{Text}
use node_get.Static.StdPath.{slash}
use node_get.Static.Walk.{
  Name, folder, file, symlink, special, Directory, gone, unreadable, listing, Entries, nothing,
  failed_entry, no_stat, entry, FileInfo,
}

-- The tree has a file at this path, with this size and time.
unfoldable mutual
  pub FileAt : Directory → List Name → ℕ → Option ℕ → Type 0
  FileAt gone names size modified = ⊥
  FileAt unreadable names size modified = ⊥
  FileAt (listing es) names size modified = EntryAt es names size modified

  pub EntryAt : Entries → List Name → ℕ → Option ℕ → Type 0
  EntryAt nothing names size modified = ⊥
  EntryAt failed_entry names size modified = ⊥
  EntryAt (no_stat name es) names size modified = EntryAt es names size modified
  EntryAt (entry name symlink es) names size modified = EntryAt es names size modified
  EntryAt (entry name special es) names size modified = EntryAt es names size modified
  EntryAt (entry name (folder d) es) names size modified =
      ((below : List Name) × (names ≡ name ∷ below) × FileAt d below size modified)
      ⊎ EntryAt es names size modified
  EntryAt (entry name (file s m) es) names size modified =
      ((names ≡ name ∷ []) × (size ≡ s) × (modified ≡ m)) ⊎ EntryAt es names size modified

-- The names with slashes between them, at least one.
abbrev pub Joined : List Text → Text → Type 0
Joined [] path = ⊥
Joined (x ∷ []) path = path ≡ x
Joined (x ∷ y ∷ xs) path = (rest : Text) × Joined (y ∷ xs) rest × (path ≡ x ++ slash ∷ rest)

-- The time where it can be had and is below 2^63, or else 0.
abbrev pub MillisOf : Option ℕ → ℕ → Type 0
MillisOf none mtime = mtime ≡ 0
MillisOf (some ms) mtime =
    ((ms < 9223372036854775808) × (mtime ≡ ms)) ⊎ ((9223372036854775808 ≤ ms) × (mtime ≡ 0))

-- The entry of a file: all its names are UTF-8.
abbrev pub IsInfo : List Name → ℕ → Option ℕ → FileInfo → Type 0
IsInfo names size modified info =
    (parts : List Text) × (names ≡ map some parts)
    × Joined parts info.path
    × (info.size ≡ size)
    × MillisOf modified info.mtime

-- The entry of some file of the tree.
abbrev pub OfTree : Directory → FileInfo → Type 0
OfTree d info =
    (names : List Name) × (size : ℕ) × (modified : Option ℕ) × FileAt d names size modified
    × IsInfo names size modified info
