-- ===== src/Static/Walk/Listed.antt =====
-- crates/ng-static/src/ops.rs: the listing by recursion over the tree, which the walk is compared with.
use node_get.Prelude.{List, [], ◌∷◌, ◌++◌}
use node_get.Static.Walk.{
  Name, folder, file, symlink, special, Directory, gone, unreadable, listing, Entries, nothing,
  failed_entry, no_stat, entry, FileInfo, file_info,
}

-- The files below a directory, the contents of a folder where the folder stands.
unfoldable mutual
  pub all_files : List Name → Directory → List FileInfo
  all_files rel gone = []
  all_files rel unreadable = []
  all_files rel (listing es) = files_in rel es

  pub files_in : List Name → Entries → List FileInfo
  files_in rel nothing = []
  files_in rel failed_entry = []
  files_in rel (no_stat name es) = files_in rel es
  files_in rel (entry name symlink es) = files_in rel es
  files_in rel (entry name special es) = files_in rel es
  files_in rel (entry name (folder d) es) = all_files (rel ++ name ∷ []) d ++ files_in rel es
  files_in rel (entry name (file size modified) es) =
      file_info (rel ++ name ∷ []) size modified ++ files_in rel es
