-- ===== src/Static/Walk.antt =====
-- crates/ng-static/src/ops.rs: `collect_files`, the listing of a bucket's directory.
-- The directory is what the calls of `std::fs` return while it is read.
pub mod Sort
pub mod Listed
pub mod Tree
pub mod Info
pub mod Described
pub mod Counted
pub mod Complete
use node_get.Prelude.{
  ◌≡◌, ◌≢◌, Bool, true, false, List, [], ◌∷◌, ◌++◌, if◌then◌else◌, ℕ, zero, suc, ◌&&◌, ◌+◌, ◌^◌,
  Option, none, some, ltb, length, ◌==◌,
}
use node_get.Text.{Text}
use node_get.Error.{
  NodegetError, Result, ok, err, ◌>>=◌, io_error, failed_to_stat_static_dir, failed_to_read_dir,
  failed_to_read_dir_entry,
}
use node_get.Static.StdPath.{slash}

-- A name of the file system: `none` where it is not UTF-8.
abbrev pub Name : Type 0
Name = Option Text

mutual
  -- `symlink_metadata` of an entry: a file has its size, and its time in milliseconds after 1970 where
  -- that can be had.
  pub data Node : Type 0 where
    folder : Directory → Node
    file : ℕ → Option ℕ → Node
    symlink special : Node

  -- `read_dir`
  pub data Directory : Type 0 where
    gone unreadable : Directory
    listing : Entries → Directory

  -- The entries, one after the other.
  pub data Entries : Type 0 where
    nothing failed_entry : Entries
    no_stat : Name → Entries → Entries
    entry : Name → Node → Entries → Entries

-- `metadata` of the bucket's directory.
pub data Base : Type 0 where
  is_dir : Directory → Base
  not_dir missing stat_failed : Base

pub record FileInfo : Type 0 where
  pub path : Text
  pub size : ℕ
  pub mtime : ℕ

-- `i64::try_from`, and 0 for a time that cannot be had.
abbrev pub mtime_or_zero : Option ℕ → ℕ
mtime_or_zero none = 0
mtime_or_zero (some ms) = if ltb ms (2 ^ 63) then ms else 0

abbrev pub cons_name : Name → Option (List Text) → Option (List Text)
cons_name none parts = none
cons_name (some s) none = none
cons_name (some s) (some parts) = some (s ∷ parts)

-- The names of a relative path, if all are UTF-8.
unfoldable pub utf8_parts : List Name → Option (List Text)
utf8_parts [] = some []
utf8_parts (name ∷ rel) = cons_name name (utf8_parts rel)

-- `parts.join("/")`
unfoldable pub join_parts : List Text → Text
join_parts [] = []
join_parts (x ∷ []) = x
join_parts (x ∷ y ∷ xs) = x ++ slash ∷ join_parts (y ∷ xs)

-- The entry of the listing, unless the path is not UTF-8 or empty.
abbrev pub info_of : Option (List Text) → ℕ → Option ℕ → List FileInfo
info_of none size modified = []
info_of (some []) size modified = []
info_of (some (x ∷ parts)) size modified =
    record { path = join_parts (x ∷ parts); size = size; mtime = mtime_or_zero modified } ∷ []

abbrev pub file_info : List Name → ℕ → Option ℕ → List FileInfo
file_info rel size modified = info_of (utf8_parts rel) size modified

abbrev pub Queue : Type 0
Queue = List (List Name × Directory)

-- The loop over the entries of the directory at `rel`.
unfoldable pub scan : List Name → Entries → Queue → List FileInfo → Result (Queue × List FileInfo)
scan rel nothing queue out = ok (queue, out)
scan rel failed_entry queue out = err (io_error failed_to_read_dir_entry)
scan rel (no_stat name es) queue out = scan rel es queue out
scan rel (entry name symlink es) queue out = scan rel es queue out
scan rel (entry name special es) queue out = scan rel es queue out
scan rel (entry name (folder d) es) queue out =
    scan rel es (queue ++ (rel ++ name ∷ [], d) ∷ []) out
scan rel (entry name (file size modified) es) queue out =
    scan rel es queue (out ++ file_info (rel ++ name ∷ []) size modified)

-- The loop over the queue: `none` when the fuel is used up.
unfoldable pub walk : ℕ → Queue → List FileInfo → Option (Result (List FileInfo))
walk zero queue out = none
walk (suc fuel) [] out = some (ok out)
walk (suc fuel) ((rel, gone) ∷ queue) out = walk fuel queue out
walk (suc fuel) ((rel, unreadable) ∷ queue) out = some (err (io_error failed_to_read_dir))
walk (suc fuel) ((rel, listing es) ∷ queue) out = elim (scan rel es queue out) [
  | err e ↦ some (err e)
  | ok r ↦ walk fuel r.0 r.1
]

-- `a.path.cmp(&b.path)`, as "not greater"; the bytes of UTF-8 are ordered as the code points are.
unfoldable pub text_le : Text → Text → Bool
text_le [] b = true
text_le (c ∷ a) [] = false
text_le (c ∷ a) (d ∷ b) = if ltb c d then true else (c == d) && text_le a b

unfoldable pub insert_sorted : FileInfo → List FileInfo → List FileInfo
insert_sorted f [] = f ∷ []
insert_sorted f (g ∷ gs) = if text_le f.path g.path then f ∷ g ∷ gs else g ∷ insert_sorted f gs

-- `sort_by`, which keeps the order of equal paths.
unfoldable pub sort : List FileInfo → List FileInfo
sort [] = []
sort (f ∷ fs) = insert_sorted f (sort fs)

abbrev pub sorted : Option (Result (List FileInfo)) → Option (Result (List FileInfo))
sorted none = none
sorted (some (err e)) = some (err e)
sorted (some (ok out)) = some (ok (sort out))

unfoldable pub collect_files : ℕ → Base → Option (Result (List FileInfo))
collect_files fuel (is_dir d) = sorted (walk fuel (([], d) ∷ []) [])
collect_files fuel not_dir = some (ok [])
collect_files fuel missing = some (ok [])
collect_files fuel stat_failed = some (err (io_error failed_to_stat_static_dir))
