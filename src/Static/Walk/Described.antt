-- ===== src/Static/Walk/Described.antt =====
-- crates/ng-static/src/ops.rs: the entries of the recursive listing are those of the files.
use mathlib.Core.List.{append_assoc}
use node_get.Prelude.{
  ◌≡◌, ◌⊎◌, ◌↔◌, refl, sym, ap, ◌∙◌, subst, List, [], ◌∷◌, ◌++◌, ℕ, inl, inr, Option, Member,
}
use node_get.Prelude.Members.{Member-append}
use node_get.Static.Walk.{
  Name, folder, file, symlink, special, Directory, gone, unreadable, listing, Entries, nothing,
  failed_entry, no_stat, entry, FileInfo, file_info,
}
use node_get.Static.Walk.Listed.{all_files, files_in}
use node_get.Static.Walk.Tree.{FileAt, EntryAt, OfTree}
use node_get.Static.Walk.Info.{file_info-IsInfo, IsInfo-file_info}

Member-split :
    {A : Type 0} (a : A) (xs ys : List A) → Member a (xs ++ ys) → Member a xs ⊎ Member a ys
Member-split a [] ys m = inr m
Member-split a (x ∷ xs) ys (inl e) = inl (inl e)
Member-split a (x ∷ xs) ys (inr m) = elim (Member-split a xs ys m) [
  | inl l ↦ inl (inr l)
  | inr r ↦ inr r
]

Member-append_right : {A : Type 0} (a : A) (xs ys : List A) → Member a ys → Member a (xs ++ ys)
Member-append_right a [] ys m = m
Member-append_right a (x ∷ xs) ys m = inr (Member-append_right a xs ys m)

-- Made by `file_info` for a file at a path below `rel`.
abbrev MadeBelow : List Name → (List Name → ℕ → Option ℕ → Type 0) → FileInfo → Type 0
MadeBelow rel At info =
    (names : List Name) × (size : ℕ) × (modified : Option ℕ) × At names size modified
    × Member info (file_info (rel ++ names) size modified)

later_entry :
    (rel : List Name) (At At' : List Name → ℕ → Option ℕ → Type 0) (info : FileInfo)
    → ((names : List Name) (size : ℕ) (modified : Option ℕ)
        → At names size modified
        → At' names size modified)
    → MadeBelow rel At info
    → MadeBelow rel At' info
later_entry rel At At' info f (names, size, modified, at, m) =
    (names, size, modified, f names size modified at, m)

mutual
  unfolding all_files files_in FileAt EntryAt

  all_files-MadeBelow :
      (rel : List Name) (d : Directory) (info : FileInfo)
      → Member info (all_files rel d)
      → MadeBelow rel (FileAt d) info
  all_files-MadeBelow rel gone info m = elim m [ ]
  all_files-MadeBelow rel unreadable info m = elim m [ ]
  all_files-MadeBelow rel (listing es) info m = files_in-MadeBelow rel es info m

  files_in-MadeBelow :
      (rel : List Name) (es : Entries) (info : FileInfo)
      → Member info (files_in rel es)
      → MadeBelow rel (EntryAt es) info
  files_in-MadeBelow rel nothing info m = elim m [ ]
  files_in-MadeBelow rel failed_entry info m = elim m [ ]
  files_in-MadeBelow rel (no_stat name es) info m = files_in-MadeBelow rel es info m
  files_in-MadeBelow rel (entry name symlink es) info m = files_in-MadeBelow rel es info m
  files_in-MadeBelow rel (entry name special es) info m = files_in-MadeBelow rel es info m
  files_in-MadeBelow rel (entry name (folder d) es) info m =
      elim (Member-split info (all_files (rel ++ name ∷ []) d) (files_in rel es) m) [
        | inl l ↦
            let (below, size, modified, at, made) =
              all_files-MadeBelow (rel ++ name ∷ []) d info l in
            (
              name ∷ below,
              size,
              modified,
              inl (below, refl, at),
              subst (λ path. Member info (file_info path size modified))
                  (append_assoc rel (name ∷ []) below) made,
            )
        | inr r ↦
            later_entry rel (EntryAt es) _ info (λ n s t at. inr at)
              (files_in-MadeBelow rel es info r)
      ]
  files_in-MadeBelow rel (entry name (file size modified) es) info m =
      elim (Member-split info (file_info (rel ++ name ∷ []) size modified) (files_in rel es) m) [
        | inl l ↦ (name ∷ [], size, modified, inl (refl, refl, refl), l)
        | inr r ↦
            later_entry rel (EntryAt es) _ info (λ n s t at. inr at)
              (files_in-MadeBelow rel es info r)
      ]

mutual
  unfolding all_files files_in FileAt EntryAt

  MadeBelow-all_files :
      (rel : List Name) (d : Directory) (info : FileInfo)
      → MadeBelow rel (FileAt d) info
      → Member info (all_files rel d)
  MadeBelow-all_files rel gone info (names, size, modified, at, m) = elim at [ ]
  MadeBelow-all_files rel unreadable info (names, size, modified, at, m) = elim at [ ]
  MadeBelow-all_files rel (listing es) info made = MadeBelow-files_in rel es info made

  MadeBelow-files_in :
      (rel : List Name) (es : Entries) (info : FileInfo)
      → MadeBelow rel (EntryAt es) info
      → Member info (files_in rel es)
  MadeBelow-files_in rel nothing info (names, size, modified, at, m) = elim at [ ]
  MadeBelow-files_in rel failed_entry info (names, size, modified, at, m) = elim at [ ]
  MadeBelow-files_in rel (no_stat name es) info made = MadeBelow-files_in rel es info made
  MadeBelow-files_in rel (entry name symlink es) info made = MadeBelow-files_in rel es info made
  MadeBelow-files_in rel (entry name special es) info made = MadeBelow-files_in rel es info made
  MadeBelow-files_in rel (entry name (folder d) es) info
        (names, size, modified, inl (below, e, at), m) =
      Member-append info (all_files (rel ++ name ∷ []) d) (files_in rel es) (
        MadeBelow-all_files (rel ++ name ∷ []) d info (
          below,
          size,
          modified,
          at,
          subst (λ path. Member info (file_info path size modified))
              (ap (λ n. rel ++ n) e ∙ sym (append_assoc rel (name ∷ []) below)) m,
        ))
  MadeBelow-files_in rel (entry name (folder d) es) info (names, size, modified, inr at, m) =
      Member-append_right info (all_files (rel ++ name ∷ []) d) (files_in rel es)
        (MadeBelow-files_in rel es info (names, size, modified, at, m))
  MadeBelow-files_in rel (entry name (file s t) es) info (names, size, modified, inl (e, f, g), m) =
      Member-append info (file_info (rel ++ name ∷ []) s t) (files_in rel es) (same_file e f g m)
    where
      same_file :
          names ≡ name ∷ []
          → size ≡ s
          → modified ≡ t
          → Member info (file_info (rel ++ names) size modified)
          → Member info (file_info (rel ++ name ∷ []) s t)
      same_file e f g m = rw (sym e, sym f, sym g) m
  MadeBelow-files_in rel (entry name (file s t) es) info (names, size, modified, inr at, m) =
      Member-append_right info (file_info (rel ++ name ∷ []) s t) (files_in rel es)
        (MadeBelow-files_in rel es info (names, size, modified, at, m))

-- The recursive listing has the entries of the files of the tree.
pub all_files-OfTree :
    (d : Directory) (info : FileInfo) → Member info (all_files [] d) ↔ OfTree d info
all_files-OfTree d info = (
  λ m.
      let (names, size, modified, at, made) = all_files-MadeBelow [] d info m in
      (names, size, modified, at, file_info-IsInfo names size modified info made),
  λ (names, size, modified, at, is_info).
      MadeBelow-all_files [] d info
        (names, size, modified, at, IsInfo-file_info names size modified info is_info),
)
