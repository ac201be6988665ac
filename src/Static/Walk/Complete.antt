-- ===== src/Static/Walk/Complete.antt =====
-- crates/ng-static/src/ops.rs: the listing ends, and has every file of the tree.
use node_get.Prelude.{
  ◌≡◌, ◌<◌, ◌⊎◌, ◌↔◌, Member, refl, sym, ap, ◌∙◌, Bool, true, false, List, [], ◌∷◌, ◌++◌, ℕ, zero,
  suc, ◌+◌, ◌&&◌, arith, inl, inr, Option, some,
}
use node_get.Error.{Result, ok, err, NodegetError}
use node_get.Static.Walk.{
  Name, folder, file, symlink, special, Directory, gone, unreadable, listing, Entries, nothing,
  failed_entry, no_stat, entry, is_dir, FileInfo, file_info, Queue, scan, walk, sort, sorted,
  collect_files,
}
use node_get.Static.Walk.Listed.{all_files, files_in}
use node_get.Static.Walk.Tree.{OfTree}
use node_get.Static.Walk.Described.{all_files-OfTree}
use node_get.Static.Walk.Counted.{count-Member}
use node_get.Static.Walk.Sort.{count, count-append, count-sort, IsSorted, sort-IsSorted}

-- How many directories there are.
unfoldable mutual
  pub dir_count : Directory → ℕ
  dir_count gone = 1
  dir_count unreadable = 1
  dir_count (listing es) = suc (dirs_in es)

  pub dirs_in : Entries → ℕ
  dirs_in nothing = 0
  dirs_in failed_entry = 0
  dirs_in (no_stat name es) = dirs_in es
  dirs_in (entry name symlink es) = dirs_in es
  dirs_in (entry name special es) = dirs_in es
  dirs_in (entry name (folder d) es) = dir_count d + dirs_in es
  dirs_in (entry name (file size modified) es) = dirs_in es

-- No directory and no entry fails to be read.
unfoldable mutual
  pub is_readable : Directory → Bool
  is_readable gone = true
  is_readable unreadable = false
  is_readable (listing es) = are_readable es

  pub are_readable : Entries → Bool
  are_readable nothing = true
  are_readable failed_entry = false
  are_readable (no_stat name es) = are_readable es
  are_readable (entry name symlink es) = are_readable es
  are_readable (entry name special es) = are_readable es
  are_readable (entry name (folder d) es) = is_readable d && are_readable es
  are_readable (entry name (file size modified) es) = are_readable es

-- The same of a queue.
abbrev dirs_of : Queue → ℕ
dirs_of [] = 0
dirs_of ((rel, d) ∷ q) = dir_count d + dirs_of q

abbrev files_of : (FileInfo → Bool) → Queue → ℕ
files_of p [] = 0
files_of p ((rel, d) ∷ q) = count p (all_files rel d) + files_of p q

abbrev queue_readable : Queue → Bool
queue_readable [] = true
queue_readable ((rel, d) ∷ q) = is_readable d && queue_readable q

dirs_of-append :
    (q : Queue) (rel : List Name) (d : Directory)
    → dirs_of (q ++ (rel, d) ∷ []) ≡ dirs_of q + dir_count d
dirs_of-append [] rel d = omega arith
dirs_of-append ((r, e) ∷ q) rel d = omega (arith, dirs_of-append q rel d)

files_of-append :
    (p : FileInfo → Bool) (q : Queue) (rel : List Name) (d : Directory)
    → files_of p (q ++ (rel, d) ∷ []) ≡ files_of p q + count p (all_files rel d)
files_of-append p [] rel d = omega arith
files_of-append p ((r, e) ∷ q) rel d = omega (arith, files_of-append p q rel d)

queue_readable-append :
    (q : Queue) (rel : List Name) (d : Directory)
    → queue_readable (q ++ (rel, d) ∷ []) ≡ (queue_readable q && is_readable d)
queue_readable-append [] rel d = ground arith
queue_readable-append ((r, e) ∷ q) rel d = ground (arith, queue_readable-append q rel d)

and_assoc : (a b c : Bool) → ((a && b) && c) ≡ (a && (b && c))
and_assoc true b c = refl
and_assoc false b c = refl

and_swap : (a b : Bool) → (a && b) ≡ (b && a)
and_swap true true = refl
and_swap true false = refl
and_swap false true = refl
and_swap false false = refl

-- What the loop over the entries does to the queue and the listing, or that it fails.
abbrev Scanned : List Name → Entries → Queue → List FileInfo → Type 0
Scanned rel es q out =
    ((e : NodegetError) × (scan rel es q out ≡ err e) × (are_readable es ≡ false))
    ⊎ ((q' : Queue) × (out' : List FileInfo) × (scan rel es q out ≡ ok (q', out'))
        × (dirs_of q' ≡ dirs_of q + dirs_in es)
        × (queue_readable q' ≡ (queue_readable q && are_readable es))
        × ((p : FileInfo → Bool)
            → count p out' + files_of p q'
              ≡ count p out + files_of p q + count p (files_in rel es)))

scan-Scanned :
    (rel : List Name) (es : Entries) (q : Queue) (out : List FileInfo) → Scanned rel es q out
unfolding scan dirs_in are_readable files_in
scan-Scanned rel nothing q out = inr (q, out, refl, omega arith, ground arith, λ p. omega arith)
scan-Scanned rel failed_entry q out = inl (_, refl, refl)
scan-Scanned rel (no_stat name es) q out = scan-Scanned rel es q out
scan-Scanned rel (entry name symlink es) q out = scan-Scanned rel es q out
scan-Scanned rel (entry name special es) q out = scan-Scanned rel es q out
scan-Scanned rel (entry name (file size modified) es) q out =
    elim (scan-Scanned rel es q (out ++ file_info (rel ++ name ∷ []) size modified)) [
      | inl h ↦ inl h
      | inr (q', out', a, b, c, f) ↦ inr (
        q',
        out',
        a,
        b,
        c,
        λ p. omega (
          arith,
          f p,
          count-append p out (file_info (rel ++ name ∷ []) size modified),
          count-append p (file_info (rel ++ name ∷ []) size modified) (files_in rel es),
        ),
      )
    ]
scan-Scanned rel (entry name (folder d) es) q out =
    elim (scan-Scanned rel es (q ++ (rel ++ name ∷ [], d) ∷ []) out) [
      | inl (e, a, b) ↦ inl (e, a, ground (arith, b))
      | inr (q', out', a, b, c, f) ↦ inr (
        q',
        out',
        a,
        omega (arith, b, dirs_of-append q (rel ++ name ∷ []) d),
        c
            ∙ ap (λ b. b && are_readable es) (queue_readable-append q (rel ++ name ∷ []) d)
            ∙ and_assoc (queue_readable q) (is_readable d) (are_readable es),
        λ p. omega (
          arith,
          f p,
          files_of-append p q (rel ++ name ∷ []) d,
          count-append p (all_files (rel ++ name ∷ []) d) (files_in rel es),
        ),
      )
    ]

-- What the loop over the queue returns.
abbrev Walked : ℕ → Queue → List FileInfo → Type 0
Walked fuel q out =
    ((e : NodegetError) × (walk fuel q out ≡ some (err e)) × (queue_readable q ≡ false))
    ⊎ ((out' : List FileInfo) × (walk fuel q out ≡ some (ok out'))
        × (queue_readable q ≡ true)
        × ((p : FileInfo → Bool) → count p out' ≡ count p out + files_of p q))

-- The rest of the walk after a directory.
abbrev after_scan : ℕ → Result (Queue × List FileInfo) → Option (Result (List FileInfo))
after_scan fuel (err e) = some (err e)
after_scan fuel (ok r) = walk fuel r.0 r.1

walk-Walked : (fuel : ℕ) (q : Queue) (out : List FileInfo) → dirs_of q < fuel → Walked fuel q out
unfolding walk dir_count is_readable all_files
walk-Walked zero q out h = ground (arith, h)
walk-Walked (suc fuel) [] out h = inr (out, refl, refl, λ p. omega arith)
walk-Walked (suc fuel) ((rel, gone) ∷ q) out h = elim (walk-Walked fuel q out (omega (arith, h))) [
  | inl x ↦ inl x
  | inr (r, x, y, z) ↦ inr (r, x, y, λ p. omega (arith, z p))
]
walk-Walked (suc fuel) ((rel, unreadable) ∷ q) out h = inl (_, refl, refl)
walk-Walked (suc fuel) ((rel, listing es) ∷ q) out h = elim (scan-Scanned rel es q out) [
  | inl (e, a, b) ↦ inl (e, ap (after_scan fuel) a, ap (λ r. r && queue_readable q) b)
  | inr (q', out', a, b, c, f) ↦
      let same : queue_readable q' ≡ (are_readable es && queue_readable q) =
        c ∙ and_swap (queue_readable q) (are_readable es) in
      elim (walk-Walked fuel q' out' (omega (arith, b, h))) [
        | inl (e, x, y) ↦ inl (e, ap (after_scan fuel) a ∙ x, sym same ∙ y)
        | inr (r, x, y, z) ↦
            inr (r, ap (after_scan fuel) a ∙ x, sym same ∙ y, λ p. omega (arith, z p, f p))
      ]
]

-- A listing in order, with the entries of the tree's files, each as often as a recursive listing
-- has it; or an error because something cannot be read.
abbrev pub Listed : ℕ → Directory → Type 0
Listed fuel d =
    ((e : NodegetError) × (collect_files fuel (is_dir d) ≡ some (err e)) × (is_readable d ≡ false))
    ⊎ ((files : List FileInfo) × (collect_files fuel (is_dir d) ≡ some (ok files))
        × (is_readable d ≡ true)
        × IsSorted files
        × ((info : FileInfo) → Member info files ↔ OfTree d info)
        × ((p : FileInfo → Bool) → count p files ≡ count p (all_files [] d)))

same_count-OfTree :
    (d : Directory) (files : List FileInfo)
    → ((p : FileInfo → Bool) → count p files ≡ count p (all_files [] d))
    → (info : FileInfo) → Member info files ↔ OfTree d info
same_count-OfTree d files same info = (
  λ m. (all_files-OfTree d info).0 (count-Member files (all_files [] d) same info m),
  λ t. count-Member (all_files [] d) files (λ p. sym (same p)) info ((all_files-OfTree d info).1 t),
)

-- On every tree of directories, more steps than it has directories are enough for the walk to end.
-- If all can be read, it lists, in the order of their paths, exactly the entries of the files that
-- are reached through directories and whose names are all UTF-8, each entry with the joined names,
-- the size and the time of its file, and as often as a recursive listing has it; otherwise it is
-- an error.
pub collect_files-total : (fuel : ℕ) (d : Directory) → dir_count d < fuel → Listed fuel d
unfolding collect_files
collect_files-total fuel d h = elim (walk-Walked fuel (([], d) ∷ []) [] (omega (arith, h))) [
  | inl (e, a, b) ↦ inl (e, ap sorted a, ground (arith, b))
  | inr (out, a, b, f) ↦
      let same : (p : FileInfo → Bool) → count p (sort out) ≡ count p (all_files [] d) =
        λ p. omega (arith, f p, count-sort p out) in
      inr (
        sort out,
        ap sorted a,
        ground (arith, b),
        sort-IsSorted out,
        same_count-OfTree d (sort out) same,
        same,
      )
]
