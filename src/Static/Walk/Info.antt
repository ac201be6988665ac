-- ===== src/Static/Walk/Info.antt =====
-- crates/ng-static/src/ops.rs: the entry of one file.
use node_get.Prelude.{
  ◌≡◌, refl, sym, ap, ◌∙◌, subst, List, [], ◌∷◌, ◌++◌, ℕ, arith, inl, inr, Option, none, some, map,
  Member,
}
use node_get.Text.{Text}
use node_get.Static.StdPath.{slash}
use node_get.Static.Walk.{
  Name, FileInfo, file_info, info_of, utf8_parts, cons_name, join_parts, mtime_or_zero,
}
use node_get.Static.Walk.Tree.{Joined, MillisOf, IsInfo}

utf8_parts-some :
    (names : List Name) (parts : List Text) → utf8_parts names ≡ some parts → names ≡ map some parts
unfolding utf8_parts
utf8_parts-some [] parts h = cc h
utf8_parts-some (none ∷ names) parts h = cc h
utf8_parts-some (some x ∷ names) parts h =
    consed (utf8_parts names) (λ below e. utf8_parts-some names below e) h
  where
    consed :
        (o : Option (List Text))
        → ((below : List Text) → o ≡ some below → names ≡ map some below)
        → cons_name (some x) o ≡ some parts
        → some x ∷ names ≡ map some parts
    consed none same_names k = cc k
    consed (some below) same_names k =
        let same : x ∷ below ≡ parts = cc k in
        ap (λ l. some x ∷ l) (same_names below refl) ∙ ap (map some) same

utf8_parts-map : (parts : List Text) → utf8_parts (map some parts) ≡ some parts
unfolding utf8_parts
utf8_parts-map [] = refl
utf8_parts-map (x ∷ parts) = ap (cons_name (some x)) (utf8_parts-map parts)

join_parts-Joined : (x : Text) (parts : List Text) → Joined (x ∷ parts) (join_parts (x ∷ parts))
unfolding join_parts
join_parts-Joined x [] = refl
join_parts-Joined x (y ∷ parts) = (join_parts (y ∷ parts), join_parts-Joined y parts, refl)

Joined-join_parts : (parts : List Text) (path : Text) → Joined parts path → path ≡ join_parts parts
unfolding join_parts
Joined-join_parts [] path h = elim h [ ]
Joined-join_parts (x ∷ []) path h = h
Joined-join_parts (x ∷ y ∷ parts) path (rest, below, e) =
    e ∙ ap (λ r. x ++ slash ∷ r) (Joined-join_parts (y ∷ parts) rest below)

mtime_or_zero-MillisOf : (modified : Option ℕ) → MillisOf modified (mtime_or_zero modified)
mtime_or_zero-MillisOf none = refl
mtime_or_zero-MillisOf (some ms) = ground arith

MillisOf-mtime_or_zero :
    (modified : Option ℕ) (mtime : ℕ) → MillisOf modified mtime → mtime ≡ mtime_or_zero modified
MillisOf-mtime_or_zero none mtime h = h
MillisOf-mtime_or_zero (some ms) mtime h = ground (arith, h)

-- An entry that `file_info` makes is the file's.
pub file_info-IsInfo :
    (names : List Name) (size : ℕ) (modified : Option ℕ) (info : FileInfo)
    → Member info (file_info names size modified)
    → IsInfo names size modified info
file_info-IsInfo names size modified info = by_parts (utf8_parts names) refl
  where
    by_parts :
        (o : Option (List Text))
        → utf8_parts names ≡ o
        → Member info (info_of o size modified)
        → IsInfo names size modified info
    by_parts none e m = elim m [ ]
    by_parts (some []) e m = elim m [ ]
    by_parts (some (x ∷ parts)) e (inr m) = elim m [ ]
    by_parts (some (x ∷ parts)) e (inl same) = (
      x ∷ parts,
      utf8_parts-some names (x ∷ parts) e,
      subst (λ i. Joined (x ∷ parts) i.path) same (join_parts-Joined x parts),
      sym (ap (λ i. i.size) same),
      subst (λ i. MillisOf modified i.mtime) same (mtime_or_zero-MillisOf modified),
    )

pub IsInfo-file_info :
    (names : List Name) (size : ℕ) (modified : Option ℕ) (info : FileInfo)
    → IsInfo names size modified info
    → Member info (file_info names size modified)
IsInfo-file_info names size modified info ([], e, joined, s, t) = elim joined [ ]
IsInfo-file_info names size modified info (x ∷ parts, e, joined, s, t) =
    subst (λ o. Member info (info_of o size modified))
      (sym (ap utf8_parts e ∙ utf8_parts-map (x ∷ parts)))
      (inl (
        made (Joined-join_parts (x ∷ parts) info.path joined) s
          (MillisOf-mtime_or_zero modified info.mtime t)))
  where
    made :
        {path : Text} {bytes mtime : ℕ}
        → info.path ≡ path
        → info.size ≡ bytes
        → info.mtime ≡ mtime
        → record { path = path; size = bytes; mtime = mtime } ≡ info
    made a b c = cc (a, b, c)
