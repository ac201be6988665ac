-- ===== src/Static/Tests/Toy.antt =====
-- A disk whose files are a function of the path.
use node_get.Prelude.{
  ◌≡◌, refl, sym, ap, ◌∙◌, Bool, true, false, ℕ, Option, none, some, arith, if◌then◌else◌, length,
}
use node_get.Text.{text_discrete}
use node_get.Static.StdPath.{PathBuf}
use node_get.Static.File.{Bytes, IoResult, done, io_not_found, Disk}
use node_get.Static.File.Kept.{ReadsBack}

abbrev pub Files : Type 0
Files = PathBuf → Option Bytes

unfoldable pub path_discrete : Discrete PathBuf
unfolding text_discrete
path_discrete = hlevel text_discrete

abbrev pub same_path : PathBuf → PathBuf → Bool
same_path p q = elim (path_discrete p q) [ yes _ ↦ true | no _ ↦ false ]

abbrev pub set : PathBuf → Option Bytes → Files → Files
set p content d q = if same_path p q then content else d q

abbrev pub moved : PathBuf → PathBuf → Option Bytes → Files → IoResult (Unit {0}) × Files
moved a b none d = (io_not_found, d)
moved a b (some content) d = (done tt, set b (some content) (set a none d))

abbrev pub removed : PathBuf → Option Bytes → Files → IoResult (Unit {0}) × Files
removed p none d = (io_not_found, d)
removed p (some content) d = (done tt, set p none d)

abbrev pub read_of : Option Bytes → IoResult Bytes
read_of none = io_not_found
read_of (some content) = done content

abbrev pub length_of : Option Bytes → IoResult ℕ
length_of none = io_not_found
length_of (some content) = done (length content)

abbrev pub disk : Disk Files
disk = record {
  create_dir_all = λ p d. d;
  write = λ p bytes d. (done tt, set p (some bytes) d);
  metadata_len = λ p d. length_of (d p);
  read = λ p d. read_of (d p);
  remove_file = λ p d. removed p (d p) d;
  rename = λ a b d. moved a b (d a) d;
}

set_same : (p : PathBuf) (content : Option Bytes) (d : Files) → set p content d p ≡ content
set_same p content d = elim (path_discrete p p) [
  | yes e ↦ ground arith
  | no ne ↦ elim (ne refl) [ ]
]

written_same :
    (p : PathBuf) (bytes : Bytes) (d d' : Files)
    → disk.write p bytes d ≡ (done tt, d')
    → (disk.read p d' ≡ done bytes) × (disk.metadata_len p d' ≡ done (length bytes))
written_same p bytes d d' h =
    let e : set p (some bytes) d ≡ d' = ap (λ r. r.1) h in
    let at : d' p ≡ some bytes = ap (λ f. f p) (sym e) ∙ set_same p (some bytes) d in
    (ap read_of at, ap length_of at)

pub disk-ReadsBack : (P : PathBuf → Type 0) → ReadsBack disk P
disk-ReadsBack P = record { written_is_read = λ p bytes d d' at h. written_same p bytes d d' h }
