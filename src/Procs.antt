-- ===== src/Procs.antt =====
-- internal/procs: `CountChildren` and `readPPID` of procs_proc.go.
pub mod Name
pub mod Stat
use vpub_exporter.Prelude.{
  ℕ, ◌+◌, Bool, false, ◌&&◌, Option, none, some, List, [], ◌∷◌, length, drop, leb, if◌then◌else◌, ℤ,
  pos, ltb_ℤ, leb_ℤ, eq_ℤ,
}
use vpub_exporter.Text.{Bytes, codes, is_empty, last_index, trim_space, fields, join, atoi}
use vpub_exporter.Errors.{Result, ok, err, failure, ◌>>=◌}

-- ChildLister, by its one method
abbrev pub ChildLister : Type 0
ChildLister = ℤ → Result ℕ

-- ProcFSLister
pub record ProcFsLister : Type 0 where
  pub root : Bytes

-- New
abbrev pub new_lister : ProcFsLister
new_lister = record { root = codes "/proc" }

-- os.DirEntry
pub record DirEntry : Type 0 where
  pub name : Bytes
  pub is_dir : Bool

-- What the file system returns.
pub record ProcFs : Type 0 where
  pub read_dir : Bytes → Result (List DirEntry)
  pub read_file : Bytes → Result Bytes

-- strconv.Atoi(fields[1]), if there is such a field
unfoldable pub ppid_field : List Bytes → Result ℤ
ppid_field (state ∷ ppid ∷ rest) = elim (atoi ppid) [
  | none ↦ err (failure (codes "strconv.Atoi"))
  | some n ↦ ok n
]
ppid_field _ = err (failure (codes "not enough fields in stat after comm"))

-- readPPID, on the content of the file
unfoldable pub parse_ppid : Bytes → Result ℤ
unfolding ppid_field
parse_ppid s = elim (last_index s b')') [
  | none ↦ err (failure (codes "malformed /proc/*/stat"))
  | some idx ↦
      if leb (length s) (idx + 2)
      then err (failure (codes "malformed /proc/*/stat"))
      else ppid_field (fields (trim_space (drop (idx + 1) s)))
]

unfoldable pub read_ppid : ProcFs → Bytes → Result ℤ
read_ppid fs path = do s ← fs.read_file path; parse_ppid s

-- The body of the loop: whether the entry is counted. The error of `readPPID` does not matter.
is_pid : Option ℤ → Bool
is_pid none = false
is_pid (some n) = ltb_ℤ (pos 0) n

has_ppid : ℤ → Result ℤ → Bool
has_ppid parent (err e) = false
has_ppid parent (ok n) = eq_ℤ n parent

unfoldable pub is_child : ProcFs → Bytes → ℤ → DirEntry → Bool
unfolding is_pid has_ppid
is_child fs root parent e =
    e.is_dir
    && is_pid (atoi e.name)
    && has_ppid parent (read_ppid fs (join (join root e.name) (codes "stat")))

unfoldable pub count_matching : ProcFs → Bytes → ℤ → List DirEntry → ℕ
count_matching fs root parent [] = 0
count_matching fs root parent (e ∷ es) =
    let n = count_matching fs root parent es in if is_child fs root parent e then n + 1 else n

unfoldable pub count_children : ProcFs → Bytes → ChildLister
count_children fs root parent =
    if leb_ℤ parent (pos 0)
    then ok 0
    else let at = if is_empty root then codes "/proc" else root in
      do entries ← fs.read_dir at; ok (count_matching fs at parent entries)

-- CountChildren of procs_proc_other.go, on other systems than Linux
abbrev pub other_count_children : ChildLister
other_count_children parent = err (failure (codes "/proc-based ChildLister only works on linux"))
