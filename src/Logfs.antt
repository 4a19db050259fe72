-- ===== src/Logfs.antt =====
-- internal/logfs: `LatestMtime` of logfs_os.go.
pub mod Newest
pub mod First
use vpub_exporter.Prelude.{Bool, true, false, not, Option, none, some, List, [], ◌∷◌, if◌then◌else◌}
use vpub_exporter.Text.{Bytes, is_empty}
use vpub_exporter.Errors.{Result, ok, err}
use vpub_exporter.Clock.{Time, zero_time, after}

-- LogDirStat, by its one method
abbrev pub LogDirStat : Type 0
LogDirStat = Bytes → Result (Time × Bytes)

-- os.FileInfo of an entry, as far as it is read.
pub record Info : Type 0 where
  pub is_regular : Bool
  pub mod_time : Time

-- os.DirEntry; `info` is `none` where Info fails.
pub record DirEntry : Type 0 where
  pub name : Bytes
  pub is_dir : Bool
  pub info : Option Info

-- bestT and bestN
pub record Best : Type 0 where
  pub best_t : Time
  pub best_n : Bytes

-- The body of the loop.
unfoldable pub consider : Best → DirEntry → Best
consider b e = if e.is_dir then b else elim e.info [
  | none ↦ b
  | some info ↦
      if not info.is_regular
      then b
      else if after info.mod_time b.best_t
      then record { best_t = info.mod_time; best_n = e.name }
      else b
]

unfoldable pub consider_all : Best → List DirEntry → Best
consider_all b [] = b
consider_all b (e ∷ es) = consider_all (consider b e) es

-- LatestMtime, on what ReadDir gives.
unfoldable pub latest_mtime : Result (List DirEntry) → Result (Time × Bytes)
latest_mtime (err e) = err e
latest_mtime (ok entries) =
    let b = consider_all (record { best_t = zero_time; best_n = [] }) entries in
    if is_empty b.best_n then ok (zero_time, []) else ok (b.best_t, b.best_n)
