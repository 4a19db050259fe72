-- ===== src/Main/Tailing/Newest.antt =====
-- The tailer of `run` and the directory that it watches, round by round.
use vpub_exporter.Prelude.{
  ℕ, true, false, List, [], ◌∷◌, ◌++◌, ◌≡◌, refl, sym, ap, ◌∙◌, All, map, append-nil,
}
use vpub_exporter.Text.{Bytes, is_empty, is_empty-join, join}
use vpub_exporter.Errors.{ok}
use vpub_exporter.Clock.{Time, zero_time, after}
use vpub_exporter.Regexp.{Engine}
use vpub_exporter.Logfs.{DirEntry, latest_mtime}
use vpub_exporter.Logfs.Newest.{IsNotAfter, IsFirst, HasNames, IsFirst-named}
use vpub_exporter.Logfs.First.{latest_mtime-first}
use vpub_exporter.Logtail.Poll.{InodeKey, World, initial, loop}
use vpub_exporter.Logtail.Lines.{lines}
use vpub_exporter.Logtail.Delivery.{Serves, Growing, done, more, delivery, deliveries}
use vpub_exporter.Logtail.Rotating.{Rotating, rotated, ended, loop_rotating}
use vpub_exporter.Main.{tail_latest}
use vpub_exporter.Main.Tailing.{run_reader}

-- A round in which the file `n` with the content `c` is the first of the newest files of the
-- directory, among any other entries, and the calls on it succeed.
pub record SeesNewest (dir n : Bytes) (h : ℕ) (k : InodeKey) (w : World) (c : Bytes) : Type 0 where
  pub entries : List DirEntry
  pub time : Time
  pub named : HasNames entries
  pub first : IsFirst time n entries
  pub newest : All (IsNotAfter time) entries
  pub since : after time zero_time ≡ true
  pub latest_is : w.latest_file ≡ tail_latest (λ d. latest_mtime (ok entries)) dir
  pub served : Serves (join dir n) h k (record w { latest_file = ok (join dir n) }) c

-- The file grows from `c`, by any bytes before each round, to `z`, and stays the newest.
pub data StaysNewest (dir n : Bytes) (h : ℕ) (k : InodeKey)
    : Bytes → List World → Bytes → Type 0 where
  over : {c : Bytes} → StaysNewest dir n h k c [] c
  again :
      {c z : Bytes} {w : World} {ws : List World} (d : Bytes)
      → SeesNewest dir n h k w (c ++ d)
      → StaysNewest dir n h k (c ++ d) ws z
      → StaysNewest dir n h k c (w ∷ ws) z

module _ (dir n : Bytes) (h : ℕ) (k : InodeKey) where
  tail_latest-newest :
      (w : World) (c : Bytes) → SeesNewest dir n h k w c → w.latest_file ≡ ok (join dir n)
  unfolding tail_latest
  tail_latest-newest w c s =
      s.latest_is
      ∙ rw
          (
            latest_mtime-first s.entries s.time n s.named s.first s.newest s.since,
            IsFirst-named s.entries s.named s.first,
          )
          refl

  SeesNewest-Serves :
      (w : World) (c : Bytes) → SeesNewest dir n h k w c → Serves (join dir n) h k w c
  SeesNewest-Serves w c s = record {
    info = s.served.info;
    latest_is = tail_latest-newest w c s;
    stat_is = s.served.stat_is;
    inode_is = s.served.inode_is;
    size_is = s.served.size_is;
    opens = s.served.opens;
    handle_is = s.served.handle_is;
    reads = s.served.reads;
    not_cancelled = s.served.not_cancelled;
  }

  StaysNewest-Growing :
      {c z : Bytes} {ws : List World}
      → StaysNewest dir n h k c ws z
      → Growing (join dir n) h k c ws z
  StaysNewest-Growing over = done
  StaysNewest-Growing (again {c = c} {w = w} d s later) =
      more d (SeesNewest-Serves w (c ++ d) s) (StaysNewest-Growing later)

  SeesNewest-named :
      (w : World) (c : Bytes) → SeesNewest dir n h k w c → is_empty (join dir n) ≡ false
  SeesNewest-named w c s = is_empty-join dir n (IsFirst-named s.entries s.named s.first)

  -- The tailer of run, told by LatestMtime what the directory's newest file is, sends each
  -- pattern's match for each complete line of that file exactly once, in order, and nothing from
  -- any other file. In each round the file is the first of the newest regular files, newer than the
  -- zero time, among any other entries with names; it only grows, and every call on it succeeds.
  pub loop_newest :
      (re : Engine) (patterns : List Bytes) (w : World) (ws : List World) (c z : Bytes)
      → SeesNewest dir n h k w c
      → StaysNewest dir n h k c ws z
      → map delivery (loop (run_reader re) patterns (w ∷ ws) initial)
        ≡ deliveries (run_reader re) patterns (join dir n) (lines [] z)
  loop_newest re patterns w ws c z s later =
      let whole : Rotating initial (w ∷ ws ++ []) ((join dir n, z) ∷ []) =
        rotated (join dir n) h k w c z (SeesNewest-named w c s) refl (SeesNewest-Serves w c s)
          (StaysNewest-Growing later) ended in
      ap (λ rounds. map delivery (loop (run_reader re) patterns (w ∷ rounds) initial))
        (sym (append-nil ws))
      ∙ loop_rotating (run_reader re) patterns (w ∷ ws ++ []) ((join dir n, z) ∷ []) whole
      ∙ append-nil (deliveries (run_reader re) patterns (join dir n) (lines [] z))
