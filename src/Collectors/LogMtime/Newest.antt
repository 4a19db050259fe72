-- ===== src/Collectors/LogMtime/Newest.antt =====
-- The log time collector with `LatestMtime` of internal/logfs: from the directories to the gauges.
use vpub_exporter.Prelude.{true, some, List, [], ◌∷◌, ◌≡◌, refl, ap, ◌∙◌, any, if◌then◌else◌, pos}
use vpub_exporter.Text.{Bytes, bytes_eq}
use vpub_exporter.Errors.{Result, ok}
use vpub_exporter.Clock.{Time, unix, is_zero}
use vpub_exporter.Components.{ComponentName, all_components}
use vpub_exporter.Prometheus.{Prometheus}
use vpub_exporter.Logfs.{DirEntry, latest_mtime}
use vpub_exporter.Logfs.Newest.{IsLatest, HasNames, latest_mtime-IsLatest}
use vpub_exporter.Collectors.LogMtime.{LogMtimeCollector, dir_for, tick}
use vpub_exporter.Collectors.LogMtime.Values.{tick_values}

module _ (P : Prometheus) where
  -- For a component whose directory can be read, with names for its entries, the gauge shows after a
  -- tick the seconds of the newest regular file's time, and 0 if no regular file is newer than the
  -- zero time, whatever the directories of the other components gave.
  pub tick-newest :
      (read_dir : Bytes → Result (List DirEntry)) (c : LogMtimeCollector P) (k : ComponentName)
      (es : List DirEntry)
      → any (bytes_eq k) all_components ≡ true
      → read_dir (dir_for P c k) ≡ ok es
      → HasNames es
      → (t : Time) × (n : Bytes) × IsLatest es t n
        × (P.value_at (tick P (λ dir. latest_mtime (read_dir dir)) c).0.mtime (k ∷ [])
            ≡ some (P.float64 (if is_zero t then pos 0 else unix t)))
  tick-newest read_dir c k es h r names =
      let (t, n, e, latest) = latest_mtime-IsLatest es names in
      let (value, outcome) = tick_values P (λ dir. latest_mtime (read_dir dir)) c k h in
      let found = ap latest_mtime r ∙ e in (t, n, latest, value ∙ rw found refl)
