-- ===== src/Tests/Tailing.antt =====
-- Examples for the tailer and for the newest log file.
use vpub_exporter.Logtail.Drain.{drain}
use vpub_exporter.Logtail.Cancel.{bounded, drain-take}
use vpub_exporter.Procs.{parse_ppid}
use vpub_exporter.Procs.Name.{behind_name}
use vpub_exporter.Prelude.{
  All, ℕ, true, false, none, some, List, [], ◌∷◌, ◌++◌, ◌≡◌, inl, refl, map, pos, arith,
  if◌then◌else◌,
}
use vpub_exporter.Text.{Bytes, codes, bytes_eq, is_empty, join, trim_space, fields, atoi}
use vpub_exporter.Errors.{Result, ok, err, failure}
use vpub_exporter.Components.{component_visor}
use vpub_exporter.Collectors.LogMtime.{LogMtimeCollector, dir_for}
use vpub_exporter.Collectors.LogMtime
use vpub_exporter.Collectors.LogMtime.Newest.{tick-newest}
use vpub_exporter.Clock.{zero_time, Time, is_zero, unix}
use vpub_exporter.Logtail.Drain.{is_continuation}
use vpub_exporter.Logtail.Timestamp.{parse_line_timestamp}
use vpub_exporter.Logtail.Poll.{InodeKey, World, initial, poll, loop}
use vpub_exporter.Logtail.Lines.{lines, opened, all_matches}
use vpub_exporter.Logtail.Delivery.{done, more, delivery, deliveries}
use vpub_exporter.Logtail.Stamped.{TimedIn, loop-TimedIn}
use vpub_exporter.Logtail.Rotating.{
  Segment, Rotating, waiting, rotated, truncated, ended, all_deliveries, loop_rotating,
}
use vpub_exporter.Logtail.Rotation.{poll_stat_failure}
use vpub_exporter.Logfs.{DirEntry, latest_mtime}
use vpub_exporter.Logfs.Newest.{IsLatest}
use vpub_exporter.Tests.Ideal.{
  ideal, no_gauges, reader, key, world, world-Serves, serving, serving-Serves,
}

abbrev path : Bytes
path = codes "/l/1"

abbrev patterns : List Bytes
patterns = codes "vote" ∷ codes "o" ∷ []

abbrev first : Bytes
first = codes "a vote\nb\nhalf a v"

abbrev second : Bytes
second = codes "ote\nnew"

abbrev next_path : Bytes
next_path = codes "/l/2"

abbrev next_key : InodeKey
next_key = record { dev = 1; ino = 8 }

abbrev third : Bytes
third = codes "b\nmore of it\n"

-- The same file, cut and written again.
abbrev fourth : Bytes
fourth = codes "o\n"

abbrev no_file : World
no_file = record (world []) { latest_file = ok [] }

-- One round with no file, two of the first file, one of the next, and one after it was cut.
abbrev rounds : List World
rounds =
    no_file
    ∷ world first
    ∷ world (first ++ second)
    ∷ serving next_path 4 next_key third
    ∷ serving next_path 4 next_key fourth
    ∷ []

abbrev segments : List Segment
segments = (path, first ++ second) ∷ (next_path, third) ∷ (next_path, fourth) ∷ []

rounds-Rotating : Rotating initial rounds segments
rounds-Rotating = waiting refl (inl refl) (
    rotated path 3 key (world first) first (first ++ second) refl refl (world-Serves first)
      (more second (world-Serves (first ++ second)) done)
      (rotated next_path 4 next_key (serving next_path 4 next_key third) third third refl refl
        (serving-Serves next_path 4 next_key third) done
        (truncated next_path 4 next_key (serving next_path 4 next_key fourth) third fourth fourth
          refl (omega arith) (serving-Serves next_path 4 next_key fourth) done ended)))

loop_rotating_example :
    map delivery (loop reader patterns rounds initial) ≡ all_deliveries reader patterns segments
loop_rotating_example = loop_rotating reader patterns rounds segments rounds-Rotating

loop-TimedIn_example : All (TimedIn rounds) (loop reader patterns rounds initial)
loop-TimedIn_example = loop-TimedIn reader patterns rounds initial

-- The line that came in two pieces is matched once by each pattern.
deliveries_run :
    deliveries reader patterns path (lines [] (first ++ second))
    ≡ record { file = path; line = codes "a vote"; pattern = codes "vote" }
      ∷ record { file = path; line = codes "a vote"; pattern = codes "o" }
      ∷ record { file = path; line = codes "half a vote"; pattern = codes "vote" }
      ∷ record { file = path; line = codes "half a vote"; pattern = codes "o" }
      ∷ []
unfolding is_continuation vpub_exporter.Text.contains
deliveries_run = refl

-- A round in which Stat of the opened file fails.
abbrev blind : World
blind = record (world first) { stat_handle = λ h. none }

poll_stat_failure_example :
    ((poll reader patterns blind initial).1
      ≡ opened (all_matches reader path patterns zero_time (lines [] first)))
    × ((poll reader patterns (world first) (poll reader patterns blind initial).0).1
        ≡ opened (all_matches reader path patterns zero_time (lines [] first)))
poll_stat_failure_example =
    poll_stat_failure reader patterns path 3 key refl blind (world first) first initial (inl refl)
      refl refl refl refl refl refl (world-Serves first)

abbrev at_second : ℕ → Time
at_second n = record { sec = pos n; nsec = 0 }

abbrev log_file : Bytes → ℕ → DirEntry
log_file name n = record {
  name = name;
  is_dir = false;
  info = some (record { is_regular = true; mod_time = at_second n });
}

abbrev directory : List DirEntry
directory =
    log_file (codes "20260605") 5
    ∷ record { name = codes "old"; is_dir = true; info = none }
    ∷ log_file (codes "20260606") 8
    ∷ log_file (codes "copy") 8
    ∷ []

abbrev pub log_times : LogMtimeCollector ideal
log_times = record { visor_log_dir = codes "/v"; component_log_dir = codes "/l"; mtime = no_gauges }

-- Only the directory of the visor can be read.
abbrev read_dir : Bytes → Result (List DirEntry)
read_dir dir = if bytes_eq dir (codes "/v") then ok directory else err (failure dir)

tick-newest_example :
    (t : Time) × (n : Bytes) × IsLatest directory t n
    × ((vpub_exporter.Collectors.LogMtime.tick ideal
            (λ dir. latest_mtime (read_dir dir))
            log_times).0.mtime
          (component_visor ∷ [])
        ≡ some (if is_zero t then pos 0 else unix t))
unfolding dir_for
tick-newest_example =
    tick-newest ideal read_dir log_times component_visor directory refl refl
      (refl, (refl, (refl, (refl, tt))))

latest_mtime_run : latest_mtime (ok directory) ≡ ok (at_second 8, codes "20260606")
unfolding latest_mtime vpub_exporter.Logfs.consider_all vpub_exporter.Logfs.consider
latest_mtime_run = refl

drain-take_example :
    ((drain reader path patterns zero_time (some first) 0 (bounded [] 1)).1.sent
      ≡ record { file = path; line = codes "a vote"; pattern = codes "vote"; at = zero_time } ∷ [])
    × ((drain reader path patterns zero_time (some first) 0 (bounded [] 1)).1.live ≡ false)
unfolding is_continuation vpub_exporter.Text.contains vpub_exporter.Logtail.Drain.found
    vpub_exporter.Logtail.Drain.line_time parse_line_timestamp
drain-take_example = drain-take reader path patterns zero_time first 0 1

parse_ppid_run : behind_name (codes " R 7 42") ≡ ok (pos 7)
unfolding vpub_exporter.Procs.ppid_field trim_space fields atoi
parse_ppid_run = refl
