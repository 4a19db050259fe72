-- ===== src/Main/Tailing.antt =====
-- The tailer that `run` of cmd/vpub-exporter/main.go makes for the log collectors, and the file that
-- it follows.
pub mod Newest
use vpub_exporter.Prelude.{some, List, [], ◌≡◌, arith, if◌then◌else◌}
use vpub_exporter.Text.{Bytes, is_empty, join}
use vpub_exporter.Errors.{ok}
use vpub_exporter.Clock.{Time, seconds}
use vpub_exporter.Regexp.{Engine}
use vpub_exporter.Logfs.{DirEntry, latest_mtime}
use vpub_exporter.Logfs.Newest.{IsLatest, HasNames, latest_mtime-IsLatest}
use vpub_exporter.Logtail.Drain.{Reader}
use vpub_exporter.Logtail.Poll.{PollingTailer}
use vpub_exporter.Logtail.Tailer.{new_polling, publisher_timestamp_prefix}
use vpub_exporter.Main.{tail_latest}

-- tailer
abbrev pub run_tailer : PollingTailer
run_tailer = record new_polling { poll_interval = seconds 2 }

abbrev pub run_reader : Engine → Reader
run_reader re = record { engine = re; line_prefix = some publisher_timestamp_prefix }

-- For a directory that can be read, whose entries have names, the log collectors' tailer is told to
-- follow the first of the newest regular files, by its path in the directory, or nothing, the empty
-- path, if no regular file is newer than the zero time.
pub tail_latest-IsLatest :
    (dir : Bytes) (es : List DirEntry)
    → HasNames es
    → (t : Time) × (n : Bytes) × (tail_latest (λ d. latest_mtime (ok es)) dir
        ≡ ok (if is_empty n then [] else join dir n))
      × IsLatest es t n
unfolding tail_latest
tail_latest-IsLatest dir es h =
    let (t, n, e, latest) = latest_mtime-IsLatest es h in
    (t, n, rw (e, tail_latest) (ground arith), latest)
