-- ===== src/Logtail/Tailer.antt =====
-- The interface `Tailer` of internal/logtail/logtail.go, and the polling tailer as one. What
-- `Subscribe` gives for a directory and patterns is an error or a channel, which here is the list of
-- the matches that its goroutine sends.
use vpub_exporter.Prelude.{◌≡◌, true, List, arith, pos}
use vpub_exporter.Text.{Bytes, codes}
use vpub_exporter.Errors.{Result, ok, ◌>>=◌}
use vpub_exporter.Logtail.Drain.{Match, Reader}
use vpub_exporter.Logtail.Poll.{World, initial, loop, PollingTailer, subscribe}

abbrev pub Tailer : Type 0
Tailer = Bytes → List Bytes → Result (List Match)

-- By the rounds that the loop makes on a directory.
unfoldable pub polling : PollingTailer → Reader → (Bytes → List World) → Tailer
polling t r rounds dir patterns = do t' ← subscribe t; ok (loop r patterns (rounds dir) initial)

-- A tailer that knows how to find the newest file always gives a channel.
pub polling-ok :
    (t : PollingTailer) (r : Reader) (rounds : Bytes → List World) (dir : Bytes)
    (patterns : List Bytes)
    → t.has_latest_file_fn ≡ true
    → polling t r rounds dir patterns ≡ ok (loop r patterns (rounds dir) initial)
unfolding polling subscribe
polling-ok t r rounds dir patterns h = ground arith

-- NewPolling, for a function that is not nil
abbrev pub new_polling : PollingTailer
new_polling = record { has_latest_file_fn = true; poll_interval = pos 1000000000 }

-- PublisherTimestampPrefix
abbrev pub publisher_timestamp_prefix : Bytes
publisher_timestamp_prefix = codes "^\\d{4}-\\d{2}-\\d{2}T"
