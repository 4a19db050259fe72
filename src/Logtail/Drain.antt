-- ===== src/Logtail/Drain.antt =====
-- `Match` of internal/logtail/logtail.go and `drain`, `CompilePatterns` of logtail_poll.go.
use vpub_exporter.Prelude.{
  ℕ, zero, suc, ◌+◌, Bool, false, not, Option, none, some, List, [], ◌∷◌, ◌++◌, ◌==◌, if◌then◌else◌,
  length,
}
use vpub_exporter.Text.{Bytes}
use vpub_exporter.Clock.{Time}
use vpub_exporter.Regexp.{Engine, match_string}
use vpub_exporter.Logtail.Timestamp.{parse_line_timestamp}

pub record Match : Type 0 where
  pub file : Bytes
  pub line : Bytes
  pub pattern : Bytes
  pub at : Time

-- The channel of matches. Before the context is cancelled it takes as many more sends as `room`
-- says, `none` for no cancellation; the next select then finds ctx.Done, and `live` says so. It is for
-- the drain to stop then: a send behind that would find the channel ready again.
pub record Outbox : Type 0 where
  pub sent : List Match
  pub room : Option ℕ
  pub live : Bool

-- select { case out <- m: case <-ctx.Done(): return }
unfoldable pub send : Outbox → Match → Outbox
send o m = elim o.room [
  | none ↦ record o { sent = o.sent ++ m ∷ [] }
  | some n ↦ elim n [
    | zero ↦ record o { room = none; live = false }
    | suc k ↦ record o { sent = o.sent ++ m ∷ []; room = some k }
  ]
]

-- The part of PollingTailer that drain reads: the engine and LinePrefix, `none` for nil.
pub record Reader : Type 0 where
  pub engine : Engine
  pub line_prefix : Option Bytes

-- t.LinePrefix != nil && !t.LinePrefix.MatchString(line)
unfoldable pub is_continuation : Reader → Bytes → Bool
is_continuation r line = elim r.line_prefix [
  | none ↦ false
  | some p ↦ not (match_string r.engine p line)
]

-- Match.At: the line's own time if it has one, else the time of the drain.
unfoldable pub line_time : Time → Bytes → Time
line_time fallback line = elim (parse_line_timestamp line) [ some ts ↦ ts | none ↦ fallback ]

module _ (r : Reader) (path : Bytes) (patterns : List Bytes) (fallback : Time) where
  unfoldable pub found : Bytes → Bytes → Match
  found line p = record { file = path; line = line; pattern = p; at = line_time fallback line }

  -- for _, p := range patterns
  unfoldable pub send_matches : Bytes → List Bytes → Outbox → Outbox
  unfolding found
  send_matches line [] o = o
  send_matches line (p ∷ ps) o =
      let sent = send o (found line p) in
      let after_send = send_matches line ps sent in
      let skipped = send_matches line ps o in
      if match_string r.engine p line then (if sent.live then after_send else sent) else skipped

  unfoldable pub handle_line : Bytes → Outbox → Outbox
  handle_line line o = if is_continuation r line then o else send_matches line patterns o

  -- The read loop. `line` holds the bytes read since the last newline; bytes behind the last newline
  -- stay for the next drain.
  unfoldable pub read_lines : Bytes → Bytes → ℕ → Outbox → ℕ × Outbox
  read_lines line [] off o = (off, o)
  read_lines line (c ∷ s) off o =
      let off' = off + (length line + 1) in
      let o' = handle_line line o in
      let next = read_lines [] s off' o' in
      let further = read_lines (line ++ c ∷ []) s off o in
      if c == b'\n' then (if o'.live then next else (off', o')) else further

-- drain. What Seek and the reads give is an argument: `none` if Seek fails, else the bytes from
-- the offset to the end of the file or to a read error.
unfoldable pub drain : Reader → Bytes → List Bytes → Time → Option Bytes → ℕ → Outbox → ℕ × Outbox
drain r path patterns now none off o = (off, o)
drain r path patterns now (some s) off o = read_lines r path patterns now [] s off o

-- CompilePatterns: the texts that compile, and those that do not, each of which is an error.
unfoldable pub compile_patterns : Engine → List Bytes → List Bytes × List Bytes
compile_patterns re [] = ([], [])
compile_patterns re (r ∷ rs) =
    let (compiled, errs) = compile_patterns re rs in
    if re.compiles r then (r ∷ compiled, errs) else (compiled, r ∷ errs)
