-- ===== src/Tests/LastVotes.antt =====
-- Examples for the gauges of the last successful votes.
use vpub_exporter.Prelude.{inl, inr, List, [], ◌∷◌, refl, map, All}
use vpub_exporter.Text.{Bytes, codes, contains, index_byte, atoi}
use vpub_exporter.Clock.{date, days_in}
use vpub_exporter.Logtail.Timestamp.{parse_line_timestamp, parse_in_location}
use vpub_exporter.Logtail.Drain.{is_continuation, compile_patterns}
use vpub_exporter.Logtail.Poll.{World, initial}
use vpub_exporter.Logtail.Tailer.{polling}
use vpub_exporter.Logtail.Delivery.{done}
use vpub_exporter.Logtail.Rotating.{Segment, Rotating, rotated, ended, all_deliveries}
use vpub_exporter.Collectors.VoteLogs.{first_capture1_int, first_capture2, line_matches_any}
use vpub_exporter.Collectors.VoteLogs.Start.{
  start, bridge_dir, oracle_dir, bridge_patterns, oracle_patterns,
}
use vpub_exporter.Collectors.VoteLogs.LastOk.{
  IsDated, ShowsLast, is_vote, is_oracle_ok, start_last_ok,
}
use vpub_exporter.Tests.Ideal.{ideal, literal, reader, world, world-Serves, key}
use vpub_exporter.Tests.Starts.{config, interval, in_turn, in_turn-Interleaves, started, patterns}

-- A line of the bridge voter, one of the oracle publisher, and one of neither.
abbrev log : Bytes
log =
    codes "2026-06-06T11:50:04.670582 INFO a vote\n2026-06-06T11:51:04 INFO oracle\nCRIT no time\n"

abbrev files : List Segment
files = (codes "/l/1", log) ∷ []

abbrev rounds : Bytes → List World
rounds dir = world log ∷ []

rounds-Rotating : (dir : Bytes) → Rotating initial (rounds dir) files
rounds-Rotating dir =
    rotated (codes "/l/1") 3 key (world log) log log refl refl (world-Serves log) done ended

abbrev vote_lines : List Bytes
vote_lines = map (λ d. d.line) (all_deliveries reader (bridge_patterns patterns) files)

abbrev oracle_lines : List Bytes
oracle_lines = map (λ d. d.line) (all_deliveries reader (oracle_patterns patterns) files)

-- The line with no time is one of the bridge, but no vote.
vote_lines-IsDated : All (IsDated (is_vote literal patterns)) vote_lines
unfolding is_continuation contains parse_line_timestamp parse_in_location index_byte days_in
    compile_patterns first_capture1_int first_capture2 atoi
vote_lines-IsDated = (inr (date 2026 6 6 11 50 4 670582000, refl), (inl refl, tt))

oracle_lines-IsDated : All (IsDated (is_oracle_ok literal patterns)) oracle_lines
unfolding is_continuation contains parse_line_timestamp parse_in_location index_byte days_in
    compile_patterns line_matches_any
oracle_lines-IsDated = (inr (date 2026 6 6 11 51 4 0, refl), tt)

start_last_ok_example :
    (let after = (start ideal literal config (polling interval reader rounds) in_turn started).0 in
      ShowsLast ideal
        (is_vote literal patterns)
        vote_lines
        started.0.bridge_last_ok
        after.bridge_last_ok
      × ShowsLast ideal
          (is_oracle_ok literal patterns)
          oracle_lines
          started.0.oracle_last_ok
          after.oracle_last_ok)
start_last_ok_example =
    start_last_ok ideal reader config interval rounds in_turn started.0 started.1 refl
      in_turn-Interleaves files files (rounds-Rotating (bridge_dir config))
      (rounds-Rotating (oracle_dir config)) vote_lines-IsDated oracle_lines-IsDated
