-- ===== src/Tests/LogStarts.antt =====
-- Examples for the collectors of single log lines behind the tailer.
use vpub_exporter.Prelude.{List, [], ◌∷◌, ◌++◌, ◌≡◌, refl, map, pos, ◌+ℤ◌, ap}
use vpub_exporter.Text.{Bytes, codes, contains}
use vpub_exporter.Config.{Config}
use vpub_exporter.Logtail.Drain.{Match, is_continuation}
use vpub_exporter.Logtail.Poll.{World, initial}
use vpub_exporter.Logtail.Tailer.{polling}
use vpub_exporter.Logtail.Delivery.{done}
use vpub_exporter.Logtail.Rotating.{Segment, Rotating, rotated, ended, all_deliveries}
use vpub_exporter.Collectors.VoteLogs.{combine}
use vpub_exporter.Collectors.EventLogs.Totals.{delivered}
use vpub_exporter.Collectors.EventLogs.{
  LogEvent, matched, OutcomeLogsCollector, VisorLogCollector, visor_crit_pattern, group1,
}
use vpub_exporter.Collectors.EventLogs.Outcome.{
  outcome_crit, outcome_warn, outcome_dir, outcome_crit_line, outcome_warn_line,
  start_outcome-lines,
}
use vpub_exporter.Collectors.EventLogs.Start.{
  start_outcome, start_visor, start_visor-lines, visor_patterns, line_steps, restart_line,
  crit_line,
}
use vpub_exporter.Collectors.New.{new_visor_log_collector}
use vpub_exporter.Tests.Ideal.{ideal, literal, reader, world, world-Serves, key}
use vpub_exporter.Tests.Starts.{rounds-Rotating, config, rounds, started, followed, interval}

-- A line of the visor, and one that is no line of its expressions.
abbrev visor_lines : Bytes
visor_lines = visor_crit_pattern ++ codes "\nINFO x\n"

abbrev matched_all : List Match → List LogEvent
matched_all ms = map matched ms

delivered-matched_all : (ms : List Match) → delivered (matched_all ms) ≡ ms
delivered-matched_all [] = refl
delivered-matched_all (m ∷ ms) = ap (◌∷◌ m) (delivered-matched_all ms)

abbrev visor_log : VisorLogCollector ideal
visor_log = new_visor_log_collector ideal

abbrev visor_rounds : Bytes → List World
visor_rounds dir = world visor_lines ∷ []

abbrev visor_files : List Segment
visor_files = (codes "/l/1", visor_lines) ∷ []

visor_rounds-Rotating : (dir : Bytes) → Rotating initial (visor_rounds dir) visor_files
visor_rounds-Rotating dir =
    rotated (codes "/l/1") 3 key (world visor_lines) visor_lines visor_lines refl refl
      (world-Serves visor_lines) done ended

abbrev seen : List Bytes
seen = map (λ d. d.line) (all_deliveries reader visor_patterns visor_files)

start_visor-lines_example :
    (let after =
        start_visor ideal literal
          (codes "/v")
          (polling interval reader visor_rounds)
          matched_all
          (visor_log, started.1) in
      (after.0.child_restart.0 (codes "7" ∷ [])
        ≡ line_steps (restart_line ideal reader (codes "7")) (pos 0) seen)
      × (after.0.visor_crit ≡ line_steps (crit_line ideal reader) (pos 0) seen)
      × (after.1 ≡ started.1))
unfolding new_visor_log_collector
start_visor-lines_example =
    start_visor-lines ideal reader interval visor_rounds matched_all (codes "/v") visor_log
      started.1 visor_files (codes "7") refl (visor_rounds-Rotating (codes "/v"))
      delivered-matched_all

visor_run : line_steps (crit_line ideal reader) (pos 0) seen ≡ pos 1
unfolding contains group1 ◌+ℤ◌ is_continuation
visor_run = refl

abbrev outcome_config : Config
outcome_config = record config {
  log_warn_patterns = codes "half" ∷ [];
  log_crit_patterns = codes "a vote" ∷ [];
}

abbrev outcome_started : OutcomeLogsCollector ideal
outcome_started = record { warn = pos 0; crit = pos 0 }

-- What the tailer sends of the log.
abbrev outcome_lines : List Bytes
outcome_lines =
    map (λ d. d.line)
      (all_deliveries reader
        (combine (outcome_warn ideal reader outcome_config)
          (outcome_crit ideal reader outcome_config) [])
        followed)

start_outcome-lines_example :
    (let after =
        start_outcome ideal literal outcome_config
          (polling interval reader rounds)
          matched_all
          (outcome_started, started.1) in
      (after.0.crit
        ≡ line_steps (outcome_crit_line ideal reader outcome_config) (pos 0) outcome_lines)
      × (after.0.warn
          ≡ line_steps (outcome_warn_line ideal reader outcome_config) (pos 0) outcome_lines)
      × (after.1 ≡ started.1))
start_outcome-lines_example =
    start_outcome-lines ideal reader outcome_config interval rounds matched_all outcome_started
      started.1 followed refl (rounds-Rotating (outcome_dir ideal reader outcome_config))
      delivered-matched_all
