-- ===== src/Collectors/EventLogs/Outcome.antt =====
-- `Start` of internal/collectors/outcome_logs.go behind the tailer: from the outcome voter's log to
-- the counters.
use vpub_exporter.Prelude.{List, [], ◌≡◌, map, true, if◌then◌else◌, pos}
use vpub_exporter.Text.{Bytes, codes, join}
use vpub_exporter.Components.{component_outcome_voter}
use vpub_exporter.Config.{Config}
use vpub_exporter.Prometheus.{Prometheus}
use vpub_exporter.Logtail.Drain.{Match, Reader}
use vpub_exporter.Logtail.Poll.{World, initial, PollingTailer}
use vpub_exporter.Logtail.Tailer.{polling}
use vpub_exporter.Logtail.Rotating.{Segment, Rotating, all_deliveries}
use vpub_exporter.Collectors.Base.{ExporterMetrics}
use vpub_exporter.Collectors.VoteLogs.{combine}
use vpub_exporter.Collectors.VoteLogs.Start.{compiled}
use vpub_exporter.Collectors.EventLogs.{OutcomeLogsCollector, classify_outcome}
use vpub_exporter.Collectors.EventLogs.Totals.{delivered, consume_outcome}
use vpub_exporter.Collectors.VoteLogs.{line_matches_any}
use vpub_exporter.Collectors.EventLogs.Start.{Arrival, start_outcome, start_log-lines, line_steps}

module _ (P : Prometheus) (r : Reader) (cfg : Config) where
  abbrev pub outcome_crit : List Bytes
  outcome_crit = compiled r.engine cfg.log_crit_patterns

  abbrev pub outcome_warn : List Bytes
  outcome_warn = compiled r.engine cfg.log_warn_patterns

  abbrev pub outcome_dir : Bytes
  outcome_dir = join cfg.component_log_dir component_outcome_voter

  abbrev pub outcome_crit_line : Bytes → P.Value → P.Value
  outcome_crit_line l v =
      if line_matches_any r.engine l outcome_crit then P.plus v (P.float64 (pos 1)) else v

  abbrev pub outcome_warn_line : Bytes → P.Value → P.Value
  outcome_warn_line l v =
      if line_matches_any r.engine l outcome_crit
      then v
      else if line_matches_any r.engine l outcome_warn
      then P.plus v (P.float64 (pos 1))
      else v

  -- From the outcome voter's log to the counters: with the polling tailer, when the loop has received
  -- all matches, the counter of crit has grown by each complete line of the log that a crit pattern
  -- matches, and that of warn by each other one that a warn pattern matches, each line once for each
  -- of all patterns that matches it, and no error is counted. The log is any files that grow, rotate
  -- and are truncated one after another, each up to the content that a round read last.
  pub start_outcome-lines :
      (t : PollingTailer) (rounds : Bytes → List World) (arrive : Arrival)
      (c : OutcomeLogsCollector P) (em : ExporterMetrics P) (segments : List Segment)
      → t.has_latest_file_fn ≡ true
      → Rotating initial (rounds outcome_dir) segments
      → ((ms : List Match) → delivered (arrive ms) ≡ ms)
      → (let seen : List Bytes =
            map (λ d. d.line) (all_deliveries r (combine outcome_warn outcome_crit []) segments) in
          let after = start_outcome P r.engine cfg (polling t r rounds) arrive (c, em) in
          (P.total after.0.crit ≡ line_steps outcome_crit_line (P.total c.crit) seen)
          × (P.total after.0.warn ≡ line_steps outcome_warn_line (P.total c.warn) seen)
          × (after.1 ≡ em))
  unfolding start_outcome
  start_outcome-lines t rounds arrive c em segments fn followed all =
      let name : Bytes = codes "outcome_logs" in
      let handle = classify_outcome P r.engine outcome_warn outcome_crit in
      let patterns : List Bytes = combine outcome_warn outcome_crit [] in
      let crits =
        start_log-lines P r name handle (λ s. P.total s.crit) outcome_crit_line t rounds arrive
          outcome_dir patterns c em segments fn followed all
          (λ es. (consume_outcome P r.engine outcome_warn outcome_crit es c).0) in
      let warns =
        start_log-lines P r name handle (λ s. P.total s.warn) outcome_warn_line t rounds arrive
          outcome_dir patterns c em segments fn followed all
          (λ es. (consume_outcome P r.engine outcome_warn outcome_crit es c).1) in
      (crits.0, warns.0, crits.1)
