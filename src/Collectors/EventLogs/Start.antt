-- ===== src/Collectors/EventLogs/Start.antt =====
-- `Start` of internal/collectors/outcome_logs.go, download_logs.go and visor_log.go, and what they
-- count of a log that the polling tailer follows.
use vpub_exporter.Prelude.{
  none, some, List, [], ◌∷◌, ◌≡◌, refl, ap, ◌∙◌, map, true, if◌then◌else◌, pos,
}
use vpub_exporter.Text.{Bytes, codes, bytes_eq, join}
use vpub_exporter.Errors.{Result, ok, err}
use vpub_exporter.Components.{component_outcome_voter}
use vpub_exporter.Config.{Config}
use vpub_exporter.Regexp.{Engine, match_string}
use vpub_exporter.Prometheus.{Prometheus}
use vpub_exporter.Logtail.Drain.{Match, Reader}
use vpub_exporter.Logtail.Poll.{World, initial, loop, PollingTailer}
use vpub_exporter.Logtail.Tailer.{Tailer, polling, polling-ok}
use vpub_exporter.Logtail.Rotating.{Segment, Rotating, all_deliveries, loop_rotating}
use vpub_exporter.Logtail.Delivery.{delivery}
use vpub_exporter.Collectors.Base.{ExporterMetrics}
use vpub_exporter.Collectors.VoteLogs.{combine}
use vpub_exporter.Collectors.VoteLogs.Start.{compiled, count_subscribe_error}
use vpub_exporter.Collectors.EventLogs.{
  LogEvent, consume, group1, visor_download_pattern, visor_child_restart_pattern,
  visor_crit_pattern, OutcomeLogsCollector, VisorLogCollector, classify_outcome, handle_download,
  handle_visor,
}
use vpub_exporter.Collectors.EventLogs.Totals.{delivered, steps, child_of, consume_visor}

-- How the channel's matches arrive at the loop: the events that its selects find.
abbrev pub Arrival : Type 0
Arrival = List Match → List LogEvent

abbrev pub visor_patterns : List Bytes
visor_patterns = visor_child_restart_pattern ∷ visor_crit_pattern ∷ []

module _ (P : Prometheus) where
  -- What the three Starts share: the error of Subscribe is counted, and else the loop runs.
  unfoldable pub start_log {ℓ} :
      {S : Type ℓ}
      → Bytes
      → (Match → S → S)
      → Result (List Match)
      → Arrival
      → S × ExporterMetrics P
      → S × ExporterMetrics P
  start_log name handle (err e) arrive (s, em) = (s, count_subscribe_error P name em)
  start_log name handle (ok ms) arrive (s, em) = (consume handle (arrive ms) s, em)

  -- Start of OutcomeLogsCollector
  unfoldable pub start_outcome :
      Engine
      → Config
      → Tailer
      → Arrival
      → OutcomeLogsCollector P × ExporterMetrics P
      → OutcomeLogsCollector P × ExporterMetrics P
  start_outcome re cfg tailer arrive s =
      let warn = compiled re cfg.log_warn_patterns in
      let crit = compiled re cfg.log_crit_patterns in
      start_log (codes "outcome_logs") (classify_outcome P re warn crit)
        (tailer (join cfg.component_log_dir component_outcome_voter) (combine warn crit [])) arrive
        s

  -- Start of DownloadLogsCollector
  unfoldable pub start_download :
      Engine
      → Bytes
      → Tailer
      → Arrival
      → P.GaugeVec × ExporterMetrics P
      → P.GaugeVec × ExporterMetrics P
  start_download re visor_log_dir tailer arrive s =
      start_log (codes "download_logs") (handle_download P re)
        (tailer visor_log_dir (visor_download_pattern ∷ [])) arrive s

  -- Start of VisorLogCollector
  unfoldable pub start_visor :
      Engine
      → Bytes
      → Tailer
      → Arrival
      → VisorLogCollector P × ExporterMetrics P
      → VisorLogCollector P × ExporterMetrics P
  start_visor re visor_log_dir tailer arrive s =
      start_log (codes "visor_log") (handle_visor P re) (tailer visor_log_dir visor_patterns) arrive
        s

-- A value that each line changes by itself.
abbrev pub line_steps {ℓ} : {V : Type ℓ} → (Bytes → V → V) → V → List Bytes → V
line_steps step v [] = v
line_steps step v (l ∷ ls) = line_steps step (step l v) ls

pub steps-lines {ℓ} :
    {V : Type ℓ} (step : Bytes → V → V) (v : V) (ms : List Match)
    → steps (λ m. step m.line) v ms ≡ line_steps step v (map (λ d. d.line) (map delivery ms))
steps-lines step v [] = refl
steps-lines step v (m ∷ ms) = steps-lines step (step m.line v) ms

module _ (P : Prometheus) (r : Reader) {S V : Type 0} (name : Bytes) (handle : Match → S → S)
    (value : S → V) (line_step : Bytes → V → V) where
  -- A value of a collector that each line changes by itself, after Start on a log that rotates.
  pub start_log-lines :
      (t : PollingTailer) (rounds : Bytes → List World) (arrive : Arrival) (dir : Bytes)
      (patterns : List Bytes) (s : S) (em : ExporterMetrics P) (segments : List Segment)
      → t.has_latest_file_fn ≡ true
      → Rotating initial (rounds dir) segments
      → ((ms : List Match) → delivered (arrive ms) ≡ ms)
      → ((es : List LogEvent)
          → value (consume handle es s) ≡ steps (λ m. line_step m.line) (value s) (delivered es))
      → (let after = start_log P name handle (polling t r rounds dir patterns) arrive (s, em) in
          (value after.0
            ≡ line_steps line_step
                (value s)
                (map (λ d. d.line) (all_deliveries r patterns segments)))
          × (after.1 ≡ em))
  unfolding start_log
  start_log-lines t rounds arrive dir patterns s em segments fn followed all law =
      let ms : List Match = loop r patterns (rounds dir) initial in
      let sent : map delivery ms ≡ all_deliveries r patterns segments =
        loop_rotating r patterns (rounds dir) segments followed in
      rw (polling-ok t r rounds dir patterns fn) (
        law (arrive ms)
            ∙ ap (steps (λ m. line_step m.line) (value s)) (all ms)
            ∙ steps-lines line_step (value s) ms
            ∙ ap (λ ds. line_steps line_step (value s) (map (λ d. d.line) ds)) sent,
        refl,
      )

module _ (P : Prometheus) (r : Reader) where
  -- A restart line of child `k` adds 1 to its counter, and a line that is no restart line and that
  -- the CRIT pattern matches adds 1 to that counter.
  abbrev pub restart_line : Bytes → Bytes → P.Value → P.Value
  restart_line k l v = elim (child_of r.engine visor_child_restart_pattern l) [
    | none ↦ v
    | some name ↦ if bytes_eq name k then P.plus v (P.float64 (pos 1)) else v
  ]

  abbrev pub crit_line : Bytes → P.Value → P.Value
  crit_line l v = elim (group1 (r.engine.find_string_submatch visor_child_restart_pattern l)) [
    | some _ ↦ v
    | none ↦ if match_string r.engine visor_crit_pattern l then P.plus v (P.float64 (pos 1)) else v
  ]

  -- From the visor's log file to the counters: with the polling tailer, when the loop has received
  -- all matches, the restart counter of each child and the CRIT counter have grown by the complete
  -- lines of the log, each line once for each of the two patterns that matches it, and no error is
  -- counted. The log is any files that grow, rotate and are truncated one after another, each up to
  -- the content that a round read last.
  pub start_visor-lines :
      (t : PollingTailer) (rounds : Bytes → List World) (arrive : Arrival) (dir : Bytes)
      (c : VisorLogCollector P) (em : ExporterMetrics P) (segments : List Segment) (child : Bytes)
      → t.has_latest_file_fn ≡ true
      → Rotating initial (rounds dir) segments
      → ((ms : List Match) → delivered (arrive ms) ≡ ms)
      → (let seen : List Bytes = map (λ d. d.line) (all_deliveries r visor_patterns segments) in
          let after = start_visor P r.engine dir (polling t r rounds) arrive (c, em) in
          (P.total_at after.0.child_restart (child ∷ [])
            ≡ line_steps (restart_line child) (P.total_at c.child_restart (child ∷ [])) seen)
          × (P.total after.0.visor_crit ≡ line_steps crit_line (P.total c.visor_crit) seen)
          × (after.1 ≡ em))
  unfolding start_visor
  start_visor-lines t rounds arrive dir c em segments child fn followed all =
      let name : Bytes = codes "visor_log" in
      let handle = handle_visor P r.engine in
      let restarts =
        start_log-lines P r name handle (λ s. P.total_at s.child_restart (child ∷ []))
          (restart_line child) t rounds arrive dir visor_patterns c em segments fn followed all
          (λ es. (consume_visor P r.engine child es c).0) in
      let crits =
        start_log-lines P r name handle (λ s. P.total s.visor_crit) crit_line t rounds arrive dir
          visor_patterns c em segments fn followed all
          (λ es. (consume_visor P r.engine child es c).1) in
      (restarts.0, crits.0, restarts.1)
