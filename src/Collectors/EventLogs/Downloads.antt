-- ===== src/Collectors/EventLogs/Downloads.antt =====
-- `Start` of internal/collectors/download_logs.go behind the tailer: from the visor's log to the time
-- of the last download of each child.
use vpub_exporter.Prelude.{
  Option, none, some, List, [], ◌∷◌, ◌≡◌, refl, sym, ap, ◌∙◌, map, All, true, if◌then◌else◌,
}
use mathlib.Core.Path.{subst}
use vpub_exporter.Text.{Bytes, bytes_eq}
use vpub_exporter.Clock.{Time, unix}
use vpub_exporter.Prometheus.{Prometheus}
use vpub_exporter.Logtail.Timestamp.{parse_line_timestamp}
use vpub_exporter.Logtail.Drain.{Match, Reader}
use vpub_exporter.Logtail.Poll.{World, PollingTailer, initial, loop}
use vpub_exporter.Logtail.Tailer.{polling, polling-ok}
use vpub_exporter.Logtail.Delivery.{delivery}
use vpub_exporter.Logtail.Rotating.{Segment, Rotating, all_deliveries, loop_rotating}
use vpub_exporter.Logtail.Stamped.{IsStamped, loop-IsStamped}
use vpub_exporter.Collectors.Base.{ExporterMetrics}
use vpub_exporter.Collectors.EventLogs.{visor_download_pattern}
use vpub_exporter.Collectors.EventLogs.Totals.{
  delivered, steps, child_of, download_step, consume_downloads,
}
use vpub_exporter.Collectors.EventLogs.Start.{Arrival, start_log, start_download, line_steps}

-- A line that begins with a time stamp.
abbrev pub HasStamp : Bytes → Type 0
HasStamp l = (t : Time) × (parse_line_timestamp l ≡ some t)

abbrev pub download_patterns : List Bytes
download_patterns = visor_download_pattern ∷ []

module _ (P : Prometheus) (r : Reader) where
  -- A download line of child `k` sets its gauge to the time at its start.
  abbrev pub download_line : Bytes → Bytes → Option P.Value → Option P.Value
  download_line k l v = elim (child_of r.engine visor_download_pattern l) [
    | none ↦ v
    | some name ↦
        if bytes_eq name k
        then elim (parse_line_timestamp l) [ none ↦ v | some t ↦ some (P.float64 (unix t)) ]
        else v
  ]

  download_step-line :
      (k : Bytes) (m : Match) (v : Option P.Value)
      → IsStamped m
      → HasStamp m.line
      → download_step P r.engine k m v ≡ download_line k m.line v
  download_step-line k m v stamped (t, e) =
      let by_line = λ (x : Option P.Value).
        elim (child_of r.engine visor_download_pattern m.line) as (λ y. Option P.Value) [
          | none ↦ v
          | some name ↦ if bytes_eq name k then x else v
        ] in
      let by_stamp = λ (x : Option Time). elim x as (λ y. Option P.Value) [
        | none ↦ v
        | some u ↦ some (P.float64 (unix u))
      ] in
      ap by_line (ap (λ u. some (P.float64 (unix u))) (stamped t e) ∙ ap by_stamp (sym e))

  steps-download :
      (k : Bytes) (ms : List Match) (v : Option P.Value)
      → All IsStamped ms
      → All (λ d. HasStamp d.line) (map delivery ms)
      → steps (download_step P r.engine k) v ms
        ≡ line_steps (download_line k) v (map (λ d. d.line) (map delivery ms))
  steps-download k [] v h s = refl
  steps-download k (m ∷ ms) v h s =
      steps-download k ms (download_step P r.engine k m v) h.1 s.1
      ∙ ap (λ x. line_steps (download_line k) x (map (λ d. d.line) (map delivery ms)))
          (download_step-line k m v h.0 s.0)

  -- From the visor's log to the gauge of the last download: with the polling tailer, when the loop
  -- has received all matches, the gauge of a child shows the time at the start of the last complete
  -- line of the log that reports a download of it, or what it showed before, and no error is
  -- counted. Every line that the download pattern matches begins with a time stamp. The log is any
  -- files that grow, rotate and are truncated one after another, each up to the content that a
  -- round read last.
  pub start_download-lines :
      (t : PollingTailer) (rounds : Bytes → List World) (arrive : Arrival) (dir : Bytes)
      (g : P.GaugeVec) (em : ExporterMetrics P) (segments : List Segment) (child : Bytes)
      → t.has_latest_file_fn ≡ true
      → Rotating initial (rounds dir) segments
      → ((ms : List Match) → delivered (arrive ms) ≡ ms)
      → All (λ d. HasStamp d.line) (all_deliveries r download_patterns segments)
      → (let after = start_download P r.engine dir (polling t r rounds) arrive (g, em) in
          (P.value_at after.0 (child ∷ [])
            ≡ line_steps
                (download_line child)
                (P.value_at g (child ∷ []))
                (map (λ d. d.line) (all_deliveries r download_patterns segments)))
          × (after.1 ≡ em))
  unfolding start_download start_log
  start_download-lines t rounds arrive dir g em segments child fn followed all stamps =
      let ms : List Match = loop r download_patterns (rounds dir) initial in
      let sent : map delivery ms ≡ all_deliveries r download_patterns segments =
        loop_rotating r download_patterns (rounds dir) segments followed in
      let old : Option P.Value = P.value_at g (child ∷ []) in
      rw (polling-ok t r rounds dir download_patterns fn) (
        consume_downloads P r.engine child (arrive ms) g
            ∙ ap (steps (download_step P r.engine child) old) (all ms)
            ∙ steps-download child ms old (loop-IsStamped r download_patterns (rounds dir) initial)
                (subst (All (λ d. HasStamp d.line)) (sym sent) stamps)
            ∙ ap (λ ds. line_steps (download_line child) old (map (λ d. d.line) ds)) sent,
        refl,
      )
