-- ===== src/Collectors/EventLogs/Totals.antt =====
-- The metrics of the log line collectors over the events of their loops.
use vpub_exporter.Prelude.{
  false, inl, inr, Option, none, some, Option-cases, List, [], ◌∷◌, ◌≡◌, refl, ◌∙◌, ap, arith,
  if◌then◌else◌, pos,
}
use vpub_exporter.Text.{Bytes, bytes_eq, bytes_eq_iff}
use vpub_exporter.Clock.{unix}
use vpub_exporter.Regexp.{Engine, match_string}
use vpub_exporter.Logtail.Drain.{Match}
use vpub_exporter.Prometheus.{Prometheus}
use vpub_exporter.Collectors.VoteLogs.{line_matches_any}
use vpub_exporter.Collectors.EventLogs.{
  LogEvent, cancelled, closed, matched, consume, valid_child, visor_download_pattern,
  visor_child_restart_pattern, visor_crit_pattern, group1, OutcomeLogsCollector, VisorLogCollector,
  classify_outcome, handle_download, handle_visor,
}

-- The matches before the context is cancelled or the channel ends.
abbrev pub delivered : List LogEvent → List Match
delivered [] = []
delivered (cancelled ∷ es) = []
delivered (closed ∷ es) = []
delivered (matched m ∷ es) = m ∷ delivered es

abbrev pub steps {ℓ} : {V : Type ℓ} → (Match → V → V) → V → List Match → V
steps step v [] = v
steps step v (m ∷ ms) = steps step (step m v) ms

-- A value that each match changes by itself.
consume-steps {ℓ κ} :
    {S : Type ℓ} {V : Type κ} (handle : Match → S → S) (view : S → V) (step : Match → V → V)
    → ((m : Match) (s : S) → view (handle m s) ≡ step m (view s))
    → (es : List LogEvent) (s : S) → view (consume handle es s) ≡ steps step (view s) (delivered es)
unfolding consume
consume-steps handle view step h [] s = refl
consume-steps handle view step h (cancelled ∷ es) s = refl
consume-steps handle view step h (closed ∷ es) s = refl
consume-steps handle view step h (matched m ∷ es) s =
    consume-steps handle view step h es (handle m s) ∙ ap (λ v. steps step v (delivered es)) (h m s)

steps-same {ℓ} :
    {V : Type ℓ} (step : Match → V → V)
    → ((m : Match) (v : V) → step m v ≡ v)
    → (v : V) (ms : List Match) → steps step v ms ≡ v
steps-same step h v [] = refl
steps-same step h v (m ∷ ms) = steps-same step h (step m v) ms ∙ h m v

-- The child that a line names by the group of a pattern, if it is one of the three.
abbrev pub child_of : Engine → Bytes → Bytes → Option Bytes
child_of re pattern line = elim (group1 (re.find_string_submatch pattern line)) [
  | none ↦ none
  | some name ↦ if valid_child name then some name else none
]

module _ (P : Prometheus) (re : Engine) where
  -- A download line of child `k` sets its gauge.
  abbrev pub download_step : Bytes → Match → Option P.Value → Option P.Value
  download_step k m v = elim (child_of re visor_download_pattern m.line) [
    | none ↦ v
    | some name ↦ if bytes_eq name k then some (P.float64 (unix m.at)) else v
  ]

  handle_download-value :
      (k : Bytes) (m : Match) (g : P.GaugeVec)
      → P.value_at (handle_download P re m g) (k ∷ []) ≡ download_step k m (P.value_at g (k ∷ []))
  unfolding handle_download
  handle_download-value k m g =
      elim (Option-cases (group1 (re.find_string_submatch visor_download_pattern m.line))) [
        | inl e ↦ ground arith
        | inr (name, e) ↦
            ground (arith, P.value_at-set_at g (name ∷ []) (P.float64 (unix m.at)) (k ∷ []))
      ]

  download_step-other :
      (k : Bytes)
      → valid_child k ≡ false
      → (m : Match) (v : Option P.Value) → download_step k m v ≡ v
  download_step-other k h m v =
      elim (Option-cases (group1 (re.find_string_submatch visor_download_pattern m.line))) [
        | inl e ↦ ground arith
        | inr (name, e) ↦ ground (arith, bytes_eq_iff name k)
      ]

  -- Over any events the gauge of a component shows the time of the last download line that names it,
  -- or what it showed before.
  pub consume_downloads :
      (k : Bytes) (es : List LogEvent) (g : P.GaugeVec)
      → P.value_at (consume (handle_download P re) es g) (k ∷ [])
        ≡ steps (download_step k) (P.value_at g (k ∷ [])) (delivered es)
  consume_downloads k es g =
      consume-steps (handle_download P re) (λ s. P.value_at s (k ∷ [])) (download_step k)
        (handle_download-value k) es g

  -- Whatever the lines hold, no label but the three children gets a new value, so the log cannot add
  -- series.
  pub consume_downloads_other :
      (k : Bytes) (es : List LogEvent) (g : P.GaugeVec)
      → valid_child k ≡ false
      → P.value_at (consume (handle_download P re) es g) (k ∷ []) ≡ P.value_at g (k ∷ [])
  consume_downloads_other k es g h =
      consume_downloads k es g
      ∙ steps-same (download_step k) (download_step-other k h) _ (delivered es)

  -- A restart line of child `k` adds 1 to its counter.
  abbrev pub restart_step : Bytes → Match → P.Value → P.Value
  restart_step k m v = elim (child_of re visor_child_restart_pattern m.line) [
    | none ↦ v
    | some name ↦ if bytes_eq name k then P.plus v (P.float64 (pos 1)) else v
  ]

  -- A line that is no restart line and that the CRIT pattern matches adds 1 to that counter.
  abbrev pub crit_step : Match → P.Value → P.Value
  crit_step m v = elim (group1 (re.find_string_submatch visor_child_restart_pattern m.line)) [
    | some _ ↦ v
    | none ↦ if match_string re visor_crit_pattern m.line then P.plus v (P.float64 (pos 1)) else v
  ]

  handle_visor-restart :
      (k : Bytes) (m : Match) (c : VisorLogCollector P)
      → P.total_at (handle_visor P re m c).child_restart (k ∷ [])
        ≡ restart_step k m (P.total_at c.child_restart (k ∷ []))
  unfolding handle_visor
  handle_visor-restart k m c =
      elim (Option-cases (group1 (re.find_string_submatch visor_child_restart_pattern m.line))) [
        | inl e ↦ ground arith
        | inr (name, e) ↦
            ground (arith, P.total_at-add_at c.child_restart (name ∷ []) (pos 1) (k ∷ []))
      ]

  handle_visor-crit :
      (m : Match) (c : VisorLogCollector P)
      → P.total (handle_visor P re m c).visor_crit ≡ crit_step m (P.total c.visor_crit)
  unfolding handle_visor
  handle_visor-crit m c = ground (arith, P.total-add c.visor_crit (pos 1))

  -- Over any events the restart counter of each label grows by 1 for each restart line that names
  -- that child, and the CRIT counter by 1 for each other line that the CRIT pattern matches.
  pub consume_visor :
      (k : Bytes) (es : List LogEvent) (c : VisorLogCollector P)
      → (P.total_at (consume (handle_visor P re) es c).child_restart (k ∷ [])
          ≡ steps (restart_step k) (P.total_at c.child_restart (k ∷ [])) (delivered es))
        × (P.total (consume (handle_visor P re) es c).visor_crit
            ≡ steps crit_step (P.total c.visor_crit) (delivered es))
  consume_visor k es c = (
    consume-steps (handle_visor P re) (λ s. P.total_at s.child_restart (k ∷ [])) (restart_step k)
        (handle_visor-restart k) es c,
    consume-steps (handle_visor P re) (λ s. P.total s.visor_crit) crit_step handle_visor-crit es c,
  )

  module _ (warn crit : List Bytes) where
    abbrev pub outcome_crit_step : Match → P.Value → P.Value
    outcome_crit_step m v =
        if line_matches_any re m.line crit then P.plus v (P.float64 (pos 1)) else v

    abbrev pub outcome_warn_step : Match → P.Value → P.Value
    outcome_warn_step m v =
        if line_matches_any re m.line crit
        then v
        else if line_matches_any re m.line warn
        then P.plus v (P.float64 (pos 1))
        else v

    classify_outcome-crit :
        (m : Match) (c : OutcomeLogsCollector P)
        → P.total (classify_outcome P re warn crit m c).crit ≡ outcome_crit_step m (P.total c.crit)
    unfolding classify_outcome
    classify_outcome-crit m c = ground (arith, P.total-add c.crit (pos 1))

    classify_outcome-warn :
        (m : Match) (c : OutcomeLogsCollector P)
        → P.total (classify_outcome P re warn crit m c).warn ≡ outcome_warn_step m (P.total c.warn)
    unfolding classify_outcome
    classify_outcome-warn m c = ground (arith, P.total-add c.warn (pos 1))

    -- Over any events each match counts once: as crit if a crit pattern matches its line, else as
    -- warn if a warn pattern does, else not at all.
    pub consume_outcome :
        (es : List LogEvent) (c : OutcomeLogsCollector P)
        → (P.total (consume (classify_outcome P re warn crit) es c).crit
            ≡ steps outcome_crit_step (P.total c.crit) (delivered es))
          × (P.total (consume (classify_outcome P re warn crit) es c).warn
              ≡ steps outcome_warn_step (P.total c.warn) (delivered es))
    consume_outcome es c = (
      consume-steps (classify_outcome P re warn crit) (λ s. P.total s.crit) outcome_crit_step
          classify_outcome-crit es c,
      consume-steps (classify_outcome P re warn crit) (λ s. P.total s.warn) outcome_warn_step
          classify_outcome-warn es c,
    )
