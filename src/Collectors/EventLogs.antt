-- ===== src/Collectors/EventLogs.antt =====
-- The collectors of single log lines: `OutcomeLogsCollector`, `DownloadLogsCollector` and
-- `VisorLogCollector` of internal/collectors/outcome_logs.go, download_logs.go and visor_log.go.
pub mod Totals
pub mod Start
pub mod Outcome
pub mod Downloads
use vpub_exporter.Prelude.{
  Bool, true, false, Option, none, some, List, [], ◌∷◌, if◌then◌else◌, any, pos,
}
use vpub_exporter.Text.{Bytes, codes, bytes_eq}
use vpub_exporter.Components.{
  component_bridge_voter, component_outcome_voter, component_reference_oracle_publish,
}
use vpub_exporter.Clock.{unix}
use vpub_exporter.Regexp.{Engine, match_string}
use vpub_exporter.Logtail.Drain.{Match}
use vpub_exporter.Collectors.VoteLogs.{line_matches_any}
use vpub_exporter.Prometheus.{Prometheus}

-- What a select of a loop finds.
pub data LogEvent : Type 0 where
  cancelled closed : LogEvent
  matched : Match → LogEvent

-- The loop that the three Starts share, by what they do with a match.
unfoldable pub consume {ℓ} : {S : Type ℓ} → (Match → S → S) → List LogEvent → S → S
consume handle [] s = s
consume handle (cancelled ∷ es) s = s
consume handle (closed ∷ es) s = s
consume handle (matched m ∷ es) s = consume handle es (handle m s)

-- validDownloadChild and validRestartChild: the keys of the two maps, and their lookup
abbrev pub valid_children : List Bytes
valid_children =
    component_bridge_voter ∷ component_outcome_voter ∷ component_reference_oracle_publish ∷ []

unfoldable pub valid_child : Bytes → Bool
valid_child name = any (bytes_eq name) valid_children

abbrev pub visor_download_pattern : Bytes
visor_download_pattern =
    codes
      "INFO\\s+(?:validator_publisher::)?visor: downloading new binary\\s+self\\.binary_name=\"([^\"]+)\""

abbrev pub visor_child_restart_pattern : Bytes
visor_child_restart_pattern =
    codes
      "INFO\\s+(?:validator_publisher::)?visor: restarting process\\s+binary_path=\"[^\"]*/([^/\"]+)\""

abbrev pub visor_crit_pattern : Bytes
visor_crit_pattern = codes "(CRIT|ERROR)\\s+(?:validator_publisher::)?visor:"

-- sub[1], if len(sub) >= 2
unfoldable pub group1 : List Bytes → Option Bytes
group1 (whole ∷ group ∷ rest) = some group
group1 _ = none

pub record OutcomeLogsCollector (P : Prometheus) : Type 0 where
  pub warn : P.Counter
  pub crit : P.Counter

pub record VisorLogCollector (P : Prometheus) : Type 0 where
  pub child_restart : P.CounterVec
  pub visor_crit : P.Counter

module _ (P : Prometheus) where
  -- classify of OutcomeLogsCollector
  unfoldable pub classify_outcome :
      Engine → List Bytes → List Bytes → Match → OutcomeLogsCollector P → OutcomeLogsCollector P
  classify_outcome re warn crit m c =
      if line_matches_any re m.line crit
      then record c { crit = P.add c.crit (pos 1) }
      else if line_matches_any re m.line warn
      then record c { warn = P.add c.warn (pos 1) }
      else c

  -- the body of the loop of DownloadLogsCollector, whose state is the gauge downloadStarted
  unfoldable pub handle_download : Engine → Match → P.GaugeVec → P.GaugeVec
  unfolding group1
  handle_download re m g = elim (group1 (re.find_string_submatch visor_download_pattern m.line)) [
    | none ↦ g
    | some component ↦
        if valid_child component then P.set_at g (component ∷ []) (P.float64 (unix m.at)) else g
  ]

  -- the body of the loop of VisorLogCollector
  unfoldable pub handle_visor : Engine → Match → VisorLogCollector P → VisorLogCollector P
  unfolding group1
  handle_visor re m c = elim (group1 (re.find_string_submatch visor_child_restart_pattern m.line)) [
    | some component ↦
        if valid_child component
        then record c { child_restart = P.add_at c.child_restart (component ∷ []) (pos 1) }
        else c
    | none ↦
        if match_string re visor_crit_pattern m.line
        then record c { visor_crit = P.add c.visor_crit (pos 1) }
        else c
  ]
