-- ===== src/Main/Exporter.antt =====
-- The collectors that `run` of cmd/vpub-exporter/main.go starts, side by side: each goroutine calls
-- its tick through `RunTicker` of internal/collectors/base.go, and all of them share the exporter's
-- own metrics. The Start and CollectorName methods of internal/collectors give the names.
mod Names
pub mod Own
pub mod Numbers
pub mod Isolation
pub mod Restarts
pub use Names.{
  LogPart, vote_logs, outcome_logs, download_logs, visor_log, Part, service, log_mtime, bridge_rpc,
  bridge_state, slack_health, outcome_slack, binary_local, binary_remote, logs, log_name,
}
unfoldable pub use Names.{collector_name}
use vpub_exporter.Prelude.{ℕ, List, [], ◌∷◌, ◌++◌, ◌≡◌, ℤ, Bool}
use vpub_exporter.Text.{Bytes, codes}
use vpub_exporter.Errors.{Result}
use vpub_exporter.Clock.{Time}
use vpub_exporter.Logfs.{LogDirStat}
use vpub_exporter.Prometheus.{Prometheus}
use vpub_exporter.Collectors.Base.{ExporterMetrics, do_one}
use vpub_exporter.Collectors.Service.{ServiceCollector, ServiceWorld}
use vpub_exporter.Collectors.Service
use vpub_exporter.Collectors.LogMtime.{LogMtimeCollector}
use vpub_exporter.Collectors.LogMtime
use vpub_exporter.Collectors.BridgeRpc.{BridgeRpcCollector, Probed}
use vpub_exporter.Collectors.BridgeRpc
use vpub_exporter.Collectors.BridgeState.{BridgeStateCollector, StateWorld}
use vpub_exporter.Collectors.BridgeState
use vpub_exporter.Collectors.Slack.{
  SlackHealthCollector, OutcomeSlackCollector, History, tick_health, tick_outcome,
}
use vpub_exporter.Collectors.Binary.{BinaryCollector, tick_local, tick_remote}
use vpub_exporter.Regexp.{Engine}
use vpub_exporter.Logtail.Drain.{Match}
use vpub_exporter.Collectors.VoteLogs.{
  VoteLogsCollector, VotePatterns, classify_bridge, classify_oracle,
}
use vpub_exporter.Collectors.VoteLogs.Start.{count_subscribe_error}
use vpub_exporter.Collectors.EventLogs.{
  OutcomeLogsCollector, VisorLogCollector, classify_outcome, handle_download, handle_visor,
}

-- What a goroutine does next: a tick, with what its calls meet, or, for a collector that follows a
-- log, a match that its select receives, or a Subscribe that fails.
pub data Call : Type 0 where
  tick_service : ServiceWorld → Call
  tick_log_mtime : LogDirStat → Call
  tick_bridge_rpc : List Probed → Call
  tick_bridge_state : StateWorld → Call
  tick_slack_health : (Bytes → Result Bool) → Call
  tick_outcome_slack : (Bytes → Bytes → History) → Call
  tick_binary_local tick_binary_remote : (Bytes → Result Time) → Call
  receive_bridge receive_oracle receive_outcome receive_download receive_visor : Match → Call
  unsubscribed : LogPart → Call

-- What the collectors that follow a log hold: the engine of their expressions, and their patterns.
pub record LogRules : Type 0 where
  pub engine : Engine
  pub votes : VotePatterns
  pub warn : List Bytes
  pub crit : List Bytes

-- The goroutine that makes the call.
abbrev pub part : Call → Part
part (tick_service w) = service
part (tick_log_mtime w) = log_mtime
part (tick_bridge_rpc w) = bridge_rpc
part (tick_bridge_state w) = bridge_state
part (tick_slack_health w) = slack_health
part (tick_outcome_slack w) = outcome_slack
part (tick_binary_local w) = binary_local
part (tick_binary_remote w) = binary_remote
part (receive_bridge m) = logs vote_logs
part (receive_oracle m) = logs vote_logs
part (receive_outcome m) = logs outcome_logs
part (receive_download m) = logs download_logs
part (receive_visor m) = logs visor_log
part (unsubscribed p) = logs p

module _ (P : Prometheus) where
  -- The collectors and the metrics that all goroutines share; both goroutines of the binary collector
  -- hold the same object. The state of the collector of downloads is its gauge.
  pub record Exporter : Type 0 where
    pub services : ServiceCollector P
    pub log_times : LogMtimeCollector P
    pub providers : BridgeRpcCollector P
    pub cursors : BridgeStateCollector P
    pub health : SlackHealthCollector P
    pub messages : OutcomeSlackCollector P
    pub binaries : BinaryCollector P
    pub votes : VoteLogsCollector P
    pub outcomes : OutcomeLogsCollector P
    pub downloads : P.GaugeVec
    pub visors : VisorLogCollector P
    pub metrics : ExporterMetrics P

  -- Start of each collector: one call of its tick by RunTicker, which takes `elapsed` nanoseconds.
  abbrev pub run_service : ℤ → ServiceWorld → Exporter → Exporter
  run_service elapsed w x =
      let (s, em) =
        do_one P (collector_name service) (λ v. elapsed) (vpub_exporter.Collectors.Service.tick P) w
          (x.services, x.metrics) in
      record x { services = s; metrics = em }

  abbrev pub run_log_mtime : ℤ → LogDirStat → Exporter → Exporter
  run_log_mtime elapsed w x =
      let (s, em) =
        do_one P (collector_name log_mtime) (λ v. elapsed)
          (vpub_exporter.Collectors.LogMtime.tick P) w (x.log_times, x.metrics) in
      record x { log_times = s; metrics = em }

  abbrev pub run_bridge_rpc : ℤ → List Probed → Exporter → Exporter
  run_bridge_rpc elapsed w x =
      let (s, em) =
        do_one P (collector_name bridge_rpc) (λ v. elapsed)
          (vpub_exporter.Collectors.BridgeRpc.tick P) w (x.providers, x.metrics) in
      record x { providers = s; metrics = em }

  abbrev pub run_bridge_state : ℤ → StateWorld → Exporter → Exporter
  run_bridge_state elapsed w x =
      let (s, em) =
        do_one P (collector_name bridge_state) (λ v. elapsed)
          (vpub_exporter.Collectors.BridgeState.tick P) w (x.cursors, x.metrics) in
      record x { cursors = s; metrics = em }

  abbrev pub run_slack_health : ℤ → (Bytes → Result Bool) → Exporter → Exporter
  run_slack_health elapsed w x =
      let (s, em) =
        do_one P (collector_name slack_health) (λ v. elapsed) (tick_health P) w
          (x.health, x.metrics) in
      record x { health = s; metrics = em }

  abbrev pub run_outcome_slack : ℤ → (Bytes → Bytes → History) → Exporter → Exporter
  run_outcome_slack elapsed w x =
      let (s, em) =
        do_one P (collector_name outcome_slack) (λ v. elapsed) (tick_outcome P) w
          (x.messages, x.metrics) in
      record x { messages = s; metrics = em }

  abbrev pub run_binary_local : ℤ → (Bytes → Result Time) → Exporter → Exporter
  run_binary_local elapsed w x =
      let (s, em) =
        do_one P (collector_name binary_local) (λ v. elapsed) (tick_local P) w
          (x.binaries, x.metrics) in
      record x { binaries = s; metrics = em }

  abbrev pub run_binary_remote : ℤ → (Bytes → Result Time) → Exporter → Exporter
  run_binary_remote elapsed w x =
      let (s, em) =
        do_one P (collector_name binary_remote) (λ v. elapsed) (tick_remote P) w
          (x.binaries, x.metrics) in
      record x { binaries = s; metrics = em }

module _ (P : Prometheus) (rules : LogRules) where
  -- One call of one goroutine.
  unfoldable pub do_call : ℤ → Call → Exporter P → Exporter P
  unfolding do_one count_subscribe_error
  do_call elapsed (tick_service w) x = run_service P elapsed w x
  do_call elapsed (tick_log_mtime w) x = run_log_mtime P elapsed w x
  do_call elapsed (tick_bridge_rpc w) x = run_bridge_rpc P elapsed w x
  do_call elapsed (tick_bridge_state w) x = run_bridge_state P elapsed w x
  do_call elapsed (tick_slack_health w) x = run_slack_health P elapsed w x
  do_call elapsed (tick_outcome_slack w) x = run_outcome_slack P elapsed w x
  do_call elapsed (tick_binary_local w) x = run_binary_local P elapsed w x
  do_call elapsed (tick_binary_remote w) x = run_binary_remote P elapsed w x
  do_call elapsed (receive_bridge m) x = record x {
    votes = classify_bridge P rules.engine rules.votes m x.votes;
  }
  do_call elapsed (receive_oracle m) x = record x {
    votes = classify_oracle P rules.engine rules.votes m x.votes;
  }
  do_call elapsed (receive_outcome m) x = record x {
    outcomes = classify_outcome P rules.engine rules.warn rules.crit m x.outcomes;
  }
  do_call elapsed (receive_download m) x = record x {
    downloads = handle_download P rules.engine m x.downloads;
  }
  do_call elapsed (receive_visor m) x = record x { visors = handle_visor P rules.engine m x.visors }
  do_call elapsed (unsubscribed p) x = record x {
    metrics = count_subscribe_error P (log_name p) x.metrics;
  }

  -- The calls of all goroutines, in the order in which they happen.
  unfoldable pub do_calls : List (ℤ × Call) → Exporter P → Exporter P
  do_calls [] x = x
  do_calls ((elapsed, c) ∷ cs) x = do_calls cs (do_call elapsed c x)
