-- ===== src/Collectors/New.antt =====
-- The constructors of internal/collectors, behind their registration (Main.Registration).
pub mod Series
use vpub_exporter.Prelude.{ℕ, Bool, true, false, Option, none, some, List, [], ◌∷◌, pos}
use vpub_exporter.Text.{Bytes, codes}
use vpub_exporter.Clock.{Time}
use vpub_exporter.Components.{ComponentName}
use vpub_exporter.Prometheus.{Prometheus}
use vpub_exporter.Collectors.Metrics.{
  collection_duration_opts, collection_errors_opts, up_opts, child_count_opts, restart_total_opts,
  log_mtime_seconds_opts, rpc_up_opts, rpc_latency_opts, rpc_check_tot_opts, last_block_opts,
  state_mtime_opts, explorer_cursor_opts, bridge_vote_tot_opts, oracle_vote_tot_opts,
  provider_fail_tot_opts, bridge_last_ok_opts, oracle_last_ok_opts, warn_opts, crit_opts,
  slack_ok_opts, slack_msg_opts, local_mtime_opts, remote_mtime_opts, remote_ok_opts,
  download_started_opts, child_restart_opts, visor_crit_opts,
}
use vpub_exporter.Collectors.Base.{ExporterMetrics}
use vpub_exporter.Collectors.Service.{ServiceCollector}
use vpub_exporter.Collectors.LogMtime.{LogMtimeCollector, seed_log_mtime}
use vpub_exporter.Collectors.BridgeRpc.{BridgeRpcCollector, create}
use vpub_exporter.Collectors.BridgeState.{BridgeStateCollector}
use vpub_exporter.Collectors.VoteLogs.{VoteLogsCollector, seed_vote_logs}
use vpub_exporter.Collectors.EventLogs.{OutcomeLogsCollector, VisorLogCollector, valid_children}
use vpub_exporter.Collectors.Slack.{SlackHealthCollector, OutcomeSlackCollector}
use vpub_exporter.Collectors.Binary.{BinaryCollector, Targets}

module _ (P : Prometheus) where
  abbrev pub new_exporter_metrics : ExporterMetrics P
  new_exporter_metrics = record {
    collection_duration = P.new_histogram_vec collection_duration_opts;
    collection_errors = P.new_counter_vec collection_errors_opts;
  }

  abbrev pub new_service_collector : ServiceCollector P
  new_service_collector = record {
    up = P.new_gauge up_opts;
    child_count = P.new_gauge child_count_opts;
    restart_total = P.new_counter restart_total_opts;
    last_n_restart = pos 0;
  }

  unfoldable pub new_log_mtime_collector : Bytes → Bytes → LogMtimeCollector P
  new_log_mtime_collector visor_log_dir component_log_dir = record {
    visor_log_dir = visor_log_dir;
    component_log_dir = component_log_dir;
    mtime = seed_log_mtime P (P.new_gauge_vec log_mtime_seconds_opts);
  }

  -- the names and URLs are those of the configuration
  unfoldable pub new_bridge_rpc_collector : List Bytes → BridgeRpcCollector P
  new_bridge_rpc_collector names = create P names (record {
    up = P.new_gauge_vec rpc_up_opts;
    latency = P.new_histogram_vec rpc_latency_opts;
    check_tot = P.new_counter_vec rpc_check_tot_opts;
  })

  abbrev pub new_bridge_state_collector : Bytes → BridgeStateCollector P
  new_bridge_state_collector path = record {
    path = path;
    last_block = P.new_gauge last_block_opts;
    mtime = P.new_gauge state_mtime_opts;
    explorer_cursor = P.new_gauge_vec explorer_cursor_opts;
  }

  -- at the time of the start
  unfoldable pub new_vote_logs_collector : Time → VoteLogsCollector P
  new_vote_logs_collector now =
      seed_vote_logs P
        (record {
          bridge_vote_tot = P.new_counter_vec bridge_vote_tot_opts;
          oracle_vote_tot = P.new_counter_vec oracle_vote_tot_opts;
          bridge_provider_fail_tot = P.new_counter_vec provider_fail_tot_opts;
          bridge_last_ok = P.new_gauge bridge_last_ok_opts;
          oracle_last_ok = P.new_gauge oracle_last_ok_opts;
        })
        now

  abbrev pub new_outcome_logs_collector : OutcomeLogsCollector P
  new_outcome_logs_collector = record {
    warn = P.new_counter warn_opts;
    crit = P.new_counter crit_opts;
  }

  abbrev pub new_slack_health_collector : Bytes → SlackHealthCollector P
  new_slack_health_collector token = record { token = token; ok_gauge = P.new_gauge slack_ok_opts }

  abbrev pub new_outcome_slack_collector : Bytes → Bytes → OutcomeSlackCollector P
  new_outcome_slack_collector token channel = record {
    token = token;
    channel = channel;
    gauge = P.new_gauge slack_msg_opts;
    last_val = P.float64 (pos 0);
    has_val = false;
  }

  abbrev pub new_binary_collector : Targets → Bytes → BinaryCollector P
  new_binary_collector targets remote_url = record {
    targets = targets;
    remote_url = remote_url;
    local_mtime = P.new_gauge_vec local_mtime_opts;
    remote_mtime = P.new_gauge_vec remote_mtime_opts;
    remote_ok = P.new_gauge_vec remote_ok_opts;
    last_remote = P.float64 (pos 0);
    has_remote = false;
  }

  abbrev pub new_download_logs_collector : P.GaugeVec
  new_download_logs_collector = P.new_gauge_vec download_started_opts

  -- SeedDownloadStartedForTest
  abbrev pub seed_download_started_for_test : ComponentName → P.GaugeVec
  seed_download_started_for_test component =
      P.set_at new_download_logs_collector (component ∷ []) (P.float64 (pos 0))

  -- for name := range validRestartChild
  unfoldable pub seed_children : List ComponentName → P.CounterVec → P.CounterVec
  seed_children [] c = c
  seed_children (n ∷ ns) c = seed_children ns (P.with_label_values c (n ∷ []))

  unfoldable pub new_visor_log_collector : VisorLogCollector P
  unfolding seed_children
  new_visor_log_collector = record {
    child_restart = seed_children valid_children (P.new_counter_vec child_restart_opts);
    visor_crit = P.new_counter visor_crit_opts;
  }
