-- ===== src/Collectors/Metrics.antt =====
-- The options of the metrics that the constructors of internal/collectors make, and the list that
-- each of them registers.
use vpub_exporter.Prelude.{List, [], ◌∷◌}
use vpub_exporter.Text.{Bytes, codes}
use vpub_exporter.Prometheus.{Opts}

abbrev pub metric_namespace : Bytes
metric_namespace = codes "vpub"

abbrev pub opts : Bytes → Bytes → List Bytes → Opts
opts subsystem name label_names = record {
  namespace = metric_namespace;
  subsystem = subsystem;
  name = name;
  label_names = label_names;
}

-- NewExporterMetrics of base.go
abbrev pub collection_duration_opts : Opts
collection_duration_opts =
    opts (codes "exporter") (codes "collection_duration_seconds") (codes "collector" ∷ [])

abbrev pub collection_errors_opts : Opts
collection_errors_opts =
    opts (codes "exporter") (codes "collection_errors_total")
      (codes "collector" ∷ codes "kind" ∷ [])

abbrev pub exporter_opts : List Opts
exporter_opts = collection_duration_opts ∷ collection_errors_opts ∷ []

-- NewServiceCollector of service.go
abbrev pub up_opts : Opts
up_opts = opts (codes "") (codes "service_up") []

abbrev pub child_count_opts : Opts
child_count_opts = opts (codes "") (codes "child_count") []

abbrev pub restart_total_opts : Opts
restart_total_opts = opts (codes "") (codes "service_restart_total") []

abbrev pub service_opts : List Opts
service_opts = up_opts ∷ child_count_opts ∷ restart_total_opts ∷ []

-- NewLogMtimeCollector of logmtime.go
abbrev pub log_mtime_seconds_opts : Opts
log_mtime_seconds_opts =
    opts (codes "") (codes "component_log_mtime_seconds") (codes "component" ∷ [])

abbrev pub log_mtime_opts : List Opts
log_mtime_opts = log_mtime_seconds_opts ∷ []

-- NewBridgeRPCCollector of bridge_rpc.go
abbrev pub rpc_up_opts : Opts
rpc_up_opts = opts (codes "bridge") (codes "rpc_up") (codes "name" ∷ [])

abbrev pub rpc_latency_opts : Opts
rpc_latency_opts = opts (codes "bridge") (codes "rpc_latency_seconds") (codes "name" ∷ [])

abbrev pub rpc_check_tot_opts : Opts
rpc_check_tot_opts =
    opts (codes "bridge") (codes "rpc_check_total") (codes "name" ∷ codes "status" ∷ [])

abbrev pub bridge_rpc_opts : List Opts
bridge_rpc_opts = rpc_up_opts ∷ rpc_latency_opts ∷ rpc_check_tot_opts ∷ []

-- NewBridgeStateCollector of bridge_state.go
abbrev pub last_block_opts : Opts
last_block_opts = opts (codes "bridge") (codes "state_last_scanned_block") []

abbrev pub state_mtime_opts : Opts
state_mtime_opts = opts (codes "bridge") (codes "state_mtime_unix") []

abbrev pub explorer_cursor_opts : Opts
explorer_cursor_opts = opts (codes "bridge") (codes "state_explorer_cursor") (codes "explorer" ∷ [])

abbrev pub bridge_state_opts : List Opts
bridge_state_opts = last_block_opts ∷ state_mtime_opts ∷ explorer_cursor_opts ∷ []

-- NewVoteLogsCollector of vote_logs.go
abbrev pub bridge_vote_tot_opts : Opts
bridge_vote_tot_opts = opts (codes "bridge") (codes "vote_total") (codes "status" ∷ [])

abbrev pub oracle_vote_tot_opts : Opts
oracle_vote_tot_opts = opts (codes "oracle") (codes "vote_total") (codes "status" ∷ [])

abbrev pub provider_fail_tot_opts : Opts
provider_fail_tot_opts =
    opts (codes "bridge") (codes "rpc_provider_fail_total")
      (codes "name" ∷ codes "status_code" ∷ [])

abbrev pub bridge_last_ok_opts : Opts
bridge_last_ok_opts = opts (codes "bridge") (codes "last_vote_success_unix") []

abbrev pub oracle_last_ok_opts : Opts
oracle_last_ok_opts = opts (codes "oracle") (codes "last_vote_success_unix") []

abbrev pub vote_logs_opts : List Opts
vote_logs_opts =
    bridge_vote_tot_opts ∷ oracle_vote_tot_opts ∷ provider_fail_tot_opts ∷ bridge_last_ok_opts
    ∷ oracle_last_ok_opts ∷ []

-- NewOutcomeLogsCollector of outcome_logs.go
abbrev pub warn_opts : Opts
warn_opts = opts (codes "outcome") (codes "log_warn_total") []

abbrev pub crit_opts : Opts
crit_opts = opts (codes "outcome") (codes "log_crit_total") []

abbrev pub outcome_logs_opts : List Opts
outcome_logs_opts = warn_opts ∷ crit_opts ∷ []

-- NewSlackHealthCollector of slack_health.go
abbrev pub slack_ok_opts : Opts
slack_ok_opts = opts (codes "") (codes "slack_api_ok") []

abbrev pub slack_health_opts : List Opts
slack_health_opts = slack_ok_opts ∷ []

-- NewOutcomeSlackCollector of outcome_slack.go
abbrev pub slack_msg_opts : Opts
slack_msg_opts = opts (codes "outcome") (codes "slack_msg_24h") []

abbrev pub outcome_slack_opts : List Opts
outcome_slack_opts = slack_msg_opts ∷ []

-- NewBinaryCollector of binary.go
abbrev pub local_mtime_opts : Opts
local_mtime_opts = opts (codes "binary") (codes "local_mtime_unix") (codes "component" ∷ [])

abbrev pub remote_mtime_opts : Opts
remote_mtime_opts = opts (codes "binary") (codes "remote_mtime_unix") (codes "component" ∷ [])

abbrev pub remote_ok_opts : Opts
remote_ok_opts = opts (codes "binary") (codes "remote_check_ok") (codes "component" ∷ [])

abbrev pub binary_opts : List Opts
binary_opts = local_mtime_opts ∷ remote_mtime_opts ∷ remote_ok_opts ∷ []

-- NewDownloadLogsCollector of download_logs.go
abbrev pub download_started_opts : Opts
download_started_opts =
    opts (codes "binary") (codes "download_started_unix") (codes "component" ∷ [])

abbrev pub download_logs_opts : List Opts
download_logs_opts = download_started_opts ∷ []

-- NewVisorLogCollector of visor_log.go
abbrev pub child_restart_opts : Opts
child_restart_opts = opts (codes "visor") (codes "child_restart_total") (codes "component" ∷ [])

abbrev pub visor_crit_opts : Opts
visor_crit_opts = opts (codes "visor") (codes "crit_total") []

abbrev pub visor_log_opts : List Opts
visor_log_opts = child_restart_opts ∷ visor_crit_opts ∷ []
