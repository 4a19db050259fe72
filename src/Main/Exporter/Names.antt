-- ===== src/Main/Exporter/Names.antt =====
-- The goroutines of the collectors and the names under which they count: the CollectorName methods of
-- internal/collectors.
use vpub_exporter.Prelude.{◌++◌}
use vpub_exporter.Text.{Bytes, codes}

-- The collectors that follow a log.
pub data LogPart : Type 0 where
  vote_logs outcome_logs download_logs visor_log : LogPart

-- The goroutines of the collectors.
pub data Part : Type 0 where
  service log_mtime bridge_rpc bridge_state : Part
  slack_health outcome_slack binary_local binary_remote : Part
  logs : LogPart → Part

-- CollectorName of each collector
abbrev pub service_name : Bytes
service_name = codes "service"

abbrev pub log_mtime_name : Bytes
log_mtime_name = codes "logmtime"

abbrev pub bridge_rpc_name : Bytes
bridge_rpc_name = codes "bridge_rpc"

abbrev pub bridge_state_name : Bytes
bridge_state_name = codes "bridge_state"

abbrev pub slack_health_name : Bytes
slack_health_name = codes "slack_health"

abbrev pub outcome_slack_name : Bytes
outcome_slack_name = codes "outcome_slack"

abbrev pub binary_name : Bytes
binary_name = codes "binary"

abbrev pub vote_logs_name : Bytes
vote_logs_name = codes "vote_logs"

abbrev pub outcome_logs_name : Bytes
outcome_logs_name = codes "outcome_logs"

abbrev pub download_logs_name : Bytes
download_logs_name = codes "download_logs"

abbrev pub visor_log_name : Bytes
visor_log_name = codes "visor_log"

abbrev pub log_name : LogPart → Bytes
log_name vote_logs = vote_logs_name
log_name outcome_logs = outcome_logs_name
log_name download_logs = download_logs_name
log_name visor_log = visor_log_name

-- The names under which the goroutines count.
unfoldable pub collector_name : Part → Bytes
collector_name service = service_name
collector_name log_mtime = log_mtime_name
collector_name bridge_rpc = bridge_rpc_name
collector_name bridge_state = bridge_state_name
collector_name slack_health = slack_health_name
collector_name outcome_slack = outcome_slack_name
collector_name binary_local = binary_name ++ codes "_local"
collector_name binary_remote = binary_name ++ codes "_remote"
collector_name (logs p) = log_name p
