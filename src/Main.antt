-- ===== src/Main.antt =====
-- cmd/vpub-exporter/main.go: which collectors run with which intervals, the fallback probe, the
-- newest log file for the tailer, and how the process ends.
pub mod Wiring
pub mod Registration
pub mod Tailing
pub mod Exporter
pub mod Process
pub mod Logs
pub mod Secrets
pub mod Server
use vpub_exporter.Prelude.{
  ℕ, ◌*◌, Bool, not, Option, none, some, List, [], ◌∷◌, ◌++◌, if◌then◌else◌, ℤ, pos,
}
use vpub_exporter.Text.{Bytes, codes, is_empty, join}
use vpub_exporter.Logfs.{LogDirStat}
use vpub_exporter.Errors.{Error, Result, ok, err}
use vpub_exporter.Clock.{Time, seconds}
use vpub_exporter.Config.{Config}
use vpub_exporter.Systemd.{ServiceProbe, UnitConn, new_dbus_probe, dbus_probe}

-- A goroutine that run starts; an interval is in nanoseconds.
pub data Job : Type 0 where
  service log_mtime bridge_rpc bridge_state : ℤ → Job
  vote_logs outcome_logs : Job
  slack_health outcome_slack binary_local binary_remote : ℤ → Job
  download_logs visor_log : Job

abbrev pub has_entries : List (Bytes × Bytes) → Bool
has_entries [] = Bool.false
has_entries (x ∷ xs) = Bool.true

abbrev pub has_names : List Bytes → Bool
has_names [] = Bool.false
has_names (x ∷ xs) = Bool.true

-- HasBridgeRPC, HasSlack, HasBinaryRemote and HasBridgeState of internal/config/config.go
unfoldable pub has_bridge_rpc : Config → Bool
has_bridge_rpc c = has_names c.bridge_rpc_names

unfoldable pub has_slack : Config → Bool
has_slack c = not (is_empty c.slack_bot_token)

unfoldable pub has_binary_remote : Config → Bool
has_binary_remote c = not (is_empty c.binary_url)

unfoldable pub has_bridge_state : Config → Bool
has_bridge_state c = not (is_empty c.bridge_state_path)

abbrev pub when {ℓ} : {A : Type ℓ} → Bool → List A → List A
when b xs = if b then xs else []

-- The goroutines of run, in order.
unfoldable pub jobs : Config → List Job
jobs c =
    service (seconds 5)
    ∷ log_mtime c.scrape_interval
    ∷ (when (has_bridge_rpc c) (bridge_rpc c.scrape_interval ∷ [])
        ++ (when (has_bridge_state c) (bridge_state c.scrape_interval ∷ [])
            ++ (vote_logs
                ∷ outcome_logs
                ∷ (when (has_slack c) (
                      slack_health (seconds 60)
                      ∷ when (not (is_empty c.outcome_channel)) (outcome_slack (seconds 300) ∷ []))
                    ++ (when (has_entries c.binary_targets) (
                          binary_local (seconds 60)
                          ∷ when (has_binary_remote c) (binary_remote (seconds 60) ∷ []))
                        ++ when (not (is_empty c.visor_log_dir))
                            (download_logs ∷ visor_log ∷ []))))))

-- errProbe
unfoldable pub err_probe : Error → ServiceProbe
err_probe e = record { is_active = err e; main_pid = err e; n_restarts = err e }

-- serviceProbe: the probe over D-Bus, or the one that always fails.
unfoldable pub service_probe : Result UnitConn → Bytes → ServiceProbe
unfolding err_probe
service_probe bus unit = elim (new_dbus_probe bus unit) [
  | ok p ↦ dbus_probe p
  | err e ↦ err_probe e
]

-- tailLatest
unfoldable pub tail_latest : LogDirStat → Bytes → Result Bytes
tail_latest latest_mtime dir = elim (latest_mtime dir) [
  | err e ↦ err e
  | ok (mt, name) ↦ if is_empty name then ok [] else ok (join dir name)
]

-- What the last select of run finds.
pub data Ending : Type 0 where
  server_error : Error → Ending
  signal : Result (Unit {0}) → Ending

-- The error of run, `none` for nil, by Load's result and by how the server ends; a signal comes
-- with the result of Shutdown.
unfoldable pub run : Result Config → Ending → Option Error
run (err e) end = some e
run (ok c) (server_error e) = some e
run (ok c) (signal (err e)) = some e
run (ok c) (signal (ok _)) = none
