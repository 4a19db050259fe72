-- ===== src/Main/Logs.antt =====
-- The lines that cmd/vpub-exporter/main.go writes with log.Printf, without their time stamps.
use vpub_exporter.Prelude.{List, [], ◌∷◌, ◌++◌, ℤ, pos, length}
use vpub_exporter.Text.{Bytes, codes}
use vpub_exporter.Text.Number.Format.{format_int}
use vpub_exporter.Errors.{Error, Result, ok, err}
use vpub_exporter.Systemd.{DbusProbe, UnitConn, new_dbus_probe}
use vpub_exporter.Config.{Config}
use vpub_exporter.Main.{
  Ending, server_error, signal, has_bridge_rpc, has_slack, has_binary_remote, when,
}

-- The texts of a duration and of an error are parameters; an error is the part of its text that the
-- model keeps.
module _ (show_duration : ℤ → Bytes) (show_error : Error → Bytes) where
  -- before the registry is made
  unfoldable pub starting_logs : Config → List Bytes
  unfolding format_int
  starting_logs c =
      (codes "vpub-exporter starting: listen="
        ++ c.listen_addr
        ++ codes " service="
        ++ c.service_name
        ++ codes " visor_log="
        ++ c.visor_log_dir
        ++ codes " component_log="
        ++ c.component_log_dir
        ++ codes " scrape="
        ++ show_duration c.scrape_interval)
      ∷ (when (has_slack c) (codes "slack: enabled (token=****redacted)" ∷ [])
          ++ (when (has_bridge_rpc c) (
                (codes "bridge rpc: "
                  ++ format_int (pos (length c.bridge_rpc_names))
                  ++ codes " providers (URLs redacted)")
                ∷ [])
              ++ when (has_binary_remote c) (codes "binary remote tracking: enabled" ∷ [])))

  -- in serviceProbe
  unfoldable pub probe_logs : Result DbusProbe → List Bytes
  probe_logs (ok p) = []
  probe_logs (err e) =
      (codes "systemd probe init failed (vpub_service_up will stay 0): " ++ show_error e) ∷ []

  -- in main, for what run returns with a text in front
  abbrev pub fatal : Bytes → Error → List Bytes
  fatal where_it_failed e = (codes "fatal: " ++ where_it_failed ++ show_error e) ∷ []

  -- from the last select on
  unfoldable pub ending_logs : Ending → List Bytes
  ending_logs (server_error e) = fatal (codes "server: ") e
  ending_logs (signal (err e)) =
      codes "shutdown signal received" ∷ fatal (codes "graceful shutdown: ") e
  ending_logs (signal (ok u)) =
      codes "shutdown signal received" ∷ codes "vpub-exporter stopped cleanly" ∷ []

  -- All lines of a process that does not panic, by Load's result, what the connection to the bus
  -- gives, and the end of the server; the line that the server's goroutine writes stands where it is
  -- started.
  unfoldable pub main_logs : Result Config → Result UnitConn → Ending → List Bytes
  unfolding starting_logs probe_logs ending_logs
  main_logs (err e) bus end = fatal (codes "load config: ") e
  main_logs (ok c) bus end =
      starting_logs c
      ++ (probe_logs (new_dbus_probe bus c.service_name)
          ++ ((codes "listening on " ++ c.listen_addr) ∷ ending_logs end))
