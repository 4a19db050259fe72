-- ===== src/Main/Process.antt =====
-- `run` and `main` of cmd/vpub-exporter/main.go as a process: what they do in order, up to the exit
-- status.
pub mod Order
pub mod Ready
pub mod Status
use vpub_exporter.Prelude.{
  ℕ, Bool, true, not, ◌&&◌, Option, none, some, List, [], ◌∷◌, ◌++◌, if◌then◌else◌, ℤ, pos,
}
use vpub_exporter.Text.{Bytes, is_empty}
use vpub_exporter.Errors.{Error, Result, ok, err}
use vpub_exporter.Clock.{seconds}
use vpub_exporter.Prometheus.{Opts}
use vpub_exporter.Registry.{Registerer}
use vpub_exporter.Systemd.{DbusProbe, UnitConn, new_dbus_probe}
use vpub_exporter.Config.{Config, Env}
use vpub_exporter.Config.Load.{load_args}
use vpub_exporter.Collectors.Metrics.{
  exporter_opts, service_opts, log_mtime_opts, bridge_rpc_opts, bridge_state_opts, vote_logs_opts,
  outcome_logs_opts, slack_health_opts, outcome_slack_opts, binary_opts, download_logs_opts,
  visor_log_opts,
}
use vpub_exporter.Main.{
  Job, service, log_mtime, bridge_rpc, bridge_state, vote_logs, outcome_logs, slack_health,
  outcome_slack, binary_local, binary_remote, download_logs, visor_log, when, has_entries,
  has_bridge_rpc, has_bridge_state, has_slack, has_binary_remote, Ending, server_error, signal, run,
}

-- The calls of run that reach outside, but for the registry and the goroutines. `stop_signals` is the
-- cancel function of signalContext, which also cancels the context of the goroutines.
pub data Effect : Type 0 where
  notify_signals stop_signals : Effect
  connect_bus : Bytes → Effect
  close_bus : Effect
  listen : Bytes → Effect
  shutdown : ℤ → Effect

-- What run does, one call after the other. `label` stands for the calls of WithLabelValues of a
-- constructor with values that the configuration gives; the other constructors' are constants.
pub data Action : Type 0 where
  register : List Opts → Action
  label : List Bytes → Action
  start : Job → Action
  effect : Effect → Action

abbrev pub slack_actions : Config → List Action
slack_actions c =
    register slack_health_opts
    ∷ start (slack_health (seconds 60))
    ∷ when (not (is_empty c.outcome_channel))
        (register outcome_slack_opts ∷ start (outcome_slack (seconds 300)) ∷ [])

abbrev pub binary_actions : Config → List Action
binary_actions c =
    register binary_opts
    ∷ start (binary_local (seconds 60))
    ∷ when (has_binary_remote c) (start (binary_remote (seconds 60)) ∷ [])

abbrev pub visor_actions : List Action
visor_actions =
    register download_logs_opts
    ∷ start download_logs
    ∷ register visor_log_opts
    ∷ start visor_log
    ∷ []

-- Slack, binaries and the visor's log
abbrev pub late_actions : Config → List Action
late_actions c =
    when (has_slack c) (slack_actions c)
    ++ (when (has_entries c.binary_targets) (binary_actions c)
        ++ when (not (is_empty c.visor_log_dir)) visor_actions)

abbrev pub log_actions : Config → List Action
log_actions c =
    register vote_logs_opts
    ∷ register outcome_logs_opts
    ∷ start vote_logs
    ∷ start outcome_logs
    ∷ late_actions c

abbrev pub rpc_actions : Config → List Action
rpc_actions c =
    register bridge_rpc_opts ∷ label c.bridge_rpc_names ∷ start (bridge_rpc c.scrape_interval) ∷ []

abbrev pub state_actions : Config → List Action
state_actions c = register bridge_state_opts ∷ start (bridge_state c.scrape_interval) ∷ []

-- the collectors behind the first two
abbrev pub other_actions : Config → List Action
other_actions c =
    when (has_bridge_rpc c) (rpc_actions c)
    ++ (when (has_bridge_state c) (state_actions c) ++ log_actions c)

-- run from the registry to the last collector
unfoldable pub setup : Config → List Action
setup c =
    register exporter_opts
    ∷ effect notify_signals
    ∷ effect (connect_bus c.service_name)
    ∷ register service_opts
    ∷ register log_mtime_opts
    ∷ start (service (seconds 5))
    ∷ start (log_mtime c.scrape_interval)
    ∷ other_actions c

-- The last select, and what comes behind it.
unfoldable pub ending_actions : Config → Ending → List Action
ending_actions c (server_error e) = []
ending_actions c (signal r) = effect (shutdown c.shutdown_timeout) ∷ []

-- The deferred calls; the fallback probe has nothing to close.
unfoldable pub deferred : Result DbusProbe → List Action
deferred (ok p) = effect close_bus ∷ effect stop_signals ∷ []
deferred (err e) = effect stop_signals ∷ []

-- All that run does, by Load's result, what the connection to the bus gives, and the end of the
-- server.
unfoldable pub run_actions : Result Config → Result UnitConn → Ending → List Action
unfolding ending_actions deferred
run_actions (err e) bus end = []
run_actions (ok c) bus end =
    setup c
    ++ (effect (listen c.listen_addr)
        ∷ (ending_actions c end ++ deferred (new_dbus_probe bus c.service_name)))

-- How the process ends: by a panic, or with an exit status.
pub data Exit : Type 0 where
  panicked : Exit
  exited : ℕ → Exit

-- main: os.Exit(1) for an error
unfoldable pub exit_status : Option Error → ℕ
exit_status none = 0
exit_status (some e) = 1

-- What is outside of the process; the arguments are those behind the program's name.
pub record Host : Type 0 where
  pub args : List Bytes
  pub getenv : Env
  pub bus : Result UnitConn
  pub ending : Ending

-- LoadFromOS
abbrev pub load_from_os : (Bytes → Option ℤ) → Host → Result Config
load_from_os parse_duration h = load_args parse_duration h.args h.getenv

module _ (R : Registerer) where
  unfoldable pub accepts_all : List Bytes → Bool
  accepts_all [] = true
  accepts_all (v ∷ vs) = R.accepts_label v && accepts_all vs

  -- The calls of MustRegister and WithLabelValues among the actions; `none` is a panic.
  unfoldable pub perform : R.Registry → List Action → Option R.Registry
  perform r [] = some r
  perform r (register os ∷ acts) = elim (R.must_register r os) [
    | none ↦ none
    | some r' ↦ perform r' acts
  ]
  perform r (label vs ∷ acts) = let rest = perform r acts in if accepts_all vs then rest else none
  perform r (start j ∷ acts) = perform r acts
  perform r (effect e ∷ acts) = perform r acts

  -- main, from the registry that holds the collectors of the Go runtime and the process
  unfoldable pub main : (Bytes → Option ℤ) → R.Registry → Host → Exit
  main parse_duration r h =
      let loaded = load_from_os parse_duration h in
      elim (perform r (run_actions loaded h.bus h.ending)) [
        | none ↦ panicked
        | some r' ↦ exited (exit_status (run loaded h.ending))
      ]
