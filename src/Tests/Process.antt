-- ===== src/Tests/Process.antt =====
-- Examples for the process as a whole.
use vpub_exporter.Prelude.{
  none, some, Option, List, [], ◌∷◌, ◌++◌, ◌≡◌, refl, arith, ℤ, pos, ◌+ℤ◌, if◌then◌else◌,
}
use mathlib.Core.List.{Mem}
use vpub_exporter.Text.{Bytes, codes, bytes_eq}
use vpub_exporter.Errors.{Result, ok, err, failure, success}
use vpub_exporter.Clock.{Time}
use vpub_exporter.Components.{component_visor}
use vpub_exporter.Collectors.Metrics.{exporter_opts, service_opts, log_mtime_opts}
use vpub_exporter.Collectors.Binary.{tick_local, components_sorted}
use vpub_exporter.Collectors.Binary.LocalValues.{InOrder, first_failure, shown, tick_local-shown}
use vpub_exporter.Collectors.Service.{ServiceWorld}
use vpub_exporter.Clock.{seconds}
use vpub_exporter.Main.{Job, log_mtime, signal}
use vpub_exporter.Main.Exporter.{
  Call, Exporter, do_calls, tick_service, tick_binary_local, tick_binary_remote, tick_slack_health,
  unsubscribed, receive_oracle, receive_outcome, LogRules,
}
use vpub_exporter.Main.Exporter
use vpub_exporter.Main.Exporter.Isolation.{calls_of, do_calls-isolated}
use vpub_exporter.Main.Exporter.Isolation
use vpub_exporter.Main.Exporter.Restarts.{do_calls-restart_total}
use vpub_exporter.Main.Process.{
  Action, register, start, effect, notify_signals, connect_bus, listen, shutdown, stop_signals,
  setup, other_actions, run_actions, Host, main, exited,
}
use vpub_exporter.Main.Process
use vpub_exporter.Main
use vpub_exporter.Main.Process.Order.{registered}
use vpub_exporter.Main.Process.Ready.{started-registered}
use vpub_exporter.Tests.Ideal.{ideal, moment, literal, no_gauges, no_counts}
use vpub_exporter.Logtail.Drain.{Match}
use vpub_exporter.Tests.Votes.{service, restarted, votes, vote_patterns}
use vpub_exporter.Tests.Exports.{rpc, state, health, slack_collector, binary}
use vpub_exporter.Tests.Tailing.{log_times}
use vpub_exporter.Tests.Starts.{config}
use vpub_exporter.Tests.Events.{em}

abbrev exporter : Exporter ideal
exporter = record {
  services = service;
  log_times = log_times;
  providers = rpc;
  cursors = state;
  health = health;
  messages = slack_collector;
  binaries = binary;
  votes = votes;
  outcomes = record { warn = pos 0; crit = pos 0 };
  downloads = no_gauges;
  visors = record { child_restart = no_counts; visor_crit = pos 0 };
  metrics = em;
}

abbrev rules : LogRules
rules = record {
  engine = literal;
  votes = vote_patterns;
  warn = codes "WARN" ∷ [];
  crit = codes "CRIT" ∷ [];
}

-- A line that the oracle publisher and the outcome voter both may have written.
abbrev crit_line : Match
crit_line = record {
  file = codes "/l/1";
  line = codes "CRIT action";
  pattern = codes "CRIT";
  at = moment 3;
}

-- The time of every file but one.
abbrev times : Bytes → Result Time
times path = if bytes_eq path (codes "/b") then err (failure path) else ok (moment 7)

-- The service while systemd cannot be asked for its restarts.
abbrev blind : ServiceWorld
blind = record (restarted 2) {
  probe = record (restarted 2).probe { n_restarts = err (failure []) };
}

-- The two goroutines of the binary collector, the service and a log collector take turns.
abbrev calls : List (ℤ × Call)
calls =
    (pos 3, tick_service (restarted 2))
    ∷ (pos 1, tick_binary_local times)
    ∷ (pos 2, tick_binary_remote times)
    ∷ (pos 1, receive_oracle crit_line)
    ∷ (pos 1, receive_outcome crit_line)
    ∷ (pos 1, unsubscribed vpub_exporter.Main.Exporter.visor_log)
    ∷ (pos 9, tick_service blind)
    ∷ (pos 3, tick_service (restarted 5))
    ∷ (pos 4, tick_binary_local (λ p. err (failure p)))
    ∷ []

do_calls-isolated_example :
    vpub_exporter.Main.Exporter.Isolation.shown ideal
      (codes "io")
      vpub_exporter.Main.Exporter.binary_local
      (do_calls ideal rules calls exporter)
    ≡ vpub_exporter.Main.Exporter.Isolation.shown ideal
        (codes "io")
        vpub_exporter.Main.Exporter.binary_local
        (do_calls ideal rules (calls_of vpub_exporter.Main.Exporter.binary_local calls) exporter)
do_calls-isolated_example =
    do_calls-isolated ideal rules (codes "io") vpub_exporter.Main.Exporter.binary_local calls
      exporter

do_calls-restart_total_example :
    (do_calls ideal rules calls exporter).services.restart_total ≡ pos 5
unfolding ◌+ℤ◌
do_calls-restart_total_example =
    do_calls-restart_total ideal rules calls (some 2 ∷ none ∷ some 5 ∷ []) exporter 0
      (refl, omega arith, ((failure [], refl), (refl, omega arith, tt))) refl (omega arith)

tick_local-shown_example :
    ((tick_local ideal times binary).0.local_mtime (component_visor ∷ [])
      ≡ shown ideal times binary.targets component_visor
          (binary.local_mtime (component_visor ∷ [])))
    × ((tick_local ideal times binary).1
        ≡ first_failure times binary.targets (components_sorted binary.targets) success)
    × InOrder binary.targets (components_sorted binary.targets)
tick_local-shown_example = tick_local-shown ideal times binary component_visor

-- A host with no arguments and an empty environment, whose server a signal stops.
abbrev pub host : Host
host = record {
  args = [];
  getenv = λ key. [];
  bus = err (failure (codes "dbus connect"));
  ending = signal (ok tt);
}

abbrev pub no_duration : Bytes → Option ℤ
no_duration s = none

-- What stands in front of the second goroutine, and behind it.
abbrev before : List Action
before =
    register exporter_opts
    ∷ effect notify_signals
    ∷ effect (connect_bus (codes "v"))
    ∷ register service_opts
    ∷ register log_mtime_opts
    ∷ start (vpub_exporter.Main.service (seconds 5))
    ∷ []

abbrev behind : List Action
behind =
    other_actions config
    ++ (effect (listen (codes ":9")) ∷ effect (shutdown (pos 1)) ∷ effect stop_signals ∷ [])

started-registered_example :
    Mem log_mtime_opts (registered before) × Mem exporter_opts (registered before)
unfolding run_actions setup vpub_exporter.Systemd.new_dbus_probe
    vpub_exporter.Main.Process.ending_actions vpub_exporter.Main.Process.deferred
started-registered_example =
    started-registered config host.bus host.ending before behind (log_mtime (pos 1)) refl
