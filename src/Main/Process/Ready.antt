-- ===== src/Main/Process/Ready.antt =====
-- Each goroutine starts behind the registration of the metrics that it writes.
use vpub_exporter.Prelude.{
  Bool, true, false, Bool-cases, inl, inr, not, List, [], ◌∷◌, ◌++◌, ◌≡◌, sym, append_assoc,
  append-nil,
}
use mathlib.Core.List.{Mem, mem-cons_self, mem-cons_of_mem, mem-append_right}
use mathlib.Core.Path.{subst}
use vpub_exporter.Text.{is_empty}
use vpub_exporter.Errors.{Result, ok, err}
use vpub_exporter.Prometheus.{Opts}
use vpub_exporter.Config.{Config}
use vpub_exporter.Systemd.{DbusProbe, UnitConn, new_dbus_probe}
use vpub_exporter.Collectors.Metrics.{
  exporter_opts, service_opts, log_mtime_opts, bridge_rpc_opts, bridge_state_opts, vote_logs_opts,
  outcome_logs_opts, slack_health_opts, outcome_slack_opts, binary_opts, download_logs_opts,
  visor_log_opts,
}
use vpub_exporter.Main.{
  Job, service, log_mtime, bridge_rpc, bridge_state, vote_logs, outcome_logs, slack_health,
  outcome_slack, binary_local, binary_remote, download_logs, visor_log, Ending, server_error,
  signal, when, has_bridge_rpc, has_bridge_state, has_slack, has_entries, has_binary_remote,
}
use vpub_exporter.Main.Process.{
  Action, register, label, start, effect, slack_actions, binary_actions, visor_actions,
  late_actions, log_actions, rpc_actions, state_actions, other_actions, setup, ending_actions,
  deferred, run_actions, listen,
}
use vpub_exporter.Main.Process.Order.{registered}

-- The metrics of the collector that a goroutine runs.
abbrev pub opts_of : Job → List Opts
opts_of (service t) = service_opts
opts_of (log_mtime t) = log_mtime_opts
opts_of (bridge_rpc t) = bridge_rpc_opts
opts_of (bridge_state t) = bridge_state_opts
opts_of vote_logs = vote_logs_opts
opts_of outcome_logs = outcome_logs_opts
opts_of (slack_health t) = slack_health_opts
opts_of (outcome_slack t) = outcome_slack_opts
opts_of (binary_local t) = binary_opts
opts_of (binary_remote t) = binary_opts
opts_of download_logs = download_logs_opts
opts_of visor_log = visor_log_opts

-- Each goroutine starts behind the registration of its metrics, where `seen` is registered already.
abbrev Ready : List (List Opts) → List Action → Type 0
Ready seen [] = Unit
Ready seen (register os ∷ acts) = Ready (seen ++ os ∷ []) acts
Ready seen (start j ∷ acts) = Mem (opts_of j) seen × Ready seen acts
Ready seen (a ∷ acts) = Ready seen acts

Ready-weaken :
    (more seen : List (List Opts)) (acts : List Action)
    → Ready seen acts
    → Ready (more ++ seen) acts
Ready-weaken more seen [] h = tt
Ready-weaken more seen (register os ∷ acts) h =
    rw append_assoc (Ready-weaken more (seen ++ os ∷ []) acts h)
Ready-weaken more seen (start j ∷ acts) h =
    (mem-append_right more h.0, Ready-weaken more seen acts h.1)
Ready-weaken more seen (effect e ∷ acts) h = Ready-weaken more seen acts h
Ready-weaken more seen (label vs ∷ acts) h = Ready-weaken more seen acts h

Ready-any : (seen : List (List Opts)) (acts : List Action) → Ready [] acts → Ready seen acts
Ready-any seen acts h = subst (λ s. Ready s acts) (append-nil seen) (Ready-weaken seen [] acts h)

Ready-append :
    (seen : List (List Opts)) (xs ys : List Action)
    → Ready seen xs
    → Ready [] ys
    → Ready seen (xs ++ ys)
Ready-append seen [] ys h k = Ready-any seen ys k
Ready-append seen (register os ∷ xs) ys h k = Ready-append (seen ++ os ∷ []) xs ys h k
Ready-append seen (start j ∷ xs) ys h k = (h.0, Ready-append seen xs ys h.1 k)
Ready-append seen (effect e ∷ xs) ys h k = Ready-append seen xs ys h k
Ready-append seen (label vs ∷ xs) ys h k = Ready-append seen xs ys h k

Ready-when :
    (b : Bool) (xs ys : List Action) → Ready [] xs → Ready [] ys → Ready [] (when b xs ++ ys)
Ready-when true xs ys h k = Ready-append [] xs ys h k
Ready-when false xs ys h k = k

second : (os ps : List Opts) → Mem ps (os ∷ ps ∷ [])
second os ps = mem-cons_of_mem os mem-cons_self

-- the collectors behind the log collectors
Ready-slack : (c : Config) → Ready [] (slack_actions c)
Ready-slack c = elim (Bool-cases (is_empty c.outcome_channel)) [
  | inl e ↦ rw e (mem-cons_self, tt)
  | inr e ↦ rw e (mem-cons_self, (second slack_health_opts outcome_slack_opts, tt))
]

Ready-binary : (c : Config) → Ready [] (binary_actions c)
Ready-binary c = elim (Bool-cases (has_binary_remote c)) [
  | inl e ↦ rw e (mem-cons_self, (mem-cons_self, tt))
  | inr e ↦ rw e (mem-cons_self, tt)
]

Ready-visor : (b : Bool) → Ready [] (when b visor_actions)
Ready-visor true = (mem-cons_self, (second download_logs_opts visor_log_opts, tt))
Ready-visor false = tt

Ready-late : (c : Config) → Ready [] (late_actions c)
Ready-late c =
    let visor = not (is_empty c.visor_log_dir) in
    Ready-when (has_slack c) (slack_actions c)
      (when (has_entries c.binary_targets) (binary_actions c) ++ when visor visor_actions)
      (Ready-slack c)
      (Ready-when (has_entries c.binary_targets) (binary_actions c) (when visor visor_actions)
        (Ready-binary c) (Ready-visor visor))

Ready-logs : (c : Config) → Ready [] (log_actions c)
Ready-logs c = (
  mem-cons_self,
  (
    second vote_logs_opts outcome_logs_opts,
    Ready-any (vote_logs_opts ∷ outcome_logs_opts ∷ []) (late_actions c) (Ready-late c),
  ),
)

Ready-other : (c : Config) → Ready [] (other_actions c)
Ready-other c =
    Ready-when (has_bridge_rpc c) (rpc_actions c)
      (when (has_bridge_state c) (state_actions c) ++ log_actions c) (mem-cons_self, tt)
      (Ready-when (has_bridge_state c) (state_actions c) (log_actions c) (mem-cons_self, tt)
        (Ready-logs c))

Ready-setup : (c : Config) → Ready [] (setup c)
unfolding setup
Ready-setup c =
    let first = exporter_opts ∷ service_opts ∷ log_mtime_opts ∷ [] in
    (
      mem-cons_of_mem exporter_opts mem-cons_self,
      (
        mem-append_right (exporter_opts ∷ service_opts ∷ []) mem-cons_self,
        Ready-any first (other_actions c) (Ready-other c),
      ),
    )

Ready-closing :
    (c : Config) (bus : Result DbusProbe) (end : Ending)
    → Ready [] (effect (listen c.listen_addr) ∷ (ending_actions c end ++ deferred bus))
unfolding ending_actions deferred
Ready-closing c (ok p) (server_error e) = tt
Ready-closing c (ok p) (signal r) = tt
Ready-closing c (err e) (server_error f) = tt
Ready-closing c (err e) (signal r) = tt

Ready-run_actions :
    (c : Config) (bus : Result UnitConn) (end : Ending) → Ready [] (run_actions (ok c) bus end)
unfolding run_actions
Ready-run_actions c bus end =
    Ready-append [] (setup c)
      (effect (listen c.listen_addr)
        ∷ (ending_actions c end ++ deferred (new_dbus_probe bus c.service_name)))
      (Ready-setup c) (Ready-closing c (new_dbus_probe bus c.service_name) end)

-- What stands in front of a goroutine.
Ready-front :
    (seen : List (List Opts)) (before : List Action) (j : Job) (behind : List Action)
    → Ready seen (before ++ (start j ∷ behind))
    → Mem (opts_of j) (seen ++ registered before)
Ready-front seen [] j behind h = rw append-nil h.0
Ready-front seen (register os ∷ before) j behind h =
    rw (sym (append_assoc seen (os ∷ []) (registered before)))
      (Ready-front (seen ++ os ∷ []) before j behind h)
Ready-front seen (start k ∷ before) j behind h = Ready-front seen before j behind h.1
Ready-front seen (effect e ∷ before) j behind h = Ready-front seen before j behind h
Ready-front seen (label vs ∷ before) j behind h = Ready-front seen before j behind h

register-inj :
    (os ps : List Opts) (xs ys : List Action) → register os ∷ xs ≡ register ps ∷ ys → os ≡ ps
register-inj os ps xs ys e = cc

-- What is registered first is registered before each goroutine.
first-registered :
    (os : List Opts) (acts before : List Action) (j : Job) (behind : List Action)
    → register os ∷ acts ≡ before ++ (start j ∷ behind)
    → Mem os (registered before)
first-registered os acts [] j behind e = absurd cc
first-registered os acts (register ps ∷ before) j behind e =
    rw (sym (register-inj os ps acts (before ++ (start j ∷ behind)) e)) mem-cons_self
first-registered os acts (start i ∷ before) j behind e = absurd cc
first-registered os acts (effect i ∷ before) j behind e = absurd cc
first-registered os acts (label vs ∷ before) j behind e = absurd cc

-- Whenever run starts a goroutine, it has registered before both the metrics of its collector and the
-- exporter's own, which every goroutine writes, for every configuration and every end of the server.
pub started-registered :
    (c : Config) (bus : Result UnitConn) (end : Ending) (before behind : List Action) (j : Job)
    → run_actions (ok c) bus end ≡ before ++ (start j ∷ behind)
    → Mem (opts_of j) (registered before) × Mem exporter_opts (registered before)
unfolding run_actions setup
started-registered c bus end before behind j e = (
  Ready-front [] before j behind (subst (Ready []) e (Ready-run_actions c bus end)),
  first-registered exporter_opts _ before j behind e,
)
