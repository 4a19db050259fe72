-- ===== src/Main/Wiring.antt =====
-- Which collectors run for which configuration, and what the fallback probe shows.
use vpub_exporter.Prelude.{Bool, true, false, ◌&&◌, not, List, ◌≡◌, refl, arith, any, ℤ, pos}
use vpub_exporter.Text.{Bytes, is_empty}
use vpub_exporter.Errors.{Error, err, fails, api}
use vpub_exporter.Config.{Config}
use vpub_exporter.Procs.{ChildLister}
use vpub_exporter.Prometheus.{Prometheus}
use vpub_exporter.Collectors.Service.{ServiceCollector, ServiceWorld, tick}
use vpub_exporter.Collectors.Service.Laws.{tick_gauges}
use vpub_exporter.Collectors.Service.Restarts.{tick-first_failure, tick_no_count}
use vpub_exporter.Main.{
  Job, bridge_rpc, bridge_state, slack_health, outcome_slack, binary_local, binary_remote,
  visor_log, jobs, has_entries, has_bridge_rpc, has_bridge_state, has_slack, has_binary_remote,
  service_probe,
}

abbrev is_bridge_rpc : Job → Bool
is_bridge_rpc (bridge_rpc t) = true
is_bridge_rpc _ = false

abbrev is_bridge_state : Job → Bool
is_bridge_state (bridge_state t) = true
is_bridge_state _ = false

abbrev is_slack_health : Job → Bool
is_slack_health (slack_health t) = true
is_slack_health _ = false

abbrev is_outcome_slack : Job → Bool
is_outcome_slack (outcome_slack t) = true
is_outcome_slack _ = false

abbrev is_binary_local : Job → Bool
is_binary_local (binary_local t) = true
is_binary_local _ = false

abbrev is_binary_remote : Job → Bool
is_binary_remote (binary_remote t) = true
is_binary_remote _ = false

abbrev is_visor_log : Job → Bool
is_visor_log visor_log = true
is_visor_log _ = false

-- Which of the optional collectors run.
pub record RunsExactly (c : Config) (js : List Job) : Type 0 where
  pub rpc : any is_bridge_rpc js ≡ has_bridge_rpc c
  pub state : any is_bridge_state js ≡ has_bridge_state c
  pub health : any is_slack_health js ≡ has_slack c
  pub messages : any is_outcome_slack js ≡ (has_slack c && not (is_empty c.outcome_channel))
  pub local_times : any is_binary_local js ≡ has_entries c.binary_targets
  pub remote_times : any is_binary_remote js ≡ (has_entries c.binary_targets && has_binary_remote c)
  pub visor : any is_visor_log js ≡ not (is_empty c.visor_log_dir)

-- Each optional collector runs exactly when its part of the configuration is there; a Slack channel
-- does nothing with no token, and a binary URL nothing with no targets.
pub jobs-RunsExactly : (c : Config) → RunsExactly c (jobs c)
unfolding jobs
jobs-RunsExactly c = ground arith

module _ (P : Prometheus) where
  -- Where the connection to D-Bus fails, each tick shows the service as down with no children, leaves
  -- the restart counter, and reports that error with kind "api".
  pub tick-service_probe :
      (e : Error) (unit : Bytes) (count : ChildLister) (elapsed : ℤ) (c : ServiceCollector P)
      → (let w : ServiceWorld = record {
        probe = service_probe (err e) unit;
        count_children = count;
        elapsed = elapsed;
      } in
          (P.value (tick P w c).0.up ≡ P.float64 (pos 0))
          × (P.value (tick P w c).0.child_count ≡ P.float64 (pos 0))
          × ((tick P w c).0.restart_total ≡ c.restart_total)
          × ((tick P w c).1 ≡ fails api e))
  unfolding service_probe vpub_exporter.Systemd.new_dbus_probe
  tick-service_probe e unit count elapsed c =
      let w : ServiceWorld = record {
        probe = service_probe (err e) unit;
        count_children = count;
        elapsed = elapsed;
      } in
      let gauges = tick_gauges P w c in
      (gauges.0, gauges.1, (tick_no_count P w c e refl).0, tick-first_failure P w c)
