-- ===== src/Main/Exporter/Own.antt =====
-- What each goroutine reads and writes of its collector, and each call as a function of that.
use vpub_exporter.Prelude.{Bool, true, false, [], ◌∷◌, ◌≡◌, refl, arith, ℤ, pos}
use vpub_exporter.Text.{Bytes, bytes_eq}
use vpub_exporter.Errors.{Outcome, success, fails, io, failure}
use vpub_exporter.Prometheus.{Prometheus}
use vpub_exporter.Collectors.Base.{record_run, do_one, count_error}
use vpub_exporter.Collectors.Service.{ServiceCollector}
use vpub_exporter.Collectors.Service
use vpub_exporter.Collectors.LogMtime.{LogMtimeCollector}
use vpub_exporter.Collectors.LogMtime
use vpub_exporter.Collectors.BridgeRpc.{BridgeRpcCollector}
use vpub_exporter.Collectors.BridgeRpc
use vpub_exporter.Collectors.BridgeState.{BridgeStateCollector}
use vpub_exporter.Collectors.BridgeState
use vpub_exporter.Collectors.Slack.{
  SlackHealthCollector, OutcomeSlackCollector, tick_health, tick_outcome,
}
use vpub_exporter.Collectors.Binary.{BinaryCollector, Targets, tick_local, tick_remote}
use vpub_exporter.Collectors.VoteLogs.Start.{count_subscribe_error}
use vpub_exporter.Main.Exporter.{
  LogPart, Part, service, log_mtime, bridge_rpc, bridge_state, slack_health, outcome_slack,
  binary_local, binary_remote, logs, log_name, collector_name, Call, part, Exporter, do_call,
  tick_service, tick_log_mtime, tick_bridge_rpc, tick_bridge_state, tick_slack_health,
  tick_outcome_slack, tick_binary_local, tick_binary_remote, unsubscribed, receive_bridge,
  receive_oracle, receive_outcome, receive_download, receive_visor, LogRules, vote_logs,
  outcome_logs, download_logs, visor_log,
}
use vpub_exporter.Collectors.VoteLogs.{VoteLogsCollector, classify_bridge, classify_oracle}
use vpub_exporter.Collectors.EventLogs.{
  OutcomeLogsCollector, VisorLogCollector, classify_outcome, handle_download, handle_visor,
}

-- No two goroutines have the same name.
same_log : (p q : LogPart) → bytes_eq (log_name p) (log_name q) ≡ true → p ≡ q
same_log p q h = ground arith

pub same_part : (p q : Part) → bytes_eq (collector_name p) (collector_name q) ≡ true → p ≡ q
unfolding collector_name
same_part p q h = ground arith

module _ (P : Prometheus) where
  -- What a goroutine reads and writes of its collector.
  abbrev pub Own : Part → Type 0
  Own service = ServiceCollector P
  Own log_mtime = LogMtimeCollector P
  Own bridge_rpc = BridgeRpcCollector P
  Own bridge_state = BridgeStateCollector P
  Own slack_health = SlackHealthCollector P
  Own outcome_slack = OutcomeSlackCollector P
  Own binary_local = Targets × P.GaugeVec
  Own binary_remote = Bytes × P.GaugeVec × P.GaugeVec × P.Value × Bool
  Own (logs vote_logs) = VoteLogsCollector P
  Own (logs outcome_logs) = OutcomeLogsCollector P
  Own (logs download_logs) = P.GaugeVec
  Own (logs visor_log) = VisorLogCollector P

  abbrev pub own : (p : Part) → Exporter P → Own p
  own service x = x.services
  own log_mtime x = x.log_times
  own bridge_rpc x = x.providers
  own bridge_state x = x.cursors
  own slack_health x = x.health
  own outcome_slack x = x.messages
  own binary_local x = (x.binaries.targets, x.binaries.local_mtime)
  own binary_remote x = (
    x.binaries.remote_url, x.binaries.remote_mtime, x.binaries.remote_ok, x.binaries.last_remote,
    x.binaries.has_remote,
  )
  own (logs vote_logs) x = x.votes
  own (logs outcome_logs) x = x.outcomes
  own (logs download_logs) x = x.downloads
  own (logs visor_log) x = x.visors

  -- A binary collector of which a goroutine reads only its own part.
  unfoldable pub local_only : Own binary_local → BinaryCollector P
  local_only (ts, g) = record {
    targets = ts;
    remote_url = [];
    local_mtime = g;
    remote_mtime = g;
    remote_ok = g;
    last_remote = P.float64 (pos 0);
    has_remote = false;
  }

  unfoldable pub remote_only : Own binary_remote → BinaryCollector P
  remote_only (url, times, oks, last, has) = record {
    targets = [];
    remote_url = url;
    local_mtime = times;
    remote_mtime = times;
    remote_ok = oks;
    last_remote = last;
    has_remote = has;
  }

  -- What a call adds to the histogram of durations.
  unfoldable pub spent : ℤ → Call → P.HistogramVec → P.HistogramVec
  spent elapsed (receive_bridge m) h = h
  spent elapsed (receive_oracle m) h = h
  spent elapsed (receive_outcome m) h = h
  spent elapsed (receive_download m) h = h
  spent elapsed (receive_visor m) h = h
  spent elapsed (unsubscribed p) h = h
  spent elapsed c h = P.observe h (collector_name (part c) ∷ []) (P.seconds elapsed)

module _ (P : Prometheus) (rules : LogRules) where
  pub foreign-own :
      (p : Part) (elapsed : ℤ) (c : Call) (x : Exporter P)
      → bytes_eq (collector_name (part c)) (collector_name p) ≡ false
      → own P p (do_call P rules elapsed c x) ≡ own P p x
  unfolding do_call do_one collector_name tick_local tick_remote
  foreign-own service elapsed c x h = ground arith
  foreign-own log_mtime elapsed c x h = ground arith
  foreign-own bridge_rpc elapsed c x h = ground arith
  foreign-own bridge_state elapsed c x h = ground arith
  foreign-own slack_health elapsed c x h = ground arith
  foreign-own outcome_slack elapsed c x h = ground arith
  foreign-own binary_local elapsed c x h = ground arith
  foreign-own binary_remote elapsed c x h = ground arith
  foreign-own (logs vote_logs) elapsed c x h = ground arith
  foreign-own (logs outcome_logs) elapsed c x h = ground arith
  foreign-own (logs download_logs) elapsed c x h = ground arith
  foreign-own (logs visor_log) elapsed c x h = ground arith

  -- A call, as a function of what its goroutine reads.
  unfoldable pub act : (c : Call) → Own P (part c) → Own P (part c) × Outcome
  act (tick_service w) v = vpub_exporter.Collectors.Service.tick P w v
  act (tick_log_mtime w) v = vpub_exporter.Collectors.LogMtime.tick P w v
  act (tick_bridge_rpc w) v = vpub_exporter.Collectors.BridgeRpc.tick P w v
  act (tick_bridge_state w) v = vpub_exporter.Collectors.BridgeState.tick P w v
  act (tick_slack_health w) v = tick_health P w v
  act (tick_outcome_slack w) v = tick_outcome P w v
  act (tick_binary_local w) v =
      let (c, o) = tick_local P w (local_only P v) in ((c.targets, c.local_mtime), o)
  act (tick_binary_remote w) v =
      let (c, o) = tick_remote P w (remote_only P v) in
      ((c.remote_url, c.remote_mtime, c.remote_ok, c.last_remote, c.has_remote), o)
  act (receive_bridge m) v = (classify_bridge P rules.engine rules.votes m v, success)
  act (receive_oracle m) v = (classify_oracle P rules.engine rules.votes m v, success)
  act (receive_outcome m) v = (classify_outcome P rules.engine rules.warn rules.crit m v, success)
  act (receive_download m) v = (handle_download P rules.engine m v, success)
  act (receive_visor m) v = (handle_visor P rules.engine m v, success)
  act (unsubscribed p) v = (v, fails io (failure []))

  pub own-act :
      (elapsed : ℤ) (c : Call) (x : Exporter P)
      → (own P (part c) (do_call P rules elapsed c x) ≡ (act c (own P (part c) x)).0)
        × ((do_call P rules elapsed c x).metrics.collection_errors
            ≡ count_error P
                (collector_name (part c))
                (act c (own P (part c) x)).1
                x.metrics.collection_errors)
        × ((do_call P rules elapsed c x).metrics.collection_duration
            ≡ spent P elapsed c x.metrics.collection_duration)
  unfolding act spent local_only remote_only do_call do_one record_run count_subscribe_error
      count_error collector_name tick_local tick_remote vpub_exporter.Collectors.Binary.apply_remote
  own-act elapsed (tick_service w) x = (refl, refl, refl)
  own-act elapsed (tick_log_mtime w) x = (refl, refl, refl)
  own-act elapsed (tick_bridge_rpc w) x = (refl, refl, refl)
  own-act elapsed (tick_bridge_state w) x = (refl, refl, refl)
  own-act elapsed (tick_slack_health w) x = (refl, refl, refl)
  own-act elapsed (tick_outcome_slack w) x = (refl, refl, refl)
  own-act elapsed (tick_binary_local w) x = (refl, refl, refl)
  own-act elapsed (tick_binary_remote w) x = ground arith
  own-act elapsed (receive_bridge m) x = (refl, refl, refl)
  own-act elapsed (receive_oracle m) x = (refl, refl, refl)
  own-act elapsed (receive_outcome m) x = (refl, refl, refl)
  own-act elapsed (receive_download m) x = (refl, refl, refl)
  own-act elapsed (receive_visor m) x = (refl, refl, refl)
  own-act elapsed (unsubscribed vote_logs) x = (refl, refl, refl)
  own-act elapsed (unsubscribed outcome_logs) x = (refl, refl, refl)
  own-act elapsed (unsubscribed download_logs) x = (refl, refl, refl)
  own-act elapsed (unsubscribed visor_log) x = (refl, refl, refl)
