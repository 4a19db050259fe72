-- ===== src/Main/Exporter/Restarts.antt =====
-- The restart counter of the whole exporter.
use vpub_exporter.Prelude.{Option, ℕ, ◌^◌, ◌<◌, List, [], ◌∷◌, ◌≡◌, refl, ap, ◌∙◌, ℤ, pos}
use vpub_exporter.Prometheus.{Prometheus}
use vpub_exporter.Collectors.Base.{do_one}
use vpub_exporter.Collectors.Service.{ServiceWorld}
use vpub_exporter.Collectors.Service.Restarts.{tick_all, tick_all-restart_total, restart_sum, Reads}
use vpub_exporter.Main.Exporter.{
  Call, Exporter, do_call, do_calls, tick_service, tick_log_mtime, tick_bridge_rpc,
  tick_bridge_state, tick_slack_health, tick_outcome_slack, tick_binary_local, tick_binary_remote,
  unsubscribed, receive_bridge, receive_oracle, receive_outcome, receive_download, receive_visor,
  LogRules,
}

-- The ticks of the service collector.
abbrev pub service_ticks : List (ℤ × Call) → List ServiceWorld
service_ticks [] = []
service_ticks ((elapsed, tick_service w) ∷ cs) = w ∷ service_ticks cs
service_ticks ((elapsed, c) ∷ cs) = service_ticks cs

module _ (P : Prometheus) (rules : LogRules) where
  services-do_calls :
      (cs : List (ℤ × Call)) (x : Exporter P)
      → (do_calls P rules cs x).services ≡ tick_all P (service_ticks cs) x.services
  unfolding do_calls do_call do_one
  services-do_calls [] x = refl
  services-do_calls ((e, tick_service w) ∷ cs) x = services-do_calls cs _
  services-do_calls ((e, tick_log_mtime w) ∷ cs) x = services-do_calls cs _
  services-do_calls ((e, tick_bridge_rpc w) ∷ cs) x = services-do_calls cs _
  services-do_calls ((e, tick_bridge_state w) ∷ cs) x = services-do_calls cs _
  services-do_calls ((e, tick_slack_health w) ∷ cs) x = services-do_calls cs _
  services-do_calls ((e, tick_outcome_slack w) ∷ cs) x = services-do_calls cs _
  services-do_calls ((e, tick_binary_local w) ∷ cs) x = services-do_calls cs _
  services-do_calls ((e, tick_binary_remote w) ∷ cs) x = services-do_calls cs _
  services-do_calls ((e, receive_bridge m) ∷ cs) x = services-do_calls cs _
  services-do_calls ((e, receive_oracle m) ∷ cs) x = services-do_calls cs _
  services-do_calls ((e, receive_outcome m) ∷ cs) x = services-do_calls cs _
  services-do_calls ((e, receive_download m) ∷ cs) x = services-do_calls cs _
  services-do_calls ((e, receive_visor m) ∷ cs) x = services-do_calls cs _
  services-do_calls ((e, unsubscribed p) ∷ cs) x = services-do_calls cs _

  -- Whatever the goroutines of the exporter do in between, the restart counter grows by each increase
  -- of systemd's count from the one that the service collector read last. A tick that fails to read
  -- the count changes nothing; a count that falls, as after a reset, adds nothing, and the increases
  -- behind it count from the lower value. The counts are in the range of an int.
  pub do_calls-restart_total :
      (cs : List (ℤ × Call)) (ns : List (Option ℕ)) (x : Exporter P) (last : ℕ)
      → Reads P (service_ticks cs) ns
      → x.services.last_n_restart ≡ pos last
      → last < 2 ^ 63
      → P.total (do_calls P rules cs x).services.restart_total
        ≡ restart_sum P last (P.total x.services.restart_total) ns
  do_calls-restart_total cs ns x last read mirror fits =
      ap (λ s. P.total s.restart_total) (services-do_calls cs x)
      ∙ tick_all-restart_total P (service_ticks cs) ns x.services last read mirror fits
