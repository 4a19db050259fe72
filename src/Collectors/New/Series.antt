-- ===== src/Collectors/New/Series.antt =====
-- The series that the constructors of internal/collectors make before the first tick.
use vpub_exporter.Prelude.{
  Bool, true, false, ◌&&◌, ◌||◌, Option, none, some, List, [], ◌∷◌, ◌≡◌, refl, ap, ◌∙◌, arith, any,
  pos, if◌then◌else◌,
}
use vpub_exporter.Text.{Bytes, codes, bytes_eq}
use vpub_exporter.Clock.{Time, unix}
use vpub_exporter.Components.{ComponentName, all_components}
use vpub_exporter.Prometheus.{Opts, Prometheus, labels_eq}
use vpub_exporter.Collectors.BridgeRpc.{BridgeRpcCollector, create, create_one}
use vpub_exporter.Collectors.LogMtime.{LogMtimeCollector, seed, seed_log_mtime}
use vpub_exporter.Collectors.VoteLogs.{VoteLogsCollector, status_ok, status_fail, seed_vote_logs}
use vpub_exporter.Collectors.EventLogs.{VisorLogCollector, valid_children}
use vpub_exporter.Collectors.Metrics.{
  rpc_up_opts, rpc_latency_opts, rpc_check_tot_opts, bridge_last_ok_opts, bridge_vote_tot_opts,
  child_restart_opts, provider_fail_tot_opts, log_mtime_seconds_opts, oracle_last_ok_opts,
  oracle_vote_tot_opts,
}
use vpub_exporter.Collectors.New.{
  new_bridge_rpc_collector, new_log_mtime_collector, new_vote_logs_collector,
  new_visor_log_collector, seed_children,
}

abbrev pub one_of : List Bytes → Bytes → Bool
one_of names k = any (λ n. bytes_eq n k) names

abbrev pub rpc_statuses : List Bytes
rpc_statuses = codes "ok" ∷ codes "fail" ∷ codes "timeout" ∷ codes "auth_error" ∷ []

either_name : (a b t x : Bool) → (b && t || (a && t || x)) ≡ ((a || b) && t || x)
either_name a b t x = ground arith

abbrev pub vote_statuses : List Bytes
vote_statuses = codes "ok" ∷ codes "fail" ∷ []

either_status :
    (a b : Bool)
    → (if b && true then true else (if a && true then true else false)) ≡ (a || (b || false))
either_status a b = ground arith

module _ (P : Prometheus) where
  seed-value :
      (g : P.GaugeVec) (names : List ComponentName) (k : Bytes)
      → P.value_at (seed P g names) (k ∷ [])
        ≡ (if one_of names k then some (P.float64 (pos 0)) else P.value_at g (k ∷ []))
  unfolding seed
  seed-value g [] k = refl
  seed-value g (n ∷ ns) k =
      let g1 = P.set_at g (n ∷ []) (P.float64 (pos 0)) in
      seed-value g1 ns k ∙ ground (arith, P.value_at-set_at g (n ∷ []) (P.float64 (pos 0)) (k ∷ []))

  seed_children-exists :
      (names : List ComponentName) (c : P.CounterVec) (k : Bytes)
      → P.exists_at (seed_children P names c) (k ∷ []) ≡ (one_of names k || P.exists_at c (k ∷ []))
  unfolding seed_children
  seed_children-exists [] c k = refl
  seed_children-exists (n ∷ ns) c k =
      let c1 = P.with_label_values c (n ∷ []) in
      seed_children-exists ns c1 k ∙ ground (arith, P.exists_at-with c (n ∷ []) (k ∷ []))

  seed_children-total :
      (names : List ComponentName) (c : P.CounterVec) (l : List Bytes)
      → P.total_at (seed_children P names c) l ≡ P.total_at c l
  unfolding seed_children
  seed_children-total [] c l = refl
  seed_children-total (n ∷ ns) c l =
      seed_children-total ns (P.with_label_values c (n ∷ [])) l ∙ P.total_at-with c (n ∷ []) l

  create-up :
      (names : List Bytes) (c : BridgeRpcCollector P) (k : Bytes)
      → P.value_at (create P names c).up (k ∷ [])
        ≡ (if one_of names k then some (P.float64 (pos 0)) else P.value_at c.up (k ∷ []))
  unfolding create create_one
  create-up [] c k = refl
  create-up (n ∷ ns) c k =
      create-up ns (create_one P n c) k
      ∙ ground (arith, P.value_at-set_at c.up (n ∷ []) (P.float64 (pos 0)) (k ∷ []))

  -- WithLabelValues(name, status) for each of some statuses
  with_all : P.CounterVec → Bytes → List Bytes → P.CounterVec
  with_all c n [] = c
  with_all c n (a ∷ more) = with_all (P.with_label_values c (n ∷ a ∷ [])) n more

  with_all-series :
      (c : P.CounterVec) (n : Bytes) (statuses : List Bytes) (k s : Bytes)
      → (P.exists_at (with_all c n statuses) (k ∷ s ∷ [])
          ≡ (bytes_eq n k && one_of statuses s || P.exists_at c (k ∷ s ∷ [])))
        × (P.total_at (with_all c n statuses) (k ∷ s ∷ []) ≡ P.total_at c (k ∷ s ∷ []))
  unfolding with_all
  with_all-series c n [] k s = (ground arith, refl)
  with_all-series c n (a ∷ more) k s =
      let c1 = P.with_label_values c (n ∷ a ∷ []) in
      let rest = with_all-series c1 n more k s in
      (
        rest.0 ∙ ground (arith, P.exists_at-with c (n ∷ a ∷ []) (k ∷ s ∷ [])),
        rest.1 ∙ P.total_at-with c (n ∷ a ∷ []) (k ∷ s ∷ []),
      )

  create-check_tot :
      (names : List Bytes) (c : BridgeRpcCollector P) (k s : Bytes)
      → (P.exists_at (create P names c).check_tot (k ∷ s ∷ [])
          ≡ (one_of names k && one_of rpc_statuses s || P.exists_at c.check_tot (k ∷ s ∷ [])))
        × (P.total_at (create P names c).check_tot (k ∷ s ∷ [])
            ≡ P.total_at c.check_tot (k ∷ s ∷ []))
  unfolding create create_one with_all
  create-check_tot [] c k s = (refl, refl)
  create-check_tot (n ∷ ns) c k s =
      let rest = create-check_tot ns (create_one P n c) k s in
      let now = with_all-series c.check_tot n rpc_statuses k s in
      (
        rest.0
            ∙ ap (λ v. one_of ns k && one_of rpc_statuses s || v) now.0
            ∙ either_name (bytes_eq n k) (one_of ns k) (one_of rpc_statuses s) _,
        rest.1 ∙ now.1,
      )

  or_new : (o : Opts) (l : List Bytes) (b : Bool) → (b || P.exists_at (P.new_counter_vec o) l) ≡ b
  or_new o l b = ap (λ v. b || v) (P.exists_at-new_counter_vec o l) ∙ ground arith

  new_rpc-series :
      (names : List Bytes) (k s : Bytes)
      → let rpc : BridgeRpcCollector P = new_bridge_rpc_collector P names in
        (P.value_at rpc.up (k ∷ []) ≡ (if one_of names k then some (P.float64 (pos 0)) else none))
        × (P.exists_at rpc.check_tot (k ∷ s ∷ []) ≡ (one_of names k && one_of rpc_statuses s))
        × (P.total_at rpc.check_tot (k ∷ s ∷ []) ≡ P.float64 (pos 0))
  unfolding new_bridge_rpc_collector
  new_rpc-series names k s =
      let fresh : BridgeRpcCollector P = record {
        up = P.new_gauge_vec rpc_up_opts;
        latency = P.new_histogram_vec rpc_latency_opts;
        check_tot = P.new_counter_vec rpc_check_tot_opts;
      } in
      let (exists, totals) = create-check_tot names fresh k s in
      (
        create-up names fresh k
            ∙ ap (λ v. if one_of names k then some (P.float64 (pos 0)) else v)
                (P.value_at-new_gauge_vec rpc_up_opts (k ∷ [])),
        exists ∙ or_new rpc_check_tot_opts (k ∷ s ∷ []) (one_of names k && one_of rpc_statuses s),
        totals ∙ P.total_at-new_counter_vec rpc_check_tot_opts (k ∷ s ∷ []),
      )

  votes-series :
      (o : Opts) (s : Bytes)
      → let c : P.CounterVec =
          P.with_label_values (P.with_label_values (P.new_counter_vec o) status_ok) status_fail in
        (P.exists_at c (s ∷ []) ≡ one_of vote_statuses s)
        × (P.total_at c (s ∷ []) ≡ P.float64 (pos 0))
  votes-series o s =
      let c : P.CounterVec = P.new_counter_vec o in
      let c1 : P.CounterVec = P.with_label_values c status_ok in
      let l : List Bytes = s ∷ [] in
      (
        P.exists_at-with c1 status_fail l
            ∙ ap (λ v. if labels_eq status_fail l then true else v)
                (P.exists_at-with c status_ok l
                  ∙ ap (λ v. if labels_eq status_ok l then true else v)
                      (P.exists_at-new_counter_vec o l))
            ∙ either_status (bytes_eq (codes "ok") s) (bytes_eq (codes "fail") s),
        P.total_at-with c1 status_fail l
            ∙ P.total_at-with c status_ok l
            ∙ P.total_at-new_counter_vec o l,
      )

  -- Before the first tick and the first log line, the up gauges have a series exactly for every RPC of
  -- the configuration, the counters of its checks for each RPC and each of four statuses, the log
  -- times for every component, both counters of votes for "ok" and "fail", and the restart counters
  -- for every component that a line of the visor may name, each with value 0; the counter of failed
  -- providers has none. The times of the last votes are that of the start.
  pub new-series :
      (names : List Bytes) (visor_dir component_dir : Bytes) (now : Time) (k s : Bytes)
      → let rpc : BridgeRpcCollector P = new_bridge_rpc_collector P names in
        let mtimes : LogMtimeCollector P = new_log_mtime_collector P visor_dir component_dir in
        let votes : VoteLogsCollector P = new_vote_logs_collector P now in
        let visor : VisorLogCollector P = new_visor_log_collector P in
        let zero_if : Bool → Option P.Value = (λ b. if b then some (P.float64 (pos 0)) else none) in
        (P.value_at rpc.up (k ∷ []) ≡ zero_if (one_of names k))
        × (P.exists_at rpc.check_tot (k ∷ s ∷ []) ≡ (one_of names k && one_of rpc_statuses s))
        × (P.total_at rpc.check_tot (k ∷ s ∷ []) ≡ P.float64 (pos 0))
        × (P.value_at mtimes.mtime (k ∷ []) ≡ zero_if (one_of all_components k))
        × (P.exists_at votes.bridge_vote_tot (s ∷ []) ≡ one_of vote_statuses s)
        × (P.total_at votes.bridge_vote_tot (s ∷ []) ≡ P.float64 (pos 0))
        × (P.exists_at votes.oracle_vote_tot (s ∷ []) ≡ one_of vote_statuses s)
        × (P.total_at votes.oracle_vote_tot (s ∷ []) ≡ P.float64 (pos 0))
        × (P.value votes.bridge_last_ok ≡ P.float64 (unix now))
        × (P.value votes.oracle_last_ok ≡ P.float64 (unix now))
        × (P.exists_at visor.child_restart (k ∷ []) ≡ one_of valid_children k)
        × (P.total_at visor.child_restart (k ∷ []) ≡ P.float64 (pos 0))
        × (P.exists_at votes.bridge_provider_fail_tot (k ∷ s ∷ []) ≡ false)
  unfolding new_log_mtime_collector seed_log_mtime new_vote_logs_collector seed_vote_logs
      new_visor_log_collector
  new-series names visor_dir component_dir now k s =
      let (up, check, zero_check) = new_rpc-series names k s in
      let (bridge, zero_bridge) = votes-series bridge_vote_tot_opts s in
      let (oracle, zero_oracle) = votes-series oracle_vote_tot_opts s in
      (
        up,
        check,
        zero_check,
        seed-value (P.new_gauge_vec log_mtime_seconds_opts) all_components k
            ∙ ap (λ v. if one_of all_components k then some (P.float64 (pos 0)) else v)
                (P.value_at-new_gauge_vec log_mtime_seconds_opts (k ∷ [])),
        bridge,
        zero_bridge,
        oracle,
        zero_oracle,
        P.value-set (P.new_gauge bridge_last_ok_opts) (P.float64 (unix now)),
        P.value-set (P.new_gauge oracle_last_ok_opts) (P.float64 (unix now)),
        seed_children-exists valid_children (P.new_counter_vec child_restart_opts) k
            ∙ or_new child_restart_opts (k ∷ []) (one_of valid_children k),
        seed_children-total valid_children (P.new_counter_vec child_restart_opts) (k ∷ [])
            ∙ P.total_at-new_counter_vec child_restart_opts (k ∷ []),
        P.exists_at-new_counter_vec provider_fail_tot_opts (k ∷ s ∷ []),
      )
