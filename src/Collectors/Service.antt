-- ===== src/Collectors/Service.antt =====
-- `ServiceCollector` of internal/collectors/service.go.
pub mod Laws
pub mod Restarts
pub mod System
use vpub_exporter.Prelude.{
  ℕ, Bool, true, false, Option, none, some, ltb_ℤ, if◌then◌else◌, ℤ, pos, ◌-ℤ◌, wrap_int64,
}
use vpub_exporter.Errors.{
  ErrorKind, unset, api, io, Error, Result, ok, err, Outcome, success, first_error, fails,
}
use vpub_exporter.Procs.{ChildLister}
use vpub_exporter.Systemd.{ServiceProbe}
use vpub_exporter.Prometheus.{Prometheus}

pub record ServiceCollector (P : Prometheus) : Type 0 where
  pub up : P.Gauge
  pub child_count : P.Gauge
  pub restart_total : P.Counter
  pub last_n_restart : ℤ

-- What the probe and the lister return during a tick.
pub record ServiceWorld : Type 0 where
  pub probe : ServiceProbe
  pub count_children : ChildLister
  pub elapsed : ℤ

module _ (P : Prometheus) where
  set_up : Result Bool → ServiceCollector P → Outcome → ServiceCollector P × Outcome
  set_up (err e) c o = (record c { up = P.set c.up (P.float64 (pos 0)) }, fails api e)
  set_up (ok true) c o = (record c { up = P.set c.up (P.float64 (pos 1)) }, o)
  set_up (ok false) c o = (record c { up = P.set c.up (P.float64 (pos 0)) }, o)

  main_pid : Result ℤ → Outcome → ℤ × Outcome
  main_pid (ok pid) o = (pid, o)
  main_pid (err e) o = (pos 0, first_error o api e)

  -- The mirror is set to n on both branches of the source.
  unfoldable pub add_restarts : ℤ → ServiceCollector P → ServiceCollector P
  add_restarts n c =
      let delta = wrap_int64 (n -ℤ c.last_n_restart) in
      record c {
        restart_total =
            if ltb_ℤ (pos 0) delta then P.add c.restart_total delta else c.restart_total;
        last_n_restart = n;
      }

  restarts : Result ℤ → ServiceCollector P → Outcome → ServiceCollector P × Outcome
  restarts (ok n) c o = (add_restarts n c, o)
  restarts (err e) c o = (c, first_error o api e)

  set_children : Result ℕ → ServiceCollector P → Outcome → ServiceCollector P × Outcome
  set_children (ok n) c o = (record c { child_count = P.set c.child_count (P.float64 (pos n)) }, o)
  set_children (err e) c o =
      (record c { child_count = P.set c.child_count (P.float64 (pos 0)) }, first_error o io e)

  children : ChildLister → ℤ → ServiceCollector P → Outcome → ServiceCollector P × Outcome
  children count pid c o =
      if ltb_ℤ (pos 0) pid
      then set_children (count pid) c o
      else (record c { child_count = P.set c.child_count (P.float64 (pos 0)) }, o)

  -- Tick
  unfoldable pub tick : ServiceWorld → ServiceCollector P → ServiceCollector P × Outcome
  unfolding set_up main_pid restarts set_children children
  tick w c =
      let (c1, o1) = set_up w.probe.is_active c success in
      let (pid, o2) = main_pid w.probe.main_pid o1 in
      let (c2, o3) = restarts w.probe.n_restarts c1 o2 in children w.count_children pid c2 o3
