-- ===== src/Collectors/Service/System.antt =====
-- The service collector with the probe of internal/systemd and the lister of internal/procs: from the
-- properties of the unit and the process file system to the metrics.
use vpub_exporter.Prelude.{
  ℕ, ◌^◌, ◌-◌, ◌<◌, Bool, true, false, some, List, ◌≡◌, refl, ap, ◌∙◌, arith, map, All, ltb,
  if◌then◌else◌, ℤ, pos,
}
use vpub_exporter.Text.{Bytes, codes, bytes_eq, is_empty}
use vpub_exporter.Errors.{ok, success}
use vpub_exporter.Prometheus.{Prometheus}
use vpub_exporter.Systemd.{
  uint32, string, Properties, DbusProbe, unit_props, service_props, dbus_probe,
}
use vpub_exporter.Procs.{ProcFs, count_children}
use vpub_exporter.Procs.Stat.{Entry, entry_of, Lists, children_of, count_children-children}
use vpub_exporter.Collectors.Service.{ServiceCollector, ServiceWorld, tick}
use vpub_exporter.Collectors.Service.Laws.{up_value, child_value, tick_gauges}
use vpub_exporter.Collectors.Service.Restarts.{
  tick-restart_total, first_failure, tick-first_failure,
}

-- What systemd answers a probe for its unit, in some state, with a main process and a count of
-- restarts.
pub record Answers (p : DbusProbe) (state : Bytes) (pid restarts : ℕ) : Type 0 where
  pub unit_properties : Properties
  pub service_properties : Properties
  pub unit_is : unit_props p ≡ ok unit_properties
  pub service_is : service_props p ≡ ok service_properties
  pub state_is : unit_properties (codes "ActiveState") ≡ some (string state)
  pub pid_is : service_properties (codes "MainPID") ≡ some (uint32 pid)
  pub restarts_are : service_properties (codes "NRestarts") ≡ some (uint32 restarts)

-- What the process file system shows.
pub record Shows (fs : ProcFs) (root : Bytes) (es : List Entry) : Type 0 where
  pub root_is : is_empty root ≡ false
  pub entries_are : fs.read_dir root ≡ ok (map entry_of es)
  pub lists : All (Lists fs root) es

abbrev pub world_of : DbusProbe → ProcFs → Bytes → ℤ → ServiceWorld
world_of p fs root elapsed = record {
  probe = dbus_probe p;
  count_children = count_children fs root;
  elapsed = elapsed;
}

dbus_probe-Answers :
    (p : DbusProbe) (state : Bytes) (pid restarts : ℕ)
    → Answers p state pid restarts
    → ((dbus_probe p).is_active ≡ ok (bytes_eq state (codes "active")))
      × ((dbus_probe p).main_pid ≡ ok (pos pid))
      × ((dbus_probe p).n_restarts ≡ ok (pos restarts))
unfolding dbus_probe
dbus_probe-Answers p state pid restarts a = (
  rw (a.unit_is, a.state_is) refl,
  rw (a.service_is, a.pid_is) refl,
  rw (a.service_is, a.restarts_are) refl,
)

up_value-ok : (b : Bool) → up_value (ok b) ≡ (if b then pos 1 else pos 0)
up_value-ok true = refl
up_value-ok false = refl

child_value-ok :
    (w : ServiceWorld) (pid n : ℕ)
    → 0 < pid
    → w.probe.main_pid ≡ ok (pos pid)
    → w.count_children (pos pid) ≡ ok n
    → child_value w ≡ pos n
child_value-ok w pid n h e k = rw e (ground arith)

first_failure-none :
    (P : Prometheus) (w : ServiceWorld) (b : Bool) (pid n m : ℕ)
    → w.probe.is_active ≡ ok b
    → w.probe.main_pid ≡ ok (pos pid)
    → w.probe.n_restarts ≡ ok (pos m)
    → w.count_children (pos pid) ≡ ok n
    → first_failure P w ≡ success
first_failure-none P w b pid n m a e r k = rw (a, e, r) (ground arith)

module _ (P : Prometheus) where
  -- From systemd and /proc to the metrics. When systemd answers the two calls for the probe's unit
  -- with its state and, as a unit of type "Service", with a main process other than 0 and its
  -- restarts, now and at the last tick below 2 ^ 32, and the process file system lists the processes,
  -- one tick sets the service's gauge to 1 for "active" and else 0 and the
  -- gauge of the children to their number, adds to the restart counter by how much the restarts have
  -- grown, if they have, and reports no failure.
  pub tick-system :
      (p : DbusProbe) (fs : ProcFs) (root : Bytes) (es : List Entry) (elapsed : ℤ)
      (c : ServiceCollector P) (state : Bytes) (pid n last : ℕ)
      → Answers p state pid n
      → Shows fs root es
      → 0 < pid
      → n < 2 ^ 32
      → c.last_n_restart ≡ pos last
      → last < 2 ^ 32
      → (let after = tick P (world_of p fs root elapsed) c in
          (P.value after.0.up
            ≡ P.float64 (if bytes_eq state (codes "active") then pos 1 else pos 0))
          × (P.value after.0.child_count ≡ P.float64 (pos (children_of pid es)))
          × (P.total after.0.restart_total ≡ (
              if ltb last n
              then P.plus (P.total c.restart_total) (P.float64 (pos (n - last)))
              else P.total c.restart_total))
          × (after.1 ≡ success))
  tick-system p fs root es elapsed c state pid n last a s h fits e fits_last =
      let w = world_of p fs root elapsed in
      let (active, main, restarts) = dbus_probe-Answers p state pid n a in
      let counted = count_children-children fs root pid es h s.root_is s.entries_are s.lists in
      let gauges = tick_gauges P w c in
      (
        gauges.0 ∙ ap (λ r. P.float64 (up_value r)) active ∙ ap P.float64 (up_value-ok _),
        gauges.1 ∙ ap P.float64 (child_value-ok w pid (children_of pid es) h main counted),
        (tick-restart_total P w c n last restarts e (omega arith) (omega arith)).0,
        tick-first_failure P w c
            ∙ first_failure-none P w _ pid (children_of pid es) n active main restarts counted,
      )
