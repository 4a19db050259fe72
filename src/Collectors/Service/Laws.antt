-- ===== src/Collectors/Service/Laws.antt =====
-- What a tick of the service collector does to each metric.
use vpub_exporter.Prelude.{
  Bool-cases, inl, inr, ℕ, Bool, true, false, ◌≡◌, refl, arith, ltb_ℤ, if◌then◌else◌, ℤ, pos, ◌-ℤ◌,
  wrap_int64,
}
use vpub_exporter.Errors.{Result, ok, err, Outcome}
use vpub_exporter.Procs.{ChildLister}
use vpub_exporter.Prometheus.{Prometheus}
use vpub_exporter.Collectors.Service.{
  ServiceCollector, ServiceWorld, set_up, main_pid, restarts, add_restarts, set_children, children,
  tick,
}

-- 1 for an active unit, 0 for any other and for an error.
abbrev pub up_value : Result Bool → ℤ
up_value (ok true) = pos 1
up_value _ = pos 0

-- The children of the main process; 0 if there is none, or if they cannot be counted.
abbrev pub child_value : ServiceWorld → ℤ
child_value w = elim w.probe.main_pid [
  | err e ↦ pos 0
  | ok pid ↦
      if ltb_ℤ (pos 0) pid
      then elim (w.count_children pid) [ ok n ↦ pos n | err e ↦ pos 0 ]
      else pos 0
]

-- The restarts that a tick adds: none if the count fell back or is not known.
abbrev pub restart_delta : ℤ → ℤ → ℤ
restart_delta n last = wrap_int64 (n -ℤ last)

module _ (P : Prometheus) where
  set_up-up :
      (r : Result Bool) (c : ServiceCollector P) (o : Outcome)
      → P.value (set_up P r c o).0.up ≡ P.float64 (up_value r)
  unfolding set_up
  set_up-up (ok true) c o = P.value-set c.up (P.float64 (pos 1))
  set_up-up (ok false) c o = P.value-set c.up (P.float64 (pos 0))
  set_up-up (err e) c o = P.value-set c.up (P.float64 (pos 0))

  restarts-up :
      (r : Result ℤ) (c : ServiceCollector P) (o : Outcome) → (restarts P r c o).0.up ≡ c.up
  unfolding restarts add_restarts
  restarts-up (ok n) c o = refl
  restarts-up (err e) c o = refl

  children-up :
      (count : ChildLister) (pid : ℤ) (c : ServiceCollector P) (o : Outcome)
      → (children P count pid c o).0.up ≡ c.up
  unfolding children set_children
  children-up count pid c o = ground arith

  set_children-count :
      (r : Result ℕ) (c : ServiceCollector P) (o : Outcome)
      → P.value (set_children P r c o).0.child_count
        ≡ P.float64 (elim r [ ok n ↦ pos n | err e ↦ pos 0 ])
  unfolding set_children
  set_children-count (ok n) c o = P.value-set c.child_count (P.float64 (pos n))
  set_children-count (err e) c o = P.value-set c.child_count (P.float64 (pos 0))

  children-count :
      (count : ChildLister) (pid : ℤ) (c : ServiceCollector P) (o : Outcome)
      → P.value (children P count pid c o).0.child_count
        ≡ P.float64
            (if ltb_ℤ (pos 0) pid then elim (count pid) [ ok n ↦ pos n | err e ↦ pos 0 ] else pos 0)
  unfolding children
  children-count count pid c o = elim (Bool-cases (ltb_ℤ (pos 0) pid)) [
    | inl e ↦ rw e (set_children-count (count pid) c o)
    | inr e ↦ rw e (P.value-set c.child_count (P.float64 (pos 0)))
  ]

  child_value-main_pid :
      (w : ServiceWorld) (o : Outcome)
      → (let pid : ℤ = (main_pid P w.probe.main_pid o).0 in
          if ltb_ℤ (pos 0) pid
          then elim (w.count_children pid) [ ok n ↦ pos n | err e ↦ pos 0 ]
          else pos 0)
        ≡ child_value w
  unfolding main_pid
  child_value-main_pid w o = ground arith

  -- After a tick both gauges have the values of this tick, whatever they were before, and whichever
  -- of the calls failed.
  pub tick_gauges :
      (w : ServiceWorld) (c : ServiceCollector P)
      → (P.value (tick P w c).0.up ≡ P.float64 (up_value w.probe.is_active))
        × (P.value (tick P w c).0.child_count ≡ P.float64 (child_value w))
  unfolding tick
  tick_gauges w c =
      (rw (children-up, restarts-up, set_up-up), rw (children-count, child_value-main_pid))
