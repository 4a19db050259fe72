-- ===== src/Collectors/Service/Restarts.antt =====
-- The restart counter and the errors of a tick of the service collector.
use vpub_exporter.Prelude.{
  ℕ, ◌^◌, ◌-◌, ◌<◌, Option, none, some, Bool, false, Bool-cases, inl, inr, ◌≡◌, refl, ◌∙◌, ap,
  arith, List, [], ◌∷◌, ltb, ltb_ℤ, if◌then◌else◌, ℤ, pos, ◌-ℤ◌, wrap_int64,
}
use vpub_exporter.Errors.{Error, Result, ok, err, Outcome, success, fails, api, io}
use vpub_exporter.Procs.{ChildLister}
use vpub_exporter.Prometheus.{Prometheus}
use vpub_exporter.Collectors.Service.{
  ServiceCollector, ServiceWorld, set_up, main_pid, restarts, add_restarts, set_children, children,
  tick,
}

wrap_int64-grown :
    (n last : ℕ) → n < 2 ^ 63 → last < n → wrap_int64 (pos n -ℤ pos last) ≡ pos (n - last)
unfolding wrap_int64 ◌-ℤ◌
wrap_int64-grown n last h k = ground arith

wrap_int64-fell :
    (n last : ℕ)
    → last < 2 ^ 63
    → ltb last n ≡ false
    → ltb_ℤ (pos 0) (wrap_int64 (pos n -ℤ pos last)) ≡ false
unfolding wrap_int64 ◌-ℤ◌
wrap_int64-fell n last h k = ground arith

module _ (P : Prometheus) where
  add_restarts-total :
      (n last : ℕ) (c : ServiceCollector P)
      → c.last_n_restart ≡ pos last
      → n < 2 ^ 63
      → last < 2 ^ 63
      → P.total (add_restarts P (pos n) c).restart_total ≡ (
          if ltb last n
          then P.plus (P.total c.restart_total) (P.float64 (pos (n - last)))
          else P.total c.restart_total)
  unfolding add_restarts
  add_restarts-total n last c e h k = elim (Bool-cases (ltb last n)) [
    | inl more ↦
        rw (e, wrap_int64-grown n last h (ground arith), more)
          (ground (arith, P.total-add c.restart_total (pos (n - last))))
    | inr fell ↦ rw (e, wrap_int64-fell n last k fell, fell)
  ]

  restarts-children :
      (count : ChildLister) (pid : ℤ) (c : ServiceCollector P) (o : Outcome)
      → ((children P count pid c o).0.restart_total ≡ c.restart_total)
        × ((children P count pid c o).0.last_n_restart ≡ c.last_n_restart)
  unfolding children set_children
  restarts-children count pid c o = ground arith

  restarts-set_up :
      (r : Result Bool) (c : ServiceCollector P) (o : Outcome)
      → ((set_up P r c o).0.restart_total ≡ c.restart_total)
        × ((set_up P r c o).0.last_n_restart ≡ c.last_n_restart)
  unfolding set_up
  restarts-set_up r c o = ground arith

  pub tick-restart_total :
      (w : ServiceWorld) (c : ServiceCollector P) (n last : ℕ)
      → w.probe.n_restarts ≡ ok (pos n)
      → c.last_n_restart ≡ pos last
      → n < 2 ^ 63
      → last < 2 ^ 63
      → (P.total (tick P w c).0.restart_total ≡ (
          if ltb last n
          then P.plus (P.total c.restart_total) (P.float64 (pos (n - last)))
          else P.total c.restart_total))
        × ((tick P w c).0.last_n_restart ≡ pos n)
  unfolding tick restarts
  tick-restart_total w c n last e m h k =
      let c1 = (set_up P w.probe.is_active c success).0 in
      let kept = restarts-set_up w.probe.is_active c success in
      (
        rw e (
            ap P.total (restarts-children w.count_children _ (add_restarts P (pos n) c1) _).0
            ∙ add_restarts-total n last c1 (kept.1 ∙ m) h k
            ∙ rw kept.0),
        rw e (
            (restarts-children w.count_children _ (add_restarts P (pos n) c1) _).1
            ∙ (unfold add_restarts in refl)),
      )

  -- Without a count from systemd the counter and its mirror stay.
  pub tick_no_count :
      (w : ServiceWorld) (c : ServiceCollector P) (e : Error)
      → w.probe.n_restarts ≡ err e
      → ((tick P w c).0.restart_total ≡ c.restart_total)
        × ((tick P w c).0.last_n_restart ≡ c.last_n_restart)
  unfolding tick set_up main_pid restarts set_children children
  tick_no_count w c e h = ground arith

  -- The counter after counts `ns` of systemd, the last one before them being `last`; a tick with no
  -- count is passed over.
  abbrev pub restart_sum : ℕ → P.Value → List (Option ℕ) → P.Value
  restart_sum last v [] = v
  restart_sum last v (none ∷ ns) = restart_sum last v ns
  restart_sum last v (some n ∷ ns) =
      restart_sum n (if ltb last n then P.plus v (P.float64 (pos (n - last))) else v) ns

  -- The ticks one after the other.
  abbrev pub tick_all : List ServiceWorld → ServiceCollector P → ServiceCollector P
  tick_all [] c = c
  tick_all (w ∷ ws) c = tick_all ws (tick P w c).0

  -- Each tick reads its count of restarts, which is in the range of an int, or fails to.
  abbrev pub Reads : List ServiceWorld → List (Option ℕ) → Type 0
  Reads [] [] = Unit
  Reads (w ∷ ws) (some n ∷ ns) = (w.probe.n_restarts ≡ ok (pos n)) × (n < 2 ^ 63) × Reads ws ns
  Reads (w ∷ ws) (none ∷ ns) = ((e : Error) × (w.probe.n_restarts ≡ err e)) × Reads ws ns
  Reads _ _ = ⊥

  -- Over any ticks the counter grows by each increase of systemd's count of restarts, from the count
  -- that was read last. A tick that fails to read it changes nothing. A count that falls, as after a
  -- reset, adds nothing, and the increases behind it count from the lower value.
  pub tick_all-restart_total :
      (ws : List ServiceWorld) (ns : List (Option ℕ)) (c : ServiceCollector P) (last : ℕ)
      → Reads ws ns
      → c.last_n_restart ≡ pos last
      → last < 2 ^ 63
      → P.total (tick_all ws c).restart_total ≡ restart_sum last (P.total c.restart_total) ns
  tick_all-restart_total [] [] c last h e k = refl
  tick_all-restart_total (w ∷ ws) (some n ∷ ns) c last (read, fits, later) e k =
      let (sum, mirror) = tick-restart_total w c n last read e fits k in
      tick_all-restart_total ws ns (tick P w c).0 n later mirror fits
      ∙ ap (λ v. restart_sum n v ns) sum
  tick_all-restart_total (w ∷ ws) (none ∷ ns) c last ((x, failed), later) e k =
      let (same, mirror) = tick_no_count w c x failed in
      tick_all-restart_total ws ns (tick P w c).0 last later (mirror ∙ e) k
      ∙ ap (λ t. restart_sum last (P.total t) ns) same
  tick_all-restart_total [] (n ∷ ns) c last h e k = elim h [ ]
  tick_all-restart_total (w ∷ ws) [] c last h e k = elim h [ ]

  -- The failures of a tick in the order in which the source meets them.
  abbrev pub first_failure : ServiceWorld → Outcome
  first_failure w = elim w.probe.is_active [
    | err e ↦ fails api e
    | ok _ ↦ elim w.probe.main_pid [
      | err e ↦ fails api e
      | ok pid ↦ elim w.probe.n_restarts [
        | err e ↦ fails api e
        | ok _ ↦
            if ltb_ℤ (pos 0) pid
            then elim (w.count_children pid) [ err e ↦ fails io e | ok _ ↦ success ]
            else success
      ]
    ]
  ]

  -- A tick reports the first of its failures, with kind "io" for the children and "api" for systemd.
  pub tick-first_failure :
      (w : ServiceWorld) (c : ServiceCollector P) → (tick P w c).1 ≡ first_failure w
  unfolding tick set_up main_pid restarts set_children children
  tick-first_failure w c = ground arith
