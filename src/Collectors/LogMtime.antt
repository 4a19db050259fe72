-- ===== src/Collectors/LogMtime.antt =====
-- `LogMtimeCollector` of internal/collectors/logmtime.go.
pub mod Values
pub mod Newest
use vpub_exporter.Prelude.{Bool, Option, none, some, List, [], ◌∷◌, if◌then◌else◌, pos}
use vpub_exporter.Text.{Bytes, bytes_eq, join}
use vpub_exporter.Components.{ComponentName, component_visor, all_components}
use vpub_exporter.Errors.{Error, Result, ok, err, Outcome, success, first_error, io}
use vpub_exporter.Clock.{Time, is_zero, unix}
use vpub_exporter.Logfs.{LogDirStat}
use vpub_exporter.Prometheus.{Prometheus}

pub record LogMtimeCollector (P : Prometheus) : Type 0 where
  pub visor_log_dir : Bytes
  pub component_log_dir : Bytes
  pub mtime : P.GaugeVec

module _ (P : Prometheus) where
  unfoldable pub seed : P.GaugeVec → List ComponentName → P.GaugeVec
  seed g [] = g
  seed g (name ∷ names) = seed (P.set_at g (name ∷ []) (P.float64 (pos 0))) names

  -- the loop of NewLogMtimeCollector
  unfoldable pub seed_log_mtime : P.GaugeVec → P.GaugeVec
  unfolding seed
  seed_log_mtime g = seed g all_components

  unfoldable pub dir_for : LogMtimeCollector P → ComponentName → Bytes
  dir_for c comp =
      if bytes_eq comp component_visor then c.visor_log_dir else join c.component_log_dir comp

  -- one component of the loop, by what LatestMtime returns for its directory
  unfoldable pub update :
      ComponentName → Result (Time × Bytes) → P.GaugeVec → Outcome → P.GaugeVec × Outcome
  update comp (err e) g o = (g, first_error o io e)
  update comp (ok (mt, name)) g o =
      if is_zero mt
      then (P.set_at g (comp ∷ []) (P.float64 (pos 0)), o)
      else (P.set_at g (comp ∷ []) (P.float64 (unix mt)), o)

  unfoldable pub update_all :
      (ComponentName → Result (Time × Bytes))
      → List ComponentName
      → P.GaugeVec
      → Outcome
      → P.GaugeVec × Outcome
  update_all stat [] g o = (g, o)
  update_all stat (comp ∷ comps) g o =
      let (g', o') = update comp (stat comp) g o in update_all stat comps g' o'

  -- Tick, with LatestMtime as a function of the directory
  unfoldable pub tick : LogDirStat → LogMtimeCollector P → LogMtimeCollector P × Outcome
  tick latest_mtime c =
      let (g, o) =
        update_all (λ comp. latest_mtime (dir_for c comp)) all_components c.mtime success in
      (record c { mtime = g }, o)
