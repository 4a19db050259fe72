-- ===== src/Collectors/Base.antt =====
-- `RunTicker` and `Cache` of internal/collectors/base.go.
pub mod Errors
pub mod Cached
use vpub_exporter.Prelude.{◌≡◌, Option, none, some, List, [], ◌∷◌, ℤ, pos}
use vpub_exporter.Text.{Bytes}
use vpub_exporter.Errors.{ErrorKind, unset, timeout, api, parse, io, Error, Outcome, kind_label}
use vpub_exporter.Prometheus.{Prometheus}

pub record ExporterMetrics (P : Prometheus) : Type 0 where
  pub collection_duration : P.HistogramVec
  pub collection_errors : P.CounterVec

-- if kind == "" { kind = KindIO }
abbrev pub default_kind : ErrorKind → ErrorKind
default_kind unset = io
default_kind k = k

-- What one select of the loop finds: the context cancelled, or a tick, with what the calls of
-- the tick will meet.
pub data Event (W : Type 0) : Type 0 where
  cancelled : Event W
  tick : W → Event W

module _ (P : Prometheus) where
  unfoldable pub count_error : Bytes → Outcome → P.CounterVec → P.CounterVec
  count_error name o c = elim o.error [
    | none ↦ c
    | some e ↦ P.add_at c (name ∷ kind_label (default_kind o.kind) ∷ []) (pos 1)
  ]

  -- the duration and the errors of one call of `fn`, by its outcome
  unfoldable pub record_run : Bytes → ℤ → Outcome → ExporterMetrics P → ExporterMetrics P
  unfolding count_error
  record_run name elapsed o em = record {
    collection_duration = P.observe em.collection_duration (name ∷ []) (P.seconds elapsed);
    collection_errors = count_error name o em.collection_errors;
  }

module _ (P : Prometheus) {W S : Type 0} (name : Bytes) (elapsed : W → ℤ)
    (fn : W → S → S × Outcome) where
  -- doOne: the collector's state and the metrics of the exporter
  unfoldable pub do_one : W → S × ExporterMetrics P → S × ExporterMetrics P
  unfolding record_run
  do_one w (s, em) = let (s', o) = fn w s in (s', record_run P name (elapsed w) o em)

  unfoldable pub ticks : List (Event W) → S × ExporterMetrics P → S × ExporterMetrics P
  ticks [] s = s
  ticks (cancelled ∷ es) s = s
  ticks (tick w ∷ es) s = ticks es (do_one w s)

  -- RunTicker: one call at once, then one for each tick.
  unfoldable pub run_ticker : W → List (Event W) → S × ExporterMetrics P → S × ExporterMetrics P
  unfolding do_one ticks
  run_ticker first es s = ticks es (do_one first s)

-- Cache; the lock makes each call of Store and Load one step. A new cache holds nil, `none`.
pub record Cache (D : Type 0) : Type 0 where
  pub content : Option D

module _ {D : Type 0} where
  -- Store
  unfoldable pub store : D → Cache D → Cache D
  store v c = record { content = some v }

  -- Load
  unfoldable pub load : Cache D → Option D
  load c = c.content
