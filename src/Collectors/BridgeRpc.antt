-- ===== src/Collectors/BridgeRpc.antt =====
-- `BridgeRPCCollector` of internal/collectors/bridge_rpc.go.
pub mod Providers
pub mod Pool
pub mod Complete
pub mod Calls
pub mod Timing
use vpub_exporter.Prelude.{
  ℕ, ◌+◌, ◌-◌, Bool, true, false, not, Option, none, some, List, [], ◌∷◌, if◌then◌else◌, ltb, ℤ,
  pos,
}
use vpub_exporter.Text.{Bytes, codes, bytes_eq, is_empty}
use vpub_exporter.Errors.{
  ErrorKind, timeout, api, unset, Error, deadline_exceeded, canceled, auth, failure, Outcome,
  success, fails, first_error,
}
use vpub_exporter.Prometheus.{Prometheus}

pub record BridgeRpcCollector (P : Prometheus) : Type 0 where
  pub up : P.GaugeVec
  pub latency : P.HistogramVec
  pub check_tot : P.CounterVec

-- What a probe of one provider returned: the latency in nanoseconds, and the error if any.
pub record Probed : Type 0 where
  pub name : Bytes
  pub latency : ℤ
  pub error : Option Error

-- the switch on the error: the status and the kind
abbrev pub classify : Error → Bytes × ErrorKind
classify deadline_exceeded = (codes "timeout", timeout)
classify canceled = (codes "timeout", timeout)
classify (auth m) = (codes "auth_error", api)
classify (failure m) = (codes "fail", api)

-- urls[name], "" for a missing name
unfoldable pub url_of : List (Bytes × Bytes) → Bytes → Bytes
url_of [] name = []
url_of ((k, u) ∷ us) name = if bytes_eq k name then u else url_of us name

-- The names that Tick starts a goroutine for, in order.
unfoldable pub probed_names : List (Bytes × Bytes) → List Bytes → List Bytes
probed_names urls [] = []
probed_names urls (n ∷ ns) =
    let rest = probed_names urls ns in if is_empty (url_of urls n) then rest else n ∷ rest

module _ (P : Prometheus) where
  -- one name of NewBridgeRPCCollector
  unfoldable pub create_one : Bytes → BridgeRpcCollector P → BridgeRpcCollector P
  create_one name c = record c {
    up = P.set_at c.up (name ∷ []) (P.float64 (pos 0));
    check_tot =
        P.with_label_values
          (P.with_label_values
            (P.with_label_values (P.with_label_values c.check_tot (name ∷ codes "ok" ∷ []))
              (name ∷ codes "fail" ∷ []))
            (name ∷ codes "timeout" ∷ []))
          (name ∷ codes "auth_error" ∷ []);
  }

  unfoldable pub create : List Bytes → BridgeRpcCollector P → BridgeRpcCollector P
  unfolding create_one
  create [] c = c
  create (n ∷ ns) c = create ns (create_one n c)

  -- the goroutine of one provider behind its probe
  unfoldable pub finish : Probed → BridgeRpcCollector P × Outcome → BridgeRpcCollector P × Outcome
  finish p (c, o) = elim p.error [
    | none ↦ (
      record c {
        latency = P.observe c.latency (p.name ∷ []) (P.seconds p.latency);
        up = P.set_at c.up (p.name ∷ []) (P.float64 (pos 1));
        check_tot = P.add_at c.check_tot (p.name ∷ codes "ok" ∷ []) (pos 1);
      },
      o,
    )
    | some e ↦ (
      record c {
        latency = P.observe c.latency (p.name ∷ []) (P.seconds p.latency);
        up = P.set_at c.up (p.name ∷ []) (P.float64 (pos 0));
        check_tot = P.add_at c.check_tot (p.name ∷ (classify e).0 ∷ []) (pos 1);
      },
      first_error o (classify e).1 e,
    )
  ]

  -- The goroutines in the order in which they finish.
  unfoldable pub finish_all :
      List Probed → BridgeRpcCollector P × Outcome → BridgeRpcCollector P × Outcome
  finish_all [] s = s
  finish_all (p ∷ ps) s = finish_all ps (finish p s)

  -- Tick, on the probes in the order in which they finish
  unfoldable pub tick : List Probed → BridgeRpcCollector P → BridgeRpcCollector P × Outcome
  tick ps c = finish_all ps (c, success)
