-- ===== src/Collectors/BridgeRpc/Calls.antt =====
-- The bridge RPC collector with `Probe` of internal/rpc: from a provider's answer to its metrics.
use vpub_exporter.Prelude.{
  All-middle, none-some, Option, none, some, Option-cases, inl, inr, List, [], ◌∷◌, ◌≡◌, ◌⊎◌, refl,
  sym, ap, ◌∙◌, arith, All, pos, ℤ, if◌then◌else◌,
}
use mathlib.Core.Path.{subst}
use vpub_exporter.Text.{Bytes, codes, bytes_eq, bytes_eq_refl}
use vpub_exporter.Errors.{Error, ok}
use vpub_exporter.Prometheus.{Prometheus}
use vpub_exporter.Probes.Http.{Response, HttpClient}
use vpub_exporter.Probes.Rpc.{RpcResp, probe}
use vpub_exporter.Probes.Rpc.Verdict.{IsHealthy, probe-IsHealthy}
use vpub_exporter.Probes.Requests.{rpc_request, probe_url}
use vpub_exporter.Collectors.BridgeRpc.{
  BridgeRpcCollector, Probed, classify, url_of, probed_names, tick,
}
use vpub_exporter.Collectors.BridgeRpc.Pool.{Pool, Steps, begin, IsOver}
use vpub_exporter.Collectors.BridgeRpc.Complete.{count, tick-IsOver, Shows}

module _ (decode : Bytes → Option RpcResp) (client : HttpClient) (urls : List (Bytes × Bytes)) where
  -- c.probe.Probe(cctx, url) in the goroutine of a provider
  unfoldable pub probe_of : Bytes → Probed
  probe_of n =
      let (latency, error) = probe_url decode client (url_of urls n) in
      record { name = n; latency = latency; error = error }

  -- The client answers the request to the provider's URL.
  abbrev pub Answers : Bytes → Response → Type 0
  Answers n q =
      (client.new_request_error (rpc_request (url_of urls n)) ≡ none)
      × (client.send (rpc_request (url_of urls n)) ≡ ok q)

  probe_of-error :
      (n : Bytes) (q : Response) → Answers n q → (probe_of n).error ≡ probe decode (ok q)
  unfolding probe_of probe_url
  probe_of-error n q (made, sent) = ground arith

  -- What the metrics of a provider show of its answer, by the error of Probe.
  abbrev pub ShowsAnswer :
      (P : Prometheus) → BridgeRpcCollector P → BridgeRpcCollector P → Bytes → Response → Type 0
  ShowsAnswer P before after n q =
      (IsHealthy decode q
        × (P.value_at after.up (n ∷ []) ≡ some (P.float64 (pos 1)))
        × (P.total_at after.check_tot (n ∷ codes "ok" ∷ [])
            ≡ P.plus (P.total_at before.check_tot (n ∷ codes "ok" ∷ [])) (P.float64 (pos 1))))
      ⊎ (¬ IsHealthy decode q
          × (P.value_at after.up (n ∷ []) ≡ some (P.float64 (pos 0)))
          × ((e : Error) × (probe decode (ok q) ≡ some e)
              × (P.total_at after.check_tot (n ∷ (classify e).0 ∷ [])
                  ≡ P.plus (P.total_at before.check_tot (n ∷ (classify e).0 ∷ []))
                      (P.float64 (pos 1)))))

  Shows-answer :
      (P : Prometheus) (c : BridgeRpcCollector P) (ps : List Probed) (n : Bytes) (p : Probed)
      (q : Response)
      → p.error ≡ probe decode (ok q)
      → Shows P c ps n p
      → ShowsAnswer P c (tick P ps c).0 n q
  Shows-answer P c ps n p q same (up, totals) =
      let gauge = λ (x : Option Error).
        some (P.float64 (elim x as (λ y. ℤ) [ none ↦ pos 1 | some y ↦ pos 0 ])) in
      let status = λ (x : Option Error). elim x as (λ y. Bytes) [
        | none ↦ codes "ok"
        | some y ↦ (classify y).0
      ] in
      let grown = λ (k : Bytes). λ (s : Bytes).
        if bytes_eq s k
        then P.plus (P.total_at c.check_tot (n ∷ k ∷ [])) (P.float64 (pos 1))
        else P.total_at c.check_tot (n ∷ k ∷ []) in
      elim (Option-cases (probe decode (ok q))) [
        | inl e ↦ inl (
          (probe-IsHealthy decode q).0 e,
          up ∙ ap gauge (same ∙ e),
          totals (codes "ok") ∙ ap (λ x. grown (codes "ok") (status x)) (same ∙ e),
        )
        | inr (x, e) ↦
            let k = (classify x).0 in
            inr (
              λ healthy. none-some (sym ((probe-IsHealthy decode q).1 healthy) ∙ e),
              up ∙ ap gauge (same ∙ e),
              (
                x,
                e,
                totals k ∙ ap (λ y. grown k (status y)) (same ∙ e) ∙ rw (bytes_eq_refl k) refl,
              ),
            )
      ]

  -- When a tick is over, however its goroutines interleaved, a provider that is named once and has a
  -- URL shows what it answered: for a healthy answer its gauge is 1 and its counter of "ok" has grown
  -- by 1; for any other answer its gauge is 0 and its counter of that error's status has grown by 1.
  -- Each finished probe is that of its provider's URL.
  pub tick-answer :
      (P : Prometheus) (c : BridgeRpcCollector P) (names : List Bytes) (r : Pool) (n : Bytes)
      (q : Response)
      → Steps (begin urls names) r
      → IsOver r
      → All (λ p. p ≡ probe_of p.name) r.finished
      → count n (probed_names urls names) ≡ 1
      → Answers n q
      → ShowsAnswer P c (tick P r.finished c).0 n q
  tick-answer P c names r n q run over probes once answers =
      let (xs, p, zs, same, named, hx, hz, shows) = tick-IsOver P c urls names r run over n once in
      let own : p ≡ probe_of p.name =
        All-middle (λ m. m ≡ probe_of m.name) xs p zs
          (subst (All (λ m. m ≡ probe_of m.name)) same probes) in
      Shows-answer P c r.finished n p q
        (ap (λ m. m.error) (own ∙ ap probe_of named) ∙ probe_of-error n q answers) shows
