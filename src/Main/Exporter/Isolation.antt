-- ===== src/Main/Exporter/Isolation.antt =====
-- The goroutines of the collectors do not disturb each other.
use vpub_exporter.Prelude.{
  ℕ, ◌+◌, ◌==◌, false, Bool-cases, inl, inr, Option-cases, List, [], ◌∷◌, ◌≡◌, refl, sym, ap, ◌∙◌,
  arith, if◌then◌else◌, ℤ, pos,
}
use mathlib.Core.Path.{subst}
use vpub_exporter.Text.{Bytes, bytes_eq}
use vpub_exporter.Errors.{Outcome, kind_label}
use vpub_exporter.Prometheus.{Prometheus}
use vpub_exporter.Collectors.Base.{count_error, default_kind}
use vpub_exporter.Collectors.Base.Errors.{error_step, count_error-total, observe-count}
use vpub_exporter.Main.Exporter.Numbers.{number_of, number_of-inj, other_name}
use vpub_exporter.Main.Exporter.{
  Part, collector_name, Call, part, Exporter, do_call, do_calls, tick_service, tick_log_mtime,
  tick_bridge_rpc, tick_bridge_state, tick_slack_health, tick_outcome_slack, tick_binary_local,
  tick_binary_remote, unsubscribed, receive_bridge, receive_oracle, receive_outcome,
  receive_download, receive_visor, LogRules,
}
use vpub_exporter.Main.Exporter.Own.{Own, own, act, spent, own-act, foreign-own}

-- The calls of one goroutine.
abbrev pub calls_of : Part → List (ℤ × Call) → List (ℤ × Call)
calls_of p [] = []
calls_of p ((elapsed, c) ∷ cs) =
    if number_of (part c) == number_of p then (elapsed, c) ∷ calls_of p cs else calls_of p cs

module _ (P : Prometheus) where
  -- What is shown of a goroutine: what it has of its collector, its error counter of a kind, and how
  -- many of its ticks are in the histogram of durations.
  abbrev pub shown : Bytes → (p : Part) → Exporter P → Own P p × P.Value × ℕ
  shown kind p x = (
    own P p x,
    P.total_at x.metrics.collection_errors (collector_name p ∷ kind ∷ []),
    P.count_at x.metrics.collection_duration (collector_name p ∷ []),
  )

  spent_count : Call → ℕ → ℕ
  spent_count (receive_bridge m) n = n
  spent_count (receive_oracle m) n = n
  spent_count (receive_outcome m) n = n
  spent_count (receive_download m) n = n
  spent_count (receive_visor m) n = n
  spent_count (unsubscribed p) n = n
  spent_count c n = n + 1

  count-spent :
      (elapsed : ℤ) (c : Call) (h : P.HistogramVec)
      → P.count_at (spent P elapsed c h) (collector_name (part c) ∷ [])
        ≡ spent_count c (P.count_at h (collector_name (part c) ∷ []))
  unfolding spent spent_count
  count-spent elapsed (receive_bridge m) h = refl
  count-spent elapsed (receive_oracle m) h = refl
  count-spent elapsed (receive_outcome m) h = refl
  count-spent elapsed (receive_download m) h = refl
  count-spent elapsed (receive_visor m) h = refl
  count-spent elapsed (unsubscribed p) h = refl
  count-spent elapsed (tick_service w) h = observe-count P _ (P.seconds elapsed) h
  count-spent elapsed (tick_log_mtime w) h = observe-count P _ (P.seconds elapsed) h
  count-spent elapsed (tick_bridge_rpc w) h = observe-count P _ (P.seconds elapsed) h
  count-spent elapsed (tick_bridge_state w) h = observe-count P _ (P.seconds elapsed) h
  count-spent elapsed (tick_slack_health w) h = observe-count P _ (P.seconds elapsed) h
  count-spent elapsed (tick_outcome_slack w) h = observe-count P _ (P.seconds elapsed) h
  count-spent elapsed (tick_binary_local w) h = observe-count P _ (P.seconds elapsed) h
  count-spent elapsed (tick_binary_remote w) h = observe-count P _ (P.seconds elapsed) h

  count-spent_foreign :
      (name : Bytes) (elapsed : ℤ) (c : Call) (h : P.HistogramVec)
      → bytes_eq (collector_name (part c)) name ≡ false
      → P.count_at (spent P elapsed c h) (name ∷ []) ≡ P.count_at h (name ∷ [])
  unfolding spent
  count-spent_foreign name elapsed c h e =
      ground
        (arith, P.count_at-observe h (collector_name (part c) ∷ []) (P.seconds elapsed) (name ∷ []))

  total-foreign :
      (name other kind : Bytes) (o : Outcome) (c : P.CounterVec)
      → bytes_eq other name ≡ false
      → P.total_at (count_error P other o c) (name ∷ kind ∷ []) ≡ P.total_at c (name ∷ kind ∷ [])
  unfolding count_error
  total-foreign name other kind o c e = elim (Option-cases o.error) [
    | inl none_is ↦ rw (none_is, count_error) refl
    | inr (x, some_is) ↦
        let label : Bytes = kind_label (default_kind o.kind) in
        rw (some_is, count_error)
          (P.total_at-add_at c (other ∷ label ∷ []) (pos 1) (name ∷ kind ∷ []) (omega arith)
            ∙ rw e refl)
  ]

module _ (P : Prometheus) (rules : LogRules) where
  shown-foreign :
      (kind : Bytes) (p : Part) (elapsed : ℤ) (c : Call) (x : Exporter P)
      → bytes_eq (collector_name (part c)) (collector_name p) ≡ false
      → shown P kind p (do_call P rules elapsed c x) ≡ shown P kind p x
  shown-foreign kind p elapsed c x e =
      let (mine, errors, durations) = own-act P rules elapsed c x in
      λ i. (
        foreign-own P rules p elapsed c x e i,
        (ap (λ v. P.total_at v (collector_name p ∷ kind ∷ [])) errors
              ∙ total-foreign P (collector_name p) (collector_name (part c)) kind
                  (act P rules c (own P (part c) x)).1 x.metrics.collection_errors e)
            i,
        (ap (λ v. P.count_at v (collector_name p ∷ [])) durations
              ∙ count-spent_foreign P (collector_name p) elapsed c x.metrics.collection_duration e)
            i,
      )

  -- A call, as a function of what is shown of its goroutine.
  shown_after : Bytes → (c : Call) → Own P (part c) × P.Value × ℕ → Own P (part c) × P.Value × ℕ
  shown_after kind c (v, total, count) =
      ((act P rules c v).0, error_step P kind total (act P rules c v).1, spent_count P c count)

  shown-own :
      (kind : Bytes) (elapsed : ℤ) (c : Call) (x : Exporter P)
      → shown P kind (part c) (do_call P rules elapsed c x)
        ≡ shown_after kind c (shown P kind (part c) x)
  unfolding shown_after
  shown-own kind elapsed c x =
      let (mine, errors, durations) = own-act P rules elapsed c x in
      λ i. (
        mine i,
        (ap (λ v. P.total_at v (collector_name (part c) ∷ kind ∷ [])) errors
              ∙ count_error-total P (collector_name (part c)) kind
                  (act P rules c (own P (part c) x)).1 x.metrics.collection_errors)
            i,
        (ap (λ v. P.count_at v (collector_name (part c) ∷ [])) durations
              ∙ count-spent P elapsed c x.metrics.collection_duration)
            i,
      )

  shown-alike :
      (kind : Bytes) (p : Part) (elapsed : ℤ) (c : Call) (x y : Exporter P)
      → part c ≡ p
      → shown P kind p x ≡ shown P kind p y
      → shown P kind p (do_call P rules elapsed c x) ≡ shown P kind p (do_call P rules elapsed c y)
  shown-alike kind p elapsed c x y e =
      subst
        (λ (q : Part).
          shown P kind q x ≡ shown P kind q y
          → shown P kind q (do_call P rules elapsed c x)
            ≡ shown P kind q (do_call P rules elapsed c y))
        e
        (λ h.
          shown-own kind elapsed c x ∙ ap (shown_after kind c) h ∙ sym (shown-own kind elapsed c y))

  isolated :
      (kind : Bytes) (p : Part) (cs : List (ℤ × Call)) (x y : Exporter P)
      → shown P kind p x ≡ shown P kind p y
      → shown P kind p (do_calls P rules cs x) ≡ shown P kind p (do_calls P rules (calls_of p cs) y)
  unfolding do_calls
  isolated kind p [] x y h = h
  isolated kind p ((elapsed, c) ∷ cs) x y h =
      elim (Bool-cases (number_of (part c) == number_of p)) [
        | inl same ↦ rw same (
            isolated kind p cs (do_call P rules elapsed c x) (do_call P rules elapsed c y)
              (shown-alike kind p elapsed c x y (number_of-inj (part c) p same) h))
        | inr other ↦ rw other (
            isolated kind p cs (do_call P rules elapsed c x) y
              (shown-foreign kind p elapsed c x (other_name (part c) p other) ∙ h))
      ]

  -- However the goroutines of the exporter interleave, what is shown of each of them is as if the
  -- others made no call, where the calls are told apart by their goroutine: what it reads and writes of its collector, its error counter of each kind,
  -- and the number of its ticks in the histogram of durations. All goroutines share the counters and
  -- the histogram, and the two goroutines of the binary collector share one object. Each call is one
  -- step: a tick with its record in the metrics, or one match that a log collector receives.
  pub do_calls-isolated :
      (kind : Bytes) (p : Part) (cs : List (ℤ × Call)) (x : Exporter P)
      → shown P kind p (do_calls P rules cs x) ≡ shown P kind p (do_calls P rules (calls_of p cs) x)
  do_calls-isolated kind p cs x = isolated kind p cs x x refl
