-- ===== src/Collectors/Base/Errors.antt =====
-- What the exporter's own metrics count over the runs of a ticker.
use vpub_exporter.Prelude.{
  ◌+◌, Bool, true, false, ◌&&◌, none, some, Option-cases, inl, inr, List, [], ◌∷◌, ◌≡◌, refl, ◌∙◌,
  ap, arith, length, if◌then◌else◌, ℤ, pos,
}
use vpub_exporter.Text.{Bytes, bytes_eq, bytes_eq_refl}
use vpub_exporter.Errors.{Outcome, kind_label}
use vpub_exporter.Prometheus.{Prometheus}
use vpub_exporter.Collectors.Base.{
  ExporterMetrics, default_kind, Event, cancelled, tick, count_error, record_run, do_one, ticks,
  run_ticker,
}

module _ {W S : Type 0} (fn : W → S → S × Outcome) where
  -- The worlds of the calls of `fn`: the first, and one for each tick before the context is
  -- cancelled.
  abbrev pub called : List (Event W) → List W
  called [] = []
  called (cancelled ∷ es) = []
  called (tick w ∷ es) = w ∷ called es

  abbrev pub outcomes : List W → S → List Outcome
  outcomes [] s = []
  outcomes (w ∷ ws) s = (fn w s).1 ∷ outcomes ws (fn w s).0

  abbrev pub last_state : List W → S → S
  last_state [] s = s
  last_state (w ∷ ws) s = last_state ws (fn w s).0

same_name {ℓ} :
    {A : Type ℓ} (a b : Bool) (x y : A)
    → a ≡ true
    → (if a && (b && true) then x else y) ≡ (if b then x else y)
same_name true true x y h = refl
same_name true false x y h = refl
same_name false b x y h = cc

module _ (P : Prometheus) where
  -- A failure adds 1 to the counter of its kind; a kind that is not set counts as "io".
  abbrev pub error_step : Bytes → P.Value → Outcome → P.Value
  error_step label v o = elim o.error [
    | none ↦ v
    | some e ↦
        if bytes_eq (kind_label (default_kind o.kind)) label
        then P.plus v (P.float64 (pos 1))
        else v
  ]

  abbrev pub errors_sum : Bytes → P.Value → List Outcome → P.Value
  errors_sum label v [] = v
  errors_sum label v (o ∷ os) = errors_sum label (error_step label v o) os

  pub count_error-total :
      (name label : Bytes) (o : Outcome) (c : P.CounterVec)
      → P.total_at (count_error P name o c) (name ∷ label ∷ [])
        ≡ error_step label (P.total_at c (name ∷ label ∷ [])) o
  unfolding count_error
  count_error-total name label o c = elim (Option-cases o.error) [
    | inl e ↦ rw (e, count_error)
    | inr (x, e) ↦
        let kind : Bytes = kind_label (default_kind o.kind) in
        rw (e, count_error)
          (P.total_at-add_at c (name ∷ kind ∷ []) (pos 1) (name ∷ label ∷ []) (omega arith)
            ∙ same_name (bytes_eq name name) (bytes_eq kind label) _ _ (bytes_eq_refl name))
  ]

  pub observe-count :
      (name : Bytes) (v : P.Value) (h : P.HistogramVec)
      → P.count_at (P.observe h (name ∷ []) v) (name ∷ []) ≡ P.count_at h (name ∷ []) + 1
  observe-count name v h = P.count_at-observe h (name ∷ []) v (name ∷ []) ∙ rw (bytes_eq_refl name)

module _ (P : Prometheus) {W S : Type 0} (name : Bytes) (elapsed : W → ℤ)
    (fn : W → S → S × Outcome) where
  ticks-metrics :
      (es : List (Event W)) (s : S) (em : ExporterMetrics P) (label : Bytes)
      → ((ticks P name elapsed fn es (s, em)).0 ≡ last_state fn (called fn es) s)
        × (P.total_at (ticks P name elapsed fn es (s, em)).1.collection_errors (name ∷ label ∷ [])
            ≡ errors_sum P label
                (P.total_at em.collection_errors (name ∷ label ∷ []))
                (outcomes fn (called fn es) s))
        × (P.count_at (ticks P name elapsed fn es (s, em)).1.collection_duration (name ∷ [])
            ≡ P.count_at em.collection_duration (name ∷ []) + length (called fn es))
  unfolding ticks do_one record_run
  ticks-metrics [] s em label = (refl, refl, omega arith)
  ticks-metrics (cancelled ∷ es) s em label = (refl, refl, omega arith)
  ticks-metrics (tick w ∷ es) s em label =
      let o : Outcome = (fn w s).1 in
      let em' : ExporterMetrics P = record_run P name (elapsed w) o em in
      let (state, errors, durations) = ticks-metrics es (fn w s).0 em' label in
      (
        state,
        errors
            ∙ ap (λ v. errors_sum P label v (outcomes fn (called fn es) (fn w s).0))
                (count_error-total P name label o em.collection_errors),
        durations
            ∙ omega (arith, observe-count P name (P.seconds (elapsed w)) em.collection_duration),
      )

  -- RunTicker calls the function once at once and then for each tick before the context is cancelled,
  -- each call on the state that the call before it left. Each call is observed once in the histogram
  -- of durations, and the error counter of each kind grows by 1 for each call that failed with that
  -- kind, where a kind that is not set counts as "io".
  pub run_ticker-metrics :
      (w : W) (es : List (Event W)) (s : S) (em : ExporterMetrics P) (label : Bytes)
      → ((run_ticker P name elapsed fn w es (s, em)).0 ≡ last_state fn (w ∷ called fn es) s)
        × (P.total_at
              (run_ticker P name elapsed fn w es (s, em)).1.collection_errors
              (name ∷ label ∷ [])
            ≡ errors_sum P label
                (P.total_at em.collection_errors (name ∷ label ∷ []))
                (outcomes fn (w ∷ called fn es) s))
        × (P.count_at (run_ticker P name elapsed fn w es (s, em)).1.collection_duration (name ∷ [])
            ≡ P.count_at em.collection_duration (name ∷ []) + length (w ∷ called fn es))
  unfolding run_ticker
  run_ticker-metrics w es s em label = unfold ticks in ticks-metrics (tick w ∷ es) s em label
