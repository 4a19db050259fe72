-- ===== src/Collectors/Slack/Answer.antt =====
-- The outcome collector with `History24h` of internal/slackapi: from Slack's answer to the gauge.
use vpub_exporter.Prelude.{
  false, Option, none, some, Option-cases, inl, inr, ◌≡◌, ◌⊎◌, refl, ap, ◌∙◌, arith, length, pos,
}
use vpub_exporter.Text.{Bytes, is_empty}
use vpub_exporter.Errors.{Error, Outcome, ok, success, fails, api}
use vpub_exporter.Prometheus.{Prometheus}
use vpub_exporter.Probes.Http.{Response}
use vpub_exporter.Probes.SlackHttp.{HistoryResp, history_24h}
use vpub_exporter.Probes.SlackHttp.Count.{IsWhole, history_24h-IsWhole, history_24h-count}
use vpub_exporter.Collectors.Slack.{OutcomeSlackCollector, History, tick_outcome}
use vpub_exporter.Collectors.Slack.LastGood.{IsFresh, tick_outcome-step}

module _ (P : Prometheus) where
  tick_outcome-outcome :
      (h : History) (c : OutcomeSlackCollector P)
      → is_empty c.token ≡ false
      → is_empty c.channel ≡ false
      → (tick_outcome P (λ token channel. h) c).1
        ≡ elim h.error [ none ↦ success | some e ↦ fails api e ]
  unfolding tick_outcome
  tick_outcome-outcome h c t ch = ground arith

  pub same_history :
      (f : Bytes → Bytes → History) (c : OutcomeSlackCollector P)
      → tick_outcome P f c ≡ tick_outcome P (λ token channel. f c.token c.channel) c
  unfolding tick_outcome
  same_history f c = refl

  -- Whatever answer Slack gives to the outcome collector with a token and a channel, either it is
  -- whole, with status 200, ok and no further page, and then the gauge shows the number of its
  -- messages and the tick succeeds; or it is not, and then the gauge stays and the tick fails with
  -- kind "api".
  pub tick_outcome-answer :
      (decode : Bytes → Option HistoryResp) (r : Response) (c : OutcomeSlackCollector P)
      → is_empty c.token ≡ false
      → is_empty c.channel ≡ false
      → IsFresh P c
      → (let after = tick_outcome P (history_24h decode (ok r)) c in
          ((h : HistoryResp) × IsWhole decode r h
            × (P.value after.0.gauge ≡ P.float64 (pos (length h.messages)))
            × (after.1 ≡ success))
          ⊎ (¬ ((h : HistoryResp) × IsWhole decode r h)
              × (P.value after.0.gauge ≡ P.value c.gauge)
              × ((e : Error) × (after.1 ≡ fails api e))))
  tick_outcome-answer decode r c t ch f =
      let answer : History = history_24h decode (ok r) c.token c.channel in
      let whole = history_24h-IsWhole decode r c.token c.channel t ch in
      let step = tick_outcome-step P answer c t ch f in
      let outcome = tick_outcome-outcome answer c t ch in
      let by_error : Option Error → P.Value =
        (λ e. elim e [ none ↦ P.float64 (pos answer.count) | some x ↦ P.value c.gauge ]) in
      let outcome_of : Option Error → Outcome =
        (λ e. elim e [ none ↦ success | some x ↦ fails api x ]) in
      rw (same_history (history_24h decode (ok r)) c) (elim (Option-cases answer.error) [
        | inl e ↦
            let (h, w, n) = whole.0 e in
            inl (
              h,
              w,
              step.0 ∙ ap by_error e ∙ ap (λ k. P.float64 (pos k)) n,
              outcome ∙ ap outcome_of e,
            )
        | inr (x, e) ↦ inr (
          λ (h, w).
              let none_is = whole.1 (h, w, history_24h-count decode r c.token c.channel h t ch w) in
              absurd (ground arith),
          step.0 ∙ ap by_error e,
          (x, outcome ∙ ap outcome_of e),
        )
      ])
