-- ===== src/Collectors/Slack/LastGood.antt =====
-- Over any ticks of the Slack collectors the gauges show the last good answer.
use vpub_exporter.Prelude.{
  Bool, true, false, none, some, List, [], ◌∷◌, ◌≡◌, refl, ◌∙◌, ap, arith, if◌then◌else◌, ℤ, pos,
}
use vpub_exporter.Text.{Bytes, is_empty}
use vpub_exporter.Errors.{Result, ok, err, success, fails, api}
use vpub_exporter.Prometheus.{Prometheus}
use vpub_exporter.Collectors.Slack.{
  SlackHealthCollector, OutcomeSlackCollector, History, tick_health, tick_outcome,
}

-- What AuthTest says of the token: 1 only for ok=true.
abbrev pub health_value : Bytes → Result Bool → ℤ
health_value token (ok b) = if is_empty token then pos 0 else if b then pos 1 else pos 0
health_value token (err e) = pos 0

module _ (P : Prometheus) where
  -- After a tick the health gauge is 1 if there is a token and AuthTest says ok, else 0. The tick
  -- fails only on an error of AuthTest.
  pub tick_health-value :
      (auth_test : Bytes → Result Bool) (c : SlackHealthCollector P)
      → (P.value (tick_health P auth_test c).0.ok_gauge
          ≡ P.float64 (health_value c.token (auth_test c.token)))
        × ((tick_health P auth_test c).1 ≡ (
            if is_empty c.token
            then success
            else elim (auth_test c.token) [ ok b ↦ success | err e ↦ fails api e ]))
  unfolding tick_health
  tick_health-value auth_test c = ground (
    arith,
    P.value-set c.ok_gauge (P.float64 (pos 0)),
    P.value-set c.ok_gauge (P.float64 (pos 1)),
  )

  -- Once there is a value, the gauge shows it.
  abbrev pub IsFresh : OutcomeSlackCollector P → Type 0
  IsFresh c = c.has_val ≡ true → P.value c.gauge ≡ c.last_val

  -- What the gauge shows after some answers: the count of the last that came without an error.
  abbrev pub last_good : P.Value → List History → P.Value
  last_good v [] = v
  last_good v (h ∷ hs) = last_good (elim h.error [ none ↦ P.float64 (pos h.count) | some e ↦ v ]) hs

  abbrev pub tick_all : List History → OutcomeSlackCollector P → OutcomeSlackCollector P
  tick_all [] c = c
  tick_all (h ∷ hs) c = tick_all hs (tick_outcome P (λ token channel. h) c).0

  pub tick_outcome-step :
      (h : History) (c : OutcomeSlackCollector P)
      → is_empty c.token ≡ false
      → is_empty c.channel ≡ false
      → IsFresh c
      → (P.value (tick_outcome P (λ token channel. h) c).0.gauge
          ≡ elim h.error [ none ↦ P.float64 (pos h.count) | some e ↦ P.value c.gauge ])
        × IsFresh (tick_outcome P (λ token channel. h) c).0
        × ((tick_outcome P (λ token channel. h) c).0.token ≡ c.token)
        × ((tick_outcome P (λ token channel. h) c).0.channel ≡ c.channel)
  unfolding tick_outcome
  tick_outcome-step h c t ch f =
      ground (arith, P.value-set c.gauge (P.float64 (pos h.count)), P.value-set c.gauge c.last_val)

  -- With a token and a channel, over any answers of Slack the gauge shows the count of the last
  -- answer without an error, or what it showed before: a failed or partial answer never changes it.
  pub tick_all-last_good :
      (hs : List History) (c : OutcomeSlackCollector P)
      → is_empty c.token ≡ false
      → is_empty c.channel ≡ false
      → IsFresh c
      → P.value (tick_all hs c).gauge ≡ last_good (P.value c.gauge) hs
  tick_all-last_good [] c t ch f = refl
  tick_all-last_good (h ∷ hs) c t ch f =
      let (shown, fresh, same_token, same_channel) = tick_outcome-step h c t ch f in
      tick_all-last_good hs (tick_outcome P (λ token channel. h) c).0 (ap is_empty same_token ∙ t)
        (ap is_empty same_channel ∙ ch) fresh
      ∙ ap (λ v. last_good v hs) shown
