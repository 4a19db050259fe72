-- ===== src/Collectors/Slack.antt =====
-- `SlackHealthCollector` and `OutcomeSlackCollector` of internal/collectors/slack_health.go and
-- outcome_slack.go.
pub mod LastGood
pub mod Answer
pub mod Window
use vpub_exporter.Prelude.{ℕ, Option, none, some, Bool, true, false, ◌||◌, if◌then◌else◌, pos}
use vpub_exporter.Text.{Bytes, is_empty}
use vpub_exporter.Errors.{Error, Result, ok, err, Outcome, success, fails, api}
use vpub_exporter.Prometheus.{Prometheus}

pub record SlackHealthCollector (P : Prometheus) : Type 0 where
  pub token : Bytes
  pub ok_gauge : P.Gauge

pub record OutcomeSlackCollector (P : Prometheus) : Type 0 where
  pub token : Bytes
  pub channel : Bytes
  pub gauge : P.Gauge
  pub last_val : P.Value
  pub has_val : Bool

-- What a client may return beside an error: Go's two results.
pub record History : Type 0 where
  pub count : ℕ
  pub error : Option Error

module _ (P : Prometheus) where
  set_ok : Bool → SlackHealthCollector P → SlackHealthCollector P
  set_ok b c = record c { ok_gauge = P.set c.ok_gauge (P.float64 (if b then pos 1 else pos 0)) }

  health : Result Bool → SlackHealthCollector P → SlackHealthCollector P × Outcome
  unfolding set_ok
  health (err e) c = (set_ok false c, fails api e)
  health (ok b) c = (set_ok b c, success)

  -- Tick of SlackHealthCollector, with AuthTest as a function of the token
  unfoldable pub tick_health :
      (Bytes → Result Bool) → SlackHealthCollector P → SlackHealthCollector P × Outcome
  unfolding health set_ok
  tick_health auth_test c =
      if is_empty c.token then (set_ok false c, success) else health (auth_test c.token) c

  -- the part of Tick behind History24h; the count that comes with an error is not read
  unfoldable pub apply_history :
      History → OutcomeSlackCollector P → OutcomeSlackCollector P × Outcome
  apply_history h c = elim h.error [
    | some e ↦
        (record c { gauge = if c.has_val then P.set c.gauge c.last_val else c.gauge }, fails api e)
    | none ↦ (
      record c {
        last_val = P.float64 (pos h.count);
        has_val = true;
        gauge = P.set c.gauge (P.float64 (pos h.count));
      },
      success,
    )
  ]

  -- Tick of OutcomeSlackCollector, with History24h as a function of the token and the channel
  unfoldable pub tick_outcome :
      (Bytes → Bytes → History) → OutcomeSlackCollector P → OutcomeSlackCollector P × Outcome
  unfolding apply_history
  tick_outcome history c =
      if is_empty c.token || is_empty c.channel
      then (c, success)
      else apply_history (history c.token c.channel) c
