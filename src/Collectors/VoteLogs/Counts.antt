-- ===== src/Collectors/VoteLogs/Counts.antt =====
-- The failure counters of the bridge and the metrics of the oracle over the events of the vote
-- collector.
use vpub_exporter.Prelude.{
  Bool, inl, inr, none, some, Option-cases, List, [], ◌∷◌, ◌≡◌, ap, arith, if◌then◌else◌, pos,
}
use vpub_exporter.Text.{Bytes}
use vpub_exporter.Clock.{unix}
use vpub_exporter.Regexp.{Engine}
use vpub_exporter.Logtail.Drain.{Match}
use vpub_exporter.Prometheus.{Prometheus, labels_eq}
use vpub_exporter.Collectors.EventLogs.Totals.{steps}
use vpub_exporter.Collectors.VoteLogs.{
  VoteLogsCollector, VotePatterns, VoteEvent, first_capture1_int, first_capture2, line_matches_any,
  status_ok, status_fail, count_votes, count_bridge_fail, classify_bridge, classify_oracle, consume,
}
use vpub_exporter.Collectors.VoteLogs.Totals.{bridge_matches}
use vpub_exporter.Collectors.VoteLogs.Channels.{
  oracle_matches, consume_by_bridge, consume_by_oracle,
}

module _ (P : Prometheus) (re : Engine) (ps : VotePatterns) where
  -- Adds 1 for a bridge match with no provider failure and no ok count that a fail pattern matches.
  abbrev pub bridge_fail_line : Bytes → P.Value → P.Value
  bridge_fail_line l v = elim (first_capture2 re l ps.provider_fail) [
    | some _ ↦ v
    | none ↦ elim (first_capture1_int re l ps.bridge_ok) [
      | some _ ↦ v
      | none ↦ if line_matches_any re l ps.bridge_fail then P.plus v (P.float64 (pos 1)) else v
    ]
  ]

  abbrev pub bridge_fail_step : Match → P.Value → P.Value
  bridge_fail_step m = bridge_fail_line m.line

  -- Adds 1 for a provider failure with this name and this status code.
  abbrev pub provider_fail_line : Bytes → Bytes → Bytes → P.Value → P.Value
  provider_fail_line name status l v = elim (first_capture2 re l ps.provider_fail) [
    | none ↦ v
    | some (n, s) ↦
        if labels_eq (n ∷ s ∷ []) (name ∷ status ∷ []) then P.plus v (P.float64 (pos 1)) else v
  ]

  abbrev pub provider_fail_step : Bytes → Bytes → Match → P.Value → P.Value
  provider_fail_step name status m = provider_fail_line name status m.line

  classify_bridge-fail :
      (m : Match) (c : VoteLogsCollector P)
      → P.total_at (classify_bridge P re ps m c).bridge_vote_tot status_fail
        ≡ bridge_fail_step m (P.total_at c.bridge_vote_tot status_fail)
  unfolding classify_bridge count_votes count_bridge_fail
  classify_bridge-fail m c = elim (Option-cases (first_capture2 re m.line ps.provider_fail)) [
    | inr (x, e) ↦ ground arith
    | inl e ↦ elim (Option-cases (first_capture1_int re m.line ps.bridge_ok)) [
      | inr (n, f) ↦ ground (arith, P.total_at-add_at c.bridge_vote_tot status_ok n status_fail)
      | inl f ↦ ground (arith, P.total_at-add_at c.bridge_vote_tot status_fail (pos 1) status_fail)
    ]
  ]

  classify_bridge-provider :
      (name status : Bytes) (m : Match) (c : VoteLogsCollector P)
      → P.total_at (classify_bridge P re ps m c).bridge_provider_fail_tot (name ∷ status ∷ [])
        ≡ provider_fail_step name status m
            (P.total_at c.bridge_provider_fail_tot (name ∷ status ∷ []))
  unfolding classify_bridge count_votes count_bridge_fail
  classify_bridge-provider name status m c =
      elim (Option-cases (first_capture2 re m.line ps.provider_fail)) [
        | inr ((n, s), e) ↦
            rw (e, classify_bridge, provider_fail_line)
              (P.total_at-add_at c.bridge_provider_fail_tot (n ∷ s ∷ []) (pos 1)
                (name ∷ status ∷ []) (omega arith))
        | inl e ↦ ground arith
      ]

  -- Over any events the counter of failed bridge votes grows by 1 for each classified bridge line
  -- that is no provider failure, has no number of votes and is matched by a fail pattern; and the
  -- counter of provider failures of each name and status by 1 for each line that names them.
  pub consume_failures :
      (name status : Bytes) (es : List VoteEvent) (b o : Bool) (c : VoteLogsCollector P)
      → (P.total_at (consume P re ps b o es c).bridge_vote_tot status_fail
          ≡ steps bridge_fail_step
              (P.total_at c.bridge_vote_tot status_fail)
              (bridge_matches b o es))
        × (P.total_at (consume P re ps b o es c).bridge_provider_fail_tot (name ∷ status ∷ [])
            ≡ steps
                (provider_fail_step name status)
                (P.total_at c.bridge_provider_fail_tot (name ∷ status ∷ []))
                (bridge_matches b o es))
  unfolding classify_oracle
  consume_failures name status es b o c = (
    consume_by_bridge P re ps (λ d. P.total_at d.bridge_vote_tot status_fail) bridge_fail_step
        classify_bridge-fail (λ m d. ground arith) es b o c,
    consume_by_bridge P re ps (λ d. P.total_at d.bridge_provider_fail_tot (name ∷ status ∷ []))
        (provider_fail_step name status) (classify_bridge-provider name status)
        (λ m d. ground arith) es b o c,
  )

  -- A match of an oracle ok pattern adds 1 and gives the time; any other leaves both.
  abbrev pub oracle_ok_line : Bytes → P.Value → P.Value
  oracle_ok_line l v =
      if line_matches_any re l ps.oracle_ok then P.plus v (P.float64 (pos 1)) else v

  abbrev pub oracle_ok_step : Match → P.Value → P.Value
  oracle_ok_step m = oracle_ok_line m.line

  abbrev pub oracle_time_step : Match → P.Value → P.Value
  oracle_time_step m v =
      if line_matches_any re m.line ps.oracle_ok then P.float64 (unix m.at) else v

  -- Adds 1 for a match of a fail pattern that no ok pattern matches.
  abbrev pub oracle_fail_line : Bytes → P.Value → P.Value
  oracle_fail_line l v =
      if line_matches_any re l ps.oracle_ok
      then v
      else if line_matches_any re l ps.oracle_fail
      then P.plus v (P.float64 (pos 1))
      else v

  abbrev pub oracle_fail_step : Match → P.Value → P.Value
  oracle_fail_step m = oracle_fail_line m.line

  classify_oracle-values :
      (m : Match) (c : VoteLogsCollector P)
      → (P.total_at (classify_oracle P re ps m c).oracle_vote_tot status_ok
          ≡ oracle_ok_step m (P.total_at c.oracle_vote_tot status_ok))
        × (P.total_at (classify_oracle P re ps m c).oracle_vote_tot status_fail
            ≡ oracle_fail_step m (P.total_at c.oracle_vote_tot status_fail))
        × (P.value (classify_oracle P re ps m c).oracle_last_ok
            ≡ oracle_time_step m (P.value c.oracle_last_ok))
  unfolding classify_oracle
  classify_oracle-values m c = ground (
    arith,
    P.total_at-add_at c.oracle_vote_tot status_ok (pos 1) status_ok,
    P.total_at-add_at c.oracle_vote_tot status_fail (pos 1) status_ok,
    P.total_at-add_at c.oracle_vote_tot status_ok (pos 1) status_fail,
    P.total_at-add_at c.oracle_vote_tot status_fail (pos 1) status_fail,
    P.value-set c.oracle_last_ok (P.float64 (unix m.at)),
  )

  classify_bridge-oracle :
      (m : Match) (c : VoteLogsCollector P)
      → ((classify_bridge P re ps m c).oracle_vote_tot ≡ c.oracle_vote_tot)
        × ((classify_bridge P re ps m c).oracle_last_ok ≡ c.oracle_last_ok)
  unfolding classify_bridge count_votes count_bridge_fail
  classify_bridge-oracle m c = ground arith

  -- Over any events each classified oracle match counts once: as ok, with its time as that of the
  -- last success, if an ok pattern matches it, else as fail if a fail pattern does. Bridge lines
  -- change none of the three.
  pub consume_oracle :
      (es : List VoteEvent) (b o : Bool) (c : VoteLogsCollector P)
      → (P.total_at (consume P re ps b o es c).oracle_vote_tot status_ok
          ≡ steps oracle_ok_step (P.total_at c.oracle_vote_tot status_ok) (oracle_matches b o es))
        × (P.total_at (consume P re ps b o es c).oracle_vote_tot status_fail
            ≡ steps oracle_fail_step
                (P.total_at c.oracle_vote_tot status_fail)
                (oracle_matches b o es))
        × (P.value (consume P re ps b o es c).oracle_last_ok
            ≡ steps oracle_time_step (P.value c.oracle_last_ok) (oracle_matches b o es))
  consume_oracle es b o c = (
    consume_by_oracle P re ps (λ d. P.total_at d.oracle_vote_tot status_ok) oracle_ok_step
        (λ m d. (classify_oracle-values m d).0)
        (λ m d. ap (λ v. P.total_at v status_ok) (classify_bridge-oracle m d).0) es b o c,
    consume_by_oracle P re ps (λ d. P.total_at d.oracle_vote_tot status_fail) oracle_fail_step
        (λ m d. (classify_oracle-values m d).1)
        (λ m d. ap (λ v. P.total_at v status_fail) (classify_bridge-oracle m d).0) es b o c,
    consume_by_oracle P re ps (λ d. P.value d.oracle_last_ok) oracle_time_step
        (λ m d. (classify_oracle-values m d).2) (λ m d. ap P.value (classify_bridge-oracle m d).1)
        es b o c,
  )
