-- ===== src/Collectors/VoteLogs/Channels.antt =====
-- What of the vote collector only the matches of one of its two channels change, over its events.
use vpub_exporter.Prelude.{Bool, true, false, List, [], ◌∷◌, ◌≡◌, refl, ◌∙◌, ap, if◌then◌else◌}
use vpub_exporter.Regexp.{Engine}
use vpub_exporter.Logtail.Drain.{Match}
use vpub_exporter.Prometheus.{Prometheus}
use vpub_exporter.Collectors.EventLogs.Totals.{steps}
use vpub_exporter.Collectors.VoteLogs.{
  VoteLogsCollector, VotePatterns, VoteEvent, cancelled, bridge, oracle, bridge_closed,
  oracle_closed, classify_bridge, classify_oracle, consume,
}
use vpub_exporter.Collectors.VoteLogs.Totals.{bridge_matches}

-- The oracle matches that are classified, as `bridge_matches` for the other channel.
abbrev pub oracle_matches : Bool → Bool → List VoteEvent → List Match
oracle_matches b o [] = []
oracle_matches b o (cancelled ∷ es) = []
oracle_matches b o (oracle m ∷ es) =
    let rest = oracle_matches b o es in if o then m ∷ rest else rest
oracle_matches b o (bridge m ∷ es) = oracle_matches b o es
oracle_matches b o (bridge_closed ∷ es) =
    let rest = oracle_matches false o es in if o then rest else []
oracle_matches b o (oracle_closed ∷ es) =
    let rest = oracle_matches b false es in if b then rest else []

module _ (P : Prometheus) (re : Engine) (ps : VotePatterns) where
  -- A value that only bridge matches change, each by itself.
  pub consume_by_bridge {ℓ} :
      {V : Type ℓ} (view : VoteLogsCollector P → V) (step : Match → V → V)
      → ((m : Match) (c : VoteLogsCollector P)
          → view (classify_bridge P re ps m c) ≡ step m (view c))
      → ((m : Match) (c : VoteLogsCollector P) → view (classify_oracle P re ps m c) ≡ view c)
      → (es : List VoteEvent) (b o : Bool) (c : VoteLogsCollector P)
      → view (consume P re ps b o es c) ≡ steps step (view c) (bridge_matches b o es)
  unfolding consume
  consume_by_bridge view step h k [] b o c = refl
  consume_by_bridge view step h k (cancelled ∷ es) b o c = refl
  consume_by_bridge view step h k (bridge m ∷ es) true o c =
      consume_by_bridge view step h k es true o (classify_bridge P re ps m c)
      ∙ ap (λ v. steps step v (bridge_matches true o es)) (h m c)
  consume_by_bridge view step h k (bridge m ∷ es) false o c =
      consume_by_bridge view step h k es false o c
  consume_by_bridge view step h k (oracle m ∷ es) b true c =
      consume_by_bridge view step h k es b true (classify_oracle P re ps m c)
      ∙ ap (λ v. steps step v (bridge_matches b true es)) (k m c)
  consume_by_bridge view step h k (oracle m ∷ es) b false c =
      consume_by_bridge view step h k es b false c
  consume_by_bridge view step h k (bridge_closed ∷ es) b true c =
      consume_by_bridge view step h k es false true c
  consume_by_bridge view step h k (bridge_closed ∷ es) b false c = refl
  consume_by_bridge view step h k (oracle_closed ∷ es) true o c =
      consume_by_bridge view step h k es true false c
  consume_by_bridge view step h k (oracle_closed ∷ es) false o c = refl

  -- A value that only oracle matches change, each by itself.
  pub consume_by_oracle {ℓ} :
      {V : Type ℓ} (view : VoteLogsCollector P → V) (step : Match → V → V)
      → ((m : Match) (c : VoteLogsCollector P)
          → view (classify_oracle P re ps m c) ≡ step m (view c))
      → ((m : Match) (c : VoteLogsCollector P) → view (classify_bridge P re ps m c) ≡ view c)
      → (es : List VoteEvent) (b o : Bool) (c : VoteLogsCollector P)
      → view (consume P re ps b o es c) ≡ steps step (view c) (oracle_matches b o es)
  unfolding consume
  consume_by_oracle view step h k [] b o c = refl
  consume_by_oracle view step h k (cancelled ∷ es) b o c = refl
  consume_by_oracle view step h k (oracle m ∷ es) b true c =
      consume_by_oracle view step h k es b true (classify_oracle P re ps m c)
      ∙ ap (λ v. steps step v (oracle_matches b true es)) (h m c)
  consume_by_oracle view step h k (oracle m ∷ es) b false c =
      consume_by_oracle view step h k es b false c
  consume_by_oracle view step h k (bridge m ∷ es) true o c =
      consume_by_oracle view step h k es true o (classify_bridge P re ps m c)
      ∙ ap (λ v. steps step v (oracle_matches true o es)) (k m c)
  consume_by_oracle view step h k (bridge m ∷ es) false o c =
      consume_by_oracle view step h k es false o c
  consume_by_oracle view step h k (bridge_closed ∷ es) b true c =
      consume_by_oracle view step h k es false true c
  consume_by_oracle view step h k (bridge_closed ∷ es) b false c = refl
  consume_by_oracle view step h k (oracle_closed ∷ es) true o c =
      consume_by_oracle view step h k es true false c
  consume_by_oracle view step h k (oracle_closed ∷ es) false o c = refl
