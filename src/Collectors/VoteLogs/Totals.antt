-- ===== src/Collectors/VoteLogs/Totals.antt =====
-- The bridge counters and the time of the last success over the events of the vote collector.
use vpub_exporter.Prelude.{
  Bool, true, false, inl, inr, Option, none, some, Option-cases, List, [], ◌∷◌, ◌≡◌, refl, ◌∙◌, ap,
  arith, if◌then◌else◌, ℤ, pos, ltb_ℤ,
}
use vpub_exporter.Text.{Bytes}
use vpub_exporter.Clock.{unix}
use vpub_exporter.Regexp.{Engine}
use vpub_exporter.Logtail.Drain.{Match}
use vpub_exporter.Prometheus.{Prometheus}
use vpub_exporter.Collectors.VoteLogs.{
  VoteLogsCollector, VotePatterns, VoteEvent, cancelled, bridge, oracle, bridge_closed,
  oracle_closed, first_capture1_int, first_capture2, status_ok, status_fail, count_votes,
  count_bridge_fail, classify_bridge, classify_oracle, consume,
}

-- The votes that a line counts for: those of the first bridge ok pattern with a number, if it is
-- positive and no provider failure stands in the line.
abbrev pub votes_of : Engine → VotePatterns → Bytes → Option ℤ
votes_of re ps line = elim (first_capture2 re line ps.provider_fail) [
  | some _ ↦ none
  | none ↦ elim (first_capture1_int re line ps.bridge_ok) [
    | none ↦ none
    | some n ↦ if ltb_ℤ (pos 0) n then some n else none
  ]
]

-- The bridge matches that are classified: those before the context is cancelled and before the
-- second of the two channels ends.
abbrev pub bridge_matches : Bool → Bool → List VoteEvent → List Match
bridge_matches b o [] = []
bridge_matches b o (cancelled ∷ es) = []
bridge_matches b o (bridge m ∷ es) =
    let rest = bridge_matches b o es in if b then m ∷ rest else rest
bridge_matches b o (oracle m ∷ es) = bridge_matches b o es
bridge_matches b o (bridge_closed ∷ es) =
    let rest = bridge_matches false o es in if o then rest else []
bridge_matches b o (oracle_closed ∷ es) =
    let rest = bridge_matches b false es in if b then rest else []

module _ (P : Prometheus) (re : Engine) (ps : VotePatterns) where
  -- What the counter of votes and the gauge of the last success have after some matches.
  abbrev pub votes_sum : P.Value → List Match → P.Value
  votes_sum v [] = v
  votes_sum v (m ∷ ms) =
      votes_sum (elim (votes_of re ps m.line) [ some n ↦ P.plus v (P.float64 n) | none ↦ v ]) ms

  abbrev pub last_vote : P.Value → List Match → P.Value
  last_vote v [] = v
  last_vote v (m ∷ ms) =
      last_vote (elim (votes_of re ps m.line) [ some n ↦ P.float64 (unix m.at) | none ↦ v ]) ms

  -- The two values of a collector.
  abbrev pub ok_total : VoteLogsCollector P → P.Value
  ok_total c = P.total_at c.bridge_vote_tot status_ok

  abbrev pub last_ok : VoteLogsCollector P → P.Value
  last_ok c = P.value c.bridge_last_ok

  count_votes-values :
      (n : ℤ) (m : Match) (c : VoteLogsCollector P)
      → (ok_total (count_votes P n m c)
          ≡ (if ltb_ℤ (pos 0) n then P.plus (ok_total c) (P.float64 n) else ok_total c))
        × (last_ok (count_votes P n m c)
            ≡ (if ltb_ℤ (pos 0) n then P.float64 (unix m.at) else last_ok c))
  unfolding count_votes
  count_votes-values n m c = ground (
    arith,
    P.total_at-add_at c.bridge_vote_tot status_ok n status_ok,
    P.value-set c.bridge_last_ok (P.float64 (unix m.at)),
  )

  count_bridge_fail-values :
      (m : Match) (c : VoteLogsCollector P)
      → (ok_total (count_bridge_fail P re ps m c) ≡ ok_total c)
        × (last_ok (count_bridge_fail P re ps m c) ≡ last_ok c)
  unfolding count_bridge_fail
  count_bridge_fail-values m c =
      ground (arith, P.total_at-add_at c.bridge_vote_tot status_fail (pos 1) status_ok)

  classify_bridge-values :
      (m : Match) (c : VoteLogsCollector P)
      → (ok_total (classify_bridge P re ps m c) ≡ elim (votes_of re ps m.line) [
        | some n ↦ P.plus (ok_total c) (P.float64 n)
        | none ↦ ok_total c
      ])
        × (last_ok (classify_bridge P re ps m c)
            ≡ elim (votes_of re ps m.line) [ some n ↦ P.float64 (unix m.at) | none ↦ last_ok c ])
  unfolding classify_bridge
  classify_bridge-values m c = elim (Option-cases (first_capture2 re m.line ps.provider_fail)) [
    | inr (x, e) ↦ rw (e, classify_bridge) (refl, refl)
    | inl e ↦ elim (Option-cases (first_capture1_int re m.line ps.bridge_ok)) [
      | inl f ↦ rw (e, classify_bridge) (rw (f, classify_bridge) (count_bridge_fail-values m c))
      | inr (n, f) ↦ ground (arith, count_votes-values n m c)
    ]
  ]

  classify_oracle-bridge :
      (m : Match) (c : VoteLogsCollector P)
      → ((classify_oracle P re ps m c).bridge_vote_tot ≡ c.bridge_vote_tot)
        × ((classify_oracle P re ps m c).bridge_last_ok ≡ c.bridge_last_ok)
  unfolding classify_oracle
  classify_oracle-bridge m c = ground arith

  -- Over any events of the loop, the counter of ok bridge votes grows by the votes of each line that
  -- counts, in order, and the time of the last success is that of the last such line, or what it was.
  -- A line with no votes, a negative number, a provider failure or an oracle match changes neither,
  -- and nothing behind the end of the loop does.
  pub consume_votes :
      (es : List VoteEvent) (b o : Bool) (c : VoteLogsCollector P)
      → (ok_total (consume P re ps b o es c) ≡ votes_sum (ok_total c) (bridge_matches b o es))
        × (last_ok (consume P re ps b o es c) ≡ last_vote (last_ok c) (bridge_matches b o es))
  unfolding consume
  consume_votes [] b o c = (refl, refl)
  consume_votes (cancelled ∷ es) b o c = (refl, refl)
  consume_votes (bridge m ∷ es) true o c =
      let step = classify_bridge-values m c in
      let rest = consume_votes es true o (classify_bridge P re ps m c) in
      (
        rest.0 ∙ ap (λ v. votes_sum v (bridge_matches true o es)) step.0,
        rest.1 ∙ ap (λ v. last_vote v (bridge_matches true o es)) step.1,
      )
  consume_votes (bridge m ∷ es) false o c = consume_votes es false o c
  consume_votes (oracle m ∷ es) b true c =
      let kept = classify_oracle-bridge m c in
      let rest = consume_votes es b true (classify_oracle P re ps m c) in
      (
        rest.0 ∙ ap (λ v. votes_sum (P.total_at v status_ok) (bridge_matches b true es)) kept.0,
        rest.1 ∙ ap (λ g. last_vote (P.value g) (bridge_matches b true es)) kept.1,
      )
  consume_votes (oracle m ∷ es) b false c = consume_votes es b false c
  consume_votes (bridge_closed ∷ es) b true c = consume_votes es false true c
  consume_votes (bridge_closed ∷ es) b false c = (refl, refl)
  consume_votes (oracle_closed ∷ es) true o c = consume_votes es true false c
  consume_votes (oracle_closed ∷ es) false o c = (refl, refl)
