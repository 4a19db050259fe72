-- ===== src/Collectors/VoteLogs/Files.antt =====
-- From the two logs to the failure counters of the bridge and to the counters of the oracle.
use vpub_exporter.Prelude.{true, List, [], ◌∷◌, ◌≡◌, refl, ap, ◌∙◌, map}
use vpub_exporter.Text.{Bytes}
use vpub_exporter.Config.{Config}
use vpub_exporter.Prometheus.{Prometheus}
use vpub_exporter.Logtail.Drain.{Match, Reader}
use vpub_exporter.Logtail.Poll.{World, PollingTailer, initial, loop}
use vpub_exporter.Logtail.Tailer.{polling, polling-ok}
use vpub_exporter.Logtail.Rotating.{Segment, Rotating, all_deliveries, loop_rotating}
use vpub_exporter.Collectors.Base.{ExporterMetrics}
use vpub_exporter.Collectors.EventLogs.Totals.{steps}
use vpub_exporter.Collectors.EventLogs.Start.{line_steps, steps-lines}
use vpub_exporter.Collectors.VoteLogs.{
  VoteLogsCollector, VoteEvent, status_ok, status_fail, consume,
}
use vpub_exporter.Collectors.VoteLogs.Totals.{bridge_matches}
use vpub_exporter.Collectors.VoteLogs.Channels.{oracle_matches}
use vpub_exporter.Collectors.VoteLogs.Counts.{
  bridge_fail_line, provider_fail_line, oracle_ok_line, oracle_fail_line, consume_failures,
  consume_oracle,
}
use vpub_exporter.Collectors.VoteLogs.Start.{
  vote_patterns, bridge_dir, oracle_dir, bridge_patterns, oracle_patterns, start, start-ok,
  Interleaves, done, from_bridge, from_oracle, Interleaves-bridge,
}

pub Interleaves-oracle :
    {ms os : List Match} {es : List VoteEvent}
    → Interleaves ms os es
    → oracle_matches true true es ≡ os
Interleaves-oracle done = refl
Interleaves-oracle (from_bridge i) = Interleaves-oracle i
Interleaves-oracle (from_oracle {m = m} i) = ap (◌∷◌ m) (Interleaves-oracle i)

module _ (P : Prometheus) (r : Reader) (cfg : Config) (t : PollingTailer)
    (rounds : Bytes → List World) (merge : List Match → List Match → List VoteEvent)
    (c : VoteLogsCollector P) (em : ExporterMetrics P) (fn : t.has_latest_file_fn ≡ true)
    (all : (ms os : List Match) → Interleaves ms os (merge ms os)) where
  -- What the tailer sends of the two logs.
  unfoldable pub bridge_sent : List Match
  bridge_sent =
      loop r (bridge_patterns (vote_patterns r.engine cfg)) (rounds (bridge_dir cfg)) initial

  unfoldable pub oracle_sent : List Match
  oracle_sent =
      loop r (oracle_patterns (vote_patterns r.engine cfg)) (rounds (oracle_dir cfg)) initial

  pub start-consume : start P r.engine cfg (polling t r rounds) merge (c, em) ≡ (
    consume P r.engine (vote_patterns r.engine cfg) true true (merge bridge_sent oracle_sent) c,
    em,
  )
  unfolding bridge_sent oracle_sent
  start-consume =
      let ps = vote_patterns r.engine cfg in
      start-ok P r.engine cfg (polling t r rounds) merge c em bridge_sent oracle_sent
        (polling-ok t r rounds (bridge_dir cfg) (bridge_patterns ps) fn)
        (polling-ok t r rounds (oracle_dir cfg) (oracle_patterns ps) fn)

  -- A value that the lines of the bridge voter's log change, each by itself.
  start_by_bridge :
      (value : VoteLogsCollector P → P.Value) (line_step : Bytes → P.Value → P.Value)
      (segments : List Segment)
      → Rotating initial (rounds (bridge_dir cfg)) segments
      → ((es : List VoteEvent)
          → value (consume P r.engine (vote_patterns r.engine cfg) true true es c)
            ≡ steps (λ m. line_step m.line) (value c) (bridge_matches true true es))
      → value (start P r.engine cfg (polling t r rounds) merge (c, em)).0
        ≡ line_steps line_step (value c) (
            map
              (λ d. d.line)
              (all_deliveries r (bridge_patterns (vote_patterns r.engine cfg)) segments))
  unfolding bridge_sent
  start_by_bridge value line_step segments followed law = rw start-consume (
      law (merge bridge_sent oracle_sent)
      ∙ ap (steps (λ m. line_step m.line) (value c))
          (Interleaves-bridge (all bridge_sent oracle_sent))
      ∙ steps-lines line_step (value c) bridge_sent
      ∙ ap (λ ds. line_steps line_step (value c) (map (λ d. d.line) ds))
          (loop_rotating r (bridge_patterns (vote_patterns r.engine cfg)) (rounds (bridge_dir cfg))
            segments followed))

  -- A value that the lines of the oracle publisher's log change, each by itself.
  start_by_oracle :
      (value : VoteLogsCollector P → P.Value) (line_step : Bytes → P.Value → P.Value)
      (segments : List Segment)
      → Rotating initial (rounds (oracle_dir cfg)) segments
      → ((es : List VoteEvent)
          → value (consume P r.engine (vote_patterns r.engine cfg) true true es c)
            ≡ steps (λ m. line_step m.line) (value c) (oracle_matches true true es))
      → value (start P r.engine cfg (polling t r rounds) merge (c, em)).0
        ≡ line_steps line_step (value c) (
            map
              (λ d. d.line)
              (all_deliveries r (oracle_patterns (vote_patterns r.engine cfg)) segments))
  unfolding oracle_sent
  start_by_oracle value line_step segments followed law = rw start-consume (
      law (merge bridge_sent oracle_sent)
      ∙ ap (steps (λ m. line_step m.line) (value c))
          (Interleaves-oracle (all bridge_sent oracle_sent))
      ∙ steps-lines line_step (value c) oracle_sent
      ∙ ap (λ ds. line_steps line_step (value c) (map (λ d. d.line) ds))
          (loop_rotating r (oracle_patterns (vote_patterns r.engine cfg)) (rounds (oracle_dir cfg))
            segments followed))

  abbrev pub bridge_lines : List Segment → List Bytes
  bridge_lines segments =
      map (λ d. d.line) (all_deliveries r (bridge_patterns (vote_patterns r.engine cfg)) segments)

  abbrev pub oracle_lines : List Segment → List Bytes
  oracle_lines segments =
      map (λ d. d.line) (all_deliveries r (oracle_patterns (vote_patterns r.engine cfg)) segments)

  -- From the two logs to the other counters of the vote collector: with the polling tailer, when
  -- the loop has received what both channels carry, in any order, the counter of failed bridge
  -- votes has grown by each complete line of the bridge voter's log that is no provider failure,
  -- has no number of votes and is matched by a fail pattern; the counter of provider failures of a
  -- name and a status by each that names them; and the two counters of the oracle by each complete
  -- line of its own log that an ok pattern matches, or else a fail pattern. A line counts once for
  -- each of its log's patterns that matches it. Each log is any files that grow, rotate and are
  -- truncated one after another, each up to the content that a round read last.
  pub start_counts :
      (name status : Bytes) (bridges oracles : List Segment)
      → Rotating initial (rounds (bridge_dir cfg)) bridges
      → Rotating initial (rounds (oracle_dir cfg)) oracles
      → (let ps = vote_patterns r.engine cfg in
          let after = (start P r.engine cfg (polling t r rounds) merge (c, em)).0 in
          (P.total_at after.bridge_vote_tot status_fail
            ≡ line_steps
                (bridge_fail_line P r.engine ps)
                (P.total_at c.bridge_vote_tot status_fail)
                (bridge_lines bridges))
          × (P.total_at after.bridge_provider_fail_tot (name ∷ status ∷ [])
              ≡ line_steps
                  (provider_fail_line P r.engine ps name status)
                  (P.total_at c.bridge_provider_fail_tot (name ∷ status ∷ []))
                  (bridge_lines bridges))
          × (P.total_at after.oracle_vote_tot status_ok
              ≡ line_steps
                  (oracle_ok_line P r.engine ps)
                  (P.total_at c.oracle_vote_tot status_ok)
                  (oracle_lines oracles))
          × (P.total_at after.oracle_vote_tot status_fail
              ≡ line_steps
                  (oracle_fail_line P r.engine ps)
                  (P.total_at c.oracle_vote_tot status_fail)
                  (oracle_lines oracles)))
  start_counts name status bridges oracles b o =
      let ps = vote_patterns r.engine cfg in
      let failures = consume_failures P r.engine ps name status in
      let counts = consume_oracle P r.engine ps in
      (
        start_by_bridge (λ d. P.total_at d.bridge_vote_tot status_fail)
            (bridge_fail_line P r.engine ps) bridges b (λ es. (failures es true true c).0),
        start_by_bridge (λ d. P.total_at d.bridge_provider_fail_tot (name ∷ status ∷ []))
            (provider_fail_line P r.engine ps name status) bridges b
            (λ es. (failures es true true c).1),
        start_by_oracle (λ d. P.total_at d.oracle_vote_tot status_ok) (oracle_ok_line P r.engine ps)
            oracles o (λ es. (counts es true true c).0),
        start_by_oracle (λ d. P.total_at d.oracle_vote_tot status_fail)
            (oracle_fail_line P r.engine ps) oracles o (λ es. (counts es true true c).1),
      )
