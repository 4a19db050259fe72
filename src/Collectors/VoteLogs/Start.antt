-- ===== src/Collectors/VoteLogs/Start.antt =====
-- `Start` of internal/collectors/vote_logs.go, and what it counts of a log that the polling tailer
-- follows.
use vpub_exporter.Prelude.{true, none, some, List, [], ◌∷◌, ◌≡◌, refl, ap, ◌∙◌, map, pos}
use vpub_exporter.Text.{Bytes, codes, join}
use vpub_exporter.Errors.{ok, err, kind_label, io}
use vpub_exporter.Components.{component_bridge_voter, component_reference_oracle_publish}
use vpub_exporter.Config.{Config}
use vpub_exporter.Regexp.{Engine}
use vpub_exporter.Prometheus.{Prometheus}
use vpub_exporter.Logtail.Drain.{Match, Reader, compile_patterns}
use vpub_exporter.Logtail.Poll.{World, initial, loop, PollingTailer}
use vpub_exporter.Logtail.Tailer.{Tailer, polling, polling-ok}
use vpub_exporter.Logtail.Rotating.{Segment, Rotating, all_deliveries, loop_rotating}
use vpub_exporter.Logtail.Delivery.{delivery}
use vpub_exporter.Collectors.Base.{ExporterMetrics}
use vpub_exporter.Collectors.VoteLogs.{
  VoteLogsCollector, VotePatterns, VoteEvent, bridge, oracle, combine, consume,
}
use vpub_exporter.Collectors.VoteLogs.Totals.{
  ok_total, votes_of, votes_sum, bridge_matches, consume_votes,
}

-- A list of patterns without those that do not compile.
abbrev pub compiled : Engine → List Bytes → List Bytes
compiled re raws = (compile_patterns re raws).0

abbrev pub vote_patterns : Engine → Config → VotePatterns
vote_patterns re c = record {
  bridge_ok = compiled re c.vote_ok_patterns;
  bridge_fail = compiled re c.vote_fail_patterns;
  provider_fail = compiled re c.provider_fail_patterns;
  oracle_ok = compiled re c.oracle_vote_ok_patterns;
  oracle_fail = compiled re c.oracle_vote_fail_patterns;
}

abbrev pub bridge_dir : Config → Bytes
bridge_dir c = join c.component_log_dir component_bridge_voter

abbrev pub oracle_dir : Config → Bytes
oracle_dir c = join c.component_log_dir component_reference_oracle_publish

-- What the tailer is asked to match in the log of the bridge voter.
abbrev pub bridge_patterns : VotePatterns → List Bytes
bridge_patterns ps = combine ps.bridge_ok ps.bridge_fail ps.provider_fail

abbrev pub oracle_patterns : VotePatterns → List Bytes
oracle_patterns ps = combine ps.oracle_ok ps.oracle_fail []

module _ (P : Prometheus) where
  -- em.CollectionErrors.WithLabelValues(name, string(KindIO)).Inc()
  unfoldable pub count_subscribe_error : Bytes → ExporterMetrics P → ExporterMetrics P
  count_subscribe_error name em = record em {
    collection_errors = P.add_at em.collection_errors (name ∷ kind_label io ∷ []) (pos 1);
  }

  -- Start. `merge` is the order in which the loop receives what the two channels carry.
  unfoldable pub start :
      Engine
      → Config
      → Tailer
      → (List Match → List Match → List VoteEvent)
      → VoteLogsCollector P × ExporterMetrics P
      → VoteLogsCollector P × ExporterMetrics P
  start re cfg tailer merge (c, em) =
      let ps = vote_patterns re cfg in
      elim (tailer (bridge_dir cfg) (bridge_patterns ps)) [
        | err e ↦ (c, count_subscribe_error (codes "vote_logs") em)
        | ok bridges ↦ elim (tailer (oracle_dir cfg) (oracle_patterns ps)) [
          | err e ↦ (c, count_subscribe_error (codes "vote_logs") em)
          | ok oracles ↦ (consume P re ps true true (merge bridges oracles) c, em)
        ]
      ]

  pub start-ok :
      (re : Engine) (cfg : Config) (tailer : Tailer)
      (merge : List Match → List Match → List VoteEvent) (c : VoteLogsCollector P)
      (em : ExporterMetrics P) (bridges oracles : List Match)
      → (let ps = vote_patterns re cfg in
          tailer (bridge_dir cfg) (bridge_patterns ps) ≡ ok bridges
          → tailer (oracle_dir cfg) (oracle_patterns ps) ≡ ok oracles
          → start re cfg tailer merge (c, em)
            ≡ (consume P re ps true true (merge bridges oracles) c, em))
  unfolding start
  start-ok re cfg tailer merge c em bridges oracles h k = rw (h, start) (rw (k, start))

-- The events hold all that the two channels carry, each in its order.
pub data Interleaves : List Match → List Match → List VoteEvent → Type 0 where
  done : Interleaves [] [] []
  from_bridge :
      {m : Match} {ms os : List Match} {es : List VoteEvent}
      → Interleaves ms os es
      → Interleaves (m ∷ ms) os (bridge m ∷ es)
  from_oracle :
      {m : Match} {ms os : List Match} {es : List VoteEvent}
      → Interleaves ms os es
      → Interleaves ms (m ∷ os) (oracle m ∷ es)

pub Interleaves-bridge :
    {ms os : List Match} {es : List VoteEvent}
    → Interleaves ms os es
    → bridge_matches true true es ≡ ms
Interleaves-bridge done = refl
Interleaves-bridge (from_bridge {m = m} i) = ap (◌∷◌ m) (Interleaves-bridge i)
Interleaves-bridge (from_oracle i) = Interleaves-bridge i

module _ (P : Prometheus) (re : Engine) (ps : VotePatterns) where
  -- The counter after the votes of some lines.
  abbrev pub line_votes : P.Value → List Bytes → P.Value
  line_votes v [] = v
  line_votes v (l ∷ ls) =
      line_votes (elim (votes_of re ps l) [ some n ↦ P.plus v (P.float64 n) | none ↦ v ]) ls

  votes_sum-lines :
      (ms : List Match) (v : P.Value)
      → votes_sum P re ps v ms ≡ line_votes v (map (λ d. d.line) (map delivery ms))
  votes_sum-lines [] v = refl
  votes_sum-lines (m ∷ ms) v = votes_sum-lines ms _

module _ (P : Prometheus) (r : Reader) (cfg : Config) where
  -- From the log file to the counter: with the polling tailer, when the loop has received what both
  -- channels carry, in any order, the counter of ok bridge votes has grown by the votes of each
  -- complete line of the bridge voter's log, once for each pattern that matches the line, and no
  -- error is counted. The log is any files that grow, rotate and are truncated one after another,
  -- each up to the content that a round read last.
  pub start_votes :
      (t : PollingTailer) (rounds : Bytes → List World)
      (merge : List Match → List Match → List VoteEvent) (c : VoteLogsCollector P)
      (em : ExporterMetrics P) (segments : List Segment)
      → t.has_latest_file_fn ≡ true
      → Rotating initial (rounds (bridge_dir cfg)) segments
      → ((ms os : List Match) → Interleaves ms os (merge ms os))
      → (let ps = vote_patterns r.engine cfg in
          (ok_total P r.engine ps (start P r.engine cfg (polling t r rounds) merge (c, em)).0
            ≡ line_votes P r.engine ps
                (ok_total P r.engine ps c)
                (map (λ d. d.line) (all_deliveries r (bridge_patterns ps) segments)))
          × ((start P r.engine cfg (polling t r rounds) merge (c, em)).1 ≡ em))
  start_votes t rounds merge c em segments fn followed i =
      let ps = vote_patterns r.engine cfg in
      let pats : List Bytes = bridge_patterns ps in
      let bridges : List Match = loop r pats (rounds (bridge_dir cfg)) initial in
      let oracles : List Match = loop r (oracle_patterns ps) (rounds (oracle_dir cfg)) initial in
      let counted = (consume_votes P r.engine ps (merge bridges oracles) true true c).0 in
      let sent : map delivery bridges ≡ all_deliveries r pats segments =
        loop_rotating r pats (rounds (bridge_dir cfg)) segments followed in
      let run =
        start-ok P r.engine cfg (polling t r rounds) merge c em bridges oracles
          (polling-ok t r rounds (bridge_dir cfg) pats fn)
          (polling-ok t r rounds (oracle_dir cfg) (oracle_patterns ps) fn) in
      rw run (
        counted
            ∙ ap (votes_sum P r.engine ps (ok_total P r.engine ps c))
                (Interleaves-bridge (i bridges oracles))
            ∙ votes_sum-lines P r.engine ps bridges (ok_total P r.engine ps c)
            ∙ ap (λ ds. line_votes P r.engine ps (ok_total P r.engine ps c) (map (λ d. d.line) ds))
                sent,
        refl,
      )
