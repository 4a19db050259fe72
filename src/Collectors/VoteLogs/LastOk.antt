-- ===== src/Collectors/VoteLogs/LastOk.antt =====
-- From the two logs to the gauges of the last successful vote of the bridge and of the oracle.
use vpub_exporter.Prelude.{
  Bool, true, false, Bool-cases, inl, inr, ◌⊎◌, some, none, List, [], ◌∷◌, ◌++◌, ◌≡◌, refl, sym, ap,
  ◌∙◌, map, All, arith, Option, ℤ, if◌then◌else◌,
}
use mathlib.Core.Path.{subst}
use vpub_exporter.Text.{Bytes}
use vpub_exporter.Clock.{Time, unix}
use vpub_exporter.Config.{Config}
use vpub_exporter.Regexp.{Engine}
use vpub_exporter.Prometheus.{Prometheus}
use vpub_exporter.Logtail.Timestamp.{parse_line_timestamp}
use vpub_exporter.Logtail.Drain.{Match, Reader}
use vpub_exporter.Logtail.Poll.{World, PollingTailer, initial, loop}
use vpub_exporter.Logtail.Tailer.{polling}
use vpub_exporter.Logtail.Delivery.{delivery}
use vpub_exporter.Logtail.Rotating.{Segment, Rotating, all_deliveries, loop_rotating}
use vpub_exporter.Logtail.Stamped.{IsStamped, loop-IsStamped}
use vpub_exporter.Collectors.Base.{ExporterMetrics}
use vpub_exporter.Collectors.EventLogs.Totals.{steps}
use vpub_exporter.Collectors.VoteLogs.{VoteLogsCollector, VotePatterns, VoteEvent, line_matches_any}
use vpub_exporter.Collectors.VoteLogs.Totals.{votes_of, last_vote, consume_votes}
use vpub_exporter.Collectors.VoteLogs.Counts.{oracle_time_step, consume_oracle}
use vpub_exporter.Collectors.VoteLogs.Start.{
  vote_patterns, bridge_dir, oracle_dir, bridge_patterns, oracle_patterns, start, Interleaves,
  Interleaves-bridge,
}
use vpub_exporter.Collectors.VoteLogs.Files.{
  bridge_sent, oracle_sent, start-consume, Interleaves-oracle,
}

abbrev lines_of : List Match → List Bytes
lines_of ms = map (λ d. d.line) (map delivery ms)

-- The line fails the test, or begins with a time stamp.
abbrev pub IsDated : (Bytes → Bool) → Bytes → Type 0
IsDated test l = (test l ≡ false) ⊎ ((t : Time) × (parse_line_timestamp l ≡ some t))

-- The last of the lines that passes the test.
pub record IsLast (test : Bytes → Bool) (lines : List Bytes) (line : Bytes) : Type 0 where
  pub before : List Bytes
  pub behind : List Bytes
  pub splits : lines ≡ before ++ line ∷ behind
  pub passes : test line ≡ true
  pub others : All (λ l. test l ≡ false) behind

module _ (test : Bytes → Bool) where
  stamp_of :
      (l : Bytes) → test l ≡ true → IsDated test l → (t : Time) × (parse_line_timestamp l ≡ some t)
  stamp_of l passes (inl fails) = absurd (ground arith)
  stamp_of l passes (inr dated) = dated

module _ (P : Prometheus) (test : Bytes → Bool) where
  -- Behind the lines a gauge that showed `old` shows `now`: the time at the start of the last line
  -- that passes the test, or the same as before if none does.
  abbrev pub ShowsLast : List Bytes → P.Value → P.Value → Type 0
  ShowsLast lines old now =
      (All (λ l. test l ≡ false) lines × (now ≡ old))
      ⊎ ((l : Bytes) × IsLast test lines l
          × ((t : Time) × (parse_line_timestamp l ≡ some t) × (now ≡ P.float64 (unix t))))

  abbrev set_time : Match → P.Value → P.Value
  set_time m v = if test m.line then P.float64 (unix m.at) else v

  set_time-kept : (m : Match) (v : P.Value) → test m.line ≡ false → set_time m v ≡ v
  set_time-kept m v e = rw e refl

  set_time-set :
      (m : Match) (v : P.Value) (t : Time)
      → IsStamped m
      → parse_line_timestamp m.line ≡ some t
      → test m.line ≡ true
      → set_time m v ≡ P.float64 (unix t)
  set_time-set m v t stamped e passes = rw passes (ap (λ u. P.float64 (unix u)) (stamped t e))

  steps-ShowsLast :
      (ms : List Match) (v : P.Value)
      → All IsStamped ms
      → All (IsDated test) (lines_of ms)
      → ShowsLast (lines_of ms) v (steps set_time v ms)
  steps-ShowsLast [] v h d = inl (tt, refl)
  steps-ShowsLast (m ∷ ms) v h d = elim (steps-ShowsLast ms (set_time m v) h.1 d.1) [
    | inr (l, last, shown) ↦ inr (
      l,
      record {
        before = m.line ∷ last.before;
        behind = last.behind;
        splits = ap (◌∷◌ m.line) last.splits;
        passes = last.passes;
        others = last.others;
      },
      shown,
    )
    | inl (none_passes, kept) ↦ elim (Bool-cases (test m.line)) [
      | inr fails ↦ inl ((fails, none_passes), kept ∙ set_time-kept m v fails)
      | inl passes ↦
          let (t, e) = stamp_of test m.line passes d.0 in
          inr (
            m.line,
            record {
              before = [];
              behind = lines_of ms;
              splits = refl;
              passes = passes;
              others = none_passes;
            },
            (t, e, kept ∙ set_time-set m v t h.0 e passes),
          )
    ]
  ]

-- What a loop of the tailer sends shows in a gauge that its matches set.
sent-ShowsLast :
    (P : Prometheus) (test : Bytes → Bool) (r : Reader) (patterns : List Bytes) (ws : List World)
    (segments : List Segment) (old now : P.Value)
    → Rotating initial ws segments
    → All (IsDated test) (map (λ d. d.line) (all_deliveries r patterns segments))
    → now ≡ steps (set_time P test) old (loop r patterns ws initial)
    → ShowsLast P test (map (λ d. d.line) (all_deliveries r patterns segments)) old now
sent-ShowsLast P test r patterns ws segments old now followed dated e =
    let ms : List Match = loop r patterns ws initial in
    let same : lines_of ms ≡ map (λ d. d.line) (all_deliveries r patterns segments) =
      ap (map (λ d. d.line)) (loop_rotating r patterns ws segments followed) in
    subst (λ ls. ShowsLast P test ls old now) same
      (subst (ShowsLast P test (lines_of ms) old) (sym e) (
        steps-ShowsLast P test ms old (loop-IsStamped r patterns ws initial)
          (subst (All (IsDated test)) (sym same) dated)))

some_or :
    (P : Prometheus) (o : Option ℤ) (x v : P.Value)
    → elim o [ some n ↦ x | none ↦ v ] ≡ (if elim o [ none ↦ false | some n ↦ true ] then x else v)
some_or P none x v = refl
some_or P (some n) x v = refl

module _ (re : Engine) (ps : VotePatterns) where
  -- A line that counts for bridge votes.
  abbrev pub is_vote : Bytes → Bool
  is_vote l = elim (votes_of re ps l) [ none ↦ false | some n ↦ true ]

  abbrev pub is_oracle_ok : Bytes → Bool
  is_oracle_ok l = line_matches_any re l ps.oracle_ok

  vote_time :
      (P : Prometheus) (m : Match) (v : P.Value)
      → elim (votes_of re ps m.line) [ some n ↦ P.float64 (unix m.at) | none ↦ v ]
        ≡ set_time P is_vote m v
  vote_time P m v = some_or P (votes_of re ps m.line) (P.float64 (unix m.at)) v

  last_vote-steps :
      (P : Prometheus) (ms : List Match) (v : P.Value)
      → last_vote P re ps v ms ≡ steps (set_time P is_vote) v ms
  last_vote-steps P [] v = refl
  last_vote-steps P (m ∷ ms) v =
      last_vote-steps P ms _ ∙ ap (λ x. steps (set_time P is_vote) x ms) (vote_time P m v)

module _ (P : Prometheus) (r : Reader) (cfg : Config) (t : PollingTailer)
    (rounds : Bytes → List World) (merge : List Match → List Match → List VoteEvent)
    (c : VoteLogsCollector P) (em : ExporterMetrics P) (fn : t.has_latest_file_fn ≡ true)
    (all : (ms os : List Match) → Interleaves ms os (merge ms os)) where
  abbrev vote_lines : List Segment → List Bytes
  vote_lines segments =
      map (λ d. d.line) (all_deliveries r (bridge_patterns (vote_patterns r.engine cfg)) segments)

  abbrev voted_lines : List Segment → List Bytes
  voted_lines segments =
      map (λ d. d.line) (all_deliveries r (oracle_patterns (vote_patterns r.engine cfg)) segments)

  -- From the two logs to the gauges of the last success: with the polling tailer, when the loop has
  -- received what both channels carry, in any order, the gauge of the bridge shows the time at the
  -- start of the last complete line of the bridge voter's log that counts for votes, and the gauge
  -- of the oracle that of the last complete line of its own log that an ok pattern matches; where
  -- there is no such line, the gauge shows what it did before. Each such line begins with a time
  -- stamp. Each log is any files that grow, rotate and are truncated one after another.
  pub start_last_ok :
      (bridges oracles : List Segment)
      → Rotating initial (rounds (bridge_dir cfg)) bridges
      → Rotating initial (rounds (oracle_dir cfg)) oracles
      → All (IsDated (is_vote r.engine (vote_patterns r.engine cfg))) (vote_lines bridges)
      → All (IsDated (is_oracle_ok r.engine (vote_patterns r.engine cfg))) (voted_lines oracles)
      → (let ps = vote_patterns r.engine cfg in
          let after = (start P r.engine cfg (polling t r rounds) merge (c, em)).0 in
          ShowsLast P
            (is_vote r.engine ps)
            (vote_lines bridges)
            (P.value c.bridge_last_ok)
            (P.value after.bridge_last_ok)
          × ShowsLast P
              (is_oracle_ok r.engine ps)
              (voted_lines oracles)
              (P.value c.oracle_last_ok)
              (P.value after.oracle_last_ok))
  unfolding bridge_sent oracle_sent
  start_last_ok bridges oracles b o votes oks =
      let ps = vote_patterns r.engine cfg in
      let bs = bridge_sent P r cfg t rounds merge c em fn all in
      let os = oracle_sent P r cfg t rounds merge c em fn all in
      let run = start-consume P r cfg t rounds merge c em fn all in
      (
        sent-ShowsLast P (is_vote r.engine ps) r (bridge_patterns ps) (rounds (bridge_dir cfg))
            bridges (P.value c.bridge_last_ok) _ b votes
            (ap (λ x. P.value x.0.bridge_last_ok) run
              ∙ (consume_votes P r.engine ps (merge bs os) true true c).1
              ∙ ap (last_vote P r.engine ps (P.value c.bridge_last_ok))
                  (Interleaves-bridge (all bs os))
              ∙ last_vote-steps r.engine ps P bs (P.value c.bridge_last_ok)),
        sent-ShowsLast P (is_oracle_ok r.engine ps) r (oracle_patterns ps) (rounds (oracle_dir cfg))
            oracles (P.value c.oracle_last_ok) _ o oks
            (ap (λ x. P.value x.0.oracle_last_ok) run
              ∙ (consume_oracle P r.engine ps (merge bs os) true true c).2
              ∙ ap (steps (oracle_time_step P r.engine ps) (P.value c.oracle_last_ok))
                  (Interleaves-oracle (all bs os))),
      )
