-- ===== src/Collectors/VoteLogs.antt =====
-- `VoteLogsCollector` of internal/collectors/vote_logs.go, with the helpers that the log
-- collectors share.
pub mod Totals
pub mod Channels
pub mod Counts
pub mod Start
pub mod Files
pub mod LastOk
use vpub_exporter.Prelude.{
  ℕ, Bool, true, false, Option, none, some, List, [], ◌∷◌, ◌++◌, if◌then◌else◌, any, ℤ, pos, ltb_ℤ,
}
use vpub_exporter.Text.{Bytes, codes, atoi}
use vpub_exporter.Clock.{Time, unix}
use vpub_exporter.Regexp.{Engine, match_string}
use vpub_exporter.Logtail.Drain.{Match}
use vpub_exporter.Prometheus.{Prometheus}

-- combine
abbrev pub combine : List Bytes → List Bytes → List Bytes → List Bytes
combine a b c = a ++ (b ++ c)

-- lineMatchesAny
unfoldable pub line_matches_any : Engine → Bytes → List Bytes → Bool
line_matches_any re line set = any (λ p. match_string re p line) set

-- m[1] as an int, if the match has a group and the group is a number
capture1_int : List Bytes → Option ℤ
capture1_int (whole ∷ group ∷ rest) = atoi group
capture1_int _ = none

capture2 : List Bytes → Option (Bytes × Bytes)
capture2 (whole ∷ a ∷ b ∷ rest) = some (a, b)
capture2 _ = none

or_else {ℓ} : {A : Type ℓ} → Option A → Option A → Option A
or_else none o = o
or_else (some a) o = some a

-- firstCapture1Int, with `none` for (0, false)
unfoldable pub first_capture1_int : Engine → Bytes → List Bytes → Option ℤ
unfolding capture1_int or_else
first_capture1_int re line [] = none
first_capture1_int re line (p ∷ ps) =
    or_else (capture1_int (re.find_string_submatch p line)) (first_capture1_int re line ps)

-- firstCapture2, with `none` for ("", "", false)
unfoldable pub first_capture2 : Engine → Bytes → List Bytes → Option (Bytes × Bytes)
unfolding capture2 or_else
first_capture2 re line [] = none
first_capture2 re line (p ∷ ps) =
    or_else (capture2 (re.find_string_submatch p line)) (first_capture2 re line ps)

pub record VoteLogsCollector (P : Prometheus) : Type 0 where
  pub bridge_vote_tot : P.CounterVec
  pub oracle_vote_tot : P.CounterVec
  pub bridge_provider_fail_tot : P.CounterVec
  pub bridge_last_ok : P.Gauge
  pub oracle_last_ok : P.Gauge

-- The compiled patterns of Start.
pub record VotePatterns : Type 0 where
  pub bridge_ok : List Bytes
  pub bridge_fail : List Bytes
  pub provider_fail : List Bytes
  pub oracle_ok : List Bytes
  pub oracle_fail : List Bytes

-- What a select of the loop finds: the context cancelled, or a match or the end of a channel.
pub data VoteEvent : Type 0 where
  cancelled : VoteEvent
  bridge oracle : Match → VoteEvent
  bridge_closed oracle_closed : VoteEvent

abbrev pub status_ok : List Bytes
status_ok = codes "ok" ∷ []

abbrev pub status_fail : List Bytes
status_fail = codes "fail" ∷ []

module _ (P : Prometheus) where
  -- the end of NewVoteLogsCollector, at the time of the start
  unfoldable pub seed_vote_logs : VoteLogsCollector P → Time → VoteLogsCollector P
  seed_vote_logs c now = record c {
    bridge_last_ok = P.set c.bridge_last_ok (P.float64 (unix now));
    oracle_last_ok = P.set c.oracle_last_ok (P.float64 (unix now));
    bridge_vote_tot =
        P.with_label_values (P.with_label_values c.bridge_vote_tot status_ok) status_fail;
    oracle_vote_tot =
        P.with_label_values (P.with_label_values c.oracle_vote_tot status_ok) status_fail;
  }

  -- classifyBridge behind a bridge ok match with n votes
  unfoldable pub count_votes : ℤ → Match → VoteLogsCollector P → VoteLogsCollector P
  count_votes n m c =
      if ltb_ℤ (pos 0) n
      then record c {
        bridge_vote_tot = P.add_at c.bridge_vote_tot status_ok n;
        bridge_last_ok = P.set c.bridge_last_ok (P.float64 (unix m.at));
      }
      else c

  unfoldable pub count_bridge_fail :
      Engine → VotePatterns → Match → VoteLogsCollector P → VoteLogsCollector P
  count_bridge_fail re ps m c =
      if line_matches_any re m.line ps.bridge_fail
      then record c { bridge_vote_tot = P.add_at c.bridge_vote_tot status_fail (pos 1) }
      else c

  -- classifyBridge
  unfoldable pub classify_bridge :
      Engine → VotePatterns → Match → VoteLogsCollector P → VoteLogsCollector P
  unfolding count_votes count_bridge_fail
  classify_bridge re ps m c = elim (first_capture2 re m.line ps.provider_fail) [
    | some (name, status) ↦ record c {
      bridge_provider_fail_tot = P.add_at c.bridge_provider_fail_tot (name ∷ status ∷ []) (pos 1);
    }
    | none ↦ elim (first_capture1_int re m.line ps.bridge_ok) [
      | some n ↦ count_votes n m c
      | none ↦ count_bridge_fail re ps m c
    ]
  ]

  -- classifyOracle
  unfoldable pub classify_oracle :
      Engine → VotePatterns → Match → VoteLogsCollector P → VoteLogsCollector P
  classify_oracle re ps m c =
      if line_matches_any re m.line ps.oracle_ok
      then record c {
        oracle_vote_tot = P.add_at c.oracle_vote_tot status_ok (pos 1);
        oracle_last_ok = P.set c.oracle_last_ok (P.float64 (unix m.at));
      }
      else if line_matches_any re m.line ps.oracle_fail
      then record c { oracle_vote_tot = P.add_at c.oracle_vote_tot status_fail (pos 1) }
      else c

  -- The loop of Start. The flags say whether bridgeCh and oracleCh are not nil; a nil channel gives
  -- nothing.
  unfoldable pub consume :
      Engine
      → VotePatterns
      → Bool
      → Bool
      → List VoteEvent
      → VoteLogsCollector P
      → VoteLogsCollector P
  consume re ps b o [] c = c
  consume re ps b o (cancelled ∷ es) c = c
  consume re ps b o (bridge m ∷ es) c =
      consume re ps b o es (if b then classify_bridge re ps m c else c)
  consume re ps b o (oracle m ∷ es) c =
      consume re ps b o es (if o then classify_oracle re ps m c else c)
  consume re ps b o (bridge_closed ∷ es) c =
      let rest = consume re ps false o es c in if o then rest else c
  consume re ps b o (oracle_closed ∷ es) c =
      let rest = consume re ps b false es c in if b then rest else c
