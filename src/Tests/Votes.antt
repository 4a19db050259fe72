-- ===== src/Tests/Votes.antt =====
-- Examples for the log collectors and the service collector.
use vpub_exporter.Prelude.{ℕ, true, List, [], ◌∷◌, ◌≡◌, refl, ◌+ℤ◌, pos}
use vpub_exporter.Text.{Bytes, codes, contains}
use vpub_exporter.Errors.{ok, err, failure}
use vpub_exporter.Clock.{unix}
use vpub_exporter.Logtail.Drain.{Match}
use vpub_exporter.Collectors.VoteLogs.{
  VoteLogsCollector, VotePatterns, VoteEvent, cancelled, bridge, oracle, bridge_closed,
  oracle_closed, consume, status_ok, status_fail, first_capture2, line_matches_any,
}
use vpub_exporter.Collectors.VoteLogs.Totals.{votes_sum, last_vote, bridge_matches}
use vpub_exporter.Collectors.Service.{ServiceCollector, ServiceWorld, tick}
use vpub_exporter.Collectors.Service.Laws.{tick_gauges}
use vpub_exporter.Tests.Ideal.{ideal, moment, no_counts, literal}

abbrev pub votes : VoteLogsCollector ideal
votes = record {
  bridge_vote_tot = no_counts;
  oracle_vote_tot = no_counts;
  bridge_provider_fail_tot = no_counts;
  bridge_last_ok = pos 0;
  oracle_last_ok = pos 0;
}

abbrev pub vote_patterns : VotePatterns
vote_patterns = record {
  bridge_ok = codes "sent" ∷ [];
  bridge_fail = codes "failed" ∷ [];
  provider_fail = codes "status" ∷ [];
  oracle_ok = codes "action" ∷ [];
  oracle_fail = codes "CRIT" ∷ [];
}

abbrev line_at : Bytes → ℕ → Match
line_at line n = record { pattern = codes "p"; line = line; file = codes "/l/1"; at = moment n }

abbrev vote_events : List VoteEvent
vote_events =
    bridge (line_at (codes "votes sent") 3)
    ∷ oracle (line_at (codes "action") 4)
    ∷ bridge (line_at (codes "status sent") 5)
    ∷ oracle_closed
    ∷ bridge (line_at (codes "more sent") 6)
    ∷ cancelled
    ∷ bridge (line_at (codes "late sent") 7)
    ∷ []

-- Two of the lines count, with 7 votes each.
votes_sum_run :
    (votes_sum ideal literal vote_patterns (pos 0) (bridge_matches true true vote_events) ≡ pos 14)
    × (last_vote ideal literal vote_patterns (pos 0) (bridge_matches true true vote_events) ≡ pos 6)
unfolding vpub_exporter.Text.contains vpub_exporter.Collectors.VoteLogs.first_capture2
    vpub_exporter.Collectors.VoteLogs.first_capture1_int vpub_exporter.Text.atoi ◌+ℤ◌ unix
votes_sum_run = (refl, refl)

abbrev pub service : ServiceCollector ideal
service = record { up = pos 0; child_count = pos 9; restart_total = pos 0; last_n_restart = pos 0 }

-- An active service with main process 42, which has 3 children, and `n` restarts.
abbrev pub restarted : ℕ → ServiceWorld
restarted n = record {
  probe = record { is_active = ok true; main_pid = ok (pos 42); n_restarts = ok (pos n) };
  count_children = λ pid. ok 3;
  elapsed = pos 1;
}

-- The same service while its children cannot be counted.
abbrev unreadable : ServiceWorld
unreadable = record (restarted 2) { count_children = λ pid. err (failure (codes "open /proc")) }

tick_gauges_example :
    ((tick ideal unreadable service).0.up ≡ pos 1)
    × ((tick ideal unreadable service).0.child_count ≡ pos 0)
tick_gauges_example = tick_gauges ideal unreadable service
