-- ===== src/Tests/Starts.antt =====
-- Examples for what happens from the start of the process on: the registration, the series that
-- exist at first, and the log collectors behind the tailer.
use vpub_exporter.Prelude.{
  true, false, none, some, List, [], ◌∷◌, ◌++◌, ◌≡◌, refl, map, pos, if◌then◌else◌, ◌+ℤ◌, ap,
}
use vpub_exporter.Text.{valid_string, Bytes, codes, contains, atoi, has_prefix}
use vpub_exporter.Clock.{unix}
use vpub_exporter.Registry.{Registerer, joined, distinct}
use vpub_exporter.Config.{Config}
use vpub_exporter.Main.Registration.{register_all, registrations, stack, register_all-registrations}
use vpub_exporter.Logtail.Drain.{Match, is_continuation, compile_patterns}
use vpub_exporter.Logtail.Poll.{PollingTailer, World, initial}
use vpub_exporter.Logtail.Tailer.{polling}
use vpub_exporter.Logtail.Delivery.{done, more}
use vpub_exporter.Logtail.Rotating.{Segment, Rotating, rotated, ended, all_deliveries}
use vpub_exporter.Collectors.Base.{ExporterMetrics}
use vpub_exporter.Collectors.VoteLogs.{
  VoteLogsCollector, VotePatterns, VoteEvent, bridge, oracle, combine, status_ok, status_fail,
  first_capture1_int, first_capture2,
}
use vpub_exporter.Collectors.VoteLogs.Files.{start_counts}
use vpub_exporter.Collectors.VoteLogs.Counts.{
  bridge_fail_line, provider_fail_line, oracle_ok_line, oracle_fail_line,
}
use vpub_exporter.Collectors.VoteLogs.Start.{
  Interleaves, start, start_votes, bridge_dir, oracle_dir, oracle_patterns, bridge_patterns,
  line_votes, vote_patterns,
}
use vpub_exporter.Collectors.VoteLogs.Totals.{ok_total}
use vpub_exporter.Collectors.EventLogs.Start.{line_steps}
use vpub_exporter.Collectors.New.{
  new_bridge_rpc_collector, new_log_mtime_collector, new_vote_logs_collector,
  new_visor_log_collector, new_exporter_metrics,
}
use vpub_exporter.Collectors.New.Series.{new-series}
use vpub_exporter.Tests.Ideal.{ideal, literal, moment, reader, world, world-Serves, key}

abbrev pub config : Config
config = record {
  listen_addr = codes ":9";
  scrape_interval = pos 1;
  shutdown_timeout = pos 1;
  service_name = codes "v";
  visor_log_dir = codes "/v";
  component_log_dir = codes "/l";
  binary_targets = [];
  binary_url = [];
  bridge_state_path = [];
  bridge_rpc_names = [];
  bridge_rpc_urls = [];
  slack_bot_token = [];
  outcome_channel = [];
  vote_ok_patterns = codes "vote" ∷ [];
  vote_fail_patterns = codes "CRIT" ∷ [];
  provider_fail_patterns = codes "RPC" ∷ [];
  oracle_vote_ok_patterns = codes "oracle" ∷ [];
  oracle_vote_fail_patterns = codes "failed" ∷ [];
  log_warn_patterns = [];
  log_crit_patterns = [];
}

-- A registry is the list of its full names.
abbrev pub plain : Registerer
plain = record {
  Registry = List Bytes;
  fq_name = joined;
  fq_name-joined = λ o h. refl;
  names = λ r. r;
  accepts_label = valid_string;
  accepts_label-valid = λ v. refl;
  must_register = λ r os. if distinct (map joined os ++ r) then some (map joined os ++ r) else none;
  must_register-some = λ r os h.
      (map joined os ++ r, ap (λ b. if b then some (map joined os ++ r) else none) h, refl);
}

abbrev pub base_names : List Bytes
base_names = codes "go_goroutines" ∷ codes "process_cpu_seconds_total" ∷ []

register_all-registrations_example :
    (r : List Bytes) × (register_all plain base_names (registrations config) ≡ some r)
    × (r ≡ stack joined [] (registrations config) ++ base_names)
unfolding has_prefix
register_all-registrations_example =
    register_all-registrations plain config base_names refl (refl, (refl, tt))

abbrev pub interval : PollingTailer
interval = record { has_latest_file_fn = true; poll_interval = pos 250 }

abbrev first : Bytes
first = codes "a vote\nhalf "

abbrev second : Bytes
second = codes "a vote\n"

abbrev pub rounds : Bytes → List World
rounds dir = world first ∷ world (first ++ second) ∷ []

abbrev pub followed : List Segment
followed = (codes "/l/1", first ++ second) ∷ []

pub rounds-Rotating : (dir : Bytes) → Rotating initial (rounds dir) followed
rounds-Rotating dir =
    rotated (codes "/l/1") 3 key (world first) first (first ++ second) refl refl
      (world-Serves first) (more second (world-Serves (first ++ second)) done) ended

-- All of the bridge voter's matches come first.
abbrev pub in_turn : List Match → List Match → List VoteEvent
in_turn [] [] = []
in_turn [] (m ∷ os) = oracle m ∷ in_turn [] os
in_turn (m ∷ ms) os = bridge m ∷ in_turn ms os

pub in_turn-Interleaves : (ms os : List Match) → Interleaves ms os (in_turn ms os)
in_turn-Interleaves [] [] = Interleaves.done
in_turn-Interleaves [] (m ∷ os) = Interleaves.from_oracle (in_turn-Interleaves [] os)
in_turn-Interleaves (m ∷ ms) os = Interleaves.from_bridge (in_turn-Interleaves ms os)

abbrev pub started : VoteLogsCollector ideal × ExporterMetrics ideal
started = (new_vote_logs_collector ideal (moment 1), new_exporter_metrics ideal)

abbrev pub patterns : VotePatterns
patterns = vote_patterns literal config

-- The lines of the log that the bridge patterns match, once for each of these.
abbrev voting : List Bytes
voting = map (λ d. d.line) (all_deliveries reader (bridge_patterns patterns) followed)

start_votes_example :
    (let after = start ideal literal config (polling interval reader rounds) in_turn started in
      (ok_total ideal literal patterns after.0
        ≡ line_votes ideal literal patterns (ok_total ideal literal patterns started.0) voting)
      × (after.1 ≡ started.1))
start_votes_example =
    start_votes ideal reader config interval rounds in_turn started.0 started.1 followed refl
      (rounds-Rotating (bridge_dir config)) in_turn-Interleaves

-- The lines that the tailer sends of the two logs.
abbrev bridge_lines : List Bytes
bridge_lines = voting

abbrev oracle_lines : List Bytes
oracle_lines = map (λ d. d.line) (all_deliveries reader (oracle_patterns patterns) followed)

start_counts_example :
    (let after = (start ideal literal config (polling interval reader rounds) in_turn started).0 in
      (after.bridge_vote_tot.0 status_fail
        ≡ line_steps (bridge_fail_line ideal literal patterns) (pos 0) bridge_lines)
      × (after.bridge_provider_fail_tot.0 (codes "7" ∷ codes "5" ∷ [])
          ≡ line_steps
              (provider_fail_line ideal literal patterns (codes "7") (codes "5"))
              (pos 0)
              bridge_lines)
      × (after.oracle_vote_tot.0 status_ok
          ≡ line_steps (oracle_ok_line ideal literal patterns) (pos 0) oracle_lines)
      × (after.oracle_vote_tot.0 status_fail
          ≡ line_steps (oracle_fail_line ideal literal patterns) (pos 0) oracle_lines))
unfolding new_vote_logs_collector vpub_exporter.Collectors.VoteLogs.seed_vote_logs
start_counts_example =
    start_counts ideal reader config interval rounds in_turn started.0 started.1 refl
      in_turn-Interleaves (codes "7") (codes "5") followed followed
      (rounds-Rotating (bridge_dir config)) (rounds-Rotating (oracle_dir config))

-- Each of the two lines has the seven votes of its match.
votes_run : line_votes ideal literal patterns (pos 0) voting ≡ pos 14
unfolding ◌+ℤ◌ is_continuation contains compile_patterns first_capture1_int atoi first_capture2
votes_run = refl

abbrev empty_rpcs : List Bytes
empty_rpcs = codes "a" ∷ codes "b" ∷ []

new-series_example :
    (let rpc = new_bridge_rpc_collector ideal empty_rpcs in
      let mtimes = new_log_mtime_collector ideal (codes "/v") (codes "/l") in
      let votes = new_vote_logs_collector ideal (moment 1) in
      let visor = new_visor_log_collector ideal in
      (rpc.up (codes "b" ∷ []) ≡ some (pos 0))
      × (rpc.check_tot.1 (codes "b" ∷ codes "timeout" ∷ []) ≡ true)
      × (rpc.check_tot.0 (codes "b" ∷ codes "timeout" ∷ []) ≡ pos 0)
      × (mtimes.mtime (codes "b" ∷ []) ≡ none)
      × (votes.bridge_vote_tot.1 (codes "timeout" ∷ []) ≡ false)
      × (votes.bridge_vote_tot.0 (codes "timeout" ∷ []) ≡ pos 0)
      × (votes.oracle_vote_tot.1 (codes "timeout" ∷ []) ≡ false)
      × (votes.oracle_vote_tot.0 (codes "timeout" ∷ []) ≡ pos 0)
      × (votes.bridge_last_ok ≡ pos 1)
      × (votes.oracle_last_ok ≡ pos 1)
      × (visor.child_restart.1 (codes "b" ∷ []) ≡ false)
      × (visor.child_restart.0 (codes "b" ∷ []) ≡ pos 0)
      × (votes.bridge_provider_fail_tot.1 (codes "b" ∷ codes "timeout" ∷ []) ≡ false))
unfolding unix
new-series_example =
    new-series ideal empty_rpcs (codes "/v") (codes "/l") (moment 1) (codes "b") (codes "timeout")
