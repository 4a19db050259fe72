-- ===== src/Tests/Events.antt =====
-- Examples for the collectors of single log lines, the ticker and the probe of RPC endpoints.
use vpub_exporter.Prelude.{
  ℕ, zero, suc, ◌+◌, true, false, Option, none, some, List, [], ◌∷◌, ◌≡◌, refl, pos, ◌+ℤ◌,
  if◌then◌else◌,
}
use vpub_exporter.Text.{Bytes, codes, contains}
use vpub_exporter.Regexp.{Engine}
use vpub_exporter.Errors.{ok, failure, Outcome, success, fails, unset}
use vpub_exporter.Clock.{unix}
use vpub_exporter.Components.{component_bridge_voter}
use vpub_exporter.Logtail.Drain.{Match}
use vpub_exporter.Collectors.Base.{ExporterMetrics, Event, cancelled, tick, run_ticker}
use vpub_exporter.Collectors.Base.Errors.{run_ticker-metrics}
use vpub_exporter.Collectors.EventLogs.{
  LogEvent, matched, closed, VisorLogCollector, visor_download_pattern, visor_crit_pattern, group1,
  valid_child,
}
use vpub_exporter.Collectors.EventLogs.Totals.{delivered, steps, download_step, crit_step}
use vpub_exporter.Probes.Http.{Response}
use vpub_exporter.Probes.SlackHttp.{HistoryResp, history_24h}
use vpub_exporter.Collectors.Slack.{OutcomeSlackCollector, tick_outcome}
use vpub_exporter.Tests.Ideal.{ideal, moment, no_counts, literal}

abbrev line_at : Bytes → ℕ → Match
line_at line n = record { pattern = codes "p"; line = line; file = codes "/l/1"; at = moment n }

-- Two lines of the log, the end of the channel, and a line behind it.
abbrev events : List LogEvent
events =
    matched (line_at visor_download_pattern 3)
    ∷ matched (line_at visor_crit_pattern 4)
    ∷ closed
    ∷ matched (line_at visor_crit_pattern 5)
    ∷ []

-- In each match the group is the name of the bridge voter.
abbrev named : Engine
named = record {
  compiles = λ p. true;
  find_string_submatch =
      λ p line. if contains line p then line ∷ component_bridge_voter ∷ [] else [];
}

downloads_run :
    steps (download_step ideal named component_bridge_voter) none (delivered events) ≡ some (pos 3)
unfolding contains group1 valid_child unix
downloads_run = refl

abbrev visor_log : VisorLogCollector ideal
visor_log = record { child_restart = no_counts; visor_crit = pos 0 }

-- One CRIT line before the end of the channel.
visor_run : steps (crit_step ideal literal) (pos 0) (delivered events) ≡ pos 1
unfolding contains group1 ◌+ℤ◌
visor_run = refl

-- A function that counts its calls, and fails with no kind where the world is not 0.
abbrev counting : ℕ → ℕ → ℕ × Outcome
counting zero s = (s + 1, success)
counting (suc w) s = (s + 1, fails unset (failure (codes "x")))

abbrev pub em : ExporterMetrics ideal
em = record { collection_duration = λ k. 0; collection_errors = no_counts }

abbrev rounds : List (Event ℕ)
rounds = tick 1 ∷ cancelled ∷ tick 1 ∷ []

run_ticker-metrics_example :
    ((run_ticker ideal (codes "c") (λ w. pos w) counting 0 rounds (5, em)).0 ≡ 7)
    × ((run_ticker ideal (codes "c") (λ w. pos w) counting 0 rounds (5, em)).1.collection_errors.0
          (codes "c" ∷ codes "io" ∷ [])
        ≡ pos 1)
    × ((run_ticker ideal (codes "c") (λ w. pos w) counting 0 rounds (5, em)).1.collection_duration
          (codes "c" ∷ [])
        ≡ 2)
unfolding ◌+ℤ◌
run_ticker-metrics_example =
    run_ticker-metrics ideal (codes "c") (λ w. pos w) counting 0 rounds 5 em (codes "io")

abbrev response : ℕ → Bytes → Response
response status body = record {
  status_code = status;
  body = body;
  body_error = none;
  last_modified = [];
}

-- One message, and no further page.
abbrev page : Bytes → Option HistoryResp
page b = some (record { ok_field = true; messages = codes "1.5" ∷ []; has_more = false })

abbrev channel_watch : OutcomeSlackCollector ideal
channel_watch = record {
  token = codes "t";
  channel = codes "C";
  gauge = pos 4;
  last_val = pos 4;
  has_val = true;
}

tick_outcome_run :
    (tick_outcome ideal (history_24h page (ok (response 200 []))) channel_watch).0.gauge ≡ pos 1
unfolding tick_outcome history_24h
tick_outcome_run = refl
