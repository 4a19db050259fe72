-- ===== src/Tests/Exports.antt =====
-- Examples for the collectors that poll.
use vpub_exporter.Prelude.{
  ℕ, false, none, some, List, [], ◌∷◌, ◌++◌, ◌≡◌, ◌⊎◌, refl, ℤ, pos, arith, map, if◌then◌else◌,
}
use vpub_exporter.Text.{Bytes, codes, bytes_eq}
use vpub_exporter.Probes.Http.{Response}
use vpub_exporter.Probes.BinaryHttp.{remote_last_modified}
use vpub_exporter.Collectors.Binary.Answers.{ShowsLast, IsDated, Undated, tick_all-answers}
use vpub_exporter.Errors.{Result, ok, err, failure, success}
use vpub_exporter.Clock.{Time, unix}
use vpub_exporter.Components.{component_visor, component_bridge_voter}
use vpub_exporter.Collectors.BridgeRpc.{BridgeRpcCollector}
use vpub_exporter.Collectors.BridgeState
use vpub_exporter.Collectors.BridgeState.{BridgeStateCollector, StateWorld, Cursors}
use vpub_exporter.Collectors.BridgeState.Cursors.{IsMax, tick-IsMax}
use vpub_exporter.Collectors.Slack.{
  SlackHealthCollector, OutcomeSlackCollector, History, tick_health,
}
use vpub_exporter.Collectors.Slack.LastGood
use vpub_exporter.Collectors.Slack.LastGood.{tick_health-value, tick_all-last_good}
use vpub_exporter.Collectors.Binary.{BinaryCollector, Targets, components_sorted}
use vpub_exporter.Collectors.Binary.Remote
use vpub_exporter.Collectors.Binary.Remote.{visor}
use vpub_exporter.Tests.Ideal.{ideal, moment, no_counts, no_gauges}

abbrev pub rpc : BridgeRpcCollector ideal
rpc = record { up = no_gauges; latency = λ k. 0; check_tot = no_counts }

abbrev pub state : BridgeStateCollector ideal
state = record { path = codes "/s"; last_block = pos 1; mtime = pos 1; explorer_cursor = no_gauges }

abbrev cursors : Cursors
cursors = (codes "b", pos 40) ∷ (codes "c", pos 7) ∷ []

abbrev state_world : Result Cursors → StateWorld
state_world r = record {
  stat = λ p. ok (record { mod_time = moment 9; size = 100 });
  open_file = λ p. ok tt;
  decode = r;
}

tick-IsMax_example :
    (m : ℤ) × IsMax m ((codes "a", pos 3) ∷ cursors)
    × ((vpub_exporter.Collectors.BridgeState.tick ideal
          (state_world (ok ((codes "a", pos 3) ∷ cursors)))
          state).0.last_block
        ≡ m)
    × ((vpub_exporter.Collectors.BridgeState.tick ideal
          (state_world (ok ((codes "a", pos 3) ∷ cursors)))
          state).0.mtime
        ≡ pos 9)
    × ((vpub_exporter.Collectors.BridgeState.tick ideal
          (state_world (ok ((codes "a", pos 3) ∷ cursors)))
          state).1
        ≡ success)
unfolding unix
tick-IsMax_example =
    tick-IsMax ideal (state_world (ok ((codes "a", pos 3) ∷ cursors))) state (codes "a", pos 3)
      cursors refl
      (record {
        file = record { mod_time = moment 9; size = 100 };
        stat_is = refl;
        fits = omega arith;
        opens = refl;
        decodes = refl;
      })

abbrev pub health : SlackHealthCollector ideal
health = record { token = codes "xoxb"; ok_gauge = pos 0 }

abbrev pub slack_collector : OutcomeSlackCollector ideal
slack_collector = record {
  token = codes "xoxb";
  channel = codes "C1";
  gauge = pos 0;
  last_val = pos 0;
  has_val = false;
}

abbrev histories : List History
histories =
    record { count = 4; error = none }
    ∷ record { count = 9; error = some (failure (codes "429")) }
    ∷ []

-- The partial count 9 that came with an error is not shown.
tick_all-last_good_example :
    (vpub_exporter.Collectors.Slack.LastGood.tick_all ideal histories slack_collector).gauge ≡ pos 4
tick_all-last_good_example =
    tick_all-last_good ideal histories slack_collector refl refl (λ h. absurd (ground arith))

abbrev pub binary : BinaryCollector ideal
binary = record {
  targets = (component_visor, codes "/v") ∷ (component_bridge_voter, codes "/b") ∷ [];
  remote_url = codes "http://x";
  local_mtime = no_gauges;
  remote_mtime = no_gauges;
  remote_ok = no_gauges;
  last_remote = pos 0;
  has_remote = false;
}

abbrev head : ℕ → Bytes → Response
head status date = record {
  status_code = status;
  body = [];
  body_error = none;
  last_modified = date;
}

-- One date that it knows.
abbrev parse_date : Bytes → Result Time
parse_date v = if bytes_eq v (codes "Sun") then ok (moment 8) else err (failure v)

-- A dated answer, one whose date does not parse, and a refusal.
abbrev heads : List (Result Response)
heads = ok (head 200 (codes "Sun")) ∷ ok (head 200 (codes "Someday")) ∷ []

abbrev refusal : Result Response
refusal = ok (head 503 [])

tick_all-answers_example :
    (let after =
        vpub_exporter.Collectors.Binary.Remote.tick_all ideal
          (map (remote_last_modified parse_date) (heads ++ refusal ∷ []))
          binary in
      ShowsLast parse_date ideal (heads ++ refusal ∷ []) none (after.remote_mtime visor)
      × (((t : Time) × IsDated parse_date refusal t × (after.remote_ok visor ≡ some (pos 1)))
          ⊎ (Undated parse_date refusal × (after.remote_ok visor ≡ some (pos 0)))))
tick_all-answers_example =
    tick_all-answers parse_date ideal heads refusal binary refl (λ h. absurd (ground arith))

-- The gauge shows the time of the first of the three answers.
heads_run :
    (vpub_exporter.Collectors.Binary.Remote.tick_all ideal
        (map (remote_last_modified parse_date) (heads ++ refusal ∷ []))
        binary).remote_mtime
      visor
    ≡ some (pos 8)
unfolding vpub_exporter.Collectors.Binary.tick_remote remote_last_modified unix
heads_run = refl
