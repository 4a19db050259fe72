-- ===== src/Tests/Downloads.antt =====
-- Examples for the time of a download in the visor's log.
use vpub_exporter.Prelude.{
  true, none, List, [], ◌∷◌, ◌++◌, ◌≡◌, refl, ap, map, pos, All, if◌then◌else◌,
}
use vpub_exporter.Text.{Bytes, codes, contains, index_byte}
use vpub_exporter.Components.{component_bridge_voter}
use vpub_exporter.Clock.{date, days_in}
use vpub_exporter.Regexp.{Engine}
use vpub_exporter.Logtail.Timestamp.{parse_line_timestamp, parse_in_location}
use vpub_exporter.Logtail.Drain.{Match, Reader, is_continuation}
use vpub_exporter.Logtail.Poll.{PollingTailer, World, initial}
use vpub_exporter.Logtail.Tailer.{polling}
use vpub_exporter.Logtail.Delivery.{done}
use vpub_exporter.Logtail.Rotating.{Segment, Rotating, rotated, ended, all_deliveries}
use vpub_exporter.Collectors.EventLogs.{LogEvent, matched, visor_download_pattern}
use vpub_exporter.Collectors.EventLogs.Totals.{delivered}
use vpub_exporter.Collectors.EventLogs.Start.{start_download, line_steps}
use vpub_exporter.Collectors.EventLogs.Downloads.{
  HasStamp, download_patterns, download_line, start_download-lines,
}
use vpub_exporter.Tests.Ideal.{ideal, no_gauges, world, world-Serves, key}
use vpub_exporter.Tests.Events.{em}

-- In each match the group is the name of the bridge voter.
abbrev named : Engine
named = record {
  compiles = λ p. true;
  find_string_submatch =
      λ p line. if contains line p then line ∷ component_bridge_voter ∷ [] else [];
}

abbrev visor_reader : Reader
visor_reader = record { engine = named; line_prefix = none }

abbrev download : Bytes
download = codes "2026-06-06T11:50:04.670582 INFO " ++ visor_download_pattern

abbrev visor_file : Bytes
visor_file = download ++ codes "\nother\n"

abbrev files : List Segment
files = (codes "/l/1", visor_file) ∷ []

abbrev rounds : Bytes → List World
rounds dir = world visor_file ∷ []

rounds-Rotating : (dir : Bytes) → Rotating initial (rounds dir) files
rounds-Rotating dir =
    rotated (codes "/l/1") 3 key (world visor_file) visor_file visor_file refl refl
      (world-Serves visor_file) done ended

abbrev tailer : PollingTailer
tailer = record { has_latest_file_fn = true; poll_interval = pos 250 }

abbrev matched_all : List Match → List LogEvent
matched_all ms = map matched ms

delivered-matched_all : (ms : List Match) → delivered (matched_all ms) ≡ ms
delivered-matched_all [] = refl
delivered-matched_all (m ∷ ms) = ap (◌∷◌ m) (delivered-matched_all ms)

files-HasStamp : All (λ d. HasStamp d.line) (all_deliveries visor_reader download_patterns files)
unfolding is_continuation contains parse_line_timestamp parse_in_location index_byte days_in
files-HasStamp = ((date 2026 6 6 11 50 4 670582000, refl), tt)

start_download-lines_example :
    (let after =
        start_download ideal named
          (codes "/v")
          (polling tailer visor_reader rounds)
          matched_all
          (no_gauges, em) in
      (after.0 (component_bridge_voter ∷ [])
        ≡ line_steps
            (download_line ideal visor_reader component_bridge_voter)
            none
            (map (λ d. d.line) (all_deliveries visor_reader download_patterns files)))
      × (after.1 ≡ em))
start_download-lines_example =
    start_download-lines ideal visor_reader tailer rounds matched_all (codes "/v") no_gauges em
      files component_bridge_voter refl (rounds-Rotating (codes "/v")) delivered-matched_all
      files-HasStamp
