-- ===== src/Tests/Stamps.antt =====
-- Examples for the time stamps of log lines.
use vpub_exporter.Prelude.{some, ◌≡◌, arith, ◌≤◌, length}
use vpub_exporter.Text.{codes}
use vpub_exporter.Clock.{date, days_in}
use vpub_exporter.Logtail.Timestamp.{parse_line_timestamp}
use vpub_exporter.Logtail.Timestamp.Print.{Stamp, IsValid, parse_line_timestamp-print}
use vpub_exporter.Logtail.Timestamp.Head.{Head}
use vpub_exporter.Logtail.Timestamp.Bounds.{IsTime, parse_line_timestamp-IsTime}

abbrev stamp : Stamp
stamp = record {
  year = 2026;
  month = 6;
  day = 6;
  hour = 11;
  minute = 50;
  second = 4;
  micro = 670582;
}

stamp-IsValid : IsValid stamp
unfolding days_in
stamp-IsValid = record {
  year_in = omega arith;
  month_in = (omega arith, omega arith);
  day_in = (omega arith, omega arith);
  hour_in = omega arith;
  minute_in = omega arith;
  second_in = omega arith;
  micro_in = omega arith;
}

parse_line_timestamp-print_example :
    parse_line_timestamp (codes "2026-06-06T11:50:04.670582 INFO")
    ≡ some (date 2026 6 6 11 50 4 670582000)
parse_line_timestamp-print_example = parse_line_timestamp-print stamp (codes "INFO") stamp-IsValid

parse_line_timestamp-IsTime_example :
    (let line = codes "2026-06-06T11:50:04.670582 INFO" in
      Head line (date 2026 6 6 11 50 4 670582000)
      × (19 ≤ length line)
      × IsTime (date 2026 6 6 11 50 4 670582000))
parse_line_timestamp-IsTime_example =
    parse_line_timestamp-IsTime (codes "2026-06-06T11:50:04.670582 INFO")
      (date 2026 6 6 11 50 4 670582000) parse_line_timestamp-print_example
