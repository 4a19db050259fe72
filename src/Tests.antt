-- ===== src/Tests.antt =====
-- Runs of the definitions at fixed inputs.
pub mod Ideal
pub mod Tailing
pub mod Votes
pub mod Exports
mod Pools
mod Children
pub mod Starts
mod Loading
pub mod Events
mod Requests
mod Process
mod Downloads
mod Watching
mod Secrets
mod LastVotes
mod Endings
mod Window
mod LogStarts
mod Stamps
use mathlib.Core.Bool.{Bool}
use vpub_exporter.Prelude.{◌≡◌, refl, none, some, [], ◌∷◌, pos, negsuc}
use vpub_exporter.Text.{
  codes, trim_space, fields, split, split_n2, join, atoi, contains, index_byte,
}
use vpub_exporter.Clock.{date, days_in, unix}
use vpub_exporter.Logtail.Timestamp.{parse_line_timestamp, parse_in_location}

trim_space_run : trim_space (codes " \ta b\r\n") ≡ codes "a b"
unfolding trim_space
trim_space_run = refl

trim_space_wide : trim_space (0xc2 ∷ 0xa0 ∷ b'x' ∷ 0xe3 ∷ 0x80 ∷ 0x80 ∷ []) ≡ codes "x"
unfolding trim_space
trim_space_wide = refl

fields_run : fields (codes " S  42 7") ≡ codes "S" ∷ codes "42" ∷ codes "7" ∷ []
unfolding fields
fields_run = refl

split_run : split (codes "a,,b") b',' ≡ codes "a" ∷ [] ∷ codes "b" ∷ []
unfolding split
split_run = refl

split_n2_run : split_n2 (codes "a=b=c") b'=' ≡ codes "a" ∷ codes "b=c" ∷ []
unfolding split_n2
split_n2_run = refl

join_run : join (codes "/a/../b//") (codes "c") ≡ codes "/b/c"
unfolding join
join_run = refl

atoi_run : (atoi (codes "-12") ≡ some (negsuc 11)) × (atoi (codes "+7") ≡ some (pos 7))
unfolding atoi
atoi_run = (refl, refl)

atoi_out_of_range : (atoi (codes "9223372036854775808") ≡ none) × (atoi (codes "-") ≡ none)
unfolding atoi
atoi_out_of_range = (refl, refl)

contains_run : contains (codes "xxab") (codes "ab") ≡ Bool.true
unfolding contains
contains_run = refl

timestamp_run :
    parse_line_timestamp (codes "2026-06-06T11:50:04.670582 INFO x")
    ≡ some (date 2026 6 6 11 50 4 670582000)
unfolding parse_line_timestamp parse_in_location index_byte days_in
timestamp_run = refl

unix_run : unix (date 2026 6 6 11 50 4 0) ≡ pos 1780746604
unfolding unix date
unix_run = refl

timestamp_bad_day : parse_line_timestamp (codes "2026-02-29T11:50:04 INFO x") ≡ none
unfolding parse_line_timestamp parse_in_location index_byte days_in
timestamp_bad_day = refl
